-- ===== src/Threads/Message/Tests.antt =====
-- Messages at concrete inputs.
use osa_sp.Base.{ℕ, ◌+◌, ◌*◌, ◌%◌, ◌^◌, ◌<◌, ◌≡◌, ◌≢◌, refl, none, some, [], ◌∷◌, arith, get_or}
use osa_sp.Threads.Message.{
  Message, calculate_hash, hash_loop, finish_hash, rotate_hash, create_message, seal, stamp,
  clear_padding, clear_tail, fill_loop, memory,
}
use osa_sp.Threads.Message.Hash.{IsValid, corrupt, calculate_hash_detects}
use osa_sp.Threads.Message.Create.{create_message-IsValid}

abbrev sample : Message
sample = record { type = 7; hash = 0; size = 2; bytes = 10 ∷ 20 ∷ 30 ∷ 0 ∷ [] }

abbrev lcg : ℕ → ℕ × ℕ
lcg s = ((s * 1103515245 + 12345) % 2 ^ 31, (s * 1103515245 + 12345) % 2 ^ 31)

sample-IsValid : IsValid sample
sample-IsValid = omega arith

-- 7 ^ 2 ^ 10 ^ 20 ^ 30, rotated by eight
hash-sample : calculate_hash (some sample) ≡ 0x0500
unfolding calculate_hash hash_loop finish_hash rotate_hash
hash-sample = refl

hash-null : calculate_hash none ≡ 0
unfolding calculate_hash
hash-null = refl

create_message_runs : (create_message lcg (some (λ _. 0xAA)) 2).0 ≢ none
unfolding create_message seal stamp clear_padding clear_tail fill_loop memory
create_message_runs = cc

calculate_hash_detects_example :
    calculate_hash (some (corrupt sample 1 21)) ≢ calculate_hash (some sample)
calculate_hash_detects_example =
    calculate_hash_detects 1 21 sample-IsValid (omega arith) (omega arith) (omega arith)

create_message-IsValid_example :
    (m : Message) × ((create_message lcg (some (λ i. i + 1)) 5).0 ≡ some m)
    × IsValid m
    × ((j : ℕ) → m.size < j → get_or m.bytes j 0 ≡ 0)
    × (m.hash ≡ calculate_hash (some m))
create_message-IsValid_example = create_message-IsValid lcg (λ i. i + 1) 5
