-- ===== src/Threads/Message/Create.antt =====
-- `create_message`: what it returns on both branches of `malloc`, for every `rand_r`.
use osa_sp.Base.{
  ℕ, zero, suc, ◌+◌, ◌-◌, ◌%◌, ◌≤◌, ◌<◌, ◌≡◌, refl, sym, ap, ◌∙◌, none, some, List, [], ◌∷◌, arith,
  Bool-cases, inl, inr, ltb, if◌then◌else◌, length, length-set, get_or, set, get_or-set_self,
  get_or-set_ne,
}
use osa_sp.Threads.Message.{
  Message, padded_data_size, total_message_size, calculate_hash, fill_loop, memory, clear_tail,
  clear_padding, stamp, seal, create_message,
}
use osa_sp.Threads.Message.Hash.{IsValid, AreBytes}

-- `data` starts 5 bytes into the struct (one byte of padding stands before `hash`): the allocation of
-- `TOTAL_MESSAGE_SIZE + 1` bytes ends exactly where the padded payload does.
allocation_exact : (s : ℕ) → 5 + padded_data_size s ≡ total_message_size s + 1
allocation_exact s = omega arith

-- The cells below `i` hold bytes, those from `i` on are not written yet.
abbrev FilledTo : ℕ → List ℕ → Type 0
FilledTo i bytes = (j : ℕ) → j < i → get_or bytes j 0 < 256

AreBytes-of_cells : (bytes : List ℕ) → FilledTo (length bytes) bytes → AreBytes bytes
AreBytes-of_cells [] f = tt
AreBytes-of_cells (x ∷ xs) f =
    (f 0 (omega arith), AreBytes-of_cells xs (λ j h. f (suc j) (omega arith)))

FilledTo-set :
    (bytes : List ℕ) (i b : ℕ)
    → i < length bytes
    → b < 256
    → FilledTo i bytes
    → FilledTo (i + 1) (set bytes i b)
FilledTo-set bytes i b lt hb f j h =
    ground (arith, get_or-set_self bytes i b 0 lt, get_or-set_ne bytes i j b 0, f j)

-- What `fill_loop` has made of the payload.
record Wrote (old : List ℕ) (upto : ℕ) (new : List ℕ) : Type 0 where
  same_length : length new ≡ length old
  filled : FilledTo upto new

length-memory : (n i : ℕ) (junk : ℕ → ℕ) → length (memory n i junk) ≡ n
unfolding memory
length-memory zero i junk = refl
length-memory (suc n) i junk = ap suc (length-memory n (i + 1) junk)

get_or_beyond : (bytes : List ℕ) (j : ℕ) → length bytes ≤ j → get_or bytes j 0 ≡ 0
get_or_beyond [] j h = refl
get_or_beyond (x ∷ xs) zero h = absurd (omega arith)
get_or_beyond (x ∷ xs) (suc j) h = get_or_beyond xs j (omega arith)

length-clear_tail : (n from : ℕ) (bytes : List ℕ) → length (clear_tail n from bytes) ≡ length bytes
unfolding clear_tail
length-clear_tail zero from bytes = refl
length-clear_tail (suc n) from bytes =
    length-clear_tail n (from + 1) (set bytes from 0) ∙ length-set bytes from 0

get_or-clear_tail :
    (n from : ℕ) (bytes : List ℕ) (j : ℕ)
    → from + n ≡ length bytes
    → get_or (clear_tail n from bytes) j 0 ≡ (if ltb j from then get_or bytes j 0 else 0)
unfolding clear_tail
get_or-clear_tail zero from bytes j e = ground (arith, get_or_beyond bytes j)
get_or-clear_tail (suc n) from bytes j e = ground (
  arith,
  get_or-clear_tail n (from + 1) (set bytes from 0) j (omega (arith, length-set bytes from 0)),
  get_or-set_self bytes from 0 0 (omega arith),
  get_or-set_ne bytes from j 0 0,
)

module _ (rand_r : ℕ → ℕ × ℕ) where
  -- With room for the `n` cells the bounds check never fires.
  fill_loop_lem :
      (n i padded : ℕ) (bytes : List ℕ) (seed : ℕ)
      → i + n ≤ padded
      → padded ≡ length bytes
      → FilledTo i bytes
      → (out : List ℕ) × ((fill_loop rand_r n i padded bytes seed).0 ≡ some out)
        × Wrote bytes (i + n) out
  unfolding fill_loop
  fill_loop_lem zero i padded bytes seed p e f =
      (bytes, refl, record { same_length = refl; filled = λ j h. f j (omega arith) })
  fill_loop_lem (suc n) i padded bytes seed p e f =
      let b : ℕ = (rand_r seed).0 % 256 in
      let long = length-set bytes i b in
      let (out, done, w) =
        fill_loop_lem n (i + 1) padded (set bytes i b) (rand_r seed).1 (omega arith)
          (omega (arith, length-set bytes i b))
          (FilledTo-set bytes i b (omega arith) (omega arith) f) in
      (
        out,
        ground (arith, done),
        record { same_length = w.same_length ∙ long; filled = λ j h. w.filled j (omega arith) },
      )

-- A payload that the fill loop and the clearing of the tail leave behind.
record Sealed (size : ℕ) (bytes : List ℕ) : Type 0 where
  padded : length bytes ≡ padded_data_size size
  fit : AreBytes bytes
  tail_zero : (j : ℕ) → size < j → get_or bytes j 0 ≡ 0

Sealed-clear_tail :
    (size : ℕ) (bytes : List ℕ)
    → length bytes ≡ padded_data_size size
    → FilledTo (size + 1) bytes
    → Sealed size (clear_padding size bytes)
unfolding clear_padding
Sealed-clear_tail size bytes e f = elim (Bool-cases (ltb (size + 1) (padded_data_size size))) [
  | inl some_left ↦ rw some_left (record {
    padded = length-clear_tail _ (size + 1) bytes ∙ e;
    fit =
        AreBytes-of_cells _
          (λ j h. ground (arith, get_or-clear_tail n (size + 1) bytes j (ground arith), f j));
    tail_zero = λ j h. ground (arith, get_or-clear_tail n (size + 1) bytes j (ground arith));
  })
  | inr full ↦ rw full (record {
    padded = e;
    fit = AreBytes-of_cells _ (λ j h. f j (ground arith));
    tail_zero = λ j h. get_or_beyond bytes j (ground arith);
  })
]
  where
    n : ℕ
    n = padded_data_size size - (size + 1)

module _ (rand_r : ℕ → ℕ × ℕ) where
  -- Whatever `rand_r` draws and whatever fresh memory holds, `create_message` returns a message when
  -- `malloc` succeeds, its fields fit their types, its payload has the padded size with zeros behind
  -- the `size + 1` bytes, and the stored hash is the one that `calculate_hash` computes from it.
  pub create_message-IsValid :
      (junk : ℕ → ℕ) (seed : ℕ)
      → (m : Message) × ((create_message rand_r (some junk) seed).0 ≡ some m)
        × IsValid m
        × ((j : ℕ) → m.size < j → get_or m.bytes j 0 ≡ 0)
        × (m.hash ≡ calculate_hash (some m))
  unfolding create_message seal stamp calculate_hash
  create_message-IsValid junk seed =
      let size : ℕ = (rand_r seed).0 % 256 in
      let next : ℕ = (rand_r seed).1 in
      let long = length-memory (padded_data_size size) 0 junk in
      let (out, done, w) =
        fill_loop_lem rand_r (size + 1) 0 (padded_data_size size)
          (memory (padded_data_size size) 0 junk) (rand_r next).1 (omega arith) (sym long)
          (λ j h. absurd (omega arith)) in
      let s = Sealed-clear_tail size out (w.same_length ∙ long) (λ j h. w.filled j (omega arith)) in
      let msg : Message = record {
        type = (rand_r next).0 % 256;
        hash = 0;
        size = size;
        bytes = clear_padding size out;
      } in
      (
        stamp msg,
        rw done refl,
        record {
          type_fits = omega arith;
          size_fits = omega arith;
          padded = s.padded;
          bytes_fit = s.fit;
        },
        s.tail_zero,
        refl,
      )

  -- Without memory `create_message` draws the size and returns NULL.
  pub create_message-none : (seed : ℕ) → create_message rand_r none seed ≡ (none, (rand_r seed).1)
  unfolding create_message
  create_message-none seed = refl
