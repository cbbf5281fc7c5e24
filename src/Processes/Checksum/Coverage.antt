-- ===== src/Processes/Checksum/Coverage.antt =====
-- Which bytes of a message `compute_checksum` covers.
use osa_sp.Base.{
  ℕ, zero, suc, ◌+◌, ◌-◌, ◌%◌, ◌^◌, ◌≤◌, ◌≡◌, refl, sym, ap, ◌∙◌, false, ◌&&◌, List, [], ◌∷◌, arith,
  ltb, leb, if◌then◌else◌, get_or, set, get_or-set_ne, ap₂, true, dec_lt,
}
use osa_sp.Processes.Checksum.{MsgPayload, mix, checksum_loop, compute_checksum}

-- The bytes mixed one after the other.
abbrev pub mix_all : ℕ → List ℕ → ℕ
mix_all h [] = h
mix_all h (b ∷ bs) = mix_all (mix h b) bs

-- the `n` payload bytes from index `i` on
abbrev pub payload_from : MsgPayload → ℕ → ℕ → List ℕ
payload_from m i zero = []
payload_from m i (suc n) = get_or m.payload_data i 0 ∷ payload_from m (suc i) n

-- What the checksum covers: the type, the gap and, from three bytes of data on, the length and all
-- bytes of data but the last three.
abbrev pub checked_bytes : MsgPayload → List ℕ
checked_bytes m =
    m.msg_type
    ∷ m.gap
    ∷ (if ltb m.data_len_bytes 3
        then []
        else m.data_len_bytes ∷ payload_from m 0 (m.data_len_bytes - 3))

-- The offset of the payload byte `i`.
abbrev offset : ℕ → ℕ
offset i = suc (suc (suc (suc (suc i))))

checksum_loop-step :
    (n i : ℕ) (m : MsgPayload) (h : ℕ)
    → checksum_loop (suc n) (offset i) m h
      ≡ checksum_loop n (offset (suc i)) m (mix h (get_or m.payload_data i 0))
unfolding checksum_loop
checksum_loop-step n i m h =
    let past : leb 2 (offset i) && ltb (offset i) 4 ≡ false = ground arith in
    let next : offset i + 1 ≡ offset (suc i) = omega arith in rw (past, next)

payload_loop :
    (n i : ℕ) (m : MsgPayload) (h : ℕ)
    → checksum_loop n (offset i) m h ≡ mix_all h (payload_from m i n)
unfolding checksum_loop
payload_loop zero i m h = refl
payload_loop (suc n) i m h =
    checksum_loop-step n i m h ∙ payload_loop n (suc i) m (mix h (get_or m.payload_data i 0))

-- From the fifth byte of the struct on: the length, then the payload.
length_loop :
    (n : ℕ) (m : MsgPayload) (h : ℕ)
    → checksum_loop (suc n) 4 m h ≡ mix_all (mix h m.data_len_bytes) (payload_from m 0 n)
unfolding checksum_loop
length_loop n m h = payload_loop n 0 m (mix h m.data_len_bytes)

-- The checksum is the mix of exactly those bytes, cut to 16 bits: it never reads the stored hash, and
-- of `len` bytes of data it leaves out the last three (all of them, and the length, if `len` is below 3).
pub compute_checksum-coverage :
    (m : MsgPayload) → compute_checksum m ≡ mix_all 5381 (checked_bytes m) % 2 ^ 16
unfolding compute_checksum checksum_loop
compute_checksum-coverage m = go m.data_len_bytes refl
  where
    long :
        (n : ℕ)
        → m.data_len_bytes ≡ suc (suc (suc n))
        → (if ltb m.data_len_bytes 3
            then []
            else m.data_len_bytes ∷ payload_from m 0 (m.data_len_bytes - 3))
          ≡ m.data_len_bytes ∷ payload_from m 0 n
    long n e =
        let enough : ltb m.data_len_bytes 3 ≡ false = ground arith in
        let rest : m.data_len_bytes - 3 ≡ n = omega arith in rw (enough, rest)

    go :
        (len : ℕ)
        → m.data_len_bytes ≡ len
        → compute_checksum m ≡ mix_all 5381 (checked_bytes m) % 2 ^ 16
    go zero e = rw e
    go (suc zero) e = rw e
    go (suc (suc zero)) e = rw e
    go (suc (suc (suc n))) e =
        ap (λ (k : ℕ). checksum_loop k 0 m 5381 % 2 ^ 16)
          (let rounds : 1 + 1 + m.data_len_bytes ≡ suc (suc (suc (suc (suc n)))) = omega arith in
            rounds)
        ∙ ap (λ (h : ℕ). h % 2 ^ 16) (length_loop n m (mix (mix 5381 m.msg_type) m.gap))
        ∙ ap (λ (l : List ℕ). mix_all 5381 (m.msg_type ∷ m.gap ∷ l) % 2 ^ 16) (sym (long n e))

payload_from-set :
    (n i : ℕ) (m : MsgPayload) (j b : ℕ)
    → i + n ≤ j
    → payload_from (record m { payload_data = set m.payload_data j b }) i n ≡ payload_from m i n
payload_from-set zero i m j b h = refl
payload_from-set (suc n) i m j b h =
    ap₂ ◌∷◌ (get_or-set_ne m.payload_data j i b 0 (omega arith))
      (payload_from-set n (suc i) m j b (omega arith))

-- A change of one of the last three bytes of data, or of any byte behind them, is never noticed.
pub last_three_unchecked :
    (m : MsgPayload) (j b : ℕ)
    → m.data_len_bytes ≤ j + 3
    → compute_checksum (record m { payload_data = set m.payload_data j b }) ≡ compute_checksum m
last_three_unchecked m j b h =
    compute_checksum-coverage (record m { payload_data = set m.payload_data j b })
    ∙ ap (λ (l : List ℕ). mix_all 5381 (m.msg_type ∷ m.gap ∷ l) % 2 ^ 16) same
    ∙ sym (compute_checksum-coverage m)
  where
    same :
        (if ltb m.data_len_bytes 3
          then []
          else m.data_len_bytes
            ∷ payload_from
                (record m { payload_data = set m.payload_data j b })
                0
                (m.data_len_bytes - 3))
        ≡ (if ltb m.data_len_bytes 3
            then []
            else m.data_len_bytes ∷ payload_from m 0 (m.data_len_bytes - 3))
    same = elim (dec_lt m.data_len_bytes 3) [
      | yes few ↦ let t : ltb m.data_len_bytes 3 ≡ true = ground arith in rw t
      | no enough ↦ rw (payload_from-set (m.data_len_bytes - 3) 0 m j b (omega arith))
    ]
