-- ===== src/Threads/Message/Hash.antt =====
-- `calculate_hash`: its bounds check never fires on a well-formed message, its value in closed form,
-- and the corruption that it detects.
use osa_sp.Base.{
  ℕ, zero, suc, ◌+◌, ◌*◌, ◌≤◌, ◌<◌, bit_xor, ◌≡◌, ◌≢◌, refl, sym, ap, ◌∙◌, some, true, List, [],
  ◌∷◌, arith, ==_iff, ◌==◌, all_below, all_below_lem, bit_xor-lt, bit_xor_cancel_right,
  bit_xor_cancel_left, length, length-set, get_or, set, take, drop,
}
use osa_sp.Threads.Message.{
  Message, padded_data_size, hash_loop, rotate_hash, finish_hash, calculate_hash,
}

-- Every element is a byte.
abbrev pub AreBytes : List ℕ → Type 0
AreBytes [] = Unit
AreBytes (x ∷ xs) = (x < 256) × AreBytes xs

-- The fields fit their C types, and `data` has the padded size that its allocation gives it.
pub record IsValid (m : Message) : Type 0 where
  pub type_fits : m.type < 256
  pub size_fits : m.size < 256
  pub padded : length m.bytes ≡ padded_data_size m.size
  pub bytes_fit : AreBytes m.bytes

-- All numbers of a list xored onto an accumulator.
abbrev pub xor_all : ℕ → List ℕ → ℕ
xor_all acc [] = acc
xor_all acc (x ∷ xs) = xor_all (bit_xor acc x) xs

-- What the hash covers: the type, the size and the `size + 1` bytes of payload, without padding.
abbrev pub covered : Message → List ℕ
covered m = m.type ∷ m.size ∷ take (m.size + 1) m.bytes

take-suc-drop :
    (xs : List ℕ) (i n : ℕ)
    → i < length xs
    → take (suc n) (drop i xs) ≡ get_or xs i 0 ∷ take n (drop (suc i) xs)
take-suc-drop [] i n h = elim h [ ]
take-suc-drop (x ∷ xs) zero n h = refl
take-suc-drop (x ∷ xs) (suc i) n h = take-suc-drop xs i n (omega arith)

hash_loop_lem :
    (n i padded : ℕ) (bytes : List ℕ) (h : ℕ)
    → i + n ≤ padded
    → padded ≡ length bytes
    → hash_loop n i padded bytes h ≡ some (xor_all h (take n (drop i bytes)))
unfolding hash_loop
hash_loop_lem zero i padded bytes h p q = refl
hash_loop_lem (suc n) i padded bytes h p q = ground (
  arith,
  hash_loop_lem n (i + 1) padded bytes (bit_xor h (get_or bytes i 0)) (omega arith) q,
  take-suc-drop bytes i n,
  ap (λ (k : ℕ). take n (drop k bytes)) (let e : i + 1 ≡ suc i = omega arith in e),
)

xor_all-lt : (acc : ℕ) (xs : List ℕ) → acc < 256 → AreBytes xs → xor_all acc xs < 256
xor_all-lt acc [] h b = h
xor_all-lt acc (x ∷ xs) h b = xor_all-lt (bit_xor acc x) xs (bit_xor-lt acc x h b.0) b.1

take-AreBytes : (n : ℕ) (xs : List ℕ) → AreBytes xs → AreBytes (take n xs)
take-AreBytes zero xs b = tt
take-AreBytes (suc n) [] b = tt
take-AreBytes (suc n) (x ∷ xs) b = (b.0, take-AreBytes n xs b.1)

covered-AreBytes : {m : Message} → IsValid m → AreBytes (covered m)
covered-AreBytes {m} v =
    (v.type_fits, (v.size_fits, take-AreBytes (m.size + 1) m.bytes v.bytes_fit))

rotate_table : all_below 256 (λ x. rotate_hash x == x * 256) ≡ true
unfolding all_below rotate_hash
rotate_table = refl

rotate_hash_lem : (x : ℕ) → x < 256 → rotate_hash x ≡ x * 256
rotate_hash_lem x h =
    (==_iff _ _).0 (all_below_lem (λ k. rotate_hash k == k * 256) 256 rotate_table x h)

-- On a well-formed message the loop of `calculate_hash` never leaves the padded payload, and the hash
-- is 256 times the exclusive or of type, size and the `size + 1` bytes of payload.
pub calculate_hash-closed_form :
    {m : Message} → IsValid m → calculate_hash (some m) ≡ xor_all 0 (covered m) * 256
unfolding calculate_hash finish_hash
calculate_hash-closed_form {m} v =
    ap finish_hash (
      hash_loop_lem (m.size + 1) 0 (padded_data_size m.size) m.bytes _ (omega arith)
        (omega (arith, v.padded)))
    ∙ rotate_hash_lem _ (xor_all-lt 0 (covered m) (omega arith) (covered-AreBytes v))

xor_all_injective :
    (a b : ℕ) (xs : List ℕ) → a < 256 → b < 256 → AreBytes xs → xor_all a xs ≡ xor_all b xs → a ≡ b
xor_all_injective a b [] ha hb bs e = e
xor_all_injective a b (x ∷ xs) ha hb bs e =
    sym (bit_xor_cancel_right a x ha bs.0)
    ∙ ap (λ y. bit_xor y x)
        (xor_all_injective (bit_xor a x) (bit_xor b x) xs (bit_xor-lt a x ha bs.0)
          (bit_xor-lt b x hb bs.0) bs.1 e)
    ∙ bit_xor_cancel_right b x hb bs.0

xor_all-set :
    (a : ℕ) (xs : List ℕ) (i b : ℕ)
    → a < 256
    → b < 256
    → AreBytes xs
    → i < length xs
    → xor_all a xs ≡ xor_all a (set xs i b)
    → get_or xs i 0 ≡ b
xor_all-set a [] i b ha hb bs lt e = elim lt [ ]
xor_all-set a (x ∷ xs) zero b ha hb bs lt e =
    sym (bit_xor_cancel_left a x ha bs.0)
    ∙ ap (λ y. bit_xor y a)
        (xor_all_injective (bit_xor a x) (bit_xor a b) xs (bit_xor-lt a x ha bs.0)
          (bit_xor-lt a b ha hb) bs.1 e)
    ∙ bit_xor_cancel_left a b ha hb
xor_all-set a (x ∷ xs) (suc i) b ha hb bs lt e =
    xor_all-set (bit_xor a x) xs i b (bit_xor-lt a x ha bs.0) hb bs.1 (omega arith) e

take-set : (n : ℕ) (xs : List ℕ) (i b : ℕ) → i < n → take n (set xs i b) ≡ set (take n xs) i b
take-set zero xs i b h = elim h [ ]
take-set (suc n) [] i b h = refl
take-set (suc n) (x ∷ xs) zero b h = refl
take-set (suc n) (x ∷ xs) (suc i) b h = ap (λ l. x ∷ l) (take-set n xs i b (omega arith))

get_or-take : (n : ℕ) (xs : List ℕ) (i : ℕ) → i < n → get_or (take n xs) i 0 ≡ get_or xs i 0
get_or-take zero xs i h = elim h [ ]
get_or-take (suc n) [] i h = refl
get_or-take (suc n) (x ∷ xs) zero h = refl
get_or-take (suc n) (x ∷ xs) (suc i) h = get_or-take n xs i (omega arith)

length-take_le : (n : ℕ) (xs : List ℕ) → n ≤ length xs → length (take n xs) ≡ n
length-take_le zero xs h = refl
length-take_le (suc n) [] h = absurd (omega arith)
length-take_le (suc n) (x ∷ xs) h = ap suc (length-take_le n xs (omega arith))

set-AreBytes : (xs : List ℕ) (i b : ℕ) → b < 256 → AreBytes xs → AreBytes (set xs i b)
set-AreBytes [] i b hb bs = tt
set-AreBytes (x ∷ xs) zero b hb bs = (hb, bs.1)
set-AreBytes (x ∷ xs) (suc i) b hb bs = (bs.0, set-AreBytes xs i b hb bs.1)

times_256_injective : (a b : ℕ) → a * 256 ≡ b * 256 → a ≡ b
times_256_injective a b e = omega arith

-- The message with the payload byte `i` overwritten by `b`.
abbrev pub corrupt : Message → ℕ → ℕ → Message
corrupt m i b = record m { bytes = set m.bytes i b }

corrupt-IsValid : {m : Message} (i b : ℕ) → b < 256 → IsValid m → IsValid (corrupt m i b)
corrupt-IsValid {m} i b hb v = record {
  type_fits = v.type_fits;
  size_fits = v.size_fits;
  padded = length-set m.bytes i b ∙ v.padded;
  bytes_fit = set-AreBytes m.bytes i b hb v.bytes_fit;
}

-- A change of one payload byte that the hash covers changes the hash, whatever the byte and its place.
pub calculate_hash_detects :
    {m : Message} (i b : ℕ)
    → IsValid m
    → i < m.size + 1
    → b < 256
    → b ≢ get_or m.bytes i 0
    → calculate_hash (some (corrupt m i b)) ≢ calculate_hash (some m)
calculate_hash_detects {m} i b v lt hb ne same = ne (
    sym (
      sym (get_or-take n m.bytes i lt)
      ∙ xor_all-set _ (take n m.bytes) i b seed_lt hb (take-AreBytes n m.bytes v.bytes_fit)
          (omega (arith, long)) sums))
  where
    n : ℕ
    n = m.size + 1

    long : length (take n m.bytes) ≡ n
    long = length-take_le n m.bytes (omega (arith, v.padded))

    seed_lt : bit_xor (bit_xor 0 m.type) m.size < 256
    seed_lt =
        bit_xor-lt (bit_xor 0 m.type) m.size (bit_xor-lt 0 m.type (omega arith) v.type_fits)
          v.size_fits

    sums :
        xor_all (bit_xor (bit_xor 0 m.type) m.size) (take n m.bytes)
        ≡ xor_all (bit_xor (bit_xor 0 m.type) m.size) (set (take n m.bytes) i b)
    sums =
        times_256_injective _ _ (
          sym (calculate_hash-closed_form v)
          ∙ sym same
          ∙ calculate_hash-closed_form (corrupt-IsValid i b hb v))
        ∙ ap (xor_all (bit_xor (bit_xor 0 m.type) m.size)) (take-set n m.bytes i b lt)
