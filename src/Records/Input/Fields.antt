-- ===== src/Records/Input/Fields.antt =====
-- What the questions of `do_get` accept.
use osa_sp.Base.{
  newline, until_newline, ℕ, zero, suc, ◌-◌, ◌<◌, ◌≤◌, ◌≡◌, ◌≢◌, inl, inr, refl, sym, ap, ◌∙◌,
  false, ◌&&◌, ◌||◌, Bool-cases, some, List, [], ◌∷◌, ◌++◌, arith, ltb, ◌==◌, length, ◌%◌, ◌^◌,
}
use osa_sp.Records.Input.{
  name_len, addr_len, fgets_loop, starts_newline, Answer, end_of_input, keep, typed, read_text,
  read_number, strtol, until_null,
}

-- Characters that are neither a newline nor a null byte.
abbrev pub ArePlain : List ℕ → Type 0
ArePlain [] = Unit
ArePlain (c ∷ rest) = (c ≢ newline) × (c ≢ 0) × ArePlain rest

fgets_loop_fills : (s t : List ℕ) → ArePlain s → fgets_loop (length s) (s ++ t) ≡ (s, t)
unfolding fgets_loop
fgets_loop_fills [] t p = refl
fgets_loop_fills (c ∷ s) t p =
    let no_newline : (c == newline) ≡ false = ground (arith, p) in
    rw (no_newline, fgets_loop_fills s t p.2) refl

until_newline_lem : (s : List ℕ) → ArePlain s → until_newline s ≡ s
unfolding until_newline
until_newline_lem [] p = refl
until_newline_lem (c ∷ s) p =
    let plain : ((c == newline) || (c == 0)) ≡ false = ground (arith, p) in
    rw (plain, until_newline_lem s p.2) refl

-- `fgets` takes at least one character of an input that has one.
fgets_loop_shortens : (n : ℕ) (input : List ℕ) → length (fgets_loop n input).1 ≤ length input
unfolding fgets_loop
fgets_loop_shortens zero input = omega arith
fgets_loop_shortens (suc n) [] = omega arith
fgets_loop_shortens (suc n) (c ∷ rest) = elim (Bool-cases (c == newline)) [
  | inl e ↦ rw e (omega arith)
  | inr e ↦ rw e (omega (arith, fgets_loop_shortens n rest))
]

fgets_takes_one : (n c : ℕ) (rest : List ℕ) → length (fgets_loop (suc n) (c ∷ rest)).1 ≤ length rest
unfolding fgets_loop
fgets_takes_one n c rest = elim (Bool-cases (c == newline)) [
  | inl e ↦ rw e (omega arith)
  | inr e ↦ rw e (fgets_loop_shortens n rest)
]

-- A value is neither empty nor too long for its field.
abbrev pub TextOk : ℕ → Answer (List ℕ) → Type 0
TextOk len (typed s left) = (0 < length s) × (length s < len)
TextOk len _ = Unit

-- The question for a text is answered within one more round than there are characters, and a value
-- that is taken fits the field with its null byte.
pub read_text_answers :
    (len fuel : ℕ) (input : List ℕ)
    → length input < fuel
    → (a : Answer (List ℕ)) × (read_text len fuel input ≡ some a) × TextOk len a
unfolding read_text
read_text_answers len zero input h = elim h [ ]
read_text_answers len (suc fuel) [] h = (end_of_input, refl, tt)
read_text_answers len (suc fuel) (c ∷ rest) h = elim (Bool-cases (starts_newline got)) [
  | inl e ↦ (keep left, rw e refl, tt)
  | inr e ↦ elim (Bool-cases (ltb 0 (length s) && ltb (length s) len)) [
    | inl fits ↦ (typed s left, rw (e, fits) refl, (ground (arith, fits), ground (arith, fits)))
    | inr unfit ↦
        let (a, done, ok) = read_text_answers len fuel left (omega (arith, h, shorter)) in
        (a, rw (e, unfit) done, ok)
  ]
]
  where
    got : List ℕ
    got = (fgets_loop (addr_len - 1) (c ∷ rest)).0

    left : List ℕ
    left = (fgets_loop (addr_len - 1) (c ∷ rest)).1

    s : List ℕ
    s = until_newline got

    shorter : length left ≤ length rest
    shorter = fgets_takes_one 78 c rest

abbrev pub NumberOk : Answer ℕ → Type 0
NumberOk (typed n left) = n < 2 ^ 32
NumberOk _ = Unit

-- The question for the number is answered as soon, with a value of 32 bits.
pub read_number_answers :
    (fuel : ℕ) (input : List ℕ)
    → length input < fuel
    → (a : Answer ℕ) × (read_number fuel input ≡ some a) × NumberOk a
unfolding read_number
read_number_answers zero input h = elim h [ ]
read_number_answers (suc fuel) [] h = (end_of_input, refl, tt)
read_number_answers (suc fuel) (c ∷ rest) h = elim (Bool-cases (starts_newline got)) [
  | inl e ↦ (keep left, rw e refl, tt)
  | inr e ↦ elim (Bool-cases (((parsed.1 == newline) || (parsed.1 == 0)) && ltb 0 parsed.0)) [
    | inl fits ↦ (typed (parsed.0 % 2 ^ 32) left, rw (e, fits) refl, omega arith)
    | inr unfit ↦
        let (a, done, ok) =
          read_number_answers fuel left (omega (arith, h, fgets_takes_one 78 c rest)) in
        (a, rw (e, unfit) done, ok)
  ]
]
  where
    got : List ℕ
    got = (fgets_loop (addr_len - 1) (c ∷ rest)).0

    left : List ℕ
    left = (fgets_loop (addr_len - 1) (c ∷ rest)).1

    parsed : ℕ × ℕ
    parsed = strtol (until_null got)

-- A line that is too long is not refused: its first 79 characters are taken, and the rest of the line
-- is left for the next question.
pub long_line_spills :
    (s t : List ℕ) (fuel : ℕ)
    → ArePlain s
    → length s ≡ addr_len - 1
    → read_text name_len (suc fuel) (s ++ t) ≡ some (typed s t)
unfolding read_text
long_line_spills [] t fuel p long = absurd (omega (arith, long))
long_line_spills (c ∷ s) t fuel p long =
    let filled : fgets_loop 79 (c ∷ (s ++ t)) ≡ (c ∷ s, t) =
      ap (λ (n : ℕ). fgets_loop n (c ∷ (s ++ t))) (sym long) ∙ fgets_loop_fills (c ∷ s) t p in
    let no_newline : (c == newline) ≡ false = ground (arith, p) in
    rw (filled, no_newline, until_newline_lem (c ∷ s) p, long) refl
