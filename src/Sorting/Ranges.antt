-- ===== src/Sorting/Ranges.antt =====
-- Which records the workers reach.
use osa_sp.Base.{
  ℕ, zero, suc, ◌+◌, ◌-◌, ◌*◌, ◌/◌, ◌≤◌, ◌<◌, ◌≡◌, refl, ap, ◌∙◌, Bool, true, List, [], ◌∷◌, ◌++◌,
  length, take, drop, get_elem?, arith,
}
use osa_sp.Sorting.{Index, merge, splice, Work, sort, merge_at}
use osa_sp.Sorting.Merge.{tally, tally-merge}

pub length-take : (n : ℕ) (xs : List Index) → n ≤ length xs → length (take n xs) ≡ n
length-take zero xs h = refl
length-take (suc n) [] h = absurd (omega (arith, h))
length-take (suc n) (x ∷ xs) h = omega (arith, length-take n xs (omega (arith, h)))

pub length-drop : (n : ℕ) (xs : List Index) → length (drop n xs) ≡ length xs - n
length-drop zero xs = omega arith
length-drop (suc n) [] = omega arith
length-drop (suc n) (x ∷ xs) = omega (arith, length-drop n xs)

get_elem?-drop : (n k : ℕ) (xs : List Index) → get_elem? (drop n xs) k ≡ get_elem? xs (n + k)
get_elem?-drop zero k xs = ap (get_elem? xs) (omega arith)
get_elem?-drop (suc n) k [] = refl
get_elem?-drop (suc n) k (x ∷ xs) = get_elem?-drop n k xs ∙ ap (get_elem? (x ∷ xs)) (next n k)
  where
    next : (n k : ℕ) → suc (n + k) ≡ suc n + k
    next n k = omega arith

get_elem?-behind :
    (xs ys : List Index) (k : ℕ) → get_elem? (xs ++ ys) (length xs + k) ≡ get_elem? ys k
get_elem?-behind [] ys k = ap (get_elem? ys) (omega arith)
get_elem?-behind (x ∷ xs) ys k =
    ap (get_elem? (x ∷ (xs ++ ys))) (next (length xs) k) ∙ get_elem?-behind xs ys k
  where
    next : (n k : ℕ) → suc n + k ≡ suc (n + k)
    next n k = omega arith

-- A splice leaves the records behind its range.
pub splice_behind :
    (base new : List Index) (left n k : ℕ)
    → length new ≡ n
    → left + n ≤ length base
    → left + n ≤ k
    → get_elem? (splice base left n new) k ≡ get_elem? base k
splice_behind base new left n k same inside behind =
    ap (get_elem? (splice base left n new))
      (omega (arith, behind, length-take left base (omega (arith, inside))))
    ∙ get_elem?-behind (take left base) (new ++ drop (left + n) base) (k - left)
    ∙ ap (get_elem? (new ++ drop (left + n) base)) (omega (arith, behind, same))
    ∙ get_elem?-behind new (drop (left + n) base) (k - left - n)
    ∙ get_elem?-drop (left + n) (k - left - n) base
    ∙ ap (get_elem? base) (omega (arith, behind))

-- The blocks end within the records.
pub blocks_inside : (records blocks : ℕ) → 0 < blocks → blocks * (records / blocks) ≤ records
blocks_inside records blocks h = grind arith

pub block_ends : (per block blocks : ℕ) → block < blocks → block * per + per ≤ blocks * per
block_ends per block blocks h = grind arith

pub drop-drop : (n m : ℕ) (xs : List Index) → drop (n + m) xs ≡ drop m (drop n xs)
drop-drop zero m xs = ap (λ (k : ℕ). drop k xs) (omega arith)
drop-drop (suc n) zero [] = ap (λ (k : ℕ). drop k []) (add_zero n)
  where
    add_zero : (n : ℕ) → suc n + 0 ≡ suc n
    add_zero n = omega arith
drop-drop (suc n) (suc m) [] = ap (λ (k : ℕ). drop k []) (add_suc n m)
  where
    add_suc : (n m : ℕ) → suc n + suc m ≡ suc (n + suc m)
    add_suc n m = omega arith
drop-drop (suc n) m (x ∷ xs) = ap (λ (k : ℕ). drop k (x ∷ xs)) (next n m) ∙ drop-drop n m xs
  where
    next : (n m : ℕ) → suc n + m ≡ suc (n + m)
    next n m = omega arith

tally-append :
    (p : Index → Bool) (xs ys : List Index) → tally p (xs ++ ys) ≡ tally p xs + tally p ys
tally-append p [] ys = omega arith
tally-append p (x ∷ xs) ys = omega (arith, tally-append p xs ys)

pub tally_split :
    (p : Index → Bool) (n : ℕ) (xs : List Index)
    → tally p (take n xs) + tally p (drop n xs) ≡ tally p xs
tally_split p zero xs = omega arith
tally_split p (suc n) [] = omega arith
tally_split p (suc n) (x ∷ xs) = omega (arith, tally_split p n xs)

pub tally_everything : (xs : List Index) → tally (λ _. true) xs ≡ length xs
tally_everything [] = refl
tally_everything (x ∷ xs) = omega (arith, tally_everything xs)

pub length-merge : (a b : List Index) → length (merge a b) ≡ length a + length b
length-merge a b = omega (
  arith,
  tally_everything (merge a b),
  tally_everything a,
  tally_everything b,
  tally-merge (λ _. true) a b,
)

-- A splice keeps the records if what it writes holds those that it replaces.
pub tally-splice :
    (p : Index → Bool) (base new : List Index) (left n : ℕ)
    → tally p new ≡ tally p (take n (drop left base))
    → tally p (splice base left n new) ≡ tally p base
tally-splice p base new left n same = omega (
  arith,
  same,
  tally-append p (take left base) (new ++ drop (left + n) base),
  tally-append p new (drop (left + n) base),
  ap (tally p) (drop-drop left n base),
  tally_split p n (drop left base),
  tally_split p left base,
)

-- The work of one block, or of two that lie within the blocks.
abbrev pub IsInside : ℕ → Work → Type 0
IsInside blocks (sort block) = block < blocks
IsInside blocks (merge_at block step) = block + step * 2 ≤ blocks

abbrev pub AreInside : ℕ → List Work → Type 0
AreInside blocks [] = Unit
AreInside blocks (w ∷ rest) = IsInside blocks w × AreInside blocks rest
