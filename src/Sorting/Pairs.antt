-- ===== src/Sorting/Pairs.antt =====
-- The cells taken two by two, and their halves merged.
use mathlib.Core.Path.{subst}
use osa_sp.Base.{
  ℕ, zero, suc, ◌+◌, ◌≡◌, refl, sym, ap, ap₂, ◌∙◌, true, List, [], ◌∷◌, ◌++◌, map, append_assoc,
  length, length-append, take, drop, arith,
}
use osa_sp.Sorting.{Index, merge}
use osa_sp.Sorting.Merge.{IsSorted, merge_sorts}
use osa_sp.Sorting.Ranges.{length-merge, length-take, length-drop}
use osa_sp.Sorting.Cells.{concat, AllLong, take-at, drop-at}
use osa_sp.Sorting.Phases.{merge_halves}

abbrev pub AllSorted : List (List Index) → Type 0
AllSorted [] = Unit
AllSorted (c ∷ cells) = IsSorted c × AllSorted cells

pub pair_up : List (List Index) → List (List Index)
pair_up [] = []
pair_up (c ∷ []) = c ∷ []
pair_up (c ∷ d ∷ cells) = (c ++ d) ∷ pair_up cells

pub concat-pair_up : (cells : List (List Index)) → concat (pair_up cells) ≡ concat cells
unfolding pair_up concat
concat-pair_up [] = refl
concat-pair_up (c ∷ []) = refl
concat-pair_up (c ∷ d ∷ cells) =
    ap (λ t. (c ++ d) ++ t) (concat-pair_up cells) ∙ append_assoc c d (concat cells)

pub length-pair_up :
    (m : ℕ) (cells : List (List Index)) → length cells ≡ m + m → length (pair_up cells) ≡ m
unfolding pair_up
length-pair_up m [] h = omega (arith, h)
length-pair_up m (c ∷ []) h = absurd (omega (arith, h))
length-pair_up zero (c ∷ d ∷ cells) h = absurd (omega (arith, h))
length-pair_up (suc m) (c ∷ d ∷ cells) h = ap suc (length-pair_up m cells (omega (arith, h)))

pub AllLong-pair_up :
    (n m : ℕ) (cells : List (List Index))
    → length cells ≡ m + m
    → AllLong n cells
    → AllLong (n + n) (pair_up cells)
unfolding pair_up
AllLong-pair_up n m [] h long = tt
AllLong-pair_up n m (c ∷ []) h long = absurd (omega (arith, h))
AllLong-pair_up n zero (c ∷ d ∷ cells) h long = absurd (omega (arith, h))
AllLong-pair_up n (suc m) (c ∷ d ∷ cells) h (here, (next, more)) = (
  omega (arith, here, next, length-append c d),
  AllLong-pair_up n m cells (omega (arith, h)) more,
)

merge_halves-append :
    (n : ℕ) (c d : List Index) → length c ≡ n → merge_halves n (c ++ d) ≡ merge c d
merge_halves-append n c d h = ap₂ merge (take-at c d n h) (drop-at c d n h)

-- The halves of the pairs merged are sorted.
pub merge_halves-AllSorted :
    (n m : ℕ) (cells : List (List Index))
    → length cells ≡ m + m
    → AllLong n cells
    → AllSorted cells
    → AllSorted (map (merge_halves n) (pair_up cells))
unfolding pair_up
merge_halves-AllSorted n m [] h long sorted = tt
merge_halves-AllSorted n m (c ∷ []) h long sorted = absurd (omega (arith, h))
merge_halves-AllSorted n zero (c ∷ d ∷ cells) h long sorted = absurd (omega (arith, h))
merge_halves-AllSorted n (suc m) (c ∷ d ∷ cells) h (here, (next, more)) (one, (two, rest)) = (
  subst IsSorted (sym (merge_halves-append n c d here)) (merge_sorts c d (λ x. true) one two).0,
  merge_halves-AllSorted n m cells (omega (arith, h)) more rest,
)

pub merge_halves-length :
    (n : ℕ) (c : List Index) → length c ≡ n + n → length (merge_halves n c) ≡ n + n
merge_halves-length n c h = omega (
  arith,
  h,
  length-merge (take n c) (drop n c),
  length-take n c (omega (arith, h)),
  length-drop n c,
)

pub AllLong-map :
    (n : ℕ) (f : List Index → List Index) (cells : List (List Index))
    → ((c : List Index) → length c ≡ n → length (f c) ≡ n)
    → AllLong n cells
    → AllLong n (map f cells)
AllLong-map n f [] keeps h = tt
AllLong-map n f (c ∷ cells) keeps (here, more) = (keeps c here, AllLong-map n f cells keeps more)

pub length-map :
    (f : List Index → List Index) (cells : List (List Index)) → length (map f cells) ≡ length cells
length-map f [] = refl
length-map f (c ∷ cells) = ap suc (length-map f cells)
