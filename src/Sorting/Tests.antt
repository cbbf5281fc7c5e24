-- ===== src/Sorting/Tests.antt =====
-- The sorting of the memory-mapped file at concrete inputs, with insertion sort for `qsort`.
use osa_sp.Base.{
  ℕ, ◌≤◌, ◌≡◌, refl, Bool, true, Bool-cases, inl, inr, some, List, [], ◌∷◌, ltb, if◌then◌else◌,
  get_elem?, arith,
}
use osa_sp.Sorting.{
  Claim, own, first_free, claims, claim, claim_own, claim_block, Index, Work, sort, merge_at,
  run_works, sort_map,
}
use osa_sp.Sorting.Sorts.{power_of_two}
use osa_sp.Sorting.Whole.{AreClaimedRounds, sort_map-IsSorted}
use osa_sp.Sorting.Merge.{AreAbove, IsSorted, tally}
use osa_sp.Sorting.Workers.{tally-run_works, run_works_rest}

-- a record with this time mark
abbrev at : ℕ → Index
at t = record { time_mark = t; recno = t }

unfoldable insert : Index → List Index → List Index
insert x [] = x ∷ []
insert x (y ∷ ys) =
    let rest = insert x ys in if ltb y.time_mark x.time_mark then y ∷ rest else x ∷ y ∷ ys

unfoldable insertion_sort : List Index → List Index
insertion_sort [] = []
insertion_sort (x ∷ xs) = insert x (insertion_sort xs)

tally-insert :
    (p : Index → Bool) (x : Index) (xs : List Index) → tally p (insert x xs) ≡ tally p (x ∷ xs)
unfolding insert
tally-insert p x [] = refl
tally-insert p x (y ∷ ys) = elim (Bool-cases (ltb y.time_mark x.time_mark)) [
  | inl e ↦ rw (e, tally) (omega (arith, tally-insert p x ys))
  | inr e ↦ rw (e, tally) refl
]

tally-insertion_sort :
    (p : Index → Bool) (xs : List Index) → tally p (insertion_sort xs) ≡ tally p xs
unfolding insertion_sort
tally-insertion_sort p [] = refl
tally-insertion_sort p (x ∷ xs) =
    omega (arith, tally-insert p x (insertion_sort xs), tally-insertion_sort p xs)

-- Five records in two blocks: both are sorted, then merged.
abbrev five : List Index
five = at 9 ∷ at 7 ∷ at 8 ∷ at 6 ∷ at 1 ∷ []

abbrev works : List Work
works = sort 1 ∷ sort 0 ∷ merge_at 0 1 ∷ []

tally-run_works_example :
    tally (λ x. ltb x.time_mark 8) (run_works insertion_sort 5 2 works five)
    ≡ tally (λ x. ltb x.time_mark 8) five
tally-run_works_example =
    tally-run_works insertion_sort tally-insertion_sort 5 2 works five (λ x. ltb x.time_mark 8)

run_works_rest_example : get_elem? (run_works insertion_sort 5 2 works five) 4 ≡ some (at 1)
run_works_rest_example =
    run_works_rest insertion_sort tally-insertion_sort 5 2 works 4 five refl (omega arith)
      (omega arith, (omega arith, (omega arith, tt))) (omega arith)

insert-AreAbove :
    (low : ℕ) (x : Index) (xs : List Index)
    → low ≤ x.time_mark
    → AreAbove low xs
    → AreAbove low (insert x xs)
unfolding insert
insert-AreAbove low x [] h above = (h, tt)
insert-AreAbove low x (y ∷ ys) h above = elim (Bool-cases (ltb y.time_mark x.time_mark)) [
  | inl e ↦ rw (e, AreAbove) (above.0, insert-AreAbove y.time_mark x ys (ground (arith, e)) above.1)
  | inr e ↦ rw (e, AreAbove) (h, (ground (arith, e), above.1))
]

insertion_sort-IsSorted : (xs : List Index) → IsSorted (insertion_sort xs)
unfolding insertion_sort
insertion_sort-IsSorted [] = tt
insertion_sort-IsSorted (x ∷ xs) =
    insert-AreAbove 0 x (insertion_sort xs) (omega arith) (insertion_sort-IsSorted xs)

-- Eight records in four blocks, and two rounds of merges.
abbrev eight : List Index
eight = at 5 ∷ at 3 ∷ at 8 ∷ at 1 ∷ at 7 ∷ at 2 ∷ at 6 ∷ at 4 ∷ []

-- One worker claims the block of its number, and then whatever is free.
abbrev tries : List Claim
tries = own 2 ∷ first_free ∷ own 3 ∷ first_free ∷ first_free ∷ []

abbrev pairs : List (List ℕ)
pairs = (0 ∷ 1 ∷ []) ∷ (0 ∷ []) ∷ []

sort_map-IsSorted_example :
    IsSorted (sort_map insertion_sort 1 (power_of_two 2) (2 ∷ 0 ∷ 3 ∷ 1 ∷ []) pairs eight)
    × (tally
          (λ _. true)
          (sort_map insertion_sort 1 (power_of_two 2) (2 ∷ 0 ∷ 3 ∷ 1 ∷ []) pairs eight)
        ≡ tally (λ _. true) eight)
unfolding power_of_two claims claim claim_own claim_block AreClaimedRounds
sort_map-IsSorted_example =
    sort_map-IsSorted insertion_sort tally-insertion_sort insertion_sort-IsSorted 1 2 tries
      (2 ∷ 0 ∷ 3 ∷ 1 ∷ []) pairs eight (λ _. true) (omega arith) refl refl
      ((first_free ∷ first_free ∷ [], refl), ((first_free ∷ [], refl), tt))
