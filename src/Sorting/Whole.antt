-- ===== src/Sorting/Whole.antt =====
-- sort_index.c as a whole: the workers from the first barrier to the last, and the last merge of `main`.
use mathlib.Core.Path.{subst}
use osa_sp.Base.{
  replicate, false, ℕ, zero, suc, ◌-◌, ◌*◌, ◌<◌, ◌≡◌, refl, sym, ap, ◌∙◌, Bool, true, List, [], ◌∷◌,
  ◌++◌, map, length, take, drop, arith,
}
use osa_sp.Sorting.{Claim, claims, Index, run_works, sort_all, merge_rounds, all_work, sort_map}
use osa_sp.Sorting.Merge.{IsSorted, tally}
use osa_sp.Sorting.Ranges.{length-take, length-drop, tally_everything}
use osa_sp.Sorting.Cells.{concat, AllLong, AreOnce, updates-once}
use osa_sp.Sorting.Pairs.{AllSorted, AllLong-map, length-map}
use osa_sp.Sorting.Sorts.{
  AllBelow, power_of_two, AreRounds, run_works-append, run_works-sort_all, merge_rounds-IsSorted,
}
use osa_sp.Sorting.Workers.{tally-run_works}
use osa_sp.Sorting.Claims.{claims-AreOnce}
use osa_sp.Sorting.Halves.{final_merge-keeps}

-- The array cut into blocks.
cells_of : ℕ → ℕ → List Index → List (List Index)
cells_of per zero base = []
cells_of per (suc blocks) base = take per base ∷ cells_of per blocks (drop per base)

take-drop : (n : ℕ) (base : List Index) → take n base ++ drop n base ≡ base
take-drop zero base = refl
take-drop (suc n) [] = refl
take-drop (suc n) (x ∷ base) = ap (λ t. x ∷ t) (take-drop n base)

module _ (per : ℕ) where
  rest_length :
      (blocks : ℕ) (base : List Index)
      → length base ≡ suc blocks * per
      → length (drop per base) ≡ blocks * per
  rest_length blocks base h = length-drop per base ∙ (ap (λ k. k - per) h ∙ grind arith)

  concat-cells_of :
      (blocks : ℕ) (base : List Index)
      → length base ≡ blocks * per
      → concat (cells_of per blocks base) ≡ base
  unfolding concat cells_of
  concat-cells_of zero [] h = refl
  concat-cells_of zero (x ∷ base) h = absurd (grind (arith, h))
  concat-cells_of (suc blocks) base h =
      ap (λ t. take per base ++ t)
        (concat-cells_of blocks (drop per base) (rest_length blocks base h))
      ∙ take-drop per base

  cells_of-AllLong :
      (blocks : ℕ) (base : List Index)
      → length base ≡ blocks * per
      → AllLong per (cells_of per blocks base)
  unfolding cells_of
  cells_of-AllLong zero base h = tt
  cells_of-AllLong (suc blocks) base h = (
    length-take per base (grind (arith, h)),
    cells_of-AllLong blocks (drop per base) (rest_length blocks base h),
  )

  length-cells_of : (blocks : ℕ) (base : List Index) → length (cells_of per blocks base) ≡ blocks
  unfolding cells_of
  length-cells_of zero base = refl
  length-cells_of (suc blocks) base = ap suc (length-cells_of blocks (drop per base))

power_of_two-positive : (k : ℕ) → 0 < power_of_two k
unfolding power_of_two
power_of_two-positive zero = omega arith
power_of_two-positive (suc k) = omega (arith, power_of_two-positive k)

map-AllSorted :
    (qsort : List Index → List Index) (cells : List (List Index))
    → ((c : List Index) → IsSorted (qsort c))
    → AllSorted (map qsort cells)
map-AllSorted qsort [] sorts = tt
map-AllSorted qsort (c ∷ cells) sorts = (sorts c, map-AllSorted qsort cells sorts)

-- The tries of the workers claim the `n` blocks of a map in this order, and leave none free.
abbrev pub AreAllClaimed : List Claim → ℕ → List ℕ → Type 0
AreAllClaimed tries n order = claims tries (replicate n false) ≡ (order, replicate n true)

-- The same for the pairs of blocks in each round of merges.
unfoldable pub AreClaimedRounds : List (List ℕ) → Type 0
AreClaimedRounds [] = Unit
AreClaimedRounds (order ∷ rounds) =
    ((tries : List Claim) × AreAllClaimed tries (power_of_two (length rounds)) order)
    × AreClaimedRounds rounds

AreClaimedRounds-AreRounds : (rounds : List (List ℕ)) → AreClaimedRounds rounds → AreRounds rounds
unfolding AreClaimedRounds AreRounds
AreClaimedRounds-AreRounds [] h = tt
AreClaimedRounds-AreRounds (order ∷ rounds) ((tries, all_claimed), h) = (
  claims-AreOnce tries (power_of_two (length rounds)) order all_claimed,
  AreClaimedRounds-AreRounds rounds h,
)

module _ (qsort : List Index → List Index)
    (keeps : (p : Index → Bool) (c : List Index) → tally p (qsort c) ≡ tally p c)
    (sorts : (c : List Index) → IsSorted (qsort c)) where
  qsort_length : (c : List Index) → length (qsort c) ≡ length c
  qsort_length c = sym (tally_everything (qsort c)) ∙ (keeps (λ x. true) c ∙ tally_everything c)

  run_works-all_work :
      (per : ℕ) (order : List ℕ) (rounds : List (List ℕ)) (base : List Index) (p : Index → Bool)
      → 0 < per
      → length base ≡ power_of_two (length rounds) * per
      → AreOnce order 0 (power_of_two (length rounds))
      → AllBelow (power_of_two (length rounds)) order
      → AreRounds rounds
      → IsSorted (
          run_works qsort (length base) (power_of_two (length rounds)) (all_work order rounds) base)
        × (tally p (
              run_works qsort
                (length base)
                (power_of_two (length rounds))
                (all_work order rounds)
                base)
            ≡ tally p base)
  unfolding all_work
  run_works-all_work per order rounds base p some_records whole once below good = (
    subst (λ n. IsSorted (run_works qsort n blocks (all_work order rounds) base)) (sym whole)
        (subst IsSorted (sym phases) sorted),
    tally-run_works qsort keeps (length base) blocks (all_work order rounds) base p,
  )
    where
      blocks : ℕ
      blocks = power_of_two (length rounds)

      cells : List (List Index)
      cells = cells_of per blocks base

      count : length cells ≡ blocks
      count = length-cells_of per blocks base

      long : AllLong per cells
      long = cells_of-AllLong per blocks base whole

      some_blocks : 0 < blocks
      some_blocks = power_of_two-positive (length rounds)

      sorted :
          IsSorted (
            run_works qsort
              (blocks * per)
              blocks
              (merge_rounds 1 rounds)
              (concat (map qsort cells)))
      sorted =
          merge_rounds-IsSorted qsort blocks per some_blocks some_records qsort_length rounds 1 per
            (map qsort cells) (omega arith) (omega arith)
            (AllLong-map per qsort cells (λ c h. qsort_length c ∙ h) long)
            (map-AllSorted qsort cells sorts) (length-map qsort cells ∙ count)
            (omega (arith, length-map qsort cells, count)) good

      phases :
          run_works qsort (blocks * per) blocks (sort_all order ++ merge_rounds 1 rounds) base
          ≡ run_works qsort (blocks * per) blocks (merge_rounds 1 rounds) (concat (map qsort cells))
      phases =
          run_works-append qsort (blocks * per) blocks (sort_all order) (merge_rounds 1 rounds) base
          ∙ ap (run_works qsort (blocks * per) blocks (merge_rounds 1 rounds)) (
              ap (run_works qsort (blocks * per) blocks (sort_all order))
                (sym (concat-cells_of per blocks base whole))
              ∙ (run_works-sort_all qsort blocks per some_blocks some_records qsort_length order
                    cells long count below
                  ∙ ap concat
                      (updates-once qsort order cells (subst (AreOnce order 0) (sym count) once))))

  -- When the number of blocks, a power of two, divides that of the records, and `qsort` sorts, one
  -- mapping of the file ends up sorted, with every record as often as before, whichever worker claims
  -- which block, and in each round of merges which pair, until none is free.
  pub sort_map-IsSorted :
      (threads per : ℕ) (tries : List Claim) (order : List ℕ) (rounds : List (List ℕ))
      (base : List Index) (p : Index → Bool)
      → 0 < per
      → length base ≡ power_of_two (length rounds) * per
      → AreAllClaimed tries (power_of_two (length rounds)) order
      → AreClaimedRounds rounds
      → IsSorted (sort_map qsort threads (power_of_two (length rounds)) order rounds base)
        × (tally p (sort_map qsort threads (power_of_two (length rounds)) order rounds base)
            ≡ tally p base)
  unfolding sort_map
  sort_map-IsSorted threads per tries order rounds base p some_records whole all_claimed good =
      let blocks : ℕ = power_of_two (length rounds) in
      let worked : List Index = run_works qsort (length base) blocks (all_work order rounds) base in
      let (once, below) = claims-AreOnce tries blocks order all_claimed in
      let (sorted, same) =
        run_works-all_work per order rounds base p some_records whole once below
          (AreClaimedRounds-AreRounds rounds good) in
      let (sorted', same') = final_merge-keeps threads blocks worked p sorted in
      (sorted', same' ∙ same)
