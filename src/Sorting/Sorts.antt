-- ===== src/Sorting/Sorts.antt =====
-- The workers of sort_index.c together sort the array, when the blocks divide the records.
use mathlib.Core.Path.{subst}
use osa_sp.Base.{
  ℕ, zero, suc, ◌+◌, ◌*◌, ◌<◌, ◌≡◌, refl, sym, ap, ap₂, ◌∙◌, List, [], ◌∷◌, ◌++◌, map, append-nil,
  length, arith,
}
use osa_sp.Sorting.{Index, Work, do_work, run_works, sort_all, merge_all, merge_rounds}
use osa_sp.Sorting.Merge.{IsSorted}
use osa_sp.Sorting.Cells.{
  concat, AllLong, update, updates, AreOnce, updates-once, length-update, AllLong-update,
}
use osa_sp.Sorting.Pairs.{
  AllSorted, pair_up, concat-pair_up, length-pair_up, AllLong-pair_up, merge_halves-AllSorted,
  merge_halves-length, AllLong-map, length-map,
}
use osa_sp.Sorting.Phases.{merge_halves, do_work-sort, do_work-merge_at}

abbrev pub AllBelow : ℕ → List ℕ → Type 0
AllBelow n [] = Unit
AllBelow n (i ∷ order) = (i < n) × AllBelow n order

-- The number of blocks that `k` rounds of merges make one of.
unfoldable pub power_of_two : ℕ → ℕ
power_of_two zero = 1
power_of_two (suc k) = power_of_two k + power_of_two k

-- In each round every pair of blocks is claimed once, in some order.
unfoldable pub AreRounds : List (List ℕ) → Type 0
AreRounds [] = Unit
AreRounds (order ∷ rounds) =
    (AreOnce order 0 (power_of_two (length rounds)) × AllBelow (power_of_two (length rounds)) order)
    × AreRounds rounds

pub run_works-append :
    (qsort : List Index → List Index) (records blocks : ℕ) (first then : List Work)
    (base : List Index)
    → run_works qsort records blocks (first ++ then) base
      ≡ run_works qsort records blocks then (run_works qsort records blocks first base)
unfolding run_works
run_works-append qsort records blocks [] then base = refl
run_works-append qsort records blocks (w ∷ first) then base =
    run_works-append qsort records blocks first then (do_work qsort records blocks w base)

module _ (qsort : List Index → List Index) (blocks per : ℕ) (some_blocks : 0 < blocks)
    (some_records : 0 < per) (qsort_length : (c : List Index) → length (qsort c) ≡ length c) where
  pub run_works-sort_all :
      (order : List ℕ) (cells : List (List Index))
      → AllLong per cells
      → length cells ≡ blocks
      → AllBelow blocks order
      → run_works qsort (blocks * per) blocks (sort_all order) (concat cells)
        ≡ concat (updates order qsort cells)
  unfolding run_works sort_all updates
  run_works-sort_all [] cells long size below = refl
  run_works-sort_all (i ∷ order) cells long size (here, below) =
      ap (run_works qsort (blocks * per) blocks (sort_all order))
        (do_work-sort blocks per some_blocks some_records qsort i cells long size here)
      ∙ run_works-sort_all order (update i qsort cells)
          (AllLong-update per i qsort cells (λ c h. qsort_length c ∙ h) long)
          (length-update i qsort cells ∙ size) below

  run_works-merge_all :
      (step n : ℕ) (order : List ℕ) (cells : List (List Index))
      → 0 < step
      → step * per ≡ n
      → AllLong (n + n) cells
      → length cells * (step * 2) ≡ blocks
      → AllBelow (length cells) order
      → run_works qsort (blocks * per) blocks (merge_all step order) (concat cells)
        ≡ concat (updates order (merge_halves n) cells)
  unfolding run_works merge_all updates
  run_works-merge_all step n [] cells some_step at long size below = refl
  run_works-merge_all step n (i ∷ order) cells some_step at long size (here, below) =
      let next : List (List Index) = update i (merge_halves n) cells in
      let same : length next ≡ length cells = length-update i (merge_halves n) cells in
      ap (run_works qsort (blocks * per) blocks (merge_all step order)) (
        do_work-merge_at blocks per some_blocks some_records qsort i step n cells some_step at long
          size here)
      ∙ run_works-merge_all step n order next some_step at
          (AllLong-update (n + n) i (merge_halves n) cells (merge_halves-length n) long)
          (subst (λ k. k * (step * 2) ≡ blocks) (sym same) size)
          (subst (λ k. AllBelow k order) (sym same) below)

  pub merge_rounds-IsSorted :
      (rounds : List (List ℕ)) (step n : ℕ) (cells : List (List Index))
      → 0 < step
      → step * per ≡ n
      → AllLong n cells
      → AllSorted cells
      → length cells ≡ power_of_two (length rounds)
      → length cells * step ≡ blocks
      → AreRounds rounds
      → IsSorted (run_works qsort (blocks * per) blocks (merge_rounds step rounds) (concat cells))
  unfolding merge_rounds run_works power_of_two AreRounds concat
  merge_rounds-IsSorted [] step n cells some_step at long sorted count size good =
      one_cell cells sorted count
    where
      one_cell :
          (cells : List (List Index)) → AllSorted cells → length cells ≡ 1 → IsSorted (concat cells)
      one_cell [] sorted h = absurd (omega (arith, h))
      one_cell (c ∷ []) sorted h = subst IsSorted (sym (append-nil c)) sorted.0
      one_cell (c ∷ d ∷ cells) sorted h = absurd (omega (arith, h))
  merge_rounds-IsSorted (order ∷ rounds) step n cells some_step at long sorted count size
        ((once, below), good) =
      subst IsSorted (sym merged) (
        merge_rounds-IsSorted rounds (step * 2) (n + n) (map (merge_halves n) pairs)
          (omega (arith, some_step)) (doubled_step ∙ ap₂ (λ k l. k + l) at at)
          (AllLong-map (n + n) (merge_halves n) pairs (merge_halves-length n) long_pairs)
          (merge_halves-AllSorted n m cells count long sorted)
          (length-map (merge_halves n) pairs ∙ pairs_count)
          (ap (λ k. k * (step * 2)) (length-map (merge_halves n) pairs) ∙ pairs_size) good)
    where
      m : ℕ
      m = power_of_two (length rounds)

      pairs : List (List Index)
      pairs = pair_up cells

      pairs_count : length pairs ≡ m
      pairs_count = length-pair_up m cells count

      long_pairs : AllLong (n + n) pairs
      long_pairs = AllLong-pair_up n m cells count long

      doubled_step : step * 2 * per ≡ step * per + step * per
      doubled_step = grind arith

      twice : (k : ℕ) → k * (step * 2) ≡ (k + k) * step
      twice k = grind arith

      pairs_size : length pairs * (step * 2) ≡ blocks
      pairs_size =
          ap (λ k. k * (step * 2)) pairs_count ∙ (twice m ∙ (ap (λ k. k * step) (sym count) ∙ size))

      merged :
          run_works qsort
            (blocks * per)
            blocks
            (merge_all step order ++ merge_rounds (step * 2) rounds)
            (concat cells)
          ≡ run_works qsort
              (blocks * per)
              blocks
              (merge_rounds (step * 2) rounds)
              (concat (map (merge_halves n) pairs))
      merged =
          run_works-append qsort (blocks * per) blocks (merge_all step order)
            (merge_rounds (step * 2) rounds) (concat cells)
          ∙ ap (run_works qsort (blocks * per) blocks (merge_rounds (step * 2) rounds)) (
              ap (run_works qsort (blocks * per) blocks (merge_all step order))
                (sym (concat-pair_up cells))
              ∙ (run_works-merge_all step n order pairs some_step at long_pairs pairs_size
                    (subst (λ k. AllBelow k order) (sym pairs_count) below)
                  ∙ ap concat (
                      updates-once (merge_halves n) order pairs
                        (subst (AreOnce order 0) (sym pairs_count) once))))
