-- ===== src/Sorting/Workers.antt =====
-- The workers keep every record, and reach only those of whole blocks.
use osa_sp.Base.{
  ℕ, zero, suc, ◌+◌, ◌-◌, ◌*◌, ◌/◌, ◌≤◌, ◌<◌, ◌≡◌, ◌⊎◌, inl, inr, refl, sym, ap, ◌∙◌, Bool, true,
  false, Bool-cases, ◌&&◌, Option, none, some, List, [], ◌∷◌, ltb, length, take, drop, get_elem?,
  set, arith,
}
use mathlib.Core.Path.{subst}
use native.Mathlib.Nat.{mul-le-mul_right}
use osa_sp.Sorting.{
  Index, merge, splice, block_count, sort_block, cut, merge_blocks, claim_block, Work, sort,
  merge_at, do_work, run_works,
}
use osa_sp.Sorting.Merge.{tally, tally-merge}
use osa_sp.Sorting.Ranges.{
  length-take, length-drop, splice_behind, blocks_inside, block_ends, drop-drop, tally_split,
  tally_everything, length-merge, tally-splice, IsInside, AreInside,
}

tally-splice-merge :
    (p : Index → Bool) (base : List Index) (left n1 n2 mid : ℕ)
    → mid ≡ left + n1
    → tally p
        (splice base left (n1 + n2) (merge (take n1 (drop left base)) (take n2 (drop mid base))))
      ≡ tally p base
tally-splice-merge p base left n1 n2 mid at =
    tally-splice p base (merge (take n1 (drop left base)) (take n2 (drop mid base))) left (n1 + n2)
      (omega (
        arith,
        tally-merge p (take n1 (drop left base)) (take n2 (drop mid base)),
        tally_split p n1 (drop left base),
        tally_split p n2 (drop mid base),
        tally_split p (n1 + n2) (drop left base),
        ap (tally p) (drop-drop n1 n2 (drop left base)),
        ap (λ l. tally p (drop n2 l)) (from_mid),
        ap (tally p) from_mid,
      ))
  where
    from_mid : drop mid base ≡ drop n1 (drop left base)
    from_mid = ap (λ (k : ℕ). drop k base) at ∙ drop-drop left n1 base

-- `qsort` keeps the records.
module _ (qsort : List Index → List Index)
    (keeps : (p : Index → Bool) (xs : List Index) → tally p (qsort xs) ≡ tally p xs)
    (records blocks : ℕ) where
  length-qsort : (xs : List Index) → length (qsort xs) ≡ length xs
  length-qsort xs = sym (tally_everything (qsort xs)) ∙ keeps (λ _. true) xs ∙ tally_everything xs

  tally-do_work :
      (p : Index → Bool) (w : Work) (base : List Index)
      → tally p (do_work qsort records blocks w base) ≡ tally p base
  unfolding do_work sort_block merge_blocks
  tally-do_work p (sort block) base = tally-splice p base _ _ _ (keeps p _)
  tally-do_work p (merge_at block step) base =
      elim (Bool-cases (ltb 0 (mid - left) && ltb 0 (right - mid))) [
        | inl e ↦
            rw e (tally-splice-merge p base left (mid - left) (right - mid) mid (ground (arith, e)))
        | inr e ↦ rw e refl
      ]
    where
      left : ℕ
      left = block * (records / blocks)

      mid : ℕ
      mid = cut records ((block + step) * (records / blocks))

      right : ℕ
      right = cut records ((block + step * 2) * (records / blocks))

  -- Whatever blocks the workers sort and merge, in any order: every record is in the array as often as
  -- before, given that `qsort` permutes.
  pub tally-run_works :
      (works : List Work) (base : List Index) (p : Index → Bool)
      → tally p (run_works qsort records blocks works base) ≡ tally p base
  unfolding run_works
  tally-run_works [] base p = refl
  tally-run_works (w ∷ rest) base p =
      tally-run_works rest (do_work qsort records blocks w base) p ∙ tally-do_work p w base

  sort_block_rest :
      (block k : ℕ) (base : List Index)
      → length base ≡ records
      → block < blocks
      → blocks * (records / blocks) ≤ k
      → get_elem? (sort_block qsort records blocks block base) k ≡ get_elem? base k
  unfolding sort_block
  sort_block_rest block k base whole inside behind =
      subst
        (λ n.
          get_elem? (splice base offset n (qsort (take n (drop offset base)))) k ≡ get_elem? base k)
        (sym full)
        (splice_behind base (qsort (take per (drop offset base))) offset per k
          (length-qsort (take per (drop offset base))
            ∙ length-take per (drop offset base)
                (omega (arith, ends, fits, whole, length-drop offset base)))
          (omega (arith, ends, fits, whole)) (omega (arith, ends, behind)))
    where
      per : ℕ
      per = records / blocks

      offset : ℕ
      offset = block * (records / blocks)

      ends : offset + per ≤ blocks * per
      ends = block_ends per block blocks inside

      fits : blocks * per ≤ records
      fits = blocks_inside records blocks (omega (arith, inside))

      full : block_count records per offset ≡ per
      full = ground (arith, ends, fits)

  merge_blocks_rest :
      (block step k : ℕ) (base : List Index)
      → length base ≡ records
      → 0 < blocks
      → block + step * 2 ≤ blocks
      → blocks * (records / blocks) ≤ k
      → get_elem? (merge_blocks records blocks block step base) k ≡ get_elem? base k
  unfolding merge_blocks
  merge_blocks_rest block step k base whole some_block inside behind =
      elim (Bool-cases (ltb 0 (mid - left) && ltb 0 (right - mid))) [
        | inr e ↦ rw e refl
        | inl e ↦ rw e (
            splice_behind base
              (merge (take (mid - left) (drop left base)) (take (right - mid) (drop mid base))) left
              ((mid - left) + (right - mid)) k
              (length-merge _ _
                ∙ omega (
                  arith,
                  length-take (mid - left) (drop left base)
                      (ground (arith, e, whole, right_fits, length-drop left base)),
                  length-take (right - mid) (drop mid base)
                      (ground (arith, e, whole, right_fits, length-drop mid base)),
                ))
              (ground (arith, e, whole, right_fits)) (ground (arith, e, behind, right_fits)))
      ]
    where
      per : ℕ
      per = records / blocks

      left : ℕ
      left = block * (records / blocks)

      mid : ℕ
      mid = cut records ((block + step) * (records / blocks))

      right : ℕ
      right = cut records ((block + step * 2) * (records / blocks))

      right_fits : (right ≤ blocks * per) × (right ≤ records)
      right_fits = (under, ground arith)
        where
          product : (block + step * 2) * per ≤ blocks * per
          product = mul-le-mul_right per inside

          under : right ≤ blocks * per
          under = ground (arith, product)

  do_work_rest :
      (w : Work) (k : ℕ) (base : List Index)
      → length base ≡ records
      → 0 < blocks
      → IsInside blocks w
      → blocks * (records / blocks) ≤ k
      → get_elem? (do_work qsort records blocks w base) k ≡ get_elem? base k
  unfolding do_work
  do_work_rest (sort block) k base whole some_block inside behind =
      sort_block_rest block k base whole inside behind
  do_work_rest (merge_at block step) k base whole some_block inside behind =
      merge_blocks_rest block step k base whole some_block inside behind

  length-do_work :
      (w : Work) (base : List Index) → length (do_work qsort records blocks w base) ≡ length base
  length-do_work w base =
      sym (tally_everything (do_work qsort records blocks w base))
      ∙ tally-do_work (λ _. true) w base
      ∙ tally_everything base

  -- However the workers sort and merge their blocks, the records behind the last whole block stay
  -- where they are: those are as many as the remainder of the number of records by that of blocks.
  pub run_works_rest :
      (works : List Work) (k : ℕ) (base : List Index)
      → length base ≡ records
      → 0 < blocks
      → AreInside blocks works
      → blocks * (records / blocks) ≤ k
      → get_elem? (run_works qsort records blocks works base) k ≡ get_elem? base k
  unfolding run_works
  run_works_rest [] k base whole some_block inside behind = refl
  run_works_rest (w ∷ rest) k base whole some_block inside behind =
      run_works_rest rest k (do_work qsort records blocks w base) (length-do_work w base ∙ whole)
        some_block inside.1 behind
      ∙ do_work_rest w k base whole some_block inside.0 behind

-- Every block below `n` is claimed.
abbrev pub AreClaimed : ℕ → List Bool → Type 0
AreClaimed zero map = Unit
AreClaimed (suc n) [] = Unit
AreClaimed (suc n) (b ∷ map) = (b ≡ true) × AreClaimed n map

-- A worker claims the first block that is free and marks it, or finds that every block is claimed.
pub claim_block_cases :
    (i : ℕ) (map : List Bool)
    → ((claim_block i map ≡ (none, map)) × AreClaimed (length map) map)
      ⊎ ((j : ℕ) × (claim_block i map ≡ (some (i + j), set map j true))
          × (get_elem? map j ≡ some false)
          × AreClaimed j map)
unfolding claim_block
claim_block_cases i [] = inl (refl, tt)
claim_block_cases i (false ∷ map) =
    inr (0, ap (λ (k : ℕ). (some k, true ∷ map)) (omega arith), refl, tt)
claim_block_cases i (true ∷ map) = elim (claim_block_cases (i + 1) map) [
  | inl (done, all) ↦ inl (ap (λ (p : Option ℕ × List Bool). (p.0, true ∷ p.1)) done, (refl, all))
  | inr (j, done, free, before) ↦ inr (
    suc j,
    ap (λ (p : Option ℕ × List Bool). (p.0, true ∷ p.1)) done
        ∙ ap (λ (k : ℕ). (some k, true ∷ set map j true)) (omega arith),
    free,
    (refl, before),
  )
]
