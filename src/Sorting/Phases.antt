-- ===== src/Sorting/Phases.antt =====
-- What a worker does to the array, told cell by cell, when the blocks divide the records.
use mathlib.Core.Path.{subst}
use native.Mathlib.Nat.{mul-le-mul_right}
use osa_sp.Base.{
  ℕ, ◌+◌, ◌-◌, ◌*◌, ◌≤◌, ◌<◌, ◌≡◌, refl, sym, ap, ap₂, ◌∙◌, true, false, List, ◌++◌, ltb, length,
  take, drop, arith,
}
use osa_sp.Sorting.{
  Index, merge, splice, recs_per_block, sort_block, cut, merge_blocks, sort, merge_at, do_work,
}
use osa_sp.Sorting.Ranges.{block_ends, drop-drop, length-drop}
use osa_sp.Sorting.Cells.{
  concat, AllLong, update, find_cell, splice-between, take-between, take-within, drop-within,
  take-at, drop-at,
}

cut-below : (records x : ℕ) → x ≤ records → cut records x ≡ x
cut-below records x h = ground (arith, h)

-- The halves of a cell merged.
abbrev pub merge_halves : ℕ → List Index → List Index
merge_halves n c = merge (take n c) (drop n c)

module _ (blocks per : ℕ) (some_blocks : 0 < blocks) (some_records : 0 < per) where
  per_block : recs_per_block (blocks * per) blocks ≡ per
  per_block = grind arith

  module _ (qsort : List Index → List Index) where
    sort_block-even :
        (block : ℕ) (base : List Index)
        → block < blocks
        → sort_block qsort (blocks * per) blocks block base
          ≡ splice base (block * per) per (qsort (take per (drop (block * per) base)))
    unfolding sort_block
    sort_block-even block base h = rw (per_block, whole) refl
      where
        whole : ltb (blocks * per) (block * per + per) ≡ false
        whole = ground (arith, block_ends per block blocks h)

    -- A sort of a block sorts its cell.
    pub do_work-sort :
        (block : ℕ) (cells : List (List Index))
        → AllLong per cells
        → length cells ≡ blocks
        → block < blocks
        → do_work qsort (blocks * per) blocks (sort block) (concat cells)
          ≡ concat (update block qsort cells)
    unfolding do_work
    do_work-sort block cells long size h =
        let (front, c, back, parts, at, here, changed) =
          find_cell per block cells long (subst (λ n. block < n) (sym size) h) in
        ap (sort_block qsort (blocks * per) blocks block) parts
        ∙ (sort_block-even block (front ++ (c ++ back)) h
            ∙ (splice-between front c back
                  (qsort (take per (drop (block * per) (front ++ (c ++ back))))) (block * per) per
                  at here
                ∙ (ap (λ t. front ++ (qsort t ++ back))
                      (take-between front c back (block * per) per at here)
                    ∙ sym (changed qsort))))

  halves-between :
      (front c back : List Index) (left n : ℕ)
      → length front ≡ left
      → length c ≡ n + n
      → merge
          (take n (drop left (front ++ (c ++ back))))
          (take n (drop (left + n) (front ++ (c ++ back))))
        ≡ merge_halves n c
  halves-between front c back left n at long =
      ap₂ merge (ap (take n) (drop-at front (c ++ back) left at) ∙ take-within n c back within) (
        ap (take n) (
          drop-drop left n (front ++ (c ++ back))
          ∙ (ap (drop n) (drop-at front (c ++ back) left at) ∙ drop-within n c back within))
        ∙ take-at (drop n c) back n (length-drop n c ∙ omega (arith, long)))
    where
      within : n ≤ length c
      within = omega (arith, long)

  doubled : (i step : ℕ) → i * (step * per + step * per) ≡ i * (step * 2) * per
  doubled i step = grind arith

  merge_blocks-even :
      (block step n : ℕ) (base : List Index)
      → 0 < step
      → block + step * 2 ≤ blocks
      → step * per ≡ n
      → merge_blocks (blocks * per) blocks block step base
        ≡ splice base
            (block * per)
            (n + n)
            (merge (take n (drop (block * per) base)) (take n (drop (block * per + n) base)))
  unfolding merge_blocks
  merge_blocks-even block step n base some_step inside at =
      rw (per_block, middle, end, first_half, second_half, some_half) refl
    where
      at_middle : (block + step) * per ≡ block * per + n
      at_middle = grind (arith, at)

      at_end : (block + step * 2) * per ≡ block * per + n + n
      at_end = grind (arith, at)

      bound : (block + step * 2) * per ≤ blocks * per
      bound = mul-le-mul_right per inside

      middle : cut (blocks * per) ((block + step) * per) ≡ block * per + n
      middle =
          cut-below (blocks * per) ((block + step) * per) (omega (arith, at_middle, at_end, bound))
          ∙ at_middle

      end : cut (blocks * per) ((block + step * 2) * per) ≡ block * per + n + n
      end = cut-below (blocks * per) ((block + step * 2) * per) bound ∙ at_end

      first_half : block * per + n - block * per ≡ n
      first_half = omega arith

      second_half : block * per + n + n - (block * per + n) ≡ n
      second_half = omega arith

      some_half : ltb 0 n ≡ true
      some_half = grind (arith, some_step, some_records, at)

  -- A merge of two neighbours merges the halves of their cell.
  pub do_work-merge_at :
      (qsort : List Index → List Index) (i step n : ℕ) (cells : List (List Index))
      → 0 < step
      → step * per ≡ n
      → AllLong (n + n) cells
      → length cells * (step * 2) ≡ blocks
      → i < length cells
      → do_work qsort (blocks * per) blocks (merge_at (i * (step * 2)) step) (concat cells)
        ≡ concat (update i (merge_halves n) cells)
  unfolding do_work
  do_work-merge_at qsort i step n cells some_step at long size h =
      let (front, c, back, parts, before, here, changed) = find_cell (n + n) i cells long h in
      let left : length front ≡ i * (step * 2) * per =
        before ∙ (ap (λ k. i * (k + k)) (sym at) ∙ doubled i step) in
      let inside : i * (step * 2) + step * 2 ≤ blocks =
        subst (λ b. i * (step * 2) + step * 2 ≤ b) size
          (block_ends (step * 2) i (length cells) h) in
      let new : List Index =
        merge (take n (drop (i * (step * 2) * per) (front ++ (c ++ back))))
          (take n (drop (i * (step * 2) * per + n) (front ++ (c ++ back)))) in
      ap (merge_blocks (blocks * per) blocks (i * (step * 2)) step) parts
      ∙ (merge_blocks-even (i * (step * 2)) step n (front ++ (c ++ back)) some_step inside at
          ∙ (splice-between front c back new (i * (step * 2) * per) (n + n) left here
              ∙ (ap (λ t. front ++ (t ++ back))
                    (halves-between front c back (i * (step * 2) * per) n left here)
                  ∙ sym (changed (merge_halves n)))))
