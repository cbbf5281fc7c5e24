-- ===== src/Sorting/Halves.antt =====
-- The last step of main in sort_index.c, which merges the halves of the array.
use mathlib.Core.Path.{subst}
use osa_sp.Base.{
  ℕ, zero, suc, ◌+◌, ◌-◌, ◌/◌, ◌≤◌, ◌≡◌, ◌⊎◌, inl, inr, refl, sym, ap, ◌∙◌, Bool, ◌&&◌, Bool-cases,
  List, [], ◌∷◌, append-nil, ltb, length, take, drop, arith,
}
use osa_sp.Sorting.{Index, merge, final_merge}
use osa_sp.Sorting.Merge.{AreAbove, AreAbove-lower, IsSorted, tally, merge_sorts}
use osa_sp.Sorting.Ranges.{length-drop, tally_split}

AreAbove-take : (n low : ℕ) (base : List Index) → AreAbove low base → AreAbove low (take n base)
AreAbove-take zero low base h = tt
AreAbove-take (suc n) low [] h = tt
AreAbove-take (suc n) low (x ∷ base) h = (h.0, AreAbove-take n x.time_mark base h.1)

AreAbove-drop : (n low : ℕ) (base : List Index) → AreAbove low base → AreAbove 0 (drop n base)
AreAbove-drop zero low base h = AreAbove-lower low 0 base (omega arith) h
AreAbove-drop (suc n) low [] h = tt
AreAbove-drop (suc n) low (x ∷ base) h = AreAbove-drop n x.time_mark base h.1

drop-all : (n : ℕ) (base : List Index) → length base ≤ n → drop n base ≡ []
drop-all zero [] h = refl
drop-all zero (x ∷ base) h = absurd (omega (arith, h))
drop-all (suc n) [] h = refl
drop-all (suc n) (x ∷ base) h = drop-all n base (omega (arith, h))

take-all : (n : ℕ) (base : List Index) → length base ≤ n → take n base ≡ base
take-all zero [] h = refl
take-all zero (x ∷ base) h = absurd (omega (arith, h))
take-all (suc n) [] h = refl
take-all (suc n) (x ∷ base) h = ap (λ t. x ∷ t) (take-all n base (omega (arith, h)))

-- The array with its halves merged.
halves_merged : (base : List Index) → List Index
halves_merged base = merge (take (length base / 2) base) (drop (length base / 2) base)

final_merge-cases :
    (threads blocks : ℕ) (base : List Index)
    → (final_merge threads blocks base ≡ base)
      ⊎ (final_merge threads blocks base ≡ halves_merged base)
unfolding final_merge halves_merged
final_merge-cases threads blocks base =
    elim (Bool-cases (
      ltb 1 threads
      && ltb 1 blocks
      && ltb 0 (length base / 2)
      && ltb 0 (length base - length base / 2))) [
        | inl e ↦ inr (rw (e, all_replaced, second_half) (append-nil (halves_merged base)))
        | inr e ↦ inl (rw e refl)
      ]
  where
    all_replaced : drop (0 + length base) base ≡ []
    all_replaced = drop-all (0 + length base) base (omega arith)

    second_half :
        take (length base - length base / 2) (drop (length base / 2) base)
        ≡ drop (length base / 2) base
    second_half =
        take-all (length base - length base / 2) (drop (length base / 2) base)
          (omega (arith, length-drop (length base / 2) base))

-- The last merge keeps a sorted array sorted.
pub final_merge-keeps :
    (threads blocks : ℕ) (base : List Index) (p : Index → Bool)
    → IsSorted base
    → IsSorted (final_merge threads blocks base)
      × (tally p (final_merge threads blocks base) ≡ tally p base)
unfolding halves_merged
final_merge-keeps threads blocks base p sorted = elim (final_merge-cases threads blocks base) [
  | inl e ↦ (subst IsSorted (sym e) sorted, ap (tally p) e)
  | inr e ↦
      let half : ℕ = length base / 2 in
      let (good, same) =
        merge_sorts (take half base) (drop half base) p (AreAbove-take half 0 base sorted)
          (AreAbove-drop half 0 base sorted) in
      (subst IsSorted (sym e) good, ap (tally p) e ∙ (same ∙ tally_split p half base))
]
