-- ===== src/Sorting/Merge.antt =====
-- `merge`: sorted, and the same records.
use osa_sp.Base.{
  ℕ, zero, suc, ◌+◌, ◌≤◌, ◌≡◌, inl, inr, Bool, Bool-cases, List, [], ◌∷◌, ltb, length,
  if◌then◌else◌, arith,
}
use osa_sp.Sorting.{Index, merge_loop, merge}

-- No record is later than the one behind it; `low` is no later than the first.
abbrev pub AreAbove : ℕ → List Index → Type 0
AreAbove low [] = Unit
AreAbove low (x ∷ xs) = (low ≤ x.time_mark) × AreAbove x.time_mark xs

abbrev pub IsSorted : List Index → Type 0
IsSorted xs = AreAbove 0 xs

-- How many records pass a test.
abbrev pub tally : (Index → Bool) → List Index → ℕ
tally p [] = 0
tally p (x ∷ xs) = (if p x then 1 else 0) + tally p xs

pub AreAbove-lower :
    (low low' : ℕ) (xs : List Index) → low' ≤ low → AreAbove low xs → AreAbove low' xs
AreAbove-lower low low' [] h v = tt
AreAbove-lower low low' (x ∷ xs) h v = (omega (arith, h, v.0), v.1)

merge_loop-AreAbove :
    (n low : ℕ) (a b : List Index)
    → AreAbove low a
    → AreAbove low b
    → AreAbove low (merge_loop n a b)
unfolding merge_loop
merge_loop-AreAbove zero low a b va vb = tt
merge_loop-AreAbove (suc n) low [] b va vb = vb
merge_loop-AreAbove (suc n) low (x ∷ a) [] va vb = va
merge_loop-AreAbove (suc n) low (x ∷ a) (y ∷ b) va vb =
    elim (Bool-cases (ltb x.time_mark y.time_mark)) [
      | inl e ↦
          rw (e, AreAbove)
            (va.0, merge_loop-AreAbove n x.time_mark a (y ∷ b) va.1 (ground (arith, e), vb.1))
      | inr e ↦
          rw (e, AreAbove)
            (vb.0, merge_loop-AreAbove n y.time_mark (x ∷ a) b (ground (arith, e), va.1) vb.1)
    ]

tally-merge_loop :
    (p : Index → Bool) (n : ℕ) (a b : List Index)
    → length a + length b ≤ n
    → tally p (merge_loop n a b) ≡ tally p a + tally p b
unfolding merge_loop
tally-merge_loop p zero [] [] h = omega arith
tally-merge_loop p zero [] (y ∷ b) h = absurd (omega (arith, h))
tally-merge_loop p zero (x ∷ a) b h = absurd (omega (arith, h))
tally-merge_loop p (suc n) [] b h = omega arith
tally-merge_loop p (suc n) (x ∷ a) [] h = omega arith
tally-merge_loop p (suc n) (x ∷ a) (y ∷ b) h = elim (Bool-cases (ltb x.time_mark y.time_mark)) [
  | inl e ↦ rw (e, tally) (omega (arith, tally-merge_loop p n a (y ∷ b) (omega (arith, h))))
  | inr e ↦ rw (e, tally) (omega (arith, tally-merge_loop p n (x ∷ a) b (omega (arith, h))))
]

pub tally-merge :
    (p : Index → Bool) (a b : List Index) → tally p (merge a b) ≡ tally p a + tally p b
unfolding merge
tally-merge p a b = tally-merge_loop p (length a + length b) a b (omega arith)

-- `merge` of two sorted arrays is sorted, and holds each record as often as the two together.
pub merge_sorts :
    (a b : List Index) (p : Index → Bool)
    → IsSorted a
    → IsSorted b
    → IsSorted (merge a b) × (tally p (merge a b) ≡ tally p a + tally p b)
unfolding merge
merge_sorts a b p va vb = (
  merge_loop-AreAbove (length a + length b) 0 a b va vb,
  tally-merge_loop p (length a + length b) a b (omega arith),
)
