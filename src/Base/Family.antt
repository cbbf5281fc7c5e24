-- ===== src/Base/Family.antt =====
-- Families by index, such as the threads of a program: change at one index, and sums of a weight over
-- the first `n`.
use native.Mathlib.Decide.{ℕ_discrete, dec_lt}
use native.Mathlib.Omega.{arith}
use mathlib.Core.Logic.{ite}
use mathlib.Core.Path.{◌≡◌, refl}
use Prim.Native.Nat.{ℕ, zero, suc, ◌+◌, ◌≤◌, ◌<◌}

-- A family of values by index, changed at one.
abbrev pub update {ℓ} : {V : Type ℓ} → (family : ℕ → V) → (at : ℕ) → V → ℕ → V
update family at value k = ite (ℕ_discrete at k) value (family k)

pub update_keeps {ℓ κ} :
    {A : Type ℓ} (P : A → Type κ) (f : ℕ → A) (i : ℕ) (a : A)
    → ((j : ℕ) → P (f j))
    → P a
    → (j : ℕ) → P (update f i a j)
update_keeps P f i a all h j = elim (ℕ_discrete i j) as (λ d. P (ite d a (f j))) [
  | yes _ ↦ h
  | no _ ↦ all j
]

module _ {ℓ} {A : Type ℓ} (weight : A → ℕ) where
  pub sum_below : ℕ → (ℕ → A) → ℕ
  sum_below zero f = 0
  sum_below (suc n) f = weight (f n) + sum_below n f

  sum_below-outside :
      (n : ℕ) (f : ℕ → A) (i : ℕ) (a : A) → n ≤ i → sum_below n (update f i a) ≡ sum_below n f
  unfolding sum_below
  sum_below-outside zero f i a h = refl
  sum_below-outside (suc n) f i a h = ground (arith, sum_below-outside n f i a)

  -- A change at `i` trades the weight there.
  pub sum_below-update :
      (n : ℕ) (f : ℕ → A) (i : ℕ) (a : A)
      → i < n
      → sum_below n (update f i a) + weight (f i) ≡ sum_below n f + weight a
  unfolding sum_below
  sum_below-update zero f i a h = elim h [ ]
  sum_below-update (suc n) f i a h = elim (dec_lt i n) [
    | yes inner ↦ ground (arith, sum_below-update n f i a inner)
    | no top ↦ ground (arith, sum_below-outside n f i a)
  ]

  pub weight-le-sum_below : (n : ℕ) (f : ℕ → A) (i : ℕ) → i < n → weight (f i) ≤ sum_below n f
  unfolding sum_below
  weight-le-sum_below zero f i h = elim h [ ]
  weight-le-sum_below (suc n) f i h = elim (dec_lt i n) [
    | yes inner ↦ ground (arith, weight-le-sum_below n f i inner)
    | no top ↦ ground arith
  ]

  pub sum_below-const : (n : ℕ) (a : A) → weight a ≡ 0 → sum_below n (λ _. a) ≡ 0
  unfolding sum_below
  sum_below-const zero a h = refl
  sum_below-const (suc n) a h = omega (arith, sum_below-const n a h)

  -- Above the first `n` nobody has a weight.
  abbrev pub IsLightAbove : ℕ → (ℕ → A) → Type 0
  IsLightAbove n f = (j : ℕ) → n ≤ j → weight (f j) ≡ 0

  pub update-IsLightAbove :
      (n : ℕ) (f : ℕ → A) (i : ℕ) (a : A) → i < n → IsLightAbove n f → IsLightAbove n (update f i a)
  update-IsLightAbove n f i a lt light j h =
      elim (ℕ_discrete i j) as (λ d. weight (ite d a (f j)) ≡ 0) [
        | yes e ↦ absurd (omega (arith, e, lt, h))
        | no _ ↦ light j h
      ]

  pub no_weight :
      (n : ℕ) (f : ℕ → A) → sum_below n f ≡ 0 → IsLightAbove n f → (j : ℕ) → weight (f j) ≡ 0
  no_weight n f none_below light j = elim (dec_lt j n) [
    | yes inner ↦ omega (arith, weight-le-sum_below n f j inner, none_below)
    | no outer ↦ light j (omega (arith, outer))
  ]
