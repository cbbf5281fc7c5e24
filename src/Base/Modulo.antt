-- ===== src/Base/Modulo.antt =====
-- Indices that go round a buffer of `cap` slots.
use native.Mathlib.Decide.{dec_lt}
use native.Mathlib.Nat.{mod-eq_of_lt, mod-eq-sub-mod, mod-add-mod}
use native.Mathlib.Omega.{arith}
use mathlib.Core.Logic.{◌⊎◌, inl, inr}
use mathlib.Core.Path.{◌≡◌, ap}
use Prim.Native.Nat.{ℕ, suc, ◌+◌, ◌-◌, ◌%◌, ◌≤◌, ◌<◌}

-- One turn at most: an index that is advanced by up to `cap` stays or loses `cap`.
pub wrap_cases :
    (cap h k : ℕ)
    → h < cap
    → k ≤ cap
    → ((h + k < cap) × ((h + k) % cap ≡ h + k)) ⊎ ((cap ≤ h + k) × ((h + k) % cap ≡ h + k - cap))
wrap_cases cap h k inside short = elim (dec_lt (h + k) cap) [
  | yes before ↦ inl (before, mod-eq_of_lt before)
  | no past ↦ inr (
    omega arith,
    omega (
      arith,
      mod-eq-sub-mod {n = h + k} {m = cap} (omega arith),
      mod-eq_of_lt {n = h + k - cap} {m = cap} (omega arith),
    ),
  )
]

-- `n + 1` steps from `h` are `n` steps from the slot behind it.
pub next_start : (cap h n : ℕ) → (h + suc n) % cap ≡ ((h + 1) % cap + n) % cap
next_start cap h n = rw mod-add-mod (ap (λ (k : ℕ). k % cap) (omega arith))

-- The slot behind the one that is `n` steps from `h`.
pub advance : (cap h n : ℕ) → ((h + n) % cap + 1) % cap ≡ (h + (n + 1)) % cap
advance cap h n = rw mod-add-mod (ap (λ (k : ℕ). k % cap) (omega arith))
