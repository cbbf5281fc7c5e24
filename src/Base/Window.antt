-- ===== src/Base/Window.antt =====
-- The slots of a circular buffer in use, as a list: `n` slots from index `h` on, going round at `cap`.
use osa_sp.Base.Modulo.{wrap_cases, next_start}
use osa_sp.Base.Lists.{length, get_or, set, get_or-set_self, get_or-set_ne}
use native.Mathlib.Omega.{arith}
use mathlib.Core.List.{List, [], ◌∷◌, ◌++◌}
use mathlib.Core.Logic.{◌≢◌}
use mathlib.Core.Path.{◌≡◌, refl, ap, ap₂, ◌∙◌}
use Prim.Native.Nat.{ℕ, zero, suc, ◌+◌, ◌-◌, ◌%◌, ◌<◌}

module _ {ℓ} {A : Type ℓ} (d : A) where
  abbrev pub window : List A → ℕ → ℕ → ℕ → List A
  window buffer cap h zero = []
  window buffer cap h (suc n) = get_or buffer h d ∷ window buffer cap ((h + 1) % cap) n

  pub length-window : (buffer : List A) (cap h n : ℕ) → length (window buffer cap h n) ≡ n
  length-window buffer cap h zero = refl
  length-window buffer cap h (suc n) = ap suc (length-window buffer cap ((h + 1) % cap) n)

  -- `window` matches on `suc`, the code tests a count against 0
  pub window_of_ne_zero :
      (buffer : List A) (cap h n : ℕ)
      → n ≢ 0
      → window buffer cap h n ≡ get_or buffer h d ∷ window buffer cap ((h + 1) % cap) (n - 1)
  window_of_ne_zero buffer cap h zero p = absurd (p refl)
  window_of_ne_zero buffer cap h (suc n) p = ap (λ k. window buffer cap h (suc k)) (omega arith)

  -- A slot written at the end of a window that leaves a slot free is appended to it.
  pub window_put :
      (n : ℕ) (buffer : List A) (cap h i : ℕ) (m : A)
      → length buffer ≡ cap
      → h < cap
      → n < cap
      → i ≡ (h + n) % cap
      → window (set buffer i m) cap h (suc n) ≡ window buffer cap h n ++ (m ∷ [])
  window_put zero buffer cap h i m long inside room at =
      let here : i ≡ h = omega (arith, wrap_cases cap h 0 inside (omega arith)) in
      rw (here, get_or-set_self buffer h m d (omega arith))
  window_put (suc n) buffer cap h i m long inside room at =
      let apart : i ≢ h = omega (arith, wrap_cases cap h (suc n) inside (omega arith)) in
      ap₂ ◌∷◌ (get_or-set_ne buffer i h m d apart) (
        window_put n buffer cap ((h + 1) % cap) i m long (omega arith) (omega arith)
          (at ∙ next_start cap h n))
