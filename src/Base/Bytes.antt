-- ===== src/Base/Bytes.antt =====
-- `^` on bytes: closed under 256, and a byte xored twice drops out. Both are checked at every pair.
use osa_sp.Base.Tests.{ltb, ◌==◌}
use native.Mathlib.Decide.{dec_lt}
use native.Mathlib.Omega.{arith}
use mathlib.Core.Bool.{Bool, true, ◌&&◌}
use mathlib.Core.Path.{◌≡◌, refl}
use Prim.Native.Nat.{ℕ, bit_xor, zero, suc, ◌<◌}

-- A test that holds of all numbers under a bound, by evaluation.
unfoldable pub all_below : (bound : ℕ) → (test : ℕ → Bool) → Bool
all_below zero test = true
all_below (suc bound) test = all_below bound test && test bound

pub all_below_lem :
    (test : ℕ → Bool) (bound : ℕ)
    → all_below bound test ≡ true
    → (k : ℕ) → k < bound
    → test k ≡ true
unfolding all_below
all_below_lem test zero all k inside = elim inside [ ]
all_below_lem test (suc bound) all k inside = elim (dec_lt k bound) [
  | yes under ↦ all_below_lem test bound (ground (arith, all)) k under
  | no top ↦ ground (arith, all)
]

pair_check : ℕ → ℕ → Bool
pair_check a b =
    ltb (bit_xor a b) 256 && (bit_xor (bit_xor a b) b == a) && (bit_xor (bit_xor a b) a == b)

pair_table : all_below 256 (λ a. all_below 256 (pair_check a)) ≡ true
unfolding all_below pair_check
pair_table = refl

pair_checked : (a b : ℕ) → a < 256 → b < 256 → pair_check a b ≡ true
pair_checked a b ha hb =
    all_below_lem (pair_check a) 256
      (all_below_lem (λ x. all_below 256 (pair_check x)) 256 pair_table a ha) b hb

pub bit_xor-lt : (a b : ℕ) → a < 256 → b < 256 → bit_xor a b < 256
unfolding pair_check
bit_xor-lt a b ha hb = ground (arith, pair_checked a b ha hb)

pub bit_xor_cancel_right : (a b : ℕ) → a < 256 → b < 256 → bit_xor (bit_xor a b) b ≡ a
unfolding pair_check
bit_xor_cancel_right a b ha hb = ground (arith, pair_checked a b ha hb)

pub bit_xor_cancel_left : (a b : ℕ) → a < 256 → b < 256 → bit_xor (bit_xor a b) a ≡ b
unfolding pair_check
bit_xor_cancel_left a b ha hb = ground (arith, pair_checked a b ha hb)
