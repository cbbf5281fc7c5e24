-- ===== src/Base.antt =====
-- The names that every module shares: the libraries', passed on, and those of the children.
mod Tests
mod Lists
mod Int
mod Bytes
mod Modulo
mod Window
mod Family
mod Chars
pub use Tests.*
pub use Lists.*
pub use Int.*
pub use Bytes.*
pub use Modulo.*
pub use Window.*
pub use Family.*
pub use Chars.{codes, newline, is_space, is_digit, same_bytes}
unfoldable pub use Chars.{skip_spaces, until_newline}
unfoldable pub use Bytes.{all_below}
pub use Prim.Native.Nat.{ℕ, zero, suc, ◌+◌, ◌-◌, ◌*◌, ◌/◌, ◌%◌, ◌^◌, ◌≤◌, ◌<◌, bit_xor, bit_or, min}
pub use mathlib.Core.Path.{◌≡◌, refl, sym, ap, ap₂, ◌∙◌, ◌≡⟨◌⟩◌, ◌∎}
pub use mathlib.Core.Logic.{◌≢◌, ◌↔◌, ◌⊎◌, inl, inr}
pub use mathlib.Core.Bool.{Bool, true, false, not, ◌&&◌, ◌||◌}
pub use mathlib.Core.Option.{Option, none, some}
pub use mathlib.Core.List.{List, [], ◌∷◌, ◌++◌, map, append-nil, append_assoc}
pub use native.Mathlib.Omega.{arith}
pub use mathlib.Core.Logic.{ite, dite, if_pos, if_neg}
unfoldable pub use native.Mathlib.Decide.{dec_lt, ℕ_discrete}
