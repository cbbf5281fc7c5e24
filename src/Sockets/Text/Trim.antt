-- ===== src/Sockets/Text/Trim.antt =====
-- `trim` of server.c: what it keeps and what it cuts.
use osa_sp.Base.{
  List-cases, ℕ, ◌≡◌, inl, inr, refl, ap, ◌∙◌, Bool, true, false, ◌&&◌, Bool-cases, List, [], ◌∷◌,
  ◌++◌, is_space, skip_spaces, arith,
}
use osa_sp.Sockets.Text.{trim_end, trim}

unfoldable pub all_spaces : List ℕ → Bool
all_spaces [] = true
all_spaces (c ∷ s) = is_space c && all_spaces s

unfoldable pub first_is_space : List ℕ → Bool
first_is_space [] = false
first_is_space (c ∷ _) = is_space c

unfoldable pub last_is_space : List ℕ → Bool
last_is_space [] = false
last_is_space (c ∷ []) = is_space c
last_is_space (c ∷ d ∷ s) = last_is_space (d ∷ s)

skip_spaces-split :
    (s : List ℕ)
    → (before : List ℕ) × (s ≡ before ++ skip_spaces s)
      × (all_spaces before ≡ true)
      × (first_is_space (skip_spaces s) ≡ false)
unfolding skip_spaces all_spaces first_is_space
skip_spaces-split [] = ([], refl, refl, refl)
skip_spaces-split (c ∷ s) =
    let (before, split, spaces, first) = skip_spaces-split s in
    elim (Bool-cases (is_space c)) [
      | inl e ↦ (c ∷ before, rw e (ap (◌∷◌ c) split), rw (e, spaces) refl, rw e first)
      | inr e ↦ ([], rw e refl, refl, rw e e)
    ]

trim_end-split :
    (s : List ℕ)
    → (after : List ℕ) × (s ≡ trim_end s ++ after)
      × (all_spaces after ≡ true)
      × (last_is_space (trim_end s) ≡ false)
unfolding trim_end all_spaces last_is_space
trim_end-split [] = ([], refl, refl, refl)
trim_end-split (c ∷ s) =
    let (after, split, spaces, last) = trim_end-split s in
    elim (List-cases (trim_end s)) [
      | inl e ↦ elim (Bool-cases (is_space c)) [
        | inl sp ↦ (
          c ∷ after,
          grind (arith, e, sp, split),
          grind (arith, sp, spaces),
          grind (arith, e, sp),
        )
        | inr sp ↦ (after, grind (arith, e, sp, split), spaces, grind (arith, e, sp))
      ]
      | inr (d, t, e) ↦ (after, grind (arith, e, split), spaces, grind (arith, e, last))
    ]

trim_end-first : (s : List ℕ) → first_is_space s ≡ false → first_is_space (trim_end s) ≡ false
unfolding trim_end first_is_space
trim_end-first [] h = refl
trim_end-first (c ∷ s) h = elim (List-cases (trim_end s)) [
  | inl e ↦ grind (arith, e, h)
  | inr (d, t, e) ↦ grind (arith, e, h)
]

-- `trim` cuts white space at both ends and nothing else, and leaves none at either end.
pub trim_lem :
    (s : List ℕ)
    → (before after : List ℕ) × (s ≡ before ++ (trim s ++ after))
      × (all_spaces before ≡ true)
      × (all_spaces after ≡ true)
      × (first_is_space (trim s) ≡ false)
      × (last_is_space (trim s) ≡ false)
unfolding trim
trim_lem s =
    let (before, split, spaces, first) = skip_spaces-split s in
    let (after, cut, spaces', last) = trim_end-split (skip_spaces s) in
    (
      before,
      after,
      split ∙ ap (λ t. before ++ t) cut,
      spaces,
      spaces',
      trim_end-first (skip_spaces s) first,
      last,
    )
