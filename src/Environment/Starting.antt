-- ===== src/Environment/Starting.antt =====
-- The children that the parent starts.
use osa_sp.Base.{
  ℕ, zero, suc, ◌+◌, ◌-◌, ◌≤◌, ◌≡◌, inl, inr, refl, sym, ap, ◌∙◌, Bool, Bool-cases, List, [], ◌∷◌,
  ◌++◌, List-cases, leb, ◌==◌, arith,
}
use osa_sp.Environment.{
  Start, start, Parent, Run, running, left, exited, max_children, child_name, add_child, main_round,
  main_loop, env_file,
}

unfoldable pub first_words : List Start → List (List ℕ)
first_words [] = []
first_words (s ∷ starts) = elim s.argv [
  | [] ↦ first_words starts
  | word ∷ _ ↦ word ∷ first_words starts
]

-- The names of the first `n` children.
unfoldable pub names_below : ℕ → List (List ℕ)
names_below zero = []
names_below (suc n) = names_below n ++ (child_name n ∷ [])

abbrev pub AllGiven : List (List ℕ) → List Start → Type 0
AllGiven env [] = Unit
AllGiven env (s ∷ starts) = (s.env ≡ env) × AllGiven env starts

-- `n` children are started, child_00 first, each with the environment.
abbrev pub AreStarted : List (List ℕ) → ℕ → List Start → Type 0
AreStarted env n starts =
    (n ≤ max_children) × (first_words starts ≡ names_below n) × AllGiven env starts

-- The same of a run; the name that was counted for a child that could not be started is the last.
unfoldable pub AreNumbered : List (List ℕ) → Run → Type 0
AreNumbered env (running p) = AreStarted env p.child_count p.starts
AreNumbered env (left p) = AreStarted env p.child_count p.starts
AreNumbered env (exited p) = AreStarted env (p.child_count - 1) p.starts

first_words-append :
    (starts : List Start) (word : List ℕ) (words env : List (List ℕ))
    → first_words (starts ++ (start (word ∷ words) env ∷ [])) ≡ first_words starts ++ (word ∷ [])
unfolding first_words
first_words-append [] word words env = refl
first_words-append (s ∷ starts) word words env = elim (List-cases s.argv) [
  | inl e ↦ grind (arith, e, first_words-append starts word words env)
  | inr (w, ws, e) ↦ grind (arith, e, first_words-append starts word words env)
]

AllGiven-append :
    (env : List (List ℕ)) (starts : List Start) (argv : List (List ℕ))
    → AllGiven env starts
    → AllGiven env (starts ++ (start argv env ∷ []))
AllGiven-append env [] argv h = (refl, tt)
AllGiven-append env (s ∷ starts) argv h = (h.0, AllGiven-append env starts argv h.1)

names_below-next : (n : ℕ) → names_below (n + 1) ≡ names_below n ++ (child_name n ∷ [])
unfolding names_below
names_below-next n = ap names_below (next n)
  where
    next : (n : ℕ) → n + 1 ≡ suc n
    next n = omega arith

add_child-AreNumbered :
    (env words : List (List ℕ)) (forked : Bool) (p : Parent)
    → AreStarted env p.child_count p.starts
    → AreNumbered env (add_child env forked words p)
unfolding add_child AreNumbered
add_child-AreNumbered env words forked p (limit, names, given) =
    elim (Bool-cases (leb max_children p.child_count)) [
      | inl e ↦ rw e (limit, names, given)
      | inr e ↦ elim (Bool-cases forked) [
        | inl f ↦
            rw (e, f)
              (
                ground (arith, e),
                first_words-append p.starts (child_name p.child_count) words env
                    ∙ (ap (λ ws. ws ++ (child_name p.child_count ∷ [])) names
                        ∙ sym (names_below-next p.child_count)),
                AllGiven-append env p.starts (child_name p.child_count ∷ words) given,
              )
        | inr f ↦ rw (e, f) (ground (arith, e), names ∙ ap names_below (omega arith), given)
      ]
    ]

main_round-AreNumbered :
    (env : List (List ℕ)) (forked : Bool) (command : ℕ) (p : Parent)
    → AreStarted env p.child_count p.starts
    → AreNumbered env (main_round env forked command p)
unfolding main_round AreNumbered
main_round-AreNumbered env forked command p h = elim (Bool-cases (command == b'+')) [
  | inl e ↦ rw e (add_child-AreNumbered env (env_file ∷ []) forked p h)
  | inr e ↦ elim (Bool-cases (command == b'*')) [
    | inl f ↦ rw (e, f) (add_child-AreNumbered env [] forked p h)
    | inr f ↦ elim (Bool-cases (command == b'q')) [
      | inl g ↦ rw (e, f, g) h
      | inr g ↦ rw (e, f, g) h
    ]
  ]
]

main_loop-keeps :
    (env : List (List ℕ)) (rounds : List (Bool × ℕ)) (r : Run)
    → AreNumbered env r
    → AreNumbered env (main_loop env rounds r)
unfolding main_loop AreNumbered
main_loop-keeps env [] r h = h
main_loop-keeps env (round ∷ rounds) (running p) h =
    main_loop-keeps env rounds (main_round env round.0 round.1 p)
      (main_round-AreNumbered env round.0 round.1 p h)
main_loop-keeps env (round ∷ rounds) (left p) h = h
main_loop-keeps env (round ∷ rounds) (exited p) h = h

-- Whatever is typed, the parent starts 100 children at most, named child_00 and so on in the order of
-- their start, and gives each of them the environment that it made from the file.
pub main_loop-AreNumbered :
    (env : List (List ℕ)) (rounds : List (Bool × ℕ))
    → AreNumbered env (main_loop env rounds (running (record { child_count = 0; starts = [] })))
unfolding AreNumbered first_words names_below
main_loop-AreNumbered env rounds =
    main_loop-keeps env rounds (running (record { child_count = 0; starts = [] }))
      (omega arith, refl, tt)
