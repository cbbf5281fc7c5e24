-- ===== src/Walk/Termination.antt =====
-- When `traverse_dir` returns, and what its list then holds.
use osa_sp.Base.{
  ℕ, zero, suc, ◌+◌, ◌-◌, ◌≤◌, ◌<◌, ◌≡◌, ◌⊎◌, inl, inr, refl, sym, ap, ◌∙◌, Bool, true, Bool-cases,
  Option, some, Option-cases, List, [], ◌∷◌, ◌++◌, length, length-append, take, arith,
}
use mathlib.Core.Path.{subst}
use osa_sp.Walk.{
  Kind, link, directory, regular, other, PathList, Options, Run, returned, exited, unfinished,
  is_directory, is_match, path_max, join_path, is_dots, add_match, descend, visit_path, visit,
  visit_all, open_dir, traverse_dir, walk_from,
}
use osa_sp.Walk.Paths.{add_path_appends}

take_short : (n : ℕ) (xs : List ℕ) → length (take n xs) < n → length (take n xs) ≡ length xs
take_short zero xs h = elim h [ ]
take_short (suc n) [] h = refl
take_short (suc n) (x ∷ xs) h = omega (arith, take_short n xs (omega (arith, h)))

is_directory_lem : (k : Kind) → is_directory k ≡ true → k ≡ directory
is_directory_lem link h = cc h
is_directory_lem directory h = refl
is_directory_lem regular h = cc h
is_directory_lem other h = cc h

module _ (lstat : List ℕ → Option Kind) (opts : Options) where
  -- Every path is one of a file that matches.
  abbrev pub AreListed : List (List ℕ) → Type 0
  AreListed [] = Unit
  AreListed (p ∷ ps) = ((k : Kind) × (lstat p ≡ some k) × (is_match k opts ≡ true)) × AreListed ps

  AreListed-append :
      (ps : List (List ℕ)) (p : List ℕ) (k : Kind)
      → AreListed ps
      → lstat p ≡ some k
      → is_match k opts ≡ true
      → AreListed (ps ++ (p ∷ []))
  AreListed-append [] p k v found ok = ((k, found, ok), tt)
  AreListed-append (q ∷ ps) p k v found ok = (v.0, AreListed-append ps p k v.1 found ok)

  abbrev pub IsGood : PathList → Type 0
  IsGood pl = (length pl.items ≤ pl.capacity) × AreListed pl.items

  -- The run exits, or returns a good list.
  abbrev pub Ends : Run PathList → Type 0
  Ends unfinished = ⊥
  Ends exited = Unit
  Ends (returned pl) = IsGood pl

module _ (lstat : List ℕ → Option Kind) (readdir : ℕ → List ℕ → Option (List (List ℕ)))
    (memory : PathList → Bool × Bool) (opts : Options) where
  add_match-Ends :
      (k : Kind) (pl : PathList) (path : List ℕ)
      → lstat path ≡ some k
      → IsGood lstat opts pl
      → Ends lstat opts (add_match lstat readdir memory opts k pl path)
  unfolding add_match
  add_match-Ends k pl path found v = elim (Bool-cases (is_match k opts)) [
    | inr e ↦ rw e v
    | inl e ↦ elim (add_path_appends (memory pl).0 (memory pl).1 pl path v.0) [
      | inl (over, _) ↦ rw (e, over) tt
      | inr (pl', done, more, room) ↦
          rw (e, done) (room, rw more (AreListed-append lstat opts pl.items path k v.1 found e))
    ]
  ]

  descend-Ends :
      (go : List ℕ → PathList → Run PathList) (k : Kind) (path : List ℕ) (run : Run PathList)
      → Ends lstat opts run
      → (is_directory k ≡ true
          → (pl : PathList) → IsGood lstat opts pl
          → Ends lstat opts (go path pl))
      → Ends lstat opts (descend lstat readdir memory opts go k path run)
  unfolding descend
  descend-Ends go k path (returned pl) v deeper = elim (Bool-cases (is_directory k)) [
    | inl e ↦ rw e (deeper e pl v)
    | inr e ↦ rw e v
  ]
  descend-Ends go k path exited v deeper = tt
  descend-Ends go k path unfinished v deeper = v

  visit_all-Ends :
      (go : List ℕ → PathList → Run PathList) (base : List ℕ) (names : List (List ℕ))
      (run : Run PathList)
      → Ends lstat opts run
      → ((name : List ℕ) (pl : PathList)
          → IsGood lstat opts pl
          → Ends lstat opts (visit lstat readdir memory opts go base name pl))
      → Ends lstat opts (visit_all lstat readdir memory opts go base names run)
  unfolding visit_all
  visit_all-Ends go base names exited v one = tt
  visit_all-Ends go base names unfinished v one = v
  visit_all-Ends go base [] (returned pl) v one = v
  visit_all-Ends go base (name ∷ rest) (returned pl) v one =
      visit_all-Ends go base rest (visit lstat readdir memory opts go base name pl) (one name pl v)
        one

  visit-Ends :
      (go : List ℕ → PathList → Run PathList) (base name : List ℕ) (pl : PathList)
      → IsGood lstat opts pl
      → (lstat (join_path base name) ≡ some directory
          → (pl' : PathList) → IsGood lstat opts pl'
          → Ends lstat opts (go (join_path base name) pl'))
      → Ends lstat opts (visit lstat readdir memory opts go base name pl)
  unfolding visit visit_path
  visit-Ends go base name pl v deeper = elim (Bool-cases (is_dots name)) [
    | inl e ↦ rw e v
    | inr e ↦ elim (Option-cases (lstat (join_path base name))) [
      | inl missing ↦ rw (e, missing, visit_path) v
      | inr (k, found) ↦
          rw (e, found, visit_path)
            (descend-Ends go k (join_path base name)
              (add_match lstat readdir memory opts k pl (join_path base name))
              (add_match-Ends k pl (join_path base name) found v)
              (λ d. deeper (found ∙ ap some (is_directory_lem k d))))
    ]
  ]

  -- A directory's path is shorter than the longest that `snprintf` writes.
  module _ (short : (p : List ℕ) → lstat p ≡ some directory → length p < path_max - 1) where
    longer :
        (base name : List ℕ)
        → lstat (join_path base name) ≡ some directory
        → length base < length (join_path base name)
    unfolding join_path
    longer base name found = omega (
      arith,
      take_short (path_max - 1) (base ++ (47 ∷ name)) (short _ found),
      length-append base (47 ∷ name),
    )

    traverse_dir-Ends :
        (fuel opened : ℕ) (base : List ℕ) (pl : PathList)
        → length base < path_max
        → path_max ≤ length base + fuel
        → IsGood lstat opts pl
        → Ends lstat opts (traverse_dir lstat readdir memory opts fuel opened base pl)
    unfolding traverse_dir open_dir
    traverse_dir-Ends zero opened base pl inside enough v = absurd (omega (arith, inside, enough))
    traverse_dir-Ends (suc fuel) opened base pl inside enough v =
        elim (Option-cases (readdir opened base)) [
          | inl e ↦ rw e v
          | inr (names, e) ↦ rw e (
              visit_all-Ends (traverse_dir lstat readdir memory opts fuel (suc opened)) base names
                (returned pl) v
                (λ name pl v.
                  visit-Ends (traverse_dir lstat readdir memory opts fuel (suc opened)) base name pl
                    v
                    (λ found pl' v'.
                      traverse_dir-Ends fuel (suc opened) (join_path base name) pl'
                        (omega (arith, short _ found))
                        (omega (arith, enough, longer base name found)) v')))
        ]

    -- If every directory's path is shorter than 4095 characters, the walk from a path that exists and
    -- is shorter than PATH_MAX ends with fuel for PATH_MAX levels. Either it exits, or its list is
    -- within its capacity and holds only paths of files that match the options.
    pub walk_from_returns :
        (start : List ℕ) (k : Kind)
        → lstat start ≡ some k
        → length start < path_max
        → (walk_from lstat readdir memory opts path_max start (lstat start) ≡ exited)
          ⊎ ((pl : PathList) × (walk_from lstat readdir memory opts path_max start (lstat start)
                ≡ returned pl)
              × (length pl.items ≤ pl.capacity)
              × AreListed lstat opts pl.items)
    unfolding walk_from
    walk_from_returns start k found inside =
        outcome (walk_from lstat readdir memory opts path_max start (lstat start)) (
          subst (λ o. Ends lstat opts (walk_from lstat readdir memory opts path_max start o))
            (sym found)
            (descend-Ends (traverse_dir lstat readdir memory opts path_max 0) k start _
              (add_match-Ends k (record { items = []; capacity = 0 }) start found (omega arith, tt))
              (λ _ pl v. traverse_dir-Ends path_max 0 start pl inside (omega arith) v)))
      where
        outcome :
            (run : Run PathList)
            → Ends lstat opts run
            → (run ≡ exited)
              ⊎ ((pl : PathList) × (run ≡ returned pl)
                  × (length pl.items ≤ pl.capacity)
                  × AreListed lstat opts pl.items)
        outcome (returned pl) v = inr (pl, refl, v.0, v.1)
        outcome exited v = inl refl
        outcome unfinished v = absurd v
