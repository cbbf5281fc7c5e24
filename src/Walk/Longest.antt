-- ===== src/Walk/Longest.antt =====
-- Below a directory with the longest path, `traverse_dir` comes back to the same directory.
use osa_sp.Base.{
  ℕ, zero, suc, ◌+◌, ◌-◌, ◌≤◌, ◌<◌, ◌≡◌, inl, inr, refl, ap, ◌∙◌, Bool, true, false, Bool-cases,
  Option, some, List, [], ◌∷◌, ◌++◌, if◌then◌else◌, length, take, arith,
}
use osa_sp.Walk.{
  Kind, directory, PathList, Options, Run, returned, unfinished, is_match, path_max, join_path,
  is_dots, add_match, descend, visit_path, visit, visit_all, open_dir, traverse_dir,
}
use osa_sp.Walk.Paths.{add_path_appends}

take_all : (n : ℕ) (xs ys : List ℕ) → length xs ≡ n → take n (xs ++ ys) ≡ xs
take_all zero [] [] h = refl
take_all zero [] (y ∷ ys) h = refl
take_all zero (x ∷ xs) ys h = absurd (omega (arith, h))
take_all (suc n) [] ys h = absurd (omega (arith, h))
take_all (suc n) (x ∷ xs) ys h = ap (λ l. x ∷ l) (take_all n xs ys (omega (arith, h)))

module _ (lstat : List ℕ → Option Kind) (readdir : ℕ → List ℕ → Option (List (List ℕ)))
    (memory : PathList → Bool × Bool) (opts : Options) where
  add_match_returns :
      (k : Kind) (pl : PathList) (path : List ℕ)
      → ((pl : PathList) → memory pl ≡ (true, true))
      → length pl.items ≤ pl.capacity
      → (pl' : PathList) × (add_match lstat readdir memory opts k pl path ≡ returned pl')
        × (length pl'.items ≤ pl'.capacity)
  unfolding add_match
  add_match_returns k pl path plenty h = elim (Bool-cases (is_match k opts)) [
    | inr e ↦ (pl, rw e refl, h)
    | inl e ↦ elim (add_path_appends (memory pl).0 (memory pl).1 pl path h) [
      | inl (_, failed) ↦ absurd (true-ne-false (rw (plenty pl) at failed))
      | inr (pl', done, _, room) ↦ (pl', rw (e, done) refl, room)
    ]
  ]
    where
      true-ne-false : true ≡ false → ⊥
      true-ne-false e = cc e

  visit_again :
      (go : List ℕ → PathList → Run PathList) (base name : List ℕ) (pl pl' : PathList)
      → is_dots name ≡ false
      → join_path base name ≡ base
      → lstat base ≡ some directory
      → add_match lstat readdir memory opts directory pl base ≡ returned pl'
      → visit lstat readdir memory opts go base name pl ≡ go base pl'
  unfolding visit visit_path descend
  visit_again go base name pl pl' proper same found done =
      ap (λ (b : Bool). if b then returned pl else at (join_path base name)) proper
      ∙ ap at same
      ∙ ap (λ (o : Option Kind). visit_path lstat readdir memory opts go base o pl) found
      ∙ ap (descend lstat readdir memory opts go directory base) done
    where
      at : List ℕ → Run PathList
      at p = visit_path lstat readdir memory opts go p (lstat p) pl

  join_path_cut : (base name : List ℕ) → length base ≡ path_max - 1 → join_path base name ≡ base
  unfolding join_path
  join_path_cut base name long = take_all 4095 base (47 ∷ name) long

  -- A directory whose path has 4095 characters and whose first name is not a dot entry: the path of the
  -- entry is cut to that of the directory, so `traverse_dir` calls itself on the same directory. With
  -- memory for the list this goes as many levels deep as `opendir` succeeds: where it succeeds on `fuel`
  -- levels, that fuel is not enough.
  pub longest_path_nests :
      (base name : List ℕ) (rest : List (List ℕ)) (fuel opened : ℕ) (pl : PathList)
      → length base ≡ path_max - 1
      → lstat base ≡ some directory
      → ((n : ℕ) → n < opened + fuel → readdir n base ≡ some (name ∷ rest))
      → is_dots name ≡ false
      → ((pl : PathList) → memory pl ≡ (true, true))
      → length pl.items ≤ pl.capacity
      → traverse_dir lstat readdir memory opts fuel opened base pl ≡ unfinished
  unfolding traverse_dir open_dir visit_all
  longest_path_nests base name rest zero opened pl long found names proper plenty h = refl
  longest_path_nests base name rest (suc fuel) opened pl long found names proper plenty h =
      let (pl', done, room) = add_match_returns directory pl base plenty h in
      ap (λ (o : Option (List (List ℕ))). open_dir lstat readdir memory opts go base o pl)
        (names opened (omega arith))
      ∙ ap (visit_all lstat readdir memory opts go base rest) (
          visit_again go base name pl pl' proper (join_path_cut base name long) found done
          ∙ longest_path_nests base name rest fuel (suc opened) pl' long found
              (λ n h. names n (omega (arith, h))) proper plenty room)
    where
      go : List ℕ → PathList → Run PathList
      go = traverse_dir lstat readdir memory opts fuel (suc opened)
