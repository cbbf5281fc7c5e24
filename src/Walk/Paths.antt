-- ===== src/Walk/Paths.antt =====
-- The list of paths and the filter of `dirwalk`.
use osa_sp.Base.{
  ℕ, ◌≤◌, ◌≡◌, ◌⊎◌, inl, inr, refl, Bool, true, false, not, ◌&&◌, ◌||◌, Bool-cases, List, [], ◌∷◌,
  ◌++◌, ◌==◌, length, length-append, arith, ltb,
}
use osa_sp.Walk.{
  Kind, PathList, Options, returned, exited, is_link, is_directory, is_regular, is_match,
  new_capacity, grow, store, add_path,
}

-- `is_match` accepts every file when there is no filter, and else those of a kind that is asked for.
pub is_match_lem :
    (k : Kind) (o : Options)
    → is_match k o ≡ (
        (o.l_only && is_link k)
        || (o.d_only && is_directory k)
        || (o.f_only && is_regular k)
        || not (o.l_only || o.d_only || o.f_only))
unfolding is_match
is_match_lem k o = ground arith

-- `add_path` to a list within its capacity either exits, which takes a failing allocation, or appends
-- the path and keeps the list within its capacity.
pub add_path_appends :
    (allocated copied : Bool) (pl : PathList) (path : List ℕ)
    → length pl.items ≤ pl.capacity
    → ((add_path allocated copied pl path ≡ exited) × ((allocated && copied) ≡ false))
      ⊎ ((pl' : PathList) × (add_path allocated copied pl path ≡ returned pl')
          × (pl'.items ≡ pl.items ++ (path ∷ []))
          × (length pl'.items ≤ pl'.capacity))
unfolding add_path store grow
add_path_appends allocated copied pl path h = elim (Bool-cases (length pl.items == pl.capacity)) [
  | inl full ↦ elim (Bool-cases allocated) [
    | inl a ↦ elim (Bool-cases copied) [
      | inl c ↦ inr (
        record { items = pl.items ++ (path ∷ []); capacity = new_capacity pl.capacity },
        rw (full, a, grown full, c) refl,
        refl,
        ground (arith, length-append pl.items (path ∷ []), full),
      )
      | inr c ↦ inl (rw (full, a, grown full, c) refl, ground (arith, c))
    ]
    | inr a ↦ inl (rw (full, a) refl, ground (arith, a))
  ]
  | inr free ↦ elim (Bool-cases copied) [
    | inl c ↦ inr (
      record pl { items = pl.items ++ (path ∷ []) },
      rw (free, room free, c) refl,
      refl,
      ground (arith, length-append pl.items (path ∷ []), free, h),
    )
    | inr c ↦ inl (rw (free, room free, c) refl, ground (arith, c))
  ]
]
  where
    grown :
        (length pl.items == pl.capacity) ≡ true
        → ltb (length pl.items) (new_capacity pl.capacity) ≡ true
    grown full = ground (arith, full)

    room : (length pl.items == pl.capacity) ≡ false → ltb (length pl.items) pl.capacity ≡ true
    room free = ground (arith, free, h)
