-- ===== src/Walk/Tests.antt =====
-- `dirwalk` at concrete inputs.
use osa_sp.Base.{
  ℕ, ◌-◌, ◌≤◌, ◌<◌, ◌≡◌, ◌⊎◌, refl, Bool, true, false, Option, none, some, List, [], ◌∷◌, length,
  replicate, arith, ◌==◌, ltb, if◌then◌else◌, length-replicate,
}
use osa_sp.Walk.{
  Kind, directory, regular, PathList, Options, returned, exited, unfinished, path_max, traverse_dir,
  walk_from,
}
use osa_sp.Walk.Termination.{AreListed, walk_from_returns}
use osa_sp.Walk.Longest.{longest_path_nests}

abbrev only_files : Options
only_files = record { l_only = false; d_only = false; f_only = true; sort = false }

abbrev plenty : PathList → Bool × Bool
plenty _ = (true, true)

-- Paths of one character are directories with one file, whose path has three.
abbrev small_lstat : List ℕ → Option Kind
small_lstat p =
    if length p == 1 then some directory else if length p == 3 then some regular else none

abbrev small_readdir : ℕ → List ℕ → Option (List (List ℕ))
small_readdir _ p =
    if length p == 1 then some ((46 ∷ []) ∷ (46 ∷ 46 ∷ []) ∷ (102 ∷ []) ∷ []) else none

small_short : (p : List ℕ) → small_lstat p ≡ some directory → length p < path_max - 1
small_short p h = ground (arith, h)

walk_from_returns_example :
    (walk_from small_lstat small_readdir plenty only_files path_max (100 ∷ []) (some directory)
      ≡ exited)
    ⊎ ((pl : PathList) × (walk_from small_lstat small_readdir plenty only_files path_max
            (100 ∷ [])
            (some directory)
          ≡ returned pl)
        × (length pl.items ≤ pl.capacity)
        × AreListed small_lstat only_files pl.items)
walk_from_returns_example =
    walk_from_returns small_lstat small_readdir plenty only_files small_short (100 ∷ []) directory
      refl (omega arith)

-- Every path is a directory that holds one entry, and a process may open 1024 of them.
abbrev deep_lstat : List ℕ → Option Kind
deep_lstat _ = some directory

abbrev deep_readdir : ℕ → List ℕ → Option (List (List ℕ))
deep_readdir opened _ = if ltb opened 1024 then some ((97 ∷ []) ∷ []) else none

abbrev longest : List ℕ
longest = replicate 4095 97

longest_path_nests_example :
    traverse_dir deep_lstat deep_readdir plenty only_files 1000 0 longest
      (record { items = []; capacity = 0 })
    ≡ unfinished
longest_path_nests_example =
    longest_path_nests deep_lstat deep_readdir plenty only_files longest (97 ∷ []) [] 1000 0
      (record { items = []; capacity = 0 }) (length-replicate {A = ℕ} 4095 97) refl
      (λ n h. ground (arith, h)) refl (λ _. refl) (omega arith)
