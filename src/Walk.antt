-- ===== src/Walk.antt =====
-- `dirwalk`: main.c. The file system is two functions: `lstat` of a path, and what `opendir` and `readdir`
-- give for a path, which also depends on how many directories are open already, since each of them holds
-- a descriptor. A path and a name are lists of characters.
pub mod Paths
pub mod Termination
pub mod Longest
mod Tests
use osa_sp.Base.{
  ℕ, zero, suc, ◌+◌, ◌*◌, Bool, true, false, not, ◌&&◌, ◌||◌, Option, none, some, List, [], ◌∷◌,
  ◌++◌, ◌==◌, if◌then◌else◌, length, take, ltb, ◌-◌,
}

-- What `S_ISLNK`, `S_ISDIR` and `S_ISREG` tell apart.
pub data Kind : Type 0 where
  link directory regular other : Kind

-- `PathList`: the `count` paths in `items`.
pub record PathList : Type 0 where
  pub items : List (List ℕ)
  pub capacity : ℕ

pub record Options : Type 0 where
  pub l_only : Bool
  pub d_only : Bool
  pub f_only : Bool
  pub sort : Bool

-- A call that returns, one that exits the program, and one for which the fuel was not enough.
pub data Run (A : Type 0) : Type 0 where
  returned : A → Run A
  exited : Run A
  unfinished : Run A

abbrev pub is_link : Kind → Bool
is_link link = true
is_link _ = false

abbrev pub is_directory : Kind → Bool
is_directory directory = true
is_directory _ = false

abbrev pub is_regular : Kind → Bool
is_regular regular = true
is_regular _ = false

unfoldable pub is_match : Kind → Options → Bool
is_match k opts =
    let any_filter = opts.l_only || opts.d_only || opts.f_only in
    if opts.l_only && is_link k
    then true
    else if opts.d_only && is_directory k
    then true
    else if opts.f_only && is_regular k
    then true
    else not any_filter

-- PATH_MAX of Linux
abbrev pub path_max : ℕ
path_max = 4096

-- `snprintf(path, sizeof path, "%s/%s", basepath, name)`
unfoldable pub join_path : List ℕ → List ℕ → List ℕ
join_path base name = take (path_max - 1) (base ++ (47 ∷ name))

-- "." and ".."
abbrev pub is_dots : List ℕ → Bool
is_dots [] = false
is_dots (c ∷ []) = c == 46
is_dots (c ∷ d ∷ []) = (c == 46) && (d == 46)
is_dots (_ ∷ _ ∷ _ ∷ _) = false

-- The new capacity of a full list.
abbrev pub new_capacity : ℕ → ℕ
new_capacity capacity = if capacity == 0 then 16 else capacity * 2

-- Room for one more path; a failing `realloc` exits.
unfoldable pub grow : Bool → PathList → Run PathList
grow allocated pl =
    if length pl.items == pl.capacity
    then (if not allocated
        then exited
        else returned (record pl { capacity = new_capacity pl.capacity }))
    else returned pl

-- `add_path`; the Booleans say whether `realloc` and `strdup` succeed. A write outside `items`, which
-- does not happen, would be `unfinished`.
unfoldable pub store : Bool → List ℕ → Run PathList → Run PathList
store copied path (returned pl) =
    if ltb (length pl.items) pl.capacity
    then (if not copied then exited else returned (record pl { items = pl.items ++ (path ∷ []) }))
    else unfinished
store copied path exited = exited
store copied path unfinished = unfinished

unfoldable pub add_path : Bool → Bool → PathList → List ℕ → Run PathList
add_path allocated copied pl path = store copied path (grow allocated pl)

module _ (lstat : List ℕ → Option Kind) (readdir : ℕ → List ℕ → Option (List (List ℕ)))
    (memory : PathList → Bool × Bool) (opts : Options) where
  -- `add_path` of a path that matches.
  unfoldable pub add_match : Kind → PathList → List ℕ → Run PathList
  add_match k pl path =
      if is_match k opts then add_path (memory pl).0 (memory pl).1 pl path else returned pl

  -- The call for a directory, behind `add_path`; `go` is `traverse_dir`.
  unfoldable pub descend :
      (List ℕ → PathList → Run PathList) → Kind → List ℕ → Run PathList → Run PathList
  descend go k path (returned pl) = if is_directory k then go path pl else returned pl
  descend go k path exited = exited
  descend go k path unfinished = unfinished

  unfoldable pub visit_path :
      (List ℕ → PathList → Run PathList) → List ℕ → Option Kind → PathList → Run PathList
  visit_path go path none pl = returned pl
  visit_path go path (some k) pl = descend go k path (add_match k pl path)

  -- One round of the loop of `traverse_dir`.
  unfoldable pub visit :
      (List ℕ → PathList → Run PathList) → List ℕ → List ℕ → PathList → Run PathList
  visit go base name pl =
      if is_dots name
      then returned pl
      else visit_path go (join_path base name) (lstat (join_path base name)) pl

  -- The loop of `traverse_dir`.
  unfoldable pub visit_all :
      (List ℕ → PathList → Run PathList) → List ℕ → List (List ℕ) → Run PathList → Run PathList
  visit_all go base names exited = exited
  visit_all go base names unfinished = unfinished
  visit_all go base [] (returned pl) = returned pl
  visit_all go base (name ∷ rest) (returned pl) = visit_all go base rest (visit go base name pl)

  -- `opendir` that fails is reported and skipped.
  unfoldable pub open_dir :
      (List ℕ → PathList → Run PathList) → List ℕ → Option (List (List ℕ)) → PathList → Run PathList
  open_dir go base none pl = returned pl
  open_dir go base (some names) pl = visit_all go base names (returned pl)

  -- `traverse_dir` with `opened` directories open, with fuel for the depth of its recursion.
  unfoldable pub traverse_dir : (fuel opened : ℕ) → List ℕ → PathList → Run PathList
  traverse_dir zero opened base pl = unfinished
  traverse_dir (suc fuel) opened base pl =
      open_dir (traverse_dir fuel (suc opened)) base (readdir opened base) pl

  -- `main` behind its options: the start directory, then its tree.
  unfoldable pub walk_from : ℕ → List ℕ → Option Kind → Run PathList
  walk_from fuel start none = exited
  walk_from fuel start (some k) =
      descend (traverse_dir fuel 0) k start
        (add_match k (record { items = []; capacity = 0 }) start)

-- The loop over `getopt` in `main`; `none` is the exit on an unknown option.
unfoldable pub parse_options : List ℕ → Options → Option Options
parse_options [] opts = some opts
parse_options (c ∷ rest) opts =
    let with_l = parse_options rest (record opts { l_only = true }) in
    let with_d = parse_options rest (record opts { d_only = true }) in
    let with_f = parse_options rest (record opts { f_only = true }) in
    let with_s = parse_options rest (record opts { sort = true }) in
    if c == 108
    then with_l
    else if c == 100
    then with_d
    else if c == 102
    then with_f
    else if c == 115
    then with_s
    else none
