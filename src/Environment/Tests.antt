-- ===== src/Environment/Tests.antt =====
-- The parent with an environment at concrete inputs.
use osa_sp.Base.{
  ℕ, ◌≡◌, refl, Option, none, some, List, [], ◌∷◌, ◌++◌, ltb, if◌then◌else◌, length, same_bytes,
  codes, newline, until_newline,
}
use osa_sp.Environment.{
  Environ, filled, overrun, read_env_file, read_loop, terminate, new_env_slots, start, env_file,
  read_env_from_file, show_environment,
}
use osa_sp.Environment.Reading.{AreShared, read_env_file_lem, show_environment-shared}

abbrev home_only : Environ
home_only name = if same_bytes name (codes "HOME") then some (codes "/root") else none

abbrev names : List (List ℕ)
names = (codes "HOME" ++ (newline ∷ [])) ∷ codes "EDITOR" ∷ []

read_env_file_lem_example : read_env_file home_only (some names) new_env_slots new_env_slots ≡ (
    let vars = read_env_from_file home_only names in
    if ltb (length vars) new_env_slots then filled vars else overrun)
read_env_file_lem_example = read_env_file_lem home_only names

abbrev files : List ℕ → Option (List (List ℕ))
files path = if same_bytes path env_file then some names else none

show_environment-shared_example :
    show_environment files home_only
      (start (codes "child_00" ∷ env_file ∷ []) (codes "HOME=/root" ∷ []))
    ≡ show_environment files home_only (start (codes "child_00" ∷ []) (codes "HOME=/root" ∷ []))
unfolding AreShared read_env_file read_loop terminate until_newline
show_environment-shared_example =
    show_environment-shared files home_only home_only names (codes "child_00")
      (codes "HOME=/root" ∷ []) refl (refl, (refl, tt)) refl
