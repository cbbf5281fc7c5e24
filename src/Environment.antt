-- ===== src/Environment.antt =====
-- `The concept of processes`: the parent that makes an environment from a file of names, and starts
-- children with it, parent.c, and the child that shows its environment, child.c.
pub mod Reading
pub mod Starting
mod Tests
use osa_sp.Base.{
  ℕ, zero, suc, ◌+◌, ◌-◌, ◌/◌, ◌%◌, Bool, true, false, Option, none, some, List, [], ◌∷◌, ◌++◌, ltb,
  leb, ◌==◌, if◌then◌else◌, length, codes, until_newline,
}

-- The environment of the process: `getenv`.
abbrev pub Environ : Type 0
Environ = List ℕ → Option (List ℕ)

-- `snprintf(…, "%s=%s", line, value)`
abbrev pub binding : List ℕ → List ℕ → List ℕ
binding name value = name ++ (b'=' ∷ value)

-- The loop of `read_env_file` over the lines that `fgets` gives, with the entries written so far.
unfoldable pub read_loop : Environ → ℕ → List (List ℕ) → List (List ℕ) → List (List ℕ)
read_loop getenv max_vars entries [] = entries
read_loop getenv max_vars entries (text ∷ texts) =
    let name = until_newline text in
    let skipped = read_loop getenv max_vars entries texts in
    if ltb (length entries) max_vars
    then elim (getenv name) [
      | none ↦ skipped
      | some value ↦ read_loop getenv max_vars (entries ++ (binding name value ∷ [])) texts
    ]
    else entries

-- `read_env_file` into an array of `slots` pointers: the entries before the NULL behind them. The file
-- that cannot be opened ends the program, and `overrun` writes that NULL out of the array.
pub data EnvFile : Type 0 where
  filled : List (List ℕ) → EnvFile
  overrun no_file : EnvFile

unfoldable pub terminate : ℕ → List (List ℕ) → EnvFile
terminate slots entries = if ltb (length entries) slots then filled entries else overrun

unfoldable pub read_env_file : Environ → Option (List (List ℕ)) → ℕ → ℕ → EnvFile
read_env_file getenv none max_vars slots = no_file
read_env_file getenv (some texts) max_vars slots =
    terminate slots (read_loop getenv max_vars [] texts)

-- `new_env[256]`, and the argument `max_vars` of the call
abbrev pub new_env_slots : ℕ
new_env_slots = 256

-- `%02d`; the fuel is the number itself, which has no more digits than that.
unfoldable pub print_number : ℕ → ℕ → List ℕ
print_number zero n = (b'0' + n) ∷ []
print_number (suc fuel) n =
    let higher = print_number fuel (n / 10) in
    if ltb n 10 then (b'0' + n) ∷ [] else higher ++ ((b'0' + n % 10) ∷ [])

abbrev pub child_name : ℕ → List ℕ
child_name n = codes "child_" ++ (if ltb n 10 then b'0' ∷ print_number n n else print_number n n)

-- `execve` of a child: the words of its `argv`, and its environment.
pub record Start : Type 0 where
  pub argv : List (List ℕ)
  pub env : List (List ℕ)

abbrev pub start : List (List ℕ) → List (List ℕ) → Start
start argv env = record { argv = argv; env = env }

abbrev pub env_file : List ℕ
env_file = codes "../../env"

pub record Parent : Type 0 where
  pub child_count : ℕ
  pub starts : List Start

-- How the loop of `main` stands: it goes on, it has ended on `q` and the children are waited for, or a
-- `fork` that fails has ended the program.
pub data Run : Type 0 where
  running left exited : Parent → Run

abbrev pub max_children : ℕ
max_children = 100

-- `+` and `*`, with the words behind the child's name, and whether `fork` succeeds. The count goes up
-- before the `fork`.
unfoldable pub add_child : List (List ℕ) → Bool → List (List ℕ) → Parent → Run
add_child env forked words p =
    if leb max_children p.child_count
    then running p
    else if forked
    then running (record {
      child_count = p.child_count + 1;
      starts = p.starts ++ (start (child_name p.child_count ∷ words) env ∷ []);
    })
    else exited (record p { child_count = p.child_count + 1 })

-- A round of the loop, by the character that `scanf` reads.
unfoldable pub main_round : List (List ℕ) → Bool → ℕ → Parent → Run
main_round env forked command p =
    if command == b'+'
    then add_child env forked (env_file ∷ []) p
    else if command == b'*'
    then add_child env forked [] p
    else if command == b'q'
    then left p
    else running p

unfoldable pub main_loop : List (List ℕ) → List (Bool × ℕ) → Run → Run
main_loop env [] r = r
main_loop env (round ∷ rounds) (running p) = main_loop env rounds (main_round env round.0 round.1 p)
main_loop env (round ∷ rounds) (left p) = left p
main_loop env (round ∷ rounds) (exited p) = exited p

-- `read_env_from_file` of child.c: the lines printed.
unfoldable pub read_env_from_file : Environ → List (List ℕ) → List (List ℕ)
read_env_from_file getenv [] = []
read_env_from_file getenv (text ∷ texts) =
    let rest = read_env_from_file getenv texts in
    elim (getenv (until_newline text)) [
      | none ↦ rest
      | some value ↦ binding (until_newline text) value ∷ rest
    ]

-- `main` of child.c behind its first two lines: what it prints of its environment. A second word names
-- the file to read, and one that cannot be opened ends the program.
unfoldable pub show_environment :
    (List ℕ → Option (List (List ℕ))) → Environ → Start → Option (List (List ℕ))
show_environment fopen getenv s = elim s.argv [
  | [] ↦ some s.env
  | name ∷ words ↦ elim words [
    | [] ↦ some s.env
    | path ∷ _ ↦ elim (fopen path) [
      | none ↦ none
      | some texts ↦ some (read_env_from_file getenv texts)
    ]
  ]
]
