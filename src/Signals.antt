-- ===== src/Signals.antt =====
-- `Interaction and synchronization of processes`: the parent that starts and ends children, parent.c,
-- and the child that counts and reports, child.c. A child's end reaches the parent as SIGCHLD; the
-- model lets that signal come between two commands, behind a command, and, within a deletion, on both
-- sides of its loop. In the middle of `case_plus` and of a loop it is left out.
pub mod Reaping
pub mod Gap
pub mod Deletion
pub mod Races
pub mod Commands
pub mod Child
mod Tests
use osa_sp.Base.{
  ℕ, zero, suc, ◌+◌, ◌-◌, ◌*◌, ◌/◌, ◌%◌, Bool, true, false, ◌||◌, Option, none, some, List, [], ◌∷◌,
  ◌++◌, ltb, leb, ◌==◌, if◌then◌else◌, length, take, get_or, codes, until_newline,
}

-- process_info
pub record ProcessInfo : Type 0 where
  pub pid : ℕ
  pub name : List ℕ

abbrev pub process_info : ℕ → List ℕ → ProcessInfo
process_info pid name = record { pid = pid; name = name }

pub data Signal : Type 0 where
  sigterm sigkill : Signal

-- The globals of parent.c: the first `child_processes_size` entries of the array, its capacity, and the
-- signals sent so far.
pub record Parent : Type 0 where
  pub processes : List ProcessInfo
  pub capacity : ℕ
  pub sent : List (ℕ × Signal)

abbrev pub first_capacity : ℕ
first_capacity = 8

-- `allocate_child_processes`
abbrev pub start : Parent
start = record { processes = []; capacity = first_capacity; sent = [] }

-- `%02zu`; the fuel is the number itself, which has no more digits than that.
unfoldable pub print_decimal : ℕ → ℕ → List ℕ
print_decimal zero n = (b'0' + n) ∷ []
print_decimal (suc fuel) n =
    let higher = print_decimal fuel (n / 10) in
    if ltb n 10 then (b'0' + n) ∷ [] else higher ++ ((b'0' + n % 10) ∷ [])

abbrev pub two_digits : ℕ → List ℕ
two_digits n = if ltb n 10 then b'0' ∷ print_decimal n n else print_decimal n n

-- `snprintf(name, sizeof(name), "C_%02zu", index)`
unfoldable pub label : ℕ → List ℕ
label index = take (first_capacity * 2 - 1) (codes "C_" ++ two_digits index)

-- `find_process_index_by_pid`; `none` is -1.
unfoldable pub find_process_index_by_pid : ℕ → List ProcessInfo → Option ℕ
find_process_index_by_pid pid [] = none
find_process_index_by_pid pid (p ∷ ps) =
    let rest = find_process_index_by_pid pid ps in
    if p.pid == pid then some 0 else elim rest [ none ↦ none | some i ↦ some (suc i) ]

unfoldable pub find_process_name_by_pid : ℕ → List ProcessInfo → Option (List ℕ)
find_process_name_by_pid pid ps = elim (find_process_index_by_pid pid ps) [
  | none ↦ none
  | some i ↦ some (get_or ps i (process_info 0 [])).name
]

-- What `signal_handler` prints on SIGUSR1, where a child's report begins, and on SIGUSR2, where it ends:
-- the child's name, or that it is unknown.
pub record Reporting : Type 0 where
  pub ends : Bool
  pub name : Option (List ℕ)
  pub pid : ℕ

unfoldable pub child_reports : Bool → ℕ → List ProcessInfo → Reporting
child_reports ends pid ps = record {
  ends = ends;
  name = find_process_name_by_pid pid ps;
  pid = pid;
}

-- The loop that moves the entries behind `index` down by one, and the size by one with it. Behind the
-- last entry the loop does nothing, and the last entry goes. `none` is the loop that runs out of the
-- array, as `child_processes_size - 1` of the size 0 makes it.
unfoldable pub shift_down : ℕ → List ProcessInfo → Option (List ProcessInfo)
shift_down index [] = none
shift_down zero (p ∷ ps) = some ps
shift_down (suc index) (p ∷ []) = some []
shift_down (suc index) (p ∷ q ∷ ps) =
    let rest = shift_down index (q ∷ ps) in elim rest [ none ↦ none | some qs ↦ some (p ∷ qs) ]

-- What the loops over `waitpid` do for one pid: the index that is found is inside the array.
unfoldable pub reap : ℕ → List ProcessInfo → List ProcessInfo
reap pid ps = elim (find_process_index_by_pid pid ps) [
  | none ↦ ps
  | some i ↦ elim (shift_down i ps) [ none ↦ ps | some rest ↦ rest ]
]

-- `signal_handler` on SIGCHLD, and the loop at the end of a command: the pids that `waitpid` gives.
unfoldable pub reap_all : List ℕ → List ProcessInfo → List ProcessInfo
reap_all [] ps = ps
reap_all (pid ∷ pids) ps = reap_all pids (reap pid ps)

abbrev pub new_capacity : Parent → ℕ
new_capacity s = if leb s.capacity (length s.processes) then s.capacity * 2 else s.capacity

-- `case_plus` behind the array's growth; `none` is a `fork` that fails.
unfoldable pub start_child : Option ℕ → Parent → Parent
start_child none s = s
start_child (some pid) s = record s {
  processes = s.processes ++ (process_info pid (label (length s.processes)) ∷ []);
}

-- `case_plus`, with whether `realloc` succeeds and the pid that `fork` gives.
unfoldable pub case_plus : Bool → Option ℕ → Parent → Parent
case_plus allocated forked s =
    if leb s.capacity (length s.processes)
    then (if allocated then start_child forked (record s { capacity = new_capacity s }) else s)
    else start_child forked s

-- The pids that SIGCHLD reaps during a deletion: between its `kill` and its loop, and between its loop
-- and the decrement of the size.
pub record Meanwhile : Type 0 where
  pub before_loop : List ℕ
  pub behind_loop : List ℕ

abbrev pub meanwhile : List ℕ → List ℕ → Meanwhile
meanwhile before_loop behind_loop = record { before_loop = before_loop; behind_loop = behind_loop }

-- The entries once the loop of a deletion has run, when the size still counts the last one; `none` is
-- the loop that runs out of the array.
unfoldable pub move_down : ℕ → List ProcessInfo → Option (List ProcessInfo)
move_down index [] = none
move_down zero (p ∷ []) = some (p ∷ [])
move_down zero (p ∷ q ∷ ps) =
    let rest = move_down zero (q ∷ ps) in elim rest [ none ↦ none | some qs ↦ some (q ∷ qs) ]
move_down (suc index) (p ∷ []) = some (p ∷ [])
move_down (suc index) (p ∷ q ∷ ps) =
    let rest = move_down index (q ∷ ps) in elim rest [ none ↦ none | some qs ↦ some (p ∷ qs) ]

-- `child_processes_size--`; `none` is the size 0, of which it makes SIZE_MAX.
unfoldable pub lower : List ProcessInfo → Option (List ProcessInfo)
lower [] = none
lower (p ∷ []) = some []
lower (p ∷ q ∷ ps) =
    let rest = lower (q ∷ ps) in elim rest [ none ↦ none | some qs ↦ some (p ∷ qs) ]

unfoldable pub lower_behind : List ℕ → Option (List ProcessInfo) → Option (List ProcessInfo)
lower_behind reaped none = none
lower_behind reaped (some moved) = lower (reap_all reaped moved)

unfoldable pub without_gap : Meanwhile → ℕ → List ProcessInfo → Option (List ProcessInfo)
without_gap m index ps = lower_behind m.behind_loop (move_down index (reap_all m.before_loop ps))

-- `delete_child_process_by_index` once it has sent the signal.
unfoldable pub close_gap : Meanwhile → ℕ → Parent → Option Parent
close_gap m index s = elim (without_gap m index s.processes) [
  | none ↦ none
  | some rest ↦ some (record s { processes = rest })
]

abbrev pub pid_at : List ProcessInfo → ℕ → ℕ
pid_at ps index = (get_or ps index (process_info 0 [])).pid

-- `delete_child_process_by_index`
unfoldable pub delete_child_process_by_index : Meanwhile → ℕ → Parent → Option Parent
delete_child_process_by_index reaped index s =
    if leb (length s.processes) index
    then some s
    else close_gap reaped index
        (record s { sent = s.sent ++ ((pid_at s.processes index, sigterm) ∷ []) })

-- `case_minus`
unfoldable pub case_minus : Meanwhile → Parent → Option Parent
case_minus reaped s =
    if length s.processes == 0
    then some s
    else delete_child_process_by_index reaped (length s.processes - 1) s

abbrev pub next_reaped : List Meanwhile → Meanwhile
next_reaped [] = meanwhile [] []
next_reaped (m ∷ _) = m

abbrev pub later_reaped : List Meanwhile → List Meanwhile
later_reaped [] = []
later_reaped (_ ∷ reaped) = reaped

-- `delete_all_children`, with the pids that SIGCHLD reaps in each deletion; the fuel is the size.
unfoldable pub delete_from_last : ℕ → List Meanwhile → Parent → Option Parent
delete_from_last zero reaped s = some s
delete_from_last (suc fuel) reaped s =
    if length s.processes == 0
    then some s
    else elim (delete_child_process_by_index (next_reaped reaped) (length s.processes - 1) s) [
      | none ↦ none
      | some s' ↦ delete_from_last fuel (later_reaped reaped) s'
    ]

unfoldable pub delete_all_children : List Meanwhile → Parent → Option Parent
delete_all_children reaped s = delete_from_last (length s.processes) reaped s
