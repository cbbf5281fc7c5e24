-- ===== src/Signals/Commands.antt =====
-- parent.c: `input_option` and `main`.
pub mod Bounds
use osa_sp.Base.{
  ℕ, zero, suc, ◌+◌, ◌-◌, ◌*◌, ◌≤◌, ◌<◌, ◌≡◌, ◌⊎◌, inl, inr, refl, sym, ap, ◌∙◌, Bool, true, false,
  not, ◌&&◌, ◌||◌, Bool-cases, Option, none, some, Option-cases, List, [], ◌∷◌, ◌++◌, append-nil,
  leb, ltb, ◌==◌, if◌then◌else◌, length, length-append, until_newline, arith,
}
use osa_sp.Signals.{
  ProcessInfo, process_info, Signal, sigterm, sigkill, Parent, start, label, new_capacity,
  start_child, case_plus, case_minus, delete_all_children, reap_all, delete_child_process_by_index,
  close_gap, shift_down, delete_from_last, next_reaped, Meanwhile,
}
use osa_sp.Signals.Reaping.{reap_all-length, shift_down-some}
use osa_sp.Signals.Deletion.{terms_from_last, delete_all_children-all_ended}

-- What the parent understands.
pub data Command : Type 0 where
  menu plus minus list kill quit : Command

unfoldable pub command_of : ℕ → Option Command
command_of c =
    if c == b'+'
    then some plus
    else if c == b'-'
    then some minus
    else if c == b'l'
    then some list
    else if c == b'm'
    then some menu
    else if c == b'k'
    then some kill
    else if c == b'q'
    then some quit
    else none

-- `input_option`: the line that `fgets` gives, none at the end of the input; `none` is -1.
unfoldable pub input_option : Option (List ℕ) → Option Command
input_option none = some quit
input_option (some text) = elim (until_newline text) [
  | [] ↦ none
  | c ∷ rest ↦ elim rest [ [] ↦ command_of c | _ ∷ _ ↦ none ]
]

-- The pids of a table that a signal is sent to, as `kill` finds them alive.
unfoldable pub kill_alive : (ℕ → Bool) → List ProcessInfo → List (ℕ × Signal)
kill_alive alive [] = []
kill_alive alive (p ∷ ps) =
    let rest = kill_alive alive ps in if alive p.pid then (p.pid, sigkill) ∷ rest else rest

-- How a run stands: it goes on, it has ended, or a loop has run out of the array
-- or its size has wrapped.
pub data Run : Type 0 where
  running exited : Parent → Run
  out_of_array : Run

-- `complete_the_program` behind `delete_all_children`: it asks which of the children left are alive.
unfoldable pub finish : (ℕ → Bool) → Option Parent → Run
finish alive none = out_of_array
finish alive (some s) =
    exited
      (record s { processes = []; capacity = 0; sent = s.sent ++ kill_alive alive s.processes })

unfoldable pub complete_the_program : (ℕ → Bool) → List Meanwhile → Parent → Run
complete_the_program alive reaped s = finish alive (delete_all_children reaped s)

-- What the world does in a round: the pids that SIGCHLD reaps before the line, whether `realloc` and
-- `fork` succeed, the pids reaped in each deletion and behind the command, and which children are alive
-- at the end.
pub record World : Type 0 where
  pub reaped_before : List ℕ
  pub allocated : Bool
  pub forked : Option ℕ
  pub reaped : List Meanwhile
  pub reaped_after : List ℕ
  pub alive : ℕ → Bool

abbrev pub run_of : Option Parent → Run
run_of none = out_of_array
run_of (some s) = running s

unfoldable pub run_command : World → Command → Parent → Run
run_command w menu s = running s
run_command w list s = running s
run_command w plus s = running (case_plus w.allocated w.forked s)
run_command w minus s = run_of (case_minus (next_reaped w.reaped) s)
run_command w kill s = run_of (delete_all_children w.reaped s)
run_command w quit s = complete_the_program w.alive w.reaped s

abbrev pub reaping : List ℕ → Parent → Parent
reaping pids s = record s { processes = reap_all pids s.processes }

unfoldable pub reap_behind : List ℕ → Run → Run
reap_behind pids (running s) = running (reaping pids s)
reap_behind pids (exited s) = exited s
reap_behind pids out_of_array = out_of_array

unfoldable pub obey : World → Option Command → Parent → Run
obey w none s = running s
obey w (some c) s = reap_behind w.reaped_after (run_command w c s)

-- A round of the loop in `main`.
unfoldable pub main_round : World → Option (List ℕ) → Parent → Run
main_round w typed s = obey w (input_option typed) (reaping w.reaped_before s)

unfoldable pub main_loop : List (World × Option (List ℕ)) → Run → Run
main_loop [] r = r
main_loop (round ∷ rounds) (running s) = main_loop rounds (main_round round.0 round.1 s)
main_loop (round ∷ rounds) (exited s) = exited s
main_loop (round ∷ rounds) out_of_array = out_of_array

-- When no child ends meanwhile, `q` sends SIGTERM to every child, and then SIGKILL to none, whichever
-- are still alive: the table that the second loop walks over is empty.
pub complete_the_program-terms :
    (alive : ℕ → Bool) (s : Parent)
    → complete_the_program alive [] s
      ≡ exited
          (record { processes = []; capacity = 0; sent = s.sent ++ terms_from_last s.processes })
unfolding complete_the_program finish kill_alive
complete_the_program-terms alive s =
    ap (finish alive) (delete_all_children-all_ended s)
    ∙ ap (λ sent. exited (record s { processes = []; capacity = 0; sent = sent }))
        (append-nil (s.sent ++ terms_from_last s.processes))
