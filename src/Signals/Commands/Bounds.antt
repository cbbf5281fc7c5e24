-- ===== src/Signals/Commands/Bounds.antt =====
-- The array of the children in parent.c holds the table, when SIGCHLD comes only where `World` says.
use mathlib.Core.Path.{subst}
use osa_sp.Base.{
  ℕ, zero, suc, ◌-◌, ◌*◌, ◌≤◌, ◌<◌, inl, inr, sym, Bool, Bool-cases, Option, none, some, List, [],
  ◌∷◌, ◌++◌, leb, ◌==◌, length, length-append, arith,
}
use osa_sp.Signals.{
  process_info, sigterm, Parent, start, label, start_child, case_plus, case_minus,
  delete_all_children, delete_child_process_by_index, close_gap, delete_from_last, next_reaped,
  later_reaped, pid_at,
}
use osa_sp.Signals.{Meanwhile}
use osa_sp.Signals.Gap.{without_gap-cases, close_gap-none, close_gap-some}
use osa_sp.Signals.Reaping.{reap_all-length}
use osa_sp.Signals.Commands.{
  Command, menu, plus, minus, list, kill, quit, Run, running, exited, out_of_array, World, run_of,
  run_command, reaping, reap_behind, obey, main_round, main_loop, input_option,
  complete_the_program, finish,
}

abbrev pub Fits : Parent → Type 0
Fits s = (length s.processes ≤ s.capacity) × (0 < s.capacity)

-- A run that goes on keeps the table within the array.
unfoldable pub FitsRun : Run → Type 0
FitsRun (running s) = Fits s
FitsRun (exited s) = Unit
FitsRun out_of_array = Unit

start_child-Fits :
    (forked : Option ℕ) (s : Parent) → length s.processes < s.capacity → Fits (start_child forked s)
unfolding start_child
start_child-Fits none s h = (omega (arith, h), omega (arith, h))
start_child-Fits (some pid) s h = (
  omega (arith, h, length-append s.processes (process_info pid (label (length s.processes)) ∷ [])),
  omega (arith, h),
)

case_plus-Fits :
    (allocated : Bool) (forked : Option ℕ) (s : Parent)
    → Fits s
    → Fits (case_plus allocated forked s)
unfolding case_plus
case_plus-Fits allocated forked s h = elim (Bool-cases (leb s.capacity (length s.processes))) [
  | inl full ↦ elim (Bool-cases allocated) [
    | inl a ↦
        rw (full, a)
          (start_child-Fits forked (record s { capacity = s.capacity * 2 })
            (omega (arith, h.0, h.1)))
    | inr a ↦ rw (full, a) h
  ]
  | inr free ↦ rw free (start_child-Fits forked s (ground (arith, free)))
]

unfoldable FitsOption : Option Parent → Type 0
FitsOption none = Unit
FitsOption (some s) = Fits s

some-Fits : (s : Parent) → Fits s → FitsOption (some s)
unfolding FitsOption
some-Fits s h = h

reaping-Fits : (pids : List ℕ) (s : Parent) → Fits s → Fits (reaping pids s)
reaping-Fits pids s h = (omega (arith, h.0, reap_all-length pids s.processes), h.1)

close_gap-Fits :
    (m : Meanwhile) (index : ℕ) (s : Parent) → Fits s → FitsOption (close_gap m index s)
unfolding FitsOption
close_gap-Fits m index s h = elim (without_gap-cases m index s.processes) [
  | inl out ↦ subst FitsOption (sym (close_gap-none m index s out)) tt
  | inr (rest, down, shorter) ↦
      subst FitsOption (sym (close_gap-some m index s rest down)) (omega (arith, h.0, shorter), h.1)
]

then_Fits :
    (o : Option Parent) (f : Parent → Option Parent)
    → FitsOption o
    → ((s : Parent) → Fits s → FitsOption (f s))
    → FitsOption (elim o [ none ↦ none | some s ↦ f s ])
unfolding FitsOption
then_Fits none f h next = tt
then_Fits (some s) f h next = next s h

delete-Fits :
    (reaped : Meanwhile) (index : ℕ) (s : Parent)
    → Fits s
    → FitsOption (delete_child_process_by_index reaped index s)
unfolding delete_child_process_by_index FitsOption
delete-Fits reaped index s h = elim (Bool-cases (leb (length s.processes) index)) [
  | inl e ↦ rw e h
  | inr e ↦ rw e (
      close_gap-Fits reaped index
        (record s { sent = s.sent ++ ((pid_at s.processes index, sigterm) ∷ []) }) h)
]

case_minus-Fits : (reaped : Meanwhile) (s : Parent) → Fits s → FitsOption (case_minus reaped s)
unfolding case_minus FitsOption
case_minus-Fits reaped s h = elim (Bool-cases (length s.processes == 0)) [
  | inl e ↦ rw e h
  | inr e ↦ rw e (delete-Fits reaped (length s.processes - 1) s h)
]

delete_from_last-Fits :
    (fuel : ℕ) (reaped : List Meanwhile) (s : Parent)
    → Fits s
    → FitsOption (delete_from_last fuel reaped s)
unfolding delete_from_last
delete_from_last-Fits zero reaped s h = some-Fits s h
delete_from_last-Fits (suc fuel) reaped s h = elim (Bool-cases (length s.processes == 0)) [
  | inl e ↦ rw e (some-Fits s h)
  | inr e ↦ rw e (
      then_Fits (delete_child_process_by_index (next_reaped reaped) (length s.processes - 1) s)
        (λ s'. delete_from_last fuel (later_reaped reaped) s')
        (delete-Fits (next_reaped reaped) (length s.processes - 1) s h)
        (λ s' h'. delete_from_last-Fits fuel (later_reaped reaped) s' h'))
]

run_of-FitsRun : (o : Option Parent) → FitsOption o → FitsRun (run_of o)
unfolding FitsOption FitsRun
run_of-FitsRun none h = tt
run_of-FitsRun (some s) h = h

finish-FitsRun : (alive : ℕ → Bool) (o : Option Parent) → FitsRun (finish alive o)
unfolding finish FitsRun
finish-FitsRun alive none = tt
finish-FitsRun alive (some s) = tt

run_command-FitsRun : (w : World) (c : Command) (s : Parent) → Fits s → FitsRun (run_command w c s)
unfolding run_command FitsRun delete_all_children complete_the_program
run_command-FitsRun w menu s h = h
run_command-FitsRun w list s h = h
run_command-FitsRun w plus s h = case_plus-Fits w.allocated w.forked s h
run_command-FitsRun w minus s h =
    run_of-FitsRun (case_minus (next_reaped w.reaped) s)
      (case_minus-Fits (next_reaped w.reaped) s h)
run_command-FitsRun w kill s h =
    run_of-FitsRun (delete_all_children w.reaped s)
      (delete_from_last-Fits (length s.processes) w.reaped s h)
run_command-FitsRun w quit s h = finish-FitsRun w.alive (delete_all_children w.reaped s)

reap_behind-FitsRun : (pids : List ℕ) (r : Run) → FitsRun r → FitsRun (reap_behind pids r)
unfolding reap_behind FitsRun
reap_behind-FitsRun pids (running s) h = reaping-Fits pids s h
reap_behind-FitsRun pids (exited s) h = tt
reap_behind-FitsRun pids out_of_array h = tt

obey-FitsRun : (w : World) (c : Option Command) (s : Parent) → Fits s → FitsRun (obey w c s)
unfolding obey FitsRun
obey-FitsRun w none s h = h
obey-FitsRun w (some c) s h =
    reap_behind-FitsRun w.reaped_after (run_command w c s) (run_command-FitsRun w c s h)

main_loop-keeps :
    (rounds : List (World × Option (List ℕ))) (r : Run) → FitsRun r → FitsRun (main_loop rounds r)
unfolding main_loop main_round FitsRun
main_loop-keeps [] r h = h
main_loop-keeps (round ∷ rounds) (running s) h =
    main_loop-keeps rounds (main_round round.0 round.1 s) (
      obey-FitsRun round.0 (input_option round.1) (reaping round.0.reaped_before s)
        (reaping-Fits round.0.reaped_before s h))
main_loop-keeps (round ∷ rounds) (exited s) h = tt
main_loop-keeps (round ∷ rounds) out_of_array h = tt

-- Whatever is typed, whichever calls fail and whichever children end at the points of `World`, a parent
-- that goes on has its
-- children within the capacity of the array, and that capacity is not 0, so that doubling it makes
-- room.
pub main_loop-FitsRun :
    (rounds : List (World × Option (List ℕ))) → FitsRun (main_loop rounds (running start))
unfolding FitsRun
main_loop-FitsRun rounds = main_loop-keeps rounds (running start) (omega arith, omega arith)
