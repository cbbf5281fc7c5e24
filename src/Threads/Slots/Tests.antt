-- ===== src/Threads/Slots/Tests.antt =====
-- The slots of the threads at a concrete input.
use osa_sp.Base.{◌≡◌, none}
use osa_sp.Threads.Slots.{start, run_slots, added_and_removed, run_slots-added_and_removed}

run_slots-added_and_removed_example : run_slots (added_and_removed 101) start ≡ none
run_slots-added_and_removed_example = run_slots-added_and_removed 101
