-- ===== src/Processes/Control.antt =====
-- The main process: the tables of child processes in producer_functions.c and consumer_functions.c,
-- `system_cleanup`, and the commands of app.c.
pub mod Children
use osa_sp.Base.{
  ℕ, zero, suc, ◌+◌, ◌-◌, Bool, true, false, Option, none, some, List, [], ◌∷◌, ◌++◌, ltb, leb,
  ◌==◌, if◌then◌else◌, get_or, set,
}

abbrev pub max_child_processes : ℕ
max_child_processes = 1024

-- `producer_pids` with `active_producers_count`, or the two of the consumers
pub record Table : Type 0 where
  pub pids : List ℕ
  pub active_count : ℕ

-- `spawn_*_process` in the parent; `fork` returns a pid, or `none` for -1, at which the program exits.
pub spawn : Option ℕ → Table → Option Table
spawn fork t = if leb (max_child_processes - 1) t.active_count then some t else (elim fork [
  | none ↦ none
  | some pid ↦
      some (record t { pids = set t.pids t.active_count pid; active_count = t.active_count + 1 })
])

-- `terminate_last_*`, with the pid that it kills
pub terminate_last : Table → Option ℕ × Table
terminate_last t = if t.active_count == 0 then (none, t) else (
  some (get_or t.pids (t.active_count - 1) 0),
  record t { active_count = t.active_count - 1 },
)

-- A loop of `system_cleanup` from index `i` on, with `n` rounds left: the pids that it kills.
pub kill_loop : ℕ → ℕ → List ℕ → List ℕ
kill_loop zero i pids = []
kill_loop (suc n) i pids = get_or pids i 0 ∷ kill_loop n (i + 1) pids

pub record Control : Type 0 where
  pub producers : Table
  pub consumers : Table

-- `system_cleanup` in the main process: the producers are killed first.
pub system_cleanup : Control → List ℕ
system_cleanup c =
    kill_loop c.producers.active_count 0 c.producers.pids
    ++ kill_loop c.consumers.active_count 0 c.consumers.pids

-- What one command of `main` leads to.
pub data Outcome : Type 0 where
  goes_on : Control → List ℕ → Outcome  -- with the pids that were killed
  fork_failed : Outcome
  quits : List ℕ → Outcome

spawned : Control → (Table → Control) → Option Table → Outcome
spawned c put none = fork_failed
spawned c put (some t) = goes_on (put t) []

killed : (Table → Control) → Option ℕ × Table → Outcome
killed put (none, t) = goes_on (put t) []
killed put (some pid, t) = goes_on (put t) (pid ∷ [])

-- The `switch` of `main`; `fork` is what a `fork` would return.
pub command : ℕ → Option ℕ → Control → Outcome
unfolding spawned killed
command char fork c =
    if char == b'P'
    then (if ltb c.producers.active_count (max_child_processes - 1)
        then spawned c (λ t. record c { producers = t }) (spawn fork c.producers)
        else goes_on c [])
    else if char == b'p'
    then (if ltb 0 c.producers.active_count
        then killed (λ t. record c { producers = t }) (terminate_last c.producers)
        else goes_on c [])
    else if char == b'C'
    then (if ltb c.consumers.active_count (max_child_processes - 1)
        then spawned c (λ t. record c { consumers = t }) (spawn fork c.consumers)
        else goes_on c [])
    else if char == b'c'
    then (if ltb 0 c.consumers.active_count
        then killed (λ t. record c { consumers = t }) (terminate_last c.consumers)
        else goes_on c [])
    else if char == b'q'
    then quits (system_cleanup c)
    else goes_on c []
