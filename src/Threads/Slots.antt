-- ===== src/Threads/Slots.antt =====
-- main.c of the thread labs: the slots in which `run_lab_logic` keeps the producers, and in the same way
-- the consumers. A thread that ends of itself lowers its own flag and nothing else.
mod Tests
use osa_sp.Base.{
  ℕ, zero, suc, ◌+◌, ◌-◌, ◌≤◌, ◌<◌, ◌≡◌, ◌≢◌, inl, inr, refl, sym, ap, ◌∙◌, Bool, true, false, ◌||◌,
  Bool-cases, Option, none, some, List, [], ◌∷◌, ◌++◌, leb, ltb, ltb→lt, ◌==◌, if◌then◌else◌,
  length, get_or, set, replicate, length-replicate, arith,
}

abbrev pub max_threads : ℕ
max_threads = 100

-- producer_active, producer_count and next_producer_id
pub record Slots : Type 0 where
  pub active : List Bool
  pub count : ℕ
  pub next_id : ℕ

abbrev pub slots : List Bool → ℕ → ℕ → Slots
slots active count next_id = record { active = active; count = count; next_id = next_id }

abbrev pub start : Slots
start = slots (replicate max_threads false) 0 0

-- What becomes of the flag at `id`, by whether `malloc` and `pthread_create` succeed.
unfoldable pub create_thread : Bool → Bool → ℕ → Slots → Slots
create_thread false created id s = record s { active = set s.active id true }
create_thread true false id s = record s { active = set (set s.active id true) id false }
create_thread true true id s = slots (set s.active id true) (suc s.count) (suc id)

-- `p`; `none` is a write outside of the arrays.
unfoldable pub add_thread : Bool → Bool → Slots → Option Slots
add_thread allocated created s =
    if ltb s.count max_threads
    then (if ltb s.next_id max_threads
        then some (create_thread allocated created s.next_id s)
        else none)
    else some s

-- The loop from `next_id - 1` down that looks for a flag.
unfoldable pub last_active : List Bool → ℕ → Option ℕ
last_active active zero = none
last_active active (suc i) =
    let lower = last_active active i in if get_or active i false then some i else lower

-- `P`. The count is an int in the source, and above 0 where a flag is up: each thread was counted.
unfoldable pub remove_thread : Slots → Slots
remove_thread s = elim (last_active s.active s.next_id) [
  | none ↦ s
  | some i ↦ record s { active = set s.active i false; count = s.count - 1 }
]

-- The end of the thread `i`, as a failing semaphore or a failing `malloc` brings it.
abbrev pub thread_ends : ℕ → Slots → Slots
thread_ends i s = record s { active = set s.active i false }

pub data Step : Type 0 where
  add : Bool → Bool → Step
  remove : Step
  ends : ℕ → Step

unfoldable pub run_slots : List Step → Slots → Option Slots
run_slots [] s = some s
run_slots (add allocated created ∷ steps) s = elim (add_thread allocated created s) [
  | none ↦ none
  | some s' ↦ run_slots steps s'
]
run_slots (remove ∷ steps) s = run_slots steps (remove_thread s)
run_slots (ends i ∷ steps) s = run_slots steps (thread_ends i s)

-- `p` and `P`, `n` times
unfoldable pub added_and_removed : ℕ → List Step
added_and_removed zero = []
added_and_removed (suc n) = add true true ∷ remove ∷ added_and_removed n

set-replicate : (n i : ℕ) → set (set (replicate n false) i true) i false ≡ replicate n false
set-replicate zero i = refl
set-replicate (suc n) zero = refl
set-replicate (suc n) (suc i) = ap (λ t. false ∷ t) (set-replicate n i)

get_or-set-true : (n i : ℕ) → i < n → get_or (set (replicate n false) i true) i false ≡ true
get_or-set-true zero i h = absurd (omega (arith, h))
get_or-set-true (suc n) zero h = refl
get_or-set-true (suc n) (suc i) h = get_or-set-true n i (omega (arith, h))

abbrev after : ℕ → Slots
after id = slots (replicate max_threads false) 0 id

added :
    (id : ℕ)
    → id < max_threads
    → add_thread true true (after id)
      ≡ some (slots (set (replicate max_threads false) id true) 1 (suc id))
unfolding add_thread create_thread
added id h = inside (ground (arith, h))
  where
    inside :
        ltb id max_threads ≡ true
        → add_thread true true (after id)
          ≡ some (slots (set (replicate max_threads false) id true) 1 (suc id))
    inside e = rw e refl

removed :
    (id : ℕ)
    → id < max_threads
    → remove_thread (slots (set (replicate max_threads false) id true) 1 (suc id)) ≡ after (suc id)
unfolding remove_thread last_active
removed id h =
    rw (get_or-set-true max_threads id h)
      (ap (λ active. slots active 0 (suc id)) (set-replicate max_threads id))

overrun : (id : ℕ) → max_threads ≤ id → add_thread true true (after id) ≡ none
unfolding add_thread
overrun id h = outside (ground (arith, h))
  where
    outside : ltb id max_threads ≡ false → add_thread true true (after id) ≡ none
    outside e = rw e refl

run_slots-added :
    (steps : List Step) (s s' : Slots)
    → add_thread true true s ≡ some s'
    → run_slots (add true true ∷ remove ∷ steps) s ≡ run_slots steps (remove_thread s')
unfolding run_slots
run_slots-added steps s s' e = grind (arith, e)

run_slots-overrun :
    (steps : List Step) (s : Slots)
    → add_thread true true s ≡ none
    → run_slots (add true true ∷ steps) s ≡ none
unfolding run_slots
run_slots-overrun steps s e = grind (arith, e)

abbrev up_to : ℕ → Option Slots
up_to id = if leb id max_threads then some (after id) else none

up_to-within : (id : ℕ) → id ≤ max_threads → up_to id ≡ some (after id)
up_to-within id h = ground (arith, h)

up_to-beyond : (id : ℕ) → max_threads < id → up_to id ≡ none
up_to-beyond id h = ground (arith, h)

run_slots-pairs :
    (n id : ℕ) → id ≤ max_threads → run_slots (added_and_removed n) (after id) ≡ up_to (id + n)
unfolding run_slots added_and_removed
run_slots-pairs zero id h = sym (up_to-within id h) ∙ ap up_to (omega arith)
run_slots-pairs (suc n) id h = elim (Bool-cases (ltb id max_threads)) [
  | inl e ↦
      run_slots-added (added_and_removed n) (after id)
        (slots (set (replicate max_threads false) id true) 1 (suc id))
        (added id (ltb→lt id max_threads e))
      ∙ (ap (run_slots (added_and_removed n)) (removed id (ltb→lt id max_threads e))
          ∙ (run_slots-pairs n (suc id) (ltb→lt id max_threads e) ∙ ap up_to (omega arith)))
  | inr e ↦
      run_slots-overrun (remove ∷ added_and_removed n) (after id) (overrun id (ground (arith, e)))
      ∙ sym (up_to-beyond (id + suc n) (ground (arith, e)))
]

-- `p` and `P`, one after the other `n` times, with all calls succeeding: the flags are down again and no
-- thread is counted, but each round took a slot for good. Up to 100 rounds find one; the next writes
-- outside of the arrays.
pub run_slots-added_and_removed :
    (n : ℕ)
    → run_slots (added_and_removed n) start
      ≡ (if leb n max_threads then some (slots (replicate max_threads false) 0 n) else none)
run_slots-added_and_removed n = run_slots-pairs n 0 (omega arith) ∙ ap up_to (omega arith)
