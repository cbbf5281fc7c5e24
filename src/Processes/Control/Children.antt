-- ===== src/Processes/Control/Children.antt =====
-- A table of child processes is a stack of pids.
use osa_sp.Base.{
  ℕ, zero, suc, ◌+◌, ◌-◌, ◌≤◌, ◌<◌, ◌≡◌, ◌⊎◌, inl, inr, refl, ap, ap₂, ◌∙◌, Option, none, some,
  List, [], ◌∷◌, ◌++◌, arith, length, length-set, get_or, set, get_or-set_self, get_or-set_ne,
  ℕ_discrete,
}
use osa_sp.Processes.Control.{
  max_child_processes, Table, spawn, terminate_last, kill_loop, Control, system_cleanup,
}

-- The pids of the running children, in the order of their creation.
abbrev pub running : List ℕ → ℕ → List ℕ
running pids zero = []
running pids (suc n) = running pids n ++ (get_or pids n 0 ∷ [])

abbrev pub children : Table → List ℕ
children t = running t.pids t.active_count

pub record IsValid (t : Table) : Type 0 where
  pub allocated : length t.pids ≡ max_child_processes
  pub below : t.active_count < max_child_processes

running-set : (pids : List ℕ) (i pid n : ℕ) → n ≤ i → running (set pids i pid) n ≡ running pids n
running-set pids i pid zero h = refl
running-set pids i pid (suc n) h =
    ap₂ (λ l x. l ++ (x ∷ [])) (running-set pids i pid n (omega arith))
      (get_or-set_ne pids i n pid 0 (omega arith))

-- Spawning below the limit of 1023 adds the new pid behind the others, inside the table, and a failing
-- `fork` ends the program; at the limit nothing happens, whatever `fork` would return.
pub spawn_cases :
    (fork : Option ℕ) (t : Table)
    → IsValid t
    → ((t.active_count ≡ 1023) × (spawn fork t ≡ some t))
      ⊎ ((fork ≡ none) × (t.active_count < 1023) × (spawn fork t ≡ none))
      ⊎ ((pid : ℕ) × (t' : Table) × (fork ≡ some pid)
          × (spawn fork t ≡ some t')
          × IsValid t'
          × (children t' ≡ children t ++ (pid ∷ [])))
unfolding spawn
spawn_cases none t v = elim (ℕ_discrete t.active_count 1023) [
  | yes full ↦ inl (full, ground arith)
  | no room ↦ inr (inl (refl, omega (arith, v.below), ground (arith, v.below)))
]
spawn_cases (some pid) t v = elim (ℕ_discrete t.active_count 1023) [
  | yes full ↦ inl (full, ground arith)
  | no room ↦ inr (
      inr (
        pid,
        record t { pids = set t.pids t.active_count pid; active_count = t.active_count + 1 },
        refl,
        ground (arith, v.below),
        record {
          allocated = length-set t.pids t.active_count pid ∙ v.allocated;
          below = omega (arith, v.below);
        },
        ap (running (set t.pids t.active_count pid))
              (let e : t.active_count + 1 ≡ suc t.active_count = omega arith in e)
            ∙ ap₂ (λ l x. l ++ (x ∷ []))
                (running-set t.pids t.active_count pid t.active_count (omega arith))
                (get_or-set_self t.pids t.active_count pid 0 (omega (arith, v.below, v.allocated))),
      ))
]

-- Terminating kills the child that was created last and leaves the others; without children it does
-- nothing.
pub terminate_last_cases :
    (t : Table)
    → IsValid t
    → ((t.active_count ≡ 0) × (terminate_last t ≡ (none, t)))
      ⊎ ((pid : ℕ) × (t' : Table) × (terminate_last t ≡ (some pid, t'))
          × IsValid t'
          × (children t ≡ children t' ++ (pid ∷ [])))
unfolding terminate_last
terminate_last_cases t v = elim (ℕ_discrete t.active_count 0) [
  | yes none_left ↦ inl (none_left, ground arith)
  | no some_left ↦ inr (
    get_or t.pids (t.active_count - 1) 0,
    record t { active_count = t.active_count - 1 },
    ground arith,
    record { allocated = v.allocated; below = omega (arith, v.below) },
    ap (running t.pids) (let e : t.active_count ≡ suc (t.active_count - 1) = omega arith in e),
  )
]

kill_loop-snoc :
    (n i : ℕ) (pids : List ℕ)
    → kill_loop (suc n) i pids ≡ kill_loop n i pids ++ (get_or pids (i + n) 0 ∷ [])
unfolding kill_loop
kill_loop-snoc zero i pids = ap (λ (k : ℕ). get_or pids k 0 ∷ []) (omega arith)
kill_loop-snoc (suc n) i pids =
    ap (λ l. get_or pids i 0 ∷ l)
      (kill_loop-snoc n (i + 1) pids
        ∙ ap (λ (k : ℕ). kill_loop n (i + 1) pids ++ (get_or pids k 0 ∷ [])) (omega arith))

kill_loop_lem : (n : ℕ) (pids : List ℕ) → kill_loop n 0 pids ≡ running pids n
unfolding kill_loop
kill_loop_lem zero pids = refl
kill_loop_lem (suc n) pids =
    kill_loop-snoc n 0 pids
    ∙ ap₂ (λ l (k : ℕ). l ++ (get_or pids k 0 ∷ [])) (kill_loop_lem n pids) (omega arith)

-- `system_cleanup` kills every running child once: the producers, then the consumers.
pub system_cleanup_kills_all :
    (c : Control) → system_cleanup c ≡ children c.producers ++ children c.consumers
unfolding system_cleanup
system_cleanup_kills_all c =
    ap₂ ◌++◌ (kill_loop_lem c.producers.active_count c.producers.pids)
      (kill_loop_lem c.consumers.active_count c.consumers.pids)
