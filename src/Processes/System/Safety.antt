-- ===== src/Processes/System/Safety.antt =====
-- What holds in every reachable state of the processes, killed ones included.
use osa_sp.Base.{
  ℕ, ◌+◌, ◌≤◌, ◌<◌, ◌≡◌, ◌⊎◌, inl, inr, sym, List, [], ◌∷◌, arith, length, update, sum_below,
  sum_below-update, update-IsLightAbove, no_weight,
}
use mathlib.Core.Path.{subst}
use osa_sp.Processes.Buffer.{QueueBuffer, buffer_capacity, AddPoint, GetPoint}
use osa_sp.Processes.Buffer.Fifo.{IsValid, initialize_queue-IsValid}
use osa_sp.Processes.System.{
  Shared, Producer, Consumer, System, Action, produce, consume, kill_producer, kill_consumer,
  spawn_producer, spawn_consumer, step, run, system_init, killed_producer, killed_consumer,
}
use osa_sp.Processes.System.Local.{producer_inside, consumer_inside, IsServed}
use osa_sp.Processes.System.Kills.{
  producer_step-IsValid, consumer_step-IsValid, killed_producer-cases, killed_consumer-cases,
}
use osa_sp.Processes.System.Frozen.{IsFrozen, step-IsFrozen, run-IsFrozen}
use osa_sp.Processes.System.Invariant.{ActsBelow, AllBelow, Inv, Inv-init, step-Inv}

module _ (n : ℕ) where
  -- A queue that is valid, or that no process gets to any more.
  abbrev pub IsSound : System → Type 0
  IsSound s = IsValid s.shared.queue ⊎ IsFrozen s

  -- The death of the producer that is inside the mutex.
  dead_producer-IsFrozen :
      (s : System) (i : ℕ) (left : Shared)
      → i < n
      → Inv n s
      → left.mutex ≡ s.shared.mutex
      → producer_inside (s.producers i) ≡ 1
      → IsFrozen (record s { shared = left; producers = update s.producers i Producer.absent })
  dead_producer-IsFrozen s i left lt v same inside =
      let new = update s.producers i Producer.absent in
      let weights = sum_below-update producer_inside n s.producers i Producer.absent lt in
      record {
        taken = omega (arith, weights, v.inside, same, inside);
        no_producer = no_weight producer_inside n new (omega (arith, weights, v.inside, inside)) (
            update-IsLightAbove producer_inside n s.producers i Producer.absent lt
              v.producers_below);
        no_consumer =
            no_weight consumer_inside n s.consumers (omega (arith, weights, v.inside, inside))
              v.consumers_below;
      }

  dead_consumer-IsFrozen :
      (s : System) (i : ℕ) (left : Shared)
      → i < n
      → Inv n s
      → left.mutex ≡ s.shared.mutex
      → consumer_inside (s.consumers i) ≡ 1
      → IsFrozen (record s { shared = left; consumers = update s.consumers i Consumer.absent })
  dead_consumer-IsFrozen s i left lt v same inside =
      let new = update s.consumers i Consumer.absent in
      let weights = sum_below-update consumer_inside n s.consumers i Consumer.absent lt in
      record {
        taken = omega (arith, weights, v.inside, same, inside);
        no_producer =
            no_weight producer_inside n s.producers (omega (arith, weights, v.inside, inside))
              v.producers_below;
        no_consumer = no_weight consumer_inside n new (omega (arith, weights, v.inside, inside)) (
            update-IsLightAbove consumer_inside n s.consumers i Consumer.absent lt
              v.consumers_below);
      }

  killed_producer-IsSound :
      (s : System) (i : ℕ) (point : AddPoint)
      → i < n
      → Inv n s
      → IsValid s.shared.queue
      → let left = killed_producer point (s.producers i) s.shared in
        IsSound (record s { shared = left; producers = update s.producers i Producer.absent })
  killed_producer-IsSound s i point lt v ok =
      let (_, mutex_same, found) = killed_producer-cases point (s.producers i) s.shared in
      elim found [
        | inl same ↦ inl (subst (λ (x : Shared). IsValid x.queue) (sym same) ok)
        | inr inside ↦ inr (dead_producer-IsFrozen s i _ lt v mutex_same inside)
      ]

  killed_consumer-IsSound :
      (s : System) (i : ℕ) (point : GetPoint)
      → i < n
      → Inv n s
      → IsValid s.shared.queue
      → let left = killed_consumer point (s.consumers i) s.shared in
        IsSound (record s { shared = left; consumers = update s.consumers i Consumer.absent })
  killed_consumer-IsSound s i point lt v ok =
      let (_, mutex_same, found) = killed_consumer-cases point (s.consumers i) s.shared in
      elim found [
        | inl same ↦ inl (subst (λ (x : Shared). IsValid x.queue) (sym same) ok)
        | inr inside ↦ inr (dead_consumer-IsFrozen s i _ lt v mutex_same inside)
      ]

  module _ (rand : ℕ → ℕ × ℕ) where
    step-IsSound :
        (a : Action) (s : System) → ActsBelow n a → Inv n s → IsSound s → IsSound (step rand a s)
    unfolding step
    step-IsSound a s lt v (inr f) = inr (step-IsFrozen rand a s f).0
    step-IsSound (produce i) s lt v (inl ok) =
        inl (producer_step-IsValid rand (s.producers i) s.shared ok)
    step-IsSound (consume i) s lt v (inl ok) =
        inl (consumer_step-IsValid (s.consumers i) s.shared ok)
    step-IsSound (kill_producer i point) s lt v (inl ok) = killed_producer-IsSound s i point lt v ok
    step-IsSound (kill_consumer i point) s lt v (inl ok) = killed_consumer-IsSound s i point lt v ok
    step-IsSound (spawn_producer i r) s lt v (inl ok) = inl ok
    step-IsSound (spawn_consumer i) s lt v (inl ok) = inl ok

    run-Inv :
        (actions : List Action) (s : System)
        → AllBelow n actions
        → Inv n s
        → IsSound s
        → Inv n (run rand actions s) × IsSound (run rand actions s)
    unfolding run
    run-Inv [] s b v ok = (v, ok)
    run-Inv (a ∷ rest) s b v ok =
        run-Inv rest (step rand a s) b.1 (step-Inv n rand a s b.0 v) (step-IsSound a s b.0 v ok)

    -- However the processes are created, scheduled and killed, from `system_init` on, and however far a
    -- process that is killed has come with its stores: the queue is valid, or a process has died inside
    -- the mutex and no later action changes the queue; at most one process is between taking and
    -- releasing the mutex; no consumer ever finds the queue empty; and the announced messages are in the
    -- queue.
    pub processes_safe :
        (actions : List Action) (q : QueueBuffer)
        → length q.message_buffer ≡ buffer_capacity
        → AllBelow n actions
        → let s = run rand actions (system_init q) in
          (IsValid s.shared.queue
            ⊎ (IsFrozen s
                × ((later : List Action) → (run rand later s).shared.queue ≡ s.shared.queue)))
          × (s.shared.mutex
                + sum_below producer_inside n s.producers
                + sum_below consumer_inside n s.consumers
              ≤ 1)
          × ((i : ℕ) → IsServed (s.consumers i))
          × (s.shared.filled_slots ≤ s.shared.queue.current_msg_count)
    processes_safe actions q h b =
        let (v, ok) =
          run-Inv actions (system_init q) b (Inv-init n q) (inl (initialize_queue-IsValid q h).0) in
        (stands ok, v.inside, v.served, omega (arith, v.tokens))
      where
        stands :
            {s : System}
            → IsSound s
            → IsValid s.shared.queue
              ⊎ (IsFrozen s
                  × ((later : List Action) → (run rand later s).shared.queue ≡ s.shared.queue))
        stands (inl ok) = inl ok
        stands {s} (inr f) = inr (f, λ later. (run-IsFrozen rand later s f).1)
