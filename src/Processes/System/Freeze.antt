-- ===== src/Processes/System/Freeze.antt =====
-- What becomes of the system when a process dies inside the mutex: System V semaphores that are used
-- without `SEM_UNDO` stay where they are.
use osa_sp.Base.{
  ℕ, ◌≡◌, ◌≢◌, inl, inr, refl, sym, ap, ◌∙◌, List, ◌∷◌, arith, ite, ℕ_discrete, update,
}
use mathlib.Core.Path.{subst}
use osa_sp.Processes.Checksum.{MsgPayload}
use osa_sp.Processes.Buffer.Fifo.{IsValid, add_message_cases}
use osa_sp.Processes.System.{
  Shared, Producer, producer_step, System, Action, produce, kill_producer, killed_producer, step,
  run,
}
use osa_sp.Processes.System.Local.{producer_inside, consumer_inside}
use osa_sp.Processes.System.Kills.{killed_producer-cases}
use osa_sp.Processes.Buffer.{AddPoint}
use osa_sp.Processes.System.Frozen.{IsFrozen, run-IsFrozen}

-- Producer `i` alone is inside the mutex.
pub record IsHeldBy (i : ℕ) (s : System) : Type 0 where
  pub taken : s.shared.mutex ≡ 0
  pub others : (j : ℕ) → i ≢ j → producer_inside (s.producers j) ≡ 0
  pub no_consumer : (j : ℕ) → consumer_inside (s.consumers j) ≡ 0

-- Where the holder vanishes, the system is frozen.
holder_gone :
    (i : ℕ) (s : System) (left : Shared)
    → IsHeldBy i s
    → left.mutex ≡ s.shared.mutex
    → IsFrozen (record s { shared = left; producers = update s.producers i Producer.absent })
holder_gone i s left h same = record {
  taken = same ∙ h.taken;
  no_producer = λ j. gone j (ℕ_discrete i j);
  no_consumer = h.no_consumer;
}
  where
    gone : (j : ℕ) (d : Dec (i ≡ j)) → producer_inside (ite d Producer.absent (s.producers j)) ≡ 0
    gone j (yes e) = refl
    gone j (no n) = h.others j n

module _ (rand : ℕ → ℕ × ℕ) where
  -- `terminate_last_producer` (SIGKILL) on a producer that is inside the mutex, however far it has come
  -- with its stores, stops the queue for good: it stays as the producer left it, whatever old or new
  -- processes do later.
  pub kill_inside_freezes :
      (actions : List Action) (s : System) (i : ℕ) (point : AddPoint)
      → IsHeldBy i s
      → let t = run rand (kill_producer i point ∷ actions) s in
        (t.shared.queue ≡ (killed_producer point (s.producers i) s.shared).queue) × IsFrozen t
  unfolding run step
  kill_inside_freezes actions s i point h =
      let left = killed_producer point (s.producers i) s.shared in
      let (frozen, same) =
        run-IsFrozen rand actions _
          (holder_gone i s left h (killed_producer-cases point (s.producers i) s.shared).1) in
      (same, frozen)

  -- With 4095 messages in the queue a producer that gets to add one exits inside the mutex (the
  -- semaphore of free slots starts at 4096 and lets it in), and the queue is stopped for good.
  pub full_queue_freezes :
      (actions : List Action) (s : System) (i r : ℕ) (m : MsgPayload)
      → IsHeldBy i s
      → s.producers i ≡ Producer.adding r m
      → IsValid s.shared.queue
      → s.shared.queue.current_msg_count ≡ 4095
      → let t = run rand (produce i ∷ actions) s in (t.shared.queue ≡ s.shared.queue) × IsFrozen t
  unfolding run step producer_step
  full_queue_freezes actions s i r m h at v full =
      let (frozen, same) = run-IsFrozen rand actions _ (holder_gone i s s.shared h refl) in
      subst
        (λ (out : Producer × Shared).
          let t =
            run rand actions
              (record s { shared = out.1; producers = update s.producers i out.0 }) in
          (t.shared.queue ≡ s.shared.queue) × IsFrozen t)
        (sym (ap (λ p. producer_step rand p s.shared) at ∙ exits)) (same, frozen)
    where
      exits : producer_step rand (Producer.adding r m) s.shared ≡ (Producer.absent, s.shared)
      exits = elim (add_message_cases m s.shared.queue v) [
        | inl (_, left) ↦ rw (left, producer_step) refl
        | inr (room, _) ↦ absurd (omega arith)
      ]
