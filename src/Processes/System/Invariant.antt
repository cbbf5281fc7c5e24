-- ===== src/Processes/System/Invariant.antt =====
-- What every process keeps, and the tables of processes with it: the mutex is held by one at most, and
-- the semaphores count no more messages than there are.
use osa_sp.Base.{
  ℕ, ◌+◌, ◌≤◌, ◌<◌, refl, List, [], ◌∷◌, arith, update, update_keeps, sum_below, sum_below-update,
  weight-le-sum_below, sum_below-const, IsLightAbove, update-IsLightAbove,
}
use osa_sp.Processes.Buffer.{QueueBuffer}
use osa_sp.Processes.System.{
  Shared, Producer, Consumer, System, Action, produce, consume, kill_producer, kill_consumer,
  spawn_producer, spawn_consumer, step, system_init, spawned_producer, spawned_consumer,
}
use osa_sp.Processes.System.Local.{
  producer_inside, consumer_inside, unannounced, claiming, IsServed, ProducerLocal, ConsumerLocal,
  producer_step-local, consumer_step-local,
}
use osa_sp.Processes.System.Kills.{killed_producer-cases, killed_consumer-cases}

-- The numbers of the processes that an action is about are below `n`.
abbrev pub ActsBelow : ℕ → Action → Type 0
ActsBelow n (produce i) = i < n
ActsBelow n (consume i) = i < n
ActsBelow n (kill_producer i point) = i < n
ActsBelow n (kill_consumer i point) = i < n
ActsBelow n (spawn_producer i state) = i < n
ActsBelow n (spawn_consumer i) = i < n

abbrev pub AllBelow : ℕ → List Action → Type 0
AllBelow n [] = Unit
AllBelow n (a ∷ rest) = ActsBelow n a × AllBelow n rest

module _ (n : ℕ) where
  -- The mutex and the processes inside it are one at most, and the messages in the queue cover the
  -- announced ones, those still to be announced and those that consumers claim.
  pub record Inv (s : System) : Type 0 where
    pub inside :
        s.shared.mutex
          + sum_below producer_inside n s.producers
          + sum_below consumer_inside n s.consumers
        ≤ 1
    pub tokens :
        s.shared.filled_slots
          + sum_below unannounced n s.producers
          + sum_below claiming n s.consumers
        ≤ s.shared.queue.current_msg_count
    pub served : (i : ℕ) → IsServed (s.consumers i)
    pub producers_below : IsLightAbove producer_inside n s.producers
    pub consumers_below : IsLightAbove consumer_inside n s.consumers

  pub Inv-init : (q : QueueBuffer) → Inv (system_init q)
  Inv-init q = record {
    inside = omega (
      arith,
      sum_below-const producer_inside n Producer.absent refl,
      sum_below-const consumer_inside n Consumer.absent refl,
    );
    tokens = omega (
      arith,
      sum_below-const unannounced n Producer.absent refl,
      sum_below-const claiming n Consumer.absent refl,
    );
    served = λ i. tt;
    producers_below = λ j h. refl;
    consumers_below = λ j h. refl;
  }

  -- Whatever a producer turns into, if its step is local, the system keeps the invariant.
  producer-Inv :
      (s : System) (i : ℕ) (out : Producer × Shared)
      → i < n
      → Inv s
      → ProducerLocal (s.producers i) s.shared out
      → Inv (record s { shared = out.1; producers = update s.producers i out.0 })
  producer-Inv s i out lt v l = record {
    inside =
        omega
          (arith, sum_below-update producer_inside n s.producers i out.0 lt, l.inside, v.inside);
    tokens =
        omega (arith, sum_below-update unannounced n s.producers i out.0 lt, l.tokens, v.tokens);
    served = v.served;
    producers_below =
        update-IsLightAbove producer_inside n s.producers i out.0 lt v.producers_below;
    consumers_below = v.consumers_below;
  }

  consumer-Inv :
      (s : System) (i : ℕ) (out : Consumer × Shared)
      → i < n
      → Inv s
      → ConsumerLocal (s.consumers i) s.shared out
      → Inv (record s { shared = out.1; consumers = update s.consumers i out.0 })
  consumer-Inv s i out lt v l = record {
    inside =
        omega
          (arith, sum_below-update consumer_inside n s.consumers i out.0 lt, l.inside, v.inside);
    tokens = omega (arith, sum_below-update claiming n s.consumers i out.0 lt, l.tokens, v.tokens);
    served = update_keeps IsServed s.consumers i out.0 v.served l.served;
    producers_below = v.producers_below;
    consumers_below =
        update-IsLightAbove consumer_inside n s.consumers i out.0 lt v.consumers_below;
  }

  spawned_producer-local :
      (p : Producer) (r : ℕ) (s : Shared) → ProducerLocal p s (spawned_producer p r, s)
  spawned_producer-local Producer.absent r s = record { inside = omega arith; tokens = omega arith }
  spawned_producer-local p r s = record { inside = omega arith; tokens = omega arith }

  spawned_consumer-local :
      (c : Consumer) (s : Shared) → IsServed c → ConsumerLocal c s (spawned_consumer c, s)
  spawned_consumer-local Consumer.absent s h = record {
    inside = omega arith;
    tokens = omega arith;
    served = tt;
  }
  spawned_consumer-local c s h = record { inside = omega arith; tokens = omega arith; served = h }

  module _ (rand : ℕ → ℕ × ℕ) where
    pub step-Inv : (a : Action) (s : System) → ActsBelow n a → Inv s → Inv (step rand a s)
    unfolding step
    step-Inv (produce i) s lt v =
        producer-Inv s i _ lt v (producer_step-local rand (s.producers i) s.shared)
    step-Inv (consume i) s lt v = consumer-Inv s i _ lt v (
        consumer_step-local (s.consumers i) s.shared
          (omega (arith, weight-le-sum_below claiming n s.consumers i lt, v.tokens)) (v.served i))
    step-Inv (kill_producer i point) s lt v =
        producer-Inv s i _ lt v (killed_producer-cases point (s.producers i) s.shared).0
    step-Inv (kill_consumer i point) s lt v =
        consumer-Inv s i _ lt v (killed_consumer-cases point (s.consumers i) s.shared).0
    step-Inv (spawn_producer i r) s lt v =
        producer-Inv s i (spawned_producer (s.producers i) r, s.shared) lt v
          (spawned_producer-local (s.producers i) r s.shared)
    step-Inv (spawn_consumer i) s lt v =
        consumer-Inv s i (spawned_consumer (s.consumers i), s.shared) lt v
          (spawned_consumer-local (s.consumers i) s.shared (v.served i))
