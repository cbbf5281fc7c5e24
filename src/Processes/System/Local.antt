-- ===== src/Processes/System/Local.antt =====
-- One step of one process, in the units of the invariant of `Safety`.
use osa_sp.Base.{ℕ, ◌+◌, ◌≤◌, inl, inr, Option-cases, arith}
use osa_sp.Processes.Buffer.{add_message_to_queue, get_message_from_queue}
use osa_sp.Processes.Buffer.Fifo.{add_message-count, get_message-count}
use osa_sp.Processes.Buffer.Stores.{get_message-empty}
use osa_sp.Processes.System.{
  Shared, Producer, Consumer, producer_step, consumer_step, try_lower-cases,
}

-- 1 for a process inside the mutex
abbrev pub producer_inside : Producer → ℕ
producer_inside (Producer.adding r m) = 1
producer_inside (Producer.unlocking r) = 1
producer_inside _ = 0

abbrev pub consumer_inside : Consumer → ℕ
consumer_inside Consumer.getting = 1
consumer_inside (Consumer.unlocking m) = 1
consumer_inside _ = 0

-- 1 for a producer whose message is in the queue and not yet announced
abbrev pub unannounced : Producer → ℕ
unannounced (Producer.unlocking r) = 1
unannounced (Producer.posting r) = 1
unannounced _ = 0

-- 1 for a consumer that has a message coming to it
abbrev pub claiming : Consumer → ℕ
claiming Consumer.wait_mutex = 1
claiming Consumer.getting = 1
claiming _ = 0

-- No consumer has found the queue empty.
abbrev pub IsServed : Consumer → Type 0
IsServed Consumer.found_empty = ⊥
IsServed _ = Unit

-- What a producer's step does, in the units of the invariant.
pub record ProducerLocal (p : Producer) (s : Shared) (out : Producer × Shared) : Type 0 where
  pub inside : out.1.mutex + producer_inside out.0 ≤ s.mutex + producer_inside p
  pub tokens :
      out.1.filled_slots + unannounced out.0 + s.queue.current_msg_count
      ≤ s.filled_slots + unannounced p + out.1.queue.current_msg_count

pub record ConsumerLocal (c : Consumer) (s : Shared) (out : Consumer × Shared) : Type 0 where
  pub inside : out.1.mutex + consumer_inside out.0 ≤ s.mutex + consumer_inside c
  pub tokens :
      out.1.filled_slots + claiming out.0 + s.queue.current_msg_count
      ≤ s.filled_slots + claiming c + out.1.queue.current_msg_count
  pub served : IsServed out.0

module _ (rand : ℕ → ℕ × ℕ) where
  pub producer_step-local : (p : Producer) (s : Shared) → ProducerLocal p s (producer_step rand p s)
  unfolding producer_step
  producer_step-local Producer.absent s = record { inside = omega arith; tokens = omega arith }
  producer_step-local (Producer.generating r) s = record {
    inside = omega arith;
    tokens = omega arith;
  }
  producer_step-local (Producer.wait_empty r m) s = elim (try_lower-cases s.empty_slots) [
    | inl (e, t) ↦ rw (t, producer_step) (record { inside = omega arith; tokens = omega arith })
    | inr (k, e, t) ↦ rw (t, producer_step) (record { inside = omega arith; tokens = omega arith })
  ]
  producer_step-local (Producer.wait_mutex r m) s = elim (try_lower-cases s.mutex) [
    | inl (e, t) ↦ rw (t, producer_step) (record { inside = omega arith; tokens = omega arith })
    | inr (k, e, t) ↦ rw (t, producer_step) (record { inside = omega arith; tokens = omega arith })
  ]
  producer_step-local (Producer.adding r m) s =
      elim (Option-cases (add_message_to_queue m s.queue)) [
        | inl left ↦
            rw (left, producer_step) (record { inside = omega arith; tokens = omega arith })
        | inr ((n, q), done) ↦
            rw (done, producer_step)
              (record {
                inside = omega arith;
                tokens = omega (arith, add_message-count m s.queue n q done);
              })
      ]
  producer_step-local (Producer.unlocking r) s = record {
    inside = omega arith;
    tokens = omega arith;
  }
  producer_step-local (Producer.posting r) s = record { inside = omega arith; tokens = omega arith }

-- A consumer whose claim the count covers is served.
pub consumer_step-local :
    (c : Consumer) (s : Shared)
    → claiming c ≤ s.queue.current_msg_count
    → IsServed c
    → ConsumerLocal c s (consumer_step c s)
unfolding consumer_step
consumer_step-local Consumer.absent s h i = record {
  inside = omega arith;
  tokens = omega arith;
  served = tt;
}
consumer_step-local Consumer.found_empty s h i = absurd i
consumer_step-local Consumer.wait_filled s h i = elim (try_lower-cases s.filled_slots) [
  | inl (e, t) ↦
      rw (t, consumer_step) (record { inside = omega arith; tokens = omega arith; served = tt })
  | inr (k, e, t) ↦
      rw (t, consumer_step) (record { inside = omega arith; tokens = omega arith; served = tt })
]
consumer_step-local Consumer.wait_mutex s h i = elim (try_lower-cases s.mutex) [
  | inl (e, t) ↦
      rw (t, consumer_step) (record { inside = omega arith; tokens = omega arith; served = tt })
  | inr (k, e, t) ↦
      rw (t, consumer_step) (record { inside = omega arith; tokens = omega arith; served = tt })
]
consumer_step-local Consumer.getting s h i = elim (Option-cases (get_message_from_queue s.queue)) [
  | inl left ↦ absurd (omega (arith, get_message-empty s.queue left))
  | inr ((n, m, q), done) ↦
      rw (done, consumer_step)
        (record {
          inside = omega arith;
          tokens = omega (arith, get_message-count s.queue n m q done);
          served = tt;
        })
]
consumer_step-local (Consumer.unlocking m) s h i = record {
  inside = omega arith;
  tokens = omega arith;
  served = tt;
}
consumer_step-local (Consumer.posting m) s h i = record {
  inside = omega arith;
  tokens = omega arith;
  served = tt;
}
consumer_step-local (Consumer.verifying m) s h i = record {
  inside = omega arith;
  tokens = omega arith;
  served = tt;
}
