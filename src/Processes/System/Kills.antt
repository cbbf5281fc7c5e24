-- ===== src/Processes/System/Kills.antt =====
-- What a step does to a valid queue, and what a process that is killed leaves.
use osa_sp.Base.{ℕ, ◌≡◌, ◌⊎◌, inl, inr, refl, arith}
use osa_sp.Processes.Buffer.{AddPoint, GetPoint}
use osa_sp.Processes.Buffer.Fifo.{IsValid, add_message_cases, get_message_cases}
use osa_sp.Processes.Buffer.Stores.{interrupted_add-count, interrupted_get-count}
use osa_sp.Processes.System.{
  Shared, Producer, Consumer, producer_step, consumer_step, killed_producer, killed_consumer,
  try_lower-cases,
}
use osa_sp.Processes.System.Local.{producer_inside, consumer_inside, ProducerLocal, ConsumerLocal}

module _ (rand : ℕ → ℕ × ℕ) where
  pub producer_step-IsValid :
      (p : Producer) (s : Shared) → IsValid s.queue → IsValid (producer_step rand p s).1.queue
  unfolding producer_step
  producer_step-IsValid Producer.absent s v = v
  producer_step-IsValid (Producer.generating r) s v = v
  producer_step-IsValid (Producer.wait_empty r m) s v = elim (try_lower-cases s.empty_slots) [
    | inl (e, t) ↦ rw (t, producer_step) v
    | inr (k, e, t) ↦ rw (t, producer_step) v
  ]
  producer_step-IsValid (Producer.wait_mutex r m) s v = elim (try_lower-cases s.mutex) [
    | inl (e, t) ↦ rw (t, producer_step) v
    | inr (k, e, t) ↦ rw (t, producer_step) v
  ]
  producer_step-IsValid (Producer.adding r m) s v = elim (add_message_cases m s.queue v) [
    | inl (full, left) ↦ rw (left, producer_step) v
    | inr (room, (q, done, valid, _, _)) ↦ rw (done, producer_step) valid
  ]
  producer_step-IsValid (Producer.unlocking r) s v = v
  producer_step-IsValid (Producer.posting r) s v = v

pub consumer_step-IsValid :
    (c : Consumer) (s : Shared) → IsValid s.queue → IsValid (consumer_step c s).1.queue
unfolding consumer_step
consumer_step-IsValid Consumer.absent s v = v
consumer_step-IsValid Consumer.found_empty s v = v
consumer_step-IsValid Consumer.wait_filled s v = elim (try_lower-cases s.filled_slots) [
  | inl (e, t) ↦ rw (t, consumer_step) v
  | inr (k, e, t) ↦ rw (t, consumer_step) v
]
consumer_step-IsValid Consumer.wait_mutex s v = elim (try_lower-cases s.mutex) [
  | inl (e, t) ↦ rw (t, consumer_step) v
  | inr (k, e, t) ↦ rw (t, consumer_step) v
]
consumer_step-IsValid Consumer.getting s v = elim (get_message_cases s.queue v) [
  | inl (empty, left) ↦ rw (left, consumer_step) v
  | inr (m, q, done, valid, _, _) ↦ rw (done, consumer_step) valid
]
consumer_step-IsValid (Consumer.unlocking m) s v = v
consumer_step-IsValid (Consumer.posting m) s v = v
consumer_step-IsValid (Consumer.verifying m) s v = v

-- What a process that is killed leaves: the mutex, and outside of it all of the shared memory, as it was.
pub killed_producer-cases :
    (point : AddPoint) (p : Producer) (s : Shared)
    → ProducerLocal p s (Producer.absent, killed_producer point p s)
      × ((killed_producer point p s).mutex ≡ s.mutex)
      × ((killed_producer point p s ≡ s) ⊎ (producer_inside p ≡ 1))
unfolding killed_producer
killed_producer-cases point Producer.absent s =
    (record { inside = omega arith; tokens = omega arith }, refl, inl refl)
killed_producer-cases point (Producer.generating r) s =
    (record { inside = omega arith; tokens = omega arith }, refl, inl refl)
killed_producer-cases point (Producer.wait_empty r m) s =
    (record { inside = omega arith; tokens = omega arith }, refl, inl refl)
killed_producer-cases point (Producer.wait_mutex r m) s =
    (record { inside = omega arith; tokens = omega arith }, refl, inl refl)
killed_producer-cases point (Producer.adding r m) s = (
  record { inside = omega arith; tokens = omega (arith, interrupted_add-count point m s.queue) },
  refl,
  inr refl,
)
killed_producer-cases point (Producer.unlocking r) s =
    (record { inside = omega arith; tokens = omega arith }, refl, inl refl)
killed_producer-cases point (Producer.posting r) s =
    (record { inside = omega arith; tokens = omega arith }, refl, inl refl)

pub killed_consumer-cases :
    (point : GetPoint) (c : Consumer) (s : Shared)
    → ConsumerLocal c s (Consumer.absent, killed_consumer point c s)
      × ((killed_consumer point c s).mutex ≡ s.mutex)
      × ((killed_consumer point c s ≡ s) ⊎ (consumer_inside c ≡ 1))
unfolding killed_consumer
killed_consumer-cases point Consumer.absent s =
    (record { inside = omega arith; tokens = omega arith; served = tt }, refl, inl refl)
killed_consumer-cases point Consumer.found_empty s =
    (record { inside = omega arith; tokens = omega arith; served = tt }, refl, inl refl)
killed_consumer-cases point Consumer.wait_filled s =
    (record { inside = omega arith; tokens = omega arith; served = tt }, refl, inl refl)
killed_consumer-cases point Consumer.wait_mutex s =
    (record { inside = omega arith; tokens = omega arith; served = tt }, refl, inl refl)
killed_consumer-cases point Consumer.getting s = (
  record {
    inside = omega arith;
    tokens = omega (arith, interrupted_get-count point s.queue);
    served = tt;
  },
  refl,
  inr refl,
)
killed_consumer-cases point (Consumer.unlocking m) s =
    (record { inside = omega arith; tokens = omega arith; served = tt }, refl, inl refl)
killed_consumer-cases point (Consumer.posting m) s =
    (record { inside = omega arith; tokens = omega arith; served = tt }, refl, inl refl)
killed_consumer-cases point (Consumer.verifying m) s =
    (record { inside = omega arith; tokens = omega arith; served = tt }, refl, inl refl)
