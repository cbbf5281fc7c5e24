-- ===== src/Processes/System.antt =====
-- The producer and consumer processes over the shared queue and its three semaphores, in any
-- interleaving: `spawn_producer_process`, `spawn_consumer_process`, the two functions that kill the
-- last one, and the semaphore calls of shared_buffer_types.c.
pub mod Local
pub mod Kills
pub mod Frozen
pub mod Invariant
pub mod Safety
pub mod Freeze
use osa_sp.Base.{
  ℕ, zero, suc, ◌+◌, ◌-◌, Bool, true, false, Option, none, some, List, [], ◌∷◌, ◌≡◌, ◌⊎◌, inl, inr,
  refl, arith, update,
}
use osa_sp.Processes.Checksum.{
  MsgPayload, zero_message, generate_and_fill_message, process_and_verify_message,
}
use osa_sp.Processes.Buffer.{
  QueueBuffer, buffer_capacity, initialize_queue, add_message_to_queue, get_message_from_queue,
  AddPoint, GetPoint, interrupted_add, interrupted_get,
}

-- The shared memory and the semaphore set.
pub record Shared : Type 0 where
  pub queue : QueueBuffer
  pub mutex : ℕ
  pub empty_slots : ℕ
  pub filled_slots : ℕ

-- `semaphore_wait` that succeeds: a positive semaphore is lowered, at 0 the caller waits.
unfoldable pub try_lower : ℕ → Option ℕ
try_lower zero = none
try_lower (suc n) = some n

pub try_lower-cases :
    (n : ℕ) → ((n ≡ 0) × (try_lower n ≡ none)) ⊎ ((k : ℕ) × (n ≡ k + 1) × (try_lower n ≡ some k))
unfolding try_lower
try_lower-cases zero = inl (refl, refl)
try_lower-cases (suc n) = inr (n, omega arith, refl)

-- Where a producer stands in its loop, with the state of its `rand`, and its message where it has one.
pub data Producer : Type 0 where
  absent : Producer  -- not there: not spawned yet, killed, or gone by `exit`
  generating : ℕ → Producer
  wait_empty : ℕ → MsgPayload → Producer
  wait_mutex : ℕ → MsgPayload → Producer
  adding : ℕ → MsgPayload → Producer  -- inside the mutex
  unlocking : ℕ → Producer  -- inside the mutex, the message added
  posting : ℕ → Producer  -- before `semaphore_signal(FILLED_SLOTS_SEM_IDX)`

-- Where a consumer stands in its loop, with its message where it has one.
pub data Consumer : Type 0 where
  absent : Consumer
  found_empty : Consumer  -- gone by the `exit` of `get_message_from_queue`
  wait_filled : Consumer
  wait_mutex : Consumer
  getting : Consumer  -- inside the mutex
  unlocking : MsgPayload → Consumer  -- inside the mutex, the message taken
  posting : MsgPayload → Consumer  -- before `semaphore_signal(EMPTY_SLOTS_SEM_IDX)`
  verifying : MsgPayload → Consumer

module _ (rand : ℕ → ℕ × ℕ) where
  -- One step of a producer whose semaphore calls succeed.
  unfoldable pub producer_step : Producer → Shared → Producer × Shared
  producer_step Producer.absent s = (Producer.absent, s)
  producer_step (Producer.generating r) s =
      let (m, r') = generate_and_fill_message rand zero_message r in (Producer.wait_empty r' m, s)
  producer_step (Producer.wait_empty r m) s = elim (try_lower s.empty_slots) [
    | none ↦ (Producer.wait_empty r m, s)
    | some k ↦ (Producer.wait_mutex r m, record s { empty_slots = k })
  ]
  producer_step (Producer.wait_mutex r m) s = elim (try_lower s.mutex) [
    | none ↦ (Producer.wait_mutex r m, s)
    | some k ↦ (Producer.adding r m, record s { mutex = k })
  ]
  producer_step (Producer.adding r m) s = elim (add_message_to_queue m s.queue) [
    | none ↦ (Producer.absent, s)
    | some (n, q) ↦ (Producer.unlocking r, record s { queue = q })
  ]
  producer_step (Producer.unlocking r) s = (Producer.posting r, record s { mutex = s.mutex + 1 })
  producer_step (Producer.posting r) s =
      (Producer.generating r, record s { filled_slots = s.filled_slots + 1 })

-- One step of a consumer whose semaphore calls succeed.
unfoldable pub consumer_step : Consumer → Shared → Consumer × Shared
consumer_step Consumer.absent s = (Consumer.absent, s)
consumer_step Consumer.found_empty s = (Consumer.found_empty, s)
consumer_step Consumer.wait_filled s = elim (try_lower s.filled_slots) [
  | none ↦ (Consumer.wait_filled, s)
  | some k ↦ (Consumer.wait_mutex, record s { filled_slots = k })
]
consumer_step Consumer.wait_mutex s = elim (try_lower s.mutex) [
  | none ↦ (Consumer.wait_mutex, s)
  | some k ↦ (Consumer.getting, record s { mutex = k })
]
consumer_step Consumer.getting s = elim (get_message_from_queue s.queue) [
  | none ↦ (Consumer.found_empty, s)
  | some (n, m, q) ↦ (Consumer.unlocking m, record s { queue = q })
]
consumer_step (Consumer.unlocking m) s = (Consumer.posting m, record s { mutex = s.mutex + 1 })
consumer_step (Consumer.posting m) s =
    (Consumer.verifying m, record s { empty_slots = s.empty_slots + 1 })
consumer_step (Consumer.verifying m) s = (Consumer.wait_filled, s)

-- Processes are numbered by the order of their creation.
pub record System : Type 0 where
  pub shared : Shared
  pub producers : ℕ → Producer
  pub consumers : ℕ → Consumer

-- What SIGKILL leaves of the shared memory: a process that dies in one of the two functions on the queue
-- has made the stores up to a point, which nobody sees before, as the functions run inside the mutex.
unfoldable pub killed_producer : AddPoint → Producer → Shared → Shared
killed_producer point Producer.absent s = s
killed_producer point (Producer.generating r) s = s
killed_producer point (Producer.wait_empty r m) s = s
killed_producer point (Producer.wait_mutex r m) s = s
killed_producer point (Producer.adding r m) s = record s { queue = interrupted_add point m s.queue }
killed_producer point (Producer.unlocking r) s = s
killed_producer point (Producer.posting r) s = s

unfoldable pub killed_consumer : GetPoint → Consumer → Shared → Shared
killed_consumer point Consumer.absent s = s
killed_consumer point Consumer.found_empty s = s
killed_consumer point Consumer.wait_filled s = s
killed_consumer point Consumer.wait_mutex s = s
killed_consumer point Consumer.getting s = record s { queue = interrupted_get point s.queue }
killed_consumer point (Consumer.unlocking m) s = s
killed_consumer point (Consumer.posting m) s = s
killed_consumer point (Consumer.verifying m) s = s

-- A step of a process, its death by SIGKILL or by the `exit` behind a failing `semop`, or its creation.
-- A point says how far the process has come if it dies in one of the two functions.
pub data Action : Type 0 where
  produce : ℕ → Action
  consume : ℕ → Action
  kill_producer : ℕ → AddPoint → Action
  kill_consumer : ℕ → GetPoint → Action
  spawn_producer : (i state : ℕ) → Action
  spawn_consumer : (i : ℕ) → Action

-- A new process takes a number that nobody has.
abbrev pub spawned_producer : Producer → ℕ → Producer
spawned_producer Producer.absent state = Producer.generating state
spawned_producer p state = p

abbrev pub spawned_consumer : Consumer → Consumer
spawned_consumer Consumer.absent = Consumer.wait_filled
spawned_consumer c = c

module _ (rand : ℕ → ℕ × ℕ) where
  unfoldable pub step : Action → System → System
  step (produce i) s =
      let (p, shared) = producer_step rand (s.producers i) s.shared in
      record s { shared = shared; producers = update s.producers i p }
  step (consume i) s =
      let (c, shared) = consumer_step (s.consumers i) s.shared in
      record s { shared = shared; consumers = update s.consumers i c }
  step (kill_producer i point) s = record s {
    shared = killed_producer point (s.producers i) s.shared;
    producers = update s.producers i Producer.absent;
  }
  step (kill_consumer i point) s = record s {
    shared = killed_consumer point (s.consumers i) s.shared;
    consumers = update s.consumers i Consumer.absent;
  }
  step (spawn_producer i state) s = record s {
    producers = update s.producers i (spawned_producer (s.producers i) state);
  }
  step (spawn_consumer i) s = record s {
    consumers = update s.consumers i (spawned_consumer (s.consumers i));
  }

  unfoldable pub run : List Action → System → System
  run [] s = s
  run (a ∷ rest) s = run rest (step a s)

-- `system_init` on the shared memory `q`: one mutex, all slots empty, and no process yet.
abbrev pub system_init : QueueBuffer → System
system_init q = record {
  shared = record {
    queue = initialize_queue q;
    mutex = 1;
    empty_slots = buffer_capacity;
    filled_slots = 0;
  };
  producers = λ _. Producer.absent;
  consumers = λ _. Consumer.absent;
}
