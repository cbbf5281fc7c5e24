-- ===== src/Threads/Sem/System.antt =====
-- The threads of lab 5.1 over one `World`, in any interleaving: a run is a list of actions, each with
-- the answers that its calls of the system get.
use osa_sp.Base.{update, ℕ, Bool, true, false, Option, none, some, List, [], ◌∷◌}
use osa_sp.Threads.Sem.{fresh_queue, request_resize_sem, signal_cleanup_sem}
use osa_sp.Threads.Sem.Producer.{World, Answers, ProducerPc, ProducerThread, producer_step}
use osa_sp.Threads.Sem.Consumer.{ConsumerPc, ConsumerThread, consumer_step}

pub record System : Type 0 where
  pub world : World
  pub producers : ℕ → ProducerThread
  pub consumers : ℕ → ConsumerThread

-- A step of a thread, or what `main` does to `World` while the threads run. Activating a thread stands
-- for its creation: until then it sees its flag at 0 and never enters its loop.
pub data Action : Type 0 where
  produce : ℕ → Answers → Action
  consume : ℕ → Answers → Action
  request : (up : Bool) → Action
  cleanup : (producer_count consumer_count : ℕ) → Action
  set_producer : ℕ → Bool → Action
  set_consumer : ℕ → Bool → Action
  shut_down : Action

module _ (rand_r : ℕ → ℕ × ℕ) where
  unfoldable pub put_producer : ℕ → System → Option (World × ProducerThread) → Option System
  put_producer i s none = none
  put_producer i s (some (w, t)) = some (record s { world = w; producers = update s.producers i t })

  unfoldable pub put_consumer : ℕ → System → Option (World × ConsumerThread) → Option System
  put_consumer i s none = none
  put_consumer i s (some (w, t)) = some (record s { world = w; consumers = update s.consumers i t })

  unfoldable pub step : Action → System → Option System
  step (produce i a) s = put_producer i s (producer_step rand_r i a s.world (s.producers i))
  step (consume i a) s = put_consumer i s (consumer_step i a s.world (s.consumers i))
  step (request up) s =
      some (record s { world = record s.world { queue = request_resize_sem up s.world.queue } })
  step (cleanup p c) s =
      some (record s { world = record s.world { queue = signal_cleanup_sem p c s.world.queue } })
  step (set_producer i b) s =
      some (record s {
        world = record s.world { producer_active = update s.world.producer_active i b };
      })
  step (set_consumer i b) s =
      some (record s {
        world = record s.world { consumer_active = update s.world.consumer_active i b };
      })
  step shut_down s = some (record s { world = record s.world { keep_running = false } })

  -- A run of the system; `none` is an access outside the buffer.
  unfoldable pub run : List Action → System → Option System
  run [] s = some s
  run (a ∷ rest) s = elim (step a s) [ none ↦ none | some t ↦ run rest t ]

-- The state in which `run_lab_logic` starts its loop, with a queue of `size` slots and the seeds that
-- the threads will get.
abbrev pub start : ℕ → (ℕ → ℕ) → System
start size seeds = record {
  world = record {
    queue = fresh_queue size;
    keep_running = true;
    producer_active = λ _. false;
    consumer_active = λ _. false;
    log = record { added = []; extracted = []; checks = [] };
  };
  producers = λ i. record { pc = ProducerPc.at_loop; seed = seeds i; messages_produced = 0 };
  consumers = λ i. record { pc = ConsumerPc.at_loop; messages_consumed = 0 };
}
