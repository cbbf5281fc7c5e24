-- ===== src/Threads/Cond/System.antt =====
-- The threads of lab 5.2 over one `CondWorld`, in any interleaving, as in `Sem`.
use osa_sp.Base.{ℕ, Bool, true, false, Option, none, some, List, [], ◌∷◌, update}
use osa_sp.Threads.Cond.{fresh_queue_cond, request_resize_cond}
use osa_sp.Threads.Cond.Producer.{
  CondWorld, CondAnswers, CondProducerPc, CondProducer, producer_cond_step,
}
use osa_sp.Threads.Cond.Consumer.{CondConsumerPc, CondConsumer, consumer_cond_step}

pub record CondSystem : Type 0 where
  pub world : CondWorld
  pub producers : ℕ → CondProducer
  pub consumers : ℕ → CondConsumer

-- A step of a thread, or what `main` does to `CondWorld` while the threads run.
pub data CondAction : Type 0 where
  produce : ℕ → CondAnswers → CondAction
  consume : ℕ → CondAnswers → CondAction
  request : (up : Bool) → CondAction
  set_producer : ℕ → Bool → CondAction
  set_consumer : ℕ → Bool → CondAction
  shut_down : CondAction

module _ (rand_r : ℕ → ℕ × ℕ) where
  unfoldable pub put_cond_producer :
      ℕ → CondSystem → Option (CondWorld × CondProducer) → Option CondSystem
  put_cond_producer i s none = none
  put_cond_producer i s (some (w, t)) =
      some (record s { world = w; producers = update s.producers i t })

  unfoldable pub put_cond_consumer :
      ℕ → CondSystem → Option (CondWorld × CondConsumer) → Option CondSystem
  put_cond_consumer i s none = none
  put_cond_consumer i s (some (w, t)) =
      some (record s { world = w; consumers = update s.consumers i t })

  unfoldable pub cond_step : CondAction → CondSystem → Option CondSystem
  cond_step (produce i a) s =
      put_cond_producer i s (producer_cond_step rand_r i a s.world (s.producers i))
  cond_step (consume i a) s = put_cond_consumer i s (consumer_cond_step i a s.world (s.consumers i))
  cond_step (request up) s =
      some (record s { world = record s.world { queue = request_resize_cond up s.world.queue } })
  cond_step (set_producer i b) s =
      some (record s {
        world = record s.world { producer_active = update s.world.producer_active i b };
      })
  cond_step (set_consumer i b) s =
      some (record s {
        world = record s.world { consumer_active = update s.world.consumer_active i b };
      })
  cond_step shut_down s = some (record s { world = record s.world { keep_running = false } })

  -- A run of the system; `none` is an access outside the buffer.
  unfoldable pub cond_run : List CondAction → CondSystem → Option CondSystem
  cond_run [] s = some s
  cond_run (a ∷ rest) s = elim (cond_step a s) [ none ↦ none | some t ↦ cond_run rest t ]

-- The state in which `run_lab_logic` starts its loop, with a queue of `size` slots and the seeds that
-- the threads will get.
abbrev pub cond_start : ℕ → (ℕ → ℕ) → CondSystem
cond_start size seeds = record {
  world = record {
    queue = fresh_queue_cond size;
    keep_running = true;
    producer_active = λ _. false;
    consumer_active = λ _. false;
    log = record { added = []; extracted = []; checks = [] };
  };
  producers = λ i. record { pc = CondProducerPc.at_loop; seed = seeds i; messages_produced = 0 };
  consumers = λ i. record { pc = CondConsumerPc.at_loop; messages_consumed = 0 };
}
