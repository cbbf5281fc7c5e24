-- ===== src/Threads/Sem/Invariant.antt =====
-- What every run of lab 5.1 keeps as long as only larger capacities are asked for.
mod Defs
mod Producers
mod Consumers
pub use Defs.*
pub use Producers.*
pub use Consumers.*
use osa_sp.Base.{
  update, update_keeps, ℕ, ◌+◌, ◌<◌, ◌≡◌, ◌⊎◌, inl, inr, refl, sym, Bool, true, false, Bool-cases,
  Option, none, some, List, [], ◌∷◌, arith, ◌++◌, is_zero, ℤ, pos, dec_lt, ℕ_discrete,
  if◌then◌else◌, ite,
}
use osa_sp.Threads.Message.{Message}
use osa_sp.Threads.Ring.{Ring}
use osa_sp.Threads.Ring.Fifo.{new_ring-IsValid, messages}
use osa_sp.Threads.Ring.Window.{contents, IsValid}
use osa_sp.Threads.Sem.{QueueSem, request_resize_sem, signal_cleanup_sem}
use osa_sp.Threads.Sem.Queue.{request_resize_cases}
use osa_sp.Threads.Sem.Producer.{World, Answers, ProducerThread, ProducerPc, producer_step}
use osa_sp.Threads.Sem.Consumer.{ConsumerThread, ConsumerPc, consumer_step}
use osa_sp.Threads.Sem.System.{
  put_producer, put_consumer, System, Action, produce, consume, request, cleanup, set_producer,
  set_consumer, shut_down, step, run, start,
}

-- No action asks for a smaller queue.
abbrev pub OnlyGrows : List Action → Type 0
OnlyGrows [] = Unit
OnlyGrows (request false ∷ rest) = ⊥
OnlyGrows (_ ∷ rest) = OnlyGrows rest

first_grows : (a : Action) (rest : List Action) → OnlyGrows (a ∷ rest) → OnlyGrows (a ∷ [])
first_grows (request false) rest g = g
first_grows (request true) rest g = tt
first_grows (produce i a) rest g = tt
first_grows (consume i a) rest g = tt
first_grows (cleanup p c) rest g = tt
first_grows (set_producer i b) rest g = tt
first_grows (set_consumer i b) rest g = tt
first_grows shut_down rest g = tt

rest_grows : (a : Action) (rest : List Action) → OnlyGrows (a ∷ rest) → OnlyGrows rest
rest_grows (request false) rest g = absurd g
rest_grows (request true) rest g = g
rest_grows (produce i a) rest g = g
rest_grows (consume i a) rest g = g
rest_grows (cleanup p c) rest g = g
rest_grows (set_producer i b) rest g = g
rest_grows (set_consumer i b) rest g = g
rest_grows shut_down rest g = g

pub record Inv (s : System) : Type 0 where
  pub world : WorldInv s.world
  pub producers : (i : ℕ) → ProducerInv (s.producers i).pc
  pub consumers : (i : ℕ) → ConsumerInv (s.consumers i).pc

Inv-start : (size : ℕ) (seeds : ℕ → ℕ) → 0 < size → Inv (start size seeds)
Inv-start size seeds h = record {
  world = record {
    valid = new_ring-IsValid size h;
    totals = omega arith;
    order = refl;
    stamped = tt;
    checked = tt;
    grows = inl refl;
  };
  producers = λ i. tt;
  consumers = λ i. tt;
}

request_up-WorldInv :
    (w : World) → WorldInv w → WorldInv (record w { queue = request_resize_sem true w.queue })
request_up-WorldInv w v = elim (request_resize_cases true w.queue) [
  | inl (pending, same) ↦ rw same v
  | inr (inl (up, asked)) ↦ rw asked (record {
    valid = v.valid;
    totals = v.totals;
    order = v.order;
    stamped = v.stamped;
    checked = v.checked;
    grows = inr (refl, refl);
  })
  | inr (inr (inl (down, _, _))) ↦ cc down
  | inr (inr (inr (down, _, _))) ↦ cc down
]

module _ (rand_r : ℕ → ℕ × ℕ) where
  -- One action that asks for no smaller queue.
  step-Inv :
      (a : Action) (s : System)
      → OnlyGrows (a ∷ [])
      → Inv s
      → (s' : System) × (step rand_r a s ≡ some s') × Inv s'
  unfolding step put_producer put_consumer signal_cleanup_sem
  step-Inv (produce i a) s g v =
      let (w, t, done, good, ok) =
        producer_step-keeps rand_r i a s.world (s.producers i) v.world (v.producers i) in
      (
        record s { world = w; producers = update s.producers i t },
        rw done refl,
        record {
          world = good;
          producers = update_keeps (λ t. ProducerInv t.pc) s.producers i t v.producers ok;
          consumers = v.consumers;
        },
      )
  step-Inv (consume i a) s g v =
      let (w, t, done, good, ok) =
        consumer_step-keeps i a s.world (s.consumers i) v.world (v.consumers i) in
      (
        record s { world = w; consumers = update s.consumers i t },
        rw done refl,
        record {
          world = good;
          producers = v.producers;
          consumers = update_keeps (λ t. ConsumerInv t.pc) s.consumers i t v.consumers ok;
        },
      )
  step-Inv (request true) s g v = (
    _,
    refl,
    record {
      world = request_up-WorldInv s.world v.world;
      producers = v.producers;
      consumers = v.consumers;
    },
  )
  step-Inv (request false) s g v = absurd g
  step-Inv (cleanup p c) s g v =
      (_, refl, record { world = v.world; producers = v.producers; consumers = v.consumers })
  step-Inv (set_producer i b) s g v =
      (_, refl, record { world = v.world; producers = v.producers; consumers = v.consumers })
  step-Inv (set_consumer i b) s g v =
      (_, refl, record { world = v.world; producers = v.producers; consumers = v.consumers })
  step-Inv shut_down s g v =
      (_, refl, record { world = v.world; producers = v.producers; consumers = v.consumers })

  run-Inv :
      (actions : List Action) (s : System)
      → OnlyGrows actions
      → Inv s
      → (s' : System) × (run rand_r actions s ≡ some s') × Inv s'
  unfolding run
  run-Inv [] s g v = (s, refl, v)
  run-Inv (a ∷ rest) s g v =
      let (t, done, ok) = step-Inv a s (first_grows a rest g) v in
      let (s', finished, fine) = run-Inv rest t (rest_grows a rest g) ok in
      (s', rw (done, run) finished, fine)

  -- Lab 5.1 with any interleaving of any number of producers and consumers, any outcome of their
  -- system calls, and any requests for a larger queue: the run never leaves the buffer. In its final
  -- state the ring is valid, `total_added` is `total_extracted` plus `count`, the messages were
  -- extracted in the order in which they were added, and every hash check said OK.
  pub run_accounts :
      (actions : List Action) (size : ℕ) (seeds : ℕ → ℕ)
      → 0 < size
      → OnlyGrows actions
      → (s : System) × (run rand_r actions (start size seeds) ≡ some s)
        × IsValid s.world.queue.ring
        × (s.world.queue.total_added ≡ s.world.queue.total_extracted + s.world.queue.ring.count)
        × (s.world.log.added ≡ s.world.log.extracted ++ messages (contents s.world.queue.ring))
        × AllTrue s.world.log.checks
  run_accounts actions size seeds h g =
      let (s, done, v) = run-Inv actions (start size seeds) g (Inv-start size seeds h) in
      (s, done, v.world.valid, v.world.totals, v.world.order, v.world.checked)
