-- ===== src/Threads/Cond/Invariant.antt =====
-- What every run of lab 5.2 keeps.
mod Defs
mod Producers
mod Consumers
mod Requests
pub use Defs.*
pub use Producers.*
pub use Consumers.*
pub use Requests.*
use osa_sp.Base.{
  ℕ, ◌+◌, ◌<◌, ◌≡◌, ◌⊎◌, inl, inr, refl, sym, ap, Bool, true, false, Option, none, some, List, [],
  ◌∷◌, ◌++◌, arith, pos, negsuc, ℤ, ◌-◌, ◌≤◌, update, update_keeps,
}
use osa_sp.Threads.Ring.{new_ring}
use osa_sp.Threads.Ring.Window.{contents, IsValid}
use osa_sp.Threads.Ring.Fifo.{new_ring-IsValid, messages}
use osa_sp.Threads.Ring.Mended.{IsMendable, IsMendable-IsValid, IsValid-IsMendable}
use osa_sp.Threads.Sem.Invariant.{AllTrue}
use osa_sp.Threads.Cond.{QueueCond, fresh_queue_cond, request_resize_cond}
use osa_sp.Threads.Cond.Queue.{request_resize_cond_cases}
use osa_sp.Threads.Cond.Producer.{CondWorld, CondAnswers, CondProducer, producer_cond_step}
use osa_sp.Threads.Cond.Consumer.{CondConsumer, consumer_cond_step}
use osa_sp.Threads.Cond.System.{
  CondSystem, CondAction, produce, consume, request, set_producer, set_consumer, shut_down,
  put_cond_producer, put_cond_consumer, cond_step, cond_run, cond_start,
}

record SystemInv (grows : Bool) (s : CondSystem) : Type 0 where
  world : CondInv grows s.world
  consumers : (i : ℕ) → ThreadInv (s.consumers i)

-- The action `a` leaves the buffer: it is a producer's, with the tail just behind the buffer's end.
abbrev Overruns : Bool → CondAction → CondSystem → Option CondSystem → Type 0
Overruns grows a s outcome =
    (grows ≡ false)
    × (i : ℕ) × (answers : CondAnswers) × (a ≡ produce i answers)
    × (s.world.queue.ring.tail ≡ s.world.queue.ring.capacity)
    × (outcome ≡ none)

abbrev GoesOn : Bool → Option CondSystem → Type 0
GoesOn grows outcome = (s : CondSystem) × (outcome ≡ some s) × SystemInv grows s

-- The actions up to one of a producer end in a state with the tail just behind the buffer's end, and
-- that one writes there.
abbrev pub WritesPast : (ℕ → ℕ × ℕ) → List CondAction → CondSystem → Type 0
WritesPast rand_r actions start =
    (before after : List CondAction) × (i : ℕ) × (answers : CondAnswers) × (s : CondSystem)
    × (actions ≡ before ++ (produce i answers ∷ after))
    × (cond_run rand_r before start ≡ some s)
    × (s.world.queue.ring.tail ≡ s.world.queue.ring.capacity)
    × (cond_step rand_r (produce i answers) s ≡ none)

SystemInv-start :
    (grows : Bool) (size : ℕ) (seeds : ℕ → ℕ) → 0 < size → SystemInv grows (cond_start size seeds)
SystemInv-start grows size seeds h = record {
  world = record {
    ring = (IsValid-IsMendable (new_ring-IsValid size h)).0;
    totals = omega arith;
    order = refl;
    stamped = tt;
    checked = tt;
    idle = refl;
    safe = fresh grows;
  };
  consumers = λ i. tt;
}
  where
    fresh : (g : Bool) → Safe g (fresh_queue_cond size)
    fresh true = (h, inl refl)
    fresh false = tt

module _ (rand_r : ℕ → ℕ × ℕ) (grows : Bool) where
  step-Finishes :
      (a : CondAction) (s : CondSystem)
      → Allowed grows a
      → SystemInv grows s
      → Overruns grows a s (cond_step rand_r a s) ⊎ GoesOn grows (cond_step rand_r a s)
  unfolding cond_step put_cond_producer put_cond_consumer
  step-Finishes (produce i a) s ok v =
      elim (producer_cond_step-Ends rand_r i grows a s.world (s.producers i) v.world) [
        | inl (shrinks, at, over) ↦ inl (shrinks, i, a, refl, at, rw over refl)
        | inr (w, t, done, good, _) ↦ inr (
          record s { world = w; producers = update s.producers i t },
          rw done refl,
          record { world = good; consumers = v.consumers },
        )
      ]
  step-Finishes (consume i a) s ok v =
      let (w, t, done, good, fine) =
        consumer_cond_step-GoesWell i grows a s.world (s.consumers i) v.world (v.consumers i) in
      inr (
        record s { world = w; consumers = update s.consumers i t },
        rw done refl,
        record {
          world = good;
          consumers = update_keeps ThreadInv s.consumers i t v.consumers fine;
        },
      )
  step-Finishes (request up) s ok v = inr (
    _,
    refl,
    record { world = request_keeps grows up s.world v.world ok; consumers = v.consumers },
  )
  step-Finishes (set_producer i b) s ok v =
      inr (_, refl, record { world = v.world; consumers = v.consumers })
  step-Finishes (set_consumer i b) s ok v =
      inr (_, refl, record { world = v.world; consumers = v.consumers })
  step-Finishes shut_down s ok v =
      inr (_, refl, record { world = v.world; consumers = v.consumers })

  run-Finishes :
      (actions : List CondAction) (s : CondSystem)
      → AllAllowed grows actions
      → SystemInv grows s
      → ((grows ≡ false) × WritesPast rand_r actions s) ⊎ GoesOn grows (cond_run rand_r actions s)
  unfolding cond_run
  run-Finishes [] s ok v = inr (s, refl, v)
  run-Finishes (a ∷ rest) s ok v = elim (step-Finishes a s ok.0 v) [
    | inl (shrinks, i, answers, same, at, over) ↦
        inl (
          shrinks,
          ([], rest, i, answers, s, ap (λ b. b ∷ rest) same, refl, at, rw (sym same) over),
        )
    | inr (t, done, good) ↦ elim (run-Finishes rest t ok.1 good) [
      | inr ends ↦ rw (done, cond_run) (inr ends)
      | inl (shrinks, (before, after, i, answers, u, split, reached, at, past)) ↦ inl (
        shrinks,
        (
          a ∷ before,
          after,
          i,
          answers,
          u,
          ap (λ l. a ∷ l) split,
          rw (done, cond_run) reached,
          at,
          past,
        ),
      )
    ]
  ]

anything_allowed : (actions : List CondAction) → AllAllowed false actions
anything_allowed [] = tt
anything_allowed (a ∷ rest) = (one a, anything_allowed rest)
  where
    one : (a : CondAction) → Allowed false a
    one (request true) = tt
    one (request false) = tt
    one (produce i a) = tt
    one (consume i a) = tt
    one (set_producer i b) = tt
    one (set_consumer i b) = tt
    one shut_down = tt

-- Lab 5.2 with any interleaving of any number of producers and consumers, any outcome of their system
-- calls, and any requests for a larger or a smaller queue. Either all goes well up to a step of a producer
-- that writes just behind the end of the buffer, where `tail` then stands: that is the only access
-- outside of it. Or in the final state `total_added` is `total_extracted` plus `count`, the messages were
-- extracted in the order in which they were added, every hash check said OK, and no resize is in
-- progress.
pub cond_run_accounts :
    (rand_r : ℕ → ℕ × ℕ) (actions : List CondAction) (size : ℕ) (seeds : ℕ → ℕ)
    → 0 < size
    → WritesPast rand_r actions (cond_start size seeds)
      ⊎ ((s : CondSystem) × (cond_run rand_r actions (cond_start size seeds) ≡ some s)
          × (s.world.queue.total_added ≡ s.world.queue.total_extracted + s.world.queue.ring.count)
          × (s.world.log.added ≡ s.world.log.extracted ++ messages (contents s.world.queue.ring))
          × AllTrue s.world.log.checks
          × (s.world.queue.resize_in_progress ≡ false))
cond_run_accounts rand_r actions size seeds h =
    elim (run-Finishes rand_r false actions (cond_start size seeds) (anything_allowed actions)
      (SystemInv-start false size seeds h)) [
        | inl (_, past) ↦ inl past
        | inr (s, done, v) ↦
            inr (s, done, v.world.totals, v.world.order, v.world.checked, v.world.idle)
      ]

-- Lab 5.2 with any interleaving and any outcome of the system calls never leaves the buffer and keeps
-- the ring valid, as long as no smaller queue is asked for.
pub cond_growing_stays_inside :
    (rand_r : ℕ → ℕ × ℕ) (actions : List CondAction) (size : ℕ) (seeds : ℕ → ℕ)
    → 0 < size
    → AllAllowed true actions
    → (s : CondSystem) × (cond_run rand_r actions (cond_start size seeds) ≡ some s)
      × IsValid s.world.queue.ring
      × (s.world.queue.ring.count ≤ s.world.queue.ring.capacity)
cond_growing_stays_inside rand_r actions size seeds h g =
    elim (run-Finishes rand_r true actions (cond_start size seeds) g
      (SystemInv-start true size seeds h)) [
        | inl (never, _) ↦ cc never
        | inr (s, done, v) ↦
            (s, done, IsMendable-IsValid v.world.ring v.world.safe.0, v.world.ring.valid.count_in)
      ]
