-- ===== src/Processes/System/Frozen.antt =====
-- The state in which the mutex is taken by nobody, and that no step leaves.
use osa_sp.Base.{ℕ, ◌≡◌, inl, inr, refl, ap, ◌∙◌, List, [], ◌∷◌, arith, update, update_keeps}
use osa_sp.Processes.System.{
  Shared, Producer, Consumer, producer_step, consumer_step, System, Action, produce, consume,
  kill_producer, kill_consumer, spawn_producer, spawn_consumer, step, run, try_lower-cases,
  spawned_producer, spawned_consumer, killed_producer, killed_consumer,
}
use osa_sp.Processes.System.Local.{producer_inside, consumer_inside}
use osa_sp.Processes.System.Kills.{killed_producer-cases, killed_consumer-cases}
use osa_sp.Processes.Buffer.{AddPoint, GetPoint}

-- The mutex is taken, and nobody is there to release it.
pub record IsFrozen (s : System) : Type 0 where
  pub taken : s.shared.mutex ≡ 0
  pub no_producer : (i : ℕ) → producer_inside (s.producers i) ≡ 0
  pub no_consumer : (i : ℕ) → consumer_inside (s.consumers i) ≡ 0

-- A process outside a taken mutex does not get in, and does not touch the queue.
record Outside {P : Type 0} (inside : P → ℕ) (s : Shared) (out : P × Shared) : Type 0 where
  taken : out.1.mutex ≡ 0
  stays : inside out.0 ≡ 0
  untouched : out.1.queue ≡ s.queue

module _ (rand : ℕ → ℕ × ℕ) where
  producer_step-Outside :
      (p : Producer) (s : Shared)
      → s.mutex ≡ 0
      → producer_inside p ≡ 0
      → Outside producer_inside s (producer_step rand p s)
  unfolding producer_step
  producer_step-Outside Producer.absent s e o = record { taken = e; stays = refl; untouched = refl }
  producer_step-Outside (Producer.generating r) s e o = record {
    taken = e;
    stays = refl;
    untouched = refl;
  }
  producer_step-Outside (Producer.wait_empty r m) s e o = elim (try_lower-cases s.empty_slots) [
    | inl (z, t) ↦ rw (t, producer_step) (record { taken = e; stays = refl; untouched = refl })
    | inr (k, z, t) ↦ rw (t, producer_step) (record { taken = e; stays = refl; untouched = refl })
  ]
  producer_step-Outside (Producer.wait_mutex r m) s e o = elim (try_lower-cases s.mutex) [
    | inl (z, t) ↦ rw (t, producer_step) (record { taken = e; stays = refl; untouched = refl })
    | inr (k, z, t) ↦ absurd (omega arith)
  ]
  producer_step-Outside (Producer.adding r m) s e o = absurd (omega arith)
  producer_step-Outside (Producer.unlocking r) s e o = absurd (omega arith)
  producer_step-Outside (Producer.posting r) s e o = record {
    taken = e;
    stays = refl;
    untouched = refl;
  }

consumer_step-Outside :
    (c : Consumer) (s : Shared)
    → s.mutex ≡ 0
    → consumer_inside c ≡ 0
    → Outside consumer_inside s (consumer_step c s)
unfolding consumer_step
consumer_step-Outside Consumer.absent s e o = record { taken = e; stays = refl; untouched = refl }
consumer_step-Outside Consumer.found_empty s e o = record {
  taken = e;
  stays = refl;
  untouched = refl;
}
consumer_step-Outside Consumer.wait_filled s e o = elim (try_lower-cases s.filled_slots) [
  | inl (z, t) ↦ rw (t, consumer_step) (record { taken = e; stays = refl; untouched = refl })
  | inr (k, z, t) ↦ rw (t, consumer_step) (record { taken = e; stays = refl; untouched = refl })
]
consumer_step-Outside Consumer.wait_mutex s e o = elim (try_lower-cases s.mutex) [
  | inl (z, t) ↦ rw (t, consumer_step) (record { taken = e; stays = refl; untouched = refl })
  | inr (k, z, t) ↦ absurd (omega arith)
]
consumer_step-Outside Consumer.getting s e o = absurd (omega arith)
consumer_step-Outside (Consumer.unlocking m) s e o = absurd (omega arith)
consumer_step-Outside (Consumer.posting m) s e o = record {
  taken = e;
  stays = refl;
  untouched = refl;
}
consumer_step-Outside (Consumer.verifying m) s e o = record {
  taken = e;
  stays = refl;
  untouched = refl;
}

spawned_producer-outside :
    (p : Producer) (r : ℕ) → producer_inside p ≡ 0 → producer_inside (spawned_producer p r) ≡ 0
spawned_producer-outside Producer.absent r h = refl
spawned_producer-outside p r h = h

spawned_consumer-outside :
    (c : Consumer) → consumer_inside c ≡ 0 → consumer_inside (spawned_consumer c) ≡ 0
spawned_consumer-outside Consumer.absent h = refl
spawned_consumer-outside c h = h

killed_producer-outside :
    (point : AddPoint) (p : Producer) (s : Shared)
    → producer_inside p ≡ 0
    → (killed_producer point p s).queue ≡ s.queue
killed_producer-outside point p s o = elim ((killed_producer-cases point p s).2) [
  | inl same ↦ ap (λ (x : Shared). x.queue) same
  | inr inside ↦ absurd (omega arith)
]

killed_consumer-outside :
    (point : GetPoint) (c : Consumer) (s : Shared)
    → consumer_inside c ≡ 0
    → (killed_consumer point c s).queue ≡ s.queue
killed_consumer-outside point c s o = elim ((killed_consumer-cases point c s).2) [
  | inl same ↦ ap (λ (x : Shared). x.queue) same
  | inr inside ↦ absurd (omega arith)
]

abbrev ProducersOutside : (ℕ → Producer) → Type 0
ProducersOutside f = (i : ℕ) → producer_inside (f i) ≡ 0

abbrev ConsumersOutside : (ℕ → Consumer) → Type 0
ConsumersOutside f = (i : ℕ) → consumer_inside (f i) ≡ 0

set_producer-outside :
    (f : ℕ → Producer) (i : ℕ) (p : Producer)
    → ProducersOutside f
    → producer_inside p ≡ 0
    → ProducersOutside (update f i p)
set_producer-outside f i p all h = update_keeps (λ x. producer_inside x ≡ 0) f i p all h

set_consumer-outside :
    (f : ℕ → Consumer) (i : ℕ) (c : Consumer)
    → ConsumersOutside f
    → consumer_inside c ≡ 0
    → ConsumersOutside (update f i c)
set_consumer-outside f i c all h = update_keeps (λ x. consumer_inside x ≡ 0) f i c all h

module _ (rand : ℕ → ℕ × ℕ) where
  pub step-IsFrozen :
      (a : Action) (s : System)
      → IsFrozen s
      → IsFrozen (step rand a s) × ((step rand a s).shared.queue ≡ s.shared.queue)
  unfolding step
  step-IsFrozen (produce i) s f =
      let o = producer_step-Outside rand (s.producers i) s.shared f.taken (f.no_producer i) in
      (
        record {
          taken = o.taken;
          no_producer = set_producer-outside s.producers i _ f.no_producer o.stays;
          no_consumer = f.no_consumer;
        },
        o.untouched,
      )
  step-IsFrozen (consume i) s f =
      let o = consumer_step-Outside (s.consumers i) s.shared f.taken (f.no_consumer i) in
      (
        record {
          taken = o.taken;
          no_producer = f.no_producer;
          no_consumer = set_consumer-outside s.consumers i _ f.no_consumer o.stays;
        },
        o.untouched,
      )
  step-IsFrozen (kill_producer i point) s f = (
    record {
      taken = (killed_producer-cases point (s.producers i) s.shared).1 ∙ f.taken;
      no_producer = set_producer-outside s.producers i Producer.absent f.no_producer refl;
      no_consumer = f.no_consumer;
    },
    killed_producer-outside point (s.producers i) s.shared (f.no_producer i),
  )
  step-IsFrozen (kill_consumer i point) s f = (
    record {
      taken = (killed_consumer-cases point (s.consumers i) s.shared).1 ∙ f.taken;
      no_producer = f.no_producer;
      no_consumer = set_consumer-outside s.consumers i Consumer.absent f.no_consumer refl;
    },
    killed_consumer-outside point (s.consumers i) s.shared (f.no_consumer i),
  )
  step-IsFrozen (spawn_producer i r) s f = (
    record {
      taken = f.taken;
      no_producer =
          set_producer-outside s.producers i _ f.no_producer
            (spawned_producer-outside (s.producers i) r (f.no_producer i));
      no_consumer = f.no_consumer;
    },
    refl,
  )
  step-IsFrozen (spawn_consumer i) s f = (
    record {
      taken = f.taken;
      no_producer = f.no_producer;
      no_consumer =
          set_consumer-outside s.consumers i _ f.no_consumer
            (spawned_consumer-outside (s.consumers i) (f.no_consumer i));
    },
    refl,
  )

  -- From a frozen state on nothing is added to the queue or taken from it, whatever is done: processes
  -- that are created later do not help either.
  pub run-IsFrozen :
      (actions : List Action) (s : System)
      → IsFrozen s
      → IsFrozen (run rand actions s) × ((run rand actions s).shared.queue ≡ s.shared.queue)
  unfolding run
  run-IsFrozen [] s f = (f, refl)
  run-IsFrozen (a ∷ rest) s f =
      let (g, same) = step-IsFrozen a s f in
      let (final, kept) = run-IsFrozen rest (step rand a s) g in (final, kept ∙ same)
