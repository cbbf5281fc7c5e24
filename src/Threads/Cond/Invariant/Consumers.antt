-- ===== src/Threads/Cond/Invariant/Consumers.antt =====
-- Each step of a consumer of lab 5.2 keeps the invariant.
use osa_sp.Threads.Cond.Invariant.Defs.{
  CondAccounts, CondInv, GoesWell, Safe, Fits, Safe-cleared, resize_cond_to-CondAccounts,
}
use osa_sp.Base.{
  ℕ, ◌+◌, ◌≡◌, ◌≢◌, inl, inr, refl, sym, ap, ◌∙◌, Bool, true, false, not, ◌&&◌, ◌||◌, if◌then◌else◌,
  Bool-cases, Option, none, some, [], ◌∷◌, ◌++◌, append_assoc, arith, ◌==◌, ==_iff, is_zero,
  is_minus_one, le_int, pos, update,
}
use osa_sp.Threads.Message.{Message}
use osa_sp.Threads.Ring.{Ring}
use osa_sp.Threads.Ring.Window.{contents}
use osa_sp.Threads.Ring.Fifo.{messages}
use osa_sp.Threads.Ring.Mended.{extract-IsMendable}
use osa_sp.Threads.Sem.Producer.{Log}
use osa_sp.Threads.Sem.Consumer.{hash_ok}
use osa_sp.Threads.Sem.Invariant.{IsStamped, AllTrue-append}
use osa_sp.Threads.Cond.{QueueCond}
use osa_sp.Threads.Cond.Queue.{resize_cond_cases}
use osa_sp.Threads.Cond.Producer.{CondWorld, CondWait, woken, timed_out, failed, CondAnswers}
use osa_sp.Threads.Cond.Consumer.{
  CondConsumerPc, CondConsumer, serve_cond_request, can_resize_now, pending_decrease, taken_from,
  record_taken, consumer_cond_extract, consumer_cond_decide, consumer_cond_test,
  consumer_cond_locked, consumer_cond_waited, consumer_cond_verify, consumer_cond_at,
  consumer_cond_step,
}

-- A message that a consumer has taken is stamped; it never takes an empty slot.
abbrev pub TakenInv : CondConsumerPc → Type 0
TakenInv (CondConsumerPc.verifying none) = ⊥
TakenInv (CondConsumerPc.verifying (some m)) = IsStamped m
TakenInv _ = Unit

abbrev pub ThreadInv : CondConsumer → Type 0
ThreadInv t = TakenInv t.pc

if_GoesWell :
    (grows b : Bool) (x y : Option (CondWorld × CondConsumer))
    → (b ≡ true → GoesWell grows ThreadInv x)
    → (b ≡ false → GoesWell grows ThreadInv y)
    → GoesWell grows ThreadInv (if b then x else y)
if_GoesWell grows true x y p q = p refl
if_GoesWell grows false x y p q = q refl

-- Serving a request, whatever it asks for and whether or not `malloc` succeeds.
serve_keeps :
    (grows allocated : Bool) (q : QueueCond) (log : Log)
    → CondAccounts grows q log
    → is_zero q.resize_request ≡ false
    → CondAccounts grows (serve_cond_request allocated q) log
unfolding serve_cond_request
serve_keeps grows allocated q log v pending =
    elim (resize_cond_cases allocated q q.new_capacity_request v.idle) [
      | inl (refused, same) ↦ rw same (record {
        ring = v.ring;
        totals = v.totals;
        order = v.order;
        stamped = v.stamped;
        checked = v.checked;
        idle = v.idle;
        safe = Safe-cleared grows q v.safe;
      })
      | inr (n, asked, some_room, room, _, moved) ↦
          rw moved
            (resize_cond_to-CondAccounts grows q log n v room some_room (fits grows n v.safe asked))
    ]
  where
    fits : (g : Bool) (n : ℕ) → Safe g q → q.new_capacity_request ≡ pos n → Fits g q n
    fits true n (inside, inl idle) asked = cc (ap is_zero idle, pending)
    fits true n (inside, inr (up, target)) asked =
        let e : pos n ≡ pos (q.ring.capacity + 5) = sym asked ∙ target in
        let same : n ≡ q.ring.capacity + 5 = cc e in omega (arith, same, v.ring.valid.count_in)
    fits false n s asked = tt

pending_keeps :
    (grows allocated : Bool) (q : QueueCond) (log : Log)
    → CondAccounts grows q log
    → CondAccounts grows (pending_decrease allocated q) log
unfolding pending_decrease
pending_keeps grows allocated q log v = elim (Bool-cases decrease) [
  | inl now ↦ rw now (serve_keeps grows allocated q log v (ground (arith, now)))
  | inr later ↦ rw later v
]
  where
    decrease : Bool
    decrease =
        is_minus_one q.resize_request
        && not q.resize_in_progress
        && le_int q.ring.count q.new_capacity_request

module _ (id : ℕ) (grows : Bool) where
  extract_keeps :
      (allocated : Bool) (w : CondWorld) (t : CondConsumer)
      → CondInv grows w
      → w.queue.ring.count ≢ 0
      → GoesWell grows ThreadInv (consumer_cond_extract id allocated w t)
  unfolding consumer_cond_extract
  extract_keeps allocated w t v some_left =
      let (m, ring, done, valid, split, counted, same, tail) =
        extract-IsMendable v.ring some_left in
      let parts : messages (contents w.queue.ring) ≡ m ∷ messages (contents ring) =
        ap messages split in
      (
        record_taken id allocated w (some m) ring,
        record t { pc = CondConsumerPc.verifying (some m) },
        rw (done, consumer_cond_extract) refl,
        pending_keeps grows allocated (taken_from id w.queue ring)
            (record w.log { extracted = w.log.extracted ++ (m ∷ []) })
            (record {
              ring = valid;
              totals = omega (arith, v.totals);
              order =
                  v.order
                  ∙ ap (λ l. w.log.extracted ++ l) parts
                  ∙ sym (append_assoc w.log.extracted (m ∷ []) (messages (contents ring)));
              stamped = (rw parts at v.stamped).1;
              checked = v.checked;
              idle = v.idle;
              safe = still ring same tail grows v.safe;
            }),
        (rw parts at v.stamped).0,
      )
    where
      still :
          (ring : Ring Message)
          → ring.capacity ≡ w.queue.ring.capacity
          → ring.tail ≡ w.queue.ring.tail
          → (g : Bool) → Safe g w.queue
          → Safe g (taken_from id w.queue ring)
      still ring same tail true s = (omega (arith, same, tail, s.0), rw same s.1)
      still ring same tail false s = tt

  decide_keeps :
      (allocated : Bool) (w : CondWorld) (t : CondConsumer)
      → CondInv grows w
      → GoesWell grows ThreadInv (consumer_cond_decide id allocated w t)
  unfolding consumer_cond_decide
  decide_keeps allocated w t v =
      if_GoesWell grows (not w.keep_running || not (w.consumer_active id)) _ _
        (λ _. (_, _, refl, v, tt))
        (λ _.
          if_GoesWell grows (w.queue.ring.count == 0) _ _ (λ _. (_, _, refl, v, tt))
            (λ e. extract_keeps allocated w t v (ground (arith, e))))

  test_keeps :
      (allocated : Bool) (w : CondWorld) (t : CondConsumer)
      → CondInv grows w
      → GoesWell grows ThreadInv (consumer_cond_test id allocated w t)
  unfolding consumer_cond_test
  test_keeps allocated w t v =
      if_GoesWell grows ((w.queue.ring.count == 0) && w.keep_running && w.consumer_active id) _ _
        (λ _. (_, _, refl, v, tt)) (λ _. decide_keeps allocated w t v)

  locked_keeps :
      (allocated : Bool) (w : CondWorld) (t : CondConsumer)
      → CondInv grows w
      → GoesWell grows ThreadInv (consumer_cond_locked id allocated w t)
  unfolding consumer_cond_locked
  locked_keeps allocated w t v =
      if_GoesWell grows
        (not (is_zero w.queue.resize_request)
          && not w.queue.resize_in_progress
          && can_resize_now w.queue)
        _ _
        (λ now. (_, _, refl, serve_keeps grows allocated w.queue w.log v (ground (arith, now)), tt))
        (λ _. test_keeps allocated w t v)

  waited_keeps :
      (wait : CondWait) (allocated : Bool) (w : CondWorld) (t : CondConsumer)
      → CondInv grows w
      → GoesWell grows ThreadInv (consumer_cond_waited id wait allocated w t)
  unfolding consumer_cond_waited
  waited_keeps woken allocated w t v = test_keeps allocated w t v
  waited_keeps timed_out allocated w t v = decide_keeps allocated w t v
  waited_keeps failed allocated w t v =
      decide_keeps allocated
        (record w { keep_running = false; consumer_active = update w.consumer_active id false }) t v

  verify_keeps :
      (slot : Option Message) (w : CondWorld) (t : CondConsumer)
      → CondInv grows w
      → TakenInv (CondConsumerPc.verifying slot)
      → GoesWell grows ThreadInv (some (consumer_cond_verify id slot w t))
  unfolding consumer_cond_verify
  verify_keeps none w t v h = absurd h
  verify_keeps (some m) w t v h = (
    _,
    _,
    refl,
    record {
      ring = v.ring;
      totals = v.totals;
      order = v.order;
      stamped = v.stamped;
      checked = AllTrue-append w.log.checks (hash_ok id m) v.checked ((==_iff _ _).1 h);
      idle = v.idle;
      safe = v.safe;
    },
    tt,
  )

  at_keeps :
      (pc : CondConsumerPc) (a : CondAnswers) (w : CondWorld) (t : CondConsumer)
      → CondInv grows w
      → TakenInv pc
      → GoesWell grows ThreadInv (consumer_cond_at id pc a w t)
  unfolding consumer_cond_at
  at_keeps CondConsumerPc.at_loop a w t v h =
      if_GoesWell grows (w.keep_running && w.consumer_active id) _ _ (λ _. (_, _, refl, v, tt))
        (λ _. (_, _, refl, v, tt))
  at_keeps CondConsumerPc.locking a w t v h = locked_keeps a.resize_memory w t v
  at_keeps CondConsumerPc.waiting a w t v h = waited_keeps a.wait a.resize_memory w t v
  at_keeps (CondConsumerPc.verifying slot) a w t v h = verify_keeps slot w t v h
  at_keeps CondConsumerPc.stopping a w t v h = (_, _, refl, v, tt)
  at_keeps CondConsumerPc.exited a w t v h = (_, _, refl, v, tt)

  -- A consumer's step from a good state ends in a good one.
  pub consumer_cond_step-GoesWell :
      (a : CondAnswers) (w : CondWorld) (t : CondConsumer)
      → CondInv grows w
      → ThreadInv t
      → GoesWell grows ThreadInv (consumer_cond_step id a w t)
  unfolding consumer_cond_step
  consumer_cond_step-GoesWell a w t v h = at_keeps t.pc a w t v h
