-- ===== src/Threads/Sem/Invariant/Consumers.antt =====
-- Each step of a consumer keeps the invariant of lab 5.1.
use osa_sp.Threads.Sem.Invariant.Defs.{Accounts, WorldInv, ConsumerInv, AllTrue-append}
use osa_sp.Base.{
  ℕ, ◌+◌, ◌<◌, ◌≤◌, ◌≡◌, ◌≢◌, inl, inr, refl, sym, ap, ◌∙◌, if◌then◌else◌, Bool, true, false, not,
  ◌&&◌, ◌||◌, Bool-cases, Option, none, some, [], ◌∷◌, ◌++◌, append_assoc, arith, ◌==◌, ==_iff, ℤ,
  pos, negsuc, is_zero, ℕ_discrete,
}
use mathlib.Core.Path.{subst}
use osa_sp.Threads.Message.{Message}
use osa_sp.Threads.Ring.Window.{contents}
use osa_sp.Threads.Ring.Fifo.{messages, extract_oldest}
use osa_sp.Threads.Ring.Resize.{contents-move_to, move_to-IsValid, move_to_fields}
use osa_sp.Threads.Sem.{QueueSem, resize_to, resize_queue_internal_sem}
use osa_sp.Threads.Sem.Producer.{Log, World, Wait, acquired, timed_out, failed, Answers}
use osa_sp.Threads.Sem.Consumer.{
  ConsumerPc, ConsumerThread, serve_request, consumer_at_loop, consumer_checking, consumer_waiting,
  consumer_admitted, record_extracted, consumer_extract, consumer_taking, hash_ok, consumer_posting,
  consumer_at, consumer_step,
}

-- A thread's step that ends well.
abbrev ConsumerGood : World × ConsumerThread → Type 0
ConsumerGood (w, t) = WorldInv w × ConsumerInv t.pc

if_good :
    (b : Bool) (x y : World × ConsumerThread)
    → ConsumerGood x
    → ConsumerGood y
    → ConsumerGood (if b then x else y)
if_good true x y p q = p
if_good false x y p q = q

abbrev QueueInv : QueueSem → Log → Type 0
QueueInv q log =
    Accounts q.ring q.total_added q.total_extracted log q.resize_request q.new_capacity_request

resize_to-QueueInv :
    (q : QueueSem) (log : Log) (n : ℕ)
    → QueueInv q log
    → q.ring.count < n
    → QueueInv (record (resize_to q n) { resize_request = pos 0 }) log
unfolding resize_to
resize_to-QueueInv q log n v h = record {
  valid = move_to-IsValid n v.valid h;
  totals = rw ((move_to_fields q.ring n).1) v.totals;
  order = rw (contents-move_to q.ring n (omega arith)) v.order;
  stamped = rw (contents-move_to q.ring n (omega arith)) v.stamped;
  checked = v.checked;
  grows = inl refl;
}

growing_outcome :
    (allocated : Bool) (q : QueueSem)
    → q.ring.count ≤ q.ring.capacity
    → resize_queue_internal_sem allocated q (pos (q.ring.capacity + 5))
      ≡ (if allocated then (pos 0, resize_to q (q.ring.capacity + 5)) else (negsuc 0, q))
unfolding resize_queue_internal_sem
growing_outcome true q h = ground arith
growing_outcome false q h = ground arith

outcome-QueueInv :
    (allocated : Bool) (q : QueueSem) (log : Log)
    → QueueInv q log
    → QueueInv
        (record (let (code, q') : ℤ × QueueSem =
            (if allocated then (pos 0, resize_to q (q.ring.capacity + 5)) else (negsuc 0, q)) in
          q') { resize_request = pos 0 })
        log
outcome-QueueInv true q log v =
    resize_to-QueueInv q log (q.ring.capacity + 5) v (omega (arith, v.valid.count_in))
outcome-QueueInv false q log v = record {
  valid = v.valid;
  totals = v.totals;
  order = v.order;
  stamped = v.stamped;
  checked = v.checked;
  grows = inl refl;
}

-- A pending resize that grows leaves good accounts, whether or not its `malloc` succeeds.
serve_request-QueueInv :
    (allocated : Bool) (q : QueueSem) (log : Log)
    → QueueInv q log
    → is_zero q.resize_request ≡ false
    → QueueInv (serve_request allocated q) log
unfolding serve_request
serve_request-QueueInv allocated q log v pending = elim v.grows [
  | inl idle ↦ cc (ap is_zero idle)
  | inr (up, target) ↦
      subst (λ (p : ℤ × QueueSem). QueueInv (record p.1 { resize_request = pos 0 }) log)
        (sym (growing_outcome allocated q v.valid.count_in)
          ∙ ap (resize_queue_internal_sem allocated q) (sym target))
        (outcome-QueueInv allocated q log v)
]

module _ (id : ℕ) where
  extract_keeps :
      (w : World) (t : ConsumerThread)
      → WorldInv w
      → w.queue.ring.count ≢ 0
      → (w' : World) × (t' : ConsumerThread) × (consumer_extract id w t ≡ some (w', t'))
        × WorldInv w'
        × ConsumerInv t'.pc
  unfolding consumer_extract
  extract_keeps w t v some_left =
      let (m, ring, done, valid, split, counted, same) = extract_oldest v.valid some_left in
      let parts : messages (contents w.queue.ring) ≡ m ∷ messages (contents ring) =
        ap messages split in
      (
        record_extracted id w (some m) ring,
        record t { pc = ConsumerPc.posting (some m) },
        rw (done, consumer_extract) refl,
        record {
          valid = valid;
          totals = omega (arith, v.totals);
          order =
              v.order
              ∙ ap (λ l. w.log.extracted ++ l) parts
              ∙ sym (append_assoc w.log.extracted (m ∷ []) (messages (contents ring)));
          stamped = (rw parts at v.stamped).1;
          checked = v.checked;
          grows = rw same v.grows;
        },
        (rw parts at v.stamped).0,
      )

  taking_keeps :
      (allocated : Bool) (w : World) (t : ConsumerThread)
      → WorldInv w
      → (w' : World) × (t' : ConsumerThread) × (consumer_taking id allocated w t ≡ some (w', t'))
        × WorldInv w'
        × ConsumerInv t'.pc
  unfolding consumer_taking
  taking_keeps allocated w t v = elim v.grows [
    | inl idle ↦ elim (ℕ_discrete w.queue.ring.count 0) [
      | yes empty ↦ (w, record t { pc = ConsumerPc.giving_back }, rw (idle, empty) refl, v, tt)
      | no some_left ↦
          let (w', t', done, good, ok) = extract_keeps w t v some_left in
          (w', t', ground (arith, done, idle), good, ok)
    ]
    | inr (up, target) ↦ (
      record w { queue = serve_request allocated w.queue },
      record t { pc = ConsumerPc.giving_back },
      rw up refl,
      serve_request-QueueInv allocated w.queue w.log v (ap is_zero up),
      tt,
    )
  ]

  checking_keeps :
      (allocated : Bool) (w : World) (t : ConsumerThread)
      → WorldInv w
      → ConsumerGood (consumer_checking id allocated w t)
  unfolding consumer_checking
  checking_keeps allocated w t v = elim (Bool-cases (is_zero w.queue.resize_request)) [
    | inl idle ↦ rw idle (v, tt)
    | inr pending ↦ rw pending (serve_request-QueueInv allocated w.queue w.log v pending, tt)
  ]

  waiting_keeps :
      (wait : Wait) (w : World) (t : ConsumerThread)
      → WorldInv w
      → ConsumerGood (consumer_waiting id wait w t)
  unfolding consumer_waiting
  waiting_keeps acquired w t v = if_good (w.queue.filled_slots == 0) _ _ (v, tt) (v, tt)
  waiting_keeps timed_out w t v =
      if_good (not w.keep_running || not (w.consumer_active id)) _ _ (v, tt) (v, tt)
  waiting_keeps failed w t v = (v, tt)

  at_loop_keeps :
      (w : World) (t : ConsumerThread) → WorldInv w → ConsumerGood (consumer_at_loop id w t)
  unfolding consumer_at_loop
  at_loop_keeps w t v = if_good (w.keep_running && w.consumer_active id) _ _ (v, tt) (v, tt)

  admitted_keeps :
      (w : World) (t : ConsumerThread) → WorldInv w → ConsumerGood (consumer_admitted id w t)
  unfolding consumer_admitted
  admitted_keeps w t v =
      if_good (not w.keep_running || not (w.consumer_active id)) _ _ (v, tt) (v, tt)

  posting_keeps :
      (slot : Option Message) (w : World) (t : ConsumerThread)
      → WorldInv w
      → ConsumerInv (ConsumerPc.posting slot)
      → ConsumerGood (consumer_posting id slot w t)
  unfolding consumer_posting
  posting_keeps none w t v h = absurd h
  posting_keeps (some m) w t v h = (
    record {
      valid = v.valid;
      totals = v.totals;
      order = v.order;
      stamped = v.stamped;
      checked = AllTrue-append w.log.checks (hash_ok id m) v.checked ((==_iff _ _).1 h);
      grows = v.grows;
    },
    tt,
  )

  at_keeps :
      (pc : ConsumerPc) (a : Answers) (w : World) (t : ConsumerThread)
      → WorldInv w
      → ConsumerInv pc
      → (w' : World) × (t' : ConsumerThread) × (consumer_at id pc a w t ≡ some (w', t'))
        × WorldInv w'
        × ConsumerInv t'.pc
  unfolding consumer_at
  at_keeps ConsumerPc.at_loop a w t v h =
      let (good, ok) = at_loop_keeps w t v in (_, _, refl, good, ok)
  at_keeps ConsumerPc.checking a w t v h =
      let (good, ok) = checking_keeps a.resize_memory w t v in (_, _, refl, good, ok)
  at_keeps ConsumerPc.waiting a w t v h =
      let (good, ok) = waiting_keeps a.wait w t v in (_, _, refl, good, ok)
  at_keeps ConsumerPc.admitted a w t v h =
      let (good, ok) = admitted_keeps w t v in (_, _, refl, good, ok)
  at_keeps ConsumerPc.taking a w t v h = taking_keeps a.resize_memory w t v
  at_keeps ConsumerPc.giving_back a w t v h = (_, _, refl, v, tt)
  at_keeps (ConsumerPc.posting slot) a w t v h =
      let (good, ok) = posting_keeps slot w t v h in (_, _, refl, good, ok)
  at_keeps ConsumerPc.stopping a w t v h = (_, _, refl, v, tt)
  at_keeps ConsumerPc.exited a w t v h = (_, _, refl, v, tt)

  -- A consumer's step from a good state succeeds, which includes that it stays inside the buffer, and
  -- keeps the invariant.
  pub consumer_step-keeps :
      (a : Answers) (w : World) (t : ConsumerThread)
      → WorldInv w
      → ConsumerInv t.pc
      → (w' : World) × (t' : ConsumerThread) × (consumer_step id a w t ≡ some (w', t'))
        × WorldInv w'
        × ConsumerInv t'.pc
  unfolding consumer_step
  consumer_step-keeps a w t v h = at_keeps t.pc a w t v h
