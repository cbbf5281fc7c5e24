-- ===== src/Threads/Cond/Invariant/Producers.antt =====
-- Each step of a producer of lab 5.2 keeps the invariant.
use osa_sp.Threads.Cond.Invariant.Defs.{CondInv, Ends, Safe}
use osa_sp.Base.{
  ℕ, ◌+◌, ◌<◌, ◌≡◌, inl, inr, refl, sym, ap, ◌∙◌, Bool, true, false, not, ◌&&◌, ◌||◌, if◌then◌else◌,
  Option, none, some, [], ◌∷◌, ◌++◌, append_assoc, arith, dec_lt, update,
}
use osa_sp.Threads.Message.{Message, create_message}
use osa_sp.Threads.Ring.{Ring}
use osa_sp.Threads.Ring.Window.{contents, IsValid}
use osa_sp.Threads.Ring.Fifo.{messages, put_appends}
use osa_sp.Threads.Ring.Mended.{IsMendable-IsValid, IsValid-IsMendable, put_overruns}
use osa_sp.Threads.Sem.Invariant.{
  IsStamped, IsCreated, create_message-IsCreated, messages-append, AreStamped-append,
}
use osa_sp.Threads.Cond.{QueueCond}
use osa_sp.Threads.Cond.Producer.{
  CondWorld, CondWait, woken, timed_out, failed, CondAnswers, CondProducerPc, CondProducer,
  producer_blocked, record_added_cond, producer_cond_put, producer_cond_decide, producer_cond_test,
  producer_cond_waited, producer_cond_at, producer_cond_step,
}

-- Nothing is asked of a producer's own fields.
abbrev Free : CondProducer → Type 0
Free t = Unit

if_Ends :
    (q : QueueCond) (grows b : Bool) (x y : Option (CondWorld × CondProducer))
    → Ends grows q Free x
    → (b ≡ false → Ends grows q Free y)
    → Ends grows q Free (if b then x else y)
if_Ends q grows true x y h k = h
if_Ends q grows false x y h k = k refl

module _ (rand_r : ℕ → ℕ × ℕ) (id : ℕ) (grows : Bool) where
  added_keeps :
      (m : Message) (w : CondWorld) (ring : Ring Message)
      → CondInv grows w
      → IsStamped m
      → IsValid ring
      → contents ring ≡ contents w.queue.ring ++ (some m ∷ [])
      → ring.count ≡ w.queue.ring.count + 1
      → ring.capacity ≡ w.queue.ring.capacity
      → CondInv grows (record_added_cond rand_r id w m ring)
  added_keeps m w ring v h valid longer counted same =
      let (mendable, inside) = IsValid-IsMendable valid in
      record {
        ring = mendable;
        totals = omega (arith, v.totals);
        order =
            ap (λ l. l ++ (m ∷ [])) v.order
            ∙ append_assoc w.log.extracted (messages (contents w.queue.ring)) (m ∷ [])
            ∙ ap (λ l. w.log.extracted ++ l) (sym more);
        stamped = rw more (AreStamped-append _ m v.stamped h);
        checked = v.checked;
        idle = v.idle;
        safe = still grows inside v.safe;
      }
    where
      more : messages (contents ring) ≡ messages (contents w.queue.ring) ++ (m ∷ [])
      more = ap messages longer ∙ messages-append (contents w.queue.ring) m

      still :
          (g : Bool)
          → ring.tail < ring.capacity
          → Safe g w.queue
          → Safe g (record w.queue { ring = ring; total_added = w.queue.total_added + 1 })
      still true inside s = (inside, rw same s.1)
      still false inside s = tt

  put_keeps :
      (made : Option Message × ℕ) (w : CondWorld) (t : CondProducer)
      → CondInv grows w
      → IsCreated made.0
      → w.queue.ring.count < w.queue.ring.capacity
      → Ends grows w.queue Free (producer_cond_put rand_r id made w t)
  unfolding producer_cond_put
  put_keeps (none, seed) w t v c room = inr (_, _, refl, v, tt)
  put_keeps (some m, seed) w t v c room = elim (dec_lt w.queue.ring.tail w.queue.ring.capacity) [
    | yes inside ↦
        let (ring, done, valid, longer, counted, same) =
          put_appends m (IsMendable-IsValid v.ring inside) room in
        inr (
          record_added_cond rand_r id w m ring,
          record t {
            pc = CondProducerPc.at_loop;
            seed = (rand_r seed).1;
            messages_produced = t.messages_produced + 1;
          },
          rw (done, producer_cond_put) refl,
          added_keeps m w ring v c valid longer counted same,
          tt,
        )
    | no past ↦ inl (
      unsafe grows v.safe past,
      omega (arith, v.ring.tail_in),
      rw (put_overruns m v.ring (omega arith), producer_cond_put) refl,
    )
  ]
    where
      unsafe :
          (g : Bool) → Safe g w.queue → ¬ (w.queue.ring.tail < w.queue.ring.capacity) → g ≡ false
      unsafe true s past = absurd (past s.0)
      unsafe false s past = refl

  decide_keeps :
      (memory : Option (ℕ → ℕ)) (w : CondWorld) (t : CondProducer)
      → CondInv grows w
      → Ends grows w.queue Free (producer_cond_decide rand_r id memory w t)
  unfolding producer_cond_decide
  decide_keeps memory w t v =
      if_Ends w.queue grows (not w.keep_running || not (w.producer_active id)) _ _
        (inr (_, _, refl, v, tt))
        (λ _.
          if_Ends w.queue grows (producer_blocked w.queue) _ _ (inr (_, _, refl, v, tt)) (λ free.
            put_keeps (create_message rand_r memory t.seed) w t v
              (create_message-IsCreated rand_r memory t.seed)
              (ground (arith, free, v.ring.valid.count_in))))

  test_keeps :
      (memory : Option (ℕ → ℕ)) (w : CondWorld) (t : CondProducer)
      → CondInv grows w
      → Ends grows w.queue Free (producer_cond_test rand_r id memory w t)
  unfolding producer_cond_test
  test_keeps memory w t v =
      if_Ends w.queue grows (producer_blocked w.queue && w.keep_running && w.producer_active id) _ _
        (inr (_, _, refl, v, tt)) (λ _. decide_keeps memory w t v)

  waited_keeps :
      (wait : CondWait) (memory : Option (ℕ → ℕ)) (w : CondWorld) (t : CondProducer)
      → CondInv grows w
      → Ends grows w.queue Free (producer_cond_waited rand_r id wait memory w t)
  unfolding producer_cond_waited
  waited_keeps woken memory w t v = test_keeps memory w t v
  waited_keeps timed_out memory w t v = decide_keeps memory w t v
  waited_keeps failed memory w t v =
      decide_keeps memory
        (record w { keep_running = false; producer_active = update w.producer_active id false }) t v

  at_keeps :
      (pc : CondProducerPc) (a : CondAnswers) (w : CondWorld) (t : CondProducer)
      → CondInv grows w
      → Ends grows w.queue Free (producer_cond_at rand_r id pc a w t)
  unfolding producer_cond_at
  at_keeps CondProducerPc.at_loop a w t v =
      if_Ends w.queue grows (w.keep_running && w.producer_active id) _ _ (inr (_, _, refl, v, tt))
        (λ _. inr (_, _, refl, v, tt))
  at_keeps CondProducerPc.locking a w t v = test_keeps a.memory w t v
  at_keeps CondProducerPc.waiting a w t v = waited_keeps a.wait a.memory w t v
  at_keeps CondProducerPc.stopping a w t v = inr (_, _, refl, v, tt)
  at_keeps CondProducerPc.exited a w t v = inr (_, _, refl, v, tt)

  -- A producer's step from a good state ends in a good one, or it writes just behind the buffer.
  pub producer_cond_step-Ends :
      (a : CondAnswers) (w : CondWorld) (t : CondProducer)
      → CondInv grows w
      → Ends grows w.queue (λ (_ : CondProducer). Unit) (producer_cond_step rand_r id a w t)
  unfolding producer_cond_step
  producer_cond_step-Ends a w t v = at_keeps t.pc a w t v
