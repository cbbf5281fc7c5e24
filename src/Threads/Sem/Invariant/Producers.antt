-- ===== src/Threads/Sem/Invariant/Producers.antt =====
-- Each step of a producer keeps the invariant of lab 5.1.
use osa_sp.Threads.Sem.Invariant.Defs.{
  IsStamped, WorldInv, ProducerInv, messages-append, AreStamped-append,
}
use osa_sp.Base.{
  ℕ, ◌≡◌, inl, inr, refl, sym, ap, ◌∙◌, if◌then◌else◌, Bool, true, false, not, ◌&&◌, ◌||◌,
  Bool-cases, Option, none, some, [], ◌∷◌, ◌++◌, append_assoc, arith, leb, ◌==◌, is_zero,
}
use mathlib.Core.Path.{subst}
use osa_sp.Threads.Message.{Message, create_message}
use osa_sp.Threads.Message.Create.{create_message-IsValid, create_message-none}
use osa_sp.Threads.Ring.{Ring}
use osa_sp.Threads.Ring.Window.{contents}
use osa_sp.Threads.Ring.Fifo.{messages, put_appends}
use osa_sp.Threads.Sem.Producer.{
  World, Wait, acquired, timed_out, failed, Answers, ProducerPc, ProducerThread, record_added,
  producer_at_loop, producer_waiting, producer_created, producer_admitted, producer_holding,
  producer_at, producer_step,
}

-- What `create_message` hands out is stamped.
abbrev pub IsCreated : Option Message → Type 0
IsCreated none = Unit
IsCreated (some m) = IsStamped m

pub create_message-IsCreated :
    (rand_r : ℕ → ℕ × ℕ) (memory : Option (ℕ → ℕ)) (seed : ℕ)
    → IsCreated (create_message rand_r memory seed).0
create_message-IsCreated rand_r none seed =
    subst IsCreated (sym (ap (λ p. p.0) (create_message-none rand_r seed))) tt
create_message-IsCreated rand_r (some junk) seed =
    let (m, made, valid, padding, stamped) = create_message-IsValid rand_r junk seed in
    subst IsCreated (sym made) stamped

-- A thread's step that ends well.
abbrev ProducerGood : World × ProducerThread → Type 0
ProducerGood (w, t) = WorldInv w × ProducerInv t.pc

if_good :
    (b : Bool) (x y : World × ProducerThread)
    → ProducerGood x
    → ProducerGood y
    → ProducerGood (if b then x else y)
if_good true x y p q = p
if_good false x y p q = q

module _ (rand_r : ℕ → ℕ × ℕ) (id : ℕ) where
  holding_keeps :
      (m : Message) (a : Answers) (w : World) (t : ProducerThread)
      → WorldInv w
      → IsStamped m
      → (w' : World) × (t' : ProducerThread) × (producer_holding rand_r id m w t ≡ some (w', t'))
        × WorldInv w'
        × ProducerInv t'.pc
  unfolding producer_holding
  holding_keeps m a w t v h = elim (Bool-cases busy) [
    | inl e ↦ (w, record t { pc = ProducerPc.giving_back }, rw e refl, v, tt)
    | inr e ↦
        let (ring, done, valid, longer, counted, same) = put_appends m v.valid (ground arith) in
        (
          record_added rand_r id w m ring,
          record t { pc = ProducerPc.posting },
          rw (e, done) refl,
          record {
            valid = valid;
            totals = omega (arith, v.totals);
            order =
                ap (λ l. l ++ (m ∷ [])) v.order
                ∙ append_assoc w.log.extracted (messages (contents w.queue.ring)) (m ∷ [])
                ∙ ap (λ l. w.log.extracted ++ l) (sym (more ring longer));
            stamped = rw (more ring longer) (AreStamped-append _ m v.stamped h);
            checked = v.checked;
            grows = rw same v.grows;
          },
          tt,
        )
  ]
    where
      more :
          (ring : Ring Message)
          → contents ring ≡ contents w.queue.ring ++ (some m ∷ [])
          → messages (contents ring) ≡ messages (contents w.queue.ring) ++ (m ∷ [])
      more ring longer = ap messages longer ∙ messages-append (contents w.queue.ring) m

      busy : Bool
      busy = leb w.queue.ring.capacity w.queue.ring.count || not (is_zero w.queue.resize_request)

  created_keeps :
      (made : Option Message × ℕ) (w : World) (t : ProducerThread)
      → WorldInv w
      → IsCreated made.0
      → ProducerGood (producer_created rand_r id made w t)
  unfolding producer_created
  created_keeps (none, seed) w t v c = (v, tt)
  created_keeps (some m, seed) w t v c = (v, c)

  waiting_keeps :
      (wait : Wait) (w : World) (t : ProducerThread)
      → WorldInv w
      → ProducerGood (producer_waiting rand_r id wait w t)
  unfolding producer_waiting
  waiting_keeps acquired w t v = if_good (w.queue.empty_slots == 0) _ _ (v, tt) (v, tt)
  waiting_keeps timed_out w t v =
      if_good (not w.keep_running || not (w.producer_active id)) _ _ (v, tt) (v, tt)
  waiting_keeps failed w t v = (v, tt)

  at_loop_keeps :
      (w : World) (t : ProducerThread) → WorldInv w → ProducerGood (producer_at_loop rand_r id w t)
  unfolding producer_at_loop
  at_loop_keeps w t v =
      if_good (w.keep_running && w.producer_active id) _ _
        (if_good (is_zero w.queue.resize_request) _ _ (v, tt) (v, tt)) (v, tt)

  admitted_keeps :
      (memory : Option (ℕ → ℕ)) (w : World) (t : ProducerThread)
      → WorldInv w
      → ProducerGood (producer_admitted rand_r id memory w t)
  unfolding producer_admitted
  admitted_keeps memory w t v =
      if_good (not w.keep_running || not (w.producer_active id)) _ _ (v, tt)
        (created_keeps (create_message rand_r memory t.seed) w t v
          (create_message-IsCreated rand_r memory t.seed))

  at_keeps :
      (pc : ProducerPc) (a : Answers) (w : World) (t : ProducerThread)
      → WorldInv w
      → ProducerInv pc
      → (w' : World) × (t' : ProducerThread) × (producer_at rand_r id pc a w t ≡ some (w', t'))
        × WorldInv w'
        × ProducerInv t'.pc
  unfolding producer_at
  at_keeps ProducerPc.at_loop a w t v h =
      let (good, ok) = at_loop_keeps w t v in (_, _, refl, good, ok)
  at_keeps ProducerPc.waiting a w t v h =
      let (good, ok) = waiting_keeps a.wait w t v in (_, _, refl, good, ok)
  at_keeps ProducerPc.admitted a w t v h =
      let (good, ok) = admitted_keeps a.memory w t v in (_, _, refl, good, ok)
  at_keeps (ProducerPc.holding m) a w t v h = holding_keeps m a w t v h
  at_keeps ProducerPc.giving_back a w t v h = (_, _, refl, v, tt)
  at_keeps ProducerPc.posting a w t v h = (_, _, refl, v, tt)
  at_keeps ProducerPc.stopping a w t v h = (_, _, refl, v, tt)
  at_keeps ProducerPc.exited a w t v h = (_, _, refl, v, tt)

  -- A producer's step from a good state succeeds, which includes that it stays inside the buffer, and
  -- keeps the invariant.
  pub producer_step-keeps :
      (a : Answers) (w : World) (t : ProducerThread)
      → WorldInv w
      → ProducerInv t.pc
      → (w' : World) × (t' : ProducerThread) × (producer_step rand_r id a w t ≡ some (w', t'))
        × WorldInv w'
        × ProducerInv t'.pc
  unfolding producer_step
  producer_step-keeps a w t v h = at_keeps t.pc a w t v h
