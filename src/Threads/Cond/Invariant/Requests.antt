-- ===== src/Threads/Cond/Invariant/Requests.antt =====
-- What a request of `main` for a larger or a smaller queue does to the invariant of lab 5.2.
use osa_sp.Base.{◌+◌, ◌≡◌, inl, inr, refl, Bool, true, false, List, [], ◌∷◌, pos, negsuc, ℤ, ◌-◌}
use osa_sp.Threads.Cond.{request_resize_cond}
use osa_sp.Threads.Cond.Queue.{request_resize_cond_cases}
use osa_sp.Threads.Cond.Producer.{CondWorld}
use osa_sp.Threads.Cond.System.{CondAction, request}
use osa_sp.Threads.Cond.Invariant.Defs.{CondInv, Safe}

-- In the runs that only grow, an action asks for no smaller queue.
abbrev pub Allowed : Bool → CondAction → Type 0
Allowed true (request false) = ⊥
Allowed _ _ = Unit

abbrev pub AllAllowed : Bool → List CondAction → Type 0
AllAllowed grows [] = Unit
AllAllowed grows (a ∷ rest) = Allowed grows a × AllAllowed grows rest

-- A request changes the request and its target alone.
pub request_keeps :
    (grows up : Bool) (w : CondWorld)
    → CondInv grows w
    → Allowed grows (request up)
    → CondInv grows (record w { queue = request_resize_cond up w.queue })
request_keeps grows up w v allowed = elim (request_resize_cond_cases up w.queue) [
  | inl (_, same) ↦ rw same v
  | inr (inl (plus, asked)) ↦
      rw asked (asks (pos 1) (pos (w.queue.ring.capacity + 5)) (larger grows v.safe))
  | inr (inr (inl (minus, _, asked))) ↦ rw asked (asks _ _ (smaller grows up minus allowed))
  | inr (inr (inr (_, _, same))) ↦ rw same v
]
  where
    asks :
        (r z : ℤ)
        → Safe grows (record w.queue { new_capacity_request = z; resize_request = r })
        → CondInv grows
            (record w { queue = record w.queue { new_capacity_request = z; resize_request = r } })
    asks r z s = record {
      ring = v.ring;
      totals = v.totals;
      order = v.order;
      stamped = v.stamped;
      checked = v.checked;
      idle = v.idle;
      safe = s;
    }

    larger :
        (g : Bool)
        → Safe g w.queue
        → Safe g (record w.queue {
          new_capacity_request = pos (w.queue.ring.capacity + 5);
          resize_request = pos 1;
        })
    larger true s = (s.0, inr (refl, refl))
    larger false s = tt

    smaller :
        (g u : Bool)
        → u ≡ false
        → Allowed g (request u)
        → Safe g (record w.queue {
          new_capacity_request = pos (w.queue.ring.capacity - 5);
          resize_request = negsuc 0;
        })
    smaller true true e a = cc e
    smaller true false e a = absurd a
    smaller false u e a = tt
