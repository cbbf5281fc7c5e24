-- ===== src/Threads/Cond/Queue.antt =====
-- The functions of queue_cond.c, branch by branch.
use osa_sp.Base.{
  ℕ, ◌+◌, ◌-◌, ◌≤◌, ◌<◌, ◌≡◌, ◌≢◌, ◌⊎◌, inl, inr, refl, sym, ap, Bool, true, false, Bool-cases,
  none, some, arith, ℤ, pos, negsuc, is_zero, nonpositive, pos_part, length, dec_lt, zero, suc,
}
use mathlib.Core.Path.{subst}
use osa_sp.Threads.Ring.{new_ring}
use osa_sp.Threads.Ring.Window.{contents, IsValid}
use osa_sp.Threads.Ring.Fifo.{new_ring-IsValid, messages, drain_frees_all, drain_empties}
use osa_sp.Threads.Ring.Mended.{IsMendable, move_to-IsMendable}
use osa_sp.Threads.Ring.Resize.{contents-move_to, move_to_fields}
use osa_sp.Threads.Cond.{
  QueueCond, CondResources, no_resources, fresh_queue_cond, init_queue_cond, resize_cond_to,
  resize_queue_internal_cond, request_resize_cond, destroy_queue_cond,
}

abbrev pub AllHeld : CondResources → Type 0
AllHeld ok =
    (ok.buffer ≡ true) × (ok.mutex ≡ true) × (ok.can_produce ≡ true) × (ok.can_consume ≡ true)

-- `init_queue_cond` returns 0 exactly when its four calls succeed. Then it holds all four resources and
-- the queue is valid and empty with no request and no resize; on every error it holds none.
pub init_queue_cond_outcome :
    (size : ℕ) (ok : CondResources)
    → 0 < size
    → (AllHeld ok
        × ((q : QueueCond) × (init_queue_cond size ok ≡ (pos 0, ok, some q))
            × IsValid q.ring
            × (q.ring.count ≡ 0)
            × (q.ring.capacity ≡ size)
            × (q.resize_request ≡ pos 0)
            × (q.resize_in_progress ≡ false)))
      ⊎ ((¬ AllHeld ok) × (init_queue_cond size ok ≡ (negsuc 0, no_resources, none)))
unfolding init_queue_cond
init_queue_cond_outcome size ok h = elim (Bool-cases ok.buffer) [
  | inr e ↦ inr (ground arith, ground arith)
  | inl a ↦ elim (Bool-cases ok.mutex) [
    | inr e ↦ inr (ground arith, ground arith)
    | inl b ↦ elim (Bool-cases ok.can_produce) [
      | inr e ↦ inr (ground arith, ground arith)
      | inl c ↦ elim (Bool-cases ok.can_consume) [
        | inr e ↦ inr (ground arith, ground arith)
        | inl d ↦ inl (
          (a, b, c, d),
          (fresh_queue_cond size, ground arith, new_ring-IsValid size h, refl, refl, refl, refl),
        )
      ]
    ]
  ]
]

-- What a resize refuses: a capacity that is not positive or below the count, or when `malloc` fails.
abbrev pub RefusesCond : Bool → QueueCond → ℤ → Type 0
RefusesCond allocated q z =
    (nonpositive z ≡ true) ⊎ (pos_part z < q.ring.count) ⊎ (allocated ≡ false)

-- With no resize in progress, `resize_queue_internal_cond` either refuses, returns -1 and leaves the
-- queue as it was, or `malloc` succeeded, the capacity is positive and the messages fit in it, and it
-- moves them and returns 0.
pub resize_cond_cases :
    (allocated : Bool) (q : QueueCond) (z : ℤ)
    → q.resize_in_progress ≡ false
    → (RefusesCond allocated q z × (resize_queue_internal_cond allocated q z ≡ (negsuc 0, q)))
      ⊎ ((n : ℕ) × (z ≡ pos n)
          × (0 < n)
          × (q.ring.count ≤ n)
          × (allocated ≡ true)
          × (resize_queue_internal_cond allocated q z ≡ (pos 0, resize_cond_to q n)))
unfolding resize_queue_internal_cond resize_cond_to
resize_cond_cases allocated q (negsuc n) idle = inl (inl refl, refl)
resize_cond_cases allocated q (pos n) idle = elim (Bool-cases (nonpositive (pos n))) [
  | inl e ↦ inl (inl e, ground arith)
  | inr e ↦ elim (dec_lt n q.ring.count) [
    | yes small ↦ inl (inr (inl small), ground arith)
    | no fits ↦ elim (Bool-cases allocated) [
      | inl a ↦ inr (n, refl, ground arith, omega arith, a, ground arith)
      | inr a ↦ inl (inr (inr a), ground (arith, same))
    ]
  ]
]
  where
    same : record q { resize_in_progress = false } ≡ q
    same = ap (λ b. record q { resize_in_progress = b }) (sym idle)

-- An accepted resize keeps every message in order, the totals and the request, sets the capacity, and
-- leaves a ring that is valid but for a tail that may stand at the capacity.
pub resize_cond_keeps :
    (q : QueueCond) (n : ℕ)
    → IsMendable q.ring
    → q.ring.count ≤ n
    → 0 < n
    → let (code, q') = resize_queue_internal_cond true q (pos n) in
      (code ≡ pos 0)
      × IsMendable q'.ring
      × (contents q'.ring ≡ contents q.ring)
      × (q'.ring.capacity ≡ n)
      × (q'.resize_in_progress ≡ false)
      × (q'.resize_request ≡ q.resize_request)
unfolding resize_queue_internal_cond resize_cond_to
resize_cond_keeps q zero v fits some_room = elim some_room [ ]
resize_cond_keeps q (suc n) v fits some_room = subst Kept (sym moved) (
  refl,
  move_to-IsMendable (suc n) v fits some_room,
  contents-move_to q.ring (suc n) fits,
  (move_to_fields q.ring (suc n)).0,
  refl,
  refl,
)
  where
    moved : resize_queue_internal_cond true q (pos (suc n)) ≡ (pos 0, resize_cond_to q (suc n))
    moved = ground (arith, fits)

    Kept : ℤ × QueueCond → Type 0
    Kept (code, q') =
        (code ≡ pos 0)
        × IsMendable q'.ring
        × (contents q'.ring ≡ contents q.ring)
        × (q'.ring.capacity ≡ suc n)
        × (q'.resize_in_progress ≡ false)
        × (q'.resize_request ≡ q.resize_request)

-- `destroy_queue_cond` of a valid queue frees each message in it once, oldest first, leaves no capacity
-- and no message, marks a resize as in progress for good and stops every thread.
pub destroy_cond_frees_all :
    (q : QueueCond)
    → IsValid q.ring
    → let (freed, left, keep_running) = destroy_queue_cond q in
      (freed ≡ messages (contents q.ring))
      × (length freed ≡ q.ring.count)
      × (left ≡ record q { ring = new_ring 0; resize_request = pos 0; resize_in_progress = true })
      × (keep_running ≡ false)
unfolding destroy_queue_cond
destroy_cond_frees_all q v = (
  (drain_frees_all v).0,
  (drain_frees_all v).1,
  ap (λ r. record q { ring = r; resize_request = pos 0; resize_in_progress = true })
      (drain_empties q.ring),
  refl,
)

-- `request_resize_cond` while a resize is in progress or asked for changes nothing. Else `+` asks for
-- five slots more, and `-` for five fewer if that leaves a slot; if not it changes nothing.
pub request_resize_cond_cases :
    (up : Bool) (q : QueueCond)
    → (((q.resize_request ≢ pos 0) ⊎ (q.resize_in_progress ≡ true))
        × (request_resize_cond up q ≡ q))
      ⊎ ((up ≡ true)
          × (request_resize_cond up q ≡ record q {
            new_capacity_request = pos (q.ring.capacity + 5);
            resize_request = pos 1;
          }))
      ⊎ ((up ≡ false)
          × (5 < q.ring.capacity)
          × (request_resize_cond up q ≡ record q {
            new_capacity_request = pos (q.ring.capacity - 5);
            resize_request = negsuc 0;
          }))
      ⊎ ((up ≡ false) × (q.ring.capacity ≤ 5) × (request_resize_cond up q ≡ q))
unfolding request_resize_cond
request_resize_cond_cases up q = elim (Bool-cases (is_zero q.resize_request)) [
  | inr pending ↦ inl (inl (ground arith), ground arith)
  | inl free ↦ elim (Bool-cases q.resize_in_progress) [
    | inl busy ↦ inl (inr busy, ground arith)
    | inr idle ↦ elim (Bool-cases up) [
      | inl plus ↦ inr (inl (plus, ground arith))
      | inr minus ↦ elim (dec_lt 5 q.ring.capacity) [
        | yes room ↦ inr (inr (inl (minus, room, ground arith)))
        | no small ↦ inr (inr (inr (minus, omega arith, ground arith)))
      ]
    ]
  ]
]
