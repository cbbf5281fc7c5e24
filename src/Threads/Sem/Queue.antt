-- ===== src/Threads/Sem/Queue.antt =====
-- The functions of queue_sem.c, branch by branch.
use osa_sp.Base.{
  ℕ, ◌+◌, ◌-◌, ◌≤◌, ◌<◌, ◌≡◌, ◌≢◌, ◌⊎◌, inl, inr, refl, sym, ap, ◌∙◌, Bool, true, false, Bool-cases,
  none, some, arith, ℤ, pos, negsuc, is_zero, nonpositive, pos_part, length, dec_lt,
}
use osa_sp.Threads.Ring.{new_ring}
use osa_sp.Threads.Ring.Window.{contents, IsValid}
use osa_sp.Threads.Ring.Fifo.{new_ring-IsValid, messages, drain_frees_all, drain_empties}
use osa_sp.Threads.Ring.Resize.{contents-move_to, move_to-IsValid, move_to_fields, move_to_tail_at}
use osa_sp.Threads.Semaphore.{sem_value_max, post_loop_lem, trywait_loop_lem}
use osa_sp.Threads.Sem.{
  QueueSem, Resources, nothing_held, fresh_queue, init_queue_sem, resize_to,
  resize_queue_internal_sem, request_resize_sem, destroy_queue_sem,
}

abbrev pub AllOk : Resources → Type 0
AllOk ok =
    (ok.buffer ≡ true) × (ok.mutex ≡ true) × (ok.empty_slots ≡ true) × (ok.filled_slots ≡ true)

-- `init_queue_sem` returns 0 exactly when its four calls succeed. Then it holds all four resources and
-- the queue is valid and empty with `size` free slots; on every error it holds none.
pub init_queue_sem_outcome :
    (size : ℕ) (ok : Resources)
    → 0 < size
    → (AllOk ok
        × ((q : QueueSem) × (init_queue_sem size ok ≡ (pos 0, ok, some q))
            × IsValid q.ring
            × (q.ring.count ≡ 0)
            × (q.ring.capacity ≡ size)
            × (q.empty_slots ≡ size)
            × (q.filled_slots ≡ 0)
            × (q.resize_request ≡ pos 0)))
      ⊎ ((¬ AllOk ok) × (init_queue_sem size ok ≡ (negsuc 0, nothing_held, none)))
unfolding init_queue_sem
init_queue_sem_outcome size ok h = elim (Bool-cases ok.buffer) [
  | inr e ↦ inr (ground arith, ground arith)
  | inl a ↦ elim (Bool-cases ok.mutex) [
    | inr e ↦ inr (ground arith, ground arith)
    | inl b ↦ elim (Bool-cases ok.empty_slots) [
      | inr e ↦ inr (ground arith, ground arith)
      | inl c ↦ elim (Bool-cases ok.filled_slots) [
        | inr e ↦ inr (ground arith, ground arith)
        | inl d ↦ inl (
          (a, b, c, d),
          (fresh_queue size, ground arith, new_ring-IsValid size h, refl, refl, refl, refl, refl),
        )
      ]
    ]
  ]
]

-- What a resize refuses: a capacity that is not positive or below the count, or when `malloc` fails.
abbrev pub Refuses : Bool → QueueSem → ℤ → Type 0
Refuses allocated q z = (nonpositive z ≡ true) ⊎ (pos_part z < q.ring.count) ⊎ (allocated ≡ false)

-- `resize_queue_internal_sem` that refuses returns -1 and leaves the queue as it was.
pub resize_refused :
    (allocated : Bool) (q : QueueSem) (z : ℤ)
    → Refuses allocated q z
    → resize_queue_internal_sem allocated q z ≡ (negsuc 0, q)
unfolding resize_queue_internal_sem
resize_refused allocated q (pos n) r = ground arith
resize_refused allocated q (negsuc n) r = refl

-- Every resize of a valid queue that is accepted, to a positive capacity that is not below the count,
-- returns 0, keeps every message in order, sets the capacity, and leaves `filled_slots` alone. With a
-- slot to spare the ring stays valid; when the messages fill the new buffer exactly, `tail` stands
-- behind its end.
pub resize_accepted :
    (q : QueueSem) (n : ℕ)
    → IsValid q.ring
    → 0 < n
    → q.ring.count ≤ n
    → (q' : QueueSem) × (resize_queue_internal_sem true q (pos n) ≡ (pos 0, q'))
      × (contents q'.ring ≡ contents q.ring)
      × (q'.ring.capacity ≡ n)
      × (q'.filled_slots ≡ q.filled_slots)
      × (((q.ring.count < n) × IsValid q'.ring)
          ⊎ ((q.ring.count ≡ n) × (q'.ring.tail ≡ q'.ring.capacity)))
unfolding resize_queue_internal_sem resize_to
resize_accepted q n v some_room room = (
  resize_to q n,
  ground arith,
  contents-move_to q.ring n room,
  (move_to_fields q.ring n).0,
  refl,
  elim (dec_lt q.ring.count n) [
    | yes spare ↦ inl (spare, move_to-IsValid n v spare)
    | no full ↦
        let exact : q.ring.count ≡ n = omega (arith, full, room) in
        inr (exact, move_to_tail_at q.ring n ∙ exact ∙ sym (move_to_fields q.ring n).0)
  ],
)

-- If the free slots that `empty_slots` counts and the messages make up the old capacity, then after an
-- accepted resize they make up the new one, up or down.
pub resize_keeps_balance :
    (q : QueueSem) (n : ℕ)
    → q.empty_slots + q.ring.count ≡ q.ring.capacity
    → 0 < n
    → q.ring.count ≤ n
    → n ≤ sem_value_max
    → let (code, q') = resize_queue_internal_sem true q (pos n) in
      (code ≡ pos 0) × (q'.empty_slots + q'.ring.count ≡ n) × (q'.ring.capacity ≡ n)
unfolding resize_queue_internal_sem resize_to
resize_keeps_balance q n balanced some_room room small = ground (
  arith,
  move_to_fields q.ring n,
  post_loop_lem (n - q.ring.capacity) q.empty_slots,
  trywait_loop_lem (q.ring.capacity - n) q.empty_slots,
)

-- `destroy_queue_sem` of a valid queue frees each message in it once, oldest first, and leaves the
-- queue with no capacity and no message.
pub destroy_frees_all :
    (q : QueueSem)
    → IsValid q.ring
    → let (freed, left) = destroy_queue_sem q in
      (freed ≡ messages (contents q.ring))
      × (length freed ≡ q.ring.count)
      × (left ≡ record q { ring = new_ring 0 })
unfolding destroy_queue_sem
destroy_frees_all q v = (
  (drain_frees_all v).0,
  (drain_frees_all v).1,
  ap (λ r. record q { ring = r }) (drain_empties q.ring),
)

-- `request_resize_sem` with no request pending: `+` always asks for five slots more; `-` asks for five
-- fewer if that leaves a slot, else it changes nothing. With a request pending it changes nothing.
pub request_resize_cases :
    (up : Bool) (q : QueueSem)
    → ((q.resize_request ≢ pos 0) × (request_resize_sem up q ≡ q))
      ⊎ ((up ≡ true)
          × (request_resize_sem up q ≡ record q {
            new_capacity_request = pos (q.ring.capacity + 5);
            resize_request = pos 1;
          }))
      ⊎ ((up ≡ false)
          × (5 < q.ring.capacity)
          × (request_resize_sem up q ≡ record q {
            new_capacity_request = pos (q.ring.capacity - 5);
            resize_request = negsuc 0;
          }))
      ⊎ ((up ≡ false) × (q.ring.capacity ≤ 5) × (request_resize_sem up q ≡ q))
unfolding request_resize_sem
request_resize_cases up q = elim (Bool-cases (is_zero q.resize_request)) [
  | inr pending ↦ inl (ground arith, ground arith)
  | inl free ↦ elim (Bool-cases up) [
    | inl plus ↦ inr (inl (plus, ground arith))
    | inr minus ↦ elim (dec_lt 5 q.ring.capacity) [
      | yes room ↦ inr (inr (inl (minus, room, ground arith)))
      | no small ↦ inr (inr (inr (minus, omega arith, ground arith)))
    ]
  ]
]
