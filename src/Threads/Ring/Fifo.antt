-- ===== src/Threads/Ring/Fifo.antt =====
-- The ring as a first-in first-out queue of messages.
use osa_sp.Base.{
  ℕ, zero, suc, ◌+◌, ◌-◌, ◌%◌, ◌<◌, ◌≡◌, ◌≢◌, refl, ap, ◌∙◌, Option, none, some, List, [], ◌∷◌,
  ◌++◌, arith, window, window_put, window_of_ne_zero, length-window, advance, next_start, length,
  length-set, length-replicate, get_or, set,
}
use osa_sp.Threads.Ring.{Ring, new_ring, put, extract, drain_loop, drain}
use osa_sp.Threads.Ring.Window.{
  contents, IsValid, AreWritten, AreWritten-append, first_written, rest_written,
}

module _ {ℓ} {A : Type ℓ} where
  -- `init_queue_*` makes a valid empty ring.
  pub new_ring-IsValid : (size : ℕ) → 0 < size → IsValid (new_ring {A = A} size)
  new_ring-IsValid size h = record {
    allocated = length-replicate size none;
    head_in = h;
    count_in = omega arith;
    tail_at = omega arith;
    written = tt;
  }

  -- A producer's write into a valid ring that is not full stays inside the buffer, keeps the ring
  -- valid, and appends the message.
  pub put_appends :
      {q : Ring A} (m : A)
      → IsValid q
      → q.count < q.capacity
      → (q' : Ring A) × (put q m ≡ some q')
        × IsValid q'
        × (contents q' ≡ contents q ++ (some m ∷ []))
        × (q'.count ≡ q.count + 1)
        × (q'.capacity ≡ q.capacity)
  unfolding put
  put_appends {q} m v room = (
    q',
    ground (arith, inside),
    record {
      allocated = length-set q.buffer q.tail (some m) ∙ v.allocated;
      head_in = v.head_in;
      count_in = omega arith;
      tail_at = omega (arith, next_tail);
      written = rw (longer) (AreWritten-append (contents q) m v.written);
    },
    longer,
    refl,
    refl,
  )
    where
      q' : Ring A
      q' = record q {
        buffer = set q.buffer q.tail (some m);
        tail = (q.tail + 1) % q.capacity;
        count = q.count + 1;
      }

      inside : q.tail < length q.buffer
      inside = omega (arith, v.allocated, v.tail_at, v.head_in)

      next_tail : (q.tail + 1) % q.capacity ≡ (q.head + (q.count + 1)) % q.capacity
      next_tail = ap (λ (t : ℕ). (t + 1) % q.capacity) v.tail_at ∙ advance q.capacity q.head q.count

      longer : contents q' ≡ contents q ++ (some m ∷ [])
      longer =
          ap (window none (set q.buffer q.tail (some m)) q.capacity q.head)
            (let e : q.count + 1 ≡ suc q.count = omega arith in e)
          ∙ window_put none q.count q.buffer q.capacity q.head q.tail (some m) v.allocated v.head_in
              room v.tail_at

  -- A consumer's read from a valid ring that is not empty stays inside the buffer, keeps the ring
  -- valid, and takes the oldest message.
  pub extract_oldest :
      {q : Ring A}
      → IsValid q
      → q.count ≢ 0
      → (m : A) × (q' : Ring A) × (extract q ≡ some (some m, q'))
        × IsValid q'
        × (contents q ≡ some m ∷ contents q')
        × (q'.count + 1 ≡ q.count)
        × (q'.capacity ≡ q.capacity)
  unfolding extract
  extract_oldest {q} v some_left =
      let (m, at) = first_written (get_or q.buffer q.head none) (contents q') filled in
      (
        m,
        q',
        ground (arith, at, inside),
        record {
          allocated = v.allocated;
          head_in = omega arith;
          count_in = omega arith;
          tail_at = v.tail_at ∙ same_tail;
          written = rest_written (get_or q.buffer q.head none) (contents q') filled;
        },
        split ∙ ap (λ x. x ∷ contents q') at,
        omega arith,
        refl,
      )
    where
      q' : Ring A
      q' = record q { head = (q.head + 1) % q.capacity; count = q.count - 1 }

      inside : q.head < length q.buffer
      inside = omega (arith, v.allocated, v.head_in)

      split : contents q ≡ get_or q.buffer q.head none ∷ contents q'
      split = window_of_ne_zero none q.buffer q.capacity q.head q.count some_left

      filled : AreWritten (get_or q.buffer q.head none ∷ contents q')
      filled = rw split at v.written

      same_tail :
          (q.head + q.count) % q.capacity ≡ ((q.head + 1) % q.capacity + (q.count - 1)) % q.capacity
      same_tail =
          ap (λ (n : ℕ). (q.head + n) % q.capacity)
            (let e : q.count ≡ suc (q.count - 1) = omega arith in e)
          ∙ next_start q.capacity q.head (q.count - 1)

  -- The messages in a list of written slots.
  abbrev pub messages : List (Option A) → List A
  messages [] = []
  messages (none ∷ xs) = messages xs
  messages (some m ∷ xs) = m ∷ messages xs

  drain_loop_lem :
      (buffer : List (Option A)) (cap n h : ℕ)
      → drain_loop buffer cap n h ≡ messages (window none buffer cap h n)
  unfolding drain_loop
  drain_loop_lem buffer cap zero h = refl
  drain_loop_lem buffer cap (suc n) h = ground (arith, drain_loop_lem buffer cap n ((h + 1) % cap))

  length-messages : (xs : List (Option A)) → AreWritten xs → length (messages xs) ≡ length xs
  length-messages [] w = refl
  length-messages (none ∷ xs) w = absurd w
  length-messages (some m ∷ xs) w = ap suc (length-messages xs w)

  -- `destroy_queue_*` of a valid ring frees every message that is in the queue, each once and the
  -- oldest first.
  pub drain_frees_all :
      {q : Ring A}
      → IsValid q
      → ((drain q).0 ≡ messages (contents q)) × (length (drain q).0 ≡ q.count)
  unfolding drain
  drain_frees_all {q} v =
      let same = drain_loop_lem q.buffer q.capacity q.count q.head in
      (
        same,
        ap length same
            ∙ length-messages (contents q) v.written
            ∙ length-window none q.buffer q.capacity q.head q.count,
      )

  pub drain_empties : (q : Ring A) → (drain q).1 ≡ new_ring 0
  unfolding drain
  drain_empties q = refl
