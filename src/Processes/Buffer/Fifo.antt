-- ===== src/Processes/Buffer/Fifo.antt =====
-- The shared buffer as a bounded first-in first-out queue.
use osa_sp.Base.{
  ℕ, suc, ◌+◌, ◌-◌, ◌%◌, ◌≤◌, ◌<◌, ◌≡◌, refl, sym, ap, ◌∙◌, none, some, List, [], ◌∷◌, ◌++◌, arith,
  length, length-set, get_or, set, window, window_put, window_of_ne_zero, advance, next_start, map,
  ℕ_discrete, ◌⊎◌, inl, inr,
}
use osa_sp.Processes.Checksum.{MsgPayload, zero_message}
use osa_sp.Processes.Buffer.{
  buffer_capacity, QueueBuffer, initialize_queue, wrap_index, add_message_to_queue,
  get_message_from_queue,
}

-- The messages in the queue, oldest first.
abbrev pub contents : QueueBuffer → List MsgPayload
contents q =
    window zero_message q.message_buffer buffer_capacity (wrap_index q.buffer_tail_idx)
      q.current_msg_count

pub record IsValid (q : QueueBuffer) : Type 0 where
  pub allocated : length q.message_buffer ≡ buffer_capacity
  pub tail_in : q.buffer_tail_idx ≤ buffer_capacity
  pub count_in : q.current_msg_count < buffer_capacity
  pub head_in : q.buffer_head_idx ≤ buffer_capacity
  pub head_at :
      wrap_index q.buffer_head_idx
      ≡ (wrap_index q.buffer_tail_idx + q.current_msg_count) % buffer_capacity
  pub totals : q.total_added_count ≡ q.total_extracted_count + q.current_msg_count

wrap_index-lt : (i : ℕ) → i ≤ buffer_capacity → wrap_index i < buffer_capacity
wrap_index-lt i h = ground arith

-- The lazy step is a step round the buffer.
wrap_index-step : (i : ℕ) → i < buffer_capacity → wrap_index (i + 1) ≡ (i + 1) % buffer_capacity
wrap_index-step i h = ground arith

length-map_const : (xs : List MsgPayload) (m : MsgPayload) → length (map (λ _. m) xs) ≡ length xs
length-map_const [] m = refl
length-map_const (x ∷ xs) m = ap suc (length-map_const xs m)

-- `initialize_queue` makes a valid empty queue of shared memory of the right size.
pub initialize_queue-IsValid :
    (q : QueueBuffer)
    → length q.message_buffer ≡ buffer_capacity
    → IsValid (initialize_queue q) × (contents (initialize_queue q) ≡ [])
unfolding initialize_queue
initialize_queue-IsValid q h = (
  record {
    allocated = length-map_const q.message_buffer zero_message ∙ h;
    tail_in = omega arith;
    count_in = omega arith;
    head_in = omega arith;
    head_at = refl;
    totals = refl;
  },
  refl,
)

-- `add_message_to_queue` on a valid queue: with 4095 messages it exits; below that it keeps the queue
-- valid, appends the message, and returns the new total.
pub add_message_cases :
    (m : MsgPayload) (q : QueueBuffer)
    → IsValid q
    → ((q.current_msg_count ≡ 4095) × (add_message_to_queue m q ≡ none))
      ⊎ ((q.current_msg_count < 4095)
          × ((q' : QueueBuffer) × (add_message_to_queue m q ≡ some (q.total_added_count + 1, q'))
              × IsValid q'
              × (contents q' ≡ contents q ++ (m ∷ []))
              × (q'.total_added_count ≡ q.total_added_count + 1)))
unfolding add_message_to_queue
add_message_cases m q v = elim (ℕ_discrete q.current_msg_count 4095) [
  | yes full ↦ inl (full, ground arith)
  | no room ↦ inr (
    omega (arith, v.count_in),
    (
      record q {
        message_buffer = set q.message_buffer (wrap_index q.buffer_head_idx) m;
        buffer_head_idx = wrap_index q.buffer_head_idx + 1;
        current_msg_count = q.current_msg_count + 1;
        total_added_count = q.total_added_count + 1;
      },
      ground arith,
      record {
        allocated = length-set q.message_buffer (wrap_index q.buffer_head_idx) m ∙ v.allocated;
        tail_in = v.tail_in;
        count_in = omega (arith, v.count_in);
        head_in = ground (arith, v.head_in);
        head_at =
            wrap_index-step (wrap_index q.buffer_head_idx)
              (wrap_index-lt q.buffer_head_idx v.head_in)
            ∙ ap (λ (i : ℕ). (i + 1) % buffer_capacity) v.head_at
            ∙ advance buffer_capacity (wrap_index q.buffer_tail_idx) q.current_msg_count;
        totals = omega (arith, v.totals);
      },
      ap
            (window zero_message (set q.message_buffer (wrap_index q.buffer_head_idx) m)
              buffer_capacity (wrap_index q.buffer_tail_idx))
            (let e : q.current_msg_count + 1 ≡ suc q.current_msg_count = omega arith in e)
          ∙ window_put zero_message q.current_msg_count q.message_buffer buffer_capacity
              (wrap_index q.buffer_tail_idx) (wrap_index q.buffer_head_idx) m v.allocated
              (wrap_index-lt q.buffer_tail_idx v.tail_in) v.count_in v.head_at,
      refl,
    ),
  )
]

-- `get_message_from_queue` on a valid queue: when it is empty it exits; else it hands out the oldest
-- message, keeps the queue valid with the others, and returns the new total.
pub get_message_cases :
    (q : QueueBuffer)
    → IsValid q
    → ((q.current_msg_count ≡ 0) × (get_message_from_queue q ≡ none))
      ⊎ ((m : MsgPayload) × (q' : QueueBuffer) × (get_message_from_queue q
            ≡ some (q.total_extracted_count + 1, m, q'))
          × IsValid q'
          × (contents q ≡ m ∷ contents q')
          × (q'.total_extracted_count ≡ q.total_extracted_count + 1))
unfolding get_message_from_queue
get_message_cases q v = elim (ℕ_discrete q.current_msg_count 0) [
  | yes empty ↦ inl (empty, ground arith)
  | no some_left ↦ inr (
    get_or q.message_buffer t zero_message,
    q',
    ground arith,
    record {
      allocated = v.allocated;
      tail_in = omega (arith, inside);
      count_in = omega (arith, v.count_in);
      head_in = v.head_in;
      head_at =
          v.head_at
          ∙ ap (λ (n : ℕ). (t + n) % buffer_capacity)
              (let e : q.current_msg_count ≡ suc (q.current_msg_count - 1) = omega arith in e)
          ∙ next_start buffer_capacity t (q.current_msg_count - 1)
          ∙ ap (λ (h : ℕ). (h + (q.current_msg_count - 1)) % buffer_capacity) (sym stepped);
      totals = omega (arith, v.totals);
    },
    window_of_ne_zero zero_message q.message_buffer buffer_capacity t q.current_msg_count some_left
        ∙ ap
            (λ (h : ℕ).
              get_or q.message_buffer t zero_message
              ∷ window zero_message q.message_buffer buffer_capacity h (q.current_msg_count - 1))
            (sym stepped),
    refl,
  )
]
  where
    t : ℕ
    t = wrap_index q.buffer_tail_idx

    inside : t < buffer_capacity
    inside = wrap_index-lt q.buffer_tail_idx v.tail_in

    stepped : wrap_index (t + 1) ≡ (t + 1) % buffer_capacity
    stepped = wrap_index-step t inside

    q' : QueueBuffer
    q' = record q {
      buffer_tail_idx = t + 1;
      current_msg_count = q.current_msg_count - 1;
      total_extracted_count = q.total_extracted_count + 1;
    }

pub add_message-count :
    (m : MsgPayload) (q : QueueBuffer) (n : ℕ) (q' : QueueBuffer)
    → add_message_to_queue m q ≡ some (n, q')
    → q'.current_msg_count ≡ q.current_msg_count + 1
unfolding add_message_to_queue
add_message-count m q n q' e = ground arith

pub get_message-count :
    (q : QueueBuffer) (n : ℕ) (m : MsgPayload) (q' : QueueBuffer)
    → get_message_from_queue q ≡ some (n, m, q')
    → q'.current_msg_count + 1 ≡ q.current_msg_count
unfolding get_message_from_queue
get_message-count q n m q' e = ground arith
