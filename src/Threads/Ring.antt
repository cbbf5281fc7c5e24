-- ===== src/Threads/Ring.antt =====
-- The circular buffer of `CircularQueue_Sem` and `CircularQueue_Cond`: the fields that both structs
-- share, and the code fragments of queue_sem.c and thread_funcs.c that work on them under the mutex.
pub mod Window
pub mod Fifo
pub mod Resize
pub mod Mended
mod Tests
use osa_sp.Base.{
  ℕ, zero, suc, ◌+◌, ◌-◌, ◌%◌, Bool, true, false, Option, none, some, List, [], ◌∷◌, ltb,
  if◌then◌else◌, length, get_or, set, replicate,
}

-- A slot is `none` while the pointer in it has not been written since the buffer was allocated.
pub record Ring {ℓ} (A : Type ℓ) : Type ℓ where
  pub buffer : List (Option A)
  pub capacity : ℕ
  pub head : ℕ
  pub tail : ℕ
  pub count : ℕ

module _ {ℓ} {A : Type ℓ} where
  -- `init_queue_*`, the fields of the ring
  abbrev pub new_ring : ℕ → Ring A
  new_ring size = record {
    buffer = replicate size none;
    capacity = size;
    head = 0;
    tail = 0;
    count = 0;
  }

  -- A producer's `buffer[tail] = msg; tail = (tail + 1) % capacity; count++`. `none` is a write
  -- outside the buffer.
  pub put : Ring A → A → Option (Ring A)
  put q msg =
      if ltb q.tail (length q.buffer)
      then some (record q {
        buffer = set q.buffer q.tail (some msg);
        tail = (q.tail + 1) % q.capacity;
        count = q.count + 1;
      })
      else none

  -- A consumer's `msg = buffer[head]; head = (head + 1) % capacity; count--`, at `count != 0`.
  -- The outer `none` is a read outside the buffer.
  pub extract : Ring A → Option (Option A × Ring A)
  extract q =
      if ltb q.head (length q.buffer)
      then some (
        get_or q.buffer q.head none,
        record q { head = (q.head + 1) % q.capacity; count = q.count - 1 },
      )
      else none

  -- The copying loop of `resize_queue_internal_*`, with `n` rounds left.
  pub copy_loop : List (Option A) → ℕ → ℕ → ℕ → ℕ → List (Option A) → List (Option A)
  copy_loop buffer capacity zero i current_index new_buffer = new_buffer
  copy_loop buffer capacity (suc n) i current_index new_buffer =
      copy_loop buffer capacity n (i + 1) ((current_index + 1) % capacity)
        (set new_buffer i (get_or buffer current_index none))

  -- The part of `resize_queue_internal_*` that moves the messages to a new buffer.
  pub move_to : Ring A → ℕ → Ring A
  move_to q new_capacity = record {
    buffer = copy_loop q.buffer q.capacity q.count 0 q.head (replicate new_capacity none);
    capacity = new_capacity;
    head = 0;
    tail = q.count;
    count = q.count;
  }

  -- The loop of `destroy_queue_*` with `count` rounds left: what it hands to `destroy_message`, in
  -- order. A slot that was never written is passed over, as a null pointer would be.
  pub drain_loop : List (Option A) → ℕ → ℕ → ℕ → List A
  drain_loop buffer capacity zero head = []
  drain_loop buffer capacity (suc n) head =
      let rest = drain_loop buffer capacity n ((head + 1) % capacity) in
      elim (get_or buffer head none) [ some msg ↦ msg ∷ rest | none ↦ rest ]

  -- `destroy_queue_*`: the messages freed, and the ring with its buffer gone.
  pub drain : Ring A → List A × Ring A
  drain q = (drain_loop q.buffer q.capacity q.count q.head, new_ring 0)
