-- ===== src/Threads/Sem.antt =====
-- queue_sem.h and queue_sem.c, and the functions of main.c that act on `queue`. A function that the
-- program calls with `queue.mutex` held, or that takes it itself, is one step here.
pub mod Queue
pub mod Producer
pub mod Consumer
pub mod System
pub mod Invariant
mod Tests
use osa_sp.Base.{
  ℕ, zero, suc, ◌+◌, ◌-◌, Bool, true, false, not, ◌&&◌, ◌||◌, Option, none, some, ltb, leb, ◌==◌,
  if◌then◌else◌, List, ℤ, pos, negsuc, sub_ℕ, nonpositive, pos_part, is_zero,
}
use osa_sp.Threads.Message.{Message}
use osa_sp.Threads.Ring.{Ring, new_ring, move_to, drain}
use osa_sp.Threads.Semaphore.{sem_value_max, sem_post, post_loop, trywait_loop}

-- `CircularQueue_Sem`; the buffer with its indices is `ring`.
pub record QueueSem : Type 0 where
  pub ring : Ring Message
  pub total_added : ℕ
  pub total_extracted : ℕ
  pub empty_slots : ℕ
  pub filled_slots : ℕ
  pub resize_request : ℤ
  pub new_capacity_request : ℤ

-- What `init_queue_sem` holds of the system.
pub record Resources : Type 0 where
  pub buffer : Bool
  pub mutex : Bool
  pub empty_slots : Bool
  pub filled_slots : Bool

abbrev pub nothing_held : Resources
nothing_held = record { buffer = false; mutex = false; empty_slots = false; filled_slots = false }

-- The fields that `init_queue_sem` sets, and the semaphores that it starts.
abbrev pub fresh_queue : ℕ → QueueSem
fresh_queue size = record {
  ring = new_ring size;
  total_added = 0;
  total_extracted = 0;
  empty_slots = size;
  filled_slots = 0;
  resize_request = pos 0;
  new_capacity_request = pos 0;
}

-- `init_queue_sem`; the four Booleans of `ok` say which of its calls succeed.
pub init_queue_sem : ℕ → Resources → ℤ × Resources × Option QueueSem
init_queue_sem size ok =
    if not ok.buffer
    then (negsuc 0, nothing_held, none)
    else (let with_buffer : Resources = record nothing_held { buffer = true } in
        if not ok.mutex
        then (negsuc 0, record with_buffer { buffer = false }, none)
        else (let with_mutex : Resources = record with_buffer { mutex = true } in
            if not ok.empty_slots
            then (negsuc 0, record with_mutex { mutex = false; buffer = false }, none)
            else (let with_empty : Resources = record with_mutex { empty_slots = true } in
                if not ok.filled_slots
                then (
                  negsuc 0,
                  record with_empty { empty_slots = false; mutex = false; buffer = false },
                  none,
                )
                else (pos 0, record with_empty { filled_slots = true }, some (fresh_queue size)))))

-- The part of `resize_queue_internal_sem` behind its checks: the messages move, then `empty_slots` is
-- posted or taken as often as the capacity grew or shrank.
unfoldable pub resize_to : QueueSem → ℕ → QueueSem
resize_to q new_capacity =
    let old_capacity = q.ring.capacity in
    record q {
      ring = move_to q.ring new_capacity;
      empty_slots =
          if ltb old_capacity new_capacity
          then post_loop (new_capacity - old_capacity) q.empty_slots
          else trywait_loop (old_capacity - new_capacity) q.empty_slots;
    }

-- `resize_queue_internal_sem`; the Boolean says whether `malloc` succeeds.
unfoldable pub resize_queue_internal_sem : Bool → QueueSem → ℤ → ℤ × QueueSem
resize_queue_internal_sem allocated q new_capacity =
    if nonpositive new_capacity
    then (negsuc 0, q)
    else if ltb (pos_part new_capacity) q.ring.count
    then (negsuc 0, q)
    else if not allocated
    then (negsuc 0, q)
    else (pos 0, resize_to q (pos_part new_capacity))

-- `request_resize_sem`; the Boolean is `op == '+'`.
unfoldable pub request_resize_sem : Bool → QueueSem → QueueSem
request_resize_sem up q =
    if is_zero q.resize_request
    then (let target : ℤ = if up then pos (q.ring.capacity + 5) else sub_ℕ q.ring.capacity 5 in
        if nonpositive target && not up then q else record q {
          new_capacity_request = target;
          resize_request = if up then pos 1 else negsuc 0;
        })
    else q

-- `signal_cleanup_sem`, with the counts of producers and consumers
unfoldable pub signal_cleanup_sem : ℕ → ℕ → QueueSem → QueueSem
signal_cleanup_sem producer_count consumer_count q =
    let signals = q.ring.capacity + producer_count + consumer_count + 5 in
    record q {
      empty_slots = post_loop signals q.empty_slots;
      filled_slots = post_loop signals q.filled_slots;
    }

-- `destroy_queue_sem`: the messages freed, and the queue that is left.
pub destroy_queue_sem : QueueSem → List Message × QueueSem
destroy_queue_sem q = let (freed, ring) = drain q.ring in (freed, record q { ring = ring })
