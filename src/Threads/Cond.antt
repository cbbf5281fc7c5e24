-- ===== src/Threads/Cond.antt =====
-- queue_cond.h and queue_cond.c, and the functions of main.c that act on `queue_cond`. Signals and
-- broadcasts change no field: they let a waiting thread look again, which it may do at any time.
pub mod Queue
pub mod Producer
pub mod Consumer
pub mod System
pub mod Invariant
mod Tests
use osa_sp.Base.{
  ℕ, ◌+◌, Bool, true, false, not, ◌&&◌, Option, none, some, ltb, if◌then◌else◌, List, ℤ, pos,
  negsuc, sub_ℕ, nonpositive, pos_part, is_zero,
}
use osa_sp.Threads.Message.{Message}
use osa_sp.Threads.Ring.{Ring, new_ring, move_to, drain}

-- `CircularQueue_Cond`; the buffer with its indices is `ring`.
pub record QueueCond : Type 0 where
  pub ring : Ring Message
  pub total_added : ℕ
  pub total_extracted : ℕ
  pub resize_request : ℤ
  pub new_capacity_request : ℤ
  pub resize_in_progress : Bool

-- What `init_queue_cond` holds of the system.
pub record CondResources : Type 0 where
  pub buffer : Bool
  pub mutex : Bool
  pub can_produce : Bool
  pub can_consume : Bool

abbrev pub no_resources : CondResources
no_resources = record { buffer = false; mutex = false; can_produce = false; can_consume = false }

-- The fields that `init_queue_cond` sets.
abbrev pub fresh_queue_cond : ℕ → QueueCond
fresh_queue_cond size = record {
  ring = new_ring size;
  total_added = 0;
  total_extracted = 0;
  resize_request = pos 0;
  new_capacity_request = pos 0;
  resize_in_progress = false;
}

-- `init_queue_cond`; the four Booleans of `ok` say which of its calls succeed.
pub init_queue_cond : ℕ → CondResources → ℤ × CondResources × Option QueueCond
init_queue_cond size ok =
    if not ok.buffer
    then (negsuc 0, no_resources, none)
    else (let with_buffer : CondResources = record no_resources { buffer = true } in
        if not ok.mutex
        then (negsuc 0, record with_buffer { buffer = false }, none)
        else (let with_mutex : CondResources = record with_buffer { mutex = true } in
            if not ok.can_produce
            then (negsuc 0, record with_mutex { mutex = false; buffer = false }, none)
            else (let with_produce : CondResources = record with_mutex { can_produce = true } in
                if not ok.can_consume
                then (
                  negsuc 0,
                  record with_produce { can_produce = false; mutex = false; buffer = false },
                  none,
                )
                else (
                  pos 0,
                  record with_produce { can_consume = true },
                  some (fresh_queue_cond size),
                ))))

-- `resize_queue_internal_cond` behind its checks and its `malloc`.
unfoldable pub resize_cond_to : QueueCond → ℕ → QueueCond
resize_cond_to q new_capacity = record q {
  ring = move_to q.ring new_capacity;
  resize_in_progress = false;
}

-- `resize_queue_internal_cond`; the Boolean says whether `malloc` succeeds.
unfoldable pub resize_queue_internal_cond : Bool → QueueCond → ℤ → ℤ × QueueCond
resize_queue_internal_cond allocated q new_capacity =
    if nonpositive new_capacity
    then (negsuc 0, q)
    else if ltb (pos_part new_capacity) q.ring.count
    then (negsuc 0, q)
    else (let started : QueueCond = record q { resize_in_progress = true } in
        if not allocated
        then (negsuc 0, record started { resize_in_progress = false })
        else (pos 0, resize_cond_to started (pos_part new_capacity)))

-- `request_resize_cond`; the Boolean is `op == '+'`.
unfoldable pub request_resize_cond : Bool → QueueCond → QueueCond
request_resize_cond up q =
    if is_zero q.resize_request && not q.resize_in_progress
    then (let target : ℤ = if up then pos (q.ring.capacity + 5) else sub_ℕ q.ring.capacity 5 in
        if nonpositive target && not up then q else record q {
          new_capacity_request = target;
          resize_request = if up then pos 1 else negsuc 0;
        })
    else q

-- `destroy_queue_cond`: the messages freed, the queue that is left, and `keep_running`.
pub destroy_queue_cond : QueueCond → List Message × QueueCond × Bool
destroy_queue_cond q =
    let (freed, ring) = drain q.ring in
    (freed, record q { ring = ring; resize_request = pos 0; resize_in_progress = true }, false)
