-- ===== src/Processes/Buffer.antt =====
-- `QueueBuffer` of shared_buffer_types.c and the functions that work on it inside the mutex. Each of
-- the two indices stands at the capacity for a while before it goes back to 0.
pub mod Fifo
pub mod Stores
use osa_sp.Base.{
  ℕ, zero, suc, ◌+◌, ◌-◌, Bool, true, false, Option, none, some, List, [], ◌∷◌, ◌==◌, if◌then◌else◌,
  get_or, set, map,
}
use osa_sp.Processes.Checksum.{MsgPayload, zero_message}

abbrev pub buffer_capacity : ℕ
buffer_capacity = 4096

pub record QueueBuffer : Type 0 where
  pub total_added_count : ℕ
  pub total_extracted_count : ℕ
  pub current_msg_count : ℕ
  pub buffer_head_idx : ℕ
  pub buffer_tail_idx : ℕ
  pub message_buffer : List MsgPayload

-- `initialize_queue`, on whatever the shared memory holds
pub initialize_queue : QueueBuffer → QueueBuffer
initialize_queue q = record {
  total_added_count = 0;
  total_extracted_count = 0;
  current_msg_count = 0;
  buffer_head_idx = 0;
  buffer_tail_idx = 0;
  message_buffer = map (λ _. zero_message) q.message_buffer;
}

-- An index that stands at the capacity goes back to 0.
abbrev pub wrap_index : ℕ → ℕ
wrap_index i = if i == buffer_capacity then 0 else i

-- `add_message_to_queue` with its result; `none` is `exit(EXIT_FAILURE)`.
pub add_message_to_queue : MsgPayload → QueueBuffer → Option (ℕ × QueueBuffer)
add_message_to_queue msg q =
    if q.current_msg_count == buffer_capacity - 1
    then none
    else some (
      q.total_added_count + 1,
      record q {
        message_buffer = set q.message_buffer (wrap_index q.buffer_head_idx) msg;
        buffer_head_idx = wrap_index q.buffer_head_idx + 1;
        current_msg_count = q.current_msg_count + 1;
        total_added_count = q.total_added_count + 1;
      },
    )

-- `get_message_from_queue`: its result, the message that it stores in `*msg`, and the queue; `none` is
-- `exit(EXIT_FAILURE)`.
pub get_message_from_queue : QueueBuffer → Option (ℕ × MsgPayload × QueueBuffer)
get_message_from_queue q =
    if q.current_msg_count == 0
    then none
    else some (
      q.total_extracted_count + 1,
      get_or q.message_buffer (wrap_index q.buffer_tail_idx) zero_message,
      record q {
        buffer_tail_idx = wrap_index q.buffer_tail_idx + 1;
        current_msg_count = q.current_msg_count - 1;
        total_extracted_count = q.total_extracted_count + 1;
      },
    )

-- How far `add_message_to_queue` has come with its stores, in their order; amid the copy of the message
-- the slot holds any bytes.
pub data AddPoint : Type 0 where
  nothing_stored head_wrapped : AddPoint
  amid_copy : MsgPayload → AddPoint
  copied head_moved counted all_stored : AddPoint

-- The queue that a process leaves when it is killed there; a full queue is never stored to.
unfoldable pub stored_to : AddPoint → MsgPayload → QueueBuffer → QueueBuffer
stored_to nothing_stored msg q = q
stored_to head_wrapped msg q = record q { buffer_head_idx = wrap_index q.buffer_head_idx }
stored_to (amid_copy slot) msg q = record q {
  message_buffer = set q.message_buffer (wrap_index q.buffer_head_idx) slot;
  buffer_head_idx = wrap_index q.buffer_head_idx;
}
stored_to copied msg q = record q {
  message_buffer = set q.message_buffer (wrap_index q.buffer_head_idx) msg;
  buffer_head_idx = wrap_index q.buffer_head_idx;
}
stored_to head_moved msg q = record q {
  message_buffer = set q.message_buffer (wrap_index q.buffer_head_idx) msg;
  buffer_head_idx = wrap_index q.buffer_head_idx + 1;
}
stored_to counted msg q = record q {
  message_buffer = set q.message_buffer (wrap_index q.buffer_head_idx) msg;
  buffer_head_idx = wrap_index q.buffer_head_idx + 1;
  current_msg_count = q.current_msg_count + 1;
}
stored_to all_stored msg q = record q {
  message_buffer = set q.message_buffer (wrap_index q.buffer_head_idx) msg;
  buffer_head_idx = wrap_index q.buffer_head_idx + 1;
  current_msg_count = q.current_msg_count + 1;
  total_added_count = q.total_added_count + 1;
}

unfoldable pub interrupted_add : AddPoint → MsgPayload → QueueBuffer → QueueBuffer
interrupted_add point msg q =
    if q.current_msg_count == buffer_capacity - 1 then q else stored_to point msg q

-- The same for `get_message_from_queue`; its copy goes to the memory of the process.
pub data GetPoint : Type 0 where
  nothing_stored tail_wrapped tail_moved counted all_stored : GetPoint

unfoldable pub got_from : GetPoint → QueueBuffer → QueueBuffer
got_from nothing_stored q = q
got_from tail_wrapped q = record q { buffer_tail_idx = wrap_index q.buffer_tail_idx }
got_from tail_moved q = record q { buffer_tail_idx = wrap_index q.buffer_tail_idx + 1 }
got_from counted q = record q {
  buffer_tail_idx = wrap_index q.buffer_tail_idx + 1;
  current_msg_count = q.current_msg_count - 1;
}
got_from all_stored q = record q {
  buffer_tail_idx = wrap_index q.buffer_tail_idx + 1;
  current_msg_count = q.current_msg_count - 1;
  total_extracted_count = q.total_extracted_count + 1;
}

unfoldable pub interrupted_get : GetPoint → QueueBuffer → QueueBuffer
interrupted_get point q = if q.current_msg_count == 0 then q else got_from point q
