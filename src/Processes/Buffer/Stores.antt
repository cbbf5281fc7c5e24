-- ===== src/Processes/Buffer/Stores.antt =====
-- The stores of the two functions on the queue, up to a point: all of them are the whole function, and
-- what is left out of the count is one message at most.
use osa_sp.Base.{
  ◌+◌, ◌-◌, ◌≤◌, ◌≡◌, inl, inr, refl, Bool-cases, none, some, ◌==◌, if◌then◌else◌, get_or, arith,
}
use osa_sp.Processes.Checksum.{MsgPayload, zero_message}
use osa_sp.Processes.Buffer.{
  QueueBuffer, buffer_capacity, wrap_index, add_message_to_queue, get_message_from_queue, AddPoint,
  GetPoint, stored_to, interrupted_add, got_from, interrupted_get,
}

-- With all its stores made, a function has done what it does.
pub stored_to_all :
    (m : MsgPayload) (q : QueueBuffer)
    → add_message_to_queue m q ≡ (
        if q.current_msg_count == buffer_capacity - 1
        then none
        else some (q.total_added_count + 1, stored_to AddPoint.all_stored m q))
unfolding add_message_to_queue stored_to
stored_to_all m q = refl

pub got_from_all :
    (q : QueueBuffer)
    → get_message_from_queue q ≡ (
        if q.current_msg_count == 0
        then none
        else some (
          q.total_extracted_count + 1,
          get_or q.message_buffer (wrap_index q.buffer_tail_idx) zero_message,
          got_from GetPoint.all_stored q,
        ))
unfolding get_message_from_queue got_from
got_from_all q = refl

stored_to-count :
    (p : AddPoint) (m : MsgPayload) (q : QueueBuffer)
    → q.current_msg_count ≤ (stored_to p m q).current_msg_count
unfolding stored_to
stored_to-count AddPoint.nothing_stored m q = omega arith
stored_to-count AddPoint.head_wrapped m q = omega arith
stored_to-count (AddPoint.amid_copy slot) m q = omega arith
stored_to-count AddPoint.copied m q = omega arith
stored_to-count AddPoint.head_moved m q = omega arith
stored_to-count AddPoint.counted m q = omega arith
stored_to-count AddPoint.all_stored m q = omega arith

got_from-count :
    (p : GetPoint) (q : QueueBuffer) → q.current_msg_count ≤ (got_from p q).current_msg_count + 1
unfolding got_from
got_from-count GetPoint.nothing_stored q = omega arith
got_from-count GetPoint.tail_wrapped q = omega arith
got_from-count GetPoint.tail_moved q = omega arith
got_from-count GetPoint.counted q = omega arith
got_from-count GetPoint.all_stored q = omega arith

pub interrupted_add-count :
    (p : AddPoint) (m : MsgPayload) (q : QueueBuffer)
    → q.current_msg_count ≤ (interrupted_add p m q).current_msg_count
unfolding interrupted_add
interrupted_add-count p m q = elim (Bool-cases (q.current_msg_count == buffer_capacity - 1)) [
  | inl e ↦ rw e (omega arith)
  | inr e ↦ rw e (stored_to-count p m q)
]

pub interrupted_get-count :
    (p : GetPoint) (q : QueueBuffer)
    → q.current_msg_count ≤ (interrupted_get p q).current_msg_count + 1
unfolding interrupted_get
interrupted_get-count p q = elim (Bool-cases (q.current_msg_count == 0)) [
  | inl e ↦ rw e (omega arith)
  | inr e ↦ rw e (got_from-count p q)
]

-- Who exits on an empty queue has found no message.
pub get_message-empty :
    (q : QueueBuffer) → get_message_from_queue q ≡ none → q.current_msg_count ≡ 0
unfolding get_message_from_queue
get_message-empty q e = ground arith
