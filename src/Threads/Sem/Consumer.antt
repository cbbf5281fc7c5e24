-- ===== src/Threads/Sem/Consumer.antt =====
-- `consumer_thread_sem` of thread_funcs.c as a state machine, with the steps of `Producer`.
use osa_sp.Base.{
  update, ℕ, ◌+◌, ◌-◌, Bool, false, not, ◌&&◌, ◌||◌, Option, none, some, List, [], ◌∷◌, ◌++◌, ◌==◌,
  if◌then◌else◌, pos, is_zero, is_one, is_minus_one, le_int,
}
use osa_sp.Threads.Message.{Message, calculate_hash}
use osa_sp.Threads.Ring.{Ring, extract}
use osa_sp.Threads.Semaphore.{sem_post}
use osa_sp.Threads.Sem.{QueueSem, resize_queue_internal_sem}
use osa_sp.Threads.Sem.Producer.{World, Wait, acquired, timed_out, failed, Answers}

pub data ConsumerPc : Type 0 where
  at_loop : ConsumerPc  -- the test of the `while`
  checking : ConsumerPc  -- before the section that looks for a resize request
  waiting : ConsumerPc  -- in `sem_timedwait`
  admitted : ConsumerPc  -- it holds a filled slot
  taking : ConsumerPc  -- before the section that takes a message
  giving_back : ConsumerPc  -- before `sem_post(&queue.filled_slots)` and `continue`
  posting : Option Message → ConsumerPc  -- before `sem_post(&queue.empty_slots)`, with its message
  stopping : ConsumerPc  -- behind the loop
  exited : ConsumerPc

pub record ConsumerThread : Type 0 where
  pub pc : ConsumerPc
  pub messages_consumed : ℕ

-- A resize and the clearing of the request that follows on both of its outcomes.
unfoldable pub serve_request : Bool → QueueSem → QueueSem
serve_request allocated q =
    record (resize_queue_internal_sem allocated q q.new_capacity_request).1 {
      resize_request = pos 0;
    }

module _ (id : ℕ) where
  unfoldable pub consumer_at_loop : World → ConsumerThread → World × ConsumerThread
  consumer_at_loop w t =
      if w.keep_running && w.consumer_active id
      then (w, record t { pc = checking })
      else (w, record t { pc = stopping })

  unfoldable pub consumer_checking : Bool → World → ConsumerThread → World × ConsumerThread
  consumer_checking allocated w t =
      if not (is_zero w.queue.resize_request)
      then (record w { queue = serve_request allocated w.queue }, record t { pc = at_loop })
      else (w, record t { pc = waiting })

  unfoldable pub consumer_waiting : Wait → World → ConsumerThread → World × ConsumerThread
  consumer_waiting acquired w t =
      if w.queue.filled_slots == 0 then (w, record t { pc = waiting }) else (
        record w { queue = record w.queue { filled_slots = w.queue.filled_slots - 1 } },
        record t { pc = admitted },
      )
  consumer_waiting timed_out w t =
      if not w.keep_running || not (w.consumer_active id)
      then (w, record t { pc = stopping })
      else (w, record t { pc = at_loop })
  consumer_waiting failed w t =
      (record w { consumer_active = update w.consumer_active id false }, record t { pc = stopping })

  abbrev pub give_message_back : World → World
  give_message_back w = record w {
    queue = record w.queue { filled_slots = sem_post w.queue.filled_slots };
  }

  unfoldable pub consumer_admitted : World → ConsumerThread → World × ConsumerThread
  consumer_admitted w t =
      if not w.keep_running || not (w.consumer_active id)
      then (give_message_back w, record t { pc = stopping })
      else (w, record t { pc = taking })

  -- What reading a slot adds to the log: nothing for a null pointer.
  abbrev pub log_extracted : Option Message → List Message → List Message
  log_extracted none l = l
  log_extracted (some msg) l = l ++ (msg ∷ [])

  abbrev pub record_extracted : World → Option Message → Ring Message → World
  record_extracted w slot ring = record w {
    queue = record w.queue { ring = ring; total_extracted = w.queue.total_extracted + 1 };
    log = record w.log { extracted = log_extracted slot w.log.extracted };
  }

  -- Taking the oldest message; `none` is a read outside the buffer.
  unfoldable pub consumer_extract : World → ConsumerThread → Option (World × ConsumerThread)
  consumer_extract w t = elim (extract w.queue.ring) [
    | some (slot, ring) ↦ some (record_extracted w slot ring, record t { pc = posting slot })
    | none ↦ none
  ]

  -- The section under the mutex: a pending resize first, then the message.
  unfoldable pub consumer_taking : Bool → World → ConsumerThread → Option (World × ConsumerThread)
  consumer_taking allocated w t =
      if is_minus_one w.queue.resize_request
        && le_int w.queue.ring.count w.queue.new_capacity_request
      then some
          (record w { queue = serve_request allocated w.queue }, record t { pc = giving_back })
      else if is_one w.queue.resize_request
      then some
          (record w { queue = serve_request allocated w.queue }, record t { pc = giving_back })
      else if w.queue.ring.count == 0
      then some (w, record t { pc = giving_back })
      else consumer_extract w t

  -- `expected_hash == actual_hash`
  abbrev pub hash_ok : Message → Bool
  hash_ok msg = msg.hash == calculate_hash (some msg)

  -- The slot is posted; a message is checked and counts as consumed.
  unfoldable pub consumer_posting : Option Message → World → ConsumerThread → World × ConsumerThread
  consumer_posting (some msg) w t = (
    record w {
      queue = record w.queue { empty_slots = sem_post w.queue.empty_slots };
      log = record w.log { checks = w.log.checks ++ (hash_ok msg ∷ []) };
    },
    record t { pc = at_loop; messages_consumed = t.messages_consumed + 1 },
  )
  consumer_posting none w t = (
    record w { queue = record w.queue { empty_slots = sem_post w.queue.empty_slots } },
    record t { pc = at_loop },
  )

  -- One step from the place where the thread stands.
  unfoldable pub consumer_at :
      ConsumerPc → Answers → World → ConsumerThread → Option (World × ConsumerThread)
  consumer_at at_loop a w t = some (consumer_at_loop w t)
  consumer_at checking a w t = some (consumer_checking a.resize_memory w t)
  consumer_at waiting a w t = some (consumer_waiting a.wait w t)
  consumer_at admitted a w t = some (consumer_admitted w t)
  consumer_at taking a w t = consumer_taking a.resize_memory w t
  consumer_at giving_back a w t = some (give_message_back w, record t { pc = at_loop })
  consumer_at (posting slot) a w t = some (consumer_posting slot w t)
  consumer_at stopping a w t =
      some
        (record w { consumer_active = update w.consumer_active id false }, record t { pc = exited })
  consumer_at exited a w t = some (w, record t { pc = exited })

  unfoldable pub consumer_step : Answers → World → ConsumerThread → Option (World × ConsumerThread)
  consumer_step a w t = consumer_at t.pc a w t
