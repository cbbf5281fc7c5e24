-- ===== src/Threads/Cond/Consumer.antt =====
-- `consumer_thread_cond` of thread_funcs.c as a state machine, with the steps of `Producer`.
use osa_sp.Base.{
  ℕ, ◌+◌, Bool, false, not, ◌&&◌, ◌||◌, Option, none, some, [], ◌∷◌, ◌++◌, ◌==◌, if◌then◌else◌, pos,
  is_zero, is_one, is_minus_one, le_int, update,
}
use osa_sp.Threads.Message.{Message}
use osa_sp.Threads.Ring.{Ring, extract}
use osa_sp.Threads.Sem.Consumer.{hash_ok, log_extracted}
use osa_sp.Threads.Cond.{QueueCond, resize_queue_internal_cond}
use osa_sp.Threads.Cond.Producer.{CondWorld, CondWait, woken, timed_out, failed, CondAnswers}

pub data CondConsumerPc : Type 0 where
  at_loop : CondConsumerPc  -- the test of the outer `while`
  locking : CondConsumerPc  -- before `pthread_mutex_lock`
  waiting : CondConsumerPc  -- in `pthread_cond_timedwait`
  verifying : Option Message → CondConsumerPc  -- behind the section, with its message
  stopping : CondConsumerPc  -- behind the loop
  exited : CondConsumerPc

pub record CondConsumer : Type 0 where
  pub pc : CondConsumerPc
  pub messages_consumed : ℕ

-- A resize and the clearing of the request that follows on both of its outcomes.
unfoldable pub serve_cond_request : Bool → QueueCond → QueueCond
serve_cond_request allocated q =
    record (resize_queue_internal_cond allocated q q.new_capacity_request).1 {
      resize_request = pos 0;
    }

-- `can_resize_now`
abbrev pub can_resize_now : QueueCond → Bool
can_resize_now q =
    is_one q.resize_request
    || (is_minus_one q.resize_request && le_int q.ring.count q.new_capacity_request)

-- The decrease that waits for a message to leave.
unfoldable pub pending_decrease : Bool → QueueCond → QueueCond
pending_decrease allocated q =
    if is_minus_one q.resize_request
      && not q.resize_in_progress
      && le_int q.ring.count q.new_capacity_request
    then serve_cond_request allocated q
    else q

module _ (id : ℕ) where
  -- The queue with its oldest message taken.
  abbrev pub taken_from : QueueCond → Ring Message → QueueCond
  taken_from q ring = record q { ring = ring; total_extracted = q.total_extracted + 1 }

  abbrev pub record_taken : Bool → CondWorld → Option Message → Ring Message → CondWorld
  record_taken allocated w slot ring = record w {
    queue = pending_decrease allocated (taken_from w.queue ring);
    log = record w.log { extracted = log_extracted id slot w.log.extracted };
  }

  -- Taking the oldest message; `none` is a read outside the buffer.
  unfoldable pub consumer_cond_extract :
      Bool → CondWorld → CondConsumer → Option (CondWorld × CondConsumer)
  consumer_cond_extract allocated w t = elim (extract w.queue.ring) [
    | some (slot, ring) ↦
        some (record_taken allocated w slot ring, record t { pc = CondConsumerPc.verifying slot })
    | none ↦ none
  ]

  -- Behind the waiting loop, with the mutex held.
  unfoldable pub consumer_cond_decide :
      Bool → CondWorld → CondConsumer → Option (CondWorld × CondConsumer)
  consumer_cond_decide allocated w t =
      if not w.keep_running || not (w.consumer_active id)
      then some (w, record t { pc = CondConsumerPc.stopping })
      else if w.queue.ring.count == 0
      then some (w, record t { pc = CondConsumerPc.at_loop })
      else consumer_cond_extract allocated w t

  -- The test of the waiting loop.
  unfoldable pub consumer_cond_test :
      Bool → CondWorld → CondConsumer → Option (CondWorld × CondConsumer)
  consumer_cond_test allocated w t =
      if (w.queue.ring.count == 0) && w.keep_running && w.consumer_active id
      then some (w, record t { pc = CondConsumerPc.waiting })
      else consumer_cond_decide allocated w t

  -- The start of the section: a resize that can be served ends it.
  unfoldable pub consumer_cond_locked :
      Bool → CondWorld → CondConsumer → Option (CondWorld × CondConsumer)
  consumer_cond_locked allocated w t =
      if not (is_zero w.queue.resize_request)
        && not w.queue.resize_in_progress
        && can_resize_now w.queue
      then some (
        record w { queue = serve_cond_request allocated w.queue },
        record t { pc = CondConsumerPc.at_loop },
      )
      else consumer_cond_test allocated w t

  -- The return of `pthread_cond_timedwait`.
  unfoldable pub consumer_cond_waited :
      CondWait → Bool → CondWorld → CondConsumer → Option (CondWorld × CondConsumer)
  consumer_cond_waited woken allocated w t = consumer_cond_test allocated w t
  consumer_cond_waited timed_out allocated w t = consumer_cond_decide allocated w t
  consumer_cond_waited failed allocated w t =
      consumer_cond_decide allocated
        (record w { keep_running = false; consumer_active = update w.consumer_active id false }) t

  -- The check of the hash, behind the mutex.
  unfoldable pub consumer_cond_verify :
      Option Message → CondWorld → CondConsumer → CondWorld × CondConsumer
  consumer_cond_verify (some msg) w t = (
    record w { log = record w.log { checks = w.log.checks ++ (hash_ok id msg ∷ []) } },
    record t { pc = CondConsumerPc.at_loop; messages_consumed = t.messages_consumed + 1 },
  )
  consumer_cond_verify none w t = (w, record t { pc = CondConsumerPc.at_loop })

  -- One step from the place where the thread stands.
  unfoldable pub consumer_cond_at :
      CondConsumerPc → CondAnswers → CondWorld → CondConsumer → Option (CondWorld × CondConsumer)
  consumer_cond_at at_loop a w t =
      if w.keep_running && w.consumer_active id
      then some (w, record t { pc = CondConsumerPc.locking })
      else some (w, record t { pc = CondConsumerPc.stopping })
  consumer_cond_at locking a w t = consumer_cond_locked a.resize_memory w t
  consumer_cond_at waiting a w t = consumer_cond_waited a.wait a.resize_memory w t
  consumer_cond_at (verifying slot) a w t = some (consumer_cond_verify slot w t)
  consumer_cond_at stopping a w t = some (
    record w { consumer_active = update w.consumer_active id false },
    record t { pc = CondConsumerPc.exited },
  )
  consumer_cond_at exited a w t = some (w, record t { pc = CondConsumerPc.exited })

  unfoldable pub consumer_cond_step :
      CondAnswers → CondWorld → CondConsumer → Option (CondWorld × CondConsumer)
  consumer_cond_step a w t = consumer_cond_at t.pc a w t
