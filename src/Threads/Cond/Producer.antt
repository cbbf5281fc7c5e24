-- ===== src/Threads/Cond/Producer.antt =====
-- `producer_thread_cond` of thread_funcs.c as a state machine. The thread holds the mutex from the
-- place `locking` until it waits, continues or leaves, so a step ends there. Sleeping and printing are
-- left out, but not the number that is drawn for the time to sleep.
use osa_sp.Base.{
  ℕ, ◌+◌, Bool, false, not, ◌&&◌, ◌||◌, Option, none, some, [], ◌∷◌, ◌++◌, ◌==◌, if◌then◌else◌,
  is_zero, update,
}
use osa_sp.Threads.Message.{Message, create_message}
use osa_sp.Threads.Ring.{Ring, put}
use osa_sp.Threads.Sem.Producer.{Log}
use osa_sp.Threads.Cond.{QueueCond}

-- What all threads share: `queue_cond`, `keep_running` and the two arrays of flags.
pub record CondWorld : Type 0 where
  pub queue : QueueCond
  pub keep_running : Bool
  pub producer_active : ℕ → Bool
  pub consumer_active : ℕ → Bool
  pub log : Log

-- How a call of `pthread_cond_timedwait` ends: a signal or no reason at all, ETIMEDOUT, another error.
pub data CondWait : Type 0 where
  woken timed_out failed : CondWait

-- What the system answers to the calls of one step.
pub record CondAnswers : Type 0 where
  pub wait : CondWait
  pub memory : Option (ℕ → ℕ)
  pub resize_memory : Bool

pub data CondProducerPc : Type 0 where
  at_loop : CondProducerPc  -- the test of the outer `while`
  locking : CondProducerPc  -- before `pthread_mutex_lock`
  waiting : CondProducerPc  -- in `pthread_cond_timedwait`
  stopping : CondProducerPc  -- behind the loop
  exited : CondProducerPc

pub record CondProducer : Type 0 where
  pub pc : CondProducerPc
  pub seed : ℕ
  pub messages_produced : ℕ

-- A full queue, a pending resize, or one in progress.
abbrev pub producer_blocked : QueueCond → Bool
producer_blocked q =
    (q.ring.count == q.ring.capacity) || not (is_zero q.resize_request) || q.resize_in_progress

module _ (rand_r : ℕ → ℕ × ℕ) (id : ℕ) where
  -- The fields that adding a message sets.
  abbrev pub record_added_cond : CondWorld → Message → Ring Message → CondWorld
  record_added_cond w msg ring = record w {
    queue = record w.queue { ring = ring; total_added = w.queue.total_added + 1 };
    log = record w.log { added = w.log.added ++ (msg ∷ []) };
  }

  -- `buffer[tail] = msg` and what goes with it; `none` is a write outside the buffer.
  unfoldable pub producer_cond_put :
      Option Message × ℕ → CondWorld → CondProducer → Option (CondWorld × CondProducer)
  producer_cond_put (none, seed) w t =
      some (w, record t { pc = CondProducerPc.at_loop; seed = seed })
  producer_cond_put (some msg, seed) w t = elim (put w.queue.ring msg) [
    | some ring ↦ some (
      record_added_cond w msg ring,
      record t {
        pc = CondProducerPc.at_loop;
        seed = (rand_r seed).1;
        messages_produced = t.messages_produced + 1;
      },
    )
    | none ↦ none
  ]

  -- Behind the waiting loop, with the mutex held.
  unfoldable pub producer_cond_decide :
      Option (ℕ → ℕ) → CondWorld → CondProducer → Option (CondWorld × CondProducer)
  producer_cond_decide memory w t =
      if not w.keep_running || not (w.producer_active id)
      then some (w, record t { pc = CondProducerPc.stopping })
      else if producer_blocked w.queue
      then some (w, record t { pc = CondProducerPc.at_loop })
      else producer_cond_put (create_message rand_r memory t.seed) w t

  -- The test of the waiting loop.
  unfoldable pub producer_cond_test :
      Option (ℕ → ℕ) → CondWorld → CondProducer → Option (CondWorld × CondProducer)
  producer_cond_test memory w t =
      if producer_blocked w.queue && w.keep_running && w.producer_active id
      then some (w, record t { pc = CondProducerPc.waiting })
      else producer_cond_decide memory w t

  -- The return of `pthread_cond_timedwait`.
  unfoldable pub producer_cond_waited :
      CondWait → Option (ℕ → ℕ) → CondWorld → CondProducer → Option (CondWorld × CondProducer)
  producer_cond_waited woken memory w t = producer_cond_test memory w t
  producer_cond_waited timed_out memory w t = producer_cond_decide memory w t
  producer_cond_waited failed memory w t =
      producer_cond_decide memory
        (record w { keep_running = false; producer_active = update w.producer_active id false }) t

  -- One step from the place where the thread stands.
  unfoldable pub producer_cond_at :
      CondProducerPc → CondAnswers → CondWorld → CondProducer → Option (CondWorld × CondProducer)
  producer_cond_at at_loop a w t =
      if w.keep_running && w.producer_active id
      then some (w, record t { pc = CondProducerPc.locking })
      else some (w, record t { pc = CondProducerPc.stopping })
  producer_cond_at locking a w t = producer_cond_test a.memory w t
  producer_cond_at waiting a w t = producer_cond_waited a.wait a.memory w t
  producer_cond_at stopping a w t = some (
    record w { producer_active = update w.producer_active id false },
    record t { pc = CondProducerPc.exited },
  )
  producer_cond_at exited a w t = some (w, record t { pc = CondProducerPc.exited })

  unfoldable pub producer_cond_step :
      CondAnswers → CondWorld → CondProducer → Option (CondWorld × CondProducer)
  producer_cond_step a w t = producer_cond_at t.pc a w t
