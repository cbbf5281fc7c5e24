-- ===== src/Threads/Sem/Producer.antt =====
-- `producer_thread_sem` of thread_funcs.c as a state machine. A step ends where another thread may run:
-- at a semaphore operation and at the end of a section under the mutex. Sleeping and printing are left
-- out, but not the number drawn for the time to sleep; what the program prints of messages is kept in `Log`.
use osa_sp.Base.{
  ℕ, ◌+◌, ◌-◌, Bool, false, not, ◌&&◌, ◌||◌, Option, none, some, List, [], ◌∷◌, ◌++◌, leb, ◌==◌,
  if◌then◌else◌, is_zero, update,
}
use osa_sp.Threads.Message.{Message, create_message}
use osa_sp.Threads.Ring.{Ring, put}
use osa_sp.Threads.Semaphore.{sem_post}
use osa_sp.Threads.Sem.{QueueSem}

-- The messages that were added and extracted, and what each consumer's hash check said, in order.
pub record Log : Type 0 where
  pub added : List Message
  pub extracted : List Message
  pub checks : List Bool

-- What all threads share: `queue`, `keep_running` and the two arrays of flags.
pub record World : Type 0 where
  pub queue : QueueSem
  pub keep_running : Bool
  pub producer_active : ℕ → Bool
  pub consumer_active : ℕ → Bool
  pub log : Log

-- How a call of `sem_timedwait` ends: it takes a slot, or times out, or fails otherwise.
pub data Wait : Type 0 where
  acquired timed_out failed : Wait

-- What the system answers to the calls of one step.
pub record Answers : Type 0 where
  pub wait : Wait
  pub memory : Option (ℕ → ℕ)
  pub resize_memory : Bool

pub data ProducerPc : Type 0 where
  at_loop : ProducerPc  -- the test of the `while`
  waiting : ProducerPc  -- in `sem_timedwait`
  admitted : ProducerPc  -- it holds a free slot
  holding : Message → ProducerPc  -- it has made a message
  giving_back : ProducerPc  -- before `sem_post(&queue.empty_slots)` and `continue`
  posting : ProducerPc  -- before `sem_post(&queue.filled_slots)`
  stopping : ProducerPc  -- behind the loop
  exited : ProducerPc

pub record ProducerThread : Type 0 where
  pub pc : ProducerPc
  pub seed : ℕ
  pub messages_produced : ℕ

module _ (rand_r : ℕ → ℕ × ℕ) (id : ℕ) where
  abbrev pub keeps_producing : World → Bool
  keeps_producing w = w.keep_running && w.producer_active id

  -- The loop's test, and the wait for a resize.
  unfoldable pub producer_at_loop : World → ProducerThread → World × ProducerThread
  producer_at_loop w t =
      if keeps_producing w
      then (if is_zero w.queue.resize_request
          then (w, record t { pc = waiting })
          else (w, record t { pc = at_loop }))
      else (w, record t { pc = stopping })

  -- `sem_timedwait(&queue.empty_slots, …)`; at 0 it cannot take a slot, so the thread still waits.
  unfoldable pub producer_waiting : Wait → World → ProducerThread → World × ProducerThread
  producer_waiting acquired w t =
      if w.queue.empty_slots == 0 then (w, record t { pc = waiting }) else (
        record w { queue = record w.queue { empty_slots = w.queue.empty_slots - 1 } },
        record t { pc = admitted },
      )
  producer_waiting timed_out w t =
      if not w.keep_running || not (w.producer_active id)
      then (w, record t { pc = stopping })
      else (w, record t { pc = at_loop })
  producer_waiting failed w t =
      (record w { producer_active = update w.producer_active id false }, record t { pc = stopping })

  abbrev pub give_slot_back : World → World
  give_slot_back w = record w {
    queue = record w.queue { empty_slots = sem_post w.queue.empty_slots };
  }

  -- What follows `create_message`: NULL gives the slot back.
  unfoldable pub producer_created :
      Option Message × ℕ → World → ProducerThread → World × ProducerThread
  producer_created (none, seed) w t = (give_slot_back w, record t { pc = at_loop; seed = seed })
  producer_created (some msg, seed) w t = (w, record t { pc = holding msg; seed = seed })

  unfoldable pub producer_admitted :
      Option (ℕ → ℕ) → World → ProducerThread → World × ProducerThread
  producer_admitted memory w t =
      if not w.keep_running || not (w.producer_active id)
      then (give_slot_back w, record t { pc = stopping })
      else producer_created (create_message rand_r memory t.seed) w t

  -- The fields that adding a message sets.
  abbrev pub record_added : World → Message → Ring Message → World
  record_added w msg ring = record w {
    queue = record w.queue { ring = ring; total_added = w.queue.total_added + 1 };
    log = record w.log { added = w.log.added ++ (msg ∷ []) };
  }

  -- The section under the mutex; `none` is a write outside the buffer.
  unfoldable pub producer_holding :
      Message → World → ProducerThread → Option (World × ProducerThread)
  producer_holding msg w t =
      if leb w.queue.ring.capacity w.queue.ring.count || not (is_zero w.queue.resize_request)
      then some (w, record t { pc = giving_back })
      else (elim (put w.queue.ring msg) [
        | some ring ↦ some (record_added w msg ring, record t { pc = posting })
        | none ↦ none
      ])

  -- One step from the place where the thread stands.
  unfoldable pub producer_at :
      ProducerPc → Answers → World → ProducerThread → Option (World × ProducerThread)
  producer_at at_loop a w t = some (producer_at_loop w t)
  producer_at waiting a w t = some (producer_waiting a.wait w t)
  producer_at admitted a w t = some (producer_admitted a.memory w t)
  producer_at (holding msg) a w t = producer_holding msg w t
  producer_at giving_back a w t = some (give_slot_back w, record t { pc = at_loop })
  producer_at posting a w t = some (
    record w { queue = record w.queue { filled_slots = sem_post w.queue.filled_slots } },
    record t {
      pc = at_loop;
      seed = (rand_r t.seed).1;
      messages_produced = t.messages_produced + 1;
    },
  )
  producer_at stopping a w t =
      some
        (record w { producer_active = update w.producer_active id false }, record t { pc = exited })
  producer_at exited a w t = some (w, record t { pc = exited })

  unfoldable pub producer_step : Answers → World → ProducerThread → Option (World × ProducerThread)
  producer_step a w t = producer_at t.pc a w t
