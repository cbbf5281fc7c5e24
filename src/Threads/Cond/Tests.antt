-- ===== src/Threads/Cond/Tests.antt =====
-- Lab 5.2 at concrete inputs.
use osa_sp.Base.{
  ℕ, ◌+◌, ◌*◌, ◌%◌, ◌^◌, ◌≤◌, ◌≡◌, ◌⊎◌, refl, true, false, none, some, List, [], ◌∷◌, ◌++◌, arith,
}
use osa_sp.Threads.Message.{Message}
use osa_sp.Threads.Ring.Window.{contents, IsValid}
use osa_sp.Threads.Ring.Fifo.{messages}
use osa_sp.Threads.Sem.Invariant.{AllTrue}
use osa_sp.Threads.Cond.{QueueCond, fresh_queue_cond}
use osa_sp.Threads.Cond.Producer.{CondWait, CondAnswers}
use osa_sp.Threads.Cond.System.{
  CondSystem, CondAction, produce, consume, request, set_producer, set_consumer, shut_down,
  cond_run, cond_start,
}
use osa_sp.Threads.Cond.Invariant.{WritesPast, cond_run_accounts, cond_growing_stays_inside}

abbrev sample : Message
sample = record { type = 7; hash = 0; size = 2; bytes = 10 ∷ 20 ∷ 30 ∷ 0 ∷ [] }

-- one message in a buffer of three slots
abbrev one_message : QueueCond
one_message = record (fresh_queue_cond 3) {
  ring = record {
    buffer = none ∷ some sample ∷ none ∷ [];
    capacity = 3;
    head = 1;
    tail = 2;
    count = 1;
  };
}

one_message-IsValid : IsValid one_message.ring
one_message-IsValid = record {
  allocated = refl;
  head_in = omega arith;
  count_in = omega arith;
  tail_at = refl;
  written = tt;
}

abbrev lcg : ℕ → ℕ × ℕ
lcg s = ((s * 1103515245 + 12345) % 2 ^ 31, (s * 1103515245 + 12345) % 2 ^ 31)

abbrev answers : CondAnswers
answers = record { wait = CondWait.woken; memory = some (λ _. 0); resize_memory = true }

-- Two messages are added, a larger queue is asked for, and a consumer resizes it and takes one.
abbrev growing : List CondAction
growing =
    set_producer 0 true
    ∷ set_consumer 0 true
    ∷ produce 0 answers
    ∷ produce 0 answers
    ∷ produce 0 answers
    ∷ produce 0 answers
    ∷ request true
    ∷ consume 0 answers
    ∷ consume 0 answers
    ∷ consume 0 answers
    ∷ consume 0 answers
    ∷ consume 0 answers
    ∷ []

-- With five messages in a queue of ten a smaller queue is asked for, which has exactly five slots.
abbrev shrinking : List CondAction
shrinking =
    set_producer 0 true
    ∷ set_consumer 0 true
    ∷ produce 0 answers
    ∷ produce 0 answers
    ∷ request false
    ∷ consume 0 answers
    ∷ consume 0 answers
    ∷ consume 0 answers
    ∷ shut_down
    ∷ []

cond_run_accounts_example :
    WritesPast lcg shrinking (cond_start 10 (λ i. i + 1))
    ⊎ ((s : CondSystem) × (cond_run lcg shrinking (cond_start 10 (λ i. i + 1)) ≡ some s)
        × (s.world.queue.total_added ≡ s.world.queue.total_extracted + s.world.queue.ring.count)
        × (s.world.log.added ≡ s.world.log.extracted ++ messages (contents s.world.queue.ring))
        × AllTrue s.world.log.checks
        × (s.world.queue.resize_in_progress ≡ false))
cond_run_accounts_example = cond_run_accounts lcg shrinking 10 (λ i. i + 1) (omega arith)

cond_growing_stays_inside_example :
    (s : CondSystem) × (cond_run lcg growing (cond_start 10 (λ i. i + 1)) ≡ some s)
    × IsValid s.world.queue.ring
    × (s.world.queue.ring.count ≤ s.world.queue.ring.capacity)
cond_growing_stays_inside_example =
    cond_growing_stays_inside lcg growing 10 (λ i. i + 1) (omega arith)
      (tt, (tt, (tt, (tt, (tt, (tt, (tt, (tt, (tt, (tt, (tt, (tt, tt))))))))))))
