-- ===== src/Threads/Sem/Tests.antt =====
-- Lab 5.1 at concrete inputs.
use osa_sp.Base.{
  ◌<◌, ◌⊎◌, ℕ, ◌+◌, ◌*◌, ◌%◌, ◌^◌, ◌≡◌, refl, true, none, some, List, [], ◌∷◌, ◌++◌, arith, pos,
}
use osa_sp.Threads.Message.{Message}
use osa_sp.Threads.Ring.Window.{contents, IsValid}
use osa_sp.Threads.Ring.Fifo.{messages}
use osa_sp.Threads.Sem.{QueueSem, fresh_queue, resize_queue_internal_sem}
use osa_sp.Threads.Sem.Queue.{resize_accepted}
use osa_sp.Threads.Sem.Producer.{Wait, Answers}
use osa_sp.Threads.Sem.System.{
  System, Action, produce, consume, request, set_producer, set_consumer, run, start,
}
use osa_sp.Threads.Sem.Invariant.{AllTrue, run_accounts}

abbrev sample : Message
sample = record { type = 7; hash = 0; size = 2; bytes = 10 ∷ 20 ∷ 30 ∷ 0 ∷ [] }

-- one message in a buffer of three slots
abbrev one_message : QueueSem
one_message = record (fresh_queue 3) {
  ring = record {
    buffer = none ∷ some sample ∷ none ∷ [];
    capacity = 3;
    head = 1;
    tail = 2;
    count = 1;
  };
  empty_slots = 2;
  filled_slots = 1;
}

one_message-IsValid : IsValid one_message.ring
one_message-IsValid = record {
  allocated = refl;
  head_in = omega arith;
  count_in = omega arith;
  tail_at = refl;
  written = tt;
}

abbrev lcg : ℕ → ℕ × ℕ
lcg s = ((s * 1103515245 + 12345) % 2 ^ 31, (s * 1103515245 + 12345) % 2 ^ 31)

abbrev yielding : Answers
yielding = record { wait = Wait.acquired; memory = some (λ _. 0); resize_memory = true }

-- A producer adds a message, a larger queue is asked for, and a consumer resizes it and takes it.
abbrev script : List Action
script =
    set_producer 0 true
    ∷ set_consumer 0 true
    ∷ produce 0 yielding
    ∷ produce 0 yielding
    ∷ produce 0 yielding
    ∷ produce 0 yielding
    ∷ produce 0 yielding
    ∷ request true
    ∷ consume 0 yielding
    ∷ consume 0 yielding
    ∷ consume 0 yielding
    ∷ consume 0 yielding
    ∷ consume 0 yielding
    ∷ consume 0 yielding
    ∷ consume 0 yielding
    ∷ consume 0 yielding
    ∷ []

run_accounts_example :
    (s : System) × (run lcg script (start 10 (λ i. i + 1)) ≡ some s)
    × IsValid s.world.queue.ring
    × (s.world.queue.total_added ≡ s.world.queue.total_extracted + s.world.queue.ring.count)
    × (s.world.log.added ≡ s.world.log.extracted ++ messages (contents s.world.queue.ring))
    × AllTrue s.world.log.checks
run_accounts_example = run_accounts lcg script 10 (λ i. i + 1) (omega arith) tt

resize_accepted_example :
    (q' : QueueSem) × (resize_queue_internal_sem true one_message (pos 2) ≡ (pos 0, q'))
    × (contents q'.ring ≡ some sample ∷ [])
    × (q'.ring.capacity ≡ 2)
    × (q'.filled_slots ≡ 1)
    × (((1 < 2) × IsValid q'.ring)
        ⊎ ((one_message.ring.count ≡ 2) × (q'.ring.tail ≡ q'.ring.capacity)))
resize_accepted_example =
    resize_accepted one_message 2 one_message-IsValid (omega arith) (omega arith)
