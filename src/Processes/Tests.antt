-- ===== src/Processes/Tests.antt =====
-- The processes at concrete inputs.
use osa_sp.Base.{
  ℕ, zero, suc, ◌+◌, ◌*◌, ◌%◌, ◌^◌, ◌≤◌, ◌<◌, ◌≡◌, ◌≢◌, ◌⊎◌, refl, true, List, [], ◌∷◌, arith,
  length, length-replicate, replicate, sum_below,
}
use osa_sp.Processes.Checksum.{
  MsgPayload, zero_message, compute_checksum, generate_and_fill_message, process_and_verify_message,
}
use osa_sp.Processes.Checksum.Coverage.{mix_all, checked_bytes, compute_checksum-coverage}
use osa_sp.Processes.Checksum.Verify.{generated_verifies}
use osa_sp.Processes.Buffer.{QueueBuffer}
use osa_sp.Processes.Buffer.Fifo.{IsValid}
use osa_sp.Processes.System.{
  Producer, Consumer, System, Action, produce, consume, kill_producer, killed_producer,
  spawn_producer, spawn_consumer, run, system_init,
}
use osa_sp.Processes.Buffer.{AddPoint, stored_to, interrupted_add}
use osa_sp.Processes.System.Local.{producer_inside, consumer_inside, IsServed}
use osa_sp.Processes.System.Safety.{processes_safe}
use osa_sp.Processes.System.Frozen.{IsFrozen}
use osa_sp.Processes.System.Freeze.{IsHeldBy, kill_inside_freezes, full_queue_freezes}
use osa_sp.Processes.Control.{Table}
use osa_sp.Processes.Control.Children

abbrev lcg : ℕ → ℕ × ℕ
lcg s = ((s * 1103515245 + 12345) % 2 ^ 31, (s * 1103515245 + 12345) % 2 ^ 31)

abbrev sample : MsgPayload
sample = record {
  msg_type = 0;
  gap = 0;
  msg_hash = 0;
  data_len_bytes = 5;
  payload_data = 104 ∷ 101 ∷ 108 ∷ 108 ∷ 111 ∷ [];
}

compute_checksum-coverage_example :
    compute_checksum sample ≡ mix_all 5381 (checked_bytes sample) % 2 ^ 16
compute_checksum-coverage_example = compute_checksum-coverage sample

generated_verifies_example :
    let (g, state') = generate_and_fill_message lcg zero_message 7 in
    (process_and_verify_message g ≡ (true, g))
    × (g.data_len_bytes < 256)
    × (length g.payload_data ≡ 256)
generated_verifies_example = generated_verifies lcg zero_message 7 refl

-- A queue that holds `n` messages, the oldest at index 0.
abbrev holding : ℕ → QueueBuffer
holding n = record {
  total_added_count = n;
  total_extracted_count = 0;
  current_msg_count = n;
  buffer_head_idx = n;
  buffer_tail_idx = 0;
  message_buffer = replicate 4096 zero_message;
}

holding_2-IsValid : IsValid (holding 2)
holding_2-IsValid = record {
  allocated = length-replicate 4096 zero_message;
  tail_in = omega arith;
  count_in = omega arith;
  head_in = omega arith;
  head_at = refl;
  totals = refl;
}

full-IsValid : IsValid (holding 4095)
full-IsValid = record {
  allocated = length-replicate 4096 zero_message;
  tail_in = omega arith;
  count_in = omega arith;
  head_in = omega arith;
  head_at = refl;
  totals = refl;
}

-- Two producers and a consumer start; one producer is killed on its way, the other one later amid the
-- stores of its second message.
abbrev script : List Action
script =
    spawn_producer 0 7
    ∷ spawn_producer 1 8
    ∷ spawn_consumer 0
    ∷ produce 0
    ∷ produce 0
    ∷ produce 1
    ∷ produce 0
    ∷ produce 0
    ∷ produce 0
    ∷ kill_producer 1 AddPoint.nothing_stored
    ∷ produce 0
    ∷ consume 0
    ∷ consume 0
    ∷ consume 0
    ∷ consume 0
    ∷ consume 0
    ∷ produce 0
    ∷ produce 0
    ∷ produce 0
    ∷ kill_producer 0 AddPoint.head_moved
    ∷ []

processes_safe_example :
    let s = run lcg script (system_init (holding 0)) in
    (IsValid s.shared.queue
      ⊎ (IsFrozen s × ((later : List Action) → (run lcg later s).shared.queue ≡ s.shared.queue)))
    × (s.shared.mutex
          + sum_below producer_inside 2 s.producers
          + sum_below consumer_inside 2 s.consumers
        ≤ 1)
    × ((i : ℕ) → IsServed (s.consumers i))
    × (s.shared.filled_slots ≤ s.shared.queue.current_msg_count)
processes_safe_example =
    processes_safe 2 lcg script (holding 0) (length-replicate 4096 zero_message) (omega arith)

-- Producer 0 is about to add a message to a queue with 4095 messages.
abbrev at_the_limit : System
at_the_limit = record {
  shared = record { queue = holding 4095; mutex = 0; empty_slots = 0; filled_slots = 4095 };
  producers = λ i. elim i [ zero ↦ Producer.adding 7 sample | suc _ ↦ Producer.absent ];
  consumers = λ _. Consumer.absent;
}

at_the_limit-IsHeldBy : IsHeldBy 0 at_the_limit
at_the_limit-IsHeldBy = record {
  taken = refl;
  others = λ j ne. others j ne;
  no_consumer = λ j. refl;
}
  where
    others : (j : ℕ) → 0 ≢ j → producer_inside (at_the_limit.producers j) ≡ 0
    others zero ne = absurd (ne refl)
    others (suc j) ne = refl

full_queue_freezes_example :
    let t = run lcg (produce 0 ∷ consume 0 ∷ []) at_the_limit in
    (t.shared.queue ≡ holding 4095) × IsFrozen t
full_queue_freezes_example =
    full_queue_freezes lcg (consume 0 ∷ []) at_the_limit 0 7 sample at_the_limit-IsHeldBy refl
      full-IsValid refl

-- Producer 0 is about to add a message to a queue with 7 messages.
abbrev partly_full : System
partly_full = record {
  shared = record { queue = holding 7; mutex = 0; empty_slots = 4088; filled_slots = 7 };
  producers = λ i. elim i [ zero ↦ Producer.adding 7 sample | suc _ ↦ Producer.absent ];
  consumers = λ _. Consumer.absent;
}

partly_full-IsHeldBy : IsHeldBy 0 partly_full
partly_full-IsHeldBy = record {
  taken = refl;
  others = λ j ne. others j ne;
  no_consumer = λ j. refl;
}
  where
    others : (j : ℕ) → 0 ≢ j → producer_inside (partly_full.producers j) ≡ 0
    others zero ne = absurd (ne refl)
    others (suc j) ne = refl

kill_inside_freezes_example :
    let t = run lcg (kill_producer 0 AddPoint.copied ∷ spawn_producer 1 7 ∷ []) partly_full in
    (t.shared.queue ≡ stored_to AddPoint.copied sample (holding 7)) × IsFrozen t
unfolding killed_producer interrupted_add
kill_inside_freezes_example =
    kill_inside_freezes lcg (spawn_producer 1 7 ∷ []) partly_full 0 AddPoint.copied
      partly_full-IsHeldBy

abbrev two_children : Table
two_children = record { pids = 500 ∷ 501 ∷ replicate 1022 0; active_count = 2 }

two_children-IsValid : Children.IsValid two_children
two_children-IsValid = record { allocated = refl; below = omega arith }
