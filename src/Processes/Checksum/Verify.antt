-- ===== src/Processes/Checksum/Verify.antt =====
-- A generated message passes the consumer's check.
use osa_sp.Base.{
  ℕ, zero, suc, ◌+◌, ◌%◌, ◌<◌, ◌≡◌, refl, sym, ap, ◌∙◌, true, List, ==_iff, ◌==◌, arith, length,
  length-set, set,
}
use osa_sp.Processes.Checksum.{
  MsgPayload, compute_checksum, fill_payload, generate_and_fill_message, process_and_verify_message,
}
use osa_sp.Processes.Checksum.Coverage.{compute_checksum-coverage}

-- The stored hash has no influence on the checksum.
pub compute_checksum-hash :
    (m : MsgPayload) (h : ℕ) → compute_checksum (record m { msg_hash = h }) ≡ compute_checksum m
compute_checksum-hash m h =
    compute_checksum-coverage (record m { msg_hash = h }) ∙ sym (compute_checksum-coverage m)

-- `process_and_verify_message` restores the message that it is given, and finds no mismatch exactly if
-- the stored hash is the checksum.
pub process_and_verify_lem :
    (m : MsgPayload)
    → ((process_and_verify_message m).1 ≡ m)
      × ((process_and_verify_message m).0 ≡ (m.msg_hash == compute_checksum m))
unfolding process_and_verify_message
process_and_verify_lem m = (refl, ap (λ (c : ℕ). m.msg_hash == c) (compute_checksum-hash m 0))

stamped_verifies :
    (f : MsgPayload)
    → process_and_verify_message (record f { msg_hash = compute_checksum f })
      ≡ (true, record f { msg_hash = compute_checksum f })
unfolding process_and_verify_message
stamped_verifies f =
    ap (λ b. (b, record f { msg_hash = compute_checksum f }))
      ((==_iff _ _).1 (sym (compute_checksum-hash f 0)))

module _ (rand : ℕ → ℕ × ℕ) where
  length-fill_payload :
      (n i : ℕ) (payload : List ℕ) (state : ℕ)
      → length (fill_payload rand n i payload state).0 ≡ length payload
  unfolding fill_payload
  length-fill_payload zero i payload state = refl
  length-fill_payload (suc n) i payload state =
      length-fill_payload n (i + 1) (set payload i ((rand state).0 % 256)) (rand state).1
      ∙ length-set payload i ((rand state).0 % 256)

  -- Whatever `rand` draws, a message that a producer generates passes the check of a consumer, and its
  -- length fits the payload array.
  pub generated_verifies :
      (m : MsgPayload) (state : ℕ)
      → length m.payload_data ≡ 256
      → let (g, state') = generate_and_fill_message rand m state in
        (process_and_verify_message g ≡ (true, g))
        × (g.data_len_bytes < 256)
        × (length g.payload_data ≡ 256)
  unfolding generate_and_fill_message
  generated_verifies m state h =
      (stamped_verifies _, ground arith, length-fill_payload _ 0 m.payload_data (rand state).1 ∙ h)
