-- ===== src/Processes/Checksum.antt =====
-- `MsgPayload` and `compute_checksum` of shared_buffer_types.c, with their callers
-- `generate_and_fill_message` and `process_and_verify_message`.
pub mod Coverage
pub mod Verify
use osa_sp.Base.{
  ℕ, zero, suc, ◌+◌, ◌-◌, ◌*◌, ◌/◌, ◌%◌, ◌^◌, Bool, true, false, not, ◌&&◌, List, [], ◌∷◌, ltb, leb,
  ◌==◌, if◌then◌else◌, get_or, set, replicate,
}

abbrev pub max_payload_size : ℕ
max_payload_size = (256 + 3) / 4 * 4

-- `MsgPayload`, each field by its bit pattern: `msg_type` -1 is 255, and a `char` is its byte. `gap` is
-- the byte that the compiler leaves between `msg_type` and `msg_hash`.
pub record MsgPayload : Type 0 where
  pub msg_type : ℕ
  pub gap : ℕ
  pub msg_hash : ℕ
  pub data_len_bytes : ℕ
  pub payload_data : List ℕ

-- `byte_ptr[i]`: the bytes of the struct as it lies in memory, `msg_hash` at offsets 2 and 3 with its
-- low byte first, the payload from offset 5 on.
abbrev pub byte_at : MsgPayload → ℕ → ℕ
byte_at m zero = m.msg_type
byte_at m (suc zero) = m.gap
byte_at m (suc (suc zero)) = m.msg_hash % 256
byte_at m (suc (suc (suc zero))) = m.msg_hash / 256
byte_at m (suc (suc (suc (suc zero)))) = m.data_len_bytes
byte_at m (suc (suc (suc (suc (suc i))))) = get_or m.payload_data i 0

-- `offsetof(MsgPayload, msg_hash)`
abbrev pub hash_field_offset : ℕ
hash_field_offset = 2

-- `hash_val = ((hash_val << 5) + hash_val) + byte` in `uint32_t`
abbrev pub mix : ℕ → ℕ → ℕ
mix hash_val byte = (hash_val * 2 ^ 5 % 2 ^ 32 + hash_val + byte) % 2 ^ 32

-- The loop of `compute_checksum`, with `n` rounds left.
pub checksum_loop : ℕ → ℕ → MsgPayload → ℕ → ℕ
checksum_loop zero i msg hash_val = hash_val
checksum_loop (suc n) i msg hash_val = checksum_loop n (i + 1) msg (
    if leb hash_field_offset i && ltb i (hash_field_offset + 2)
    then hash_val
    else mix hash_val (byte_at msg i))

pub compute_checksum : MsgPayload → ℕ
compute_checksum msg = checksum_loop (1 + 1 + msg.data_len_bytes) 0 msg 5381 % 2 ^ 16

-- A message as `memset(…, 0, sizeof(MsgPayload))` leaves it.
abbrev pub zero_message : MsgPayload
zero_message = record {
  msg_type = 0;
  gap = 0;
  msg_hash = 0;
  data_len_bytes = 0;
  payload_data = replicate max_payload_size 0;
}

-- `rand`: it takes the generator's state and returns a number with the next state.
module _ (rand : ℕ → ℕ × ℕ) where
  -- The loop that fills `payload_data`, with `n` rounds left.
  pub fill_payload : ℕ → ℕ → List ℕ → ℕ → List ℕ × ℕ
  fill_payload zero i payload state = (payload, state)
  fill_payload (suc n) i payload state =
      let (r, state') = rand state in fill_payload n (i + 1) (set payload i (r % 256)) state'

  -- `generate_and_fill_message`, with the new state of the generator
  pub generate_and_fill_message : MsgPayload → ℕ → MsgPayload × ℕ
  generate_and_fill_message msg state =
      let (r, state') = rand state in
      let size : ℕ = r % 257 in
      let type : ℕ = if size == 256 then 255 else 0 in
      let len : ℕ = if size == 256 then 0 else size in
      let (payload, state'') = fill_payload len 0 msg.payload_data state' in
      let filled : MsgPayload = record msg {
        msg_type = type;
        data_len_bytes = len;
        payload_data = payload;
        msg_hash = 0;
      } in
      (record filled { msg_hash = compute_checksum filled }, state'')

-- `process_and_verify_message`: whether the checksums agree, and the message that it leaves.
pub process_and_verify_message : MsgPayload → Bool × MsgPayload
process_and_verify_message msg =
    let original_msg_hash = msg.msg_hash in
    let cleared : MsgPayload = record msg { msg_hash = 0 } in
    let calculated_checksum = compute_checksum cleared in
    (original_msg_hash == calculated_checksum, record cleared { msg_hash = original_msg_hash })
