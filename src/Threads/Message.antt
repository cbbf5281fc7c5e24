-- ===== src/Threads/Message.antt =====
-- message.h and message.c: a message with its payload, the hash that is stored in it, and
-- `create_message`, over any `rand_r`.
pub mod Hash
pub mod Create
mod Tests
use osa_sp.Base.{
  ℕ, zero, suc, ◌+◌, ◌-◌, ◌*◌, ◌/◌, ◌%◌, ◌^◌, bit_xor, bit_or, Bool, true, false, Option, none,
  some, List, ltb, leb, if◌then◌else◌, ◌∷◌, [], get_or, set,
}

-- `Message`. The flexible array `data` is the list of the bytes that the allocation holds for it.
pub record Message : Type 0 where
  pub type : ℕ
  pub hash : ℕ
  pub size : ℕ
  pub bytes : List ℕ

abbrev pub max_data_size : ℕ
max_data_size = 255

-- `MESSAGE_HEADER_SIZE`: the sum of the three sizes, without the padding before `hash`
abbrev pub message_header_size : ℕ
message_header_size = 1 + 2 + 1

-- `PADDED_DATA_SIZE(s)`; `& ~3` clears the two low bits.
abbrev pub padded_data_size : ℕ → ℕ
padded_data_size s = (s + 1 + 3) / 4 * 4

-- `TOTAL_MESSAGE_SIZE(s)`
abbrev pub total_message_size : ℕ → ℕ
total_message_size s = message_header_size + padded_data_size s

-- The loop of `calculate_hash`, with `n` rounds left; `none` is the early return of 0xFFFF. A read
-- of `data[i]` beyond the list, which no message of `create_message` has, gives 0.
hash_loop : ℕ → ℕ → ℕ → List ℕ → ℕ → Option ℕ
hash_loop zero i padded bytes hash_val = some hash_val
hash_loop (suc n) i padded bytes hash_val =
    let rest = hash_loop n (i + 1) padded bytes (bit_xor hash_val (get_or bytes i 0)) in
    if leb padded i then none else rest

-- `(hash_val << 8) | (hash_val >> 8)`, cut to `uint16_t`
rotate_hash : ℕ → ℕ
rotate_hash h = bit_or (h * 2 ^ 8) (h / 2 ^ 8) % 2 ^ 16

-- What `calculate_hash` returns when its loop ends.
finish_hash : Option ℕ → ℕ
finish_hash none = 0xFFFF
finish_hash (some h) = rotate_hash h

-- `calculate_hash`; its argument is `none` for a null pointer.
pub calculate_hash : Option Message → ℕ
unfolding finish_hash
calculate_hash none = 0
calculate_hash (some msg) = finish_hash (
    hash_loop (msg.size + 1) 0 (padded_data_size msg.size) msg.bytes
      (bit_xor (bit_xor 0 msg.type) msg.size))

-- The bytes of fresh memory from index `i` on.
memory : ℕ → ℕ → (ℕ → ℕ) → List ℕ
memory zero i junk = []
memory (suc n) i junk = junk i ∷ memory n (i + 1) junk

-- `memset(data + from, 0, n)`
clear_tail : ℕ → ℕ → List ℕ → List ℕ
clear_tail zero from bytes = bytes
clear_tail (suc n) from bytes = clear_tail n (from + 1) (set bytes from 0)

-- `if (padded > len) memset(data + len, 0, padded - len)`
clear_padding : ℕ → List ℕ → List ℕ
clear_padding size bytes =
    let len : ℕ = size + 1 in
    let padded : ℕ = padded_data_size size in
    if ltb len padded then clear_tail (padded - len) len bytes else bytes

-- `msg->hash = calculate_hash(msg)`
stamp : Message → Message
stamp msg = record msg { hash = calculate_hash (some msg) }

-- The end of `create_message`: the padding is cleared and the hash stored.
seal : ℕ → ℕ → Option (List ℕ) → Option Message
seal type size none = none
seal type size (some bytes) =
    some (stamp (record { type = type; hash = 0; size = size; bytes = clear_padding size bytes }))

-- `rand_r`: it takes the seed and returns a number with the next seed.
module _ (rand_r : ℕ → ℕ × ℕ) where
  -- The loop of `create_message` that writes `data[i]`, with `n` rounds left; `none` is the return
  -- of NULL behind the bounds check.
  fill_loop : ℕ → ℕ → ℕ → List ℕ → ℕ → Option (List ℕ) × ℕ
  fill_loop zero i padded bytes seed = (some bytes, seed)
  fill_loop (suc n) i padded bytes seed =
      let (r, seed') = rand_r seed in
      let rest = fill_loop n (i + 1) padded (set bytes i (r % 256)) seed' in
      if leb padded i then (none, seed) else rest

  -- `create_message`. `fresh` is what `malloc` returns: NULL, or the bytes that the memory of
  -- `data` happens to hold, by index. The new seed is the second result.
  pub create_message : Option (ℕ → ℕ) → ℕ → Option Message × ℕ
  create_message none seed = let (r, seed') = rand_r seed in (none, seed')
  create_message (some junk) seed =
      let (r, seed₁) = rand_r seed in
      let size : ℕ = r % (max_data_size + 1) in
      let (t, seed₂) = rand_r seed₁ in
      let padded : ℕ = padded_data_size size in
      let (filled, seed₃) = fill_loop (size + 1) 0 padded (memory padded 0 junk) seed₂ in
      (seal (t % 256) size filled, seed₃)
