-- ===== src/Sockets/Client.antt =====
-- client.c: the lines that come from the server, `read_line` to `handle_server_line`, the wait for a
-- prompt, and the script of a command `@file`. The allocations of `read_line` succeed.
pub mod Lines
pub mod Replies
pub mod Script
use osa_sp.Base.{
  ℕ, zero, suc, ◌+◌, Bool, true, false, Option, none, some, List, [], ◌∷◌, ◌++◌, ◌==◌,
  if◌then◌else◌, length, same_bytes, newline, codes, until_newline,
}

-- The bytes of `read_buffer` that are still to read, and what the calls of `recv` to come give: bytes,
-- or none at the end and after an error. With no call left the program waits, which counts as the end.
pub record Stream : Type 0 where
  pub buffer : List ℕ
  pub recvs : List (List ℕ)

abbrev pub stream : List ℕ → List (List ℕ) → Stream
stream buffer recvs = record { buffer = buffer; recvs = recvs }

-- The loop of `read_line` over the buffer: the line it completes and what is left, or the line so far.
pub data Scan : Type 0 where
  found : List ℕ → List ℕ → Scan
  more : List ℕ → Scan

unfoldable pub scan : List ℕ → List ℕ → Scan
scan out [] = more out
scan out (c ∷ buffer) =
    let rest = scan (out ++ (c ∷ [])) buffer in if c == newline then found out buffer else rest

-- A line and the stream behind it; the line is absent for NULL.
pub record Read : Type 0 where
  pub got : Option (List ℕ)
  pub left : Stream

abbrev pub read : Option (List ℕ) → Stream → Read
read got left = record { got = got; left = left }

unfoldable pub refill : List ℕ → List (List ℕ) → Read
refill out [] = read none (stream [] [])
refill out ([] ∷ recvs) = read none (stream [] recvs)
refill out ((c ∷ chunk) ∷ recvs) = elim (scan out (c ∷ chunk)) [
  | found line buffer ↦ read (some line) (stream buffer recvs)
  | more out' ↦ refill out' recvs
]

unfoldable pub read_line : Stream → Read
read_line s = elim (scan [] s.buffer) [
  | found line buffer ↦ read (some line) (stream buffer s.recvs)
  | more out ↦ refill out s.recvs
]

-- The string in the memory of a line: its bytes before a null byte.
unfoldable pub c_string : List ℕ → List ℕ
c_string [] = []
c_string (c ∷ s) = let rest = c_string s in if c == 0 then [] else c ∷ rest

unfoldable pub is_prompt : List ℕ → Bool
is_prompt [] = false
is_prompt (c ∷ []) = c == b'>'
is_prompt (c ∷ d ∷ s) = is_prompt (d ∷ s)

-- What `handle_server_line` returns: 0, 1 and 2.
pub data Status : Type 0 where
  shown ended prompted : Status

-- The variable `prompt`, the lines printed, and the stream.
pub record Screen : Type 0 where
  pub prompt : Option (List ℕ)
  pub printed : List (List ℕ)
  pub input : Stream

abbrev pub screen : Option (List ℕ) → List (List ℕ) → Stream → Screen
screen prompt printed input = record { prompt = prompt; printed = printed; input = input }

pub record Handled : Type 0 where
  pub status : Status
  pub after : Screen

abbrev pub handled : Status → Screen → Handled
handled status after = record { status = status; after = after }

unfoldable pub handle_line : Screen → Stream → Option (List ℕ) → Handled
handle_line s left none = handled ended (screen none s.printed left)
handle_line s left (some line) =
    if is_prompt line
    then handled prompted (screen (some line) s.printed left)
    else if same_bytes line (codes "BYE")
    then handled ended (screen none (s.printed ++ (line ∷ [])) left)
    else handled shown (screen s.prompt (s.printed ++ (line ∷ [])) left)

abbrev pub as_string : Option (List ℕ) → Option (List ℕ)
as_string none = none
as_string (some line) = some (c_string line)

unfoldable pub handle_server_line : Screen → Handled
handle_server_line s = let r = read_line s.input in handle_line s r.left (as_string r.got)

-- The loop that reads lines until one is a prompt or the last one; `shown` is a loop that ran out of
-- fuel, as it does when `client_running` goes to 0.
unfoldable pub await_prompt : ℕ → Screen → Handled
await_prompt zero s = handled shown s
await_prompt (suc fuel) s =
    let h = handle_server_line s in
    let rest = await_prompt fuel h.after in
    elim h.status [ shown ↦ rest | ended ↦ h | prompted ↦ h ]
