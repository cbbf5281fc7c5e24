-- ===== src/Records/Input.antt =====
-- `do_get`, `do_list` and the command loop of editor.c. Standard input is the list of its characters;
-- a function that waits for a newline behind its end never returns, which is `none`.
pub mod Fields
use osa_sp.Base.{
  ℕ, zero, suc, ◌+◌, ◌-◌, ◌*◌, ◌%◌, ◌/◌, ◌^◌, Bool, true, false, not, ◌&&◌, ◌||◌, Option, none,
  some, List, [], ◌∷◌, ◌++◌, ltb, leb, ◌==◌, if◌then◌else◌, length, get_elem?, take, drop,
  replicate, min, newline, is_space, is_digit, skip_spaces, until_newline,
}
use osa_sp.Records.{Record, Editor, Round, Report, do_put}

-- NAME_LEN and ADDR_LEN
abbrev pub name_len : ℕ
name_len = 80

abbrev pub addr_len : ℕ
addr_len = 80

-- `while (getchar() != '\n');`
unfoldable pub skip_line : List ℕ → Option (List ℕ)
skip_line [] = none
skip_line (c ∷ rest) = let more = skip_line rest in if c == newline then some rest else more

-- `fgets` with room for `n` more characters and the null byte.
unfoldable pub fgets_loop : ℕ → List ℕ → List ℕ × List ℕ
fgets_loop zero input = ([], input)
fgets_loop (suc n) [] = ([], [])
fgets_loop (suc n) (c ∷ rest) =
    let more = fgets_loop n rest in if c == newline then (c ∷ [], rest) else (c ∷ more.0, more.1)

-- `fgets(buf, size, stdin)`; `none` is NULL at the end of the input.
unfoldable pub fgets : ℕ → List ℕ → Option (List ℕ × List ℕ)
fgets size [] = none
fgets size (c ∷ rest) = some (fgets_loop (size - 1) (c ∷ rest))

-- The string in `buf` as it stands.
unfoldable pub until_null : List ℕ → List ℕ
until_null [] = []
until_null (c ∷ rest) = let more = until_null rest in if c == 0 then [] else c ∷ more

-- `strncpy(field, s, size)` of a shorter string: it is followed by null bytes.
abbrev pub strncpy : ℕ → List ℕ → List ℕ
strncpy size s = s ++ replicate (size - length s) 0

-- How the loop of one field ends: at the end of the input, with an empty line, or with a new value;
-- the latter two with the input that is left.
pub data Answer (V : Type 0) : Type 0 where
  end_of_input : Answer V
  keep : List ℕ → Answer V
  typed : V → List ℕ → Answer V

-- `buf[0] == '\n'`
abbrev pub starts_newline : List ℕ → Bool
starts_newline [] = false
starts_newline (c ∷ _) = c == newline

-- The loop that reads a name or a location; `none` when the fuel is used up.
unfoldable pub read_text : ℕ → ℕ → List ℕ → Option (Answer (List ℕ))
read_text len zero input = none
read_text len (suc fuel) [] = some end_of_input
read_text len (suc fuel) (c ∷ rest) =
    let (buf, left) = fgets_loop (addr_len - 1) (c ∷ rest) in
    let retry = read_text len fuel left in
    if starts_newline buf
    then some (keep left)
    else (let s = until_newline buf in
        if ltb 0 (length s) && ltb (length s) len then some (typed s left) else retry)

-- `strtol` on digits: the value, and the character that ends them, a null byte at the end.
unfoldable pub digits : ℕ → List ℕ → ℕ × ℕ
digits acc [] = (acc, 0)
digits acc (c ∷ rest) =
    let more = digits (acc * 10 + (c - 48)) rest in if is_digit c then more else (acc, c)

-- LONG_MAX of a 64-bit `long`
abbrev pub long_max : ℕ
long_max = 2 ^ 63 - 1

-- `strtol(buf, &endptr, 10)` as the loop uses it: the value if it is positive, else 0, and `*endptr`.
-- A number that is too large is LONG_MAX.
unfoldable pub strtol_unsigned : List ℕ → ℕ → ℕ × ℕ
strtol_unsigned [] first = (0, first)
strtol_unsigned (c ∷ rest) first =
    if is_digit c
    then (min (digits 0 (c ∷ rest)).0 long_max, (digits 0 (c ∷ rest)).1)
    else (0, first)

unfoldable pub strtol_signed : List ℕ → ℕ → ℕ × ℕ
strtol_signed [] first = (0, first)
strtol_signed (c ∷ rest) first =
    if c == 43
    then strtol_unsigned rest first
    else if c == 45
    then (0, (strtol_unsigned rest first).1)
    else strtol_unsigned (c ∷ rest) first

unfoldable pub strtol : List ℕ → ℕ × ℕ
strtol [] = (0, 0)
strtol (c ∷ rest) = strtol_signed (skip_spaces (c ∷ rest)) c

-- The loop that reads the inventory number; `none` when the fuel is used up.
unfoldable pub read_number : ℕ → List ℕ → Option (Answer ℕ)
read_number zero input = none
read_number (suc fuel) [] = some end_of_input
read_number (suc fuel) (c ∷ rest) =
    let (buf, left) = fgets_loop (addr_len - 1) (c ∷ rest) in
    let retry = read_number fuel left in
    if starts_newline buf
    then some (keep left)
    else (let (value, ending) = strtol (until_null buf) in
        if ((ending == newline) || (ending == 0)) && ltb 0 value
        then some (typed (value % 2 ^ 32) left)
        else retry)
