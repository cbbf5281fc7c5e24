-- ===== src/Records/Fetch.antt =====
-- `do_get` and `do_list` of editor.c, and the checks with which its `main` opens the file.
pub mod Edits
use osa_sp.Base.{
  is_digit, skip_spaces, ℕ, zero, suc, ◌+◌, ◌-◌, ◌*◌, ◌%◌, ◌/◌, Bool, true, false, not, ◌&&◌, ◌||◌,
  Option, none, some, List, [], ◌∷◌, ltb, leb, ◌==◌, if◌then◌else◌, length, get_elem?, take, ℤ, pos,
  negsuc,
}
use osa_sp.Records.{Record, Editor}
use osa_sp.Records.Input.{
  name_len, addr_len, skip_line, strncpy, Answer, end_of_input, keep, typed, read_text, read_number,
}

-- `sizeof(record_t)`
abbrev pub record_size : ℕ
record_size = name_len + addr_len + 4

-- `main`: the number of records of a file of `size` bytes; `none` is the exit on a size that fits no
-- number of records.
unfoldable pub count_records : ℕ → Option ℕ
count_records size = if not (size % record_size == 0) then none else some (size / record_size)

-- `do_list`: the records that it prints, up to the first that it cannot read.
unfoldable pub do_list : ℕ → List Record → List Record
do_list record_count file = take record_count file

-- `scanf("%d", …)`: the digits, the sign, and the whole; `none` when it converts nothing. A value
-- outside `int`, for which C promises nothing, is kept as it is.
unfoldable pub scan_digits : ℕ → List ℕ → ℕ × List ℕ
scan_digits acc [] = (acc, [])
scan_digits acc (c ∷ rest) =
    let more = scan_digits (acc * 10 + (c - 48)) rest in
    if is_digit c then more else (acc, c ∷ rest)

unfoldable pub scan_unsigned : List ℕ → Option ℕ × List ℕ
scan_unsigned [] = (none, [])
scan_unsigned (c ∷ rest) =
    if is_digit c
    then (some (scan_digits 0 (c ∷ rest)).0, (scan_digits 0 (c ∷ rest)).1)
    else (none, c ∷ rest)

abbrev pub negative : ℕ → ℤ
negative zero = pos 0
negative (suc n) = negsuc n

abbrev pub signed : (ℕ → ℤ) → Option ℕ × List ℕ → Option ℤ × List ℕ
signed f (none, rest) = (none, rest)
signed f (some n, rest) = (some (f n), rest)

unfoldable pub scan_signed : List ℕ → Option ℤ × List ℕ
scan_signed [] = (none, [])
scan_signed (c ∷ rest) =
    if c == 43
    then signed pos (scan_unsigned rest)
    else if c == 45
    then signed negative (scan_unsigned rest)
    else signed pos (scan_unsigned (c ∷ rest))

unfoldable pub scan_int : List ℕ → Option ℤ × List ℕ
scan_int input = scan_signed (skip_spaces input)

-- The record number, if it is one of the file.
unfoldable pub record_number : ℕ → Option ℤ → Option ℕ
record_number record_count none = none
record_number record_count (some (negsuc n)) = none
record_number record_count (some (pos n)) = if ltb n record_count then some n else none

-- Each field's question: enough fuel is one more than the characters that are left.
unfoldable pub after_number : Editor → Option (Answer ℕ) → Option (Editor × List ℕ)
after_number e none = none
after_number e (some end_of_input) = some (e, [])
after_number e (some (keep left)) = some (e, left)
after_number e (some (typed n left)) =
    some (record e { work_rec = record e.work_rec { inventory_number = n } }, left)

unfoldable pub ask_number : Editor → List ℕ → Option (Editor × List ℕ)
ask_number e input = after_number e (read_number (length input + 1) input)

unfoldable pub after_location : Editor → Option (Answer (List ℕ)) → Option (Editor × List ℕ)
after_location e none = none
after_location e (some end_of_input) = some (e, [])
after_location e (some (keep left)) = ask_number e left
after_location e (some (typed s left)) =
    ask_number (record e { work_rec = record e.work_rec { location = strncpy addr_len s } }) left

unfoldable pub ask_location : Editor → List ℕ → Option (Editor × List ℕ)
ask_location e input = after_location e (read_text addr_len (length input + 1) input)

unfoldable pub after_name : Editor → Option (Answer (List ℕ)) → Option (Editor × List ℕ)
after_name e none = none
after_name e (some end_of_input) = some (e, [])
after_name e (some (keep left)) = ask_location e left
after_name e (some (typed s left)) =
    ask_location (record e { work_rec = record e.work_rec { device_name = strncpy name_len s } })
      left

unfoldable pub ask_name : Editor → List ℕ → Option (Editor × List ℕ)
ask_name e input = after_name e (read_text name_len (length input + 1) input)

-- The rest of the number's line, then the three questions; `none` is a wait for ever.
unfoldable pub ask_fields : Editor → Option (List ℕ) → Option (Editor × List ℕ)
ask_fields e none = none
ask_fields e (some input) = ask_name e input

-- `Invalid input.`
unfoldable pub refuse_input : Editor → Option (List ℕ) → Option (Editor × List ℕ)
refuse_input e none = none
refuse_input e (some input) = some (e, input)

-- Reading the record with this number.
unfoldable pub fetch : ℕ → Option Record → Editor → List ℕ → Option (Editor × List ℕ)
fetch rn none e input = some (e, input)
fetch rn (some r) e input =
    ask_fields (record { orig_rec = r; work_rec = r; last_rec_no = rn; has_work = true })
      (skip_line input)

unfoldable pub get_numbered : List Record → Editor → Option ℕ → List ℕ → Option (Editor × List ℕ)
get_numbered file e none input = refuse_input e (skip_line input)
get_numbered file e (some rn) input = fetch rn (get_elem? file rn) e input

-- `do_get`: the editor and the input that it leaves.
unfoldable pub do_get : ℕ → List Record → Editor → List ℕ → Option (Editor × List ℕ)
do_get record_count file e input =
    get_numbered file e (record_number record_count (scan_int input).0) (scan_int input).1
