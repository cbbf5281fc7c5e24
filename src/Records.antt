-- ===== src/Records.antt =====
-- `Read:write locks`: the editor of a file of records that several editors change at once, editor.c
-- with record.h. The file is its list of records; a record is three lists of bytes.
pub mod Rounds
pub mod Save
pub mod Input
pub mod Fetch
pub mod Generation
mod Tests
use osa_sp.Base.{
  same_bytes, ℕ, zero, suc, ◌+◌, ◌%◌, ◌/◌, ◌^◌, Bool, true, false, not, ◌&&◌, Option, none, some,
  List, [], ◌∷◌, ltb, ◌==◌, if◌then◌else◌, length, get_elem?, get_or, set, ℤ, pos, negsuc,
}

-- `record_t`; `inventory_number` is a `uint32_t`.
pub record Record : Type 0 where
  pub device_name : List ℕ
  pub location : List ℕ
  pub inventory_number : ℕ

-- `memcmp(&r, &s, sizeof r) == 0`; the struct has no gap.
abbrev pub same_record : Record → Record → Bool
same_record r s =
    same_bytes r.device_name s.device_name
    && same_bytes r.location s.location
    && (r.inventory_number == s.inventory_number)

-- The editor's globals; `last_rec_no` is -1 until a record has been fetched, and is only read after.
pub record Editor : Type 0 where
  pub orig_rec : Record
  pub work_rec : Record
  pub last_rec_no : ℕ
  pub has_work : Bool

-- One round of the loop of `do_put`: what the other editors do to the file until this one holds the
-- lock, and which of its calls succeed.
pub record Round : Type 0 where
  pub others : List Record → List Record
  pub query_ok : Bool
  pub lock_ok : Bool
  pub read_ok : Bool
  pub write_ok : Bool

-- What `do_put` reports.
pub data Report : Type 0 where
  no_pending_edits no_changes query_error lock_error read_error write_error updated : Report

-- How a round ends: `retry = 1`, or the function returns.
pub data RoundEnd : Type 0 where
  again : Editor → RoundEnd
  finished : Report → Editor → RoundEnd

-- The round once `current` has been read under the lock: the conflict, the write, the success.
unfoldable pub compare_and_write : Record → Bool → Editor → List Record → RoundEnd × List Record
compare_and_write current write_ok e file =
    if not (same_record current e.orig_rec)
    then (again (record e { orig_rec = current; work_rec = current }), file)
    else if not write_ok
    then (finished write_error e, file)
    else (finished updated (record e { has_work = false }), set file e.last_rec_no e.work_rec)

-- Reading the record, which fails behind the end of the file.
unfoldable pub reread : Round → Editor → List Record → Option Record → RoundEnd × List Record
reread r e file none = (finished read_error e, file)
reread r e file (some current) =
    if not r.read_ok
    then (finished read_error e, file)
    else compare_and_write current r.write_ok e file

-- One round of the loop.
unfoldable pub put_round : Round → Editor → List Record → RoundEnd × List Record
put_round r e file =
    if not r.query_ok
    then (finished query_error e, file)
    else (let now = r.others file in
        if not r.lock_ok
        then (finished lock_error e, now)
        else reread r e now (get_elem? now e.last_rec_no))

-- The loop of `do_put`; `none` when the rounds run out before it returns.
unfoldable pub put_loop : List Round → Editor → List Record → Option (Report × Editor × List Record)
put_loop [] e file = none
put_loop (r ∷ rest) e file =
    let (ending, file') = put_round r e file in
    elim ending [
      | finished report e' ↦ some (report, e', file')
      | again e' ↦ put_loop rest e' file'
    ]

unfoldable pub do_put : List Round → Editor → List Record → Option (Report × Editor × List Record)
do_put rounds e file =
    if not e.has_work
    then some (no_pending_edits, e, file)
    else if same_record e.orig_rec e.work_rec
    then some (no_changes, record e { has_work = false }, file)
    else put_loop rounds e file
