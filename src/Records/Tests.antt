-- ===== src/Records/Tests.antt =====
-- The record editor at concrete inputs.
use osa_sp.Base.{
  ℕ, ◌≡◌, ◌≢◌, ◌⊎◌, refl, true, false, some, List, [], ◌∷◌, get_elem?, set, arith, replicate,
}
use osa_sp.Records.{Record, Editor, Round, updated, do_put}
use osa_sp.Records.Input.{until_null}
use osa_sp.Records.Fetch.{ask_name}
use osa_sp.Records.Fetch.Edits.{IsRecord, ask_name_edits}
use osa_sp.Records.Rounds.{OthersOnly}
use osa_sp.Records.Save.{do_put_never_overwrites, do_put_saves, conflict_loses_edit}

-- a device with this inventory number
abbrev device : ℕ → Record
device n = record { device_name = 68 ∷ 0 ∷ []; location = 76 ∷ 0 ∷ []; inventory_number = n }

abbrev file : List Record
file = device 1 ∷ device 2 ∷ device 3 ∷ []

-- The second record was fetched and its number changed to 7.
abbrev editing : Editor
editing = record { orig_rec = device 2; work_rec = device 7; last_rec_no = 1; has_work = true }

abbrev quiet_round : Round
quiet_round = record {
  others = λ f. f;
  query_ok = true;
  lock_ok = true;
  read_ok = true;
  write_ok = true;
}

-- Another editor sets the number to 9.
abbrev busy_round : Round
busy_round = record quiet_round { others = λ f. set f 1 (device 9) }

conflict_loses_edit_example :
    do_put (busy_round ∷ quiet_round ∷ []) editing file
    ≡ some (
      updated,
      record editing { orig_rec = device 9; work_rec = device 9; has_work = false },
      device 1 ∷ device 9 ∷ device 3 ∷ [],
    )
conflict_loses_edit_example =
    conflict_loses_edit busy_round quiet_round [] editing file (device 9) refl refl
      (refl, refl, refl, refl) (refl, refl, refl, refl) refl nine_is_not_two refl
  where
    nine_is_not_two : device 9 ≢ device 2
    nine_is_not_two h = cc h

do_put_never_overwrites_example :
    ((r : Round) × (rest : List Round) × ((quiet_round ∷ []) ≡ r ∷ rest)
      × (get_elem? (r.others file) 1 ≡ some (device 2))
      × ((device 1 ∷ device 7 ∷ device 3 ∷ []) ≡ set (r.others file) 1 (device 7))
      × (updated ≡ updated))
    ⊎ OthersOnly (quiet_round ∷ []) file (device 1 ∷ device 7 ∷ device 3 ∷ [])
do_put_never_overwrites_example =
    do_put_never_overwrites (quiet_round ∷ []) editing file updated
      (record editing { has_work = false }) (device 1 ∷ device 7 ∷ device 3 ∷ [])
      (do_put_saves quiet_round [] editing file refl refl (refl, refl, refl, refl) refl)

-- "abc", a newline, an empty line and "12" with a newline
abbrev typing : List ℕ
typing = 97 ∷ 98 ∷ 99 ∷ 10 ∷ 10 ∷ 49 ∷ 50 ∷ 10 ∷ []

-- A fetched record with empty texts.
abbrev fetched : Editor
fetched =
    let r : Record = record {
      device_name = replicate 80 0;
      location = replicate 80 0;
      inventory_number = 5;
    } in
    record { orig_rec = r; work_rec = r; last_rec_no = 0; has_work = true }

fetched-IsRecord : IsRecord fetched.work_rec
unfolding until_null
fetched-IsRecord = record {
  name = (refl, omega arith);
  place = (refl, omega arith);
  number = omega arith;
}

ask_name_edits_example :
    (e' : Editor) × (left : List ℕ) × (ask_name fetched typing ≡ some (e', left))
    × IsRecord e'.work_rec
    × (e'.orig_rec ≡ fetched.orig_rec)
    × (e'.last_rec_no ≡ 0)
    × (e'.has_work ≡ true)
ask_name_edits_example = ask_name_edits fetched typing fetched-IsRecord
