-- ===== src/Records/Generation.antt =====
-- generation.c: the file of random records that the editor is started on.
use osa_sp.Base.{
  ℕ, zero, suc, ◌+◌, ◌/◌, ◌%◌, ◌≡◌, refl, ap, Option, none, some, List, [], ◌∷◌, ◌++◌, leb,
  if◌then◌else◌, length, codes, arith,
}
use osa_sp.Records.{Record}
use osa_sp.Records.Input.{name_len, addr_len, strncpy}
use osa_sp.Records.Fetch.Edits.{IsRecord, strncpy-IsField}

-- `%03ld` of a number below 1000
abbrev pub three_digits : ℕ → List ℕ
three_digits n = (b'0' + n / 100) ∷ (b'0' + n / 10 % 10) ∷ (b'0' + n % 10) ∷ []

-- `rand`: it takes the generator's state and returns a number with the next state.
module _ (rand : ℕ → ℕ × ℕ) where
  -- The record number `i`: `snprintf` into a field of zeros leaves zeros behind the text.
  unfoldable pub generate_record : ℕ → ℕ → Record × ℕ
  generate_record i state =
      let (d, state') = rand state in
      let (l, state'') = rand state' in
      (
        record {
          device_name = strncpy name_len (codes "Device" ++ three_digits (d % 100));
          location = strncpy addr_len (codes "Location" ++ three_digits (l % 999));
          inventory_number = i % 8 + 1;
        },
        state'',
      )

  -- The loop of `main` with `n` records left, from the record `i` on.
  unfoldable pub generate_records : ℕ → ℕ → ℕ → List Record
  generate_records zero i state = []
  generate_records (suc n) i state =
      (generate_record i state).0 ∷ generate_records n (suc i) (generate_record i state).1

  -- `main` with the number that `strtol` reads, none if something follows it: the file written, when no
  -- call fails.
  unfoldable pub generate_file : Option ℕ → ℕ → Option (List Record)
  generate_file none state = none
  generate_file (some n) state = if leb 10 n then some (generate_records n 0 state) else none

  generate_record-IsRecord : (i state : ℕ) → IsRecord (generate_record i state).0
  unfolding generate_record
  generate_record-IsRecord i state = record {
    name =
        strncpy-IsField name_len (codes "Device" ++ three_digits ((rand state).0 % 100))
          (omega arith);
    place =
        strncpy-IsField addr_len (codes "Location" ++ three_digits ((rand (rand state).1).0 % 999))
          (omega arith);
    number = omega arith;
  }

  abbrev pub AreRecords : List Record → Type 0
  AreRecords [] = Unit
  AreRecords (r ∷ rs) = IsRecord r × AreRecords rs

  -- The generator writes as many records as it is asked for, and each of them is one that the editor
  -- takes: texts that end inside their fields, and a number of 32 bits.
  pub generate_records-AreRecords :
      (n i state : ℕ)
      → (length (generate_records n i state) ≡ n) × AreRecords (generate_records n i state)
  unfolding generate_records
  generate_records-AreRecords zero i state = (refl, tt)
  generate_records-AreRecords (suc n) i state =
      let (size, good) = generate_records-AreRecords n (suc i) (generate_record i state).1 in
      (ap suc size, (generate_record-IsRecord i state, good))
