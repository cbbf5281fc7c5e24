-- ===== src/Records/Fetch/Edits.antt =====
-- What `do_get` leaves in the editor.
use osa_sp.Base.{
  ℕ, suc, ◌+◌, ◌-◌, ◌<◌, ◌≤◌, ◌≡◌, inl, inr, refl, sym, ◌∙◌, Bool-cases, Option, some, List, [],
  ◌∷◌, ◌++◌, arith, ◌==◌, length, length-append, length-replicate, replicate, ◌^◌,
}
use mathlib.Core.Path.{subst}
use osa_sp.Records.{Record, Editor}
use osa_sp.Records.Input.{
  name_len, addr_len, until_null, strncpy, Answer, end_of_input, keep, typed,
}
use osa_sp.Records.Input.Fields.{TextOk, NumberOk, read_text_answers, read_number_answers}
use osa_sp.Records.Fetch.{
  after_number, ask_number, after_location, ask_location, after_name, ask_name,
}

-- A field of `len` bytes with a string that ends inside it.
abbrev pub IsField : ℕ → List ℕ → Type 0
IsField len s = (length s ≡ len) × (length (until_null s) < len)

pub record IsRecord (r : Record) : Type 0 where
  pub name : IsField name_len r.device_name
  pub place : IsField addr_len r.location
  pub number : r.inventory_number < 2 ^ 32

until_null_short : (s : List ℕ) (k : ℕ) → length (until_null (s ++ replicate (suc k) 0)) ≤ length s
unfolding until_null
until_null_short [] k = omega arith
until_null_short (c ∷ s) k = elim (Bool-cases (c == 0)) [
  | inl e ↦ rw e (omega arith)
  | inr e ↦ rw e (omega (arith, until_null_short s k))
]

pub strncpy-IsField : (len : ℕ) (s : List ℕ) → length s < len → IsField len (strncpy len s)
strncpy-IsField len s h = (
  length-append s (replicate (len - length s) 0)
      ∙ omega (arith, h, length-replicate {A = ℕ} (len - length s) 0),
  subst (λ k. length (until_null (s ++ replicate k 0)) < len) (sym some_room)
      (omega (arith, h, until_null_short s (len - length s - 1))),
)
  where
    some_room : len - length s ≡ suc (len - length s - 1)
    some_room = omega (arith, h)

-- The questions end with a good record and the other fields as they were.
abbrev Edited : Editor → Option (Editor × List ℕ) → Type 0
Edited e outcome =
    (e' : Editor) × (left : List ℕ) × (outcome ≡ some (e', left))
    × IsRecord e'.work_rec
    × (e'.orig_rec ≡ e.orig_rec)
    × (e'.last_rec_no ≡ e.last_rec_no)
    × (e'.has_work ≡ e.has_work)

number_edits :
    (e : Editor) (a : Answer ℕ)
    → IsRecord e.work_rec
    → NumberOk a
    → Edited e (after_number e (some a))
unfolding after_number
number_edits e end_of_input v ok = (e, [], refl, v, refl, refl, refl)
number_edits e (keep left) v ok = (e, left, refl, v, refl, refl, refl)
number_edits e (typed n left) v ok = (
  record e { work_rec = record e.work_rec { inventory_number = n } },
  left,
  refl,
  record { name = v.name; place = v.place; number = ok },
  refl,
  refl,
  refl,
)

ask_number_edits :
    (e : Editor) (input : List ℕ) → IsRecord e.work_rec → Edited e (ask_number e input)
unfolding ask_number
ask_number_edits e input v =
    let (a, done, ok) = read_number_answers (length input + 1) input (omega arith) in
    subst (λ x. Edited e (after_number e x)) (sym done) (number_edits e a v ok)

location_edits :
    (e : Editor) (a : Answer (List ℕ))
    → IsRecord e.work_rec
    → TextOk addr_len a
    → Edited e (after_location e (some a))
unfolding after_location
location_edits e end_of_input v ok = (e, [], refl, v, refl, refl, refl)
location_edits e (keep left) v ok = ask_number_edits e left v
location_edits e (typed s left) v ok =
    ask_number_edits (record e { work_rec = record e.work_rec { location = strncpy addr_len s } })
      left (record { name = v.name; place = strncpy-IsField addr_len s ok.1; number = v.number })

ask_location_edits :
    (e : Editor) (input : List ℕ) → IsRecord e.work_rec → Edited e (ask_location e input)
unfolding ask_location
ask_location_edits e input v =
    let (a, done, ok) = read_text_answers addr_len (length input + 1) input (omega arith) in
    subst (λ x. Edited e (after_location e x)) (sym done) (location_edits e a v ok)

name_edits :
    (e : Editor) (a : Answer (List ℕ))
    → IsRecord e.work_rec
    → TextOk name_len a
    → Edited e (after_name e (some a))
unfolding after_name
name_edits e end_of_input v ok = (e, [], refl, v, refl, refl, refl)
name_edits e (keep left) v ok = ask_location_edits e left v
name_edits e (typed s left) v ok =
    ask_location_edits
      (record e { work_rec = record e.work_rec { device_name = strncpy name_len s } }) left
      (record { name = strncpy-IsField name_len s ok.1; place = v.place; number = v.number })

-- Whatever the user types, the three questions of `do_get` about a well-formed record end. The record
-- that is edited is well formed: its texts end inside their 80 bytes and its number has 32 bits. The
-- fetched record, its number and `has_work` are as they were.
pub ask_name_edits :
    (e : Editor) (input : List ℕ)
    → IsRecord e.work_rec
    → (e' : Editor) × (left : List ℕ) × (ask_name e input ≡ some (e', left))
      × IsRecord e'.work_rec
      × (e'.orig_rec ≡ e.orig_rec)
      × (e'.last_rec_no ≡ e.last_rec_no)
      × (e'.has_work ≡ e.has_work)
unfolding ask_name
ask_name_edits e input v =
    let (a, done, ok) = read_text_answers name_len (length input + 1) input (omega arith) in
    subst (λ x. Edited e (after_name e x)) (sym done) (name_edits e a v ok)
