-- ===== src/Records/Rounds.antt =====
-- One round of `do_put`, and the rounds that follow a conflict.
use osa_sp.Base.{
  same_bytes, ℕ, zero, suc, ◌≡◌, ◌⊎◌, inl, inr, refl, sym, ap, ap₂, ◌∙◌, true, false, Bool-cases,
  Option, some, List, [], ◌∷◌, arith, ==_iff, get_elem?, set, Option-cases, ◌++◌,
}
use osa_sp.Records.{
  Record, same_record, Editor, Round, Report, query_error, lock_error, read_error, write_error,
  updated, RoundEnd, again, finished, compare_and_write, reread, put_round, put_loop,
}

same_bytes_lem : (xs ys : List ℕ) → same_bytes xs ys ≡ true → xs ≡ ys
same_bytes_lem [] [] h = refl
same_bytes_lem [] (y ∷ ys) h = cc h
same_bytes_lem (x ∷ xs) [] h = cc h
same_bytes_lem (x ∷ xs) (y ∷ ys) h =
    ap₂ ◌∷◌ ((==_iff x y).0 (ground (arith, h))) (same_bytes_lem xs ys (ground (arith, h)))

same_bytes_self : (xs : List ℕ) → same_bytes xs xs ≡ true
same_bytes_self [] = refl
same_bytes_self (x ∷ xs) = rw ((==_iff x x).1 refl, same_bytes_self xs) refl

-- `memcmp` says whether two records are equal.
pub same_record_lem : (r s : Record) → same_record r s ≡ true → r ≡ s
same_record_lem r s h =
    let names = same_bytes_lem r.device_name s.device_name (ground (arith, h)) in
    let places = same_bytes_lem r.location s.location (ground (arith, h)) in
    let numbers : r.inventory_number ≡ s.inventory_number = ground (arith, h) in
    cc (names, places, numbers)

pub same_record_self : (r : Record) → same_record r r ≡ true
same_record_self r =
    rw (same_bytes_self r.device_name, same_bytes_self r.location)
      ((==_iff _ r.inventory_number).1 refl)

pub set-get_elem? :
    (xs : List Record) (i : ℕ) (v : Record) → get_elem? xs i ≡ some v → set xs i v ≡ xs
set-get_elem? [] i v h = refl
set-get_elem? (x ∷ xs) zero v h = ap (λ y. y ∷ xs) (cc h)
set-get_elem? (x ∷ xs) (suc i) v h = ap (λ l. x ∷ l) (set-get_elem? xs i v h)

-- How one round ends: with the file as the others left it, with the edit written over the record that
-- was fetched, or with a conflict.
abbrev pub RoundCases : Round → Editor → List Record → RoundEnd × List Record → Type 0
RoundCases r e file outcome =
    ((report : Report) × (e' : Editor) × (outcome ≡ (finished report e', file)))
    ⊎ ((report : Report) × (e' : Editor) × (outcome ≡ (finished report e', r.others file)))
    ⊎ ((outcome ≡ (
      finished updated (record e { has_work = false }),
      set (r.others file) e.last_rec_no e.work_rec,
    ))
        × (get_elem? (r.others file) e.last_rec_no ≡ some e.orig_rec))
    ⊎ ((current : Record) × (outcome
          ≡ (again (record e { orig_rec = current; work_rec = current }), r.others file)))

pub round_cases :
    (r : Round) (e : Editor) (file : List Record) → RoundCases r e file (put_round r e file)
unfolding put_round reread compare_and_write
round_cases r e file = elim (Bool-cases r.query_ok) [
  | inr a ↦ inl (query_error, e, rw a refl)
  | inl a ↦ elim (Bool-cases r.lock_ok) [
    | inr b ↦ inr (inl (lock_error, e, rw (a, b) refl))
    | inl b ↦ elim (Option-cases (get_elem? (r.others file) e.last_rec_no)) [
      | inl missing ↦ inr (inl (read_error, e, rw (a, b, missing) refl))
      | inr (current, found) ↦ elim (Bool-cases r.read_ok) [
        | inr c ↦ inr (inl (read_error, e, rw (a, b, found, c) refl))
        | inl c ↦ elim (Bool-cases (same_record current e.orig_rec)) [
          | inr d ↦ inr (inr (inr (current, rw (a, b, found, c, d) refl)))
          | inl d ↦ elim (Bool-cases r.write_ok) [
            | inr w ↦ inr (inl (write_error, e, rw (a, b, found, c, d, w) refl))
            | inl w ↦ inr (
                inr (
                  inl (
                    rw (a, b, found, c, d, w) refl,
                    found ∙ ap some (same_record_lem current e.orig_rec d),
                  )))
          ]
        ]
      ]
    ]
  ]
]

-- The file after what the others do in these rounds.
abbrev pub interfered : List Round → List Record → List Record
interfered [] file = file
interfered (r ∷ rest) file = interfered rest (r.others file)

-- The file is as the others left it in the first rounds.
abbrev pub OthersOnly : List Round → List Record → List Record → Type 0
OthersOnly rounds file file' =
    (before : List Round) × (after : List Round) × (rounds ≡ before ++ after)
    × (file' ≡ interfered before file)

abbrev pub loop_after : List Round → RoundEnd × List Record → Option (Report × Editor × List Record)
loop_after rest (finished report e', file') = some (report, e', file')
loop_after rest (again e', file') = put_loop rest e' file'

put_loop_lem :
    (r : Round) (rest : List Round) (e : Editor) (file : List Record)
    → put_loop (r ∷ rest) e file ≡ loop_after rest (put_round r e file)
unfolding put_loop
put_loop_lem r rest e file = go (put_round r e file)
  where
    go :
        (o : RoundEnd × List Record)
        → (let (ending, file') = o in
            elim ending [
              | finished report e' ↦ some (report, e', file')
              | again e' ↦ put_loop rest e' file'
            ])
          ≡ loop_after rest o
    go (finished report e', file') = refl
    go (again e', file') = refl

pub after_round :
    (r : Round) (rest : List Round) (e : Editor) (file : List Record) (o : RoundEnd × List Record)
    → put_round r e file ≡ o
    → put_loop (r ∷ rest) e file ≡ loop_after rest o
after_round r rest e file o h = put_loop_lem r rest e file ∙ ap (loop_after rest) h

-- After a conflict the loop writes back what it has just read.
pub loop_keeps :
    (rounds : List Round) (e : Editor) (file : List Record) (report : Report) (e' : Editor)
    (file' : List Record)
    → e.work_rec ≡ e.orig_rec
    → put_loop rounds e file ≡ some (report, e', file')
    → OthersOnly rounds file file'
unfolding put_loop
loop_keeps [] e file report e' file' same h = absurd (cc h)
loop_keeps (r ∷ rest) e file report e' file' same h = elim (round_cases r e file) [
  | inl (report0, e0, o) ↦ ([], r ∷ rest, refl, cc (after_round r rest e file _ o, h))
  | inr (inl (report0, e0, o)) ↦ (r ∷ [], rest, refl, cc (after_round r rest e file _ o, h))
  | inr (inr (inl (o, found))) ↦
      let kept : set (r.others file) e.last_rec_no e.work_rec ≡ r.others file =
        set-get_elem? (r.others file) e.last_rec_no e.work_rec (found ∙ ap some (sym same)) in
      (r ∷ [], rest, refl, cc (kept, after_round r rest e file _ o, h))
  | inr (inr (inr (current, o))) ↦
      let (before, after, split, left) =
        loop_keeps rest (record e { orig_rec = current; work_rec = current }) (r.others file) report
          e' file' refl (sym (after_round r rest e file _ o) ∙ h) in
      (r ∷ before, after, ap (λ l. r ∷ l) split, left)
]
