-- ===== src/Records/Save.antt =====
-- `do_put`: what it does to the file while other editors change it.
use osa_sp.Base.{
  ◌≡◌, ◌≢◌, ◌⊎◌, inl, inr, refl, sym, ap, ◌∙◌, Bool, true, false, not, Bool-cases, some, List, [],
  ◌∷◌, if◌then◌else◌, get_elem?, set,
}
use osa_sp.Records.{
  Record, same_record, Editor, Round, Report, updated, again, finished, compare_and_write, reread,
  put_round, put_loop, do_put,
}
use osa_sp.Records.Rounds.{
  same_record_lem, same_record_self, set-get_elem?, round_cases, after_round, loop_keeps,
  OthersOnly,
}

third_of :
    {A : Type 0} (b c : Bool) (x y z : A)
    → b ≡ true
    → c ≡ false
    → (if not b then x else if c then y else z) ≡ z
third_of b c x y z first second = rw (first, second) refl

do_put_loops :
    (rounds : List Round) (e : Editor) (file : List Record)
    → e.has_work ≡ true
    → same_record e.orig_rec e.work_rec ≡ false
    → do_put rounds e file ≡ put_loop rounds e file
unfolding do_put
do_put_loops rounds e file work differs =
    third_of e.has_work (same_record e.orig_rec e.work_rec) _ _ _ work differs

-- Whatever other editors do and whichever calls fail, when `do_put` returns there are two cases. Either
-- it found the record in the file as it was fetched, wrote the edit over it, left every other record,
-- and reports success. Or the file is as the other editors left it, also where it reports success.
pub do_put_never_overwrites :
    (rounds : List Round) (e : Editor) (file : List Record) (report : Report) (e' : Editor)
    (file' : List Record)
    → do_put rounds e file ≡ some (report, e', file')
    → ((r : Round) × (rest : List Round) × (rounds ≡ r ∷ rest)
        × (get_elem? (r.others file) e.last_rec_no ≡ some e.orig_rec)
        × (file' ≡ set (r.others file) e.last_rec_no e.work_rec)
        × (report ≡ updated))
      ⊎ OthersOnly rounds file file'
unfolding do_put put_loop
do_put_never_overwrites rounds e file report e' file' h = elim (Bool-cases e.has_work) [
  | inr idle ↦ inr ([], rounds, refl, cc (rw idle at h))
  | inl work ↦ elim (Bool-cases (same_record e.orig_rec e.work_rec)) [
    | inl same ↦ inr ([], rounds, refl, cc (rw (work, same) at h))
    | inr differs ↦ first rounds (sym (do_put_loops rounds e file work differs) ∙ h)
  ]
]
  where
    first :
        (rounds : List Round)
        → put_loop rounds e file ≡ some (report, e', file')
        → ((r : Round) × (rest : List Round) × (rounds ≡ r ∷ rest)
            × (get_elem? (r.others file) e.last_rec_no ≡ some e.orig_rec)
            × (file' ≡ set (r.others file) e.last_rec_no e.work_rec)
            × (report ≡ updated))
          ⊎ OthersOnly rounds file file'
    first [] h = absurd (cc h)
    first (r ∷ rest) h = elim (round_cases r e file) [
      | inl (report0, e0, o) ↦ inr ([], r ∷ rest, refl, cc (after_round r rest e file _ o, h))
      | inr (inl (report0, e0, o)) ↦ inr (r ∷ [], rest, refl, cc (after_round r rest e file _ o, h))
      | inr (inr (inl (o, found))) ↦ inl (
        r,
        rest,
        refl,
        found,
        cc (after_round r rest e file _ o, h),
        cc (after_round r rest e file _ o, h),
      )
      | inr (inr (inr (current, o))) ↦
          let (before, after, split, left) =
            loop_keeps rest (record e { orig_rec = current; work_rec = current }) (r.others file)
              report e' file' refl (sym (after_round r rest e file _ o) ∙ h) in
          inr (r ∷ before, after, ap (λ l. r ∷ l) split, left)
    ]

-- All calls of a round succeed.
abbrev pub Succeeds : Round → Type 0
Succeeds r = (r.query_ok ≡ true) × (r.lock_ok ≡ true) × (r.read_ok ≡ true) × (r.write_ok ≡ true)

round_saves :
    (r : Round) (e : Editor) (file : List Record)
    → Succeeds r
    → get_elem? (r.others file) e.last_rec_no ≡ some e.orig_rec
    → put_round r e file ≡ (
      finished updated (record e { has_work = false }),
      set (r.others file) e.last_rec_no e.work_rec,
    )
unfolding put_round reread compare_and_write
round_saves r e file (a, b, c, w) found = rw (a, b, found, c, same_record_self e.orig_rec, w) refl

round_conflicts :
    (r : Round) (e : Editor) (file : List Record) (theirs : Record)
    → Succeeds r
    → get_elem? (r.others file) e.last_rec_no ≡ some theirs
    → theirs ≢ e.orig_rec
    → put_round r e file
      ≡ (again (record e { orig_rec = theirs; work_rec = theirs }), r.others file)
unfolding put_round reread compare_and_write
round_conflicts r e file theirs (a, b, c, w) found differs =
    elim (Bool-cases (same_record theirs e.orig_rec)) [
      | inl same ↦ absurd (differs (same_record_lem theirs e.orig_rec same))
      | inr d ↦ rw (a, b, found, c, d) refl
    ]

-- If all calls succeed and the record is still the one that was fetched, `do_put` of an edit writes it
-- in the first round, reports success and has no work left.
pub do_put_saves :
    (r : Round) (rest : List Round) (e : Editor) (file : List Record)
    → e.has_work ≡ true
    → same_record e.orig_rec e.work_rec ≡ false
    → Succeeds r
    → get_elem? (r.others file) e.last_rec_no ≡ some e.orig_rec
    → do_put (r ∷ rest) e file
      ≡ some (updated, record e { has_work = false }, set (r.others file) e.last_rec_no e.work_rec)
do_put_saves r rest e file work differs ok found =
    do_put_loops (r ∷ rest) e file work differs
    ∙ after_round r rest e file _ (round_saves r e file ok found)

-- If another editor has changed the record and lets it be after that, `do_put` reports success in the
-- second round, but the file holds the other's record and the edit is gone from the editor too.
pub conflict_loses_edit :
    (r s : Round) (rest : List Round) (e : Editor) (file : List Record) (theirs : Record)
    → e.has_work ≡ true
    → same_record e.orig_rec e.work_rec ≡ false
    → Succeeds r
    → Succeeds s
    → get_elem? (r.others file) e.last_rec_no ≡ some theirs
    → theirs ≢ e.orig_rec
    → s.others (r.others file) ≡ r.others file
    → do_put (r ∷ s ∷ rest) e file
      ≡ some (
        updated,
        record e { orig_rec = theirs; work_rec = theirs; has_work = false },
        r.others file,
      )
conflict_loses_edit r s rest e file theirs work differs ok ok' found changed quiet =
    let e1 : Editor = record e { orig_rec = theirs; work_rec = theirs } in
    let found' : get_elem? (s.others (r.others file)) e.last_rec_no ≡ some theirs =
      rw quiet found in
    do_put_loops (r ∷ s ∷ rest) e file work differs
    ∙ after_round r (s ∷ rest) e file _ (round_conflicts r e file theirs ok found changed)
    ∙ after_round s rest e1 (r.others file) _ (round_saves s e1 (r.others file) ok' found')
    ∙ ap (λ f. some (updated, record e1 { has_work = false }, f))
        (set-get_elem? (s.others (r.others file)) e.last_rec_no theirs found' ∙ quiet)
