-- ===== src/Signals/Child/Reports.antt =====
-- The counts that a child reports to its parent.
use mathlib.Core.Path.{subst}
use osa_sp.Base.{
  ℕ, zero, suc, ◌+◌, ◌-◌, ◌*◌, ◌/◌, ◌%◌, ◌≤◌, ◌<◌, ◌≡◌, inl, inr, refl, sym, ap, ap₂, ◌∙◌, Bool,
  true, false, Bool-cases, List, [], ◌∷◌, ◌++◌, ltb, ltb→lt, length, length-append, replicate,
  arith,
}
use osa_sp.Signals.Child.{
  Occurrence, Counts, counts, Child, no_counts, started, occurrence_at, update_stats, count, total,
  Life, alive, report, report_if, counted, child_round, child_loop,
}

-- How often each pair comes in `n` rounds that start at the pair `start`.
abbrev pub times : ℕ → ℕ → ℕ → ℕ
times n start pair_no = (n + 3 - (pair_no + 4 - start) % 4) / 4

abbrev pub spread : ℕ → ℕ → Counts
spread n start = counts (times n start 0) (times n start 1) (times n start 2) (times n start 3)

total-spread : (n start : ℕ) → start < 4 → total (spread n start) ≡ n
total-spread n start h = omega (arith, h)

counts-same :
    {a b c d a' b' c' d' : ℕ}
    → a ≡ a'
    → b ≡ b'
    → c ≡ c'
    → d ≡ d'
    → counts a b c d ≡ counts a' b' c' d'
counts-same e f g h = cc (e, f, g, h)

-- The pair that comes next is counted once more.
count-spread :
    (n start : ℕ) (o : Occurrence)
    → start < 4
    → count (occurrence_at ((start + n) % 4) o) (spread n start) ≡ spread (n + 1) start
unfolding count occurrence_at
count-spread n start o h = go ((start + n) % 4) refl (omega arith)
  where
    go :
        (r : ℕ)
        → (start + n) % 4 ≡ r
        → r < 4
        → count (occurrence_at r o) (spread n start) ≡ spread (n + 1) start
    go zero e l =
        counts-same (omega (arith, h, e)) (omega (arith, h, e)) (omega (arith, h, e))
          (omega (arith, h, e))
    go (suc zero) e l =
        counts-same (omega (arith, h, e)) (omega (arith, h, e)) (omega (arith, h, e))
          (omega (arith, h, e))
    go (suc (suc zero)) e l =
        counts-same (omega (arith, h, e)) (omega (arith, h, e)) (omega (arith, h, e))
          (omega (arith, h, e))
    go (suc (suc (suc zero))) e l =
        counts-same (omega (arith, h, e)) (omega (arith, h, e)) (omega (arith, h, e))
          (omega (arith, h, e))
    go (suc (suc (suc (suc r)))) e l = absurd (omega (arith, l))

-- A report of 101 pairs, each of which came 25 or 26 times.
abbrev pub IsFair : Counts → Type 0
IsFair r =
    (total r ≡ 101)
    × (25 ≤ r.c00)
    × (r.c00 ≤ 26)
    × (25 ≤ r.c01)
    × (r.c01 ≤ 26)
    × (25 ≤ r.c10)
    × (r.c10 ≤ 26)
    × (25 ≤ r.c11)
    × (r.c11 ≤ 26)

abbrev pub AllFair : List Counts → Type 0
AllFair [] = Unit
AllFair (r ∷ reports) = IsFair r × AllFair reports

AllFair-append :
    (reports : List Counts) (r : Counts)
    → AllFair reports
    → IsFair r
    → AllFair (reports ++ (r ∷ []))
AllFair-append [] r h f = (f, tt)
AllFair-append (q ∷ reports) r h f = (h.0, AllFair-append reports r h.1 f)

spread-IsFair : (start : ℕ) → start < 4 → IsFair (spread 101 start)
spread-IsFair start h = (
  total-spread 101 start h,
  omega (arith, h),
  omega (arith, h),
  omega (arith, h),
  omega (arith, h),
  omega (arith, h),
  omega (arith, h),
  omega (arith, h),
  omega (arith, h),
)

-- Where a child stands after `n` rounds: `m` of them since its last report, from the pair `start` on.
abbrev StandsAt : ℕ → Child → Type 0
StandsAt n c =
    (start m : ℕ) × (start < 4)
    × (m < 101)
    × (c.counter ≡ (start + m) % 4)
    × (c.now ≡ spread m start)
    × AllFair c.reports
    × (m + 101 * length c.reports ≡ n)

abbrev Told : ℕ → Life → Type 0
Told n l = (c : Child) × (l ≡ alive c) × StandsAt n c

report_if-below : (c : Child) → total c.now < 101 → report_if true true c ≡ alive c
unfolding report_if
report_if-below c h = ground (arith, h)

report_if-due :
    (c : Child)
    → total c.now ≡ 101
    → report_if true true c
      ≡ alive (record c { now = no_counts; reports = c.reports ++ (c.now ∷ []) })
unfolding report_if report
report_if-due c h = ground (arith, h)

no_counts-spread : (start : ℕ) → start < 4 → no_counts ≡ spread 0 start
no_counts-spread start h =
    counts-same (omega (arith, h)) (omega (arith, h)) (omega (arith, h)) (omega (arith, h))

counted-Told :
    (n start m : ℕ) (c : Child)
    → start < 4
    → m < 101
    → c.counter ≡ (start + (m + 1)) % 4
    → c.now ≡ spread (m + 1) start
    → AllFair c.reports
    → m + 101 * length c.reports ≡ n
    → Told (suc n) (report_if true true c)
counted-Told n start m c sh mh at now fair sum = elim (Bool-cases (ltb (m + 1) 101)) [
  | inl e ↦ (
    c,
    report_if-below c (omega (arith, size, ltb→lt (m + 1) 101 e)),
    (start, m + 1, sh, ltb→lt (m + 1) 101 e, at, now, fair, omega (arith, sum)),
  )
  | inr e ↦ (
    record c { now = no_counts; reports = c.reports ++ (c.now ∷ []) },
    report_if-due c (ground (arith, size, e, mh)),
    (
      c.counter,
      0,
      omega (arith, at),
      omega arith,
      omega (arith, at),
      no_counts-spread c.counter (omega (arith, at)),
      AllFair-append c.reports c.now fair (
          subst IsFair (ap (λ k. spread k start) (sym (at_101 e)) ∙ sym now)
            (spread-IsFair start sh)),
      ground (arith, sum, e, mh, length-append c.reports (c.now ∷ [])),
    ),
  )
]
  where
    size : total c.now ≡ m + 1
    size = ap total now ∙ total-spread (m + 1) start sh

    at_101 : ltb (m + 1) 101 ≡ false → m + 1 ≡ 101
    at_101 e = ground (arith, e, mh)

child_round-Told : (n : ℕ) (c : Child) → StandsAt n c → Told (suc n) (child_round true true c)
unfolding child_round update_stats
child_round-Told n c (start, m, sh, mh, at, now, fair, sum) =
    counted-Told n start m (counted (update_stats c)) sh mh (omega (arith, at))
      (ap₂ (λ k. count (occurrence_at k c.occurrence)) at now
        ∙ count-spread m start c.occurrence sh)
      fair sum

child_loop-next :
    (later : List (Bool × Bool)) (c c' : Child)
    → child_round true true c ≡ alive c'
    → child_loop ((true, true) ∷ later) c ≡ child_loop later c'
unfolding child_loop
child_loop-next later c c' e = grind (arith, e)

child_loop-Told :
    (k n : ℕ) (c : Child) → StandsAt n c → Told (k + n) (child_loop (replicate k (true, true)) c)
unfolding child_loop
child_loop-Told zero n c h = (c, nothing_left, subst (λ m. StandsAt m c) (omega arith) h)
  where
    nothing_left : child_loop [] c ≡ alive c
    nothing_left = grind arith
child_loop-Told (suc k) n c h =
    let (c', e, h') = child_round-Told n c h in
    let (c'', e', h'') = child_loop-Told k (suc n) c' h' in
    (
      c'',
      child_loop-next (replicate k (true, true)) c c' e ∙ e',
      subst (λ m. StandsAt m c'') (omega arith) h'',
    )

-- A child whose signals all reach the parent has, after `n` rounds, one report for each 101 of them, and
-- fewer than 101 pairs counted since the last one; in each report every one of the four pairs came 25 or
-- 26 times, and all of them together 101 times.
pub child_loop-fair :
    (n : ℕ)
    → (c : Child) × (child_loop (replicate n (true, true)) started ≡ alive c)
      × (total c.now < 101)
      × (total c.now + 101 * length c.reports ≡ n)
      × AllFair c.reports
child_loop-fair n =
    let zero_at : StandsAt 0 started = (
      0,
      0,
      omega arith,
      omega arith,
      omega arith,
      no_counts-spread 0 (omega arith),
      tt,
      omega arith,
    ) in
    let (c, e, (start, m, sh, mh, at, now, fair, sum)) = child_loop-Told n 0 started zero_at in
    let size : total c.now ≡ m = ap total now ∙ total-spread m start sh in
    (c, e, omega (arith, size, mh), omega (arith, size, sum), fair)
