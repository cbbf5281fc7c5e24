-- ===== src/Signals/Child.antt =====
-- child.c: the pairs that `update_stats` goes through, and the loop that counts and reports them.
pub mod Reports
use osa_sp.Base.{
  ℕ, zero, suc, ◌+◌, ◌-◌, ◌*◌, ◌/◌, ◌%◌, ◌≤◌, ◌<◌, ◌≡◌, ◌⊎◌, inl, inr, refl, sym, ap, ◌∙◌, Bool,
  true, false, ◌&&◌, Bool-cases, Option, none, some, List, [], ◌∷◌, ◌++◌, leb, ltb, ◌==◌,
  if◌then◌else◌, length, length-append, arith,
}

-- `occurrence` and the four counts
pub record Occurrence : Type 0 where
  pub first : ℕ
  pub second : ℕ

pub record Counts : Type 0 where
  pub c00 : ℕ
  pub c01 : ℕ
  pub c10 : ℕ
  pub c11 : ℕ

abbrev pub counts : ℕ → ℕ → ℕ → ℕ → Counts
counts a b c d = record { c00 = a; c01 = b; c10 = c; c11 = d }

-- The globals, the static counter of `update_stats`, and the counts reported so far.
pub record Child : Type 0 where
  pub counter : ℕ
  pub occurrence : Occurrence
  pub now : Counts
  pub reports : List Counts

abbrev pub pair : ℕ → ℕ → Occurrence
pair first second = record { first = first; second = second }

abbrev pub no_counts : Counts
no_counts = counts 0 0 0 0

abbrev pub started : Child
started = record { counter = 0; occurrence = pair 0 0; now = no_counts; reports = [] }

-- The switch of `update_stats`; other values leave the pair as it is.
unfoldable pub occurrence_at : ℕ → Occurrence → Occurrence
occurrence_at counter o =
    if counter == 0
    then pair 0 0
    else if counter == 1
    then pair 1 0
    else if counter == 2
    then pair 0 1
    else if counter == 3
    then pair 1 1
    else o

unfoldable pub update_stats : Child → Child
update_stats c = record c {
  occurrence = occurrence_at c.counter c.occurrence;
  counter = (c.counter + 1) % 4;
}

-- The chain of tests that counts the pair.
unfoldable pub count : Occurrence → Counts → Counts
count o n =
    if (o.first == 0) && (o.second == 0)
    then record n { c00 = n.c00 + 1 }
    else if (o.first == 1) && (o.second == 0)
    then record n { c01 = n.c01 + 1 }
    else if (o.first == 0) && (o.second == 1)
    then record n { c10 = n.c10 + 1 }
    else if (o.first == 1) && (o.second == 1)
    then record n { c11 = n.c11 + 1 }
    else n

abbrev pub total : Counts → ℕ
total n = n.c00 + n.c01 + n.c10 + n.c11

-- A child that goes on, or one that has ended because the parent could not be told.
pub data Life : Type 0 where
  alive exited : Child → Life

-- The report, with whether each `sigqueue` succeeds.
unfoldable pub report : Bool → Bool → Child → Life
report false usr2 c = exited c
report true false c = exited (record c { reports = c.reports ++ (c.now ∷ []) })
report true true c = alive (record c { now = no_counts; reports = c.reports ++ (c.now ∷ []) })

unfoldable pub report_if : Bool → Bool → Child → Life
report_if usr1 usr2 c = if leb 101 (total c.now) then report usr1 usr2 c else alive c

abbrev pub counted : Child → Child
counted c = record c { now = count c.occurrence c.now }

-- A round of the loop in `main`.
unfoldable pub child_round : Bool → Bool → Child → Life
child_round usr1 usr2 c = report_if usr1 usr2 (counted (update_stats c))

-- The loop over what `sigqueue` will give.
unfoldable pub child_loop : List (Bool × Bool) → Child → Life
child_loop [] c = alive c
child_loop (told ∷ later) c = elim (child_round told.0 told.1 c) [
  | alive c' ↦ child_loop later c'
  | exited c' ↦ exited c'
]
