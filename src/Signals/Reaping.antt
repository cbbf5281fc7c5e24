-- ===== src/Signals/Reaping.antt =====
-- parent.c: the loops over `waitpid`, in `signal_handler` and at the end of a command.
use osa_sp.Base.{
  ℕ, zero, suc, ◌≤◌, ◌≡◌, inl, inr, refl, sym, ap, ◌∙◌, Bool, true, false, not, ◌&&◌, ◌||◌,
  Bool-cases, some, Option-cases, List, [], ◌∷◌, ◌==◌, ==_iff, if◌then◌else◌, length, arith,
}
use osa_sp.Signals.{ProcessInfo, find_process_index_by_pid, shift_down, reap, reap_all}

pub shift_down-some :
    (index : ℕ) (p : ProcessInfo) (ps : List ProcessInfo)
    → (rest : List ProcessInfo) × (shift_down index (p ∷ ps) ≡ some rest)
      × (length rest ≡ length ps)
unfolding shift_down
shift_down-some zero p ps = (ps, refl, refl)
shift_down-some (suc index) p [] = ([], refl, refl)
shift_down-some (suc index) p (q ∷ ps) =
    let (rest, e, same) = shift_down-some index q ps in (p ∷ rest, rw e refl, ap suc same)

pub reap-cons :
    (pid : ℕ) (p : ProcessInfo) (ps : List ProcessInfo)
    → reap pid (p ∷ ps) ≡ (if p.pid == pid then ps else p ∷ reap pid ps)
unfolding reap find_process_index_by_pid shift_down
reap-cons pid p [] = grind arith
reap-cons pid p (q ∷ ps) = elim (Bool-cases (p.pid == pid)) [
  | inl e ↦ grind (arith, e)
  | inr e ↦ elim (Option-cases (find_process_index_by_pid pid (q ∷ ps))) [
    | inl n ↦ grind (arith, e, n)
    | inr (i, n) ↦ let (rest, down, same) = shift_down-some i q ps in grind (arith, e, n, down)
  ]
]

-- Whether a pid is among those given, and the entries with none of them.
unfoldable pub is_member : ℕ → List ℕ → Bool
is_member pid [] = false
is_member pid (x ∷ pids) = (pid == x) || is_member pid pids

unfoldable pub without : List ℕ → List ProcessInfo → List ProcessInfo
without pids [] = []
without pids (p ∷ ps) =
    let rest = without pids ps in if is_member p.pid pids then rest else p ∷ rest

unfoldable pub has_pid : ℕ → List ProcessInfo → Bool
has_pid pid [] = false
has_pid pid (p ∷ ps) = (p.pid == pid) || has_pid pid ps

-- No two entries have one pid.
unfoldable pub all_distinct : List ProcessInfo → Bool
all_distinct [] = true
all_distinct (p ∷ ps) = not (has_pid p.pid ps) && all_distinct ps

pub reap-has_pid : (pid : ℕ) (ps : List ProcessInfo) → has_pid pid ps ≡ false → reap pid ps ≡ ps
unfolding has_pid reap find_process_index_by_pid
reap-has_pid pid [] h = refl
reap-has_pid pid (p ∷ ps) h = grind (arith, h, reap-cons pid p ps, reap-has_pid pid ps)

without-nil : (ps : List ProcessInfo) → without [] ps ≡ ps
unfolding without is_member
without-nil [] = refl
without-nil (p ∷ ps) = grind (arith, without-nil ps)

without-cons_absent :
    (pid : ℕ) (pids : List ℕ) (ps : List ProcessInfo)
    → has_pid pid ps ≡ false
    → without (pid ∷ pids) ps ≡ without pids ps
unfolding has_pid without is_member
without-cons_absent pid pids [] h = refl
without-cons_absent pid pids (p ∷ ps) h = grind (arith, h, without-cons_absent pid pids ps)

without-reap :
    (pid : ℕ) (pids : List ℕ) (ps : List ProcessInfo)
    → all_distinct ps ≡ true
    → without pids (reap pid ps) ≡ without (pid ∷ pids) ps
unfolding all_distinct without is_member reap find_process_index_by_pid
without-reap pid pids [] h = refl
without-reap pid pids (p ∷ ps) h = grind (
  arith,
  h,
  reap-cons pid p ps,
  without-reap pid pids ps,
  without-cons_absent pid pids ps,
  ==_iff p.pid pid,
)

has_pid-reap :
    (pid other : ℕ) (ps : List ProcessInfo)
    → has_pid other ps ≡ false
    → has_pid other (reap pid ps) ≡ false
unfolding has_pid reap find_process_index_by_pid
has_pid-reap pid other [] h = refl
has_pid-reap pid other (p ∷ ps) h = grind (arith, h, reap-cons pid p ps, has_pid-reap pid other ps)

all_distinct-reap :
    (pid : ℕ) (ps : List ProcessInfo) → all_distinct ps ≡ true → all_distinct (reap pid ps) ≡ true
unfolding all_distinct reap find_process_index_by_pid
all_distinct-reap pid [] h = refl
all_distinct-reap pid (p ∷ ps) h =
    grind (arith, h, reap-cons pid p ps, all_distinct-reap pid ps, has_pid-reap pid p.pid ps)

-- When no two entries have one pid, the handler of SIGCHLD takes the entries of the pids that it reaps
-- out of the table, keeps the others in their order, and passes over pids that are not in it.
pub reap_all-without :
    (pids : List ℕ) (ps : List ProcessInfo)
    → all_distinct ps ≡ true
    → reap_all pids ps ≡ without pids ps
unfolding reap_all
reap_all-without [] ps h = sym (without-nil ps)
reap_all-without (pid ∷ pids) ps h =
    reap_all-without pids (reap pid ps) (all_distinct-reap pid ps h) ∙ without-reap pid pids ps h

reap-length : (pid : ℕ) (ps : List ProcessInfo) → length (reap pid ps) ≤ length ps
unfolding reap find_process_index_by_pid
reap-length pid [] = omega arith
reap-length pid (p ∷ ps) = grind (arith, reap-cons pid p ps, reap-length pid ps)

pub reap_all-length :
    (pids : List ℕ) (ps : List ProcessInfo) → length (reap_all pids ps) ≤ length ps
unfolding reap_all
reap_all-length [] ps = omega arith
reap_all-length (pid ∷ pids) ps =
    omega (arith, reap_all-length pids (reap pid ps), reap-length pid ps)
