-- ===== src/Signals/Races.antt =====
-- parent.c: a deletion with SIGCHLD on one side of its loop, and the names of the children.
use osa_sp.Base.{
  ℕ, suc, ◌≡◌, ◌⊎◌, refl, sym, ap, ap₂, ◌∙◌, false, Option, none, some, List, [], ◌∷◌, ◌++◌,
  append_assoc, append-nil, length, length-append, arith,
}
use osa_sp.Signals.{
  ProcessInfo, process_info, Parent, label, shift_down, reap, reap_all,
  delete_child_process_by_index, case_minus, start_child, Meanwhile, meanwhile, without_gap, lower,
  lower_behind, move_down,
}
use osa_sp.Signals.Reaping.{reap-cons, has_pid}
use osa_sp.Signals.Gap.{without_gap-early, move_down-last, lower-last}
use osa_sp.Signals.Deletion.{delete-some, delete-none, sent_to}

reap-append :
    (front back : List ProcessInfo) (p : ProcessInfo)
    → has_pid p.pid front ≡ false
    → reap p.pid (front ++ p ∷ back) ≡ front ++ back
unfolding has_pid
reap-append [] back p h = grind (arith, reap-cons p.pid p back)
reap-append (q ∷ front) back p h =
    grind (arith, h, reap-cons p.pid q (front ++ p ∷ back), reap-append front back p)

shift_down-past :
    (front : List ProcessInfo) (q : ProcessInfo)
    → shift_down (suc (length front)) (front ++ (q ∷ [])) ≡ some front
unfolding shift_down
shift_down-past [] q = refl
shift_down-past (r ∷ []) q = refl
shift_down-past (r ∷ t ∷ front) q = rw (shift_down-past (t ∷ front) q) refl

case_minus-last :
    (m : Meanwhile) (s : Parent) (n : ℕ)
    → length s.processes ≡ suc n
    → case_minus m s ≡ delete_child_process_by_index m n s
unfolding case_minus
case_minus-last m s n h = ground (arith, h)

-- `-` with one child, which ends during the deletion: the handler takes the entry out, and the size is 0.
-- If that comes before the loop, the loop runs out of the array; if it comes behind it, the decrement
-- makes SIZE_MAX of the size.
pub case_minus-only_child :
    (s : Parent) (p : ProcessInfo)
    → s.processes ≡ p ∷ []
    → (case_minus (meanwhile (p.pid ∷ []) []) s ≡ none)
      × (case_minus (meanwhile [] (p.pid ∷ [])) s ≡ none)
unfolding reap_all shift_down has_pid without_gap lower_behind move_down lower
case_minus-only_child s p h = (
  case_minus-last (meanwhile (p.pid ∷ []) []) s 0 (ap length h)
      ∙ delete-none (meanwhile (p.pid ∷ []) []) s [] [] p h (
          without_gap-early (p.pid ∷ []) 0 s.processes
          ∙ (ap (λ ps. shift_down 0 (reap p.pid ps)) h
              ∙ ap (shift_down 0) (reap-append [] [] p refl))),
  case_minus-last (meanwhile [] (p.pid ∷ [])) s 0 (ap length h)
      ∙ delete-none (meanwhile [] (p.pid ∷ [])) s [] [] p h
          (ap (without_gap (meanwhile [] (p.pid ∷ [])) 0) h ∙ ap lower (reap-append [] [] p refl)),
)

-- `-` with more children, the last of which ends during the deletion, before its loop or behind it: the
-- handler takes its entry out, and the deletion takes out the entry before it, of a child that gets no
-- signal.
pub case_minus-loses_child :
    (s : Parent) (front : List ProcessInfo) (q p : ProcessInfo)
    → s.processes ≡ front ++ (q ∷ p ∷ [])
    → has_pid p.pid (front ++ (q ∷ [])) ≡ false
    → (case_minus (meanwhile (p.pid ∷ []) []) s ≡ some (sent_to s p.pid front))
      × (case_minus (meanwhile [] (p.pid ∷ [])) s ≡ some (sent_to s p.pid front))
unfolding reap_all without_gap lower_behind
case_minus-loses_child s front q p h fresh =
    let with_q : List ProcessInfo = front ++ (q ∷ []) in
    let h' : s.processes ≡ with_q ++ (p ∷ []) = h ∙ sym (append_assoc front (q ∷ []) (p ∷ [])) in
    let size : length with_q ≡ suc (length front) = omega (arith, length-append front (q ∷ [])) in
    let gone : reap p.pid (with_q ++ (p ∷ [])) ≡ with_q =
      reap-append with_q [] p fresh ∙ append-nil with_q in
    let last : length s.processes ≡ suc (length with_q) =
      ap length h' ∙ omega (arith, length-append with_q (p ∷ [])) in
    (
      case_minus-last (meanwhile (p.pid ∷ []) []) s (length with_q) last
          ∙ delete-some (meanwhile (p.pid ∷ []) []) s with_q [] p h' front (
              without_gap-early (p.pid ∷ []) (length with_q) s.processes
              ∙ (ap₂ shift_down size (ap (reap p.pid) h' ∙ gone) ∙ shift_down-past front q)),
      case_minus-last (meanwhile [] (p.pid ∷ [])) s (length with_q) last
          ∙ delete-some (meanwhile [] (p.pid ∷ [])) s with_q [] p h' front (
              ap (without_gap (meanwhile [] (p.pid ∷ [])) (length with_q)) h'
              ∙ (ap (lower_behind (p.pid ∷ [])) (move_down-last with_q p)
                  ∙ (ap lower gone ∙ lower-last front q))),
    )

abbrev EndsEmpty : Option Parent → Type 0
EndsEmpty o = (o ≡ none) ⊎ ((s' : Parent) × (o ≡ some s') × (s'.processes ≡ []))

-- A child that is started once an earlier one has ended gets the name of the child that is last in the
-- table, when that one has the name of its index.
pub start_child-same_name :
    (s : Parent) (front back : List ProcessInfo) (p q : ProcessInfo) (pid : ℕ)
    → s.processes ≡ front ++ (p ∷ (back ++ (q ∷ [])))
    → has_pid p.pid front ≡ false
    → q.name ≡ label (length (front ++ (back ++ (q ∷ []))))
    → (start_child (some pid) (record s { processes = reap p.pid s.processes })).processes
      ≡ front ++ (back ++ (q ∷ process_info pid q.name ∷ []))
unfolding start_child
start_child-same_name s front back p q pid h fresh name =
    let left : List ProcessInfo = front ++ (back ++ (q ∷ [])) in
    let reaped : reap p.pid s.processes ≡ left =
      ap (reap p.pid) h ∙ reap-append front (back ++ (q ∷ [])) p fresh in
    ap (λ ps. ps ++ (process_info pid (label (length ps)) ∷ [])) reaped
    ∙ (ap (λ nm. left ++ (process_info pid nm ∷ [])) (sym name)
        ∙ (append_assoc front (back ++ (q ∷ [])) (process_info pid q.name ∷ [])
            ∙ ap (λ t. front ++ t) (append_assoc back (q ∷ []) (process_info pid q.name ∷ []))))
