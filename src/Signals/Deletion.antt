-- ===== src/Signals/Deletion.antt =====
-- parent.c: the deletion of one child and of all.
use mathlib.Core.Path.{subst}
use osa_sp.Base.{
  ℕ, zero, suc, ◌≡◌, inl, inr, refl, sym, ap, ap₂, ◌∙◌, false, none, some, List, [], ◌∷◌, ◌++◌,
  List-cases, append_assoc, append-nil, leb, length, length-append, get_or, arith,
}
use osa_sp.Signals.{
  ProcessInfo, process_info, Signal, sigterm, Parent, shift_down, reap_all, close_gap, pid_at,
  Meanwhile, meanwhile, without_gap, delete_child_process_by_index, delete_from_last,
  delete_all_children,
}
use osa_sp.Signals.Gap.{without_gap-early}

pub shift_down-append :
    (front back : List ProcessInfo) (p : ProcessInfo)
    → shift_down (length front) (front ++ p ∷ back) ≡ some (front ++ back)
unfolding shift_down
shift_down-append [] back p = refl
shift_down-append (q ∷ []) back p = refl
shift_down-append (q ∷ r ∷ front) back p = rw (shift_down-append (r ∷ front) back p) refl

get_or-append :
    (front back : List ProcessInfo) (p d : ProcessInfo)
    → get_or (front ++ p ∷ back) (length front) d ≡ p
get_or-append [] back p d = refl
get_or-append (q ∷ front) back p d = get_or-append front back p d

abbrev pub sent_to : Parent → ℕ → List ProcessInfo → Parent
sent_to s pid rest = record s { processes = rest; sent = s.sent ++ ((pid, sigterm) ∷ []) }

-- What a deletion at the place of an entry comes to, with the children that end meanwhile.
module _ (m : Meanwhile) (s : Parent) (front back : List ProcessInfo) (p : ProcessInfo)
    (h : s.processes ≡ front ++ p ∷ back) where
  inside : leb (length s.processes) (length front) ≡ false
  inside = rw h (ground (arith, length-append front (p ∷ back)))

  at_index : pid_at s.processes (length front) ≡ p.pid
  at_index = rw h (ap (λ q. q.pid) (get_or-append front back p (process_info 0 [])))

  pub delete-some :
      (rest : List ProcessInfo)
      → without_gap m (length front) s.processes ≡ some rest
      → delete_child_process_by_index m (length front) s ≡ some (sent_to s p.pid rest)
  unfolding delete_child_process_by_index close_gap
  delete-some rest e = grind (arith, inside, at_index, e)

  pub delete-none :
      without_gap m (length front) s.processes ≡ none
      → delete_child_process_by_index m (length front) s ≡ none
  unfolding delete_child_process_by_index close_gap
  delete-none e = grind (arith, inside, e)

-- A deletion at the place of an entry sends SIGTERM to its pid and no other, and, when no child ends
-- meanwhile, takes that entry out and keeps the others in their order.
pub delete_child_process_by_index-append :
    (s : Parent) (front back : List ProcessInfo) (p : ProcessInfo)
    → s.processes ≡ front ++ p ∷ back
    → delete_child_process_by_index (meanwhile [] []) (length front) s
      ≡ some (sent_to s p.pid (front ++ back))
unfolding reap_all
delete_child_process_by_index-append s front back p h =
    delete-some (meanwhile [] []) s front back p h (front ++ back) (
      without_gap-early [] (length front) s.processes
      ∙ (ap (shift_down (length front)) h ∙ shift_down-append front back p))

-- The last entry of a table that has one.
pub split_last :
    (p : ProcessInfo) (ps : List ProcessInfo)
    → (front : List ProcessInfo) × (q : ProcessInfo) × (p ∷ ps ≡ front ++ (q ∷ []))
      × (length front ≡ length ps)
split_last p [] = ([], p, refl, refl)
split_last p (r ∷ ps) =
    let (front, q, e, same) = split_last r ps in (p ∷ front, q, ap (λ t. p ∷ t) e, ap suc same)

-- The signals that end the children of a table, the last one first.
unfoldable pub terms_from_last : List ProcessInfo → List (ℕ × Signal)
terms_from_last [] = []
terms_from_last (p ∷ ps) = terms_from_last ps ++ ((p.pid, sigterm) ∷ [])

terms_from_last-append :
    (front : List ProcessInfo) (q : ProcessInfo)
    → terms_from_last (front ++ (q ∷ [])) ≡ (q.pid, sigterm) ∷ terms_from_last front
unfolding terms_from_last
terms_from_last-append [] q = refl
terms_from_last-append (p ∷ front) q = rw (terms_from_last-append front q) refl

delete_from_last-next :
    (fuel n : ℕ) (s s' : Parent)
    → length s.processes ≡ suc n
    → delete_child_process_by_index (meanwhile [] []) n s ≡ some s'
    → delete_from_last (suc fuel) [] s ≡ delete_from_last fuel [] s'
unfolding delete_from_last
delete_from_last-next fuel n s s' size e = ground (arith, size, e)

abbrev all_ended : Parent → Parent
all_ended s = record s { processes = []; sent = s.sent ++ terms_from_last s.processes }

all_ended-last :
    (s : Parent) (front : List ProcessInfo) (q : ProcessInfo)
    → s.processes ≡ front ++ (q ∷ [])
    → all_ended (sent_to s q.pid front) ≡ all_ended s
all_ended-last s front q h =
    ap (λ sent. record s { processes = []; sent = sent })
      (append_assoc s.sent ((q.pid, sigterm) ∷ []) (terms_from_last front)
        ∙ ap (λ t. s.sent ++ t) (sym (ap terms_from_last h ∙ terms_from_last-append front q)))

all_ended-nil : (s : Parent) → s.processes ≡ [] → s ≡ all_ended s
unfolding terms_from_last
all_ended-nil s h =
    ap₂ (λ ps sent. record s { processes = ps; sent = sent }) h
      (sym (ap (λ ps. s.sent ++ terms_from_last ps) h ∙ append-nil s.sent))

delete_from_last-all :
    (fuel : ℕ) (s : Parent)
    → length s.processes ≡ fuel
    → delete_from_last fuel [] s ≡ some (all_ended s)
unfolding delete_from_last
delete_from_last-all zero s size = elim (List-cases s.processes) [
  | inl e ↦ ap some (all_ended-nil s e)
  | inr (p, ps, e) ↦ absurd (ground (arith, sym size ∙ ap length e))
]
delete_from_last-all (suc fuel) s size = elim (List-cases s.processes) [
  | inl e ↦ absurd (ground (arith, sym size ∙ ap length e))
  | inr (p, ps, e) ↦
      let (front, q, last, same) = split_last p ps in
      let at : length front ≡ fuel = omega (arith, sym size ∙ ap length e, same) in
      let gone : delete_child_process_by_index (meanwhile [] []) fuel s
          ≡ some (sent_to s q.pid front) =
        subst
          (λ n. delete_child_process_by_index (meanwhile [] []) n s ≡ some (sent_to s q.pid front))
          at
          (delete_child_process_by_index-append s front [] q (e ∙ last)
            ∙ ap (λ ps. some (sent_to s q.pid ps)) (append-nil front)) in
      delete_from_last-next fuel fuel s (sent_to s q.pid front) size gone
      ∙ (delete_from_last-all fuel (sent_to s q.pid front) at
          ∙ ap some (all_ended-last s front q (e ∙ last)))
]

-- When no child ends meanwhile, `delete_all_children` sends SIGTERM to every child once, the last one
-- first, and leaves an empty table.
pub delete_all_children-all_ended :
    (s : Parent)
    → delete_all_children [] s
      ≡ some (record s { processes = []; sent = s.sent ++ terms_from_last s.processes })
unfolding delete_all_children
delete_all_children-all_ended s = delete_from_last-all (length s.processes) s refl
