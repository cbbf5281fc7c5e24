-- ===== src/Signals/Gap.antt =====
-- parent.c: the loop of a deletion and the decrement of the size behind it.
use osa_sp.Base.{
  ℕ, zero, suc, ◌≤◌, ◌≡◌, ◌⊎◌, inl, inr, refl, sym, ap, ◌∙◌, none, some, List, [], ◌∷◌, ◌++◌,
  List-cases, length, arith,
}
use osa_sp.Signals.{
  ProcessInfo, Meanwhile, meanwhile, shift_down, reap_all, move_down, lower, lower_behind,
  without_gap, Parent, close_gap,
}
use osa_sp.Signals.Reaping.{reap_all-length}

move_down-some :
    (index : ℕ) (p : ProcessInfo) (ps : List ProcessInfo)
    → (q : ProcessInfo) × (qs : List ProcessInfo) × (move_down index (p ∷ ps) ≡ some (q ∷ qs))
      × (length qs ≡ length ps)
unfolding move_down
move_down-some zero p [] = (p, [], refl, refl)
move_down-some zero p (q ∷ ps) =
    let (r, rs, done, same) = move_down-some zero q ps in
    (q, r ∷ rs, rw done refl, omega (arith, same))
move_down-some (suc index) p [] = (p, [], refl, refl)
move_down-some (suc index) p (q ∷ ps) =
    let (r, rs, done, same) = move_down-some index q ps in
    (p, r ∷ rs, rw done refl, omega (arith, same))

lower-some :
    (p : ProcessInfo) (ps : List ProcessInfo)
    → (rest : List ProcessInfo) × (lower (p ∷ ps) ≡ some rest) × (length rest ≡ length ps)
unfolding lower
lower-some p [] = ([], refl, refl)
lower-some p (q ∷ ps) =
    let (rest, done, same) = lower-some q ps in (p ∷ rest, rw done refl, omega (arith, same))

-- With no signal behind the loop the two are the loop that lowers the size with it.
pub lower-move_down :
    (index : ℕ) (ps : List ProcessInfo) → lower_behind [] (move_down index ps) ≡ shift_down index ps
unfolding lower_behind move_down lower shift_down reap_all
lower-move_down index [] = refl
lower-move_down zero (p ∷ []) = refl
lower-move_down zero (p ∷ q ∷ ps) =
    let (r, rs, done, same) = move_down-some zero q ps in
    let down : lower (r ∷ rs) ≡ shift_down zero (q ∷ ps) =
      ap (lower_behind []) (sym done) ∙ lower-move_down zero (q ∷ ps) in
    rw (done, lower_behind, reap_all, lower, down) refl
lower-move_down (suc index) (p ∷ []) = refl
lower-move_down (suc index) (p ∷ q ∷ ps) =
    let (r, rs, done, same) = move_down-some index q ps in
    let down : lower (r ∷ rs) ≡ shift_down index (q ∷ ps) =
      ap (lower_behind []) (sym done) ∙ lower-move_down index (q ∷ ps) in
    rw (done, lower_behind, reap_all, lower, down) refl

-- Whatever the handler takes out meanwhile, the loop runs out of the array, the size wraps, or the
-- table gets shorter.
pub without_gap-cases :
    (m : Meanwhile) (index : ℕ) (ps : List ProcessInfo)
    → (without_gap m index ps ≡ none)
      ⊎ ((rest : List ProcessInfo) × (without_gap m index ps ≡ some rest)
          × (suc (length rest) ≤ length ps))
unfolding without_gap lower_behind move_down lower
without_gap-cases m index ps = elim (List-cases (reap_all m.before_loop ps)) [
  | inl e ↦ inl (rw e refl)
  | inr (p, rest, e) ↦
      let (q, qs, done, same) = move_down-some index p rest in
      elim (List-cases (reap_all m.behind_loop (q ∷ qs))) [
        | inl f ↦ inl (rw (e, done, lower_behind, f) refl)
        | inr (r, rs, f) ↦
            let (left, down, shorter) = lower-some r rs in
            inr (
              left,
              rw (e, done, lower_behind, f) down,
              omega (
                arith,
                same,
                shorter,
                sym (ap length e),
                sym (ap length f),
                reap_all-length m.before_loop ps,
                reap_all-length m.behind_loop (q ∷ qs),
              ),
            )
      ]
]

pub without_gap-early :
    (pids : List ℕ) (index : ℕ) (ps : List ProcessInfo)
    → without_gap (meanwhile pids []) index ps ≡ shift_down index (reap_all pids ps)
unfolding without_gap
without_gap-early pids index ps = lower-move_down index (reap_all pids ps)

-- For the last entry the loop has nothing to do, and the decrement takes it out.
pub move_down-last :
    (front : List ProcessInfo) (p : ProcessInfo)
    → move_down (length front) (front ++ (p ∷ [])) ≡ some (front ++ (p ∷ []))
unfolding move_down
move_down-last [] p = refl
move_down-last (q ∷ []) p = refl
move_down-last (q ∷ r ∷ front) p = rw (move_down-last (r ∷ front) p) refl

pub lower-last :
    (front : List ProcessInfo) (p : ProcessInfo) → lower (front ++ (p ∷ [])) ≡ some front
unfolding lower
lower-last [] p = refl
lower-last (q ∷ []) p = refl
lower-last (q ∷ r ∷ front) p = rw (lower-last (r ∷ front) p) refl

-- What a deletion comes to, either way.
pub close_gap-none :
    (m : Meanwhile) (index : ℕ) (s : Parent)
    → without_gap m index s.processes ≡ none
    → close_gap m index s ≡ none
unfolding close_gap
close_gap-none m index s e = grind (arith, e)

pub close_gap-some :
    (m : Meanwhile) (index : ℕ) (s : Parent) (rest : List ProcessInfo)
    → without_gap m index s.processes ≡ some rest
    → close_gap m index s ≡ some (record s { processes = rest })
unfolding close_gap
close_gap-some m index s rest e = grind (arith, e)
