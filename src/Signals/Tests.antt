-- ===== src/Signals/Tests.antt =====
-- The parent and its children at concrete inputs.
use osa_sp.Base.{
  ◌+◌, ◌*◌, ◌<◌, ◌≡◌, refl, true, none, some, List, [], ◌∷◌, length, replicate, codes,
}
use osa_sp.Signals.{
  ProcessInfo, process_info, sigterm, Parent, reap_all, case_minus, meanwhile, Meanwhile,
}
use osa_sp.Signals.Reaping.{all_distinct, without, has_pid, reap_all-without}
use osa_sp.Signals.Deletion.{sent_to, terms_from_last}
use osa_sp.Signals.Races.{case_minus-only_child, case_minus-loses_child}
use osa_sp.Signals.Commands.{exited, complete_the_program, complete_the_program-terms}
use osa_sp.Signals.Child.{Child, started, child_loop, alive, total}
use osa_sp.Signals.Child.Reports.{AllFair, child_loop-fair}

abbrev three : List ProcessInfo
three =
    process_info 11 (codes "C_00")
    ∷ process_info 12 (codes "C_01")
    ∷ process_info 13 (codes "C_02")
    ∷ []

abbrev family : Parent
family = record { processes = three; capacity = 8; sent = [] }

reap_all-without_example : reap_all (12 ∷ 99 ∷ []) three ≡ without (12 ∷ 99 ∷ []) three
unfolding all_distinct has_pid
reap_all-without_example = reap_all-without (12 ∷ 99 ∷ []) three refl

abbrev one_child : Parent
one_child = record { processes = process_info 11 (codes "C_00") ∷ []; capacity = 8; sent = [] }

case_minus-only_child_example :
    (case_minus (meanwhile (11 ∷ []) []) one_child ≡ none)
    × (case_minus (meanwhile [] (11 ∷ [])) one_child ≡ none)
case_minus-only_child_example =
    case_minus-only_child one_child (process_info 11 (codes "C_00")) refl

-- The child 12 is out of the table and gets no signal.
case_minus-loses_child_example :
    (case_minus (meanwhile (13 ∷ []) []) family
      ≡ some (sent_to family 13 (process_info 11 (codes "C_00") ∷ [])))
    × (case_minus (meanwhile [] (13 ∷ [])) family
        ≡ some (sent_to family 13 (process_info 11 (codes "C_00") ∷ [])))
unfolding has_pid
case_minus-loses_child_example =
    case_minus-loses_child family (process_info 11 (codes "C_00") ∷ [])
      (process_info 12 (codes "C_01")) (process_info 13 (codes "C_02")) refl refl

complete_the_program-terms_example :
    complete_the_program (λ pid. true) [] family
    ≡ exited (record {
      processes = [];
      capacity = 0;
      sent = (13, sigterm) ∷ (12, sigterm) ∷ (11, sigterm) ∷ [];
    })
unfolding terms_from_last
complete_the_program-terms_example = complete_the_program-terms (λ pid. true) family

child_loop-fair_example :
    (c : Child) × (child_loop (replicate 250 (true, true)) started ≡ alive c)
    × (total c.now < 101)
    × (total c.now + 101 * length c.reports ≡ 250)
    × AllFair c.reports
child_loop-fair_example = child_loop-fair 250

-- Child 13 ends in the first deletion, behind its loop, and child 11 in the next one, before it.
abbrev ends_meanwhile : List Meanwhile
ends_meanwhile = meanwhile [] (13 ∷ []) ∷ meanwhile (11 ∷ []) [] ∷ []
