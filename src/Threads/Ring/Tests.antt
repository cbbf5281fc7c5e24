-- ===== src/Threads/Ring/Tests.antt =====
-- The circular buffer at concrete inputs.
use osa_sp.Base.{ℕ, ◌+◌, ◌<◌, ◌≡◌, refl, none, some, [], ◌∷◌, ◌++◌, arith}
use osa_sp.Threads.Ring.{Ring, put, extract, copy_loop, move_to, drain_loop, drain}
use osa_sp.Threads.Ring.Window.{contents, IsValid}
use osa_sp.Threads.Ring.Fifo.{put_appends, extract_oldest}
use osa_sp.Threads.Ring.Resize.{full_move_overruns}

-- 8, then 9, round the end of a buffer of three slots
abbrev wrapped : Ring ℕ
wrapped = record {
  buffer = some 9 ∷ none ∷ some 8 ∷ [];
  capacity = 3;
  head = 2;
  tail = 1;
  count = 2;
}

wrapped-IsValid : IsValid wrapped
wrapped-IsValid = record {
  allocated = refl;
  head_in = omega arith;
  count_in = omega arith;
  tail_at = refl;
  written = tt;
}

drain-wrapped : (drain wrapped).0 ≡ 8 ∷ 9 ∷ []
unfolding drain drain_loop
drain-wrapped = refl

grown : move_to wrapped 4 ≡ record {
  buffer = some 8 ∷ some 9 ∷ none ∷ none ∷ [];
  capacity = 4;
  head = 0;
  tail = 2;
  count = 2;
}
unfolding move_to copy_loop
grown = refl

put_appends_example :
    (q' : Ring ℕ) × (put wrapped 5 ≡ some q')
    × IsValid q'
    × (contents q' ≡ contents wrapped ++ (some 5 ∷ []))
    × (q'.count ≡ 3)
    × (q'.capacity ≡ 3)
put_appends_example = put_appends 5 wrapped-IsValid (omega arith)

extract_oldest_example :
    (m : ℕ) × (q' : Ring ℕ) × (extract wrapped ≡ some (some m, q'))
    × IsValid q'
    × (contents wrapped ≡ some m ∷ contents q')
    × (q'.count + 1 ≡ 2)
    × (q'.capacity ≡ 3)
extract_oldest_example = extract_oldest wrapped-IsValid (omega arith)

full_move_overruns_example :
    (oldest : ℕ) × (q' : Ring ℕ) × (extract (move_to wrapped 2) ≡ some (some oldest, q'))
    × (q'.count < q'.capacity)
    × (put q' 5 ≡ none)
full_move_overruns_example = full_move_overruns 5 wrapped-IsValid (omega arith)
