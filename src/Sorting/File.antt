-- ===== src/Sorting/File.antt =====
-- The programs around the array: gen.c, which makes the file, and main of sort_index.c, on such a file.
use Prim.Native.Nat.{bit_and}
use osa_sp.Base.{
  ℕ, zero, suc, ◌+◌, ◌-◌, ◌*◌, ◌%◌, ◌≡◌, inl, inr, refl, ap, Bool, true, false, not, ◌&&◌,
  Bool-cases, List, [], ◌∷◌, ltb, ◌==◌, if◌then◌else◌, length, arith,
}
use osa_sp.Sorting.{Index, sort_map}

-- `rand`, and the bit pattern of the double that `rand_mjd` makes of its whole part and of the number
-- that gives the part behind the point.
module _ (rand : ℕ → ℕ × ℕ) (mjd : ℕ → ℕ → ℕ) where
  unfoldable pub rand_mjd : ℕ → ℕ × ℕ
  rand_mjd state =
      let (whole, state') = rand state in
      let (part, state'') = rand state' in (mjd (whole % (60781 - 15020) + 15020) part, state'')

  -- The loop of `main` in gen.c with `n` records left, from `i` on.
  unfoldable pub generate_index : ℕ → ℕ → ℕ → List Index
  generate_index zero i state = []
  generate_index (suc n) i state =
      record { time_mark = (rand_mjd state).0; recno = i + 1 }
      ∷ generate_index n (suc i) (rand_mjd state).1

  pub length-generate_index : (n i state : ℕ) → length (generate_index n i state) ≡ n
  unfolding generate_index
  length-generate_index zero i state = refl
  length-generate_index (suc n) i state =
      ap suc (length-generate_index n (suc i) (rand_mjd state).1)

-- The bytes of the header and of the records, `needed` in sort_index.c.
abbrev pub file_bytes : List Index → ℕ
file_bytes base = 8 + length base * 16

pub record Arguments : Type 0 where
  pub page_size : ℕ
  pub memsize : ℕ
  pub blocks : ℕ
  pub threads : ℕ

unfoldable pub arguments_ok : Arguments → Bool
arguments_ok a =
    (a.memsize % a.page_size == 0)
    && (bit_and a.blocks (a.blocks - 1) == 0)
    && not (ltb a.blocks (a.threads * 4))

-- How `main` ends on a file that gen.c made: it returns 1, or the records are as they are then.
pub data FileEnd : Type 0 where
  refused too_small : FileEnd
  done : List Index → FileEnd

-- `size` of the first mapping
abbrev pub first_size : ℕ → List Index → ℕ
first_size memsize base = if ltb (file_bytes base) memsize then file_bytes base else memsize

-- The first mapping either cannot hold the file, or it is the whole file, and the only one.
unfoldable pub sort_file :
    (List Index → List Index) → Arguments → List ℕ → List (List ℕ) → List Index → FileEnd
sort_file qsort a order rounds base =
    if not (arguments_ok a)
    then refused
    else if ltb (first_size a.memsize base) (file_bytes base)
    then too_small
    else done (sort_map qsort a.threads a.blocks order rounds base)

-- With arguments that are taken, a file of more than `memsize` bytes is not sorted at all.
pub sort_file_lem :
    (qsort : List Index → List Index) (a : Arguments) (order : List ℕ) (rounds : List (List ℕ))
    (base : List Index)
    → arguments_ok a ≡ true
    → sort_file qsort a order rounds base ≡ (
        if ltb a.memsize (file_bytes base)
        then too_small
        else done (sort_map qsort a.threads a.blocks order rounds base))
unfolding sort_file
sort_file_lem qsort a order rounds base ok = elim (Bool-cases (ltb a.memsize (file_bytes base))) [
  | inl e ↦ rw (ok, first_below e, e) refl
  | inr e ↦ rw (ok, first_whole e, e) refl
]
  where
    first_below :
        ltb a.memsize (file_bytes base) ≡ true
        → ltb (first_size a.memsize base) (file_bytes base) ≡ true
    first_below e = ground (arith, e)

    first_whole :
        ltb a.memsize (file_bytes base) ≡ false
        → ltb (first_size a.memsize base) (file_bytes base) ≡ false
    first_whole e = ground (arith, e)
