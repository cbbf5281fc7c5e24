-- ===== src/Sorting.antt =====
-- `Working with memory-mapped files`: the sorting of sort_index.c. A time mark, a positive `double`,
-- stands by its bit pattern, whose order as a number is the order of the doubles.
pub mod Merge
pub mod Ranges
pub mod Workers
pub mod Cells
pub mod Phases
pub mod Pairs
pub mod Sorts
pub mod Claims
pub mod Halves
pub mod Whole
pub mod File
mod Tests
use osa_sp.Base.{
  get_elem?, set, ℕ, zero, suc, ◌+◌, ◌-◌, ◌*◌, ◌/◌, Bool, true, false, Option, none, some, List, [],
  ◌∷◌, ◌++◌, ltb, if◌then◌else◌, length, take, drop, ◌&&◌,
}

-- `struct index_s`
pub record Index : Type 0 where
  pub time_mark : ℕ
  pub recno : ℕ

-- `merge` on what is left of its two arrays; they hold at most `n` records together.
unfoldable pub merge_loop : ℕ → List Index → List Index → List Index
merge_loop zero a b = []
merge_loop (suc n) [] b = b
merge_loop (suc n) (x ∷ a) [] = x ∷ a
merge_loop (suc n) (x ∷ a) (y ∷ b) = elim (ltb x.time_mark y.time_mark) [
  | true ↦ x ∷ merge_loop n a (y ∷ b)
  | false ↦ y ∷ merge_loop n (x ∷ a) b
]

unfoldable pub merge : List Index → List Index → List Index
merge a b = merge_loop (length a + length b) a b

-- The array with `n` records from `left` on replaced.
abbrev pub splice : List Index → ℕ → ℕ → List Index → List Index
splice base left n new = take left base ++ (new ++ drop (left + n) base)

-- `recs_per_block`
abbrev pub recs_per_block : ℕ → ℕ → ℕ
recs_per_block records blocks = records / blocks

-- `count`, the records of the block at `offset`
abbrev pub block_count : ℕ → ℕ → ℕ → ℕ
block_count records per offset = if ltb records (offset + per) then records - offset else per

-- A worker's `qsort` of one block.
unfoldable pub sort_block : (List Index → List Index) → ℕ → ℕ → ℕ → List Index → List Index
sort_block qsort records blocks block base =
    let per = recs_per_block records blocks in
    let offset = block * per in
    let count = block_count records per offset in
    splice base offset count (qsort (take count (drop offset base)))

-- `mid` and `right`, cut at the number of records
abbrev pub cut : ℕ → ℕ → ℕ
cut records x = if ltb records x then records else x

-- The part of a worker's loop that merges the blocks at `block` and `block + step`.
unfoldable pub merge_blocks : ℕ → ℕ → ℕ → ℕ → List Index → List Index
merge_blocks records blocks block step base =
    let per = recs_per_block records blocks in
    let left = block * per in
    let mid = cut records ((block + step) * per) in
    let right = cut records ((block + step * 2) * per) in
    if ltb 0 (mid - left) && ltb 0 (right - mid)
    then splice base left ((mid - left) + (right - mid))
        (merge (take (mid - left) (drop left base)) (take (right - mid) (drop mid base)))
    else base

-- The loop that takes the first free block, from block `i` on: the block, and the map with it marked.
unfoldable pub claim_block : ℕ → List Bool → Option ℕ × List Bool
claim_block i [] = (none, [])
claim_block i (true ∷ rest) = ((claim_block (i + 1) rest).0, true ∷ (claim_block (i + 1) rest).1)
claim_block i (false ∷ rest) = (some i, true ∷ rest)

-- A worker's claim of the block of its own number, if that is one and free.
unfoldable pub claim_own : ℕ → List Bool → Option ℕ × List Bool
claim_own id map = elim (get_elem? map id) [
  | none ↦ (none, map)
  | some taken ↦ if taken then (none, map) else (some id, set map id true)
]

-- The claims, which a mutex makes one at a time: of the own block, and of the first that is free.
pub data Claim : Type 0 where
  own : ℕ → Claim
  first_free : Claim

unfoldable pub claim : Claim → List Bool → Option ℕ × List Bool
claim (own id) map = claim_own id map
claim first_free map = claim_block 0 map

abbrev pub claimed : Option ℕ → List ℕ → List ℕ
claimed none order = order
claimed (some i) order = i ∷ order

-- The blocks that the claims get, in their order, and the map they leave.
unfoldable pub claims : List Claim → List Bool → List ℕ × List Bool
claims [] map = ([], map)
claims (c ∷ later) map =
    let got = claim c map in let rest = claims later got.1 in (claimed got.0 rest.0, rest.1)

-- What the workers do to the array, in the order in which it happens.
pub data Work : Type 0 where
  sort : ℕ → Work
  merge_at : (block step : ℕ) → Work

unfoldable pub do_work : (List Index → List Index) → ℕ → ℕ → Work → List Index → List Index
do_work qsort records blocks (sort block) base = sort_block qsort records blocks block base
do_work qsort records blocks (merge_at block step) base =
    merge_blocks records blocks block step base

unfoldable pub run_works : (List Index → List Index) → ℕ → ℕ → List Work → List Index → List Index
run_works qsort records blocks [] base = base
run_works qsort records blocks (w ∷ rest) base =
    run_works qsort records blocks rest (do_work qsort records blocks w base)

-- The sorting of the blocks, in the order in which the workers claim them.
unfoldable pub sort_all : List ℕ → List Work
sort_all [] = []
sort_all (block ∷ order) = sort block ∷ sort_all order

-- A round of merges: each claim `i` is the pair of blocks at `i * step * 2`.
unfoldable pub merge_all : ℕ → List ℕ → List Work
merge_all step [] = []
merge_all step (i ∷ order) = merge_at (i * (step * 2)) step ∷ merge_all step order

-- The rounds of merges between the barriers, the step doubled from one to the next.
unfoldable pub merge_rounds : ℕ → List (List ℕ) → List Work
merge_rounds step [] = []
merge_rounds step (order ∷ rounds) = merge_all step order ++ merge_rounds (step * 2) rounds

-- What the workers do between the first barrier and the last.
unfoldable pub all_work : List ℕ → List (List ℕ) → List Work
all_work order rounds = sort_all order ++ merge_rounds 1 rounds

-- The last step of `main`, which merges the halves of the array.
unfoldable pub final_merge : ℕ → ℕ → List Index → List Index
final_merge threads blocks base =
    let total = length base in
    let mid = total / 2 in
    if ltb 1 threads && ltb 1 blocks && ltb 0 mid && ltb 0 (total - mid)
    then splice base 0 total (merge (take mid base) (take (total - mid) (drop mid base)))
    else base

-- What becomes of the records of one mapping of the file.
unfoldable pub sort_map :
    (List Index → List Index) → ℕ → ℕ → List ℕ → List (List ℕ) → List Index → List Index
sort_map qsort threads blocks order rounds base =
    final_merge threads blocks (run_works qsort (length base) blocks (all_work order rounds) base)
