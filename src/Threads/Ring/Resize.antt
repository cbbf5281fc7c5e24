-- ===== src/Threads/Ring/Resize.antt =====
-- The move to a new buffer that `resize_queue_internal_*` makes.
use osa_sp.Base.{
  ℕ, zero, suc, ◌+◌, ◌-◌, ◌%◌, ◌≤◌, ◌<◌, ◌≡◌, refl, sym, ap, ap₂, ◌∙◌, Option, none, some, List, [],
  ◌∷◌, arith, window, window_of_ne_zero, wrap_cases, length, length-set, length-replicate, get_or,
  set, get_or-set_self, get_or-set_ne,
}
use mathlib.Core.Path.{subst}
use osa_sp.Threads.Ring.{Ring, put, extract, copy_loop, move_to}
use osa_sp.Threads.Ring.Window.{contents, IsValid, AreWritten, first_written}

module _ {ℓ} {A : Type ℓ} where
  length-copy_loop :
      (buffer : List (Option A)) (cap n i h : ℕ) (new : List (Option A))
      → length (copy_loop buffer cap n i h new) ≡ length new
  unfolding copy_loop
  length-copy_loop buffer cap zero i h new = refl
  length-copy_loop buffer cap (suc n) i h new =
      length-copy_loop buffer cap n (i + 1) ((h + 1) % cap) (set new i (get_or buffer h none))
      ∙ length-set new i (get_or buffer h none)

  -- The slots below `i` are left alone.
  copy_loop_below :
      (buffer : List (Option A)) (cap n i h : ℕ) (new : List (Option A)) (j : ℕ)
      → j < i
      → get_or (copy_loop buffer cap n i h new) j none ≡ get_or new j none
  unfolding copy_loop
  copy_loop_below buffer cap zero i h new j lt = refl
  copy_loop_below buffer cap (suc n) i h new j lt =
      copy_loop_below buffer cap n (i + 1) ((h + 1) % cap) (set new i (get_or buffer h none)) j
        (omega arith)
      ∙ get_or-set_ne new i j (get_or buffer h none) none (omega arith)

  -- the `n` slots from `i` on, without going round
  abbrev slice : List (Option A) → ℕ → ℕ → List (Option A)
  slice buffer i zero = []
  slice buffer i (suc n) = get_or buffer i none ∷ slice buffer (i + 1) n

  slice-copy_loop :
      (buffer : List (Option A)) (cap n i h : ℕ) (new : List (Option A))
      → i + n ≤ length new
      → slice (copy_loop buffer cap n i h new) i n ≡ window none buffer cap h n
  unfolding copy_loop
  slice-copy_loop buffer cap zero i h new room = refl
  slice-copy_loop buffer cap (suc n) i h new room =
      let new' = set new i (get_or buffer h none) in
      ap₂ ◌∷◌
        (copy_loop_below buffer cap n (i + 1) ((h + 1) % cap) new' i (omega arith)
          ∙ get_or-set_self new i (get_or buffer h none) none (omega arith))
        (slice-copy_loop buffer cap n (i + 1) ((h + 1) % cap) new'
          (omega (arith, length-set new i (get_or buffer h none))))

  -- A window that does not reach the end of the buffer is a slice.
  window-slice :
      (buffer : List (Option A)) (cap n i : ℕ)
      → i + n ≤ cap
      → window none buffer cap i n ≡ slice buffer i n
  window-slice buffer cap zero i h = refl
  window-slice buffer cap (suc zero) i h = refl
  window-slice buffer cap (suc (suc n)) i h =
      let e : (i + 1) % cap ≡ i + 1 = omega (arith, wrap_cases cap i 1) in
      ap (λ l. get_or buffer i none ∷ l)
        (rw e (window-slice buffer cap (suc n) (i + 1) (omega arith)))

  -- The new buffer holds the same messages in the same order, also if they fill it.
  pub contents-move_to :
      (q : Ring A) (new_capacity : ℕ)
      → q.count ≤ new_capacity
      → contents (move_to q new_capacity) ≡ contents q
  unfolding move_to
  contents-move_to q new_capacity h =
      window-slice _ new_capacity q.count 0 (omega arith)
      ∙ slice-copy_loop q.buffer q.capacity q.count 0 q.head _
          (omega (arith, length-replicate {A = Option A} new_capacity none))

  pub move_to_fields :
      (q : Ring A) (n : ℕ) → ((move_to q n).capacity ≡ n) × ((move_to q n).count ≡ q.count)
  unfolding move_to
  move_to_fields q n = (refl, refl)

  pub move_to_tail_at : (q : Ring A) (n : ℕ) → (move_to q n).tail ≡ q.count
  unfolding move_to
  move_to_tail_at q n = refl

  pub move_to-allocated : (q : Ring A) (n : ℕ) → length (move_to q n).buffer ≡ n
  unfolding move_to
  move_to-allocated q n =
      length-copy_loop q.buffer q.capacity q.count 0 q.head _ ∙ length-replicate n none

  -- A move to a buffer with a free slot keeps the ring valid.
  pub move_to-IsValid :
      {q : Ring A} (new_capacity : ℕ)
      → IsValid q
      → q.count < new_capacity
      → IsValid (move_to q new_capacity)
  unfolding move_to
  move_to-IsValid {q} new_capacity v h = record {
    allocated = move_to-allocated q new_capacity;
    head_in = omega arith;
    count_in = omega arith;
    tail_at = omega (arith, wrap_cases new_capacity 0 q.count);
    written = rw (contents-move_to q new_capacity (omega arith)) v.written;
  }

  -- A move to a buffer that the messages fill exactly sets `tail` to the capacity. The next consumer
  -- takes the oldest message, a slot is then free, and a producer's write goes past the buffer.
  pub full_move_overruns :
      {q : Ring A} (m : A)
      → IsValid q
      → 0 < q.count
      → (oldest : A) × (q' : Ring A) × (extract (move_to q q.count) ≡ some (some oldest, q'))
        × (q'.count < q'.capacity)
        × (put q' m ≡ none)
  unfolding move_to extract put
  full_move_overruns {q} m v some_left =
      let (oldest, at) = first_written (get_or full.buffer 0 none) rest filled in
      (
        oldest,
        record full { head = (0 + 1) % q.count; count = q.count - 1 },
        ground (arith, long, at),
        omega arith,
        ground (arith, long),
      )
    where
      full : Ring A
      full = move_to q q.count

      long : length full.buffer ≡ q.count
      long = length-copy_loop q.buffer q.capacity q.count 0 q.head _ ∙ length-replicate q.count none

      rest : List (Option A)
      rest = window none full.buffer q.count ((0 + 1) % q.count) (q.count - 1)

      filled : AreWritten (get_or full.buffer 0 none ∷ rest)
      filled =
          subst AreWritten
            (sym (contents-move_to q q.count (omega arith))
              ∙ window_of_ne_zero none full.buffer q.count 0 q.count (omega arith))
            v.written
