-- ===== src/Threads/Ring/Mended.antt =====
-- A ring whose `tail` may stand at the capacity, where a move to a full buffer leaves it: what such a
-- ring still keeps.
use osa_sp.Base.{
  ℕ, ◌+◌, ◌-◌, ◌%◌, ◌≤◌, ◌<◌, ◌≡◌, ◌≢◌, refl, sym, ap, ◌∙◌, true, Option, none, some, ◌∷◌, arith,
  length, ltb, get_or,
}
use mathlib.Core.Path.{subst}
use native.Mathlib.Nat.{mod-eq_of_lt}
use osa_sp.Threads.Ring.{Ring, put, extract, move_to}
use osa_sp.Threads.Ring.Window.{contents, IsValid, AreWritten}
use osa_sp.Threads.Ring.Fifo.{extract_oldest}
use osa_sp.Threads.Ring.Resize.{contents-move_to, move_to-allocated}

module _ {ℓ} {A : Type ℓ} where
  abbrev pub mended : Ring A → Ring A
  mended q = record q { tail = q.tail % q.capacity }

  pub record IsMendable (q : Ring A) : Type 0 where
    pub valid : IsValid (mended q)
    pub tail_in : q.tail ≤ q.capacity

  -- With the tail inside the buffer it is a valid ring.
  pub IsMendable-IsValid : {q : Ring A} → IsMendable q → q.tail < q.capacity → IsValid q
  IsMendable-IsValid {q} v h = record {
    allocated = v.valid.allocated;
    head_in = v.valid.head_in;
    count_in = v.valid.count_in;
    tail_at = sym (mod-eq_of_lt h) ∙ v.valid.tail_at;
    written = v.valid.written;
  }

  pub IsValid-IsMendable : {q : Ring A} → IsValid q → IsMendable q × (q.tail < q.capacity)
  IsValid-IsMendable {q} v =
      let inside : q.tail < q.capacity = omega (arith, v.tail_at, v.head_in) in
      (
        record {
          valid = record {
            allocated = v.allocated;
            head_in = v.head_in;
            count_in = v.count_in;
            tail_at = mod-eq_of_lt inside ∙ v.tail_at;
            written = v.written;
          };
          tail_in = omega arith;
        },
        inside,
      )

  -- A write overruns the buffer exactly when the tail stands at the capacity.
  pub put_overruns : {q : Ring A} (m : A) → IsMendable q → q.capacity ≤ q.tail → put q m ≡ none
  unfolding put
  put_overruns {q} m v h = ground (arith, v.valid.allocated)

  -- A read takes the oldest message all the same.
  pub extract-IsMendable :
      {q : Ring A}
      → IsMendable q
      → q.count ≢ 0
      → (m : A) × (q' : Ring A) × (extract q ≡ some (some m, q'))
        × IsMendable q'
        × (contents q ≡ some m ∷ contents q')
        × (q'.count + 1 ≡ q.count)
        × (q'.capacity ≡ q.capacity)
        × (q'.tail ≡ q.tail)
  unfolding extract
  extract-IsMendable {q} v h =
      let (m, r, done, valid, split, counted, same) = extract_oldest v.valid h in
      let inside : ltb q.head (length q.buffer) ≡ true =
        ground (arith, v.valid.allocated, v.valid.head_in) in
      let e : ◌≡◌ {A = Option (Option A × Ring A)} (some (get_or q.buffer q.head none, mended q1))
          (some (some m, r)) =
        (rw inside at done) in
      let at : get_or q.buffer q.head none ≡ some m = cc e in
      let is_q1 : r ≡ mended q1 = cc e in
      (
        m,
        q1,
        rw (inside, at) refl,
        record { valid = subst IsValid is_q1 valid; tail_in = v.tail_in },
        split ∙ ap (λ r. some m ∷ contents r) is_q1,
        omega (arith, h),
        refl,
        refl,
      )
    where
      q1 : Ring A
      q1 = record q { head = (q.head + 1) % q.capacity; count = q.count - 1 }

  -- A move to a buffer with room for the messages keeps what is left of validity.
  pub move_to-IsMendable :
      {q : Ring A} (n : ℕ) → IsMendable q → q.count ≤ n → 0 < n → IsMendable (move_to q n)
  unfolding move_to
  move_to-IsMendable {q} n v room some_room = record {
    valid = record {
      allocated = move_to-allocated q n;
      head_in = some_room;
      count_in = room;
      tail_at = ap (λ (k : ℕ). k % n) (omega arith);
      written = subst AreWritten (sym (contents-move_to q n room)) v.valid.written;
    };
    tail_in = room;
  }

  pub move_to_tail :
      (q : Ring A) (n : ℕ) → q.count < n → (move_to q n).tail < (move_to q n).capacity
  unfolding move_to
  move_to_tail q n h = h
