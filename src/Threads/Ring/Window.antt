-- ===== src/Threads/Ring/Window.antt =====
-- The messages that a ring holds, and its representation invariant.
use osa_sp.Base.{
  ◌+◌, ◌%◌, ◌≤◌, ◌<◌, ◌≡◌, refl, Option, none, some, List, [], ◌∷◌, ◌++◌, window, length,
}
use osa_sp.Threads.Ring.{Ring}

module _ {ℓ} {A : Type ℓ} where
  -- Every slot holds a message.
  abbrev pub AreWritten : List (Option A) → Type 0
  AreWritten [] = Unit
  AreWritten (none ∷ xs) = ⊥
  AreWritten (some _ ∷ xs) = AreWritten xs

  -- The messages in the queue, oldest first.
  abbrev pub contents : Ring A → List (Option A)
  contents q = window none q.buffer q.capacity q.head q.count

  pub record IsValid (q : Ring A) : Type 0 where
    pub allocated : length q.buffer ≡ q.capacity
    pub head_in : q.head < q.capacity
    pub count_in : q.count ≤ q.capacity
    pub tail_at : q.tail ≡ (q.head + q.count) % q.capacity
    pub written : AreWritten (contents q)

module _ {ℓ} {A : Type ℓ} where
  pub AreWritten-append :
      (xs : List (Option A)) (m : A) → AreWritten xs → AreWritten (xs ++ (some m ∷ []))
  AreWritten-append [] m w = tt
  AreWritten-append (none ∷ xs) m w = absurd w
  AreWritten-append (some _ ∷ xs) m w = AreWritten-append xs m w

  pub first_written :
      (x : Option A) (xs : List (Option A)) → AreWritten (x ∷ xs) → (m : A) × (x ≡ some m)
  first_written none xs w = absurd w
  first_written (some m) xs w = (m, refl)

  pub rest_written : (x : Option A) (xs : List (Option A)) → AreWritten (x ∷ xs) → AreWritten xs
  rest_written none xs w = absurd w
  rest_written (some m) xs w = w
