-- ===== src/Sorting/Claims.antt =====
-- The maps of sort_index.c in which the workers claim blocks, and pairs of blocks.
use mathlib.Core.Path.{subst}
use osa_sp.Base.{
  ℕ, zero, suc, ◌+◌, ◌<◌, ◌≡◌, ◌⊎◌, inl, inr, refl, sym, ap, ◌∙◌, Bool, true, false, not, ◌||◌,
  none, some, Option-cases, List, [], ◌∷◌, length, length-set, get_elem?, set, replicate,
  length-replicate, if◌then◌else◌, arith,
}
use osa_sp.Sorting.{claim_own, Claim, own, first_free, claim, claims}
use osa_sp.Sorting.Cells.{times, AreOnce}
use osa_sp.Sorting.Sorts.{AllBelow}
use osa_sp.Sorting.Workers.{claim_block_cases}

-- A claim finds nothing, or marks a block that was free.
claim_cases :
    (c : Claim) (map : List Bool)
    → (claim c map ≡ (none, map))
      ⊎ ((j : ℕ) × (claim c map ≡ (some j, set map j true)) × (get_elem? map j ≡ some false))
unfolding claim claim_own
claim_cases first_free map = elim (claim_block_cases 0 map) [
  | inl (done, all) ↦ inl done
  | inr (j, done, free, before) ↦
      inr (j, done ∙ ap (λ (k : ℕ). (some k, set map j true)) (omega arith), free)
]
claim_cases (own id) map = elim (Option-cases (get_elem? map id)) [
  | inl e ↦ inl (grind (arith, e))
  | inr (true, e) ↦ inl (grind (arith, e))
  | inr (false, e) ↦ inr (id, grind (arith, e), e)
]

-- How often a block is claimed while its mark goes from the one value to the other.
unfoldable fresh : Bool → Bool → ℕ
fresh before after = if after then (if before then 0 else 1) else 0

-- Marks are only set, and a block is claimed once when its mark is.
unfoldable IsFresh : ℕ → List Bool → List Bool → List ℕ → Type 0
IsFresh b [] [] order = Unit
IsFresh b (x ∷ map) (y ∷ map') order =
    (times b order ≡ fresh x y) × ((not x || y) ≡ true) × IsFresh (suc b) map map' order
IsFresh b _ _ order = true ≡ false

IsFresh-nil : (b : ℕ) (map : List Bool) → IsFresh b map map []
unfolding IsFresh times fresh
IsFresh-nil b [] = tt
IsFresh-nil b (true ∷ map) = (refl, refl, IsFresh-nil (suc b) map)
IsFresh-nil b (false ∷ map) = (refl, refl, IsFresh-nil (suc b) map)

times-below : (b j : ℕ) (order : List ℕ) → j < b → times b (j ∷ order) ≡ times b order
unfolding times
times-below b j order h = ground (arith, h)

IsFresh-skip :
    (b j : ℕ) (map map' : List Bool) (order : List ℕ)
    → j < b
    → IsFresh b map map' order
    → IsFresh b map map' (j ∷ order)
unfolding IsFresh
IsFresh-skip b j [] [] order h f = tt
IsFresh-skip b j (x ∷ map) (y ∷ map') order h (count, up, f) = (
  times-below b j order h ∙ count,
  up,
  IsFresh-skip (suc b) j map map' order (omega (arith, h)) f,
)
IsFresh-skip b j [] (y ∷ map') order h f = f
IsFresh-skip b j (x ∷ map) [] order h f = f

IsFresh-claim :
    (b j : ℕ) (map map' : List Bool) (order : List ℕ)
    → get_elem? map j ≡ some false
    → IsFresh b (set map j true) map' order
    → IsFresh b map map' ((b + j) ∷ order)
unfolding IsFresh fresh times
IsFresh-claim b j [] map' order free f = absurd (ground (arith, free))
IsFresh-claim b zero (x ∷ map) (y ∷ map') order free (count, up, f) = (
  grind (arith, free, count, up),
  grind (arith, free, up),
  IsFresh-skip (suc b) (b + 0) map map' order (omega arith) f,
)
IsFresh-claim b zero (x ∷ map) [] order free f = absurd (ground (arith, f))
IsFresh-claim b (suc j) (x ∷ map) (y ∷ map') order free (count, up, f) = (
  grind (arith, count),
  up,
  subst (λ k. IsFresh (suc b) map map' (k ∷ order)) (omega arith)
      (IsFresh-claim (suc b) j map map' order free f),
)
IsFresh-claim b (suc j) (x ∷ map) [] order free f = absurd (ground (arith, f))

claims-nothing :
    (c : Claim) (later : List Claim) (map : List Bool)
    → claim c map ≡ (none, map)
    → claims (c ∷ later) map ≡ claims later map
unfolding claims
claims-nothing c later map e = rw e refl

claims-block :
    (c : Claim) (later : List Claim) (map : List Bool) (j : ℕ)
    → claim c map ≡ (some j, set map j true)
    → claims (c ∷ later) map
      ≡ (j ∷ (claims later (set map j true)).0, (claims later (set map j true)).1)
unfolding claims
claims-block c later map j e = rw e refl

abbrev AreGood : List Bool → List ℕ × List Bool → Type 0
AreGood map got = IsFresh 0 map got.1 got.0 × AllBelow (length map) got.0

get_elem?-inside : (map : List Bool) (j : ℕ) (x : Bool) → get_elem? map j ≡ some x → j < length map
get_elem?-inside [] j x h = absurd (ground (arith, h))
get_elem?-inside (y ∷ map) zero x h = omega arith
get_elem?-inside (y ∷ map) (suc j) x h = omega (arith, get_elem?-inside map j x h)

claims-AreGood : (tries : List Claim) (map : List Bool) → AreGood map (claims tries map)
unfolding claims
claims-AreGood [] map = (IsFresh-nil 0 map, tt)
claims-AreGood (c ∷ later) map = elim (claim_cases c map) [
  | inl e ↦ subst (AreGood map) (sym (claims-nothing c later map e)) (claims-AreGood later map)
  | inr (j, e, free) ↦
      let (fresh, below) = claims-AreGood later (set map j true) in
      subst (AreGood map) (sym (claims-block c later map j e)) (
        subst
            (λ k.
              IsFresh 0 map (claims later (set map j true)).1
                (k ∷ (claims later (set map j true)).0))
            (omega arith)
            (IsFresh-claim 0 j map (claims later (set map j true)).1
              (claims later (set map j true)).0 free fresh),
        (
          get_elem?-inside map j false free,
          subst (λ n. AllBelow n (claims later (set map j true)).0) (length-set map j true) below,
        ),
      )
]

IsFresh-AreOnce :
    (b n : ℕ) (order : List ℕ)
    → IsFresh b (replicate n false) (replicate n true) order
    → AreOnce order b n
unfolding IsFresh fresh
IsFresh-AreOnce b zero order f = tt
IsFresh-AreOnce b (suc n) order (count, up, f) = (count, IsFresh-AreOnce (suc b) n order f)

-- The claims made on a map of `n` free blocks, until none of them is free, get every block once,
-- whichever worker makes which.
pub claims-AreOnce :
    (tries : List Claim) (n : ℕ) (order : List ℕ)
    → claims tries (replicate n false) ≡ (order, replicate n true)
    → AreOnce order 0 n × AllBelow n order
claims-AreOnce tries n order h =
    let (fresh, below) =
      subst (AreGood (replicate n false)) h (claims-AreGood tries (replicate n false)) in
    (
      IsFresh-AreOnce 0 n order fresh,
      subst (λ k. AllBelow k order) (length-replicate n false) below,
    )
