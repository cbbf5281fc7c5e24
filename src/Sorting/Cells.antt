-- ===== src/Sorting/Cells.antt =====
-- The array as cells of one length, and a function applied to the cells in any order.
use mathlib.Core.Path.{subst}
use osa_sp.Base.{
  ℕ, zero, suc, ◌+◌, ◌*◌, ◌≤◌, ◌<◌, ◌≡◌, refl, sym, ap, ap₂, ◌∙◌, List, [], ◌∷◌, ◌++◌, append_assoc,
  map, ◌==◌, if◌then◌else◌, length, length-append, take, drop, arith,
}
use osa_sp.Sorting.{Index, splice}
use osa_sp.Sorting.Ranges.{drop-drop}

unfoldable pub concat : List (List Index) → List Index
concat [] = []
concat (c ∷ cells) = c ++ concat cells

-- Every cell has `n` records.
abbrev pub AllLong : ℕ → List (List Index) → Type 0
AllLong n [] = Unit
AllLong n (c ∷ cells) = (length c ≡ n) × AllLong n cells

unfoldable pub update : ℕ → (List Index → List Index) → List (List Index) → List (List Index)
update i f [] = []
update zero f (c ∷ cells) = f c ∷ cells
update (suc i) f (c ∷ cells) = c ∷ update i f cells

unfoldable pub updates : List ℕ → (List Index → List Index) → List (List Index) → List (List Index)
updates [] f cells = cells
updates (i ∷ is) f cells = updates is f (update i f cells)

unfoldable pub iterate : ℕ → (List Index → List Index) → List Index → List Index
iterate zero f c = c
iterate (suc n) f c = iterate n f (f c)

-- How often a number comes.
unfoldable pub times : ℕ → List ℕ → ℕ
times i [] = 0
times i (j ∷ js) = let rest = times i js in if i == j then suc rest else rest

-- The cells, of which the first has the number `b`, each as often changed as its number comes.
unfoldable pub each : (List Index → List Index) → ℕ → List ℕ → List (List Index) → List (List Index)
each f b js [] = []
each f b js (c ∷ cells) = iterate (times b js) f c ∷ each f (suc b) js cells

times-here : (b : ℕ) (js : List ℕ) → suc (times b js) ≡ times b ((b + 0) ∷ js)
unfolding times
times-here b js = ground arith

times-there : (b i : ℕ) (js : List ℕ) → times b js ≡ times b ((b + suc i) ∷ js)
unfolding times
times-there b i js = ground arith

module _ (f : List Index → List Index) where
  each-skip :
      (b j : ℕ) (js : List ℕ) (cells : List (List Index))
      → j < b
      → each f b (j ∷ js) cells ≡ each f b js cells
  unfolding each times
  each-skip b j js [] h = refl
  each-skip b j js (c ∷ cells) h = grind (arith, h, each-skip (suc b) j js cells (omega (arith, h)))

  each-update :
      (b i : ℕ) (js : List ℕ) (cells : List (List Index))
      → each f b js (update i f cells) ≡ each f b ((b + i) ∷ js) cells
  unfolding each update times iterate
  each-update b i js [] = refl
  each-update b zero js (c ∷ cells) =
      ap₂ (λ n more. iterate n f c ∷ more) (times-here b js)
        (sym (each-skip (suc b) (b + 0) js cells (omega arith)))
  each-update b (suc i) js (c ∷ cells) =
      ap₂ (λ n more. iterate n f c ∷ more) (times-there b i js)
        (each-update (suc b) i js cells ∙ ap (λ j. each f (suc b) (j ∷ js) cells) (next b i))
    where
      next : (b i : ℕ) → suc b + i ≡ b + suc i
      next b i = omega arith

  each-nil : (b : ℕ) (cells : List (List Index)) → each f b [] cells ≡ cells
  unfolding each times iterate
  each-nil b [] = refl
  each-nil b (c ∷ cells) = ap (λ t. c ∷ t) (each-nil (suc b) cells)

  updates-each : (js : List ℕ) (cells : List (List Index)) → updates js f cells ≡ each f 0 js cells
  unfolding updates
  updates-each [] cells = sym (each-nil 0 cells)
  updates-each (j ∷ js) cells =
      updates-each js (update j f cells)
      ∙ (each-update 0 j js cells ∙ ap (λ i. each f 0 (i ∷ js) cells) (omega arith))

-- Each number of `n` from `b` on comes once.
abbrev pub AreOnce : List ℕ → ℕ → ℕ → Type 0
AreOnce js b zero = Unit
AreOnce js b (suc n) = (times b js ≡ 1) × AreOnce js (suc b) n

each-once :
    (f : List Index → List Index) (b : ℕ) (js : List ℕ) (cells : List (List Index))
    → AreOnce js b (length cells)
    → each f b js cells ≡ map f cells
unfolding each iterate
each-once f b js [] h = refl
each-once f b js (c ∷ cells) (once, h) =
    ap₂ (λ n more. iterate n f c ∷ more) once (each-once f (suc b) js cells h)

-- When every number of a cell comes once, in whatever order, every cell is changed once.
pub updates-once :
    (f : List Index → List Index) (js : List ℕ) (cells : List (List Index))
    → AreOnce js 0 (length cells)
    → updates js f cells ≡ map f cells
updates-once f js cells h = updates-each f js cells ∙ each-once f 0 js cells h

pub length-update :
    (i : ℕ) (f : List Index → List Index) (cells : List (List Index))
    → length (update i f cells) ≡ length cells
unfolding update
length-update i f [] = refl
length-update zero f (c ∷ cells) = refl
length-update (suc i) f (c ∷ cells) = ap suc (length-update i f cells)

pub AllLong-update :
    (n i : ℕ) (f : List Index → List Index) (cells : List (List Index))
    → ((c : List Index) → length c ≡ n → length (f c) ≡ n)
    → AllLong n cells
    → AllLong n (update i f cells)
unfolding update
AllLong-update n i f [] keeps h = tt
AllLong-update n zero f (c ∷ cells) keeps (here, more) = (keeps c here, more)
AllLong-update n (suc i) f (c ∷ cells) keeps (here, more) =
    (here, AllLong-update n i f cells keeps more)

take-front : (front back : List Index) → take (length front) (front ++ back) ≡ front
take-front [] back = refl
take-front (x ∷ front) back = ap (λ t. x ∷ t) (take-front front back)

drop-front : (front back : List Index) → drop (length front) (front ++ back) ≡ back
drop-front [] back = refl
drop-front (x ∷ front) back = drop-front front back

pub take-within : (n : ℕ) (c back : List Index) → n ≤ length c → take n (c ++ back) ≡ take n c
take-within zero c back h = refl
take-within (suc n) [] back h = absurd (omega (arith, h))
take-within (suc n) (x ∷ c) back h = ap (λ t. x ∷ t) (take-within n c back (omega (arith, h)))

pub drop-within :
    (n : ℕ) (c back : List Index) → n ≤ length c → drop n (c ++ back) ≡ drop n c ++ back
drop-within zero c back h = refl
drop-within (suc n) [] back h = absurd (omega (arith, h))
drop-within (suc n) (x ∷ c) back h = drop-within n c back (omega (arith, h))

pub take-at : (front back : List Index) (k : ℕ) → length front ≡ k → take k (front ++ back) ≡ front
take-at front back k at = subst (λ k. take k (front ++ back) ≡ front) at (take-front front back)

pub drop-at : (front back : List Index) (k : ℕ) → length front ≡ k → drop k (front ++ back) ≡ back
drop-at front back k at = subst (λ k. drop k (front ++ back) ≡ back) at (drop-front front back)

-- A cell in the array: what stands before it and behind it.
pub find_cell :
    (n i : ℕ) (cells : List (List Index))
    → AllLong n cells
    → i < length cells
    → (front c back : List Index) × (concat cells ≡ front ++ (c ++ back))
      × (length front ≡ i * n)
      × (length c ≡ n)
      × ((f : List Index → List Index) → concat (update i f cells) ≡ front ++ (f c ++ back))
unfolding concat update
find_cell n i [] long h = absurd (omega (arith, h))
find_cell n zero (c ∷ cells) (here, more) h =
    ([], c, concat cells, refl, omega arith, here, λ f. refl)
find_cell n (suc i) (d ∷ cells) (here, more) h =
    let (front, c, back, parts, at, long, changed) = find_cell n i cells more (omega (arith, h)) in
    (
      d ++ front,
      c,
      back,
      ap (λ t. d ++ t) parts ∙ sym (append_assoc d front (c ++ back)),
      grind (arith, at, here, length-append d front),
      long,
      λ f. ap (λ t. d ++ t) (changed f) ∙ sym (append_assoc d front (f c ++ back)),
    )

-- A splice over the records between `front` and `back`.
pub splice-between :
    (front c back new : List Index) (left n : ℕ)
    → length front ≡ left
    → length c ≡ n
    → splice (front ++ (c ++ back)) left n new ≡ front ++ (new ++ back)
splice-between front c back new left n at long =
    ap₂ (λ first last. first ++ (new ++ last))
      (subst (λ k. take k (front ++ (c ++ back)) ≡ front) at (take-front front (c ++ back)))
      (drop-drop left n (front ++ (c ++ back))
        ∙ (ap (drop n) (drop-at front (c ++ back) left at) ∙ drop-at c back n long))

pub take-between :
    (front c back : List Index) (left n : ℕ)
    → length front ≡ left
    → length c ≡ n
    → take n (drop left (front ++ (c ++ back))) ≡ c
take-between front c back left n at long =
    subst (λ k. take n (drop k (front ++ (c ++ back))) ≡ c) at
      (ap (take n) (drop-front front (c ++ back))
        ∙ subst (λ k. take k (c ++ back) ≡ c) long (take-front c back))
