-- ===== src/Environment/Reading.antt =====
-- The files of names, as the parent and as its children read them.
use osa_sp.Base.{
  ℕ, zero, suc, ◌+◌, ◌≤◌, ◌≡◌, inl, inr, refl, sym, ap, ap₂, ◌∙◌, true, false, Bool-cases, Option,
  none, some, Option-cases, List, [], ◌∷◌, ◌++◌, append_assoc, append-nil, ltb, ltb→lt,
  if◌then◌else◌, length, length-append, take, until_newline, arith,
}
use osa_sp.Environment.{
  Environ, binding, read_loop, filled, overrun, terminate, read_env_file, new_env_slots, start,
  env_file, read_env_from_file, show_environment,
}

take-all : (n : ℕ) (xs : List (List ℕ)) → length xs ≤ n → take n xs ≡ xs
take-all zero [] h = refl
take-all zero (x ∷ xs) h = absurd (omega (arith, h))
take-all (suc n) [] h = refl
take-all (suc n) (x ∷ xs) h = ap (λ t. x ∷ t) (take-all n xs (omega (arith, h)))

take-nil : (n : ℕ) → take {A = List ℕ} n [] ≡ []
take-nil zero = refl
take-nil (suc n) = refl

take-length : (n : ℕ) (xs : List (List ℕ)) → n ≤ length xs → length (take n xs) ≡ n
take-length zero xs h = refl
take-length (suc n) [] h = absurd (omega (arith, h))
take-length (suc n) (x ∷ xs) h = ap suc (take-length n xs (omega (arith, h)))

-- The parent's loop and the child's find the same bindings, up to the room that the parent's has left.
read_loop-take :
    (getenv : Environ) (max_vars room : ℕ) (entries texts : List (List ℕ))
    → length entries + room ≡ max_vars
    → read_loop getenv max_vars entries texts
      ≡ entries ++ take room (read_env_from_file getenv texts)
unfolding read_loop read_env_from_file
read_loop-take getenv max_vars room entries [] h =
    sym (ap (λ t. entries ++ t) (take-nil room) ∙ append-nil entries)
read_loop-take getenv max_vars zero entries (text ∷ texts) h =
    full (ground (arith, h)) ∙ sym (append-nil entries)
  where
    full :
        ltb (length entries) max_vars ≡ false
        → read_loop getenv max_vars entries (text ∷ texts) ≡ entries
    full e = rw e refl
read_loop-take getenv max_vars (suc room) entries (text ∷ texts) h =
    let free : ltb (length entries) max_vars ≡ true = ground (arith, h) in
    elim (Option-cases (getenv (until_newline text))) [
      | inl e ↦ grind (arith, free, e, read_loop-take getenv max_vars (suc room) entries texts h)
      | inr (value, e) ↦
          let more : List (List ℕ) = binding (until_newline text) value ∷ [] in
          grind (
            arith,
            free,
            e,
            read_loop-take getenv max_vars room (entries ++ more) texts
                (omega (arith, h, length-append entries more)),
            append_assoc entries more (take room (read_env_from_file getenv texts)),
          )
    ]

terminate-take :
    (slots : ℕ) (vars : List (List ℕ))
    → terminate slots (take slots vars) ≡ (if ltb (length vars) slots then filled vars else overrun)
unfolding terminate
terminate-take slots vars = elim (Bool-cases (ltb (length vars) slots)) [
  | inl e ↦ rw (take-all slots vars (omega (arith, ltb→lt (length vars) slots e)), e) refl
  | inr e ↦
      let size : length (take slots vars) ≡ slots = take-length slots vars (ground (arith, e)) in
      rw (e, size) (ground arith)
]

-- `read_env_file` puts the bindings of the file's names that have a value into `new_env`, in the order of
-- the file, when there are fewer than 256 of them; with 256 or more it writes the NULL that ends them
-- behind the end of the array.
pub read_env_file_lem :
    (getenv : Environ) (texts : List (List ℕ))
    → read_env_file getenv (some texts) new_env_slots new_env_slots ≡ (
        let vars = read_env_from_file getenv texts in
        if ltb (length vars) new_env_slots then filled vars else overrun)
unfolding read_env_file
read_env_file_lem getenv texts =
    ap (terminate new_env_slots) (read_loop-take getenv new_env_slots new_env_slots [] texts refl)
    ∙ terminate-take new_env_slots (read_env_from_file getenv texts)

filled-vars :
    (vars env : List (List ℕ))
    → (if ltb (length vars) new_env_slots then filled vars else overrun) ≡ filled env
    → vars ≡ env
filled-vars vars env h = elim (Bool-cases (ltb (length vars) new_env_slots)) [
  | inl e ↦ grind (arith, h, e)
  | inr e ↦ absurd (grind (arith, h, e))
]

-- The names of the file have the same values for the parent and for the child.
unfoldable pub AreShared : Environ → Environ → List (List ℕ) → Type 0
AreShared getenv getenv' [] = Unit
AreShared getenv getenv' (text ∷ texts) =
    (getenv (until_newline text) ≡ getenv' (until_newline text)) × AreShared getenv getenv' texts

read_env_from_file-shared :
    (getenv getenv' : Environ) (texts : List (List ℕ))
    → AreShared getenv getenv' texts
    → read_env_from_file getenv texts ≡ read_env_from_file getenv' texts
unfolding read_env_from_file AreShared
read_env_from_file-shared getenv getenv' [] h = refl
read_env_from_file-shared getenv getenv' (text ∷ texts) (e, h) =
    ap₂ (λ o rest. elim o [ none ↦ rest | some value ↦ binding (until_newline text) value ∷ rest ])
      e (read_env_from_file-shared getenv getenv' texts h)

-- A child that `+` starts and one that `*` starts show the same bindings, when the file is the one that
-- the parent read, has fewer than 256 names with a value, and each of its names has for the child the
-- value it has for the parent.
pub show_environment-shared :
    (fopen : List ℕ → Option (List (List ℕ))) (getenv getenv' : Environ) (texts : List (List ℕ))
    (name : List ℕ) (env : List (List ℕ))
    → fopen env_file ≡ some texts
    → AreShared getenv getenv' texts
    → read_env_file getenv (fopen env_file) new_env_slots new_env_slots ≡ filled env
    → show_environment fopen getenv' (start (name ∷ env_file ∷ []) env)
      ≡ show_environment fopen getenv' (start (name ∷ []) env)
unfolding show_environment
show_environment-shared fopen getenv getenv' texts name env opened shared read =
    let vars : List (List ℕ) = read_env_from_file getenv texts in
    let outcome : (if ltb (length vars) new_env_slots then filled vars else overrun) ≡ filled env =
      sym (read_env_file_lem getenv texts)
      ∙ (ap (λ o. read_env_file getenv o new_env_slots new_env_slots) (sym opened) ∙ read) in
    rw opened (
      ap some (
        sym (read_env_from_file-shared getenv getenv' texts shared) ∙ filled-vars vars env outcome))
