-- ===== src/Sockets/Client/Replies.antt =====
-- The loop of client.c that reads the answer to a command, up to the prompt.
use mathlib.Core.Path.{subst}
use osa_sp.Base.{
  ℕ, zero, suc, ◌<◌, ◌≡◌, ◌⊎◌, inl, inr, refl, sym, ap, ◌∙◌, Bool, true, not, ◌&&◌, Option, none,
  some, Option-cases, List, [], ◌∷◌, ◌++◌, append_assoc, append-nil, newline, arith, length,
  same_bytes, codes,
}
use osa_sp.Sockets.Text.{is_plain}
use osa_sp.Sockets.Client.{
  Stream, read, read_line, c_string, is_prompt, Status, shown, ended, prompted, Screen, screen,
  handled, handle_line, as_string, handle_server_line, await_prompt,
}
use osa_sp.Sockets.Client.Lines.{first_line, bytes_of, all_given, read_line-IsFirstLine}

first_line-Plain :
    (line rest : List ℕ)
    → is_plain line ≡ true
    → first_line (line ++ newline ∷ rest) ≡ some (line, rest)
unfolding first_line is_plain
first_line-Plain [] rest h = refl
first_line-Plain (c ∷ line) rest h = grind (arith, h, first_line-Plain line rest)

c_string-Plain : (line : List ℕ) → is_plain line ≡ true → c_string line ≡ line
unfolding c_string is_plain
c_string-Plain [] h = refl
c_string-Plain (c ∷ line) h = grind (arith, h, c_string-Plain line)

first_line-length :
    (text line rest : List ℕ) → first_line text ≡ some (line, rest) → length rest < length text
unfolding first_line
first_line-length [] line rest h = grind (arith, h)
first_line-length (c ∷ text) line rest h = elim (Option-cases (first_line text)) [
  | inl n ↦ grind (arith, h, n)
  | inr (split, n) ↦ grind (arith, h, n, first_line-length text split.0 split.1 n)
]

-- A line that stands first in the stream is the one that is read.
read_line-Plain :
    (s : Stream) (line rest : List ℕ)
    → all_given s.recvs ≡ true
    → bytes_of s ≡ line ++ newline ∷ rest
    → is_plain line ≡ true
    → (left : Stream) × (read_line s ≡ read (some line) left)
      × (bytes_of left ≡ rest)
      × (all_given left.recvs ≡ true)
read_line-Plain s line rest given text plain = elim (read_line-IsFirstLine s given) [
  | inl (nothing, got) ↦ absurd (grind (arith, nothing, text, first_line-Plain line rest plain))
  | inr (line', rest', fst, got, left, given') ↦ (
    (read_line s).left,
    grind (arith, got, fst, text, first_line-Plain line rest plain),
    grind (arith, left, fst, text, first_line-Plain line rest plain),
    given',
  )
]

-- A line of an answer that the client prints and reads on behind.
abbrev pub is_ordinary : List ℕ → Bool
is_ordinary line = is_plain line && (not (is_prompt line) && not (same_bytes line (codes "BYE")))

abbrev pub all_ordinary : List (List ℕ) → Bool
all_ordinary [] = true
all_ordinary (line ∷ lines) = is_ordinary line && all_ordinary lines

abbrev pub unlines : List (List ℕ) → List ℕ
unlines [] = []
unlines (line ∷ lines) = line ++ newline ∷ unlines lines

module _ (s : Screen) (line rest : List ℕ) (given : all_given s.input.recvs ≡ true)
    (text : bytes_of s.input ≡ line ++ newline ∷ rest) (plain : is_plain line ≡ true) where
  handle_server_line-Plain :
      (left : Stream) × (handle_server_line s ≡ handle_line s left (some line))
      × (bytes_of left ≡ rest)
      × (all_given left.recvs ≡ true)
  unfolding handle_server_line
  handle_server_line-Plain =
      let (left, got, behind, given') = read_line-Plain s.input line rest given text plain in
      (left, rw (got, c_string-Plain line plain) refl, behind, given')

  pub handle_server_line-prompt :
      is_prompt line ≡ true
      → (left : Stream) × (handle_server_line s
          ≡ handled prompted (screen (some line) s.printed left))
        × (bytes_of left ≡ rest)
        × (all_given left.recvs ≡ true)
  unfolding handle_line
  handle_server_line-prompt p =
      let (left, got, behind, given') = handle_server_line-Plain in
      (left, got ∙ (rw p refl), behind, given')

  handle_server_line-ordinary :
      is_ordinary line ≡ true
      → (left : Stream) × (handle_server_line s
          ≡ handled shown (screen s.prompt (s.printed ++ (line ∷ [])) left))
        × (bytes_of left ≡ rest)
        × (all_given left.recvs ≡ true)
  unfolding handle_line
  handle_server_line-ordinary o =
      let (left, got, behind, given') = handle_server_line-Plain in
      (left, got ∙ (ground (arith, o)), behind, given')

module _ (fuel : ℕ) (s a : Screen) where
  await_prompt-prompted :
      handle_server_line s ≡ handled prompted a → await_prompt (suc fuel) s ≡ handled prompted a
  unfolding await_prompt
  await_prompt-prompted e = grind (arith, e)

  await_prompt-shown :
      handle_server_line s ≡ handled shown a → await_prompt (suc fuel) s ≡ await_prompt fuel a
  unfolding await_prompt
  await_prompt-shown e = grind (arith, e)

-- With more fuel than the answer has lines, the loop prints the lines of the answer, takes the prompt,
-- and leaves the bytes behind it.
pub await_prompt-unlines :
    (fuel : ℕ) (s : Screen) (lines : List (List ℕ)) (line rest : List ℕ)
    → all_given s.input.recvs ≡ true
    → bytes_of s.input ≡ unlines lines ++ (line ++ newline ∷ rest)
    → all_ordinary lines ≡ true
    → is_plain line ≡ true
    → is_prompt line ≡ true
    → length lines < fuel
    → (left : Stream) × (await_prompt fuel s
        ≡ handled prompted (screen (some line) (s.printed ++ lines) left))
      × (bytes_of left ≡ rest)
      × (all_given left.recvs ≡ true)
await_prompt-unlines zero s lines line rest given text ordinary plain p enough =
    absurd (omega (arith, enough))
await_prompt-unlines (suc fuel) s [] line rest given text ordinary plain p enough =
    let (left, got, behind, given') = handle_server_line-prompt s line rest given text plain p in
    (
      left,
      await_prompt-prompted fuel s (screen (some line) s.printed left) got
          ∙ ap (λ ls. handled prompted (screen (some line) ls left)) (sym (append-nil s.printed)),
      behind,
      given',
    )
await_prompt-unlines (suc fuel) s (first ∷ lines) line rest given text ordinary plain p enough =
    let (left, got, behind, given') =
      handle_server_line-ordinary s first (unlines lines ++ (line ++ newline ∷ rest)) given
        (text ∙ append_assoc first (newline ∷ unlines lines) (line ++ newline ∷ rest))
        (grind (arith, ordinary)) (grind (arith, ordinary)) in
    let next : Screen = screen s.prompt (s.printed ++ (first ∷ [])) left in
    let (left', got', behind', given'') =
      await_prompt-unlines fuel next lines line rest given' behind (grind (arith, ordinary)) plain p
        (omega (arith, enough)) in
    (
      left',
      await_prompt-shown fuel s next got
          ∙ (got'
              ∙ ap (λ ls. handled prompted (screen (some line) ls left'))
                  (append_assoc s.printed (first ∷ []) lines)),
      behind',
      given'',
    )

handle_line-input :
    (s : Screen) (left : Stream) (line : Option (List ℕ))
    → (handle_line s left line).after.input ≡ left
unfolding handle_line
handle_line-input s left none = refl
handle_line-input s left (some line) = grind arith

-- A line that is read shortens the stream, and without a line the loop ends.
handle_server_line-shorter :
    (s : Screen)
    → all_given s.input.recvs ≡ true
    → ((handle_server_line s).status ≡ ended)
      ⊎ ((length (bytes_of (handle_server_line s).after.input) < length (bytes_of s.input))
          × (all_given (handle_server_line s).after.input.recvs ≡ true))
unfolding handle_server_line handle_line
handle_server_line-shorter s given = elim (read_line-IsFirstLine s.input given) [
  | inl (nothing, got) ↦ inl (rw got refl)
  | inr (line, rest, fst, got, left, given') ↦
      let same = handle_line-input s (read_line s.input).left (as_string (read_line s.input).got) in
      inr (rw (same, left) (first_line-length (bytes_of s.input) line rest fst), rw same given')
]

Status-cases : (k : Status) → (k ≡ shown) ⊎ ((k ≡ ended) ⊎ (k ≡ prompted))
Status-cases shown = inl refl
Status-cases ended = inr (inl refl)
Status-cases prompted = inr (inr refl)

-- With more fuel than the stream has bytes, the loop ends: at a prompt, at `BYE`, or where the server's
-- bytes end.
pub await_prompt-ends :
    (fuel : ℕ) (s : Screen)
    → all_given s.input.recvs ≡ true
    → length (bytes_of s.input) < fuel
    → ((await_prompt fuel s).status ≡ ended) ⊎ ((await_prompt fuel s).status ≡ prompted)
unfolding await_prompt
await_prompt-ends zero s given enough = absurd (omega (arith, enough))
await_prompt-ends (suc fuel) s given enough = elim (Status-cases (handle_server_line s).status) [
  | inl e ↦ elim (handle_server_line-shorter s given) [
    | inl done ↦ absurd (cc (e, done))
    | inr (shorter, given') ↦
        subst (λ h. (h.status ≡ ended) ⊎ (h.status ≡ prompted)) (sym (next_line e))
          (await_prompt-ends fuel (handle_server_line s).after given'
            (omega (arith, enough, shorter)))
  ]
  | inr (inl e) ↦ inl (grind (arith, e))
  | inr (inr e) ↦ inr (grind (arith, e))
]
  where
    next_line :
        (handle_server_line s).status ≡ shown
        → await_prompt (suc fuel) s ≡ await_prompt fuel (handle_server_line s).after
    next_line e = grind (arith, e)
