-- ===== src/Sockets/Client/Lines.antt =====
-- `read_line` of client.c and the bytes of the stream, however they come.
use osa_sp.Base.{
  ℕ, ◌≡◌, ◌⊎◌, inl, inr, refl, sym, ap, ◌∙◌, Bool, true, false, Bool-cases, Option, none, some,
  Option-cases, List, [], ◌∷◌, ◌++◌, append_assoc, append-nil, ◌==◌, if◌then◌else◌, newline, arith,
}
use mathlib.Core.Path.{subst}
use osa_sp.Sockets.Client.{Stream, stream, Scan, found, more, scan, Read, read, refill, read_line}

-- The first line of a text and what follows its newline.
unfoldable pub first_line : List ℕ → Option (List ℕ × List ℕ)
first_line [] = none
first_line (c ∷ s) =
    if c == newline
    then some ([], s)
    else elim (first_line s) [ none ↦ none | some split ↦ some (c ∷ split.0, split.1) ]

unfoldable pub flatten : List (List ℕ) → List ℕ
flatten [] = []
flatten (chunk ∷ recvs) = chunk ++ flatten recvs

abbrev pub bytes_of : Stream → List ℕ
bytes_of s = s.buffer ++ flatten s.recvs

-- Every `recv` gives a byte at least.
unfoldable pub all_given : List (List ℕ) → Bool
all_given [] = true
all_given ([] ∷ recvs) = false
all_given ((_ ∷ _) ∷ recvs) = all_given recvs

-- What a loop that has read `out` makes of the bytes that follow.
unfoldable scan_of : List ℕ → List ℕ → Option (List ℕ × List ℕ) → Scan
scan_of out s none = more (out ++ s)
scan_of out s (some split) = found (out ++ split.0) split.1

scan_lem : (out s : List ℕ) → scan out s ≡ scan_of out s (first_line s)
unfolding scan first_line scan_of
scan_lem out [] = rw (append-nil out) refl
scan_lem out (c ∷ s) = elim (Bool-cases (c == newline)) [
  | inl e ↦ rw (e, append-nil out) refl
  | inr e ↦ elim (Option-cases (first_line s)) [
    | inl n ↦ grind (arith, e, n, scan_lem (out ++ (c ∷ [])) s, append_assoc out (c ∷ []) s)
    | inr (split, n) ↦
        grind (arith, e, n, scan_lem (out ++ (c ∷ [])) s, append_assoc out (c ∷ []) split.0)
  ]
]

first_line-append_some :
    (s t line rest : List ℕ)
    → first_line s ≡ some (line, rest)
    → first_line (s ++ t) ≡ some (line, rest ++ t)
unfolding first_line
first_line-append_some [] t line rest h = ground (arith, h)
first_line-append_some (c ∷ s) t line rest h = elim (Bool-cases (c == newline)) [
  | inl e ↦ grind (arith, e, h)
  | inr e ↦ elim (Option-cases (first_line s)) [
    | inl n ↦ grind (arith, e, n, h)
    | inr (split, n) ↦ grind (arith, e, n, h, first_line-append_some s t split.0 split.1 n)
  ]
]

unfoldable behind : List ℕ → Option (List ℕ × List ℕ) → Option (List ℕ × List ℕ)
behind s none = none
behind s (some split) = some (s ++ split.0, split.1)

first_line-append_none :
    (s t : List ℕ) → first_line s ≡ none → first_line (s ++ t) ≡ behind s (first_line t)
unfolding first_line behind
first_line-append_none [] t h = elim (Option-cases (first_line t)) [
  | inl n ↦ grind (arith, n)
  | inr (split, n) ↦ grind (arith, n)
]
first_line-append_none (c ∷ s) t h = elim (Bool-cases (c == newline)) [
  | inl e ↦ grind (arith, e, h)
  | inr e ↦ elim (Option-cases (first_line s)) [
    | inl n ↦ elim (Option-cases (first_line t)) [
      | inl m ↦ grind (arith, e, n, m, first_line-append_none s t n)
      | inr (split, m) ↦ grind (arith, e, n, m, first_line-append_none s t n)
    ]
    | inr (split, n) ↦ grind (arith, e, n, h)
  ]
]

-- A read is right about the bytes of the stream, behind those that it has read already: it finds no
-- line and there is none, or it finds the first line and leaves what follows.
abbrev pub IsFirstLine : List ℕ → List ℕ → Read → Type 0
IsFirstLine out text r =
    ((first_line text ≡ none) × (r.got ≡ none))
    ⊎ ((line rest : List ℕ) × (first_line text ≡ some (line, rest))
        × (r.got ≡ some (out ++ line))
        × (bytes_of r.left ≡ rest)
        × (all_given r.left.recvs ≡ true))

found_IsFirstLine :
    (out chunk : List ℕ) (recvs : List (List ℕ)) (split : List ℕ × List ℕ)
    → first_line chunk ≡ some split
    → all_given recvs ≡ true
    → IsFirstLine out (chunk ++ flatten recvs) (read (some (out ++ split.0)) (stream split.1 recvs))
found_IsFirstLine out chunk recvs split n h = inr (
  split.0,
  split.1 ++ flatten recvs,
  first_line-append_some chunk (flatten recvs) split.0 split.1 n,
  refl,
  refl,
  h,
)

refill-found :
    (out chunk : List ℕ) (c : ℕ) (recvs : List (List ℕ)) (split : List ℕ × List ℕ)
    → first_line (c ∷ chunk) ≡ some split
    → refill out ((c ∷ chunk) ∷ recvs) ≡ read (some (out ++ split.0)) (stream split.1 recvs)
unfolding refill scan_of
refill-found out chunk c recvs split h = grind (arith, scan_lem out (c ∷ chunk), h)

refill-more :
    (out chunk : List ℕ) (c : ℕ) (recvs : List (List ℕ))
    → first_line (c ∷ chunk) ≡ none
    → refill out ((c ∷ chunk) ∷ recvs) ≡ refill (out ++ (c ∷ chunk)) recvs
unfolding refill scan_of
refill-more out chunk c recvs h = grind (arith, scan_lem out (c ∷ chunk), h)

-- Bytes without a newline in front of the text only lengthen the line.
IsFirstLine-more :
    (out chunk text : List ℕ) (r : Read)
    → first_line chunk ≡ none
    → IsFirstLine (out ++ chunk) text r
    → IsFirstLine out (chunk ++ text) r
unfolding behind
IsFirstLine-more out chunk text r h (inl (fst, got)) =
    inl (rw (first_line-append_none chunk text h, fst) refl, got)
IsFirstLine-more out chunk text r h (inr (line, rest, fst, got, left, given)) = inr (
  chunk ++ line,
  rest,
  rw (first_line-append_none chunk text h, fst) refl,
  got ∙ ap some (append_assoc out chunk line),
  left,
  given,
)

refill-IsFirstLine :
    (out : List ℕ) (recvs : List (List ℕ))
    → all_given recvs ≡ true
    → IsFirstLine out (flatten recvs) (refill out recvs)
unfolding refill flatten all_given first_line
refill-IsFirstLine out [] h = inl (refl, refl)
refill-IsFirstLine out ([] ∷ recvs) h = absurd (ground (arith, h))
refill-IsFirstLine out ((c ∷ chunk) ∷ recvs) h = elim (Option-cases (first_line (c ∷ chunk))) [
  | inl n ↦
      subst (IsFirstLine out ((c ∷ chunk) ++ flatten recvs)) (sym (refill-more out chunk c recvs n))
        (IsFirstLine-more out (c ∷ chunk) (flatten recvs) (refill (out ++ (c ∷ chunk)) recvs) n
          (refill-IsFirstLine (out ++ (c ∷ chunk)) recvs h))
  | inr (split, n) ↦
      subst (IsFirstLine out ((c ∷ chunk) ++ flatten recvs))
        (sym (refill-found out chunk c recvs split n))
        (found_IsFirstLine out (c ∷ chunk) recvs split n h)
]

read_line-found :
    (s : Stream) (split : List ℕ × List ℕ)
    → first_line s.buffer ≡ some split
    → read_line s ≡ read (some split.0) (stream split.1 s.recvs)
unfolding read_line scan_of
read_line-found s split h = grind (arith, scan_lem [] s.buffer, h)

read_line-more : (s : Stream) → first_line s.buffer ≡ none → read_line s ≡ refill s.buffer s.recvs
unfolding read_line scan_of
read_line-more s h = grind (arith, scan_lem [] s.buffer, h)

-- Whatever the server's bytes come in, as long as each `recv` gives one at least, `read_line` gives the
-- first line of the bytes that are left, without its newline, and leaves those behind it; it gives NULL
-- when they hold no newline.
pub read_line-IsFirstLine :
    (s : Stream) → all_given s.recvs ≡ true → IsFirstLine [] (bytes_of s) (read_line s)
read_line-IsFirstLine s h = elim (Option-cases (first_line s.buffer)) [
  | inl n ↦ subst (IsFirstLine [] (bytes_of s)) (sym (read_line-more s n)) (
      IsFirstLine-more [] s.buffer (flatten s.recvs) (refill s.buffer s.recvs) n
        (refill-IsFirstLine s.buffer s.recvs h))
  | inr (split, n) ↦
      subst (IsFirstLine [] (bytes_of s)) (sym (read_line-found s split n))
        (found_IsFirstLine [] s.buffer s.recvs split n h)
]
