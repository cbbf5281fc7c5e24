-- ===== src/Sockets/Text.antt =====
-- The string functions that both programs use. A string is its characters without the null byte.
pub mod Trim
use osa_sp.Base.{
  ℕ, ◌+◌, Bool, true, false, ◌&&◌, ◌||◌, Option, none, some, List, [], ◌∷◌, ◌++◌, leb, ◌==◌,
  if◌then◌else◌, is_space, skip_spaces, newline,
}

-- `tolower` in the C locale
abbrev pub to_lower : ℕ → ℕ
to_lower c = if leb b'A' c && leb c b'Z' then c + 32 else c

-- `strcasecmp(s, t) == 0`
unfoldable pub same_text : List ℕ → List ℕ → Bool
same_text [] [] = true
same_text (x ∷ s) (y ∷ t) = (to_lower x == to_lower y) && same_text s t
same_text _ _ = false

-- `strncasecmp(s, word, strlen(word)) == 0`, and what follows the word in `s`.
unfoldable pub after_word : List ℕ → List ℕ → Option (List ℕ)
after_word [] s = some s
after_word (w ∷ word) [] = none
after_word (w ∷ word) (c ∷ s) =
    let rest = after_word word s in if to_lower w == to_lower c then rest else none

-- `strncmp(s, root, strlen(root)) == 0`, and what follows the root in `s`.
unfoldable pub after_root : List ℕ → List ℕ → Option (List ℕ)
after_root [] s = some s
after_root (r ∷ root) [] = none
after_root (r ∷ root) (c ∷ s) = let rest = after_root root s in if r == c then rest else none

-- `*p = '\0'` at `p = strrchr(s, '/')`; `none` when there is no slash.
unfoldable pub before_last_slash : List ℕ → Option (List ℕ)
before_last_slash [] = none
before_last_slash (c ∷ s) = elim (before_last_slash s) [
  | some up ↦ some (c ∷ up)
  | none ↦ if c == b'/' then some [] else none
]

-- White space at the end goes.
unfoldable pub trim_end : List ℕ → List ℕ
trim_end [] = []
trim_end (c ∷ s) = elim (trim_end s) [ [] ↦ if is_space c then [] else c ∷ [] | d ∷ t ↦ c ∷ d ∷ t ]

-- `trim`; behind the first loop a first character is no space, so the second one stops at it.
unfoldable pub trim : List ℕ → List ℕ
trim s = trim_end (skip_spaces s)

-- No byte is a newline or a null byte.
unfoldable pub is_plain : List ℕ → Bool
is_plain [] = true
is_plain (c ∷ s) = let rest = is_plain s in if (c == newline) || (c == 0) then false else rest
