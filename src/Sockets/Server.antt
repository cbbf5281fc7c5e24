-- ===== src/Sockets/Server.antt =====
-- server.c: the paths, the commands of a client, and the loop of `client_thread`. What is sent to the
-- client is the list of its bytes; a client that is gone gets none of them, which the server does not
-- see.
pub mod Paths
pub mod Session
pub mod Replies
pub mod Shutdown
use osa_sp.Base.{
  ℕ, zero, suc, ◌+◌, ◌-◌, Bool, true, false, not, ◌&&◌, ◌||◌, Option, none, some, List, [], ◌∷◌,
  ◌++◌, ltb, ◌==◌, if◌then◌else◌, length, take, same_bytes, until_newline,
}
use osa_sp.Sockets.Text.{same_text, after_word, after_root, before_last_slash, trim}

-- What `S_ISDIR` and `S_ISLNK` tell apart.
pub data NodeKind : Type 0 where
  folder symlink plain : NodeKind

-- The file system, as the calls of the server see it.
pub record FileSystem : Type 0 where
  pub realpath : List ℕ → Option (List ℕ)
  pub opendir : List ℕ → Option (List (List ℕ))
  pub lstat : List ℕ → Option NodeKind
  pub readlink : List ℕ → Option (List ℕ)

abbrev pub path_max : ℕ
path_max = 4096

-- PATHBUF
abbrev pub path_buf : ℕ
path_buf = path_max + 255 + 2

-- `target[0] == '/'`
abbrev pub is_absolute : List ℕ → Bool
is_absolute [] = false
is_absolute (c ∷ _) = c == b'/'

-- `tmp` of `build_path`
unfoldable pub joined : List ℕ → List ℕ → List ℕ → List ℕ
joined root cwd target =
    take (path_buf - 1)
      (if is_absolute target then root ++ target else root ++ (b'/' ∷ (cwd ++ (b'/' ∷ target))))

-- The check of `build_path`: the part of the real path behind the root.
unfoldable pub confine : List ℕ → Option (List ℕ) → Option (List ℕ)
confine root none = none
confine root (some real) = elim (after_root root real) [ none ↦ none | some _ ↦ some real ]

-- `build_path`; `none` is -1.
unfoldable pub build_path : FileSystem → List ℕ → List ℕ → List ℕ → Option (List ℕ)
build_path fs root cwd target = confine root (fs.realpath (joined root cwd target))

abbrev pub line_of : List ℕ → List ℕ
line_of text = text ++ (b'\n' ∷ [])

abbrev pub dots : List ℕ → Bool
dots name = same_bytes name (b'.' ∷ []) || same_bytes name (b'.' ∷ b'.' ∷ [])

-- `readlink` into a buffer of PATHBUF - 1 bytes
abbrev pub read_link : FileSystem → List ℕ → Option (List ℕ)
read_link fs path = elim (fs.readlink path) [
  | none ↦ none
  | some link ↦ some (take (path_buf - 1) link)
]

abbrev pub arrow : List ℕ → List ℕ → List ℕ → List ℕ
arrow name mark link = line_of (name ++ (mark ++ link))

-- The line of a link to a link; none when the second link cannot be read or is empty.
unfoldable pub second_link : List ℕ → Option (List ℕ) → List ℕ
second_link name none = []
second_link name (some []) = []
second_link name (some (c ∷ link)) =
    arrow name (b' ' ∷ b'-' ∷ b'-' ∷ b'>' ∷ b'>' ∷ b' ' ∷ []) (c ∷ link)

unfoldable pub link_target : FileSystem → List ℕ → List ℕ → List ℕ → Option NodeKind → List ℕ
link_target fs name link target (some symlink) = second_link name (read_link fs target)
link_target fs name link target _ = arrow name (b' ' ∷ b'-' ∷ b'-' ∷ b'>' ∷ b' ' ∷ []) link

unfoldable pub link_inside : FileSystem → List ℕ → List ℕ → Option (List ℕ) → List ℕ
link_inside fs name link none = []
link_inside fs name link (some target) = link_target fs name link target (fs.lstat target)

unfoldable pub link_line : FileSystem → List ℕ → List ℕ → List ℕ → Option (List ℕ) → List ℕ
link_line fs root cwd name none = []
link_line fs root cwd name (some link) = link_inside fs name link (build_path fs root cwd link)

-- What `handle_list` sends for one entry at `full`.
unfoldable pub entry_line :
    FileSystem → List ℕ → List ℕ → List ℕ → List ℕ → Option NodeKind → List ℕ
entry_line fs root cwd name full none = []
entry_line fs root cwd name full (some folder) = line_of (name ++ (b'/' ∷ []))
entry_line fs root cwd name full (some symlink) = link_line fs root cwd name (read_link fs full)
entry_line fs root cwd name full (some plain) = line_of name

unfoldable pub list_entry : FileSystem → List ℕ → List ℕ → List ℕ → List ℕ → List ℕ
list_entry fs root cwd path name =
    let full = path ++ (b'/' ∷ name) in
    if dots name
    then []
    else if ltb (length full) path_buf
    then entry_line fs root cwd name full (fs.lstat full)
    else []

unfoldable pub list_entries : FileSystem → List ℕ → List ℕ → List ℕ → List (List ℕ) → List ℕ
list_entries fs root cwd path [] = []
list_entries fs root cwd path (name ∷ rest) =
    list_entry fs root cwd path name ++ list_entries fs root cwd path rest
