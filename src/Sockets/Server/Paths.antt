-- ===== src/Sockets/Server/Paths.antt =====
-- server.c: `build_path`, and the current directory that `CD` sets.
use osa_sp.Base.{
  ℕ, ◌≤◌, ◌<◌, ◌≡◌, refl, true, false, Bool-cases, Option-cases, inl, inr, Option, none, some, List,
  [], ◌∷◌, ◌++◌, ltb, ltb→lt, ==_iff, length, drop, codes, arith, until_newline,
}
use osa_sp.Sockets.Text.{same_text, after_root, before_last_slash, trim}
use osa_sp.Sockets.Server.{FileSystem, path_max, build_path, confine, joined}
use osa_sp.Sockets.Server.Session.{
  Turn, turn, change_dir, cd_to, enter, drop_slash, parent_of, run_command, command_of, with_prompt,
  serve_line, serve_chunk, Round, rounds_from, client_thread, Command, cd, test, poll_failed, idle,
  hung_up, bytes,
}

after_root_sound : (root s rest : List ℕ) → after_root root s ≡ some rest → s ≡ root ++ rest
unfolding after_root
after_root_sound [] s rest h = grind (arith, h)
after_root_sound (r ∷ root) [] rest h = grind (arith, h)
after_root_sound (r ∷ root) (c ∷ s) rest h =
    grind (arith, h, after_root_sound root s rest, ==_iff r c)

after_root-append : (root rest : List ℕ) → after_root root (root ++ rest) ≡ some rest
unfolding after_root
after_root-append [] rest = refl
after_root-append (r ∷ root) rest = grind (arith, after_root-append root rest)

confine_sound :
    (root path : List ℕ) (real : Option (List ℕ))
    → confine root real ≡ some path
    → (real ≡ some path) × (rest : List ℕ) × (path ≡ root ++ rest)
unfolding confine
confine_sound root path none h = ground (arith, h)
confine_sound root path (some real) h = elim (Option-cases (after_root root real)) [
  | inl e ↦ ground (arith, h, e)
  | inr (rest, e) ↦
      (grind (arith, h, e), rest, grind (arith, h, e, after_root_sound root real rest e))
]

-- The path that `build_path` gives is the real path of the joined one, and its text begins with the
-- root.
pub build_path-Under :
    (fs : FileSystem) (root cwd target path : List ℕ)
    → build_path fs root cwd target ≡ some path
    → (fs.realpath (joined root cwd target) ≡ some path) × (rest : List ℕ) × (path ≡ root ++ rest)
unfolding build_path
build_path-Under fs root cwd target path h =
    confine_sound root path (fs.realpath (joined root cwd target)) h

drop-append : (root rest : List ℕ) → drop (length root) (root ++ rest) ≡ rest
drop-append [] rest = refl
drop-append (r ∷ root) rest = drop-append root rest

build_path-append :
    (fs : FileSystem) (root cwd target rest : List ℕ)
    → fs.realpath (joined root cwd target) ≡ some (root ++ rest)
    → build_path fs root cwd target ≡ some (root ++ rest)
unfolding build_path confine
build_path-append fs root cwd target rest h = grind (arith, h, after_root-append root rest)

-- `CD` to a target that is neither `/` nor `..` takes every real path whose text begins with the root:
-- what follows the root, without a slash in front, is the new directory, if it is shorter than
-- PATH_MAX, and nothing is sent. A folder beside the root whose name begins with the root's is taken
-- this way, and so is a file that is no folder.
pub change_dir_accepts :
    (fs : FileSystem) (root cwd target rest : List ℕ)
    → same_text target (codes "/") ≡ false
    → same_text target (codes "..") ≡ false
    → fs.realpath (joined root cwd target) ≡ some (root ++ rest)
    → length (drop_slash rest) < path_max
    → change_dir fs root cwd target ≡ turn [] (drop_slash rest) false
unfolding change_dir cd_to enter
change_dir_accepts fs root cwd target rest slash up real short =
    rw
      (
        slash,
        up,
        build_path-append fs root cwd target rest real,
        drop-append root rest,
        short_enough,
      )
      refl
  where
    short_enough : ltb (length (drop_slash rest)) path_max ≡ true
    short_enough = ground (arith, short)

before_last_slash-length : (s up : List ℕ) → before_last_slash s ≡ some up → length up ≤ length s
unfolding before_last_slash
before_last_slash-length [] up h = ground (arith, h)
before_last_slash-length (c ∷ s) up h = elim (Option-cases (before_last_slash s)) [
  | inl e ↦ grind (arith, h, e)
  | inr (t, e) ↦ grind (arith, h, e, before_last_slash-length s t e)
]

parent_of-length : (cwd : List ℕ) → length (parent_of cwd) ≤ length cwd
unfolding parent_of
parent_of-length cwd = elim (Option-cases (before_last_slash cwd)) [
  | inl e ↦ grind (arith, e)
  | inr (up, e) ↦ grind (arith, e, before_last_slash-length cwd up e)
]

enter-Short : (cwd rel : List ℕ) → length cwd < path_max → length (enter cwd rel).cwd < path_max
unfolding enter
enter-Short cwd rel h = elim (Bool-cases (ltb (length rel) path_max)) [
  | inl e ↦ rw e (ltb→lt (length rel) path_max e)
  | inr e ↦ rw e h
]

cd_to-Short :
    (root cwd : List ℕ) (built : Option (List ℕ))
    → length cwd < path_max
    → length (cd_to root cwd built).cwd < path_max
unfolding cd_to
cd_to-Short root cwd none h = h
cd_to-Short root cwd (some path) h = enter-Short cwd (drop_slash (drop (length root) path)) h

change_dir-Short :
    (fs : FileSystem) (root cwd target : List ℕ)
    → length cwd < path_max
    → length (change_dir fs root cwd target).cwd < path_max
unfolding change_dir
change_dir-Short fs root cwd target h = elim (Bool-cases (same_text target (codes "/"))) [
  | inl e ↦ rw e (omega arith)
  | inr e ↦ elim (Bool-cases (same_text target (codes ".."))) [
    | inl u ↦ rw (e, u) (omega (arith, h, parent_of-length cwd))
    | inr u ↦ rw (e, u) (cd_to-Short root cwd (build_path fs root cwd target) h)
  ]
]

run_command-Short :
    (fs : FileSystem) (root cwd : List ℕ) (c : Command)
    → length cwd < path_max
    → length (run_command fs root cwd c).cwd < path_max
unfolding run_command
run_command-Short fs root cwd (cd target) h = change_dir-Short fs root cwd target h
run_command-Short fs root cwd _ h = h

with_prompt-cwd : (t : Turn) → (with_prompt t).cwd ≡ t.cwd
unfolding with_prompt
with_prompt-cwd t = elim (Bool-cases t.over) [ inl e ↦ rw e refl | inr e ↦ rw e refl ]

serve_line-Short :
    (fs : FileSystem) (root cwd cmd : List ℕ)
    → length cwd < path_max
    → length (serve_line fs root cwd cmd).cwd < path_max
unfolding serve_line
serve_line-Short fs root cwd [] h = h
serve_line-Short fs root cwd (c ∷ cmd) h =
    rw (with_prompt-cwd (run_command fs root cwd (command_of (c ∷ cmd))))
      (run_command-Short fs root cwd (command_of (c ∷ cmd)) h)

serve_chunk-Short :
    (fs : FileSystem) (root cwd chunk : List ℕ)
    → length cwd < path_max
    → length (serve_chunk fs root cwd chunk).cwd < path_max
unfolding serve_chunk
serve_chunk-Short fs root cwd chunk h = serve_line-Short fs root cwd (trim (until_newline chunk)) h

rounds_from-Short :
    (fs : FileSystem) (root cwd : List ℕ) (later : List Round)
    → length cwd < path_max
    → length (rounds_from fs root cwd later).cwd < path_max
unfolding rounds_from
rounds_from-Short fs root cwd [] h = h
rounds_from-Short fs root cwd (test false _ ∷ _) h = h
rounds_from-Short fs root cwd (test true poll_failed ∷ _) h = h
rounds_from-Short fs root cwd (test true hung_up ∷ _) h = h
rounds_from-Short fs root cwd (test true idle ∷ later) h = rounds_from-Short fs root cwd later h
rounds_from-Short fs root cwd (test true (bytes chunk) ∷ later) h =
    elim (Bool-cases (serve_chunk fs root cwd chunk).over) [
      | inl e ↦ rw e (serve_chunk-Short fs root cwd chunk h)
      | inr e ↦ rw e (
          rounds_from-Short fs root (serve_chunk fs root cwd chunk).cwd later
            (serve_chunk-Short fs root cwd chunk h))
    ]

-- Whatever a client sends, the string of its current directory fits in the PATH_MAX bytes of `cwd`, its
-- null byte included.
pub client_thread-Short :
    (fs : FileSystem) (root : List ℕ) (later : List Round)
    → length (client_thread fs root later).cwd < path_max
unfolding client_thread
client_thread-Short fs root later = rounds_from-Short fs root [] later (omega arith)
