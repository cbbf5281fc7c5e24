-- ===== src/Sockets/Server/Session.antt =====
-- server.c: the commands of a client, `handle_echo` to `handle_list`, and the loop of `client_thread`.
use osa_sp.Base.{
  ℕ, Bool, true, false, Option, none, some, List, [], ◌∷◌, ◌++◌, ltb, ◌==◌, if◌then◌else◌, length,
  until_newline, codes, drop,
}
use osa_sp.Sockets.Text.{same_text, after_word, before_last_slash, trim}
use osa_sp.Sockets.Server.{FileSystem, path_max, build_path, line_of, list_entries}

-- What the chain of comparisons in `client_thread` tells apart.
pub data Command : Type 0 where
  echo : List ℕ → Command
  quit info : Command
  cd : List ℕ → Command
  list unknown : Command

unfoldable pub cd_or_list : List ℕ → Command
cd_or_list cmd = elim (after_word (codes "CD ") cmd) [
  | some target ↦ cd target
  | none ↦ if same_text cmd (codes "LIST") then list else unknown
]

unfoldable pub command_of : List ℕ → Command
command_of cmd = elim (after_word (codes "ECHO ") cmd) [
  | some arg ↦ echo arg
  | none ↦
      if same_text cmd (codes "QUIT")
      then quit
      else if same_text cmd (codes "INFO")
      then info
      else cd_or_list cmd
]

-- What one command, or a run of the loop, did: the bytes sent, the current directory, and whether the
-- connection is closed.
pub record Turn : Type 0 where
  pub sent : List ℕ
  pub cwd : List ℕ
  pub over : Bool

abbrev pub turn : List ℕ → List ℕ → Bool → Turn
turn sent cwd over = record { sent = sent; cwd = cwd; over = over }

abbrev pub hello : List ℕ
hello = line_of (codes "Hello from 'myserver'")

abbrev pub bye : List ℕ
bye = line_of (codes "BYE")

abbrev pub prompt_of : List ℕ → List ℕ
prompt_of cwd = cwd ++ line_of (codes ">")

unfoldable pub list_open : FileSystem → List ℕ → List ℕ → List ℕ → Option (List (List ℕ)) → List ℕ
list_open fs root cwd path none = line_of (codes "Error: Cannot open directory.")
list_open fs root cwd path (some names) = list_entries fs root cwd path names

-- `handle_list`
unfoldable pub handle_list : FileSystem → List ℕ → List ℕ → List ℕ
handle_list fs root cwd = elim (build_path fs root cwd (codes ".")) [
  | none ↦ line_of (codes "Error: Cannot access current directory.")
  | some path ↦ list_open fs root cwd path (fs.opendir path)
]

-- `if (rel[0] == '/') rel++`
abbrev pub drop_slash : List ℕ → List ℕ
drop_slash [] = []
drop_slash (c ∷ rel) = if c == b'/' then rel else c ∷ rel

unfoldable pub enter : List ℕ → List ℕ → Turn
enter cwd rel =
    if ltb (length rel) path_max
    then turn [] rel false
    else turn (line_of (codes "Error: Path too long to set as current directory.")) cwd false

unfoldable pub parent_of : List ℕ → List ℕ
parent_of cwd = elim (before_last_slash cwd) [ none ↦ [] | some up ↦ up ]

unfoldable pub cd_to : List ℕ → List ℕ → Option (List ℕ) → Turn
cd_to root cwd none =
    turn (line_of (codes "Error: Invalid path or permission denied for CD.")) cwd false
cd_to root cwd (some path) = enter cwd (drop_slash (drop (length root) path))

unfoldable pub change_dir : FileSystem → List ℕ → List ℕ → List ℕ → Turn
change_dir fs root cwd target =
    if same_text target (codes "/")
    then turn [] [] false
    else if same_text target (codes "..")
    then turn [] (parent_of cwd) false
    else cd_to root cwd (build_path fs root cwd target)

-- A command up to the prompt.
unfoldable pub run_command : FileSystem → List ℕ → List ℕ → Command → Turn
run_command fs root cwd (echo arg) = turn (line_of arg) cwd false
run_command fs root cwd quit = turn bye cwd true
run_command fs root cwd info = turn hello cwd false
run_command fs root cwd (cd target) = change_dir fs root cwd target
run_command fs root cwd list = turn (handle_list fs root cwd) cwd false
run_command fs root cwd unknown = turn (line_of (codes "Unknown command")) cwd false

-- The prompt at the end of the loop's body.
unfoldable pub with_prompt : Turn → Turn
with_prompt t = if t.over then t else turn (t.sent ++ prompt_of t.cwd) t.cwd false

unfoldable pub serve_line : FileSystem → List ℕ → List ℕ → List ℕ → Turn
serve_line fs root cwd [] = turn (prompt_of cwd) cwd false
serve_line fs root cwd (c ∷ cmd) = with_prompt (run_command fs root cwd (command_of (c ∷ cmd)))

-- The bytes of one `recv`.
unfoldable pub serve_chunk : FileSystem → List ℕ → List ℕ → List ℕ → Turn
serve_chunk fs root cwd chunk = serve_line fs root cwd (trim (until_newline chunk))

-- What `poll` and `recv` give: `poll` fails, it has nothing to say (a signal or a timeout), `recv` gives
-- bytes, or it gives none.
pub data Event : Type 0 where
  poll_failed idle : Event
  bytes : List ℕ → Event
  hung_up : Event

-- A round of the loop: the value of `server_running` at its test, and what comes behind the test.
pub data Round : Type 0 where
  test : (server_running : Bool) → Event → Round

-- The loop over the rounds to come.
unfoldable pub rounds_from : FileSystem → List ℕ → List ℕ → List Round → Turn
rounds_from fs root cwd [] = turn [] cwd false
rounds_from fs root cwd (test false _ ∷ _) = turn [] cwd true
rounds_from fs root cwd (test true poll_failed ∷ _) = turn [] cwd true
rounds_from fs root cwd (test true hung_up ∷ _) = turn [] cwd true
rounds_from fs root cwd (test true idle ∷ later) = rounds_from fs root cwd later
rounds_from fs root cwd (test true (bytes chunk) ∷ later) =
    let t = serve_chunk fs root cwd chunk in
    let rest = rounds_from fs root t.cwd later in
    if t.over then t else turn (t.sent ++ rest.sent) rest.cwd rest.over

-- `client_thread` to its last round.
unfoldable pub client_thread : FileSystem → List ℕ → List Round → Turn
client_thread fs root later =
    let rest = rounds_from fs root [] later in
    turn (hello ++ (prompt_of [] ++ rest.sent)) rest.cwd rest.over
