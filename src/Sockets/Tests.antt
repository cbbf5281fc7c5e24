-- ===== src/Sockets/Tests.antt =====
-- The server and the client at concrete inputs.
use osa_sp.Base.{
  ℕ, ◌<◌, ◌≡◌, refl, true, false, none, some, List, [], ◌∷◌, ◌++◌, length, codes, newline,
  same_bytes, if◌then◌else◌, until_newline, skip_spaces, arith,
}
use osa_sp.Sockets.Text.{same_text, after_word, after_root, trim, trim_end, is_plain}
use osa_sp.Sockets.Text.Trim.{last_is_space}
use osa_sp.Sockets.Server.{FileSystem, path_max, joined, confine, build_path}
use osa_sp.Sockets.Server.Session.{
  turn, change_dir, serve_chunk, serve_line, run_command, command_of, cd_or_list, with_prompt,
  bytes, idle, test, hung_up, rounds_from, client_thread,
}
use osa_sp.Sockets.Server.Paths.{build_path-Under, change_dir_accepts, client_thread-Short}
use osa_sp.Sockets.Server.Shutdown.{wait_threads, wait_threads-once}
use osa_sp.Sockets.Client.{
  Stream, stream, read_line, is_prompt, Screen, screen, handled, prompted, await_prompt,
}
use osa_sp.Sockets.Client.Lines.{bytes_of, all_given, flatten, IsFirstLine, read_line-IsFirstLine}
use osa_sp.Sockets.Client.Script.{run_script}
use osa_sp.Sockets.Client.Script.Answers.{
  Answer, AreAnswers, IsAnswered, answers_bytes, commands_of, run_script-IsAnswered,
}
use osa_sp.Sockets.Exchange.{echo_round_trip, split_command}

abbrev root : List ℕ
root = codes "/srv/pub"

-- A folder `pub2` stands beside the root.
abbrev disk : FileSystem
disk = record {
  realpath = λ path.
      if same_bytes path (codes "/srv/pub//../pub2") then some (codes "/srv/pub2") else none;
  opendir = λ path. none;
  lstat = λ path. none;
  readlink = λ path. none;
}

build_path-Under_example :
    (disk.realpath (joined root [] (codes "../pub2")) ≡ some (codes "/srv/pub2"))
    × (rest : List ℕ) × (codes "/srv/pub2" ≡ root ++ rest)
unfolding build_path confine after_root joined
build_path-Under_example = build_path-Under disk root [] (codes "../pub2") (codes "/srv/pub2") refl

change_dir_accepts_example : change_dir disk root [] (codes "../pub2") ≡ turn [] (codes "2") false
unfolding same_text joined
change_dir_accepts_example =
    change_dir_accepts disk root [] (codes "../pub2") (codes "2") refl refl refl (omega arith)

client_thread-Short_example :
    length
      (client_thread disk root
        (test true idle ∷ test true (bytes (codes "CD ../pub2")) ∷ test true hung_up ∷ [])).cwd
    < path_max
client_thread-Short_example =
    client_thread-Short disk root
      (test true idle ∷ test true (bytes (codes "CD ../pub2")) ∷ test true hung_up ∷ [])

-- Three threads, of which one ends: `main` does not wait for the others.
wait_threads-once_example :
    wait_threads false 0 3 (record { timed_out = false; left = 2 } ∷ [])
    ≡ some (record { waits = 1; behind = 2 })
wait_threads-once_example = wait_threads-once 2 (record { timed_out = false; left = 2 }) []

abbrev in_pieces : Stream
in_pieces = stream (codes "He") (codes "llo" ∷ (newline ∷ codes ">") ∷ (newline ∷ []) ∷ [])

read_line-IsFirstLine_example : IsFirstLine [] (bytes_of in_pieces) (read_line in_pieces)
unfolding all_given
read_line-IsFirstLine_example = read_line-IsFirstLine in_pieces refl

abbrev hi_screen : Screen
hi_screen =
    screen (some (codes ">")) []
      (stream [] (codes "hi" ∷ (newline ∷ codes ">") ∷ (newline ∷ []) ∷ []))

echo_round_trip_example :
    (left : Stream) × (await_prompt 2 hi_screen
      ≡ handled prompted (screen (some (codes ">")) (codes "hi" ∷ []) left))
    × (bytes_of left ≡ [])
    × (all_given left.recvs ≡ true)
unfolding all_given flatten is_plain is_prompt last_is_space serve_chunk serve_line run_command
    command_of with_prompt after_word trim trim_end until_newline skip_spaces
echo_round_trip_example =
    echo_round_trip disk root [] (codes "i") b'h' 0 hi_screen refl refl refl refl refl

abbrev info_line : List ℕ
info_line = codes "Hello from 'myserver'"

abbrev info_screen : Screen
info_screen = screen (some (codes ">")) [] (
    stream []
      ((info_line ++ (newline ∷ codes ">")) ∷ (newline ∷ []) ∷ (codes ">" ++ (newline ∷ [])) ∷ []))

split_command_example :
    (left left' : Stream) × (await_prompt 2 info_screen
      ≡ handled prompted (screen (some (codes ">")) (info_line ∷ []) left))
    × (await_prompt 2 (screen (some (codes ">")) (info_line ∷ []) left)
        ≡ handled prompted (screen (some (codes ">")) (info_line ∷ []) left'))
unfolding all_given flatten is_plain is_prompt serve_chunk serve_line run_command command_of
    cd_or_list with_prompt after_word same_text trim trim_end until_newline skip_spaces rounds_from
split_command_example =
    split_command disk root [] (codes "INFO") [] (info_line ∷ []) 2 info_screen refl refl refl refl
      refl (omega arith)

-- A script with an empty line, and the answers to its two commands.
abbrev script : List (List ℕ)
script = (codes "INFO" ++ (newline ∷ [])) ∷ (newline ∷ []) ∷ codes "ECHO a" ∷ []

abbrev both_answers : List Answer
both_answers =
    record { lines = info_line ∷ []; ends_with = codes ">" }
    ∷ record { lines = codes "a" ∷ []; ends_with = codes ">" }
    ∷ []

abbrev script_screen : Screen
script_screen = screen (some (codes ">")) [] (stream [] (answers_bytes both_answers ∷ []))

run_script-IsAnswered_example :
    IsAnswered script_screen
      (commands_of script)
      both_answers
      []
      (run_script 2 script_screen script)
unfolding all_given flatten is_plain is_prompt answers_bytes AreAnswers commands_of until_newline
run_script-IsAnswered_example =
    run_script-IsAnswered 2 script both_answers script_screen [] refl refl
      ((refl, refl, refl, omega arith), ((refl, refl, refl, omega arith), tt)) refl
