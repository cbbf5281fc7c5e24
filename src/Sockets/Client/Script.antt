-- ===== src/Sockets/Client/Script.antt =====
-- client.c: `send_cmd`, the lines that the user types, the scripts of `@file`, and the main loop.
pub mod Answers
use mathlib.Core.Path.{subst}
use osa_sp.Base.{
  ℕ, zero, suc, ◌+◌, ◌≤◌, ◌<◌, ◌≡◌, ◌≢◌, refl, sym, ap, ◌∙◌, Bool, true, false, not, ◌&&◌, ◌||◌,
  Option, none, some, List, [], ◌∷◌, ◌++◌, append_assoc, append-nil, map, if◌then◌else◌, newline,
  arith, length, codes, until_newline, leb, ◌==◌,
}
use osa_sp.Sockets.Text.{is_plain}
use osa_sp.Sockets.Client.{
  Stream, stream, is_prompt, Status, shown, ended, prompted, Screen, screen, Handled, handled,
  handle_server_line, await_prompt,
}
use osa_sp.Sockets.Client.Lines.{bytes_of, flatten, all_given}
use osa_sp.Sockets.Client.Replies.{all_ordinary, unlines, await_prompt-unlines}

-- The bytes of each call of `send`.
abbrev pub send_cmd : List ℕ → List (List ℕ)
send_cmd cmd = cmd ∷ (newline ∷ []) ∷ []

-- What the client sends, whether it goes on, and its screen.
pub record Dialog : Type 0 where
  pub sends : List (List ℕ)
  pub going : Bool
  pub now : Screen

abbrev pub dialog : List (List ℕ) → Bool → Screen → Dialog
dialog sends going now = record { sends = sends; going = going; now = now }

-- `printf("%s ", prompt)`, as a piece of the output of its own
unfoldable pub show_prompt : Screen → Screen
show_prompt s = elim s.prompt [
  | none ↦ s
  | some p ↦ screen (some p) (s.printed ++ ((p ++ codes " ") ∷ [])) s.input
]

abbrev pub goes_on : Status → Bool
goes_on ended = false
goes_on _ = true

unfoldable pub after_sends : List (List ℕ) → Dialog → Dialog
after_sends sends d = dialog (sends ++ d.sends) d.going d.now

-- The lines of a script, each as `fgets` gives it; the fuel is for each wait.
unfoldable pub run_script : ℕ → Screen → List (List ℕ) → Dialog
run_script fuel s [] = dialog [] true s
run_script fuel s (text ∷ texts) =
    let cmd = until_newline text in
    let h = await_prompt fuel s in
    let skipped = run_script fuel s texts in
    let rest = run_script fuel h.after texts in
    elim cmd [
      | [] ↦ skipped
      | c ∷ cmd ↦
          after_sends (send_cmd (c ∷ cmd))
            (if goes_on h.status then rest else dialog [] false h.after)
    ]

unfoldable pub after_script : Dialog → Dialog
after_script d = if d.going then dialog d.sends true (show_prompt d.now) else d

unfoldable pub open_script : ℕ → Screen → Option (List (List ℕ)) → Dialog
open_script fuel s none = dialog [] true (show_prompt s)
open_script fuel s (some texts) = after_script (run_script fuel s texts)

abbrev pub after_answer : Handled → Screen
after_answer h = elim h.status [
  | shown ↦ h.after
  | ended ↦ h.after
  | prompted ↦ show_prompt h.after
]

-- A line that the user types, up to its newline.
unfoldable pub enter_line : (List ℕ → Option (List (List ℕ))) → ℕ → Screen → List ℕ → Dialog
enter_line fopen fuel s [] = dialog [] true (show_prompt s)
enter_line fopen fuel s (c ∷ line) =
    if c == b'@'
    then open_script fuel s (fopen line)
    else let h = await_prompt fuel s in
      dialog (send_cmd (c ∷ line)) (goes_on h.status) (after_answer h)

-- What the returns of `select` bring: an error, nothing (a signal or a timeout), or input of the user
-- (a line or the end of the input), of the server, or of both.
pub data Woken : Type 0 where
  select_failed nothing : Woken
  ready : Option (Option (List ℕ)) → Bool → Woken

-- The lines after which the loop starts again at `select`.
unfoldable pub starts_again : (List ℕ → Option (List (List ℕ))) → List ℕ → Bool
starts_again fopen [] = true
starts_again fopen (c ∷ line) =
    if c == b'@' then elim (fopen line) [ none ↦ true | some _ ↦ false ] else false

abbrev pub answered : Handled → Dialog
answered h = dialog [] (goes_on h.status) h.after

unfoldable pub read_socket : Bool → Screen → Dialog
read_socket false s = dialog [] true s
read_socket true s = answered (handle_server_line s)

-- A round of the main loop.
unfoldable pub main_round : (List ℕ → Option (List (List ℕ))) → ℕ → Screen → Woken → Dialog
main_round fopen fuel s select_failed = dialog [] false s
main_round fopen fuel s nothing = dialog [] true s
main_round fopen fuel s (ready none socket) = read_socket socket s
main_round fopen fuel s (ready (some none) socket) = dialog [] false s
main_round fopen fuel s (ready (some (some text)) socket) =
    let d = enter_line fopen fuel s (until_newline text) in
    if not d.going || starts_again fopen (until_newline text)
    then d
    else after_sends d.sends (read_socket socket d.now)

unfoldable pub rounds_of : (List ℕ → Option (List (List ℕ))) → ℕ → Screen → List Woken → Dialog
rounds_of fopen fuel s [] = dialog [] true s
rounds_of fopen fuel s (w ∷ later) =
    let d = main_round fopen fuel s w in
    let rest = rounds_of fopen fuel d.now later in if d.going then after_sends d.sends rest else d

-- `main` behind `connect`: the greeting up to the first prompt, then the main loop.
unfoldable pub converse :
    (List ℕ → Option (List (List ℕ))) → ℕ → List (List ℕ) → List Woken → Dialog
converse fopen fuel recvs later =
    let h = await_prompt fuel (screen none [] (stream [] recvs)) in
    elim h.status [
      | prompted ↦ rounds_of fopen fuel (show_prompt h.after) later
      | _ ↦ dialog [] false h.after
    ]
