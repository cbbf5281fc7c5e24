-- ===== src/Sockets/Server/Replies.antt =====
-- server.c: what `client_thread` answers to the bytes of one `recv`, and to those of two.
use osa_sp.Base.{
  ℕ, ◌≡◌, ◌⊎◌, inl, inr, refl, true, false, List, [], ◌∷◌, ◌++◌, append-nil, until_newline, newline,
  arith, skip_spaces,
}
use osa_sp.Sockets.Text.{trim, trim_end, is_plain}
use osa_sp.Sockets.Server.{FileSystem}
use osa_sp.Sockets.Server.Session.{
  turn, bye, prompt_of, with_prompt, run_command, command_of, Command, echo, quit, info, cd, list,
  unknown, serve_line, serve_chunk, bytes, test, rounds_from, change_dir, cd_to, enter,
}

change_dir-Open :
    (fs : FileSystem) (root cwd target : List ℕ) → (change_dir fs root cwd target).over ≡ false
unfolding change_dir cd_to enter
change_dir-Open fs root cwd target = grind arith

-- Only `QUIT` ends the loop.
run_command-over :
    (fs : FileSystem) (root cwd : List ℕ) (c : Command)
    → ((run_command fs root cwd c).over ≡ false) ⊎ (run_command fs root cwd c ≡ turn bye cwd true)
unfolding run_command
run_command-over fs root cwd quit = inr refl
run_command-over fs root cwd (cd target) = inl (change_dir-Open fs root cwd target)
run_command-over fs root cwd (echo arg) = inl refl
run_command-over fs root cwd info = inl refl
run_command-over fs root cwd list = inl refl
run_command-over fs root cwd unknown = inl refl

serve_line-cases :
    (fs : FileSystem) (root cwd cmd : List ℕ)
    → (serve_line fs root cwd cmd ≡ turn bye cwd true)
      ⊎ ((body cwd' : List ℕ) × (serve_line fs root cwd cmd
            ≡ turn (body ++ prompt_of cwd') cwd' false))
unfolding serve_line with_prompt
serve_line-cases fs root cwd [] = inr ([], cwd, refl)
serve_line-cases fs root cwd (c ∷ cmd) =
    elim (run_command-over fs root cwd (command_of (c ∷ cmd))) [
      | inl e ↦ inr (
        (run_command fs root cwd (command_of (c ∷ cmd))).sent,
        (run_command fs root cwd (command_of (c ∷ cmd))).cwd,
        rw e refl,
      )
      | inr e ↦ inl (rw e refl)
    ]

-- The answer to the bytes of one `recv` either is `BYE`, and closes the connection in the same
-- directory, or ends with the prompt of the directory the session is in from then on, and leaves it
-- open.
pub serve_chunk-cases :
    (fs : FileSystem) (root cwd chunk : List ℕ)
    → (serve_chunk fs root cwd chunk ≡ turn bye cwd true)
      ⊎ ((body cwd' : List ℕ) × (serve_chunk fs root cwd chunk
            ≡ turn (body ++ prompt_of cwd') cwd' false))
unfolding serve_chunk
serve_chunk-cases fs root cwd chunk = serve_line-cases fs root cwd (trim (until_newline chunk))

pub until_newline-append :
    (line more : List ℕ) → until_newline (line ++ newline ∷ more) ≡ until_newline line
unfolding until_newline
until_newline-append [] more = refl
until_newline-append (c ∷ line) more = grind (arith, until_newline-append line more)

pub until_newline-Plain : (s : List ℕ) → is_plain s ≡ true → until_newline s ≡ s
unfolding until_newline is_plain
until_newline-Plain [] h = refl
until_newline-Plain (c ∷ s) h = grind (arith, h, until_newline-Plain s)

-- Of the bytes of one `recv` only those before the first newline count: a second command that came
-- with the first is lost, whatever it is.
pub serve_chunk-append :
    (fs : FileSystem) (root cwd line more : List ℕ)
    → serve_chunk fs root cwd (line ++ newline ∷ more) ≡ serve_chunk fs root cwd line
unfolding serve_chunk
serve_chunk-append fs root cwd line more = rw (until_newline-append line more) refl

serve_chunk-newline :
    (fs : FileSystem) (root cwd : List ℕ)
    → serve_chunk fs root cwd (newline ∷ []) ≡ turn (prompt_of cwd) cwd false
unfolding serve_chunk serve_line trim trim_end until_newline skip_spaces
serve_chunk-newline fs root cwd = refl

-- A command that leaves the session open and whose newline comes with a `recv` of its own, as the two
-- calls of `send` in the client allow, is answered with one prompt more than the same command and its
-- newline in one `recv`.
pub rounds_from-split :
    (fs : FileSystem) (root cwd cmd : List ℕ)
    → (serve_chunk fs root cwd cmd).over ≡ false
    → rounds_from fs root cwd (test true (bytes cmd) ∷ test true (bytes (newline ∷ [])) ∷ []) ≡ (
        let once = serve_chunk fs root cwd (cmd ++ newline ∷ []) in
        turn (once.sent ++ prompt_of once.cwd) once.cwd false)
unfolding rounds_from
rounds_from-split fs root cwd cmd h =
    rw
      (
        h,
        serve_chunk-append fs root cwd cmd [],
        serve_chunk-newline fs root (serve_chunk fs root cwd cmd).cwd,
        append-nil (prompt_of (serve_chunk fs root cwd cmd).cwd),
      )
      refl
