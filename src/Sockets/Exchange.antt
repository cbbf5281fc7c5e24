-- ===== src/Sockets/Exchange.antt =====
-- The two programs together: the server's answer to the bytes of one `recv`, or of two, and the
-- client's reading of it.
use osa_sp.Base.{
  ℕ, suc, ◌<◌, ◌≡◌, refl, sym, ap, ◌∙◌, true, false, some, List, [], ◌∷◌, ◌++◌, append_assoc,
  append-nil, newline, arith, length, codes, skip_spaces,
}
use osa_sp.Sockets.Text.{is_plain, trim, trim_end, after_word}
use osa_sp.Sockets.Text.Trim.{last_is_space}
use osa_sp.Sockets.Server.{FileSystem, line_of}
use osa_sp.Sockets.Server.Session.{
  turn, prompt_of, with_prompt, run_command, command_of, serve_line, serve_chunk, bytes, test,
  rounds_from,
}
use osa_sp.Sockets.Server.Replies.{
  until_newline-append, until_newline-Plain, rounds_from-split, serve_chunk-append,
}
use osa_sp.Sockets.Client.{Stream, is_prompt, prompted, Screen, screen, handled, await_prompt}
use osa_sp.Sockets.Client.Lines.{bytes_of, all_given}
use osa_sp.Sockets.Client.Replies.{is_ordinary, all_ordinary, unlines, await_prompt-unlines}

is_plain-append : (s t : List ℕ) → is_plain s ≡ true → is_plain (s ++ t) ≡ is_plain t
unfolding is_plain
is_plain-append [] t h = refl
is_plain-append (c ∷ s) t h = grind (arith, h, is_plain-append s t)

arrow_Plain : is_plain (codes ">") ≡ true
unfolding is_plain
arrow_Plain = refl

is_prompt-append : (s : List ℕ) → is_prompt (s ++ codes ">") ≡ true
unfolding is_prompt
is_prompt-append [] = refl
is_prompt-append (c ∷ []) = refl
is_prompt-append (c ∷ d ∷ s) = is_prompt-append (d ∷ s)

is_prompt-last : (s : List ℕ) → is_prompt s ≡ true → last_is_space s ≡ false
unfolding is_prompt last_is_space
is_prompt-last [] h = refl
is_prompt-last (c ∷ []) h = ground (arith, h)
is_prompt-last (c ∷ d ∷ s) h = is_prompt-last (d ∷ s) h

-- An answer of ordinary lines and a prompt is printed line by line, whatever chunks it comes in, and
-- read to its end.
pub await_prompt-prompt_of :
    (fuel : ℕ) (s : Screen) (lines : List (List ℕ)) (cwd rest : List ℕ)
    → all_given s.input.recvs ≡ true
    → bytes_of s.input ≡ (unlines lines ++ prompt_of cwd) ++ rest
    → all_ordinary lines ≡ true
    → is_plain cwd ≡ true
    → length lines < fuel
    → (left : Stream) × (await_prompt fuel s
        ≡ handled prompted (screen (some (cwd ++ codes ">")) (s.printed ++ lines) left))
      × (bytes_of left ≡ rest)
      × (all_given left.recvs ≡ true)
await_prompt-prompt_of fuel s lines cwd rest given text ordinary plain enough =
    await_prompt-unlines fuel s lines (cwd ++ codes ">") rest given
      (text
        ∙ rw
            (
              append_assoc (unlines lines) (prompt_of cwd) rest,
              append_assoc cwd (line_of (codes ">")) rest,
              append_assoc cwd (codes ">") (newline ∷ rest),
            )
            refl)
      ordinary (is_plain-append cwd (codes ">") plain ∙ arrow_Plain) (is_prompt-append cwd) enough

trim_end-same : (s : List ℕ) → last_is_space s ≡ false → trim_end s ≡ s
unfolding trim_end last_is_space
trim_end-same [] h = refl
trim_end-same (c ∷ []) h = ground (arith, h)
trim_end-same (c ∷ d ∷ s) h = rw (trim_end-same (d ∷ s) h) refl

-- `ECHO ` and its argument
abbrev pub echo_line : List ℕ → List ℕ
echo_line arg = codes "ECHO " ++ arg

trim-echo_line :
    (arg : List ℕ) (c : ℕ)
    → last_is_space (c ∷ arg) ≡ false
    → trim (echo_line (c ∷ arg)) ≡ echo_line (c ∷ arg)
unfolding trim skip_spaces last_is_space
trim-echo_line arg c last = trim_end-same (echo_line (c ∷ arg)) last

serve_line-echo :
    (fs : FileSystem) (root cwd arg : List ℕ)
    → serve_line fs root cwd (echo_line arg) ≡ turn (line_of arg ++ prompt_of cwd) cwd false
unfolding serve_line with_prompt run_command command_of after_word
serve_line-echo fs root cwd arg = refl

serve_chunk-echo :
    (fs : FileSystem) (root cwd arg : List ℕ) (c : ℕ)
    → is_plain (c ∷ arg) ≡ true
    → last_is_space (c ∷ arg) ≡ false
    → serve_chunk fs root cwd (echo_line (c ∷ arg) ++ newline ∷ [])
      ≡ turn (line_of (c ∷ arg) ++ prompt_of cwd) cwd false
unfolding serve_chunk is_plain
serve_chunk-echo fs root cwd arg c plain last =
    rw
      (
        until_newline-append (echo_line (c ∷ arg)) [],
        until_newline-Plain (echo_line (c ∷ arg)) plain,
        trim-echo_line arg c last,
      )
      (serve_line-echo fs root cwd (c ∷ arg))

module _ (fs : FileSystem) (root cwd arg : List ℕ) (c fuel : ℕ) (s : Screen)
    (given : all_given s.input.recvs ≡ true)
    (text : bytes_of s.input
      ≡ (serve_chunk fs root cwd (echo_line (c ∷ arg) ++ newline ∷ [])).sent) where
  -- `ECHO` and a line that ends in no space and that the client does not take for a prompt or for
  -- `BYE`: when the server gets it in one `recv`, the client prints that line, has the prompt of the
  -- server's directory, and has read the answer to its end, whatever chunks it comes in.
  pub echo_round_trip :
      is_plain cwd ≡ true
      → is_ordinary (c ∷ arg) ≡ true
      → last_is_space (c ∷ arg) ≡ false
      → (left : Stream) × (await_prompt (suc (suc fuel)) s
          ≡ handled prompted
              (screen (some (cwd ++ codes ">")) (s.printed ++ ((c ∷ arg) ∷ [])) left))
        × (bytes_of left ≡ [])
        × (all_given left.recvs ≡ true)
  echo_round_trip cwd_plain ordinary last =
      await_prompt-prompt_of (suc (suc fuel)) s ((c ∷ arg) ∷ []) cwd [] given
        (text
          ∙ (ap (λ t. t.sent) (serve_chunk-echo fs root cwd arg c (grind (arith, ordinary)) last)
              ∙ sym (append-nil (line_of (c ∷ arg) ++ prompt_of cwd))))
        (grind (arith, ordinary)) cwd_plain (omega arith)

  -- `ECHO` and a line that ends in `>`: the client takes the line for the prompt, prints nothing, and
  -- leaves the true prompt in the stream.
  pub echo_taken_for_prompt :
      is_plain (c ∷ arg) ≡ true
      → is_prompt (c ∷ arg) ≡ true
      → (left : Stream) × (await_prompt (suc fuel) s
          ≡ handled prompted (screen (some (c ∷ arg)) s.printed left))
        × (bytes_of left ≡ prompt_of cwd)
        × (all_given left.recvs ≡ true)
  echo_taken_for_prompt plain p =
      let (left, got, behind, given') =
        await_prompt-unlines (suc fuel) s [] (c ∷ arg) (prompt_of cwd) given
          (text
            ∙ (ap (λ t. t.sent)
                  (serve_chunk-echo fs root cwd arg c plain (is_prompt-last (c ∷ arg) p))
                ∙ append_assoc (c ∷ arg) (newline ∷ []) (prompt_of cwd)))
          refl plain p (omega arith) in
      (
        left,
        got ∙ ap (λ ls. handled prompted (screen (some (c ∷ arg)) ls left)) (append-nil s.printed),
        behind,
        given',
      )

-- A command whose newline reaches the server in a `recv` of its own, and whose answer is ordinary lines
-- and a prompt: the client reads the answer, but a second prompt is left in the stream, where the wait
-- for the answer to the next command takes it for the end of that answer and prints nothing.
pub split_command :
    (fs : FileSystem) (root cwd cmd cwd' : List ℕ) (lines : List (List ℕ)) (fuel : ℕ) (s : Screen)
    → all_given s.input.recvs ≡ true
    → bytes_of s.input
      ≡ (rounds_from fs root cwd
          (test true (bytes cmd) ∷ test true (bytes (newline ∷ [])) ∷ [])).sent
    → serve_chunk fs root cwd (cmd ++ newline ∷ [])
      ≡ turn (unlines lines ++ prompt_of cwd') cwd' false
    → all_ordinary lines ≡ true
    → is_plain cwd' ≡ true
    → length lines < fuel
    → (left left' : Stream) × (await_prompt fuel s
        ≡ handled prompted (screen (some (cwd' ++ codes ">")) (s.printed ++ lines) left))
      × (await_prompt fuel (screen (some (cwd' ++ codes ">")) (s.printed ++ lines) left)
          ≡ handled prompted (screen (some (cwd' ++ codes ">")) (s.printed ++ lines) left'))
split_command fs root cwd cmd cwd' lines fuel s given text once ordinary plain enough =
    let open_after : (serve_chunk fs root cwd cmd).over ≡ false =
      ap (λ t. t.over) (sym (serve_chunk-append fs root cwd cmd []) ∙ once) in
    let (left, got, behind, given') =
      await_prompt-prompt_of fuel s lines cwd' (prompt_of cwd') given
        (text
          ∙ (ap (λ t. t.sent) (rounds_from-split fs root cwd cmd open_after)
              ∙ ap (λ t. t.sent ++ prompt_of t.cwd) once))
        ordinary plain enough in
    let now : Screen = screen (some (cwd' ++ codes ">")) (s.printed ++ lines) left in
    let (left', got', behind', given'') =
      await_prompt-prompt_of fuel now [] cwd' [] given' (behind ∙ sym (append-nil (prompt_of cwd')))
        refl plain (omega (arith, enough)) in
    (
      left,
      left',
      got,
      got'
          ∙ ap (λ ls. handled prompted (screen (some (cwd' ++ codes ">")) ls left'))
              (append-nil (s.printed ++ lines)),
    )
