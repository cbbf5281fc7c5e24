-- ===== src/Sockets/Client/Script/Answers.antt =====
-- A script against a server that answers each of its commands.
use mathlib.Core.Path.{subst}
use osa_sp.Base.{
  ℕ, ◌<◌, ◌≡◌, inl, inr, refl, sym, ap, ◌∙◌, true, some, List, [], ◌∷◌, ◌++◌, List-cases,
  append_assoc, append-nil, newline, arith, length, until_newline,
}
use osa_sp.Sockets.Text.{is_plain}
use osa_sp.Sockets.Client.{is_prompt, prompted, Stream, Screen, screen, handled, await_prompt}
use osa_sp.Sockets.Client.Lines.{bytes_of, all_given}
use osa_sp.Sockets.Client.Replies.{all_ordinary, unlines, await_prompt-unlines}
use osa_sp.Sockets.Client.Script.{send_cmd, Dialog, run_script, after_sends}

-- An answer of the server: its lines, and the prompt behind them.
pub record Answer : Type 0 where
  pub lines : List (List ℕ)
  pub ends_with : List ℕ

abbrev pub answer_bytes : Answer → List ℕ
answer_bytes a = unlines a.lines ++ (a.ends_with ++ newline ∷ [])

unfoldable pub answers_bytes : List Answer → List ℕ
answers_bytes [] = []
answers_bytes (a ∷ answers) = answer_bytes a ++ answers_bytes answers

unfoldable pub answers_lines : List Answer → List (List ℕ)
answers_lines [] = []
answers_lines (a ∷ answers) = a.lines ++ answers_lines answers

unfoldable pub commands_of : List (List ℕ) → List (List ℕ)
commands_of [] = []
commands_of (text ∷ texts) =
    let rest = commands_of texts in
    elim (until_newline text) [ [] ↦ rest | c ∷ cmd ↦ (c ∷ cmd) ∷ rest ]

unfoldable pub send_all : List (List ℕ) → List (List ℕ)
send_all [] = []
send_all (cmd ∷ cmds) = send_cmd cmd ++ send_all cmds

-- Every answer is ordinary lines, fewer than the fuel, and a prompt.
unfoldable pub AreAnswers : ℕ → List Answer → Type 0
AreAnswers fuel [] = Unit
AreAnswers fuel (a ∷ answers) =
    ((all_ordinary a.lines ≡ true)
      × (is_plain a.ends_with ≡ true)
      × (is_prompt a.ends_with ≡ true)
      × (length a.lines < fuel))
    × AreAnswers fuel answers

commands_of-skips :
    (text : List ℕ) (texts : List (List ℕ))
    → until_newline text ≡ []
    → commands_of (text ∷ texts) ≡ commands_of texts
unfolding commands_of
commands_of-skips text texts e = grind (arith, e)

commands_of-cons :
    (c : ℕ) (text cmd : List ℕ) (texts : List (List ℕ))
    → until_newline text ≡ c ∷ cmd
    → commands_of (text ∷ texts) ≡ (c ∷ cmd) ∷ commands_of texts
unfolding commands_of
commands_of-cons c text cmd texts e = grind (arith, e)

answers_bytes-cons :
    (a : Answer) (answers : List Answer) (rest : List ℕ)
    → answers_bytes (a ∷ answers) ++ rest
      ≡ unlines a.lines ++ (a.ends_with ++ newline ∷ (answers_bytes answers ++ rest))
unfolding answers_bytes
answers_bytes-cons a answers rest = simp append_assoc

run_script-skips :
    (fuel : ℕ) (s : Screen) (text : List ℕ) (texts : List (List ℕ))
    → until_newline text ≡ []
    → run_script fuel s (text ∷ texts) ≡ run_script fuel s texts
unfolding run_script
run_script-skips fuel s text texts e = grind (arith, e)

run_script-prompted :
    (fuel c : ℕ) (s a : Screen) (text cmd : List ℕ) (texts : List (List ℕ))
    → until_newline text ≡ c ∷ cmd
    → await_prompt fuel s ≡ handled prompted a
    → run_script fuel s (text ∷ texts) ≡ after_sends (send_cmd (c ∷ cmd)) (run_script fuel a texts)
unfolding run_script
run_script-prompted fuel c s a text cmd texts e got = grind (arith, e, got)

-- What a script that is answered does: it sends its commands in their order, prints the lines of the
-- answers, and leaves the bytes behind them.
abbrev pub IsAnswered : Screen → List (List ℕ) → List Answer → List ℕ → Dialog → Type 0
IsAnswered s cmds answers rest d =
    (d.sends ≡ send_all cmds)
    × (d.going ≡ true)
    × (d.now.printed ≡ s.printed ++ answers_lines answers)
    × (bytes_of d.now.input ≡ rest)

IsAnswered-skips :
    (fuel : ℕ) (s : Screen) (text : List ℕ) (texts : List (List ℕ)) (answers : List Answer)
    (rest : List ℕ)
    → until_newline text ≡ []
    → IsAnswered s (commands_of texts) answers rest (run_script fuel s texts)
    → IsAnswered s (commands_of (text ∷ texts)) answers rest (run_script fuel s (text ∷ texts))
IsAnswered-skips fuel s text texts answers rest e h =
    subst (IsAnswered s (commands_of (text ∷ texts)) answers rest)
      (sym (run_script-skips fuel s text texts e))
      (subst (λ cmds. IsAnswered s cmds answers rest (run_script fuel s texts))
        (sym (commands_of-skips text texts e)) h)

IsAnswered-prompted :
    (s : Screen) (cmd : List ℕ) (cmds : List (List ℕ)) (a : Answer) (answers : List Answer)
    (left : Stream) (rest : List ℕ) (d : Dialog)
    → IsAnswered (screen (some a.ends_with) (s.printed ++ a.lines) left) cmds answers rest d
    → IsAnswered s (cmd ∷ cmds) (a ∷ answers) rest (after_sends (send_cmd cmd) d)
unfolding send_all answers_lines after_sends
IsAnswered-prompted s cmd cmds a answers left rest d (sends, going, printed, behind) = (
  ap (λ more. send_cmd cmd ++ more) sends,
  going,
  printed ∙ append_assoc s.printed a.lines (answers_lines answers),
  behind,
)

-- When the server's bytes are one answer for each line of the script that is not empty, each of
-- ordinary lines and a prompt, then the client sends those lines in their order, prints the lines of
-- all answers, and reads no byte behind the last answer.
pub run_script-IsAnswered :
    (fuel : ℕ) (texts : List (List ℕ)) (answers : List Answer) (s : Screen) (rest : List ℕ)
    → all_given s.input.recvs ≡ true
    → bytes_of s.input ≡ answers_bytes answers ++ rest
    → AreAnswers fuel answers
    → length answers ≡ length (commands_of texts)
    → IsAnswered s (commands_of texts) answers rest (run_script fuel s texts)
unfolding run_script commands_of answers_lines AreAnswers answers_bytes send_all
run_script-IsAnswered fuel [] [] s rest given text good same =
    (refl, refl, sym (append-nil s.printed), text)
run_script-IsAnswered fuel [] (a ∷ answers) s rest given text good same =
    absurd (ground (arith, same))
run_script-IsAnswered fuel (t ∷ texts) [] s rest given text good same =
    elim (List-cases (until_newline t)) [
      | inl e ↦ IsAnswered-skips fuel s t texts [] rest e (
          run_script-IsAnswered fuel texts [] s rest given text good
            (same ∙ ap length (commands_of-skips t texts e)))
      | inr (c, cmd, e) ↦
          absurd (ground (arith, same ∙ ap length (commands_of-cons c t cmd texts e)))
    ]
run_script-IsAnswered fuel (t ∷ texts) (a ∷ answers) s rest given text good same =
    elim (List-cases (until_newline t)) [
      | inl e ↦ IsAnswered-skips fuel s t texts (a ∷ answers) rest e (
          run_script-IsAnswered fuel texts (a ∷ answers) s rest given text good
            (same ∙ ap length (commands_of-skips t texts e)))
      | inr (c, cmd, e) ↦
          let ((ordinary, plain, p, enough), good') = good in
          let (left, got, behind, given') =
            await_prompt-unlines fuel s a.lines a.ends_with (answers_bytes answers ++ rest) given
              (text ∙ answers_bytes-cons a answers rest) ordinary plain p enough in
          let next : Screen = screen (some a.ends_with) (s.printed ++ a.lines) left in
          subst (IsAnswered s (commands_of (t ∷ texts)) (a ∷ answers) rest)
            (sym (run_script-prompted fuel c s next t cmd texts e got))
            (subst
              (λ cmds.
                IsAnswered s cmds (a ∷ answers) rest
                  (after_sends (send_cmd (c ∷ cmd)) (run_script fuel next texts)))
              (sym (commands_of-cons c t cmd texts e))
              (IsAnswered-prompted s (c ∷ cmd) (commands_of texts) a answers left rest
                (run_script fuel next texts)
                (run_script-IsAnswered fuel texts answers next rest given' behind good'
                  (omega (arith, same ∙ ap length (commands_of-cons c t cmd texts e))))))
    ]
