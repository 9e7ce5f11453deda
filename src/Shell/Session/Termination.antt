-- ===== src/Shell/Session/Termination.antt =====
-- shell/sh.c: the loop over the lines of the input.
use sistemas_operativos_1c.Base.{
  ℕ, zero, suc, ◌≤◌, ◌<◌, ◌≢◌, List, [], ◌∷◌, Bool, true, false, Option, none, some, Run, done,
  fault, exhausted, then_do, if◌then◌else◌, ◌==◌, length, arith,
}
use sistemas_operativos_1c.Shell.Types.{Cmd, buflen}
use sistemas_operativos_1c.Shell.Termination.{then_do-ne, parse_line-ne-exhausted}
use sistemas_operativos_1c.Shell.Descriptors.{getenv}
use sistemas_operativos_1c.Shell.Builtin.{Machine, Session, exit_shell, cd, pwd, history, c_string}
use sistemas_operativos_1c.Shell.Session.{
  CmdResult, Line, in_front, launch, parsed_line, after_pwd, after_cd, run_cmd, read_line,
  collected, run_read, run_shell,
}

-- The input left behind a line is shorter than `n`.
abbrev IsBelow : ℕ → Run Line → Type 0
IsBelow n (done none) = Unit {0}
IsBelow n (done (some (line, left))) = length left < n
IsBelow n fault = Unit {0}
IsBelow n exhausted = ⊥

in_front-IsBelow :
    (c n : ℕ) (rest : Run Line)
    → IsBelow n rest
    → IsBelow (suc n) (then_do rest λ line. done (in_front c line))
in_front-IsBelow c n (done none) h = tt
in_front-IsBelow c n (done (some (line, left))) h = omega arith
in_front-IsBelow c n fault h = tt
in_front-IsBelow c n exhausted h = h

read_step :
    (is_end : Bool) (c : ℕ) (input : List ℕ) (rest : Run Line)
    → IsBelow (length input) rest
    → IsBelow
        (suc (length input))
        (if is_end then done (some ([], input)) else then_do rest λ line. done (in_front c line))
read_step true c input rest h = omega arith
read_step false c input rest h = in_front-IsBelow c (length input) rest h

read_line-IsBelow : (room : ℕ) (input : List ℕ) → IsBelow (length input) (read_line room input)
unfolding read_line
read_line-IsBelow room [] = tt
read_line-IsBelow zero (c ∷ input) = tt
read_line-IsBelow (suc room) (c ∷ input) =
    read_step (c == b'\n') c input (read_line room input) (read_line-IsBelow room input)

either-ne :
    (b : Bool) (x y : Run CmdResult)
    → x ≢ exhausted
    → y ≢ exhausted
    → (if b then x else y) ≢ exhausted
either-ne true x y h g = h
either-ne false x y h g = g

launch-ne : (sys : Machine) (session : Session) (c : Cmd) → launch sys session c ≢ exhausted
unfolding launch
launch-ne sys session Cmd.no_cmd = λ e. cc
launch-ne sys session (Cmd.exec_cmd e) = λ e. cc
launch-ne sys session (Cmd.back_cmd scmd e) = λ e. cc
launch-ne sys session (Cmd.pipe_cmd l r) = λ e. cc

after_pwd-ne :
    (sys : Machine) (session : Session) (cmd : List ℕ) (text : Option (List ℕ))
    → after_pwd sys session cmd text ≢ exhausted
unfolding parsed_line
after_pwd-ne sys session cmd none =
    then_do-ne (parsed_line sys session (c_string cmd)) (launch sys session)
      (parse_line-ne-exhausted (getenv sys.variables) (sys.text_of session.status)
        (length (c_string cmd)) none (c_string cmd) (omega arith))
      (launch-ne sys session)
after_pwd-ne sys session cmd (some text) = λ e. cc

after_cd-ne :
    (sys : Machine) (session : Session) (cmd : List ℕ) (moved : Option Session)
    → after_cd sys session cmd moved ≢ exhausted
after_cd-ne sys session cmd none =
    either-ne (exit_shell cmd) _ _ (λ e. cc) (after_pwd-ne sys session cmd (pwd session cmd))
after_cd-ne sys session cmd (some moved) = λ e. cc

run_cmd-ne :
    (sys : Machine) (session : Session) (cmd : List ℕ) → run_cmd sys session cmd ≢ exhausted
unfolding run_cmd
run_cmd-ne sys session [] = λ e. cc
run_cmd-ne sys session (b ∷ cmd) =
    either-ne (b == 0) _ _ (λ e. cc)
      (either-ne (history (b ∷ cmd)) _ _ (λ e. cc)
        (after_cd-ne sys session (b ∷ cmd) (cd sys session (b ∷ cmd))))

collected-ne :
    (first : Run CmdResult) (more : Session → Run (List CmdResult))
    → first ≢ exhausted
    → ((session : Session) → more session ≢ exhausted)
    → collected first more ≢ exhausted
collected-ne first more h g = then_do-ne first _ h λ r. left_or_more r.leaves r
  where
    left_or_more :
        (leaves : Bool) (r : CmdResult)
        → elim leaves [
          | true ↦ done (r ∷ [])
          | false ↦ then_do (more r.session) λ rs. done (r ∷ rs)
        ]
          ≢ exhausted
    left_or_more true r = λ e. cc
    left_or_more false r = then_do-ne (more r.session) _ (g r.session) λ rs. λ e. cc

run_read-ne :
    (sys : Machine) (session : Session) (n : ℕ) (line : Run Line)
    (more : List ℕ → Session → Run (List CmdResult))
    → IsBelow n line
    → ((left : List ℕ) (session : Session) → length left < n → more left session ≢ exhausted)
    → then_do line (λ line. run_read sys session line more) ≢ exhausted
run_read-ne sys session n (done none) more h g = λ e. cc
run_read-ne sys session n (done (some (line, left))) more h g =
    collected-ne (run_cmd sys session line) (more left) (run_cmd-ne sys session line)
      (λ session. g left session h)
run_read-ne sys session n fault more h g = λ e. cc
run_read-ne sys session n exhausted more h g = absurd h

-- The shell ends on every input, by EXIT_SHELL, at the end of the input or at a fault: with one unit of
-- fuel more than the input has bytes, neither its loop nor the parser in it runs out of fuel.
pub run_shell-ne-exhausted :
    (sys : Machine) (fuel : ℕ) (input : List ℕ) (session : Session)
    → length input ≤ fuel
    → run_shell sys (suc fuel) input session ≢ exhausted
unfolding run_shell
run_shell-ne-exhausted sys zero input session enough =
    run_read-ne sys session (length input) (read_line buflen input) _
      (read_line-IsBelow buflen input) (λ left session below. absurd (omega arith))
run_shell-ne-exhausted sys (suc fuel) input session enough =
    run_read-ne sys session (length input) (read_line buflen input) _
      (read_line-IsBelow buflen input)
      (λ left session below. run_shell-ne-exhausted sys fuel left session (omega arith))
