-- ===== src/Shell/Session/Commands.antt =====
-- shell/runcmd.c: a typed line from its bytes to the processes that run it.
use sistemas_operativos_1c.Base.{
  ℕ, ◌+◌, ◌≤◌, ◌≡◌, refl, ap, ◌∙◌, List, [], ◌∷◌, Bool, true, false, Option, none, some, done,
  then_do, if◌then◌else◌, length, length-append, arith,
}
use sistemas_operativos_1c.Shell.Types.{Cmd}
use sistemas_operativos_1c.Shell.Words.{Without}
use sistemas_operativos_1c.Shell.Line.{line, length-line}
use sistemas_operativos_1c.Shell.Pipeline.{Command, AllSimple, typed, piped, parse_line-piped}
use sistemas_operativos_1c.Shell.Descriptors.{getenv}
use sistemas_operativos_1c.Shell.Exec.{Fate, exec_cmd}
use sistemas_operativos_1c.Shell.Exec.Wired.{Streams, standard, wired, exec_cmd-wired}
use sistemas_operativos_1c.Shell.Builtin.{
  Machine, Session, c_string, begins, exit_shell, cd, pwd, history,
}
use sistemas_operativos_1c.Shell.Session.{
  CmdResult, quiet, print_status_info, waits, launch, parsed_line, after_pwd, after_cd, run_cmd,
}

-- A line that no built-in command takes.
pub record IsProgram (cmd : List ℕ) : Type 0 where
  pub not_cd : begins (b'c' ∷ b'd' ∷ []) cmd ≡ false
  pub not_exit : begins (b'e' ∷ b'x' ∷ b'i' ∷ b't' ∷ []) cmd ≡ false
  pub not_pwd : begins (b'p' ∷ b'w' ∷ b'd' ∷ []) cmd ≡ false

-- The shell has waited for these processes and kept their status.
abbrev pub ran : Machine → Session → Cmd → Fate → CmdResult
ran sys session c outcome = record (quiet session) {
  session = record session {
    status = print_status_info c (sys.waited (some outcome) session.status);
  };
  child = some outcome;
}

skip : {A : Type 0} {b : Bool} (x y : A) → b ≡ false → (if b then x else y) ≡ y
skip x y is_false = ap (λ b. if b then x else y) is_false

c_string-Without : (buf : List ℕ) → Without 0 buf → c_string buf ≡ buf
unfolding c_string
c_string-Without [] h = refl
c_string-Without (b ∷ buf) (ne, h) = skip _ _ ne ∙ ap (λ rest. b ∷ rest) (c_string-Without buf h)

-- The tests of the built-in commands, one behind the other.
run_cmd-parsed :
    (sys : Machine) (session : Session) (cmd : List ℕ)
    → 1 ≤ length cmd
    → Without 0 cmd
    → IsProgram cmd
    → run_cmd sys session cmd ≡ then_do (parsed_line sys session cmd) (launch sys session)
unfolding run_cmd cd pwd history exit_shell
run_cmd-parsed sys session [] some_byte h program = absurd (omega arith)
run_cmd-parsed sys session (b ∷ cmd) some_byte (ne, h) program =
    skip _ _ ne
    ∙ ap (after_cd sys session (b ∷ cmd)) (skip _ _ program.not_cd)
    ∙ skip _ _ program.not_exit
    ∙ ap (after_pwd sys session (b ∷ cmd)) (skip _ _ program.not_pwd)
    ∙ ap (λ line. then_do (parsed_line sys session line) (launch sys session))
        (c_string-Without (b ∷ cmd) (ne, h))

length-typed : (c : Command) (ds : List Command) → length ds + 1 ≤ length (typed c ds)
length-typed (w, ws) [] = omega (arith, length-line (w ∷ ws))
length-typed (w, ws) (d ∷ ds) =
    omega (arith, length-append (line (w ∷ ws)) (b'|' ∷ typed d ds), length-typed d ds)

launch-piped :
    (sys : Machine) (session : Session) (c : Command) (ds : List Command)
    → launch sys session (piped c ds) ≡ done (waits sys session (piped c ds))
unfolding launch
launch-piped sys session c [] = refl
launch-piped sys session c (d ∷ ds) = refl

waits-ran :
    (sys : Machine) (session : Session) (c : Cmd) (s : Streams)
    → sys.can_start ≡ true
    → sys.fds ≡ standard s
    → waits sys session c ≡ ran sys session c (wired sys.world [] sys.variables s c)
waits-ran sys session c s starts is_standard =
    ap
      (λ can.
        waited_for (if can then some (exec_cmd sys.world [] sys.fds sys.variables c) else none))
      starts
    ∙ ap (λ outcome. waited_for (some outcome))
        (ap (λ fds. exec_cmd sys.world [] fds sys.variables c) is_standard
          ∙ exec_cmd-wired sys.world sys.variables c [] s)
  where
    waited_for : Option Fate → CmdResult
    waited_for child = record (quiet session) {
      session = record session { status = print_status_info c (sys.waited child session.status) };
      child = child;
    }

-- A typed line of simple commands, without null bytes and which no built-in command takes, starts the processes that the line
-- means: when the shell can fork and has just its three standard descriptors open, run_cmd starts one
-- program for each command, each joined to the next by a pipe and with its own files opened, waits for
-- them, keeps their status and asks for the next line.
pub run_cmd-typed :
    (sys : Machine) (session : Session) (c : Command) (ds : List Command) (s : Streams)
    → AllSimple c ds
    → Without 0 (typed c ds)
    → IsProgram (typed c ds)
    → sys.can_start ≡ true
    → sys.fds ≡ standard s
    → run_cmd sys session (typed c ds)
      ≡ done (ran sys session (piped c ds) (wired sys.world [] sys.variables s (piped c ds)))
unfolding parsed_line
run_cmd-typed sys session c ds s are_simple no_null program starts is_standard =
    run_cmd-parsed sys session (typed c ds) (omega (arith, length-typed c ds)) no_null program
    ∙ ap (λ parsed. then_do parsed (launch sys session))
        (parse_line-piped (getenv sys.variables) (sys.text_of session.status) c ds
          (length (typed c ds)) none are_simple (omega (arith, length-typed c ds)))
    ∙ launch-piped sys session c ds
    ∙ ap done (waits-ran sys session (piped c ds) s starts is_standard)
