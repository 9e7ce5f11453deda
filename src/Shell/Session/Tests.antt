-- ===== src/Shell/Session/Tests.antt =====
-- shell/runcmd.c: the theorem at the line ls|wc >o.
use sistemas_operativos_1c.Base.{◌≡◌, ◌≢◌, refl, [], ◌∷◌, true, some, done, exhausted, fault, arith}
use sistemas_operativos_1c.Base.Int.{pos}
use sistemas_operativos_1c.Shell.Types.{pipe_cmd_create}
use sistemas_operativos_1c.Shell.Parsing.{parse_line, parse_cmd, block_contains}
use sistemas_operativos_1c.Shell.Pipeline.{typed, piped}
use sistemas_operativos_1c.Shell.Tests.{
  list_files, count_lines, list_files-Simple, count_lines-Simple,
}
use sistemas_operativos_1c.Shell.Exec.Wired.{standard, wired}
use sistemas_operativos_1c.Shell.Exec.Tests.{all_succeed, terminal}
use sistemas_operativos_1c.Shell.Builtin.{
  Machine, Session, begins, history, cd, pwd, exit_shell, c_string,
}
use sistemas_operativos_1c.Shell.Session.{quiet, run_cmd, read_line, run_shell, parsed_line, launch}
use sistemas_operativos_1c.Shell.Session.Termination.{run_shell-ne-exhausted}
use sistemas_operativos_1c.Shell.Session.Commands.{IsProgram, ran, run_cmd-typed}

abbrev machine : Machine
machine = record {
  world = all_succeed;
  variables = [];
  fds = standard terminal;
  can_start = true;
  chdir = λ directory path. some path;
  waited = λ child status. pos 0;
  text_of = λ status. b'0' ∷ [];
}

abbrev start : Session
start = record { prompt = []; directory = b'/' ∷ []; status = pos 0 }

two_commands-IsProgram : IsProgram (typed list_files (count_lines ∷ []))
unfolding begins
two_commands-IsProgram = record { not_cd = refl; not_exit = refl; not_pwd = refl }

run_cmd-typed_example :
    run_cmd machine start (typed list_files (count_lines ∷ []))
    ≡ done (
        ran machine start
          (piped list_files (count_lines ∷ []))
          (wired all_succeed [] [] terminal (piped list_files (count_lines ∷ []))))
run_cmd-typed_example =
    run_cmd-typed machine start list_files (count_lines ∷ []) terminal
      (list_files-Simple, count_lines-Simple)
      (refl, (refl, (refl, (refl, (refl, (refl, (refl, (refl, tt)))))))) two_commands-IsProgram refl
      refl

run_shell-ne-exhausted_example :
    run_shell machine 13
      (b'p' ∷ b'w' ∷ b'd' ∷ b'\n' ∷ b'e' ∷ b'x' ∷ b'i' ∷ b't' ∷ b'\n' ∷ b'l' ∷ b's' ∷ b'\n' ∷ [])
      start
    ≢ exhausted
run_shell-ne-exhausted_example = run_shell-ne-exhausted machine 12 _ start (omega arith)

-- pwd, then exit: the third line is never read.
session_lem :
    run_shell machine 13
      (b'p' ∷ b'w' ∷ b'd' ∷ b'\n' ∷ b'e' ∷ b'x' ∷ b'i' ∷ b't' ∷ b'\n' ∷ b'l' ∷ b's' ∷ b'\n' ∷ [])
      start
    ≡ done (
        record (quiet start) { printed = b'/' ∷ b'\n' ∷ [] }
        ∷ record (quiet start) { leaves = true }
        ∷ [])
unfolding run_shell read_line run_cmd history cd pwd exit_shell begins
session_lem = refl

-- The line | has no command in it, and the null pointer is followed.
lone_pipe_lem : run_cmd machine start (b'|' ∷ []) ≡ fault
unfolding run_cmd history cd pwd exit_shell begins c_string parsed_line parse_line parse_cmd
    block_contains pipe_cmd_create launch
lone_pipe_lem = refl
