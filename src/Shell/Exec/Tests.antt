-- ===== src/Shell/Exec/Tests.antt =====
-- shell/exec.c: the theorem at a pipe with a setting and a redirection.
use sistemas_operativos_1c.Base.{◌≡◌, [], ◌∷◌, true}
use sistemas_operativos_1c.Shell.Types.{CmdType, ExecCmd, Cmd}
use sistemas_operativos_1c.Shell.Descriptors.{Mode, Object, World, setenv}
use sistemas_operativos_1c.Shell.Exec.{Fate, exec_cmd, execvp}
use sistemas_operativos_1c.Shell.Exec.Settings.{assigned, cut}
use sistemas_operativos_1c.Shell.Exec.Wired.{
  Streams, standard, opened, opened_err, redirected, started, simple, wired, exec_cmd-wired,
}

abbrev pub all_succeed : World
all_succeed = record {
  can_open = λ place path mode. true;
  can_pipe = λ place. true;
  can_fork = λ place side. true;
  can_run = λ place argv. true;
}

abbrev pub terminal : Streams
terminal = record { input = Object.outer 0; output = Object.outer 1; errors = Object.outer 2 }

-- A=1 ls
abbrev lister : ExecCmd
lister = record {
  type_ = CmdType.exec;
  scmd = [];
  argv = (b'l' ∷ b's' ∷ []) ∷ [];
  eargv = (b'A' ∷ b'=' ∷ b'1' ∷ []) ∷ [];
  out_file = [];
  in_file = [];
  err_file = [];
}

-- wc >o 2>&1
abbrev counter : ExecCmd
counter = record {
  type_ = CmdType.redir;
  scmd = [];
  argv = (b'w' ∷ b'c' ∷ []) ∷ [];
  eargv = [];
  out_file = b'o' ∷ [];
  in_file = [];
  err_file = b'&' ∷ b'1' ∷ [];
}

exec_cmd-wired_example :
    exec_cmd all_succeed []
      (standard terminal)
      []
      (Cmd.pipe_cmd (Cmd.exec_cmd lister) (Cmd.exec_cmd counter))
    ≡ Fate.forks
        (Fate.runs
          ((b'l' ∷ b's' ∷ []) ∷ [])
          ((b'A' ∷ [], b'1' ∷ []) ∷ [])
          (standard (record terminal { output = Object.writer [] })))
        (Fate.forks
          (Fate.runs ((b'w' ∷ b'c' ∷ []) ∷ []) [] (
            standard (record {
              input = Object.reader [];
              output = Object.file (b'o' ∷ []) Mode.writing;
              errors = Object.file (b'o' ∷ []) Mode.writing;
            })))
          (Fate.awaits (standard terminal)))
unfolding wired simple started redirected opened opened_err execvp assigned cut setenv
exec_cmd-wired_example =
    exec_cmd-wired all_succeed [] (Cmd.pipe_cmd (Cmd.exec_cmd lister) (Cmd.exec_cmd counter)) []
      terminal
