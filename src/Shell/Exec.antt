-- ===== src/Shell/Exec.antt =====
-- shell/exec.c: how the process that runs a command sets its variables and descriptors up, forks and
-- becomes the program. Messages of errors are not modelled.
pub mod Settings
pub mod Wired
pub mod Tests
use sistemas_operativos_1c.Base.{
  ℕ, ◌+◌, List, [], ◌∷◌, Bool, false, ◌&&◌, Option, none, some, Run, done, fault, exhausted,
  then_do, if◌then◌else◌, ◌==◌, drop, ◌>>=◌,
}
use sistemas_operativos_1c.Base.Int.{ℤ, negsuc}
use sistemas_operativos_1c.Shell.Types.{CmdType, ExecCmd, Cmd}
use sistemas_operativos_1c.Shell.Parsing.{block_contains}
use sistemas_operativos_1c.Shell.Descriptors.{
  Side, Place, Mode, Object, Fds, install, dup2, close_fd, Variables, setenv, World,
}

-- What becomes of a process. `awaits` is the parent of a pipe that waits for both children with these
-- descriptors open, and exits with 0.
pub data Fate : Type 0 where
  runs : (argv : List (List ℕ)) → Variables → Fds → Fate
  exits : ℤ → Fate
  awaits : Fds → Fate
  forks : (child parent : Fate) → Fate
  crashes : Fate

-- A string without `=` is read past its end.
unfoldable pub get_environ_key : (arg : List ℕ) → Run (List ℕ)
get_environ_key [] = fault
get_environ_key (c ∷ arg) =
    let rest = get_environ_key arg in
    if c == b'=' then done [] else then_do rest λ key. done (c ∷ key)

unfoldable pub get_environ_value : (arg : List ℕ) → (idx : ℕ) → List ℕ
get_environ_value arg idx = drop (idx + 1) arg

abbrev pub set_variable : Variables → List ℕ → Option ℕ → Run Variables
set_variable vars arg none = done vars
set_variable vars arg (some idx) =
    then_do (get_environ_key arg) λ key. done (setenv vars key (get_environ_value arg idx))

unfoldable pub set_environ_vars : Variables → (eargv : List (List ℕ)) → Run Variables
set_environ_vars vars [] = done vars
set_environ_vars vars (arg ∷ eargv) =
    then_do (set_variable vars arg (block_contains arg b'=')) λ vars. set_environ_vars vars eargv

-- `none` is the descriptor -1.
unfoldable pub open_redir_fd : World → Place → Fds → List ℕ → Mode → Option (ℕ × Fds)
open_redir_fd world place fds path mode =
    if world.can_open place path mode then some (install fds (Object.file path mode)) else none

abbrev duplicated : Fds → (old new : ℕ) → Option Fds → Fds
duplicated fds old new none = fds
duplicated fds old new (some fds_after) = fds_after

-- dup2 with its result ignored.
abbrev replace_fd : Fds → (old new : ℕ) → Fds
replace_fd fds old new = duplicated fds old new (dup2 fds old new)

abbrev pub moved_fd : (new : ℕ) → ℕ × Fds → Option Fds
moved_fd new (fd, fds) = some (close_fd (replace_fd fds fd new) fd)

-- `none` is the exit with -1.
unfoldable pub redirect : World → Place → Fds → (path : List ℕ) → Mode → (new : ℕ) → Option Fds
redirect world place fds [] mode new = some fds
redirect world place fds (c ∷ path) mode new =
    open_redir_fd world place fds (c ∷ path) mode >>= moved_fd new

-- The comparison with the string &1.
abbrev pub is_output : List ℕ → Bool
is_output [] = false
is_output (c ∷ []) = false
is_output (c ∷ d ∷ []) = (c == b'&') && (d == b'1')
is_output (c ∷ d ∷ e ∷ path) = false

unfoldable pub redirect_err : World → Place → Fds → (path : List ℕ) → Option Fds
redirect_err world place fds path =
    if is_output path
    then some (replace_fd fds 1 2)
    else redirect world place fds path Mode.writing 2

unfoldable pub redirect_all : World → Place → Fds → ExecCmd → Option Fds
redirect_all world place fds r = do
  fds ← redirect world place fds r.out_file Mode.writing 1
  fds ← redirect world place fds r.in_file Mode.reading 0
  redirect_err world place fds r.err_file

-- execvp of a null name crashes.
unfoldable pub execvp : World → Place → Fds → Variables → (argv : List (List ℕ)) → Fate
execvp world place fds vars [] = Fate.crashes
execvp world place fds vars (name ∷ args) =
    if world.can_run place (name ∷ args)
    then Fate.runs (name ∷ args) vars fds
    else Fate.exits (negsuc 0)

abbrev pub with_variables : World → Place → Fds → (argv : List (List ℕ)) → Run Variables → Fate
with_variables world place fds argv (done vars) = execvp world place fds vars argv
with_variables world place fds argv fault = Fate.crashes
with_variables world place fds argv exhausted = Fate.crashes

-- The case EXEC.
unfoldable pub exec_program : World → Place → Fds → Variables → ExecCmd → Fate
exec_program world place fds vars e =
    with_variables world place fds e.argv (set_environ_vars vars e.eargv)

abbrev pub with_fds : World → Place → Variables → ExecCmd → Option Fds → Fate
with_fds world place vars r none = Fate.exits (negsuc 0)
with_fds world place vars r (some fds) =
    exec_program world place fds vars (record r { type_ = CmdType.exec })

-- The cases EXEC and REDIR.
abbrev pub exec_simple : World → Place → Fds → Variables → CmdType → ExecCmd → Fate
exec_simple world place fds vars CmdType.exec e = exec_program world place fds vars e
exec_simple world place fds vars CmdType.redir r =
    with_fds world place vars r (redirect_all world place fds r)

-- A child of a pipe after its dup2, which closes the end that it duplicated.
unfoldable pub run_child : Option Fds → (end : ℕ) → (Fds → Fate) → Fate
run_child none end run = Fate.exits (negsuc 0)
run_child (some fds) end run = run (close_fd fds end)

-- The children of a pipe, which has the ends `read_fd` and `write_fd`.
unfoldable pub fork_children :
    World → Place → (read_fd write_fd : ℕ) → Fds → (run_left run_right : Fds → Fate) → Fate
fork_children world place read_fd write_fd fds run_left run_right =
    if world.can_fork place Side.left
    then Fate.forks (run_child (dup2 (close_fd fds read_fd) write_fd 1) write_fd run_left) (
        if world.can_fork place Side.right
        then Fate.forks (run_child (dup2 (close_fd fds write_fd) read_fd 0) read_fd run_right)
            (Fate.awaits (close_fd (close_fd fds read_fd) write_fd))
        else Fate.exits (negsuc 0))
    else Fate.exits (negsuc 0)

abbrev with_writer : World → Place → ℕ → ℕ × Fds → (run_left run_right : Fds → Fate) → Fate
with_writer world place read_fd (write_fd, fds) run_left run_right =
    fork_children world place read_fd write_fd fds run_left run_right

abbrev with_reader : World → Place → ℕ × Fds → (run_left run_right : Fds → Fate) → Fate
with_reader world place (read_fd, fds) run_left run_right =
    with_writer world place read_fd (install fds (Object.writer place)) run_left run_right

-- The case PIPE: two descriptors, then the children.
unfoldable pub exec_pipe : World → Place → Fds → (run_left run_right : Fds → Fate) → Fate
exec_pipe world place fds run_left run_right =
    if world.can_pipe place
    then with_reader world place (install fds (Object.reader place)) run_left run_right
    else Fate.exits (negsuc 0)

unfoldable pub exec_cmd : World → Place → Fds → Variables → Cmd → Fate
exec_cmd world place fds vars Cmd.no_cmd = Fate.crashes
exec_cmd world place fds vars (Cmd.exec_cmd e) = exec_simple world place fds vars e.type_ e
exec_cmd world place fds vars (Cmd.back_cmd scmd e) = exec_simple world place fds vars e.type_ e
exec_cmd world place fds vars (Cmd.pipe_cmd l r) =
    exec_pipe world place fds (λ ends. exec_cmd world (Side.left ∷ place) ends vars l)
      (λ ends. exec_cmd world (Side.right ∷ place) ends vars r)
