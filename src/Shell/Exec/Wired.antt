-- ===== src/Shell/Exec/Wired.antt =====
-- shell/exec.c, exec_cmd: a command described by its three streams, without any descriptor, and the
-- theorem that the code does what the description says.
use sistemas_operativos_1c.Base.{
  ℕ, ◌≡◌, refl, sym, ap, ◌∙◌, List, [], ◌∷◌, Bool, true, false, Option, none, some, if◌then◌else◌,
  ◌>>=◌,
}
use sistemas_operativos_1c.Base.Int.{negsuc}
use sistemas_operativos_1c.Shell.Types.{CmdType, ExecCmd, Cmd}
use sistemas_operativos_1c.Shell.Descriptors.{
  Side, Place, Mode, Object, Fds, install, dup2, close_fd, Variables, World,
}
use sistemas_operativos_1c.Shell.Exec.{
  Fate, is_output, moved_fd, open_redir_fd, redirect, redirect_err, redirect_all, execvp,
  with_variables, exec_program, exec_simple, with_fds, run_child, fork_children, exec_pipe,
  exec_cmd,
}
use sistemas_operativos_1c.Shell.Exec.Settings.{assigned, set_environ_vars-assigned}

pub record Streams : Type 0 where
  pub input : Object
  pub output : Object
  pub errors : Object

-- The descriptors 0, 1 and 2, with all others closed.
unfoldable pub standard : Streams → Fds
standard s = some s.input ∷ some s.output ∷ some s.errors ∷ []

-- The stream that replaces `old`: the file, if one is named, or none if it cannot be opened.
unfoldable pub opened : World → Place → List ℕ → Mode → (old : Object) → Option Object
opened world place [] mode old = some old
opened world place (c ∷ path) mode old =
    if world.can_open place (c ∷ path) mode then some (Object.file (c ∷ path) mode) else none

-- 2>&1 stands for the output as it is once the output file is open.
unfoldable pub opened_err : World → Place → List ℕ → (output old : Object) → Option Object
opened_err world place path output old =
    if is_output path then some output else opened world place path Mode.writing old

unfoldable pub redirected : World → Place → ExecCmd → Streams → Option Streams
redirected world place r s = do
  output ← opened world place r.out_file Mode.writing s.output
  input ← opened world place r.in_file Mode.reading s.input
  errors ← opened_err world place r.err_file output s.errors
  some (record { input = input; output = output; errors = errors })

-- The program, its arguments and variables, and no descriptor but the three streams.
unfoldable pub started : World → Place → Variables → ExecCmd → Option Streams → Fate
started world place vars e none = Fate.exits (negsuc 0)
started world place vars e (some s) = execvp world place (standard s) (assigned vars e.eargv) e.argv

unfoldable pub simple : World → Place → Variables → Streams → CmdType → ExecCmd → Fate
simple world place vars s CmdType.exec e = started world place vars e (some s)
simple world place vars s CmdType.redir e = started world place vars e (redirected world place e s)

-- Two processes and the one that waits for them, as far as the pipe and the forks succeed.
abbrev piped : World → Place → Streams → (left_run right_run : Fate) → Fate
piped world place s left_run right_run =
    let failed = Fate.exits (negsuc 0) in
    let rest =
      if world.can_fork place Side.right
      then Fate.forks right_run (Fate.awaits (standard s))
      else failed in
    let children = if world.can_fork place Side.left then Fate.forks left_run rest else failed in
    if world.can_pipe place then children else failed

-- The left program writes into the pipe that the right one reads, and the shell's process waits with
-- no end of it.
unfoldable pub wired : World → Place → Variables → Streams → Cmd → Fate
wired world place vars s Cmd.no_cmd = Fate.crashes
wired world place vars s (Cmd.exec_cmd e) = simple world place vars s e.type_ e
wired world place vars s (Cmd.back_cmd scmd e) = simple world place vars s e.type_ e
wired world place vars s (Cmd.pipe_cmd l r) =
    piped world place s
      (wired world (Side.left ∷ place) vars (record s { output = Object.writer place }) l)
      (wired world (Side.right ∷ place) vars (record s { input = Object.reader place }) r)

exec_program_lem :
    (world : World) (place : Place) (s : Streams) (vars : Variables) (e : ExecCmd)
    → exec_program world place (standard s) vars e ≡ started world place vars e (some s)
unfolding exec_program started
exec_program_lem world place s vars e =
    ap (with_variables world place (standard s) e.argv) (set_environ_vars-assigned e.eargv vars)

-- One redirection, of the descriptor that `set` gives an object.
redirect_lem :
    (world : World) (place : Place) (fds : Fds) (path : List ℕ) (mode : Mode) (new : ℕ)
    (set : Object → Fds) (old : Object)
    → set old ≡ fds
    → ((o : Object) → moved_fd new (install fds o) ≡ some (set o))
    → redirect world place fds path mode new
      ≡ (opened world place path mode old >>= λ o. some (set o))
unfolding redirect opened open_redir_fd
redirect_lem world place fds [] mode new set old is_old moves = ap some (sym is_old)
redirect_lem world place fds (c ∷ path) mode new set old is_old moves =
    by_open (world.can_open place (c ∷ path) mode)
  where
    o : Object
    o = Object.file (c ∷ path) mode

    by_open :
        (can : Bool)
        → ((if can then some (install fds o) else none) >>= moved_fd new)
          ≡ ((if can then some o else none) >>= λ o. some (set o))
    by_open true = moves o
    by_open false = refl

chain :
    (found : Option Object) (first : Option Fds) (set : Object → Fds) (k : Fds → Option Fds)
    (k_streams : Object → Option Streams)
    → first ≡ (found >>= λ o. some (set o))
    → ((o : Object) → k (set o) ≡ (k_streams o >>= λ s. some (standard s)))
    → (first >>= k) ≡ ((found >>= k_streams) >>= λ s. some (standard s))
chain none first set k k_streams eq rest = ap (λ first. first >>= k) eq
chain (some o) first set k k_streams eq rest = ap (λ first. first >>= k) eq ∙ rest o

collect :
    (found : Option Object) (streams : Object → Streams)
    → (found >>= λ o. some (standard (streams o)))
      ≡ ((found >>= λ o. some (streams o)) >>= λ s. some (standard s))
collect none streams = refl
collect (some o) streams = refl

redirect_err_lem :
    (world : World) (place : Place) (s : Streams) (path : List ℕ)
    → redirect_err world place (standard s) path ≡ (
        opened_err world place path s.output s.errors >>= λ o.
        some (standard (record s { errors = o })))
unfolding redirect_err opened_err standard install dup2 close_fd
redirect_err_lem world place s path = by_output (is_output path)
  where
    by_output :
        (b : Bool)
        → (if b
            then some (some s.input ∷ some s.output ∷ some s.output ∷ [])
            else redirect world place (standard s) path Mode.writing 2)
          ≡ ((if b then some s.output else opened world place path Mode.writing s.errors) >>= λ o.
              some (standard (record s { errors = o })))
    by_output true = refl
    by_output false =
        redirect_lem world place (standard s) path Mode.writing 2
          (λ o. standard (record s { errors = o })) s.errors refl (λ o. refl)

redirect_all_lem :
    (world : World) (place : Place) (s : Streams) (r : ExecCmd)
    → redirect_all world place (standard s) r
      ≡ (redirected world place r s >>= λ s. some (standard s))
unfolding redirect_all redirected standard install dup2 close_fd
redirect_all_lem world place s r =
    chain (opened world place r.out_file Mode.writing s.output) _
      (λ o. standard (record s { output = o })) _ _
      (redirect_lem world place (standard s) r.out_file Mode.writing 1
        (λ o. standard (record s { output = o })) s.output refl λ o. refl)
      λ output.
        chain (opened world place r.in_file Mode.reading s.input) _
          (λ o. standard (record s { output = output; input = o })) _ _
          (redirect_lem world place (standard (record s { output = output })) r.in_file Mode.reading
            0 (λ o. standard (record s { output = output; input = o })) s.input refl λ o. refl)
          λ input.
            redirect_err_lem world place (record s { output = output; input = input }) r.err_file
            ∙ collect (opened_err world place r.err_file output s.errors)
                λ o. record { input = input; output = output; errors = o }

redir_lem :
    (world : World) (place : Place) (vars : Variables) (r : ExecCmd) (found : Option Streams)
    → with_fds world place vars r (found >>= λ s. some (standard s))
      ≡ started world place vars r found
unfolding started
redir_lem world place vars r none = refl
redir_lem world place vars r (some s) =
    exec_program_lem world place s vars (record r { type_ = CmdType.exec })

simple_lem :
    (world : World) (place : Place) (vars : Variables) (s : Streams) (type_ : CmdType) (e : ExecCmd)
    → exec_simple world place (standard s) vars type_ e ≡ simple world place vars s type_ e
unfolding simple
simple_lem world place vars s CmdType.exec e = exec_program_lem world place s vars e
simple_lem world place vars s CmdType.redir e =
    ap (with_fds world place vars e) (redirect_all_lem world place s e)
    ∙ redir_lem world place vars e (redirected world place e s)

-- What the processes of a command do, whatever of open, pipe, fork and execvp fails: when the shell has
-- its three standard descriptors open and no others, exec_cmd gives each program its words, the
-- variables set in front of it and exactly three open descriptors, the ends of pipes and the files that
-- the command names; no program, and no process that waits, keeps another end of a pipe open.
pub exec_cmd-wired :
    (world : World) (vars : Variables) (c : Cmd) (place : Place) (s : Streams)
    → exec_cmd world place (standard s) vars c ≡ wired world place vars s c
unfolding exec_cmd wired exec_pipe fork_children run_child standard install dup2 close_fd
exec_cmd-wired world vars Cmd.no_cmd place s = refl
exec_cmd-wired world vars (Cmd.exec_cmd e) place s = simple_lem world place vars s e.type_ e
exec_cmd-wired world vars (Cmd.back_cmd scmd e) place s = simple_lem world place vars s e.type_ e
exec_cmd-wired world vars (Cmd.pipe_cmd l r) place s =
    ap
      (λ run.
        piped world place s run (exec_cmd world (Side.right ∷ place) (standard right_s) vars r))
      (exec_cmd-wired world vars l (Side.left ∷ place) left_s)
    ∙ ap (piped world place s (wired world (Side.left ∷ place) vars left_s l))
        (exec_cmd-wired world vars r (Side.right ∷ place) right_s)
  where
    left_s : Streams
    left_s = record s { output = Object.writer place }

    right_s : Streams
    right_s = record s { input = Object.reader place }
