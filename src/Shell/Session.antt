-- ===== src/Shell/Session.antt =====
-- shell/runcmd.c, sh.c, printstatus.c and readline.c: the shell between two commands. What its
-- messages of errors and its prompt print is not modelled.
pub mod Commands
pub mod Termination
pub mod Tests
use sistemas_operativos_1c.Base.{
  ℕ, zero, suc, ◌+◌, ◌-◌, ◌%◌, ◌/◌, List, [], ◌∷◌, ◌++◌, Bool, true, false, ◌&&◌, Option, none,
  some, Run, done, fault, exhausted, then_do, if◌then◌else◌, ◌==◌, ltb, length, drop, take,
}
use sistemas_operativos_1c.Base.Int.{ℤ, pos, negsuc, ◌-ℤ◌}
use sistemas_operativos_1c.Shell.Types.{Cmd, buflen}
use sistemas_operativos_1c.Shell.Parsing.{parse_line}
use sistemas_operativos_1c.Shell.Descriptors.{Fds, Variables, World, getenv}
use sistemas_operativos_1c.Shell.Exec.{Fate, exec_cmd}
use sistemas_operativos_1c.Shell.Builtin.{
  Machine, Session, c_string, begins, home_name, exit_shell, to_home, cd, pwd, history,
}

-- What run_cmd did: its result is EXIT_SHELL if `leaves`; `printed` is the output of a built-in
-- command and `child` the process that was launched.
pub record CmdResult : Type 0 where
  pub session : Session
  pub leaves : Bool
  pub printed : List ℕ
  pub child : Option Fate

abbrev pub quiet : Session → CmdResult
quiet session = record { session = session; leaves = false; printed = []; child = none }

abbrev low_bits : ℤ → ℕ
low_bits (pos n) = n % 128
low_bits (negsuc n) = 127 - n % 128

abbrev second_byte : ℤ → ℕ
second_byte (pos n) = n / 256 % 256
second_byte (negsuc n) = 255 - n / 256 % 256

abbrev decoded : ℤ → ℤ
decoded status =
    if low_bits status == 0
    then pos (second_byte status)
    else (if low_bits status == 127
        then pos 0 -ℤ pos (second_byte status)
        else pos 0 -ℤ pos (low_bits status))

-- The status as print_status_info leaves it: that of a pipe stays as waitpid gave it.
unfoldable pub print_status_info : Cmd → ℤ → ℤ
print_status_info Cmd.no_cmd status = status
print_status_info (Cmd.exec_cmd e) status = if length e.scmd == 0 then status else decoded status
print_status_info (Cmd.back_cmd scmd e) status = if length scmd == 0 then status else decoded status
print_status_info (Cmd.pipe_cmd l r) status = status

abbrev pub launched : Machine → Cmd → Option Fate
launched sys parsed =
    if sys.can_start then some (exec_cmd sys.world [] sys.fds sys.variables parsed) else none

abbrev pub waits : Machine → Session → Cmd → CmdResult
waits sys session parsed = record (quiet session) {
  session = record session {
    status = print_status_info parsed (sys.waited (launched sys parsed) session.status);
  };
  child = launched sys parsed;
}

-- A command in the background is not waited for; a null pointer is followed.
unfoldable pub launch : Machine → Session → Cmd → Run CmdResult
launch sys session Cmd.no_cmd = fault
launch sys session (Cmd.exec_cmd e) = done (waits sys session (Cmd.exec_cmd e))
launch sys session (Cmd.back_cmd scmd e) =
    done (record (quiet session) { child = launched sys (Cmd.back_cmd scmd e) })
launch sys session (Cmd.pipe_cmd l r) = done (waits sys session (Cmd.pipe_cmd l r))

unfoldable pub parsed_line : Machine → Session → List ℕ → Run Cmd
parsed_line sys session cmd =
    parse_line (getenv sys.variables) (sys.text_of session.status) (suc (length cmd)) none cmd

abbrev pub after_pwd : Machine → Session → (cmd : List ℕ) → Option (List ℕ) → Run CmdResult
after_pwd sys session cmd none =
    then_do (parsed_line sys session (c_string cmd)) (launch sys session)
after_pwd sys session cmd (some text) = done (record (quiet session) { printed = text })

abbrev pub after_cd : Machine → Session → (cmd : List ℕ) → Option Session → Run CmdResult
after_cd sys session cmd none =
    if exit_shell cmd
    then done (record (quiet session) { leaves = true })
    else after_pwd sys session cmd (pwd session cmd)
after_cd sys session cmd (some moved) = done (quiet moved)

-- The line in `cmd` is run.
unfoldable pub run_cmd : Machine → Session → (cmd : List ℕ) → Run CmdResult
run_cmd sys session [] = done (quiet session)
run_cmd sys session (b ∷ cmd) =
    if b == 0
    then done (quiet session)
    else (if history (b ∷ cmd)
        then done (quiet session)
        else after_cd sys session (b ∷ cmd) (cd sys session (b ∷ cmd)))

abbrev pub Line : Type 0
Line = Option (List ℕ × List ℕ)

abbrev pub in_front : ℕ → Line → Line
in_front c none = none
in_front c (some (line, left)) = some (c ∷ line, left)

-- The bytes up to the end of a line, and those behind it; `none` at the end of the input. `room` is
-- what is left of the block.
unfoldable pub read_line : (room : ℕ) → (input : List ℕ) → Run Line
read_line room [] = done none
read_line zero (c ∷ input) = fault
read_line (suc room) (c ∷ input) =
    let rest = read_line room input in
    if c == b'\n' then done (some ([], input)) else then_do rest λ line. done (in_front c line)

-- The session at the start is in the user's home, where that can be entered.
unfoldable pub init_shell : Machine → (directory : List ℕ) → Session
init_shell sys directory =
    to_home sys (record { prompt = []; directory = directory; status = pos 0 })
      (getenv sys.variables home_name)

abbrev pub collected : Run CmdResult → (Session → Run (List CmdResult)) → Run (List CmdResult)
collected first more = then_do first λ r. elim r.leaves [
  | true ↦ done (r ∷ [])
  | false ↦ then_do (more r.session) λ rs. done (r ∷ rs)
]

abbrev pub run_read :
    Machine → Session → Line → (List ℕ → Session → Run (List CmdResult)) → Run (List CmdResult)
run_read sys session none more = done []
run_read sys session (some (line, left)) more = collected (run_cmd sys session line) (more left)

-- The results of the lines of the input; each line takes one unit of fuel.
unfoldable pub run_shell : Machine → (fuel : ℕ) → (input : List ℕ) → Session → Run (List CmdResult)
run_shell sys zero input session = exhausted
run_shell sys (suc fuel) input session =
    then_do (read_line buflen input) λ line. run_read sys session line (run_shell sys fuel)
