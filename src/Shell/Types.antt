-- ===== src/Shell/Types.antt =====
-- shell/types.h, defs.h and createcmd.c: parsed commands. A string is its bytes, without the final null
-- byte.
use sistemas_operativos_1c.Base.{ℕ, List, [], Run, done, fault, if◌then◌else◌, leb, length}

abbrev pub buflen : ℕ
buflen = 1024

abbrev pub maxargs : ℕ
maxargs = 20

abbrev pub argsize : ℕ
argsize = 1024

-- The type of an `execcmd`.
pub data CmdType : Type 0 where
  exec redir : CmdType

pub record ExecCmd : Type 0 where
  pub type_ : CmdType
  pub scmd : List ℕ
  pub argv : List (List ℕ)
  pub eargv : List (List ℕ)
  pub out_file : List ℕ
  pub in_file : List ℕ
  pub err_file : List ℕ

-- `no_cmd` is NULL. The counts `argc` and `eargc` are the lengths of the lists.
pub data Cmd : Type 0 where
  no_cmd : Cmd
  exec_cmd : ExecCmd → Cmd
  back_cmd : (scmd : List ℕ) → ExecCmd → Cmd
  pipe_cmd : Cmd → Cmd → Cmd

-- The memory of `calloc` with the line copied into `scmd`.
unfoldable pub exec_cmd_create : List ℕ → Run ExecCmd
exec_cmd_create buf_cmd =
    if leb buflen (length buf_cmd)
    then fault
    else done (record {
      type_ = CmdType.exec;
      scmd = buf_cmd;
      argv = [];
      eargv = [];
      out_file = [];
      in_file = [];
      err_file = [];
    })

unfoldable pub back_cmd_create : ExecCmd → Cmd
back_cmd_create c = Cmd.back_cmd c.scmd c

unfoldable pub pipe_cmd_create : Cmd → Cmd → Cmd
pipe_cmd_create left Cmd.no_cmd = left
pipe_cmd_create left right = Cmd.pipe_cmd left right
