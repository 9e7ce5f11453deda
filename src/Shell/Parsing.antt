-- ===== src/Shell/Parsing.antt =====
-- shell/parsing.c and `block_contains` of shell/utils.c. `getenv` and the text of the last exit status
-- are arguments. A loop over the line has fuel: one unit for each byte is enough.
use sistemas_operativos_1c.Base.{
  ℕ, zero, suc, ◌+◌, List, [], ◌∷◌, ◌++◌, Bool, true, false, ◌&&◌, Option, none, some, Run, done,
  fault, exhausted, then_do, if◌then◌else◌, ltb, leb, ◌==◌, length, drop, take,
}
use sistemas_operativos_1c.Shell.Types.{
  CmdType, ExecCmd, Cmd, maxargs, argsize, exec_cmd_create, back_cmd_create, pipe_cmd_create,
}

abbrev pub space : ℕ
space = b' '

-- The index of the first `c`; the -1 of the source is `none`.
unfoldable pub block_contains : List ℕ → (c : ℕ) → Option ℕ
block_contains [] c = none
block_contains (b ∷ buf) c =
    if b == c then some 0 else elim (block_contains buf c) [ none ↦ none | some i ↦ some (i + 1) ]

abbrev pub copied : List ℕ → List ℕ
copied [] = []
copied (b ∷ buf) = let rest = copied buf in if b == space then [] else b ∷ rest

-- The token at the start of `buf`, which is copied into a block of `argsize` bytes.
unfoldable pub get_token : List ℕ → Run (List ℕ)
get_token buf = if leb argsize (length (copied buf)) then fault else done (copied buf)

-- `none` where the source returns false.
abbrev redir_out : ExecCmd → List ℕ → ℕ → ExecCmd
redir_out c arg zero = record c { out_file = drop 1 arg; type_ = CmdType.redir }
redir_out c arg (suc zero) = record c { err_file = drop 2 arg; type_ = CmdType.redir }
redir_out c arg (suc (suc i)) = record c { type_ = CmdType.redir }

abbrev redir_in : ExecCmd → List ℕ → Option ℕ → Option ExecCmd
redir_in c arg none = none
redir_in c arg (some i) = some (record c { in_file = drop 1 arg; type_ = CmdType.redir })

abbrev redir : ExecCmd → List ℕ → Option ℕ → Option ExecCmd
redir c arg none = redir_in c arg (block_contains arg b'<')
redir c arg (some i) = some (redir_out c arg i)

unfoldable pub parse_redir_flow : ExecCmd → List ℕ → Option ExecCmd
parse_redir_flow c arg = redir c arg (block_contains arg b'>')

abbrev positive : Option ℕ → Bool
positive none = false
positive (some i) = ltb 0 i

abbrev absent : Option ℕ → Bool
absent none = true
absent (some i) = false

-- `block_contains(arg, '=') > 0` and `block_contains(arg, '-') < 0`
unfoldable pub is_setting : List ℕ → Bool
is_setting arg = positive (block_contains arg b'=') && absent (block_contains arg b'-')

-- A write behind the end of `eargv` is a fault.
unfoldable pub parse_environ_var : ExecCmd → List ℕ → Option (Run ExecCmd)
parse_environ_var c arg =
    if is_setting arg
    then some (
        if leb maxargs (length c.eargv)
        then fault
        else done (record c { eargv = c.eargv ++ arg ∷ [] }))
    else none

abbrev value_of : Option (List ℕ) → List ℕ
value_of none = []
value_of (some v) = v

-- "$?" is the status, also where more follows.
abbrev variable : (List ℕ → Option (List ℕ)) → (status : List ℕ) → List ℕ → List ℕ
variable getenv status [] = value_of (getenv [])
variable getenv status (b ∷ name) = if b == b'?' then status else value_of (getenv (b ∷ name))

unfoldable pub expand_environ_var : (List ℕ → Option (List ℕ)) → (status : List ℕ) → List ℕ → List ℕ
expand_environ_var getenv status [] = []
expand_environ_var getenv status (b ∷ name) =
    if b == b'$' then variable getenv status name else b ∷ name

-- `c->argv[argc++] = tok` where the token is not empty. The 20 places hold 19 arguments and a NULL.
unfoldable pub add_argument : ExecCmd → List ℕ → Run ExecCmd
add_argument c [] = done c
add_argument c (b ∷ tok) =
    if leb maxargs (length c.argv)
    then fault
    else done (record c { argv = c.argv ++ (b ∷ tok) ∷ [] })

-- `c->argv[argc] = NULL`
abbrev pub close : ExecCmd → Run ExecCmd
close c = if leb maxargs (length c.argv) then fault else done c

module _ (getenv : List ℕ → Option (List ℕ)) (status : List ℕ) where
  abbrev pub after_environ : ExecCmd → List ℕ → Option (Run ExecCmd) → Run ExecCmd
  after_environ c tok none = add_argument c (expand_environ_var getenv status tok)
  after_environ c tok (some r) = r

  abbrev pub after_redir : ExecCmd → List ℕ → Option ExecCmd → Run ExecCmd
  after_redir c tok none = after_environ c tok (parse_environ_var c tok)
  after_redir c tok (some c') = done c'

  -- What a round of the loop of `parse_exec` does with its token.
  unfoldable pub parse_token : ExecCmd → List ℕ → Run ExecCmd
  parse_token c tok = after_redir c tok (parse_redir_flow c tok)

  unfoldable pub parse_tokens : ℕ → List ℕ → ExecCmd → Run ExecCmd
  parse_tokens f [] c = done c
  parse_tokens zero (b ∷ buf) c = exhausted
  parse_tokens (suc f) (b ∷ buf) c = then_do (get_token (b ∷ buf)) (λ tok.
      then_do (parse_token c tok) (λ c'. parse_tokens f (drop (length tok + 1) (b ∷ buf)) c'))

  unfoldable pub parse_exec : List ℕ → Run ExecCmd
  parse_exec buf_cmd =
      then_do (exec_cmd_create buf_cmd)
        (λ c. then_do (parse_tokens (length buf_cmd) buf_cmd c) close)

  unfoldable pub parse_back : (i : ℕ) → List ℕ → Run Cmd
  parse_back i buf_cmd = then_do (parse_exec (take i buf_cmd)) (λ e. done (back_cmd_create e))

  abbrev pub plain : List ℕ → Run Cmd
  plain buf_cmd = then_do (parse_exec buf_cmd) (λ e. done (Cmd.exec_cmd e))

  -- The byte before the one at `i`; `before` is the byte in front of the buffer, if there is one.
  abbrev pub previous : (before : Option ℕ) → List ℕ → (i : ℕ) → Option ℕ
  previous before [] i = none
  previous before (b ∷ buf) zero = before
  previous before (b ∷ buf) (suc i) = previous (some b) buf i

  abbrev pub back_or_exec : List ℕ → (i : ℕ) → Option ℕ → Run Cmd
  back_or_exec buf_cmd i none = fault
  back_or_exec buf_cmd i (some b) = if b == b'>' then plain buf_cmd else parse_back i buf_cmd

  abbrev pub ampersand : Option ℕ → List ℕ → Option ℕ → Run Cmd
  ampersand before buf_cmd none = plain buf_cmd
  ampersand before buf_cmd (some i) = back_or_exec buf_cmd i (previous before buf_cmd i)

  unfoldable pub parse_cmd : (before : Option ℕ) → List ℕ → Run Cmd
  parse_cmd before [] = done Cmd.no_cmd
  parse_cmd before (b ∷ buf) = ampersand before (b ∷ buf) (block_contains (b ∷ buf) b'&')

  -- The pipe is overwritten by the null byte; `right_line` parses what stands behind it.
  abbrev pub at_pipe :
      (right_line : List ℕ → Run Cmd) → (before : Option ℕ) → List ℕ → Option ℕ → Run Cmd
  at_pipe right_line before buf none = parse_cmd before buf
  at_pipe right_line before buf (some i) =
      then_do (parse_cmd before (take i buf)) (λ left.
        then_do (right_line (drop (i + 1) buf)) (λ right. done (pipe_cmd_create left right)))

  -- The null byte then stands before the right side.
  unfoldable pub parse_line : ℕ → (before : Option ℕ) → List ℕ → Run Cmd
  parse_line zero before buf = exhausted
  parse_line (suc f) before buf =
      at_pipe (parse_line f (some 0)) before buf (block_contains buf b'|')
