-- ===== src/Shell/Termination.antt =====
-- shell/parsing.c: the fuel of the parser.
use sistemas_operativos_1c.Base.{
  ℕ, zero, suc, ◌+◌, ◌≤◌, ◌≢◌, refl, inl, inr, List, [], ◌∷◌, Bool, true, false, Option, none, some,
  Run, done, fault, exhausted, then_do, if◌then◌else◌, ◌==◌, leb, length, take, drop, length-drop,
  arith, Bool-cases,
}
use sistemas_operativos_1c.Shell.Types.{ExecCmd, Cmd, maxargs, argsize, exec_cmd_create, buflen}
use sistemas_operativos_1c.Shell.Parsing.{
  block_contains, copied, get_token, parse_redir_flow, is_setting, parse_environ_var, add_argument,
  close, after_redir, after_environ, parse_token, parse_tokens, parse_exec, parse_back, plain,
  previous, back_or_exec, ampersand, parse_cmd, at_pipe, parse_line,
}

module _ {ℓ κ} {A : Type ℓ} {B : Type κ} where
  pub then_do-ne :
      (r : Run A) (k : A → Run B)
      → r ≢ exhausted
      → ((a : A) → k a ≢ exhausted)
      → then_do r k ≢ exhausted
  then_do-ne (done a) k h g = g a
  then_do-ne fault k h g = λ e. cc
  then_do-ne exhausted k h g = absurd (h refl)

module _ {ℓ} {A : Type ℓ} where
  guarded-ne : (b : Bool) (a : A) → (if b then fault else done a) ≢ exhausted
  guarded-ne true a = λ e. cc
  guarded-ne false a = λ e. cc

add_argument-ne : (c : ExecCmd) (tok : List ℕ) → add_argument c tok ≢ exhausted
unfolding add_argument
add_argument-ne c [] = λ e. cc
add_argument-ne c (b ∷ tok) = guarded-ne (leb maxargs (length c.argv)) _

module _ (getenv : List ℕ → Option (List ℕ)) (status : List ℕ) where
  after_environ-ne :
      (c : ExecCmd) (tok : List ℕ)
      → after_environ getenv status c tok (parse_environ_var c tok) ≢ exhausted
  unfolding parse_environ_var
  after_environ-ne c tok = elim (Bool-cases (is_setting tok)) [
    | inl yes_it ↦ rw yes_it (guarded-ne (leb maxargs (length c.eargv)) _)
    | inr no_it ↦ rw no_it (add_argument-ne c _)
  ]

  after_redir-ne :
      (c : ExecCmd) (tok : List ℕ) (o : Option ExecCmd)
      → after_redir getenv status c tok o ≢ exhausted
  after_redir-ne c tok none = after_environ-ne c tok
  after_redir-ne c tok (some c') = λ e. cc

  parse_tokens-ne :
      (f : ℕ) (buf : List ℕ) (c : ExecCmd)
      → length buf ≤ f
      → parse_tokens getenv status f buf c ≢ exhausted
  unfolding parse_tokens get_token parse_token
  parse_tokens-ne zero [] c enough = λ e. cc
  parse_tokens-ne (suc f) [] c enough = λ e. cc
  parse_tokens-ne zero (b ∷ buf) c enough = absurd (omega arith)
  parse_tokens-ne (suc f) (b ∷ buf) c enough =
      then_do-ne (get_token (b ∷ buf)) _ (guarded-ne (leb argsize (length (copied (b ∷ buf)))) _)
        (λ tok.
          then_do-ne (parse_token getenv status c tok) _
            (after_redir-ne c tok (parse_redir_flow c tok))
            (λ c'.
              parse_tokens-ne f (drop (length tok + 1) (b ∷ buf)) c'
                (omega (arith, length-drop (length tok + 1) (b ∷ buf)))))

  parse_exec-ne : (buf : List ℕ) → parse_exec getenv status buf ≢ exhausted
  unfolding parse_exec exec_cmd_create
  parse_exec-ne buf =
      then_do-ne (exec_cmd_create buf) _ (guarded-ne (leb buflen (length buf)) _) (λ c.
        then_do-ne (parse_tokens getenv status (length buf) buf c) close
          (parse_tokens-ne (length buf) buf c (omega arith))
          (λ c'. guarded-ne (leb maxargs (length c'.argv)) c'))

  plain-ne : (buf : List ℕ) → plain getenv status buf ≢ exhausted
  plain-ne buf = then_do-ne (parse_exec getenv status buf) _ (parse_exec-ne buf) (λ c e. cc)

  parse_back-ne : (i : ℕ) (buf : List ℕ) → parse_back getenv status i buf ≢ exhausted
  unfolding parse_back
  parse_back-ne i buf =
      then_do-ne (parse_exec getenv status (take i buf)) _ (parse_exec-ne (take i buf)) (λ c e. cc)

  back_or_exec-ne :
      (buf : List ℕ) (i : ℕ) (o : Option ℕ) → back_or_exec getenv status buf i o ≢ exhausted
  back_or_exec-ne buf i none = λ e. cc
  back_or_exec-ne buf i (some b) = elim (Bool-cases (b == b'>')) [
    | inl arrow ↦ rw arrow (plain-ne buf)
    | inr other ↦ rw other (parse_back-ne i buf)
  ]

  ampersand-ne :
      (before : Option ℕ) (buf : List ℕ) (o : Option ℕ)
      → ampersand getenv status before buf o ≢ exhausted
  ampersand-ne before buf none = plain-ne buf
  ampersand-ne before buf (some i) = back_or_exec-ne buf i (previous getenv status before buf i)

  parse_cmd-ne : (before : Option ℕ) (buf : List ℕ) → parse_cmd getenv status before buf ≢ exhausted
  unfolding parse_cmd
  parse_cmd-ne before [] = λ e. cc
  parse_cmd-ne before (b ∷ buf) = ampersand-ne before (b ∷ buf) (block_contains (b ∷ buf) b'&')

  at_pipe-ne :
      (more : List ℕ → Run Cmd) (before : Option ℕ) (buf : List ℕ) (o : Option ℕ)
      → ((i : ℕ) → more (drop (i + 1) buf) ≢ exhausted)
      → at_pipe getenv status more before buf o ≢ exhausted
  at_pipe-ne more before buf none h = parse_cmd-ne before buf
  at_pipe-ne more before buf (some i) h =
      then_do-ne (parse_cmd getenv status before (take i buf)) _ (parse_cmd-ne before (take i buf))
        (λ left. then_do-ne (more (drop (i + 1) buf)) _ (h i) (λ right e. cc))

  fuel_left : (f i : ℕ) (buf : List ℕ) → length buf ≤ suc f → length (drop (i + 1) buf) ≤ f
  fuel_left f i buf h = omega (arith, length-drop (i + 1) buf)

  -- Parsing ends on every line, with a command, with none or at a fault: one unit of fuel more than the line
  -- has bytes is never used up.
  pub parse_line-ne-exhausted :
      (f : ℕ) (before : Option ℕ) (buf : List ℕ)
      → length buf ≤ f
      → parse_line getenv status (suc f) before buf ≢ exhausted
  unfolding parse_line block_contains
  parse_line-ne-exhausted f before [] enough = parse_cmd-ne before []
  parse_line-ne-exhausted zero before (b ∷ buf) enough = absurd (omega arith)
  parse_line-ne-exhausted (suc f) before (b ∷ buf) enough =
      at_pipe-ne (parse_line getenv status (suc f) (some 0)) before (b ∷ buf)
        (block_contains (b ∷ buf) b'|')
        (λ i.
          parse_line-ne-exhausted f (some 0) (drop (i + 1) (b ∷ buf))
            (fuel_left f i (b ∷ buf) enough))
