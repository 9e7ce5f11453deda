-- ===== src/Shell/Words.antt =====
-- shell/parsing.c: the words of a simple command line, one by one.
use sistemas_operativos_1c.Base.{
  ℕ, zero, suc, ◌+◌, ◌<◌, ◌≡◌, refl, ap, ◌∙◌, List, [], ◌∷◌, ◌++◌, true, false, Option, none, some,
  done, then_do, leb, ltb, ◌==◌, length, drop, arith,
}
use sistemas_operativos_1c.Shell.Types.{CmdType, ExecCmd, maxargs, argsize}
use sistemas_operativos_1c.Shell.Parsing.{
  space, block_contains, copied, get_token, parse_redir_flow, is_setting, parse_environ_var,
  expand_environ_var, add_argument, parse_token, parse_tokens, after_redir,
}

-- No byte of the string is `k`.
abbrev pub Without : ℕ → List ℕ → Type 0
Without k [] = Unit {0}
Without k (b ∷ bs) = ((b == k) ≡ false) × Without k bs

pub block_contains-Without : (bs : List ℕ) (k : ℕ) → Without k bs → block_contains bs k ≡ none
unfolding block_contains
block_contains-Without [] k h = refl
block_contains-Without (b ∷ bs) k (e, h) = rw (e, block_contains-Without bs k h)

-- The first `k` stands where the string without it ends.
pub block_contains-append :
    (bs cs : List ℕ) (k : ℕ) → Without k bs → block_contains (bs ++ k ∷ cs) k ≡ some (length bs)
unfolding block_contains
block_contains-append [] cs k h = let same : (k == k) ≡ true = ground arith in rw same
block_contains-append (b ∷ bs) cs k (e, h) =
    let next : length bs + 1 ≡ suc (length bs) = omega arith in
    rw (e, block_contains-append bs cs k h) (ap some next)

pub Without-append : (k : ℕ) (bs cs : List ℕ) → Without k bs → Without k cs → Without k (bs ++ cs)
Without-append k [] cs h g = g
Without-append k (b ∷ bs) cs (e, h) g = (e, Without-append k bs cs h g)

-- What stands behind a word: nothing, or a space.
abbrev pub Ends : List ℕ → Type 0
Ends [] = Unit {0}
Ends (b ∷ rest) = (b == space) ≡ true

copied-append : (bs rest : List ℕ) → Without space bs → Ends rest → copied (bs ++ rest) ≡ bs
copied-append [] [] h e = refl
copied-append [] (b ∷ rest) h e = rw e
copied-append (b ∷ bs) rest (n, h) e = rw n (ap (◌∷◌ b) (copied-append bs rest h e))

pub drop_word : (n : ℕ) (bs rest : List ℕ) → n ≡ length bs + 1 → drop n (bs ++ rest) ≡ drop 1 rest
drop_word zero bs rest e = absurd (omega arith)
drop_word (suc n) [] rest e = let one : suc n ≡ 1 = omega arith in ap (λ k. drop k rest) one
drop_word (suc n) (b ∷ bs) rest e = drop_word n bs rest (omega arith)

-- A round of the loop on a word that is not empty.
pub parse_tokens-word :
    (getenv : List ℕ → Option (List ℕ)) (status : List ℕ) (f b : ℕ) (bs rest : List ℕ) (c : ExecCmd)
    → Without space (b ∷ bs)
    → length (b ∷ bs) < argsize
    → Ends rest
    → parse_tokens getenv status (suc f) (b ∷ (bs ++ rest)) c
      ≡ then_do
          (parse_token getenv status c (b ∷ bs))
          (λ c'. parse_tokens getenv status f (drop 1 rest) c')
unfolding parse_tokens get_token
parse_tokens-word getenv status f b bs rest c h low e =
    let word : copied (b ∷ (bs ++ rest)) ≡ b ∷ bs = copied-append (b ∷ bs) rest h e in
    let fits : leb argsize (length (b ∷ bs)) ≡ false = ground arith in
    rw (word, fits)
      (ap
        (λ xs.
          then_do (parse_token getenv status c (b ∷ bs)) (λ c'. parse_tokens getenv status f xs c'))
        (drop_word (length (b ∷ bs) + 1) (b ∷ bs) rest refl))

-- The kinds of words, as a user writes them.
pub data Word : Type 0 where
  argument : (b : ℕ) → List ℕ → Word
  output_to input_from : List ℕ → Word
  errors_to : (digit : ℕ) → List ℕ → Word
  setting : (k : ℕ) → (key value : List ℕ) → Word

abbrev pub text : Word → List ℕ
text (Word.argument b bs) = b ∷ bs
text (Word.output_to file) = b'>' ∷ file
text (Word.input_from file) = b'<' ∷ file
text (Word.errors_to digit file) = digit ∷ b'>' ∷ file
text (Word.setting k key value) = k ∷ (key ++ b'=' ∷ value)

-- An argument that is no variable holds no redirection and no setting; the other words hold nothing that
-- the parser would take for another kind first.
abbrev Plain : Word → Type 0
Plain (Word.argument b bs) =
    Without b'>' (b ∷ bs)
    × Without b'<' (b ∷ bs)
    × (is_setting (b ∷ bs) ≡ false)
    × ((b == b'$') ≡ false)
Plain (Word.output_to file) = Unit {0}
Plain (Word.input_from file) = Without b'>' file
Plain (Word.errors_to digit file) = (digit == b'>') ≡ false
Plain (Word.setting k key value) =
    Without b'>' (k ∷ (key ++ b'=' ∷ value))
    × Without b'<' (k ∷ (key ++ b'=' ∷ value))
    × Without b'=' (k ∷ key)
    × Without b'-' (k ∷ (key ++ b'=' ∷ value))

pub record Valid (w : Word) : Type 0 where
  pub no_space : Without space (text w)
  pub plain : Plain w

-- What a word means.
abbrev pub effect : Word → ExecCmd → ExecCmd
effect (Word.argument b bs) c = record c { argv = c.argv ++ (b ∷ bs) ∷ [] }
effect (Word.output_to file) c = record c { out_file = file; type_ = CmdType.redir }
effect (Word.input_from file) c = record c { in_file = file; type_ = CmdType.redir }
effect (Word.errors_to digit file) c = record c { err_file = file; type_ = CmdType.redir }
effect (Word.setting k key value) c = record c {
  eargv = c.eargv ++ (k ∷ (key ++ b'=' ∷ value)) ∷ [];
}

no_redir :
    (c : ExecCmd) (bs : List ℕ) → Without b'>' bs → Without b'<' bs → parse_redir_flow c bs ≡ none
unfolding parse_redir_flow
no_redir c bs no_out no_in =
    rw (block_contains-Without bs b'>' no_out, block_contains-Without bs b'<' no_in)

setting_found :
    (k : ℕ) (key value : List ℕ)
    → Without b'=' (k ∷ key)
    → Without b'-' (k ∷ (key ++ b'=' ∷ value))
    → is_setting (k ∷ (key ++ b'=' ∷ value)) ≡ true
unfolding is_setting
setting_found k key value no_equals no_dash =
    let later : ltb 0 (length (k ∷ key)) ≡ true = ground arith in
    rw (
      block_contains-append (k ∷ key) value b'=' no_equals,
      block_contains-Without (k ∷ (key ++ b'=' ∷ value)) b'-' no_dash,
      later,
    )

-- The parser does with a word what the word means, while there is room.
pub parse_token-effect :
    (getenv : List ℕ → Option (List ℕ)) (status : List ℕ) (w : Word) (c : ExecCmd)
    → Valid w
    → length c.argv < maxargs
    → length c.eargv < maxargs
    → parse_token getenv status c (text w) ≡ done (effect w c)
unfolding parse_token parse_redir_flow parse_environ_var expand_environ_var add_argument
parse_token-effect getenv status (Word.argument b bs) c v room eroom =
    let (no_out, no_in, no_set, no_var) = v.plain in
    let fits : leb maxargs (length c.argv) ≡ false = ground arith in
    ap (after_redir getenv status c (b ∷ bs)) (no_redir c (b ∷ bs) no_out no_in)
    ∙ rw (no_set, no_var, fits)
parse_token-effect getenv status (Word.output_to file) c v room eroom =
    rw (block_contains-append [] file b'>' tt)
parse_token-effect getenv status (Word.input_from file) c v room eroom = rw (
  block_contains-Without (b'<' ∷ file) b'>' (refl, v.plain),
  block_contains-append [] file b'<' tt,
)
parse_token-effect getenv status (Word.errors_to digit file) c v room eroom =
    rw (block_contains-append (digit ∷ []) file b'>' (v.plain, tt))
parse_token-effect getenv status (Word.setting k key value) c v room eroom =
    let (no_out, no_in, no_equals, no_dash) = v.plain in
    let fits : leb maxargs (length c.eargv) ≡ false = ground arith in
    ap (after_redir getenv status c (k ∷ (key ++ b'=' ∷ value)))
      (no_redir c (k ∷ (key ++ b'=' ∷ value)) no_out no_in)
    ∙ rw (setting_found k key value no_equals no_dash, fits)
