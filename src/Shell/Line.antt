-- ===== src/Shell/Line.antt =====
-- shell/parsing.c: `parse_exec` on a line of words that stand one space apart.
use sistemas_operativos_1c.Base.{
  ℕ, zero, suc, ◌+◌, ◌≤◌, ◌<◌, ◌≡◌, refl, ap, ◌∙◌, List, [], ◌∷◌, ◌++◌, Option, done, then_do,
  false, leb, length, length-append, drop, arith,
}
use sistemas_operativos_1c.Shell.Types.{CmdType, ExecCmd, maxargs, buflen, exec_cmd_create}
use sistemas_operativos_1c.Shell.Parsing.{space, parse_token, parse_tokens, parse_exec, close}
use sistemas_operativos_1c.Shell.Words.{
  Word, Valid, text, effect, Ends, parse_tokens-word, parse_token-effect,
}

abbrev pub behind : List Word → List ℕ
behind [] = []
behind (w ∷ ws) = space ∷ (text w ++ behind ws)

-- The line as it is typed.
abbrev pub line : List Word → List ℕ
line [] = []
line (w ∷ ws) = text w ++ behind ws

abbrev pub AllValid : List Word → Type 0
AllValid [] = Unit {0}
AllValid (w ∷ ws) = Valid w × AllValid ws

abbrev pub effects : List Word → ExecCmd → ExecCmd
effects [] c = c
effects (w ∷ ws) c = effects ws (effect w c)

-- A command of which only the text is known.
abbrev pub fresh : List ℕ → ExecCmd
fresh buf_cmd = record {
  type_ = CmdType.exec;
  scmd = buf_cmd;
  argv = [];
  eargv = [];
  out_file = [];
  in_file = [];
  err_file = [];
}

drop_space : (ws : List Word) → drop 1 (behind ws) ≡ line ws
drop_space [] = refl
drop_space (w ∷ ws) = refl

behind-Ends : (ws : List Word) → Ends (behind ws)
behind-Ends [] = tt
behind-Ends (w ∷ ws) = refl

length-behind : (ws : List Word) → length (line ws) ≤ length (behind ws)
length-behind [] = omega arith
length-behind (w ∷ ws) = omega arith

effect_argv : (w : Word) (c : ExecCmd) → length (effect w c).argv ≤ length c.argv + 1
effect_argv (Word.argument b bs) c = omega (arith, length-append c.argv ((b ∷ bs) ∷ []))
effect_argv (Word.output_to file) c = omega arith
effect_argv (Word.input_from file) c = omega arith
effect_argv (Word.errors_to digit file) c = omega arith
effect_argv (Word.setting k key value) c = omega arith

effect_eargv : (w : Word) (c : ExecCmd) → length (effect w c).eargv ≤ length c.eargv + 1
effect_eargv (Word.argument b bs) c = omega arith
effect_eargv (Word.output_to file) c = omega arith
effect_eargv (Word.input_from file) c = omega arith
effect_eargv (Word.errors_to digit file) c = omega arith
effect_eargv (Word.setting k key value) c =
    omega (arith, length-append c.eargv ((k ∷ (key ++ b'=' ∷ value)) ∷ []))

effects_argv :
    (ws : List Word) (c : ExecCmd) → length (effects ws c).argv ≤ length c.argv + length ws
effects_argv [] c = omega arith
effects_argv (w ∷ ws) c = omega (arith, effects_argv ws (effect w c), effect_argv w c)

length-text : (w : Word) → 1 ≤ length (text w)
length-text (Word.argument b bs) = omega arith
length-text (Word.output_to file) = omega arith
length-text (Word.input_from file) = omega arith
length-text (Word.errors_to digit file) = omega arith
length-text (Word.setting k key value) = omega arith

pub length-line : (ws : List Word) → length ws ≤ length (line ws)
length-line [] = omega arith
length-line (w ∷ ws) =
    omega
      (arith, length-append (text w) (behind ws), length-text w, length-line ws, length-behind ws)

module _ (getenv : List ℕ → Option (List ℕ)) (status : List ℕ) where
  -- One round of the loop, for each kind of word.
  parse_tokens-text :
      (f : ℕ) (w : Word) (rest : List ℕ) (c : ExecCmd)
      → Valid w
      → length (text w) < 1024
      → Ends rest
      → parse_tokens getenv status (suc f) (text w ++ rest) c
        ≡ then_do
            (parse_token getenv status c (text w))
            (λ c'. parse_tokens getenv status f (drop 1 rest) c')
  parse_tokens-text f (Word.argument b bs) rest c v low e =
      parse_tokens-word getenv status f b bs rest c v.no_space low e
  parse_tokens-text f (Word.output_to file) rest c v low e =
      parse_tokens-word getenv status f b'>' file rest c v.no_space low e
  parse_tokens-text f (Word.input_from file) rest c v low e =
      parse_tokens-word getenv status f b'<' file rest c v.no_space low e
  parse_tokens-text f (Word.errors_to digit file) rest c v low e =
      parse_tokens-word getenv status f digit (b'>' ∷ file) rest c v.no_space low e
  parse_tokens-text f (Word.setting k key value) rest c v low e =
      parse_tokens-word getenv status f k (key ++ b'=' ∷ value) rest c v.no_space low e

  parse_tokens-line :
      (f : ℕ) (ws : List Word) (c : ExecCmd)
      → AllValid ws
      → length c.argv + length ws ≤ 20
      → length c.eargv + length ws ≤ 20
      → length ws ≤ f
      → length (line ws) < 1024
      → parse_tokens getenv status f (line ws) c ≡ done (effects ws c)
  unfolding parse_tokens
  parse_tokens-line zero [] c v room eroom fuel low = refl
  parse_tokens-line (suc f) [] c v room eroom fuel low = refl
  parse_tokens-line zero (w ∷ ws) c v room eroom fuel low = absurd (omega arith)
  parse_tokens-line (suc f) (w ∷ ws) c (v, vs) room eroom fuel low =
      let size = length-append (text w) (behind ws) in
      parse_tokens-text f w (behind ws) c v (omega (arith, size)) (behind-Ends ws)
      ∙ ap (λ r. then_do r (λ c'. parse_tokens getenv status f (drop 1 (behind ws)) c'))
          (parse_token-effect getenv status w c v (omega arith) (omega arith))
      ∙ ap (λ xs. parse_tokens getenv status f xs (effect w c)) (drop_space ws)
      ∙ parse_tokens-line f ws (effect w c) vs (omega (arith, effect_argv w c))
          (omega (arith, effect_eargv w c)) (omega arith) (omega (arith, size, length-behind ws))

  pub parse_exec-line :
      (ws : List Word)
      → AllValid ws
      → length ws < 20
      → length (line ws) < 1024
      → parse_exec getenv status (line ws) ≡ done (effects ws (fresh (line ws)))
  unfolding parse_exec exec_cmd_create
  parse_exec-line ws v few low =
      let short : leb buflen (length (line ws)) ≡ false = ground arith in
      let closed : leb maxargs (length (effects ws (fresh (line ws))).argv) ≡ false =
        ground (arith, effects_argv ws (fresh (line ws))) in
      rw short (
        ap (λ r. then_do r close)
          (parse_tokens-line (length (line ws)) ws (fresh (line ws)) v (omega arith) (omega arith)
            (length-line ws) low)
        ∙ rw closed)
