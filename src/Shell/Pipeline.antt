-- ===== src/Shell/Pipeline.antt =====
-- shell/parsing.c: `parse_line` on simple commands that pipes join.
use mathlib.Core.Path.{ap₂}
use sistemas_operativos_1c.Base.{
  ℕ, zero, suc, ◌+◌, ◌≤◌, ◌<◌, ◌≡◌, refl, ap, ◌∙◌, List, [], ◌∷◌, ◌++◌, Option, some, ◌==◌, false,
  Run, done, then_do, length, take-append, arith,
}
use sistemas_operativos_1c.Shell.Types.{Cmd, pipe_cmd_create}
use sistemas_operativos_1c.Shell.Parsing.{
  space, parse_exec, parse_cmd, parse_line, ampersand, at_pipe,
}
use sistemas_operativos_1c.Shell.Words.{
  drop_word, Word, text, Without, Without-append, block_contains-Without, block_contains-append,
}
use sistemas_operativos_1c.Shell.Line.{
  line, behind, AllValid, effects, fresh, parse_exec-line, length-line,
}

-- A command has a first word.
abbrev pub Command : Type 0
Command = Word × List Word

abbrev pub words : Command → List Word
words (w, ws) = w ∷ ws

abbrev pub AllWithout : ℕ → List Word → Type 0
AllWithout k [] = Unit {0}
AllWithout k (w ∷ ws) = Without k (text w) × AllWithout k ws

-- A command that one line can hold and that names neither a pipe nor the background.
pub record Simple (c : Command) : Type 0 where
  pub valid : AllValid (words c)
  pub few : length (words c) < 20
  pub short : length (line (words c)) < 1024
  pub no_pipe : AllWithout b'|' (words c)
  pub no_background : AllWithout b'&' (words c)

abbrev pub AllSimple : Command → List Command → Type 0
AllSimple c [] = Simple c
AllSimple c (d ∷ ds) = Simple c × AllSimple d ds

-- The line as it is typed, and what it means.
abbrev pub typed : Command → List Command → List ℕ
typed c [] = line (words c)
typed c (d ∷ ds) = line (words c) ++ b'|' ∷ typed d ds

abbrev pub meaning : Command → Cmd
meaning c = Cmd.exec_cmd (effects (words c) (fresh (line (words c))))

abbrev pub piped : Command → List Command → Cmd
piped c [] = meaning c
piped c (d ∷ ds) = Cmd.pipe_cmd (meaning c) (piped d ds)

behind-Without :
    (k : ℕ) (ws : List Word) → (space == k) ≡ false → AllWithout k ws → Without k (behind ws)
behind-Without k [] e h = tt
behind-Without k (w ∷ ws) e (n, h) =
    (e, Without-append k (text w) (behind ws) n (behind-Without k ws e h))

line-Without :
    (k : ℕ) (c : Command)
    → (space == k) ≡ false
    → AllWithout k (words c)
    → Without k (line (words c))
line-Without k (w, ws) e (n, h) = Without-append k (text w) (behind ws) n (behind-Without k ws e h)

create-piped :
    (left : Cmd) (d : Command) (ds : List Command)
    → pipe_cmd_create left (piped d ds) ≡ Cmd.pipe_cmd left (piped d ds)
unfolding pipe_cmd_create
create-piped left d [] = refl
create-piped left d (e ∷ ds) = refl

module _ (getenv : List ℕ → Option (List ℕ)) (status : List ℕ) where
  parse_cmd-cons :
      (before : Option ℕ) (buf : List ℕ)
      → 1 ≤ length buf
      → Without b'&' buf
      → parse_cmd getenv status before buf
        ≡ then_do (parse_exec getenv status buf) (λ e. done (Cmd.exec_cmd e))
  unfolding parse_cmd
  parse_cmd-cons before [] some_byte h = absurd (omega arith)
  parse_cmd-cons before (b ∷ buf) some_byte h =
      ap (ampersand getenv status before (b ∷ buf)) (block_contains-Without (b ∷ buf) b'&' h)

  parse_cmd-meaning :
      (before : Option ℕ) (c : Command)
      → Simple c
      → parse_cmd getenv status before (line (words c)) ≡ done (meaning c)
  parse_cmd-meaning before c h =
      parse_cmd-cons before (line (words c)) (omega (arith, length-line (words c)))
        (line-Without b'&' c refl h.no_background)
      ∙ ap (λ r. then_do r (λ e. done (Cmd.exec_cmd e)))
          (parse_exec-line getenv status (words c) h.valid h.few h.short)

  parse_line-pipe :
      (f : ℕ) (before : Option ℕ) (left right : List ℕ)
      → Without b'|' left
      → parse_line getenv status (suc f) before (left ++ b'|' ∷ right)
        ≡ then_do (parse_cmd getenv status before left) (λ l.
          then_do (parse_line getenv status f (some 0) right) (λ r. done (pipe_cmd_create l r)))
  unfolding parse_line
  parse_line-pipe f before left right h =
      ap (at_pipe getenv status more before (left ++ b'|' ∷ right))
        (block_contains-append left right b'|' h)
      ∙ ap₂
          (λ xs ys.
            then_do (parse_cmd getenv status before xs)
              (λ l. then_do (more ys) (λ r. done (pipe_cmd_create l r))))
          (take-append left (b'|' ∷ right) (length left) refl)
          (drop_word (length left + 1) left (b'|' ∷ right) refl)
    where
      more : List ℕ → Run Cmd
      more = parse_line getenv status f (some 0)

  -- A line of simple commands that pipes join is parsed to those commands in pipes that nest to the right,
  -- with as much fuel as there are commands.
  pub parse_line-piped :
      (c : Command) (ds : List Command) (f : ℕ) (before : Option ℕ)
      → AllSimple c ds
      → length ds ≤ f
      → parse_line getenv status (suc f) before (typed c ds) ≡ done (piped c ds)
  unfolding parse_line
  parse_line-piped c [] f before h enough =
      ap (at_pipe getenv status (parse_line getenv status f (some 0)) before (line (words c)))
        (block_contains-Without (line (words c)) b'|' (line-Without b'|' c refl h.no_pipe))
      ∙ parse_cmd-meaning before c h
  parse_line-piped c (d ∷ ds) zero before h enough = absurd (omega arith)
  parse_line-piped c (d ∷ ds) (suc f) before (h, hs) enough =
      parse_line-pipe (suc f) before (line (words c)) (typed d ds)
        (line-Without b'|' c refl h.no_pipe)
      ∙ ap
          (λ r. then_do r (λ l.
            then_do (parse_line getenv status (suc f) (some 0) (typed d ds))
              (λ q. done (pipe_cmd_create l q))))
          (parse_cmd-meaning before c h)
      ∙ ap (λ r. then_do r (λ q. done (pipe_cmd_create (meaning c) q)))
          (parse_line-piped d ds f (some 0) hs (omega arith))
      ∙ ap done (create-piped (meaning c) d ds)
