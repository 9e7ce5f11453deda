-- ===== src/Shell/Tests.antt =====
-- shell/parsing.c: the theorems of the parser on a line with every kind of word.
use sistemas_operativos_1c.Base.{
  ℕ, ◌≡◌, ◌≢◌, refl, List, [], ◌∷◌, Option, none, done, exhausted, arith,
}
use sistemas_operativos_1c.Shell.Parsing.{parse_line, is_setting, block_contains}
use sistemas_operativos_1c.Shell.Words.{Word}
use sistemas_operativos_1c.Shell.Line.{line}
use sistemas_operativos_1c.Shell.Pipeline.{Command, Simple, typed, piped, parse_line-piped}
use sistemas_operativos_1c.Shell.Termination.{parse_line-ne-exhausted}

abbrev no_variables : List ℕ → Option (List ℕ)
no_variables name = none

abbrev status_text : List ℕ
status_text = b'0' ∷ []

-- A=1 ls -l <i >o 2>e
abbrev every_word : List Word
every_word =
    Word.setting b'A' [] (b'1' ∷ [])
    ∷ Word.argument b'l' (b's' ∷ [])
    ∷ Word.argument b'-' (b'l' ∷ [])
    ∷ Word.input_from (b'i' ∷ [])
    ∷ Word.output_to (b'o' ∷ [])
    ∷ Word.errors_to b'2' (b'e' ∷ [])
    ∷ []

abbrev pub list_files : Command
list_files = (Word.argument b'l' (b's' ∷ []), [])

abbrev pub count_lines : Command
count_lines = (Word.argument b'w' (b'c' ∷ []), Word.output_to (b'o' ∷ []) ∷ [])

pub list_files-Simple : Simple list_files
unfolding is_setting block_contains
list_files-Simple = record {
  valid = (
    record {
      no_space = (refl, (refl, tt));
      plain = ((refl, (refl, tt)), (refl, (refl, tt)), refl, refl);
    },
    tt,
  );
  few = omega arith;
  short = omega arith;
  no_pipe = ((refl, (refl, tt)), tt);
  no_background = ((refl, (refl, tt)), tt);
}

pub count_lines-Simple : Simple count_lines
unfolding is_setting block_contains
count_lines-Simple = record {
  valid = (
    record {
      no_space = (refl, (refl, tt));
      plain = ((refl, (refl, tt)), (refl, (refl, tt)), refl, refl);
    },
    (record { no_space = (refl, (refl, tt)); plain = tt }, tt),
  );
  few = omega arith;
  short = omega arith;
  no_pipe = ((refl, (refl, tt)), ((refl, (refl, tt)), tt));
  no_background = ((refl, (refl, tt)), ((refl, (refl, tt)), tt));
}

parse_line-piped_example :
    parse_line no_variables status_text 2 none (typed list_files (count_lines ∷ []))
    ≡ done (piped list_files (count_lines ∷ []))
parse_line-piped_example =
    parse_line-piped no_variables status_text list_files (count_lines ∷ []) 1 none
      (list_files-Simple, count_lines-Simple) (omega arith)

parse_line-ne-exhausted_example :
    parse_line no_variables status_text 100 none (line every_word) ≢ exhausted
parse_line-ne-exhausted_example =
    parse_line-ne-exhausted no_variables status_text 99 none (line every_word) (omega arith)
