-- ===== src/Clib/Printf/Pieces.antt =====
-- sched/lib/printfmt.c: a format that is put together from texts and directives prints what they stand for.
use sistemas_operativos_1c.Base.{
  ℕ, zero, suc, ◌+◌, ◌-◌, ◌≤◌, ◌<◌, ◌≡◌, ◌≢◌, refl, ap, ◌∙◌, false, List, [], ◌∷◌, ◌++◌, none, some,
  map, length, replicate, done, then_do, arith, ◌==◌,
}
use sistemas_operativos_1c.Base.Int.{ℤ, pos, negsuc}
use sistemas_operativos_1c.Clib.Numerals.{written, value, AllBelow}
use sistemas_operativos_1c.Clib.Printnum.{printnum, printnum-Printed}
use sistemas_operativos_1c.Clib.Printf.{
  Arg, word, text, no_flags, signed, directive, flag_case, convert, resume, put_signed, put_string,
  number, vprintfmt, prints,
}

-- A directive without flags, with the value for it.
pub data Directive : Type 0 where
  percent : Directive
  char decimal unsigned octal hex : (w : ℕ) → Directive
  string : List ℕ → Directive

-- A text without a %, or a directive.
pub data Piece : Type 0 where
  plain : List ℕ → Piece
  escape : Directive → Piece

abbrev pub letter : Directive → ℕ
letter percent = b'%'
letter (char w) = b'c'
letter (decimal w) = b'd'
letter (unsigned w) = b'u'
letter (octal w) = b'o'
letter (hex w) = b'x'
letter (string s) = b's'

abbrev pub with_arg : Directive → List Arg → List Arg
with_arg percent args = args
with_arg (char w) args = word w ∷ args
with_arg (decimal w) args = word w ∷ args
with_arg (unsigned w) args = word w ∷ args
with_arg (octal w) args = word w ∷ args
with_arg (hex w) args = word w ∷ args
with_arg (string s) args = text (some s) ∷ args

-- How the piece is written in a format.
abbrev pub spelled : Piece → List ℕ
spelled (plain s) = s
spelled (escape d) = b'%' ∷ letter d ∷ []

abbrev pub args_of : Piece → List Arg → List Arg
args_of (plain s) args = args
args_of (escape d) args = with_arg d args

abbrev pub format : List Piece → List ℕ
format [] = []
format (p ∷ ps) = spelled p ++ format ps

abbrev pub arguments : List Piece → List Arg
arguments [] = []
arguments (p ∷ ps) = args_of p (arguments ps)

-- `out` is `num` in positional notation.
abbrev pub IsNumeral : (base num : ℕ) → (out : List ℕ) → Type 0
IsNumeral base num out =
    (dig : ℕ) × (ds : List ℕ) × (out ≡ map written (dig ∷ ds))
    × AllBelow base (dig ∷ ds)
    × (value base 0 (dig ∷ ds) ≡ num)

abbrev pub IsSigned : ℤ → (out : List ℕ) → Type 0
IsSigned (pos n) out = IsNumeral 10 n out
IsSigned (negsuc n) out = (rest : List ℕ) × (out ≡ b'-' ∷ rest) × IsNumeral 10 (n + 1) rest

-- What a directive stands for.
abbrev pub Stands : Directive → (out : List ℕ) → Type 0
Stands percent out = out ≡ b'%' ∷ []
Stands (char w) out = out ≡ w ∷ []
Stands (decimal w) out = IsSigned (signed 32 w) out
Stands (unsigned w) out = IsNumeral 10 w out
Stands (octal w) out = IsNumeral 8 w out
Stands (hex w) out = IsNumeral 16 w out
Stands (string s) out = out ≡ s

abbrev pub Shows : Piece → (out : List ℕ) → Type 0
Shows (plain s) out = out ≡ s
Shows (escape d) out = Stands d out

abbrev pub ShowsAll : List Piece → (out : List ℕ) → Type 0
ShowsAll [] out = out ≡ []
ShowsAll (p ∷ ps) out =
    (first : List ℕ) × (rest : List ℕ) × (out ≡ first ++ rest) × Shows p first × ShowsAll ps rest

abbrev pub NoPercent : List ℕ → Type 0
NoPercent [] = Unit {0}
NoPercent (x ∷ xs) = (x ≢ b'%') × NoPercent xs

abbrev pub IsPlain : List Piece → Type 0
IsPlain [] = Unit {0}
IsPlain (plain s ∷ ps) = NoPercent s × IsPlain ps
IsPlain (escape d ∷ ps) = IsPlain ps

number_lem :
    (num base : ℕ)
    → 2 ≤ base
    → base ≤ 16
    → (out : List ℕ) × (number no_flags num base ≡ done out) × IsNumeral base num out
number_lem num base two small =
    let (k, dig, ds, e, all, v, pads) =
      printnum-Printed num num base 0 b' ' two small (omega arith) in
    let none_left : k ≡ 0 = omega arith in
    let fuel : num + 1 ≡ suc num = omega arith in
    (
      map written (dig ∷ ds),
      ap (λ (f : ℕ). printnum f num base 0 b' ') fuel
          ∙ e
          ∙ ap (λ (n : ℕ). done (replicate n b' ' ++ map written (dig ∷ ds))) none_left,
      (dig, ds, refl, all, v),
    )

signed_lem : (z : ℤ) → (out : List ℕ) × (put_signed no_flags z ≡ done out) × IsSigned z out
signed_lem (pos n) = number_lem n 10 (omega arith) (omega arith)
signed_lem (negsuc n) =
    let (out, e, numeral) = number_lem (n + 1) 10 (omega arith) (omega arith) in
    (b'-' ∷ out, ap (λ r. then_do r (λ rest. done (b'-' ∷ rest))) e, (out, refl, numeral))

-- A directive prints what it stands for, and takes its argument.
abbrev Converts : Directive → List Arg → Type 0
Converts d args =
    (out : List ℕ) × (convert no_flags (letter d) (with_arg d args) ≡ done (some (out, args)))
    × Stands d out

number_converts :
    (num base : ℕ) (args : List Arg)
    → 2 ≤ base
    → base ≤ 16
    → (out : List ℕ) × (prints (number no_flags num base) args ≡ done (some (out, args)))
      × IsNumeral base num out
number_converts num base args two small =
    let (out, e, numeral) = number_lem num base two small in
    (out, ap (λ r. prints r args) e, numeral)

map-same : (s : List ℕ) → map (λ (ch : ℕ). ch) s ≡ s
map-same [] = refl
map-same (ch ∷ s) = ap (λ t. ch ∷ t) (map-same s)

put_string_plain : (s : List ℕ) → put_string no_flags s ≡ s
put_string_plain s =
    let no_pads : 0 - length s ≡ 0 = omega arith in
    ap (λ (n : ℕ). replicate n b' ' ++ map (λ (ch : ℕ). ch) s) no_pads ∙ map-same s

converts : (d : Directive) (args : List Arg) → Converts d args
unfolding convert
converts percent args = (b'%' ∷ [], refl, refl)
converts (char w) args = (w ∷ [], refl, refl)
converts (decimal w) args =
    let (out, e, shown) = signed_lem (signed 32 w) in (out, ap (λ r. prints r args) e, shown)
converts (unsigned w) args = number_converts w 10 args (omega arith) (omega arith)
converts (octal w) args = number_converts w 8 args (omega arith) (omega arith)
converts (hex w) args = number_converts w 16 args (omega arith) (omega arith)
converts (string s) args = (s, ap (λ t. done (some (t, args))) (put_string_plain s), refl)

-- Printing the format `fmt`, with enough fuel, gives a text with `P`.
abbrev PrintsTo : (fmt : List ℕ) → List Arg → (List ℕ → Type 0) → Type 0
PrintsTo fmt args P =
    (f : ℕ) → length fmt < f → (out : List ℕ) × (vprintfmt f fmt args ≡ done out) × P out

plain_lem :
    (s fmt : List ℕ) (args : List Arg) (P : List ℕ → Type 0)
    → NoPercent s
    → PrintsTo fmt args P
    → PrintsTo (s ++ fmt) args (λ out. (rest : List ℕ) × (out ≡ s ++ rest) × P rest)
unfolding vprintfmt
plain_lem [] fmt args P no_percent next f enough =
    let (out, e, p) = next f enough in (out, e, (out, refl, p))
plain_lem (x ∷ s) fmt args P no_percent next zero enough = absurd (omega arith)
plain_lem (x ∷ s) fmt args P (ne, no_percent) next (suc f) enough =
    let (out, e, (rest, split, p)) = plain_lem s fmt args P no_percent next f (omega arith) in
    let other : (x == b'%') ≡ false = ground arith in
    (
      x ∷ out,
      rw other (ap (λ r. then_do r (λ o. done (x ∷ o))) e),
      (rest, ap (λ o. x ∷ o) split, p),
    )

directive_lem :
    (d : Directive) (fmt : List ℕ) (args : List Arg)
    → directive no_flags none (letter d ∷ fmt) args ≡ done (no_flags, letter d, fmt, args)
unfolding directive flag_case
directive_lem percent fmt args = refl
directive_lem (char w) fmt args = refl
directive_lem (decimal w) fmt args = refl
directive_lem (unsigned w) fmt args = refl
directive_lem (octal w) fmt args = refl
directive_lem (hex w) fmt args = refl
directive_lem (string s) fmt args = refl

escape_lem :
    (d : Directive) (fmt : List ℕ) (args : List Arg) (P : List ℕ → Type 0)
    → PrintsTo fmt args P
    → PrintsTo (b'%' ∷ letter d ∷ fmt) (with_arg d args) (λ out.
      (first : List ℕ) × (rest : List ℕ) × (out ≡ first ++ rest) × Stands d first × P rest)
unfolding vprintfmt
escape_lem d fmt args P next zero enough = absurd (omega arith)
escape_lem d fmt args P next (suc f) enough =
    let (first, shown, stands) = converts d args in
    let (rest, printed, holds) = next f (omega arith) in
    let start = letter d ∷ fmt in
    (
      first ++ rest,
      ap
            (λ r. then_do r (λ (fl, conv, rest', args').
              then_do (convert fl conv args') (λ o. resume start rest' args' o (vprintfmt f))))
            (directive_lem d fmt (with_arg d args))
          ∙ ap (λ c. then_do c (λ o. resume start fmt (with_arg d args) o (vprintfmt f))) shown
          ∙ ap (λ r. then_do r (λ out. done (first ++ out))) printed,
      (first, rest, refl, stands, holds),
    )

-- A format of texts without a % and of simple directives, with the values for these in order, is printed in full,
-- with one unit of fuel more than it has bytes, as the texts and the numerals of the values one after the other.
pub vprintfmt-ShowsAll :
    (ps : List Piece)
    → IsPlain ps
    → (f : ℕ) → length (format ps) < f
    → (out : List ℕ) × (vprintfmt f (format ps) (arguments ps) ≡ done out) × ShowsAll ps out
unfolding vprintfmt
vprintfmt-ShowsAll [] ok zero enough = absurd (omega arith)
vprintfmt-ShowsAll [] ok (suc f) enough = ([], refl, refl)
vprintfmt-ShowsAll (plain s ∷ ps) (no_percent, ok) f enough =
    let (out, e, (rest, split, shown)) =
      plain_lem s (format ps) (arguments ps) (ShowsAll ps) no_percent (vprintfmt-ShowsAll ps ok) f
        enough in
    (out, e, (s, rest, split, refl, shown))
vprintfmt-ShowsAll (escape d ∷ ps) ok f enough =
    escape_lem d (format ps) (arguments ps) (ShowsAll ps) (vprintfmt-ShowsAll ps ok) f enough
