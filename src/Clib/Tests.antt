-- ===== src/Clib/Tests.antt =====
-- sched/lib/string.c: the theorems of the routines on small blocks and strings.
use sistemas_operativos_1c.Base.{
  done, refl, some, ℕ, ◌+◌, ◌-◌, ◌≡◌, List, [], ◌∷◌, ◌++◌, true, Array, min, length, take,
  replicate, arith,
}
use sistemas_operativos_1c.Base.Int.{pos, negsuc}
use sistemas_operativos_1c.Clib.Memory.{memmove}
use sistemas_operativos_1c.Clib.Moves.{moved, memmove-moved}
use sistemas_operativos_1c.Clib.Strtol.{strtol, digit}
use sistemas_operativos_1c.Clib.Numerals.{Stops, numeral, strtol-numeral}
use sistemas_operativos_1c.Clib.Text.{strlcpy}
use sistemas_operativos_1c.Clib.Bounded.{ended, strlcpy-bounded}
use sistemas_operativos_1c.Clib.Printnum.{printnum, strtol-printnum}
use sistemas_operativos_1c.Clib.Printf.{word, text, directive, flag_case, convert, vprintfmt, codes}
use sistemas_operativos_1c.Clib.Printf.Pieces.{
  Piece, plain, escape, percent, decimal, hex, string, format, arguments, ShowsAll,
  vprintfmt-ShowsAll,
}
use sistemas_operativos_1c.Clib.Printnum.{printnum}

abbrev counting : Array ℕ
counting i = i

-- The blocks overlap.
memmove-moved_example : memmove counting 12 10 5 14 ≡ moved counting 12 10 5 14
memmove-moved_example = memmove-moved counting 12 10 5 14

comma_Stops : Stops 10 (b',' ∷ [])
unfolding digit
comma_Stops dig h = cc

-- Two spaces, then -42 in front of a comma.
strtol-numeral_example :
    strtol (replicate 2 b' ' ++ (numeral true (4 ∷ 2 ∷ []) ++ b',' ∷ [])) 10
    ≡ (negsuc 41, b',' ∷ [])
strtol-numeral_example =
    strtol-numeral 10 true 2 4 (2 ∷ []) (b',' ∷ []) (omega arith) (omega arith)
      (λ e. absurd (omega arith)) (omega arith, (omega arith, tt)) comma_Stops (omega arith)

abbrev name : List ℕ
name = b'n' ∷ b'a' ∷ b'm' ∷ b'e' ∷ []

strlcpy-bounded_example :
    ((i : ℕ) → (strlcpy counting 7 name 3).0 i ≡ ended counting 7 (take (3 - 1) name) i)
    × ((strlcpy counting 7 name 3).1 ≡ min (3 - 1) (length name))
strlcpy-bounded_example = strlcpy-bounded counting 7 name 3 (omega arith)

strtol-printnum_example :
    (out : List ℕ) × (printnum (1025 + 1) 1025 10 6 b' ' ≡ done out)
    × (strtol (out ++ b',' ∷ []) 10 ≡ (pos 1025, b',' ∷ []))
strtol-printnum_example =
    strtol-printnum 1025 10 6 (b',' ∷ []) (omega arith) (omega arith) (omega arith) comma_Stops

-- "n=%d, %s: %x%%"
abbrev some_pieces : List Piece
some_pieces =
    plain (codes "n=")
    ∷ escape (decimal 0xfffffff9)
    ∷ plain (codes ", ")
    ∷ escape (string (codes "hex"))
    ∷ plain (codes ": ")
    ∷ escape (hex 255)
    ∷ escape percent
    ∷ []

vprintfmt-ShowsAll_example :
    (out : List ℕ) × (vprintfmt 20 (format some_pieces) (arguments some_pieces) ≡ done out)
    × ShowsAll some_pieces out
vprintfmt-ShowsAll_example = vprintfmt-ShowsAll some_pieces (omega arith) 20 (omega arith)

printed : vprintfmt 20 (format some_pieces) (arguments some_pieces) ≡ done (codes "n=-7, hex: ff%")
unfolding vprintfmt directive flag_case convert printnum
printed = refl

-- Flags, a width from an argument, a precision, and a byte that is no conversion.
flags :
    vprintfmt 20
      (codes "%05d|%*u|%.2s|%-4s|%y")
      (word 42 ∷ word 3 ∷ word 7 ∷ text (some (codes "abc")) ∷ text (some (codes "ab")) ∷ [])
    ≡ done (codes "00042|  7|ab|ab  |%y")
unfolding vprintfmt directive flag_case convert printnum
flags = refl

-- A number that is to stand on the left is padded with minus signs in front.
left_number : vprintfmt 9 (codes "%-4d") (word 7 ∷ []) ≡ done (codes "---7")
unfolding vprintfmt directive flag_case convert printnum
left_number = refl
