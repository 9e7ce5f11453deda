-- ===== src/Clib/Printf.antt =====
-- sched/lib/printfmt.c: vprintfmt and vsnprintf. A format is the list of its bytes before the NUL; what `putch` is
-- given, in order, is a list; the arguments are a list, of which a directive takes those that it asks for.
pub mod Pieces
use Prim.Native.Char.{code}
use Prim.Native.String.{String}
use sistemas_operativos_1c.Base.{
  ℕ, zero, suc, ◌+◌, ◌-◌, ◌*◌, ◌%◌, ◌^◌, Bool, true, false, ◌&&◌, ◌||◌, not, Option, none, some,
  List, [], ◌∷◌, ◌++◌, map, length, take, replicate, Run, done, fault, exhausted, then_do, ltb, leb,
  ◌==◌, if◌then◌else◌,
}
use sistemas_operativos_1c.Base.Int.{ℤ, pos, negsuc, pos_part}
use sistemas_operativos_1c.Kern.Errors.{e_inval}
use sistemas_operativos_1c.Clib.Printnum.{printnum}

-- The bytes of a text.
abbrev pub codes : String → List ℕ
codes String.[] = []
codes (String.◌∷◌ c s) = code c ∷ codes s

-- An int, long or pointer of 32 bits, a long long of 64, or a string, which may be null.
pub data Arg : Type 0 where
  word quad : ℕ → Arg
  text : Option (List ℕ) → Arg

pub record Flags : Type 0 where
  pub padc : ℕ
  pub width : ℤ
  pub precision : ℤ
  pub lflag : ℕ
  pub altflag : Bool

abbrev pub no_flags : Flags
no_flags = record {
  padc = b' ';
  width = negsuc 0;
  precision = negsuc 0;
  lflag = 0;
  altflag = false;
}

abbrev pub negative : ℤ → Bool
negative (pos n) = false
negative (negsuc n) = true

-- A word of `w` bits as a signed number.
abbrev pub signed : (w n : ℕ) → ℤ
signed w n = if ltb n (2 ^ (w - 1)) then pos n else negsuc (2 ^ w - n - 1)

-- From the label `process_precision` on.
abbrev pub process_precision : Flags → ℤ → Flags
process_precision fl n =
    if negative fl.width
    then record fl { width = n; precision = negsuc 0 }
    else record fl { precision = n }

-- Before the next byte: more flags, with the number that is being read if there is one, or the byte ends them.
pub data Move : Type 0 where
  more : Flags → Option ℕ → List Arg → Move
  stop : Flags → Move

abbrev pub star : Flags → List Arg → Run Move
star fl (word w ∷ args) = done (more (process_precision fl (signed 32 w)) none args)
star fl _ = fault

-- The cases of the switch that go back to it.
unfoldable pub flag_case : Flags → (ch : ℕ) → List Arg → Run Move
flag_case fl ch args =
    if ch == b'-'
    then done (more (record fl { padc = b'-' }) none args)
    else if ch == b'0'
    then done (more (record fl { padc = b'0' }) none args)
    else if leb b'1' ch && leb ch b'9'
    then done (more fl (some (ch - b'0')) args)
    else if ch == b'*'
    then star fl args
    else if ch == b'.'
    then done (more (if negative fl.width then record fl { width = pos 0 } else fl) none args)
    else if ch == b'#'
    then done (more (record fl { altflag = true }) none args)
    else if ch == b'l'
    then done (more (record fl { lflag = fl.lflag + 1 }) none args)
    else done (stop fl)

abbrev pub next_move : Flags → Option ℕ → (ch : ℕ) → List Arg → Run Move
next_move fl none ch args = flag_case fl ch args
next_move fl (some n) ch args =
    if leb b'0' ch && leb ch b'9'
    then done (more fl (some (n * 10 + (ch - b'0'))) args)
    else flag_case (process_precision fl (pos n)) ch args

-- The flags, the byte that ends them, and what is left of the format and of the arguments. The NUL ends them
-- too, and stays.
unfoldable pub directive :
    Flags → Option ℕ → List ℕ → List Arg → Run (Flags × ℕ × List ℕ × List Arg)
directive fl none [] args = done (fl, 0, [], args)
directive fl (some n) [] args = done (process_precision fl (pos n), 0, [], args)
directive fl number (ch ∷ fmt) args = then_do (next_move fl number ch args) (λ move. elim move [
  | more fl' number' args' ↦ directive fl' number' fmt args'
  | stop fl' ↦ done (fl', ch, fmt, args)
])

abbrev pub take_number : (lflag : ℕ) → List Arg → Run (ℕ × List Arg)
take_number lflag [] = fault
take_number lflag (word w ∷ args) = if leb 2 lflag then fault else done (w, args)
take_number lflag (quad w ∷ args) = if leb 2 lflag then done (w, args) else fault
take_number lflag (text s ∷ args) = fault

-- The label `number`.
abbrev pub number : Flags → (num base : ℕ) → Run (List ℕ)
number fl num base = printnum (num + 1) num base (pos_part fl.width) fl.padc

abbrev pub put_signed : Flags → ℤ → Run (List ℕ)
put_signed fl (pos n) = number fl n 10
put_signed fl (negsuc n) = then_do (number fl (n + 1) 10) (λ out. done (b'-' ∷ out))

abbrev pub error_string : ℕ → Option (List ℕ)
error_string err =
    if err == 1
    then some (codes "unspecified error")
    else if err == 2
    then some (codes "bad environment")
    else if err == 3
    then some (codes "invalid parameter")
    else if err == 4
    then some (codes "out of memory")
    else if err == 5
    then some (codes "out of environments")
    else if err == 6
    then some (codes "segmentation fault")
    else if err == 7
    then some (codes "env is not recving")
    else if err == 8
    then some (codes "unexpected end of file")
    else none

abbrev pub magnitude : ℤ → ℕ
magnitude (pos n) = n
magnitude (negsuc n) = n + 1

abbrev pub put_error : (err : ℕ) → Option (List ℕ) → Run (List ℕ)
put_error err none = then_do (number no_flags err 10) (λ out. done (codes "error " ++ out))
put_error err (some s) = done s

-- As many bytes as the precision allows, between the pads that make up the width.
abbrev pub put_string : Flags → List ℕ → List ℕ
put_string fl s =
    let shown = if negative fl.precision then s else take (pos_part fl.precision) s in
    let printable = λ (ch : ℕ). if fl.altflag && (ltb ch b' ' || ltb b'~' ch) then b'?' else ch in
    let pads = pos_part fl.width - length shown in
    if fl.padc == b'-'
    then map printable shown ++ replicate pads b' '
    else replicate pads fl.padc ++ map printable shown

abbrev pub string_or_null : Option (List ℕ) → List ℕ
string_or_null none = codes "(null)"
string_or_null (some s) = s

-- What a conversion prints, and the arguments that are left; none if the byte is no conversion.
abbrev pub Converted : Type 0
Converted = Run (Option (List ℕ × List Arg))

abbrev pub prints : Run (List ℕ) → List Arg → Converted
prints r args = then_do r (λ out. done (some (out, args)))

abbrev pub put_unsigned : Flags → (base : ℕ) → List Arg → Converted
put_unsigned fl base args =
    then_do (take_number fl.lflag args) (λ (num, rest). prints (number fl num base) rest)

abbrev pub with_word : List Arg → (ℕ → List Arg → Converted) → Converted
with_word (word w ∷ args) k = k w args
with_word _ k = fault

abbrev pub with_text : List Arg → (Option (List ℕ) → List Arg → Converted) → Converted
with_text (text s ∷ args) k = k s args
with_text _ k = fault

-- The cases of the switch that print.
unfoldable pub convert : Flags → (ch : ℕ) → List Arg → Converted
convert fl ch args =
    if ch == b'c'
    then with_word args (λ w rest. done (some (w ∷ [], rest)))
    else if ch == b'e'
    then with_word args (λ w rest.
      let err = magnitude (signed 32 w) in prints (put_error err (error_string err)) rest)
    else if ch == b's'
    then with_text args (λ s rest. done (some (put_string fl (string_or_null s), rest)))
    else if ch == b'd'
    then then_do (take_number fl.lflag args) (λ (num, rest).
      prints (put_signed fl (signed (if leb 2 fl.lflag then 64 else 32) num)) rest)
    else if ch == b'u'
    then put_unsigned fl 10 args
    else if ch == b'o'
    then put_unsigned fl 8 args
    else if ch == b'p'
    then with_word args
        (λ w rest. prints (then_do (number fl w 16) (λ out. done (b'0' ∷ b'x' ∷ out))) rest)
    else if ch == b'x'
    then put_unsigned fl 16 args
    else if ch == b'%'
    then done (some (b'%' ∷ [], args))
    else done none

-- Behind a byte that is no conversion the format is printed on from the byte after its `%`.
abbrev pub resume :
    (start rest : List ℕ) (args : List Arg)
    → Option (List ℕ × List Arg)
    → (List ℕ → List Arg → Run (List ℕ))
    → Run (List ℕ)
resume start rest args none k = then_do (k start args) (λ out. done (b'%' ∷ out))
resume start rest args (some (shown, args')) k = then_do (k rest args') (λ out. done (shown ++ out))

-- Each round of the outer loop, and each byte that is printed as it stands, costs a unit of fuel.
unfoldable pub vprintfmt : ℕ → (fmt : List ℕ) → List Arg → Run (List ℕ)
vprintfmt zero fmt args = exhausted
vprintfmt (suc f) [] args = done []
vprintfmt (suc f) (ch ∷ fmt) args =
    let plain = then_do (vprintfmt f fmt args) (λ out. done (ch ∷ out)) in
    let escape = then_do (directive no_flags none fmt args) (λ (fl, conv, rest, args').
      then_do (convert fl conv args') (λ shown. resume fmt rest args' shown (vprintfmt f))) in
    if ch == b'%' then escape else plain

-- What `vsnprintf` leaves in a buffer of `n` bytes, and what it returns.
unfoldable pub vsnprintf : ℕ → (n : ℕ) (fmt : List ℕ) → List Arg → Run (List ℕ × ℤ)
vsnprintf f n fmt args =
    if n == 0
    then done ([], e_inval)
    else then_do (vprintfmt f fmt args) (λ out. done (take (n - 1) out ++ 0 ∷ [], pos (length out)))
