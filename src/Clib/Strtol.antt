-- ===== src/Clib/Strtol.antt =====
-- sched/lib/string.c: `strtol`, on the bytes before the final null byte. A `long` has 32 bits.
use sistemas_operativos_1c.Base.{
  ℕ, ◌+◌, ◌-◌, ◌*◌, ◌%◌, ◌^◌, List, [], ◌∷◌, Bool, true, false, ◌&&◌, ◌||◌, Option, none, some, ltb,
  leb, ◌==◌, if◌then◌else◌,
}
use sistemas_operativos_1c.Base.Int.{ℤ, pos, negsuc}

abbrev pub is_blank : ℕ → Bool
is_blank c = c == b' ' || c == 9

unfoldable pub skip_blanks : List ℕ → List ℕ
skip_blanks [] = []
skip_blanks (c ∷ s) = let rest = skip_blanks s in if is_blank c then rest else c ∷ s

-- The sign, true for a minus, and what follows it.
unfoldable pub sign : List ℕ → Bool × List ℕ
sign [] = (false, [])
sign (c ∷ s) = if c == b'+' then (false, s) else (if c == b'-' then (true, s) else (false, c ∷ s))

abbrev pub octal_or : (base : ℕ) → List ℕ → ℕ × List ℕ
octal_or base [] = (if base == 0 then 10 else base, [])
octal_or base (c ∷ s) =
    if base == 0 then (if c == b'0' then (8, s) else (10, c ∷ s)) else (base, c ∷ s)

-- The base, and what follows a prefix.
unfoldable pub prefix : (base : ℕ) → List ℕ → ℕ × List ℕ
prefix base [] = octal_or base []
prefix base (c ∷ []) = octal_or base (c ∷ [])
prefix base (c ∷ d ∷ s) =
    if (base == 0 || base == 16) && (c == b'0' && d == b'x')
    then (16, s)
    else octal_or base (c ∷ d ∷ s)

unfoldable pub digit : ℕ → Option ℕ
digit c =
    if leb b'0' c && leb c b'9'
    then some (c - b'0')
    else if leb b'a' c && leb c b'z'
    then some (c - b'a' + 10)
    else (if leb b'A' c && leb c b'Z' then some (c - b'A' + 10) else none)

-- A round of the loop at the text `s`, by what its first byte is as a digit; `go` runs the rounds after it.
abbrev pub digit_round : (go : ℕ → ℕ × List ℕ) → (base val : ℕ) → List ℕ → Option ℕ → ℕ × List ℕ
digit_round go base val s none = (val, s)
digit_round go base val s (some dig) =
    if leb base dig then (val, s) else go ((val * base + dig) % 2 ^ 32)

-- The loop over the digits; a value wraps around.
unfoldable pub digits : (base val : ℕ) → List ℕ → ℕ × List ℕ
digits base val [] = (val, [])
digits base val (c ∷ s) = digit_round (λ v. digits base v s) base val (c ∷ s) (digit c)

-- A 32-bit word as a signed number.
abbrev pub signed : ℕ → ℤ
signed w = if ltb w (2 ^ 31) then pos w else negsuc (2 ^ 32 - w - 1)

abbrev pub negated : Bool → ℕ → ℕ
negated neg val = if neg then (2 ^ 32 - val) % 2 ^ 32 else val

abbrev pub finish : Bool → ℕ × List ℕ → ℤ × List ℕ
finish neg (val, s) = (signed (negated neg val), s)

abbrev pub after_sign : (base : ℕ) → Bool × List ℕ → ℤ × List ℕ
after_sign base (neg, s) = finish neg (digits (prefix base s).0 0 (prefix base s).1)

-- The number, and what `endptr` points to.
unfoldable pub strtol : List ℕ → (base : ℕ) → ℤ × List ℕ
strtol s base = after_sign base (sign (skip_blanks s))
