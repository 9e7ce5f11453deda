-- ===== src/Clib/Numerals.antt =====
-- sched/lib/string.c: `strtol` on numbers in positional notation.
use native.Mathlib.Nat.{mul-le-mul_left}
use sistemas_operativos_1c.Base.{
  ℕ, zero, suc, ◌+◌, ◌-◌, ◌*◌, ◌%◌, ◌^◌, ◌≤◌, ◌<◌, ◌≡◌, ◌≢◌, refl, ap, ◌∙◌, List, [], ◌∷◌, ◌++◌,
  Bool, true, false, Option, none, some, ltb, leb, le→leb, ◌==◌, if◌then◌else◌, arith, map,
  replicate,
}
use sistemas_operativos_1c.Base.Int.{ℤ, pos, negsuc}
use sistemas_operativos_1c.Clib.Strtol.{
  is_blank, skip_blanks, sign, prefix, digit, digits, digit_round, signed, negated, finish,
  after_sign, strtol,
}

-- How a digit is written: '0' to '9', then 'a' to 'z'.
abbrev pub written : ℕ → ℕ
written dig = if ltb dig 10 then b'0' + dig else b'a' + dig - 10

-- The value of the digits `ds` behind the value `val`.
abbrev pub value : (base val : ℕ) → List ℕ → ℕ
value base val [] = val
value base val (dig ∷ ds) = value base (val * base + dig) ds

abbrev pub AllBelow : ℕ → List ℕ → Type 0
AllBelow base [] = Unit {0}
AllBelow base (dig ∷ ds) = (dig < base) × AllBelow base ds

-- The text does not go on with a digit of the base.
abbrev pub Stops : ℕ → List ℕ → Type 0
Stops base [] = Unit {0}
Stops base (c ∷ s) = (dig : ℕ) → digit c ≡ some dig → base ≤ dig

digit-written : (dig : ℕ) → dig < 36 → digit (written dig) ≡ some dig
unfolding digit
digit-written dig h = ground arith

value-le : (base val : ℕ) (ds : List ℕ) → 1 ≤ base → val ≤ value base val ds
value-le base val [] h = omega arith
value-le base val (dig ∷ ds) h =
    omega (arith, value-le base (val * base + dig) ds h, mul-le-mul_left val h)

digits-stop : (base val : ℕ) (s : List ℕ) → Stops base s → digits base val s ≡ (val, s)
unfolding digits
digits-stop base val [] h = refl
digits-stop base val (c ∷ s) h = go (digit c) h
  where
    go :
        (o : Option ℕ)
        → ((dig : ℕ) → o ≡ some dig → base ≤ dig)
        → digit_round (λ v. digits base v s) base val (c ∷ s) o ≡ (val, c ∷ s)
    go none k = refl
    go (some dig) k = rw (le→leb base dig (k dig refl))

digits-written :
    (base val : ℕ) (ds rest : List ℕ)
    → 1 ≤ base
    → base ≤ 36
    → AllBelow base ds
    → Stops base rest
    → value base val ds < 2 ^ 32
    → digits base val (map written ds ++ rest) ≡ (value base val ds, rest)
unfolding digits
digits-written base val [] rest some_base small all stops low = digits-stop base val rest stops
digits-written base val (dig ∷ ds) rest some_base small (here, all) stops low =
    let plain : (val * base + dig) % 2 ^ 32 ≡ val * base + dig =
      omega (arith, value-le base (val * base + dig) ds some_base) in
    let inside : leb base dig ≡ false = ground arith in
    ap
      (digit_round (λ v. digits base v (map written ds ++ rest)) base val
        (written dig ∷ (map written ds ++ rest)))
      (digit-written dig (omega arith))
    ∙ rw (inside, plain)
        (digits-written base (val * base + dig) ds rest some_base small all stops low)

-- Behind the blanks stands no third one.
skip_blanks-blank :
    (n : ℕ) (c : ℕ) (s : List ℕ)
    → is_blank c ≡ false
    → skip_blanks (replicate n b' ' ++ c ∷ s) ≡ c ∷ s
unfolding skip_blanks
skip_blanks-blank zero c s h = rw h
skip_blanks-blank (suc n) c s h = skip_blanks-blank n c s h

written_range : (dig : ℕ) → dig < 36 → (48 ≤ written dig) × (written dig < 123)
written_range dig h = (ground arith, ground arith)

-- A base that takes no prefix.
no_prefix : (base : ℕ) (s : List ℕ) → base ≢ 0 → base ≢ 16 → prefix base s ≡ (base, s)
unfolding prefix
no_prefix base [] h k = ground arith
no_prefix base (c ∷ []) h k = ground arith
no_prefix base (c ∷ d ∷ s) h k = ground arith

-- A number in its digits, with a minus where `neg` says so.
abbrev pub numeral : (neg : Bool) → List ℕ → List ℕ
numeral true ds = b'-' ∷ map written ds
numeral false ds = map written ds

abbrev pub with_sign : (neg : Bool) → ℕ → ℤ
with_sign true zero = pos 0
with_sign true (suc n) = negsuc n
with_sign false n = pos n

signed-negated : (neg : Bool) (n : ℕ) → n < 2 ^ 31 → signed (negated neg n) ≡ with_sign neg n
signed-negated true zero h = refl
signed-negated true (suc n) h = ground arith
signed-negated false n h = ground arith

sign-numeral :
    (neg : Bool) (blanks dig : ℕ) (ds rest : List ℕ)
    → dig < 36
    → sign (skip_blanks (replicate blanks b' ' ++ (numeral neg (dig ∷ ds) ++ rest)))
      ≡ (neg, map written (dig ∷ ds) ++ rest)
unfolding sign
sign-numeral true blanks dig ds rest h =
    ap sign (skip_blanks-blank blanks b'-' (map written (dig ∷ ds) ++ rest) refl)
sign-numeral false blanks dig ds rest h =
    let (low, high) = written_range dig h in
    let ink : is_blank (written dig) ≡ false = ground (arith, low) in
    let no_plus : (written dig == b'+') ≡ false = ground (arith, low) in
    let no_minus : (written dig == b'-') ≡ false = ground (arith, low) in
    ap sign (skip_blanks-blank blanks (written dig) (map written ds ++ rest) ink)
    ∙ rw (no_plus, no_minus)

-- A numeral in a base from 1 to 36, other than 16, with or without a minus and behind any number of spaces,
-- of a value below 2^31, is read as that value, negative behind a minus; the text that is left is what
-- stands behind the last digit.
pub strtol-numeral :
    (base : ℕ) (neg : Bool) (blanks dig : ℕ) (ds rest : List ℕ)
    → 1 ≤ base
    → base ≤ 36
    → base ≢ 16
    → AllBelow base (dig ∷ ds)
    → Stops base rest
    → value base 0 (dig ∷ ds) < 2 ^ 31
    → strtol (replicate blanks b' ' ++ (numeral neg (dig ∷ ds) ++ rest)) base
      ≡ (with_sign neg (value base 0 (dig ∷ ds)), rest)
unfolding strtol
strtol-numeral base neg blanks dig ds rest some_base small no_hex all stops low =
    ap (after_sign base) (sign-numeral neg blanks dig ds rest (omega (arith, all.0)))
    ∙ ap (λ p. finish neg (digits p.0 0 p.1))
        (no_prefix base (map written (dig ∷ ds) ++ rest) (λ e. absurd (omega arith)) no_hex)
    ∙ ap (finish neg)
        (digits-written base 0 (dig ∷ ds) rest some_base small all stops (omega arith))
    ∙ ap (λ z. (z, rest)) (signed-negated neg (value base 0 (dig ∷ ds)) low)
