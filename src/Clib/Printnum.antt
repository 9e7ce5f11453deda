-- ===== src/Clib/Printnum.antt =====
-- sched/lib/printfmt.c: `printnum`, which prints a number, and how `strtol` of sched/lib/string.c reads it.
use native.Mathlib.Nat.{mul-le-mul_left, div-add-mod, mod-lt, mod-eq_of_lt}
use sistemas_operativos_1c.Base.{
  ℕ, zero, suc, ◌+◌, ◌-◌, ◌*◌, ◌/◌, ◌%◌, ◌^◌, ◌≤◌, ◌<◌, ◌≡◌, refl, sym, ap, ◌∙◌, inl, inr, List, [],
  ◌∷◌, ◌++◌, false, Run, done, exhausted, then_do, ltb, leb, leb→le, if◌then◌else◌, arith, map,
  length, length-append, replicate, append_assoc, Bool-cases,
}
use sistemas_operativos_1c.Base.Int.{pos}
use sistemas_operativos_1c.Clib.Strtol.{strtol}
use sistemas_operativos_1c.Clib.Numerals.{written, value, AllBelow, Stops, strtol-numeral}

-- The byte number `dig` of "0123456789abcdef".
abbrev pub hex_digit : ℕ → ℕ
hex_digit dig = if ltb dig 10 then b'0' + dig else b'a' + (dig - 10)

-- What `putch` is given, in order. A width that is not positive pads as 0 does. Each call costs a unit of fuel.
unfoldable pub printnum : ℕ → (num base width padc : ℕ) → Run (List ℕ)
printnum zero num base width padc = exhausted
printnum (suc f) num base width padc =
    let more = printnum f (num / base) base (width - 1) padc in
    then_do (if leb base num then more else done (replicate (width - 1) padc))
      (λ out. done (out ++ hex_digit (num % base) ∷ []))

-- The digits of the number behind as many pads as make up the width.
abbrev pub Printed : (num base width padc : ℕ) → Run (List ℕ) → Type 0
Printed num base width padc r =
    (k : ℕ) × (dig : ℕ) × (ds : List ℕ) × (r ≡ done (replicate k padc ++ map written (dig ∷ ds)))
    × AllBelow base (dig ∷ ds)
    × (value base 0 (dig ∷ ds) ≡ num)
    × (k ≡ width - length (dig ∷ ds))

hex_digit-written : (dig : ℕ) → dig < 16 → hex_digit dig ≡ written dig
hex_digit-written dig h = ground arith

value-append :
    (base val : ℕ) (ds : List ℕ) (d : ℕ)
    → value base val (ds ++ d ∷ []) ≡ value base val ds * base + d
value-append base val [] d = refl
value-append base val (x ∷ ds) d = value-append base (val * base + x) ds d

map-append : (ds : List ℕ) (d : ℕ) → map written (ds ++ d ∷ []) ≡ map written ds ++ written d ∷ []
map-append [] d = refl
map-append (x ∷ ds) d = ap (◌∷◌ (written x)) (map-append ds d)

AllBelow-append :
    (base : ℕ) (ds : List ℕ) (d : ℕ) → AllBelow base ds → d < base → AllBelow base (ds ++ d ∷ [])
AllBelow-append base [] d h low = (low, tt)
AllBelow-append base (x ∷ ds) d (here, h) low = (here, AllBelow-append base ds d h low)

fewer : (num base f : ℕ) → 2 ≤ base → base ≤ num → num ≤ suc f → num / base ≤ f
fewer num base f two low enough =
    omega (arith, div-add-mod num base, mul-le-mul_left (num / base) two)

last_digit :
    (num base width padc : ℕ) (r : Run (List ℕ))
    → 2 ≤ base
    → base ≤ 16
    → Printed (num / base) base (width - 1) padc r
    → Printed num base width padc (then_do r (λ out. done (out ++ hex_digit (num % base) ∷ [])))
last_digit num base width padc r two small (k, dig, ds, e, all, v, pads) = (
  k,
  dig,
  ds ++ d ∷ [],
  ap (λ q. then_do q (λ out. done (out ++ hex_digit d ∷ []))) e
      ∙ ap done (
          append_assoc (replicate k padc) (map written (dig ∷ ds)) (hex_digit d ∷ [])
          ∙ ap (λ c. replicate k padc ++ (map written (dig ∷ ds) ++ c ∷ []))
              (hex_digit-written d (omega arith))
          ∙ ap (◌++◌ (replicate k padc)) (sym (map-append (dig ∷ ds) d))),
  AllBelow-append base (dig ∷ ds) d all low,
  value-append base 0 (dig ∷ ds) d ∙ ap (λ n. n * base + d) v ∙ omega (arith, div-add-mod num base),
  omega (arith, length-append {0} (dig ∷ ds) (d ∷ [])),
)
  where
    d : ℕ
    d = num % base

    low : num % base < base
    low = mod-lt num (omega arith)

one_digit :
    (num base width padc : ℕ)
    → base ≤ 16
    → num < base
    → Printed num base width padc (done (replicate (width - 1) padc ++ hex_digit (num % base) ∷ []))
one_digit num base width padc small low = (
  width - 1,
  num,
  [],
  ap (λ c. done (replicate (width - 1) padc ++ c ∷ []))
      (ap hex_digit (mod-eq_of_lt low) ∙ hex_digit-written num (omega arith)),
  (low, tt),
  omega arith,
  refl,
)

pub printnum-Printed :
    (f num base width padc : ℕ)
    → 2 ≤ base
    → base ≤ 16
    → num ≤ f
    → Printed num base width padc (printnum (suc f) num base width padc)
unfolding printnum
printnum-Printed zero num base width padc two small enough =
    let single : leb base num ≡ false = ground arith in
    rw single (one_digit num base width padc small (omega arith))
printnum-Printed (suc f) num base width padc two small enough = elim (Bool-cases (leb base num)) [
  | inl many ↦ rw many (
      last_digit num base width padc (printnum (suc f) (num / base) base (width - 1) padc) two small
        (printnum-Printed f (num / base) base (width - 1) padc two small
          (fewer num base f two (leb→le base num many) enough)))
  | inr single ↦ rw single (one_digit num base width padc small (ground arith))
]

-- A number below 2^31 that `printnum` prints in a base from 2 to 15, padded with spaces to any width, is printed
-- within `num + 1` calls, and `strtol` reads the same number back from the text, up to what stops it.
pub strtol-printnum :
    (num base width : ℕ) (rest : List ℕ)
    → 2 ≤ base
    → base < 16
    → num < 2 ^ 31
    → Stops base rest
    → (out : List ℕ) × (printnum (num + 1) num base width b' ' ≡ done out)
      × (strtol (out ++ rest) base ≡ (pos num, rest))
strtol-printnum num base width rest two small low stops =
    let (k, dig, ds, e, all, v, pads) =
      printnum-Printed num num base width b' ' two (omega arith) (omega arith) in
    let fuel : num + 1 ≡ suc num = omega arith in
    (
      replicate k b' ' ++ map written (dig ∷ ds),
      ap (λ f. printnum f num base width b' ') fuel ∙ e,
      ap (λ s. strtol s base) (append_assoc (replicate k b' ') (map written (dig ∷ ds)) rest)
          ∙ strtol-numeral base false k dig ds rest (omega arith) (omega arith)
              (λ same. absurd (omega arith)) all stops (omega arith)
          ∙ ap (λ n. (pos n, rest)) v,
    )
