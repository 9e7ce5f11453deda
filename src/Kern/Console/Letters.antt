-- ===== src/Kern/Console/Letters.antt =====
-- sched/kern/console.c: the keys of letters, with shift and caps lock.
use Prim.Native.Nat.{bit_and}
use sistemas_operativos_1c.Base.{
  ℕ, zero, suc, ◌-◌, ◌<◌, ◌≡◌, refl, sym, ap, ◌∙◌, Bool, true, false, ◌&&◌, not, leb, arith, ◌==◌,
  if◌then◌else◌,
}
use sistemas_operativos_1c.Base.Int.{ℤ, pos, negsuc}
use sistemas_operativos_1c.Kern.Console.Keys.{
  normalmap, kbd_proc_data, shift_bit, ctl_bit, capslock_bit,
}

-- A test that holds of every number below `n`.
every_below : ℕ → (ℕ → Bool) → Bool
every_below zero test = true
every_below (suc n) test = if test n then every_below n test else false

every_below_lem :
    (n : ℕ) (test : ℕ → Bool) (i : ℕ) → every_below n test ≡ true → i < n → test i ≡ true
unfolding every_below
every_below_lem zero test i all low = absurd (omega arith)
every_below_lem (suc n) test i all low = ground (arith, every_below_lem n test i)

abbrev pub is_letter : ℕ → Bool
is_letter c = leb b'a' c && leb c b'z'

-- Shift and caps lock, one but not both, make a capital.
abbrev pub is_capital : (shift : ℕ) → Bool
is_capital shift =
    if bit_and shift shift_bit == 0
    then not (bit_and shift capslock_bit == 0)
    else (bit_and shift capslock_bit == 0)

abbrev pub expected : (shift code : ℕ) → ℕ
expected shift code = if is_capital shift then normalmap code - 32 else normalmap code

abbrev gives : ℕ × ℤ → (shift c : ℕ) → Bool
gives (shift', pos c') shift c = if shift' == shift then c' == c else false
gives (shift', negsuc n) shift c = false

gives_lem : (r : ℕ × ℤ) (shift c : ℕ) → gives r shift c ≡ true → r ≡ (shift, pos c)
gives_lem (shift', pos c') shift c same = ground arith
gives_lem (shift', negsuc n) shift c same = cc

-- The claim for one state of the modifiers and one code, as a test.
abbrev right_case : (shift code : ℕ) → Bool
right_case shift code =
    if is_letter (normalmap code)
    then (if bit_and shift ctl_bit == 0
        then gives (kbd_proc_data shift 1 code) shift (expected shift code)
        else true)
    else true

every_case : every_below 64 (λ shift. every_below 128 (right_case shift)) ≡ true
unfolding every_below kbd_proc_data normalmap
every_case = refl

-- The key of a letter gives the letter, as a capital if shift is held or caps lock is on but not both, for
-- every other state of the modifiers without control, which it leaves as they are.
pub kbd_proc_data-letter :
    (shift code : ℕ)
    → shift < 64
    → bit_and shift ctl_bit ≡ 0
    → code < 128
    → is_letter (normalmap code) ≡ true
    → kbd_proc_data shift 1 code ≡ (shift, pos (expected shift code))
kbd_proc_data-letter shift code low plain low' letter =
    gives_lem (kbd_proc_data shift 1 code) shift (expected shift code)
      (sym (ap without_control plain) ∙ sym (ap if_letter letter) ∙ checked)
  where
    without_control : ℕ → Bool
    without_control n =
        if n == 0 then gives (kbd_proc_data shift 1 code) shift (expected shift code) else true

    if_letter : Bool → Bool
    if_letter b = if b then without_control (bit_and shift ctl_bit) else true

    checked : right_case shift code ≡ true
    checked =
        every_below_lem 128 (right_case shift) code
          (every_below_lem 64 (λ s. every_below 128 (right_case s)) shift every_case low) low'
