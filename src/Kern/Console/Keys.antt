-- ===== src/Kern/Console/Keys.antt =====
-- sched/kern/console.c and sched/inc/kbdreg.h: the keyboard. Tables of 256 places are written as in C: the first
-- places in order, then some that are named; the others are 0.
use Prim.Native.Nat.{bit_and, bit_or, bit_xor}
use sistemas_operativos_1c.Base.{
  ℕ, ◌+◌, ◌-◌, ◌^◌, ◌&&◌, ◌||◌, not, List, [], ◌∷◌, get_or, leb, ◌==◌, if◌then◌else◌,
}
use sistemas_operativos_1c.Base.Int.{ℤ, pos, negsuc}

abbrev pub shift_bit : ℕ
shift_bit = 1

abbrev pub ctl_bit : ℕ
ctl_bit = 2

abbrev pub alt_bit : ℕ
alt_bit = 4

abbrev pub capslock_bit : ℕ
capslock_bit = 8

abbrev pub numlock_bit : ℕ
numlock_bit = 16

abbrev pub scrolllock_bit : ℕ
scrolllock_bit = 32

abbrev pub e0esc_bit : ℕ
e0esc_bit = 64

abbrev pub key_home : ℕ
key_home = 0xe0

abbrev pub key_end : ℕ
key_end = 0xe1

abbrev pub key_up : ℕ
key_up = 0xe2

abbrev pub key_dn : ℕ
key_dn = 0xe3

abbrev pub key_lf : ℕ
key_lf = 0xe4

abbrev pub key_rt : ℕ
key_rt = 0xe5

abbrev pub key_pgup : ℕ
key_pgup = 0xe6

abbrev pub key_pgdn : ℕ
key_pgdn = 0xe7

abbrev pub key_ins : ℕ
key_ins = 0xe8

abbrev pub key_del : ℕ
key_del = 0xe9

-- The value at a named place, 0 elsewhere.
abbrev pub at_place : List (ℕ × ℕ) → ℕ → ℕ
at_place [] i = 0
at_place ((k, v) ∷ rest) i = if k == i then v else at_place rest i

-- A table with `first` in front and `named` places behind.
abbrev pub in_table : (first : List ℕ) → (named : List (ℕ × ℕ)) → ℕ → ℕ
in_table first named i = get_or first i (at_place named i)

unfoldable pub shiftcode : ℕ → ℕ
shiftcode = in_table ([]) (
    (0x1d, ctl_bit)
    ∷ (0x2a, shift_bit)
    ∷ (0x36, shift_bit)
    ∷ (0x38, alt_bit)
    ∷ (0x9d, ctl_bit)
    ∷ (0xb8, alt_bit)
    ∷ [])

unfoldable pub togglecode : ℕ → ℕ
togglecode =
    in_table ([]) ((0x3a, capslock_bit) ∷ (0x45, numlock_bit) ∷ (0x46, scrolllock_bit) ∷ [])

unfoldable pub normalmap : ℕ → ℕ
normalmap =
    in_table
      (0 ∷ 0x1b ∷ b'1' ∷ b'2' ∷ b'3' ∷ b'4' ∷ b'5' ∷ b'6' ∷ b'7' ∷ b'8' ∷ b'9' ∷ b'0' ∷ b'-' ∷ b'='
        ∷ 8 ∷ 9 ∷ b'q' ∷ b'w' ∷ b'e' ∷ b'r' ∷ b't' ∷ b'y' ∷ b'u' ∷ b'i' ∷ b'o' ∷ b'p' ∷ b'[' ∷ b']'
        ∷ 10 ∷ 0 ∷ b'a' ∷ b's' ∷ b'd' ∷ b'f' ∷ b'g' ∷ b'h' ∷ b'j' ∷ b'k' ∷ b'l' ∷ b';' ∷ 39 ∷ b'`'
        ∷ 0 ∷ 92 ∷ b'z' ∷ b'x' ∷ b'c' ∷ b'v' ∷ b'b' ∷ b'n' ∷ b'm' ∷ b',' ∷ b'.' ∷ b'/' ∷ 0 ∷ b'*'
        ∷ 0 ∷ b' ' ∷ 0 ∷ 0 ∷ 0 ∷ 0 ∷ 0 ∷ 0 ∷ 0 ∷ 0 ∷ 0 ∷ 0 ∷ 0 ∷ 0 ∷ 0 ∷ b'7' ∷ b'8' ∷ b'9' ∷ b'-'
        ∷ b'4' ∷ b'5' ∷ b'6' ∷ b'+' ∷ b'1' ∷ b'2' ∷ b'3' ∷ b'0' ∷ b'.' ∷ 0 ∷ 0 ∷ 0 ∷ 0 ∷ [])
      ((0xc7, key_home)
        ∷ (0x9c, 10)
        ∷ (0xb5, b'/')
        ∷ (0xc8, key_up)
        ∷ (0xc9, key_pgup)
        ∷ (0xcb, key_lf)
        ∷ (0xcd, key_rt)
        ∷ (0xcf, key_end)
        ∷ (0xd0, key_dn)
        ∷ (0xd1, key_pgdn)
        ∷ (0xd2, key_ins)
        ∷ (0xd3, key_del)
        ∷ [])

unfoldable pub shiftmap : ℕ → ℕ
shiftmap =
    in_table
      (0 ∷ 0x1b ∷ b'!' ∷ b'@' ∷ b'#' ∷ b'$' ∷ b'%' ∷ b'^' ∷ b'&' ∷ b'*' ∷ b'(' ∷ b')' ∷ b'_' ∷ b'+'
        ∷ 8 ∷ 9 ∷ b'Q' ∷ b'W' ∷ b'E' ∷ b'R' ∷ b'T' ∷ b'Y' ∷ b'U' ∷ b'I' ∷ b'O' ∷ b'P' ∷ b'{' ∷ b'}'
        ∷ 10 ∷ 0 ∷ b'A' ∷ b'S' ∷ b'D' ∷ b'F' ∷ b'G' ∷ b'H' ∷ b'J' ∷ b'K' ∷ b'L' ∷ b':' ∷ 34 ∷ b'~'
        ∷ 0 ∷ b'|' ∷ b'Z' ∷ b'X' ∷ b'C' ∷ b'V' ∷ b'B' ∷ b'N' ∷ b'M' ∷ b'<' ∷ b'>' ∷ b'?' ∷ 0 ∷ b'*'
        ∷ 0 ∷ b' ' ∷ 0 ∷ 0 ∷ 0 ∷ 0 ∷ 0 ∷ 0 ∷ 0 ∷ 0 ∷ 0 ∷ 0 ∷ 0 ∷ 0 ∷ 0 ∷ b'7' ∷ b'8' ∷ b'9' ∷ b'-'
        ∷ b'4' ∷ b'5' ∷ b'6' ∷ b'+' ∷ b'1' ∷ b'2' ∷ b'3' ∷ b'0' ∷ b'.' ∷ 0 ∷ 0 ∷ 0 ∷ 0 ∷ [])
      ((0xc7, key_home)
        ∷ (0x9c, 10)
        ∷ (0xb5, b'/')
        ∷ (0xc8, key_up)
        ∷ (0xc9, key_pgup)
        ∷ (0xcb, key_lf)
        ∷ (0xcd, key_rt)
        ∷ (0xcf, key_end)
        ∷ (0xd0, key_dn)
        ∷ (0xd1, key_pgdn)
        ∷ (0xd2, key_ins)
        ∷ (0xd3, key_del)
        ∷ [])

unfoldable pub ctlmap : ℕ → ℕ
ctlmap =
    in_table
      (0 ∷ 0 ∷ 0 ∷ 0 ∷ 0 ∷ 0 ∷ 0 ∷ 0 ∷ 0 ∷ 0 ∷ 0 ∷ 0 ∷ 0 ∷ 0 ∷ 0 ∷ 0 ∷ 17 ∷ 23 ∷ 5 ∷ 18 ∷ 20 ∷ 25
        ∷ 21 ∷ 9 ∷ 15 ∷ 16 ∷ 0 ∷ 0 ∷ 13 ∷ 0 ∷ 1 ∷ 19 ∷ 4 ∷ 6 ∷ 7 ∷ 8 ∷ 10 ∷ 11 ∷ 12 ∷ 0 ∷ 0 ∷ 0 ∷ 0
        ∷ 28 ∷ 26 ∷ 24 ∷ 3 ∷ 22 ∷ 2 ∷ 14 ∷ 13 ∷ 0 ∷ 0 ∷ 239 ∷ 0 ∷ 0 ∷ [])
      ((0x97, key_home)
        ∷ (0xb5, 239)
        ∷ (0xc8, key_up)
        ∷ (0xc9, key_pgup)
        ∷ (0xcb, key_lf)
        ∷ (0xcd, key_rt)
        ∷ (0xcf, key_end)
        ∷ (0xd0, key_dn)
        ∷ (0xd1, key_pgdn)
        ∷ (0xd2, key_ins)
        ∷ (0xd3, key_del)
        ∷ [])

-- `charcode`, by the bits CTL and SHIFT.
unfoldable pub charcode : (bits key : ℕ) → ℕ
unfolding normalmap shiftmap ctlmap
charcode bits key =
    if bits == 0 then normalmap key else (if bits == 1 then shiftmap key else ctlmap key)

-- Caps lock turns the case of a letter around.
abbrev pub turn_case : ℕ → ℕ
turn_case c =
    if leb b'a' c && leb c b'z' then c - 32 else (if leb b'A' c && leb c b'Z' then c + 32 else c)

abbrev pub invert : ℕ → ℕ
invert bits = 2 ^ 32 - 1 - bits

-- A key that is pressed.
unfoldable pub pressed : (shift key : ℕ) → ℕ × ℤ
unfolding shiftcode togglecode charcode
pressed shift key =
    let shift' = bit_xor (bit_or shift (shiftcode key)) (togglecode key) in
    let c = charcode (bit_and shift' (ctl_bit + shift_bit)) key in
    (shift', pos (if bit_and shift' capslock_bit == 0 then c else turn_case c))

-- The status and the byte that the controller has; the result goes with the new `shift`. That control, alt
-- and delete restart the machine is not modelled.
unfoldable pub kbd_proc_data : (shift stat byte : ℕ) → ℕ × ℤ
unfolding shiftcode pressed
kbd_proc_data shift stat byte =
    if bit_and stat 1 == 0 || not (bit_and stat 0x20 == 0)
    then (shift, negsuc 0)
    else if byte == 0xe0
    then (bit_or shift e0esc_bit, pos 0)
    else if not (bit_and byte 0x80 == 0)
    then (let key = if bit_and shift e0esc_bit == 0 then bit_and byte 0x7f else byte in
        (bit_and shift (invert (bit_or (shiftcode key) e0esc_bit)), pos 0))
    else if not (bit_and shift e0esc_bit == 0)
    then pressed (bit_and shift (invert e0esc_bit)) (bit_or byte 0x80)
    else pressed shift byte
