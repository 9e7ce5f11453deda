-- ===== src/Kern/Console/Display.antt =====
-- sched/kern/console.c: cga_putc, the display as an array of cells with a cursor. The serial and the parallel
-- port, and the cursor that blinks, are outputs that the model leaves out.
use Prim.Native.Nat.{bit_or}
use sistemas_operativos_1c.Base.{
  ℕ, ◌+◌, ◌-◌, ◌/◌, ◌%◌, ◌^◌, ◌≤◌, ◌<◌, ◌≡◌, Array, update, ltb, leb, arith, ◌==◌, if◌then◌else◌,
  inl, inr, Bool-cases,
}

-- CRT_COLS and CRT_SIZE.
abbrev pub crt_cols : ℕ
crt_cols = 80

abbrev pub crt_size : ℕ
crt_size = 2000

pub record Crt : Type 0 where
  pub crt_buf : Array ℕ
  pub crt_pos : ℕ

-- A character without an attribute is white on black.
abbrev pub with_attribute : ℕ → ℕ
with_attribute c = if c / 256 == 0 then bit_or c 0x0700 else c

-- `crt_pos -= (crt_pos % CRT_COLS)`
abbrev pub line_start : ℕ → ℕ
line_start pos = pos - pos % crt_cols

-- `crt_pos--`, on 16 bits.
abbrev pub decremented : ℕ → ℕ
decremented pos = (pos + 2 ^ 16 - 1) % 2 ^ 16

-- The characters but the tab, before the test for the end of the screen.
unfoldable pub write_cell : Crt → ℕ → Crt
write_cell s c =
    let low = c % 256 in
    if low == 8
    then (if ltb 0 s.crt_pos
        then record {
          crt_buf = update s.crt_buf (decremented s.crt_pos) (bit_or (c - low) b' ' % 2 ^ 16);
          crt_pos = decremented s.crt_pos;
        }
        else s)
    else if low == 10
    then record s { crt_pos = line_start ((s.crt_pos + crt_cols) % 2 ^ 16) }
    else if low == 13
    then record s { crt_pos = line_start s.crt_pos }
    else record {
      crt_buf = update s.crt_buf s.crt_pos (c % 2 ^ 16);
      crt_pos = (s.crt_pos + 1) % 2 ^ 16;
    }

-- The rows move up by one, and the last becomes blank.
abbrev pub rows_up : Array ℕ → Array ℕ
rows_up buf i =
    if ltb i (crt_size - crt_cols)
    then buf (i + crt_cols)
    else (if ltb i crt_size then bit_or 0x0700 b' ' else buf i)

unfoldable pub scroll : Crt → Crt
scroll s =
    if leb crt_size s.crt_pos
    then record { crt_buf = rows_up s.crt_buf; crt_pos = s.crt_pos - crt_cols }
    else s

-- One character that is no tab.
abbrev pub put_plain : Crt → ℕ → Crt
put_plain s c = scroll (write_cell s (with_attribute c))

unfoldable pub cga_putc : Crt → ℕ → Crt
cga_putc s c =
    if with_attribute c % 256 == 9
    then scroll
        (put_plain (put_plain (put_plain (put_plain (put_plain s b' ') b' ') b' ') b' ') b' ')
    else put_plain s c

-- The cursor is on the screen, and the memory behind the screen is that of `buf`.
pub record IsOnScreen (buf : Array ℕ) (s : Crt) : Type 0 where
  pub cursor : s.crt_pos < crt_size
  pub behind : (i : ℕ) → crt_size ≤ i → s.crt_buf i ≡ buf i

put_plain-IsOnScreen :
    (buf : Array ℕ) (s : Crt) (c : ℕ) → IsOnScreen buf s → IsOnScreen buf (put_plain s c)
unfolding write_cell scroll update
put_plain-IsOnScreen buf s c on = record {
  cursor = ground (arith, on.cursor);
  behind = λ i out. ground (arith, on.cursor, on.behind i out);
}

scroll-IsOnScreen : (buf : Array ℕ) (s : Crt) → IsOnScreen buf s → IsOnScreen buf (scroll s)
unfolding scroll
scroll-IsOnScreen buf s on = record {
  cursor = ground (arith, on.cursor);
  behind = λ i out. ground (arith, on.cursor, on.behind i out);
}

-- Whatever is printed, the cursor stays on the screen and nothing is written behind it.
pub cga_putc-IsOnScreen :
    (buf : Array ℕ) (s : Crt) (c : ℕ) → IsOnScreen buf s → IsOnScreen buf (cga_putc s c)
unfolding cga_putc
cga_putc-IsOnScreen buf s c on = elim (Bool-cases (with_attribute c % 256 == 9)) [
  | inl tab ↦ rw tab (scroll-IsOnScreen buf _ (blank (blank (blank (blank (blank on))))))
  | inr plain ↦ rw plain (put_plain-IsOnScreen buf s c on)
]
  where
    blank : {s' : Crt} → IsOnScreen buf s' → IsOnScreen buf (put_plain s' b' ')
    blank {s'} = put_plain-IsOnScreen buf s' b' '
