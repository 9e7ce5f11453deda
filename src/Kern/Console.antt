-- ===== src/Kern/Console.antt =====
-- sched/kern/console.c: the circular buffer of characters that the interrupt routines fill and cons_getc
-- empties. What a device returns until it answers -1 is a list.
pub mod Queue
pub mod Display
pub mod Keys
pub mod Letters
pub mod Tests
use sistemas_operativos_1c.Base.{
  ℕ, ◌+◌, ◌%◌, ◌^◌, Bool, true, false, List, [], ◌∷◌, Array, update, ◌==◌, if◌then◌else◌,
}

-- CONSBUFSIZE.
abbrev pub consbufsize : ℕ
consbufsize = 512

pub record Cons : Type 0 where
  pub buf : Array ℕ
  pub rpos : ℕ
  pub wpos : ℕ

-- `if (cons.wpos == CONSBUFSIZE) cons.wpos = 0;`, and the same for `rpos`.
abbrev pub wrapped : ℕ → ℕ
wrapped pos = if pos == consbufsize then 0 else pos

-- One character other than 0.
abbrev pub store : Cons → ℕ → Cons
store c x = record c {
  buf = update c.buf c.wpos (x % 2 ^ 8);
  wpos = wrapped ((c.wpos + 1) % 2 ^ 32);
}

unfoldable pub cons_intr : Cons → List ℕ → Cons
cons_intr c [] = c
cons_intr c (x ∷ xs) = cons_intr (if x == 0 then c else store c x) xs

-- The next character, unless the buffer is empty.
abbrev pub take_unless : Cons → (empty : Bool) → Cons × ℕ
take_unless c true = (c, 0)
take_unless c false = (record c { rpos = wrapped ((c.rpos + 1) % 2 ^ 32) }, c.buf c.rpos)

-- `serial` and `keys` are what the two devices have when they are polled.
unfoldable pub cons_getc : Cons → (serial keys : List ℕ) → Cons × ℕ
cons_getc c serial keys =
    let c' = cons_intr (cons_intr c serial) keys in take_unless c' (c'.rpos == c'.wpos)
