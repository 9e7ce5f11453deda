-- ===== src/Kern/Console/Tests.antt =====
-- Runs of the console: a buffer whose characters go round its end, a full screen, and two keys.
use sistemas_operativos_1c.Base.{◌≡◌, refl, [], ◌∷◌, ◌++◌, arith, ◌==◌, if◌then◌else◌}
use sistemas_operativos_1c.Base.Int.{pos}
use sistemas_operativos_1c.Kern.Console.{Cons, cons_getc}
use sistemas_operativos_1c.Kern.Console.Queue.{IsQueue, Takes, kept, cons_getc-Takes}
use sistemas_operativos_1c.Kern.Console.Display.{Crt, IsOnScreen, cga_putc, cga_putc-IsOnScreen}
use sistemas_operativos_1c.Kern.Console.Keys.{normalmap, kbd_proc_data}
use sistemas_operativos_1c.Kern.Console.Letters.{expected, kbd_proc_data-letter}

abbrev round_the_end : Cons
round_the_end = record {
  buf = λ i. if i == 510 then b'a' else (if i == 511 then b'b' else b'c');
  rpos = 510;
  wpos = 1;
}

three_wait : IsQueue round_the_end (b'a' ∷ b'b' ∷ b'c' ∷ [])
three_wait = record { start = omega arith; room = omega arith; stop = refl; content = refl }

cons_getc-Takes_example :
    Takes
      (((b'a' ∷ b'b' ∷ b'c' ∷ []) ++ kept (b'x' ∷ 0 ∷ [])) ++ kept (b'y' ∷ []))
      (cons_getc round_the_end (b'x' ∷ 0 ∷ []) (b'y' ∷ []))
cons_getc-Takes_example =
    cons_getc-Takes round_the_end (b'a' ∷ b'b' ∷ b'c' ∷ []) (b'x' ∷ 0 ∷ []) (b'y' ∷ []) three_wait
      (omega arith, (omega arith, tt)) (omega arith, tt) (omega arith)

abbrev last_cell : Crt
last_cell = record { crt_buf = λ i. i; crt_pos = 1999 }

cga_putc-IsOnScreen_example : IsOnScreen (λ i. i) (cga_putc last_cell b'z')
cga_putc-IsOnScreen_example =
    cga_putc-IsOnScreen (λ i. i) last_cell b'z'
      (record { cursor = omega arith; behind = λ i out. refl })

-- With shift held the key 0x1e gives A.
kbd_proc_data-letter_example : kbd_proc_data 1 1 0x1e ≡ (1, pos (expected 1 0x1e))
unfolding normalmap
kbd_proc_data-letter_example = kbd_proc_data-letter 1 0x1e (omega arith) refl (omega arith) refl

-- The release of shift, and a key after the escape 0xe0.
shift_released : kbd_proc_data 1 1 0xaa ≡ (0, pos 0)
unfolding kbd_proc_data
shift_released = refl

delete_key : kbd_proc_data (kbd_proc_data 0 1 0xe0).0 1 0x53 ≡ (0, pos 0xe9)
unfolding kbd_proc_data
delete_key = refl
