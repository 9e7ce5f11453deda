-- ===== src/Clib/Memory.antt =====
-- sched/lib/string.c: routines on memory, in their portable form, where memory is an array of bytes and a
-- pointer is an index.
use sistemas_operativos_1c.Base.{
  ℕ, zero, suc, ◌+◌, ◌-◌, ◌%◌, ◌&&◌, Array, update, ltb, ◌==◌, if◌then◌else◌,
}
use sistemas_operativos_1c.Base.Int.{ℤ, pos, ◌-ℤ◌}

-- `while (--m >= 0) *p++ = c;`
unfoldable pub memset : Array ℕ → (v c n : ℕ) → Array ℕ
memset mem v c zero = mem
memset mem v c (suc n) = memset (update mem v (c % 256)) (v + 1) c n

-- `while (n-- > 0) *--d = *--s;`, where `s` and `d` point behind the blocks.
unfoldable pub copy_down : Array ℕ → (d s n : ℕ) → Array ℕ
copy_down mem d s zero = mem
copy_down mem d s (suc n) = copy_down (update mem (d - 1) (mem (s - 1))) (d - 1) (s - 1) n

-- `while (n-- > 0) *d++ = *s++;`
unfoldable pub copy_up : Array ℕ → (d s n : ℕ) → Array ℕ
copy_up mem d s zero = mem
copy_up mem d s (suc n) = copy_up (update mem d (mem s)) (d + 1) (s + 1) n

unfoldable pub memmove : Array ℕ → (dst src n : ℕ) → Array ℕ
memmove mem dst src n =
    if ltb src dst && ltb dst (src + n)
    then copy_down mem (dst + n) (src + n) n
    else copy_up mem dst src n

unfoldable pub memcpy : Array ℕ → (dst src n : ℕ) → Array ℕ
memcpy mem dst src n = memmove mem dst src n

unfoldable pub memcmp : Array ℕ → (v1 v2 n : ℕ) → ℤ
memcmp mem v1 v2 zero = pos 0
memcmp mem v1 v2 (suc n) =
    let rest = memcmp mem (v1 + 1) (v2 + 1) n in
    if mem v1 == mem v2 then rest else pos (mem v1) -ℤ pos (mem v2)

-- The address of the first byte that is `c`, or of the end of the block.
unfoldable pub memfind : Array ℕ → (s c n : ℕ) → ℕ
memfind mem s c zero = s
memfind mem s c (suc n) = let rest = memfind mem (s + 1) c n in if mem s == c % 256 then s else rest
