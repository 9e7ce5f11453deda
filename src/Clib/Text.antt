-- ===== src/Clib/Text.antt =====
-- sched/lib/string.c: routines on strings, which are the bytes before the final null byte.
use sistemas_operativos_1c.Base.{
  ℕ, zero, suc, ◌+◌, ◌-◌, List, [], ◌∷◌, Option, none, some, Array, update, ◌==◌, if◌then◌else◌,
}
use sistemas_operativos_1c.Base.Int.{ℤ, pos, ◌-ℤ◌}

unfoldable pub strlen : List ℕ → ℕ
strlen [] = 0
strlen (c ∷ s) = strlen s + 1

unfoldable pub strnlen : List ℕ → (size : ℕ) → ℕ
strnlen s zero = 0
strnlen [] (suc size) = 0
strnlen (c ∷ s) (suc size) = strnlen s size + 1

-- Strings are copied into memory, an array of bytes, with the null byte.
unfoldable pub strcpy : Array ℕ → (dst : ℕ) → List ℕ → Array ℕ
strcpy mem dst [] = update mem dst 0
strcpy mem dst (c ∷ src) = strcpy (update mem dst c) (dst + 1) src

-- Fills the block of `size` bytes, with null bytes behind the string.
unfoldable pub strncpy : Array ℕ → (dst : ℕ) → List ℕ → (size : ℕ) → Array ℕ
strncpy mem dst src zero = mem
strncpy mem dst [] (suc size) = strncpy (update mem dst 0) (dst + 1) [] size
strncpy mem dst (c ∷ src) (suc size) = strncpy (update mem dst c) (dst + 1) src size

-- With `left` bytes of room besides the null byte: the memory, and where `dst` ends.
unfoldable pub strlcpy_loop : Array ℕ → (dst : ℕ) → List ℕ → (left : ℕ) → Array ℕ × ℕ
strlcpy_loop mem dst src zero = (update mem dst 0, dst)
strlcpy_loop mem dst [] (suc left) = (update mem dst 0, dst)
strlcpy_loop mem dst (c ∷ src) (suc left) = strlcpy_loop (update mem dst c) (dst + 1) src left

abbrev pub count_from : ℕ → Array ℕ × ℕ → Array ℕ × ℕ
count_from dst_in (mem, dst) = (mem, dst - dst_in)

unfoldable pub strlcpy : Array ℕ → (dst : ℕ) → List ℕ → (size : ℕ) → Array ℕ × ℕ
strlcpy mem dst src zero = (mem, 0)
strlcpy mem dst src (suc left) = count_from dst (strlcpy_loop mem dst src left)

-- The difference of the first bytes that differ, where the end of a string counts as a null byte.
unfoldable pub strcmp : List ℕ → List ℕ → ℤ
strcmp [] [] = pos 0
strcmp [] (d ∷ q) = pos 0 -ℤ pos d
strcmp (c ∷ p) [] = pos c -ℤ pos 0
strcmp (c ∷ p) (d ∷ q) = let rest = strcmp p q in if c == d then rest else pos c -ℤ pos d

unfoldable pub strncmp : List ℕ → List ℕ → ℕ → ℤ
strncmp p q zero = pos 0
strncmp [] [] (suc n) = pos 0
strncmp [] (d ∷ q) (suc n) = pos 0 -ℤ pos d
strncmp (c ∷ p) [] (suc n) = pos c -ℤ pos 0
strncmp (c ∷ p) (d ∷ q) (suc n) =
    let rest = strncmp p q n in if c == d then rest else pos c -ℤ pos d

-- The string from its first `c` on; `strchr` answers a null pointer without one.
unfoldable pub strchr : List ℕ → (c : ℕ) → Option (List ℕ)
strchr [] c = none
strchr (b ∷ s) c = let rest = strchr s c in if b == c then some (b ∷ s) else rest

unfoldable pub strfind : List ℕ → (c : ℕ) → List ℕ
strfind [] c = []
strfind (b ∷ s) c = let rest = strfind s c in if b == c then b ∷ s else rest
