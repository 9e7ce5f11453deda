-- ===== src/Clib/Moves.antt =====
-- sched/lib/string.c: what a move, a fill and a comparison of blocks do to every byte of memory.
use sistemas_operativos_1c.Base.{
  ℕ, zero, suc, ◌+◌, ◌-◌, ◌%◌, ◌≤◌, ◌<◌, ◌≡◌, refl, sym, ◌∙◌, ◌↔◌, inl, inr, ◌&&◌, Array, update,
  ltb, leb, ◌==◌, ==_iff, if◌then◌else◌, arith, Bool-cases,
}
use mathlib.Core.Path.{subst₂}
use mathlib.Core.Bool.{false≢true}
use sistemas_operativos_1c.Base.Int.{pos, ◌-ℤ◌, -ℤ_parts}
use sistemas_operativos_1c.Clib.Memory.{memset, copy_down, copy_up, memmove, memcmp}

-- The byte at `i` of a memory into which the `n` bytes at `src` are put at `dst`, all at once.
abbrev pub moved : Array ℕ → (dst src n : ℕ) → Array ℕ
moved mem dst src n i = if leb dst i && ltb i (dst + n) then mem (src + (i - dst)) else mem i

copy_up_lem :
    (n : ℕ) (mem : Array ℕ) (d s i : ℕ)
    → (s < d → s + n ≤ d)
    → copy_up mem d s n i ≡ moved mem d s n i
unfolding copy_up update
copy_up_lem zero mem d s i apart = ground arith
copy_up_lem (suc n) mem d s i apart =
    copy_up_lem n (update mem d (mem s)) (d + 1) (s + 1) i (λ low. ground (arith, apart)) ∙ step
  where
    step : moved (update mem d (mem s)) (d + 1) (s + 1) n i ≡ moved mem d s (suc n) i
    step = ground (arith, apart)

copy_down_lem :
    (n : ℕ) (mem : Array ℕ) (dst src i : ℕ)
    → src < dst
    → copy_down mem (dst + n) (src + n) n i ≡ moved mem dst src n i
unfolding copy_down update
copy_down_lem zero mem dst src i low = ground arith
copy_down_lem (suc n) mem dst src i low =
    let d : dst + suc n - 1 ≡ dst + n = omega arith in
    let s : src + suc n - 1 ≡ src + n = omega arith in
    rw (d, s) (copy_down_lem n (update mem (dst + n) (mem (src + n))) dst src i low ∙ step)
  where
    step : moved (update mem (dst + n) (mem (src + n))) dst src n i ≡ moved mem dst src (suc n) i
    step = ground arith

-- `memmove` leaves at `dst` the bytes that stood at `src` before the call, also where the blocks overlap, and
-- changes no byte outside the block at `dst`.
pub memmove-moved :
    (mem : Array ℕ) (dst src n i : ℕ) → memmove mem dst src n i ≡ moved mem dst src n i
unfolding memmove
memmove-moved mem dst src n i = elim (Bool-cases (ltb src dst && ltb dst (src + n))) [
  | inl down ↦ rw down (copy_down_lem n mem dst src i (ground arith))
  | inr up ↦ rw up (copy_up_lem n mem dst src i (λ low. ground arith))
]

-- `memset` sets the bytes of the block to the low byte of `c`, and changes no other.
pub memset_lem :
    (n : ℕ) (mem : Array ℕ) (v c i : ℕ)
    → memset mem v c n i ≡ (if leb v i && ltb i (v + n) then c % 256 else mem i)
unfolding memset update
memset_lem zero mem v c i = ground arith
memset_lem (suc n) mem v c i = ground (arith, memset_lem n (update mem v (c % 256)) (v + 1) c i)

difference : (a b : ℕ) → pos a -ℤ pos b ≡ pos 0 → a ≡ b
difference a b e = ground (arith, -ℤ_parts (pos a) (pos b))

memcmp-equal :
    (n : ℕ) (mem : Array ℕ) (v1 v2 : ℕ)
    → memcmp mem v1 v2 n ≡ pos 0
    → (j : ℕ) → j < n
    → mem (v1 + j) ≡ mem (v2 + j)
unfolding memcmp
memcmp-equal zero mem v1 v2 h j low = absurd (omega arith)
memcmp-equal (suc n) mem v1 v2 h j low = elim (Bool-cases (mem v1 == mem v2)) [
  | inl same ↦
      let later : memcmp mem (v1 + 1) (v2 + 1) n ≡ pos 0 = rw same at h in
      at_index j low (memcmp-equal n mem (v1 + 1) (v2 + 1) later) ((==_iff _ _).0 same)
  | inr other ↦
      let zero_difference : pos (mem v1) -ℤ pos (mem v2) ≡ pos 0 = rw other at h in
      absurd
        (false≢true (sym other ∙ (==_iff _ _).1 (difference (mem v1) (mem v2) zero_difference)))
]
  where
    at_index :
        (j : ℕ)
        → j < suc n
        → ((k : ℕ) → k < n → mem (v1 + 1 + k) ≡ mem (v2 + 1 + k))
        → mem v1 ≡ mem v2
        → mem (v1 + j) ≡ mem (v2 + j)
    at_index zero low rest first =
        let left : v1 ≡ v1 + 0 = omega arith in
        let right : v2 ≡ v2 + 0 = omega arith in subst₂ (λ a b. mem a ≡ mem b) left right first
    at_index (suc k) low rest first =
        let left : v1 + 1 + k ≡ v1 + suc k = omega arith in
        let right : v2 + 1 + k ≡ v2 + suc k = omega arith in
        subst₂ (λ a b. mem a ≡ mem b) left right (rest k (omega arith))

memcmp-zero :
    (n : ℕ) (mem : Array ℕ) (v1 v2 : ℕ)
    → ((j : ℕ) → j < n → mem (v1 + j) ≡ mem (v2 + j))
    → memcmp mem v1 v2 n ≡ pos 0
unfolding memcmp
memcmp-zero zero mem v1 v2 h = refl
memcmp-zero (suc n) mem v1 v2 h =
    let left : v1 + 0 ≡ v1 = omega arith in
    let right : v2 + 0 ≡ v2 = omega arith in
    let first : mem v1 ≡ mem v2 = subst₂ (λ a b. mem a ≡ mem b) left right (h 0 (omega arith)) in
    rw ((==_iff (mem v1) (mem v2)).1 first) (memcmp-zero n mem (v1 + 1) (v2 + 1) later)
  where
    later : (j : ℕ) → j < n → mem (v1 + 1 + j) ≡ mem (v2 + 1 + j)
    later j low =
        let left : v1 + suc j ≡ v1 + 1 + j = omega arith in
        let right : v2 + suc j ≡ v2 + 1 + j = omega arith in
        subst₂ (λ a b. mem a ≡ mem b) left right (h (suc j) (omega arith))

-- `memcmp` answers zero for equal blocks, and only for these.
pub memcmp-zero_iff :
    (n : ℕ) (mem : Array ℕ) (v1 v2 : ℕ)
    → (memcmp mem v1 v2 n ≡ pos 0) ↔ ((j : ℕ) → j < n → mem (v1 + j) ≡ mem (v2 + j))
memcmp-zero_iff n mem v1 v2 = (memcmp-equal n mem v1 v2, memcmp-zero n mem v1 v2)
