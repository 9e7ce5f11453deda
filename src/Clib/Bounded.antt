-- ===== src/Clib/Bounded.antt =====
-- sched/lib/string.c: bounded copies and comparisons of strings.
use native.Mathlib.Decide.{dec_lt, ℕ_discrete}
use mathlib.Core.Path.{ap₂}
use sistemas_operativos_1c.Base.{
  length-take, subst, ℕ, zero, suc, ◌+◌, ◌-◌, ◌≤◌, ◌<◌, ◌≡◌, refl, ap, ◌∙◌, inl, inr, List, [], ◌∷◌,
  ◌&&◌, Array, update, leb, get_or, ◌==◌, ==_iff, if◌then◌else◌, min, length, take, arith,
  Bool-cases, ◌↔◌,
}
use sistemas_operativos_1c.Base.Int.{pos, ◌-ℤ◌, -ℤ_parts}
use sistemas_operativos_1c.Clib.Text.{strlcpy, strlcpy_loop, strcmp}

-- The byte at `i` of a memory into which `xs` is put at `dst`, with a null byte behind it.
abbrev pub ended : Array ℕ → (dst : ℕ) → List ℕ → Array ℕ
ended mem dst xs i = if leb dst i && leb i (dst + length xs) then get_or xs (i - dst) 0 else mem i

ended_nil : (mem : Array ℕ) (dst i : ℕ) → update mem dst 0 i ≡ ended mem dst [] i
unfolding update
ended_nil mem dst i = ground arith

get_or_later :
    (c : ℕ) (xs : List ℕ) (dst i : ℕ)
    → dst < i
    → get_or xs (i - (dst + 1)) 0 ≡ get_or (c ∷ xs) (i - dst) 0
get_or_later c xs dst i h =
    let next : suc (i - (dst + 1)) ≡ i - dst = omega arith in ap (λ k. get_or (c ∷ xs) k 0) next

get_or_here : (c : ℕ) (xs : List ℕ) (k : ℕ) → k ≡ 0 → get_or (c ∷ xs) k 0 ≡ c
get_or_here c xs zero h = refl
get_or_here c xs (suc k) h = absurd (omega arith)

ended_cons :
    (mem : Array ℕ) (dst c : ℕ) (xs : List ℕ) (i : ℕ)
    → ended (update mem dst c) (dst + 1) xs i ≡ ended mem dst (c ∷ xs) i
unfolding update
ended_cons mem dst c xs i = elim (dec_lt dst i) [
  | yes behind ↦ ground (arith, get_or_later c xs dst i behind)
  | no before ↦ elim (ℕ_discrete dst i) [
    | yes here ↦ ground (arith, get_or_here c xs (i - dst) (omega arith))
    | no other ↦ ground arith
  ]
]

strlcpy_loop_lem :
    (left : ℕ) (mem : Array ℕ) (dst : ℕ) (src : List ℕ)
    → ((i : ℕ) → (strlcpy_loop mem dst src left).0 i ≡ ended mem dst (take left src) i)
      × ((strlcpy_loop mem dst src left).1 ≡ dst + length (take left src))
unfolding strlcpy_loop update
strlcpy_loop_lem zero mem dst src = (λ i. ended_nil mem dst i, omega arith)
strlcpy_loop_lem (suc left) mem dst [] = (λ i. ended_nil mem dst i, omega arith)
strlcpy_loop_lem (suc left) mem dst (c ∷ src) =
    let (bytes, end) = strlcpy_loop_lem left (update mem dst c) (dst + 1) src in
    (λ i. bytes i ∙ ended_cons mem dst c (take left src) i, omega arith)

-- With room for at least one byte, `strlcpy` writes the first `size - 1` bytes of the string, or all of it where
-- it is shorter, and a null byte behind them, changes nothing else, and answers how many bytes stand before
-- the null byte.
pub strlcpy-bounded :
    (mem : Array ℕ) (dst : ℕ) (src : List ℕ) (size : ℕ)
    → 1 ≤ size
    → ((i : ℕ) → (strlcpy mem dst src size).0 i ≡ ended mem dst (take (size - 1) src) i)
      × ((strlcpy mem dst src size).1 ≡ min (size - 1) (length src))
unfolding strlcpy
strlcpy-bounded mem dst src zero h = absurd (omega arith)
strlcpy-bounded mem dst src (suc left) h =
    let (bytes, end) = strlcpy_loop_lem left mem dst src in
    let room : suc left - 1 ≡ left = omega arith in
    rw room (bytes, omega (arith, end, length-take left src))

-- No byte of a string is the null byte.
abbrev pub Bytes : List ℕ → Type 0
Bytes [] = Unit {0}
Bytes (c ∷ s) = (0 < c) × Bytes s

strcmp-equal : (p q : List ℕ) → Bytes p → Bytes q → strcmp p q ≡ pos 0 → p ≡ q
unfolding strcmp
strcmp-equal [] [] b₁ b₂ h = refl
strcmp-equal [] (d ∷ q) b₁ (low, b₂) h = absurd (ground (arith, -ℤ_parts (pos 0) (pos d)))
strcmp-equal (c ∷ p) [] (low, b₁) b₂ h = absurd (ground (arith, -ℤ_parts (pos c) (pos 0)))
strcmp-equal (c ∷ p) (d ∷ q) (low, b₁) (low', b₂) h = elim (Bool-cases (c == d)) [
  | inl same ↦
      let later : strcmp p q ≡ pos 0 = rw same at h in
      ap₂ ◌∷◌ ((==_iff c d).0 same) (strcmp-equal p q b₁ b₂ later)
  | inr other ↦
      let difference : pos c -ℤ pos d ≡ pos 0 = rw other at h in
      absurd (ground (arith, -ℤ_parts (pos c) (pos d)))
]

strcmp_self : (p : List ℕ) → strcmp p p ≡ pos 0
unfolding strcmp
strcmp_self [] = refl
strcmp_self (c ∷ p) = rw ((==_iff c c).1 refl) (strcmp_self p)

-- For strings without a null byte inside, `strcmp` answers zero for equal ones, and only for these.
pub strcmp-zero_iff : (p q : List ℕ) → Bytes p → Bytes q → (strcmp p q ≡ pos 0) ↔ (p ≡ q)
strcmp-zero_iff p q b₁ b₂ =
    (strcmp-equal p q b₁ b₂, λ same. subst (λ r. strcmp p r ≡ pos 0) same (strcmp_self p))
