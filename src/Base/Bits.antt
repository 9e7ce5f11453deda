-- ===== src/Base/Bits.antt =====
-- Facts about `bit_and` and `bit_or` at variables, for flags that are tested and joined to page numbers.
use Prim.Native.Nat.{
  ℕ, zero, suc, ◌+◌, ◌-◌, ◌*◌, ◌/◌, ◌%◌, ◌^◌, ◌≤◌, ◌<◌, min, max, bit_and, bit_or, digits, bitwise,
  bit_and-bitwise, bit_or-bitwise,
}
use mathlib.Core.Path.{◌≡◌, refl, sym, ap, ◌∙◌}
use native.Mathlib.Omega.{arith}
use native.Mathlib.Nat.{pow-suc, mul_assoc}

-- An operation on digits, `f`, and its result where the first number has run out, `z`.
module _ (z : ℕ → ℕ) (f : ℕ → ℕ → ℕ) (z_step : (b : ℕ) → z b ≡ z (b / 2) * 2 + f 0 (b % 2)) where
  -- One digit more than the first number can have makes no difference, nor do `k` more.
  one_more : (n a b : ℕ) → a ≤ n → digits z f (suc n) a b ≡ digits z f n a b
  one_more zero zero b enough = refl
  one_more (suc n) zero b enough = refl
  one_more zero (suc a) b enough = absurd (omega arith)
  one_more (suc n) (suc a) b enough =
      ap (λ (d : ℕ). d * 2 + f (suc a % 2) (b % 2)) (one_more n (suc a / 2) (b / 2) (omega arith))

  some_more : (k a b : ℕ) → digits z f (a + k) a b ≡ bitwise z f a b
  some_more zero a b = ap (λ (n : ℕ). digits z f n a b) (omega arith)
  some_more (suc k) a b =
      let next : a + suc k ≡ suc (a + k) = omega arith in
      ap (λ (n : ℕ). digits z f n a b) next ∙ one_more (a + k) a b (omega arith) ∙ some_more k a b

  bitwise_step : (a b : ℕ) → bitwise z f a b ≡ bitwise z f (a / 2) (b / 2) * 2 + f (a % 2) (b % 2)
  bitwise_step zero b = z_step b
  bitwise_step (suc a) b =
      let half : ℕ = suc a / 2 in
      let split : half + (a - half) ≡ a = omega arith in
      ap (λ (d : ℕ). d * 2 + f (suc a % 2) (b % 2))
        (ap (λ (n : ℕ). digits z f n half (b / 2)) (sym split) ∙ some_more (a - half) half (b / 2))

pub bit_or_step : (a b : ℕ) → bit_or a b ≡ bit_or (a / 2) (b / 2) * 2 + max (a % 2) (b % 2)
bit_or_step a b = omega (
  arith,
  bit_or-bitwise a b,
  bit_or-bitwise (a / 2) (b / 2),
  bitwise_step (λ b. b) max (λ b. omega arith) a b,
)

pub bit_and_step : (a b : ℕ) → bit_and a b ≡ bit_and (a / 2) (b / 2) * 2 + min (a % 2) (b % 2)
bit_and_step a b = omega (
  arith,
  bit_and-bitwise a b,
  bit_and-bitwise (a / 2) (b / 2),
  bitwise_step (λ b. zero) min (λ b. omega arith) a b,
)

-- By halves, as often as `n` says.
or_nothing : (n a : ℕ) → a ≤ n → bit_or a 0 ≡ a
or_nothing n zero enough = bit_or-bitwise 0 0
or_nothing zero (suc a) enough = absurd (omega arith)
or_nothing (suc n) (suc a) enough =
    let above = or_nothing n (suc a / 2) (omega arith) in
    bit_or_step (suc a) 0 ∙ ap (λ (d : ℕ). d * 2 + max (suc a % 2) 0) above ∙ omega arith

pub bit_or-zero : (a : ℕ) → bit_or a 0 ≡ a
bit_or-zero a = or_nothing a a (omega arith)

pub zero-bit_and : (b : ℕ) → bit_and 0 b ≡ 0
zero-bit_and b = bit_and-bitwise 0 b

and_nothing : (n a : ℕ) → a ≤ n → bit_and a 0 ≡ 0
and_nothing n zero enough = zero-bit_and 0
and_nothing zero (suc a) enough = absurd (omega arith)
and_nothing (suc n) (suc a) enough =
    let above = and_nothing n (suc a / 2) (omega arith) in
    bit_and_step (suc a) 0 ∙ ap (λ (d : ℕ). d * 2 + min (suc a % 2) 0) above ∙ omega arith

pub bit_and-zero : (a : ℕ) → bit_and a 0 ≡ 0
bit_and-zero a = and_nothing a a (omega arith)

-- Setting the lowest digit.
pub bit_or-one : (a : ℕ) → bit_or a 1 ≡ a / 2 * 2 + 1
bit_or-one a = omega (arith, bit_or_step a 1, bit_or-zero (a / 2))

-- A number that has all the digits of an odd mask is odd.
pub bit_and-odd : (a mask : ℕ) → mask % 2 ≡ 1 → bit_and a mask ≡ mask → a % 2 ≡ 1
bit_and-odd a mask odd all = omega (arith, bit_and_step a mask)

-- Flags below 2 ^ k are added to a number whose lowest k digits are 0.
pub bit_or-flags : (k p flags : ℕ) → flags < 2 ^ k → bit_or (p * 2 ^ k) flags ≡ p * 2 ^ k + flags
bit_or-flags zero p flags h =
    let none : flags ≡ 0 = omega arith in
    ap (bit_or (p * 1)) none ∙ bit_or-zero (p * 1) ∙ omega arith
bit_or-flags (suc k) p flags h =
    let power : 2 ^ suc k ≡ 2 ^ k * 2 = pow-suc 2 k in
    let doubled : p * 2 ^ suc k ≡ p * 2 ^ k * 2 =
      ap (λ (n : ℕ). p * n) power ∙ sym (mul_assoc p (2 ^ k) 2) in
    let half : p * 2 ^ suc k / 2 ≡ p * 2 ^ k = omega arith in
    omega (
      arith,
      bit_or_step (p * 2 ^ suc k) flags,
      ap (λ (n : ℕ). bit_or n (flags / 2)) half,
      bit_or-flags k p (flags / 2) (omega arith),
    )

pub bit_or-lt : (k a b : ℕ) → a < 2 ^ k → b < 2 ^ k → bit_or a b < 2 ^ k
bit_or-lt zero a b low low' =
    let first : a ≡ 0 = omega arith in
    let second : b ≡ 0 = omega arith in rw (first, second) (omega (arith, bit_or-zero 0))
bit_or-lt (suc k) a b low low' =
    let power : 2 ^ suc k ≡ 2 ^ k * 2 = pow-suc 2 k in
    omega (arith, bit_or_step a b, bit_or-lt k (a / 2) (b / 2) (omega arith) (omega arith))

abbrev halved : ℕ → ℕ → ℕ
halved zero a = a
halved (suc k) a = halved k (a / 2)

bit_and-halved : (k a b : ℕ) → bit_and a b ≡ 0 → bit_and (halved k a) (halved k b) ≡ 0
bit_and-halved zero a b apart = apart
bit_and-halved (suc k) a b apart =
    bit_and-halved k (a / 2) (b / 2) (omega (arith, bit_and_step a b))

bit_and-ones : (k a : ℕ) → a < 2 ^ k → bit_and a (2 ^ k - 1) ≡ 0 → a ≡ 0
bit_and-ones zero a low apart = omega arith
bit_and-ones (suc k) a low apart =
    let power : 2 ^ suc k ≡ 2 ^ k * 2 = pow-suc 2 k in
    let half : (2 ^ suc k - 1) / 2 ≡ 2 ^ k - 1 = omega arith in
    let step = bit_and_step a (2 ^ suc k - 1) in
    let apart' : bit_and (a / 2) (2 ^ k - 1) ≡ 0 =
      ap (bit_and (a / 2)) (sym half) ∙ omega (arith, step) in
    omega (arith, step, bit_and-ones k (a / 2) (omega arith) apart')

-- A word without the upper twenty bits, whatever the mask asks of the lower twelve.
pub bit_and-page :
    (a mask : ℕ) → a < 2 ^ 32 → mask / 4096 ≡ 2 ^ 20 - 1 → bit_and a mask ≡ 0 → a < 4096
bit_and-page a mask low upper apart =
    let shifted : halved 12 mask ≡ 2 ^ 20 - 1 = omega arith in
    let zero_above =
      bit_and-ones 20 (halved 12 a) (omega arith)
        (ap (bit_and (halved 12 a)) (sym shifted) ∙ bit_and-halved 12 a mask apart) in
    omega (arith, zero_above)
