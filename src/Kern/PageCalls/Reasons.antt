-- ===== src/Kern/PageCalls/Reasons.antt =====
-- sched/kern/syscall.c: what the comments of the calls on pages say of addresses, permissions and mappings, and
-- that the tests of the code mean it.
use Prim.Native.Nat.{bit_and, bit_or, min}
use sistemas_operativos_1c.Base.{
  ℕ, zero, suc, ◌+◌, ◌-◌, ◌*◌, ◌/◌, ◌%◌, ◌^◌, ◌≤◌, ◌<◌, ◌≡◌, ◌≢◌, ◌⊎◌, inl, inr, refl, sym, ap, ◌∙◌,
  true, Option, none, some, arith, Bool-cases,
}
use native.Mathlib.Decide.{ℕ_discrete, dec_lt}
use sistemas_operativos_1c.Base.Bits.{
  bit_or_step, bit_and_step, bit_or-one, bit_and-zero, zero-bit_and,
}
use sistemas_operativos_1c.Base.Int.{negsuc}
use sistemas_operativos_1c.Kern.Errors.{utop}
use sistemas_operativos_1c.Kern.Env.{Table, Lookup, envid2env, denied, envx, is_free}
use sistemas_operativos_1c.Kern.Pages.{Pages}
use sistemas_operativos_1c.Kern.Paging.{Slot, entry, page_lookup, pgdir_walk, pa2page}
use sistemas_operativos_1c.Kern.Paging.Space.{mapped_entry}
use sistemas_operativos_1c.Kern.PageCalls.{bad_address, check_perm, has, widens}
use sistemas_operativos_1c.Kern.PageCalls.NewPage.{user_perm}

-- "va >= UTOP, or va is not page-aligned"
abbrev pub Misplaced : ℕ → Type 0
Misplaced va = (utop ≤ va) ⊎ (va % 4096 ≢ 0)

pub bad_address-Misplaced : (va : ℕ) → bad_address va ≡ true → Misplaced va
bad_address-Misplaced va bad = elim (dec_lt va utop) [
  | yes low ↦ inr (λ aligned. ground arith)
  | no high ↦ inl (omega arith)
]

-- The environment is neither the caller nor a child of the caller.
abbrev Stranger : Table → (cur : Option ℕ) → ℕ → Type 0
Stranger t cur e =
    (c : ℕ) × (cur ≡ some c) × (e ≢ c) × ((t.envs e).env_parent_id ≢ (t.envs c).env_id)

-- "environment envid doesn't currently exist, or the caller doesn't have permission to change envid"
abbrev pub Unreachable : Table → (envid : ℕ) → Type 0
Unreachable t envid =
    (envid ≢ 0)
    × ((is_free (t.envs (envx envid)).env_status ≡ true)
        ⊎ ((t.envs (envx envid)).env_id ≢ envid)
        ⊎ Stranger t t.curenv (envx envid))

denied-Stranger :
    (t : Table) (e : ℕ) (cur : Option ℕ) → denied t e cur ≡ Lookup.bad_env → Stranger t cur e
unfolding denied
denied-Stranger t e none bad = cc
denied-Stranger t e (some c) bad = (c, refl, λ self. ground arith, λ child. ground arith)

pub bad_env-Unreachable :
    (t : Table) (envid : ℕ) → envid2env t envid true ≡ Lookup.bad_env → Unreachable t envid
unfolding envid2env
bad_env-Unreachable t envid bad = (
  λ self. ground arith,
  elim (Bool-cases (is_free (t.envs (envx envid)).env_status)) [
    | inl free ↦ inl free
    | inr used ↦ elim (ℕ_discrete (t.envs (envx envid)).env_id envid) [
      | yes same ↦ inr (inr (denied-Stranger t (envx envid) t.curenv (ground arith)))
      | no other ↦ inr (inl other)
    ]
  ],
)

-- "no other bits may be set" than PTE_U, PTE_P, PTE_AVAIL and PTE_W.
abbrev pub Inappropriate : ℕ → Type 0
Inappropriate perm = bit_and perm 0xfffff1f8 ≢ 0

has_p : (perm : ℕ) → bit_and (user_perm perm) 1 ≢ 0
has_p perm e = absurd (omega (arith, bit_and_step (user_perm perm) 1, bit_or-one (bit_or perm 4)))

has_u : (perm : ℕ) → bit_and (user_perm perm) 4 ≢ 0
has_u perm e = absurd (
    omega (
      arith,
      bit_and_step (user_perm perm) 4,
      bit_and_step (user_perm perm / 2) 2,
      bit_and_step (user_perm perm / 2 / 2) 1,
      bit_or-one (bit_or perm 4),
      bit_or_step perm 4,
      bit_or_step (perm / 2) 2,
      bit_or_step (perm / 2 / 2) 1,
    ))

pub check_perm-Inappropriate :
    (perm n : ℕ) → check_perm (user_perm perm) none ≡ negsuc n → Inappropriate (user_perm perm)
unfolding check_perm
check_perm-Inappropriate perm n e fine = ground (arith, has_p perm, has_u perm)

write_bit : (a : ℕ) → bit_and a 2 ≡ a / 2 % 2 * 2
write_bit a = omega (arith, bit_and_step a 2, bit_and_step (a / 2) 1, bit_and-zero (a / 2 / 2))

bit_write : (a : ℕ) → bit_and 2 a ≡ a / 2 % 2 * 2
bit_write a =
    let second : bit_and 1 (a / 2) ≡ bit_and 0 (a / 2 / 2) * 2 + min 1 (a / 2 % 2) =
      bit_and_step 1 (a / 2) in
    let first : bit_and 2 a ≡ bit_and 1 (a / 2) * 2 + min 0 (a % 2) = bit_and_step 2 a in
    omega (arith, first, second, zero-bit_and (a / 2 / 2))

-- "(perm & PTE_W), but srcva is read-only"
abbrev pub Widens : (perm pte : ℕ) → Type 0
Widens perm pte = (perm / 2 % 2 ≡ 1) × (pte / 2 % 2 ≡ 0)

by_bits : (p q : ℕ) → p < 2 → q < 2 → has (p * 2) (2 ^ 32 - 1 - q * 2) ≡ true → (p ≡ 1) × (q ≡ 0)
by_bits zero zero low_p low_q wider = cc
by_bits zero (suc zero) low_p low_q wider = cc
by_bits (suc zero) zero low_p low_q wider = (refl, refl)
by_bits (suc zero) (suc zero) low_p low_q wider = cc
by_bits (suc (suc p)) q low_p low_q wider = absurd (omega arith)
by_bits p (suc (suc q)) low_p low_q wider = absurd (omega arith)

pub widens-Widens : (perm pte : ℕ) → widens perm pte ≡ true → Widens perm pte
widens-Widens perm pte wider = by_bits (perm / 2 % 2) (pte / 2 % 2) (omega arith) (omega arith) (
    ap (λ (n : ℕ). has n (2 ^ 32 - 1 - pte / 2 % 2 * 2)) (sym (write_bit perm))
    ∙ ap (λ (n : ℕ). has (bit_and perm 2) (2 ^ 32 - 1 - n)) (sym (bit_write pte))
    ∙ wider)

bits_of : (p q : ℕ) → p ≡ 1 → q ≡ 0 → has (p * 2) (2 ^ 32 - 1 - q * 2) ≡ true
bits_of p q one nothing = rw (one, nothing) refl

pub Widens-widens : (perm pte : ℕ) → Widens perm pte → widens perm pte ≡ true
Widens-widens perm pte (asked, missing) =
    ap (λ (n : ℕ). has n (2 ^ 32 - 1 - bit_and 2 pte)) (write_bit perm)
    ∙ ap (λ (n : ℕ). has (perm / 2 % 2 * 2) (2 ^ 32 - 1 - n)) (bit_write pte)
    ∙ bits_of (perm / 2 % 2) (pte / 2 % 2) asked missing

-- "srcva is not mapped"
pub page_lookup-unmapped :
    (npages : ℕ) (m : Pages) (pgdir va : ℕ)
    → page_lookup npages m pgdir va ≡ some none
    → mapped_entry m pgdir va ≡ 0
unfolding page_lookup pgdir_walk pa2page
page_lookup-unmapped npages m pgdir va e = ground arith

pub page_lookup-mapped :
    (npages : ℕ) (m : Pages) (pgdir va page : ℕ) (pte : Slot)
    → page_lookup npages m pgdir va ≡ some (some (page, pte))
    → mapped_entry m pgdir va ≡ entry m pte
unfolding page_lookup pgdir_walk pa2page
page_lookup-mapped npages m pgdir va page pte e = ground arith
