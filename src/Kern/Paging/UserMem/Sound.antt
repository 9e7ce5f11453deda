-- ===== src/Kern/Paging/UserMem/Sound.antt =====
-- sched/kern/pmap.c: user_mem_check, against the processor's walk.
use Prim.Native.Nat.{bit_and}
use sistemas_operativos_1c.Base.{
  ℕ, ◌+◌, ◌-◌, ◌/◌, ◌%◌, ◌^◌, ◌≤◌, ◌<◌, ◌≡◌, ◌⊎◌, refl, true, false, List, Option, some, ltb, arith,
}
use sistemas_operativos_1c.Base.Int.{ℤ, pos}
use sistemas_operativos_1c.Kern.Errors.{e_fault, utop, pgsize}
use sistemas_operativos_1c.Kern.Pages.{Pages}
use sistemas_operativos_1c.Kern.Paging.{Slot, pgdir_walk, round_down, round_up}
use sistemas_operativos_1c.Kern.Paging.Space.{IsSpace, translate}
use sistemas_operativos_1c.Kern.Paging.UserMem.{lacks, check_pages, user_mem_check}

-- The processor maps `a`, with all the bits of the mask.
abbrev pub Permits : Pages → (pgdir mask a : ℕ) → Type 0
Permits m pgdir mask a = (pte : ℕ) × (translate m pgdir a ≡ some pte) × (bit_and pte mask ≡ mask)

module _ (npages : ℕ) (m : Pages) (pgdir mask : ℕ) (odd : mask % 2 ≡ 1) where
  -- How the test of one page ends, and what that says.
  abbrev Tested : ℕ → Type 0
  Tested va =
      (r : Pages × Option Slot) × (pgdir_walk npages m pgdir va false ≡ some r)
      × ((lacks mask r ≡ true) × (¬ (Permits m pgdir mask va))
          ⊎ (lacks mask r ≡ false) × Permits m pgdir mask va)

  module _ (xs : List ℕ) (space : IsSpace npages m pgdir xs) where
    -- What the loop has found when it ends, after the pages before `end`.
    abbrev Looped : (va_lo end addr : ℕ) → Option (ℤ × ℕ) → Type 0
    Looped va_lo end addr o =
        ((o ≡ some (pos 0, addr)) × ((a : ℕ) → va_lo ≤ a → a < end → Permits m pgdir mask a))
        ⊎ ((bad : ℕ) × (o ≡ some (e_fault, bad))
            × (va_lo ≤ bad)
            × (bad < end)
            × (¬ (Permits m pgdir mask bad))
            × ((a : ℕ) → va_lo ≤ a → a < bad → Permits m pgdir mask a))

-- How `user_mem_check` of `len` bytes at `va` may end: it accepts, and the processor maps every address of the
-- range with the bits of `mask`; the range goes past UTOP, and `va` is reported; or the address that it
-- reports lies on a page of the range and is not mapped so, while those of the range before it are.
abbrev pub Checked : (m : Pages) (pgdir va len mask addr : ℕ) → Option (ℤ × ℕ) → Type 0
Checked m pgdir va len mask addr o =
    ((o ≡ some (pos 0, addr))
      × (va + len ≤ utop)
      × ((a : ℕ) → va ≤ a → a < va + len → Permits m pgdir mask a))
    ⊎ ((o ≡ some (e_fault, va)) × (utop < va + len))
    ⊎ ((bad : ℕ) × (o ≡ some (e_fault, bad))
        × (va ≤ bad)
        × (bad < round_up (va + len))
        × (¬ (Permits m pgdir mask bad))
        × ((a : ℕ) → va ≤ a → a < bad → Permits m pgdir mask a))

-- A range that goes over the end of the 32-bit addresses and there ends below UTOP, and whose length is at
-- least one page below 2^32, is accepted without a look at any page.
pub user_mem_check_wraps :
    (npages : ℕ) (m : Pages) (pgdir va len perm addr : ℕ)
    → va < 2 ^ 32
    → len + 4096 ≤ 2 ^ 32
    → 2 ^ 32 ≤ va + len
    → va + len < 2 ^ 32 + utop
    → user_mem_check npages m pgdir va len perm addr ≡ some (pos 0, addr)
unfolding user_mem_check check_pages
user_mem_check_wraps npages m pgdir va len perm addr low short over past =
    let user : ltb utop (round_up (va + len)) ≡ false = ground arith in
    let none_left : (round_up (va + len) - round_down va) / pgsize ≡ 0 = omega arith in
    rw (user, none_left) refl
