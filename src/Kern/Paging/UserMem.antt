-- ===== src/Kern/Paging/UserMem.antt =====
-- sched/kern/pmap.c: user_mem_check.
pub mod Sound
use Prim.Native.Nat.{bit_and, bit_or}
use sistemas_operativos_1c.Base.{
  ℕ, zero, suc, ◌+◌, ◌-◌, ◌*◌, ◌/◌, ◌%◌, ◌^◌, ◌≤◌, ◌<◌, ◌≡◌, ◌⊎◌, inl, inr, refl, sym, ap, ◌∙◌,
  subst, Bool, true, false, not, List, Option, none, some, ltb, arith, ◌==◌, if◌then◌else◌, ◌>>=◌,
  lt→ltb,
}
use native.Mathlib.Decide.{ℕ_discrete, dec_lt}
use sistemas_operativos_1c.Base.Bits.{bit_or-one, bit_and-odd}
use sistemas_operativos_1c.Base.Int.{ℤ, pos}
use sistemas_operativos_1c.Kern.Errors.{e_fault, utop, pgsize}
use sistemas_operativos_1c.Kern.Pages.{Pages}
use sistemas_operativos_1c.Kern.Paging.{
  Slot, entry, pgdir_walk, pdx, ptx, pte_p, round_down, round_up,
}
use sistemas_operativos_1c.Kern.Paging.Space.{
  IsSpace, translate, translate_empty, pte_of, if_present,
}
use sistemas_operativos_1c.Kern.Paging.Walk.{pgdir_walk_there, pgdir_walk-none}

-- `(!pte) || ((*pte) & (perm | PTE_P)) != (perm | PTE_P)`, where `mask` is `perm | PTE_P`.
abbrev pub lacks : (mask : ℕ) → Pages × Option Slot → Bool
lacks mask (m, none) = true
lacks mask (m, some pte) = not (bit_and (entry m pte) mask == mask)

-- The loop of `user_mem_check` with the number of its rounds left. The result goes with
-- `user_mem_check_addr`.
unfoldable pub check_pages :
    (npages : ℕ) → Pages → (pgdir mask va_lo va_act rounds addr : ℕ) → Option (ℤ × ℕ)
check_pages npages m pgdir mask va_lo va_act zero addr = some (pos 0, addr)
check_pages npages m pgdir mask va_lo va_act (suc rounds) addr =
    let rest = check_pages npages m pgdir mask va_lo (va_act + pgsize) rounds addr in
    pgdir_walk npages m pgdir va_act false >>= λ found.
    if lacks mask found then some (e_fault, if ltb va_lo va_act then va_act else va_lo) else rest

unfoldable pub user_mem_check : (npages : ℕ) → Pages → (pgdir va len perm addr : ℕ) → Option (ℤ × ℕ)
user_mem_check npages m pgdir va len perm addr =
    let va_hi = round_up (va + len) in
    if ltb utop va_hi
    then some (e_fault, va)
    else check_pages npages m pgdir (bit_or perm pte_p) va (round_down va)
        ((va_hi - round_down va) / pgsize) addr
