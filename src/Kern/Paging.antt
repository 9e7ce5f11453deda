-- ===== src/Kern/Paging.antt =====
-- sched/kern/pmap.c and the macros of sched/inc/mmu.h: page tables of two levels, in the bytes of the pages. A
-- page is named by its number, a pointer to an entry by a page and the entry's index; a panic is `none`.
pub mod Entries
pub mod Space
pub mod Walk
pub mod NewTable
pub mod Walked
pub mod Mapped
pub mod Remove
pub mod Insert
pub mod Taken
pub mod UserMem
use Prim.Native.Nat.{bit_and, bit_or}
use sistemas_operativos_1c.Base.{
  ℕ, zero, suc, ◌+◌, ◌-◌, ◌*◌, ◌/◌, ◌%◌, ◌^◌, Bool, true, false, ◌&&◌, ◌||◌, not, Option, none,
  some, Array, update, ltb, leb, ◌==◌, if◌then◌else◌, ◌>>=◌,
}
use sistemas_operativos_1c.Base.Int.{ℤ, pos}
use sistemas_operativos_1c.Kern.Errors.{e_no_mem, e_fault, utop, pgsize}
use sistemas_operativos_1c.Kern.Pages.{PageInfo, Pages, page_alloc, page_decref}

-- PDX, PTX, PGNUM and PTE_ADDR.
abbrev pub pdx : ℕ → ℕ
pdx va = va / 2 ^ 22 % 1024

abbrev pub ptx : ℕ → ℕ
ptx va = va / 2 ^ 12 % 1024

abbrev pub pgnum : ℕ → ℕ
pgnum pa = pa / 2 ^ 12

abbrev pub pte_addr : ℕ → ℕ
pte_addr pte = pte - pte % 4096

abbrev pub page2pa : ℕ → ℕ
page2pa page = page * 2 ^ 12

-- ROUNDDOWN(a, PGSIZE) and ROUNDUP(a, PGSIZE), on 32 bits.
abbrev pub round_down : ℕ → ℕ
round_down a = a - a % pgsize

abbrev pub round_up : ℕ → ℕ
round_up a = round_down ((a + pgsize - 1) % 2 ^ 32)

abbrev pub pte_p : ℕ
pte_p = 1

abbrev pub pte_w : ℕ
pte_w = 2

abbrev pub pte_u : ℕ
pte_u = 4

-- An entry is a little-endian word of 32 bits.
unfoldable pub load_word : Array ℕ → ℕ → ℕ
load_word page k =
    page (4 * k) + 256 * page (4 * k + 1) + 65536 * page (4 * k + 2) + 16777216 * page (4 * k + 3)

unfoldable pub store_word : Array ℕ → ℕ → ℕ → Array ℕ
store_word page k v j = if j / 4 == k then v / 256 ^ (j % 4) % 256 else page j

abbrev pub Slot : Type 0
Slot = ℕ × ℕ

abbrev pub entry : Pages → Slot → ℕ
entry m (page, k) = load_word (m.contents page) k

abbrev pub set_entry : Pages → Slot → ℕ → Pages
set_entry m (page, k) v = record m {
  contents = update m.contents page (store_word (m.contents page) k v);
}

-- The count has 16 bits.
abbrev pub incremented : Pages → ℕ → Pages
incremented m i = record m {
  pages = update m.pages i (record (m.pages i) { pp_ref = ((m.pages i).pp_ref + 1) % 2 ^ 16 });
}

-- The page of a physical address below the end of memory, as `KADDR` and `pa2page` find it.
unfoldable pub pa2page : (npages : ℕ) → ℕ → Option ℕ
pa2page npages pa = if leb npages (pgnum pa) then none else some (pgnum pa)

abbrev pub new_table : Pages × Option ℕ → Slot → Pages
new_table (m, none) pde = m
new_table (m, some page) pde =
    set_entry (incremented m page) pde (bit_or (page2pa page) (pte_p + pte_w + pte_u))

abbrev pub ensure_table : Pages → Slot → (missing : Bool) → Pages
ensure_table m pde missing = if missing then new_table (page_alloc m true) pde else m

abbrev pub walk_table : (npages : ℕ) → Pages → (pde va : ℕ) → Option (Pages × Option Slot)
walk_table npages m pde va =
    if pde == 0
    then some (m, none)
    else (pa2page npages (pte_addr pde) >>= λ table. some (m, some (table, ptx va)))

unfoldable pub pgdir_walk :
    (npages : ℕ) → Pages → (pgdir va : ℕ) → (create : Bool) → Option (Pages × Option Slot)
pgdir_walk npages m pgdir va create =
    let pde : Slot = (pgdir, pdx va) in
    let m' = ensure_table m pde (entry m pde == 0 && create) in
    walk_table npages m' (entry m' pde) va

-- The page and its entry, where `*pte && PTE_P` holds: an entry that is not 0.
abbrev pub mapped_page : (npages : ℕ) → Pages × Option Slot → Option (Option (ℕ × Slot))
mapped_page npages (m, none) = some none
mapped_page npages (m, some pte) =
    if entry m pte == 0
    then some none
    else (pa2page npages (pte_addr (entry m pte)) >>= λ page. some (some (page, pte)))

unfoldable pub page_lookup : (npages : ℕ) → Pages → (pgdir va : ℕ) → Option (Option (ℕ × Slot))
page_lookup npages m pgdir va = pgdir_walk npages m pgdir va false >>= mapped_page npages

-- The tests of `page_remove` are those of `page_lookup`.
abbrev pub unmap : Pages → Option (ℕ × Slot) → Option Pages
unmap m none = some m
unmap m (some (page, pte)) = page_decref m page >>= λ m'. some (set_entry m' pte 0)

unfoldable pub page_remove : (npages : ℕ) → Pages → (pgdir va : ℕ) → Option Pages
page_remove npages m pgdir va = page_lookup npages m pgdir va >>= unmap m

abbrev pub insert_at : (npages pgdir pp va perm : ℕ) → Pages × Option Slot → Option (Pages × ℤ)
insert_at npages pgdir pp va perm (m, none) = some (m, e_no_mem)
insert_at npages pgdir pp va perm (m, some pte) =
    page_remove npages (incremented m pp) pgdir va >>= λ m'.
    some (set_entry m' pte (bit_or (bit_or (page2pa pp) perm) pte_p), pos 0)

unfoldable pub page_insert : (npages : ℕ) → Pages → (pgdir pp va perm : ℕ) → Option (Pages × ℤ)
page_insert npages m pgdir pp va perm =
    pgdir_walk npages m pgdir va true >>= insert_at npages pgdir pp va perm
