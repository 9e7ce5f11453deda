-- ===== src/Kern/Paging/Walk.antt =====
-- sched/kern/pmap.c: pgdir_walk with an existing table and with a new one.
use sistemas_operativos_1c.Base.{
  ℕ, ◌/◌, ◌<◌, ◌≡◌, ◌≢◌, refl, ap, ◌∙◌, Bool, true, false, ◌&&◌, [], Option, none, some, arith,
  ◌==◌,
}
use sistemas_operativos_1c.Kern.Pages.{Pages, take_page, page_alloc}
use sistemas_operativos_1c.Kern.PageList.{FreePages}
use sistemas_operativos_1c.Kern.Paging.{
  entry, new_table, ensure_table, walk_table, pa2page, pte_addr, pgnum, pgdir_walk, pdx, ptx,
}

pub pa2page_lem :
    (npages pte : ℕ) → pte / 4096 < npages → pa2page npages (pte_addr pte) ≡ some (pte / 4096)
unfolding pa2page
pa2page_lem npages pte h =
    let number : pgnum (pte_addr pte) ≡ pte / 4096 = omega arith in rw number (ground arith)

-- The entry of `va` in the table that the directory names.
pub walk_table_lem :
    (npages : ℕ) (m : Pages) (pde va : ℕ)
    → pde ≢ 0
    → pde / 4096 < npages
    → walk_table npages m pde va ≡ some (m, some (pde / 4096, ptx va))
walk_table_lem npages m pde va table low =
    let there : (pde == 0) ≡ false = ground arith in rw (there, pa2page_lem npages pde low) refl

module _ (npages : ℕ) (m : Pages) (pgdir va : ℕ) (create : Bool) where
  -- A table that is there is used, whether or not one may be created.
  pub pgdir_walk_there :
      entry m (pgdir, pdx va) ≢ 0
      → entry m (pgdir, pdx va) / 4096 < npages
      → pgdir_walk npages m pgdir va create
        ≡ some (m, some (entry m (pgdir, pdx va) / 4096, ptx va))
  unfolding pgdir_walk
  pgdir_walk_there table low =
      let there : (entry m (pgdir, pdx va) == 0) ≡ false = ground arith in
      ap
        (λ (b : Bool).
          let m' = ensure_table m (pgdir, pdx va) (b && create) in
          walk_table npages m' (entry m' (pgdir, pdx va)) va)
        there
      ∙ walk_table_lem npages m (entry m (pgdir, pdx va)) va table low

module _ (npages : ℕ) (m : Pages) (pgdir va : ℕ) (empty : entry m (pgdir, pdx va) ≡ 0) where
  -- Without a table the walk goes on in the pages that `ensure_table` leaves.
  pub missing_table :
      (create : Bool)
      → pgdir_walk npages m pgdir va create ≡ (
          let m' = ensure_table m (pgdir, pdx va) create in
          walk_table npages m' (entry m' (pgdir, pdx va)) va)
  unfolding pgdir_walk
  missing_table create =
      ap
        (λ (n : ℕ).
          let m' = ensure_table m (pgdir, pdx va) (n == 0 && create) in
          walk_table npages m' (entry m' (pgdir, pdx va)) va)
        empty

  pub pgdir_walk-none : pgdir_walk npages m pgdir va false ≡ some (m, none)
  pgdir_walk-none = missing_table false ∙ ap (λ (n : ℕ). walk_table npages m n va) empty

  pub pgdir_walk_full : FreePages m [] → pgdir_walk npages m pgdir va true ≡ some (m, none)
  unfolding page_alloc
  pgdir_walk_full full =
      missing_table true
      ∙ ap
          (λ (o : Option ℕ).
            let m' = new_table (take_page m true o) (pgdir, pdx va) in
            walk_table npages m' (entry m' (pgdir, pdx va)) va)
          full
      ∙ ap (λ (n : ℕ). walk_table npages m n va) empty
