-- ===== src/Kern/Paging/Remove.antt =====
-- sched/kern/pmap.c: page_remove against the processor's walk.
use sistemas_operativos_1c.Base.{
  ℕ, ◌+◌, ◌/◌, ◌<◌, ◌≡◌, ◌≢◌, refl, ap, ◌∙◌, subst, List, Option, none, some, arith,
}
use native.Mathlib.Decide.{ℕ_discrete}
use sistemas_operativos_1c.Kern.Errors.{utop}
use sistemas_operativos_1c.Kern.Pages.{Pages}
use sistemas_operativos_1c.Kern.Paging.{entry, page_remove, pdx}
use sistemas_operativos_1c.Kern.Paging.Space.{
  IsSpace, KernelKept, written-KernelKept, DataKept, written-DataKept, translate, translate_empty,
  translate_written, translate_other, mapped_entry, mapped_entry_there, mapped_entry_none,
}
use sistemas_operativos_1c.Kern.Paging.Mapped.{
  IsMapping, refs_to, page_remove-Removed, page_remove-none,
}

-- Pages below UTOP other than that of `va` are mapped as before, and so are the kernel's entries.
abbrev pub OthersKept : Pages → Pages → (pgdir va : ℕ) → Type 0
OthersKept m m' pgdir va =
    ((a : ℕ) → a < utop → a / 4096 ≢ va / 4096 → translate m' pgdir a ≡ translate m pgdir a)
    × KernelKept m m' pgdir

-- What `page_remove` does: it does not panic, `va` is no longer mapped, nothing else changes for the
-- processor, nor in the pages in use that are no tables, each page loses the references that the entry stood for, and the tables stay in order.
abbrev pub Unmapped : (npages : ℕ) → Pages → (pgdir va : ℕ) → List ℕ → Option Pages → Type 0
Unmapped npages m pgdir va xs o =
    (m' : Pages) × (o ≡ some m')
    × (translate m' pgdir va ≡ none)
    × OthersKept m m' pgdir va
    × DataKept m m' pgdir xs
    × ((r : ℕ) → (m'.pages r).pp_ref + refs_to (mapped_entry m pgdir va) r ≡ (m.pages r).pp_ref)
    × (ys : List ℕ) × IsSpace npages m' pgdir ys

-- In a directory that maps itself at UVPT and is in order below UTOP, `page_remove` at an address below UTOP
-- whose entry is 0 or maps a page with references does not panic: the processor no longer maps the address,
-- it maps all other pages below UTOP as before, the directory's entries from UTOP on and the pages in use
-- that are neither the directory nor its tables below UTOP keep their contents, each page loses just the references that the entry stood for,
-- and the tables stay in order.
pub page_remove-Unmapped :
    (npages : ℕ) (m : Pages) (pgdir va : ℕ) (xs : List ℕ)
    → IsSpace npages m pgdir xs
    → va < utop
    → IsMapping npages m pgdir xs (mapped_entry m pgdir va)
    → Unmapped npages m pgdir va xs (page_remove npages m pgdir va)
page_remove-Unmapped npages m pgdir va xs space low mapping =
    elim (ℕ_discrete (entry m (pgdir, pdx va)) 0) [
      | yes empty ↦ (
        m,
        page_remove-none npages m pgdir va xs empty,
        translate_empty m pgdir va empty,
        (λ a low_a ne. refl, λ i high. refl),
        λ q i apart out. refl,
        λ r. rw (mapped_entry_none m pgdir va empty) (omega arith),
        xs,
        space,
      )
      | no table ↦
          let there = mapped_entry_there m pgdir va table in
          let (m', removed) =
            page_remove-Removed npages m pgdir va xs space low table
              (subst (IsMapping npages m pgdir xs) there mapping) in
          (
            m',
            removed.step,
            translate_written npages m m' pgdir va 0 xs space low table removed.written,
            (
              λ a low_a ne.
                  translate_other npages m m' pgdir va 0 xs space low table removed.written a low_a
                    ne,
              written-KernelKept npages m m' pgdir va 0 xs space low table removed.written,
            ),
            written-DataKept npages m m' pgdir va 0 xs space low table removed.written,
            λ r. ap (λ (pte : ℕ). (m'.pages r).pp_ref + refs_to pte r) there ∙ removed.counts r,
            removed.after.0,
            removed.after.1,
          )
    ]
