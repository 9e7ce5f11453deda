-- ===== src/Kern/Paging/Mapped.antt =====
-- sched/kern/pmap.c: what page_lookup finds, and what page_remove does to tables, counts and the free list.
use sistemas_operativos_1c.Base.{
  ℕ, zero, suc, ◌+◌, ◌-◌, ◌/◌, ◌%◌, ◌^◌, ◌<◌, ◌≡◌, ◌≢◌, ◌⊎◌, inl, inr, refl, ap, ◌∙◌, false, List,
  ◌∷◌, Option, none, some, Array, update, arith, ◌==◌, if◌then◌else◌, ◌>>=◌,
}
use native.Mathlib.Decide.{ℕ_discrete}
use sistemas_operativos_1c.Kern.Errors.{utop}
use sistemas_operativos_1c.Kern.FreeList.{NotIn}
use sistemas_operativos_1c.Kern.Pages.{Pages, page_free, page_decref}
use sistemas_operativos_1c.Kern.PageList.{FreePages, Released, page_decref-Released}
use sistemas_operativos_1c.Kern.Paging.{
  entry, set_entry, load_word, mapped_page, page_lookup, unmap, page_remove, pdx, ptx,
}
use sistemas_operativos_1c.Kern.Paging.Entries.{entry_self, written_other}
use sistemas_operativos_1c.Kern.Paging.Space.{
  IsSpace, IsTable, NotTable, Written, entry_slot, pte_of, written-IsSpace, freed-IsSpace,
}
use sistemas_operativos_1c.Kern.Paging.Walk.{pgdir_walk_there, pgdir_walk-none, pa2page_lem}

-- A page with references, which is on no list.
abbrev pub IsHeld : Pages → List ℕ → ℕ → Type 0
IsHeld m xs q =
    (left : ℕ) × ((m.pages q).pp_ref ≡ suc left)
    × (suc left < 2 ^ 16)
    × ((m.pages q).pp_link ≡ none)
    × NotIn q xs

-- An entry is 0, or it names a page in memory that is held and is no table.
abbrev pub IsMapping : (npages : ℕ) → Pages → (pgdir : ℕ) → List ℕ → (pte : ℕ) → Type 0
IsMapping npages m pgdir xs pte =
    pte ≢ 0 → (pte / 4096 < npages) × NotTable m pgdir (pte / 4096) × IsHeld m xs (pte / 4096)

-- The references to page `r` that an entry stands for.
abbrev pub refs_to : (pte r : ℕ) → ℕ
refs_to pte r = if pte == 0 then 0 else (if pte / 4096 == r then 1 else 0)

contents-page_decref :
    (m : Pages) (q : ℕ) (m' : Pages) → page_decref m q ≡ some m' → m'.contents ≡ m.contents
unfolding page_decref page_free
contents-page_decref m q m' e = ground arith

count-page_decref :
    (m : Pages) (q : ℕ) (m' : Pages) (r : ℕ)
    → page_decref m q ≡ some m'
    → (m'.pages r).pp_ref
      ≡ (if q == r then ((m.pages r).pp_ref + 2 ^ 16 - 1) % 2 ^ 16 else (m.pages r).pp_ref)
unfolding page_decref page_free update
count-page_decref m q m' r e = ground arith

Released-some :
    (left q : ℕ) (xs : List ℕ) (o : Option Pages)
    → Released left q xs o
    → (m' : Pages) × (o ≡ some m') × (FreePages m' xs ⊎ FreePages m' (q ∷ xs))
Released-some zero q xs o (m', e, list) = (m', e, inr list)
Released-some (suc left) q xs o (m', e, list, count) = (m', e, inl list)

-- What `page_remove` does at a slot whose entry is `pte`.
pub record Removed (npages : ℕ) (m : Pages) (pgdir va : ℕ) (xs : List ℕ) (m' : Pages) : Type 0 where
  pub step : page_remove npages m pgdir va ≡ some m'
  pub written : Written m m' (entry_slot m pgdir va) 0
  pub counts : (r : ℕ) → (m'.pages r).pp_ref + refs_to (pte_of m pgdir va) r ≡ (m.pages r).pp_ref
  pub after : (ys : List ℕ) × IsSpace npages m' pgdir ys

module _ (npages : ℕ) (m : Pages) (pgdir va : ℕ) (xs : List ℕ) where
  -- Without a table nothing is found, and nothing is removed.
  pub page_lookup-none : entry m (pgdir, pdx va) ≡ 0 → page_lookup npages m pgdir va ≡ some none
  unfolding page_lookup
  page_lookup-none empty =
      ap (λ o. o >>= mapped_page npages) (pgdir_walk-none npages m pgdir va empty)

  pub page_remove-none : entry m (pgdir, pdx va) ≡ 0 → page_remove npages m pgdir va ≡ some m
  unfolding page_remove
  page_remove-none empty = ap (λ o. o >>= unmap m) (page_lookup-none empty)

  module _ (space : IsSpace npages m pgdir xs) (user : va < utop)
      (table : entry m (pgdir, pdx va) ≢ 0) where
    the-IsTable : IsTable npages pgdir xs (entry m (pgdir, pdx va))
    the-IsTable = space.tables (pdx va) (omega arith) table

    lookup_there :
        page_lookup npages m pgdir va ≡ mapped_page npages (m, some (entry_slot m pgdir va))
    unfolding page_lookup
    lookup_there =
        ap (λ o. o >>= mapped_page npages)
          (pgdir_walk_there npages m pgdir va false table the-IsTable.1)

    pub page_lookup_blank : pte_of m pgdir va ≡ 0 → page_lookup npages m pgdir va ≡ some none
    page_lookup_blank blank = lookup_there ∙ rw blank refl

    pub page_lookup_there :
        pte_of m pgdir va ≢ 0
        → pte_of m pgdir va / 4096 < npages
        → page_lookup npages m pgdir va
          ≡ some (some (pte_of m pgdir va / 4096, entry_slot m pgdir va))
    page_lookup_there there low =
        let there' : (pte_of m pgdir va == 0) ≡ false = ground arith in
        lookup_there ∙ rw (there', pa2page_lem npages (pte_of m pgdir va) low) refl

    remove_blank : pte_of m pgdir va ≡ 0 → Removed npages m pgdir va xs m
    unfolding page_remove
    remove_blank blank = record {
      step = ap (λ o. o >>= unmap m) (page_lookup_blank blank);
      written = (blank, λ q i other. refl);
      counts = λ r. rw blank (omega arith);
      after = (xs, space);
    }

    remove_there :
        pte_of m pgdir va ≢ 0
        → pte_of m pgdir va / 4096 < npages
        → NotTable m pgdir (pte_of m pgdir va / 4096)
        → IsHeld m xs (pte_of m pgdir va / 4096)
        → (m' : Pages) × Removed npages m pgdir va xs m'
    unfolding page_remove
    remove_there there low apart (left, count, fits, unlinked, out) =
        let (m', released, lists) =
          Released-some left (pte_of m pgdir va / 4096) xs
            (page_decref m (pte_of m pgdir va / 4096))
            (page_decref-Released m (pte_of m pgdir va / 4096) left xs count fits unlinked out
              space.free) in
        let contents = contents-page_decref m (pte_of m pgdir va / 4096) m' released in
        let slot = entry_slot m pgdir va in
        let written : Written m (set_entry m' slot 0) slot 0 = (
          entry_self m' (entry m (pgdir, pdx va) / 4096) (ptx va) 0 (omega arith),
          λ q i other.
              written_other m' (entry m (pgdir, pdx va) / 4096) (ptx va) 0 q i other
              ∙ ap (λ (c : Array (Array ℕ)). load_word (c q) i) contents,
        ) in
        (
          set_entry m' slot 0,
          record {
            step =
                ap (λ o. o >>= unmap m) (page_lookup_there there low)
                ∙ ap (λ o. o >>= λ m'. some (set_entry m' slot 0)) released;
            written = written;
            counts =
                λ r. ground (arith, count-page_decref m (pte_of m pgdir va / 4096) m' r released);
            after = elim lists [
              | inl same ↦ (
                xs,
                written-IsSpace npages m (set_entry m' slot 0) pgdir va 0 xs space user table
                    written same,
              )
              | inr more ↦ (
                pte_of m pgdir va / 4096 ∷ xs,
                freed-IsSpace npages m (set_entry m' slot 0) pgdir va 0 xs space user table written
                    (pte_of m pgdir va / 4096) low apart more,
              )
            ];
          },
        )

    -- `page_remove` does not panic where the entry is 0 or maps a page that is held.
    pub page_remove-Removed :
        IsMapping npages m pgdir xs (pte_of m pgdir va)
        → (m' : Pages) × Removed npages m pgdir va xs m'
    page_remove-Removed mapping = elim (ℕ_discrete (pte_of m pgdir va) 0) [
      | yes blank ↦ (m, remove_blank blank)
      | no there ↦ remove_there there (mapping there).0 (mapping there).1 (mapping there).2
    ]
