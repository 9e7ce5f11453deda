-- ===== src/Kern/Paging/Insert.antt =====
-- sched/kern/pmap.c: page_insert against the processor's walk.
use sistemas_operativos_1c.Base.{
  ℕ, suc, ◌+◌, ◌*◌, ◌/◌, ◌^◌, ◌≤◌, ◌<◌, ◌≡◌, ◌⊎◌, inl, inr, sym, ap, ◌∙◌, subst, List, [], Option,
  some, update, arith, ◌==◌, if◌then◌else◌, ◌>>=◌,
}
use native.Mathlib.Decide.{ℕ_discrete}
use sistemas_operativos_1c.Base.Int.{ℤ, pos}
use sistemas_operativos_1c.Kern.Errors.{e_no_mem, utop}
use sistemas_operativos_1c.Kern.FreeList.{NotIn}
use sistemas_operativos_1c.Kern.Pages.{Pages}
use sistemas_operativos_1c.Kern.PageList.{Chain-update}
use sistemas_operativos_1c.Kern.Paging.{
  entry, set_entry, incremented, insert_at, page_insert, pdx, ptx,
}
use sistemas_operativos_1c.Kern.Paging.Entries.{entry_self, written_other, new_entry, new_entry_lem}
use sistemas_operativos_1c.Kern.Paging.Space.{
  IsSpace, written-KernelKept, DataKept, Written, written-DataKept, translate, translate_written,
  translate_other, mapped_entry, mapped_entry_there, entry_slot, pte_of, if_present,
  written-IsSpace,
}
use sistemas_operativos_1c.Kern.Paging.Walked.{Walked, pgdir_walk-Walked}
use sistemas_operativos_1c.Kern.Paging.Mapped.{
  IsHeld, IsMapping, refs_to, Removed, page_remove-Removed,
}
use sistemas_operativos_1c.Kern.Paging.Remove.{OthersKept}

-- One more reference to a page that is not free leaves the tables in order.
incremented-IsSpace :
    (npages : ℕ) (m : Pages) (pgdir pp : ℕ) (xs : List ℕ)
    → NotIn pp xs
    → IsSpace npages m pgdir xs
    → IsSpace npages (incremented m pp) pgdir xs
incremented-IsSpace npages m pgdir pp xs out s = record {
  free = Chain-update m.pages m.page_free_list xs pp _ out s.free;
  in_range = s.in_range;
  root_out = s.root_out;
  self = s.self;
  tables = s.tables;
  distinct = s.distinct;
}

incremented_count :
    (m : Pages) (pp r : ℕ)
    → (m.pages pp).pp_ref + 1 < 2 ^ 16
    → ((incremented m pp).pages r).pp_ref ≡ (m.pages r).pp_ref + (if pp == r then 1 else 0)
unfolding update
incremented_count m pp r small = ground arith

incremented_link :
    (m : Pages) (pp r : ℕ) → ((incremented m pp).pages r).pp_link ≡ (m.pages r).pp_link
unfolding update
incremented_link m pp r = ground arith

-- A page that is held and gets one more reference is held.
incremented-IsHeld :
    (m : Pages) (pp q : ℕ) (xs : List ℕ)
    → (m.pages pp).pp_ref + 1 < 2 ^ 16
    → IsHeld m xs q
    → IsHeld (incremented m pp) xs q
incremented-IsHeld m pp q xs small (left, count, fits, unlinked, out) = elim (ℕ_discrete pp q) [
  | yes same ↦ (
    suc left,
    ground (arith, incremented_count m pp q small, ap (λ n. (m.pages n).pp_ref) same),
    omega (arith, ap (λ n. (m.pages n).pp_ref) same),
    incremented_link m pp q ∙ unlinked,
    out,
  )
  | no differ ↦ (
    left,
    ground (arith, incremented_count m pp q small),
    fits,
    incremented_link m pp q ∙ unlinked,
    out,
  )
]

-- What `page_insert` does with page `pp`: `va` is mapped to it with the permissions, the other pages below UTOP are
-- mapped as before, the pages in use that are no tables keep their words, and each page that is not free gains the references that it was given and loses those
-- that the old entry stood for. Only without a table for `va` and without a free page it fails, with
-- -E_NO_MEM and no change.
abbrev pub Inserted :
    (npages : ℕ) → Pages → (pgdir pp va perm : ℕ) → List ℕ → Option (Pages × ℤ) → Type 0
Inserted npages m pgdir pp va perm xs o =
    ((m' : Pages) × (o ≡ some (m', pos 0))
      × (translate m' pgdir va ≡ some (pp * 4096 + perm / 2 * 2 + 1))
      × OthersKept m m' pgdir va
      × DataKept m m' pgdir xs
      × ((r : ℕ)
          → NotIn r xs
          → (m'.pages r).pp_ref + refs_to (mapped_entry m pgdir va) r
            ≡ (m.pages r).pp_ref + (if pp == r then 1 else 0))
      × (ys : List ℕ) × IsSpace npages m' pgdir ys)
    ⊎ ((xs ≡ []) × (entry m (pgdir, pdx va) ≡ 0) × (o ≡ some (m, e_no_mem)))

module _ (npages : ℕ) (m : Pages) (pgdir pp va perm : ℕ) (xs : List ℕ) (small : npages ≤ 2 ^ 20)
    (low : va < utop) (fits : pp < npages) (flags : perm < 4096) (used : NotIn pp xs)
    (few : (m.pages pp).pp_ref + 1 < 2 ^ 16) where
  new_fits : new_entry pp perm < 2 ^ 32
  new_fits = omega (arith, new_entry_lem pp perm flags)

  new_present : if_present (new_entry pp perm) ≡ some (pp * 4096 + perm / 2 * 2 + 1)
  new_present = ap if_present (new_entry_lem pp perm flags) ∙ ground arith

  module _ (m2 : Pages) (xs2 : List ℕ) (walked : Walked npages m pgdir va xs m2 xs2)
      (mapping : IsMapping npages m pgdir xs (mapped_entry m pgdir va)) where
    pte_eq : mapped_entry m pgdir va ≡ pte_of m2 pgdir va
    pte_eq = sym walked.slot ∙ mapped_entry_there m2 pgdir va walked.table

    few2 : (m2.pages pp).pp_ref + 1 < 2 ^ 16
    few2 = omega (arith, ap (λ p. p.pp_ref) (walked.pages_kept pp used))

    mapping2 : IsMapping npages (incremented m2 pp) pgdir xs2 (pte_of m2 pgdir va)
    mapping2 there =
        let (fits_q, apart, (left, count, low_q, unlinked, out)) =
          subst (IsMapping npages m pgdir xs) pte_eq mapping there in
        let q = pte_of m2 pgdir va / 4096 in
        let kept = walked.pages_kept q out in
        (
          fits_q,
          walked.not_table q out apart,
          incremented-IsHeld m2 pp q xs2 few2 (
            left,
            ap (λ p. p.pp_ref) kept ∙ count,
            low_q,
            ap (λ p. p.pp_link) kept ∙ unlinked,
            walked.out q out,
          ),
        )

    removal : (m3 : Pages) × Removed npages (incremented m2 pp) pgdir va xs2 m3
    removal =
        page_remove-Removed npages (incremented m2 pp) pgdir va xs2
          (incremented-IsSpace npages m2 pgdir pp xs2 (walked.out pp used) walked.space) low
          walked.table mapping2

    module _ (m3 : Pages) (removed : Removed npages (incremented m2 pp) pgdir va xs2 m3) where
      abbrev m4 : Pages
      m4 = set_entry m3 (entry_slot m2 pgdir va) (new_entry pp perm)

      root_same : entry m3 (pgdir, pdx va) ≡ entry m2 (pgdir, pdx va)
      root_same =
          removed.written.1 pgdir (pdx va)
            (inl (λ e. (walked.space.tables (pdx va) (omega arith) walked.table).2 (sym e)))

      -- The new entry, seen from before and from after the old one is removed.
      written : Written m2 m4 (entry_slot m2 pgdir va) (new_entry pp perm)
      written = (
        entry_self m3 (entry m2 (pgdir, pdx va) / 4096) (ptx va) (new_entry pp perm) new_fits,
        λ q i other.
            written_other m3 (entry m2 (pgdir, pdx va) / 4096) (ptx va) (new_entry pp perm) q i
              other
            ∙ removed.written.1 q i other,
      )

      last_write : Written m3 m4 (entry_slot m3 pgdir va) (new_entry pp perm)
      last_write =
          subst (λ (pde : ℕ). Written m3 m4 (pde / 4096, ptx va) (new_entry pp perm))
            (sym root_same)
            (
              written.0,
              written_other m3 (entry m2 (pgdir, pdx va) / 4096) (ptx va) (new_entry pp perm),
            )

      inserted_step : page_insert npages m pgdir pp va perm ≡ some (m4, pos 0)
      unfolding page_insert
      inserted_step =
          ap (λ o. o >>= insert_at npages pgdir pp va perm) walked.step
          ∙ ap
              (λ o.
                o >>= λ m'. some (set_entry m' (entry_slot m2 pgdir va) (new_entry pp perm), pos 0))
              removed.step

      inserted_counts :
          (r : ℕ)
          → NotIn r xs
          → (m4.pages r).pp_ref + refs_to (mapped_entry m pgdir va) r
            ≡ (m.pages r).pp_ref + (if pp == r then 1 else 0)
      inserted_counts r out =
          ap (λ (pte : ℕ). (m3.pages r).pp_ref + refs_to pte r) pte_eq
          ∙ removed.counts r
          ∙ incremented_count m2 pp r few2
          ∙ ap (λ p. p.pp_ref + (if pp == r then 1 else 0)) (walked.pages_kept r out)

      inserted_space : (ys : List ℕ) × IsSpace npages m4 pgdir ys
      inserted_space =
          let (ys, space3) = removed.after in
          (
            ys,
            written-IsSpace npages m3 m4 pgdir va (new_entry pp perm) ys space3 low
                (λ e. walked.table (sym root_same ∙ e)) last_write space3.free,
          )

      finished-Inserted :
          Inserted npages m pgdir pp va perm xs (page_insert npages m pgdir pp va perm)
      finished-Inserted = inl (
        m4,
        inserted_step,
        translate_written npages m2 m4 pgdir va (new_entry pp perm) xs2 walked.space low
              walked.table written
            ∙ new_present,
        (
          λ a low_a ne.
              translate_other npages m2 m4 pgdir va (new_entry pp perm) xs2 walked.space low
                walked.table written a low_a ne
              ∙ walked.same a low_a,
          λ i high.
              written-KernelKept npages m2 m4 pgdir va (new_entry pp perm) xs2 walked.space low
                walked.table written i high
              ∙ walked.kernel_kept i high,
        ),
        λ q i apart out.
            written-DataKept npages m2 m4 pgdir va (new_entry pp perm) xs2 walked.space low
              walked.table written q i (walked.not_table q out apart) (walked.out q out)
            ∙ walked.data_kept q i apart out,
        inserted_counts,
        inserted_space.0,
        inserted_space.1,
      )

  -- In a directory that maps itself at UVPT and is in order below UTOP, `page_insert` of a page in use, with
  -- fewer than 2^16 - 1 references, at an address below UTOP whose entry is 0 or maps a page with references,
  -- does not panic. Afterwards the processor maps the address to the page with the permissions and all other
  -- pages below UTOP as before, the directory's entries from UTOP on and the pages in use that are neither the
  -- directory nor its tables below UTOP keep their contents, each page that was in use counts the references that it gained and lost, also
  -- where the same page is inserted again, and the tables are in order; or else a table was missing, no page
  -- was free for one, and the result is -E_NO_MEM with no change.
  pub page_insert-Inserted :
      IsSpace npages m pgdir xs
      → IsMapping npages m pgdir xs (mapped_entry m pgdir va)
      → Inserted npages m pgdir pp va perm xs (page_insert npages m pgdir pp va perm)
  unfolding page_insert
  page_insert-Inserted space mapping =
      elim (pgdir_walk-Walked npages m pgdir va xs small low space) [
        | inl (m2, xs2, walked) ↦
            let (m3, removed) = removal m2 xs2 walked mapping in
            finished-Inserted m2 xs2 walked mapping m3 removed
        | inr (full, empty, step) ↦
            inr (full, empty, ap (λ o. o >>= insert_at npages pgdir pp va perm) step)
      ]
