-- ===== src/Kern/Paging/Walked.antt =====
-- sched/kern/pmap.c: how pgdir_walk ends when it may create a table.
use sistemas_operativos_1c.Base.{
  ℕ, ◌+◌, ◌*◌, ◌/◌, ◌^◌, ◌≤◌, ◌<◌, ◌≡◌, ◌≢◌, ◌⊎◌, inl, inr, refl, sym, ap, ◌∙◌, true, List, [], ◌∷◌,
  Option, none, some, arith,
}
use native.Mathlib.Decide.{ℕ_discrete}
use sistemas_operativos_1c.Kern.Errors.{utop}
use sistemas_operativos_1c.Kern.FreeList.{NotIn}
use sistemas_operativos_1c.Kern.Pages.{Pages, take_page, page_alloc}
use sistemas_operativos_1c.Kern.Paging.{entry, new_table, walk_table, pgdir_walk, pdx, ptx}
use sistemas_operativos_1c.Kern.Paging.Space.{
  IsSpace, user_tables, KernelKept, NotTable, DataKept, mapped_entry, mapped_entry_there,
  mapped_entry_none, translate,
}
use sistemas_operativos_1c.Kern.Paging.Walk.{
  walk_table_lem, missing_table, pgdir_walk_there, pgdir_walk_full,
}
use sistemas_operativos_1c.Kern.Paging.NewTable.{
  with_table, table_contents, table_self, table_root, table_IsSpace, table_translate, table_page,
  table_pte,
}

-- How `pgdir_walk` ends when it may create a table: with the entry's place in a table, or, where there is
-- none and no page is free, with nothing.
pub record Walked (npages : ℕ) (m : Pages) (pgdir va : ℕ) (xs : List ℕ) (m' : Pages) (xs' : List ℕ)
    : Type 0 where
  pub step :
      pgdir_walk npages m pgdir va true ≡ some (m', some (entry m' (pgdir, pdx va) / 4096, ptx va))
  pub space : IsSpace npages m' pgdir xs'
  pub table : entry m' (pgdir, pdx va) ≢ 0
  pub same : (a : ℕ) → a < utop → translate m' pgdir a ≡ translate m pgdir a
  pub pages_kept : (q : ℕ) → NotIn q xs → m'.pages q ≡ m.pages q
  pub out : (q : ℕ) → NotIn q xs → NotIn q xs'
  pub not_table : (q : ℕ) → NotIn q xs → NotTable m pgdir q → NotTable m' pgdir q
  pub data_kept : DataKept m m' pgdir xs
  pub kernel_kept : KernelKept m m' pgdir
  pub slot : mapped_entry m' pgdir va ≡ mapped_entry m pgdir va

module _ (npages : ℕ) (m : Pages) (pgdir va y : ℕ) (ys : List ℕ) (small : npages ≤ 2 ^ 20)
    (space : IsSpace npages m pgdir (y ∷ ys)) (user : va < utop)
    (empty : entry m (pgdir, pdx va) ≡ 0) where
  abbrev made : Pages
  made = with_table m pgdir (pdx va) y

  low : pdx va < user_tables
  low = omega arith

  entry-made : entry made (pgdir, pdx va) ≡ y * 4096 + 7
  entry-made = table_self npages m pgdir (pdx va) y ys small space low empty

  same_page_of : entry made (pgdir, pdx va) / 4096 ≡ y
  same_page_of = omega (arith, entry-made)

  made_step :
      pgdir_walk npages m pgdir va true
      ≡ some (made, some (entry made (pgdir, pdx va) / 4096, ptx va))
  unfolding page_alloc
  made_step =
      missing_table npages m pgdir va empty true
      ∙ ap
          (λ (o : Option ℕ).
            let m' = new_table (take_page m true o) (pgdir, pdx va) in
            walk_table npages m' (entry m' (pgdir, pdx va)) va)
          space.free.0
      ∙ walk_table_lem npages made (entry made (pgdir, pdx va)) va
          (λ e. absurd (omega (arith, entry-made))) (omega (arith, entry-made, space.in_range.0))

  made-Walked : Walked npages m pgdir va (y ∷ ys) made ys
  made-Walked = record {
    step = made_step;
    space = table_IsSpace npages m pgdir (pdx va) y ys small space low empty;
    table = λ e. absurd (omega (arith, entry-made));
    same = table_translate npages m pgdir (pdx va) y ys small space low empty;
    pages_kept = λ q out.
        table_page npages m pgdir (pdx va) y ys small space low empty q (λ e. out.0 (sym e));
    out = λ q out. out.1;
    not_table = λ q out apart. (
      apart.0,
      λ i low_i there. elim (ℕ_discrete i (pdx va)) [
        | yes e ↦ λ same.
            out.0
              (sym (sym same_page_of ∙ ap (λ (n : ℕ). entry made (pgdir, n) / 4096) (sym e) ∙ same))
        | no ne ↦ λ same.
            let old = table_root npages m pgdir (pdx va) y ys small space low empty i ne in
            apart.1 i low_i (λ e. there (old ∙ e)) (ap (λ (n : ℕ). n / 4096) (sym old) ∙ same)
      ],
    );
    data_kept = λ q i apart out. table_contents m pgdir (pdx va) y q i (λ e. out.0 (sym e)) apart.0;
    kernel_kept = λ i high.
        table_root npages m pgdir (pdx va) y ys small space low empty i (λ e. absurd (omega arith));
    slot =
        mapped_entry_there made pgdir va (λ e. absurd (omega (arith, entry-made)))
        ∙ table_pte npages m pgdir (pdx va) y ys small space low empty va refl
        ∙ sym (mapped_entry_none m pgdir va empty);
  }

pub pgdir_walk-Walked :
    (npages : ℕ) (m : Pages) (pgdir va : ℕ) (xs : List ℕ)
    → npages ≤ 2 ^ 20
    → va < utop
    → IsSpace npages m pgdir xs
    → ((m' : Pages) × (xs' : List ℕ) × Walked npages m pgdir va xs m' xs')
      ⊎ ((xs ≡ [])
          × (entry m (pgdir, pdx va) ≡ 0)
          × (pgdir_walk npages m pgdir va true ≡ some (m, none)))
pgdir_walk-Walked npages m pgdir va xs small user space =
    elim (ℕ_discrete (entry m (pgdir, pdx va)) 0) [
      | yes empty ↦ free_page xs space empty
      | no there ↦ inl (
        m,
        xs,
        record {
          step =
              pgdir_walk_there npages m pgdir va true there
                (space.tables (pdx va) (omega arith) there).1;
          space = space;
          table = there;
          same = λ a below. refl;
          pages_kept = λ q out. refl;
          out = λ q out. out;
          not_table = λ q out apart. apart;
          data_kept = λ q i apart out. refl;
          kernel_kept = λ i high. refl;
          slot = refl;
        },
      )
    ]
  where
    free_page :
        (zs : List ℕ)
        → IsSpace npages m pgdir zs
        → entry m (pgdir, pdx va) ≡ 0
        → ((m' : Pages) × (xs' : List ℕ) × Walked npages m pgdir va zs m' xs')
          ⊎ ((zs ≡ [])
              × (entry m (pgdir, pdx va) ≡ 0)
              × (pgdir_walk npages m pgdir va true ≡ some (m, none)))
    free_page [] s empty = inr (refl, empty, pgdir_walk_full npages m pgdir va empty s.free)
    free_page (y ∷ ys) s empty =
        inl
          (with_table m pgdir (pdx va) y, ys, made-Walked npages m pgdir va y ys small s user empty)
