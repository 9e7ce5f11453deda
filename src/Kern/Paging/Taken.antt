-- ===== src/Kern/Paging/Taken.antt =====
-- sched/kern/pmap.c: address spaces after page_alloc has taken and cleared a page.
use sistemas_operativos_1c.Base.{
  ℕ, ◌/◌, ◌<◌, ◌≡◌, ◌≢◌, sym, ap, ◌∙◌, subst, List, ◌∷◌, update_self, update_ne, arith,
}
use native.Mathlib.Decide.{ℕ_discrete}
use sistemas_operativos_1c.Clib.Memory.{memset}
use sistemas_operativos_1c.Kern.Errors.{utop}
use sistemas_operativos_1c.Kern.Pages.{Pages}
use sistemas_operativos_1c.Kern.PageList.{Chain-update}
use sistemas_operativos_1c.Kern.Paging.{entry, load_word, pdx, ptx}
use sistemas_operativos_1c.Kern.Paging.Space.{
  IsSpace, uvpt_entry, KernelKept, IsTable, NotTable, DataKept, mapped_entry, mapped_entry_there,
  mapped_entry_none, translate, translate_empty, translate-eq,
}
use sistemas_operativos_1c.Kern.Paging.NewTable.{taken, zero_words}

module _ (npages : ℕ) (m : Pages) (pgdir y : ℕ) (ys : List ℕ)
    (space : IsSpace npages m pgdir (y ∷ ys)) where
  pub entry-taken : (q k : ℕ) → y ≢ q → entry (taken m y) (q, k) ≡ entry m (q, k)
  entry-taken q k ne =
      ap (λ bytes. load_word bytes k) (update_ne m.contents y (memset (m.contents y) 0 0 4096) q ne)

  pub taken_blank : (k : ℕ) → k < 1024 → entry (taken m y) (y, k) ≡ 0
  taken_blank k low =
      ap (λ bytes. load_word bytes k) (update_self m.contents y (memset (m.contents y) 0 0 4096))
      ∙ zero_words (m.contents y) k low

  taken_root : (k : ℕ) → entry (taken m y) (pgdir, k) ≡ entry m (pgdir, k)
  taken_root k = entry-taken pgdir k (λ e. space.root_out.0 (sym e))

  there : (i : ℕ) → entry (taken m y) (pgdir, i) ≢ 0 → entry m (pgdir, i) ≢ 0
  there i h e = h (taken_root i ∙ e)

  pub taken-IsSpace : IsSpace npages (taken m y) pgdir ys
  taken-IsSpace =
      let (first, unused, differ, rest) = space.free in
      record {
        free = Chain-update m.pages (m.pages y).pp_link ys y _ differ rest;
        in_range = space.in_range.1;
        self = ap (λ (n : ℕ). n / 4096) (taken_root uvpt_entry) ∙ space.self;
        root_out = space.root_out.1;
        tables = λ i low h.
            let (odd, fits, apart, out) = space.tables i low (there i h) in
            subst (IsTable npages pgdir ys) (sym (taken_root i)) (odd, fits, apart, out.1);
        distinct = λ i j low_i low_j ne h_i h_j same.
            space.distinct i j low_i low_j ne (there i h_i) (there j h_j)
              (omega (arith, same, taken_root i, taken_root j));
      }

  pub taken-KernelKept : KernelKept m (taken m y) pgdir
  taken-KernelKept i high = taken_root i

  -- No address is mapped through the page that was taken.
  table_ne : (a : ℕ) → a < utop → entry m (pgdir, pdx a) ≢ 0 → y ≢ entry m (pgdir, pdx a) / 4096
  table_ne a below h e = (space.tables (pdx a) (omega arith) h).3.0 (sym e)

  pub translate-taken : (a : ℕ) → a < utop → translate (taken m y) pgdir a ≡ translate m pgdir a
  translate-taken a below = elim (ℕ_discrete (entry m (pgdir, pdx a)) 0) [
    | yes empty ↦
        translate_empty (taken m y) pgdir a (taken_root (pdx a) ∙ empty)
        ∙ sym (translate_empty m pgdir a empty)
    | no h ↦
        translate-eq m (taken m y) pgdir a (taken_root (pdx a))
          (entry-taken _ (ptx a) (table_ne a below h))
  ]

  pub mapped_entry-taken :
      (a : ℕ) → a < utop → mapped_entry (taken m y) pgdir a ≡ mapped_entry m pgdir a
  mapped_entry-taken a below = elim (ℕ_discrete (entry m (pgdir, pdx a)) 0) [
    | yes empty ↦
        mapped_entry_none (taken m y) pgdir a (taken_root (pdx a) ∙ empty)
        ∙ sym (mapped_entry_none m pgdir a empty)
    | no h ↦
        mapped_entry_there (taken m y) pgdir a (λ e. h (sym (taken_root (pdx a)) ∙ e))
        ∙ ap (λ (pde : ℕ). entry (taken m y) (pde / 4096, ptx a)) (taken_root (pdx a))
        ∙ entry-taken _ (ptx a) (table_ne a below h)
        ∙ sym (mapped_entry_there m pgdir a h)
  ]

  pub pages-taken : (q : ℕ) → y ≢ q → (taken m y).pages q ≡ m.pages q
  pages-taken q ne = update_ne m.pages y _ q ne

  -- The page that was taken has no reference yet.
  pub taken_unused : ((taken m y).pages y).pp_ref ≡ 0
  taken_unused = ap (λ p. p.pp_ref) (update_self m.pages y _) ∙ space.free.1

  pub taken-NotTable : (q : ℕ) → NotTable m pgdir q → NotTable (taken m y) pgdir q
  taken-NotTable q apart = (
    apart.0,
    λ i low h same.
        apart.1 i low (there i h) (ap (λ (n : ℕ). n / 4096) (sym (taken_root i)) ∙ same),
  )

  pub own-NotTable : NotTable (taken m y) pgdir y
  own-NotTable = (
    space.root_out.0,
    λ i low h same.
        (space.tables i low (there i h)).3.0 (ap (λ (n : ℕ). n / 4096) (sym (taken_root i)) ∙ same),
  )

  pub taken-DataKept :
      (m' : Pages) → DataKept (taken m y) m' pgdir ys → DataKept m m' pgdir (y ∷ ys)
  taken-DataKept m' kept q i apart out =
      kept q i (taken-NotTable q apart) out.1 ∙ entry-taken q i (λ e. out.0 (sym e))
