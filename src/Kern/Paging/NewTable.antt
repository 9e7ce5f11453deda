-- ===== src/Kern/Paging/NewTable.antt =====
-- sched/kern/pmap.c: the pages after pgdir_walk has put a new table into a directory.
use sistemas_operativos_1c.Base.{
  ℕ, ◌+◌, ◌*◌, ◌/◌, ◌^◌, ◌≤◌, ◌<◌, ◌≡◌, ◌≢◌, sym, ap, ◌∙◌, subst, true, List, ◌∷◌, some, Array,
  update_self, update_ne, arith,
}
use native.Mathlib.Decide.{ℕ_discrete}
use sistemas_operativos_1c.Clib.Memory.{memset}
use sistemas_operativos_1c.Clib.Moves.{memset_lem}
use sistemas_operativos_1c.Kern.Errors.{utop}
use sistemas_operativos_1c.Kern.FreeList.{NotIn}
use sistemas_operativos_1c.Kern.Pages.{Pages, take_page}
use sistemas_operativos_1c.Kern.PageList.{FreePages, Chain-update}
use sistemas_operativos_1c.Kern.Paging.{entry, load_word, incremented, new_table, pdx, ptx}
use sistemas_operativos_1c.Kern.Paging.Entries.{
  entry_self, entry_other_page, entry_other_index, table_entry_lem,
}
use sistemas_operativos_1c.Kern.Paging.Space.{
  IsSpace, user_tables, uvpt_entry, IsTable, pte_of, translate, translate_empty, translate_blank,
  translate-eq,
}

-- The pages after the first free one, `y`, is taken and cleared.
abbrev pub taken : Pages → ℕ → Pages
taken m y = (take_page m true (some y)).0

-- A new table in page `y` for the directory entry `i`.
abbrev pub with_table : Pages → (pgdir i y : ℕ) → Pages
with_table m pgdir i y = new_table (taken m y, some y) (pgdir, i)

zero_bytes : (page : Array ℕ) (j : ℕ) → j < 4096 → memset page 0 0 4096 j ≡ 0
zero_bytes page j h = ground (arith, memset_lem 4096 page 0 0 j)

pub zero_words : (page : Array ℕ) (k : ℕ) → k < 1024 → load_word (memset page 0 0 4096) k ≡ 0
unfolding load_word
zero_words page k h = omega (
  arith,
  zero_bytes page (4 * k) (omega arith),
  zero_bytes page (4 * k + 1) (omega arith),
  zero_bytes page (4 * k + 2) (omega arith),
  zero_bytes page (4 * k + 3) (omega arith),
)

pub table_contents :
    (m : Pages) (pgdir i y q k : ℕ)
    → y ≢ q
    → pgdir ≢ q
    → entry (with_table m pgdir i y) (q, k) ≡ entry m (q, k)
table_contents m pgdir i y q k ne ne' =
    entry_other_page (incremented (taken m y) y) pgdir i _ q k ne'
    ∙ ap (λ bytes. load_word bytes k) (update_ne m.contents y (memset (m.contents y) 0 0 4096) q ne)

module _ (npages : ℕ) (m : Pages) (pgdir i y : ℕ) (ys : List ℕ) (small : npages ≤ 2 ^ 20)
    (space : IsSpace npages m pgdir (y ∷ ys)) (low : i < user_tables)
    (empty : entry m (pgdir, i) ≡ 0) where
  abbrev after : Pages
  after = with_table m pgdir i y

  -- The new entry of the directory.
  pub table_self : entry after (pgdir, i) ≡ y * 4096 + 7
  table_self =
      let fits : y < npages = space.in_range.0 in
      entry_self (incremented (taken m y) y) pgdir i _ (omega (arith, table_entry_lem y))
      ∙ table_entry_lem y

  root_ne : y ≢ pgdir
  root_ne e = space.root_out.0 (sym e)

  pub table_root : (k : ℕ) → k ≢ i → entry after (pgdir, k) ≡ entry m (pgdir, k)
  table_root k ne =
      entry_other_index (incremented (taken m y) y) pgdir i _ k ne
      ∙ ap (λ bytes. load_word bytes k)
          (update_ne m.contents y (memset (m.contents y) 0 0 4096) pgdir root_ne)

  -- The new table has no entries.
  table_blank : (k : ℕ) → k < 1024 → entry after (y, k) ≡ 0
  table_blank k h =
      entry_other_page (incremented (taken m y) y) pgdir i _ y k space.root_out.0
      ∙ ap (λ bytes. load_word bytes k) (update_self m.contents y (memset (m.contents y) 0 0 4096))
      ∙ zero_words (m.contents y) k h

  table_free : FreePages after ys
  table_free =
      let (first, unused, differ, rest) = space.free in
      Chain-update _ _ ys y _ differ (Chain-update m.pages (m.pages y).pp_link ys y _ differ rest)

  same_page : (y * 4096 + 7) / 4096 ≡ y
  same_page = omega arith

  new-IsTable : (k : ℕ) → k ≡ i → IsTable npages pgdir ys (entry after (pgdir, k))
  new-IsTable k e =
      subst (IsTable npages pgdir ys) (sym (ap (λ (n : ℕ). entry after (pgdir, n)) e ∙ table_self))
        (
          omega arith,
          omega (arith, space.in_range.0),
          λ same. space.root_out.0 (same ∙ same_page),
          subst (λ q. NotIn q ys) (sym same_page) space.free.2,
        )

  -- The other tables, which are not in the new page.
  old-IsTable :
      (k : ℕ)
      → k < user_tables
      → k ≢ i
      → entry after (pgdir, k) ≢ 0
      → IsTable npages pgdir (y ∷ ys) (entry m (pgdir, k))
  old-IsTable k low_k ne there = space.tables k low_k (λ e. there (table_root k ne ∙ e))

  kept-IsTable :
      (k : ℕ)
      → k < user_tables
      → k ≢ i
      → entry after (pgdir, k) ≢ 0
      → IsTable npages pgdir ys (entry after (pgdir, k))
  kept-IsTable k low_k ne there =
      let (odd, fits, apart, out) = old-IsTable k low_k ne there in
      subst (IsTable npages pgdir ys) (sym (table_root k ne)) (odd, fits, apart, out.1)

  table_apart :
      (k : ℕ)
      → k < user_tables
      → k ≢ i
      → entry after (pgdir, k) ≢ 0
      → entry after (pgdir, k) / 4096 ≢ entry after (pgdir, i) / 4096
  table_apart k low_k ne there same =
      let (odd, fits, apart, out) = old-IsTable k low_k ne there in
      out.0 (omega (arith, same, table_self, table_root k ne))

  table_distinct :
      (j k : ℕ)
      → j < user_tables
      → k < user_tables
      → j ≢ k
      → entry after (pgdir, j) ≢ 0
      → entry after (pgdir, k) ≢ 0
      → entry after (pgdir, j) / 4096 ≢ entry after (pgdir, k) / 4096
  table_distinct j k low_j low_k ne there_j there_k same = elim (ℕ_discrete j i) [
    | yes e ↦
        table_apart k low_k (λ e'. ne (e ∙ sym e')) there_k
          (sym same ∙ ap (λ (n : ℕ). entry after (pgdir, n) / 4096) e)
    | no ne_j ↦ elim (ℕ_discrete k i) [
      | yes e ↦
          table_apart j low_j ne_j there_j (same ∙ ap (λ (n : ℕ). entry after (pgdir, n) / 4096) e)
      | no ne_k ↦
          space.distinct j k low_j low_k ne (λ e. there_j (table_root j ne_j ∙ e))
            (λ e. there_k (table_root k ne_k ∙ e))
            (omega (arith, same, table_root j ne_j, table_root k ne_k))
    ]
  ]

  pub table_IsSpace : IsSpace npages after pgdir ys
  table_IsSpace = record {
    free = table_free;
    in_range = space.in_range.1;
    self =
        ap (λ (n : ℕ). n / 4096) (table_root uvpt_entry (λ e. absurd (omega arith))) ∙ space.self;
    root_out = space.root_out.1;
    tables = λ k low_k there. elim (ℕ_discrete k i) [
      | yes e ↦ new-IsTable k e
      | no ne ↦ kept-IsTable k low_k ne there
    ];
    distinct = table_distinct;
  }

  pub table_pte : (a : ℕ) → pdx a ≡ i → pte_of after pgdir a ≡ 0
  table_pte a e =
      ap (λ (n : ℕ). entry after (n, ptx a))
        (ap (λ (n : ℕ). entry after (pgdir, n) / 4096) e
          ∙ ap (λ (n : ℕ). n / 4096) table_self
          ∙ same_page)
      ∙ table_blank (ptx a) (omega arith)

  pub table_translate : (a : ℕ) → a < utop → translate after pgdir a ≡ translate m pgdir a
  table_translate a below = elim (ℕ_discrete (pdx a) i) [
    | yes e ↦
        translate_blank after pgdir a (table_pte a e)
        ∙ sym (translate_empty m pgdir a (ap (λ (n : ℕ). entry m (pgdir, n)) e ∙ empty))
    | no ne ↦ elim (ℕ_discrete (entry m (pgdir, pdx a)) 0) [
      | yes none_there ↦
          translate_empty after pgdir a (table_root (pdx a) ne ∙ none_there)
          ∙ sym (translate_empty m pgdir a none_there)
      | no there ↦
          let (odd, fits, apart, out) = space.tables (pdx a) (omega arith) there in
          translate-eq m after pgdir a (table_root (pdx a) ne)
            (table_contents m pgdir i y _ (ptx a) (λ e. out.0 (sym e)) apart)
    ]
  ]

  pub table_page : (q : ℕ) → y ≢ q → after.pages q ≡ m.pages q
  table_page q ne = update_ne (taken m y).pages y _ q ne ∙ update_ne m.pages y _ q ne
