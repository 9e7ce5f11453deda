-- ===== src/Kern/Paging/Space.antt =====
-- sched/kern/pmap.c: address spaces, as the processor reads them, and when their tables are in order.
use sistemas_operativos_1c.Base.{
  ℕ, ◌/◌, ◌%◌, ◌≤◌, ◌<◌, ◌≡◌, ◌≢◌, ◌⊎◌, inl, inr, refl, sym, ap, ◌∙◌, subst, List, [], ◌∷◌, Option,
  none, some, false, arith, ◌==◌, if◌then◌else◌,
}
use native.Mathlib.Decide.{ℕ_discrete}
use sistemas_operativos_1c.Kern.Errors.{utop}
use sistemas_operativos_1c.Kern.FreeList.{NotIn}
use sistemas_operativos_1c.Kern.Pages.{Pages}
use sistemas_operativos_1c.Kern.PageList.{FreePages}
use sistemas_operativos_1c.Kern.Paging.{Slot, entry, pdx, ptx}

-- What the processor does with an entry: bit 0 says whether it is present.
abbrev pub if_present : ℕ → Option ℕ
if_present pte = if pte % 2 == 0 then none else some pte

-- The processor's walk over the two levels: the entry that maps the page of `va`, if one does.
unfoldable pub translate : Pages → (pgdir va : ℕ) → Option ℕ
translate m pgdir va =
    let pde = entry m (pgdir, pdx va) in
    if pde % 2 == 0 then none else if_present (entry m (pde / 4096, ptx va))

abbrev pub entry_slot : Pages → (pgdir va : ℕ) → Slot
entry_slot m pgdir va = (entry m (pgdir, pdx va) / 4096, ptx va)

abbrev pub pte_of : Pages → (pgdir va : ℕ) → ℕ
pte_of m pgdir va = entry m (entry_slot m pgdir va)

-- The entry for `va`, 0 if there is no table for it.
abbrev pub mapped_entry : Pages → (pgdir va : ℕ) → ℕ
mapped_entry m pgdir va = if entry m (pgdir, pdx va) == 0 then 0 else pte_of m pgdir va

pub mapped_entry_none :
    (m : Pages) (pgdir va : ℕ) → entry m (pgdir, pdx va) ≡ 0 → mapped_entry m pgdir va ≡ 0
mapped_entry_none m pgdir va empty = rw empty refl

pub mapped_entry_there :
    (m : Pages) (pgdir va : ℕ)
    → entry m (pgdir, pdx va) ≢ 0
    → mapped_entry m pgdir va ≡ pte_of m pgdir va
mapped_entry_there m pgdir va there =
    let there' : (entry m (pgdir, pdx va) == 0) ≡ false = ground arith in
    ap (λ b. if b then 0 else pte_of m pgdir va) there'

abbrev pub Below : ℕ → List ℕ → Type 0
Below n [] = Unit {0}
Below n (x ∷ xs) = (x < n) × Below n xs

-- The entries of a directory for the addresses below UTOP, and the one that maps the tables themselves at UVPT.
abbrev pub user_tables : ℕ
user_tables = 955

abbrev pub uvpt_entry : ℕ
uvpt_entry = 957

-- A directory entry below UTOP for a table that is present, in memory, in use, and not the directory itself.
abbrev pub IsTable : (npages pgdir : ℕ) → List ℕ → (pde : ℕ) → Type 0
IsTable npages pgdir xs pde =
    (pde % 2 ≡ 1) × (pde / 4096 < npages) × (pgdir ≢ pde / 4096) × NotIn (pde / 4096) xs

-- The free pages are `xs`; the directory is not among them; its entries below UTOP are 0 or tables, all
-- different; its entry for UVPT names the directory. Nothing is said of the kernel's entries above UTOP.
pub record IsSpace (npages : ℕ) (m : Pages) (pgdir : ℕ) (xs : List ℕ) : Type 0 where
  pub free : FreePages m xs
  pub in_range : Below npages xs
  pub root_out : NotIn pgdir xs
  pub tables :
      (i : ℕ)
      → i < user_tables
      → entry m (pgdir, i) ≢ 0
      → IsTable npages pgdir xs (entry m (pgdir, i))
  pub self : entry m (pgdir, uvpt_entry) / 4096 ≡ pgdir
  pub distinct :
      (i j : ℕ)
      → i < user_tables
      → j < user_tables
      → i ≢ j
      → entry m (pgdir, i) ≢ 0
      → entry m (pgdir, j) ≢ 0
      → entry m (pgdir, i) / 4096 ≢ entry m (pgdir, j) / 4096

-- A page that is neither the directory nor one of its tables for addresses below UTOP.
abbrev pub NotTable : Pages → (pgdir q : ℕ) → Type 0
NotTable m pgdir q =
    (pgdir ≢ q)
    × ((i : ℕ) → i < user_tables → entry m (pgdir, i) ≢ 0 → entry m (pgdir, i) / 4096 ≢ q)

-- The directory's entries for addresses from UTOP on are as before.
abbrev pub KernelKept : Pages → Pages → (pgdir : ℕ) → Type 0
KernelKept m m' pgdir = (i : ℕ) → user_tables ≤ i → entry m' (pgdir, i) ≡ entry m (pgdir, i)

-- The words of pages that are in use and are no tables are as before.
abbrev pub DataKept : Pages → Pages → (pgdir : ℕ) → List ℕ → Type 0
DataKept m m' pgdir xs =
    (q i : ℕ) → NotTable m pgdir q → NotIn q xs → entry m' (q, i) ≡ entry m (q, i)

-- `m'` differs from `m` in one entry, which is `v` there.
abbrev pub Written : Pages → Pages → Slot → (v : ℕ) → Type 0
Written m m' (page, k) v =
    (entry m' (page, k) ≡ v) × ((q i : ℕ) → (page ≢ q) ⊎ (i ≢ k) → entry m' (q, i) ≡ entry m (q, i))

pub translate-eq :
    (m m' : Pages) (pgdir va : ℕ)
    → entry m' (pgdir, pdx va) ≡ entry m (pgdir, pdx va)
    → entry m' (entry m (pgdir, pdx va) / 4096, ptx va)
      ≡ entry m (entry m (pgdir, pdx va) / 4096, ptx va)
    → translate m' pgdir va ≡ translate m pgdir va
unfolding translate
translate-eq m m' pgdir va same same' =
    ap (λ (pde : ℕ). if pde % 2 == 0 then none else if_present (entry m' (pde / 4096, ptx va))) same
    ∙ ap (λ (pte : ℕ). if entry m (pgdir, pdx va) % 2 == 0 then none else if_present pte) same'

-- Without a table in the directory nothing is mapped.
pub translate_empty :
    (m : Pages) (pgdir va : ℕ) → entry m (pgdir, pdx va) ≡ 0 → translate m pgdir va ≡ none
unfolding translate
translate_empty m pgdir va none_there = rw none_there refl

-- So is nothing where the table's entry is 0.
pub translate_blank :
    (m : Pages) (pgdir va : ℕ)
    → entry m (entry m (pgdir, pdx va) / 4096, ptx va) ≡ 0
    → translate m pgdir va ≡ none
unfolding translate
translate_blank m pgdir va blank =
    ap (λ (pte : ℕ). if entry m (pgdir, pdx va) % 2 == 0 then none else if_present pte) blank
    ∙ ground arith

module _ (npages : ℕ) (m m' : Pages) (pgdir va v : ℕ) (xs : List ℕ)
    (space : IsSpace npages m pgdir xs) (low : va < utop) (table : entry m (pgdir, pdx va) ≢ 0)
    (written : Written m m' (entry m (pgdir, pdx va) / 4096, ptx va) v) where
  own-IsTable : IsTable npages pgdir xs (entry m (pgdir, pdx va))
  own-IsTable = space.tables (pdx va) (omega arith) table

  root_kept : (i : ℕ) → entry m' (pgdir, i) ≡ entry m (pgdir, i)
  root_kept i = written.1 pgdir i (inl (λ e. own-IsTable.2 (sym e)))

  -- The page of `va` is mapped by the entry that was written.
  pub translate_written : translate m' pgdir va ≡ if_present v
  unfolding translate
  translate_written =
      let present : (entry m (pgdir, pdx va) % 2 == 0) ≡ false = ground (arith, own-IsTable.0) in
      ap (λ (pde : ℕ). if pde % 2 == 0 then none else if_present (entry m' (pde / 4096, ptx va)))
        (root_kept (pdx va))
      ∙ rw present (ap if_present written.0)

  -- Every other page is mapped as before.
  pub translate_other :
      (a : ℕ) → a < utop → a / 4096 ≢ va / 4096 → translate m' pgdir a ≡ translate m pgdir a
  translate_other a low' ne = elim (ℕ_discrete (entry m (pgdir, pdx a)) 0) [
    | yes empty ↦
        translate_empty m' pgdir a (root_kept (pdx a) ∙ empty)
        ∙ sym (translate_empty m pgdir a empty)
    | no other_table ↦ elim (ℕ_discrete (pdx a) (pdx va)) [
      | yes same ↦
          translate-eq m m' pgdir a (root_kept (pdx a))
            (written.1 (entry m (pgdir, pdx a) / 4096) (ptx a) (inr (λ e. ne (omega arith))))
      | no differ ↦ translate-eq m m' pgdir a (root_kept (pdx a)) (
          written.1 (entry m (pgdir, pdx a) / 4096) (ptx a) (
            inl (
              space.distinct (pdx va) (pdx a) (omega arith) (omega arith) (λ e. differ (sym e))
                table other_table)))
    ]
  ]

  pub written-KernelKept : KernelKept m m' pgdir
  written-KernelKept i high = root_kept i

  pub written-DataKept : DataKept m m' pgdir xs
  written-DataKept q i apart out = written.1 q i (inl (apart.1 (pdx va) (omega arith) table))

  written-IsTable :
      (i : ℕ)
      → i < user_tables
      → entry m' (pgdir, i) ≢ 0
      → IsTable npages pgdir xs (entry m (pgdir, i))
  written-IsTable i low there = space.tables i low (λ e. there (root_kept i ∙ e))

  written_distinct :
      (i j : ℕ)
      → i < user_tables
      → j < user_tables
      → i ≢ j
      → entry m' (pgdir, i) ≢ 0
      → entry m' (pgdir, j) ≢ 0
      → entry m' (pgdir, i) / 4096 ≢ entry m' (pgdir, j) / 4096
  written_distinct i j low_i low_j ne there_i there_j same =
      space.distinct i j low_i low_j ne (λ e. there_i (root_kept i ∙ e))
        (λ e. there_j (root_kept j ∙ e)) (omega (arith, same, root_kept i, root_kept j))

  -- The tables stay in order when the free list stays as it is, or gets a page that is no table.
  pub written-IsSpace : FreePages m' xs → IsSpace npages m' pgdir xs
  written-IsSpace list = record {
    free = list;
    in_range = space.in_range;
    root_out = space.root_out;
    self = ap (λ (n : ℕ). n / 4096) (root_kept uvpt_entry) ∙ space.self;
    tables = λ i low there.
        subst (IsTable npages pgdir xs) (sym (root_kept i)) (written-IsTable i low there);
    distinct = written_distinct;
  }

  pub freed-IsSpace :
      (q : ℕ)
      → q < npages
      → NotTable m pgdir q
      → FreePages m' (q ∷ xs)
      → IsSpace npages m' pgdir (q ∷ xs)
  freed-IsSpace q low_q apart list = record {
    free = list;
    in_range = (low_q, space.in_range);
    root_out = (apart.0, space.root_out);
    self = ap (λ (n : ℕ). n / 4096) (root_kept uvpt_entry) ∙ space.self;
    tables = λ i low_i there.
        let (odd, fits, ne, out) = written-IsTable i low_i there in
        subst (IsTable npages pgdir (q ∷ xs)) (sym (root_kept i))
          (odd, fits, ne, (apart.1 i low_i (λ e. there (root_kept i ∙ e)), out));
    distinct = written_distinct;
  }
