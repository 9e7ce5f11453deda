-- ===== src/Kern/PageCalls/NewPage.antt =====
-- sched/kern/syscall.c: sys_page_alloc with a free page.
use Prim.Native.Nat.{bit_or}
use sistemas_operativos_1c.Base.{
  ℕ, ◌+◌, ◌*◌, ◌/◌, ◌%◌, ◌^◌, ◌≤◌, ◌<◌, ◌≡◌, ◌≢◌, ◌⊎◌, inl, inr, refl, sym, ap, ◌∙◌, subst, true,
  false, List, [], ◌∷◌, none, some, arith,
}
use native.Mathlib.Decide.{ℕ_discrete}
use sistemas_operativos_1c.Base.Bits.{bit_or-one, bit_or-lt, bit_and-page}
use sistemas_operativos_1c.Base.Int.{pos}
use sistemas_operativos_1c.Kern.Errors.{e_no_mem, utop}
use sistemas_operativos_1c.Kern.Env.{Table, Lookup, envid2env}
use sistemas_operativos_1c.Kern.Pages.{Pages, take_page, page_alloc}
use sistemas_operativos_1c.Kern.PageList.{FreePages}
use sistemas_operativos_1c.Kern.Paging.{entry, page_insert, pdx, pte_p, pte_u}
use sistemas_operativos_1c.Kern.Paging.Space.{IsSpace, DataKept, translate, mapped_entry}
use sistemas_operativos_1c.Kern.Paging.NewTable.{taken}
use sistemas_operativos_1c.Kern.Paging.Taken.{
  entry-taken, taken_blank, taken-IsSpace, translate-taken, mapped_entry-taken, pages-taken,
  taken_unused, taken-KernelKept, taken-NotTable, own-NotTable, taken-DataKept,
}
use sistemas_operativos_1c.Kern.Paging.Mapped.{IsMapping, refs_to}
use sistemas_operativos_1c.Kern.Paging.Remove.{OthersKept}
use sistemas_operativos_1c.Kern.Paging.Insert.{Inserted, page_insert-Inserted}
use sistemas_operativos_1c.Kern.PageCalls.{
  not_pte_syscall, check_perm, Memory, unless_error, insert_new, env_page_alloc, on_env,
  bad_address, sys_page_alloc,
}

-- How an allocation of the free page `y` for `va` ends, where `ys` are the other free pages: the page, which
-- is all zeros and has one reference, is mapped at `va` with the permissions `perm`, and nothing else
-- changes for the processor below UTOP; or there is no free page left for a table that is needed, and then the
-- page that was taken is on no list any more.
abbrev pub Allocated : (npages : ℕ) → Pages → (pgdir va perm y : ℕ) → List ℕ → Memory → Type 0
Allocated npages m pgdir va perm y ys o =
    ((m' : Pages) × (o ≡ some (m', pos 0))
      × (translate m' pgdir va ≡ some (y * 4096 + perm))
      × ((i : ℕ) → i < 1024 → entry m' (y, i) ≡ 0)
      × ((m'.pages y).pp_ref ≡ 1)
      × OthersKept m m' pgdir va
      × DataKept m m' pgdir (y ∷ ys)
      × (zs : List ℕ) × IsSpace npages m' pgdir zs)
    ⊎ ((m' : Pages) × (o ≡ some (m', e_no_mem))
        × (ys ≡ [])
        × (entry m (pgdir, pdx va) ≡ 0)
        × FreePages m' [])

-- An accepted word of permissions has only flags, and PTE_P among them.
check_perm-flags : (perm : ℕ) → perm < 2 ^ 32 → check_perm perm none ≡ pos 0 → perm < 4096
unfolding check_perm
check_perm-flags perm low accepted =
    bit_and-page perm not_pte_syscall low (omega arith) (ground arith)

taken-IsMapping :
    (npages : ℕ) (m : Pages) (pgdir y pte : ℕ) (ys : List ℕ)
    → IsSpace npages m pgdir (y ∷ ys)
    → IsMapping npages m pgdir (y ∷ ys) pte
    → IsMapping npages (taken m y) pgdir ys pte
taken-IsMapping npages m pgdir y pte ys space mapping there =
    let (fits, apart, (left, count, few, unlinked, out)) = mapping there in
    let kept = pages-taken npages m pgdir y ys space (pte / 4096) (λ e. out.0 (sym e)) in
    (
      fits,
      taken-NotTable npages m pgdir y ys space (pte / 4096) apart,
      (left, ap (λ p. p.pp_ref) kept ∙ count, few, ap (λ p. p.pp_link) kept ∙ unlinked, out.1),
    )

-- An entry that maps a page in use stands for no reference to a free page.
refs_to-free :
    (npages : ℕ) (m : Pages) (pgdir y pte : ℕ) (ys : List ℕ)
    → IsMapping npages m pgdir (y ∷ ys) pte
    → refs_to pte y ≡ 0
refs_to-free npages m pgdir y pte ys mapping = elim (ℕ_discrete pte 0) [
  | yes blank ↦ rw blank refl
  | no there ↦
      let (fits, apart, (left, count, few, unlinked, out)) = mapping there in
      let differ : pte / 4096 ≢ y = out.0 in ground arith
]

module _ (npages : ℕ) (m : Pages) (pgdir va perm y : ℕ) (ys : List ℕ) (small : npages ≤ 2 ^ 20)
    (low : va < utop) (word : perm < 2 ^ 32) (odd : perm % 2 ≡ 1)
    (accepted : check_perm perm none ≡ pos 0) (space : IsSpace npages m pgdir (y ∷ ys))
    (mapping : IsMapping npages m pgdir (y ∷ ys) (mapped_entry m pgdir va)) where
  flags : perm < 4096
  flags = check_perm-flags perm word accepted

  insertion :
      Inserted npages
        (taken m y)
        pgdir
        y
        va
        perm
        ys
        (page_insert npages (taken m y) pgdir y va perm)
  insertion =
      let unused = taken_unused npages m pgdir y ys space in
      page_insert-Inserted npages (taken m y) pgdir y va perm ys small low space.in_range.0 flags
        space.free.2 (omega (arith, unused)) (taken-IsSpace npages m pgdir y ys space)
        (subst (IsMapping npages (taken m y) pgdir ys)
          (sym (mapped_entry-taken npages m pgdir y ys space va low))
          (taken-IsMapping npages m pgdir y (mapped_entry m pgdir va) ys space mapping))

  alloc_step :
      env_page_alloc npages m pgdir va perm ≡ page_insert npages (taken m y) pgdir y va perm
  unfolding env_page_alloc page_alloc
  alloc_step =
      ap (λ r. unless_error m r (insert_new npages pgdir va perm (page_alloc m true))) accepted
      ∙ ap (λ o. insert_new npages pgdir va perm (take_page m true o)) space.free.0

  unshared : refs_to (mapped_entry (taken m y) pgdir va) y ≡ 0
  unshared =
      ap (λ (pte : ℕ). refs_to pte y) (mapped_entry-taken npages m pgdir y ys space va low)
      ∙ refs_to-free npages m pgdir y (mapped_entry m pgdir va) ys mapping

  finish :
      Inserted npages
        (taken m y)
        pgdir
        y
        va
        perm
        ys
        (page_insert npages (taken m y) pgdir y va perm)
      → Allocated npages m pgdir va perm y ys (env_page_alloc npages m pgdir va perm)
  finish (inl (m', step, mapped, others, data_kept, counts, zs, in_order)) = inl (
    m',
    alloc_step ∙ step,
    mapped ∙ ap some (omega arith),
    λ i low_i.
        data_kept y i (own-NotTable npages m pgdir y ys space) space.free.2
        ∙ taken_blank npages m pgdir y ys space i low_i,
    ground (arith, counts y space.free.2, unshared, taken_unused npages m pgdir y ys space),
    (
      λ a low_a ne. others.0 a low_a ne ∙ translate-taken npages m pgdir y ys space a low_a,
      λ i high. others.1 i high ∙ taken-KernelKept npages m pgdir y ys space i high,
    ),
    taken-DataKept npages m pgdir y ys space m' data_kept,
    zs,
    in_order,
  )
  finish (inr (full, empty, step)) = inr (
    taken m y,
    alloc_step ∙ step,
    full,
    sym (entry-taken npages m pgdir y ys space pgdir (pdx va) (λ e. space.root_out.0 (sym e)))
        ∙ empty,
    subst (FreePages (taken m y)) full (taken-IsSpace npages m pgdir y ys space).free,
  )

  pub env_page_alloc-Allocated :
      Allocated npages m pgdir va perm y ys (env_page_alloc npages m pgdir va perm)
  env_page_alloc-Allocated = finish insertion

-- The permissions that `sys_page_alloc` asks for.
abbrev pub user_perm : ℕ → ℕ
user_perm perm = bit_or (bit_or perm pte_u) pte_p

-- For an environment that the caller may change, an aligned address below UTOP, whose entry is 0 or maps a
-- page with references, and permissions that are accepted, with a page free and a directory that
-- maps itself at UVPT and is in order below UTOP, `sys_page_alloc` maps a page of zeros there with the
-- permissions, which has one reference; the processor maps all other pages below UTOP as before, and the
-- directory's entries from UTOP on and the pages in use that are neither the directory nor its tables below
-- UTOP keep their contents. Or else a
-- table was missing and no second page was free for it: then the result is -E_NO_MEM, and the page that was
-- taken first is on no list any more.
pub sys_page_alloc-Allocated :
    (npages : ℕ) (t : Table) (m : Pages) (envid va perm e y : ℕ) (ys : List ℕ)
    → npages ≤ 2 ^ 20
    → envid2env t envid true ≡ Lookup.stored (some e)
    → va < utop
    → va % 4096 ≡ 0
    → perm < 2 ^ 32
    → check_perm (user_perm perm) none ≡ pos 0
    → IsSpace npages m (t.envs e).env_pgdir (y ∷ ys)
    → IsMapping npages m (t.envs e).env_pgdir (y ∷ ys) (mapped_entry m (t.envs e).env_pgdir va)
    → Allocated npages m
        (t.envs e).env_pgdir
        va
        (user_perm perm)
        y
        ys
        (sys_page_alloc npages t m envid va perm)
unfolding sys_page_alloc
sys_page_alloc-Allocated npages t m envid va perm e y ys small found user aligned word accepted
      space mapping =
    let good : bad_address va ≡ false = ground arith in
    let step =
      ap (λ l. on_env m l (λ e. env_page_alloc npages m (t.envs e).env_pgdir va (user_perm perm)))
        found in
    rw (good, step)
      (env_page_alloc-Allocated npages m (t.envs e).env_pgdir va (user_perm perm) y ys small user
        (bit_or-lt 32 (bit_or perm pte_u) pte_p (bit_or-lt 32 perm pte_u word (omega arith))
          (omega arith))
        (omega (arith, bit_or-one (bit_or perm pte_u))) accepted space mapping)
