-- ===== src/Kern/PageCalls/Refusals.antt =====
-- sched/kern/syscall.c: the errors of sys_page_alloc, sys_page_map and sys_page_unmap.
use Prim.Native.Nat.{bit_or}
use sistemas_operativos_1c.Base.{
  ℕ, ◌+◌, ◌≡◌, ◌≢◌, ◌⊎◌, inl, inr, refl, sym, ap, ◌∙◌, subst, Bool, true, false, ◌||◌, Option, none,
  some, arith, Bool-cases, if◌then◌else◌, ◌>>=◌,
}
use sistemas_operativos_1c.Base.Int.{ℤ, pos, negsuc}
use sistemas_operativos_1c.Kern.Errors.{e_bad_env, e_inval, e_no_mem}
use sistemas_operativos_1c.Kern.Env.{Table, Lookup, envid2env}
use sistemas_operativos_1c.Kern.Pages.{Pages, page_alloc}
use sistemas_operativos_1c.Kern.Paging.{
  Slot, entry, set_entry, incremented, pgdir_walk, page_lookup, page_remove, insert_at, page_insert,
  pte_p, pte_u,
}
use sistemas_operativos_1c.Kern.PageCalls.{
  check_perm, Memory, unless_error, insert_new, env_page_alloc, widens, map_found, env_page_map,
  on_env, bad_address, PageCall, page_alloc_call, page_map_call, page_unmap_call, page_call,
}
use sistemas_operativos_1c.Kern.Paging.Space.{mapped_entry}
use sistemas_operativos_1c.Kern.PageCalls.NewPage.{user_perm}
use sistemas_operativos_1c.Kern.PageCalls.Reasons.{
  Misplaced, bad_address-Misplaced, Unreachable, bad_env-Unreachable, Inappropriate,
  check_perm-Inappropriate, Widens, widens-Widens, page_lookup-unmapped, page_lookup-mapped,
}

-- A step with the result `o` that ends with the error `r`, which is not the lack of memory, has changed
-- nothing, and `Reason` holds.
abbrev Refuses : Pages → Memory → (ℤ → Type 0) → Type 0
Refuses m o Reason =
    (m' : Pages) (n : ℕ)
    → o ≡ some (m', negsuc n)
    → negsuc n ≢ e_no_mem
    → (m' ≡ m) × Reason (negsuc n)

-- An insertion fails only for lack of memory.
inserted_ok :
    (pte : Slot) (value : ℕ) (o : Option Pages) (m' : Pages) (n : ℕ)
    → ¬ (◌>>=◌ {B = Pages × ℤ} o (λ m. some (set_entry m pte value, pos 0)) ≡ some (m', negsuc n))
inserted_ok pte value none m' n e = cc
inserted_ok pte value (some m) m' n e = cc

insert_at_error :
    (npages pgdir pp va perm : ℕ) (o : Option (Pages × Option Slot)) (m' : Pages) (n : ℕ)
    → (o >>= insert_at npages pgdir pp va perm) ≡ some (m', negsuc n)
    → negsuc n ≡ e_no_mem
insert_at_error npages pgdir pp va perm none m' n e = cc
insert_at_error npages pgdir pp va perm (some (m, none)) m' n e = cc
insert_at_error npages pgdir pp va perm (some (m, some pte)) m' n e =
    absurd (inserted_ok pte _ (page_remove npages (incremented m pp) pgdir va) m' n e)

page_insert_error :
    (npages : ℕ) (m : Pages) (pgdir pp va perm : ℕ) (m' : Pages) (n : ℕ)
    → page_insert npages m pgdir pp va perm ≡ some (m', negsuc n)
    → negsuc n ≡ e_no_mem
unfolding page_insert
page_insert_error npages m pgdir pp va perm =
    insert_at_error npages pgdir pp va perm (pgdir_walk npages m pgdir va true)

insert_new_error :
    (npages pgdir va perm : ℕ) (r : Pages × Option ℕ) (m' : Pages) (n : ℕ)
    → insert_new npages pgdir va perm r ≡ some (m', negsuc n)
    → negsuc n ≡ e_no_mem
insert_new_error npages pgdir va perm (m, none) m' n e = cc
insert_new_error npages pgdir va perm (m, some page) m' n e =
    page_insert_error npages m pgdir page va perm m' n e

unless_error_refuses :
    (m : Pages) (r : ℤ) (rest : Memory)
    → ((m' : Pages) (n : ℕ) → rest ≡ some (m', negsuc n) → negsuc n ≡ e_no_mem)
    → Refuses m (unless_error m r rest) (λ r'. r ≡ r')
unless_error_refuses m (pos k) rest only m' n e ne = absurd (ne (only m' n e))
unless_error_refuses m (negsuc k) rest only m' n e ne = (cc, cc)

check_perm_error : (perm n : ℕ) → check_perm perm none ≡ negsuc n → negsuc n ≡ e_inval
unfolding check_perm
check_perm_error perm n e = ground arith

env_page_alloc_refuses :
    (npages : ℕ) (m : Pages) (pgdir va perm : ℕ)
    → Refuses m
        (env_page_alloc npages m pgdir va perm)
        (λ r. (r ≡ e_inval) × (check_perm perm none ≡ r))
unfolding env_page_alloc
env_page_alloc_refuses npages m pgdir va perm m' n e ne =
    let (same, code) =
      unless_error_refuses m (check_perm perm none) _
        (insert_new_error npages pgdir va perm (page_alloc m true)) m' n e ne in
    (same, (check_perm_error perm n code, code))

-- Why `map_found` refuses what a lookup found.
abbrev Unfit : Pages → (perm : ℕ) → Option (Option (ℕ × Slot)) → Type 0
Unfit m perm o =
    (o ≡ some none)
    ⊎ ((page : ℕ) × (pte : Slot) × (o ≡ some (some (page, pte)))
        × (widens perm (entry m pte) ≡ true))

map_found_refuses :
    (npages : ℕ) (m : Pages) (dst dstva perm : ℕ) (o : Option (Option (ℕ × Slot)))
    → Refuses m (o >>= map_found npages m dst dstva perm) (λ r. (r ≡ e_inval) × Unfit m perm o)
map_found_refuses npages m dst dstva perm none m' n e ne = cc
map_found_refuses npages m dst dstva perm (some none) m' n e ne = (cc, (cc, inl refl))
map_found_refuses npages m dst dstva perm (some (some (page, pte))) m' n e ne =
    choose (widens perm (entry m pte)) refl e
  where
    choose :
        (b : Bool)
        → widens perm (entry m pte) ≡ b
        → (if b then some (m, e_inval) else page_insert npages m dst page dstva perm)
          ≡ some (m', negsuc n)
        → (m' ≡ m) × ((negsuc n ≡ e_inval) × Unfit m perm (some (some (page, pte))))
    choose true wider e' = (cc, (cc, inr (page, pte, refl, wider)))
    choose false fits e' = absurd (ne (page_insert_error npages m dst page dstva perm m' n e'))

-- Why a page cannot be mapped: none is mapped at the source, or it may only be read there.
abbrev pub Unmappable : Pages → (pgdir va perm : ℕ) → Type 0
Unmappable m pgdir va perm = (mapped_entry m pgdir va ≡ 0) ⊎ Widens perm (mapped_entry m pgdir va)

Unfit-Unmappable :
    (npages : ℕ) (m : Pages) (pgdir va perm : ℕ)
    → Unfit m perm (page_lookup npages m pgdir va)
    → Unmappable m pgdir va perm
Unfit-Unmappable npages m pgdir va perm (inl missing) =
    inl (page_lookup-unmapped npages m pgdir va missing)
Unfit-Unmappable npages m pgdir va perm (inr (page, pte, found, wider)) = inr (
    subst (Widens perm) (sym (page_lookup-mapped npages m pgdir va page pte found))
      (widens-Widens perm (entry m pte) wider))

env_page_map_refuses :
    (npages : ℕ) (m : Pages) (src srcva dst dstva perm : ℕ)
    → Refuses m
        (env_page_map npages m src srcva dst dstva perm)
        (λ r. (r ≡ e_inval) × Unmappable m src srcva perm)
unfolding env_page_map
env_page_map_refuses npages m src srcva dst dstva perm m' n e ne =
    let (same, (code, unfit)) =
      map_found_refuses npages m dst dstva perm (page_lookup npages m src srcva) m' n e ne in
    (same, (code, Unfit-Unmappable npages m src srcva perm unfit))

on_env_refuses :
    (m : Pages) (l : Lookup) (k : ℕ → Memory) (Bad : Type 0) (Reason : ℕ → ℤ → Type 0)
    → (l ≡ Lookup.bad_env → Bad)
    → ((e : ℕ) → Refuses m (k e) (Reason e))
    → Refuses m
        (on_env m l k)
        (λ r. ((r ≡ e_bad_env) × Bad) ⊎ ((e : ℕ) × (l ≡ Lookup.stored (some e)) × Reason e r))
on_env_refuses m (Lookup.stored (some e)) k Bad Reason why each m' n eq ne =
    let (same, reason) = each e m' n eq ne in (same, inr (e, refl, reason))
on_env_refuses m (Lookup.stored none) k Bad Reason why each m' n eq ne = cc
on_env_refuses m Lookup.bad_env k Bad Reason why each m' n eq ne = (cc, inl (cc, why refl))
on_env_refuses m Lookup.fault k Bad Reason why each m' n eq ne = cc

address_refuses :
    (m : Pages) (Bad : Type 0) (bad : Bool) (rest : Memory) (Reason : ℤ → Type 0)
    → (bad ≡ true → Bad)
    → Refuses m rest Reason
    → Refuses m (if bad then some (m, e_inval) else rest) (λ r. ((r ≡ e_inval) × Bad) ⊎ Reason r)
address_refuses m Bad true rest Reason why other m' n e ne = (cc, inl (cc, why refl))
address_refuses m Bad false rest Reason why other m' n e ne =
    let (same, why) = other m' n e ne in (same, inr why)

-- Why a call on an environment is refused: there is none, the caller may not change it, or `Reason` holds of it.
abbrev pub OnEnv : Table → (envid : ℕ) → (ℕ → ℤ → Type 0) → ℤ → Type 0
OnEnv t envid Reason r =
    ((r ≡ e_bad_env) × Unreachable t envid)
    ⊎ ((e : ℕ) × (envid2env t envid true ≡ Lookup.stored (some e)) × Reason e r)

-- Permissions with a bit that may not be set.
abbrev pub BadPerm : (perm : ℕ) → ℕ → ℤ → Type 0
BadPerm perm e r = (r ≡ e_inval) × Inappropriate (user_perm perm)

abbrev pub BadSource : Table → Pages → (srcva perm src dst : ℕ) → ℤ → Type 0
BadSource t m srcva perm src dst r =
    (r ≡ e_inval) × Unmappable m (t.envs src).env_pgdir srcva (bit_or (pte_p + pte_u) perm)

abbrev pub Never : ℕ → ℤ → Type 0
Never e r = ⊥

abbrev pub BadTarget : Table → Pages → (srcva dstenvid perm src : ℕ) → ℤ → Type 0
BadTarget t m srcva dstenvid perm src = OnEnv t dstenvid (BadSource t m srcva perm src)

-- The reasons that the comments of the three calls give for the errors other than -E_NO_MEM.
abbrev pub Documented : Table → Pages → PageCall → ℤ → Type 0
Documented t m (page_alloc_call envid va perm) r =
    ((r ≡ e_inval) × Misplaced va) ⊎ OnEnv t envid (BadPerm perm) r
Documented t m (page_map_call srcenvid srcva dstenvid dstva perm) r =
    ((r ≡ e_inval) × (Misplaced srcva ⊎ Misplaced dstva))
    ⊎ OnEnv t srcenvid (BadTarget t m srcva dstenvid perm) r
Documented t m (page_unmap_call envid va) r = ((r ≡ e_inval) × Misplaced va) ⊎ OnEnv t envid Never r

address_reason :
    (srcva dstva : ℕ)
    → (bad_address srcva || bad_address dstva) ≡ true
    → Misplaced srcva ⊎ Misplaced dstva
address_reason srcva dstva bad = elim (Bool-cases (bad_address srcva)) [
  | inl first ↦ inl (bad_address-Misplaced srcva first)
  | inr good ↦ inr (bad_address-Misplaced dstva (ap (λ b. b || bad_address dstva) (sym good) ∙ bad))
]

removed_ok :
    (o : Option Pages) (m' : Pages) (n : ℕ)
    → ¬ (◌>>=◌ {B = Pages × ℤ} o (λ m. some (m, pos 0)) ≡ some (m', negsuc n))
removed_ok none m' n e = cc
removed_ok (some m) m' n e = cc

-- A system call on pages that fails with an error other than -E_NO_MEM changes neither pages nor tables, and
-- one of the reasons that its comment gives for this error holds.
pub page_call-Documented :
    (npages : ℕ) (t : Table) (m : Pages) (call : PageCall) (m' : Pages) (n : ℕ)
    → page_call npages t m call ≡ some (m', negsuc n)
    → negsuc n ≢ e_no_mem
    → (m' ≡ m) × Documented t m call (negsuc n)
unfolding page_call
page_call-Documented npages t m (page_alloc_call envid va perm) =
    address_refuses m (Misplaced va) (bad_address va) _ (OnEnv t envid (BadPerm perm))
      (bad_address-Misplaced va)
      (on_env_refuses m (envid2env t envid true) _ (Unreachable t envid) (BadPerm perm)
        (bad_env-Unreachable t envid)
        (λ e m' n eq ne.
          let (same, (code, refused)) =
            env_page_alloc_refuses npages m (t.envs e).env_pgdir va (user_perm perm) m' n eq ne in
          (same, (code, check_perm-Inappropriate perm n refused))))
page_call-Documented npages t m (page_map_call srcenvid srcva dstenvid dstva perm) =
    address_refuses m (Misplaced srcva ⊎ Misplaced dstva) (bad_address srcva || bad_address dstva) _
      (OnEnv t srcenvid (BadTarget t m srcva dstenvid perm)) (address_reason srcva dstva)
      (on_env_refuses m (envid2env t srcenvid true) _ (Unreachable t srcenvid)
        (BadTarget t m srcva dstenvid perm) (bad_env-Unreachable t srcenvid)
        (λ src.
          on_env_refuses m (envid2env t dstenvid true) _ (Unreachable t dstenvid)
            (BadSource t m srcva perm src) (bad_env-Unreachable t dstenvid)
            (λ dst.
              env_page_map_refuses npages m (t.envs src).env_pgdir srcva (t.envs dst).env_pgdir
                dstva (bit_or (pte_p + pte_u) perm))))
page_call-Documented npages t m (page_unmap_call envid va) =
    address_refuses m (Misplaced va) (bad_address va) _ (OnEnv t envid Never)
      (bad_address-Misplaced va)
      (on_env_refuses m (envid2env t envid true) _ (Unreachable t envid) Never
        (bad_env-Unreachable t envid)
        (λ e m' n eq ne.
          absurd (removed_ok (page_remove npages m (t.envs e).env_pgdir va) m' n eq)))
