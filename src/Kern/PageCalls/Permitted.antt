-- ===== src/Kern/PageCalls/Permitted.antt =====
-- sched/kern/syscall.c: what holds where sys_page_alloc, sys_page_map or sys_page_unmap succeeds.
use Prim.Native.Nat.{bit_or}
use sistemas_operativos_1c.Base.{
  ℕ, ◌+◌, ◌≡◌, ◌≢◌, inl, inr, refl, sym, ap, ◌∙◌, subst, Bool, true, false, ◌||◌, Option, none,
  some, arith, if◌then◌else◌, ◌>>=◌,
}
use sistemas_operativos_1c.Base.Int.{ℤ, pos, negsuc}
use sistemas_operativos_1c.Kern.Errors.{e_inval}
use sistemas_operativos_1c.Kern.Env.{Table, Lookup, envid2env, denied, envx}
use sistemas_operativos_1c.Kern.Pages.{Pages}
use sistemas_operativos_1c.Kern.Paging.{Slot, entry, page_lookup, pgdir_walk, pa2page, pte_p, pte_u}
use sistemas_operativos_1c.Kern.PageCalls.{
  check_perm, Memory, unless_error, widens, map_found, env_page_alloc, env_page_map, on_env,
  bad_address, PageCall, page_alloc_call, page_map_call, page_unmap_call, page_call, sys_page_alloc,
  sys_page_map, sys_page_unmap,
}
use sistemas_operativos_1c.Kern.PageCalls.NewPage.{user_perm}
use sistemas_operativos_1c.Kern.PageCalls.Reasons.{
  Misplaced, Unreachable, Inappropriate, Widens, page_lookup-mapped, Widens-widens,
}
use sistemas_operativos_1c.Kern.PageCalls.Refusals.{Unmappable}

bad_address-false : (va : ℕ) → bad_address va ≡ false → ¬ (Misplaced va)
bad_address-false va good (inl high) = absurd (ground arith)
bad_address-false va good (inr unaligned) = unaligned (ground arith)

denied-stored :
    (t : Table) (e : ℕ) (c e' : ℕ)
    → denied t e (some c) ≡ Lookup.stored (some e')
    → e ≢ c
    → (t.envs e).env_parent_id ≢ (t.envs c).env_id
    → ⊥
unfolding denied
denied-stored t e c e' found not_self not_child = ground arith

envid2env-stored :
    (t : Table) (envid e : ℕ)
    → envid2env t envid true ≡ Lookup.stored (some e)
    → ¬ (Unreachable t envid)
unfolding envid2env
envid2env-stored t envid e found (ne, inl free) = ground arith
envid2env-stored t envid e found (ne, inr (inl other)) = ground arith
envid2env-stored t envid e found (ne, inr (inr (c, cur, not_self, not_child))) =
    denied-stored t (envx envid) c e (ap (denied t (envx envid)) (sym cur) ∙ ground arith) not_self
      not_child

check_perm-pos : (perm k : ℕ) → check_perm perm none ≡ pos k → ¬ (Inappropriate perm)
unfolding check_perm
check_perm-pos perm k accepted other = ground arith

-- A step that succeeds has passed its tests.
abbrev Succeeds : Memory → Type 0
Succeeds o = (m' : Pages) × (k : ℕ) × (o ≡ some (m', pos k))

unguarded :
    (m : Pages) (bad : Bool) (rest : Memory)
    → Succeeds (if bad then some (m, e_inval) else rest)
    → (bad ≡ false) × Succeeds rest
unguarded m true rest (m', k, e) = cc
unguarded m false rest ok = (refl, ok)

on_env-found :
    (m : Pages) (l : Lookup) (next : ℕ → Memory)
    → Succeeds (on_env m l next)
    → (e : ℕ) × (l ≡ Lookup.stored (some e)) × Succeeds (next e)
on_env-found m (Lookup.stored (some e)) next ok = (e, refl, ok)
on_env-found m (Lookup.stored none) next (m', k, e) = cc
on_env-found m Lookup.bad_env next (m', k, e) = cc
on_env-found m Lookup.fault next (m', k, e) = cc

unless_error-pos :
    (m : Pages) (r : ℤ) (rest : Memory) → Succeeds (unless_error m r rest) → (k : ℕ) × (r ≡ pos k)
unless_error-pos m (pos k) rest ok = (k, refl)
unless_error-pos m (negsuc n) rest (m', k, e) = cc

map_found-some :
    (npages : ℕ) (m : Pages) (dst dstva perm : ℕ) (o : Option (Option (ℕ × Slot)))
    → Succeeds (o >>= map_found npages m dst dstva perm)
    → (page : ℕ) × (pte : Slot) × (o ≡ some (some (page, pte)))
      × (widens perm (entry m pte) ≡ false)
map_found-some npages m dst dstva perm none (m', k, e) = cc
map_found-some npages m dst dstva perm (some none) (m', k, e) = cc
map_found-some npages m dst dstva perm (some (some (page, pte))) ok =
    (page, pte, refl, (unguarded m (widens perm (entry m pte)) _ ok).0)

found_entry :
    (npages : ℕ) (m : Pages) (pgdir va page : ℕ) (pte : Slot)
    → page_lookup npages m pgdir va ≡ some (some (page, pte))
    → entry m pte ≢ 0
unfolding page_lookup pgdir_walk pa2page
found_entry npages m pgdir va page pte e blank = ground arith

mapped-Unmappable :
    (npages : ℕ) (m : Pages) (pgdir va perm page : ℕ) (pte : Slot)
    → page_lookup npages m pgdir va ≡ some (some (page, pte))
    → widens perm (entry m pte) ≡ false
    → ¬ (Unmappable m pgdir va perm)
mapped-Unmappable npages m pgdir va perm page pte found narrow (inl blank) =
    found_entry npages m pgdir va page pte found
      (sym (page_lookup-mapped npages m pgdir va page pte found) ∙ blank)
mapped-Unmappable npages m pgdir va perm page pte found narrow (inr wider) =
    let here = subst (Widens perm) (page_lookup-mapped npages m pgdir va page pte found) wider in
    let yes_it = Widens-widens perm (entry m pte) here in cc

-- The environment is there and may be changed, and `A` holds of its entry.
abbrev pub Reached : Table → (envid : ℕ) → (ℕ → Type 0) → Type 0
Reached t envid A =
    (¬ (Unreachable t envid)) × (e : ℕ) × (envid2env t envid true ≡ Lookup.stored (some e)) × A e

-- What the comments of the calls ask for.
abbrev pub Permitted : Table → Pages → PageCall → Type 0
Permitted t m (page_alloc_call envid va perm) =
    (¬ (Misplaced va)) × (¬ (Unreachable t envid)) × (¬ (Inappropriate (user_perm perm)))
Permitted t m (page_map_call srcenvid srcva dstenvid dstva perm) =
    (¬ (Misplaced srcva))
    × (¬ (Misplaced dstva))
    × (¬ (Unreachable t dstenvid))
    × Reached t srcenvid
        (λ src. ¬ (Unmappable m (t.envs src).env_pgdir srcva (bit_or (pte_p + pte_u) perm)))
Permitted t m (page_unmap_call envid va) = (¬ (Misplaced va)) × (¬ (Unreachable t envid))

both_good : (a b : Bool) → (a || b) ≡ false → (a ≡ false) × (b ≡ false)
both_good true b e = cc
both_good false b e = (refl, e)

-- The three system calls on pages succeed only at aligned addresses below UTOP and for environments that
-- exist and that the caller may change; sys_page_alloc also only with permissions that may be set, and
-- sys_page_map only for a page that is mapped at the source, for writing only if it may be written there.
pub page_call-Permitted :
    (npages : ℕ) (t : Table) (m : Pages) (call : PageCall) (m' : Pages) (k : ℕ)
    → page_call npages t m call ≡ some (m', pos k)
    → Permitted t m call
unfolding page_call sys_page_alloc sys_page_map sys_page_unmap env_page_alloc env_page_map
page_call-Permitted npages t m (page_alloc_call envid va perm) m' k e =
    let (placed, ok) = unguarded m (bad_address va) _ (m', k, e) in
    let (env, found, ok') = on_env-found m (envid2env t envid true) _ ok in
    let (n, accepted) = unless_error-pos m (check_perm (user_perm perm) none) _ ok' in
    (
      bad_address-false va placed,
      envid2env-stored t envid env found,
      check_perm-pos (user_perm perm) n accepted,
    )
page_call-Permitted npages t m (page_map_call srcenvid srcva dstenvid dstva perm) m' k e =
    let (placed, ok) = unguarded m (bad_address srcva || bad_address dstva) _ (m', k, e) in
    let (good, good') = both_good (bad_address srcva) (bad_address dstva) placed in
    let (src, found, ok') = on_env-found m (envid2env t srcenvid true) _ ok in
    let (dst, found', ok'') = on_env-found m (envid2env t dstenvid true) _ ok' in
    let p = bit_or (pte_p + pte_u) perm in
    let (page, pte, looked, narrow) =
      map_found-some npages m (t.envs dst).env_pgdir dstva p
        (page_lookup npages m (t.envs src).env_pgdir srcva) ok'' in
    (
      bad_address-false srcva good,
      bad_address-false dstva good',
      envid2env-stored t dstenvid dst found',
      (
        envid2env-stored t srcenvid src found,
        src,
        found,
        mapped-Unmappable npages m (t.envs src).env_pgdir srcva p page pte looked narrow,
      ),
    )
page_call-Permitted npages t m (page_unmap_call envid va) m' k e =
    let (placed, ok) = unguarded m (bad_address va) _ (m', k, e) in
    let (env, found, ok') = on_env-found m (envid2env t envid true) _ ok in
    (bad_address-false va placed, envid2env-stored t envid env found)
