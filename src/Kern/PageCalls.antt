-- ===== src/Kern/PageCalls.antt =====
-- sched/kern/syscall.c: the system calls that allocate, map and unmap pages, those that send messages, and the
-- check of the handler of page faults. `env_pgdir` is the page of the environment's directory. The result
-- `none` is a panic, or a read through a pointer that is null or was never set.
pub mod NewPage
pub mod Reasons
pub mod Refusals
pub mod Permitted
pub mod Messages
use Prim.Native.Nat.{bit_and, bit_or}
use sistemas_operativos_1c.Base.{
  ℕ, ◌+◌, ◌-◌, ◌%◌, ◌^◌, Bool, true, false, ◌&&◌, ◌||◌, not, Option, none, some, update, ltb, leb,
  ◌==◌, if◌then◌else◌, ◌>>=◌,
}
use sistemas_operativos_1c.Base.Int.{ℤ, pos, negsuc}
use sistemas_operativos_1c.Kern.Errors.{e_bad_env, e_inval, e_no_mem, e_ipc_not_recv, utop, pgsize}
use sistemas_operativos_1c.Kern.Env.{Env, Status, Table, Lookup, envid2env}
use sistemas_operativos_1c.Kern.Alloc.{env_destroy}
use sistemas_operativos_1c.Kern.Pages.{Pages, page_alloc}
use sistemas_operativos_1c.Kern.Paging.{
  Slot, entry, page_lookup, page_insert, page_remove, pte_p, pte_w, pte_u,
}
use sistemas_operativos_1c.Kern.Paging.UserMem.{user_mem_check}
use sistemas_operativos_1c.Kern.Syscall.{Result, returns, yields, Effect, set_env}

-- ~PTE_SYSCALL, on 32 bits: all but the available bits, PTE_P, PTE_W and PTE_U.
abbrev pub not_pte_syscall : ℕ
not_pte_syscall = 2 ^ 32 - 1 - 0xe07

abbrev pub has : (flags bit : ℕ) → Bool
has flags bit = not (bit_and flags bit == 0)

abbrev pub check_pte : (perm : ℕ) → (pte : Option ℕ) → ℤ
check_pte perm none = pos 0
check_pte perm (some pte) =
    if not (pte == 0) && not (has pte pte_p)
    then e_inval
    else (if has perm pte_w && not (has pte pte_w) then e_inval else pos 0)

-- The entry is that behind `pte`, none if `pte` is null.
unfoldable pub check_perm : (perm : ℕ) → (pte : Option ℕ) → ℤ
check_perm perm pte =
    if has perm not_pte_syscall
    then e_inval
    else if not (has perm pte_p) || not (has perm pte_u)
    then e_inval
    else check_pte perm pte

abbrev pub Memory : Type 0
Memory = Option (Pages × ℤ)

-- `if (err < 0) return err;`
abbrev pub unless_error : Pages → ℤ → Memory → Memory
unless_error m (pos n) rest = rest
unless_error m (negsuc n) rest = some (m, negsuc n)

abbrev pub insert_new : (npages pgdir va perm : ℕ) → Pages × Option ℕ → Memory
insert_new npages pgdir va perm (m, none) = some (m, e_no_mem)
insert_new npages pgdir va perm (m, some page) = page_insert npages m pgdir page va perm

unfoldable pub env_page_alloc : (npages : ℕ) → Pages → (pgdir va perm : ℕ) → Memory
env_page_alloc npages m pgdir va perm =
    unless_error m (check_perm perm none) (insert_new npages pgdir va perm (page_alloc m true))

-- `(perm & PTE_W) & ~(PTE_W & *srcpte)`
abbrev pub widens : (perm srcpte : ℕ) → Bool
widens perm srcpte = has (bit_and perm pte_w) (2 ^ 32 - 1 - bit_and pte_w srcpte)

abbrev pub map_found : (npages : ℕ) → Pages → (dst dstva perm : ℕ) → Option (ℕ × Slot) → Memory
map_found npages m dst dstva perm none = some (m, e_inval)
map_found npages m dst dstva perm (some (page, srcpte)) =
    if widens perm (entry m srcpte)
    then some (m, e_inval)
    else page_insert npages m dst page dstva perm

unfoldable pub env_page_map : (npages : ℕ) → Pages → (src srcva dst dstva perm : ℕ) → Memory
env_page_map npages m src srcva dst dstva perm =
    page_lookup npages m src srcva >>= map_found npages m dst dstva perm

-- `if ((r = envid2env(…))) return r;`
abbrev pub on_env : Pages → Lookup → (ℕ → Memory) → Memory
on_env m (Lookup.stored (some e)) k = k e
on_env m (Lookup.stored none) k = none
on_env m Lookup.bad_env k = some (m, e_bad_env)
on_env m Lookup.fault k = none

-- `((uint32_t) va >= UTOP) || ((uint32_t) va % PGSIZE)`
abbrev pub bad_address : ℕ → Bool
bad_address va = leb utop va || not (va % pgsize == 0)

pub data PageCall : Type 0 where
  page_alloc_call : (envid va perm : ℕ) → PageCall
  page_map_call : (srcenvid srcva dstenvid dstva perm : ℕ) → PageCall
  page_unmap_call : (envid va : ℕ) → PageCall

module _ (npages : ℕ) (t : Table) (m : Pages) where
  unfoldable pub sys_page_alloc : (envid va perm : ℕ) → Memory
  sys_page_alloc envid va perm =
      if bad_address va
      then some (m, e_inval)
      else on_env m (envid2env t envid true)
          (λ e. env_page_alloc npages m (t.envs e).env_pgdir va (bit_or (bit_or perm pte_u) pte_p))

  unfoldable pub sys_page_map : (srcenvid srcva dstenvid dstva perm : ℕ) → Memory
  sys_page_map srcenvid srcva dstenvid dstva perm =
      if bad_address srcva || bad_address dstva
      then some (m, e_inval)
      else on_env m (envid2env t srcenvid true) (λ src. on_env m (envid2env t dstenvid true) (λ dst.
        env_page_map npages m (t.envs src).env_pgdir srcva (t.envs dst).env_pgdir dstva
          (bit_or (pte_p + pte_u) perm)))

  unfoldable pub sys_page_unmap : (envid va : ℕ) → Memory
  sys_page_unmap envid va =
      if bad_address va
      then some (m, e_inval)
      else on_env m (envid2env t envid true)
          (λ e. page_remove npages m (t.envs e).env_pgdir va >>= λ m'. some (m', pos 0))

  -- The three calls, as `syscall` tells them apart.
  unfoldable pub page_call : PageCall → Memory
  unfolding sys_page_alloc sys_page_map sys_page_unmap
  page_call (page_alloc_call envid va perm) = sys_page_alloc envid va perm
  page_call (page_map_call srcenvid srcva dstenvid dstva perm) =
      sys_page_map srcenvid srcva dstenvid dstva perm
  page_call (page_unmap_call envid va) = sys_page_unmap envid va

  -- The environment is destroyed if the check fails; the Boolean says that the CPU is given up for it.
  unfoldable pub user_mem_assert : (e va len perm addr : ℕ) → Option (Table × Bool)
  user_mem_assert e va len perm addr =
      user_mem_check npages m (t.envs e).env_pgdir va len (bit_or perm pte_u) addr >>= λ (r, bad).
      some (elim r [ pos n ↦ (t, false) | negsuc n ↦ env_destroy t e ])

abbrev pub on_found : Table → Lookup → (ℕ → Option Effect) → Option Effect
on_found t (Lookup.stored (some e)) k = k e
on_found t (Lookup.stored none) k = none
on_found t Lookup.bad_env k = some (t, returns e_bad_env)
on_found t Lookup.fault k = none

-- The handler's address is stored also in an environment that the check has just destroyed, unless that is
-- the one that runs.
unfoldable pub sys_env_set_pgfault_upcall :
    (npages : ℕ) → Table → Pages → (envid func addr : ℕ) → Option Effect
sys_env_set_pgfault_upcall npages t m envid func addr = on_found t (envid2env t envid true) (λ e.
    user_mem_assert npages t m e func pgsize (pte_p + pte_u) addr >>= λ (t', away).
    if away
    then some (t', yields)
    else some (set_env t' e (record (t'.envs e) { env_pgfault_upcall = func }), returns (pos 0)))

abbrev pub Sending : Type 0
Sending = Option (Table × Pages × ℤ)

-- From the label `bail` on. The registers are not modelled.
abbrev pub deliver : Table → Pages → (cur dst value : ℕ) → Sending
deliver t m cur dst value = some (
  set_env t dst (record (t.envs dst) {
    env_ipc_from = (t.envs cur).env_id;
    env_ipc_recving = false;
    env_ipc_value = value;
    env_status = Status.runnable;
  }),
  m,
  pos 0,
)

abbrev pub set_ipc_perm : Table → (dst perm : ℕ) → Table
set_ipc_perm t dst perm = set_env t dst (record (t.envs dst) { env_ipc_perm = perm })

-- `if ((r = …) < 0) return r;`
abbrev pub or_return : Table → Memory → (Pages → Sending) → Sending
or_return t none k = none
or_return t (some (m, pos n)) k = k m
or_return t (some (m, negsuc n)) k = some (t, m, negsuc n)

module _ (npages : ℕ) (t : Table) (cur dst value srcva : ℕ) where
  abbrev pub send_mapping : Pages → (perm : ℕ) → Sending
  send_mapping m perm =
      let to = (t.envs dst).env_pgdir in
      let dstva = (t.envs dst).env_ipc_dstva in
      if dstva == 0
      then deliver t m cur dst value
      else or_return t (env_page_alloc npages m to dstva perm) (λ m'.
        or_return t (env_page_map npages m' (t.envs cur).env_pgdir srcva to dstva perm)
          (λ m''. deliver (set_ipc_perm t dst perm) m'' cur dst value))

  -- Without a mapping at `srcva` the pointer `srcpte` is never set.
  abbrev pub send_entry : Pages → (perm : ℕ) → Option (ℕ × Slot) → Sending
  send_entry m perm none = none
  send_entry m perm (some (page, srcpte)) =
      if not (entry m srcpte == 0) && not (has (entry m srcpte) pte_p)
      then some (t, m, e_inval)
      else if has perm pte_w && not (has (entry m srcpte) pte_w)
      then some (t, m, e_inval)
      else send_mapping m (bit_or perm (pte_u + pte_p))

  abbrev pub send_page : Pages → (perm : ℕ) → Sending
  send_page m perm =
      if not (srcva % pgsize == 0)
      then some (t, m, e_inval)
      else (page_lookup npages m (t.envs cur).env_pgdir srcva >>= send_entry m perm)

abbrev pub send_from :
    (npages : ℕ) → Table → Pages → (cur : Option ℕ) → (dst value srcva perm : ℕ) → Sending
send_from npages t m none dst value srcva perm = none
send_from npages t m (some cur) dst value srcva perm =
    if leb utop srcva
    then deliver (set_ipc_perm t dst 0) m cur dst value
    else send_page npages t cur dst value srcva m perm

abbrev pub send_to : (npages : ℕ) → Table → Pages → Lookup → (value srcva perm : ℕ) → Sending
send_to npages t m (Lookup.stored (some dst)) value srcva perm =
    if not (t.envs dst).env_ipc_recving
    then some (t, m, e_ipc_not_recv)
    else send_from npages t m t.curenv dst value srcva perm
send_to npages t m (Lookup.stored none) value srcva perm = none
send_to npages t m Lookup.bad_env value srcva perm = some (t, m, e_bad_env)
send_to npages t m Lookup.fault value srcva perm = none

unfoldable pub sys_ipc_try_send :
    (npages : ℕ) → Table → Pages → (envid value srcva perm : ℕ) → Sending
sys_ipc_try_send npages t m envid value srcva perm =
    send_to npages t m (envid2env t envid false) value srcva perm
