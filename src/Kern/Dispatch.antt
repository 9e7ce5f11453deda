-- ===== src/Kern/Dispatch.antt =====
-- sched/kern/syscall.c: syscall, which tells the system calls apart by their number.
use sistemas_operativos_1c.Base.{ℕ, ◌+◌, Bool, Option, none, some, if◌then◌else◌, ◌>>=◌}
use sistemas_operativos_1c.Base.Int.{pos}
use sistemas_operativos_1c.Kern.Errors.{e_inval}
use sistemas_operativos_1c.Kern.Env.{Table}
use sistemas_operativos_1c.Kern.Pages.{Pages}
use sistemas_operativos_1c.Kern.Paging.{pte_p, pte_w, pte_u}
use sistemas_operativos_1c.Kern.Syscall.{
  Result, Effect, sys_getenvid, sys_env_destroy, sys_exofork, sys_env_set_status, sys_ipc_recv,
  sys_env_get_priority, sys_env_lower_priority,
}
use sistemas_operativos_1c.Kern.PageCalls.{
  Memory, Sending, PageCall, page_call, user_mem_assert, sys_env_set_pgfault_upcall,
  sys_ipc_try_send,
}

-- The number and the arguments of a call; `unknown` is every other number.
pub data Call : Type 0 where
  cputs : (s len : ℕ) → Call
  getenvid yield cgetc exofork unknown : Call
  destroy_env env_get_priority env_lower_priority : (envid : ℕ) → Call
  env_set_status : (envid status : ℕ) → Call
  on_pages : PageCall → Call
  ipc_recv : (dstva : ℕ) → Call
  ipc_try_send : (envid value srcva perm : ℕ) → Call
  env_set_pgfault_upcall : (envid func : ℕ) → Call

-- What a call finds besides the table and the pages: the directory that env_setup_vm can make for a new
-- environment, the character that cons_getc answers, and user_mem_check_addr.
pub record Surroundings : Type 0 where
  pub setup : Option ℕ
  pub char : ℕ
  pub addr : ℕ

-- The state after a call, and how it ends; `none` is a panic or a read through a wild pointer.
abbrev pub CallEnd : Type 0
CallEnd = Option (Table × Pages × Result)

abbrev pub on_table : Pages → Effect → CallEnd
on_table m e = some (e.0, m, e.1)

abbrev pub on_memory : Table → Memory → CallEnd
on_memory t r = r >>= λ (m, n). some (t, m, Result.returns n)

abbrev pub sent : Sending → CallEnd
sent r = r >>= λ (t, m, n). some (t, m, Result.returns n)

-- The string is printed unless its environment was destroyed.
abbrev pub printed : Pages → Table × Bool → CallEnd
printed m (t, away) = some (t, m, if away then Result.yields else Result.returns (pos 0))

unfoldable pub sys_cputs :
    (npages : ℕ) → Table → Pages → (cur : Option ℕ) → (s len addr : ℕ) → CallEnd
sys_cputs npages t m none s len addr = none
sys_cputs npages t m (some c) s len addr =
    user_mem_assert npages t m c s len (pte_p + pte_w + pte_u) addr >>= printed m

unfoldable pub syscall : (npages : ℕ) → Table → Pages → Surroundings → Call → CallEnd
syscall npages t m w (Call.cputs s len) = sys_cputs npages t m t.curenv s len w.addr
syscall npages t m w Call.getenvid = on_table m (sys_getenvid t)
syscall npages t m w (Call.destroy_env envid) = on_table m (sys_env_destroy t envid)
syscall npages t m w Call.cgetc = some (t, m, Result.returns (pos w.char))
syscall npages t m w Call.exofork = on_table m (sys_exofork t w.setup)
syscall npages t m w (Call.env_set_status envid status) =
    on_table m (sys_env_set_status t envid status)
syscall npages t m w (Call.on_pages call) = on_memory t (page_call npages t m call)
syscall npages t m w (Call.ipc_recv dstva) = on_table m (sys_ipc_recv t dstva)
syscall npages t m w (Call.ipc_try_send envid value srcva perm) =
    sent (sys_ipc_try_send npages t m envid value srcva perm)
syscall npages t m w (Call.env_set_pgfault_upcall envid func) =
    sys_env_set_pgfault_upcall npages t m envid func w.addr >>= on_table m
syscall npages t m w Call.yield = some (t, m, Result.yields)
syscall npages t m w (Call.env_get_priority envid) = on_table m (sys_env_get_priority t envid)
syscall npages t m w (Call.env_lower_priority envid) = on_table m (sys_env_lower_priority t envid)
syscall npages t m w Call.unknown = some (t, m, Result.returns e_inval)
