-- ===== src/Kern/Isolation/Calls.antt =====
-- sched/kern/syscall.c: what each system call leaves of the entries that its caller may not change.
use sistemas_operativos_1c.Base.{ℕ, ◌≡◌, refl, some}
use sistemas_operativos_1c.Kern.Env.{Table}
use sistemas_operativos_1c.Kern.Pages.{Pages}
use sistemas_operativos_1c.Kern.PageCalls.{page_call}
use sistemas_operativos_1c.Kern.Dispatch.{Call, Surroundings, syscall}
use sistemas_operativos_1c.Kern.Isolation.{May, sys_ipc_recv-kept}
use sistemas_operativos_1c.Kern.Isolation.Kept.{
  Leaves, Ends, getenvid-kept, destroy-kept, get_priority-kept, lower_priority-kept,
  env_set_status-kept, cputs-kept, upcall-kept, on_memory-kept, exofork-Leaves,
}
use sistemas_operativos_1c.Kern.Isolation.Sends.{send-Received}

-- A system call of the environment `c`, up to its result or to the call of sched_yield, leaves the table's
-- entry of an environment that is neither the caller nor a child of the caller as it was, with two
-- exceptions: sys_ipc_try_send hands a message to an environment that waits for one, and so makes it
-- runnable, and sys_exofork makes an environment of the first free entry.
pub syscall-isolation :
    (npages : ℕ) (t : Table) (m : Pages) (w : Surroundings) (c j : ℕ) (call : Call)
    → t.curenv ≡ some c
    → ¬ (May t c j)
    → Ends j (Leaves t c j call) (syscall npages t m w call)
unfolding syscall
syscall-isolation npages t m w c j (Call.cputs s len) cur not_may =
    cputs-kept t c j cur not_may npages m s len w.addr
syscall-isolation npages t m w c j Call.getenvid cur not_may = getenvid-kept t c j cur not_may
syscall-isolation npages t m w c j Call.yield cur not_may = refl
syscall-isolation npages t m w c j Call.cgetc cur not_may = refl
syscall-isolation npages t m w c j Call.exofork cur not_may =
    exofork-Leaves t c j cur not_may w.setup m
syscall-isolation npages t m w c j Call.unknown cur not_may = refl
syscall-isolation npages t m w c j (Call.destroy_env envid) cur not_may =
    destroy-kept t c j cur not_may envid
syscall-isolation npages t m w c j (Call.env_get_priority envid) cur not_may =
    get_priority-kept t c j cur not_may envid
syscall-isolation npages t m w c j (Call.env_lower_priority envid) cur not_may =
    lower_priority-kept t c j cur not_may envid
syscall-isolation npages t m w c j (Call.env_set_status envid status) cur not_may =
    env_set_status-kept t c j cur not_may envid status
syscall-isolation npages t m w c j (Call.on_pages call) cur not_may =
    on_memory-kept t c j cur not_may (page_call npages t m call)
syscall-isolation npages t m w c j (Call.ipc_recv dstva) cur not_may =
    sys_ipc_recv-kept t c j dstva cur not_may
syscall-isolation npages t m w c j (Call.ipc_try_send envid value srcva perm) cur not_may =
    send-Received t c j cur not_may npages m envid value srcva perm
syscall-isolation npages t m w c j (Call.env_set_pgfault_upcall envid func) cur not_may =
    upcall-kept t c j cur not_may npages m envid func w.addr
