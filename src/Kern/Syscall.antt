-- ===== src/Kern/Syscall.antt =====
-- sched/kern/syscall.c: the system calls on environments and the receiving side of messages. The calls
-- that map pages are not modelled here.
use sistemas_operativos_1c.Base.{
  ℕ, ◌%◌, Bool, true, ◌||◌, not, Option, none, some, update, ◌==◌, leb, if◌then◌else◌,
}
use sistemas_operativos_1c.Base.Int.{ℤ, pos, negsuc, ◌-ℤ◌}
use sistemas_operativos_1c.Kern.Errors.{e_bad_env, e_inval, e_no_mem, e_no_free_env, utop, pgsize}
use sistemas_operativos_1c.Kern.Env.{Env, Status, Table, Lookup, envid2env}
use sistemas_operativos_1c.Kern.Alloc.{Alloc, env_alloc, env_destroy}

-- A call returns a number, ends in `sched_yield`, or reads through a null pointer.
pub data Result : Type 0 where
  returns : ℤ → Result
  yields fault : Result

abbrev pub Effect : Type 0
Effect = Table × Result

-- `if ((r = envid2env(…))) return r;`, where `error` is what the caller returns.
abbrev pub with_env : Table → (error : ℤ) → Lookup → (ℕ → Effect) → Effect
with_env t error (Lookup.stored (some e)) k = k e
with_env t error (Lookup.stored none) k = (t, Result.fault)
with_env t error Lookup.bad_env k = (t, Result.returns error)
with_env t error Lookup.fault k = (t, Result.fault)

abbrev pub with_curenv : Table → Option ℕ → (ℕ → Effect) → Effect
with_curenv t none k = (t, Result.fault)
with_curenv t (some c) k = k c

abbrev pub set_env : Table → ℕ → Env → Table
set_env t e v = record t { envs = update t.envs e v }

unfoldable pub sys_getenvid : Table → Effect
sys_getenvid t = with_curenv t t.curenv (λ c. (t, Result.returns (pos (t.envs c).env_id)))

abbrev pub destroyed : Table × Bool → Effect
destroyed (t, yielding) = (t, if yielding then Result.yields else Result.returns (pos 0))

unfoldable pub sys_env_destroy : Table → ℕ → Effect
sys_env_destroy t envid =
    with_env t e_bad_env (envid2env t envid true) (λ e. destroyed (env_destroy t e))

-- The child waits until its parent makes it runnable; the registers are not modelled.
abbrev pub forked : Table × Alloc → Effect
forked (t, Alloc.allocated e) = (
  set_env t e (record (t.envs e) { env_status = Status.not_runnable }),
  Result.returns (pos (t.envs e).env_id),
)
forked (t, Alloc.no_mem) = (t, Result.returns e_no_mem)
forked (t, Alloc.no_free_env) = (t, Result.returns e_no_free_env)

unfoldable pub sys_exofork : Table → (setup : Option ℕ) → Effect
sys_exofork t setup = with_curenv t t.curenv (λ c. forked (env_alloc t (t.envs c).env_id setup))

-- ENV_RUNNABLE is 2 and ENV_NOT_RUNNABLE is 4; no other number is accepted.
abbrev pub status_of : ℕ → Option Status
status_of status =
    if status == 2
    then some Status.runnable
    else (if status == 4 then some Status.not_runnable else none)

abbrev pub set_status : Table → ℕ → Option Status → Effect
set_status t envid none = (t, Result.returns e_inval)
set_status t envid (some status) =
    with_env t e_bad_env (envid2env t envid true)
      (λ e. (set_env t e (record (t.envs e) { env_status = status }), Result.returns (pos 0)))

unfoldable pub sys_env_set_status : Table → ℕ → ℕ → Effect
sys_env_set_status t envid status = set_status t envid (status_of status)

-- The receiver is marked before its address is tested.
unfoldable pub sys_ipc_recv : Table → (dstva : ℕ) → Effect
sys_ipc_recv t dstva = with_curenv t t.curenv (λ c.
    let recving : Env = record (t.envs c) { env_ipc_recving = true } in
    if leb utop dstva || not (dstva % pgsize == 0)
    then (set_env t c recving, Result.returns e_inval)
    else (
      set_env t c (record recving { env_ipc_dstva = dstva; env_status = Status.not_runnable }),
      Result.yields,
    ))

unfoldable pub sys_env_get_priority : Table → ℕ → Effect
sys_env_get_priority t envid =
    with_env t (negsuc 0) (envid2env t envid true)
      (λ e. (t, Result.returns (t.envs e).env_priority))

unfoldable pub sys_env_lower_priority : Table → ℕ → Effect
sys_env_lower_priority t envid = with_env t (negsuc 0) (envid2env t envid true) (λ e. (
  set_env t e (record (t.envs e) { env_priority = (t.envs e).env_priority -ℤ pos 1 }),
  Result.returns (pos 0),
))
