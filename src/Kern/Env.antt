-- ===== src/Kern/Env.antt =====
-- sched/inc/env.h and sched/kern/env.c: environments, their table and the switch to one of them.
-- An environment is named by its index in `envs`; a pointer that may be NULL is an `Option`.
use sistemas_operativos_1c.Base.{
  ℕ, ◌+◌, ◌-◌, ◌%◌, ◌^◌, Bool, true, false, ◌||◌, ◌&&◌, not, Option, none, some, Array, update,
  ◌==◌, if◌then◌else◌, count_up,
}
use sistemas_operativos_1c.Base.Int.{ℤ}

abbrev pub nenv : ℕ
nenv = 1024

-- A 32-bit unsigned counter after `++`.
abbrev pub next32 : ℕ → ℕ
next32 n = (n + 1) % 2 ^ 32

-- The index part of an identifier, its low ten bits.
abbrev pub envx : ℕ → ℕ
envx envid = envid % nenv

pub data Status : Type 0 where
  free dying runnable running not_runnable : Status

abbrev pub is_runnable : Status → Bool
is_runnable Status.runnable = true
is_runnable _ = false

abbrev pub is_running : Status → Bool
is_running Status.running = true
is_running _ = false

abbrev pub is_free : Status → Bool
is_free Status.free = true
is_free _ = false

abbrev pub is_dying : Status → Bool
is_dying Status.dying = true
is_dying _ = false

pub record Env : Type 0 where
  pub env_link : Option ℕ
  pub env_id : ℕ
  pub env_parent_id : ℕ
  pub env_status : Status
  pub env_runs : ℕ
  pub env_pgdir : ℕ
  pub env_pgfault_upcall : ℕ
  pub env_ipc_recving : Bool
  pub env_ipc_dstva : ℕ
  pub env_ipc_value : ℕ
  pub env_ipc_from : ℕ
  pub env_ipc_perm : ℕ
  pub env_priority : ℤ
  pub env_wait_time : ℕ

-- The table as one CPU sees it, with the environment that runs on that CPU.
pub record Table : Type 0 where
  pub envs : Array Env
  pub env_free_list : Option ℕ
  pub curenv : Option ℕ

-- A lookup succeeds with a pointer, fails with -E_BAD_ENV, or reads through a null `curenv`.
pub data Lookup : Type 0 where
  stored : Option ℕ → Lookup
  bad_env fault : Lookup

-- `e != curenv && e->env_parent_id != curenv->env_id`
unfoldable pub denied : Table → ℕ → Option ℕ → Lookup
denied t e none = Lookup.fault
denied t e (some c) =
    if not (e == c) && not ((t.envs e).env_parent_id == (t.envs c).env_id)
    then Lookup.bad_env
    else Lookup.stored (some e)

unfoldable pub envid2env : Table → ℕ → Bool → Lookup
unfolding denied
envid2env t envid checkperm =
    if envid == 0
    then Lookup.stored t.curenv
    else if is_free (t.envs (envx envid)).env_status || not ((t.envs (envx envid)).env_id == envid)
    then Lookup.bad_env
    else if checkperm
    then denied t (envx envid) t.curenv
    else Lookup.stored (some (envx envid))

-- One round of the loop of `env_init`.
unfoldable pub init_env : ℕ → Array Env → Array Env
init_env i envs =
    update envs i
      (record (envs i) { env_id = 0; env_status = Status.free; env_link = some (i + 1) })

unfoldable pub env_init : Table → Table
unfolding init_env
env_init t =
    let envs = count_up nenv 0 init_env t.envs in
    record t {
      envs = update envs (nenv - 1) (record (envs (nenv - 1)) { env_link = none });
      env_free_list = some 0;
    }

-- The environment that leaves the CPU becomes runnable, if it was running.
abbrev pub preempt : Array Env → Option ℕ → Array Env
preempt envs none = envs
preempt envs (some c) =
    if is_running (envs c).env_status
    then update envs c (record (envs c) { env_status = Status.runnable })
    else envs

unfoldable pub env_run : Table → ℕ → Table
env_run t e =
    let envs = preempt t.envs t.curenv in
    record t {
      envs =
          update envs e
            (record (envs e) { env_status = Status.running; env_runs = next32 (envs e).env_runs });
      curenv = some e;
    }
