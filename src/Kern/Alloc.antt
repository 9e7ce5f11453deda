-- ===== src/Kern/Alloc.antt =====
-- sched/kern/env.c: `env_alloc`, `env_free` and `env_destroy` over the table and its free list. The page
-- directory that `env_setup_vm` makes, or that there is no memory for it, is an argument; the pages of
-- an environment that is freed are not modelled.
use sistemas_operativos_1c.Base.{
  ℕ, ◌+◌, ◌-◌, ◌%◌, ◌^◌, Bool, true, false, ◌&&◌, ◌||◌, not, Option, none, some, update, ◌==◌, leb,
  if◌then◌else◌,
}
use sistemas_operativos_1c.Base.Int.{pos}
use sistemas_operativos_1c.Kern.Env.{Env, Status, Table, nenv, is_running}

-- The generation that follows that of an identifier, as a 32-bit word: a multiple of 1024, and 1 << 12
-- where the sign bit would be set or nothing is left.
unfoldable pub next_generation : ℕ → ℕ
next_generation env_id =
    let sum = (env_id + 2 ^ 12) % 2 ^ 32 in
    let generation = sum - sum % nenv in
    if generation == 0 || leb (2 ^ 31) generation then 2 ^ 12 else generation

-- The low ten bits of a generation are zero, so that `|` with an index is a sum.
unfoldable pub new_id : (env_id idx : ℕ) → ℕ
unfolding next_generation
new_id env_id idx = next_generation env_id + idx

-- The environment that is made of an entry; the registers are not modelled.
unfoldable pub fresh_env : (parent_id pgdir idx : ℕ) → Env → Env
unfolding new_id
fresh_env parent_id pgdir idx e = record e {
  env_id = new_id e.env_id idx;
  env_parent_id = parent_id;
  env_status = Status.runnable;
  env_runs = 0;
  env_pgdir = pgdir;
  env_pgfault_upcall = 0;
  env_ipc_recving = false;
  env_priority = pos 5;
  env_wait_time = 0;
}

pub data Alloc : Type 0 where
  allocated : ℕ → Alloc
  no_free_env no_mem : Alloc

abbrev pub commit : Table → (parent_id : ℕ) → (setup : Option ℕ) → (head : Option ℕ) → Table × Alloc
commit t parent_id setup none = (t, Alloc.no_free_env)
commit t parent_id none (some i) = (t, Alloc.no_mem)
commit t parent_id (some pgdir) (some i) = (
  record t {
    envs = update t.envs i (fresh_env parent_id pgdir i (t.envs i));
    env_free_list = (t.envs i).env_link;
  },
  Alloc.allocated i,
)

unfoldable pub env_alloc : Table → (parent_id : ℕ) → (setup : Option ℕ) → Table × Alloc
env_alloc t parent_id setup = commit t parent_id setup t.env_free_list

unfoldable pub env_free : Table → ℕ → Table
env_free t e = record t {
  envs =
      update t.envs e
        (record (t.envs e) { env_pgdir = 0; env_status = Status.free; env_link = t.env_free_list });
  env_free_list = some e;
}

abbrev pub is_cur : Option ℕ → ℕ → Bool
is_cur none e = false
is_cur (some c) e = c == e

-- The second part tells whether `sched_yield` is called at the end.
unfoldable pub env_destroy : Table → ℕ → Table × Bool
unfolding env_free
env_destroy t e =
    if is_running (t.envs e).env_status && not (is_cur t.curenv e)
    then (
      record t { envs = update t.envs e (record (t.envs e) { env_status = Status.dying }) },
      false,
    )
    else if is_cur t.curenv e
    then (record (env_free t e) { curenv = none }, true)
    else (env_free t e, false)
