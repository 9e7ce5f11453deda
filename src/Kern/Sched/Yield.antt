-- ===== src/Kern/Sched/Yield.antt =====
-- sched/kern/sched.c: `sched_yield` and `sched_halt`, over the table and the statistics.
use sistemas_operativos_1c.Base.{
  ℕ, zero, suc, ◌+◌, Bool, true, false, ◌||◌, Option, none, some, Array, update, if◌then◌else◌,
  count_up,
}
use sistemas_operativos_1c.Kern.Env.{
  Env, Table, nenv, next32, is_runnable, is_running, is_dying, env_run,
}
use sistemas_operativos_1c.Kern.Sched.Stats.{SchedStats, record_env_run, note_exit}
use sistemas_operativos_1c.Kern.Sched.RoundRobin.{start_index, round_robin}
use sistemas_operativos_1c.Kern.Sched.Priorities.{Scan, scan_table, charge}

-- The macro that the kernel was compiled with.
pub data Policy : Type 0 where
  sched_round_robin sched_priorities : Policy

pub record Kernel : Type 0 where
  pub table : Table
  pub stats : SchedStats
  pub cpu_halted : Bool

-- How a call ends: in user mode, with the CPU halted until an interrupt, or in the monitor for good.
pub data Outcome : Type 0 where
  runs : ℕ → Outcome
  halts monitors : Outcome

-- The head of `sched_yield`: the clocks, and the environments that have stopped.
unfoldable pub count_call : Kernel → Kernel
count_call k = record k {
  stats = count_up nenv 0 (note_exit k.table.envs) (record (k.stats) {
    global_time = next32 k.stats.global_time;
    sched_calls = next32 k.stats.sched_calls;
  });
}

-- `record_env_run(e); env_run(e);`
unfoldable pub dispatch : Kernel → ℕ → Kernel × Outcome
dispatch k idx = (
  record k { stats = record_env_run k.stats (k.table.envs idx); table = env_run k.table idx },
  Outcome.runs idx,
)

alive : Env → Bool
alive e = is_runnable e.env_status || is_running e.env_status || is_dying e.env_status

-- `for (i = 0; i < NENV; i++) if (…) break;` and the test `i == NENV`.
unfoldable pub any_alive : Array Env → (n i : ℕ) → Bool
unfolding alive
any_alive envs zero i = false
any_alive envs (suc n) i =
    let rest = any_alive envs n (i + 1) in if alive (envs i) then true else rest

unfoldable pub sched_halt : Kernel → Kernel × Outcome
sched_halt k =
    if any_alive k.table.envs nenv 0
    then (record k { table = record (k.table) { curenv = none }; cpu_halted = true }, Outcome.halts)
    else (k, Outcome.monitors)

-- What is left to do where no environment was picked: go on with `curenv` if it still runs.
unfoldable pub resume : (Kernel → ℕ → Kernel × Outcome) → Kernel → Option ℕ → Kernel × Outcome
resume go k none = sched_halt k
resume go k (some c) = if is_running (k.table.envs c).env_status then go k c else sched_halt k

-- `lower_priority(e); e->env_wait_time = 0;`
unfoldable pub charge_env : Table → ℕ → Table
charge_env t idx = record t { envs = update t.envs idx (charge (t.envs idx)) }

unfoldable pub charge_dispatch : Kernel → ℕ → Kernel × Outcome
unfolding dispatch
charge_dispatch k idx = dispatch (record k { table = charge_env k.table idx }) idx

unfoldable pub after_search : Kernel → Option ℕ → Kernel × Outcome
unfolding resume
after_search k none = resume dispatch k k.table.curenv
after_search k (some idx) = dispatch k idx

unfoldable pub after_scan : Kernel → Option ℕ → Kernel × Outcome
unfolding resume
after_scan k none = resume charge_dispatch k k.table.curenv
after_scan k (some idx) = charge_dispatch k idx

unfoldable pub aged_table : Kernel → Scan → Kernel
aged_table k s = record k { table = record (k.table) { envs = s.envs } }

unfoldable pub choose : Policy → Kernel → Kernel × Outcome
unfolding after_search after_scan aged_table
choose Policy.sched_round_robin k = after_search k (round_robin k.table.envs k.table.curenv)
choose Policy.sched_priorities k =
    let s = scan_table k.table.envs (start_index k.table.envs k.table.curenv) in
    after_scan (aged_table k s) s.max_e

unfoldable pub sched_yield : Policy → Kernel → Kernel × Outcome
unfolding count_call choose
sched_yield p k = choose p (count_call k)
