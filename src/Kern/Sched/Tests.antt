-- ===== src/Kern/Sched/Tests.antt =====
-- sched/kern/sched.c: the theorems of the scheduler on small tables.
use sistemas_operativos_1c.Base.{
  ℕ, ◌+◌, ◌≡◌, refl, false, none, some, [], ◌∷◌, ◌++◌, Array, arith, ◌==◌, if◌then◌else◌,
}
use sistemas_operativos_1c.Base.Int.{pos}
use sistemas_operativos_1c.Kern.Env.{Env, Status}
use sistemas_operativos_1c.Kern.Sched.Stats.{SchedStats, printed_history, record_env_run}
use sistemas_operativos_1c.Kern.Sched.History.{HistoryInRange, keep_recent, record_env_run-history}
use sistemas_operativos_1c.Kern.Sched.RoundRobin.{start_index}
use sistemas_operativos_1c.Kern.Sched.Rotation.{served, Elem, served_within}
use sistemas_operativos_1c.Kern.Sched.Yield.{Policy, Kernel, sched_yield}
use sistemas_operativos_1c.Kern.Sched.Running.{OneRunning, sched_yield-OneRunning}
use sistemas_operativos_1c.Kern.Sched.Ranges.{AllInRange, sched_yield-InRange}
use sistemas_operativos_1c.Kern.Sched.Choice.{
  RunsFirst, RunsHighest, sched_yield-round_robin, sched_yield-priorities,
}

-- Environment `i` has the identifier 0x1000 + i; the second runs and the third is runnable.
abbrev status_of : ℕ → Status
status_of i = if i == 2 then Status.running else (if i == 3 then Status.runnable else Status.free)

abbrev three_envs : Array Env
three_envs i = record {
  env_link = none;
  env_id = 4096 + i;
  env_parent_id = 0;
  env_status = status_of i;
  env_runs = 7;
  env_pgdir = 0;
  env_pgfault_upcall = 0;
  env_ipc_recving = false;
  env_ipc_dstva = 0;
  env_ipc_value = 0;
  env_ipc_from = 0;
  env_ipc_perm = 0;
  env_priority = pos 4;
  env_wait_time = 3;
}

-- A ring that is full and about to wrap around.
abbrev full_stats : SchedStats
full_stats = record {
  sched_calls = 120;
  env_runs = λ i. 60;
  history = λ i. 4096 + i;
  history_index = 99;
  history_count = 100;
  env_start_time = λ i. 1;
  env_end_time = λ i. 0;
  global_time = 120;
  prev_env_status = λ i. Status.free;
}

abbrev small_kernel : Kernel
small_kernel = record {
  table = record { envs = three_envs; env_free_list = none; curenv = some 2 };
  stats = full_stats;
  cpu_halted = false;
}

sched_yield-priorities_example :
    RunsHighest small_kernel (sched_yield Policy.sched_priorities small_kernel)
sched_yield-priorities_example = sched_yield-priorities small_kernel 3 (omega arith) refl

sched_yield-round_robin_example :
    RunsFirst small_kernel (sched_yield Policy.sched_round_robin small_kernel)
sched_yield-round_robin_example = sched_yield-round_robin small_kernel 3 (omega arith) refl

served_within_example : Elem 3 (served ((three_envs, some 2) ∷ []))
unfolding start_index
served_within_example =
    served_within 3 ((three_envs, some 2) ∷ []) (some 2) (omega arith) (omega arith)
      (refl, refl, refl, tt) (omega arith)

one_running : OneRunning small_kernel.table
one_running j low run = ground arith

sched_yield-OneRunning_example :
    OneRunning (sched_yield Policy.sched_priorities small_kernel).0.table
sched_yield-OneRunning_example =
    sched_yield-OneRunning Policy.sched_priorities small_kernel one_running

all_in_range : AllInRange small_kernel.table
all_in_range j low = record { lowest = omega arith; highest = omega arith; waited = omega arith }

sched_yield-InRange_example : AllInRange (sched_yield Policy.sched_priorities small_kernel).0.table
sched_yield-InRange_example = sched_yield-InRange Policy.sched_priorities small_kernel all_in_range

in_range : HistoryInRange full_stats
in_range = record { index_low = omega arith; count_low = omega arith }

record_env_run-history_example :
    HistoryInRange (record_env_run full_stats (three_envs 3))
    × (printed_history (record_env_run full_stats (three_envs 3))
        ≡ keep_recent (printed_history full_stats ++ 4099 ∷ []))
record_env_run-history_example = record_env_run-history full_stats (three_envs 3) in_range
