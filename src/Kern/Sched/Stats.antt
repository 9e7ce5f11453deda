-- ===== src/Kern/Sched/Stats.antt =====
-- sched/kern/sched.c: `struct sched_stats` and the functions that keep it.
use sistemas_operativos_1c.Base.{
  ℕ, zero, suc, ◌+◌, ◌-◌, ◌%◌, Bool, ◌||◌, ◌&&◌, not, List, [], ◌∷◌, Array, update, ltb, ◌==◌,
  if◌then◌else◌, count_up,
}
use sistemas_operativos_1c.Kern.Env.{Env, Status, nenv, next32, envx, is_runnable, is_running}

abbrev pub max_history_length : ℕ
max_history_length = 100

pub record SchedStats : Type 0 where
  pub sched_calls : ℕ
  pub env_runs : Array ℕ
  pub history : Array ℕ
  pub history_index : ℕ
  pub history_count : ℕ
  pub env_start_time : Array ℕ
  pub env_end_time : Array ℕ
  pub global_time : ℕ
  pub prev_env_status : Array Status

unfoldable pub clear_env : ℕ → SchedStats → SchedStats
clear_env i s = record s {
  env_runs = update s.env_runs i 0;
  env_start_time = update s.env_start_time i 0;
  env_end_time = update s.env_end_time i 0;
  prev_env_status = update s.prev_env_status i Status.free;
}

unfoldable pub init_sched_stats : SchedStats → SchedStats
unfolding clear_env
init_sched_stats s =
    count_up nenv 0 clear_env
      (record s { sched_calls = 0; history_index = 0; history_count = 0; global_time = 0 })

unfoldable pub push_history : SchedStats → ℕ → SchedStats
push_history s envid = record s {
  history = update s.history s.history_index envid;
  history_index = (s.history_index + 1) % 100;
  history_count = if ltb s.history_count 100 then s.history_count + 1 else s.history_count;
}

unfoldable pub record_env_run : SchedStats → Env → SchedStats
unfolding push_history
record_env_run s e =
    let idx = envx e.env_id in
    let runs = next32 (s.env_runs idx) in
    let s' = push_history (record s { env_runs = update s.env_runs idx runs }) e.env_id in
    record s' {
      env_start_time =
          if runs == 1 then update s.env_start_time idx s.global_time else s.env_start_time;
    }

-- The test `env_start_time >= 0` of the source is of an unsigned number, and always passes.
unfoldable pub record_env_exit : SchedStats → Env → SchedStats
record_env_exit s e =
    if s.env_end_time (envx e.env_id) == 0
    then record s { env_end_time = update s.env_end_time (envx e.env_id) s.global_time }
    else s

-- The list that `print_sched_stats` prints last: entry `i` of `count`, oldest first.
unfoldable pub history_entry : SchedStats → ℕ → ℕ
history_entry s i = s.history ((s.history_index + i + 100 - s.history_count) % 100)

unfoldable pub entries_from : SchedStats → ℕ → ℕ → List ℕ
entries_from s zero i = []
entries_from s (suc n) i = history_entry s i ∷ entries_from s n (i + 1)

unfoldable pub printed_history : SchedStats → List ℕ
unfolding history_entry entries_from
printed_history s = entries_from s s.history_count 0

abbrev pub active : Status → Bool
active st = is_runnable st || is_running st

-- One round of the loop at the head of `sched_yield`: an environment that has become inactive is
-- recorded as finished, and its status is remembered.
unfoldable pub note_exit : Array Env → ℕ → SchedStats → SchedStats
note_exit envs i s =
    let s' =
      if not (active (envs i).env_status) && active (s.prev_env_status i)
      then record_env_exit s (envs i)
      else s in
    record s' { prev_env_status = update s'.prev_env_status i (envs i).env_status }
