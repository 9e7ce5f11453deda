-- ===== src/Kern/Sched/Priorities.antt =====
-- sched/kern/sched.c, SCHED_PRIORITIES: the scan of `sched_yield`, which picks an environment and ages
-- every entry of the table on the way.
use sistemas_operativos_1c.Base.{
  ℕ, ◌+◌, ◌%◌, Bool, true, ◌&&◌, Option, none, some, Array, update, leb, if◌then◌else◌, count_up,
}
use sistemas_operativos_1c.Base.Int.{pos, ◌+ℤ◌, ◌-ℤ◌, ltb_ℤ}
use sistemas_operativos_1c.Kern.Env.{Env, nenv, is_runnable}

abbrev pub max_wait_time : ℕ
max_wait_time = 3

unfoldable pub raise_priority : Env → Env
raise_priority e =
    if ltb_ℤ e.env_priority (pos 5) then record e { env_priority = e.env_priority +ℤ pos 1 } else e

unfoldable pub lower_priority : Env → Env
lower_priority e =
    if ltb_ℤ (pos 0) e.env_priority then record e { env_priority = e.env_priority -ℤ pos 1 } else e

-- What the scan does to an entry: one that has waited for three calls is raised.
unfoldable pub age : Env → Env
unfolding raise_priority
age e =
    if leb max_wait_time e.env_wait_time
    then record (raise_priority e) { env_wait_time = 1 }
    else record e { env_wait_time = e.env_wait_time + 1 }

pub record Scan : Type 0 where
  pub envs : Array Env
  pub max_e : Option ℕ

-- `!max_e || envs[idx].env_priority > max_e->env_priority`
unfoldable pub beats : Array Env → Option ℕ → ℕ → Bool
beats envs none idx = true
beats envs (some m) idx = ltb_ℤ (envs m).env_priority (envs idx).env_priority

unfoldable pub visit : ℕ → Scan → Scan
unfolding beats
visit idx s = record {
  envs = update s.envs idx (age (s.envs idx));
  max_e =
      if is_runnable (s.envs idx).env_status && beats s.envs s.max_e idx then some idx else s.max_e;
}

unfoldable pub scan_table : Array Env → (start : ℕ) → Scan
unfolding visit
scan_table envs start =
    count_up nenv 1 (λ i s. visit ((start + i) % nenv) s) (record { envs = envs; max_e = none })

-- The chosen environment pays for the CPU.
unfoldable pub charge : Env → Env
unfolding lower_priority
charge e = record (lower_priority e) { env_wait_time = 0 }
