-- ===== src/Kern/Sched/Ranges.antt =====
-- sched/kern/sched.c: the ranges of priorities and waiting times.
use sistemas_operativos_1c.Base.{
  ℕ, ◌≤◌, ◌<◌, ◌≡◌, sym, inl, inr, Option, none, some, Array, arith, update, update_self, update_ne,
  Bool-cases, subst,
}
use sistemas_operativos_1c.Base.Int.{pos, ◌≤ℤ◌, +ℤ_parts, -ℤ_parts}
use native.Mathlib.Decide.{ℕ_discrete}
use sistemas_operativos_1c.Kern.Env.{Env, Table, nenv, is_running, env_run, preempt}
use sistemas_operativos_1c.Kern.Sched.RoundRobin.{start_index, start_index-lt}
use sistemas_operativos_1c.Kern.Sched.Priorities.{Scan, max_wait_time, age, charge, scan_table}
use sistemas_operativos_1c.Kern.Sched.Selection.{scan_table-Chosen}
use sistemas_operativos_1c.Kern.Sched.Yield.{
  Policy, Kernel, Outcome, count_call, dispatch, sched_halt, resume, charge_dispatch, after_search,
  after_scan, aged_table, sched_yield, any_alive, charge_env,
}

-- LOWEST_PRIORITY to HIGHEST_PRIORITY, and at most MAX_WAIT_TIME calls of waiting.
pub record InRange (e : Env) : Type 0 where
  pub lowest : pos 0 ≤ℤ e.env_priority
  pub highest : e.env_priority ≤ℤ pos 5
  pub waited : e.env_wait_time ≤ max_wait_time

abbrev pub AllInRange : Table → Type 0
AllInRange t = (j : ℕ) → j < nenv → InRange (t.envs j)

age-InRange : (e : Env) → InRange e → InRange (age e)
unfolding age
age-InRange e h = ground (arith, +ℤ_parts e.env_priority (pos 1))

charge-InRange : (e : Env) → InRange e → InRange (charge e)
unfolding charge
charge-InRange e h = ground (arith, -ℤ_parts e.env_priority (pos 1))

update-InRange :
    (envs : Array Env) (i j : ℕ) (e : Env)
    → (InRange (envs i) → InRange e)
    → InRange (envs j)
    → InRange (update envs i e j)
update-InRange envs i j e change h = elim (ℕ_discrete i j) [
  | yes same ↦
      subst (λ k. InRange (update envs i e k)) same
        (rw (update_self envs i e) (change (subst (λ k. InRange (envs k)) (sym same) h)))
  | no other ↦ rw (update_ne envs i e j other) h
]

preempt-InRange :
    (envs : Array Env) (cur : Option ℕ) (j : ℕ) → InRange (envs j) → InRange (preempt envs cur j)
preempt-InRange envs none j h = h
preempt-InRange envs (some c) j h = elim (Bool-cases (is_running (envs c).env_status)) [
  | inl run ↦ rw run (
      update-InRange envs c j _
        (λ r. record { lowest = r.lowest; highest = r.highest; waited = r.waited }) h)
  | inr stopped ↦ rw stopped h
]

env_run-InRange : (t : Table) (idx : ℕ) → AllInRange t → AllInRange (env_run t idx)
unfolding env_run
env_run-InRange t idx h j low =
    update-InRange (preempt t.envs t.curenv) idx j _
      (λ r. record { lowest = r.lowest; highest = r.highest; waited = r.waited })
      (preempt-InRange t.envs t.curenv j (h j low))

charge_env-InRange : (t : Table) (idx : ℕ) → AllInRange t → AllInRange (charge_env t idx)
unfolding charge_env
charge_env-InRange t idx h j low =
    update-InRange t.envs idx j (charge (t.envs idx)) (charge-InRange (t.envs idx)) (h j low)

dispatch-InRange : (k : Kernel) (idx : ℕ) → AllInRange k.table → AllInRange (dispatch k idx).0.table
unfolding dispatch
dispatch-InRange k idx h = env_run-InRange k.table idx h

charge_dispatch-InRange :
    (k : Kernel) (idx : ℕ) → AllInRange k.table → AllInRange (charge_dispatch k idx).0.table
unfolding charge_dispatch
charge_dispatch-InRange k idx h =
    env_run-InRange (charge_env k.table idx) idx (charge_env-InRange k.table idx h)

sched_halt-InRange : (k : Kernel) → AllInRange k.table → AllInRange (sched_halt k).0.table
unfolding sched_halt
sched_halt-InRange k h = elim (Bool-cases (any_alive k.table.envs nenv 0)) [
  | inl some_alive ↦ rw some_alive h
  | inr none_alive ↦ rw none_alive h
]

resume-InRange :
    (go : Kernel → ℕ → Kernel × Outcome) (k : Kernel) (cur : Option ℕ)
    → ((k' : Kernel) (idx : ℕ) → AllInRange k'.table → AllInRange (go k' idx).0.table)
    → AllInRange k.table
    → AllInRange (resume go k cur).0.table
unfolding resume
resume-InRange go k none keep h = sched_halt-InRange k h
resume-InRange go k (some c) keep h = elim (Bool-cases (is_running (k.table.envs c).env_status)) [
  | inl run ↦ rw run (keep k c h)
  | inr stopped ↦ rw stopped (sched_halt-InRange k h)
]

after_search-InRange :
    (k : Kernel) (found : Option ℕ) → AllInRange k.table → AllInRange (after_search k found).0.table
unfolding after_search
after_search-InRange k none h = resume-InRange dispatch k k.table.curenv dispatch-InRange h
after_search-InRange k (some idx) h = dispatch-InRange k idx h

after_scan-InRange :
    (k : Kernel) (found : Option ℕ) → AllInRange k.table → AllInRange (after_scan k found).0.table
unfolding after_scan
after_scan-InRange k none h =
    resume-InRange charge_dispatch k k.table.curenv charge_dispatch-InRange h
after_scan-InRange k (some idx) h = charge_dispatch-InRange k idx h

-- Under both policies a call of the scheduler keeps every priority between 0 and 5 and every waiting
-- time at 3 or less.
pub sched_yield-InRange :
    (p : Policy) (k : Kernel) → AllInRange k.table → AllInRange (sched_yield p k).0.table
unfolding sched_yield
sched_yield-InRange Policy.sched_round_robin k h = after_search-InRange (count_call k) _ h
sched_yield-InRange Policy.sched_priorities k h =
    after_scan-InRange (aged_table (count_call k) s) s.max_e
      (λ j low. subst InRange (sym (aged j low)) (age-InRange (k.table.envs j) (h j low)))
  where
    start : ℕ
    start = start_index k.table.envs k.table.curenv

    s : Scan
    s = scan_table k.table.envs start

    aged : (j : ℕ) → j < nenv → s.envs j ≡ age (k.table.envs j)
    aged = (scan_table-Chosen k.table.envs start (start_index-lt k.table.envs k.table.curenv)).1
