-- ===== src/Kern/Sched/Running.antt =====
-- sched/kern/sched.c with `env_run` of sched/kern/env.c: who is running after a call of the scheduler,
-- on a machine whose environments run on one CPU.
use sistemas_operativos_1c.Base.{
  ℕ, ◌<◌, ◌≡◌, refl, sym, ap, ◌∙◌, inl, inr, true, false, Option, none, some, Array, arith, update,
  update_self, update_ne, Bool-cases, subst,
}
use native.Mathlib.Decide.{ℕ_discrete}
use mathlib.Core.Bool.{false≢true}
use sistemas_operativos_1c.Kern.Env.{Env, Table, nenv, is_running, env_run, preempt}
use sistemas_operativos_1c.Kern.Sched.RoundRobin.{start_index, start_index-lt}
use sistemas_operativos_1c.Kern.Sched.Priorities.{charge, scan_table}
use sistemas_operativos_1c.Kern.Sched.Selection.{age_status, scan_table-Chosen}
use sistemas_operativos_1c.Kern.Sched.Yield.{
  Policy, Kernel, Outcome, count_call, dispatch, sched_halt, resume, charge_dispatch, after_search,
  after_scan, aged_table, any_alive, charge_env, sched_yield,
}

abbrev pub RunningAt : Table → ℕ → Type 0
RunningAt t j = is_running (t.envs j).env_status ≡ true

-- Only `curenv` is in the state ENV_RUNNING.
abbrev pub OneRunning : Table → Type 0
OneRunning t = (j : ℕ) → j < nenv → RunningAt t j → t.curenv ≡ some j

preempt_stops :
    (envs : Array Env) (cur : Option ℕ) (j : ℕ)
    → (is_running (envs j).env_status ≡ true → cur ≡ some j)
    → is_running (preempt envs cur j).env_status ≡ false
unfolding update
preempt_stops envs none j h = ground arith
preempt_stops envs (some c) j h = ground arith

-- Whoever ran before, only the environment that `env_run` is given runs after it.
pub env_run-OneRunning : (t : Table) (idx : ℕ) → OneRunning t → OneRunning (env_run t idx)
unfolding env_run
env_run-OneRunning t idx h j low run = elim (ℕ_discrete idx j) [
  | yes same ↦ ap some same
  | no other ↦
      let stopped = preempt_stops t.envs t.curenv j (h j low) in
      absurd (
        false≢true (
          sym stopped
          ∙ subst (λ e. is_running e.env_status ≡ true)
              (update_ne (preempt t.envs t.curenv) idx _ j other) run))
]

charge_status : (e : Env) → (charge e).env_status ≡ e.env_status
unfolding charge
charge_status e = ground arith

-- Two tables with the same `curenv` and the same states.
abbrev SameStatus : Table → Table → Type 0
SameStatus t u =
    (t.curenv ≡ u.curenv) × ((j : ℕ) → j < nenv → (u.envs j).env_status ≡ (t.envs j).env_status)

SameStatus-OneRunning : (t u : Table) → SameStatus t u → OneRunning t → OneRunning u
SameStatus-OneRunning t u (cur, same) h j low run =
    sym cur ∙ h j low (ap is_running (sym (same j low)) ∙ run)

charged-SameStatus : (t : Table) (idx : ℕ) → SameStatus t (charge_env t idx)
unfolding charge_env
charged-SameStatus t idx = (
  refl,
  λ j low. elim (ℕ_discrete idx j) [
    | yes same ↦
        subst (λ k. (update t.envs idx (charge (t.envs idx)) k).env_status ≡ (t.envs k).env_status)
          same
          (ap (λ e. e.env_status) (update_self t.envs idx (charge (t.envs idx)))
            ∙ charge_status (t.envs idx))
    | no other ↦ ap (λ e. e.env_status) (update_ne t.envs idx (charge (t.envs idx)) j other)
  ],
)

dispatch-OneRunning :
    (k : Kernel) (idx : ℕ) → OneRunning k.table → OneRunning (dispatch k idx).0.table
unfolding dispatch
dispatch-OneRunning k idx h = env_run-OneRunning k.table idx h

charge_dispatch-OneRunning :
    (k : Kernel) (idx : ℕ) → OneRunning k.table → OneRunning (charge_dispatch k idx).0.table
unfolding charge_dispatch
charge_dispatch-OneRunning k idx h =
    env_run-OneRunning (charge_env k.table idx) idx
      (SameStatus-OneRunning k.table (charge_env k.table idx) (charged-SameStatus k.table idx) h)

sched_halt-OneRunning :
    (k : Kernel)
    → ((j : ℕ) → j < nenv → RunningAt k.table j → ⊥)
    → OneRunning (sched_halt k).0.table
unfolding sched_halt
sched_halt-OneRunning k h = elim (Bool-cases (any_alive k.table.envs nenv 0)) [
  | inl some_alive ↦ rw some_alive (λ j low run. absurd (h j low run))
  | inr none_alive ↦ rw none_alive (λ j low run. absurd (h j low run))
]

some_eq : (c j : ℕ) → some c ≡ some j → c ≡ j
some_eq c j h = cc

resume-OneRunning :
    (go : Kernel → ℕ → Kernel × Outcome) (k : Kernel) (cur : Option ℕ)
    → ((k' : Kernel) (idx : ℕ) → OneRunning k'.table → OneRunning (go k' idx).0.table)
    → k.table.curenv ≡ cur
    → OneRunning k.table
    → OneRunning (resume go k cur).0.table
unfolding resume
resume-OneRunning go k none keep e h =
    sched_halt-OneRunning k (λ j low run. ground (arith, h j low run))
resume-OneRunning go k (some c) keep e h =
    elim (Bool-cases (is_running (k.table.envs c).env_status)) [
      | inl still ↦ rw still (keep k c h)
      | inr stopped ↦ rw stopped (
          sched_halt-OneRunning k (λ j low run.
            let same : c ≡ j = some_eq c j (sym e ∙ h j low run) in
            false≢true (sym stopped ∙ subst (RunningAt k.table) (sym same) run)))
    ]

after_search-OneRunning :
    (k : Kernel) (found : Option ℕ) → OneRunning k.table → OneRunning (after_search k found).0.table
unfolding after_search
after_search-OneRunning k none h =
    resume-OneRunning dispatch k k.table.curenv dispatch-OneRunning refl h
after_search-OneRunning k (some idx) h = dispatch-OneRunning k idx h

after_scan-OneRunning :
    (k : Kernel) (found : Option ℕ) → OneRunning k.table → OneRunning (after_scan k found).0.table
unfolding after_scan
after_scan-OneRunning k none h =
    resume-OneRunning charge_dispatch k k.table.curenv charge_dispatch-OneRunning refl h
after_scan-OneRunning k (some idx) h = charge_dispatch-OneRunning k idx h

aged-SameStatus :
    (k : Kernel)
    → SameStatus k.table
        (aged_table k (scan_table k.table.envs (start_index k.table.envs k.table.curenv))).table
unfolding aged_table
aged-SameStatus k = (
  refl,
  λ j low.
      ap (λ e. e.env_status)
        ((scan_table-Chosen k.table.envs (start_index k.table.envs k.table.curenv)
            (start_index-lt k.table.envs k.table.curenv)).1
          j low)
      ∙ age_status (k.table.envs j),
)

-- Under both policies: if only `curenv` was running before a call of the scheduler, then only the new
-- `curenv` is running after it, also where the call halts the CPU or enters the monitor.
pub sched_yield-OneRunning :
    (p : Policy) (k : Kernel) → OneRunning k.table → OneRunning (sched_yield p k).0.table
unfolding sched_yield
sched_yield-OneRunning Policy.sched_round_robin k h = after_search-OneRunning (count_call k) _ h
sched_yield-OneRunning Policy.sched_priorities k h =
    let start = start_index k.table.envs k.table.curenv in
    let s = scan_table k.table.envs start in
    after_scan-OneRunning (aged_table (count_call k) s) s.max_e (
      SameStatus-OneRunning k.table (aged_table (count_call k) s).table
        (aged-SameStatus (count_call k)) h)
