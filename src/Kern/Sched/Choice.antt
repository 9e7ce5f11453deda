-- ===== src/Kern/Sched/Choice.antt =====
-- sched/kern/sched.c: what a whole call of `sched_yield` runs, under each policy.
use sistemas_operativos_1c.Base.{
  ◌&&◌, ltb, leb, ℕ, ◌+◌, ◌%◌, ◌≤◌, ◌<◌, ◌≡◌, refl, sym, ap, ◌∙◌, inl, inr, Option, none, some,
  Array, arith, update, update_self, update_ne, ◌==◌, if◌then◌else◌, Bool-cases, ==_iff, subst,
}
use sistemas_operativos_1c.Base.Int.{ℤ, pos, ◌+ℤ◌, ◌-ℤ◌, ltb_ℤ, ◌≤ℤ◌}
use mathlib.Core.Bool.{false≢true}
use sistemas_operativos_1c.Kern.Env.{Env, Table, nenv, env_run, preempt}
use sistemas_operativos_1c.Kern.Sched.RoundRobin.{
  RunnableAt, NotRunnableAt, FirstOf, start_index, start_index-lt, round_robin, round_robin-FirstOf,
  round_robin-none_iff,
}
use sistemas_operativos_1c.Kern.Sched.Priorities.{Scan, age, charge, scan_table}
use sistemas_operativos_1c.Kern.Sched.Selection.{Chosen, scan_table-Chosen}
use sistemas_operativos_1c.Kern.Sched.Yield.{
  Policy, Kernel, Outcome, runs, count_call, dispatch, charge_dispatch, after_search, after_scan,
  aged_table, sched_yield, charge_env,
}

abbrev pub first_slot : Kernel → ℕ
first_slot k = start_index k.table.envs k.table.curenv

-- The first runnable environment on the circle, and the table after the switch to it.
abbrev pub RunsFirst : Kernel → Kernel × Outcome → Type 0
RunsFirst k r =
    (i : ℕ) × (1 ≤ i)
    × (i ≤ nenv)
    × (r.1 ≡ runs ((first_slot k + i) % nenv))
    × (r.0.table ≡ env_run k.table ((first_slot k + i) % nenv))
    × RunnableAt k.table.envs ((first_slot k + i) % nenv)
    × ((j : ℕ) → 1 ≤ j → j < i → NotRunnableAt k.table.envs ((first_slot k + j) % nenv))

-- Under round robin, where some environment is runnable, a call runs the first runnable one after the
-- environment that this CPU ran last, and switches the table to it.
pub sched_yield-round_robin :
    (k : Kernel) (j : ℕ)
    → j < nenv
    → RunnableAt k.table.envs j
    → RunsFirst k (sched_yield Policy.sched_round_robin k)
unfolding sched_yield after_search dispatch
sched_yield-round_robin k j low ok =
    go (round_robin k.table.envs k.table.curenv) refl
      (round_robin-FirstOf k.table.envs k.table.curenv)
  where
    go :
        (found : Option ℕ)
        → round_robin k.table.envs k.table.curenv ≡ found
        → FirstOf k.table.envs (first_slot k) 1 (nenv + 1) found
        → RunsFirst k (after_search (count_call k) (round_robin k.table.envs k.table.curenv))
    go none e h =
        absurd
          (false≢true (sym ((round_robin-none_iff k.table.envs k.table.curenv).0 e j low) ∙ ok))
    go (some idx) e (i, first, last, here, hit, before) = rw e (
      i,
      first,
      omega arith,
      ap runs here,
      ap (env_run k.table) here,
      subst (RunnableAt k.table.envs) here hit,
      before,
    )

-- `env_run` changes neither a priority nor a waiting time.
abbrev SameTurn : Env → Env → Type 0
SameTurn e f = (e.env_priority ≡ f.env_priority) × (e.env_wait_time ≡ f.env_wait_time)

preempt_same : (envs : Array Env) (cur : Option ℕ) (j : ℕ) → SameTurn (preempt envs cur j) (envs j)
unfolding update
preempt_same envs none j = (refl, refl)
preempt_same envs (some c) j = (ground arith, ground arith)

env_run_same : (t : Table) (idx j : ℕ) → SameTurn ((env_run t idx).envs j) (t.envs j)
unfolding env_run update
env_run_same t idx j =
    (ground (arith, preempt_same t.envs t.curenv j), ground (arith, preempt_same t.envs t.curenv j))

-- One call of waiting more; the count goes back to one after three.
abbrev pub waited : ℕ → ℕ
waited wait = if ltb wait 3 then wait + 1 else 1

-- A priority below the highest goes up by one where the wait was three calls long.
abbrev pub raised : (wait : ℕ) → ℤ → ℤ
raised wait p = if leb 3 wait && ltb_ℤ p (pos 5) then p +ℤ pos 1 else p

-- A priority above the lowest goes down by one.
abbrev pub lowered : ℤ → ℤ
lowered p = if ltb_ℤ (pos 0) p then p -ℤ pos 1 else p

-- The priority and the waiting time of the entry `j` after a call that runs `m`.
abbrev pub priority_after : Array Env → (m j : ℕ) → ℤ
priority_after envs m j =
    let p = raised (envs j).env_wait_time (envs j).env_priority in if m == j then lowered p else p

abbrev pub wait_after : Array Env → (m j : ℕ) → ℕ
wait_after envs m j = if m == j then 0 else waited (envs j).env_wait_time

abbrev pub RunsHighest : Kernel → Kernel × Outcome → Type 0
RunsHighest k r =
    (m : ℕ) × (m < nenv)
    × (r.1 ≡ runs m)
    × RunnableAt k.table.envs m
    × ((j : ℕ)
        → j < nenv
        → RunnableAt k.table.envs j
        → (k.table.envs j).env_priority
          ≤ℤ raised (k.table.envs m).env_wait_time (k.table.envs m).env_priority)
    × ((j : ℕ)
        → j < nenv
        → ((r.0.table.envs j).env_priority ≡ priority_after k.table.envs m j)
          × ((r.0.table.envs j).env_wait_time ≡ wait_after k.table.envs m j))

-- The entry `j` as the code leaves it.
abbrev after_turn : Array Env → (m j : ℕ) → Env
after_turn envs m j = if m == j then charge (age (envs j)) else age (envs j)

age_fields :
    (e : Env)
    → ((age e).env_priority ≡ raised e.env_wait_time e.env_priority)
      × ((age e).env_wait_time ≡ waited e.env_wait_time)
unfolding age
age_fields e = (ground arith, ground arith)

charge_fields :
    (e : Env) → ((charge e).env_priority ≡ lowered e.env_priority) × ((charge e).env_wait_time ≡ 0)
unfolding charge
charge_fields e = (ground arith, ground arith)

after_turn_fields :
    (envs : Array Env) (m j : ℕ)
    → ((after_turn envs m j).env_priority ≡ priority_after envs m j)
      × ((after_turn envs m j).env_wait_time ≡ wait_after envs m j)
after_turn_fields envs m j = elim (Bool-cases (m == j)) [
  | inl hit ↦ rw hit (
    (charge_fields (age (envs j))).0 ∙ ap lowered (age_fields (envs j)).0,
    (charge_fields (age (envs j))).1,
  )
  | inr miss ↦ rw miss (age_fields (envs j))
]

charge_env_turn :
    (envs : Array Env) (t : Table) (m j : ℕ)
    → t.envs j ≡ age (envs j)
    → (charge_env t m).envs j ≡ after_turn envs m j
unfolding charge_env
charge_env_turn envs t m j aged = elim (Bool-cases (m == j)) [
  | inl hit ↦
      let same : m ≡ j = (==_iff m j).0 hit in
      rw hit (
        subst (λ k. update t.envs k (charge (t.envs k)) j ≡ charge (age (envs j))) (sym same)
          (update_self t.envs j (charge (t.envs j)) ∙ ap charge aged))
  | inr miss ↦ rw miss (
      update_ne t.envs m (charge (t.envs m)) j (λ same. false≢true (sym miss ∙ (==_iff m j).1 same))
      ∙ aged)
]

charged_turn :
    (envs : Array Env) (t : Table) (m j : ℕ)
    → t.envs j ≡ age (envs j)
    → (((env_run (charge_env t m) m).envs j).env_priority ≡ priority_after envs m j)
      × (((env_run (charge_env t m) m).envs j).env_wait_time ≡ wait_after envs m j)
charged_turn envs t m j aged =
    let turn = charge_env_turn envs t m j aged in
    (
      (env_run_same (charge_env t m) m j).0
          ∙ ap (λ e. e.env_priority) turn
          ∙ (after_turn_fields envs m j).0,
      (env_run_same (charge_env t m) m j).1
          ∙ ap (λ e. e.env_wait_time) turn
          ∙ (after_turn_fields envs m j).1,
    )

-- Under priorities, where some environment is runnable, a call runs a runnable environment such that no
-- runnable one had a priority above that one's aged priority. Afterwards every entry of the table has waited
-- for one call more and, after three calls of waiting, is one priority higher, up to 5; the environment
-- that runs then pays one priority, down to 0, and its waiting time is zero.
pub sched_yield-priorities :
    (k : Kernel) (j : ℕ)
    → j < nenv
    → RunnableAt k.table.envs j
    → RunsHighest k (sched_yield Policy.sched_priorities k)
unfolding sched_yield after_scan charge_dispatch
sched_yield-priorities k j low ok =
    go s.max_e refl (scan_table-Chosen k.table.envs (first_slot k) bound).0
  where
    bound : first_slot k < nenv
    bound = start_index-lt k.table.envs k.table.curenv

    s : Scan
    s = scan_table k.table.envs (first_slot k)

    go :
        (found : Option ℕ)
        → s.max_e ≡ found
        → Chosen k.table.envs found
        → RunsHighest k (after_scan (aged_table (count_call k) s) s.max_e)
    go none e h = absurd (h j low ok)
    go (some m) e (high, hit, best) = rw e (
      m,
      high,
      refl,
      hit,
      λ i below ready.
          subst (λ p. (k.table.envs i).env_priority ≤ℤ p) (age_fields (k.table.envs m)).0
            (best i below ready),
      λ i below.
          charged_turn k.table.envs (aged_table (count_call k) s).table m i
            ((scan_table-Chosen k.table.envs (first_slot k) bound).1 i below),
    )
