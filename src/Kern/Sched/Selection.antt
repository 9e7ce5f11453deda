-- ===== src/Kern/Sched/Selection.antt =====
-- sched/kern/sched.c, SCHED_PRIORITIES: which environment the scan picks and what it leaves in the
-- table.
use native.Mathlib.Decide.{dec_lt, ℕ_discrete}
use mathlib.Core.Path.{subst₂}
use mathlib.Core.Bool.{false≢true}
use sistemas_operativos_1c.Base.{
  ℕ, ◌+◌, ◌%◌, ◌≤◌, ◌<◌, ◌≡◌, refl, ◌∙◌, sym, ap, ◌⊎◌, inl, inr, true, false, ◌&&◌, Option, none,
  some, Array, update, arith, if◌then◌else◌, Bool-cases, subst, count_up_inv, update_self,
  update_ne, both_true, one_false,
}
use sistemas_operativos_1c.Base.Int.{pos, ◌+ℤ◌, ◌≤ℤ◌, +ℤ_parts, ≤ℤ_trans, ltb_ℤ→le, not_ltb_ℤ→le}
use sistemas_operativos_1c.Kern.Env.{Env, nenv, is_runnable}
use sistemas_operativos_1c.Kern.Sched.RoundRobin.{RunnableAt, round_of, round_of_bounds}
use sistemas_operativos_1c.Kern.Sched.Priorities.{age, Scan, beats, visit, scan_table}

pub age_priority : (e : Env) → e.env_priority ≤ℤ (age e).env_priority
unfolding age
age_priority e = ground (arith, +ℤ_parts e.env_priority (pos 1))

pub age_priority_bound : (e : Env) → (age e).env_priority ≤ℤ e.env_priority +ℤ pos 1
unfolding age
age_priority_bound e = ground (arith, +ℤ_parts e.env_priority (pos 1))

pub age_status : (e : Env) → (age e).env_status ≡ e.env_status
unfolding age
age_status e = ground arith

abbrev pub RunnableBefore : Array Env → (start i j : ℕ) → Type 0
RunnableBefore envs start i j = (j < nenv) × (round_of start j < i) × RunnableAt envs j

abbrev pub Best : Array Env → (start i : ℕ) → Option ℕ → Type 0
Best envs start i none = (j : ℕ) → ¬ RunnableBefore envs start i j
Best envs start i (some m) =
    RunnableBefore envs start i m
    × ((j : ℕ)
        → RunnableBefore envs start i j
        → (envs j).env_priority ≤ℤ (age (envs m)).env_priority)

-- What the scan has established before round `i`: the entries of earlier rounds are aged and the
-- others are as they were; `max_e` is a runnable one among them, and none of them had a higher
-- priority than `max_e` has after ageing.
pub record Scanned (envs : Array Env) (start i : ℕ) (s : Scan) : Type 0 where
  pub aged : (j : ℕ) → j < nenv → round_of start j < i → s.envs j ≡ age (envs j)
  pub kept : (j : ℕ) → j < nenv → i ≤ round_of start j → s.envs j ≡ envs j
  pub best : Best envs start i s.max_e

-- One round, at an index `idx` that is the only one of its round.
module _ (envs : Array Env) (start i idx : ℕ) (s : Scan) (h : Scanned envs start i s)
    (bound : idx < nenv) (here : round_of start idx ≡ i)
    (only : (j : ℕ) → j < nenv → round_of start j ≡ i → j ≡ idx) where
  untouched : s.envs idx ≡ envs idx
  untouched = h.kept idx bound (omega arith)

  not_idle : is_runnable (s.envs idx).env_status ≡ false → RunnableAt envs idx → ⊥
  not_idle idle ok =
      false≢true (sym idle ∙ subst (λ e. is_runnable e.env_status ≡ true) (sym untouched) ok)

  earlier_or_here :
      (j : ℕ) → RunnableBefore envs start (i + 1) j → RunnableBefore envs start i j ⊎ (j ≡ idx)
  earlier_or_here j (low, before, ok) = elim (dec_lt (round_of start j) i) [
    | yes earlier ↦ inl (low, earlier, ok)
    | no late ↦ inr (only j low (omega arith))
  ]

  aged_next :
      (j : ℕ)
      → j < nenv
      → round_of start j < i + 1
      → update s.envs idx (age (s.envs idx)) j ≡ age (envs j)
  aged_next j low before = elim (ℕ_discrete idx j) [
    | yes same ↦ rw (← same) (update_self s.envs idx (age (s.envs idx)) ∙ ap age untouched)
    | no other ↦
        update_ne s.envs idx (age (s.envs idx)) j other
        ∙ h.aged j low (grind (arith, only j low, other))
  ]

  kept_next :
      (j : ℕ)
      → j < nenv
      → i + 1 ≤ round_of start j
      → update s.envs idx (age (s.envs idx)) j ≡ envs j
  kept_next j low after =
      update_ne s.envs idx (age (s.envs idx)) j (λ same.
        let moved : round_of start idx ≡ round_of start j = ap (round_of start) same in omega arith)
      ∙ h.kept j low (omega arith)

  runnable_here : is_runnable (s.envs idx).env_status ≡ true → RunnableBefore envs start (i + 1) idx
  runnable_here ok = (bound, omega arith, subst (λ e. is_runnable e.env_status ≡ true) untouched ok)

  -- The new entry takes over.
  Best-won :
      (m : Option ℕ)
      → Best envs start i m
      → is_runnable (s.envs idx).env_status ≡ true
      → beats s.envs m idx ≡ true
      → Best envs start (i + 1) (some idx)
  unfolding beats
  Best-won none b ok win = (
    runnable_here ok,
    λ j rb. elim (earlier_or_here j rb) [
      | inl earlier ↦ absurd (b j earlier)
      | inr same ↦ rw same (age_priority (envs idx))
    ],
  )
  Best-won (some m) b ok win = (
    runnable_here ok,
    λ j rb. elim (earlier_or_here j rb) [
      | inl earlier ↦ climb (envs j) (b.1 j earlier)
      | inr same ↦ rw same (age_priority (envs idx))
    ],
  )
    where
      held : (s.envs m) ≡ age (envs m)
      held = h.aged m b.0.0 b.0.1

      climb :
          (f : Env)
          → f.env_priority ≤ℤ (age (envs m)).env_priority
          → f.env_priority ≤ℤ (age (envs idx)).env_priority
      climb f le =
          ≤ℤ_trans f.env_priority (envs idx).env_priority (age (envs idx)).env_priority
            (≤ℤ_trans f.env_priority (age (envs m)).env_priority (envs idx).env_priority le (
              subst₂ (λ x y. x.env_priority ≤ℤ y.env_priority) held untouched
                (ltb_ℤ→le (s.envs m).env_priority (s.envs idx).env_priority win)))
            (age_priority (envs idx))

  -- The holder stays.
  Best-lost :
      (m : Option ℕ)
      → Best envs start i m
      → (is_runnable (s.envs idx).env_status ≡ false) ⊎ (beats s.envs m idx ≡ false)
      → Best envs start (i + 1) m
  unfolding beats
  Best-lost none b (inl idle) = λ j rb. elim (earlier_or_here j rb) [
    | inl earlier ↦ b j earlier
    | inr same ↦ not_idle idle (subst (RunnableAt envs) same rb.2)
  ]
  Best-lost none b (inr lose) = cc
  Best-lost (some m) b lose = (
    (b.0.0, omega arith, b.0.2),
    λ j rb. elim (earlier_or_here j rb) [
      | inl earlier ↦ b.1 j earlier
      | inr same ↦ elim lose [
        | inl idle ↦ absurd (not_idle idle (subst (RunnableAt envs) same rb.2))
        | inr less ↦
            subst (λ k. (envs k).env_priority ≤ℤ (age (envs m)).env_priority) (sym same)
              (subst₂ (λ x y. x.env_priority ≤ℤ y.env_priority) untouched (h.aged m b.0.0 b.0.1)
                (not_ltb_ℤ→le (s.envs m).env_priority (s.envs idx).env_priority less))
      ]
    ],
  )

  Best-next :
      (m : Option ℕ)
      → Best envs start i m
      → Best envs start
          (i + 1)
          (if is_runnable (s.envs idx).env_status && beats s.envs m idx then some idx else m)
  Best-next m b = elim (Bool-cases (is_runnable (s.envs idx).env_status && beats s.envs m idx)) [
    | inl win ↦ rw win (Best-won m b (both_true _ _ win).0 (both_true _ _ win).1)
    | inr lose ↦ rw lose (Best-lost m b (one_false _ _ lose))
  ]

  pub visit-Scanned : Scanned envs start (i + 1) (visit idx s)
  unfolding visit
  visit-Scanned = record { aged = aged_next; kept = kept_next; best = Best-next s.max_e h.best }

-- The index of a round and the round of an index.
round_of-index :
    (start i : ℕ)
    → start < nenv
    → 1 ≤ i
    → i < nenv + 1
    → ((start + i) % nenv < nenv) × (round_of start ((start + i) % nenv) ≡ i)
round_of-index start i low first last = (omega arith, ground arith)

index_unique :
    (start i j : ℕ) → start < nenv → j < nenv → round_of start j ≡ i → j ≡ (start + i) % nenv
index_unique start i j low high e =
    (round_of_bounds start j low high).2 ∙ ap (λ k. (start + k) % nenv) e

start-Scanned :
    (envs : Array Env) (start : ℕ)
    → start < nenv
    → Scanned envs start 1 (record { envs = envs; max_e = none })
start-Scanned envs start low = record {
  aged = λ j high before. absurd (omega (arith, (round_of_bounds start j low high).0));
  kept = λ j high after. refl;
  best = λ j rb. omega (arith, rb.1, (round_of_bounds start j low rb.0).0);
}

scan_table-Scanned :
    (envs : Array Env) (start : ℕ)
    → start < nenv
    → Scanned envs start (nenv + 1) (scan_table envs start)
unfolding scan_table
scan_table-Scanned envs start low =
    count_up_inv (Scanned envs start) (λ i s. visit ((start + i) % nenv) s) nenv 1 (nenv + 1)
      (record { envs = envs; max_e = none }) (omega arith)
      (λ i s first last h.
        visit-Scanned envs start i ((start + i) % nenv) s h
          (round_of-index start i low first last).0 (round_of-index start i low first last).1
          (λ j high. index_unique start i j low high))
      (start-Scanned envs start low)

-- What the scan picks: nothing only if nothing is runnable, and otherwise a runnable environment than
-- which, once it has been aged, no runnable environment had a higher priority before the scan.
abbrev pub Chosen : Array Env → Option ℕ → Type 0
Chosen envs none = (j : ℕ) → j < nenv → RunnableAt envs j → ⊥
Chosen envs (some m) =
    (m < nenv)
    × RunnableAt envs m
    × ((j : ℕ)
        → j < nenv
        → RunnableAt envs j
        → (envs j).env_priority ≤ℤ (age (envs m)).env_priority)

Best-Chosen :
    (envs : Array Env) (start : ℕ) (m : Option ℕ)
    → start < nenv
    → Best envs start (nenv + 1) m
    → Chosen envs m
Best-Chosen envs start none low b =
    λ j high ok. b j (high, (round_of_bounds start j low high).1, ok)
Best-Chosen envs start (some m) low b =
    (b.0.0, b.0.2, λ j high ok. b.1 j (high, (round_of_bounds start j low high).1, ok))

-- The scan leaves every entry of the table aged, and picks as `Chosen` says.
pub scan_table-Chosen :
    (envs : Array Env) (start : ℕ)
    → start < nenv
    → Chosen envs (scan_table envs start).max_e
      × ((j : ℕ) → j < nenv → (scan_table envs start).envs j ≡ age (envs j))
scan_table-Chosen envs start low =
    let all = scan_table-Scanned envs start low in
    (
      Best-Chosen envs start (scan_table envs start).max_e low all.best,
      λ j high. all.aged j high (round_of_bounds start j low high).1,
    )
