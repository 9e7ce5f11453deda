-- ===== src/Kern/Isolation.antt =====
-- sched/kern/syscall.c and `envid2env`: which environments a system call can change.
pub mod Kept
pub mod Sends
pub mod Calls
use sistemas_operativos_1c.Base.{
  ℕ, ◌%◌, ◌≡◌, refl, ap, ◌⊎◌, inl, inr, Bool, true, false, ◌||◌, ◌&&◌, not, Option, none, some,
  update, update_ne, ◌==◌, ==_iff, if◌then◌else◌, Bool-cases, subst, leb,
}
use sistemas_operativos_1c.Base.Int.{ℤ, pos, negsuc}
use sistemas_operativos_1c.Kern.Env.{
  Env, Status, Table, Lookup, envid2env, denied, envx, is_free, is_running,
}
use sistemas_operativos_1c.Kern.Alloc.{env_destroy, env_free, is_cur}
use sistemas_operativos_1c.Kern.Errors.{e_bad_env, utop, pgsize}
use sistemas_operativos_1c.Kern.Syscall.{
  Result, Effect, with_env, with_curenv, destroyed, set_status, status_of, forked, sys_exofork,
  sys_getenvid, sys_env_destroy, sys_env_set_status, sys_ipc_recv, sys_env_get_priority,
  sys_env_lower_priority,
}

-- The caller `c` may change itself and its children.
abbrev pub May : Table → (c e : ℕ) → Type 0
May t c e = (e ≡ c) ⊎ ((t.envs e).env_parent_id ≡ (t.envs c).env_id)

-- What a lookup with `checkperm` allows.
abbrev pub Allows : Table → (c : ℕ) → Lookup → Type 0
Allows t c (Lookup.stored (some e)) = May t c e
Allows t c (Lookup.stored none) = Unit {0}
Allows t c Lookup.bad_env = Unit {0}
Allows t c Lookup.fault = Unit {0}

checked-Allows :
    (t : Table) (c e : ℕ)
    → Allows t c (
        if not (e == c) && not ((t.envs e).env_parent_id == (t.envs c).env_id)
        then Lookup.bad_env
        else Lookup.stored (some e))
checked-Allows t c e = elim (Bool-cases (e == c)) [
  | inl self ↦ rw self (inl ((==_iff e c).0 self))
  | inr other ↦ elim (Bool-cases ((t.envs e).env_parent_id == (t.envs c).env_id)) [
    | inl child ↦ rw (other, child) (inr ((==_iff _ _).0 child))
    | inr stranger ↦ rw (other, stranger) tt
  ]
]

pub envid2env-Allows :
    (t : Table) (c envid : ℕ) → t.curenv ≡ some c → Allows t c (envid2env t envid true)
unfolding envid2env denied
envid2env-Allows t c envid cur = rw cur (elim (Bool-cases (envid == 0)) [
  | inl self ↦ rw self (inl refl)
  | inr other ↦
      rw other (
        go
          (is_free (t.envs (envx envid)).env_status || not ((t.envs (envx envid)).env_id == envid)))
])
  where
    go :
        (b : Bool)
        → Allows t c (
            if b
            then Lookup.bad_env
            else (if not (envx envid == c)
                  && not ((t.envs (envx envid)).env_parent_id == (t.envs c).env_id)
                then Lookup.bad_env
                else Lookup.stored (some (envx envid))))
    go true = tt
    go false = checked-Allows t c (envx envid)

-- A write to an entry that the caller may change leaves the others alone.
pub other_kept :
    (t : Table) (c e j : ℕ) (v : Env) → May t c e → ¬ (May t c j) → update t.envs e v j ≡ t.envs j
other_kept t c e j v may not_may =
    update_ne t.envs e v j (λ same. not_may (subst (May t c) same may))

pub env_destroy-kept :
    (t : Table) (c e j : ℕ) → May t c e → ¬ (May t c j) → ((env_destroy t e).0).envs j ≡ t.envs j
unfolding env_destroy env_free
env_destroy-kept t c e j may not_may =
    elim (Bool-cases (is_running (t.envs e).env_status && not (is_cur t.curenv e))) [
      | inl zombie ↦ rw zombie (other_kept t c e j _ may not_may)
      | inr now ↦ rw now (elim (Bool-cases (is_cur t.curenv e)) [
        | inl self ↦ rw self (other_kept t c e j _ may not_may)
        | inr other ↦ rw other (other_kept t c e j _ may not_may)
      ])
    ]

pub with_env-kept :
    (t : Table) (c j : ℕ) (error : ℤ) (l : Lookup) (k : ℕ → Effect)
    → Allows t c l
    → ((e : ℕ) → May t c e → (k e).0.envs j ≡ t.envs j)
    → (with_env t error l k).0.envs j ≡ t.envs j
with_env-kept t c j error (Lookup.stored (some e)) k allows keep = keep e allows
with_env-kept t c j error (Lookup.stored none) k allows keep = refl
with_env-kept t c j error Lookup.bad_env k allows keep = refl
with_env-kept t c j error Lookup.fault k allows keep = refl

pub set_status-kept :
    (t : Table) (c j envid : ℕ) (status : Option Status)
    → t.curenv ≡ some c
    → ¬ (May t c j)
    → (set_status t envid status).0.envs j ≡ t.envs j
set_status-kept t c j envid none cur not_may = refl
set_status-kept t c j envid (some status) cur not_may =
    with_env-kept t c j e_bad_env (envid2env t envid true) _ (envid2env-Allows t c envid cur)
      (λ e may. other_kept t c e j _ may not_may)

pub sys_ipc_recv-kept :
    (t : Table) (c j dstva : ℕ)
    → t.curenv ≡ some c
    → ¬ (May t c j)
    → (sys_ipc_recv t dstva).0.envs j ≡ t.envs j
unfolding sys_ipc_recv
sys_ipc_recv-kept t c j dstva cur not_may =
    rw cur (elim (Bool-cases (leb utop dstva || not (dstva % pgsize == 0))) [
      | inl refused ↦ rw refused (other_kept t c c j _ (inl refl) not_may)
      | inr fits ↦ rw fits (other_kept t c c j _ (inl refl) not_may)
    ])
