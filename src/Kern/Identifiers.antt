-- ===== src/Kern/Identifiers.antt =====
-- sched/kern/env.c: identifiers of environments, fresh ones and stale ones.
use sistemas_operativos_1c.Base.{
  ℕ, ◌-◌, ◌%◌, ◌^◌, ◌≤◌, ◌<◌, ◌≡◌, ◌≢◌, refl, sym, ap, ◌∙◌, ◌⊎◌, inl, inr, true, false, ◌||◌, some,
  Bool, update, update_self, ◌==◌, if◌then◌else◌, arith,
}
use sistemas_operativos_1c.Kern.Env.{Env, Table, Lookup, nenv, envx, envid2env, is_free}
use sistemas_operativos_1c.Kern.Alloc.{next_generation, new_id, fresh_env, env_alloc}

-- What identifiers are: the index in the low ten bits, and the sign bit clear.
pub record IsId (id idx : ℕ) : Type 0 where
  pub index : envx id ≡ idx
  pub above : 0 < id
  pub below : id < 2 ^ 31

generation_lem :
    (env_id : ℕ)
    → env_id < 2 ^ 31
    → (next_generation env_id % 1024 ≡ 0)
      × (2 ^ 12 ≤ next_generation env_id)
      × (next_generation env_id ≤ 2 ^ 31 - 1024)
      × (next_generation env_id ≢ env_id - env_id % 1024)
unfolding next_generation
generation_lem env_id h = (ground arith, ground arith, ground arith, ground arith)

-- The identifier that an entry bears: zero before its first use, later one that names it.
abbrev pub Bears : Env → (idx : ℕ) → Type 0
Bears e idx = (e.env_id ≡ 0) ⊎ IsId e.env_id idx

-- For an entry whose identifier is zero or names the entry, the new identifier names the entry, is
-- positive as a signed number, and is not the old one.
pub new_id-IsId :
    (e : Env) (idx : ℕ)
    → idx < nenv
    → Bears e idx
    → IsId (new_id e.env_id idx) idx × (new_id e.env_id idx ≢ e.env_id)
unfolding new_id
new_id-IsId e idx small (inl unused) =
    let (even, least, most, differ) = generation_lem e.env_id (omega arith) in
    (
      record { index = omega arith; above = omega arith; below = omega arith },
      λ same. absurd (omega arith),
    )
new_id-IsId e idx small (inr own) =
    let (even, least, most, differ) = generation_lem e.env_id own.below in
    let index = own.index in
    (
      record { index = omega arith; above = omega arith; below = omega arith },
      λ same. differ (omega arith),
    )

-- A lookup in the table by an identifier that the entry bears, and by one that it does not bear.
lookup_found :
    (t : Table) (id idx : ℕ)
    → IsId id idx
    → (t.envs idx).env_id ≡ id
    → is_free (t.envs idx).env_status ≡ false
    → envid2env t id false ≡ Lookup.stored (some idx)
unfolding envid2env
lookup_found t id idx h same used =
    let some_id : (id == 0) ≡ false = ground (arith, h.above) in
    let equal : ((t.envs idx).env_id == id) ≡ true = ground arith in
    rw (some_id, h.index, used, equal)

lookup_stale :
    (t : Table) (id idx : ℕ)
    → IsId id idx
    → (t.envs idx).env_id ≢ id
    → envid2env t id false ≡ Lookup.bad_env
unfolding envid2env
lookup_stale t id idx h differ =
    let some_id : (id == 0) ≡ false = ground (arith, h.above) in
    let unequal : ((t.envs idx).env_id == id) ≡ false = ground arith in
    rw (some_id, h.index, unequal) (go (is_free (t.envs idx).env_status))
  where
    go :
        (b : Bool)
        → (if b || true then Lookup.bad_env else Lookup.stored (some idx)) ≡ Lookup.bad_env
    go true = refl
    go false = refl

-- After an allocation from the first entry of the free list the new identifier finds the new
-- environment, and the identifier that the entry bore before, if it bore one, finds nothing: stale
-- identifiers are refused. The identifier of an entry is assumed to be zero or to name the entry.
pub env_alloc-envid2env :
    (t : Table) (idx parent_id pgdir : ℕ)
    → t.env_free_list ≡ some idx
    → idx < nenv
    → Bears (t.envs idx) idx
    → let t' = (env_alloc t parent_id (some pgdir)).0 in
      (envid2env t' (new_id (t.envs idx).env_id idx) false ≡ Lookup.stored (some idx))
      × (((t.envs idx).env_id ≡ 0) ⊎ (envid2env t' (t.envs idx).env_id false ≡ Lookup.bad_env))
unfolding env_alloc new_id fresh_env
env_alloc-envid2env t idx parent_id pgdir head small bears = rw head (after bears)
  where
    e : Env
    e = fresh_env parent_id pgdir idx (t.envs idx)

    t' : Table
    t' = record t { envs = update t.envs idx e; env_free_list = (t.envs idx).env_link }

    now : t'.envs idx ≡ e
    now = update_self t.envs idx e

    new :
        IsId (new_id (t.envs idx).env_id idx) idx
        × (new_id (t.envs idx).env_id idx ≢ (t.envs idx).env_id)
    new = new_id-IsId (t.envs idx) idx small bears

    found : envid2env t' (new_id (t.envs idx).env_id idx) false ≡ Lookup.stored (some idx)
    found =
        lookup_found t' (new_id (t.envs idx).env_id idx) idx new.0 (ap (λ v. v.env_id) now)
          (ap (λ v. is_free v.env_status) now)

    after :
        Bears (t.envs idx) idx
        → (envid2env t' (new_id (t.envs idx).env_id idx) false ≡ Lookup.stored (some idx))
          × (((t.envs idx).env_id ≡ 0) ⊎ (envid2env t' (t.envs idx).env_id false ≡ Lookup.bad_env))
    after (inl unused) = (found, inl unused)
    after (inr own) = (
      found,
      inr (
          lookup_stale t' (t.envs idx).env_id idx own
            (λ same. new.1 (sym (ap (λ v. v.env_id) now) ∙ same))),
    )
