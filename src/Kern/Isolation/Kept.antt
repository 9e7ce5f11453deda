-- ===== src/Kern/Isolation/Kept.antt =====
-- sched/kern/syscall.c: which entries of the table the calls other than sys_ipc_try_send leave as they were.
use sistemas_operativos_1c.Base.{
  ℕ, ◌≡◌, refl, ap, ◌⊎◌, inl, inr, Bool, true, false, Option, none, some, ◌>>=◌, sym, ◌∙◌,
  update_ne, ◌+◌, if◌then◌else◌, subst,
}
use sistemas_operativos_1c.Base.Int.{ℤ, pos, negsuc}
use sistemas_operativos_1c.Kern.Env.{Env, Status, Table, Lookup, envid2env}
use sistemas_operativos_1c.Kern.Alloc.{env_destroy}
use sistemas_operativos_1c.Kern.Errors.{e_bad_env, pgsize}
use sistemas_operativos_1c.Kern.Pages.{Pages}
use sistemas_operativos_1c.Kern.PageCalls.{
  Memory, user_mem_assert, on_found, sys_env_set_pgfault_upcall,
}
use sistemas_operativos_1c.Kern.Dispatch.{Call, CallEnd, on_table, on_memory, printed, sys_cputs}
use sistemas_operativos_1c.Kern.Syscall.{
  Result, Effect, with_curenv, destroyed, status_of, forked, sys_exofork, sys_getenvid,
  sys_env_destroy, sys_env_set_status, sys_env_get_priority, sys_env_lower_priority,
}
use native.Mathlib.Decide.{ℕ_discrete}
use sistemas_operativos_1c.Kern.Alloc.{commit, env_alloc}
use sistemas_operativos_1c.Kern.Paging.{pte_p, pte_u}
use sistemas_operativos_1c.Kern.Syscall.{returns, yields, set_env}
use sistemas_operativos_1c.Kern.Isolation.{
  May, Allows, envid2env-Allows, other_kept, env_destroy-kept, with_env-kept, set_status-kept,
}

-- What may become of the entry `e` of a stranger `j` under a call of `c`. Only the call that sends changes it,
-- if it waits for a message: into one that has got the message from `c` and is runnable. The call that
-- makes an environment takes the first free entry.
abbrev pub Leaves : Table → (c j : ℕ) → Call → Env → Type 0
Leaves t c j Call.exofork e = (e ≡ t.envs j) ⊎ (t.env_free_list ≡ some j)
Leaves t c j (Call.ipc_try_send envid value srcva perm) e =
    (e ≡ t.envs j)
    ⊎ (((t.envs j).env_ipc_recving ≡ true)
        × (p : ℕ) × (e ≡ record (t.envs j) {
          env_status = Status.runnable;
          env_ipc_recving = false;
          env_ipc_value = value;
          env_ipc_from = (t.envs c).env_id;
          env_ipc_perm = p;
        }))
Leaves t c j call e = e ≡ t.envs j

-- `A` holds of the entry `j` where a call ends.
abbrev pub Ends : (j : ℕ) → (Env → Type 0) → CallEnd → Type 0
Ends j A none = Unit {0}
Ends j A (some (t, m, r)) = A (t.envs j)

module _ (t : Table) (c j : ℕ) (cur : t.curenv ≡ some c) (not_may : ¬ (May t c j)) where
  pub getenvid-kept : (sys_getenvid t).0.envs j ≡ t.envs j
  unfolding sys_getenvid
  getenvid-kept =
      ap (λ o. (with_curenv t o (λ e. (t, Result.returns (pos (t.envs e).env_id)))).0.envs j) cur

  pub destroy-kept : (envid : ℕ) → (sys_env_destroy t envid).0.envs j ≡ t.envs j
  unfolding sys_env_destroy
  destroy-kept envid =
      with_env-kept t c j e_bad_env (envid2env t envid true) (λ e. destroyed (env_destroy t e))
        (envid2env-Allows t c envid cur) (λ e may. env_destroy-kept t c e j may not_may)

  pub get_priority-kept : (envid : ℕ) → (sys_env_get_priority t envid).0.envs j ≡ t.envs j
  unfolding sys_env_get_priority
  get_priority-kept envid =
      with_env-kept t c j (negsuc 0) (envid2env t envid true) _ (envid2env-Allows t c envid cur)
        (λ e may. refl)

  pub lower_priority-kept : (envid : ℕ) → (sys_env_lower_priority t envid).0.envs j ≡ t.envs j
  unfolding sys_env_lower_priority
  lower_priority-kept envid =
      with_env-kept t c j (negsuc 0) (envid2env t envid true) _ (envid2env-Allows t c envid cur)
        (λ e may. other_kept t c e j _ may not_may)

  pub env_set_status-kept :
      (envid status : ℕ) → (sys_env_set_status t envid status).0.envs j ≡ t.envs j
  unfolding sys_env_set_status
  env_set_status-kept envid status = set_status-kept t c j envid (status_of status) cur not_may

  -- The check of user memory changes only the entry that it is about.
  checked-kept :
      (e : ℕ)
      → May t c e
      → (checked : Option (ℤ × ℕ)) → (k : Table × Bool → CallEnd)
      → ((t' : Table) (away : Bool)
          → t'.envs j ≡ t.envs j
          → Ends j (λ v. v ≡ t.envs j) (k (t', away)))
      → Ends j
          (λ v. v ≡ t.envs j)
          (checked
            >>= (λ (r, bad). some (elim r [ pos n ↦ (t, false) | negsuc n ↦ env_destroy t e ]))
            >>= k)
  checked-kept e may none k then_kept = tt
  checked-kept e may (some (pos n, bad)) k then_kept = then_kept t false refl
  checked-kept e may (some (negsuc n, bad)) k then_kept =
      then_kept (env_destroy t e).0 (env_destroy t e).1 (env_destroy-kept t c e j may not_may)

  pub cputs-kept :
      (npages : ℕ) (m : Pages) (s len addr : ℕ)
      → Ends j (λ v. v ≡ t.envs j) (sys_cputs npages t m t.curenv s len addr)
  unfolding sys_cputs user_mem_assert
  cputs-kept npages m s len addr =
      subst (λ o. Ends j (λ v. v ≡ t.envs j) (sys_cputs npages t m o s len addr)) (sym cur)
        (checked-kept c (inl refl) _ (printed m) (λ t' away kept. kept))

  -- The rest of sys_env_set_pgfault_upcall after the check.
  abbrev stored : ℕ → (func : ℕ) → Table × Bool → Option Effect
  stored e func (t', away) =
      if away
      then some (t', yields)
      else some (set_env t' e (record (t'.envs e) { env_pgfault_upcall = func }), returns (pos 0))

  stored-kept :
      (m : Pages) (e func : ℕ)
      → May t c e
      → (t' : Table) (away : Bool) → t'.envs j ≡ t.envs j
      → Ends j (λ v. v ≡ t.envs j) (stored e func (t', away) >>= on_table m)
  stored-kept m e func may t' true kept = kept
  stored-kept m e func may t' false kept =
      update_ne t'.envs e _ j (λ same. not_may (subst (May t c) same may)) ∙ kept

  upcall_checked-kept :
      (m : Pages) (e func : ℕ)
      → May t c e
      → (checked : Option (ℤ × ℕ))
      → Ends j
          (λ v. v ≡ t.envs j)
          (checked
            >>= (λ (r, bad). some (elim r [ pos n ↦ (t, false) | negsuc n ↦ env_destroy t e ]))
            >>= stored e func
            >>= on_table m)
  upcall_checked-kept m e func may none = tt
  upcall_checked-kept m e func may (some (pos n, bad)) = stored-kept m e func may t false refl
  upcall_checked-kept m e func may (some (negsuc n, bad)) =
      stored-kept m e func may (env_destroy t e).0 (env_destroy t e).1
        (env_destroy-kept t c e j may not_may)

  upcall_found-kept :
      (npages : ℕ) (m : Pages) (l : Lookup) (func addr : ℕ)
      → Allows t c l
      → Ends j
          (λ v. v ≡ t.envs j)
          (on_found t l
              (λ e. user_mem_assert npages t m e func pgsize (pte_p + pte_u) addr >>= stored e func)
            >>= on_table m)
  unfolding user_mem_assert
  upcall_found-kept npages m (Lookup.stored (some e)) func addr allows =
      upcall_checked-kept m e func allows _
  upcall_found-kept npages m (Lookup.stored none) func addr allows = tt
  upcall_found-kept npages m Lookup.bad_env func addr allows = refl
  upcall_found-kept npages m Lookup.fault func addr allows = tt

  pub upcall-kept :
      (npages : ℕ) (m : Pages) (envid func addr : ℕ)
      → Ends j
          (λ v. v ≡ t.envs j)
          (sys_env_set_pgfault_upcall npages t m envid func addr >>= on_table m)
  unfolding sys_env_set_pgfault_upcall
  upcall-kept npages m envid func addr =
      upcall_found-kept npages m (envid2env t envid true) func addr (envid2env-Allows t c envid cur)

  pub on_memory-kept : (r : Memory) → Ends j (λ v. v ≡ t.envs j) (on_memory t r)
  on_memory-kept none = tt
  on_memory-kept (some (m, n)) = refl

  -- A new environment is made in the first free entry.
  committed-Leaves :
      (id : ℕ) (setup head : Option ℕ) (m : Pages)
      → t.env_free_list ≡ head
      → Ends j (Leaves t c j Call.exofork) (on_table m (forked (commit t id setup head)))
  committed-Leaves id setup none m first = inl refl
  committed-Leaves id none (some i) m first = inl refl
  committed-Leaves id (some pgdir) (some i) m first = elim (ℕ_discrete i j) [
    | yes same ↦ inr (first ∙ ap some same)
    | no other ↦ inl (update_ne _ i _ j other ∙ update_ne t.envs i _ j other)
  ]

  pub exofork-Leaves :
      (setup : Option ℕ) (m : Pages)
      → Ends j (Leaves t c j Call.exofork) (on_table m (sys_exofork t setup))
  unfolding sys_exofork env_alloc
  exofork-Leaves setup m =
      subst
        (λ o.
          Ends j (Leaves t c j Call.exofork)
            (on_table m (with_curenv t o (λ c. forked (env_alloc t (t.envs c).env_id setup)))))
        (sym cur) (committed-Leaves (t.envs c).env_id setup t.env_free_list m refl)
