-- ===== src/Kern/Isolation/Sends.antt =====
-- sched/kern/syscall.c: what sys_ipc_try_send does to the entries of the table.
use sistemas_operativos_1c.Base.{
  ℕ, ◌%◌, ◌≡◌, refl, ap, ◌⊎◌, inl, inr, Bool, true, false, ◌&&◌, not, Option, none, some, ◌==◌,
  ◌>>=◌, sym, ◌∙◌, update_self, update_ne, ◌+◌, ◌≢◌, if◌then◌else◌, Bool-cases, subst, leb,
}
use sistemas_operativos_1c.Base.Int.{pos, negsuc}
use sistemas_operativos_1c.Kern.Env.{Env, Status, Table, Lookup, envid2env}
use sistemas_operativos_1c.Kern.Errors.{utop, pgsize}
use sistemas_operativos_1c.Kern.Pages.{Pages}
use sistemas_operativos_1c.Kern.PageCalls.{
  has, env_page_alloc, env_page_map, Sending, Memory, deliver, set_ipc_perm, or_return,
  send_mapping, send_entry, send_from, send_to, sys_ipc_try_send,
}
use sistemas_operativos_1c.Kern.Dispatch.{sent}
use native.Mathlib.Decide.{ℕ_discrete}
use Prim.Native.Nat.{bit_or}
use sistemas_operativos_1c.Kern.Paging.{Slot, entry, page_lookup, pte_p, pte_w, pte_u}
use sistemas_operativos_1c.Kern.Syscall.{set_env}
use sistemas_operativos_1c.Kern.Isolation.{May}
use sistemas_operativos_1c.Kern.Isolation.Kept.{Ends}

module _ (t : Table) (c j : ℕ) (cur : t.curenv ≡ some c) (not_may : ¬ (May t c j)) where
  or_return-Ends :
      (A : Env → Type 0) (x : Memory) (k : Pages → Sending)
      → A (t.envs j)
      → ((m : Pages) → Ends j A (sent (k m)))
      → Ends j A (sent (or_return t x k))
  or_return-Ends A none k same each = tt
  or_return-Ends A (some (m, pos n)) k same each = each m
  or_return-Ends A (some (m, negsuc n)) k same each = same

  bind-Ends :
      {X : Type 0} (A : Env → Type 0) (x : Option X) (k : X → Sending)
      → ((a : X) → Ends j A (sent (k a)))
      → Ends j A (sent (x >>= k))
  bind-Ends A none k each = tt
  bind-Ends A (some a) k each = each a

  if-Ends :
      (A : Env → Type 0) (b : Bool) (x y : Sending)
      → Ends j A (sent x)
      → Ends j A (sent y)
      → Ends j A (sent (if b then x else y))
  if-Ends A true x y h g = h
  if-Ends A false x y h g = g

  abbrev got : (value id p : ℕ) → Env → Env
  got value id p e = record e {
    env_status = Status.runnable;
    env_ipc_recving = false;
    env_ipc_value = value;
    env_ipc_from = id;
    env_ipc_perm = p;
  }

  -- The entry is as before, or it waited and has got the message.
  abbrev pub Received : (value : ℕ) → Env → Type 0
  Received value e =
      (e ≡ t.envs j)
      ⊎ (((t.envs j).env_ipc_recving ≡ true)
          × (p : ℕ) × (e ≡ got value (t.envs c).env_id p (t.envs j)))

  module _ (npages dst value : ℕ) (waits : (t.envs dst).env_ipc_recving ≡ true) where
    -- `t'` is the table with the permissions `p` in the receiver's entry.
    delivered-Received :
        (t' : Table) (m : Pages) (p : ℕ)
        → t'.envs dst ≡ record (t.envs dst) { env_ipc_perm = p }
        → (dst ≢ j → t'.envs j ≡ t.envs j)
        → (t'.envs c).env_id ≡ (t.envs c).env_id
        → Ends j (Received value) (sent (deliver t' m c dst value))
    delivered-Received t' m p own others id = elim (ℕ_discrete dst j) [
      | yes same ↦ inr (
        ap (λ k. (t.envs k).env_ipc_recving) (sym same) ∙ waits,
        p,
        subst (λ k. (deliver_table t').envs k ≡ got value (t.envs c).env_id p (t.envs k)) same
            (update_self t'.envs dst _
              ∙ ap (λ (e : Env). got value (t'.envs c).env_id e.env_ipc_perm e) own
              ∙ ap (λ i. got value i p (t.envs dst)) id),
      )
      | no other ↦ inl (update_ne t'.envs dst _ j other ∙ others other)
    ]
      where
        deliver_table : Table → Table
        deliver_table t' =
            set_env t' dst (got value (t'.envs c).env_id (t'.envs dst).env_ipc_perm (t'.envs dst))

    perm_id : (p : ℕ) → ((set_ipc_perm t dst p).envs c).env_id ≡ (t.envs c).env_id
    perm_id p = elim (ℕ_discrete dst c) [
      | yes same ↦
          subst (λ k. ((set_ipc_perm t dst p).envs k).env_id ≡ (t.envs k).env_id) same
            (ap (λ (e : Env). e.env_id) (update_self t.envs dst _))
      | no other ↦ ap (λ (e : Env). e.env_id) (update_ne t.envs dst _ c other)
    ]

    perm-Received :
        (m : Pages) (p : ℕ)
        → Ends j (Received value) (sent (deliver (set_ipc_perm t dst p) m c dst value))
    perm-Received m p =
        delivered-Received (set_ipc_perm t dst p) m p (update_self t.envs dst _)
          (λ other. update_ne t.envs dst _ j other) (perm_id p)

    mapping-Received :
        (srcva : ℕ) (m : Pages) (perm : ℕ)
        → Ends j (Received value) (sent (send_mapping npages t c dst value srcva m perm))
    mapping-Received srcva m perm =
        let to = (t.envs dst).env_pgdir in
        let dstva = (t.envs dst).env_ipc_dstva in
        let last = λ (m : Pages). deliver (set_ipc_perm t dst perm) m c dst value in
        let mapped =
          λ (m : Pages). env_page_map npages m (t.envs c).env_pgdir srcva to dstva perm in
        let allocated = env_page_alloc npages m to dstva perm in
        let rest = λ (m : Pages). or_return t (mapped m) last in
        if-Ends (Received value) (dstva == 0) (deliver t m c dst value) (or_return t allocated rest)
          (delivered-Received t m (t.envs dst).env_ipc_perm refl (λ other. refl) refl)
          (or_return-Ends (Received value) allocated rest (inl refl) (λ m'.
            or_return-Ends (Received value) (mapped m') last (inl refl)
              (λ m''. perm-Received m'' perm)))

    entry-Received :
        (srcva : ℕ) (m : Pages) (perm : ℕ) (found : Option (ℕ × Slot))
        → Ends j (Received value) (sent (send_entry npages t c dst value srcva m perm found))
    entry-Received srcva m perm none = tt
    entry-Received srcva m perm (some (page, srcpte)) =
        if-Ends (Received value) (not (entry m srcpte == 0) && not (has (entry m srcpte) pte_p)) _ _
          (inl refl)
          (if-Ends (Received value) (has perm pte_w && not (has (entry m srcpte) pte_w)) _ _
            (inl refl) (mapping-Received srcva m (bit_or perm (pte_u + pte_p))))

    from-Received :
        (srcva : ℕ) (m : Pages) (perm : ℕ)
        → Ends j (Received value) (sent (send_from npages t m (some c) dst value srcva perm))
    from-Received srcva m perm = if-Ends (Received value) (leb utop srcva) _ _ (perm-Received m 0) (
        if-Ends (Received value) (not (srcva % pgsize == 0)) _ _ (inl refl) (
          bind-Ends (Received value) (page_lookup npages m (t.envs c).env_pgdir srcva) _
            (entry-Received srcva m perm)))

  send_to-Received :
      (npages : ℕ) (m : Pages) (l : Lookup) (value srcva perm : ℕ)
      → Ends j (Received value) (sent (send_to npages t m l value srcva perm))
  send_to-Received npages m (Lookup.stored (some dst)) value srcva perm =
      elim (Bool-cases (t.envs dst).env_ipc_recving) [
        | inl waits ↦ rw waits (
            subst
              (λ o. Ends j (Received value) (sent (send_from npages t m o dst value srcva perm)))
              (sym cur) (from-Received npages dst value waits srcva m perm))
        | inr busy ↦ rw busy (inl refl)
      ]
  send_to-Received npages m (Lookup.stored none) value srcva perm = tt
  send_to-Received npages m Lookup.bad_env value srcva perm = inl refl
  send_to-Received npages m Lookup.fault value srcva perm = tt

  pub send-Received :
      (npages : ℕ) (m : Pages) (envid value srcva perm : ℕ)
      → Ends j (Received value) (sent (sys_ipc_try_send npages t m envid value srcva perm))
  unfolding sys_ipc_try_send
  send-Received npages m envid value srcva perm =
      send_to-Received npages m (envid2env t envid false) value srcva perm
