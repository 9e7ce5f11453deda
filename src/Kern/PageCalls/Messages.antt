-- ===== src/Kern/PageCalls/Messages.antt =====
-- sched/kern/syscall.c: sys_ipc_recv and sys_ipc_try_send together.
use sistemas_operativos_1c.Base.{
  ℕ, ◌%◌, ◌≤◌, ◌<◌, ◌≡◌, ◌≢◌, refl, sym, ap, ◌∙◌, Bool, true, false, ◌||◌, not, some, update,
  update_self, update_ne, leb, arith, ◌==◌, if◌then◌else◌,
}
use sistemas_operativos_1c.Base.Int.{pos}
use sistemas_operativos_1c.Kern.Errors.{e_ipc_not_recv, utop, pgsize}
use sistemas_operativos_1c.Kern.Env.{Env, Status, Table, Lookup, envx, envid2env, is_free}
use sistemas_operativos_1c.Kern.Pages.{Pages}
use sistemas_operativos_1c.Kern.Syscall.{sys_ipc_recv, set_env, Result, Effect}
use sistemas_operativos_1c.Kern.PageCalls.{
  Sending, deliver, set_ipc_perm, send_from, send_to, sys_ipc_try_send,
}

-- The entry of an environment that waits for a message.
abbrev pub waiting : Env → (dstva : ℕ) → Env
waiting e dstva = record e {
  env_ipc_recving = true;
  env_ipc_dstva = dstva;
  env_status = Status.not_runnable;
}

-- The same entry with the message in it.
abbrev pub received : Env → (value from : ℕ) → Env
received e value from = record e {
  env_ipc_from = from;
  env_ipc_recving = false;
  env_ipc_value = value;
  env_ipc_perm = 0;
  env_status = Status.runnable;
}

recv_lem :
    (t : Table) (r dstva : ℕ)
    → t.curenv ≡ some r
    → dstva < utop
    → dstva % pgsize ≡ 0
    → sys_ipc_recv t dstva ≡ (set_env t r (waiting (t.envs r) dstva), Result.yields)
unfolding sys_ipc_recv
recv_lem t r dstva cur low aligned =
    let fits : (leb utop dstva || not (dstva % pgsize == 0)) ≡ false = ground arith in
    rw (cur, fits) refl

lookup_lem :
    (t : Table) (envid : ℕ)
    → envid ≢ 0
    → is_free (t.envs (envx envid)).env_status ≡ false
    → (t.envs (envx envid)).env_id ≡ envid
    → envid2env t envid false ≡ Lookup.stored (some (envx envid))
unfolding envid2env
lookup_lem t envid real used own =
    let real' : (envid == 0) ≡ false = ground arith in
    let own' : ((t.envs (envx envid)).env_id == envid) ≡ true = ground arith in
    rw (real', used, own') refl

module _ (npages : ℕ) (t : Table) (m : Pages) (envid value srcva perm : ℕ) where
  -- A message without a page to an environment that waits.
  send_lem :
      (c : ℕ)
      → t.curenv ≡ some c
      → envid2env t envid false ≡ Lookup.stored (some (envx envid))
      → (t.envs (envx envid)).env_ipc_recving ≡ true
      → utop ≤ srcva
      → sys_ipc_try_send npages t m envid value srcva perm
        ≡ deliver (set_ipc_perm t (envx envid) 0) m c (envx envid) value
  unfolding sys_ipc_try_send
  send_lem c cur found recving high =
      let high' : leb utop srcva ≡ true = ground arith in
      ap (λ l. send_to npages t m l value srcva perm) found
      ∙ ap
          (λ (b : Bool).
            if not b
            then some (t, m, e_ipc_not_recv)
            else send_from npages t m t.curenv (envx envid) value srcva perm)
          recving
      ∙ ap (λ o. send_from npages t m o (envx envid) value srcva perm) cur
      ∙ rw high' refl

  not_recv_lem :
      envid2env t envid false ≡ Lookup.stored (some (envx envid))
      → (t.envs (envx envid)).env_ipc_recving ≡ false
      → sys_ipc_try_send npages t m envid value srcva perm ≡ some (t, m, e_ipc_not_recv)
  unfolding sys_ipc_try_send
  not_recv_lem found idle =
      ap (λ l. send_to npages t m l value srcva perm) found
      ∙ ap
          (λ (b : Bool).
            if not b
            then some (t, m, e_ipc_not_recv)
            else send_from npages t m t.curenv (envx envid) value srcva perm)
          idle

-- What the table holds after the receiver `r` was blocked in `t` and `c` has sent it `value`.
abbrev pub Delivered :
    (npages : ℕ) → (t : Table) → Pages → (envid c value dstva : ℕ) → Sending → Type 0
Delivered npages t m envid c value dstva o =
    (t' : Table) × (o ≡ some (t', m, pos 0))
    × (t'.envs (envx envid)
        ≡ received (waiting (t.envs (envx envid)) dstva) value (t.envs c).env_id)
    × ((j : ℕ) → j ≢ envx envid → t'.envs j ≡ t.envs j)
    × ((value' srcva' perm' : ℕ)
        → sys_ipc_try_send npages t' m envid value' srcva' perm' ≡ some (t', m, e_ipc_not_recv))

-- The environment `c` runs after the one that waits has yielded.
abbrev pub blocked : Table → (dstva c : ℕ) → Table
blocked t dstva c = record (sys_ipc_recv t dstva).0 { curenv = some c }

module _ (npages : ℕ) (t : Table) (m : Pages) (envid c dstva value srcva perm : ℕ)
    (receiver : t.curenv ≡ some (envx envid)) (own : (t.envs (envx envid)).env_id ≡ envid)
    (real : envid ≢ 0) (other : c ≢ envx envid) (low : dstva < utop) (aligned : dstva % pgsize ≡ 0)
    (high : utop ≤ srcva) where
  abbrev r : ℕ
  r = envx envid

  abbrev asleep : Table
  asleep = record t { envs = update t.envs r (waiting (t.envs r) dstva); curenv = some c }

  abbrev awake : Table
  awake = set_env (set_ipc_perm asleep r 0) r (record ((set_ipc_perm asleep r 0).envs r) {
    env_ipc_from = ((set_ipc_perm asleep r 0).envs c).env_id;
    env_ipc_recving = false;
    env_ipc_value = value;
    env_status = Status.runnable;
  })

  asleep_self : asleep.envs (envx envid) ≡ waiting (t.envs (envx envid)) dstva
  asleep_self = update_self t.envs r (waiting (t.envs r) dstva)

  asleep_ne : (j : ℕ) → j ≢ envx envid → asleep.envs j ≡ t.envs j
  asleep_ne j ne = update_ne t.envs r (waiting (t.envs r) dstva) j (λ e. ne (sym e))

  perm_self : (set_ipc_perm asleep r 0).envs r ≡ record (asleep.envs r) { env_ipc_perm = 0 }
  perm_self = update_self asleep.envs r _

  perm_ne : (j : ℕ) → j ≢ envx envid → (set_ipc_perm asleep r 0).envs j ≡ t.envs j
  perm_ne j ne = update_ne asleep.envs r _ j (λ e. ne (sym e)) ∙ asleep_ne j ne

  awake_self :
      awake.envs (envx envid)
      ≡ received (waiting (t.envs (envx envid)) dstva) value (t.envs c).env_id
  awake_self =
      update_self (set_ipc_perm asleep r 0).envs r _
      ∙ ap
          (λ (e : Env). record e {
            env_ipc_from = ((set_ipc_perm asleep r 0).envs c).env_id;
            env_ipc_recving = false;
            env_ipc_value = value;
            env_status = Status.runnable;
          })
          (perm_self ∙ ap (λ (e : Env). record e { env_ipc_perm = 0 }) asleep_self)
      ∙ ap (λ (e : Env). received (waiting (t.envs (envx envid)) dstva) value e.env_id)
          (perm_ne c other)

  found :
      (t' : Table) (e : Env)
      → t'.envs (envx envid) ≡ e
      → is_free e.env_status ≡ false
      → e.env_id ≡ envid
      → envid2env t' envid false ≡ Lookup.stored (some (envx envid))
  found t' e same used id =
      lookup_lem t' envid real (ap (λ e'. is_free e'.env_status) same ∙ used)
        (ap (λ e'. e'.env_id) same ∙ id)

  sent : sys_ipc_try_send npages asleep m envid value srcva perm ≡ some (awake, m, pos 0)
  sent =
      send_lem npages asleep m envid value srcva perm c refl (found asleep _ asleep_self refl own)
        (ap (λ e. e.env_ipc_recving) asleep_self) high

  -- After the receiver has waited for a message without a page, a message to it from another environment
  -- arrives: it is runnable again and has the value and the sender's identifier, no other environment and
  -- no page is changed, and a second message is refused until it waits again.
  pub send-recv :
      Delivered npages t m envid c value dstva
        (sys_ipc_try_send npages (blocked t dstva c) m envid value srcva perm)
  send-recv =
      let waits =
        ap (λ (s : Effect). record s.0 { curenv = some c })
          (recv_lem t (envx envid) dstva receiver low aligned) in
      (
        awake,
        ap (λ t'. sys_ipc_try_send npages t' m envid value srcva perm) waits ∙ sent,
        awake_self,
        λ j ne. update_ne (set_ipc_perm asleep r 0).envs r _ j (λ e. ne (sym e)) ∙ perm_ne j ne,
        λ value' srcva' perm'.
            not_recv_lem npages awake m envid value' srcva' perm'
              (found awake _ awake_self refl own) (ap (λ e. e.env_ipc_recving) awake_self),
      )
