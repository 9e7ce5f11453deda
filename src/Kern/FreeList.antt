-- ===== src/Kern/FreeList.antt =====
-- sched/kern/env.c: the list of free environments, as a list of their indices.
use sistemas_operativos_1c.Base.{
  ℕ, zero, suc, ◌+◌, ◌-◌, ◌<◌, ◌≡◌, ◌≢◌, refl, sym, ap, ◌∙◌, true, false, List, [], ◌∷◌, Option,
  none, some, Array, update, update_self, update_ne, subst, arith, count_up, count_up_inv,
}
use native.Mathlib.Decide.{ℕ_discrete}
use sistemas_operativos_1c.Base.Int.{pos}
use sistemas_operativos_1c.Kern.Env.{Env, Status, Table, nenv, is_free, init_env, env_init}
use sistemas_operativos_1c.Kern.Alloc.{
  Alloc, allocated, no_free_env, new_id, fresh_env, env_alloc, env_free, commit,
}

abbrev pub NotIn : ℕ → List ℕ → Type 0
NotIn i [] = Unit {0}
NotIn i (x ∷ xs) = (i ≢ x) × NotIn i xs

-- The links from `head` on run through the entries `xs`, which are free, lie in the table and differ.
abbrev pub Chain : Array Env → Option ℕ → List ℕ → Type 0
Chain envs head [] = head ≡ none
Chain envs head (i ∷ xs) =
    (head ≡ some i)
    × (i < nenv)
    × (is_free (envs i).env_status ≡ true)
    × NotIn i xs
    × Chain envs (envs i).env_link xs

abbrev pub FreeList : Table → List ℕ → Type 0
FreeList t xs = Chain t.envs t.env_free_list xs

-- Writes to other entries leave a chain alone.
Chain-update :
    (envs : Array Env) (head : Option ℕ) (xs : List ℕ) (i : ℕ) (e : Env)
    → NotIn i xs
    → Chain envs head xs
    → Chain (update envs i e) head xs
Chain-update envs head [] i e out h = h
Chain-update envs head (x ∷ xs) i e (ne, out) (first, low, free, differ, rest) =
    let same = update_ne envs i e x ne in
    (
      first,
      low,
      ap (λ v. is_free v.env_status) same ∙ free,
      differ,
      subst (λ l. Chain (update envs i e) l xs) (ap (λ v. v.env_link) (sym same))
          (Chain-update envs (envs x).env_link xs i e out rest),
    )

-- What `env_alloc` does for a free list `xs`: it fails and changes nothing where the list is empty, and
-- takes the first entry and leaves the others on the list where it is not. The entry becomes that of a new
-- environment.
abbrev pub AllocatesFrom : Table → (parent_id pgdir : ℕ) → List ℕ → Table × Alloc → Type 0
AllocatesFrom t parent_id pgdir [] r = r ≡ (t, no_free_env)
AllocatesFrom t parent_id pgdir (i ∷ xs) r =
    (r.1 ≡ allocated i)
    × FreeList r.0 xs
    × (r.0.envs i ≡ record (t.envs i) {
      env_id = new_id (t.envs i).env_id i;
      env_parent_id = parent_id;
      env_status = Status.runnable;
      env_runs = 0;
      env_pgdir = pgdir;
      env_pgfault_upcall = 0;
      env_ipc_recving = false;
      env_priority = pos 5;
      env_wait_time = 0;
    })

-- Where there is memory for a page directory, `env_alloc` takes the first entry of the free list, makes a
-- runnable environment of it, with a new identifier, the given parent and directory, no runs, no handler of
-- page faults, the highest priority and no waiting time, and leaves the others on the list; where the list
-- is empty it fails and changes nothing.
pub env_alloc-FreeList :
    (t : Table) (xs : List ℕ) (parent_id pgdir : ℕ)
    → FreeList t xs
    → AllocatesFrom t parent_id pgdir xs (env_alloc t parent_id (some pgdir))
unfolding env_alloc fresh_env
env_alloc-FreeList t [] parent_id pgdir first = ap (commit t parent_id (some pgdir)) first
env_alloc-FreeList t (i ∷ ys) parent_id pgdir (first, low, free, differ, rest) = rw first (
  refl,
  Chain-update t.envs (t.envs i).env_link ys i (fresh_env parent_id pgdir i (t.envs i)) differ rest,
  update_self t.envs i (fresh_env parent_id pgdir i (t.envs i)),
)

-- Freeing an environment that is not on the free list puts it in front of that list and keeps the
-- rest.
pub env_free-FreeList :
    (t : Table) (xs : List ℕ) (i : ℕ)
    → i < nenv
    → NotIn i xs
    → FreeList t xs
    → FreeList (env_free t i) (i ∷ xs)
unfolding env_free
env_free-FreeList t xs i low out h =
    let e : Env = record (t.envs i) {
      env_pgdir = 0;
      env_status = Status.free;
      env_link = t.env_free_list;
    } in
    let self = update_self t.envs i e in
    (
      refl,
      low,
      ap (λ v. is_free v.env_status) self,
      out,
      subst (λ l. Chain (update t.envs i e) l xs) (ap (λ v. v.env_link) (sym self))
          (Chain-update t.envs t.env_free_list xs i e out h),
    )

abbrev pub from : (first count : ℕ) → List ℕ
from first zero = []
from first (suc n) = first ∷ from (first + 1) n

NotIn-from : (i first n : ℕ) → i < first → NotIn i (from first n)
NotIn-from i first zero h = tt
NotIn-from i first (suc n) h = (λ e. absurd (omega arith), NotIn-from i (first + 1) n (omega arith))

abbrev Linked : ℕ → Array Env → Type 0
Linked i envs =
    (j : ℕ) → j < i → (is_free (envs j).env_status ≡ true) × ((envs j).env_link ≡ some (j + 1))

init_env-Linked : (i : ℕ) (envs : Array Env) → Linked i envs → Linked (i + 1) (init_env i envs)
unfolding init_env
init_env-Linked i envs h j low = elim (ℕ_discrete i j) [
  | yes same ↦
      let self =
        update_self envs i
          (record (envs i) { env_id = 0; env_status = Status.free; env_link = some (i + 1) }) in
      subst
        (λ k.
          (is_free (init_env i envs k).env_status ≡ true)
          × ((init_env i envs k).env_link ≡ some (k + 1)))
        same (ap (λ v. is_free v.env_status) self, ap (λ v. v.env_link) self)
  | no other ↦
      let keep =
        update_ne envs i
          (record (envs i) { env_id = 0; env_status = Status.free; env_link = some (i + 1) }) j
          other in
      let (free, link) = h j (omega arith) in
      (ap (λ v. is_free v.env_status) keep ∙ free, ap (λ v. v.env_link) keep ∙ link)
]

Chain-from :
    (envs : Array Env) (n i : ℕ)
    → i + suc n ≡ nenv
    → ((j : ℕ) → j < nenv → is_free (envs j).env_status ≡ true)
    → ((j : ℕ) → j + 1 < nenv → (envs j).env_link ≡ some (j + 1))
    → (envs (nenv - 1)).env_link ≡ none
    → Chain envs (some i) (from i (suc n))
Chain-from envs zero i e free link last =
    let here : i ≡ nenv - 1 = omega arith in
    (refl, omega arith, free i (omega arith), tt, ap (λ k. (envs k).env_link) here ∙ last)
Chain-from envs (suc n) i e free link last = (
  refl,
  omega arith,
  free i (omega arith),
  NotIn-from i (i + 1) (suc n) (omega arith),
  subst (λ l. Chain envs l (from (i + 1) (suc n))) (sym (link i (omega arith)))
      (Chain-from envs n (i + 1) (omega arith) free link last),
)

-- After `env_init` every entry of the table is on the free list, in the order of the table.
pub env_init-FreeList : (t : Table) → FreeList (env_init t) (from 0 nenv)
unfolding env_init
env_init-FreeList t = whole nenv refl
  where
    looped : Array Env
    looped = count_up nenv 0 init_env t.envs

    all : Linked nenv looped
    all =
        count_up_inv Linked init_env nenv 0 nenv t.envs refl
          (λ i envs low high h. init_env-Linked i envs h) (λ j low. absurd (omega arith))

    e : Env
    e = record (looped (nenv - 1)) { env_link = none }

    ended : Array Env
    ended = update looped (nenv - 1) e

    free_at : (j : ℕ) → j < nenv → is_free (ended j).env_status ≡ true
    free_at j low = elim (ℕ_discrete (nenv - 1) j) [
      | yes same ↦
          subst (λ k. is_free (ended k).env_status ≡ true) same
            (ap (λ v. is_free v.env_status) (update_self looped (nenv - 1) e)
              ∙ (all (nenv - 1) (omega arith)).0)
      | no other ↦
          ap (λ v. is_free v.env_status) (update_ne looped (nenv - 1) e j other) ∙ (all j low).0
    ]

    link_at : (j : ℕ) → j + 1 < nenv → (ended j).env_link ≡ some (j + 1)
    link_at j low =
        ap (λ v. v.env_link) (update_ne looped (nenv - 1) e j (λ same. absurd (omega arith)))
        ∙ (all j (omega arith)).1

    whole : (n : ℕ) → n ≡ nenv → Chain ended (some 0) (from 0 n)
    whole zero same = absurd (omega arith)
    whole (suc n) same =
        Chain-from ended n 0 (omega arith) free_at link_at
          (ap (λ v. v.env_link) (update_self looped (nenv - 1) e))
