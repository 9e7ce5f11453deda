-- ===== src/Kern/Tests.antt =====
-- sched/kern/env.c and sched/kern/syscall.c: the theorems of the environments on a table that was just
-- initialised, and on one where the third entry runs and the first is its child.
use sistemas_operativos_1c.Base.{
  true, leb, ◌+◌, ◌≡◌, refl, ◌⊎◌, inl, inr, false, none, some, [], ◌∷◌, Array, ◌==◌, if◌then◌else◌,
  arith,
}
use sistemas_operativos_1c.Base.Int.{pos}
use sistemas_operativos_1c.Kern.Env.{Env, Status, Table, Lookup, envid2env}
use sistemas_operativos_1c.Kern.Alloc.{env_alloc, new_id}
use sistemas_operativos_1c.Kern.FreeList.{AllocatesFrom, FreeList, NotIn, env_alloc-FreeList}
use sistemas_operativos_1c.Kern.Identifiers.{Bears, env_alloc-envid2env}
use sistemas_operativos_1c.Kern.Dispatch.{Call, Surroundings, syscall}
use sistemas_operativos_1c.Kern.Isolation.{May}
use sistemas_operativos_1c.Kern.Isolation.Kept.{Ends}
use sistemas_operativos_1c.Kern.Isolation.Calls.{syscall-isolation}
use sistemas_operativos_1c.Kern.Pages.{PageInfo, Pages, page_alloc}
use sistemas_operativos_1c.Kern.PageList.{FreePages, Allocates, page_alloc-FreePages}

abbrev blank : Env
blank = record {
  env_link = none;
  env_id = 0;
  env_parent_id = 0;
  env_status = Status.free;
  env_runs = 0;
  env_pgdir = 0;
  env_pgfault_upcall = 0;
  env_ipc_recving = false;
  env_ipc_dstva = 0;
  env_ipc_value = 0;
  env_ipc_from = 0;
  env_ipc_perm = 0;
  env_priority = pos 0;
  env_wait_time = 0;
}

-- Entry 5 is free and alone on the list; it bore the identifier 0x1005. The others run or wait.
abbrev used : Array Env
used i = if i == 5 then record blank { env_id = 4101 } else record blank {
  env_id = 4096 + i;
  env_parent_id = if i == 0 then 4098 else 0;
  env_status = Status.runnable;
}

abbrev nearly_full : Table
nearly_full = record { envs = used; env_free_list = some 5; curenv = some 2 }

one_free : FreeList nearly_full (5 ∷ [])
one_free = (refl, omega arith, refl, tt, refl)

env_alloc-FreeList_example :
    AllocatesFrom nearly_full 4098 77 (5 ∷ []) (env_alloc nearly_full 4098 (some 77))
env_alloc-FreeList_example = env_alloc-FreeList nearly_full (5 ∷ []) 4098 77 one_free

five_named : Bears (used 5) 5
five_named = inr (record { index = omega arith; above = omega arith; below = omega arith })

env_alloc-envid2env_example :
    (envid2env (env_alloc nearly_full 4098 (some 77)).0 (new_id 4101 5) false
      ≡ Lookup.stored (some 5))
    × (((used 5).env_id ≡ 0)
        ⊎ (envid2env (env_alloc nearly_full 4098 (some 77)).0 4101 false ≡ Lookup.bad_env))
env_alloc-envid2env_example =
    env_alloc-envid2env nearly_full 5 4098 77 refl (omega arith) five_named

stranger : ¬ (May nearly_full 2 7)
stranger (inl same) = absurd (omega arith)
stranger (inr child) = absurd (omega arith)

-- Pages 2 and 1 are free, in this order; every other page has one reference, but page 3 has none.
abbrev small_pages : Array PageInfo
small_pages i = record {
  pp_link = if i == 2 then some 1 else none;
  pp_ref = if leb i 3 then 0 else 1;
}

abbrev small_memory : Pages
small_memory = record { pages = small_pages; page_free_list = some 2; contents = λ i j. 7 }

two_free : FreePages small_memory (2 ∷ 1 ∷ [])
two_free = (refl, refl, (λ e. absurd (omega arith), tt), (refl, refl, tt, refl))

page_alloc-FreePages_example :
    Allocates small_memory true (2 ∷ 1 ∷ []) (page_alloc small_memory true)
page_alloc-FreePages_example = page_alloc-FreePages small_memory true (2 ∷ 1 ∷ []) two_free

three_out : NotIn 3 (2 ∷ 1 ∷ [])
three_out = (λ e. absurd (omega arith), (λ e. absurd (omega arith), tt))

five_out : NotIn 5 (2 ∷ 1 ∷ [])
five_out = (λ e. absurd (omega arith), (λ e. absurd (omega arith), tt))

abbrev outside : Surroundings
outside = record { setup = none; char = 0; addr = 0 }

syscall-isolation_example :
    Ends 7 (λ e. e ≡ used 7) (syscall 4 nearly_full small_memory outside (Call.destroy_env 4096))
syscall-isolation_example =
    syscall-isolation 4 nearly_full small_memory outside 2 7 (Call.destroy_env 4096) refl stranger
