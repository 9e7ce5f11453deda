-- ===== src/Kern/PageTests.antt =====
-- Runs of the page tables and of the calls on pages.
use sistemas_operativos_1c.Base.{
  ℕ, ◌+◌, ◌/◌, ◌<◌, ◌≡◌, ◌≢◌, refl, ap, true, false, [], ◌∷◌, none, some, Array, leb, arith, ◌==◌,
  if◌then◌else◌,
}
use sistemas_operativos_1c.Base.Int.{pos}
use sistemas_operativos_1c.Kern.FreeList.{NotIn}
use sistemas_operativos_1c.Kern.Pages.{Pages}
use sistemas_operativos_1c.Kern.PageList.{FreePages}
use sistemas_operativos_1c.Kern.Paging.{
  load_word, entry, page_insert, page_remove, page_lookup, pgdir_walk, pa2page,
}
use sistemas_operativos_1c.Kern.Paging.Space.{IsSpace, mapped_entry}
use sistemas_operativos_1c.Kern.Paging.Mapped.{IsMapping}
use sistemas_operativos_1c.Kern.Paging.Remove.{Unmapped, page_remove-Unmapped}
use sistemas_operativos_1c.Kern.Paging.Insert.{Inserted, page_insert-Inserted}
use sistemas_operativos_1c.Kern.Errors.{e_inval}
use sistemas_operativos_1c.Kern.Env.{Status, Table, Lookup, envid2env}
use sistemas_operativos_1c.Kern.Paging.UserMem.{user_mem_check}
use sistemas_operativos_1c.Kern.Paging.UserMem.Sound.{user_mem_check_wraps}
use sistemas_operativos_1c.Kern.PageCalls.{
  check_perm, page_call, page_alloc_call, page_unmap_call, sys_page_unmap, sys_page_alloc,
  sys_ipc_try_send,
}
use sistemas_operativos_1c.Kern.PageCalls.NewPage.{Allocated, user_perm, sys_page_alloc-Allocated}
use sistemas_operativos_1c.Kern.PageCalls.Permitted.{Permitted, page_call-Permitted}
use sistemas_operativos_1c.Kern.PageCalls.Refusals.{Documented, page_call-Documented}
use sistemas_operativos_1c.Kern.PageCalls.Messages.{Delivered, blocked, send-recv}

-- Of 64 pages, 2 and 1 are free, in this order; page 5 is a directory, which maps itself at
-- UVPT and whose first entry is the table in page 6, in which the fourth entry maps page 4 at 0x3000.
abbrev page_bytes : Array (Array ℕ)
page_bytes p j =
    if p == 5
    then (if j == 0
        then 7
        else (if j == 1 then 0x60 else (if j == 3828 then 5 else (if j == 3829 then 0x50 else 0))))
    else (if p == 6 then (if j == 12 then 7 else (if j == 13 then 0x40 else 0)) else 0)

abbrev mapped_memory : Pages
mapped_memory = record {
  pages =
      λ i. record { pp_link = if i == 2 then some 1 else none; pp_ref = if leb i 3 then 0 else 1 };
  page_free_list = some 2;
  contents = page_bytes;
}

two_free : FreePages mapped_memory (2 ∷ 1 ∷ [])
two_free = (refl, refl, (λ e. absurd (omega arith), tt), (refl, refl, tt, refl))

not_free : (q : ℕ) → 2 < q → NotIn q (2 ∷ 1 ∷ [])
not_free q h = (λ e. absurd (omega arith), (λ e. absurd (omega arith), tt))

directory_word :
    (i : ℕ)
    → entry mapped_memory (5, i) ≡ (if i == 0 then 0x6007 else (if i == 957 then 0x5005 else 0))
unfolding load_word
directory_word i = ground arith

first_only :
    (i : ℕ) → i < 955 → entry mapped_memory (5, i) ≢ 0 → entry mapped_memory (5, i) ≡ 0x6007
first_only i low there = ground (arith, directory_word i)

mapped_space : IsSpace 64 mapped_memory 5 (2 ∷ 1 ∷ [])
mapped_space = record {
  free = two_free;
  in_range = (omega arith, (omega arith, tt));
  root_out = not_free 5 (omega arith);
  self = omega (arith, directory_word 957);
  tables = λ i low there.
      let word = first_only i low there in
      (
        omega (arith, word),
        omega (arith, word),
        λ e. absurd (omega (arith, word)),
        not_free (entry mapped_memory (5, i) / 4096) (omega (arith, word)),
      );
  distinct =
      λ i j low_i low_j ne there_i there_j same. ground (arith, directory_word i, directory_word j);
}

page_4 : (pte : ℕ) → pte ≡ 0x4007 → IsMapping 64 mapped_memory 5 (2 ∷ 1 ∷ []) pte
page_4 pte same there =
    let number : pte / 4096 ≡ 4 = omega arith in
    (
      omega arith,
      (λ e. absurd (omega arith), λ i low h e. absurd (omega (arith, first_only i low h))),
      (
        0,
        ap (λ q. (mapped_memory.pages q).pp_ref) number,
        omega arith,
        ap (λ q. (mapped_memory.pages q).pp_link) number,
        not_free (pte / 4096) (omega arith),
      ),
    )

at_0x3000 : IsMapping 64 mapped_memory 5 (2 ∷ 1 ∷ []) (mapped_entry mapped_memory 5 0x3000)
unfolding load_word
at_0x3000 = page_4 (mapped_entry mapped_memory 5 0x3000) refl

page_remove-Unmapped_example :
    Unmapped 64 mapped_memory 5 0x3000 (2 ∷ 1 ∷ []) (page_remove 64 mapped_memory 5 0x3000)
page_remove-Unmapped_example =
    page_remove-Unmapped 64 mapped_memory 5 0x3000 (2 ∷ 1 ∷ []) mapped_space (omega arith) at_0x3000

page_insert-Inserted_example :
    Inserted 64 mapped_memory 5 7 0x3000 6 (2 ∷ 1 ∷ []) (page_insert 64 mapped_memory 5 7 0x3000 6)
page_insert-Inserted_example =
    page_insert-Inserted 64 mapped_memory 5 7 0x3000 6 (2 ∷ 1 ∷ []) (omega arith) (omega arith)
      (omega arith) (omega arith) (not_free 7 (omega arith)) (omega arith) mapped_space at_0x3000

user_mem_check_wraps_example :
    user_mem_check 64 mapped_memory 5 0xfffff000 0x1000 4 9 ≡ some (pos 0, 9)
user_mem_check_wraps_example =
    user_mem_check_wraps 64 mapped_memory 5 0xfffff000 0x1000 4 9 (omega arith) (omega arith)
      (omega arith) (omega arith)

-- Environment 2 runs; all have the directory in page 5.
abbrev two_runs : Table
two_runs = record {
  envs = λ i. record {
    env_link = none;
    env_id = 4096 + i;
    env_parent_id = 0;
    env_status = Status.runnable;
    env_runs = 0;
    env_pgdir = 5;
    env_pgfault_upcall = 0;
    env_ipc_recving = false;
    env_ipc_dstva = 0;
    env_ipc_value = 0;
    env_ipc_from = 0;
    env_ipc_perm = 0;
    env_priority = pos 0;
    env_wait_time = 0;
  };
  env_free_list = none;
  curenv = some 2;
}

own_id : envid2env two_runs 4098 true ≡ Lookup.stored (some 2)
unfolding envid2env
own_id = refl

writable : check_perm (user_perm 2) none ≡ pos 0
unfolding check_perm
writable = refl

sys_page_alloc-Allocated_example :
    Allocated 64 mapped_memory 5 0x3000
      (user_perm 2)
      2
      (1 ∷ [])
      (sys_page_alloc 64 two_runs mapped_memory 4098 0x3000 2)
sys_page_alloc-Allocated_example =
    sys_page_alloc-Allocated 64 two_runs mapped_memory 4098 0x3000 2 2 2 (1 ∷ []) (omega arith)
      own_id (omega arith) (omega arith) (omega arith) writable mapped_space at_0x3000

unaligned :
    page_call 64 two_runs mapped_memory (page_alloc_call 4098 0x3001 2)
    ≡ some (mapped_memory, e_inval)
unfolding page_call
unaligned = refl

page_call-Documented_example :
    (mapped_memory ≡ mapped_memory)
    × Documented two_runs mapped_memory (page_alloc_call 4098 0x3001 2) e_inval
page_call-Documented_example =
    page_call-Documented 64 two_runs mapped_memory (page_alloc_call 4098 0x3001 2) mapped_memory 2
      unaligned (λ e. ground arith)

send-recv_example :
    Delivered 64 two_runs mapped_memory 4098 7 65 0x3000
      (sys_ipc_try_send 64 (blocked two_runs 0x3000 7) mapped_memory 4098 65 0xeec00000 0)
send-recv_example =
    send-recv 64 two_runs mapped_memory 4098 7 0x3000 65 0xeec00000 0 refl refl
      (λ e. absurd (omega arith)) (λ e. absurd (omega arith)) (omega arith) (omega arith)
      (omega arith)

nothing_there :
    page_call 64 two_runs mapped_memory (page_unmap_call 4098 0x5000) ≡ some (mapped_memory, pos 0)
unfolding page_call sys_page_unmap envid2env page_remove page_lookup pgdir_walk pa2page load_word
nothing_there = refl

page_call-Permitted_example : Permitted two_runs mapped_memory (page_unmap_call 4098 0x5000)
page_call-Permitted_example =
    page_call-Permitted 64 two_runs mapped_memory (page_unmap_call 4098 0x5000) mapped_memory 0
      nothing_there
