-- ===== src/Kern/Errors.antt =====
-- sched/inc/error.h, sched/inc/memlayout.h and sched/inc/mmu.h: the error codes that kernel functions return,
-- negated, and the addresses that they compare with.
use sistemas_operativos_1c.Base.{ℕ}
use sistemas_operativos_1c.Base.Int.{ℤ, negsuc}

abbrev pub e_bad_env : ℤ
e_bad_env = negsuc 1

abbrev pub e_inval : ℤ
e_inval = negsuc 2

abbrev pub e_no_mem : ℤ
e_no_mem = negsuc 3

abbrev pub e_no_free_env : ℤ
e_no_free_env = negsuc 4

abbrev pub e_fault : ℤ
e_fault = negsuc 5

abbrev pub e_ipc_not_recv : ℤ
e_ipc_not_recv = negsuc 6

abbrev pub utop : ℕ
utop = 0xeec00000

abbrev pub pgsize : ℕ
pgsize = 4096
