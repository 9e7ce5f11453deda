-- ===== src/Kern.antt =====
-- sched/kern: the kernel's environments, pages, system calls and scheduler.
pub mod Env
pub mod Alloc
pub mod FreeList
pub mod Identifiers
pub mod Errors
pub mod Pages
pub mod PageList
pub mod Paging
pub mod Syscall
pub mod PageCalls
pub mod Dispatch
pub mod Isolation
pub mod Console
pub mod Sched
pub mod Tests
pub mod PageTests
