-- ===== src/Kern/Sched.antt =====
-- sched/kern/sched.c: the scheduler, its two policies and its statistics.
-- A call of `sched_yield` ends in one of three ways: an environment runs, the CPU halts, or the
-- kernel monitor takes over. The policy, chosen by a compile-time macro in C, is an argument.
pub mod Stats
pub mod History
pub mod RoundRobin
pub mod Rotation
pub mod Priorities
pub mod Selection
pub mod Running
pub mod Ranges
pub mod Choice
pub mod Yield
pub mod Tests
