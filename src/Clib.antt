-- ===== src/Clib.antt =====
-- sched/lib/string.c and sched/lib/printfmt.c: the routines on memory, strings and numbers that the kernel
-- and its programs share.
pub mod Memory
pub mod Moves
pub mod Strtol
pub mod Numerals
pub mod Printnum
pub mod Printf
pub mod Text
pub mod Bounded
pub mod Tests
