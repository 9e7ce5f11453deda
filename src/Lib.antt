-- ===== src/Lib.antt =====
-- Models of the programs of this repository, and the theorems that make them correct.
--
-- The repository holds four programs. `sched` is a small kernel in the style of JOS, of which the scheduler
-- is the part written for it; `fisopfs` is a file system in user space behind FUSE; `shell` is a command
-- interpreter; `fork` holds two exercises on processes.
--
-- Kern models the kernel.
--   Kern/Env.antt        sched/inc/env.h and sched/kern/env.c: struct Env, the table, envid2env, env_init,
--                        env_run. A pointer into envs is an index, one that may be null an Option.
--   Kern/Alloc.antt      env_alloc, env_free and env_destroy; FreeList and Identifiers prove about them.
--   Kern/Pages.antt      sched/kern/pmap.c: page_init, page_alloc, page_free and page_decref, where a page is
--                        its number and a panic is none; PageList proves about the free list.
--   Kern/Paging.antt     the rest of sched/kern/pmap.c that user memory needs: pgdir_walk, page_lookup,
--                        page_insert and page_remove, over tables of two levels that lie in the bytes of pages;
--                        the children prove about them. Paging/Space says how the processor reads the tables
--                        and when they are in order, for addresses below UTOP; Entries reads after writes; Walk, NewTable
--                        and Walked follow pgdir_walk; Mapped, Remove and Insert the three others; Taken a new page.
--                        Paging/UserMem: user_mem_check, with its loop; UserMem/Sound proves about it.
--   Kern/Syscall.antt    sched/kern/syscall.c: the system calls on environments, as functions from the table
--                        to a table and a result.
--   Kern/PageCalls.antt  the calls of the same file that use page tables: sys_page_alloc, sys_page_map,
--                        sys_page_unmap, sys_ipc_try_send and sys_env_set_pgfault_upcall. Its children prove:
--                        NewPage (a page is allocated), Reasons and Refusals (errors), Permitted (success), Messages
--                        (sending and receiving).
--   Kern/Dispatch.antt   syscall itself, with every case; Isolation and its children prove what a call cannot change.
--                        A call of sched_yield ends the model of a call.
--   Kern/Console.antt    sched/kern/console.c: the buffer of input characters; Queue proves about it. Display is
--                        cga_putc, Keys the keyboard with its tables, Letters a theorem about them.
--   Kern/Errors.antt     the error codes and the addresses that the kernel compares with.
--   Kern/Sched/...       sched/kern/sched.c. Stats: struct sched_stats and its functions. RoundRobin and
--                        Priorities: the two searches of sched_yield. Yield: sched_yield and sched_halt as
--                        a whole, for a policy that C takes from a macro. The other files prove: History
--                        (the ring of runs), Rotation (waiting), Selection and Choice (who runs), Running
--                        (one environment runs), Ranges (priorities and waiting times).
-- A call of sched_yield never returns in C; here it returns the kernel's state and how the call ends: an
-- environment runs, the CPU halts, or the monitor takes over. Counters wrap at 2^32. The kernel lock, other
-- CPUs, the TLB, and the registers and page directory that env_run loads are not modelled. An environment's
-- env_pgdir is the page of its directory, and the number of pages is an argument of what depends on it. The loop
-- of user_mem_check has as many rounds as there are pages from its first to its last address.
--
-- Fs models fisopfs/fisopfs.c and fisopfs/fisopfs.h.
--   Fs/Inode.antt        struct inode as a tree.
--   Fs/Bytes, Fs/Disk    guardar_inode and cargar_inode over the bytes of the image; RoundTrip and
--                        Termination prove about them.
--   Fs/Path, Fs/Tree     strtok, strrchr, buscar_inode's walk, and writes through a pointer to a node.
--   Fs/Ops, Fs/Handlers  crear_inode, buscar_inode, buscar_padre, agregar_hijo, eliminar_inode, guardar_fs,
--                        cargar_fs, and one function per FUSE handler, named as in C.
--   Fs/Contents, Writes, Files  prove about reads and writes; Descent and Dirs about new nodes, Removal about
--                        removed ones, Remount about the image across a mount, Sound, Handled and Invariant about every handler.
-- A handler maps the system (the tree, the image, the clock and the user) to a new system and an answer.
-- Access outside a buffer is the result `fault`. cargar_inode recurses on what the image says, so its model
-- has fuel: 2 n + 1 for an image of n bytes, which is enough for every image. What realloc leaves in new
-- memory is an argument. Errors of the disk and of allocation, and debug output, are not modelled.
--
-- Shell models the shell: the parser in shell/parsing.c with createcmd.c and block_contains of utils.c, exec.c,
-- and the loop over lines in sh.c, runcmd.c, builtin.c, readline.c and printstatus.c.
--   Shell/Types, Shell/Parsing  struct execcmd, backcmd and pipecmd, and one function per function of C; the
--                        overflow of a fixed array is a fault.
--   Shell/Words, Line, Pipeline, Termination  prove about words, simple commands, pipes and fuel. parse_line
--                        has fuel: one unit more than the line has bytes is enough.
--   Shell/Descriptors    what the system calls do to a table of descriptors; which of them succeed is an argument.
--   Shell/Exec           exec_cmd: a command becomes a tree of processes; its children prove about the variables
--                        (Settings) and compare it with a description by streams (Wired).
--   Shell/Builtin        cd, pwd, exit and history, and the state of the shell.
--   Shell/Session        run_cmd and run_shell, which takes one unit of fuel for each line;
--                        Commands proves about typed lines, Termination about the fuel.
--
-- Clib models sched/lib/string.c and sched/lib/printfmt.c, which kernel and user programs share.
--   Clib/Memory, Text    routines on memory (an array of bytes, in which a pointer is an index) and on strings;
--                        Moves and Bounded prove about them.
--   Clib/Strtol.antt     strtol, whose values wrap at 2^32; Numerals proves about it.
--   Clib/Printnum.antt   printnum, with fuel num + 1, and the two together.
--   Clib/Printf.antt     vprintfmt and vsnprintf: a format, what is printed and the arguments are lists. One unit of
--                        fuel more than the format has bytes is enough; Printf/Pieces proves about formats.
--
-- Base holds what the models share: Boolean tests, lists over native numbers, arrays as functions, counting
-- loops with their invariant rule, signed integers, chains of steps that may fail, and laws of bit operations.
--
-- Not modelled: the kernel's static mappings and its tests of itself (boot_map_region, mem_init, check_...), the load
-- of programs, traps, the programming of devices, start-up and locks, what the shell prints besides the output of
-- pwd, its handler of SIGCHLD, user programs, and the process exercises of `fork`, which are calls of the operating
-- system.
pub mod Base
pub mod Clib
pub mod Fs
pub mod Kern
pub mod Shell
