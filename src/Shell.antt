-- ===== src/Shell.antt =====
-- shell/: the parser of the command line, parsing.c with utils.c and createcmd.c, and its execution, exec.c.
pub mod Types
pub mod Parsing
pub mod Words
pub mod Line
pub mod Pipeline
pub mod Termination
pub mod Descriptors
pub mod Exec
pub mod Builtin
pub mod Session
pub mod Tests
