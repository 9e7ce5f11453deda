-- ===== src/Fs.antt =====
-- fisopfs/: the file system that FUSE calls, its tree of inodes and its image on disk.
pub mod Inode
pub mod Bytes
pub mod Disk
pub mod RoundTrip
pub mod Termination
pub mod Path
pub mod Tree
pub mod Ops
pub mod Handlers
pub mod Contents
pub mod Writes
pub mod Files
pub mod Descent
pub mod Dirs
pub mod Removal
pub mod Remount
pub mod Sound
pub mod Handled
pub mod Invariant
pub mod Tests
