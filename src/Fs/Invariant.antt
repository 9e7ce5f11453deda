-- ===== src/Fs/Invariant.antt =====
-- fisopfs/fisopfs.c: the handlers that add and remove nodes, and all handlers together.
use sistemas_operativos_1c.Base.{ℕ, ◌^◌, ◌<◌, List, Option, none, some, Array}
use sistemas_operativos_1c.Fs.Inode.{Inode}
use sistemas_operativos_1c.Fs.Ops.{System, Outcome}
use sistemas_operativos_1c.Fs.Handlers.{
  fisopfs_mkdir, fisopfs_create, fisopfs_read, fisopfs_write, fisopfs_unlink, fisopfs_rmdir,
  fisopfs_open, fisopfs_truncate, fisopfs_utimens,
}
use sistemas_operativos_1c.Fs.Sound.{Sound}

abbrev SoundNew : Option Inode → Type 0
SoundNew none = Unit {0}
SoundNew (some n) = Sound n

-- A call of a handler that can change the tree. A size is an `off_t`, which is not negative here.
pub data Request : Type 0 where
  mkdir create : (path : List ℕ) → (mode : ℕ) → Request
  read : (path : List ℕ) → (size offset : ℕ) → Request
  write : (path buf : List ℕ) → (offset : ℕ) → Request
  unlink rmdir : (path : List ℕ) → Request
  open_file : (path : List ℕ) → (flags : ℕ) → Request
  truncate : (path : List ℕ) → (size : ℕ) → size < 2 ^ 63 → Request
  utimens : (path : List ℕ) → (acceso modificacion : ℕ) → Request

abbrev pub handle : Array ℕ → System → Request → Outcome
handle basura s (Request.mkdir path mode) = fisopfs_mkdir s path mode
handle basura s (Request.create path mode) = fisopfs_create s path mode
handle basura s (Request.read path size offset) = fisopfs_read s path size offset
handle basura s (Request.write path buf offset) = fisopfs_write basura s path buf offset
handle basura s (Request.unlink path) = fisopfs_unlink s path
handle basura s (Request.rmdir path) = fisopfs_rmdir s path
handle basura s (Request.open_file path flags) = fisopfs_open s path flags
handle basura s (Request.truncate path size low) = fisopfs_truncate s path size
handle basura s (Request.utimens path acceso modificacion) =
    fisopfs_utimens s path acceso modificacion
