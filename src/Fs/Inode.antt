-- ===== src/Fs/Inode.antt =====
-- fisopfs/fisopfs.h: `inode_t`. No inode is in two directories, so the pointers form a tree, and the
-- flag `es_directorio` is the constructor. A name is its bytes, without the final null byte.
use sistemas_operativos_1c.Base.{ℕ, suc, List, Bool, true, false}

abbrev pub Name : Type 0
Name = List ℕ

abbrev pub max_filename_length : ℕ
max_filename_length = 64

pub record Meta : Type 0 where
  pub nombre : Name
  pub modo : ℕ
  pub usuario_id : ℕ
  pub grupo_id : ℕ
  pub tamano : ℕ
  pub acceso : ℕ
  pub modificacion : ℕ
  pub cambio_estado : ℕ
  pub enlaces : ℕ

-- `contenido` is the buffer of a file, and `Hijos` the array of a directory.
mutual
  pub data Inode : Type 0 where
    archivo : Meta → List ℕ → Inode
    directorio : Meta → Hijos → Inode

  pub data Hijos : Type 0 where
    vacio : Hijos
    hijo : Inode → Hijos → Hijos

abbrev pub meta : Inode → Meta
meta (archivo m contenido) = m
meta (directorio m hijos) = m

abbrev pub es_directorio : Inode → Bool
es_directorio (archivo m contenido) = false
es_directorio (directorio m hijos) = true

abbrev pub cantidad_hijos : Hijos → ℕ
cantidad_hijos vacio = 0
cantidad_hijos (hijo h hs) = suc (cantidad_hijos hs)
