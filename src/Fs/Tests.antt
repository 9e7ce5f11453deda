-- ===== src/Fs/Tests.antt =====
-- fisopfs/fisopfs.c: the theorems of the file system on a tree with two files and a directory.
use sistemas_operativos_1c.Base.{
  inl, false, done, exhausted, ℕ, ◌+◌, ◌*◌, ◌<◌, ◌≡◌, ◌≢◌, refl, true, none, some, List, [], ◌∷◌,
  ◌++◌, Array, arith, length,
}
use sistemas_operativos_1c.Fs.Inode.{Hijos, Name, Meta, Inode, archivo, directorio, vacio, hijo}
use sistemas_operativos_1c.Fs.Path.{tokens, same_name, split_last}
use sistemas_operativos_1c.Fs.Disk.{guardar_inode, cargar_inode}
use sistemas_operativos_1c.Fs.RoundTrip.{CamposCaben, Cabe}
use sistemas_operativos_1c.Fs.Termination.{cargar_inode-ne-exhausted, cargar_inode-guardar_inode}
use sistemas_operativos_1c.Fs.Tree.{recorrer, hijo_llamado}
use sistemas_operativos_1c.Fs.Ops.{System, Answer, buscar_inode}
use sistemas_operativos_1c.Fs.Handlers.{
  fisopfs_unlink, fisopfs_create, fisopfs_init, fisopfs_destroy, fisopfs_write, fisopfs_read,
}
use sistemas_operativos_1c.Fs.Contents.{IsFile}
use sistemas_operativos_1c.Fs.Files.{write-read, write_other, write_contents}
use sistemas_operativos_1c.Fs.Dirs.{make-found, new_node, modo_de}
use sistemas_operativos_1c.Fs.Remount.{destroy-init}
use sistemas_operativos_1c.Fs.Sound.{Sound}
use sistemas_operativos_1c.Fs.Removal.{Once, unlink-gone}

abbrev meta_of : Name → ℕ → Meta
meta_of nombre tamano = record {
  nombre = nombre;
  modo = 0x81A4;
  usuario_id = 1000;
  grupo_id = 1000;
  tamano = tamano;
  acceso = 1;
  modificacion = 1;
  cambio_estado = 1;
  enlaces = 1;
}

abbrev name_a : Name
name_a = b'a' ∷ []

abbrev name_b : Name
name_b = b'b' ∷ []

abbrev name_d : Name
name_d = b'd' ∷ []

abbrev file_a : Inode
file_a = archivo (meta_of name_a 3) (b'x' ∷ b'y' ∷ b'z' ∷ [])

abbrev file_b : Inode
file_b = archivo (meta_of name_b 1) (b'q' ∷ [])

-- /a, and /d with the file /d/b.
abbrev small_root : Inode
small_root =
    directorio (meta_of (b'/' ∷ []) 0)
      (hijo file_a (hijo (directorio (meta_of name_d 0) (hijo file_b vacio)) vacio))

abbrev small_system : System
small_system = record {
  raiz = some small_root;
  disco = none;
  escribible = true;
  uid = 1000;
  gid = 1000;
  now = 9;
}

abbrev path_a : List ℕ
path_a = b'/' ∷ b'a' ∷ []

abbrev path_b : List ℕ
path_b = b'/' ∷ b'd' ∷ b'/' ∷ b'b' ∷ []

abbrev no_junk : Array ℕ
no_junk i = 0

abbrev new_bytes : List ℕ
new_bytes = b'1' ∷ b'2' ∷ []

found_a : buscar_inode small_system path_a ≡ some (name_a ∷ [], file_a)
unfolding buscar_inode recorrer tokens hijo_llamado same_name
found_a = refl

found_b : buscar_inode small_system path_b ≡ some (name_d ∷ name_b ∷ [], file_b)
unfolding buscar_inode recorrer tokens hijo_llamado same_name
found_b = refl

small_buffer : IsFile (meta_of name_a 3) (b'x' ∷ b'y' ∷ b'z' ∷ [])
small_buffer = record { buffer = refl; bounded = omega arith }

write-read_example :
    (t : System) × (fisopfs_write no_junk small_system path_a new_bytes 2
      ≡ done (t, Answer.value 2))
    × (u : System) × (fisopfs_read t path_a 2 2 ≡ done (u, Answer.bytes new_bytes))
write-read_example =
    write-read no_junk small_system path_a new_bytes 2 (name_a ∷ []) (meta_of name_a 3)
      (b'x' ∷ b'y' ∷ b'z' ∷ []) found_a small_buffer (omega arith)

other_address : name_a ∷ [] ≢ name_d ∷ name_b ∷ []
other_address h = cc

write_other_example :
    (t : System) × (fisopfs_write no_junk small_system path_a new_bytes 2
      ≡ done (t, Answer.value 2))
    × (buscar_inode t path_b ≡ some (name_d ∷ name_b ∷ [], file_b))
write_other_example =
    write_other no_junk small_system path_a new_bytes path_b 2 (name_a ∷ []) (name_d ∷ name_b ∷ [])
      (meta_of name_a 3) (meta_of name_b 1) (b'x' ∷ b'y' ∷ b'z' ∷ []) (b'q' ∷ []) found_a found_b
      other_address small_buffer (omega arith)

write_contents_example :
    (t : System) × (fisopfs_write no_junk small_system path_a new_bytes 2
      ≡ done (t, Answer.value 2))
    × (buscar_inode t path_a
        ≡ some (
          name_a ∷ [],
          archivo
              (record (meta_of name_a 3) { tamano = 4; modificacion = 9; cambio_estado = 9 })
              (b'x' ∷ b'y' ∷ b'1' ∷ b'2' ∷ []),
        ))
write_contents_example =
    write_contents no_junk small_system path_a new_bytes 2 (name_a ∷ []) (meta_of name_a 3)
      (b'x' ∷ b'y' ∷ b'z' ∷ []) found_a small_buffer (omega arith) (omega arith)

meta-CamposCaben : (k n : ℕ) → n < 1000 → CamposCaben (meta_of (k ∷ []) n)
meta-CamposCaben k n h = record {
  modo = omega arith;
  usuario_id = omega arith;
  grupo_id = omega arith;
  tamano = omega arith;
  acceso = omega arith;
  modificacion = omega arith;
  cambio_estado = omega arith;
  enlaces = omega arith;
  nombre = omega arith;
}

small_root-Cabe : Cabe small_root
unfolding Cabe
small_root-Cabe = (
  meta-CamposCaben b'/' 0 (omega arith),
  omega arith,
  (
    (meta-CamposCaben b'a' 3 (omega arith), refl),
    (
      (
        meta-CamposCaben b'd' 0 (omega arith),
        omega arith,
        ((meta-CamposCaben b'b' 1 (omega arith), refl), tt),
      ),
      tt,
    ),
  ),
)

cargar_inode-guardar_inode_example :
    cargar_inode
      (2 * length (guardar_inode small_root ++ new_bytes) + 1)
      (guardar_inode small_root ++ new_bytes)
    ≡ done (small_root, new_bytes)
cargar_inode-guardar_inode_example = cargar_inode-guardar_inode small_root new_bytes small_root-Cabe

cargar_inode-ne-exhausted_example : cargar_inode (2 * length new_bytes + 1) new_bytes ≢ exhausted
cargar_inode-ne-exhausted_example = cargar_inode-ne-exhausted new_bytes

split_b : split_last path_b ≡ some (b'/' ∷ b'd' ∷ [], b'b' ∷ [])
unfolding split_last
split_b = refl

walk_b : recorrer (name_d ∷ name_b ∷ []) small_root ≡ some (name_d ∷ name_b ∷ [], file_b)
unfolding recorrer hijo_llamado same_name
walk_b = refl

abbrev path_c : List ℕ
path_c = b'/' ∷ b'd' ∷ b'/' ∷ b'c' ∷ []

abbrev path_d : List ℕ
path_d = b'/' ∷ b'd' ∷ []

abbrev dir_d : Hijos
dir_d = hijo file_b vacio

split_c : split_last path_c ≡ some (path_d, b'c' ∷ [])
unfolding split_last
split_c = refl

found_d : buscar_inode small_system path_d ≡ some (name_d ∷ [], directorio (meta_of name_d 0) dir_d)
unfolding buscar_inode recorrer tokens hijo_llamado same_name
found_d = refl

absent_c : buscar_inode small_system path_c ≡ none
unfolding buscar_inode recorrer tokens hijo_llamado same_name
absent_c = refl

make-found_example :
    (t : System) × (fisopfs_create small_system path_c 0o644 ≡ done (t, Answer.value 0))
    × (buscar_inode t path_c
        ≡ some (
          name_d ∷ (b'c' ∷ []) ∷ [],
          new_node false (record {
            nombre = b'c' ∷ [];
            modo = modo_de false 0o644;
            usuario_id = small_system.uid;
            grupo_id = small_system.gid;
            tamano = 0;
            acceso = small_system.now;
            modificacion = small_system.now;
            cambio_estado = small_system.now;
            enlaces = 1;
          }),
        ))
    × (t.disco ≡ some (guardar_inode small_root))
make-found_example =
    make-found false small_system path_c path_d b'c' [] 0o644 small_root (name_d ∷ [])
      (meta_of name_d 0) dir_d split_c (omega arith) refl found_d absent_c

destroy-init_example :
    (t : System) × (fisopfs_destroy small_system ≡ done t)
    × (t.raiz ≡ none)
    × (fisopfs_init t ≡ done (record t { raiz = some small_root }))
destroy-init_example = destroy-init small_system small_root refl refl small_root-Cabe

child_b : hijo_llamado name_b dir_d ≡ some file_b
unfolding hijo_llamado same_name
child_b = refl

name_b-Once : Once name_b dir_d
unfolding hijo_llamado same_name
name_b-Once = inl (refl, refl)

unlink-gone_example :
    (t : System) × (fisopfs_unlink small_system path_b ≡ done (t, Answer.value 0))
    × (buscar_inode t path_b ≡ none)
unlink-gone_example =
    unlink-gone small_system path_b path_d b'b' [] small_root (name_d ∷ []) (meta_of name_d 0)
      (meta_of name_b 1) dir_d (b'q' ∷ []) split_b (omega arith) refl found_d child_b name_b-Once
