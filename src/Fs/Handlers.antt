-- ===== src/Fs/Handlers.antt =====
-- fisopfs/fisopfs.c: the FUSE handlers. What the operating system writes into fresh memory, where the
-- source reads it before writing, is the argument `basura`.
use Prim.Native.Nat.{bit_or, bit_and}
use sistemas_operativos_1c.Base.{
  then_do, Run, done, fault, ℕ, zero, suc, ◌+◌, ◌-◌, ◌/◌, ◌%◌, ◌^◌, List, [], ◌∷◌, ◌++◌, Bool, true,
  false, ◌&&◌, ◌||◌, not, Option, none, some, if◌then◌else◌, ltb, leb, ◌==◌, length, take, drop,
  replicate, Array,
}
use sistemas_operativos_1c.Fs.Inode.{
  Name, Meta, Inode, Hijos, archivo, directorio, vacio, hijo, meta, es_directorio, cantidad_hijos,
}
use sistemas_operativos_1c.Fs.Tree.{Found}
use sistemas_operativos_1c.Fs.Ops.{
  System, Errno, Answer, Outcome, Parent, s_ifdir, s_ifreg, crear_inode, buscar_inode, buscar_padre,
  escribir_nodo, agregar_hijo, eliminar_inode, guardar_fs, cargar_fs,
}

abbrev pub fail : System → Errno → Outcome
fail s e = done (s, Answer.failed e)

-- `guardar_fs(); return n;`
abbrev pub save_and_return : System → ℕ → Outcome
save_and_return s n = then_do (guardar_fs s) (λ s'. done (s', Answer.value n))

unfoldable pub fisopfs_init : System → Run System
fisopfs_init s = cargar_fs s

-- `st_mode`, `st_uid`, `st_gid`, `st_size`, `st_nlink`, `st_atime`, `st_mtime` and `st_ctime`.
pub record Stat : Type 0 where
  pub mode : ℕ
  pub uid : ℕ
  pub gid : ℕ
  pub size : ℕ
  pub nlink : ℕ
  pub atime : ℕ
  pub mtime : ℕ
  pub ctime : ℕ

unfoldable pub fisopfs_getattr : System → List ℕ → Option Stat
fisopfs_getattr s path = elim (buscar_inode s path) [
  | none ↦ none
  | some (p, n) ↦ some (record {
    mode = (meta n).modo;
    uid = (meta n).usuario_id;
    gid = (meta n).grupo_id;
    size = (meta n).tamano;
    nlink = (meta n).enlaces;
    atime = (meta n).acceso;
    mtime = (meta n).modificacion;
    ctime = (meta n).cambio_estado;
  })
]

unfoldable pub nombres : Hijos → List Name
nombres vacio = []
nombres (hijo h hs) = (meta h).nombre ∷ nombres hs

-- The entries given to `filler`, with "." and ".." first; nothing where the answer is -ENOENT.
unfoldable pub fisopfs_readdir : System → List ℕ → Option (List Name)
unfolding nombres
fisopfs_readdir s path = elim (buscar_inode s path) [
  | none ↦ none
  | some (p, archivo m c) ↦ none
  | some (p, directorio m hs) ↦ some ((b'.' ∷ []) ∷ (b'.' ∷ b'.' ∷ []) ∷ nombres hs)
]

abbrev pub is_directory : Option Found → Bool
is_directory none = false
is_directory (some (p, n)) = es_directorio n

-- `mkdir` and `create` where the parent is a directory and the path may exist. The image is saved
-- before the child is added.
abbrev pub crear_si_falta : System → Option Found → Parent → (modo : ℕ) → (carpeta : Bool) → Outcome
crear_si_falta s (some found) parent modo carpeta = fail s Errno.eexist
crear_si_falta s none parent modo carpeta =
    then_do (guardar_fs s)
      (λ s'. agregar_hijo s' parent.padre (crear_inode s parent.nombre modo carpeta))

unfoldable pub crear_en : System → List ℕ → Parent → (modo : ℕ) → (carpeta : Bool) → Outcome
crear_en s path parent modo carpeta =
    if is_directory parent.padre
    then crear_si_falta s (buscar_inode s path) parent modo carpeta
    else fail s Errno.enoent

unfoldable pub fisopfs_mkdir : System → List ℕ → (mode : ℕ) → Outcome
unfolding crear_en
fisopfs_mkdir s path mode =
    then_do (buscar_padre s path) (λ parent. crear_en s path parent (bit_or s_ifdir mode) true)

unfoldable pub fisopfs_create : System → List ℕ → (mode : ℕ) → Outcome
unfolding crear_en
fisopfs_create s path mode =
    then_do (buscar_padre s path)
      (λ parent. crear_en s path parent (bit_or s_ifreg (bit_and mode 0o777)) false)

abbrev pub con_acceso : ℕ → Inode → Inode
con_acceso now (archivo m c) = archivo (record m { acceso = now }) c
con_acceso now (directorio m hs) = directorio m hs

-- The bytes that `memcpy(buf, contenido + offset, size)` copies.
unfoldable pub copiar : List ℕ → (offset size : ℕ) → Run (List ℕ)
copiar contenido offset size =
    if leb (offset + size) (length contenido)
    then done (take size (drop offset contenido))
    else fault

unfoldable pub leer : Meta → List ℕ → (size offset : ℕ) → Run (List ℕ)
unfolding copiar
leer m contenido size offset =
    if ltb offset m.tamano
    then copiar contenido offset
        (if ltb m.tamano ((offset + size) % 2 ^ 64) then m.tamano - offset else size)
    else done []

abbrev pub read_found : System → (size offset : ℕ) → Option Found → Outcome
read_found s size offset none = fail s Errno.eisdir
read_found s size offset (some (p, directorio m hs)) = fail s Errno.eisdir
read_found s size offset (some (p, archivo m c)) =
    then_do (leer m c size offset)
      (λ read. done (escribir_nodo s p (con_acceso s.now), Answer.bytes read))

unfoldable pub fisopfs_read : System → List ℕ → (size offset : ℕ) → Outcome
fisopfs_read s path size offset = read_found s size offset (buscar_inode s path)

unfoldable pub basura_desde : Array ℕ → (n i : ℕ) → List ℕ
basura_desde basura zero i = []
basura_desde basura (suc n) i = basura i ∷ basura_desde basura n (i + 1)

-- `realloc`: the bytes that fit are kept, and new ones are whatever was there.
unfoldable pub realloc : Array ℕ → List ℕ → ℕ → List ℕ
unfolding basura_desde
realloc basura c n = take n c ++ basura_desde basura (n - length c) (length c)

-- `memcpy(contenido + offset, buf, size)`
unfoldable pub copiar_en : List ℕ → (offset : ℕ) → List ℕ → Run (List ℕ)
copiar_en c offset buf =
    if leb (offset + length buf) (length c)
    then done (take offset c ++ (buf ++ drop (offset + length buf) c))
    else fault

-- The metadata and the buffer of a file after a write.
unfoldable pub escribir : Array ℕ → ℕ → Meta → List ℕ → List ℕ → (offset : ℕ) → Run (Meta × List ℕ)
unfolding realloc copiar_en
escribir basura now m c buf offset =
    let new_size = (offset + length buf) % 2 ^ 64 in
    let grows = ltb m.tamano new_size in
    let grown = if grows then realloc basura c new_size else c in
    let size = if grows then new_size else m.tamano in
    then_do (copiar_en grown offset buf)
      (λ c'. done (record m { tamano = size; modificacion = now; cambio_estado = now }, c'))

abbrev pub write_found : Array ℕ → System → List ℕ → (offset : ℕ) → Option Found → Outcome
write_found basura s buf offset none = fail s Errno.eisdir
write_found basura s buf offset (some (p, directorio m hs)) = fail s Errno.eisdir
write_found basura s buf offset (some (p, archivo m c)) =
    then_do (escribir basura s.now m c buf offset)
      (λ (m', c'). save_and_return (escribir_nodo s p (λ _. archivo m' c')) (length buf))

unfoldable pub fisopfs_write : Array ℕ → System → List ℕ → List ℕ → (offset : ℕ) → Outcome
fisopfs_write basura s path buf offset = write_found basura s buf offset (buscar_inode s path)

-- `buscar_padre(path, nombre); eliminar_inode(padre, node); guardar_fs(); return 0;`
unfoldable pub borrar : System → List ℕ → Found → Outcome
borrar s path target =
    then_do (buscar_padre s path)
      (λ parent. save_and_return (eliminar_inode s parent.padre target) 0)

abbrev pub unlink_found : System → List ℕ → Option Found → Outcome
unlink_found s path none = fail s Errno.eisdir
unlink_found s path (some (p, directorio m hs)) = fail s Errno.eisdir
unlink_found s path (some (p, archivo m c)) = borrar s path (p, archivo m c)

unfoldable pub fisopfs_unlink : System → List ℕ → Outcome
fisopfs_unlink s path = unlink_found s path (buscar_inode s path)

abbrev pub rmdir_found : System → List ℕ → Option Found → Outcome
rmdir_found s path none = fail s Errno.enotempty
rmdir_found s path (some (p, archivo m c)) = fail s Errno.enotempty
rmdir_found s path (some (p, directorio m hs)) =
    if ltb 0 (cantidad_hijos hs) then fail s Errno.enotempty else borrar s path (p, directorio m hs)

unfoldable pub fisopfs_rmdir : System → List ℕ → Outcome
fisopfs_rmdir s path = rmdir_found s path (buscar_inode s path)

-- The image is saved and the tree is freed.
unfoldable pub fisopfs_destroy : System → Run System
fisopfs_destroy s = then_do (guardar_fs s) (λ s'. done (record s' { raiz = none }))

-- A bit of a mask, at its place.
abbrev pub bit : ℕ → ℕ → Bool
bit x k = x / 2 ^ k % 2 == 1

-- `flags & O_ACCMODE` is O_RDONLY 0, O_WRONLY 1 or O_RDWR 2; S_IWUSR is bit 7 and S_IRUSR bit 8.
abbrev pub acc_mode : ℕ → ℕ
acc_mode flags = flags % 4

abbrev pub may_open : Meta → (flags : ℕ) → Bool
may_open m flags =
    not ((acc_mode flags == 1 || acc_mode flags == 2) && not (bit m.modo 7))
    && not (acc_mode flags == 0 && not (bit m.modo 8))

unfoldable pub vaciar : ℕ → Meta → Inode
vaciar now m = archivo (record m { tamano = 0; modificacion = now; cambio_estado = now }) []

-- O_TRUNC is bit 9.
abbrev pub open_found : System → (flags : ℕ) → Option Found → Outcome
open_found s flags none = fail s Errno.enoent
open_found s flags (some (p, directorio m hs)) = fail s Errno.eisdir
open_found s flags (some (p, archivo m c)) =
    if may_open m flags
    then (if bit flags 9
        then save_and_return (escribir_nodo s p (λ _. vaciar s.now m)) 0
        else done (s, Answer.value 0))
    else fail s Errno.eacces

unfoldable pub fisopfs_open : System → List ℕ → (flags : ℕ) → Outcome
fisopfs_open s path flags = open_found s flags (buscar_inode s path)

-- The new contents: cut off, or filled up with zeros.
unfoldable pub recortar : List ℕ → (tamano size : ℕ) → List ℕ
recortar c tamano size = if size == 0 then [] else take size c ++ replicate (size - tamano) 0

abbrev pub truncate_found : System → (size : ℕ) → Option Found → Outcome
truncate_found s size none = fail s Errno.enoent
truncate_found s size (some (p, directorio m hs)) = fail s Errno.eisdir
truncate_found s size (some (p, archivo m c)) =
    save_and_return
      (escribir_nodo s p (λ _.
        archivo (record m { tamano = size; modificacion = s.now; cambio_estado = s.now })
          (recortar c m.tamano size)))
      0

unfoldable pub fisopfs_truncate : System → List ℕ → (size : ℕ) → Outcome
fisopfs_truncate s path size = truncate_found s size (buscar_inode s path)

abbrev pub con_tiempos : (acceso modificacion now : ℕ) → Inode → Inode
con_tiempos acceso modificacion now (archivo m c) =
    archivo (record m { acceso = acceso; modificacion = modificacion; cambio_estado = now }) c
con_tiempos acceso modificacion now (directorio m hs) =
    directorio (record m { acceso = acceso; modificacion = modificacion; cambio_estado = now }) hs

abbrev pub utimens_found : System → (acceso modificacion : ℕ) → Option Found → Outcome
utimens_found s acceso modificacion none = fail s Errno.enoent
utimens_found s acceso modificacion (some (p, n)) =
    save_and_return (escribir_nodo s p (con_tiempos acceso modificacion s.now)) 0

unfoldable pub fisopfs_utimens : System → List ℕ → (acceso modificacion : ℕ) → Outcome
fisopfs_utimens s path acceso modificacion =
    utimens_found s acceso modificacion (buscar_inode s path)
