-- ===== src/Fs/Ops.antt =====
-- fisopfs/fisopfs.c: the helpers on inodes, the persistence of the whole system, and the FUSE handlers.
-- The time, the user and whether the image can be opened for writing are arguments; allocation succeeds.
use Prim.Native.Nat.{bit_or}
use sistemas_operativos_1c.Base.{
  Run, done, exhausted, fault, ℕ, ◌+◌, ◌*◌, List, [], ◌∷◌, Bool, true, Option, none, some,
  if◌then◌else◌, leb, length,
}
use sistemas_operativos_1c.Fs.Inode.{
  Name, Meta, Inode, archivo, directorio, vacio, es_directorio, max_filename_length,
}
use sistemas_operativos_1c.Fs.Path.{slash, same_name, tokens, split_last}
use sistemas_operativos_1c.Fs.Disk.{guardar_inode, cargar_inode}
use sistemas_operativos_1c.Fs.Tree.{Found, recorrer, modificar, agregar_al_final, quitar_hijo}

-- `fs`, the image file, and what the calls of the operating system answer.
pub record System : Type 0 where
  pub raiz : Option Inode
  pub disco : Option (List ℕ)
  pub escribible : Bool
  pub uid : ℕ
  pub gid : ℕ
  pub now : ℕ

pub data Errno : Type 0 where
  enoent eexist eisdir enotempty eacces enotdir : Errno

-- The result of a handler: a count or 0, the bytes that `read` copied out, or a negated error.
pub data Answer : Type 0 where
  value : ℕ → Answer
  bytes : List ℕ → Answer
  failed : Errno → Answer

abbrev pub Outcome : Type 0
Outcome = Run (System × Answer)

abbrev pub s_ifdir : ℕ
s_ifdir = 0x4000

abbrev pub s_ifreg : ℕ
s_ifreg = 0x8000

-- The fields of a new node.
abbrev pub nueva : System → Name → (modo : ℕ) → Meta
nueva s nombre modo = record {
  nombre = nombre;
  modo = modo;
  usuario_id = s.uid;
  grupo_id = s.gid;
  tamano = 0;
  acceso = s.now;
  modificacion = s.now;
  cambio_estado = s.now;
  enlaces = 1;
}

unfoldable pub crear_inode : System → Name → (modo : ℕ) → (carpeta : Bool) → Option Inode
crear_inode s nombre modo carpeta =
    if leb max_filename_length (length nombre)
    then none
    else (if carpeta
        then some (directorio (nueva s nombre modo) vacio)
        else some (archivo (nueva s nombre modo) []))

abbrev pub recorrer_raiz : List Name → Option Inode → Option Found
recorrer_raiz ts none = none
recorrer_raiz ts (some r) = recorrer ts r

-- For the path "/" there are no tokens, and the root is found.
unfoldable pub buscar_inode : System → List ℕ → Option Found
buscar_inode s path = recorrer_raiz (tokens path) s.raiz

-- The parent, if there is one, and the name that is copied into the caller's 64 bytes.
pub record Parent : Type 0 where
  pub padre : Option Found
  pub nombre : Name

abbrev pub padre_de : System → List ℕ → Option (List ℕ × List ℕ) → Run Parent
padre_de s path none = done (record { padre = none; nombre = [] })
padre_de s path (some (before, after)) =
    if same_name path (slash ∷ [])
    then done (record { padre = none; nombre = [] })
    else if leb max_filename_length (length after)
    then fault
    else done (record { padre = buscar_inode s before; nombre = after })

unfoldable pub buscar_padre : System → List ℕ → Run Parent
buscar_padre s path = padre_de s path (split_last path)

abbrev pub escribir_en : System → List Name → (Inode → Inode) → Option Inode → System
escribir_en s p f none = s
escribir_en s p f (some r) = record s { raiz = some (modificar p f r) }

-- Writes `f` through the pointer to the node at `p`.
unfoldable pub escribir_nodo : System → List Name → (Inode → Inode) → System
escribir_nodo s p f = escribir_en s p f s.raiz

abbrev pub con_hijo : ℕ → Inode → Inode → Inode
con_hijo now nuevo (archivo m c) = archivo m c
con_hijo now nuevo (directorio m hs) =
    directorio (record m { modificacion = now }) (agregar_al_final nuevo hs)

abbrev pub sin_hijo : ℕ → Name → Inode → Inode
sin_hijo now t (archivo m c) = archivo m c
sin_hijo now t (directorio m hs) = directorio (record m { modificacion = now }) (quitar_hijo t hs)

-- A null child is stored as well, and the next search reads through it: that is a fault.
unfoldable pub agregar_hijo : System → Option Found → Option Inode → Outcome
agregar_hijo s none nuevo = done (s, Answer.failed Errno.enotdir)
agregar_hijo s (some (p, padre)) none =
    if es_directorio padre then fault else done (s, Answer.failed Errno.enotdir)
agregar_hijo s (some (p, padre)) (some nuevo) =
    if es_directorio padre
    then done (escribir_nodo s p (con_hijo s.now nuevo), Answer.value 0)
    else done (s, Answer.failed Errno.enotdir)

-- `padre->hijos[i] == target`: the target is a child of the parent if its address is one name longer.
unfoldable pub hijo_de : List Name → List Name → Option Name
hijo_de [] [] = none
hijo_de [] (t ∷ []) = some t
hijo_de [] (t ∷ u ∷ ts) = none
hijo_de (p ∷ ps) [] = none
hijo_de (p ∷ ps) (t ∷ ts) = if same_name p t then hijo_de ps ts else none

unfoldable pub quitar_de : System → List Name → Option Name → System
quitar_de s p none = s
quitar_de s p (some t) = escribir_nodo s p (sin_hijo s.now t)

unfoldable pub eliminar_inode : System → Option Found → Found → System
unfolding quitar_de
eliminar_inode s none target = s
eliminar_inode s (some (p, padre)) target =
    if es_directorio padre then quitar_de s p (hijo_de p target.0) else s

abbrev pub guardar_raiz : System → Option Inode → Run System
guardar_raiz s none = fault
guardar_raiz s (some r) = done (record s { disco = some (guardar_inode r) })

unfoldable pub guardar_fs : System → Run System
guardar_fs s = if s.escribible then guardar_raiz s s.raiz else done s

abbrev pub cargada : System → Run (Inode × List ℕ) → Run System
cargada s (done (r, rest)) = done (record s { raiz = some r })
cargada s fault = fault
cargada s exhausted = exhausted

-- Without an image the root is made anew. Read errors of the device are not modelled.
unfoldable pub cargar_fs : System → Run System
cargar_fs s = elim s.disco [
  | none ↦ done (record s { raiz = crear_inode s (slash ∷ []) (bit_or s_ifdir 0o755) true })
  | some image ↦ cargada s (cargar_inode (2 * length image + 1) image)
]
