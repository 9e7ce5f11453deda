-- ===== src/Fs/Files.antt =====
-- fisopfs/fisopfs.c: `fisopfs_write` and `fisopfs_read` on a file of the tree.
use mathlib.Core.Path.{ap₂}
use sistemas_operativos_1c.Base.{
  done, then_do, ℕ, ◌+◌, ◌^◌, ◌≤◌, ◌<◌, ◌≡◌, ◌≢◌, refl, sym, ap, ◌∙◌, List, ◌++◌, Bool, true, false,
  Option, none, some, if◌then◌else◌, length, take, drop, arith, Array,
}
use sistemas_operativos_1c.Fs.Inode.{Name, Meta, Inode, archivo}
use sistemas_operativos_1c.Fs.Path.{tokens}
use sistemas_operativos_1c.Fs.Disk.{guardar_inode}
use sistemas_operativos_1c.Fs.Tree.{recorrer, modificar, recorrer-en_direccion}
use sistemas_operativos_1c.Fs.Writes.{recorrer-modificar, recorrer-modificar_other}
use sistemas_operativos_1c.Fs.Ops.{
  System, Answer, buscar_inode, escribir_nodo, guardar_fs, guardar_raiz, escribir_en, recorrer_raiz,
}
use sistemas_operativos_1c.Fs.Handlers.{
  save_and_return, fisopfs_write, fisopfs_read, con_acceso, write_found, read_found,
}
use sistemas_operativos_1c.Fs.Contents.{
  IsFile, grown, spliced, size_after, length-grown, escribir_lem, leer-spliced, spliced_inside,
  length-spliced,
}

-- The image after `guardar_fs`.
abbrev pub saved : System → Inode → System
saved s r = if s.escribible then record s { disco = some (guardar_inode r) } else s

if_done :
    (b : Bool) (x y : System) (v : Answer)
    → then_do {B = System × Answer} (if b then done x else done y) (λ s. done (s, v))
      ≡ done (if b then x else y, v)
if_done true x y v = refl
if_done false x y v = refl

pub save_and_return_lem :
    (s : System) (r : Inode) (n : ℕ)
    → s.raiz ≡ some r
    → save_and_return s n ≡ done (saved s r, Answer.value n)
unfolding guardar_fs
save_and_return_lem s r n h =
    ap
      (λ o.
        then_do {B = System × Answer} (if s.escribible then guardar_raiz s o else done s)
          (λ s'. done (s', Answer.value n)))
      h
    ∙ if_done s.escribible (record s { disco = some (guardar_inode r) }) s (Answer.value n)

pub found_root :
    (s : System) (path : List ℕ) (p : List Name) (x : Inode)
    → buscar_inode s path ≡ some (p, x)
    → (r : Inode) × (s.raiz ≡ some r) × (recorrer (tokens path) r ≡ some (p, x))
unfolding buscar_inode
found_root s path p x h = go s.raiz refl h
  where
    go :
        (o : Option Inode)
        → s.raiz ≡ o
        → recorrer_raiz (tokens path) o ≡ some (p, x)
        → (r : Inode) × (s.raiz ≡ some r) × (recorrer (tokens path) r ≡ some (p, x))
    go none e k = cc
    go (some r) e k = (r, e, k)

-- The file after a write.
abbrev pub meta_written : System → Meta → (end : ℕ) → Meta
meta_written s m end = record m {
  tamano = size_after m end;
  modificacion = s.now;
  cambio_estado = s.now;
}

abbrev pub bytes_written : Array ℕ → Meta → List ℕ → (offset : ℕ) → List ℕ → List ℕ
bytes_written basura m c offset buf = spliced (grown basura m c (offset + length buf)) offset buf

abbrev pub file_written : Array ℕ → System → Meta → List ℕ → (offset : ℕ) → List ℕ → Inode
file_written basura s m c offset buf =
    archivo (meta_written s m (offset + length buf)) (bytes_written basura m c offset buf)

-- The system after a write: the new tree, saved.
abbrev pub after_write :
    Array ℕ → System → Inode → List Name → Meta → List ℕ → (offset : ℕ) → List ℕ → System
after_write basura s r p m c offset buf =
    let r' = modificar p (λ _. file_written basura s m c offset buf) r in
    saved (record s { raiz = some r' }) r'

write_result :
    (basura : Array ℕ) (s : System) (r : Inode) (path buf : List ℕ) (offset : ℕ) (p : List Name)
    (m : Meta) (c : List ℕ)
    → s.raiz ≡ some r
    → buscar_inode s path ≡ some (p, archivo m c)
    → IsFile m c
    → offset + length buf < 2 ^ 64
    → fisopfs_write basura s path buf offset
      ≡ done (after_write basura s r p m c offset buf, Answer.value (length buf))
unfolding fisopfs_write escribir_nodo
write_result basura s r path buf offset p m c root found file low =
    ap (write_found basura s buf offset) found
    ∙ ap
        (λ w.
          then_do {B = System × Answer} w
            (λ (m', c'). save_and_return (escribir_nodo s p (λ _. archivo m' c')) (length buf)))
        (escribir_lem basura s.now m c buf offset file.buffer low)
    ∙ ap
        (λ o.
          save_and_return (escribir_en s p (λ _. file_written basura s m c offset buf) o)
            (length buf))
        root
    ∙ save_and_return_lem
        (record s { raiz = some (modificar p (λ _. file_written basura s m c offset buf) r) })
        (modificar p (λ _. file_written basura s m c offset buf) r) (length buf) refl

pub saved_raiz : (s : System) (r : Inode) → (saved s r).raiz ≡ s.raiz
saved_raiz s r = go s.escribible
  where
    go : (b : Bool) → (if b then record s { disco = some (guardar_inode r) } else s).raiz ≡ s.raiz
    go true = refl
    go false = refl

buscar_written :
    (basura : Array ℕ) (s : System) (r : Inode) (path buf : List ℕ) (offset : ℕ) (p : List Name)
    (m : Meta) (c : List ℕ)
    → recorrer (tokens path) r ≡ some (p, archivo m c)
    → buscar_inode (after_write basura s r p m c offset buf) path
      ≡ some (p, file_written basura s m c offset buf)
unfolding buscar_inode
buscar_written basura s r path buf offset p m c found =
    ap (recorrer_raiz (tokens path)) (saved_raiz (record s { raiz = some r' }) r')
    ∙ recorrer-modificar (tokens path) p (λ _. file_written basura s m c offset buf) r (archivo m c)
        found refl refl
  where
    r' : Inode
    r' = modificar p (λ _. file_written basura s m c offset buf) r

-- A write of `buf` at `offset` to a file of the tree whose buffer has the size that it states, with
-- an end below 2^64, succeeds and answers the number of bytes; a read of that range on the system
-- that it leaves answers exactly those bytes.
pub write-read :
    (basura : Array ℕ) (s : System) (path buf : List ℕ) (offset : ℕ) (p : List Name) (m : Meta)
    (c : List ℕ)
    → buscar_inode s path ≡ some (p, archivo m c)
    → IsFile m c
    → offset + length buf < 2 ^ 64
    → (t : System) × (fisopfs_write basura s path buf offset ≡ done (t, Answer.value (length buf)))
      × (u : System) × (fisopfs_read t path (length buf) offset ≡ done (u, Answer.bytes buf))
unfolding fisopfs_read
write-read basura s path buf offset p m c found file low =
    let (r, root, walk) = found_root s path p (archivo m c) found in
    let t = after_write basura s r p m c offset buf in
    let end = offset + length buf in
    let m' = meta_written s m end in
    (
      t,
      write_result basura s r path buf offset p m c root found file low,
      escribir_nodo t p (con_acceso t.now),
      ap (read_found t (length buf) offset) (buscar_written basura s r path buf offset p m c walk)
          ∙ ap
              (λ w.
                then_do {B = System × Answer} w
                  (λ read. done (escribir_nodo t p (con_acceso t.now), Answer.bytes read)))
              (leer-spliced m' (grown basura m c end) offset buf
                (length-grown basura m c end file.buffer) (ground arith)
                (ground (arith, file.bounded))),
    )

-- A write to a file whose buffer has the size that it states, with an end below 2^64, succeeds and
-- leaves every file that a path finds at another address as it was, contents and metadata.
pub write_other :
    (basura : Array ℕ) (s : System) (path buf other : List ℕ) (offset : ℕ) (p q : List Name)
    (m k : Meta) (c d : List ℕ)
    → buscar_inode s path ≡ some (p, archivo m c)
    → buscar_inode s other ≡ some (q, archivo k d)
    → p ≢ q
    → IsFile m c
    → offset + length buf < 2 ^ 64
    → (t : System) × (fisopfs_write basura s path buf offset ≡ done (t, Answer.value (length buf)))
      × (buscar_inode t other ≡ some (q, archivo k d))
unfolding buscar_inode
write_other basura s path buf other offset p q m k c d found found' differ file low =
    let (r, root, walk) = found_root s path p (archivo m c) found in
    let new = file_written basura s m c offset buf in
    let walk' : recorrer (tokens other) r ≡ some (q, archivo k d) =
      ap (recorrer_raiz (tokens other)) (sym root) ∙ found' in
    (
      after_write basura s r p m c offset buf,
      write_result basura s r path buf offset p m c root found file low,
      ap (recorrer_raiz (tokens other)) (
            saved_raiz (record s { raiz = some (modificar p (λ _. new) r) })
              (modificar p (λ _. new) r))
          ∙ recorrer-modificar_other (tokens other) q p (λ _. new) r m k c d walk'
              (recorrer-en_direccion (tokens path) p r (archivo m c) walk) refl differ,
    )

-- A write that starts within a file whose buffer has the size that it states, or at its end, with
-- an end below 2^64, replaces the bytes from `offset` on by `buf`, keeps those before and after it,
-- makes the size that of the new contents, and sets both times of change.
pub write_contents :
    (basura : Array ℕ) (s : System) (path buf : List ℕ) (offset : ℕ) (p : List Name) (m : Meta)
    (c : List ℕ)
    → buscar_inode s path ≡ some (p, archivo m c)
    → IsFile m c
    → offset + length buf < 2 ^ 64
    → offset ≤ m.tamano
    → let c' = take offset c ++ (buf ++ drop (offset + length buf) c) in
      (t : System) × (fisopfs_write basura s path buf offset ≡ done (t, Answer.value (length buf)))
      × (buscar_inode t path
          ≡ some (
            p,
            archivo
                (record m { tamano = length c'; modificacion = s.now; cambio_estado = s.now })
                c',
          ))
write_contents basura s path buf offset p m c found file low within =
    let (r, root, walk) = found_root s path p (archivo m c) found in
    let end = offset + length buf in
    let bytes = spliced_inside basura m c buf offset file.buffer within in
    let size : size_after m end ≡ length (take offset c ++ (buf ++ drop end c)) =
      sym (length-grown basura m c end file.buffer)
      ∙ sym (
          length-spliced (grown basura m c end) offset buf
            (ground (arith, length-grown basura m c end file.buffer)))
      ∙ ap length bytes in
    (
      after_write basura s r p m c offset buf,
      write_result basura s r path buf offset p m c root found file low,
      buscar_written basura s r path buf offset p m c walk
          ∙ ap₂
              (λ n c'. some (
                p,
                archivo (record m { tamano = n; modificacion = s.now; cambio_estado = s.now }) c',
              ))
              size bytes,
    )
