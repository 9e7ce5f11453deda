-- ===== src/Fs/RoundTrip.antt =====
-- fisopfs/fisopfs.c: `cargar_inode` on what `guardar_inode` wrote.
use sistemas_operativos_1c.Base.{
  take-append, drop-append, done, ℕ, zero, suc, ◌+◌, ◌-◌, ◌^◌, ◌≤◌, ◌<◌, ◌≡◌, refl, sym, ap, ◌∙◌,
  List, [], ◌++◌, false, le→leb, ◌==◌, length, take, append_assoc, append-nil, arith, length-append,
}
use sistemas_operativos_1c.Fs.Inode.{
  Meta, Inode, Hijos, archivo, directorio, vacio, hijo, cantidad_hijos,
}
use sistemas_operativos_1c.Fs.Bytes.{le_bytes, length-le_bytes, le_value-le_bytes}
use sistemas_operativos_1c.Fs.Disk.{
  guardar_campos, guardar_inode, guardar_hijos, leer_campo, leer_exacto, leer_campos, cargar_inode,
  cargar_hijos,
}

-- The fields fit their types, and the name's length fits a `size_t`.
pub record CamposCaben (m : Meta) : Type 0 where
  pub modo : m.modo < 256 ^ 4
  pub usuario_id : m.usuario_id < 256 ^ 4
  pub grupo_id : m.grupo_id < 256 ^ 4
  pub tamano : m.tamano < 256 ^ 8
  pub acceso : m.acceso < 256 ^ 8
  pub modificacion : m.modificacion < 256 ^ 8
  pub cambio_estado : m.cambio_estado < 256 ^ 8
  pub enlaces : m.enlaces < 256 ^ 4
  pub nombre : length m.nombre < 256 ^ 8

-- A node that an image can hold: every field fits, and a file's buffer has the size it says.
unfoldable mutual
  pub Cabe : Inode → Type 0
  Cabe (archivo m contenido) = CamposCaben m × (length contenido ≡ m.tamano)
  Cabe (directorio m hijos) = CamposCaben m × (cantidad_hijos hijos < 256 ^ 8) × CabenHijos hijos

  pub CabenHijos : Hijos → Type 0
  CabenHijos vacio = Unit {0}
  CabenHijos (hijo h hs) = Cabe h × CabenHijos hs

-- The calls that reading a node takes.
unfoldable mutual
  pub llamadas : Inode → ℕ
  llamadas (archivo m contenido) = 1
  llamadas (directorio m hijos) = suc (llamadas_hijos hijos)

  pub llamadas_hijos : Hijos → ℕ
  llamadas_hijos vacio = 1
  llamadas_hijos (hijo h hs) = suc (llamadas h + llamadas_hijos hs)

leer_campo-le :
    (n x : ℕ) → x < 256 ^ n → (rest : List ℕ) → leer_campo n (le_bytes n x ++ rest) ≡ done (x, rest)
unfolding leer_campo
leer_campo-le n x h rest = rw (
  take-append (le_bytes n x) rest n (length-le_bytes n x),
  drop-append (le_bytes n x) rest n (length-le_bytes n x),
  le_value-le_bytes n x h,
)

leer_exacto-append :
    (n : ℕ) (xs rest : List ℕ) → length xs ≡ n → leer_exacto n (xs ++ rest) ≡ done (xs, rest)
unfolding leer_exacto
leer_exacto-append n xs rest h = rw (
  le→leb n (length (xs ++ rest)) (omega (arith, length-append xs rest)),
  take-append xs rest n h,
  drop-append xs rest n h,
)

leer_campos-guardar_campos :
    (m : Meta) (e : ℕ) (rest : List ℕ)
    → CamposCaben m
    → e < 256 ^ 4
    → leer_campos (guardar_campos m e ++ rest) ≡ done ((m, e), rest)
unfolding leer_campos guardar_campos
leer_campos-guardar_campos m e rest w small = simp (
  append_assoc,
  leer_campo-le 4 m.modo w.modo,
  leer_campo-le 4 m.usuario_id w.usuario_id,
  leer_campo-le 4 m.grupo_id w.grupo_id,
  leer_campo-le 8 m.tamano w.tamano,
  leer_campo-le 8 m.acceso w.acceso,
  leer_campo-le 8 m.modificacion w.modificacion,
  leer_campo-le 8 m.cambio_estado w.cambio_estado,
  leer_campo-le 4 m.enlaces w.enlaces,
  leer_campo-le 4 e small,
  leer_exacto-append 8 (le_bytes 8 (length m.nombre)) (m.nombre ++ rest)
      (length-le_bytes 8 (length m.nombre)),
  le_value-le_bytes 8 (length m.nombre) w.nombre,
  leer_exacto-append (length m.nombre) m.nombre rest refl,
)

take_all : (xs : List ℕ) (n : ℕ) → length xs ≡ n → take n xs ≡ xs
take_all xs n h = sym (ap (take n) (append-nil xs)) ∙ take-append xs [] n h

suc-ne-zero : (n : ℕ) → (suc n == 0) ≡ false
suc-ne-zero n = ground arith

suc-sub-one : (n : ℕ) → suc n - 1 ≡ n
suc-sub-one n = omega arith

mutual
  unfolding cargar_inode guardar_inode Cabe llamadas

  pub cargar-guardar :
      (n : Inode) (f : ℕ) (rest : List ℕ)
      → Cabe n
      → llamadas n ≤ f
      → cargar_inode f (guardar_inode n ++ rest) ≡ done (n, rest)
  cargar-guardar (archivo m contenido) zero rest h enough = absurd (omega arith)
  cargar-guardar (archivo m contenido) (suc f) rest (w, size) enough = simp (
    append_assoc,
    take_all contenido m.tamano size,
    leer_campos-guardar_campos m 0 (contenido ++ rest) w (omega arith),
    leer_exacto-append m.tamano contenido rest size,
  )
  cargar-guardar (directorio m hijos) zero rest h enough = absurd (omega arith)
  cargar-guardar (directorio m hijos) (suc f) rest (w, few, h) enough = simp (
    append_assoc,
    leer_campos-guardar_campos m 1
        (le_bytes 8 (cantidad_hijos hijos) ++ (guardar_hijos hijos ++ rest)) w (omega arith),
    leer_campo-le 8 (cantidad_hijos hijos) few (guardar_hijos hijos ++ rest),
    cargar_hijos-guardar hijos f rest h (omega arith),
  )

  cargar_hijos-guardar :
      (hs : Hijos) (f : ℕ) (rest : List ℕ)
      → CabenHijos hs
      → llamadas_hijos hs ≤ f
      → cargar_hijos f (cantidad_hijos hs) (guardar_hijos hs ++ rest) ≡ done (hs, rest)
  cargar_hijos-guardar vacio zero rest h enough = absurd (omega arith)
  cargar_hijos-guardar vacio (suc f) rest h enough = refl
  cargar_hijos-guardar (hijo n hs) zero rest h enough = absurd (omega arith)
  cargar_hijos-guardar (hijo n hs) (suc f) rest (h, more) enough = simp (
    append_assoc,
    suc-ne-zero (cantidad_hijos hs),
    suc-sub-one (cantidad_hijos hs),
    cargar-guardar n f (guardar_hijos hs ++ rest) h (omega arith),
    cargar_hijos-guardar hs f rest more (omega arith),
  )
