-- ===== src/Fs/Disk.antt =====
-- fisopfs/fisopfs.c: `guardar_inode` and `cargar_inode`, as functions to and from the bytes of the image.
-- A read past the end leaves the rest of its target as it was: zero in a node that `calloc` made,
-- and indeterminate in `nombre_len` and in a buffer of `malloc`.
use sistemas_operativos_1c.Base.{
  Run, done, exhausted, fault, ℕ, zero, suc, ◌-◌, List, [], ◌++◌, if◌then◌else◌, leb, ◌==◌, length,
  take, drop,
}
use sistemas_operativos_1c.Fs.Inode.{
  Meta, Inode, Hijos, archivo, directorio, vacio, hijo, cantidad_hijos,
}
use sistemas_operativos_1c.Fs.Bytes.{le_bytes, le_value}

-- The nine fields that `guardar_inode` writes first, and the name behind its length.
unfoldable pub guardar_campos : Meta → ℕ → List ℕ
guardar_campos m es_directorio =
    le_bytes 4 m.modo
    ++ (le_bytes 4 m.usuario_id
        ++ (le_bytes 4 m.grupo_id
            ++ (le_bytes 8 m.tamano
                ++ (le_bytes 8 m.acceso
                    ++ (le_bytes 8 m.modificacion
                        ++ (le_bytes 8 m.cambio_estado
                            ++ (le_bytes 4 m.enlaces
                                ++ (le_bytes 4 es_directorio
                                    ++ (le_bytes 8 (length m.nombre) ++ m.nombre)))))))))

unfoldable mutual
  pub guardar_inode : Inode → List ℕ
  guardar_inode (archivo m contenido) = guardar_campos m 0 ++ take m.tamano contenido
  guardar_inode (directorio m hijos) =
      guardar_campos m 1 ++ (le_bytes 8 (cantidad_hijos hijos) ++ guardar_hijos hijos)

  pub guardar_hijos : Hijos → List ℕ
  guardar_hijos vacio = []
  guardar_hijos (hijo h hs) = guardar_inode h ++ guardar_hijos hs

abbrev pub Reader {ℓ} : Type ℓ → Type ℓ
Reader A = List ℕ → Run (A × List ℕ)

abbrev pub pure {ℓ} : {A : Type ℓ} → A → Reader A
pure a bs = done (a, bs)

module _ {ℓ κ} {A : Type ℓ} {B : Type κ} where
  abbrev pub bind : Run (A × List ℕ) → (A → Reader B) → Run (B × List ℕ)
  bind (done (a, rest)) f = f a rest
  bind fault f = fault
  bind exhausted f = exhausted

  infixl 1 ◌>>=◌
  abbrev pub ◌>>=◌ : Reader A → (A → Reader B) → Reader B
  (r >>= f) bs = bind (r bs) f

-- `fread` into a zeroed field: the bytes that are there, and zeros.
unfoldable pub leer_campo : ℕ → Reader ℕ
leer_campo n bs = done (le_value (take n bs), drop n bs)

-- `fread` into memory that nothing has written: short reads leave indeterminate bytes.
unfoldable pub leer_exacto : ℕ → Reader (List ℕ)
leer_exacto n bs = if leb n (length bs) then done (take n bs, drop n bs) else fault

unfoldable pub leer_campos : Reader (Meta × ℕ)
leer_campos = do
  modo ← leer_campo 4
  usuario_id ← leer_campo 4
  grupo_id ← leer_campo 4
  tamano ← leer_campo 8
  acceso ← leer_campo 8
  modificacion ← leer_campo 8
  cambio_estado ← leer_campo 8
  enlaces ← leer_campo 4
  es_directorio ← leer_campo 4
  nombre_len ← leer_exacto 8
  nombre ← leer_exacto (le_value nombre_len)
  pure (
    record {
      nombre = nombre;
      modo = modo;
      usuario_id = usuario_id;
      grupo_id = grupo_id;
      tamano = tamano;
      acceso = acceso;
      modificacion = modificacion;
      cambio_estado = cambio_estado;
      enlaces = enlaces;
    },
    es_directorio,
  )

-- The depth of the tree comes from the file, so each call costs a unit of fuel.
unfoldable mutual
  pub cargar_inode : ℕ → Reader Inode
  cargar_inode zero bs = exhausted
  cargar_inode (suc f) bs = bind (leer_campos bs) (λ (m, es_directorio).
      let carpeta : Reader Inode =
        leer_campo 8 >>= λ n. cargar_hijos f n >>= λ hs. pure (directorio m hs) in
      let fichero : Reader Inode = leer_exacto m.tamano >>= λ c. pure (archivo m c) in
      if es_directorio == 0 then fichero else carpeta)

  pub cargar_hijos : ℕ → ℕ → Reader Hijos
  cargar_hijos zero n bs = exhausted
  cargar_hijos (suc f) n bs =
      let more : Run (Hijos × List ℕ) =
        bind (cargar_inode f bs) (λ h. cargar_hijos f (n - 1) >>= λ hs. pure (hijo h hs)) in
      if n == 0 then done (vacio, bs) else more
