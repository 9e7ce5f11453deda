-- ===== src/Fs/Termination.antt =====
-- fisopfs/fisopfs.c: the fuel that reading an image is given.
use sistemas_operativos_1c.Base.{
  Run, done, exhausted, fault, ℕ, zero, suc, ◌+◌, ◌-◌, ◌*◌, ◌≤◌, ◌<◌, ◌≡◌, ◌≢◌, inl, inr, List,
  ◌++◌, Bool, true, false, Bool-cases, if◌then◌else◌, leb, leb→le, ◌==◌, length, take, arith,
  length-append, length-drop,
}
use sistemas_operativos_1c.Fs.Inode.{
  Meta, Inode, Hijos, archivo, directorio, vacio, hijo, cantidad_hijos,
}
use sistemas_operativos_1c.Fs.Bytes.{le_bytes, le_value, length-le_bytes}
use sistemas_operativos_1c.Fs.Disk.{
  Reader, bind, leer_campo, leer_exacto, leer_campos, cargar_inode, cargar_hijos, guardar_campos,
  guardar_inode, guardar_hijos,
}
use sistemas_operativos_1c.Fs.RoundTrip.{llamadas, llamadas_hijos, Cabe, cargar-guardar}

-- A run over `total` bytes that fails, or that has taken at least `k` of them.
pub data Acaba {ℓ} {A : Type ℓ} (k total : ℕ) : Run (A × List ℕ) → Type ℓ where
  acaba : {a : A} {rest : List ℕ} → length rest + k ≤ total → Acaba k total (done (a, rest))
  falla : Acaba k total fault

Acaba-bind :
    {A B : Type 0} {k total j all : ℕ} {r : Run (A × List ℕ)} {f : A → Reader B}
    → Acaba k total r
    → ((a : A) (rest : List ℕ) → length rest + k ≤ total → Acaba j all (f a rest))
    → Acaba j all (bind r f)
Acaba-bind (acaba {a} {rest} h) next = next a rest h
Acaba-bind falla next = falla

Acaba-ne-exhausted :
    {A : Type 0} {k total : ℕ} {r : Run (A × List ℕ)} → Acaba k total r → r ≢ exhausted
Acaba-ne-exhausted (acaba h) = cc
Acaba-ne-exhausted falla = cc

Acaba-if :
    {A : Type 0} {k total : ℕ} (b : Bool) {x y : Run (A × List ℕ)}
    → Acaba k total x
    → Acaba k total y
    → Acaba k total (if b then x else y)
Acaba-if true hx hy = hx
Acaba-if false hx hy = hy

Acaba-choose :
    {A : Type 0} {k total : ℕ} (b : Bool) (x y : Reader A) (bs : List ℕ)
    → Acaba k total (x bs)
    → Acaba k total (y bs)
    → Acaba k total ((if b then x else y) bs)
Acaba-choose true x y bs hx hy = hx
Acaba-choose false x y bs hx hy = hy

leer_campo-Acaba : (n : ℕ) (bs : List ℕ) → Acaba 0 (length bs) (leer_campo n bs)
unfolding leer_campo
leer_campo-Acaba n bs = acaba (omega (arith, length-drop n bs))

leer_exacto-Acaba : (n : ℕ) (bs : List ℕ) → Acaba n (length bs) (leer_exacto n bs)
unfolding leer_exacto
leer_exacto-Acaba n bs = elim (Bool-cases (leb n (length bs))) [
  | inl fits ↦ rw fits (acaba (omega (arith, length-drop n bs, leb→le n (length bs) fits)))
  | inr short ↦ rw short falla
]

-- The length of the name is read in full, so the fields take eight bytes at least.
leer_campos-Acaba : (bs : List ℕ) → Acaba 8 (length bs) (leer_campos bs)
unfolding leer_campos
leer_campos-Acaba bs = Acaba-bind (leer_campo-Acaba 4 bs) λ _ b₁ h₁.
    Acaba-bind (leer_campo-Acaba 4 b₁) λ _ b₂ h₂. Acaba-bind (leer_campo-Acaba 4 b₂) λ _ b₃ h₃.
      Acaba-bind (leer_campo-Acaba 8 b₃) λ _ b₄ h₄. Acaba-bind (leer_campo-Acaba 8 b₄) λ _ b₅ h₅.
        Acaba-bind (leer_campo-Acaba 8 b₅) λ _ b₆ h₆. Acaba-bind (leer_campo-Acaba 8 b₆) λ _ b₇ h₇.
          Acaba-bind (leer_campo-Acaba 4 b₇) λ _ b₈ h₈.
            Acaba-bind (leer_campo-Acaba 4 b₈) λ _ b₉ h₉.
              Acaba-bind (leer_exacto-Acaba 8 b₉) λ len c h.
                Acaba-bind (leer_exacto-Acaba (le_value len) c)
                  λ _ d k. acaba {rest = d} (omega arith)

mutual
  unfolding cargar_inode

  cargar_inode-Acaba :
      (f : ℕ) (bs : List ℕ) → 2 * length bs < f → Acaba 8 (length bs) (cargar_inode f bs)
  cargar_inode-Acaba zero bs h = absurd (omega arith)
  cargar_inode-Acaba (suc f) bs h = Acaba-bind (leer_campos-Acaba bs) λ (m, es_directorio) b₁ h₁.
      Acaba-choose (es_directorio == 0) _ _ b₁
        (Acaba-bind (leer_exacto-Acaba m.tamano b₁) λ c b₂ h₂. acaba {rest = b₂} (omega arith))
        (Acaba-bind (leer_campo-Acaba 8 b₁) λ n b₂ h₂.
          Acaba-bind (cargar_hijos-Acaba f n b₂ (omega arith))
            λ hs b₃ h₃. acaba {rest = b₃} (omega arith))

  cargar_hijos-Acaba :
      (f n : ℕ) (bs : List ℕ) → 2 * length bs + 1 < f → Acaba 0 (length bs) (cargar_hijos f n bs)
  cargar_hijos-Acaba zero n bs h = absurd (omega arith)
  cargar_hijos-Acaba (suc f) n bs h = Acaba-if (n == 0) (acaba {rest = bs} (omega arith)) (
      Acaba-bind (cargar_inode-Acaba f bs (omega arith)) λ i b₁ h₁.
        Acaba-bind (cargar_hijos-Acaba f (n - 1) b₁ (omega arith))
          λ hs b₂ h₂. acaba {rest = b₂} (omega arith))

-- Reading an image ends, with a tree or at a fault, on every sequence of bytes: the fuel that `cargar_fs`
-- is given never runs out.
pub cargar_inode-ne-exhausted : (bs : List ℕ) → cargar_inode (2 * length bs + 1) bs ≢ exhausted
cargar_inode-ne-exhausted bs =
    Acaba-ne-exhausted (cargar_inode-Acaba (2 * length bs + 1) bs (omega arith))

length-guardar_campos : (m : Meta) (e : ℕ) → 8 ≤ length (guardar_campos m e)
unfolding guardar_campos
length-guardar_campos m e = simp (length-append, length-le_bytes) (omega arith)

mutual
  unfolding guardar_inode llamadas

  llamadas-lt : (n : Inode) → llamadas n < length (guardar_inode n)
  llamadas-lt (archivo m contenido) = omega (
    arith,
    length-guardar_campos m 0,
    length-append (guardar_campos m 0) (take m.tamano contenido),
  )
  llamadas-lt (directorio m hijos) = omega (
    arith,
    length-guardar_campos m 1,
    length-append (guardar_campos m 1) (le_bytes 8 (cantidad_hijos hijos) ++ guardar_hijos hijos),
    length-append (le_bytes 8 (cantidad_hijos hijos)) (guardar_hijos hijos),
    length-le_bytes 8 (cantidad_hijos hijos),
    llamadas_hijos-le hijos,
  )

  llamadas_hijos-le : (hs : Hijos) → llamadas_hijos hs ≤ 1 + length (guardar_hijos hs)
  llamadas_hijos-le vacio = omega arith
  llamadas_hijos-le (hijo h hs) = omega (
    arith,
    length-append (guardar_inode h) (guardar_hijos hs),
    llamadas-lt h,
    llamadas_hijos-le hs,
  )

-- With the fuel of `cargar_fs`, the image of a node whose fields fit it, and whose files have the
-- sizes that they state, reads back as that node, whatever bytes follow.
pub cargar_inode-guardar_inode :
    (n : Inode) (rest : List ℕ)
    → Cabe n
    → cargar_inode (2 * length (guardar_inode n ++ rest) + 1) (guardar_inode n ++ rest)
      ≡ done (n, rest)
cargar_inode-guardar_inode n rest h =
    cargar-guardar n (2 * length (guardar_inode n ++ rest) + 1) rest h
      (omega (arith, llamadas-lt n, length-append (guardar_inode n) rest))
