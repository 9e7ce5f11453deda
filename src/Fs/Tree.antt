-- ===== src/Fs/Tree.antt =====
-- fisopfs/fisopfs.c: the search through the tree, and writes through the pointer that it returns.
-- A pointer to a node is its address: the names on the way to it from the root. Where several children
-- of a directory bear one name, the search takes the first of them, and so does an address.
use sistemas_operativos_1c.Base.{
  ◌≡◌, refl, sym, ap, ◌∙◌, inl, inr, List, [], ◌∷◌, Bool-cases, Option, none, some, if◌then◌else◌,
  arith,
}
use mathlib.Core.Option
use sistemas_operativos_1c.Fs.Inode.{
  Name, Meta, Inode, Hijos, archivo, directorio, vacio, hijo, meta,
}
use sistemas_operativos_1c.Fs.Path.{same_name}

abbrev pub nombre : Inode → Name
nombre n = (meta n).nombre

-- The loop over `hijos` that stops at the first name that is equal.
unfoldable pub hijo_llamado : Name → Hijos → Option Inode
hijo_llamado t vacio = none
hijo_llamado t (hijo h hs) = if same_name (nombre h) t then some h else hijo_llamado t hs

abbrev pub Found : Type 0
Found = List Name × Inode

abbrev pub below : Name → Option Found → Option Found
below t none = none
below t (some (p, n)) = some (t ∷ p, n)

abbrev pub enter {ℓ} : {B : Type ℓ} → Option Inode → (Inode → Option B) → Option B
enter none k = none
enter (some h) k = k h

-- The loop over the tokens: it also stops, and succeeds, at a node that is no directory.
unfoldable pub recorrer : List Name → Inode → Option Found
recorrer [] n = some ([], n)
recorrer (t ∷ ts) (archivo m contenido) = some ([], archivo m contenido)
recorrer (t ∷ ts) (directorio m hijos) = enter (hijo_llamado t hijos) (λ h. below t (recorrer ts h))

-- The node at an address.
unfoldable pub en_direccion : List Name → Inode → Option Inode
en_direccion [] n = some n
en_direccion (t ∷ p) (archivo m contenido) = none
en_direccion (t ∷ p) (directorio m hijos) = enter (hijo_llamado t hijos) (en_direccion p)

unfoldable pub modificar_hijo : Name → (Inode → Inode) → Hijos → Hijos
modificar_hijo t f vacio = vacio
modificar_hijo t f (hijo h hs) =
    if same_name (nombre h) t then hijo (f h) hs else hijo h (modificar_hijo t f hs)

-- Assignments through the pointer to the node at an address.
unfoldable pub modificar : List Name → (Inode → Inode) → Inode → Inode
modificar [] f n = f n
modificar (t ∷ p) f (archivo m contenido) = archivo m contenido
modificar (t ∷ p) f (directorio m hijos) = directorio m (modificar_hijo t (modificar p f) hijos)

-- `hijos[cantidad_hijos] = hijo`
unfoldable pub agregar_al_final : Inode → Hijos → Hijos
agregar_al_final n vacio = hijo n vacio
agregar_al_final n (hijo h hs) = hijo h (agregar_al_final n hs)

-- Shifting the array down over the entry that is taken out.
unfoldable pub quitar_hijo : Name → Hijos → Hijos
quitar_hijo t vacio = vacio
quitar_hijo t (hijo h hs) = if same_name (nombre h) t then hs else hijo h (quitar_hijo t hs)

pub below_inv :
    (t : Name) (p : List Name) (x : Inode) (o : Option Found)
    → below t o ≡ some (p, x)
    → (q : List Name) × (o ≡ some (q, x)) × (p ≡ t ∷ q)
below_inv t p x none h = cc
below_inv t p x (some (q, y)) h =
    let same : y ≡ x = cc in let path : t ∷ q ≡ p = cc in (q, ap (λ z. some (q, z)) same, sym path)

-- Where the search through the tree succeeds, the node that it returns is the one that stands at
-- the address that it returns.
pub recorrer-en_direccion :
    (ts p : List Name) (n x : Inode) → recorrer ts n ≡ some (p, x) → en_direccion p n ≡ some x
unfolding recorrer en_direccion
recorrer-en_direccion [] p n x h = ground arith
recorrer-en_direccion (t ∷ ts) p (archivo m c) x h = ground arith
recorrer-en_direccion (t ∷ ts) p (directorio m hs) x h =
    go (hijo_llamado t hs) refl (λ q c e. recorrer-en_direccion ts q c x e) h
  where
    go :
        (o : Option Inode)
        → hijo_llamado t hs ≡ o
        → ((q : List Name) (c : Inode) → recorrer ts c ≡ some (q, x) → en_direccion q c ≡ some x)
        → enter o (λ c. below t (recorrer ts c)) ≡ some (p, x)
        → en_direccion p (directorio m hs) ≡ some x
    go none e ih k = cc
    go (some c) e ih k =
        let (q, found, path) = below_inv t p x (recorrer ts c) k in
        ap (λ z. en_direccion z (directorio m hs)) path
        ∙ ap (λ o. enter o (en_direccion q)) e
        ∙ ih q c found

-- A node that is found as a directory was reached by all the tokens.
pub recorrer_all :
    (ts p : List Name) (n : Inode) (m : Meta) (hs : Hijos)
    → recorrer ts n ≡ some (p, directorio m hs)
    → p ≡ ts
unfolding recorrer
recorrer_all [] p n m hs h = ground arith
recorrer_all (t ∷ ts) p (archivo m' c) m hs h = ground arith
recorrer_all (t ∷ ts) p (directorio m' gs) m hs h =
    go (hijo_llamado t gs) (λ q c e. recorrer_all ts q c m hs e) h
  where
    go :
        (o : Option Inode)
        → ((q : List Name) (c : Inode) → recorrer ts c ≡ some (q, directorio m hs) → q ≡ ts)
        → enter o (λ c. below t (recorrer ts c)) ≡ some (p, directorio m hs)
        → p ≡ t ∷ ts
    go none ih k = cc
    go (some c) ih k =
        let (q, found, path) = below_inv t p (directorio m hs) (recorrer ts c) k in
        path ∙ ap (◌∷◌ t) (ih q c found)

-- The first child of a name after writes to it that keep its name.
hijo_llamado-modificar_hijo :
    (t : Name) (f : Inode → Inode) (hs : Hijos)
    → ((y : Inode) → nombre (f y) ≡ nombre y)
    → hijo_llamado t (modificar_hijo t f hs) ≡ Option.map f (hijo_llamado t hs)
unfolding hijo_llamado modificar_hijo
hijo_llamado-modificar_hijo t f vacio keep = refl
hijo_llamado-modificar_hijo t f (hijo h hs) keep = elim (Bool-cases (same_name (nombre h) t)) [
  | inl hit ↦ rw (hit, keep h, hit)
  | inr miss ↦ rw (miss, miss) (hijo_llamado-modificar_hijo t f hs keep)
]

modificar_nombre :
    (p : List Name) (f : Inode → Inode)
    → ((y : Inode) → nombre (f y) ≡ nombre y)
    → (n : Inode) → nombre (modificar p f n) ≡ nombre n
unfolding modificar
modificar_nombre [] f keep n = keep n
modificar_nombre (t ∷ p) f keep (archivo m c) = refl
modificar_nombre (t ∷ p) f keep (directorio m hs) = refl

-- Writes that keep the names are seen at their address.
pub en_direccion-modificar :
    (p : List Name) (f : Inode → Inode) (n x : Inode)
    → ((y : Inode) → nombre (f y) ≡ nombre y)
    → en_direccion p n ≡ some x
    → en_direccion p (modificar p f n) ≡ some (f x)
unfolding en_direccion modificar
en_direccion-modificar [] f n x keep h = ground arith
en_direccion-modificar (t ∷ p) f (archivo m c) x keep h = cc
en_direccion-modificar (t ∷ p) f (directorio m hs) x keep h =
    rw (hijo_llamado-modificar_hijo t (modificar p f) hs (modificar_nombre p f keep))
      (go (hijo_llamado t hs) (λ c e. en_direccion-modificar p f c x keep e) h)
  where
    go :
        (o : Option Inode)
        → ((c : Inode) → en_direccion p c ≡ some x → en_direccion p (modificar p f c) ≡ some (f x))
        → enter o (en_direccion p) ≡ some x
        → enter (Option.map (modificar p f) o) (en_direccion p) ≡ some (f x)
    go none ih k = cc
    go (some c) ih k = ih c k
