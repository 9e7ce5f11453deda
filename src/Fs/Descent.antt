-- ===== src/Fs/Descent.antt =====
-- fisopfs/fisopfs.c: a search with one name more, and the child that is added last.
use mathlib.Core.Path.{subst₂}
use sistemas_operativos_1c.Base.{
  ◌≡◌, refl, sym, ap, ◌∙◌, inl, inr, List, [], ◌∷◌, ◌++◌, Option, none, some, Bool-cases,
}
use sistemas_operativos_1c.Fs.Inode.{Name, Meta, Inode, Hijos, archivo, directorio, vacio, hijo}
use sistemas_operativos_1c.Fs.Path.{same_name, same_name_self}
use sistemas_operativos_1c.Fs.Tree.{
  Found, nombre, recorrer, hijo_llamado, enter, below, below_inv, agregar_al_final,
}

-- A search with one name more goes on in the directory that was found.
pub recorrer-snoc :
    (ts p : List Name) (t : Name) (n : Inode) (m : Meta) (hs : Hijos)
    → recorrer ts n ≡ some (p, directorio m hs)
    → recorrer (ts ++ t ∷ []) n ≡ enter (hijo_llamado t hs) (λ c. some (p ++ t ∷ [], c))
unfolding recorrer
recorrer-snoc [] p t n m hs h =
    let at_root : [] ≡ p = cc in
    let same : directorio m hs ≡ n = cc in
    subst₂ (λ q x. recorrer (t ∷ []) x ≡ enter (hijo_llamado t hs) (λ c. some (q ++ t ∷ [], c)))
      at_root same (go (hijo_llamado t hs))
  where
    go :
        (o : Option Inode)
        → enter {B = Found} o (λ c. below t (some ([], c))) ≡ enter o (λ c. some (t ∷ [], c))
    go none = refl
    go (some c) = refl
recorrer-snoc (u ∷ ts) p t (archivo m' c) m hs h = cc
recorrer-snoc (u ∷ ts) p t (directorio m' gs) m hs h =
    go (hijo_llamado u gs) (λ q c e. recorrer-snoc ts q t c m hs e) h
  where
    deeper :
        (o : Option Inode) (q : List Name)
        → below u (enter {B = Found} o (λ c. some (q ++ t ∷ [], c)))
          ≡ enter o (λ c. some (u ∷ (q ++ t ∷ []), c))
    deeper none q = refl
    deeper (some c) q = refl

    go :
        (o : Option Inode)
        → ((q : List Name) (c : Inode)
            → recorrer ts c ≡ some (q, directorio m hs)
            → recorrer (ts ++ t ∷ []) c ≡ enter (hijo_llamado t hs) (λ d. some (q ++ t ∷ [], d)))
        → enter o (λ c. below u (recorrer ts c)) ≡ some (p, directorio m hs)
        → enter o (λ c. below u (recorrer (ts ++ t ∷ []) c))
          ≡ enter (hijo_llamado t hs) (λ d. some (p ++ t ∷ [], d))
    go none ih k = cc
    go (some c) ih k =
        let (q, found, path) = below_inv u p (directorio m hs) (recorrer ts c) k in
        ap (below u) (ih q c found)
        ∙ deeper (hijo_llamado t hs) q
        ∙ ap (λ z. enter (hijo_llamado t hs) (λ d. some (z ++ t ∷ [], d))) (sym path)

-- A child that is added under a new name is the one that the name finds.
pub hijo_llamado-agregar_al_final :
    (n : Inode) (hs : Hijos)
    → hijo_llamado (nombre n) hs ≡ none
    → hijo_llamado (nombre n) (agregar_al_final n hs) ≡ some n
unfolding hijo_llamado agregar_al_final
hijo_llamado-agregar_al_final n vacio h = rw (same_name_self (nombre n))
hijo_llamado-agregar_al_final n (hijo x hs) h =
    elim (Bool-cases (same_name (nombre x) (nombre n))) [
      | inl hit ↦ (let found : some x ≡ none = rw hit at h in cc)
      | inr miss ↦
          let rest : hijo_llamado (nombre n) hs ≡ none = rw miss at h in
          rw miss (hijo_llamado-agregar_al_final n hs rest)
    ]

pub no_child :
    (o : Option Inode) (q : List Name) → enter {B = Found} o (λ c. some (q, c)) ≡ none → o ≡ none
no_child none q h = refl
no_child (some c) q h = cc
