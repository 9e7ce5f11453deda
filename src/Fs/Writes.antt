-- ===== src/Fs/Writes.antt =====
-- fisopfs/fisopfs.c: what the search through the tree finds after a write to one node.
use sistemas_operativos_1c.Base.{
  ℕ, ◌≡◌, ◌≢◌, refl, sym, ap, ◌∙◌, inl, inr, List, [], ◌∷◌, true, false, Bool-cases, Option, none,
  some, if◌then◌else◌, subst,
}
use mathlib.Core.Path.{subst₂, ap₂}
use mathlib.Core.Bool.{false≢true}
use sistemas_operativos_1c.Fs.Inode.{
  Name, Meta, Inode, Hijos, archivo, directorio, vacio, hijo, es_directorio,
}
use sistemas_operativos_1c.Fs.Path.{same_name, same_name_self, same_name→eq}
use sistemas_operativos_1c.Fs.Tree.{
  nombre, hijo_llamado, below, below_inv, enter, recorrer, en_direccion, modificar_hijo, modificar,
  recorrer-en_direccion,
}

hijo_llamado_nombre :
    (t : Name) (hs : Hijos) (c : Inode) → hijo_llamado t hs ≡ some c → nombre c ≡ t
unfolding hijo_llamado
hijo_llamado_nombre t vacio c h = cc
hijo_llamado_nombre t (hijo k ks) c h = elim (Bool-cases (same_name (nombre k) t)) [
  | inl hit ↦
      let found : some k ≡ some c = rw hit at h in
      let same : k ≡ c = cc in ap nombre (sym same) ∙ same_name→eq (nombre k) t hit
  | inr miss ↦ hijo_llamado_nombre t ks c (rw miss at h)
]

same_name_ne : (a b : Name) → a ≢ b → same_name a b ≡ false
same_name_ne a b h = elim (Bool-cases (same_name a b)) [
  | inl e ↦ absurd (h (same_name→eq a b e))
  | inr e ↦ e
]

-- The child that was written to is still the first of its name.
pub hijo_llamado_written :
    (t : Name) (g : Inode → Inode) (hs : Hijos) (c : Inode)
    → hijo_llamado t hs ≡ some c
    → nombre (g c) ≡ nombre c
    → hijo_llamado t (modificar_hijo t g hs) ≡ some (g c)
unfolding hijo_llamado modificar_hijo
hijo_llamado_written t g vacio c h keep = cc
hijo_llamado_written t g (hijo k ks) c h keep = elim (Bool-cases (same_name (nombre k) t)) [
  | inl hit ↦
      let found : some k ≡ some c = rw hit at h in
      let same : k ≡ c = cc in
      let still : same_name (nombre (g k)) t ≡ true =
        subst (λ y. same_name (nombre (g y)) t ≡ true) (sym same)
          (ap (λ z. same_name z t) (keep ∙ ap nombre (sym same)) ∙ hit) in
      rw (hit, still) (ap (λ y. some (g y)) same)
  | inr miss ↦ rw (miss, miss) (hijo_llamado_written t g ks c (rw miss at h) keep)
]

-- Other names are looked up as before.
pub hijo_llamado_other :
    (t u : Name) (g : Inode → Inode) (hs : Hijos)
    → ((c : Inode) → hijo_llamado t hs ≡ some c → nombre (g c) ≡ nombre c)
    → t ≢ u
    → hijo_llamado u (modificar_hijo t g hs) ≡ hijo_llamado u hs
unfolding hijo_llamado modificar_hijo
hijo_llamado_other t u g vacio keep differ = refl
hijo_llamado_other t u g (hijo k ks) keep differ = elim (Bool-cases (same_name (nombre k) t)) [
  | inl hit ↦
      let named : nombre k ≡ t = same_name→eq (nombre k) t hit in
      let kept : nombre (g k) ≡ nombre k =
        keep k (ap (λ b. if b then some k else hijo_llamado t ks) hit) in
      let other : same_name (nombre k) u ≡ false =
        same_name_ne (nombre k) u (λ e. differ (sym named ∙ e)) in
      let still : same_name (nombre (g k)) u ≡ false = ap (λ z. same_name z u) kept ∙ other in
      rw (hit, other, hijo_llamado, still)
  | inr miss ↦
      let rest =
        hijo_llamado_other t u g ks
          (λ c e. keep c (ap (λ b. if b then some k else hijo_llamado t ks) miss ∙ e)) differ in
      rw miss (ap (λ o. if same_name (nombre k) u then some k else o) rest)
]

stops :
    (t : Name) (ts : List Name) (y : Inode)
    → es_directorio y ≡ false
    → recorrer (t ∷ ts) y ≡ some ([], y)
unfolding recorrer
stops t ts (archivo m c) h = refl
stops t ts (directorio m hs) h = cc

-- Writes at the address that a search returned: they leave the name of the root as it was, unless the
-- node is the root.
modificar_nombre :
    (p : List Name) (f : Inode → Inode) (n x : Inode)
    → en_direccion p n ≡ some x
    → nombre (f x) ≡ nombre x
    → nombre (modificar p f n) ≡ nombre n
unfolding modificar en_direccion
modificar_nombre [] f n x h keep =
    let same : n ≡ x = cc in subst (λ y. nombre (f y) ≡ nombre y) (sym same) keep
modificar_nombre (t ∷ p) f (archivo m c) x h keep = refl
modificar_nombre (t ∷ p) f (directorio m hs) x h keep = refl

-- A search that found a node finds it again after a write to it that keeps its name and its kind.
pub recorrer-modificar :
    (ts p : List Name) (f : Inode → Inode) (n x : Inode)
    → recorrer ts n ≡ some (p, x)
    → nombre (f x) ≡ nombre x
    → es_directorio (f x) ≡ es_directorio x
    → recorrer ts (modificar p f n) ≡ some (p, f x)
unfolding recorrer modificar
recorrer-modificar [] p f n x h keep kind =
    let at_root : [] ≡ p = cc in
    let same : n ≡ x = cc in
    subst₂ (λ q y. recorrer [] (modificar q f n) ≡ some (q, f y)) at_root same refl
recorrer-modificar (t ∷ ts) p f (archivo m c) x h keep kind =
    let at_root : [] ≡ p = cc in
    let same : archivo m c ≡ x = cc in
    subst (λ q. recorrer (t ∷ ts) (modificar q f (archivo m c)) ≡ some (q, f x)) at_root
      (ap (λ y. recorrer (t ∷ ts) (f y)) same
        ∙ stops t ts (f x) (kind ∙ ap es_directorio (sym same)))
recorrer-modificar (t ∷ ts) p f (directorio m hs) x h keep kind =
    go (hijo_llamado t hs) refl (λ q c e. recorrer-modificar ts q f c x e keep kind) h
  where
    go :
        (o : Option Inode)
        → hijo_llamado t hs ≡ o
        → ((q : List Name) (c : Inode)
            → recorrer ts c ≡ some (q, x)
            → recorrer ts (modificar q f c) ≡ some (q, f x))
        → enter o (λ c. below t (recorrer ts c)) ≡ some (p, x)
        → recorrer (t ∷ ts) (modificar p f (directorio m hs)) ≡ some (p, f x)
    go none e ih k = cc
    go (some c) e ih k =
        let (q, found, path) = below_inv t p x (recorrer ts c) k in
        subst (λ z. recorrer (t ∷ ts) (modificar z f (directorio m hs)) ≡ some (z, f x)) (sym path)
          (ap (λ o. enter o (λ c'. below t (recorrer ts c')))
              (hijo_llamado_written t (modificar q f) hs c e
                (modificar_nombre q f c x (recorrer-en_direccion ts q c x found) keep))
            ∙ ap (below t) (ih q c found))

some_eq : (a b : Inode) → some a ≡ some b → a ≡ b
some_eq a b h = cc

address_of_file :
    (p : List Name) (m : Meta) (c : List ℕ) (x : Inode)
    → en_direccion p (archivo m c) ≡ some x
    → p ≡ []
unfolding en_direccion
address_of_file [] m c x h = refl
address_of_file (t ∷ p) m c x h = cc

enter_inv :
    (o : Option Inode) (p : List Name) (x : Inode)
    → enter o (en_direccion p) ≡ some x
    → (c : Inode) × (o ≡ some c) × (en_direccion p c ≡ some x)
enter_inv none p x h = cc
enter_inv (some c) p x h = (c, refl, h)

-- A file at another address is found with the same contents after a write to a file.
pub recorrer-modificar_other :
    (us q p : List Name) (f : Inode → Inode) (n : Inode) (m k : Meta) (c d : List ℕ)
    → recorrer us n ≡ some (q, archivo k d)
    → en_direccion p n ≡ some (archivo m c)
    → nombre (f (archivo m c)) ≡ m.nombre
    → p ≢ q
    → recorrer us (modificar p f n) ≡ some (q, archivo k d)
unfolding recorrer modificar en_direccion
recorrer-modificar_other [] q p f (archivo m' c') m k c d h at keep differ =
    absurd (differ (address_of_file p m' c' (archivo m c) at ∙ cc))
recorrer-modificar_other [] q p f (directorio m' hs) m k c d h at keep differ = cc
recorrer-modificar_other (u ∷ us) q p f (archivo m' c') m k c d h at keep differ =
    absurd (differ (address_of_file p m' c' (archivo m c) at ∙ cc))
recorrer-modificar_other (u ∷ us) q [] f (directorio m' hs) m k c d h at keep differ = cc
recorrer-modificar_other (u ∷ us) q (t ∷ p) f (directorio m' hs) m k c d h at keep differ =
    let (child, et, at') = enter_inv (hijo_llamado t hs) p (archivo m c) at in
    let named = modificar_nombre p f child (archivo m c) at' keep in
    elim (Bool-cases (same_name t u)) [
      | inl same ↦
          same_child child et named (same_name→eq t u same) (λ q' found apart.
            recorrer-modificar_other us q' p f child m k c d found at' keep apart)
      | inr other ↦
          ap (λ o. enter o (λ h'. below u (recorrer us h')))
            (hijo_llamado_other t u (modificar p f) hs
              (λ c₀ e.
                let here : c₀ ≡ child = some_eq c₀ child (sym e ∙ et) in
                subst (λ y. nombre (modificar p f y) ≡ nombre y) (sym here) named)
              (λ e.
                false≢true (sym other ∙ subst (λ z. same_name t z ≡ true) e (same_name_self t))))
          ∙ h
    ]
  where
    same_child :
        (child : Inode)
        → hijo_llamado t hs ≡ some child
        → nombre (modificar p f child) ≡ nombre child
        → t ≡ u
        → ((q' : List Name)
            → recorrer us child ≡ some (q', archivo k d)
            → p ≢ q'
            → recorrer us (modificar p f child) ≡ some (q', archivo k d))
        → enter
            (hijo_llamado u (modificar_hijo t (modificar p f) hs))
            (λ h'. below u (recorrer us h'))
          ≡ some (q, archivo k d)
    same_child child et named e ih =
        let at_u : hijo_llamado u hs ≡ some child =
          subst (λ z. hijo_llamado z hs ≡ some child) e et in
        let found : below u (recorrer us child) ≡ some (q, archivo k d) =
          subst (λ o. enter o (λ h'. below u (recorrer us h')) ≡ some (q, archivo k d)) at_u h in
        let (q', inner, path) = below_inv u q (archivo k d) (recorrer us child) found in
        let written : hijo_llamado u (modificar_hijo t (modificar p f) hs)
            ≡ some (modificar p f child) =
          subst
            (λ z. hijo_llamado z (modificar_hijo t (modificar p f) hs) ≡ some (modificar p f child))
            e (hijo_llamado_written t (modificar p f) hs child et named) in
        ap (λ o. enter o (λ h'. below u (recorrer us h'))) written
        ∙ ap (below u) (ih q' inner (λ same. differ (ap₂ ◌∷◌ e same ∙ sym path)))
        ∙ ap (λ z. some (z, archivo k d)) (sym path)
