-- ===== src/Fs/Sound.antt =====
-- fisopfs/fisopfs.c: trees whose files have buffers of the sizes that they state.
use sistemas_operativos_1c.Base.{
  ℕ, ◌≡◌, refl, subst, sym, inl, inr, List, [], ◌∷◌, Bool, true, false, Option, none, some, done,
  fault, exhausted, then_do, if◌then◌else◌, Bool-cases,
}
use sistemas_operativos_1c.Fs.Inode.{Name, Inode, Hijos, archivo, directorio, vacio, hijo}
use sistemas_operativos_1c.Fs.Path.{same_name, tokens}
use sistemas_operativos_1c.Fs.Tree.{
  Found, nombre, hijo_llamado, enter, below, recorrer, modificar, modificar_hijo, agregar_al_final,
  quitar_hijo,
}
use sistemas_operativos_1c.Fs.Ops.{
  System, Outcome, recorrer_raiz, buscar_inode, escribir_nodo, escribir_en, guardar_fs,
  guardar_raiz,
}
use sistemas_operativos_1c.Fs.Contents.{IsFile}

unfoldable mutual
  pub Sound : Inode → Type 0
  Sound (archivo m c) = IsFile m c
  Sound (directorio m hs) = AllSound hs

  pub AllSound : Hijos → Type 0
  AllSound vacio = Unit {0}
  AllSound (hijo h hs) = Sound h × AllSound hs

-- The same of a root, of what a search finds, and of what a handler leaves.
abbrev pub SoundRoot : Option Inode → Type 0
SoundRoot none = Unit {0}
SoundRoot (some r) = Sound r

abbrev pub SoundFound : Option Found → Type 0
SoundFound none = Unit {0}
SoundFound (some (p, n)) = Sound n

abbrev pub Keeps : Outcome → Type 0
Keeps (done (s, a)) = SoundRoot s.raiz
Keeps fault = Unit {0}
Keeps exhausted = Unit {0}

modificar_hijo-Sound :
    (t : Name) (g : Inode → Inode) (hs : Hijos)
    → ((x : Inode) → Sound x → Sound (g x))
    → AllSound hs
    → AllSound (modificar_hijo t g hs)
unfolding modificar_hijo Sound
modificar_hijo-Sound t g vacio keep h = tt
modificar_hijo-Sound t g (hijo x hs) keep (here, h) = elim (Bool-cases (same_name (nombre x) t)) [
  | inl hit ↦ rw hit (keep x here, h)
  | inr miss ↦ rw miss (here, modificar_hijo-Sound t g hs keep h)
]

-- A write that keeps what it is applied to sound keeps the tree sound.
pub modificar-Sound :
    (p : List Name) (f : Inode → Inode) (n : Inode)
    → ((x : Inode) → Sound x → Sound (f x))
    → Sound n
    → Sound (modificar p f n)
unfolding modificar Sound
modificar-Sound [] f n keep h = keep n h
modificar-Sound (t ∷ p) f (archivo m c) keep h = h
modificar-Sound (t ∷ p) f (directorio m hs) keep h =
    modificar_hijo-Sound t (modificar p f) hs (λ x. modificar-Sound p f x keep) h

pub agregar_al_final-Sound :
    (n : Inode) (hs : Hijos) → Sound n → AllSound hs → AllSound (agregar_al_final n hs)
unfolding agregar_al_final Sound
agregar_al_final-Sound n vacio new h = (new, tt)
agregar_al_final-Sound n (hijo x hs) new (here, h) = (here, agregar_al_final-Sound n hs new h)

pub quitar_hijo-Sound : (t : Name) (hs : Hijos) → AllSound hs → AllSound (quitar_hijo t hs)
unfolding quitar_hijo Sound
quitar_hijo-Sound t vacio h = tt
quitar_hijo-Sound t (hijo x hs) (here, h) = elim (Bool-cases (same_name (nombre x) t)) [
  | inl hit ↦ rw hit h
  | inr miss ↦ rw miss (here, quitar_hijo-Sound t hs h)
]

abbrev SoundChild : Option Inode → Type 0
SoundChild none = Unit {0}
SoundChild (some x) = Sound x

hijo_llamado-Sound : (t : Name) (hs : Hijos) → AllSound hs → SoundChild (hijo_llamado t hs)
unfolding hijo_llamado Sound
hijo_llamado-Sound t vacio h = tt
hijo_llamado-Sound t (hijo x hs) (here, h) = elim (Bool-cases (same_name (nombre x) t)) [
  | inl hit ↦ rw hit here
  | inr miss ↦ rw miss (hijo_llamado-Sound t hs h)
]

below-Sound : (t : Name) (o : Option Found) → SoundFound o → SoundFound (below t o)
below-Sound t none h = tt
below-Sound t (some (p, n)) h = h

-- What a search finds in a sound tree is sound.
recorrer-Sound : (ts : List Name) (n : Inode) → Sound n → SoundFound (recorrer ts n)
unfolding recorrer Sound
recorrer-Sound [] n h = h
recorrer-Sound (t ∷ ts) (archivo m c) h = h
recorrer-Sound (t ∷ ts) (directorio m hs) h =
    go (hijo_llamado t hs) (hijo_llamado-Sound t hs h)
      (λ x sound. below-Sound t (recorrer ts x) (recorrer-Sound ts x sound))
  where
    go :
        (o : Option Inode)
        → SoundChild o
        → ((x : Inode) → Sound x → SoundFound (below t (recorrer ts x)))
        → SoundFound (enter o (λ x. below t (recorrer ts x)))
    go none sound k = tt
    go (some x) sound k = k x sound

pub buscar_inode-Sound :
    (s : System) (path : List ℕ) → SoundRoot s.raiz → SoundFound (buscar_inode s path)
unfolding buscar_inode
buscar_inode-Sound s path h = go s.raiz h
  where
    go : (o : Option Inode) → SoundRoot o → SoundFound (recorrer_raiz (tokens path) o)
    go none sound = tt
    go (some r) sound = recorrer-Sound (tokens path) r sound

pub escribir_nodo-Sound :
    (s : System) (p : List Name) (f : Inode → Inode)
    → ((x : Inode) → Sound x → Sound (f x))
    → SoundRoot s.raiz
    → SoundRoot (escribir_nodo s p f).raiz
unfolding escribir_nodo
escribir_nodo-Sound s p f keep h = go s.raiz refl h
  where
    go : (o : Option Inode) → s.raiz ≡ o → SoundRoot o → SoundRoot (escribir_en s p f o).raiz
    go none e sound = subst SoundRoot (sym e) sound
    go (some r) e sound = modificar-Sound p f r keep sound

-- Saving the image changes no tree.
pub guardar_fs-Keeps :
    (s : System) (k : System → Outcome)
    → SoundRoot s.raiz
    → ((s' : System) → SoundRoot s'.raiz → Keeps (k s'))
    → Keeps (then_do (guardar_fs s) k)
unfolding guardar_fs
guardar_fs-Keeps s k h keep = choose s.escribible
  where
    go : (o : Option Inode) → s.raiz ≡ o → SoundRoot o → Keeps (then_do (guardar_raiz s o) k)
    go none e sound = tt
    go (some r) e sound = keep _ (subst SoundRoot (sym e) sound)

    choose : (b : Bool) → Keeps (then_do (if b then guardar_raiz s s.raiz else done s) k)
    choose true = go s.raiz refl h
    choose false = keep s h
