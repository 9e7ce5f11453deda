-- ===== src/Fs/Removal.antt =====
-- fisopfs/fisopfs.c: `fisopfs_unlink` where it succeeds.
use sistemas_operativos_1c.Base.{
  ℕ, ◌<◌, ◌≡◌, refl, sym, ap, ◌∙◌, ◌⊎◌, inl, inr, List, [], ◌∷◌, ◌++◌, true, false, none, some,
  done, then_do, length,
}
use sistemas_operativos_1c.Fs.Inode.{
  Name, Meta, Inode, Hijos, archivo, directorio, vacio, hijo, max_filename_length,
}
use sistemas_operativos_1c.Fs.Path.{
  tokens, split_last, same_name, same_name_self, tokens-split_last,
}
use sistemas_operativos_1c.Fs.Tree.{nombre, recorrer, hijo_llamado, enter, modificar, quitar_hijo}
use sistemas_operativos_1c.Fs.Writes.{recorrer-modificar}
use sistemas_operativos_1c.Fs.Ops.{
  System, Answer, recorrer_raiz, buscar_inode, sin_hijo, hijo_de, quitar_de, eliminar_inode,
  escribir_nodo, escribir_en,
}
use sistemas_operativos_1c.Fs.Handlers.{save_and_return, borrar, unlink_found, fisopfs_unlink}
use sistemas_operativos_1c.Fs.Files.{saved, saved_raiz, save_and_return_lem}
use sistemas_operativos_1c.Fs.Descent.{recorrer-snoc}
use sistemas_operativos_1c.Fs.Dirs.{buscar_padre_lem}

-- At most one child bears the name.
abbrev pub Once : Name → Hijos → Type 0
Once t vacio = Unit {0}
Once t (hijo h hs) =
    ((same_name (nombre h) t ≡ true) × (hijo_llamado t hs ≡ none))
    ⊎ ((same_name (nombre h) t ≡ false) × Once t hs)

quitar_hijo-gone : (t : Name) (hs : Hijos) → Once t hs → hijo_llamado t (quitar_hijo t hs) ≡ none
unfolding hijo_llamado quitar_hijo
quitar_hijo-gone t vacio h = refl
quitar_hijo-gone t (hijo x hs) (inl (hit, rest)) = rw hit rest
quitar_hijo-gone t (hijo x hs) (inr (miss, h)) = rw (miss, miss) (quitar_hijo-gone t hs h)

hijo_de-snoc : (p : List Name) (t : Name) → hijo_de p (p ++ t ∷ []) ≡ some t
unfolding hijo_de
hijo_de-snoc [] t = refl
hijo_de-snoc (u ∷ p) t = rw (same_name_self u) (hijo_de-snoc p t)

-- The tree without the child `t` of the directory at `p`.
abbrev pub without_child : ℕ → List Name → Name → Inode → Inode
without_child now p t r = modificar p (sin_hijo now t) r

eliminar_inode_lem :
    (s : System) (r : Inode) (p : List Name) (t : Name) (m : Meta) (hs : Hijos) (x : Inode)
    → s.raiz ≡ some r
    → eliminar_inode s (some (p, directorio m hs)) (p ++ t ∷ [], x)
      ≡ record s { raiz = some (without_child s.now p t r) }
unfolding eliminar_inode quitar_de escribir_nodo
eliminar_inode_lem s r p t m hs x root =
    ap (quitar_de s p) (hijo_de-snoc p t) ∙ ap (escribir_en s p (sin_hijo s.now t)) root

-- Where the part of the path before its last slash is a directory in which exactly one child bears the name
-- behind it, of 1 to 63 bytes, and that child is a file, `unlink` succeeds, and the path finds nothing on the
-- system that it leaves.
pub unlink-gone :
    (s : System) (path before : List ℕ) (c : ℕ) (cs : List ℕ) (r : Inode) (p : List Name)
    (m k : Meta) (hs : Hijos) (d : List ℕ)
    → split_last path ≡ some (before, c ∷ cs)
    → length (c ∷ cs) < max_filename_length
    → s.raiz ≡ some r
    → buscar_inode s before ≡ some (p, directorio m hs)
    → hijo_llamado (c ∷ cs) hs ≡ some (archivo k d)
    → Once (c ∷ cs) hs
    → (t : System) × (fisopfs_unlink s path ≡ done (t, Answer.value 0))
      × (buscar_inode t path ≡ none)
unfolding fisopfs_unlink borrar buscar_inode
unlink-gone s path before c cs r p m k hs d split low root parent child once = (
  saved s' r',
  ap (unlink_found s path) found
      ∙ ap
          (λ q. then_do q (λ par.
            save_and_return (eliminar_inode s par.padre (p ++ (c ∷ cs) ∷ [], archivo k d)) 0))
          (buscar_padre_lem s path before c cs split low
            ∙ ap (λ o. done (record { padre = o; nombre = c ∷ cs })) parent)
      ∙ ap (λ u. save_and_return u 0) (eliminar_inode_lem s r p (c ∷ cs) m hs (archivo k d) root)
      ∙ save_and_return_lem s' r' 0 refl,
  ap (recorrer_raiz (tokens path)) (saved_raiz s' r')
      ∙ ap (λ ts. recorrer ts r') all_tokens
      ∙ recorrer-snoc (tokens before) p (c ∷ cs) r' (record m { modificacion = s.now })
          (quitar_hijo (c ∷ cs) hs)
          (recorrer-modificar (tokens before) p (sin_hijo s.now (c ∷ cs)) r (directorio m hs) walk
            refl refl)
      ∙ ap (λ o. enter o (λ x. some (p ++ (c ∷ cs) ∷ [], x))) (quitar_hijo-gone (c ∷ cs) hs once),
)
  where
    r' : Inode
    r' = without_child s.now p (c ∷ cs) r

    s' : System
    s' = record s { raiz = some r' }

    all_tokens : tokens path ≡ tokens before ++ (c ∷ cs) ∷ []
    all_tokens = tokens-split_last path before c cs split

    walk : recorrer (tokens before) r ≡ some (p, directorio m hs)
    walk = ap (recorrer_raiz (tokens before)) (sym root) ∙ parent

    found : recorrer_raiz (tokens path) s.raiz ≡ some (p ++ (c ∷ cs) ∷ [], archivo k d)
    found =
        ap (recorrer_raiz (tokens path)) root
        ∙ ap (λ ts. recorrer ts r) all_tokens
        ∙ recorrer-snoc (tokens before) p (c ∷ cs) r m hs walk
        ∙ ap (λ o. enter o (λ x. some (p ++ (c ∷ cs) ∷ [], x))) child
