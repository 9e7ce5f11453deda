-- ===== src/Fs/Dirs.antt =====
-- fisopfs/fisopfs.c: `fisopfs_mkdir` and `fisopfs_create` where they succeed.
use Prim.Native.Nat.{bit_or, bit_and}
use sistemas_operativos_1c.Base.{
  ℕ, ◌<◌, ◌≡◌, refl, sym, ap, ◌∙◌, subst, inl, inr, List, [], ◌∷◌, ◌++◌, Bool, true, false, none,
  some, done, then_do, if◌then◌else◌, leb, length, arith, Bool-cases,
}
use sistemas_operativos_1c.Fs.Inode.{
  Name, Meta, Inode, Hijos, archivo, directorio, vacio, max_filename_length,
}
use sistemas_operativos_1c.Fs.Path.{
  slash, tokens, split_last, same_name, same_name→eq, tokens-split_last,
}
use sistemas_operativos_1c.Fs.Disk.{guardar_inode}
use sistemas_operativos_1c.Fs.Tree.{
  nombre, recorrer, hijo_llamado, enter, modificar, agregar_al_final,
}
use sistemas_operativos_1c.Fs.Writes.{recorrer-modificar}
use sistemas_operativos_1c.Fs.Ops.{
  System, Answer, Outcome, s_ifdir, s_ifreg, nueva, crear_inode, recorrer_raiz, buscar_inode,
  buscar_padre, padre_de, con_hijo, agregar_hijo, escribir_nodo, escribir_en, guardar_fs,
  guardar_raiz,
}
use sistemas_operativos_1c.Fs.Handlers.{crear_si_falta, crear_en, fisopfs_mkdir, fisopfs_create}
use sistemas_operativos_1c.Fs.Files.{saved, saved_raiz}
use sistemas_operativos_1c.Fs.Descent.{recorrer-snoc, hijo_llamado-agregar_al_final, no_child}

-- The new node, and the mode that it gets.
abbrev pub new_node : (carpeta : Bool) → Meta → Inode
new_node true m = directorio m vacio
new_node false m = archivo m []

abbrev pub modo_de : (carpeta : Bool) → (mode : ℕ) → ℕ
modo_de true mode = bit_or s_ifdir mode
modo_de false mode = bit_or s_ifreg (bit_and mode 0o777)

-- `mkdir` for a directory and `create` for a file.
abbrev pub make : (carpeta : Bool) → System → List ℕ → (mode : ℕ) → Outcome
make true s path mode = fisopfs_mkdir s path mode
make false s path mode = fisopfs_create s path mode

new_node_nombre : (carpeta : Bool) (m : Meta) → nombre (new_node carpeta m) ≡ m.nombre
new_node_nombre true m = refl
new_node_nombre false m = refl

make_lem :
    (carpeta : Bool) (s : System) (path : List ℕ) (mode : ℕ)
    → make carpeta s path mode
      ≡ then_do
          (buscar_padre s path)
          (λ parent. crear_en s path parent (modo_de carpeta mode) carpeta)
unfolding fisopfs_mkdir fisopfs_create
make_lem true s path mode = refl
make_lem false s path mode = refl

crear_inode_lem :
    (s : System) (name : Name) (modo : ℕ) (carpeta : Bool)
    → length name < max_filename_length
    → crear_inode s name modo carpeta ≡ some (new_node carpeta (nueva s name modo))
unfolding crear_inode
crear_inode_lem s name modo carpeta low =
    let short : leb max_filename_length (length name) ≡ false = ground arith in
    rw short (go carpeta)
  where
    go :
        (b : Bool)
        → (if b
            then some (directorio (nueva s name modo) vacio)
            else some (archivo (nueva s name modo) []))
          ≡ some (new_node b (nueva s name modo))
    go true = refl
    go false = refl

root_name :
    (before : List ℕ) (c : ℕ) (cs : List ℕ) → split_last (slash ∷ []) ≡ some (before, c ∷ cs) → ⊥
unfolding split_last
root_name before c cs h = cc

pub buscar_padre_lem :
    (s : System) (path before : List ℕ) (c : ℕ) (cs : List ℕ)
    → split_last path ≡ some (before, c ∷ cs)
    → length (c ∷ cs) < max_filename_length
    → buscar_padre s path ≡ done (record { padre = buscar_inode s before; nombre = c ∷ cs })
unfolding buscar_padre
buscar_padre_lem s path before c cs split low =
    let short : leb max_filename_length (length (c ∷ cs)) ≡ false = ground arith in
    ap (padre_de s path) split ∙ rw (not_root, short)
  where
    not_root : same_name path (slash ∷ []) ≡ false
    not_root = elim (Bool-cases (same_name path (slash ∷ []))) [
      | inl root ↦
          let whole : split_last (slash ∷ []) ≡ some (before, c ∷ cs) =
            subst (λ xs. split_last xs ≡ some (before, c ∷ cs))
              (same_name→eq path (slash ∷ []) root) split in
          absurd (root_name before c cs whole)
      | inr other ↦ other
    ]

-- The image that is saved before the child is added.
guardar_then :
    (s : System) (r : Inode) (k : System → Outcome)
    → s.raiz ≡ some r
    → then_do (guardar_fs s) k ≡ k (saved s r)
unfolding guardar_fs
guardar_then s r k root =
    ap (λ o. then_do {B = System × Answer} (if s.escribible then guardar_raiz s o else done s) k)
      root
    ∙ go s.escribible
  where
    go :
        (b : Bool)
        → then_do {B = System × Answer}
            (if b then done (record s { disco = some (guardar_inode r) }) else done s)
            k
          ≡ k (if b then record s { disco = some (guardar_inode r) } else s)
    go true = refl
    go false = refl

saved_disco :
    (s : System) (r : Inode)
    → (saved s r).disco ≡ (if s.escribible then some (guardar_inode r) else s.disco)
saved_disco s r = go s.escribible
  where
    go :
        (b : Bool)
        → (if b then record s { disco = some (guardar_inode r) } else s).disco
          ≡ (if b then some (guardar_inode r) else s.disco)
    go true = refl
    go false = refl

-- The tree with the node added to the directory at `p`.
abbrev pub with_child : ℕ → List Name → Inode → Inode → Inode
with_child now p n r = modificar p (con_hijo now n) r

make_result :
    (carpeta : Bool) (s : System) (path before : List ℕ) (c : ℕ) (cs : List ℕ) (mode : ℕ)
    (r : Inode) (p : List Name) (m : Meta) (hs : Hijos)
    → split_last path ≡ some (before, c ∷ cs)
    → length (c ∷ cs) < max_filename_length
    → s.raiz ≡ some r
    → buscar_inode s before ≡ some (p, directorio m hs)
    → buscar_inode s path ≡ none
    → let n = new_node carpeta (nueva s (c ∷ cs) (modo_de carpeta mode)) in
      make carpeta s path mode
      ≡ done (record (saved s r) { raiz = some (with_child (saved s r).now p n r) }, Answer.value 0)
unfolding crear_en agregar_hijo escribir_nodo
make_result carpeta s path before c cs mode r p m hs split low root parent absent =
    make_lem carpeta s path mode
    ∙ ap (λ q. then_do q (λ par. crear_en s path par modo carpeta))
        (buscar_padre_lem s path before c cs split low
          ∙ ap (λ o. done (record { padre = o; nombre = c ∷ cs })) parent)
    ∙ ap
        (λ o.
          crear_si_falta s o (record { padre = some (p, directorio m hs); nombre = c ∷ cs }) modo
            carpeta)
        absent
    ∙ guardar_then s r
        (λ s'. agregar_hijo s' (some (p, directorio m hs)) (crear_inode s (c ∷ cs) modo carpeta))
        root
    ∙ ap (agregar_hijo (saved s r) (some (p, directorio m hs)))
        (crear_inode_lem s (c ∷ cs) modo carpeta low)
    ∙ ap (λ o. done (escribir_en (saved s r) p (con_hijo (saved s r).now n) o, Answer.value 0))
        (saved_raiz s r ∙ root)
  where
    modo : ℕ
    modo = modo_de carpeta mode

    n : Inode
    n = new_node carpeta (nueva s (c ∷ cs) modo)

with_child-found :
    (ts p : List Name) (now : ℕ) (n r : Inode) (m : Meta) (hs : Hijos)
    → recorrer ts r ≡ some (p, directorio m hs)
    → recorrer (ts ++ nombre n ∷ []) r ≡ none
    → recorrer (ts ++ nombre n ∷ []) (with_child now p n r) ≡ some (p ++ nombre n ∷ [], n)
with_child-found ts p now n r m hs walk absent =
    recorrer-snoc ts p (nombre n) (with_child now p n r) (record m { modificacion = now })
      (agregar_al_final n hs)
      (recorrer-modificar ts p (con_hijo now n) r (directorio m hs) walk refl refl)
    ∙ ap (λ o. enter o (λ d. some (p ++ nombre n ∷ [], d)))
        (hijo_llamado-agregar_al_final n hs (
          no_child (hijo_llamado (nombre n) hs) (p ++ nombre n ∷ [])
            (sym (recorrer-snoc ts p (nombre n) r m hs walk) ∙ absent)))

-- Where the part of the path before its last slash is a directory, the name behind it has 1 to 63 bytes and the
-- path does not exist, `mkdir` and `create` succeed; on the system that they leave the path finds the new
-- node, empty, with the caller's user, group and time. The image, where it can be written, is the one of
-- the tree before the call.
pub make-found :
    (carpeta : Bool) (s : System) (path before : List ℕ) (c : ℕ) (cs : List ℕ) (mode : ℕ)
    (r : Inode) (p : List Name) (m : Meta) (hs : Hijos)
    → split_last path ≡ some (before, c ∷ cs)
    → length (c ∷ cs) < max_filename_length
    → s.raiz ≡ some r
    → buscar_inode s before ≡ some (p, directorio m hs)
    → buscar_inode s path ≡ none
    → (t : System) × (make carpeta s path mode ≡ done (t, Answer.value 0))
      × (buscar_inode t path
          ≡ some (
            p ++ (c ∷ cs) ∷ [],
            new_node carpeta (record {
              nombre = c ∷ cs;
              modo = modo_de carpeta mode;
              usuario_id = s.uid;
              grupo_id = s.gid;
              tamano = 0;
              acceso = s.now;
              modificacion = s.now;
              cambio_estado = s.now;
              enlaces = 1;
            }),
          ))
      × (t.disco ≡ (if s.escribible then some (guardar_inode r) else s.disco))
unfolding buscar_inode
make-found carpeta s path before c cs mode r p m hs split low root parent absent = (
  record (saved s r) { raiz = some (with_child (saved s r).now p n r) },
  make_result carpeta s path before c cs mode r p m hs split low root parent absent,
  found,
  saved_disco s r,
)
  where
    n : Inode
    n = new_node carpeta (nueva s (c ∷ cs) (modo_de carpeta mode))

    named : nombre n ≡ c ∷ cs
    named = new_node_nombre carpeta (nueva s (c ∷ cs) (modo_de carpeta mode))

    all_tokens : tokens path ≡ tokens before ++ nombre n ∷ []
    all_tokens =
        tokens-split_last path before c cs split ∙ ap (λ t. tokens before ++ t ∷ []) (sym named)

    walk : recorrer (tokens before) r ≡ some (p, directorio m hs)
    walk = ap (recorrer_raiz (tokens before)) (sym root) ∙ parent

    missing : recorrer (tokens before ++ nombre n ∷ []) r ≡ none
    missing =
        ap (λ ts. recorrer ts r) (sym all_tokens)
        ∙ ap (recorrer_raiz (tokens path)) (sym root)
        ∙ absent

    found : recorrer (tokens path) (with_child (saved s r).now p n r) ≡ some (p ++ (c ∷ cs) ∷ [], n)
    found =
        ap (λ ts. recorrer ts (with_child (saved s r).now p n r)) all_tokens
        ∙ with_child-found (tokens before) p (saved s r).now n r m hs walk missing
        ∙ ap (λ t. some (p ++ t ∷ [], n)) named
