-- ===== src/Fs/Remount.antt =====
-- fisopfs/fisopfs.c: `fisopfs_destroy` and the `fisopfs_init` of the next mount.
use sistemas_operativos_1c.Base.{
  ◌+◌, ◌*◌, ◌≡◌, refl, ap, ◌∙◌, subst, [], true, some, none, done, then_do, if◌then◌else◌, length,
  append-nil,
}
use sistemas_operativos_1c.Fs.Inode.{Inode}
use sistemas_operativos_1c.Fs.Disk.{guardar_inode, cargar_inode}
use sistemas_operativos_1c.Fs.RoundTrip.{Cabe}
use sistemas_operativos_1c.Fs.Termination.{cargar_inode-guardar_inode}
use sistemas_operativos_1c.Fs.Ops.{System, guardar_fs, guardar_raiz, cargar_fs, cargada}
use sistemas_operativos_1c.Fs.Handlers.{fisopfs_init, fisopfs_destroy}

cargar_image :
    (r : Inode)
    → Cabe r
    → cargar_inode (2 * length (guardar_inode r) + 1) (guardar_inode r) ≡ done (r, [])
cargar_image r h =
    subst (λ bs. cargar_inode (2 * length bs + 1) bs ≡ done (r, [])) (append-nil (guardar_inode r))
      (cargar_inode-guardar_inode r [] h)

-- With an image that can be written and a tree whose fields fit it, unmounting succeeds, and mounting again
-- brings back the same tree.
pub destroy-init :
    (s : System) (r : Inode)
    → s.raiz ≡ some r
    → s.escribible ≡ true
    → Cabe r
    → (t : System) × (fisopfs_destroy s ≡ done t)
      × (t.raiz ≡ none)
      × (fisopfs_init t ≡ done (record t { raiz = some r }))
unfolding fisopfs_destroy fisopfs_init guardar_fs cargar_fs
destroy-init s r root writable h = (
  record s { raiz = none; disco = some (guardar_inode r) },
  ap
        (λ b.
          then_do {B = System} (if b then guardar_raiz s s.raiz else done s)
            (λ s'. done (record s' { raiz = none })))
        writable
      ∙ ap (λ o. then_do {B = System} (guardar_raiz s o) (λ s'. done (record s' { raiz = none })))
          root,
  refl,
  ap (cargada (record s { raiz = none; disco = some (guardar_inode r) })) (cargar_image r h),
)
