-- ===== src/Kern/Paging/Entries.antt =====
-- sched/kern/pmap.c: what is read from page-table entries after a write to one of them.
use Prim.Native.Nat.{bit_or}
use sistemas_operativos_1c.Base.{
  ℕ, ◌+◌, ◌*◌, ◌/◌, ◌%◌, ◌^◌, ◌<◌, ◌≡◌, ◌≢◌, ◌⊎◌, inl, inr, subst, refl, ap, ◌∙◌, Array,
  update_self, update_ne, arith,
}
use native.Mathlib.Decide.{ℕ_discrete}
use sistemas_operativos_1c.Base.Bits.{bit_or-one, bit_or-flags}
use sistemas_operativos_1c.Kern.Pages.{Pages}
use sistemas_operativos_1c.Kern.Paging.{
  load_word, store_word, entry, set_entry, page2pa, pte_p, pte_w, pte_u,
}

byte_of :
    (page : Array ℕ) (k v j i : ℕ)
    → j ≡ 4 * k + i
    → i < 4
    → store_word page k v j ≡ v / 256 ^ i % 256
unfolding store_word
byte_of page k v j i e h =
    let place : j / 4 ≡ k = omega arith in
    let offset : j % 4 ≡ i = omega arith in rw (place, offset) (ground arith)

pub load_word-store_word_self :
    (page : Array ℕ) (k v : ℕ) → v < 2 ^ 32 → load_word (store_word page k v) k ≡ v
unfolding load_word
load_word-store_word_self page k v h = omega (
  arith,
  byte_of page k v (4 * k) 0 (omega arith) (omega arith),
  byte_of page k v (4 * k + 1) 1 refl (omega arith),
  byte_of page k v (4 * k + 2) 2 refl (omega arith),
  byte_of page k v (4 * k + 3) 3 refl (omega arith),
)

byte_kept : (page : Array ℕ) (k v j : ℕ) → j / 4 ≢ k → store_word page k v j ≡ page j
unfolding store_word
byte_kept page k v j h = ground arith

pub load_word-store_word_ne :
    (page : Array ℕ) (k v i : ℕ) → i ≢ k → load_word (store_word page k v) i ≡ load_word page i
unfolding load_word
load_word-store_word_ne page k v i h = omega (
  arith,
  byte_kept page k v (4 * i) (λ e. h (omega arith)),
  byte_kept page k v (4 * i + 1) (λ e. h (omega arith)),
  byte_kept page k v (4 * i + 2) (λ e. h (omega arith)),
  byte_kept page k v (4 * i + 3) (λ e. h (omega arith)),
)

module _ (m : Pages) (page k v : ℕ) where
  pub entry_self : v < 2 ^ 32 → entry (set_entry m (page, k) v) (page, k) ≡ v
  entry_self small =
      ap (λ bytes. load_word bytes k)
        (update_self m.contents page (store_word (m.contents page) k v))
      ∙ load_word-store_word_self (m.contents page) k v small

  pub entry_other_page :
      (q i : ℕ) → page ≢ q → entry (set_entry m (page, k) v) (q, i) ≡ entry m (q, i)
  entry_other_page q i ne =
      ap (λ bytes. load_word bytes i)
        (update_ne m.contents page (store_word (m.contents page) k v) q ne)

  pub entry_other_index :
      (i : ℕ) → i ≢ k → entry (set_entry m (page, k) v) (page, i) ≡ entry m (page, i)
  entry_other_index i ne =
      ap (λ bytes. load_word bytes i)
        (update_self m.contents page (store_word (m.contents page) k v))
      ∙ load_word-store_word_ne (m.contents page) k v i ne

  -- Every entry but the one that was written is as before.
  pub written_other :
      (q i : ℕ) → (page ≢ q) ⊎ (i ≢ k) → entry (set_entry m (page, k) v) (q, i) ≡ entry m (q, i)
  written_other q i (inl ne) = entry_other_page q i ne
  written_other q i (inr ne) = elim (ℕ_discrete page q) [
    | yes same ↦
        subst (λ p. entry (set_entry m (page, k) v) (p, i) ≡ entry m (p, i)) same
          (entry_other_index i ne)
    | no differ ↦ entry_other_page q i differ
  ]

-- The entry that `page_insert` writes.
abbrev pub new_entry : (pp perm : ℕ) → ℕ
new_entry pp perm = bit_or (bit_or (page2pa pp) perm) pte_p

pub new_entry_lem : (pp perm : ℕ) → perm < 4096 → new_entry pp perm ≡ pp * 4096 + perm / 2 * 2 + 1
new_entry_lem pp perm h =
    omega (arith, bit_or-flags 12 pp perm h, bit_or-one (bit_or (page2pa pp) perm))

-- The directory entry for a new table.
pub table_entry_lem : (page : ℕ) → bit_or (page2pa page) (pte_p + pte_w + pte_u) ≡ page * 4096 + 7
table_entry_lem page = bit_or-flags 12 page 7 (omega arith)
