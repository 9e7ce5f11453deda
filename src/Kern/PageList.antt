-- ===== src/Kern/PageList.antt =====
-- sched/kern/pmap.c: the list of free pages, as a list of their numbers.
use sistemas_operativos_1c.Base.{
  ℕ, zero, suc, ◌+◌, ◌-◌, ◌%◌, ◌^◌, ◌≤◌, ◌<◌, ◌≡◌, refl, sym, ap, ◌∙◌, inl, inr, Bool, true, false,
  List, [], ◌∷◌, Option, none, some, Array, update, update_self, update_ne, subst, arith,
  count_up_inv, ◌==◌, if◌then◌else◌, Bool-cases,
}
use sistemas_operativos_1c.Clib.Memory.{memset}
use sistemas_operativos_1c.Clib.Moves.{memset_lem}
use sistemas_operativos_1c.Kern.FreeList.{NotIn}
use sistemas_operativos_1c.Kern.Pages.{
  PageInfo, Pages, in_use, init_page, page_init, take_page, page_alloc, page_free, decremented,
  page_decref,
}

-- The links from `head` on run through the pages `xs`, which nobody refers to and which differ.
abbrev pub Chain : Array PageInfo → Option ℕ → List ℕ → Type 0
Chain pages head [] = head ≡ none
Chain pages head (i ∷ xs) =
    (head ≡ some i) × ((pages i).pp_ref ≡ 0) × NotIn i xs × Chain pages (pages i).pp_link xs

abbrev pub FreePages : Pages → List ℕ → Type 0
FreePages m xs = Chain m.pages m.page_free_list xs

pub Chain-update :
    (pages : Array PageInfo) (head : Option ℕ) (xs : List ℕ) (i : ℕ) (v : PageInfo)
    → NotIn i xs
    → Chain pages head xs
    → Chain (update pages i v) head xs
Chain-update pages head [] i v out h = h
Chain-update pages head (x ∷ xs) i v (ne, out) (first, unused, differ, rest) =
    let same = update_ne pages i v x ne in
    (
      first,
      ap (λ p. p.pp_ref) same ∙ unused,
      differ,
      subst (λ l. Chain (update pages i v) l xs) (ap (λ p. p.pp_link) (sym same))
          (Chain-update pages (pages x).pp_link xs i v out rest),
    )

-- The pages below `n` that are not in use, the last one first.
abbrev pub usable_below : (kernel_end n : ℕ) → List ℕ
usable_below kernel_end zero = []
usable_below kernel_end (suc n) =
    let rest = usable_below kernel_end n in if in_use kernel_end n then rest else n ∷ rest

NotIn-usable : (kernel_end i n : ℕ) → n ≤ i → NotIn i (usable_below kernel_end n)
NotIn-usable kernel_end i zero h = tt
NotIn-usable kernel_end i (suc n) h = elim (Bool-cases (in_use kernel_end n)) [
  | inl used ↦ rw used (NotIn-usable kernel_end i n (omega arith))
  | inr free ↦ rw free (λ same. absurd (omega arith), NotIn-usable kernel_end i n (omega arith))
]

init_page-FreePages :
    (kernel_end i : ℕ) (m : Pages)
    → FreePages m (usable_below kernel_end i)
    → FreePages (init_page kernel_end i m) (usable_below kernel_end (suc i))
unfolding init_page
init_page-FreePages kernel_end i m h = elim (Bool-cases (in_use kernel_end i)) [
  | inl used ↦ rw used (
      Chain-update m.pages m.page_free_list (usable_below kernel_end i) i
        (record (m.pages i) { pp_link = none }) out h)
  | inr free ↦
      let self = update_self m.pages i v in
      rw free (
        refl,
        ap (λ p. p.pp_ref) self,
        out,
        subst (λ l. Chain (update m.pages i v) l (usable_below kernel_end i))
            (ap (λ p. p.pp_link) (sym self))
            (Chain-update m.pages m.page_free_list (usable_below kernel_end i) i v out h),
      )
]
  where
    out : NotIn i (usable_below kernel_end i)
    out = NotIn-usable kernel_end i i (omega arith)

    v : PageInfo
    v = record { pp_link = m.page_free_list; pp_ref = 0 }

-- From an empty free list, `page_init` puts on it exactly the pages that are not in use, the last one first,
-- each with no reference.
pub page_init-FreePages :
    (kernel_end npages : ℕ) (m : Pages)
    → m.page_free_list ≡ none
    → FreePages (page_init kernel_end npages m) (usable_below kernel_end npages)
unfolding page_init
page_init-FreePages kernel_end npages m start =
    count_up_inv (λ i t. FreePages t (usable_below kernel_end i)) (init_page kernel_end) npages 0
      npages m (omega arith)
      (λ i t low high h.
        let next : suc i ≡ i + 1 = omega arith in
        subst (λ k. FreePages (init_page kernel_end i t) (usable_below kernel_end k)) next
          (init_page-FreePages kernel_end i t h))
      start

-- What `page_alloc` does for a free list `xs`.
abbrev pub Allocates : Pages → (zero_fill : Bool) → List ℕ → Pages × Option ℕ → Type 0
Allocates m zero_fill [] r = r ≡ (m, none)
Allocates m zero_fill (i ∷ xs) r =
    (r.1 ≡ some i)
    × FreePages r.0 xs
    × ((r.0.pages i).pp_link ≡ none)
    × ((j : ℕ) → j < 4096 → r.0.contents i j ≡ (if zero_fill then 0 else m.contents i j))

filled :
    (m : Pages) (i j : ℕ) (zero_fill : Bool)
    → j < 4096
    → (if zero_fill then update m.contents i (memset (m.contents i) 0 0 4096) else m.contents) i j
      ≡ (if zero_fill then 0 else m.contents i j)
filled m i j true low =
    ap (λ page. page j) (update_self m.contents i (memset (m.contents i) 0 0 4096))
    ∙ memset_lem 4096 (m.contents i) 0 0 j
    ∙ ground arith
filled m i j false low = refl

-- `page_alloc` takes the first page of the free list, filled with zeros if that is asked for, and leaves the
-- others on the list; without a free page it answers none and changes nothing.
pub page_alloc-FreePages :
    (m : Pages) (zero_fill : Bool) (xs : List ℕ)
    → FreePages m xs
    → Allocates m zero_fill xs (page_alloc m zero_fill)
unfolding page_alloc
page_alloc-FreePages m zero_fill [] first = ap (take_page m zero_fill) first
page_alloc-FreePages m zero_fill (i ∷ xs) (first, unused, differ, rest) = rw first (
  refl,
  Chain-update m.pages (m.pages i).pp_link xs i v differ rest,
  ap (λ p. p.pp_link) (update_self m.pages i v),
  λ j low. filled m i j zero_fill low,
)
  where
    v : PageInfo
    v = record (m.pages i) { pp_link = none }

-- Freeing a page that nobody refers to, that is on no list, puts it in front of the free list, without a panic.
pub page_free-FreePages :
    (m : Pages) (i : ℕ) (xs : List ℕ)
    → (m.pages i).pp_ref ≡ 0
    → (m.pages i).pp_link ≡ none
    → NotIn i xs
    → FreePages m xs
    → (m' : Pages) × (page_free m i ≡ some m') × FreePages m' (i ∷ xs)
unfolding page_free
page_free-FreePages m i xs unused unlinked out h = (
  record m { pages = update m.pages i v; page_free_list = some i },
  rw (unused, unlinked) refl,
  (
    refl,
    ap (λ p. p.pp_ref) self ∙ unused,
    out,
    subst (λ l. Chain (update m.pages i v) l xs) (ap (λ p. p.pp_link) (sym self))
        (Chain-update m.pages m.page_free_list xs i v out h),
  ),
)
  where
    v : PageInfo
    v = record (m.pages i) { pp_link = m.page_free_list }

    self : update m.pages i v i ≡ v
    self = update_self m.pages i v

-- What taking away one of `suc left` references does: the last one frees the page.
abbrev pub Released : (left i : ℕ) → List ℕ → Option Pages → Type 0
Released zero i xs r = (m' : Pages) × (r ≡ some m') × FreePages m' (i ∷ xs)
Released (suc left) i xs r =
    (m' : Pages) × (r ≡ some m') × FreePages m' xs × ((m'.pages i).pp_ref ≡ suc left)

-- `page_decref` takes away one reference of a page that is in use, and puts the page on the free list exactly
-- when it was the last one; it does not panic.
pub page_decref-Released :
    (m : Pages) (i left : ℕ) (xs : List ℕ)
    → (m.pages i).pp_ref ≡ suc left
    → suc left < 2 ^ 16
    → (m.pages i).pp_link ≡ none
    → NotIn i xs
    → FreePages m xs
    → Released left i xs (page_decref m i)
unfolding page_decref
page_decref-Released m i left xs count low unlinked out h = go left count low
  where
    v : PageInfo
    v = record (m.pages i) { pp_ref = ((m.pages i).pp_ref + 2 ^ 16 - 1) % 2 ^ 16 }

    self : update m.pages i v i ≡ v
    self = update_self m.pages i v

    fewer :
        (n : ℕ)
        → (m.pages i).pp_ref ≡ suc n
        → suc n < 2 ^ 16
        → ((decremented m i).pages i).pp_ref ≡ n
    fewer n e small = ap (λ p. p.pp_ref) self ∙ omega arith

    kept : FreePages (decremented m i) xs
    kept = Chain-update m.pages m.page_free_list xs i v out h

    go : (n : ℕ) → (m.pages i).pp_ref ≡ suc n → suc n < 2 ^ 16 → Released n i xs (page_decref m i)
    go zero e small =
        let none_left = fewer zero e small in
        let (m', freed, list) =
          page_free-FreePages (decremented m i) i xs none_left (ap (λ p. p.pp_link) self ∙ unlinked)
            out kept in
        (
          m',
          ap (λ n. if n == 0 then page_free (decremented m i) i else some (decremented m i))
                none_left
              ∙ freed,
          list,
        )
    go (suc n) e small =
        let some_left = fewer (suc n) e small in
        let nonzero : (((decremented m i).pages i).pp_ref == 0) ≡ false =
          ground (arith, some_left) in
        (decremented m i, rw nonzero refl, kept, some_left)
