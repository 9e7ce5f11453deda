-- ===== src/Kern/Pages.antt =====
-- sched/kern/pmap.c and `struct PageInfo` of sched/inc/memlayout.h: the allocator of physical pages. A page
-- is named by its number; a kernel panic is the result `none`.
use sistemas_operativos_1c.Base.{
  ℕ, ◌+◌, ◌-◌, ◌%◌, ◌^◌, Bool, true, false, ◌&&◌, ◌||◌, not, Option, none, some, Array, update, ltb,
  leb, ◌==◌, if◌then◌else◌, count_up,
}
use sistemas_operativos_1c.Clib.Memory.{memset}

pub record PageInfo : Type 0 where
  pub pp_link : Option ℕ
  pub pp_ref : ℕ

-- The table of pages, the free list, and the bytes of each page.
pub record Pages : Type 0 where
  pub pages : Array PageInfo
  pub page_free_list : Option ℕ
  pub contents : Array (Array ℕ)

-- Page 0, the entry code of the other processors at 0x7000, the hole for devices, and the kernel, which ends
-- before the page `kernel_end`.
abbrev pub in_use : (kernel_end i : ℕ) → Bool
in_use kernel_end i =
    i == 0 || (i == 7 || ((leb 160 i && ltb i 256) || (leb 256 i && ltb i kernel_end)))

-- One round of the loop of `page_init`.
unfoldable pub init_page : (kernel_end i : ℕ) → Pages → Pages
init_page kernel_end i m =
    if in_use kernel_end i
    then record m { pages = update m.pages i (record (m.pages i) { pp_link = none }) }
    else record m {
      pages = update m.pages i (record { pp_link = m.page_free_list; pp_ref = 0 });
      page_free_list = some i;
    }

unfoldable pub page_init : (kernel_end npages : ℕ) → Pages → Pages
page_init kernel_end npages m = count_up npages 0 (init_page kernel_end) m

abbrev pub take_page : Pages → (zero_fill : Bool) → Option ℕ → Pages × Option ℕ
take_page m zero_fill none = (m, none)
take_page m zero_fill (some i) = (
  record {
    pages = update m.pages i (record (m.pages i) { pp_link = none });
    page_free_list = (m.pages i).pp_link;
    contents =
        if zero_fill then update m.contents i (memset (m.contents i) 0 0 4096) else m.contents;
  },
  some i,
)

unfoldable pub page_alloc : Pages → (zero_fill : Bool) → Pages × Option ℕ
page_alloc m zero_fill = take_page m zero_fill m.page_free_list

abbrev pub linked : Option ℕ → Bool
linked none = false
linked (some i) = true

unfoldable pub page_free : Pages → ℕ → Option Pages
page_free m i =
    if not ((m.pages i).pp_ref == 0)
    then none
    else if linked (m.pages i).pp_link
    then none
    else some (record m {
      pages = update m.pages i (record (m.pages i) { pp_link = m.page_free_list });
      page_free_list = some i;
    })

-- The count has 16 bits.
abbrev pub decremented : Pages → ℕ → Pages
decremented m i = record m {
  pages =
      update m.pages i (record (m.pages i) { pp_ref = ((m.pages i).pp_ref + 2 ^ 16 - 1) % 2 ^ 16 });
}

unfoldable pub page_decref : Pages → ℕ → Option Pages
page_decref m i =
    let m' = decremented m i in if (m'.pages i).pp_ref == 0 then page_free m' i else some m'
