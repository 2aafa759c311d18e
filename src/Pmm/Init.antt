-- ===== src/Pmm/Init.antt =====
-- `pmm_init` of core/memory/pmm.c, over the memory map that the boot loader hands over.
-- The printed line is left out. The kernel clears the bytes that hold the bits of the bitmap; here its
-- words are 0, and so are the bits of the last word behind them, which no routine looks at.
use uix.Base.{
  ℕ, zero, suc, ◌+◌, ◌*◌, ◌/◌, ◌-◌, Bool, ◌&&◌, if◌then◌else◌, List, [], ◌∷◌, ◌==◌, leb, ltb, none,
  replicate, Outcome, ok, panic,
}
use uix.Pmm.{Pmm, set_free, set_used, add64, sub64}

-- `struct limine_memmap_entry`; the type LIMINE_MEMMAP_USABLE is 0
pub record Entry : Type 0 where
  pub base : ℕ
  pub len : ℕ
  pub kind : ℕ

abbrev pub usable : Entry → Bool
usable e = e.kind == 0

-- the loop that finds the top of memory
unfoldable pub top_of_memory : ℕ → List Entry → ℕ
top_of_memory max [] = max
top_of_memory max (e ∷ es) =
    top_of_memory
      (if usable e then (if ltb max (add64 e.base e.len) then add64 e.base e.len else max) else max)
      es

-- the first usable entry with room for the bitmap and a page more, or 0
unfoldable pub bitmap_page : ℕ → List Entry → ℕ
bitmap_page bm_pages [] = 0
bitmap_page bm_pages (e ∷ es) =
    if usable e && leb ((bm_pages + 1) * 4096) e.len then e.base else bitmap_page bm_pages es

-- `set_free(p); free_count++;` over `count` pages
unfoldable pub mark_range : List ℕ → ℕ → ℕ → ℕ → List ℕ × ℕ
mark_range bitmap c first zero = (bitmap, c)
mark_range bitmap c first (suc count) =
    mark_range (set_free bitmap first) (add64 c 1) (suc first) count

unfoldable pub mark_usable : List ℕ → ℕ → List Entry → List ℕ × ℕ
mark_usable bitmap c [] = (bitmap, c)
mark_usable bitmap c (e ∷ es) =
    let (b, d) =
      if usable e then mark_range bitmap c (e.base / 4096) (e.len / 4096) else (bitmap, c) in
    mark_usable b d es

-- `set_used(p); free_count--;` over `count` pages
unfoldable pub reserve : List ℕ → ℕ → ℕ → ℕ → List ℕ × ℕ
reserve bitmap c first zero = (bitmap, c)
reserve bitmap c first (suc count) = reserve (set_used bitmap first) (sub64 c 1) (suc first) count

abbrev pub bitmap_pages : ℕ → ℕ
bitmap_pages len = ((len + 7) / 8 + 4096 - 1) / 4096

unfoldable pub init : List Entry → Outcome Pmm
unfolding top_of_memory bitmap_page mark_usable mark_range reserve
init memmap =
    let total = top_of_memory 0 memmap / 4096 in
    let bm_page = bitmap_page (bitmap_pages total) memmap in
    let (marked, c) = mark_usable (replicate ((total + 63) / 64) 0) 0 memmap in
    let (bitmap, free_count) = reserve marked c (bm_page / 4096) (bitmap_pages total) in
    if bm_page == 0
    then panic
    else ok (record {
      bitmap = bitmap;
      bitmap_len = total;
      total_pages = total;
      free_count = free_count;
      next_free_scan = 0;
      refcounts = none;
    })
