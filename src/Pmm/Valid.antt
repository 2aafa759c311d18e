-- ===== src/Pmm/Valid.antt =====
-- The invariant of core/memory/pmm.c.
use uix.Base.{ℕ, ◌*◌, ◌/◌, ◌^◌, ◌<◌, ◌≤◌, ◌≡◌, length, arith, true}
use uix.Pmm.{Pmm, page_addr, page_index, take_page, is_free}
use uix.Pmm.Bitmap.{count_free, count_free-pos, count_free-le, count_free-set_used, length-set_used}

-- The words cover the pages, addresses fit in 64 bits, and `free_count` counts the free pages.
pub record IsValid (p : Pmm) : Type 0 where
  pub covered : p.bitmap_len ≤ length p.bitmap * 64
  pub small : p.bitmap_len ≤ 2 ^ 52
  pub cursor : p.next_free_scan ≤ p.bitmap_len
  pub counted : p.free_count ≡ count_free p.bitmap p.bitmap_len

module _ {p : Pmm} (v : IsValid p) (i : ℕ) (h : i < p.bitmap_len) where
  pub word_in_range : i / 64 < length p.bitmap
  word_in_range = omega arith

  pub page_addr_lem : page_addr i ≡ i * 4096
  page_addr_lem = omega arith

  pub page_index-page_addr : page_index (page_addr i) ≡ i
  page_index-page_addr = omega arith

  -- Taking a free page keeps the invariant.
  pub take_page-IsValid : is_free p.bitmap i ≡ true → IsValid (take_page p i)
  unfolding take_page
  take_page-IsValid f = ground (
    arith,
    length-set_used p.bitmap i,
    count_free-set_used p.bitmap i p.bitmap_len word_in_range f,
    count_free-pos p.bitmap i p.bitmap_len h f,
    count_free-le p.bitmap p.bitmap_len,
  )
