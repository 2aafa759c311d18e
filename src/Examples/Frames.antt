-- ===== src/Examples/Frames.antt =====
-- Runs of core/memory/pmm.c: a memory of four pages, of which page 0 is in use.
use uix.Base.{
  ℕ, zero, suc, ◌/◌, ◌<◌, ◌≡◌, ◌≢◌, refl, arith, ◌&&◌, not, List, [], ◌∷◌, none, some, ok,
}
use uix.Base.Words.{test_bit, set_bit, clear_bit}
use uix.Pmm.{Pmm, is_free, set_free, set_used, free, alloc, free_pages, getref}
use uix.Pmm.Bitmap.{count_free, in_range}
use uix.Pmm.Valid.{IsValid}
use uix.Pmm.Alloc.{AllocResult, alloc_result}
use uix.Pmm.AllocPages.{AllFree, PagesResult, alloc_pages-PagesResult}
use uix.Pmm.Free.{free-alloc}
use uix.Pmm.Refs.{HasCounts}
use uix.Pmm.Init.{Entry, top_of_memory, init, bitmap_pages}
use uix.Pmm.Boot.{Sane, usable_page, reserved_page, init_lem}

abbrev four_pages : Pmm
four_pages = record {
  bitmap = 14 ∷ [];
  bitmap_len = 4;
  total_pages = 4;
  free_count = 3;
  next_free_scan = 2;
  refcounts = none;
}

four_pages-IsValid : IsValid four_pages
unfolding count_free is_free test_bit
four_pages-IsValid = record {
  covered = omega arith;
  small = omega arith;
  cursor = omega arith;
  counted = refl;
}

alloc_result_example : AllocResult four_pages
alloc_result_example = alloc_result four_pages-IsValid

page_2_taken : (alloc four_pages).1 ≡ 8192
unfolding alloc test_bit
page_2_taken = refl

not_page_0 : (alloc four_pages).1 ≢ 0
not_page_0 e = omega (arith, page_2_taken)

free-alloc_example :
    (q : Pmm) × (free (alloc four_pages).0 (alloc four_pages).1 ≡ ok q)
    × ((j : ℕ) → is_free q.bitmap j ≡ is_free four_pages.bitmap j)
    × (free_pages q ≡ free_pages four_pages)
    × IsValid q
free-alloc_example = free-alloc four_pages-IsValid not_page_0

abbrev all_free : Pmm
all_free = record four_pages { bitmap = 15 ∷ []; free_count = 4 }

free_page_0 : free four_pages 0 ≡ ok all_free
unfolding free test_bit set_bit
free_page_0 = refl

alloc_pages-PagesResult_example : PagesResult four_pages 2
alloc_pages-PagesResult_example = alloc_pages-PagesResult 2 four_pages-IsValid (omega arith)

pages_1_and_2 : AllFree four_pages.bitmap 1 2
unfolding is_free test_bit
pages_1_and_2 zero lo hi = absurd (omega arith)
pages_1_and_2 (suc zero) lo hi = refl
pages_1_and_2 (suc (suc zero)) lo hi = refl
pages_1_and_2 (suc (suc (suc j))) lo hi = absurd (omega arith)

-- the same memory with page 3 shared by three address spaces
abbrev shared_page : Pmm
shared_page = record four_pages { refcounts = some (0 ∷ 0 ∷ 0 ∷ 3 ∷ []) }

shared_page-HasCounts : HasCounts shared_page (0 ∷ 0 ∷ 0 ∷ 3 ∷ [])
shared_page-HasCounts = record { present = refl; enough = omega arith }

three_references : 1 < getref shared_page 12288
unfolding getref
three_references = omega arith

-- a hole below page 1, three usable pages, and one reserved page
abbrev small_map : List Entry
small_map =
    record { base = 0; len = 4096; kind = 1 } ∷ record { base = 4096; len = 12288; kind = 0 } ∷ []

small_map-Sane : Sane small_map
unfolding usable_page
small_map-Sane = (
  (λ u. absurd (ground arith)),
  (λ j u. absurd (ground arith)),
  ((λ u. omega arith), (λ j u r. refl), tt),
)

abbrev booted : Pmm
booted = record {
  bitmap = 12 ∷ [];
  bitmap_len = 4;
  total_pages = 4;
  free_count = 2;
  next_free_scan = 0;
  refcounts = none;
}

init-small_map : init small_map ≡ ok booted
unfolding init set_used set_free clear_bit set_bit
init-small_map = refl

init_lem_example :
    IsValid booted
    × ((j : ℕ)
        → is_free booted.bitmap j ≡ (
            usable_page small_map j
            && not (in_range (reserved_page small_map small_map-Sane / 4096) (bitmap_pages 4) j)))
unfolding top_of_memory
init_lem_example = init_lem small_map small_map-Sane booted init-small_map
