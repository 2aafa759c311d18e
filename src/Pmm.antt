-- ===== src/Pmm.antt =====
-- core/memory/pmm.c: the bitmap allocator of physical pages and its reference counts.
-- The file's static variables are the fields of `Pmm`. The bitmap is its array of u64 words; a
-- word past the end of the list is one that the kernel has not got, and `Pmm.Valid` rules it out.
-- `refcounts` is `none` while the pointer is NULL. A page address is `i << 12` in a u64.
pub mod Bitmap
pub mod Init
pub mod Boot
pub mod Valid
pub mod Alloc
pub mod AllocPages
pub mod Free
pub mod Refs
use uix.Base.{
  ℕ, zero, suc, ◌+◌, ◌-◌, ◌*◌, ◌/◌, ◌%◌, ◌^◌, Bool, true, false, Option, none, some, List, ltb, leb,
  if◌then◌else◌, ◌==◌, ◌||◌, get_or, set, replicate, Outcome, ok, panic,
}
use uix.Base.Words.{test_bit, set_bit, clear_bit}

abbrev pub page_size : ℕ
page_size = 4096

pub record Pmm : Type 0 where
  pub bitmap : List ℕ
  pub bitmap_len : ℕ
  pub total_pages : ℕ
  pub free_count : ℕ
  pub next_free_scan : ℕ
  pub refcounts : Option (List ℕ)

-- `i << UIX_PAGE_SHIFT` and `page >> UIX_PAGE_SHIFT` in 64 bits
abbrev pub page_addr : ℕ → ℕ
page_addr i = (i * 4096) % 2 ^ 64

abbrev pub page_index : ℕ → ℕ
page_index a = a / 4096

-- `count--` and `count -= n` on a u64
abbrev pub sub64 : ℕ → ℕ → ℕ
sub64 a b = (a + 2 ^ 64 - b) % 2 ^ 64

abbrev pub add64 : ℕ → ℕ → ℕ
add64 a b = (a + b) % 2 ^ 64

unfoldable pub set_free : List ℕ → ℕ → List ℕ
set_free bitmap i = set bitmap (i / 64) (set_bit (get_or bitmap (i / 64) 0) (i % 64))

unfoldable pub set_used : List ℕ → ℕ → List ℕ
set_used bitmap i = set bitmap (i / 64) (clear_bit (get_or bitmap (i / 64) 0) (i % 64))

unfoldable pub is_free : List ℕ → ℕ → Bool
is_free bitmap i = test_bit (get_or bitmap (i / 64) 0) (i % 64)

-- what `pmm_alloc` does with the free page that it has found
unfoldable pub take_page : Pmm → ℕ → Pmm
unfolding set_used
take_page p i = record p {
  bitmap = set_used p.bitmap i;
  next_free_scan = (i + 1) % p.bitmap_len;
  free_count = sub64 p.free_count 1;
}

-- The loop of `pmm_alloc` from round `n`, with `rounds` left.
unfoldable pub alloc_scan : Pmm → ℕ → ℕ → Pmm × ℕ
unfolding is_free take_page
alloc_scan p zero n = (p, 0)
alloc_scan p (suc rounds) n =
    let rest = alloc_scan p rounds (suc n) in
    let i = add64 p.next_free_scan n % p.bitmap_len in
    if is_free p.bitmap i then (take_page p i, page_addr i) else rest

unfoldable pub alloc : Pmm → Pmm × ℕ
unfolding alloc_scan
alloc p = alloc_scan p p.bitmap_len 0

-- `for (p = first; p < first + count; p++) set_used(p);`
unfoldable pub use_range : List ℕ → ℕ → ℕ → List ℕ
unfolding set_used
use_range bitmap first zero = bitmap
use_range bitmap first (suc count) = use_range (set_used bitmap first) (suc first) count

-- what `pmm_alloc_pages` does once the run of `n` pages that ends at page `i` is found
unfoldable pub take_run : Pmm → ℕ → ℕ → Pmm
unfolding use_range
take_run p n i = record p {
  bitmap = use_range p.bitmap (i + 1 - n) n;
  free_count = sub64 p.free_count n;
  next_free_scan = (i + 1) % p.bitmap_len;
}

-- The loop of `pmm_alloc_pages` from page `i`, with `rounds` left and `run` free pages behind it.
unfoldable pub run_scan : Pmm → ℕ → ℕ → ℕ → ℕ → Pmm × ℕ
unfolding is_free take_run
run_scan p n zero i run = (p, 0)
run_scan p n (suc rounds) i run =
    let longer = run_scan p n rounds (suc i) (suc run) in
    let broken = run_scan p n rounds (suc i) 0 in
    if is_free p.bitmap i
    then (if suc run == n then (take_run p n i, page_addr (i + 1 - n)) else longer)
    else broken

unfoldable pub alloc_pages : Pmm → ℕ → Pmm × ℕ
unfolding run_scan
alloc_pages p n = run_scan p n p.bitmap_len 0 0

unfoldable pub free : Pmm → ℕ → Outcome Pmm
unfolding set_free is_free
free p page =
    let i = page_index page in
    if leb p.bitmap_len i || is_free p.bitmap i
    then panic
    else ok (record p { bitmap = set_free p.bitmap i; free_count = add64 p.free_count 1 })

unfoldable pub free_pages : Pmm → ℕ
free_pages p = p.free_count

-- The bytes of the array round up to whole pages; each holds 2048 counts of 16 bits.
-- The result of `pmm_alloc_pages` is not checked there, and neither is it here.
unfoldable pub refcounts_grow : Pmm → Pmm × List ℕ
unfolding alloc_pages
refcounts_grow p = elim p.refcounts [
  | some counts ↦ (p, counts)
  | none ↦
      let need = (p.total_pages * 2 + 4096 - 1) / 4096 in
      let (p', pa) = alloc_pages p need in
      let zeros = replicate (need * 2048) 0 in (record p' { refcounts = some zeros }, zeros)
]

-- `if (refcounts[i] < 0xFFFF) refcounts[i]++;`
abbrev pub bump : ℕ → ℕ
bump c = if ltb c 0xffff then c + 1 else c

unfoldable pub ref : Pmm → ℕ → Pmm
unfolding refcounts_grow
ref p page =
    let i = page_index page in
    if leb p.total_pages i
    then p
    else let (p', counts) = refcounts_grow p in
      record p' { refcounts = some (set counts i (bump (get_or counts i 0))) }

-- `pmm_unref` past its guards, where the array is there.
unfoldable pub unref_count : Pmm → List ℕ → ℕ → Outcome Pmm
unfolding free
unref_count p counts page =
    let i = page_index page in
    let c = get_or counts i 0 in
    if ltb 1 c
    then ok (record p { refcounts = some (set counts i (c - 1)) })
    else free (record p { refcounts = some (set counts i 0) }) page

unfoldable pub unref : Pmm → ℕ → Outcome Pmm
unfolding unref_count
unref p page = elim p.refcounts [
  | none ↦ ok p
  | some counts ↦ if leb p.total_pages (page_index page) then ok p else unref_count p counts page
]

unfoldable pub getref : Pmm → ℕ → ℕ
getref p page = elim p.refcounts [
  | none ↦ 1
  | some counts ↦
      if leb p.total_pages (page_index page) then 1 else get_or counts (page_index page) 0
]
