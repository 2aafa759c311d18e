-- ===== src/Pmm/Free.antt =====
-- `pmm_free` of core/memory/pmm.c, and the two round trips with `pmm_alloc`.
use uix.Base.{
  ℕ, ◌+◌, ◌*◌, ◌/◌, ◌<◌, ◌≤◌, ◌≡◌, ◌≢◌, ◌↔◌, true, false, ◌⊎◌, inl, inr, if◌then◌else◌, arith,
  Bool-cases, ◌==◌, ap, ok, panic, leb,
}
use uix.Pmm.{
  Pmm, page_index, is_free, take_page, alloc, free, set_free, set_used, free_pages, add64,
}
use uix.Pmm.Bitmap.{
  is_free-set_used, is_free-set_free, count_free, count_free-set_free, count_free-le,
  length-set_free, length-set_used, count_free-pos,
}
use uix.Pmm.Valid.{IsValid, word_in_range, take_page-IsValid}
use uix.Pmm.Alloc.{alloc_result}

-- `pmm_alloc` keeps the invariant.
pub alloc-IsValid : {p : Pmm} → IsValid p → IsValid (alloc p).0
alloc-IsValid {p} v = elim (alloc_result v) [
  | inl missing ↦ rw missing.0 v
  | inr found ↦ rw found.3 (take_page-IsValid v found.0 found.1 found.2)
]

-- `pmm_free` panics exactly on a page that is free already or past the bitmap.
pub free_panics_iff :
    (p : Pmm) (page : ℕ)
    → (free p page ≡ panic)
      ↔ ((p.bitmap_len ≤ page_index page) ⊎ (is_free p.bitmap (page_index page) ≡ true))
unfolding free
free_panics_iff p page = ground arith

-- When `pmm_free` returns from a valid state, the invariant holds, the number of pages is as it
-- was, the page is free, every other page is as it was, and one more page is counted.
pub free_lem :
    {p q : Pmm} (page : ℕ)
    → IsValid p
    → free p page ≡ ok q
    → IsValid q
      × (q.bitmap_len ≡ p.bitmap_len)
      × ((j : ℕ) → is_free q.bitmap j ≡ (if page_index page == j then true else is_free p.bitmap j))
      × (free_pages q ≡ free_pages p + 1)
unfolding free free_pages
free_lem {p} {q} page v h = elim (Bool-cases (leb p.bitmap_len i)) [
  | inl past ↦ ground arith
  | inr within ↦ elim (Bool-cases (is_free p.bitmap i)) [
    | inl free_already ↦ ground arith
    | inr used ↦ (
      ground (
        arith,
        length-set_free p.bitmap i,
        counted (ground arith) used,
        count_free-le (set_free p.bitmap i) p.bitmap_len,
      ),
      ground arith,
      λ j. ground (arith, is_free-set_free p.bitmap i j (ground arith)),
      ground (arith, counted (ground arith) used, count_free-le (set_free p.bitmap i) p.bitmap_len),
    )
  ]
]
  where
    i : ℕ
    i = page_index page

    counted :
        i < p.bitmap_len
        → is_free p.bitmap i ≡ false
        → count_free (set_free p.bitmap i) p.bitmap_len ≡ count_free p.bitmap p.bitmap_len + 1
    counted lt u = ground (arith, count_free-set_free p.bitmap i p.bitmap_len (omega arith) u)

-- The state after taking page `i` and freeing it.
abbrev refilled : Pmm → ℕ → Pmm
refilled p i = record (take_page p i) {
  bitmap = set_free (take_page p i).bitmap i;
  free_count = add64 (take_page p i).free_count 1;
}

module _ {p : Pmm} (i : ℕ) (h : i < p.bitmap_len) (f : is_free p.bitmap i ≡ true)
    (v : IsValid p) where
  free-take_page : free (take_page p i) (i * 4096) ≡ ok (refilled p i)
  unfolding free take_page
  free-take_page = rw index (ground (arith, is_free-set_used p.bitmap i i (word_in_range v i h)))
    where
      index : i * 4096 / 4096 ≡ i
      index = omega arith

  is_free-refilled : (j : ℕ) → is_free (refilled p i).bitmap j ≡ is_free p.bitmap j
  unfolding take_page
  is_free-refilled j = ground (
    arith,
    is_free-set_free (set_used p.bitmap i) i j (omega (arith, length-set_used p.bitmap i)),
    is_free-set_used p.bitmap i j (omega arith),
    ap (is_free p.bitmap) {x = i} {y = j},
  )

  refilled_count : free_pages (refilled p i) ≡ free_pages p
  unfolding free_pages take_page
  refilled_count = omega (
    arith,
    v.counted,
    count_free-pos p.bitmap i p.bitmap_len h f,
    count_free-le p.bitmap p.bitmap_len,
  )

-- In a valid state, freeing the page that `pmm_alloc` has just returned succeeds, keeps the
-- invariant, and brings back the same free pages and the same count. The address 0 is left out:
-- it also stands for a failed call.
pub free-alloc :
    {p : Pmm}
    → IsValid p
    → (alloc p).1 ≢ 0
    → (q : Pmm) × (free (alloc p).0 (alloc p).1 ≡ ok q)
      × ((j : ℕ) → is_free q.bitmap j ≡ is_free p.bitmap j)
      × (free_pages q ≡ free_pages p)
      × IsValid q
free-alloc {p} v h = elim (alloc_result v) [
  | inl missing ↦ absurd (h (ap (λ (r : Pmm × ℕ). r.1) missing.0))
  | inr (i, lt, f, e) ↦ rw e (
    refilled p i,
    free-take_page i lt f v,
    is_free-refilled i lt f v,
    refilled_count i lt f v,
    (free_lem (i * 4096) (take_page-IsValid v i lt f) (free-take_page i lt f v)).0,
  )
]
