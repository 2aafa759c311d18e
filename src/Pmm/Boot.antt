-- ===== src/Pmm/Boot.antt =====
-- What `pmm_init` of core/memory/pmm.c sets up, for a memory map whose usable entries do not wrap
-- and do not overlap.
use uix.Base.{
  ℕ, zero, suc, ◌+◌, ◌*◌, ◌/◌, ◌%◌, ◌^◌, ◌<◌, ◌≤◌, ◌≡◌, ◌≢◌, refl, ◌∙◌, Bool, true, false, ◌&&◌,
  ◌||◌, if◌then◌else◌, arith, Bool-cases, inl, inr, length, List, [], ◌∷◌, ◌==◌, leb, ltb, none,
  sym, not, ==→ne, ◌↔◌, replicate, length-replicate, get_or-replicate, ok, panic,
}
use uix.Base.Words.{test_bit-zero}
use uix.Pmm.{Pmm, is_free, set_free, set_used, add64, sub64, use_range}
use uix.Pmm.Bitmap.{
  in_range, is_free-set_free, is_free-set_used, is_free-use_range, count_free, count_free-set_free,
  count_free-set_used, count_free-le, length-set_free, length-set_used,
}
use uix.Pmm.Valid.{IsValid}
use uix.Pmm.Init.{
  Entry, usable, top_of_memory, bitmap_page, mark_range, mark_usable, reserve, bitmap_pages, init,
}

-- whether some usable entry holds page `j`
unfoldable pub usable_page : List Entry → ℕ → Bool
usable_page [] j = false
usable_page (e ∷ es) j = (usable e && in_range (e.base / 4096) (e.len / 4096) j) || usable_page es j

-- The usable entries stay below 2 ^ 64, and no two of them share a page.
abbrev pub Sane : List Entry → Type 0
Sane [] = Unit {0}
Sane (e ∷ es) =
    (usable e ≡ true → (e.base + e.len < 2 ^ 64))
    × ((j : ℕ)
        → usable e ≡ true
        → in_range (e.base / 4096) (e.len / 4096) j ≡ true
        → usable_page es j ≡ false)
    × Sane es

-- every usable entry ends at page `n` or below
abbrev Below : ℕ → List Entry → Type 0
Below n [] = Unit {0}
Below n (e ∷ es) = (usable e ≡ true → e.base / 4096 + e.len / 4096 ≤ n) × Below n es

module _ (n : ℕ) (small : n ≤ 2 ^ 52) where
  -- the count goes with the bitmap of `n` pages
  record Counts (b : List ℕ) (c : ℕ) : Type 0 where
    covers : n ≤ length b * 64
    counts : c ≡ count_free b n

  mark_one :
      (b : List ℕ) (c i : ℕ)
      → Counts b c
      → i < n
      → is_free b i ≡ false
      → Counts (set_free b i) (add64 c 1)
  mark_one b c i k h used = ground (
    arith,
    length-set_free b i,
    count_free-set_free b i n (omega (arith, k.covers)) used,
    count_free-le (set_free b i) n,
  )

  reserve_one :
      (b : List ℕ) (c i : ℕ)
      → Counts b c
      → i < n
      → is_free b i ≡ true
      → Counts (set_used b i) (sub64 c 1)
  reserve_one b c i k h free = ground (
    arith,
    length-set_used b i,
    count_free-set_used b i n (omega (arith, k.covers)) free,
    count_free-le b n,
  )

  -- a loop over a run has marked it free, and the count goes with it
  abbrev Marked : List ℕ → List ℕ × ℕ → ℕ → ℕ → Type 0
  Marked b r first count =
      Counts r.0 r.1
      × ((j : ℕ) → is_free r.0 j ≡ (if in_range first count j then true else is_free b j))

  mark_range_lem :
      (b : List ℕ) (c first count : ℕ)
      → Counts b c
      → first + count ≤ n
      → ((j : ℕ) → first ≤ j → j < first + count → is_free b j ≡ false)
      → Marked b (mark_range b c first count) first count
  unfolding mark_range
  mark_range_lem b c first zero k le used = (k, λ j. ground arith)
  mark_range_lem b c first (suc count) k le used =
      let later =
        mark_range_lem (set_free b first) (add64 c 1) (suc first) count
          (mark_one b c first k (omega arith) (used first (omega arith) (omega arith)))
          (omega arith)
          (λ j lo hi. ground (
            arith,
            is_free-set_free b first j (omega (arith, k.covers)),
            used j (omega arith) (omega arith),
          )) in
      (
        later.0,
        λ j. later.1 j ∙ ground (arith, is_free-set_free b first j (omega (arith, k.covers))),
      )

  reserve_lem :
      (b : List ℕ) (c first count : ℕ)
      → Counts b c
      → first + count ≤ n
      → ((j : ℕ) → first ≤ j → j < first + count → is_free b j ≡ true)
      → Counts (reserve b c first count).0 (reserve b c first count).1
        × ((reserve b c first count).0 ≡ use_range b first count)
  unfolding reserve use_range
  reserve_lem b c first zero k le free = (k, refl)
  reserve_lem b c first (suc count) k le free =
      reserve_lem (set_used b first) (sub64 c 1) (suc first) count
        (reserve_one b c first k (omega arith) (free first (omega arith) (omega arith)))
        (omega arith)
        (λ j lo hi. ground (
          arith,
          is_free-set_used b first j (omega (arith, k.covers)),
          free j (omega arith) (omega arith),
        ))

  mark_usable_yes :
      (b : List ℕ) (c : ℕ) (e : Entry) (es : List Entry)
      → usable e ≡ true
      → let r = mark_range b c (e.base / 4096) (e.len / 4096) in
        mark_usable b c (e ∷ es) ≡ mark_usable r.0 r.1 es
  unfolding mark_usable
  mark_usable_yes b c e es u = rw (u, mark_usable)

  mark_usable_no :
      (b : List ℕ) (c : ℕ) (e : Entry) (es : List Entry)
      → usable e ≡ false
      → mark_usable b c (e ∷ es) ≡ mark_usable b c es
  unfolding mark_usable
  mark_usable_no b c e es u = rw (u, mark_usable)

  mark_usable_lem :
      (b : List ℕ) (c : ℕ) (es : List Entry)
      → Counts b c
      → Sane es
      → Below n es
      → ((j : ℕ) → usable_page es j ≡ true → is_free b j ≡ false)
      → Counts (mark_usable b c es).0 (mark_usable b c es).1
        × ((j : ℕ) → is_free (mark_usable b c es).0 j ≡ (usable_page es j || is_free b j))
  unfolding usable_page
  mark_usable_lem b c [] k sane below used = unfold mark_usable in (k, λ j. refl)
  mark_usable_lem b c (e ∷ es) k sane below used = elim (Bool-cases (usable e)) [
    | inl u ↦
        let first : ℕ = e.base / 4096 in
        let count : ℕ = e.len / 4096 in
        let here =
          mark_range_lem b c first count k (below.0 u) (λ j lo hi. used j (ground arith)) in
        let later =
          mark_usable_lem (mark_range b c first count).0 (mark_range b c first count).1 es here.0
            sane.2 below.1 (λ j up. ground (arith, here.1 j, sane.1 j u, used j)) in
        rw (mark_usable_yes b c e es u) (later.0, λ j. later.1 j ∙ ground (arith, here.1 j))
    | inr u ↦
        let later = mark_usable_lem b c es k sane.2 below.1 (λ j up. used j (ground arith)) in
        rw (mark_usable_no b c e es u) (later.0, λ j. later.1 j ∙ ground arith)
  ]

top_of_memory-ge : (m : ℕ) (es : List Entry) → m ≤ top_of_memory m es
unfolding top_of_memory
top_of_memory-ge m [] = omega arith
top_of_memory-ge m (e ∷ es) =
    ground (arith, top_of_memory-ge m es, top_of_memory-ge (add64 e.base e.len) es)

top_of_memory-lt : (m : ℕ) (es : List Entry) → m < 2 ^ 64 → top_of_memory m es < 2 ^ 64
unfolding top_of_memory
top_of_memory-lt m [] h = h
top_of_memory-lt m (e ∷ es) h =
    ground (arith, top_of_memory-lt m es h, top_of_memory-lt (add64 e.base e.len) es (omega arith))

-- The usable entries end below the top of memory.
Below-top : (m n : ℕ) (es : List Entry) → Sane es → top_of_memory m es / 4096 ≤ n → Below n es
unfolding top_of_memory
Below-top m n [] sane h = tt
Below-top m n (e ∷ es) sane h = elim (Bool-cases (usable e)) [
  | inl u ↦ elim (Bool-cases (ltb m (add64 e.base e.len))) [
    | inl more ↦
        let h' : top_of_memory (add64 e.base e.len) es / 4096 ≤ n = rw (u, more) at h in
        (
          λ w. omega (arith, sane.0 u, top_of_memory-ge (add64 e.base e.len) es),
          Below-top (add64 e.base e.len) n es sane.2 h',
        )
    | inr less ↦
        let h' : top_of_memory m es / 4096 ≤ n = rw (u, less) at h in
        (λ w. ground (arith, sane.0 u, top_of_memory-ge m es), Below-top m n es sane.2 h')
  ]
  | inr u ↦
      let h' : top_of_memory m es / 4096 ≤ n = rw u at h in
      (λ w. ground arith, Below-top m n es sane.2 h')
]

-- The page chosen for the bitmap starts a run of `k` pages inside one usable entry.
bitmap_page_lem :
    (k n : ℕ) (es : List Entry)
    → Below n es
    → bitmap_page k es ≢ 0
    → (bitmap_page k es / 4096 + k ≤ n)
      × ((j : ℕ) → in_range (bitmap_page k es / 4096) k j ≡ true → usable_page es j ≡ true)
unfolding bitmap_page usable_page
bitmap_page_lem k n [] below h = absurd (h refl)
bitmap_page_lem k n (e ∷ es) below h = elim (Bool-cases (usable e && leb ((k + 1) * 4096) e.len)) [
  | inl here ↦ rw here (ground (arith, below.0), λ j in_run. ground arith)
  | inr there ↦
      let later = bitmap_page_lem k n es below.1 (rw there at h) in
      rw there (later.0, λ j in_run. ground (arith, later.1 j))
]

none_free : (n j : ℕ) → is_free (replicate n 0) j ≡ false
unfolding is_free
none_free n j = rw (get_or-replicate {A = ℕ} n (j / 64) 0) (test_bit-zero (j % 64))

count_free-none : (m n : ℕ) → count_free (replicate m 0) n ≡ 0
unfolding count_free
count_free-none m zero = refl
count_free-none m (suc n) = ground (arith, count_free-none m n, none_free m n)

-- `pmm_init` panics exactly if no usable entry has room for the bitmap and one page more at an
-- address other than 0.
pub init_panics_iff :
    (memmap : List Entry)
    → (init memmap ≡ panic)
      ↔ (bitmap_page (bitmap_pages (top_of_memory 0 memmap / 4096)) memmap ≡ 0)
unfolding init
init_panics_iff memmap = ground arith

module _ (memmap : List Entry) (sane : Sane memmap) where
  abbrev total : ℕ
  total = top_of_memory 0 memmap / 4096

  abbrev pub reserved_page : ℕ
  reserved_page = bitmap_page (bitmap_pages total) memmap

  abbrev marked : List ℕ × ℕ
  marked = mark_usable (replicate ((total + 63) / 64) 0) 0 memmap

  total-le : total ≤ 2 ^ 52
  total-le = omega (arith, top_of_memory-lt 0 memmap (omega arith))

  marked_lem :
      Counts total total-le marked.0 marked.1
      × ((j : ℕ) → is_free marked.0 j ≡ usable_page memmap j)
  marked_lem =
      let r =
        mark_usable_lem total total-le (replicate ((total + 63) / 64) 0) 0 memmap
          (record {
            covers = omega (arith, length-replicate {A = ℕ} ((total + 63) / 64) 0);
            counts = sym (count_free-none ((total + 63) / 64) total);
          })
          sane (Below-top 0 total memmap sane (omega arith)) (λ j up. none_free _ j) in
      (r.0, λ j. r.1 j ∙ ground (arith, none_free ((total + 63) / 64) j))

  -- the state that `pmm_init` leaves, the bitmap's own pages reserved
  abbrev reserved : List ℕ × ℕ
  reserved = reserve marked.0 marked.1 (reserved_page / 4096) (bitmap_pages total)

  reserved_lem :
      reserved_page ≢ 0
      → Counts total total-le reserved.0 reserved.1
        × ((j : ℕ)
            → is_free reserved.0 j ≡ (
                usable_page memmap j
                && not (in_range (reserved_page / 4096) (bitmap_pages total) j)))
  reserved_lem h =
      let place =
        bitmap_page_lem (bitmap_pages total) total memmap
          (Below-top 0 total memmap sane (omega arith)) h in
      let r =
        reserve_lem total total-le marked.0 marked.1 (reserved_page / 4096) (bitmap_pages total)
          marked_lem.0 place.0 (λ j lo hi. marked_lem.1 j ∙ place.1 j (ground arith)) in
      (
        r.0,
        λ j. rw r.1 (
            is_free-use_range marked.0 (reserved_page / 4096) (bitmap_pages total) j
              (omega (arith, place.0, marked_lem.0.covers))
            ∙ ground (arith, marked_lem.1 j)),
      )

  -- When `pmm_init` returns, for a memory map whose usable entries do not wrap and share no page,
  -- the invariant holds, and the free pages are exactly those of the usable entries that the
  -- bitmap itself does not occupy.
  pub init_lem :
      (q : Pmm)
      → init memmap ≡ ok q
      → IsValid q
        × ((j : ℕ)
            → is_free q.bitmap j ≡ (
                usable_page memmap j
                && not (in_range (reserved_page / 4096) (bitmap_pages total) j)))
  unfolding init
  init_lem q h = elim (Bool-cases (reserved_page == 0)) [
    | inl zero_page ↦ ground arith
    | inr placed ↦
        let r = reserved_lem (==→ne reserved_page 0 placed) in
        let e : q ≡ record {
          bitmap = reserved.0;
          bitmap_len = total;
          total_pages = total;
          free_count = reserved.1;
          next_free_scan = 0;
          refcounts = none;
        } =
          ground arith in
        rw e (
          record {
            covered = r.0.covers;
            small = total-le;
            cursor = omega arith;
            counted = r.0.counts;
          },
          r.1,
        )
  ]
