-- ===== src/Pmm/AllocPages.antt =====
-- `pmm_alloc_pages` of core/memory/pmm.c: the first run of `n` free pages.
use uix.Base.{
  ℕ, zero, suc, ◌+◌, ◌*◌, ◌-◌, ◌<◌, ◌≤◌, ◌≡◌, refl, ◌∙◌, true, false, ◌⊎◌, inl, inr, if◌then◌else◌,
  arith, Bool-cases, length, List, ◌==◌, ap, leb, ==→eq, ==→ne,
}
use uix.Pmm.{
  Pmm, page_addr, is_free, take_run, run_scan, alloc_pages, set_used, use_range, free_pages,
}
use uix.Pmm.Bitmap.{
  is_free-set_used, count_free, count_free-set_used, length-set_used, is_free-use_range, in_range,
  length-use_range, count_free-le,
}
use uix.Pmm.Valid.{IsValid, page_addr_lem}

abbrev pub AllFree : List ℕ → ℕ → ℕ → Type 0
AllFree bitmap first count = (j : ℕ) → first ≤ j → j < first + count → is_free bitmap j ≡ true

-- no run of `n` free pages below page `i`
abbrev pub NoRun : List ℕ → ℕ → ℕ → Type 0
NoRun bitmap n i = (first : ℕ) → first + n ≤ i → ¬ (AllFree bitmap first n)

-- no run of free pages that ends just before page `i` is longer than `run`
abbrev Longest : List ℕ → ℕ → ℕ → Type 0
Longest bitmap i run = (first : ℕ) → first ≤ i → AllFree bitmap first (i - first) → i - first ≤ run

abbrev RunResult : Pmm → ℕ → ℕ → ℕ → ℕ → Type 0
RunResult p n rounds i run =
    ((run_scan p n rounds i run ≡ (p, 0)) × NoRun p.bitmap n (i + rounds))
    ⊎ ((first : ℕ) × (first + n ≤ i + rounds)
        × AllFree p.bitmap first n
        × (run_scan p n rounds i run ≡ (take_run p n (first + n - 1), page_addr first)))

module _ (bitmap : List ℕ) (n i : ℕ) where
  -- One more free page behind `i` makes the longest run one longer.
  longer : (run : ℕ) → Longest bitmap i run → Longest bitmap (suc i) (suc run)
  longer run l first h all = elim (Bool-cases (leb first i)) [
    | inl e ↦
        omega
          (arith, l first (ground arith) (λ j lo hi. all j lo (omega arith)), leb_sound first i e)
    | inr e ↦ ground arith
  ]
    where
      leb_sound : (a b : ℕ) → leb a b ≡ true → a ≤ b
      leb_sound a b h = ground arith

  -- A page in use ends every run.
  broken : is_free bitmap i ≡ false → Longest bitmap (suc i) 0
  broken used first h all = elim (Bool-cases (leb first i)) [
    | inl e ↦ absurd (ground (arith, all i (ground arith) (ground arith)))
    | inr e ↦ ground arith
  ]

  -- A run shorter than `n` leaves no run of `n` pages that ends here.
  still_none :
      (run : ℕ) → run < n → Longest bitmap (suc i) run → NoRun bitmap n i → NoRun bitmap n (suc i)
  still_none run short l before first h all = elim (Bool-cases (leb (first + n) i)) [
    | inl e ↦ before first (ground arith) all
    | inr e ↦ absurd (
        let end : first + n ≡ suc i = ground arith in
        omega (arith, l first (omega arith) (λ j lo hi. all j lo (omega arith))))
  ]

  extend :
      (run : ℕ)
      → run ≤ i
      → is_free bitmap i ≡ true
      → AllFree bitmap (i - run) run
      → AllFree bitmap (i - run) (suc run)
  extend run h f all j lo hi = elim (Bool-cases (i == j)) [
    | inl e ↦ ground (arith, ap (is_free bitmap) {x = i} {y = j})
    | inr e ↦ all j lo (ground arith)
  ]

next_round : (i rounds : ℕ) → i + suc rounds ≡ suc i + rounds
next_round i rounds = omega arith

run_scan_result :
    (p : Pmm) (n rounds i run : ℕ)
    → run < n
    → run ≤ i
    → AllFree p.bitmap (i - run) run
    → Longest p.bitmap i run
    → NoRun p.bitmap n i
    → RunResult p n rounds i run
unfolding run_scan
run_scan_result p n zero i run short back all l before =
    inl (refl, λ first h. before first (omega arith))
run_scan_result p n (suc rounds) i run short back all l before =
    elim (Bool-cases (is_free p.bitmap i)) [
      | inl f ↦ elim (Bool-cases (suc run == n)) [
        | inl e ↦
            let full : suc run ≡ n = ==→eq (suc run) n e in
            let first : i + 1 - n ≡ i - run = omega arith in
            let last : i - run + n - 1 ≡ i = omega arith in
            inr (
              i - run,
              omega arith,
              λ j lo hi. extend p.bitmap n i run back f all j lo (omega arith),
              rw (f, e, first, last, first),
            )
        | inr e ↦
            let short' : suc run < n = omega (arith, ==→ne (suc run) n e) in
            let l' : Longest p.bitmap (suc i) (suc run) = longer p.bitmap n i run l in
            rw (f, e, next_round i rounds)
              (run_scan_result p n rounds (suc i) (suc run) short' (omega arith)
                (λ j lo hi. extend p.bitmap n i run back f all j (omega arith) (omega arith)) l'
                (still_none p.bitmap n i (suc run) short' l' before))
      ]
      | inr f ↦
          let l' : Longest p.bitmap (suc i) 0 = broken p.bitmap n i f in
          rw (f, next_round i rounds)
            (run_scan_result p n rounds (suc i) 0 (omega arith) (omega arith)
              (λ j lo hi. absurd (omega arith)) l'
              (still_none p.bitmap n i 0 (omega arith) l' before))
    ]

-- What `pmm_alloc_pages` returns: nothing, or the run that it has taken.
abbrev pub PagesResult : Pmm → ℕ → Type 0
PagesResult p n =
    ((alloc_pages p n ≡ (p, 0)) × NoRun p.bitmap n p.bitmap_len)
    ⊎ ((first : ℕ) × (first + n ≤ p.bitmap_len)
        × AllFree p.bitmap first n
        × (alloc_pages p n ≡ (take_run p n (first + n - 1), first * 4096)))

-- In a valid state, a call of `pmm_alloc_pages` for at least one page fails, with the state
-- unchanged, only if the bitmap has no run of `n` free pages; otherwise it takes such a run, and
-- the address returned does not wrap.
pub alloc_pages-PagesResult : {p : Pmm} (n : ℕ) → IsValid p → 0 < n → PagesResult p n
unfolding alloc_pages
alloc_pages-PagesResult {p} n v h =
    elim (run_scan_result p n p.bitmap_len 0 0 h (omega arith) (λ j lo hi. absurd (omega arith))
      (λ first le all. omega arith) (λ first le. absurd (omega arith))) [
        | inl missing ↦ inl (missing.0, λ first le. missing.1 first (omega arith))
        | inr found ↦ inr (
          found.0,
          omega (arith, found.1),
          found.2,
          found.3
              ∙ ap (λ a. (take_run p n (found.0 + n - 1), a))
                  (page_addr_lem v found.0 (omega (arith, found.1))),
        )
      ]

-- A call for no page at all fails: the run is never of length 0 when it is compared.
run_scan-zero : (p : Pmm) (rounds i run : ℕ) → run_scan p 0 rounds i run ≡ (p, 0)
unfolding run_scan
run_scan-zero p zero i run = refl
run_scan-zero p (suc rounds) i run =
    ground (arith, run_scan-zero p rounds (suc i) (suc run), run_scan-zero p rounds (suc i) 0)

pub alloc_pages-zero : (p : Pmm) → alloc_pages p 0 ≡ (p, 0)
unfolding alloc_pages
alloc_pages-zero p = run_scan-zero p p.bitmap_len 0 0

count_free-use_range :
    (bitmap : List ℕ) (first count n : ℕ)
    → n ≤ length bitmap * 64
    → first + count ≤ n
    → AllFree bitmap first count
    → count_free (use_range bitmap first count) n + count ≡ count_free bitmap n
unfolding use_range
count_free-use_range bitmap first zero n h le all = omega arith
count_free-use_range bitmap first (suc count) n h le all = ground (
  arith,
  count_free-use_range (set_used bitmap first) (suc first) count n
      (omega (arith, length-set_used bitmap first)) (omega arith)
      (λ j lo hi.
        ground (
          arith,
          is_free-set_used bitmap first j (omega arith),
          all j (omega arith) (omega arith),
        )),
  count_free-set_used bitmap first n (omega arith) (all first (omega arith) (omega arith)),
)

module _ {p : Pmm} (n first : ℕ) (v : IsValid p) (le : first + n ≤ p.bitmap_len) (h : 0 < n)
    (all : AllFree p.bitmap first n) where
  start : first + n - 1 + 1 - n ≡ first
  start = omega arith

  counted :
      count_free (use_range p.bitmap first n) p.bitmap_len + n ≡ count_free p.bitmap p.bitmap_len
  counted = count_free-use_range p.bitmap first n p.bitmap_len v.covered le all

  -- Taking a run of free pages keeps the invariant.
  pub take_run-IsValid : IsValid (take_run p n (first + n - 1))
  unfolding take_run
  take_run-IsValid = rw start (
      ground
        (arith, counted, length-use_range p.bitmap first n, count_free-le p.bitmap p.bitmap_len))

  -- In a valid state, taking the run of `n` free pages from `first` on reserves the run and no
  -- other page, and counts `n` pages less. The run is inside the bitmap and not empty.
  pub take_run_lem :
      ((j : ℕ)
        → is_free (take_run p n (first + n - 1)).bitmap j
          ≡ (if in_range first n j then false else is_free p.bitmap j))
      × (free_pages (take_run p n (first + n - 1)) + n ≡ free_pages p)
  unfolding take_run free_pages
  take_run_lem = (
    λ j. rw start (is_free-use_range p.bitmap first n j (omega (arith, v.covered))),
    omega (arith, counted, v.counted, v.small, count_free-le p.bitmap p.bitmap_len),
  )

-- `pmm_alloc_pages` keeps the invariant.
pub alloc_pages-IsValid : {p : Pmm} (n : ℕ) → IsValid p → IsValid (alloc_pages p n).0
alloc_pages-IsValid {p} zero v = rw (alloc_pages-zero p) v
alloc_pages-IsValid {p} (suc n) v = elim (alloc_pages-PagesResult (suc n) v (omega arith)) [
  | inl missing ↦ rw missing.0 v
  | inr (first, le, all, e) ↦ rw e (take_run-IsValid (suc n) first v le (omega arith) all)
]

run_scan-total_pages :
    (p : Pmm) (n rounds i run : ℕ) → (run_scan p n rounds i run).0.total_pages ≡ p.total_pages
unfolding run_scan
run_scan-total_pages p n zero i run = refl
run_scan-total_pages p n (suc rounds) i run = ground (
  arith,
  run_scan-total_pages p n rounds (suc i) (suc run),
  run_scan-total_pages p n rounds (suc i) 0,
)

pub alloc_pages-total_pages : (p : Pmm) (n : ℕ) → (alloc_pages p n).0.total_pages ≡ p.total_pages
unfolding alloc_pages
alloc_pages-total_pages p n = run_scan-total_pages p n p.bitmap_len 0 0
