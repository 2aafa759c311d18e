-- ===== src/Pmm/Alloc.antt =====
-- `pmm_alloc` of core/memory/pmm.c: what the scan from the cursor finds.
use uix.Base.{
  ℕ, zero, suc, ◌+◌, ◌*◌, ◌%◌, ◌-◌, ◌<◌, ◌≤◌, ◌≡◌, refl, ◌∙◌, true, false, ◌⊎◌, inl, inr, arith,
  Bool-cases, ◌==◌, ap, leb, ltb,
}
use native.Mathlib.Nat.{mod-eq_of_lt, mod-eq-sub-mod}
use uix.Pmm.{Pmm, page_addr, is_free, take_page, alloc_scan, alloc, add64}
use uix.Pmm.Valid.{IsValid, page_addr_lem}

-- the page that round `n` of the loop looks at
abbrev pub scanned : Pmm → ℕ → ℕ
scanned p n = add64 p.next_free_scan n % p.bitmap_len

-- What a scan of `rounds` rounds from round `n` returns: nothing, if it saw no free page, or a
-- free page that it has taken.
abbrev pub ScanResult : Pmm → ℕ → ℕ → Type 0
ScanResult p rounds n =
    ((alloc_scan p rounds n ≡ (p, 0))
      × ((m : ℕ) → n ≤ m → m < n + rounds → is_free p.bitmap (scanned p m) ≡ false))
    ⊎ ((i : ℕ) × (i < p.bitmap_len)
        × (is_free p.bitmap i ≡ true)
        × (alloc_scan p rounds n ≡ (take_page p i, page_addr i)))

-- A scan that misses at round `n` and later is one that misses from `n` on.
missed :
    (p : Pmm) (rounds n : ℕ)
    → is_free p.bitmap (scanned p n) ≡ false
    → ((m : ℕ) → suc n ≤ m → m < suc n + rounds → is_free p.bitmap (scanned p m) ≡ false)
    → (m : ℕ) → n ≤ m
    → m < n + suc rounds
    → is_free p.bitmap (scanned p m) ≡ false
missed p rounds n here later m lo hi = elim (Bool-cases (n == m)) [
  | inl e ↦ ground (arith, ap (λ k. is_free p.bitmap (scanned p k)) {x = n} {y = m})
  | inr e ↦ later m (ground arith) (omega arith)
]

alloc_scan-ScanResult : (p : Pmm) (rounds n : ℕ) → 0 < p.bitmap_len → ScanResult p rounds n
unfolding alloc_scan
alloc_scan-ScanResult p zero n h = inl (refl, λ m lo hi. absurd (omega arith))
alloc_scan-ScanResult p (suc rounds) n h = elim (Bool-cases (is_free p.bitmap (scanned p n))) [
  | inl f ↦ inr (scanned p n, omega arith, f, rw f)
  | inr f ↦ elim (alloc_scan-ScanResult p rounds (suc n) h) [
    | inl none_left ↦ inl (rw f none_left.0, missed p rounds n f none_left.1)
    | inr found ↦ inr (found.0, found.1, found.2, rw f found.3)
  ]
]

-- Every page is scanned in some round.
reached :
    {p : Pmm} (i : ℕ)
    → IsValid p
    → i < p.bitmap_len
    → (m : ℕ) × (m < p.bitmap_len) × (scanned p m ≡ i)
reached {p} i v h = elim (Bool-cases (leb p.next_free_scan i)) [
  | inl e ↦ (
    i - p.next_free_scan,
    ground arith,
    ground (arith, mod-eq_of_lt {n = i} {m = p.bitmap_len} h),
  )
  | inr e ↦ (
    i + p.bitmap_len - p.next_free_scan,
    ground arith,
    ground (
      arith,
      mod-eq-sub-mod {n = i + p.bitmap_len} {m = p.bitmap_len} (omega arith),
      mod-eq_of_lt {n = i} {m = p.bitmap_len} h,
    ),
  )
]

-- What `pmm_alloc` returns: nothing, if no page is free, or a page that was free and is now taken.
abbrev pub AllocResult : Pmm → Type 0
AllocResult p =
    ((alloc p ≡ (p, 0)) × ((i : ℕ) → i < p.bitmap_len → is_free p.bitmap i ≡ false))
    ⊎ ((i : ℕ) × (i < p.bitmap_len)
        × (is_free p.bitmap i ≡ true)
        × (alloc p ≡ (take_page p i, i * 4096)))

-- In a valid state, `pmm_alloc` leaves the state alone and returns 0 only if no page is free;
-- otherwise it takes one page that was free and returns its address, which does not wrap.
pub alloc_result : {p : Pmm} → IsValid p → AllocResult p
unfolding alloc
alloc_result {p} v = elim (Bool-cases (ltb 0 p.bitmap_len)) [
  | inl e ↦ elim (alloc_scan-ScanResult p p.bitmap_len 0 (ground arith)) [
    | inl missing ↦ inl (missing.0, λ i h. all_used i h missing.1 (reached i v h))
    | inr found ↦ inr (
      found.0,
      found.1,
      found.2,
      found.3 ∙ ap (λ a. (take_page p found.0, a)) (page_addr_lem v found.0 found.1),
    )
  ]
  | inr e ↦ inl (no_rounds p.bitmap_len refl (ground arith), λ i h. absurd (ground arith))
]
  where
    all_used :
        (i : ℕ)
        → i < p.bitmap_len
        → ((m : ℕ) → 0 ≤ m → m < 0 + p.bitmap_len → is_free p.bitmap (scanned p m) ≡ false)
        → (m : ℕ) × (m < p.bitmap_len) × (scanned p m ≡ i)
        → is_free p.bitmap i ≡ false
    all_used i h unseen (m, below, e) = rw (← e) (unseen m (omega arith) (omega arith))

    no_rounds : (n : ℕ) → p.bitmap_len ≡ n → n ≡ 0 → alloc_scan p n 0 ≡ (p, 0)
    no_rounds n e z = rw z refl
