-- ===== src/Pmm/Refs.antt =====
-- The reference counts of core/memory/pmm.c.
use uix.Base.{
  ℕ, zero, suc, inl, inr, Option-cases, ◌∙◌, ◌-◌, ◌<◌, ◌≤◌, ◌≡◌, refl, false, if◌then◌else◌, arith,
  length, List, ◌==◌, leb, ==_self, none, some, get_or, get_or-set, set, ok, length-replicate,
  get_or-replicate, replicate,
}
use uix.Pmm.{
  Pmm, alloc, alloc_scan, take_page, page_index, ref, unref, unref_count, getref, refcounts_grow,
  bump, free,
}
use uix.Pmm.AllocPages.{alloc_pages-total_pages}

-- the array is there and has a count for every page
pub record HasCounts (p : Pmm) (counts : List ℕ) : Type 0 where
  pub present : p.refcounts ≡ some counts
  pub enough : p.total_pages ≤ length counts

module _ {p : Pmm} {counts : List ℕ} (page : ℕ) (c : HasCounts p counts)
    (h : page_index page < p.total_pages) where
  -- Where the counts are there, `pmm_ref` of a page of the memory adds one to its count, up to
  -- 0xFFFF, and to no other count.
  pub getref-ref :
      (other : ℕ)
      → getref (ref p page) other
        ≡ (if page_index page == page_index other then bump (getref p page) else getref p other)
  unfolding getref ref refcounts_grow
  getref-ref other = rw c.present (
      ground (
        arith,
        get_or-set counts (page_index page) (page_index other)
            (bump (get_or counts (page_index page) 0)) 0 (omega (arith, c.enough)),
      ))

  -- Where the counts are there, `pmm_unref` of a page of the memory with more than one reference
  -- takes one off its count and off no other, and frees nothing.
  pub unref-shared :
      1 < getref p page
      → (q : Pmm) × (unref p page ≡ ok q)
        × (q.bitmap ≡ p.bitmap)
        × (q.free_count ≡ p.free_count)
        × ((other : ℕ)
            → getref q other
              ≡ (if page_index page == page_index other then getref p page - 1 else getref p other))
  unfolding getref unref unref_count
  unref-shared = rw c.present (λ more. (
    record p {
      refcounts = some (set counts (page_index page) (get_or counts (page_index page) 0 - 1));
    },
    ground arith,
    refl,
    refl,
    λ other. ground (
      arith,
      get_or-set counts (page_index page) (page_index other) (get_or counts (page_index page) 0 - 1)
          0 (omega (arith, c.enough)),
    ),
  ))

  -- `pmm_unref` of a page with at most one reference is `pmm_free` with the count set to 0.
  pub unref-last :
      getref p page ≤ 1
      → unref p page ≡ free (record p { refcounts = some (set counts (page_index page) 0) }) page
  unfolding getref unref unref_count
  unref-last = rw c.present (λ few. ground arith)

-- A fresh array of `n` counts with the count of `i` bumped.
bump_fresh :
    (n i : ℕ) → i < n → get_or (set (replicate n 0) i (bump (get_or (replicate n 0) i 0))) i 0 ≡ 1
bump_fresh n i h = rw (
  get_or-replicate {A = ℕ} n i 0,
  get_or-set {A = ℕ} (replicate n 0) i i 1 0 (omega (arith, length-replicate {A = ℕ} n 0)),
  ==_self i,
)

-- While there is no array of counts, `pmm_getref` returns 1 for a page of the memory, and it still
-- does after the first `pmm_ref` of that page, which makes the array.
pub getref-ref_first :
    (p : Pmm) (page : ℕ)
    → p.refcounts ≡ none
    → page_index page < p.total_pages
    → (getref p page ≡ 1) × (getref (ref p page) page ≡ 1)
unfolding getref ref refcounts_grow
getref-ref_first p page e h =
    let past : leb p.total_pages (page_index page) ≡ false = ground arith in
    rw e (
      refl,
      rw past (rw alloc_pages-total_pages (rw past (bump_fresh _ (page_index page) (omega arith)))),
    )

alloc_scan-counts :
    (p : Pmm) (rounds n : ℕ)
    → ((alloc_scan p rounds n).0.refcounts ≡ p.refcounts)
      × ((alloc_scan p rounds n).0.total_pages ≡ p.total_pages)
unfolding alloc_scan take_page
alloc_scan-counts p zero n = (refl, refl)
alloc_scan-counts p (suc rounds) n = ground (arith, alloc_scan-counts p rounds (suc n))

getref-same :
    (p q : Pmm) (page : ℕ)
    → p.refcounts ≡ q.refcounts
    → p.total_pages ≡ q.total_pages
    → getref p page ≡ getref q page
unfolding getref
getref-same p q page counts total = elim (Option-cases q.refcounts) [
  | inl e ↦ let e' : p.refcounts ≡ none = counts ∙ e in rw (e', e) refl
  | inr (cs, e) ↦ let e' : p.refcounts ≡ some cs = counts ∙ e in rw (e', e, total) refl
]

-- `pmm_alloc` leaves the reference counts alone.
pub alloc-HasCounts :
    (p : Pmm) (counts : List ℕ)
    → HasCounts p counts
    → HasCounts (alloc p).0 counts
      × ((page : ℕ) → getref (alloc p).0 page ≡ getref p page)
      × ((alloc p).0.total_pages ≡ p.total_pages)
unfolding alloc
alloc-HasCounts p counts c =
    let same = alloc_scan-counts p p.bitmap_len 0 in
    (
      record { present = same.0 ∙ c.present; enough = rw same.1 c.enough },
      λ page. getref-same _ p page same.0 same.1,
      same.1,
    )
