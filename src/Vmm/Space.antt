-- ===== src/Vmm/Space.antt =====
-- `vmm_create_space` of core/memory/vmm.c.
use mathlib.Core.Path.{subst}
use uix.Base.{
  Outcome, ◌>>=◌, sequence_returns, ok-injective, ℕ, zero, suc, ◌<◌, ◌≡◌, ◌≢◌, refl, ◌∙◌, ap, ltb,
  ◌==◌, ◌&&◌, if◌then◌else◌, arith, ok, ne→==, ==_self,
}
use uix.Pmm
use uix.Pmm.{Pmm}
use uix.Vmm.{Vmm, write_word, clear_page, alloc_page, for_each, share_entry, create_space}
use uix.Libc.Blocks.{within}

-- What a loop over the entries of a table keeps.
pub for_each_inv {ℓ} :
    (P : Vmm → Type ℓ) (step : Vmm → ℕ → Outcome Vmm) (rounds first : ℕ) (s u : Vmm)
    → ((i : ℕ) (v w : Vmm) → P v → step v i ≡ ok w → P w)
    → P s
    → for_each step rounds first s ≡ ok u
    → P u
unfolding for_each
for_each_inv P step zero first s u keep p e = subst P (ok-injective e) p
for_each_inv P step (suc rounds) first s u keep p e =
    let (v, tail, head) = sequence_returns (step s first) (for_each step rounds (suc first)) u e in
    for_each_inv P step rounds (suc first) v u keep (keep first s v p head) tail

-- The part of a table that a loop of copies shares; the two tables may be one.
share_lem :
    (src dst rounds first : ℕ) (s : Vmm)
    → (u : Vmm) × (for_each (share_entry src dst) rounds first s ≡ ok u)
      × ((q i : ℕ)
          → u.words q i
            ≡ (if (q == dst) && within first rounds i then s.words src i else s.words q i))
      × (u.pmm ≡ s.pmm)
      × (u.pml4 ≡ s.pml4)
unfolding for_each
share_lem src dst zero first s = (s, refl, λ q i. ground arith, refl, refl)
share_lem src dst (suc rounds) first s =
    let s1 = write_word s dst first (s.words src first) in
    let (u, run, words, pmm, top) = share_lem src dst rounds (suc first) s1 in
    (u, run, λ q i. words q i ∙ ground (arith, ap (s.words src) {x = i} {y = first}), pmm, top)

pub alloc_page_lem :
    (s : Vmm)
    → (Pmm.alloc s.pmm).1 ≢ 0
    → alloc_page s ≡ ok (record s { pmm = (Pmm.alloc s.pmm).0 }, (Pmm.alloc s.pmm).1)
unfolding alloc_page
alloc_page_lem s some_page = rw (ne→== (Pmm.alloc s.pmm).1 0 some_page) refl

==_sym : (a b : ℕ) → (a == b) ≡ (b == a)
==_sym a b = ground arith

-- what `vmm_create_space` does with its page
abbrev share_upper : Vmm × ℕ → Outcome (Vmm × ℕ)
share_upper r =
    for_each (share_entry r.0.pml4 r.1) 256 256 (clear_page r.0 r.1) >>= λ s'. ok (s', r.1)

halves : (i x : ℕ) → i < 512 → (if within 256 256 i then x else 0) ≡ (if ltb i 256 then 0 else x)
halves i x lt = ground arith

-- Where `pmm_alloc` gives a page, `vmm_create_space` returns that page as a new top table, with the upper
-- half of the current one and an empty lower half, and changes no other page; but if the page that it
-- is given is the current top table, which is then cleared before it is read, all of the new
-- table is empty.
pub create_space_lem :
    (s : Vmm)
    → let (p, t) = Pmm.alloc s.pmm in
      t ≢ 0
      → (u : Vmm) × (create_space s ≡ ok (u, t))
        × ((i : ℕ)
            → i < 512
            → u.words t i ≡ (if ltb i 256 then 0 else if t == s.pml4 then 0 else s.words s.pml4 i))
        × ((q i : ℕ) → q ≢ t → u.words q i ≡ s.words q i)
        × (u.pmm ≡ p)
        × (u.pml4 ≡ s.pml4)
unfolding create_space
create_space_lem s some_page =
    let (p, t) = Pmm.alloc s.pmm in
    let cleared = clear_page (record s { pmm = p }) t in
    let (u, run, words, pmm, top) = share_lem s.pml4 t 256 256 cleared in
    (
      u,
      ap (λ m. m >>= share_upper) (alloc_page_lem s some_page)
          ∙ ap (λ m. m >>= λ s'. ok (s', t)) run,
      λ i lt.
          words t i
          ∙ rw (==_self t) (halves i (cleared.words s.pml4 i) lt)
          ∙ ap (λ b. if ltb i 256 then 0 else (if b then 0 else s.words s.pml4 i))
              (==_sym s.pml4 t),
      λ q i ne. words q i ∙ rw (ne→== q t ne) refl,
      pmm,
      top,
    )
