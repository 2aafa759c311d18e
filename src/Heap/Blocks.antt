-- ===== src/Heap/Blocks.antt =====
-- What the free list of core/memory/heap.c covers, and when its blocks do not overlap.
use uix.Base.{
  ℕ, ◌+◌, ◌^◌, ◌<◌, ◌≤◌, ◌≡◌, refl, ◌∙◌, ap, Bool, true, false, List, [], ◌∷◌, ltb, leb, ◌==◌, ◌||◌,
  ◌&&◌, arith,
}
use uix.Heap.{Header, Headers, put, hdr_size}

-- whether byte `a` lies in the `n` bytes at `b`
abbrev pub within : ℕ → ℕ → ℕ → Bool
within b n a = leb b a && ltb a (b + n)

-- whether byte `a` lies in a block of the list
unfoldable pub covers : Headers → List ℕ → ℕ → Bool
covers hdr [] a = false
covers hdr (b ∷ bs) a = within b (hdr b).size a || covers hdr bs a

-- Each block has room for its header and ends below 2 ^ 64, and no two blocks share a byte.
abbrev pub Disjoint : Headers → List ℕ → Type 0
Disjoint hdr [] = Unit {0}
Disjoint hdr (b ∷ bs) =
    (hdr_size ≤ (hdr b).size)
    × (b + (hdr b).size < 2 ^ 64)
    × ((a : ℕ) → within b (hdr b).size a ≡ true → covers hdr bs a ≡ false)
    × Disjoint hdr bs

-- A block of a disjoint list covers its own first byte.
pub starts : (hdr : Headers) (b : ℕ) → hdr_size ≤ (hdr b).size → within b (hdr b).size b ≡ true
starts hdr b h = ground arith

-- Headers that agree at the blocks of a list cover the same bytes there.
pub covers-put :
    (hdr : Headers) (bs : List ℕ) (d : ℕ) (h : Header)
    → Disjoint hdr bs
    → covers hdr bs d ≡ false
    → ((a : ℕ) → covers (put hdr d h) bs a ≡ covers hdr bs a) × Disjoint (put hdr d h) bs
unfolding covers
covers-put hdr [] d h dis out = (λ a. refl, tt)
covers-put hdr (b ∷ bs) d h dis out =
    let other : (d == b) ≡ false = ground arith in
    let rest = covers-put hdr bs d h dis.3 (ground arith) in
    (
      λ a. rw other (ap (λ c. within b (hdr b).size a || c) (rest.0 a)),
      rw other (dis.0, dis.1, λ a i. rest.0 a ∙ dis.2 a i, rest.1),
    )
