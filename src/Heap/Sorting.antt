-- ===== src/Heap/Sorting.antt =====
-- The insertion sort of `kfree` of core/memory/heap.c orders blocks that do not overlap.
use uix.Base.{
  ℕ, ◌+◌, ◌^◌, ◌<◌, ◌≤◌, ◌≡◌, refl, sym, ◌∙◌, true, false, inl, inr, List, [], ◌∷◌, ltb, ◌-◌, ◌||◌,
  arith, Bool-cases,
}
use uix.Heap.{Headers, hdr_size, insert_key, sort_onto, reverse_onto, sort}
use uix.Heap.Blocks.{within, covers, Disjoint, starts}
use uix.Heap.Fit.{AllMarked}

-- Blocks from `lo` on, each at least `gap` bytes behind the end of the one before it.
abbrev pub Ascending : ℕ → Headers → ℕ → List ℕ → Type 0
Ascending gap hdr lo [] = Unit {0}
Ascending gap hdr lo (b ∷ bs) =
    (lo ≤ b)
    × (hdr_size ≤ (hdr b).size)
    × (b + (hdr b).size < 2 ^ 64)
    × Ascending gap hdr (b + (hdr b).size + gap) bs

-- Blocks that end at `hi` or below, each before the one that precedes it.
abbrev pub Descending : Headers → ℕ → List ℕ → Type 0
Descending hdr hi [] = Unit {0}
Descending hdr hi (b ∷ bs) =
    (b + (hdr b).size ≤ hi)
    × (hdr_size ≤ (hdr b).size)
    × (b + (hdr b).size < 2 ^ 64)
    × Descending hdr b bs

-- no byte of the list is in the block
abbrev pub FreeOf : Headers → ℕ → List ℕ → Type 0
FreeOf hdr key bs = (a : ℕ) → within key (hdr key).size a ≡ true → covers hdr bs a ≡ false

insert_key-covers :
    (hdr : Headers) (key : ℕ) (bs : List ℕ) (a : ℕ)
    → covers hdr (insert_key key bs) a ≡ (within key (hdr key).size a || covers hdr bs a)
unfolding insert_key covers
insert_key-covers hdr key [] a = refl
insert_key-covers hdr key (b ∷ bs) a = elim (Bool-cases (ltb key b)) [
  | inl e ↦ rw e (ground (arith, insert_key-covers hdr key bs a))
  | inr e ↦ rw e refl
]

insert_key-Descending :
    (hdr : Headers) (key hi : ℕ) (bs : List ℕ)
    → hdr_size ≤ (hdr key).size
    → key + (hdr key).size < 2 ^ 64
    → key + (hdr key).size ≤ hi
    → FreeOf hdr key bs
    → Descending hdr hi bs
    → Descending hdr hi (insert_key key bs)
unfolding insert_key covers
insert_key-Descending hdr key hi [] big top le out d = (le, big, top, tt)
insert_key-Descending hdr key hi (b ∷ bs) big top le out d = elim (Bool-cases (ltb key b)) [
  | inl e ↦
      let after : key + (hdr key).size ≤ b = ground (arith, out b, starts hdr b d.1) in
      rw e (
        d.0,
        d.1,
        d.2,
        insert_key-Descending hdr key b bs big top after (λ a i. ground (arith, out a i)) d.3,
      )
  | inr e ↦
      let before : b + (hdr b).size ≤ key = ground (arith, out key, starts hdr key big) in
      rw e (le, big, top, (before, d.1, d.2, d.3))
]

insert_key-AllMarked :
    (hdr : Headers) (key : ℕ) (bs : List ℕ)
    → AllMarked hdr (key ∷ bs)
    → AllMarked hdr (insert_key key bs)
unfolding insert_key
insert_key-AllMarked hdr key [] m = m
insert_key-AllMarked hdr key (b ∷ bs) m = elim (Bool-cases (ltb key b)) [
  | inl e ↦ rw e (m.1.0, insert_key-AllMarked hdr key bs (m.0, m.1.1))
  | inr e ↦ rw e m
]

sort_onto-covers :
    (hdr : Headers) (bs sorted : List ℕ) (a : ℕ)
    → covers hdr (sort_onto bs sorted) a ≡ (covers hdr bs a || covers hdr sorted a)
unfolding sort_onto covers
sort_onto-covers hdr [] sorted a = refl
sort_onto-covers hdr (b ∷ bs) sorted a =
    sort_onto-covers hdr bs (insert_key b sorted) a
    ∙ ground (arith, insert_key-covers hdr b sorted a)

sort_onto-Descending :
    (hdr : Headers) (hi : ℕ) (bs sorted : List ℕ)
    → Disjoint hdr bs
    → ((a : ℕ) → covers hdr bs a ≡ true → a < hi)
    → ((a : ℕ) → covers hdr bs a ≡ true → covers hdr sorted a ≡ false)
    → Descending hdr hi sorted
    → Descending hdr hi (sort_onto bs sorted)
unfolding sort_onto covers
sort_onto-Descending hdr hi [] sorted dis below apart d = d
sort_onto-Descending hdr hi (b ∷ bs) sorted dis below apart d =
    let size = (hdr b).size in
    let last : b + size ≤ hi = ground (arith, dis.0, below (b + size - 1)) in
    sort_onto-Descending hdr hi bs (insert_key b sorted) dis.3 (λ a i. below a (ground (arith, i)))
      (λ a i. insert_key-covers hdr b sorted a ∙ ground (arith, i, dis.2 a, apart a))
      (insert_key-Descending hdr b hi sorted dis.0 dis.1 last (λ a i. apart a (ground (arith, i)))
        d)

sort_onto-AllMarked :
    (hdr : Headers) (bs sorted : List ℕ)
    → AllMarked hdr bs
    → AllMarked hdr sorted
    → AllMarked hdr (sort_onto bs sorted)
unfolding sort_onto
sort_onto-AllMarked hdr [] sorted m m' = m'
sort_onto-AllMarked hdr (b ∷ bs) sorted m m' =
    sort_onto-AllMarked hdr bs (insert_key b sorted) m.1
      (insert_key-AllMarked hdr b sorted (m.0, m'))

reverse_onto-covers :
    (hdr : Headers) (bs out : List ℕ) (a : ℕ)
    → covers hdr (reverse_onto bs out) a ≡ (covers hdr bs a || covers hdr out a)
unfolding reverse_onto covers
reverse_onto-covers hdr [] out a = refl
reverse_onto-covers hdr (b ∷ bs) out a = reverse_onto-covers hdr bs (b ∷ out) a ∙ ground arith

pub Ascending-weaken :
    (gap : ℕ) (hdr : Headers) (lo lo' : ℕ) (bs : List ℕ)
    → lo' ≤ lo
    → Ascending gap hdr lo bs
    → Ascending gap hdr lo' bs
Ascending-weaken gap hdr lo lo' [] le o = tt
Ascending-weaken gap hdr lo lo' (b ∷ bs) le o = (omega (arith, o.0), o.1, o.2, o.3)

-- `lo` bounds the blocks from below: it is not above any byte of them.
reverse_onto-Ascending :
    (hdr : Headers) (lo hi : ℕ) (bs out : List ℕ)
    → Descending hdr hi bs
    → Ascending 0 hdr hi out
    → lo ≤ hi
    → ((a : ℕ) → covers hdr bs a ≡ true → lo ≤ a)
    → Ascending 0 hdr lo (reverse_onto bs out)
unfolding reverse_onto covers
reverse_onto-Ascending hdr lo hi [] out d o le above = Ascending-weaken 0 hdr hi lo out le o
reverse_onto-Ascending hdr lo hi (b ∷ bs) out d o le above =
    let first : lo ≤ b = above b (ground (arith, starts hdr b d.1)) in
    reverse_onto-Ascending hdr lo b bs (b ∷ out) d.3
      (
        omega arith,
        d.1,
        d.2,
        Ascending-weaken 0 hdr hi (b + (hdr b).size + 0) out (omega (arith, d.0)) o,
      )
      first (λ a i. above a (ground (arith, i)))

reverse_onto-AllMarked :
    (hdr : Headers) (bs out : List ℕ)
    → AllMarked hdr bs
    → AllMarked hdr out
    → AllMarked hdr (reverse_onto bs out)
unfolding reverse_onto
reverse_onto-AllMarked hdr [] out m m' = m'
reverse_onto-AllMarked hdr (b ∷ bs) out m m' = reverse_onto-AllMarked hdr bs (b ∷ out) m.1 (m.0, m')

-- Sorting blocks that do not overlap and start at `lo` or above.
pub sort_lem :
    (hdr : Headers) (lo : ℕ) (bs : List ℕ)
    → lo < 2 ^ 64
    → Disjoint hdr bs
    → AllMarked hdr bs
    → ((a : ℕ) → covers hdr bs a ≡ true → (lo ≤ a) × (a < 2 ^ 64))
    → Ascending 0 hdr lo (sort bs)
      × AllMarked hdr (sort bs)
      × ((a : ℕ) → covers hdr (sort bs) a ≡ covers hdr bs a)
unfolding sort covers
sort_lem hdr lo bs small dis m inside =
    let same : (a : ℕ) → covers hdr (sort_onto bs []) a ≡ covers hdr bs a =
      λ a. sort_onto-covers hdr bs [] a ∙ ground arith in
    (
      reverse_onto-Ascending hdr lo (2 ^ 64) (sort_onto bs []) []
          (sort_onto-Descending hdr (2 ^ 64) bs [] dis (λ a i. (inside a i).1) (λ a i. refl) tt) tt
          (omega arith) (λ a i. (inside a (sym (same a) ∙ i)).0),
      reverse_onto-AllMarked hdr (sort_onto bs []) [] (sort_onto-AllMarked hdr bs [] m tt) tt,
      λ a. reverse_onto-covers hdr (sort_onto bs []) [] a ∙ ground (arith, same a),
    )
