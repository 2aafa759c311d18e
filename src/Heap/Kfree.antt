-- ===== src/Heap/Kfree.antt =====
-- `kfree` of core/memory/heap.c gives the bytes of a block back to the free list.
use mathlib.Core.Path.{subst}
use mathlib.Core.Option.{some-injective}
use uix.Base.{
  ℕ, ◌+◌, ◌-◌, ◌%◌, ◌^◌, ◌<◌, ◌≤◌, ◌≡◌, refl, sym, ◌∙◌, ap, true, false, inl, inr, List, [], ◌∷◌,
  ◌++◌, leb, ltb, ◌==◌, ◌||◌, ◌&&◌, arith, Bool-cases, length, ok, some, ok-injective,
}
use uix.Heap.{
  Pages, Heap, Header, Headers, hdr_size, put, magic_free, magic_used, heap_va_base, heap_max,
  super_bytes, kmalloc, kfree, sort, merge,
}
use uix.Heap.Blocks.{within, covers, Disjoint, starts, covers-put}
use uix.Heap.Fit.{AllMarked, AllMarked-put}
use uix.Heap.Kmalloc.{
  IsValid, Allocated, Allocated-IsValid, fitted, grew, stopped, kmalloc_result, grow_heap-covers,
}
use uix.Heap.Sorting.{Ascending, sort_lem}
use uix.Heap.Merging.{merge_lem}

-- Blocks in ascending order start at the bound or above, and do not overlap.
Ascending-covers :
    (gap : ℕ) (hdr : Headers) (lo : ℕ) (bs : List ℕ)
    → Ascending gap hdr lo bs
    → (a : ℕ) → covers hdr bs a ≡ true
    → lo ≤ a
unfolding covers
Ascending-covers gap hdr lo [] o a i = cc
Ascending-covers gap hdr lo (b ∷ bs) o a i = elim (Bool-cases (within b (hdr b).size a)) [
  | inl e ↦ ground (arith, o.0)
  | inr e ↦
      omega (arith, o.0, Ascending-covers gap hdr (b + (hdr b).size + gap) bs o.3 a (ground arith))
]

Ascending-Disjoint :
    (gap : ℕ) (hdr : Headers) (lo : ℕ) (bs : List ℕ) → Ascending gap hdr lo bs → Disjoint hdr bs
unfolding covers
Ascending-Disjoint gap hdr lo [] o = tt
Ascending-Disjoint gap hdr lo (b ∷ bs) o = (
  o.1,
  o.2,
  λ a i. elim (Bool-cases (covers hdr bs a)) [
    | inr e ↦ e
    | inl e ↦ absurd (ground (arith, Ascending-covers gap hdr (b + (hdr b).size + gap) bs o.3 a e))
  ],
  Ascending-Disjoint gap hdr (b + (hdr b).size + gap) bs o.3,
)

covers-snoc :
    (hdr : Headers) (bs : List ℕ) (b a : ℕ) → covers hdr (bs ++ b ∷ []) a ≡ covers hdr (b ∷ bs) a
unfolding covers
covers-snoc hdr [] b a = refl
covers-snoc hdr (c ∷ bs) b a = ground (arith, covers-snoc hdr bs b a)

Disjoint-snoc :
    (hdr : Headers) (bs : List ℕ) (b : ℕ) → Disjoint hdr (b ∷ bs) → Disjoint hdr (bs ++ b ∷ [])
unfolding covers
Disjoint-snoc hdr [] b dis = dis
Disjoint-snoc hdr (c ∷ bs) b (big, top, apart, dis) = (
  dis.0,
  dis.1,
  λ a i. covers-snoc hdr bs b a ∙ ground (arith, apart a, dis.2 a i),
  Disjoint-snoc hdr bs b (big, top, (λ a i. ground (arith, apart a i)), dis.3),
)

AllMarked-snoc :
    (hdr : Headers) (bs : List ℕ) (b : ℕ) → AllMarked hdr (b ∷ bs) → AllMarked hdr (bs ++ b ∷ [])
AllMarked-snoc hdr [] b m = m
AllMarked-snoc hdr (c ∷ bs) b m = (m.1.0, AllMarked-snoc hdr bs b (m.0, m.1.1))

module _ (P : Pages) where
  open P use {State}

  -- `p` is what `kmalloc` has returned for a block, which no byte of the free list lies in.
  pub record IsUsed (h : Heap State) (p : ℕ) (b : ℕ) : Type 0 where
    pub pointer : p ≡ b + hdr_size
    pub used : (h.hdr b).magic ≡ magic_used
    pub large : hdr_size ≤ (h.hdr b).size
    pub start : heap_va_base ≤ b
    pub end : b + (h.hdr b).size ≤ h.heap_brk
    pub free_of : (a : ℕ) → within b (h.hdr b).size a ≡ true → covers h.hdr h.freelist a ≡ false

  -- The heap `h'` is `h` with the block `b` on the free list, which is in order and whose blocks do
  -- not touch.
  pub record Freed (h : Heap State) (b : ℕ) (h' : Heap State) : Type 0 where
    pub valid : IsValid P h'
    pub merged : Ascending 1 h'.hdr heap_va_base h'.freelist
    pub bytes :
        (a : ℕ)
        → covers h'.hdr h'.freelist a ≡ (within b (h.hdr b).size a || covers h.hdr h.freelist a)
    pub brk : h'.heap_brk ≡ h.heap_brk
    pub pages : h'.pages ≡ h.pages

  -- Freeing a used block of a well-formed heap with fewer than 256 free blocks returns, neither
  -- panics nor writes past the array, and adds the bytes of the block, and no others, to the free
  -- list: the list is in the order of the addresses, and no two of its blocks touch.
  pub kfree_result :
      (h : Heap State) (p b : ℕ)
      → IsValid P h
      → IsUsed h p b
      → ((a : ℕ) → covers h.hdr h.freelist a ≡ true → heap_va_base ≤ a)
      → h.heap_brk < 2 ^ 64
      → length h.freelist < 256
      → (h' : Heap State) × (kfree P p h ≡ ok h') × Freed h b h'
  unfolding kfree covers
  kfree_result h p b v u above top room =
      let back : (p + 2 ^ 64 - hdr_size) % 2 ^ 64 ≡ b = omega (arith, u.pointer, u.end, u.large) in
      let present : (p == 0) ≡ false = ground (arith, u.pointer) in
      let sound : ((h.hdr b).magic == magic_used) ≡ true = ground (arith, u.used) in
      let fits : leb 256 (length h.freelist) ≡ false = ground arith in
      let x : Header = record (h.hdr b) { magic = magic_free } in
      let out : covers h.hdr h.freelist b ≡ false = u.free_of b (starts h.hdr b u.large) in
      let hdr : Headers = put h.hdr b x in
      let kept = covers-put h.hdr h.freelist b x v.dis out in
      let size : (hdr b).size ≡ (h.hdr b).size = ground arith in
      let bs = h.freelist ++ b ∷ [] in
      let bytes : (a : ℕ)
          → covers hdr bs a ≡ (within b (h.hdr b).size a || covers h.hdr h.freelist a) =
        λ a.
          covers-snoc hdr h.freelist b a
          ∙ rw size (ap (λ c. within b (h.hdr b).size a || c) (kept.0 a)) in
      let dis : Disjoint hdr bs = Disjoint-snoc hdr h.freelist b (
        omega (arith, size, u.large),
        omega (arith, size, u.end),
        λ a i. kept.0 a ∙ u.free_of a (ground (arith, size)),
        kept.1,
      ) in
      let marked : AllMarked hdr bs =
        AllMarked-snoc hdr h.freelist b
          (ground arith, AllMarked-put h.hdr h.freelist b x v.dis out v.marked) in
      let (ordered, still, same) = sort_lem hdr heap_va_base bs (omega arith) dis marked (λ a i.
        (ground (arith, bytes a, above a, u.start), ground (arith, bytes a, v.below a, u.end))) in
      let (apart, done, equal) = merge_lem hdr (sort bs) ordered still in
      let (hdr', list) = merge hdr (sort bs) in
      let all : (a : ℕ)
          → covers hdr' list a ≡ (within b (h.hdr b).size a || covers h.hdr h.freelist a) =
        λ a. equal a ∙ same a ∙ bytes a in
      (
        record h { hdr = hdr'; freelist = list },
        rw (back, present, sound, fits),
        record {
          valid = record {
            dis = Ascending-Disjoint 1 hdr' heap_va_base list apart;
            marked = done;
            below = λ a i. ground (arith, all a, v.below a, u.end);
          };
          merged = apart;
          bytes = all;
          brk = refl;
          pages = refl;
        },
      )

  kfree-Allocated :
      {n : ℕ} {h h' : Heap State} {p : ℕ}
      → IsValid P h
      → Allocated P n h p h'
      → ((a : ℕ) → covers h.hdr h.freelist a ≡ true → heap_va_base ≤ a)
      → h.heap_brk < 2 ^ 64
      → length h'.freelist < 256
      → (h'' : Heap State) × (kfree P p h' ≡ ok h'')
        × IsValid P h''
        × ((a : ℕ) → covers h''.hdr h''.freelist a ≡ covers h.hdr h.freelist a)
  kfree-Allocated {n} {h} {h'} {p} v t above top room =
      let b = t.block in
      let size = (h'.hdr b).size in
      let first : within b size b ≡ true = starts h'.hdr b (omega (arith, t.taken.large)) in
      let last : within b size (b + size - 1) ≡ true = ground (arith, t.taken.large) in
      let u : IsUsed h' p b = record {
        pointer = t.pointer;
        used = t.taken.used;
        large = omega (arith, t.taken.large);
        start = above b (ground (arith, t.taken.bytes b, first));
        end = ground (
          arith,
          v.below (b + size - 1),
          t.taken.bytes (b + size - 1),
          last,
          t.brk,
          t.taken.large,
        );
        free_of = t.taken.apart;
      } in
      let (h'', e, freed) =
        kfree_result h' p b (Allocated-IsValid P v t) u
          (λ a i. above a (ground (arith, t.taken.bytes a))) (omega (arith, t.brk)) room in
      (h'', e, freed.valid, λ a. freed.bytes a ∙ sym (t.taken.bytes a))

  -- Freeing at once what `kmalloc` of 1 to 32752 bytes has returned, for a well-formed heap that
  -- starts at HEAP_VA_BASE or above and does not reach the end of the address space, with fewer than 256
  -- blocks free then, returns a well-formed
  -- heap whose free list covers the bytes that it covered before `kmalloc`, those by which `kmalloc` has
  -- grown the heap, and no others.
  pub kfree-kmalloc :
      {n : ℕ} {h h' : Heap State} {p : ℕ}
      → 0 < n
      → n + hdr_size ≤ heap_max
      → IsValid P h
      → ((a : ℕ) → covers h.hdr h.freelist a ≡ true → heap_va_base ≤ a)
      → heap_va_base ≤ h.heap_brk
      → h.heap_brk + super_bytes < 2 ^ 64
      → kmalloc P n h ≡ ok (some (p, h'))
      → length h'.freelist < 256
      → (h'' : Heap State) × (kfree P p h' ≡ ok h'')
        × IsValid P h''
        × ((a : ℕ)
            → covers h''.hdr h''.freelist a
              ≡ (covers h.hdr h.freelist a || (leb h.heap_brk a && ltb a h'.heap_brk)))
  kfree-kmalloc {n} {h} {h'} {p} pos small v above lo hi e room =
      elim (kmalloc_result P n h pos small v (omega arith) hi) [
        | stopped tiny stuck never ↦ absurd (never (some (p, h')) e)
        | fitted (p', g', run, t) ↦
            let same : (p', g') ≡ (p, h') =
              some-injective (p', g') (p, h') (ok-injective (sym run ∙ e)) in
            let t' : Allocated P n h p h' = subst (λ r. Allocated P n h r.0 r.1) same t in
            let (h'', freed, valid, bytes) = kfree-Allocated v t' above (omega arith) room in
            (h'', freed, valid, λ a. ground (arith, bytes a, t'.brk))
        | grew g tiny grows v' (p', g', run, t) ↦
            let same : (p', g') ≡ (p, h') =
              some-injective (p', g') (p, h') (ok-injective (sym run ∙ e)) in
            let t' : Allocated P n g p h' = subst (λ r. Allocated P n g r.0 r.1) same t in
            let (brk, more) = grow_heap-covers P h g v (omega arith) hi grows in
            let (h'', freed, valid, bytes) =
              kfree-Allocated v' t' (λ a i. ground (arith, more a, above a)) (omega arith) room in
            (h'', freed, valid, λ a. ground (arith, bytes a, more a, t'.brk, brk))
      ]
