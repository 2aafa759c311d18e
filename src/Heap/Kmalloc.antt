-- ===== src/Heap/Kmalloc.antt =====
-- `kmalloc` of core/memory/heap.c: it calls itself at most once, and what it returns.
use uix.Base.{
  ℕ, zero, suc, ◌+◌, ◌-◌, ◌*◌, ◌%◌, ◌^◌, ◌<◌, ◌≤◌, ◌≡◌, ◌≢◌, refl, ◌∙◌, true, false, inl, inr, List,
  ◌∷◌, ltb, ◌==◌, ◌||◌, arith, Bool-cases, Outcome, ok, ◌>>=◌, sequence_returns, Outcome-cases,
  Option, none, some,
}
use uix.Heap.{
  Pages, Headers, Heap, put, hdr_size, take_fit, magic_free, super_bytes, heap_max, grow, grow_heap,
  kmalloc_loop, kmalloc,
}
use uix.Heap.Blocks.{within, covers, Disjoint, covers-put}
use uix.Heap.Fit.{Taken, AllMarked, AllSmall, take_fit-FitResult, AllMarked-put}

module _ (P : Pages) where
  open P use {State, alloc, map_page}

  -- The free list holds marked blocks that do not overlap, all below the end of the heap.
  pub record IsValid (h : Heap State) : Type 0 where
    pub dis : Disjoint h.hdr h.freelist
    pub marked : AllMarked h.hdr h.freelist
    pub below : (a : ℕ) → covers h.hdr h.freelist a ≡ true → a < h.heap_brk

  grow-brk :
      (n : ℕ) (s : State) (brk : ℕ) {s' : State} {brk' : ℕ}
      → brk + n * 4096 < 2 ^ 64
      → grow P n s brk ≡ ok (s', brk')
      → brk' ≡ brk + n * 4096
  unfolding grow
  grow-brk zero s brk h e = ground arith
  grow-brk (suc n) s brk h e = elim (Bool-cases ((alloc s).1 == 0)) [
    | inl empty ↦ ground arith
    | inr got ↦
        let (s'', later, m) =
          sequence_returns (map_page (alloc s).0 brk (alloc s).1 (1 + 2 + 2 ^ 63)) _ _
            (rw got at e) in
        omega (arith, grow-brk n s'' ((brk + 4096) % 2 ^ 64) (omega arith) later)
  ]

  -- the heap with 64 KiB more, as one free block at the front of the list
  abbrev pub grown : Heap State → State → Heap State
  grown h s = record {
    hdr = put h.hdr h.heap_brk (record { size = super_bytes; magic = magic_free });
    freelist = h.heap_brk ∷ h.freelist;
    heap_brk = h.heap_brk + super_bytes;
    pages = s;
  }

  grow_heap-grown :
      (h g : Heap State)
      → super_bytes ≤ h.heap_brk
      → h.heap_brk + super_bytes < 2 ^ 64
      → grow_heap P h ≡ ok g
      → (s : State) × (g ≡ grown h s)
  unfolding grow_heap
  grow_heap-grown h g lo hi e =
      let (r, rest, grows) = sequence_returns (grow P 16 h.pages h.heap_brk) _ _ e in
      let brk : r.1 ≡ h.heap_brk + super_bytes =
        grow-brk 16 h.pages h.heap_brk {s' = r.0} {brk' = r.1} (omega arith) grows in
      let nb : (h.heap_brk + super_bytes + 2 ^ 64 - super_bytes) % 2 ^ 64 ≡ h.heap_brk =
        omega arith in
      let made = rw (brk, nb) at rest in (r.0, ground arith)

  module _ (h : Heap State) (s : State) (v : IsValid h)
      (hi : h.heap_brk + super_bytes < 2 ^ 64) where
    not_covered : covers h.hdr h.freelist h.heap_brk ≡ false
    not_covered = elim (Bool-cases (covers h.hdr h.freelist h.heap_brk)) [
      | inl c ↦ absurd (omega (arith, v.below h.heap_brk c))
      | inr c ↦ c
    ]

    above_free :
        (a : ℕ) → within h.heap_brk super_bytes a ≡ true → covers h.hdr h.freelist a ≡ false
    above_free a i = elim (Bool-cases (covers h.hdr h.freelist a)) [
      | inl c ↦ absurd (ground (arith, v.below a c))
      | inr c ↦ c
    ]

    kept :
        ((a : ℕ) → covers (grown h s).hdr h.freelist a ≡ covers h.hdr h.freelist a)
        × Disjoint (grown h s).hdr h.freelist
    kept =
        covers-put h.hdr h.freelist h.heap_brk (record { size = super_bytes; magic = magic_free })
          v.dis not_covered

    -- Growing adds the new bytes, and no others, to the free list, and keeps it well formed.
    covers-grown :
        (a : ℕ)
        → covers (grown h s).hdr (grown h s).freelist a
          ≡ (within h.heap_brk super_bytes a || covers h.hdr h.freelist a)
    unfolding covers
    covers-grown a = ground (arith, kept.0 a)

    grown-IsValid : IsValid (grown h s)
    grown-IsValid =
        let size : ((grown h s).hdr h.heap_brk).size ≡ super_bytes = ground arith in
        record {
          dis = rw size (omega arith, hi, λ a i. kept.0 a ∙ above_free a i, kept.1);
          marked = (
            ground arith,
            AllMarked-put h.hdr h.freelist h.heap_brk
                (record { size = super_bytes; magic = magic_free }) v.dis not_covered v.marked,
          );
          below = λ a c. ground (arith, covers-grown a, v.below a);
        }

  -- Growing moves the end of the heap up by the new bytes, which are then free.
  pub grow_heap-covers :
      (h g : Heap State)
      → IsValid h
      → super_bytes ≤ h.heap_brk
      → h.heap_brk + super_bytes < 2 ^ 64
      → grow_heap P h ≡ ok g
      → (g.heap_brk ≡ h.heap_brk + super_bytes)
        × ((a : ℕ)
            → covers g.hdr g.freelist a
              ≡ (within h.heap_brk super_bytes a || covers h.hdr h.freelist a))
  grow_heap-covers h g v lo hi e =
      let (s, same) = grow_heap-grown h g lo hi e in rw same (refl, covers-grown h s v hi)

  -- `kmalloc` of `n` bytes has taken block `p - 16` from the free list of `h`, and left `h'`.
  pub record Allocated (n : ℕ) (h : Heap State) (p : ℕ) (h' : Heap State) : Type 0 where
    pub block : ℕ
    pub pointer : p ≡ block + hdr_size
    pub taken : Taken (n + hdr_size) h.hdr h.freelist block h'.hdr h'.freelist
    pub brk : h'.heap_brk ≡ h.heap_brk
    pub pages : h'.pages ≡ h.pages

  pub Allocated-IsValid :
      {n : ℕ} {h : Heap State} {p : ℕ} {h' : Heap State}
      → IsValid h
      → Allocated n h p h'
      → IsValid h'
  Allocated-IsValid v t = record {
    dis = t.taken.dis;
    marked = t.taken.marked v.marked;
    below = λ a c. ground (arith, v.below a, t.taken.bytes a, t.brk);
  }

  -- `r` is a successful return with a block taken from `from`.
  abbrev pub Returned : ℕ → Heap State → Outcome (Option (ℕ × Heap State)) → Type 0
  Returned n from r = (p : ℕ) × (h' : Heap State) × (r ≡ ok (some (p, h'))) × Allocated n from p h'

  fit_Returned :
      (n : ℕ) (calls : ℕ) (h : Heap State)
      → 0 < n
      → IsValid h
      → ¬ (AllSmall (n + hdr_size) h.hdr h.freelist)
      → Returned n h (kmalloc_loop P calls (n + hdr_size) h)
  unfolding kmalloc_loop
  fit_Returned n zero h pos v big =
      elim (take_fit-FitResult (n + hdr_size) h.hdr h.freelist (omega arith) v.dis v.marked) [
        | inl missing ↦ absurd (big missing.1)
        | inr (b, hdr', bs', e, t) ↦ (
          b + hdr_size,
          record h { hdr = hdr'; freelist = bs' },
          rw e,
          record { block = b; pointer = refl; taken = t; brk = refl; pages = refl },
        )
      ]
  fit_Returned n (suc calls) h pos v big =
      elim (take_fit-FitResult (n + hdr_size) h.hdr h.freelist (omega arith) v.dis v.marked) [
        | inl missing ↦ absurd (big missing.1)
        | inr (b, hdr', bs', e, t) ↦ (
          b + hdr_size,
          record h { hdr = hdr'; freelist = bs' },
          rw e,
          record { block = b; pointer = refl; taken = t; brk = refl; pages = refl },
        )
      ]

  loop_fit :
      (n calls : ℕ) (h : Heap State) {b : ℕ} {hdr' : Headers} {bs' : List ℕ}
      → take_fit (n + hdr_size) h.hdr h.freelist ≡ ok (some (b, hdr', bs'))
      → kmalloc_loop P (suc calls) (n + hdr_size) h
        ≡ ok (some (b + hdr_size, record h { hdr = hdr'; freelist = bs' }))
  unfolding kmalloc_loop
  loop_fit n calls h e = rw e

  loop_grow :
      (n calls : ℕ) (h : Heap State)
      → take_fit (n + hdr_size) h.hdr h.freelist ≡ ok none
      → kmalloc_loop P (suc calls) (n + hdr_size) h
        ≡ (grow_heap P h >>= kmalloc_loop P calls (n + hdr_size))
  unfolding kmalloc_loop
  loop_grow n calls h e = rw e

  kmalloc-loop :
      (n : ℕ) (h : Heap State)
      → 0 < n
      → n + hdr_size ≤ heap_max
      → kmalloc P n h ≡ kmalloc_loop P 1 (n + hdr_size) h
  unfolding kmalloc
  kmalloc-loop n h pos small =
      let guard : (n == 0 || ltb heap_max ((n + hdr_size) % 2 ^ 64)) ≡ false = ground arith in
      let need : (n % 2 ^ 32 + hdr_size) % 2 ^ 32 ≡ n + hdr_size = omega arith in rw (guard, need)

  -- What `kmalloc` of `n` bytes does with heap `h`, `r` being its outcome.
  pub data KmallocResult (n : ℕ) (h : Heap State) (r : Outcome (Option (ℕ × Heap State)))
      : Type 0 where
    -- it takes a block of the free list
    fitted : Returned n h r → KmallocResult n h r
    -- every block is too small: it grows the heap to `g` once and takes a block of that
    grew :
        (g : Heap State)
        → AllSmall (n + hdr_size) h.hdr h.freelist
        → grow_heap P h ≡ ok g
        → IsValid g
        → Returned n g r
        → KmallocResult n h r
    -- every block is too small and the heap does not grow
    stopped :
        AllSmall (n + hdr_size) h.hdr h.freelist
        → ((g : Heap State) → grow_heap P h ≢ ok g)
        → ((x : Option (ℕ × Heap State)) → r ≢ ok x)
        → KmallocResult n h r

  after_growth :
      (n : ℕ) (h g : Heap State)
      → 0 < n
      → n + hdr_size ≤ heap_max
      → IsValid h
      → super_bytes ≤ h.heap_brk
      → h.heap_brk + super_bytes < 2 ^ 64
      → grow_heap P h ≡ ok g
      → IsValid g × Returned n g (kmalloc_loop P 0 (n + hdr_size) g)
  after_growth n h g pos small v lo hi e =
      let (s, same) = grow_heap-grown h g lo hi e in
      let v' : IsValid (grown h s) = grown-IsValid h s v hi in
      rw same (v', fit_Returned n 0 (grown h s) pos v' (λ tiny. absurd (ground (arith, tiny.0))))

  -- For 1 to 32752 bytes and a well-formed heap that does not reach the end of the address space,
  -- `kmalloc` calls itself at most once. It returns a block of the free list, of at least `n`
  -- bytes behind its header, which shares no byte with what is left; if all blocks are too small,
  -- it grows the heap once and returns a block of the grown list; it fails to return only if all
  -- blocks are too small and the heap does not grow.
  pub kmalloc_result :
      (n : ℕ) (h : Heap State)
      → 0 < n
      → n + hdr_size ≤ heap_max
      → IsValid h
      → super_bytes ≤ h.heap_brk
      → h.heap_brk + super_bytes < 2 ^ 64
      → KmallocResult n h (kmalloc P n h)
  kmalloc_result n h pos small v lo hi =
      rw (kmalloc-loop n h pos small)
        (elim (take_fit-FitResult (n + hdr_size) h.hdr h.freelist (omega arith) v.dis v.marked) [
          | inr (b, hdr', bs', e, t) ↦ fitted (
            b + hdr_size,
            record h { hdr = hdr'; freelist = bs' },
            loop_fit n 0 h e,
            record { block = b; pointer = refl; taken = t; brk = refl; pages = refl },
          )
          | inl missing ↦ rw (loop_grow n 0 h missing.0) (elim (Outcome-cases (grow_heap P h)) [
            | inl (g, e) ↦
                let (v', done) = after_growth n h g pos small v lo hi e in
                rw e (grew g missing.1 e v' done)
            | inr (inl e) ↦ rw e (stopped missing.1 (λ g ne. cc) (λ x ne. cc))
            | inr (inr e) ↦ rw e (stopped missing.1 (λ g ne. cc) (λ x ne. cc))
          ])
        ])
