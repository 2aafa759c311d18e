-- ===== src/Heap.antt =====
-- core/memory/heap.c: the kernel heap. A block is its address; `hdr` gives the header stored
-- there. The chain of `next` pointers from `freelist` is the list of its addresses. Pages come from
-- the page allocator and the page tables, which the heap sees through the interface `Pages`.
pub mod Blocks
pub mod Fit
pub mod Kmalloc
pub mod Sorting
pub mod Merging
pub mod Kfree
use uix.Base.{
  ℕ, zero, suc, ◌+◌, ◌-◌, ◌*◌, ◌%◌, ◌^◌, Bool, true, false, Option, none, some, List, [], ◌∷◌, ◌++◌,
  ltb, leb, ◌==◌, ◌||◌, not, if◌then◌else◌, length, take, Outcome, ok, panic, fault, ◌>>=◌,
}
use uix.Libc.{Memory, memset}

-- What the heap calls below it: `pmm_alloc`, which returns 0 if there is no page, and `vmm_map`.
pub record Pages : Type 1 where
  pub State : Type 0
  pub alloc : State → State × ℕ
  pub map_page : State → ℕ → ℕ → ℕ → Outcome State

pub record Header : Type 0 where
  pub size : ℕ
  pub magic : ℕ

abbrev pub magic_free : ℕ
magic_free = 0xfeeef00d

abbrev pub magic_used : ℕ
magic_used = 0xdeadc0de

abbrev pub hdr_size : ℕ
hdr_size = 16

abbrev pub heap_max : ℕ
heap_max = 32768

abbrev pub super_bytes : ℕ
super_bytes = 16 * 4096

abbrev pub heap_va_base : ℕ
heap_va_base = 0xffffffff40000000

-- VMM_PRESENT | VMM_WRITE | VMM_NOEXEC
abbrev pub heap_flags : ℕ
heap_flags = 1 + 2 + 2 ^ 63

abbrev pub Headers : Type 0
Headers = ℕ → Header

abbrev pub put : Headers → ℕ → Header → Headers
put hdr b h a = if b == a then h else hdr a

pub record Heap (S : Type 0) : Type 0 where
  pub hdr : Headers
  pub freelist : List ℕ
  pub heap_brk : ℕ
  pub pages : S

-- The loop of `kmalloc` over the free list: the block found, with the headers and the list after
-- it is taken; nothing if none is large enough. Both sizes are u32, and `need` is not above the
-- size where they are subtracted.
unfoldable pub take_fit : ℕ → Headers → List ℕ → Outcome (Option (ℕ × Headers × List ℕ))
take_fit need hdr [] = ok none
take_fit need hdr (b ∷ bs) =
    let size = (hdr b).size in
    let rest = take_fit need hdr bs in
    if not ((hdr b).magic == magic_free)
    then panic
    else if leb need size
    then (if leb (hdr_size + 16) (size - need)
        then ok (
            some (
              b,
              put (put hdr (b + need) (record { size = size - need; magic = magic_free })) b
                  (record { size = need; magic = magic_used }),
              (b + need) ∷ bs,
            ))
        else ok (some (b, put hdr b (record { size = size; magic = magic_used }), bs)))
    else rest >>= λ found.
        ok (elim found [ none ↦ none | some (c, hdr', cs) ↦ some (c, hdr', b ∷ cs) ])

-- `arr`, sorted by the insertion sort of `kfree`, kept with the last element first: `key` passes
-- every element above it.
unfoldable pub insert_key : ℕ → List ℕ → List ℕ
insert_key key [] = key ∷ []
insert_key key (a ∷ rest) = if ltb key a then a ∷ insert_key key rest else key ∷ a ∷ rest

unfoldable pub sort_onto : List ℕ → List ℕ → List ℕ
unfolding insert_key
sort_onto [] sorted = sorted
sort_onto (key ∷ keys) sorted = sort_onto keys (insert_key key sorted)

unfoldable pub reverse_onto : List ℕ → List ℕ → List ℕ
reverse_onto [] out = out
reverse_onto (a ∷ rest) out = reverse_onto rest (a ∷ out)

unfoldable pub sort : List ℕ → List ℕ
unfolding sort_onto reverse_onto
sort arr = reverse_onto (sort_onto arr []) []

-- The loop that merges neighbours and rebuilds the list, with `tail` the last block kept.
unfoldable pub merge_from : Headers → ℕ → List ℕ → Headers × List ℕ
merge_from hdr tail [] = (hdr, tail ∷ [])
merge_from hdr tail (cur ∷ rest) =
    let grown =
      put hdr tail (record (hdr tail) { size = ((hdr tail).size + (hdr cur).size) % 2 ^ 32 }) in
    let merged = merge_from grown tail rest in
    let (hdr', kept) = merge_from hdr cur rest in
    if (tail + (hdr tail).size) % 2 ^ 64 == cur then merged else (hdr', tail ∷ kept)

unfoldable pub merge : Headers → List ℕ → Headers × List ℕ
unfolding merge_from
merge hdr [] = (hdr, [])
merge hdr (cur ∷ rest) = merge_from hdr cur rest

module _ (P : Pages) where
  open P use {State, alloc, map_page}

  unfoldable pub grow : ℕ → State → ℕ → Outcome (State × ℕ)
  grow zero s brk = ok (s, brk)
  grow (suc npages) s brk =
      let (s', p) = alloc s in
      if p == 0
      then panic
      else do s'' ← map_page s' brk p heap_flags; grow npages s'' ((brk + 4096) % 2 ^ 64)

  unfoldable pub init : Headers → State → Outcome (Heap State)
  unfolding grow
  init hdr s = do
    (s', brk) ← grow 16 s heap_va_base
    ok (record {
      hdr = put hdr heap_va_base (record { size = super_bytes; magic = magic_free });
      freelist = heap_va_base ∷ [];
      heap_brk = brk;
      pages = s';
    })

  -- the block that `kmalloc` makes of the pages it has just added
  unfoldable pub grow_heap : Heap State → Outcome (Heap State)
  unfolding grow
  grow_heap h = do
    (s, brk) ← grow 16 h.pages h.heap_brk
    let nb = (brk + 2 ^ 64 - super_bytes) % 2 ^ 64
    ok (record {
      hdr = put h.hdr nb (record { size = super_bytes; magic = magic_free });
      freelist = nb ∷ h.freelist;
      heap_brk = brk;
      pages = s;
    })

  -- `kmalloc` past its guard, with the number of times that it may still call itself; `none`
  -- means that it would have called itself once more.
  unfoldable pub kmalloc_loop : ℕ → ℕ → Heap State → Outcome (Option (ℕ × Heap State))
  unfolding take_fit grow_heap
  kmalloc_loop zero need h = do
    found ← take_fit need h.hdr h.freelist
    ok (elim found [
      | some (b, hdr', list) ↦ some (b + hdr_size, record h { hdr = hdr'; freelist = list })
      | none ↦ none
    ])
  kmalloc_loop (suc calls) need h = do
    found ← take_fit need h.hdr h.freelist
    elim found [
      | some (b, hdr', list) ↦ ok (some (b + hdr_size, record h { hdr = hdr'; freelist = list }))
      | none ↦ grow_heap h >>= kmalloc_loop calls need
    ]

  -- The guard adds to a size_t; `need` is a u32.
  unfoldable pub kmalloc : ℕ → Heap State → Outcome (Option (ℕ × Heap State))
  kmalloc n h =
      if n == 0 || ltb heap_max ((n + hdr_size) % 2 ^ 64)
      then ok (some (0, h))
      else kmalloc_loop 1 ((n % 2 ^ 32 + hdr_size) % 2 ^ 32) h

  -- The array of `kfree` has room for 256 blocks: with 256 on the list, `b` is written past it.
  unfoldable pub kfree : ℕ → Heap State → Outcome (Heap State)
  unfolding sort merge
  kfree p h =
      let b = (p + 2 ^ 64 - hdr_size) % 2 ^ 64 in
      let hdr = put h.hdr b (record (h.hdr b) { magic = magic_free }) in
      let (hdr', list) = merge hdr (sort (h.freelist ++ b ∷ [])) in
      if p == 0
      then ok h
      else if not ((h.hdr b).magic == magic_used)
      then panic
      else if leb 256 (length h.freelist)
      then fault
      else ok (record h { hdr = hdr'; freelist = list })

  -- `kzalloc`, on the bytes of memory too; `memset` is that of core/lib.c.
  unfoldable pub kzalloc : ℕ → Heap State → Memory → Outcome (Option (ℕ × Heap State × Memory))
  unfolding kmalloc memset
  kzalloc n h m = do
    found ← kmalloc n h
    ok (elim found [
      | none ↦ none
      | some (p, h') ↦ some (p, h', if p == 0 then m else memset m p 0 n)
    ])
