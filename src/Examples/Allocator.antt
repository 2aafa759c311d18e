-- ===== src/Examples/Allocator.antt =====
-- Runs of core/memory/heap.c over the kernel's own pages.
use uix.Base.{ℕ, ◌+◌, ◌-◌, ◌≤◌, ◌≡◌, true, ok, some, leb, ltb, ◌||◌, ◌&&◌, refl, arith, [], ◌∷◌}
use uix.Vmm.{Vmm}
use uix.Vmm.Backing.{kernel_pages}
use uix.Examples.Tables.{one_page}
use uix.Heap.{
  Heap, Headers, put, heap_va_base, super_bytes, magic_free, magic_used, kmalloc, kmalloc_loop,
  take_fit, kfree,
}
use uix.Heap.Blocks.{covers}
use uix.Heap.Kmalloc.{IsValid, KmallocResult, kmalloc_result}
use uix.Heap.Kfree.{IsUsed, Freed, kfree_result, kfree-kmalloc}

-- what `heap_init` leaves
abbrev fresh_heap : Heap Vmm
fresh_heap = record {
  hdr = λ a. record { size = super_bytes; magic = magic_free };
  freelist = heap_va_base ∷ [];
  heap_brk = heap_va_base + super_bytes;
  pages = one_page;
}

fresh_heap-IsValid : IsValid kernel_pages fresh_heap
unfolding covers
fresh_heap-IsValid = record {
  dis = (omega arith, omega arith, λ a h. refl, tt);
  marked = (refl, tt);
  below = λ a h. ground arith;
}

kmalloc_result_example :
    KmallocResult kernel_pages 100 fresh_heap (kmalloc kernel_pages 100 fresh_heap)
kmalloc_result_example =
    kmalloc_result kernel_pages 100 fresh_heap (omega arith) (omega arith) fresh_heap-IsValid
      (omega arith) (omega arith)

-- the block that `kmalloc` of 100 bytes takes from it, and what it leaves
abbrev first_block : Headers
first_block =
    put
      (put fresh_heap.hdr (heap_va_base + 116)
        (record { size = super_bytes - 116; magic = magic_free }))
      heap_va_base (record { size = 116; magic = magic_used })

abbrev one_taken : Heap Vmm
one_taken = record fresh_heap { hdr = first_block; freelist = (heap_va_base + 116) ∷ [] }

one_taken-IsValid : IsValid kernel_pages one_taken
unfolding covers
one_taken-IsValid = record {
  dis = (omega arith, omega arith, λ a h. refl, tt);
  marked = (refl, tt);
  below = λ a h. ground arith;
}

first_block-IsUsed : IsUsed kernel_pages one_taken (heap_va_base + 16) heap_va_base
unfolding covers
first_block-IsUsed = record {
  pointer = refl;
  used = refl;
  large = omega arith;
  start = omega arith;
  end = omega arith;
  free_of = λ a i. ground arith;
}

above_base : (a : ℕ) → covers one_taken.hdr one_taken.freelist a ≡ true → heap_va_base ≤ a
unfolding covers
above_base a i = ground arith

kfree_result_example :
    (h' : Heap Vmm) × (kfree kernel_pages (heap_va_base + 16) one_taken ≡ ok h')
    × Freed kernel_pages one_taken heap_va_base h'
kfree_result_example =
    kfree_result kernel_pages one_taken (heap_va_base + 16) heap_va_base one_taken-IsValid
      first_block-IsUsed above_base (omega arith) (omega arith)

above_base_fresh : (a : ℕ) → covers fresh_heap.hdr fresh_heap.freelist a ≡ true → heap_va_base ≤ a
unfolding covers
above_base_fresh a i = ground arith

took_first : kmalloc kernel_pages 100 fresh_heap ≡ ok (some (heap_va_base + 16, one_taken))
unfolding kmalloc kmalloc_loop take_fit
took_first = refl

kfree-kmalloc_example :
    (h'' : Heap Vmm) × (kfree kernel_pages (heap_va_base + 16) one_taken ≡ ok h'')
    × IsValid kernel_pages h''
    × ((a : ℕ)
        → covers h''.hdr h''.freelist a ≡ (
            covers fresh_heap.hdr fresh_heap.freelist a
            || (leb (heap_va_base + super_bytes) a && ltb a (heap_va_base + super_bytes))))
kfree-kmalloc_example =
    kfree-kmalloc kernel_pages {n = 100} {h = fresh_heap} {h' = one_taken} {p = heap_va_base + 16}
      (omega arith) (omega arith) fresh_heap-IsValid above_base_fresh (omega arith) (omega arith)
      took_first (omega arith)
