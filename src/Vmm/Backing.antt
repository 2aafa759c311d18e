-- ===== src/Vmm/Backing.antt =====
-- What the heap of core/memory/heap.c calls below it, as core/memory/pmm.c and vmm.c have it.
use uix.Heap.{Pages}
use uix.Pmm
use uix.Vmm.{Vmm, map_page}

-- `pmm_alloc` and `vmm_map` on the state that they share
abbrev pub kernel_pages : Pages
kernel_pages = record {
  State = Vmm;
  alloc = λ s. let (p, t) = Pmm.alloc s.pmm in (record s { pmm = p }, t);
  map_page = map_page;
}
