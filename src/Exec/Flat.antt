-- ===== src/Exec/Flat.antt =====
-- What the loading of a flat image in core/cpu/exec.c and user.c leaves in the memory of the task.
use uix.Base.{ℕ, zero, suc, ◌+◌, ◌≡◌, ok}
use uix.Heap.{Pages}
use uix.Elf.{user_flags}

-- What the loading needs of the allocator and the page tables: the next `rounds` pages that
-- `pmm_alloc` gives can be mapped at `va` and behind it, one after another.
abbrev pub Mappable : (P : Pages) → ℕ → P.State → ℕ → Type 0
Mappable P zero s va = Unit {0}
Mappable P (suc rounds) s va =
    (s' : P.State) × (P.map_page (P.alloc s).0 va (P.alloc s).1 user_flags ≡ ok s')
    × Mappable P rounds s' (va + 4096)
