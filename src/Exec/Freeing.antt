-- ===== src/Exec/Freeing.antt =====
-- The freeing of the address space that `do_execve` of core/cpu/exec.c leaves.
use uix.Base.{ℕ, zero, suc, if◌then◌else◌, Outcome, ok, ◌>>=◌, ◌==◌}
use uix.Pmm
use uix.Pmm.{Pmm}
use uix.Vmm.{Vmm, is_present, frame, for_each, switch}

-- an entry of a page table: the page is shared, perhaps
unfoldable pub free_leaf : ℕ → Vmm → ℕ → Outcome Vmm
unfolding Pmm.unref
free_leaf table u i =
    let e = u.words table i in
    if is_present e then (Pmm.unref u.pmm (frame e) >>= λ p. ok (record u { pmm = p })) else ok u

-- an entry of a higher table: what is below, and then the table
unfoldable pub free_under : (ℕ → Vmm → Outcome Vmm) → ℕ → Vmm → ℕ → Outcome Vmm
unfolding Pmm.free
free_under below table u i =
    let e = u.words table i in
    if is_present e
    then (below (frame e) u >>= λ w. Pmm.free w.pmm (frame e) >>= λ p. ok (record w { pmm = p }))
    else ok u

unfoldable pub free_user_tables : ℕ → ℕ → Vmm → Outcome Vmm
unfolding for_each free_leaf free_under
free_user_tables zero table s = for_each (free_leaf table) 512 0 s
free_user_tables (suc level) table s = for_each (free_under (free_user_tables level) table) 512 0 s

-- the freeing of the old user tables in `do_execve`
unfoldable pub free_space : ℕ → Vmm → Outcome Vmm
unfolding switch
free_space cr3 s =
    if cr3 == 0
    then ok s
    else (for_each (free_under (free_user_tables 2) cr3) 256 0 (switch s cr3) >>= λ u.
        Pmm.free u.pmm cr3 >>= λ p. ok (record u { pmm = p }))
