-- ===== src/Vmm/Early.antt =====
-- `vmm_early_alloc_pages` of core/memory/vmm.c. The clearing of the pages is left out.
use uix.Base.{
  ℕ, zero, suc, ◌+◌, ◌-◌, ◌*◌, ◌^◌, Bool, true, false, Option, none, some, List, ltb, ◌==◌,
  if◌then◌else◌, get_or, set, Outcome, ok, ◌>>=◌,
}
use uix.Vmm.{Vmm, alloc_page, map_page}

abbrev pub scratch_va_base : ℕ
scratch_va_base = 0xffffffff30000000

abbrev pub scratch_pages : ℕ
scratch_pages = 256

-- VMM_PRESENT | VMM_WRITE | VMM_NOEXEC
abbrev pub scratch_flags : ℕ
scratch_flags = 2 ^ 63 + 3

-- the page tables, and `scratch_used`
pub record Scratch : Type 0 where
  pub vmm : Vmm
  pub scratch_used : List Bool

-- the inner loop from page `j` on
unfoldable pub take_scratch : ℕ → ℕ → Scratch → Outcome Scratch
unfolding alloc_page map_page
take_scratch zero j s = ok s
take_scratch (suc rounds) j s = alloc_page s.vmm >>= λ r.
    map_page r.0 (scratch_va_base + j * 4096) r.1 scratch_flags >>= λ v.
    take_scratch rounds (suc j) (record { vmm = v; scratch_used = set s.scratch_used j true })

-- the outer loop from page `i` on, with `run` unused pages behind it
unfoldable pub find_scratch : ℕ → ℕ → ℕ → ℕ → Scratch → Outcome (Scratch × Option ℕ)
unfolding take_scratch
find_scratch count zero i run s = ok (s, none)
find_scratch count (suc rounds) i run s =
    let run' = if get_or s.scratch_used i false then 0 else run + 1 in
    let first = i + 1 - count in
    let later = find_scratch count rounds (suc i) run' s in
    if run' == count
    then (take_scratch count first s >>= λ s'. ok (s', some (scratch_va_base + first * 4096)))
    else later

-- the address of `count` pages, or NULL
unfoldable pub early_alloc_pages : ℕ → Scratch → Outcome (Scratch × Option ℕ)
unfolding find_scratch
early_alloc_pages count s =
    if ltb scratch_pages count then ok (s, none) else find_scratch count scratch_pages 0 0 s
