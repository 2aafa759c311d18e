-- ===== src/Vmm.antt =====
-- core/memory/vmm.c: four levels of page tables, copy-on-write. Physical memory is seen in pages of
-- 512 words of 64 bits, through the direct map: `words` gives word `i` of the page at an address.
-- The pages of the bitmap and of the reference counts are those of `Pmm`. Loading CR3 and flushing
-- translations are left out.
pub mod Walk
pub mod Cow
pub mod Backing
pub mod Space
pub mod Early
use Prim.Native.Nat.{bit_or}
use uix.Base.{
  ℕ, zero, suc, ◌+◌, ◌-◌, ◌*◌, ◌/◌, ◌%◌, ◌^◌, Bool, true, false, Option, none, some, ltb, not,
  if◌then◌else◌, ◌==◌, ◌&&◌, Outcome, ok, panic, fault, ◌>>=◌,
}
use uix.Base.Words.{test_bit, set_bit, clear_bit}
use uix.Pmm
use uix.Pmm.{Pmm}

pub record Vmm : Type 0 where
  pub words : ℕ → ℕ → ℕ
  pub pmm : Pmm
  -- the physical address of the top table
  pub pml4 : ℕ
  pub kernel_cr3 : ℕ

-- VMM_PRESENT, VMM_WRITE and VMM_USER, PDE_PS, COW_MARK and VMM_NOEXEC are single bits.
abbrev pub is_present : ℕ → Bool
is_present e = test_bit e 0

abbrev pub is_user : ℕ → Bool
is_user e = test_bit e 2

abbrev pub is_large : ℕ → Bool
is_large e = test_bit e 7

abbrev pub is_cow : ℕ → Bool
is_cow e = test_bit e 9

abbrev pub pml4_idx : ℕ → ℕ
pml4_idx va = va / 2 ^ 39 % 512

abbrev pub pdpt_idx : ℕ → ℕ
pdpt_idx va = va / 2 ^ 30 % 512

abbrev pub pd_idx : ℕ → ℕ
pd_idx va = va / 2 ^ 21 % 512

abbrev pub pt_idx : ℕ → ℕ
pt_idx va = va / 2 ^ 12 % 512

-- `e & PTE_MASK`
abbrev pub frame : ℕ → ℕ
frame e = e / 4096 * 4096 % 2 ^ 52

-- `t | VMM_PRESENT | VMM_WRITE | VMM_USER`
abbrev pub table_entry : ℕ → ℕ
table_entry t = set_bit (set_bit (set_bit t 0) 1) 2

abbrev pub write_word : Vmm → ℕ → ℕ → ℕ → Vmm
write_word s page i v = record s {
  words = λ q j. if (q == page) && (j == i) then v else s.words q j;
}

-- `memset(…, 0, UIX_PAGE_SIZE)`
abbrev pub clear_page : Vmm → ℕ → Vmm
clear_page s page = record s { words = λ q j. if q == page then 0 else s.words q j }

-- `memcpy(…, …, UIX_PAGE_SIZE)`
abbrev pub copy_page : Vmm → ℕ → ℕ → Vmm
copy_page s dst src = record s { words = λ q j. if q == dst then s.words src j else s.words q j }

-- `pmm_alloc`, with the panic on 0 that follows it
unfoldable pub alloc_page : Vmm → Outcome (Vmm × ℕ)
unfolding Pmm.alloc
alloc_page s =
    let (p, t) = Pmm.alloc s.pmm in if t == 0 then panic else ok (record s { pmm = p }, t)

-- One level of `pt_for`: the entry at `i` of `table`, made if it is not present and `create` is
-- set. Nothing, if it is neither.
unfoldable pub next_entry : Vmm → ℕ → ℕ → Bool → Outcome (Option (Vmm × ℕ))
unfolding alloc_page
next_entry s table i create =
    let e = s.words table i in
    if is_present e
    then ok (some (s, e))
    else if create
    then (alloc_page s >>= λ r.
        ok (some (write_word (clear_page r.0 r.1) table i (table_entry r.1), table_entry r.1)))
    else ok none

-- a step that is taken if the one before it gave an entry
abbrev pub then_entry {ℓ} :
    {A : Type ℓ} → Outcome (Option (Vmm × ℕ)) → (Vmm → ℕ → Outcome (Option A)) → Outcome (Option A)
then_entry m step = m >>= λ found. elim found [ none ↦ ok none | some r ↦ step r.0 r.1 ]

-- `pt_for`: the page table of `va`, with the tables above it made if `create` is set
unfoldable pub pt_for : Vmm → ℕ → Bool → Outcome (Option (Vmm × ℕ))
unfolding next_entry
pt_for s va create = then_entry (next_entry s s.pml4 (pml4_idx va) create) (λ s1 e1.
    then_entry (next_entry s1 (frame e1) (pdpt_idx va) create) (λ s2 e2.
      if is_large e2
      then ok none
      else if is_present (s2.words (frame e2) (pd_idx va))
          && is_large (s2.words (frame e2) (pd_idx va))
      then ok none
      else then_entry (next_entry s2 (frame e2) (pd_idx va) create)
          (λ s3 e3. ok (some (s3, frame e3)))))

-- `vmm_map`. A large page has no table: the pointer is then NULL, and is not checked.
unfoldable pub map_page : Vmm → ℕ → ℕ → ℕ → Outcome Vmm
unfolding pt_for
map_page s va pa flags = pt_for s va true >>= λ found. elim found [
  | none ↦ fault
  | some r ↦
      if is_present (r.0.words r.1 (pt_idx va))
      then panic
      else ok (write_word r.0 r.1 (pt_idx va) (bit_or (frame pa) flags))
]

unfoldable pub unmap : Vmm → ℕ → Outcome Vmm
unfolding pt_for
unmap s va = pt_for s va false >>= λ found.
    ok (elim found [ none ↦ s | some r ↦ write_word r.0 r.1 (pt_idx va) 0 ])

unfoldable pub translate : Vmm → ℕ → Option ℕ
translate s va =
    let e1 = s.words s.pml4 (pml4_idx va) in
    let e2 = s.words (frame e1) (pdpt_idx va) in
    let e3 = s.words (frame e2) (pd_idx va) in
    let e4 = s.words (frame e3) (pt_idx va) in
    if not (is_present e1)
    then none
    else if not (is_present e2)
    then none
    else if is_large e2
    then some ((e2 / 2 ^ 30 * 2 ^ 30 % 2 ^ 52 + va % 2 ^ 30) % 2 ^ 64)
    else if not (is_present e3)
    then none
    else if is_large e3
    then some ((e3 / 2 ^ 21 * 2 ^ 21 % 2 ^ 52 + va % 2 ^ 21) % 2 ^ 64)
    else if not (is_present e4)
    then none
    else some (frame e4)

unfoldable pub switch : Vmm → ℕ → Vmm
switch s pml4_pa = record s { pml4 = pml4_pa }

-- `for (int i = first; …; i++)`, `rounds` times
unfoldable pub for_each : (Vmm → ℕ → Outcome Vmm) → ℕ → ℕ → Vmm → Outcome Vmm
for_each step zero i s = ok s
for_each step (suc rounds) i s = step s i >>= for_each step rounds (suc i)

-- `dst[i] = pml4[i]`
abbrev pub share_entry : ℕ → ℕ → Vmm → ℕ → Outcome Vmm
share_entry src dst s i = ok (write_word s dst i (s.words src i))

unfoldable pub create_space : Vmm → Outcome (Vmm × ℕ)
unfolding alloc_page for_each
create_space s = alloc_page s >>= λ r.
    for_each (share_entry r.0.pml4 r.1) 256 256 (clear_page r.0 r.1) >>= λ s'. ok (s', r.1)

-- `clone_table` with the table at `frame src_entry`; level 3 is the top
unfoldable pub clone_table : ℕ → Vmm → ℕ → Outcome (Vmm × ℕ)
unfolding alloc_page for_each
clone_table zero s src_entry = alloc_page s >>= λ r.
    for_each
      (λ u i.
        let e = u.words (frame src_entry) i in
        ok (write_word u r.1 i (if is_present e then e else 0)))
      512 0 r.0
    >>= λ u. ok (u, r.1)
clone_table (suc level) s src_entry = alloc_page s >>= λ r.
    for_each
      (λ u i.
        let e = u.words (frame src_entry) i in
        let child = clone_table level u e in
        if not (is_present e)
        then ok (write_word u r.1 i 0)
        else if is_large e
        then ok (write_word u r.1 i e)
        else child >>= λ c. ok (write_word c.0 r.1 i (bit_or c.1 (e % 4096))))
      512 0 r.0
    >>= λ u. ok (u, r.1)

-- `vmm_init`, given the value of CR3
unfoldable pub init : Vmm → ℕ → Outcome Vmm
unfolding clone_table
init s cr3 = clone_table 3 s cr3 >>= λ r. ok (record r.0 { pml4 = r.1; kernel_cr3 = r.1 })

-- `(e & ~VMM_WRITE) | COW_MARK`. The constant VMM_WRITE is an unsigned int, and so is `~VMM_WRITE`:
-- the upper half of the entry is cleared with the bit.
abbrev pub cow_entry : ℕ → ℕ
cow_entry e = set_bit (clear_bit (e % 2 ^ 32) 1) 9

-- a leaf in `fork_table`
unfoldable pub fork_leaf : ℕ → ℕ → Vmm → ℕ → Vmm
unfolding Pmm.ref
fork_leaf src dst s i =
    let e = s.words src i in
    let shared = write_word (write_word s src i (cow_entry e)) dst i (cow_entry e) in
    if is_user e then record shared { pmm = Pmm.ref s.pmm (frame e) } else write_word s dst i e

unfoldable pub fork_table : ℕ → ℕ → ℕ → Vmm → Outcome Vmm
unfolding alloc_page for_each fork_leaf
fork_table zero src dst s =
    for_each
      (λ u i.
        ok (if is_present (u.words src i) then fork_leaf src dst u i else write_word u dst i 0))
      512 0 s
fork_table (suc level) src dst s =
    for_each
      (λ u i.
        let e = u.words src i in
        let deeper = alloc_page u >>= λ r.
        fork_table level (frame e) r.1 (clear_page r.0 r.1) >>= λ w.
        ok (write_word w dst i (bit_or r.1 (e % 4096))) in
        if not (is_present e)
        then ok (write_word u dst i 0)
        else if (level == 0) && is_large e
        then ok (fork_leaf src dst u i)
        else deeper)
      512 0 s

-- the user half in `vmm_fork_user_space`; the result of `pmm_alloc` is not checked there
unfoldable pub fork_entry : ℕ → Vmm → ℕ → Outcome Vmm
unfolding fork_table
fork_entry dst s i =
    let (p, t) = Pmm.alloc s.pmm in
    let s' = clear_page (record s { pmm = p }) t in
    if is_present (s.words s.pml4 i)
    then (fork_table 2 (frame (s'.words s.pml4 i)) t s' >>= λ w.
        ok (write_word w dst i (bit_or t (w.words s.pml4 i % 4096))))
    else ok s

unfoldable pub fork_user_space : Vmm → Outcome (Vmm × ℕ)
unfolding fork_entry for_each alloc_page
fork_user_space s = alloc_page s >>= λ r.
    for_each (share_entry r.0.pml4 r.1) 256 256 (clear_page r.0 r.1) >>= λ s1.
    for_each (fork_entry r.1) 256 0 s1 >>= λ s2. ok (s2, r.1)

-- the page that a write fault on a shared page gets, and the entry that maps it
unfoldable pub cow_copy : Vmm → ℕ → ℕ → ℕ → Outcome Vmm
unfolding alloc_page Pmm.unref
cow_copy s pt i pte = alloc_page s >>= λ r.
    let s1 = copy_page r.0 r.1 (frame pte) in
    Pmm.unref s1.pmm (frame pte) >>= λ p.
    let fresh = table_entry (frame r.1) in
    ok (
      write_word (record s1 { pmm = p }) pt i (if test_bit pte 63 then set_bit fresh 63 else fresh))

-- `vmm_page_fault`: the state, and whether the fault was handled
unfoldable pub page_fault : Vmm → ℕ → ℕ → Outcome (Vmm × Bool)
unfolding pt_for cow_copy Pmm.getref
page_fault s fault_addr err =
    let va = fault_addr / 4096 * 4096 in
    if (err % 4 == 3) && ltb fault_addr (2 ^ 47)
    then (pt_for s va false >>= λ found. elim found [
      | none ↦ ok (s, false)
      | some r ↦
          let pte = s.words r.1 (pt_idx va) in
          if is_present pte && (is_cow pte && is_user pte)
          then (if ltb 1 (Pmm.getref s.pmm (frame pte))
              then (cow_copy s r.1 (pt_idx va) pte >>= λ s'. ok (s', true))
              else ok (write_word s r.1 (pt_idx va) (set_bit (clear_bit pte 9) 1), true))
          else ok (s, false)
    ])
    else ok (s, false)
