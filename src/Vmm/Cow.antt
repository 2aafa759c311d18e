-- ===== src/Vmm/Cow.antt =====
-- Copy-on-write in core/memory/vmm.c: a page fault on a shared page, and the entries `fork` makes.
use uix.Base.{
  ℕ, ◌-◌, List, ◌/◌, ◌%◌, ◌*◌, ◌^◌, ◌≡◌, ◌≢◌, refl, true, false, inl, inr, ◌==◌, ◌&&◌, arith,
  Bool-cases, ok, some, ◌<◌, ltb, ==_self, if◌then◌else◌, sequence_returns, ◌∙◌,
}
use uix.Base.Words.{
  test_bit, set_bit, clear_bit, test_bit-set_bit, test_bit-clear_bit, test_bit-small,
}
use uix.Pmm
use uix.Pmm.Refs.{HasCounts, alloc-HasCounts, unref-shared}
use uix.Vmm.{
  Vmm, is_present, is_user, is_cow, frame, pt_idx, pt_for, page_fault, cow_copy, alloc_page,
  write_word, copy_page, table_entry, cow_entry, fork_leaf,
}

-- What a handled write fault on a shared page does: the fresh page `t` takes over.
pub record Copied (s : Vmm) (pt i pte : ℕ) (u : Vmm) (t : ℕ) : Type 0 where
  -- `t` is what `pmm_alloc` returned, and not 0
  pub given : t ≡ (Pmm.alloc s.pmm).1
  pub real : t ≢ 0
  -- the entry maps it, present, for the user and to be written
  pub mapped :
      u.words pt i
      ≡ (if test_bit pte 63 then set_bit (table_entry (frame t)) 63 else table_entry (frame t))
  -- it holds what the shared page held
  pub same : (j : ℕ) → t ≢ pt → u.words t j ≡ s.words (frame pte) j
  -- no other word of memory changes, those of the shared page included
  pub others : (q j : ℕ) → q ≢ t → ((q == pt) && (j == i)) ≡ false → u.words q j ≡ s.words q j

-- the state once the old page is released and the entry written
abbrev taken_over : Vmm → ℕ → ℕ → ℕ → Pmm.Pmm → Vmm
taken_over s pt i pte p =
    let t = (Pmm.alloc s.pmm).1 in
    let fresh = table_entry (frame t) in
    write_word (record (copy_page s t (frame pte)) { pmm = p }) pt i
      (if test_bit pte 63 then set_bit fresh 63 else fresh)

cow_copy-Copied :
    (s u : Vmm) (pt i pte : ℕ) → cow_copy s pt i pte ≡ ok u → (t : ℕ) × Copied s pt i pte u t
unfolding cow_copy alloc_page
cow_copy-Copied s u pt i pte e = elim (Bool-cases ((Pmm.alloc s.pmm).1 == 0)) [
  | inl none_left ↦ absurd (let bad = rw none_left at e in cc)
  | inr got ↦
      let (p, done, freed) =
        sequence_returns (Pmm.unref (Pmm.alloc s.pmm).0 (frame pte)) _ u (rw got at e) in
      let words : u.words ≡ (taken_over s pt i pte p).words = cc in
      (
        (Pmm.alloc s.pmm).1,
        record {
          given = refl;
          real = λ z. absurd (ground arith);
          mapped = rw words (simp (==_self pt, ==_self i) refl);
          same = λ j apart. rw words (ground arith);
          others = λ q j apart other. rw words (ground arith);
        },
      )
]

module _ (s : Vmm) (pt i pte : ℕ) {counts : List ℕ} (c : HasCounts s.pmm counts)
    (real : (Pmm.alloc s.pmm).1 ≢ 0) (known : Pmm.page_index (frame pte) < s.pmm.total_pages)
    (shared : 1 < Pmm.getref s.pmm (frame pte)) where
  -- With a free page and a page shared by more than one, the copy is made, and one reference less
  -- is counted.
  cow_copy_lem :
      (u : Vmm) × (cow_copy s pt i pte ≡ ok u)
      × (Pmm.getref u.pmm (frame pte) ≡ Pmm.getref s.pmm (frame pte) - 1)
  unfolding cow_copy alloc_page
  cow_copy_lem =
      let kept = alloc-HasCounts s.pmm counts c in
      let (p, freed, bits, count, refs) =
        unref-shared (frame pte) kept.0 (rw kept.2 known) (rw (kept.1 (frame pte)) shared) in
      let some_there : ((Pmm.alloc s.pmm).1 == 0) ≡ false = ground arith in
      (
        taken_over s pt i pte p,
        simp (some_there, freed) refl,
        refs (frame pte) ∙ simp (==_self (Pmm.page_index (frame pte)), kept.1 (frame pte)) refl,
      )

-- `fault_addr & ~(UIX_PAGE_SIZE - 1)`
abbrev pub page_of : ℕ → ℕ
page_of a = a / 4096 * 4096

-- the entry of a user page that is marked for copying
pub record IsShared (pte : ℕ) : Type 0 where
  pub here : is_present pte ≡ true
  pub cow : is_cow pte ≡ true
  pub user : is_user pte ≡ true

-- A write fault on a present page below 2 ^ 47, whose page table is found and whose entry is that of
-- a user page marked for copying, with more than one reference counted, is handled if there is a
-- free page. The address is then mapped to that page, to be written; it holds what the shared page
-- held (unless it is the page table's own); no other word of memory but the entry changes, those of
-- the shared page included; and the shared page has one reference less.
pub page_fault_copies :
    (s : Vmm) (fault_addr err pt pte : ℕ) {counts : List ℕ}
    → err % 4 ≡ 3
    → fault_addr < 2 ^ 47
    → pt_for s (page_of fault_addr) false ≡ ok (some (s, pt))
    → s.words pt (pt_idx (page_of fault_addr)) ≡ pte
    → IsShared pte
    → HasCounts s.pmm counts
    → (Pmm.alloc s.pmm).1 ≢ 0
    → Pmm.page_index (frame pte) < s.pmm.total_pages
    → 1 < Pmm.getref s.pmm (frame pte)
    → (u : Vmm) × (page_fault s fault_addr err ≡ ok (u, true))
      × ((t : ℕ) × Copied s pt (pt_idx (page_of fault_addr)) pte u t)
      × (Pmm.getref u.pmm (frame pte) ≡ Pmm.getref s.pmm (frame pte) - 1)
unfolding page_fault
page_fault_copies s fault_addr err pt pte {counts} kind low walk entry marked c real known shared =
    let va : ℕ = page_of fault_addr in
    let (u, made, less) = cow_copy_lem s pt (pt_idx va) pte c real known shared in
    let write : (err % 4 == 3) ≡ true = ground arith in
    let below : ltb fault_addr (2 ^ 47) ≡ true = ground arith in
    let more : ltb 1 (Pmm.getref s.pmm (frame pte)) ≡ true = ground arith in
    (
      u,
      simp (write, below, walk, entry, marked.here, marked.cow, marked.user, more, made) refl,
      cow_copy-Copied s u pt (pt_idx va) pte made,
      less,
    )

module _ (s : Vmm) (src dst i : ℕ) (apart : src ≢ dst) (user : is_user (s.words src i) ≡ true) where
  -- Sharing a user page in `fork_table` gives both spaces the same entry, marked for copying and
  -- not writable. Its upper half is lost: `~VMM_WRITE` is an unsigned int, so a page above 4 GiB is
  -- mapped at its address modulo 2 ^ 32, and the page can be executed whatever it was before.
  pub fork_leaf_lem :
      let e = s.words src i in
      let e' = (fork_leaf src dst s i).words src i in
      ((fork_leaf src dst s i).words dst i ≡ e')
      × (is_cow e' ≡ true)
      × (test_bit e' 1 ≡ false)
      × (frame e' ≡ frame e % 2 ^ 32)
      × (test_bit e' 63 ≡ false)
  unfolding fork_leaf
  fork_leaf_lem =
      let e : ℕ = s.words src i in
      let ne : (src == dst) ≡ false = ground arith in
      let there : (fork_leaf src dst s i).words src i ≡ cow_entry e =
        simp (user, ==_self src, ==_self i, ne) refl in
      rw there (
        simp (user, ==_self dst, ==_self i) refl,
        test_bit-set_bit (clear_bit (e % 2 ^ 32) 1) 9 9,
        test_bit-set_bit (clear_bit (e % 2 ^ 32) 1) 9 1 ∙ test_bit-clear_bit (e % 2 ^ 32) 1 1,
        unfold set_bit clear_bit in omega arith,
        test_bit-set_bit (clear_bit (e % 2 ^ 32) 1) 9 63
            ∙ test_bit-clear_bit (e % 2 ^ 32) 1 63
            ∙ test_bit-small (e % 2 ^ 32) 63 (omega arith),
      )
