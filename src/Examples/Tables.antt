-- ===== src/Examples/Tables.antt =====
-- Runs of core/memory/vmm.c: address 0 is mapped to a page that two address spaces share. Pages 6 and
-- 7 are free.
use Prim.Native.Nat.{bit_or}
use uix.Base.{
  ℕ, ◌-◌, ◌<◌, ◌≡◌, ◌≢◌, ◌⊎◌, refl, arith, true, false, if◌then◌else◌, ◌==◌, [], ◌∷◌, none, some,
  ok, panic, ◌%◌, ◌^◌,
}
use uix.Base.Words.{test_bit}
use uix.Pmm
use uix.Pmm.{Pmm}
use uix.Pmm.Refs.{HasCounts}
use uix.Vmm.{Vmm, frame, is_present, is_cow, pt_idx, map_page, translate, page_fault, fork_leaf}
use uix.Vmm.Walk.{Walk, pt_for-Walk, translate-map_page}
use uix.Vmm.Cow.{Copied, IsShared, page_of, page_fault_copies, fork_leaf_lem}

abbrev eight_pages : Pmm
eight_pages = record {
  bitmap = 192 ∷ [];
  bitmap_len = 8;
  total_pages = 8;
  free_count = 2;
  next_free_scan = 0;
  refcounts = some (0 ∷ 0 ∷ 0 ∷ 0 ∷ 0 ∷ 2 ∷ 0 ∷ 0 ∷ []);
}

abbrev pub one_page : Vmm
one_page = record {
  words = λ q j.
      if j == 0
      then (if q == 4096
          then 8199
          else if q == 8192
          then 12295
          else if q == 12288
          then 16391
          else if q == 16384
          then 20997
          else 0)
      else 0;
  pmm = eight_pages;
  pml4 = 4096;
  kernel_cr3 = 4096;
}

one_page-Walk : Walk one_page 0 8199 12295 16391 16384
unfolding test_bit
one_page-Walk = record {
  top = omega arith;
  second = omega arith;
  third = omega arith;
  table = omega arith;
  top_present = refl;
  second_present = refl;
  third_present = refl;
  second_small = refl;
  third_small = refl;
}

-- the second page of the same tables, which is not mapped
page_1-Walk : Walk one_page 4096 8199 12295 16391 16384
unfolding test_bit
page_1-Walk = record {
  top = omega arith;
  second = omega arith;
  third = omega arith;
  table = omega arith;
  top_present = refl;
  second_present = refl;
  third_present = refl;
  second_small = refl;
  third_small = refl;
}

page_1_unmapped : translate one_page 4096 ≡ none
unfolding translate test_bit
page_1_unmapped = refl

translate-map_page_example :
    ((translate one_page 4096 ≢ none) × (map_page one_page 4096 28672 7 ≡ panic))
    ⊎ ((translate one_page 4096 ≡ none)
        × (u : Vmm) × (map_page one_page 4096 28672 7 ≡ ok u)
        × (translate u 4096 ≡ (
            if is_present (bit_or (frame 28672) 7)
            then some (frame (bit_or (frame 28672) 7))
            else none)))
translate-map_page_example =
    translate-map_page one_page page_1-Walk (λ e. omega arith) (λ e. omega arith) (λ e. omega arith)
      28672 7

entry-IsShared : IsShared 20997
unfolding test_bit
entry-IsShared = record { here = refl; cow = refl; user = refl }

page_5_counts : HasCounts eight_pages (0 ∷ 0 ∷ 0 ∷ 0 ∷ 0 ∷ 2 ∷ 0 ∷ 0 ∷ [])
page_5_counts = record { present = refl; enough = omega arith }

page_6_given : (Pmm.alloc eight_pages).1 ≡ 24576
unfolding Pmm.alloc test_bit
page_6_given = refl

two_references : 1 < Pmm.getref eight_pages (frame 20997)
unfolding Pmm.getref
two_references = omega arith

page_fault_copies_example :
    (u : Vmm) × (page_fault one_page 8 7 ≡ ok (u, true))
    × ((t : ℕ) × Copied one_page 16384 (pt_idx (page_of 8)) 20997 u t)
    × (Pmm.getref u.pmm (frame 20997) ≡ Pmm.getref eight_pages (frame 20997) - 1)
page_fault_copies_example =
    page_fault_copies one_page 8 7 16384 20997 (omega arith) (omega arith)
      (pt_for-Walk one_page one_page-Walk false) (omega arith) entry-IsShared page_5_counts
      (λ e. omega (arith, page_6_given)) (omega arith) two_references

user_entry : test_bit (one_page.words 16384 0) 2 ≡ true
unfolding test_bit
user_entry = refl

fork_leaf_lem_example :
    let e = one_page.words 16384 0 in
    let e' = (fork_leaf 16384 24576 one_page 0).words 16384 0 in
    ((fork_leaf 16384 24576 one_page 0).words 24576 0 ≡ e')
    × (is_cow e' ≡ true)
    × (test_bit e' 1 ≡ false)
    × (frame e' ≡ frame e % 2 ^ 32)
    × (test_bit e' 63 ≡ false)
fork_leaf_lem_example = fork_leaf_lem one_page 16384 24576 0 (λ e. omega arith) user_entry
