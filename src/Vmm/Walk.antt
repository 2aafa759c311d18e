-- ===== src/Vmm/Walk.antt =====
-- The walk of the page tables of core/memory/vmm.c, and what `vmm_unmap` and `vmm_map` do to it.
use Prim.Native.Nat.{bit_or}
use uix.Base.{
  ℕ, Bool, ◌≡◌, ◌≢◌, refl, true, false, inl, inr, ◌⊎◌, ◌==◌, arith, Bool-cases, ok, none, some, sym,
  ◌∙◌, if◌then◌else◌, ==_self, panic,
}
use uix.Base.Words.{test_bit}
use uix.Vmm.{
  Vmm, is_present, is_large, frame, pml4_idx, pdpt_idx, pd_idx, pt_idx, next_entry, pt_for, unmap,
  map_page, translate, write_word,
}

-- The three entries above the page table `pt` of `va` are present, and none is that of a large
-- page.
pub record Walk (s : Vmm) (va pml4e pdpte pde pt : ℕ) : Type 0 where
  pub top : s.words s.pml4 (pml4_idx va) ≡ pml4e
  pub second : s.words (frame pml4e) (pdpt_idx va) ≡ pdpte
  pub third : s.words (frame pdpte) (pd_idx va) ≡ pde
  pub table : frame pde ≡ pt
  pub top_present : is_present pml4e ≡ true
  pub second_present : is_present pdpte ≡ true
  pub third_present : is_present pde ≡ true
  pub second_small : is_large pdpte ≡ false
  pub third_small : is_large pde ≡ false

module _ (s : Vmm) {va pml4e pdpte pde pt : ℕ} (w : Walk s va pml4e pdpte pde pt) where
  -- Where the tables are there, `pt_for` finds the page table, whether it may make tables or not.
  pub pt_for-Walk : (create : Bool) → pt_for s va create ≡ ok (some (s, pt))
  unfolding pt_for next_entry
  pt_for-Walk create =
      simp
        (
          w.top, w.second, w.third, w.table, w.top_present, w.second_present, w.third_present,
          w.second_small, w.third_small,
        )
        refl

  module _ (not_top : pt ≢ s.pml4) (not_second : pt ≢ frame pml4e)
      (not_third : pt ≢ frame pdpte) where
    -- A write to the page table leaves the tables above it alone.
    Walk-write_word : (i v : ℕ) → Walk (write_word s pt i v) va pml4e pdpte pde pt
    Walk-write_word i v =
        let a : (s.pml4 == pt) ≡ false = ground arith in
        let b : (frame pml4e == pt) ≡ false = ground arith in
        let c : (frame pdpte == pt) ≡ false = ground arith in
        record {
          top = simp a w.top;
          second = simp b w.second;
          third = simp c w.third;
          table = w.table;
          top_present = w.top_present;
          second_present = w.second_present;
          third_present = w.third_present;
          second_small = w.second_small;
          third_small = w.third_small;
        }

    -- Where the tables are there, `vmm_translate` looks at the entry in the page table.
    translate-Walk :
        (u : Vmm)
        → Walk u va pml4e pdpte pde pt
        → translate u va ≡ (
            if is_present (u.words pt (pt_idx va))
            then some (frame (u.words pt (pt_idx va)))
            else none)
    unfolding translate
    translate-Walk u x = elim (Bool-cases (is_present (u.words pt (pt_idx va)))) [
      | inl here ↦
          simp
            (
              x.top, x.second, x.third, x.table, x.top_present, x.second_present, x.third_present,
              x.second_small, x.third_small, here,
            )
            refl
      | inr gone ↦
          simp
            (
              x.top, x.second, x.third, x.table, x.top_present, x.second_present, x.third_present,
              x.second_small, x.third_small, gone,
            )
            refl
    ]

    -- the page table's slot after a write to it
    written : (v : ℕ) → (write_word s pt (pt_idx va) v).words pt (pt_idx va) ≡ v
    written v = simp (==_self pt, ==_self (pt_idx va)) refl

    translate-written :
        (v : ℕ)
        → translate (write_word s pt (pt_idx va) v) va
          ≡ (if is_present v then some (frame v) else none)
    translate-written v =
        translate-Walk (write_word s pt (pt_idx va) v) (Walk-write_word (pt_idx va) v)
        ∙ rw (written v) refl

    -- Where the tables of an address are there, and its page table is at none of the three tables
    -- above it, `vmm_unmap` returns, and the address then has no translation.
    pub translate-unmap : (u : Vmm) × (unmap s va ≡ ok u) × (translate u va ≡ none)
    unfolding unmap
    translate-unmap =
        let v : Walk (write_word s pt (pt_idx va) 0) va pml4e pdpte pde pt =
          Walk-write_word (pt_idx va) 0 in
        (
          write_word s pt (pt_idx va) 0,
          rw (pt_for-Walk false) refl,
          translate-Walk (write_word s pt (pt_idx va) 0) v
              ∙ rw (written 0) (unfold test_bit in refl),
        )

    translate_here :
        is_present (s.words pt (pt_idx va)) ≡ true
        → translate s va ≡ some (frame (s.words pt (pt_idx va)))
    translate_here here = translate-Walk s w ∙ rw here refl

    translate_gone : is_present (s.words pt (pt_idx va)) ≡ false → translate s va ≡ none
    translate_gone gone = translate-Walk s w ∙ rw gone refl

    -- Where the tables of an address are there, and its page table is at none of the three tables
    -- above it, `vmm_map` panics if the address is mapped; otherwise it returns, and the address
    -- then translates to the frame of the entry that it writes, the frame of the page with the flags
    -- set in it, if that entry is present, and has no translation if it is not.
    pub translate-map_page :
        (pa flags : ℕ)
        → ((translate s va ≢ none) × (map_page s va pa flags ≡ panic))
          ⊎ ((translate s va ≡ none)
              × (u : Vmm) × (map_page s va pa flags ≡ ok u)
              × (translate u va ≡ (
                  if is_present (bit_or (frame pa) flags)
                  then some (frame (bit_or (frame pa) flags))
                  else none)))
    unfolding map_page
    translate-map_page pa flags = elim (Bool-cases (is_present (s.words pt (pt_idx va)))) [
      | inl here ↦ inl (
        λ e.
            let found : some (frame (s.words pt (pt_idx va))) ≡ none =
              sym (translate_here here) ∙ e in
            cc,
        simp (pt_for-Walk true, here) refl,
      )
      | inr gone ↦ inr (
        translate_gone gone,
        write_word s pt (pt_idx va) (bit_or (frame pa) flags),
        simp (pt_for-Walk true, gone) refl,
        translate-written (bit_or (frame pa) flags),
      )
    ]
