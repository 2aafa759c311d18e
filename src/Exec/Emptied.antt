-- ===== src/Exec/Emptied.antt =====
-- The freeing of an address space in core/cpu/exec.c gives back every table of its user half.
use mathlib.Core.Path.{subst}
use uix.Base.{
  ℕ, zero, suc, ◌+◌, ◌<◌, ◌≤◌, ◌≡◌, ◌≢◌, refl, ◌∙◌, ap, true, inl, inr, ◌==◌, arith, ok,
  sequence_returns, Bool-cases, ==→eq, ne→==, ==_self,
}
use uix.Pmm.{page_index, is_free}
use uix.Pmm.Valid.{IsValid}
use uix.Pmm.Free.{free_lem}
use uix.Vmm.{Vmm, is_present, frame, for_each}
use uix.Exec.Freeing.{free_under, free_user_tables, free_space}
use uix.Exec.Released.{
  Released, Released-free, Released-refl, free_user_tables-Released, entries-Released,
}

-- `t` is a table under one of the first `rounds` entries of a table with `level` levels below it.
pub data TableBelow (words : ℕ → ℕ → ℕ) : ℕ → ℕ → ℕ → ℕ → Type 0 where
  direct :
      {level rounds table : ℕ} (i : ℕ)
      → i < rounds
      → is_present (words table i) ≡ true
      → TableBelow words (suc level) rounds table (frame (words table i))
  deeper :
      {level rounds table t : ℕ} (i : ℕ)
      → i < rounds
      → is_present (words table i) ≡ true
      → TableBelow words level 512 (frame (words table i)) t
      → TableBelow words (suc level) rounds table t

abbrev FreeIn : Vmm → ℕ → Type 0
FreeIn w t = is_free w.pmm.bitmap (page_index t) ≡ true

abbrev AllFree : Vmm → Vmm → ℕ → ℕ → ℕ → Type 0
AllFree s w level rounds table = (t : ℕ) → TableBelow s.words level rounds table t → FreeIn w t

-- What is freed for entry `i`: its table, and what is below that.
abbrev EntryFree : Vmm → Vmm → ℕ → ℕ → ℕ → Type 0
EntryFree s w level table i =
    FreeIn w (frame (s.words table i)) × AllFree s w level 512 (frame (s.words table i))

module _ (s : Vmm) (level table : ℕ)
    (below : (t : ℕ) (u w : Vmm)
      → Released s u
      → free_user_tables level t u ≡ ok w
      → AllFree s w level 512 t) where
  entry_frees :
      (i : ℕ) (u w : Vmm)
      → Released s u
      → free_under (free_user_tables level) table u i ≡ ok w
      → is_present (s.words table i) ≡ true
      → EntryFree s w level table i
  unfolding free_under
  entry_frees i u w r e here =
      let same : u.words table i ≡ s.words table i = ap (λ f. f table i) r.words in
      let page = frame (s.words table i) in
      let (v, tail, head) =
        sequence_returns (free_user_tables level page u) _ w (rw (same, here) at e) in
      let rv = free_user_tables-Released level page s u v r head in
      let (done, freed) = Released-free s v w page rv tail in
      let (valid, len, free, count) = free_lem page rv.grown.valid freed in
      (
        free (page_index page) ∙ rw (==_self (page_index page)) refl,
        λ t b. free (page_index t) ∙ ground (arith, below page u v r head t b),
      )

  entries_free :
      (rounds first : ℕ) (u w : Vmm) (i : ℕ)
      → Released s u
      → for_each (free_under (free_user_tables level) table) rounds first u ≡ ok w
      → first ≤ i
      → i < first + rounds
      → is_present (s.words table i) ≡ true
      → EntryFree s w level table i
  unfolding for_each
  entries_free zero first u w i r e lo hi here = absurd (omega arith)
  entries_free (suc rounds) first u w i r e lo hi here =
      let (v, tail, head) =
        sequence_returns (free_under (free_user_tables level) table u first)
          (for_each (free_under (free_user_tables level) table) rounds (suc first)) w e in
      let rv = entries-Released level table 1 first s u v r (rw head refl) in
      elim (Bool-cases (first == i)) [
        | inr other ↦
            entries_free rounds (suc first) v w i rv tail (ground arith) (omega arith) here
        | inl same ↦
            let at = ==→eq first i same in
            let now =
              entry_frees i u v r
                (subst (λ j. free_under (free_user_tables level) table u j ≡ ok v) at head) here in
            let later =
              entries-Released level table rounds (suc first) v v w (Released-refl v rv.grown.valid)
                tail in
            (later.grown.kept _ now.0, λ t b. later.grown.kept (page_index t) (now.1 t b))
      ]

  entries-AllFree :
      (rounds : ℕ) (u w : Vmm)
      → Released s u
      → for_each (free_under (free_user_tables level) table) rounds 0 u ≡ ok w
      → AllFree s w (suc level) rounds table
  entries-AllFree rounds u w r e t (direct i lt here) =
      (entries_free rounds 0 u w i r e (omega arith) (omega arith) here).0
  entries-AllFree rounds u w r e t (deeper i lt here b) =
      (entries_free rounds 0 u w i r e (omega arith) (omega arith) here).1 t b

free_user_tables-AllFree :
    (level : ℕ) (s : Vmm) (table : ℕ) (u w : Vmm)
    → Released s u
    → free_user_tables level table u ≡ ok w
    → AllFree s w level 512 table
unfolding free_user_tables
free_user_tables-AllFree zero s table u w r e t b = elim b [ ]
free_user_tables-AllFree (suc level) s table u w r e t b =
    entries-AllFree s level table (free_user_tables-AllFree level s) 512 u w r e t b

-- When the freeing of an address space returns, from a valid state of the allocator, that state is
-- still valid and every page that was free is free. Free then are the tables of the three levels
-- below the old top table that its first 256 entries lead to, and the old top table, which is still the
-- current one. No word of memory has changed: the tables are read from pages that are free already.
pub free_space_lem :
    (cr3 : ℕ) (s w : Vmm)
    → cr3 ≢ 0
    → IsValid s.pmm
    → free_space cr3 s ≡ ok w
    → IsValid w.pmm
      × ((j : ℕ) → is_free s.pmm.bitmap j ≡ true → is_free w.pmm.bitmap j ≡ true)
      × ((t : ℕ) → TableBelow s.words 3 256 cr3 t → is_free w.pmm.bitmap (page_index t) ≡ true)
      × (is_free w.pmm.bitmap (page_index cr3) ≡ true)
      × (w.words ≡ s.words)
      × (w.pml4 ≡ cr3)
unfolding free_space
free_space_lem cr3 s w some_space v e =
    let s' : Vmm = record s { pml4 = cr3 } in
    let start : Released s' s' = Released-refl s' v in
    let (u, tail, head) =
      sequence_returns (for_each (free_under (free_user_tables 2) cr3) 256 0 s') _ w
        (rw (ne→== cr3 0 some_space) at e) in
    let r : Released s' u = entries-Released 2 cr3 256 0 s' s' u start head in
    let (done, freed) = Released-free s' u w cr3 r tail in
    let (valid, len, free, count) = free_lem cr3 r.grown.valid freed in
    let tables = entries-AllFree s' 2 cr3 (free_user_tables-AllFree 2 s') 256 s' u start head in
    (
      done.grown.valid,
      done.grown.kept,
      λ t b. free (page_index t) ∙ ground (arith, tables t b),
      free (page_index cr3) ∙ rw (==_self (page_index cr3)) refl,
      done.words,
      done.top,
    )
