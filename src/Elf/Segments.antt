-- ===== src/Elf/Segments.antt =====
-- What `elf_load` of core/cpu/elf.c leaves in the memory of the task.
use uix.Base.{
  ℕ, zero, suc, ◌+◌, ◌-◌, ◌*◌, ◌/◌, ◌%◌, ◌≤◌, ◌<◌, ◌≡◌, ◌≢◌, refl, sym, ◌∙◌, ap, Bool, true, false,
  inl, inr, List, [], ◌∷◌, leb, ◌==◌, ◌&&◌, ◌||◌, if◌then◌else◌, arith, Bool-cases, ok,
  sequence_returns, ok-injective,
}
use uix.Libc.{Memory, memset}
use uix.Libc.Blocks.{within, memset_lem}
use uix.Heap.{Pages}
use uix.Elf.{
  Phdr, Loader, file_part, load_page, load_pages, load_segment, load_segments, elf_load, first_page,
  pages_end, pt_load, user_flags, is_loadable, phdrs_from, u64_at, u16_at,
}
use uix.Elf.Bytes.{Fits, content, file_part_lem, no_byte, page_start, join_pages}

or_false : (b c : Bool) → (b || c) ≡ false → (b ≡ false) × (c ≡ false)
or_false true c e = cc
or_false false c e = (refl, e)

-- whether `a` lies in a page of the segment
abbrev pub in_pages : Phdr → ℕ → Bool
in_pages ph a = (ph.kind == pt_load) && within (first_page ph) (pages_end ph - first_page ph) a

-- whether `a` lies in a page of one of the segments
unfoldable pub in_any : List Phdr → ℕ → Bool
in_any [] a = false
in_any (ph ∷ phs) a = in_pages ph a || in_any phs a

-- Segments that fit, no two of which have a page in common.
abbrev pub AllFit : ℕ → List Phdr → Type 0
AllFit len [] = Unit {0}
AllFit len (ph ∷ phs) =
    Fits len ph × ((a : ℕ) → in_pages ph a ≡ true → in_any phs a ≡ false) × AllFit len phs

-- The pages of every segment hold what they should.
abbrev pub Loaded : Memory → Memory → List Phdr → Type 0
Loaded img m [] = Unit {0}
Loaded img m (ph ∷ phs) =
    ((a : ℕ) → in_pages ph a ≡ true → m a ≡ content img ph a) × Loaded img m phs

module _ (P : Pages) where
  load_page_lem :
      (img : Memory) (len : ℕ) (ph : Phdr) (va : ℕ) (l l' : Loader P)
      → Fits len ph
      → va % 4096 ≡ 0
      → first_page ph ≤ va
      → va < ph.vaddr + ph.memsz
      → load_page P img len ph va l ≡ ok l'
      → l'.alive ≡ true
      → (a : ℕ) → l'.memory a ≡ (if within va 4096 a then content img ph a else l.memory a)
  unfolding load_page content
  load_page_lem img len ph va l l' f aligned lo hi e alive a =
      let (s, pg) = P.alloc l.pages in
      elim (Bool-cases (pg == 0)) [
        | inl empty ↦ let e' = rw empty at e in absurd (ground (arith, e'))
        | inr got ↦
            let (s', tail, mapped) =
              sequence_returns (P.map_page s va pg user_flags) _ _ (rw got at e) in
            let m = memset l.memory va 0 4096 in
            let filled : l'.memory a ≡ file_part img len ph va m a =
              sym (ap (λ (x : Loader P). x.memory a) (ok-injective tail)) in
            filled
            ∙ file_part_lem img len ph va m a f aligned lo hi
            ∙ rw (memset_lem l.memory va 0 4096 a) (elim (Bool-cases (within va 4096 a)) [
              | inl w ↦
                  let base : a / 4096 * 4096 ≡ va = page_start va a aligned w in rw (w, base) refl
              | inr w ↦
                  rw w (no_byte (leb ph.vaddr va) (img (ph.offset + (a - ph.vaddr))) (l.memory a))
            ])
      ]

  load_pages_lem :
      (img : Memory) (len : ℕ) (ph : Phdr) (va rounds : ℕ) (l l' : Loader P)
      → Fits len ph
      → va % 4096 ≡ 0
      → first_page ph ≤ va
      → va + rounds * 4096 < ph.vaddr + ph.memsz + 4096
      → l.alive ≡ true
      → load_pages P img len ph va rounds l ≡ ok l'
      → l'.alive ≡ true
      → (a : ℕ)
      → l'.memory a ≡ (if within va (rounds * 4096) a then content img ph a else l.memory a)
  unfolding load_pages
  load_pages_lem img len ph va zero l l' f aligned lo hi before e alive a =
      sym (ap (λ (x : Loader P). x.memory a) (ok-injective e)) ∙ ground arith
  load_pages_lem img len ph va (suc rounds) l l' f aligned lo hi before e alive a =
      let (l1, tail, first) = sequence_returns (load_page P img len ph va l) _ _ e in
      elim (Bool-cases l1.alive) [
        | inr dead ↦
            let same : l1 ≡ l' = ok-injective (rw dead at tail) in
            let never : false ≡ true = sym dead ∙ ap (λ (x : Loader P). x.alive) same ∙ alive in
            absurd cc
        | inl going ↦
            let here = load_page_lem img len ph va l l1 f aligned lo (omega arith) first going a in
            let later =
              load_pages_lem img len ph (va + 4096) rounds l1 l' f (omega arith) (omega arith)
                (omega arith) going (rw going at tail) alive a in
            later ∙ rw here (join_pages va rounds a (content img ph a) (l.memory a))
      ]

  load_segment_lem :
      (img : Memory) (len : ℕ) (ph : Phdr) (l l' : Loader P)
      → Fits len ph
      → l.alive ≡ true
      → load_segment P img len ph l ≡ ok l'
      → l'.alive ≡ true
      → (a : ℕ) → l'.memory a ≡ (if in_pages ph a then content img ph a else l.memory a)
  unfolding load_segment
  load_segment_lem img len ph l l' f before e alive a = elim (Bool-cases (ph.kind == pt_load)) [
    | inr other ↦ rw other (sym (ap (λ (x : Loader P). x.memory a) (ok-injective (rw other at e))))
    | inl loads ↦
        let whole : (pages_end ph - first_page ph) / 4096 * 4096 ≡ pages_end ph - first_page ph =
          omega arith in
        let done =
          load_pages_lem img len ph (first_page ph) ((pages_end ph - first_page ph) / 4096) l l' f
            (omega arith) (omega arith) (omega (arith, f.small)) before (rw loads at e) alive a in
        rw loads (done ∙ rw whole refl)
  ]

  load_segments_lem :
      (img : Memory) (len : ℕ) (phs : List Phdr) (l l' : Loader P)
      → AllFit len phs
      → l.alive ≡ true
      → load_segments P img len phs l ≡ ok l'
      → l'.alive ≡ true
      → Loaded img l'.memory phs × ((a : ℕ) → in_any phs a ≡ false → l'.memory a ≡ l.memory a)
  unfolding load_segments in_any
  load_segments_lem img len [] l l' fit before e alive =
      (tt, λ a out. sym (ap (λ (x : Loader P). x.memory a) (ok-injective e)))
  load_segments_lem img len (ph ∷ phs) l l' fit before e alive =
      let (l1, tail, first) = sequence_returns (load_segment P img len ph l) _ _ e in
      elim (Bool-cases l1.alive) [
        | inr dead ↦
            let same : l1 ≡ l' = ok-injective (rw dead at tail) in
            let never : false ≡ true = sym dead ∙ ap (λ (x : Loader P). x.alive) same ∙ alive in
            absurd cc
        | inl going ↦
            let here = load_segment_lem img len ph l l1 fit.0 before first going in
            let (others, kept) =
              load_segments_lem img len phs l1 l' fit.2 going (rw going at tail) alive in
            (
              (λ a i. kept a (fit.1 a i) ∙ here a ∙ rw i refl, others),
              λ a out.
                  let (here_out, later_out) = or_false (in_pages ph a) (in_any phs a) out in
                  kept a later_out ∙ here a ∙ rw here_out refl,
            )
      ]

  -- When `elf_load` returns an entry point, for an image below 2 ^ 64 bytes whose segments lie in it, have
  -- filesz <= memsz and vaddr % 4096 <= offset, end a page in front of the end of the address space,
  -- and have no page in common, it is the entry of the header; the pages of every segment that is loaded hold the bytes of
  -- the file, and zeros behind them, but the page of a segment that starts in front of it is all
  -- zeros; and no other byte of the memory has changed.
  pub elf_load_lem :
      (img : Memory) (len : ℕ) (s : P.State) (m : Memory) (l : Loader P) (entry : ℕ)
      → AllFit len (phdrs_from img (u64_at img 32) (u16_at img 56))
      → elf_load P img len s m ≡ ok (l, entry)
      → entry ≢ 0
      → (entry ≡ u64_at img 24)
        × Loaded img l.memory (phdrs_from img (u64_at img 32) (u16_at img 56))
        × ((a : ℕ)
            → in_any (phdrs_from img (u64_at img 32) (u16_at img 56)) a ≡ false
            → l.memory a ≡ m a)
  unfolding elf_load
  elf_load_lem img len s m l entry fit e real =
      let phs = phdrs_from img (u64_at img 32) (u16_at img 56) in
      let start : Loader P = record { pages = s; memory = m; alive = true } in
      elim (Bool-cases (is_loadable img len)) [
        | inr bad ↦
            absurd (real (sym (ap (λ (x : Loader P × ℕ). x.1) (ok-injective (rw bad at e)))))
        | inl good ↦
            let (l1, tail, first) =
              sequence_returns (load_segments P img len phs start) _ _ (rw good at e) in
            let same : l1 ≡ l = ap (λ (x : Loader P × ℕ). x.0) (ok-injective tail) in
            let value = ap (λ (x : Loader P × ℕ). x.1) (ok-injective tail) in
            elim (Bool-cases l1.alive) [
              | inr dead ↦ absurd (real (sym (rw dead at value)))
              | inl alive ↦
                  let (loaded, kept) =
                    load_segments_lem img len phs start l1 fit refl first alive in
                  (sym (rw alive at value), rw (sym same) loaded, rw (sym same) kept)
            ]
      ]
