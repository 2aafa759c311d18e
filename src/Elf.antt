-- ===== src/Elf.antt =====
-- core/cpu/elf.c and include/uix/elf.h: the loader of static ELF images. The image is a function from
-- offsets to bytes, with its length. `pmm_alloc` and `vmm_map` are the interface `Pages` of the heap;
-- the bytes of a page are seen at the address where it is mapped, in the memory of the task.
pub mod Bytes
pub mod Segments
use uix.Base.{
  ℕ, zero, suc, ◌+◌, ◌-◌, ◌*◌, ◌/◌, ◌%◌, ◌^◌, Bool, true, false, List, [], ◌∷◌, ltb, leb, ◌==◌,
  ◌&&◌, ◌||◌, not, if◌then◌else◌, Outcome, ok, ◌>>=◌,
}
use uix.Libc.{Memory, store, memset}
use uix.Heap.{Pages}

abbrev pub u16_at : Memory → ℕ → ℕ
u16_at img off = img off + img (off + 1) * 2 ^ 8

abbrev pub u32_at : Memory → ℕ → ℕ
u32_at img off = u16_at img off + u16_at img (off + 2) * 2 ^ 16

abbrev pub u64_at : Memory → ℕ → ℕ
u64_at img off = u32_at img off + u32_at img (off + 4) * 2 ^ 32

-- `struct elf64_phdr`, as far as the loader reads it
pub record Phdr : Type 0 where
  pub kind : ℕ
  pub offset : ℕ
  pub vaddr : ℕ
  pub filesz : ℕ
  pub memsz : ℕ

abbrev pub pt_load : ℕ
pt_load = 1

-- sizeof(struct elf64_ehdr) and sizeof(struct elf64_phdr)
abbrev pub ehdr_size : ℕ
ehdr_size = 64

abbrev pub phdr_size : ℕ
phdr_size = 56

-- `*(struct elf64_phdr *)(img + at)`
unfoldable pub phdr_at : Memory → ℕ → Phdr
phdr_at img at = record {
  kind = u32_at img at;
  offset = u64_at img (at + 8);
  vaddr = u64_at img (at + 16);
  filesz = u64_at img (at + 32);
  memsz = u64_at img (at + 40);
}

-- `ph[i]` for the entries from `at` on: the array has the size of the struct as its step, not
-- `phentsize`.
unfoldable pub phdrs_from : Memory → ℕ → ℕ → List Phdr
unfolding phdr_at
phdrs_from img at zero = []
phdrs_from img at (suc n) = phdr_at img at ∷ phdrs_from img (at + phdr_size) n

-- the tests that `elf_load` makes of the header
unfoldable pub is_loadable : Memory → ℕ → Bool
is_loadable img len =
    not (ltb len ehdr_size)
    && ((img 0 == 0x7F) && ((img 1 == b'E') && ((img 2 == b'L') && (img 3 == b'F'))))
    && (img 4 == 2)
    && (u16_at img 18 == 0x3E)
    && not ((u16_at img 56 == 0) || ltb (u16_at img 54) phdr_size)
    && leb ((u64_at img 32 + u16_at img 56 * u16_at img 54) % 2 ^ 64) len

-- VMM_PRESENT | VMM_WRITE | VMM_USER
abbrev pub user_flags : ℕ
user_flags = 7

-- `memcpy((void *)va, img + off, n)`
unfoldable pub copy_in : Memory → Memory → ℕ → ℕ → ℕ → Memory
copy_in img m va off zero = m
copy_in img m va off (suc n) = copy_in img (store m va (img off)) (va + 1) (off + 1) n

-- where the bytes of the page at `va` are in the file, how many of them belong to the segment, and
-- how many of those the file has; all on u64
abbrev pub file_off : Phdr → ℕ → ℕ
file_off ph va = (ph.offset + (va + 2 ^ 64 - ph.vaddr)) % 2 ^ 64

abbrev pub file_end : Phdr → ℕ
file_end ph = (ph.vaddr + ph.filesz) % 2 ^ 64

abbrev pub chunk : Phdr → ℕ → ℕ
chunk ph va =
    let rest = (file_end ph + 2 ^ 64 - va) % 2 ^ 64 in if ltb 4096 rest then 4096 else rest

abbrev pub clipped : ℕ → ℕ → ℕ → ℕ
clipped len off copy =
    if ltb len ((off + copy) % 2 ^ 64) then (len + 2 ^ 64 - off) % 2 ^ 64 else copy

-- the part of the file in the page at `va`
unfoldable pub file_part : Memory → ℕ → Phdr → ℕ → Memory → Memory
unfolding copy_in
file_part img len ph va m =
    if leb ph.offset (file_off ph va) && ltb va (file_end ph)
    then copy_in img m va (file_off ph va) (clipped len (file_off ph va) (chunk ph va))
    else m

-- the first page of a segment, and the end of its last one
abbrev pub first_page : Phdr → ℕ
first_page ph = ph.vaddr / 4096 * 4096

abbrev pub pages_end : Phdr → ℕ
pages_end ph = ((ph.vaddr + ph.memsz) % 2 ^ 64 + 4096 - 1) % 2 ^ 64 / 4096 * 4096

module _ (P : Pages) where
  open P use {State, alloc, map_page}

  -- what the loader works on, and whether it has not run out of pages
  pub record Loader : Type 0 where
    pub pages : State
    pub memory : Memory
    pub alive : Bool

  -- one page: taken, cleared, mapped and filled
  unfoldable pub load_page : Memory → ℕ → Phdr → ℕ → Loader → Outcome Loader
  unfolding file_part memset
  load_page img len ph va l =
      let (s, pg) = alloc l.pages in
      let m = file_part img len ph va (memset l.memory va 0 4096) in
      if pg == 0
      then ok (record { pages = s; memory = l.memory; alive = false })
      else (map_page s va pg user_flags >>= λ s'.
          ok (record { pages = s'; memory = m; alive = true }))

  -- `for (va = …; va < end; va += UIX_PAGE_SIZE)`, left by the return when no page is left
  unfoldable pub load_pages : Memory → ℕ → Phdr → ℕ → ℕ → Loader → Outcome Loader
  unfolding load_page
  load_pages img len ph va zero l = ok l
  load_pages img len ph va (suc rounds) l = load_page img len ph va l >>= λ l'. elim l'.alive [
    | true ↦ load_pages img len ph (va + 4096) rounds l'
    | false ↦ ok l'
  ]

  unfoldable pub load_segment : Memory → ℕ → Phdr → Loader → Outcome Loader
  unfolding load_pages
  load_segment img len ph l =
      if ph.kind == pt_load
      then load_pages img len ph (first_page ph) ((pages_end ph - first_page ph) / 4096) l
      else ok l

  unfoldable pub load_segments : Memory → ℕ → List Phdr → Loader → Outcome Loader
  unfolding load_segment
  load_segments img len [] l = ok l
  load_segments img len (ph ∷ phs) l = load_segment img len ph l >>= λ l'. elim l'.alive [
    | true ↦ load_segments img len phs l'
    | false ↦ ok l'
  ]

  -- the entry point, or 0
  unfoldable pub elf_load : Memory → ℕ → State → Memory → Outcome (Loader × ℕ)
  unfolding is_loadable phdrs_from load_segments
  elf_load img len s m =
      let start : Loader = record { pages = s; memory = m; alive = true } in
      if is_loadable img len
      then (load_segments img len (phdrs_from img (u64_at img 32) (u16_at img 56)) start >>= λ l.
          ok (l, if l.alive then u64_at img 24 else 0))
      else ok (start, 0)
