-- ===== src/Examples/Programs.antt =====
-- Runs of core/cpu/elf.c on an image of 124 bytes: a header, one segment of 4 bytes at offset 120, which
-- is loaded at 0x400000 and is 8 bytes long there.
use uix.Base.{ℕ, ◌+◌, ◌≡◌, refl, true, false, [], ◌∷◌, List, ok, arith, get_or, replicate, ◌++◌}
use uix.Libc.{Memory, memset}
use uix.Heap.{Pages}
use uix.Elf.{
  Phdr, Loader, elf_load, is_loadable, phdrs_from, phdr_at, load_segments, load_segment, load_pages,
  load_page, file_part, u64_at, u16_at,
}
use uix.Elf.Bytes.{Fits}
use uix.Elf.Segments.{Loaded, in_any, elf_load_lem}

-- pages are numbered in the order in which they are taken, and every page can be mapped
abbrev pub plenty : Pages
plenty = record { State = ℕ; alloc = λ s. (s + 4096, s + 4096); map_page = λ s va pa flags. ok s }

abbrev image_bytes : List ℕ
image_bytes =
    (0x7F ∷ b'E' ∷ b'L' ∷ b'F' ∷ 2 ∷ [])
    ++ replicate 13 0
    ++ (0x3E ∷ [])
    ++ replicate 7 0
    ++ (0x40 ∷ [])
    ++ replicate 5 0
    ++ (64 ∷ [])
    ++ replicate 21 0
    ++ (56 ∷ 0 ∷ 1 ∷ [])
    ++ replicate 7 0
    ++ (1 ∷ [])
    ++ replicate 7 0
    ++ (120 ∷ [])
    ++ replicate 9 0
    ++ (0x40 ∷ [])
    ++ replicate 13 0
    ++ (4 ∷ [])
    ++ replicate 7 0
    ++ (8 ∷ [])
    ++ replicate 15 0
    ++ (0x90 ∷ 0x90 ∷ 0xEB ∷ 0xFE ∷ [])

abbrev image : Memory
image off = get_or image_bytes off 0

abbrev segment : Phdr
segment = record { kind = 1; offset = 120; vaddr = 0x400000; filesz = 4; memsz = 8 }

one_segment : phdrs_from image (u64_at image 32) (u16_at image 56) ≡ segment ∷ []
unfolding phdrs_from phdr_at
one_segment = refl

segment-Fits : Fits 124 segment
segment-Fits = record {
  image = omega arith;
  inside = omega arith;
  small = omega arith;
  part = omega arith;
  before = omega arith;
}

abbrev loaded : Loader plenty
loaded = record {
  pages = 4096;
  memory = file_part image 124 segment 0x400000 (memset (λ a. 7) 0x400000 0 4096);
  alive = true;
}

loads : elf_load plenty image 124 0 (λ a. 7) ≡ ok (loaded, 0x400000)
unfolding elf_load is_loadable phdrs_from phdr_at load_segments load_segment load_pages load_page
loads = refl

elf_load_lem_example :
    (0x400000 ≡ u64_at image 24)
    × Loaded image loaded.memory (phdrs_from image (u64_at image 32) (u16_at image 56))
    × ((a : ℕ)
        → in_any (phdrs_from image (u64_at image 32) (u16_at image 56)) a ≡ false
        → loaded.memory a ≡ 7)
unfolding phdrs_from phdr_at in_any
elf_load_lem_example =
    elf_load_lem plenty image 124 0 (λ a. 7) loaded 0x400000 (segment-Fits, (λ a i. refl), tt) loads
      (λ e. omega arith)
