-- ===== src/Boot.antt =====
-- boot/boot.c and core/kmain.c: the answers of the boot loader, and the self test of the memory. The
-- answers are arguments. Log lines, and the bytes that the test writes into the pages, are left out.
pub mod Pages
use uix.Base.{
  ℕ, zero, suc, ◌+◌, ◌-◌, ◌*◌, ◌/◌, ◌%◌, ◌^◌, Bool, Option, none, some, List, [], ◌∷◌, ◌==◌, ◌||◌,
  not, if◌then◌else◌, Outcome, ok, panic, ◌>>=◌, for_range,
}
use uix.Libc.{Memory, store, strcpy}
use uix.Pmm
use uix.Pmm.{Pmm, free_pages, add64}
use uix.Pmm.Init.{Entry, usable}
use uix.Heap.{Heap, kmalloc, kfree}
use uix.Vmm.{Vmm, map_page, unmap, translate, write_word}
use uix.Vmm.Backing.{kernel_pages}

-- `struct uix_bootinfo`
pub record Bootinfo : Type 0 where
  pub memmap : List Entry
  pub hhdm : ℕ

-- the loop of `boot_init` over the memory map
unfoldable pub usable_bytes : ℕ → List Entry → ℕ
usable_bytes sum [] = sum
usable_bytes sum (e ∷ es) = usable_bytes (if usable e then add64 sum e.len else sum) es

-- `boot_init`, given the memory map and the offset of the direct map, if the boot loader has answered;
-- with it, the size in MiB that is printed
unfoldable pub boot_init : Option (List Entry) → Option ℕ → Outcome (Bootinfo × ℕ)
unfolding usable_bytes
boot_init none hhdm = panic
boot_init (some memmap) none = panic
boot_init (some memmap) (some hhdm) =
    ok (record { memmap = memmap; hhdm = hhdm }, usable_bytes 0 memmap / 2 ^ 20 % 2 ^ 32)

-- the first loop of `selftest_memory`: `pages[i] = pmm_alloc()`, with its panic
unfoldable pub take_pages : ℕ → Pmm → Outcome (Pmm × List ℕ)
unfolding Pmm.alloc
take_pages zero p = ok (p, [])
take_pages (suc n) p =
    let (q, a) = Pmm.alloc p in
    let rest = take_pages n q >>= λ r. ok (r.0, a ∷ r.1) in if a == 0 then panic else rest

-- the second loop
unfoldable pub give_back : List ℕ → Pmm → Outcome Pmm
unfolding Pmm.free
give_back [] p = ok p
give_back (a ∷ rest) p = Pmm.free p a >>= give_back rest

unfoldable pub selftest_pages : Pmm → Outcome Pmm
unfolding take_pages give_back free_pages
selftest_pages p = take_pages 64 p >>= λ r.
    give_back r.1 r.0 >>= λ q. if not (free_pages q == free_pages p) then panic else ok q

abbrev pub probe_va : ℕ
probe_va = 0xffff800100000000

-- VMM_PRESENT | VMM_WRITE | VMM_NOEXEC
abbrev pub probe_flags : ℕ
probe_flags = 2 ^ 63 + 3

abbrev pub canary : ℕ
canary = 0xCAFEBABEDEADBEEF

-- The scratch page. The canary is written, and read back, at the physical page that `probe_va`
-- translates to.
unfoldable pub selftest_map : Vmm → Outcome Vmm
unfolding map_page translate unmap Pmm.alloc Pmm.free
selftest_map s =
    let (q, p) = Pmm.alloc s.pmm in
    map_page (record s { pmm = q }) probe_va p probe_flags >>= λ s1. elim (translate s1 probe_va) [
      | none ↦ panic
      | some back ↦
          let s2 = write_word s1 back 0 canary in
          if not (back == p)
          then panic
          else if not (s2.words back 0 == canary)
          then panic
          else (unmap s2 probe_va >>= λ s3. Pmm.free s3.pmm p >>= λ r. ok (record s3 { pmm = r }))
    ]

-- `bytes[i] = (u8)i; h2sum += bytes[i];`
abbrev pub fill_byte : ℕ → ℕ → Memory × ℕ → Memory × ℕ
fill_byte h2 i (m, sum) = let m' = store m (h2 + i) (i % 256) in (m', sum + m' (h2 + i))

-- the text "heap works", with its NUL
abbrev pub heap_works : List ℕ
heap_works = b'h' ∷ b'e' ∷ b'a' ∷ b'p' ∷ b' ' ∷ b'w' ∷ b'o' ∷ b'r' ∷ b'k' ∷ b's' ∷ 0 ∷ []

unfoldable pub put_text : Memory → ℕ → List ℕ → Memory
put_text m a [] = m
put_text m a (c ∷ cs) = put_text (store m a c) (a + 1) cs

-- The two blocks of the heap. `kmalloc` that would call itself a second time does not return.
unfoldable pub selftest_heap : Heap Vmm → Memory → Outcome (Option (Heap Vmm × Memory))
unfolding kmalloc kfree put_text for_range
selftest_heap h m = kmalloc kernel_pages 100 h >>= λ first. elim first [
  | none ↦ ok none
  | some (h1, a) ↦ kmalloc kernel_pages 4096 a >>= λ second. elim second [
    | none ↦ ok none
    | some (h2, b) ↦
        let (m', sum) = for_range (fill_byte h2) 4096 0 (put_text m h1 heap_works, 0) in
        if (h1 == 0) || (h2 == 0)
        then panic
        else if not (sum == 522240)
        then panic
        else (kfree kernel_pages h1 b >>= λ c. kfree kernel_pages h2 c >>= λ d. ok (some (d, m')))
  ]
]

unfoldable pub selftest_memory : Heap Vmm → Memory → Outcome (Option (Heap Vmm × Memory))
unfolding selftest_pages selftest_map selftest_heap
selftest_memory h m = selftest_pages h.pages.pmm >>= λ p.
    selftest_map (record h.pages { pmm = p }) >>= λ s. selftest_heap (record h { pages = s }) m
