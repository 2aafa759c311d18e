-- ===== src/Examples/Startup.antt =====
-- Runs of core/kmain.c and drivers/virtio_blk.c: a memory of 128 pages, of which the first two are in
-- use, and a disk on the bus whose queue has 256 entries.
use uix.Base.{
  ℕ, zero, suc, ◌+◌, ◌<◌, ◌≤◌, ◌≡◌, ◌⊎◌, refl, false, none, some, [], ◌∷◌, ok, panic, arith,
  if◌then◌else◌, ◌==◌,
}
use uix.Base.Words.{test_bit}
use uix.Pmm.{Pmm, is_free, free_pages}
use uix.Pmm.Bitmap.{count_free}
use uix.Pmm.Valid.{IsValid}
use uix.Boot.{selftest_pages}
use uix.Boot.Pages.{selftest_pages_lem}
use uix.Io.{Io}
use uix.Serial.{serial_putc, serial_putc_lem, looked, empty_bit}
use uix.Pci.{Pci, PciDev}
use uix.Virtio.Setup.{virtio_blk_init}
use uix.Virtio.Ready.{SetUp, virtio_blk_init-SetUp}

abbrev memory_128 : Pmm
memory_128 = record {
  bitmap = 0xFFFFFFFFFFFFFFFC ∷ 0xFFFFFFFFFFFFFFFF ∷ [];
  bitmap_len = 128;
  total_pages = 128;
  free_count = 126;
  next_free_scan = 0;
  refcounts = none;
}

memory_128-IsValid : IsValid memory_128
unfolding count_free is_free test_bit
memory_128-IsValid = record {
  covered = omega arith;
  small = omega arith;
  cursor = omega arith;
  counted = refl;
}

page_0_used : is_free memory_128.bitmap 0 ≡ false
unfolding is_free test_bit
page_0_used = refl

selftest_pages_lem_example :
    ((free_pages memory_128 < 64) × (selftest_pages memory_128 ≡ panic))
    ⊎ ((64 ≤ free_pages memory_128)
        × (q : Pmm) × (selftest_pages memory_128 ≡ ok q)
        × IsValid q
        × ((j : ℕ) → is_free q.bitmap j ≡ is_free memory_128.bitmap j)
        × (free_pages q ≡ free_pages memory_128))
selftest_pages_lem_example = selftest_pages_lem memory_128 memory_128-IsValid page_0_used

-- The hardware answers 256 to every read of 16 bits and 2048 to every other; its state counts the
-- instructions.
abbrev answers : Io ℕ
answers = record {
  outb = λ s port v. s + 1;
  inb = λ s port. (s + 1, 2048);
  outw = λ s port v. s + 1;
  inw = λ s port. (s + 1, 256);
  outl = λ s port v. s + 1;
  inl = λ s port. (s + 1, 2048);
}

abbrev disk_device : PciDev
disk_device = record {
  vendor = 0x1af4;
  device = 0x1001;
  bus = 0;
  dev = 3;
  fn = 0;
  class_ = 1;
  subclass = 0;
  prog_if = 0;
  irq = 11;
  bars = λ i. if i == 0 then 0xC000 else 0;
  bar_types = λ i. 0;
}

abbrev bus : Pci
bus = record { found = λ i. disk_device; found_count = 1 }

virtio_blk_init-SetUp_example :
    let r = virtio_blk_init answers 0 bus memory_128 in SetUp memory_128 r.1 r.2
virtio_blk_init-SetUp_example =
    virtio_blk_init-SetUp answers 0 bus memory_128 memory_128-IsValid page_0_used

-- a transmitter that is empty at the fourth instruction and later
abbrev slow_port : Io ℕ
slow_port = record answers { inb = λ s port. (s + 1, if s == 3 then 0x60 else 0) }

serial_putc_lem_example : serial_putc slow_port 10 1 (b'A' + 256) ≡ some 5
unfolding looked
serial_putc_lem_example =
    serial_putc_lem slow_port 2 10 1 (b'A' + 256) refl (λ k lt. early k lt) (omega arith)
  where
    early : (k : ℕ) → k < 2 → empty_bit slow_port k 1 ≡ 0
    early zero lt = refl
    early (suc zero) lt = refl
    early (suc (suc k)) lt = absurd (omega arith)
