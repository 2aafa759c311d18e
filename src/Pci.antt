-- ===== src/Pci.antt =====
-- drivers/pci.c: the enumeration of the bus. The two ports of the configuration space belong to the
-- hardware: a `Ports S` gives what `outl` and `inl` do on its state `S`. The log line of `probe` is
-- left out, but not `bar_size`, which it calls.
pub mod Registers
pub mod Found
pub mod Complete
use uix.Base.{
  ℕ, zero, suc, ◌+◌, ◌-◌, ◌*◌, ◌/◌, ◌%◌, ◌^◌, Bool, Option, none, some, ltb, leb, ◌==◌, ◌&&◌,
  if◌then◌else◌, for_range,
}
use uix.Base.Words.{test_bit}

pub record Ports (S : Type 0) : Type 0 where
  pub out_long : S → ℕ → ℕ → S
  pub in_long : S → ℕ → S × ℕ

-- `struct pci_dev`; `bars` and `bar_types` are arrays of 6
pub record PciDev : Type 0 where
  pub vendor : ℕ
  pub device : ℕ
  pub bus : ℕ
  pub dev : ℕ
  pub fn : ℕ
  pub class_ : ℕ
  pub subclass : ℕ
  pub prog_if : ℕ
  pub irq : ℕ
  pub bars : ℕ → ℕ
  pub bar_types : ℕ → ℕ

pub record Pci : Type 0 where
  pub found : ℕ → PciDev
  pub found_count : ℕ

abbrev pub max_devs : ℕ
max_devs = 32

abbrev pub pci_addr : ℕ
pci_addr = 0xCF8

abbrev pub pci_data : ℕ
pci_data = 0xCFC

-- entry `i` of an array replaced
abbrev pub put_field {ℓ} : {A : Type ℓ} → (ℕ → A) → ℕ → A → ℕ → A
put_field p i v j = if i == j then v else p j

-- The address of a register of a device. The fields do not meet: a bus has 8 bits, a device 5, a
-- function 3.
unfoldable pub address : ℕ → ℕ → ℕ → ℕ → ℕ
address bus dev fn off = 2 ^ 31 + bus * 2 ^ 16 + dev * 2 ^ 11 + fn * 2 ^ 8 + off / 4 * 4

-- the fields of an entry that `probe` sets before its loop
unfoldable pub fill : PciDev → ℕ → ℕ → ℕ → ℕ → ℕ → ℕ → ℕ → PciDev
fill old vendor device bus dev fn cl irq = record old {
  vendor = vendor;
  device = device;
  bus = bus;
  dev = dev;
  fn = fn;
  prog_if = cl / 2 ^ 16 % 256;
  subclass = cl / 2 ^ 24 % 256;
  class_ = cl / 2 ^ 16 / 2 ^ 8 % 256;
  irq = irq % 256;
}

-- `found[found_count++]`
unfoldable pub put_device : Pci → PciDev → Pci
put_device k d = record {
  found = put_field k.found k.found_count d;
  found_count = k.found_count + 1;
}

module _ {S : Type 0} (p : Ports S) where
  unfoldable pub pci_read32 : S → ℕ → ℕ → ℕ → ℕ → S × ℕ
  unfolding address
  pci_read32 s bus dev fn off = p.in_long (p.out_long s pci_addr (address bus dev fn off)) pci_data

  unfoldable pub pci_write32 : S → ℕ → ℕ → ℕ → ℕ → ℕ → S
  unfolding address
  pci_write32 s bus dev fn off v =
      p.out_long (p.out_long s pci_addr (address bus dev fn off)) pci_data v

  -- `v >> ((off & 2) * 8)` of the word that holds the half word
  unfoldable pub pci_read16 : S → ℕ → ℕ → ℕ → ℕ → S × ℕ
  unfolding pci_read32
  pci_read16 s bus dev fn off =
      let (s', v) = pci_read32 s bus dev fn (off / 4 * 4) in
      (s', (if off / 2 % 2 == 1 then v / 2 ^ 16 else v) % 2 ^ 16)

  -- `~v + 1` of a u32 is `(2 ^ 32 - v) % 2 ^ 32`.
  unfoldable pub bar_size : S → ℕ → ℕ → ℕ → ℕ → S × ℕ
  unfolding pci_read32 pci_write32
  bar_size s bus dev fn bar =
      let off = (0x10 + bar * 4) % 256 in
      let (s1, orig) = pci_read32 s bus dev fn off in
      let (s2, sz) = pci_read32 (pci_write32 s1 bus dev fn off 0xFFFFFFFF) bus dev fn off in
      let s3 = pci_write32 s2 bus dev fn off orig in
      (
        s3,
        if orig % 2 == 1
            then (2 ^ 32 - sz / 4 * 4) % 2 ^ 32 % 2 ^ 16
            else (2 ^ 32 - sz / 16 * 16) % 2 ^ 32,
      )

  -- `(bar & 6) == 4 && b < 5` past the test for an I/O port
  abbrev pub is_wide : ℕ → ℕ → Bool
  is_wide bar b = (bar / 2 % 4 == 2) && ltb b 5

  -- the high word of a 64-bit register, which is only read then
  abbrev pub high_word : S → PciDev → ℕ → ℕ → S × ℕ
  high_word s d bar b =
      if bar % 2 == 1
      then (s, 0)
      else if is_wide bar b
      then pci_read32 s d.bus d.dev d.fn (0x10 + (b + 1) * 4)
      else (s, 0)

  -- one round of the loop over the base addresses, and where the next one is
  unfoldable pub probe_bar : S → PciDev → ℕ → S × PciDev × ℕ
  unfolding pci_read32
  probe_bar s d b =
      let (s1, bar) = pci_read32 s d.bus d.dev d.fn (0x10 + b * 4) in
      let (s2, hi) = high_word s1 d bar b in
      let io = bar % 2 == 1 in
      let wide = if io then Bool.false else is_wide bar b in
      (
        s2,
        record d {
          bar_types = put_field d.bar_types b (bar % 2);
          bars = put_field d.bars b (if io then bar / 4 * 4 else hi * 2 ^ 32 + bar / 16 * 16);
        },
        if wide then b + 2 else b + 1,
      )

  -- `for (b = …; b < 6; b++)`, for at most `fuel` rounds
  unfoldable pub probe_bars : ℕ → S → PciDev → ℕ → S × PciDev
  unfolding probe_bar
  probe_bars zero s d b = (s, d)
  probe_bars (suc fuel) s d b =
      let (s', d', b') = probe_bar s d b in
      let rest = probe_bars fuel s' d' b' in if ltb b 6 then rest else (s, d)

  -- what `probe` writes to the entry `old` that it takes
  unfoldable pub read_device : S → PciDev → ℕ → ℕ → ℕ → ℕ → S × PciDev
  unfolding pci_read32 pci_read16 probe_bars fill
  read_device s old vendor bus dev fn =
      let (s1, device) = pci_read16 s bus dev fn 2 in
      let (s2, cl) = pci_read32 s1 bus dev fn 8 in
      let (s3, irq) = pci_read16 s2 bus dev fn 0x3C in
      probe_bars 6 s3 (fill old vendor device bus dev fn cl irq) 0

  -- `probe` past its guards, the read of `bar_size` for its log line included
  unfoldable pub add_device : ℕ → ℕ → ℕ → ℕ → S × Pci → S × Pci
  unfolding read_device bar_size put_device
  add_device vendor bus dev fn (s, k) =
      let (s1, d) = read_device s (k.found k.found_count) vendor bus dev fn in
      ((bar_size s1 bus dev fn 0).0, put_device k d)

  unfoldable pub probe : ℕ → ℕ → ℕ → S × Pci → S × Pci
  unfolding pci_read16 add_device
  probe bus dev fn (s, k) =
      let (s1, vendor) = pci_read16 s bus dev fn 0 in
      if vendor == 0xFFFF
      then (s1, k)
      else if leb max_devs k.found_count
      then (s1, k)
      else add_device vendor bus dev fn (s1, k)

  -- one round of the loop of `pci_scan`
  unfoldable pub scan_device : ℕ → S × Pci → S × Pci
  unfolding probe pci_read16 for_range
  scan_device dev (s, k) =
      let (s1, vendor) = pci_read16 s 0 dev 0 0 in
      let (s2, k') = probe 0 dev 0 (s1, k) in
      let (s3, hdr) = pci_read16 s2 0 dev 0 14 in
      if vendor == 0xFFFF
      then (s1, k)
      else if test_bit hdr 7
      then for_range (probe 0 dev) 7 1 (s3, k')
      else (s3, k')

  unfoldable pub pci_scan : S → Pci → S × Pci
  unfolding scan_device for_range
  pci_scan s k = for_range scan_device 32 0 (s, record k { found_count = 0 })

  unfoldable pub pci_enable_bus_master : S → PciDev → S
  unfolding pci_read32 pci_write32
  pci_enable_bus_master s d =
      let (s', cmd) = pci_read32 s d.bus d.dev d.fn 4 in
      pci_write32 s' d.bus d.dev d.fn 4 (cmd / 8 * 8 + 7)

-- the first of the entries from `i` on that passes the test, `n` of them looked at
unfoldable pub find_from : (PciDev → Bool) → Pci → ℕ → ℕ → Option PciDev
find_from test k zero i = none
find_from test k (suc n) i =
    let rest = find_from test k n (suc i) in if test (k.found i) then some (k.found i) else rest

abbrev pub has_class : ℕ → ℕ → PciDev → Bool
has_class class_ subclass d = (d.class_ == class_) && (d.subclass == subclass)

abbrev pub has_id : ℕ → ℕ → PciDev → Bool
has_id vendor device d = (d.vendor == vendor) && (d.device == device)

unfoldable pub pci_find_by_class : Pci → ℕ → ℕ → Option PciDev
unfolding find_from
pci_find_by_class k class_ subclass = find_from (has_class class_ subclass) k k.found_count 0

unfoldable pub pci_find_by_id : Pci → ℕ → ℕ → Option PciDev
unfolding find_from
pci_find_by_id k vendor device = find_from (has_id vendor device) k k.found_count 0
