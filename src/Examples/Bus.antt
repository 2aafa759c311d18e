-- ===== src/Examples/Bus.antt =====
-- Runs of drivers/pci.c on a bus with one device, a virtio disk in slot 3.
use uix.Base.{
  ℕ, ◌≡◌, refl, ◌∙◌, ◌==◌, if◌then◌else◌, ltb, arith, Bool-cases, inl, inr, some, none, for_range,
  ap, ==→eq, ◌&&◌,
}
use uix.Pci.{
  Ports, Pci, PciDev, put_field, pci_scan, pci_find_by_id, pci_find_by_class, scan_device, probe,
  add_device, read_device, probe_bars, probe_bar, fill, put_device, bar_size, pci_read16,
  pci_read32, pci_write32, address,
}
use uix.Base.Words.{test_bit}
use uix.Pci.Registers.{IsSpace, half_word}
use uix.Pci.Complete.{pci_scan-pci_find_by_id}
use uix.Pci.Found.{pci_find_by_class_never}

-- the address that has been latched, and the registers
abbrev Space : Type 0
Space = ℕ × (ℕ → ℕ)

abbrev two_ports : Ports Space
two_ports = record {
  out_long = λ s port v. if port == 0xCF8 then (v, s.1) else (s.0, put_field s.1 s.0 v);
  in_long = λ s port. (s, s.1 s.0);
}

abbrev register : Space → ℕ → ℕ
register s a = s.1 a

two_ports-IsSpace : IsSpace two_ports register
two_ports-IsSpace = record {
  reads = λ s a. refl;
  keeps = λ s a b. refl;
  restores = λ s t a v same b. elim (Bool-cases (a == b)) [
    | inl e ↦ rw e (ap s.1 (==→eq a b e))
    | inr e ↦ rw e (same b ∙ rw e refl)
  ];
}

-- 0x80001800 is the first register of slot 3.
abbrev one_disk : Space
one_disk = (
  0,
  λ a.
      if a == 0x80001800
      then 0x10011AF4
      else if ltb 0x80001800 a && ltb a 0x80001900
      then 0
      else 0xFFFFFFFF,
)

abbrev no_table : Pci
no_table = record {
  found = λ i. record {
    vendor = 0;
    device = 0;
    bus = 0;
    dev = 0;
    fn = 0;
    class_ = 0;
    subclass = 0;
    prog_if = 0;
    irq = 0;
    bars = λ b. 0;
    bar_types = λ b. 0;
  };
  found_count = 0;
}

one_found : (pci_scan two_ports one_disk no_table).1.found_count ≡ 1
unfolding pci_scan scan_device probe add_device read_device probe_bars probe_bar fill put_device
    bar_size pci_read16 pci_read32 pci_write32 address for_range test_bit
one_found = refl

disk_answers : half_word register one_disk 0 3 0 0 ≡ 0x1AF4
unfolding half_word address
disk_answers = refl

pci_scan-pci_find_by_id_example :
    (d : PciDev) × (pci_find_by_id
        (pci_scan two_ports one_disk no_table).1
        (half_word register one_disk 0 3 0 0)
        (half_word register one_disk 0 3 0 2)
      ≡ some d)
    × (d.vendor ≡ half_word register one_disk 0 3 0 0)
    × (d.device ≡ half_word register one_disk 0 3 0 2)
pci_scan-pci_find_by_id_example =
    pci_scan-pci_find_by_id two_ports register two_ports-IsSpace one_disk no_table 3 (omega arith)
      (λ e. omega (arith, disk_answers)) (omega (arith, one_found))

pci_find_by_class_never_example :
    pci_find_by_class (pci_scan two_ports one_disk no_table).1 1 0 ≡ none
pci_find_by_class_never_example =
    pci_find_by_class_never two_ports one_disk no_table 1 0 (λ e. omega arith)
