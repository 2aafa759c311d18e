-- ===== src/Virtio/Setup.antt =====
-- `virtio_blk_init` of drivers/virtio_blk.c, over the ports of the device.
use Prim.Native.Nat.{bit_or}
use uix.Base.{ℕ, ◌+◌, ◌*◌, ◌/◌, ◌%◌, ◌^◌, Option, none, some, ltb, ◌==◌, ◌||◌, if◌then◌else◌}
use uix.Pmm
use uix.Pmm.{Pmm}
use uix.Io.{Io, ports_of}
use uix.Pci.{PciDev, Pci, pci_find_by_id, pci_enable_bus_master}
use uix.Virtio.{Driver}

abbrev pub vio_guest : ℕ
vio_guest = 0x04

abbrev pub vio_qaddr : ℕ
vio_qaddr = 0x08

abbrev pub vio_qnum : ℕ
vio_qnum = 0x0C

abbrev pub vio_qsel : ℕ
vio_qsel = 0x0E

abbrev pub vio_status : ℕ
vio_status = 0x12

abbrev pub virtio_ack : ℕ
virtio_ack = 0x01

abbrev pub virtio_driver : ℕ
virtio_driver = 0x02

abbrev pub virtio_driver_ok : ℕ
virtio_driver_ok = 0x04

abbrev pub virtio_failed : ℕ
virtio_failed = 0x80

-- the static variables once the set-up has succeeded; `virtio_blk_sectors` returns `capacity_sectors`
pub record Disk : Type 0 where
  pub io_base : ℕ
  pub driver : Driver
  pub capacity_sectors : ℕ

module _ {S : Type 0} (io : Io S) where
  -- the address of a port is a u16
  unfoldable pub vio_out : S → ℕ → ℕ → ℕ → ℕ → S
  vio_out s io_base off v width =
      let port = (io_base + off) % 2 ^ 16 in
      if width == 4
      then io.outl s port v
      else if width == 2
      then io.outw s port (v % 2 ^ 16)
      else io.outb s port (v % 2 ^ 8)

  unfoldable pub vio_in : S → ℕ → ℕ → ℕ → S × ℕ
  vio_in s io_base off width =
      let port = (io_base + off) % 2 ^ 16 in
      if width == 4 then io.inl s port else if width == 2 then io.inw s port else io.inb s port

  unfoldable pub set_status : S → ℕ → ℕ → S
  unfolding vio_out
  set_status s io_base st = vio_out s io_base vio_status (st % 2 ^ 8) 1

  -- the reset, the first two status bits and the features, and then the size of queue 0
  unfoldable pub negotiate : S → ℕ → S × ℕ
  unfolding vio_out vio_in set_status
  negotiate s io_base =
      let s1 = set_status s io_base 0 in
      let s2 = set_status s1 io_base virtio_ack in
      let s3 = set_status s2 io_base (virtio_ack + virtio_driver) in
      let s4 = vio_out s3 io_base vio_guest 0 4 in
      let s5 = vio_out s4 io_base vio_qsel 0 2 in
      let (s6, q) = vio_in s5 io_base vio_qnum 2 in (s6, q % 2 ^ 16)

  -- the device is told where queue 0 is, and asked for its capacity
  unfoldable pub announce : S → ℕ → ℕ → S × ℕ
  unfolding vio_out set_status
  announce s io_base ring_pa =
      let s1 = vio_out s io_base vio_qsel 0 2 in
      let s2 = vio_out s1 io_base vio_qaddr (ring_pa / 4096 % 2 ^ 32) 4 in
      let s3 = set_status s2 io_base (virtio_ack + virtio_driver + virtio_driver_ok) in
      let (s4, low) = io.inl s3 ((io_base + 0x14) % 2 ^ 16) in
      let (s5, high) = io.inl s4 ((io_base + 0x18) % 2 ^ 16) in
      (s5, bit_or (low % 2 ^ 32) (high % 2 ^ 32 * 2 ^ 32))

  -- the queue goes to the pages that `pmm_alloc_pages` gives
  unfoldable pub place_queue : S → ℕ → ℕ → Pmm × ℕ → S × Pmm × Option Disk
  unfolding announce
  place_queue s io_base qsize (p, ring_pa) =
      let (s', capacity) = announce s io_base ring_pa in
      if ring_pa == 0 then (s, p, none) else (
        s',
        p,
        some (record {
          io_base = io_base;
          driver = record { qsize = qsize; ring_pa = ring_pa };
          capacity_sectors = capacity;
        }),
      )

  -- what `virtio_blk_init` does with the device that it has found
  unfoldable pub set_up : S → Pmm → PciDev → S × Pmm × Option Disk
  unfolding negotiate set_status pci_enable_bus_master Pmm.alloc_pages place_queue
  set_up s p dev =
      let io_base = dev.bars 0 % 2 ^ 16 in
      let (s', qsize) = negotiate (pci_enable_bus_master (ports_of io) s dev) io_base in
      if (qsize == 0) || ltb 256 qsize
      then (set_status s' io_base virtio_failed, p, none)
      else place_queue s' io_base qsize (Pmm.alloc_pages p 4)

  -- the device, if there is one and it can be set up; otherwise -1
  unfoldable pub virtio_blk_init : S → Pci → Pmm → S × Pmm × Option Disk
  unfolding set_up pci_find_by_id
  virtio_blk_init s k p = elim (pci_find_by_id k 0x1af4 0x1001) [
    | none ↦ (s, p, none)
    | some dev ↦ set_up s p dev
  ]
