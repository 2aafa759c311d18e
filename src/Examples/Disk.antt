-- ===== src/Examples/Disk.antt =====
-- Runs of drivers/virtio_blk.c with two devices: one that is done at the second look of the driver, and
-- one that is done before the first.
use uix.Base.{ℕ, ◌+◌, ◌%◌, ◌^◌, ◌≤◌, ◌≡◌, refl, arith, ltb, if◌then◌else◌}
use uix.Virtio.{Ring, Driver, done, timeout, prepared, virtio_blk_read, max_spins}
use uix.Virtio.Requests.{virtio_blk_read_lem, virtio_blk_read_late}

abbrev finished : Ring → Ring
finished r = record r { used_idx = (r.used_idx + 1) % 2 ^ 16; status = 0; buf = λ i. 42 }

abbrev slow_device : Ring → ℕ → Ring
slow_device r t = if ltb t 2 then r else finished r

abbrev quick_device : Ring → ℕ → Ring
quick_device r t = finished r

abbrev driver : Driver
driver = record { qsize = 256; ring_pa = 0x100000 }

abbrev empty_ring : Ring
empty_ring = record {
  desc = λ i. record { addr = 0; len = 0; flags = 0; next = 0 };
  avail_idx = 0;
  avail_ring = λ i. 0;
  used_idx = 0;
  hdr_type = 0;
  hdr_sector = 0;
  status = 0;
  buf = λ i. 0;
}

two_looks : 2 ≤ max_spins + 1
unfolding max_spins
two_looks = omega arith

virtio_blk_read_lem_example :
    virtio_blk_read slow_device driver 5 (λ i. 0) empty_ring ≡ done (λ i. 42)
unfolding prepared
virtio_blk_read_lem_example =
    virtio_blk_read_lem slow_device driver 5 (λ i. 0) empty_ring 2 (omega arith) two_looks
      (λ j lo hi. ground arith) (λ e. omega arith) refl

virtio_blk_read_late_example : virtio_blk_read quick_device driver 5 (λ i. 0) empty_ring ≡ timeout
unfolding prepared
virtio_blk_read_late_example =
    virtio_blk_read_late quick_device driver 5 (λ i. 0) empty_ring (λ t. refl)
