-- ===== src/Virtio/Ready.antt =====
-- What `virtio_blk_init` of drivers/virtio_blk.c leaves.
use uix.Base.{
  ℕ, ◌+◌, ◌-◌, ◌*◌, ◌%◌, ◌^◌, ◌<◌, ◌≤◌, ◌≡◌, refl, ◌∙◌, ap, true, false, inl, inr, ◌⊎◌, Option,
  none, some, ltb, ◌==◌, ◌||◌, arith, Bool-cases, Option-cases, ne→==,
}
use uix.Pmm
use uix.Pmm.{Pmm, take_run, is_free}
use uix.Pmm.Valid.{IsValid}
use uix.Pmm.AllocPages.{AllFree, alloc_pages-PagesResult}
use uix.Io.{Io, ports_of}
use uix.Pci.{PciDev, Pci, pci_find_by_id, pci_enable_bus_master}
use uix.Virtio.{Driver, avail_off, used_off, hdr_off, st_off}
use uix.Virtio.Requests.{ring_layout}
use uix.Virtio.Setup.{Disk, negotiate, announce, place_queue, set_up, virtio_blk_init}

-- A queue of a size that the driver handles, in four pages from page `first` on: the available ring behind
-- the descriptors, the used ring on a page of its own, the sector buffer in the fourth page, and behind
-- it the header and the status byte, which lie in that page.
pub record Laid (d : Driver) (first : ℕ) : Type 0 where
  pub at : d.ring_pa ≡ first * 4096
  pub some_entries : 0 < d.qsize
  pub few_entries : d.qsize ≤ 256
  pub avail : 16 * d.qsize ≤ avail_off d.qsize
  pub used : avail_off d.qsize + 6 + 2 * d.qsize ≤ used_off d.qsize
  pub used_page : used_off d.qsize % 4096 ≡ 0
  pub buffer : used_off d.qsize + 6 + 8 * d.qsize ≤ 3 * 4096
  pub header : 3 * 4096 + 512 ≤ hdr_off
  pub status : hdr_off + 16 ≤ st_off
  pub inside : st_off < 4 * 4096

-- Nothing has changed, or the four pages were free and have been taken for the rings.
abbrev pub SetUp : Pmm → Pmm → Option Disk → Type 0
SetUp p p' r =
    ((r ≡ none) × (p' ≡ p))
    ⊎ ((d : Disk) × (first : ℕ) × (r ≡ some d)
        × (first + 4 ≤ p.bitmap_len)
        × AllFree p.bitmap first 4
        × (p' ≡ take_run p 4 (first + 3))
        × Laid d.driver first)

module _ {S : Type 0} (io : Io S) where
  -- A run that is found is at an address that is not 0, since page 0 is in use.
  place_queue-SetUp :
      (s : S) (p : Pmm) (io_base q : ℕ)
      → IsValid p
      → is_free p.bitmap 0 ≡ false
      → 0 < q
      → q ≤ 256
      → let r = place_queue io s io_base q (Pmm.alloc_pages p 4) in SetUp p r.1 r.2
  unfolding place_queue
  place_queue-SetUp s p io_base q v page_0 lo hi =
      elim (alloc_pages-PagesResult 4 v (omega arith)) [
        | inl missing ↦
            let r = ap (place_queue io s io_base q) missing.0 in
            inl (ap (λ x. x.2) r, ap (λ x. x.1) r)
        | inr (first, le, all, e) ↦
            let taken = take_run p 4 (first + 4 - 1) in
            let some_page : (first * 4096 == 0) ≡ false = ne→== (first * 4096) 0 (λ z.
              let zeroth : first ≡ 0 = omega arith in
              let free : is_free p.bitmap 0 ≡ true =
                rw (← zeroth) (all first (omega arith) (omega arith)) in
              cc) in
            let d : Disk = record {
              io_base = io_base;
              driver = record { qsize = q; ring_pa = first * 4096 };
              capacity_sectors = (announce io s io_base (first * 4096)).1;
            } in
            let r : place_queue io s io_base q (Pmm.alloc_pages p 4)
                ≡ ((announce io s io_base (first * 4096)).0, taken, some d) =
              ap (place_queue io s io_base q) e ∙ rw some_page refl in
            let (avail, used, page, buffer) = ring_layout q lo hi in
            inr (
              d,
              first,
              ap (λ x. x.2) r,
              le,
              all,
              ap (λ x. x.1) r ∙ ap (take_run p 4) (omega arith),
              record {
                at = refl;
                some_entries = lo;
                few_entries = hi;
                avail = avail;
                used = used;
                used_page = page;
                buffer = buffer;
                header = omega arith;
                status = omega arith;
                inside = omega arith;
              },
            )
      ]

  set_up-SetUp :
      (s : S) (p : Pmm) (dev : PciDev)
      → IsValid p
      → is_free p.bitmap 0 ≡ false
      → SetUp p (set_up io s p dev).1 (set_up io s p dev).2
  unfolding set_up
  set_up-SetUp s p dev v page_0 =
      let io_base = dev.bars 0 % 2 ^ 16 in
      let n = negotiate io (pci_enable_bus_master (ports_of io) s dev) io_base in
      elim (Bool-cases ((n.1 == 0) || ltb 256 n.1)) [
        | inl bad ↦ rw bad (inl (refl, refl))
        | inr good ↦
            rw good (place_queue-SetUp n.0 p io_base n.1 v page_0 (ground arith) (ground arith))
      ]

  -- In a valid state in which page 0 is in use, whatever the device answers, `virtio_blk_init` fails and
  -- takes no page, or it takes four pages that were free and lays the queue out in them: the queue
  -- has at least one and at most 256 entries, and the descriptors, the available ring, the used
  -- ring, the sector buffer, the header and the status byte follow one another without meeting.
  pub virtio_blk_init-SetUp :
      (s : S) (k : Pci) (p : Pmm)
      → IsValid p
      → is_free p.bitmap 0 ≡ false
      → let r = virtio_blk_init io s k p in SetUp p r.1 r.2
  unfolding virtio_blk_init
  virtio_blk_init-SetUp s k p v page_0 = elim (Option-cases (pci_find_by_id k 0x1af4 0x1001)) [
    | inl missing ↦ rw (virtio_blk_init, missing) (inl (refl, refl))
    | inr (dev, found) ↦ rw (virtio_blk_init, found) (set_up-SetUp s p dev v page_0)
  ]
