-- ===== src/Pci/Complete.antt =====
-- The scan of drivers/pci.c misses no device that answers: over a configuration space of registers,
-- all of which keep what they hold.
use uix.Base.{
  ℕ, suc, ◌<◌, ◌≤◌, ◌≡◌, ◌≢◌, refl, sym, ◌∙◌, ap, inl, inr, some, leb, ◌==◌, arith, Bool-cases,
  for_range_inv, for_range_step, ==→eq, ne→==,
}
use uix.Base.Words.{test_bit}
use uix.Pci.{
  Ports, Pci, PciDev, read_device, probe, scan_device, pci_scan, pci_read16, pci_read32, fill,
  put_device, add_device, pci_find_by_id,
}
use uix.Pci.Registers.{
  IsSpace, Same, Same-refl, Same-trans, half_word, half_word-Same, pci_read32-Same, pci_read16-Same,
  pci_read16-get, bar_size-Same, probe_bars_lem,
}
use uix.Pci.Found.{pci_find_by_id_lem}

-- a table that has the entries of another one, and maybe more
record Extends (k k' : Pci) : Type 0 where
  longer : k.found_count ≤ k'.found_count
  kept : (j : ℕ) → j < k.found_count → k'.found j ≡ k.found j

Extends-refl : (k : Pci) → Extends k k
Extends-refl k = record { longer = omega arith; kept = λ j h. refl }

Extends-trans : {k l m : Pci} → Extends k l → Extends l m → Extends k m
Extends-trans e e' = record {
  longer = omega (arith, e.longer, e'.longer);
  kept = λ j h. e'.kept j (omega (arith, e.longer)) ∙ e.kept j h;
}

-- an entry with these ids
Lists : Pci → ℕ → ℕ → Type 0
Lists k v w = (j : ℕ) × (j < k.found_count) × ((k.found j).vendor ≡ v) × ((k.found j).device ≡ w)

Lists-Extends : {k k' : Pci} (v w : ℕ) → Extends k k' → Lists k v w → Lists k' v w
unfolding Lists
Lists-Extends v w e (j, h, hv, hw) = (
  j,
  omega (arith, e.longer),
  ap PciDev.vendor (e.kept j h) ∙ hv,
  ap PciDev.device (e.kept j h) ∙ hw,
)

put_device-Extends : (k : Pci) (d : PciDev) → Extends k (put_device k d)
unfolding put_device
put_device-Extends k d = record {
  longer = omega arith;
  kept = λ j h. rw (ne→== k.found_count j (omega arith)) refl;
}

put_device-Lists :
    (k : Pci) (d : PciDev) (v w : ℕ) → d.vendor ≡ v → d.device ≡ w → Lists (put_device k d) v w
unfolding put_device Lists
put_device-Lists k d v w hv hw = (k.found_count, omega arith, ground arith, ground arith)

module _ {S : Type 0} (p : Ports S) (get : S → ℕ → ℕ) (v : IsSpace p get) where
  -- the vendor and the device that the registers of a function say
  abbrev pub vendor_of : S → ℕ → ℕ → ℕ
  vendor_of s dev fn = half_word get s 0 dev fn 0

  abbrev pub device_of : S → ℕ → ℕ → ℕ
  device_of s dev fn = half_word get s 0 dev fn 2

  read_device_lem :
      (s : S) (old : PciDev) (vendor dev fn : ℕ)
      → Same get s (read_device p s old vendor 0 dev fn).0
        × ((read_device p s old vendor 0 dev fn).1.vendor ≡ vendor)
        × ((read_device p s old vendor 0 dev fn).1.device ≡ device_of s dev fn)
  unfolding read_device fill
  read_device_lem s old vendor dev fn =
      let (s1, device) = pci_read16 p s 0 dev fn 2 in
      let (s2, cl) = pci_read32 p s1 0 dev fn 8 in
      let (s3, irq) = pci_read16 p s2 0 dev fn 0x3C in
      let (same, hv, hd) = probe_bars_lem p get v 6 s3 (fill old vendor device 0 dev fn cl irq) 0 in
      (
        Same-trans (pci_read16-Same p get v s 0 dev fn 2) (
            Same-trans (pci_read32-Same p get v s1 0 dev fn 8)
              (Same-trans (pci_read16-Same p get v s2 0 dev fn 0x3C) same)),
        hv,
        hd ∙ pci_read16-get p get v s 0 dev fn 2,
      )

  -- what a step of the scan keeps
  record Keeps (t t' : S × Pci) : Type 0 where
    same : Same get t.0 t'.0
    extends : Extends t.1 t'.1

  Keeps-refl : (t : S × Pci) → Keeps t t
  Keeps-refl t = record { same = Same-refl t.0; extends = Extends-refl t.1 }

  Keeps-trans : {t u w : S × Pci} → Keeps t u → Keeps u w → Keeps t w
  Keeps-trans e e' = record {
    same = Same-trans e.same e'.same;
    extends = Extends-trans e.extends e'.extends;
  }

  add_device_lem :
      (vendor dev fn : ℕ) (t : S × Pci)
      → Keeps t (add_device p vendor 0 dev fn t)
        × Lists (add_device p vendor 0 dev fn t).1 vendor (device_of t.0 dev fn)
  unfolding add_device
  add_device_lem vendor dev fn (s, k) =
      let (s1, d) = read_device p s (k.found k.found_count) vendor 0 dev fn in
      let (same, hv, hd) = read_device_lem s (k.found k.found_count) vendor dev fn in
      (
        record {
          same = Same-trans same (bar_size-Same p get v s1 0 dev fn 0);
          extends = put_device-Extends k d;
        },
        put_device-Lists k d vendor (device_of s dev fn) hv hd,
      )

  -- A probe keeps the table; a function that answers is in it after, if there is room.
  probe_lem :
      (dev fn : ℕ) (t : S × Pci)
      → Keeps t (probe p 0 dev fn t)
        × (vendor_of t.0 dev fn ≢ 0xFFFF
            → t.1.found_count < 32
            → Lists (probe p 0 dev fn t).1 (vendor_of t.0 dev fn) (device_of t.0 dev fn))
  unfolding probe
  probe_lem dev fn (s, k) =
      let (s1, vendor) = pci_read16 p s 0 dev fn 0 in
      let same = pci_read16-Same p get v s 0 dev fn 0 in
      let says : vendor ≡ vendor_of s dev fn = pci_read16-get p get v s 0 dev fn 0 in
      let first : Keeps (s, k) (s1, k) = record { same = same; extends = Extends-refl k } in
      let (later, listed) = add_device_lem vendor dev fn (s1, k) in
      let device : device_of s1 dev fn ≡ device_of s dev fn = half_word-Same 0 dev fn 2 same in
      elim (Bool-cases (vendor == 0xFFFF)) [
        | inl e ↦ rw e (first, λ h room. absurd (h (sym says ∙ ==→eq vendor 0xFFFF e)))
        | inr e ↦ elim (Bool-cases (leb 32 k.found_count)) [
          | inl e' ↦ rw (e, e') (first, λ h room. absurd (ground arith))
          | inr e' ↦
              rw (e, e') (Keeps-trans first later, λ h room. rw (sym says, sym device) listed)
        ]
      ]

  -- The same for all functions of a device: function 0 is in the table after, if it answers.
  scan_device_lem :
      (dev : ℕ) (t : S × Pci)
      → Keeps t (scan_device p dev t)
        × (vendor_of t.0 dev 0 ≢ 0xFFFF
            → t.1.found_count < 32
            → Lists (scan_device p dev t).1 (vendor_of t.0 dev 0) (device_of t.0 dev 0))
  unfolding scan_device
  scan_device_lem dev (s, k) =
      let (s1, vendor) = pci_read16 p s 0 dev 0 0 in
      let (s2, k') = probe p 0 dev 0 (s1, k) in
      let (s3, hdr) = pci_read16 p s2 0 dev 0 14 in
      let same = pci_read16-Same p get v s 0 dev 0 0 in
      let says : vendor ≡ vendor_of s dev 0 = pci_read16-get p get v s 0 dev 0 0 in
      let first : Keeps (s, k) (s1, k) = record { same = same; extends = Extends-refl k } in
      let (kept, listed) = probe_lem dev 0 (s1, k) in
      let vendor_same : vendor_of s1 dev 0 ≡ vendor_of s dev 0 = half_word-Same 0 dev 0 0 same in
      let device_same : device_of s1 dev 0 ≡ device_of s dev 0 = half_word-Same 0 dev 0 2 same in
      let read_again : Keeps (s2, k') (s3, k') = record {
        same = pci_read16-Same p get v s2 0 dev 0 14;
        extends = Extends-refl k';
      } in
      let functions =
        for_range_inv (λ (t : S × Pci). Keeps (s3, k') t) (probe p 0 dev) 7 1 (s3, k')
          (λ fn t lo hi w. Keeps-trans w (probe_lem dev fn t).0) (Keeps-refl (s3, k')) in
      let there : vendor_of s dev 0 ≢ 0xFFFF
          → k.found_count < 32
          → Lists k' (vendor_of s dev 0) (device_of s dev 0) =
        λ h room.
          rw (sym vendor_same, sym device_same) (listed (λ e. h (sym vendor_same ∙ e)) room) in
      elim (Bool-cases (vendor == 0xFFFF)) [
        | inl e ↦ rw e (first, λ h room. absurd (h (sym says ∙ ==→eq vendor 0xFFFF e)))
        | inr e ↦ elim (Bool-cases (test_bit hdr 7)) [
          | inr e' ↦ rw (e, e') (Keeps-trans first (Keeps-trans kept read_again), there)
          | inl e' ↦
              rw (e, e')
                (
                  Keeps-trans first (Keeps-trans kept (Keeps-trans read_again functions)),
                  λ h room.
                      Lists-Extends (vendor_of s dev 0) (device_of s dev 0) functions.extends
                        (there h room),
                )
        ]
      ]

  -- what the scan has done before device `i`
  record Scanned (s : S) (i : ℕ) (t : S × Pci) : Type 0 where
    same : Same get s t.0
    listed :
        (dev : ℕ)
        → dev < i
        → vendor_of s dev 0 ≢ 0xFFFF
        → t.1.found_count < 32
        → Lists t.1 (vendor_of s dev 0) (device_of s dev 0)

  scan_device-Scanned :
      (s : S) (i : ℕ) (t : S × Pci) → Scanned s i t → Scanned s (suc i) (scan_device p i t)
  scan_device-Scanned s i t w =
      let (kept, here) = scan_device_lem i t in
      record {
        same = Same-trans w.same kept.same;
        listed = λ dev hd answers room.
            let before : t.1.found_count < 32 = omega (arith, kept.extends.longer) in
            elim (Bool-cases (i == dev)) [
              | inl e ↦
                  let eq : i ≡ dev = ==→eq i dev e in
                  let vendor : vendor_of t.0 i 0 ≡ vendor_of s dev 0 =
                    half_word-Same 0 i 0 0 w.same ∙ ap (λ d. vendor_of s d 0) eq in
                  let device : device_of t.0 i 0 ≡ device_of s dev 0 =
                    half_word-Same 0 i 0 2 w.same ∙ ap (λ d. device_of s d 0) eq in
                  rw (sym vendor, sym device) (here (λ e'. answers (sym vendor ∙ e')) before)
              | inr e ↦
                  Lists-Extends (vendor_of s dev 0) (device_of s dev 0) kept.extends
                    (w.listed dev (ground arith) answers before)
            ];
      }

  pci_scan-Scanned : (s : S) (k : Pci) → Scanned s 32 (pci_scan p s k)
  unfolding pci_scan
  pci_scan-Scanned s k =
      for_range_step (Scanned s) (scan_device p) 32 0 (s, record k { found_count = 0 })
        (λ i t lo hi w. scan_device-Scanned s i t w)
        (record { same = Same-refl s; listed = λ dev hd answers room. absurd (omega arith) })

  -- Over a configuration space of registers, a device whose function 0 answers is found by its ids
  -- after a scan that has not filled the table.
  pub pci_scan-pci_find_by_id :
      (s : S) (k : Pci) (dev : ℕ)
      → dev < 32
      → vendor_of s dev 0 ≢ 0xFFFF
      → (pci_scan p s k).1.found_count < 32
      → (d : PciDev) × (pci_find_by_id (pci_scan p s k).1 (vendor_of s dev 0) (device_of s dev 0)
          ≡ some d)
        × (d.vendor ≡ vendor_of s dev 0)
        × (d.device ≡ device_of s dev 0)
  unfolding Lists
  pci_scan-pci_find_by_id s k dev hd answers room =
      let t = (pci_scan p s k).1 in
      let vendor = vendor_of s dev 0 in
      let device = device_of s dev 0 in
      let (j, hj, hv, hw) = (pci_scan-Scanned s k).listed dev hd answers room in
      elim (pci_find_by_id_lem t vendor device) [
        | inl (gone, others) ↦ let fails = others j hj in absurd (ground arith)
        | inr (l, hit, lt, passes, first) ↦ (t.found l, hit, ground arith, ground arith)
      ]
