-- ===== src/Pci/Found.antt =====
-- What `pci_scan` of drivers/pci.c writes into its table, and what the searches give back.
use uix.Base.{
  ℕ, zero, suc, ◌+◌, ◌<◌, ◌≤◌, ◌≡◌, ◌≢◌, refl, sym, ◌∙◌, ap, true, false, inl, inr, ◌⊎◌, Bool, none,
  some, ltb, leb, ◌==◌, if◌then◌else◌, arith, Bool-cases, for_range_inv, ==→eq, ==→ne,
}
use uix.Base.Words.{test_bit}
use uix.Pci.{
  Ports, Pci, PciDev, probe_bar, probe_bars, read_device, probe, scan_device, pci_scan, pci_read16,
  pci_read32, fill, put_device, add_device, find_from, pci_find_by_id, pci_find_by_class, has_class,
  has_id,
}

-- A device of bus 0 that answers, with the class byte that `probe` gives it.
pub record IsDevice (d : PciDev) : Type 0 where
  pub answers : d.vendor ≢ 0xFFFF
  pub on_bus : d.bus ≡ 0
  pub dev_small : d.dev < 32
  pub fn_small : d.fn < 8
  pub one_class : d.class_ ≡ d.subclass

pub record IsTable (k : Pci) : Type 0 where
  pub few : k.found_count ≤ 32
  pub all : (i : ℕ) → i < k.found_count → IsDevice (k.found i)

fill-IsDevice :
    (old : PciDev) (vendor device dev fn cl irq : ℕ)
    → vendor ≢ 0xFFFF
    → dev < 32
    → fn < 8
    → IsDevice (fill old vendor device 0 dev fn cl irq)
unfolding fill
fill-IsDevice old vendor device dev fn cl irq h hd hf = record {
  answers = h;
  on_bus = refl;
  dev_small = hd;
  fn_small = hf;
  one_class = omega arith;
}

put_device-IsTable :
    {k : Pci} {d : PciDev} → k.found_count < 32 → IsTable k → IsDevice d → IsTable (put_device k d)
unfolding put_device
put_device-IsTable {k} {d} room v w = record {
  few = omega arith;
  all = λ i hi. elim (Bool-cases (k.found_count == i)) [
    | inl e ↦ rw e w
    | inr e ↦ rw e (v.all i (ground arith))
  ];
}

module _ {S : Type 0} (p : Ports S) where
  probe_bars-IsDevice :
      (fuel : ℕ) (s : S) (d : PciDev) (b : ℕ) → IsDevice d → IsDevice (probe_bars p fuel s d b).1
  unfolding probe_bars probe_bar
  probe_bars-IsDevice zero s d b v = v
  probe_bars-IsDevice (suc fuel) s d b v =
      let (s', d', b') = probe_bar p s d b in
      let v' : IsDevice d' = record {
        answers = v.answers;
        on_bus = v.on_bus;
        dev_small = v.dev_small;
        fn_small = v.fn_small;
        one_class = v.one_class;
      } in
      elim (Bool-cases (ltb b 6)) [
        | inl e ↦ rw e (probe_bars-IsDevice fuel s' d' b' v')
        | inr e ↦ rw e v
      ]

  read_device-IsDevice :
      (s : S) (old : PciDev) (vendor dev fn : ℕ)
      → vendor ≢ 0xFFFF
      → dev < 32
      → fn < 8
      → IsDevice (read_device p s old vendor 0 dev fn).1
  unfolding read_device
  read_device-IsDevice s old vendor dev fn h hd hf =
      let (s1, device) = pci_read16 p s 0 dev fn 2 in
      let (s2, cl) = pci_read32 p s1 0 dev fn 8 in
      let (s3, irq) = pci_read16 p s2 0 dev fn 0x3C in
      probe_bars-IsDevice 6 s3 (fill old vendor device 0 dev fn cl irq) 0
        (fill-IsDevice old vendor device dev fn cl irq h hd hf)

  add_device-IsTable :
      (vendor dev fn : ℕ) (t : S × Pci)
      → vendor ≢ 0xFFFF
      → dev < 32
      → fn < 8
      → t.1.found_count < 32
      → IsTable t.1
      → IsTable (add_device p vendor 0 dev fn t).1
  unfolding add_device
  add_device-IsTable vendor dev fn (s, k) h hd hf room v =
      put_device-IsTable room v
        (read_device-IsDevice s (k.found k.found_count) vendor dev fn h hd hf)

  probe-IsTable :
      (dev fn : ℕ) (t : S × Pci) → dev < 32 → fn < 8 → IsTable t.1 → IsTable (probe p 0 dev fn t).1
  unfolding probe
  probe-IsTable dev fn (s, k) hd hf v =
      let (s1, vendor) = pci_read16 p s 0 dev fn 0 in
      elim (Bool-cases (vendor == 0xFFFF)) [
        | inl e ↦ rw e v
        | inr e ↦ elim (Bool-cases (leb 32 k.found_count)) [
          | inl e' ↦ rw (e, e') v
          | inr e' ↦
              rw (e, e')
                (add_device-IsTable vendor dev fn (s1, k) (==→ne vendor 0xFFFF e) hd hf
                  (ground arith) v)
        ]
      ]

  scan_device-IsTable :
      (dev : ℕ) (t : S × Pci) → dev < 32 → IsTable t.1 → IsTable (scan_device p dev t).1
  unfolding scan_device
  scan_device-IsTable dev (s, k) hd v =
      let (s1, vendor) = pci_read16 p s 0 dev 0 0 in
      let (s2, k') = probe p 0 dev 0 (s1, k) in
      let (s3, hdr) = pci_read16 p s2 0 dev 0 14 in
      let v' : IsTable k' = probe-IsTable dev 0 (s1, k) hd (omega arith) v in
      elim (Bool-cases (vendor == 0xFFFF)) [
        | inl e ↦ rw e v
        | inr e ↦ elim (Bool-cases (test_bit hdr 7)) [
          | inr e' ↦ rw (e, e') v'
          | inl e' ↦
              rw (e, e')
                (for_range_inv (λ (t : S × Pci). IsTable t.1) (probe p 0 dev) 7 1 (s3, k')
                  (λ fn t lo hi w. probe-IsTable dev fn t hd (omega arith) w) v')
        ]
      ]

  -- Whatever the hardware answers, `pci_scan` leaves at most 32 entries, each of a device on bus 0
  -- that has answered; its class and its subclass are the same byte.
  pub pci_scan-IsTable : (s : S) (k : Pci) → IsTable (pci_scan p s k).1
  unfolding pci_scan
  pci_scan-IsTable s k =
      for_range_inv (λ (t : S × Pci). IsTable t.1) (scan_device p) 32 0
        (s, record k { found_count = 0 }) (λ dev t lo hi w. scan_device-IsTable dev t hi w)
        (record { few = omega arith; all = λ i hi. absurd (omega arith) })

-- A test that fails at `i` and from there on fails from `i` on.
false_from :
    (g : ℕ → Bool) (i m : ℕ)
    → g i ≡ false
    → ((j : ℕ) → suc i ≤ j → j < m → g j ≡ false)
    → (j : ℕ) → i ≤ j
    → j < m
    → g j ≡ false
false_from g i m here later j lo hi = elim (Bool-cases (i == j)) [
  | inl e ↦ rw (sym (==→eq i j e)) here
  | inr e ↦ later j (ground arith) hi
]

-- A search gives back the first entry that passes its test, and `none` only if no entry does.
pub find_from_lem :
    (test : PciDev → Bool) (k : Pci) (n i : ℕ)
    → ((find_from test k n i ≡ none) × ((j : ℕ) → i ≤ j → j < i + n → test (k.found j) ≡ false))
      ⊎ ((j : ℕ) × (find_from test k n i ≡ some (k.found j))
          × (i ≤ j)
          × (j < i + n)
          × (test (k.found j) ≡ true)
          × ((l : ℕ) → i ≤ l → l < j → test (k.found l) ≡ false))
unfolding find_from
find_from_lem test k zero i = inl (refl, λ j lo hi. absurd (omega arith))
find_from_lem test k (suc n) i = elim (Bool-cases (test (k.found i))) [
  | inl e ↦ inr (
    i,
    ap (λ b. if b then some (k.found i) else find_from test k n (suc i)) e,
    omega arith,
    omega arith,
    e,
    λ l lo hi. absurd (omega arith),
  )
  | inr e ↦
      let g : ℕ → Bool = λ j. test (k.found j) in
      let skip : find_from test k (suc n) i ≡ find_from test k n (suc i) =
        ap (λ b. if b then some (k.found i) else find_from test k n (suc i)) e in
      elim (find_from_lem test k n (suc i)) [
        | inl (gone, none_later) ↦
            inl (skip ∙ gone, λ j lo hi. false_from g i (suc i + n) e none_later j lo (omega arith))
        | inr (j, hit, lo, hi, passes, first) ↦
            inr (j, skip ∙ hit, omega arith, omega arith, passes, false_from g i j e first)
      ]
]

-- A device found by its ids is the first of the table with these ids; none is found only if no
-- entry of the table has them.
pub pci_find_by_id_lem :
    (k : Pci) (vendor device : ℕ)
    → ((pci_find_by_id k vendor device ≡ none)
        × ((j : ℕ) → j < k.found_count → has_id vendor device (k.found j) ≡ false))
      ⊎ ((j : ℕ) × (pci_find_by_id k vendor device ≡ some (k.found j))
          × (j < k.found_count)
          × (has_id vendor device (k.found j) ≡ true)
          × ((l : ℕ) → l < j → has_id vendor device (k.found l) ≡ false))
unfolding pci_find_by_id
pci_find_by_id_lem k vendor device = elim (find_from_lem (has_id vendor device) k k.found_count 0) [
  | inl (gone, others) ↦ inl (gone, λ j hi. others j (omega arith) (omega arith))
  | inr (j, hit, lo, hi, passes, first) ↦
      inr (j, hit, omega arith, passes, λ l hi'. first l (omega arith) hi')
]

-- Whatever the hardware answers, after a scan no device is found by a class and a subclass that
-- differ, since `probe` gives every device its class byte as both.
pub pci_find_by_class_never :
    {S : Type 0} (p : Ports S) (s : S) (k : Pci) (class_ subclass : ℕ)
    → class_ ≢ subclass
    → pci_find_by_class (pci_scan p s k).1 class_ subclass ≡ none
unfolding pci_find_by_class
pci_find_by_class_never p s k class_ subclass apart =
    let t : Pci = (pci_scan p s k).1 in
    let v : IsTable t = pci_scan-IsTable p s k in
    elim (find_from_lem (has_class class_ subclass) t t.found_count 0) [
      | inl (gone, others) ↦ gone
      | inr (j, hit, lo, hi, passes, first) ↦
          let same = (v.all j (omega arith)).one_class in absurd (ground arith)
    ]
