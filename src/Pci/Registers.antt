-- ===== src/Pci/Registers.antt =====
-- What the reads of drivers/pci.c do over a configuration space of registers: all of them keep what
-- they hold, past `bar_size` too.
use uix.Base.{
  ℕ, zero, suc, ◌+◌, ◌*◌, ◌/◌, ◌%◌, ◌^◌, ◌≡◌, refl, sym, ◌∙◌, ap, inl, inr, ltb, ◌==◌,
  if◌then◌else◌, Bool-cases,
}
use uix.Pci.{
  Ports, PciDev, probe_bar, probe_bars, pci_read16, pci_read32, pci_write32, address, bar_size,
  is_wide, high_word,
}

-- The documented behaviour of the two ports: `get s a` is the register at address `a`. A read gives
-- it and changes none; a register that is overwritten and then given its old value back holds it.
pub record IsSpace {S : Type 0} (p : Ports S) (get : S → ℕ → ℕ) : Type 0 where
  pub reads : (s : S) (a : ℕ) → (p.in_long (p.out_long s 0xCF8 a) 0xCFC).1 ≡ get s a
  pub keeps : (s : S) (a b : ℕ) → get (p.in_long (p.out_long s 0xCF8 a) 0xCFC).0 b ≡ get s b
  pub restores :
      (s t : S) (a v : ℕ)
      → ((b : ℕ) → get t b ≡ get (p.out_long (p.out_long s 0xCF8 a) 0xCFC v) b)
      → (b : ℕ) → get (p.out_long (p.out_long t 0xCF8 a) 0xCFC (get s a)) b ≡ get s b

-- the registers of `s` and `t` hold the same
pub record Same {S : Type 0} (get : S → ℕ → ℕ) (s t : S) : Type 0 where
  pub held : (a : ℕ) → get t a ≡ get s a

pub Same-refl : {S : Type 0} {get : S → ℕ → ℕ} (s : S) → Same get s s
Same-refl s = record { held = λ a. refl }

pub Same-trans :
    {S : Type 0} {get : S → ℕ → ℕ} {s t u : S} → Same get s t → Same get t u → Same get s u
Same-trans e e' = record { held = λ a. e'.held a ∙ e.held a }

-- the half word of a device at an offset
unfoldable pub half_word : {S : Type 0} → (S → ℕ → ℕ) → S → ℕ → ℕ → ℕ → ℕ → ℕ
half_word get s bus dev fn off =
    let w = get s (address bus dev fn (off / 4 * 4)) in
    (if off / 2 % 2 == 1 then w / 2 ^ 16 else w) % 2 ^ 16

pub half_word-Same :
    {S : Type 0} {get : S → ℕ → ℕ} {s t : S} (bus dev fn off : ℕ)
    → Same get s t
    → half_word get t bus dev fn off ≡ half_word get s bus dev fn off
unfolding half_word
half_word-Same bus dev fn off e =
    ap (λ w. (if off / 2 % 2 == 1 then w / 2 ^ 16 else w) % 2 ^ 16)
      (e.held (address bus dev fn (off / 4 * 4)))

module _ {S : Type 0} (p : Ports S) (get : S → ℕ → ℕ) (v : IsSpace p get) where
  pub pci_read32-Same : (s : S) (bus dev fn off : ℕ) → Same get s (pci_read32 p s bus dev fn off).0
  unfolding pci_read32
  pci_read32-Same s bus dev fn off = record { held = v.keeps s (address bus dev fn off) }

  pci_read32-get :
      (s : S) (bus dev fn off : ℕ)
      → (pci_read32 p s bus dev fn off).1 ≡ get s (address bus dev fn off)
  unfolding pci_read32
  pci_read32-get s bus dev fn off = v.reads s (address bus dev fn off)

  pub pci_read16-Same : (s : S) (bus dev fn off : ℕ) → Same get s (pci_read16 p s bus dev fn off).0
  unfolding pci_read16
  pci_read16-Same s bus dev fn off = pci_read32-Same s bus dev fn (off / 4 * 4)

  pub pci_read16-get :
      (s : S) (bus dev fn off : ℕ)
      → (pci_read16 p s bus dev fn off).1 ≡ half_word get s bus dev fn off
  unfolding pci_read16 half_word
  pci_read16-get s bus dev fn off =
      ap (λ w. (if off / 2 % 2 == 1 then w / 2 ^ 16 else w) % 2 ^ 16)
        (pci_read32-get s bus dev fn (off / 4 * 4))

  pub bar_size-Same : (s : S) (bus dev fn bar : ℕ) → Same get s (bar_size p s bus dev fn bar).0
  unfolding bar_size pci_write32
  bar_size-Same s bus dev fn bar =
      let off = (0x10 + bar * 4) % 256 in
      let a = address bus dev fn off in
      let s1 = (pci_read32 p s bus dev fn off).0 in
      let first = pci_read32-Same s bus dev fn off in
      let ones = pci_write32 p s1 bus dev fn off 0xFFFFFFFF in
      let s2 = (pci_read32 p ones bus dev fn off).0 in
      let second = pci_read32-Same ones bus dev fn off in
      let orig : (pci_read32 p s bus dev fn off).1 ≡ get s1 a =
        pci_read32-get s bus dev fn off ∙ sym (first.held a) in
      record { held = λ b. rw orig (v.restores s1 s2 a 0xFFFFFFFF second.held b ∙ first.held b) }

  high_word-Same : (s : S) (d : PciDev) (bar b : ℕ) → Same get s (high_word p s d bar b).0
  high_word-Same s d bar b = elim (Bool-cases (bar % 2 == 1)) [
    | inl e ↦ rw e (Same-refl s)
    | inr e ↦ elim (Bool-cases (is_wide p bar b)) [
      | inl e' ↦ rw (e, e') (pci_read32-Same s d.bus d.dev d.fn (0x10 + (b + 1) * 4))
      | inr e' ↦ rw (e, e') (Same-refl s)
    ]
  ]

  probe_bar-Same : (s : S) (d : PciDev) (b : ℕ) → Same get s (probe_bar p s d b).0
  unfolding probe_bar
  probe_bar-Same s d b =
      let (s1, bar) = pci_read32 p s d.bus d.dev d.fn (0x10 + b * 4) in
      Same-trans (pci_read32-Same s d.bus d.dev d.fn (0x10 + b * 4)) (high_word-Same s1 d bar b)

  -- The loop over the base addresses keeps the registers, and the ids of the entry.
  pub probe_bars_lem :
      (fuel : ℕ) (s : S) (d : PciDev) (b : ℕ)
      → Same get s (probe_bars p fuel s d b).0
        × ((probe_bars p fuel s d b).1.vendor ≡ d.vendor)
        × ((probe_bars p fuel s d b).1.device ≡ d.device)
  unfolding probe_bars
  probe_bars_lem zero s d b = (Same-refl s, refl, refl)
  probe_bars_lem (suc fuel) s d b =
      let (s', d', b') = probe_bar p s d b in
      let (same, vendor, device) = probe_bars_lem fuel s' d' b' in
      elim (Bool-cases (ltb b 6)) [
        | inl e ↦ rw e (Same-trans (probe_bar-Same s d b) same, vendor, device)
        | inr e ↦ rw e (Same-refl s, refl, refl)
      ]
