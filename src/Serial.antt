-- ===== src/Serial.antt =====
-- drivers/serial.c: the first serial port, over the port instructions.
use uix.Base.{
  ℕ, zero, suc, ◌+◌, ◌/◌, ◌%◌, ◌∙◌, refl, ◌==◌, ◌^◌, ◌<◌, ◌≡◌, ap, Bool, false, Option, none, some,
  arith,
}
use uix.Base.Words.{test_bit}
use uix.Io.{Io}
use uix.Io.Polling.{poll_until, after, answer, poll_until_lem}

abbrev pub com1 : ℕ
com1 = 0x3F8

abbrev pub reg_data : ℕ
reg_data = 0

abbrev pub reg_ier : ℕ
reg_ier = 1

abbrev pub reg_fcr : ℕ
reg_fcr = 2

abbrev pub reg_lcr : ℕ
reg_lcr = 3

abbrev pub reg_mcr : ℕ
reg_mcr = 4

abbrev pub reg_lsr : ℕ
reg_lsr = 5

-- `v & LSR_THRE`
abbrev pub can_send : ℕ → Bool
can_send v = test_bit v 5

fifth_bit : (v : ℕ) → test_bit v 5 ≡ (v / 32 % 2 == 1)
unfolding test_bit
fifth_bit v = let e : v / 2 / 2 / 2 / 2 / 2 ≡ v / 32 = omega arith in ap (λ w. w % 2 == 1) e

module _ {S : Type 0} (io : Io S) where
  unfoldable pub serial_init : S → S
  serial_init s =
      let s1 = io.outb s (com1 + reg_ier) 0x00 in
      let s2 = io.outb s1 (com1 + reg_lcr) 0x80 in
      let s3 = io.outb s2 (com1 + reg_data) 0x01 in
      let s4 = io.outb s3 (com1 + reg_ier) 0x00 in
      let s5 = io.outb s4 (com1 + reg_lcr) 0x03 in
      let s6 = io.outb s5 (com1 + reg_fcr) 0xC7 in io.outb s6 (com1 + reg_mcr) 0x0B

  abbrev pub line_status : S → S × ℕ
  line_status s = io.inb s (com1 + reg_lsr)

  -- The loop ends when the transmitter is empty.
  unfoldable pub serial_putc : ℕ → S → ℕ → Option S
  unfolding poll_until
  serial_putc fuel s c = elim (poll_until line_status can_send fuel s) [
    | none ↦ none
    | some s' ↦ some (io.outb s' (com1 + reg_data) (c % 2 ^ 8))
  ]

  -- the hardware after `n` reads of the line status register, at port 0x3FD
  unfoldable pub looked : ℕ → S → S
  looked zero s = s
  looked (suc n) s = looked n (io.inb s 0x3FD).0

  -- bit 5 of what look `n` gives, from 0 on: the transmitter is empty
  abbrev pub empty_bit : ℕ → S → ℕ
  empty_bit n s = (io.inb (looked n s) 0x3FD).1 / 32 % 2

  looked-after : (n : ℕ) (s : S) → after line_status can_send n s ≡ looked n s
  unfolding after looked
  looked-after zero s = refl
  looked-after (suc n) s = looked-after n (io.inb s 0x3FD).0

  empty-can_send :
      (n : ℕ) (s : S) → can_send (answer line_status can_send n s) ≡ (empty_bit n s == 1)
  empty-can_send n s = ap (λ t. can_send (io.inb t 0x3FD).1) (looked-after n s) ∙ fifth_bit _

  -- If bit 5 of the line status, at port 0x3FD, is first set at look `n`, `serial_putc` returns, given
  -- fuel for that many looks: it has read the line status `n + 1` times, and has then written the
  -- low byte of the character to port 0x3F8, once.
  pub serial_putc_lem :
      (n fuel : ℕ) (s : S) (c : ℕ)
      → empty_bit n s ≡ 1
      → ((k : ℕ) → k < n → empty_bit k s ≡ 0)
      → n < fuel
      → serial_putc fuel s c ≡ some (io.outb (looked (suc n) s) 0x3F8 (c % 256))
  unfolding serial_putc
  serial_putc_lem n fuel s c empty busy enough =
      let passes = empty-can_send n s ∙ ap (λ b. b == 1) empty in
      let fails : (k : ℕ) → k < n → can_send (answer line_status can_send k s) ≡ false =
        λ k lt. empty-can_send k s ∙ ap (λ b. b == 1) (busy k lt) in
      let e =
        poll_until_lem line_status can_send n fuel s passes fails enough
        ∙ ap some (looked-after (suc n) s) in
      ap (λ o. elim o [ none ↦ none | some s' ↦ some (io.outb s' 0x3F8 (c % 256)) ]) e
