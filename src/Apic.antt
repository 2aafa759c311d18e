-- ===== src/Apic.antt =====
-- core/cpu/apic.c: the local APIC, the I/O APIC and the timer. What the instructions and the mapped
-- registers do is up to the hardware: a `Cpu S` gives it on the state `S`. A loop that waits for the
-- timer takes fuel; `panic` is an outcome. Log lines are left out.
use uix.Base.{
  ℕ, ◌+◌, ◌-◌, ◌*◌, ◌/◌, ◌%◌, ◌^◌, Bool, Option, none, some, ltb, if◌then◌else◌, Outcome, ok, panic,
}
use uix.Base.Words.{test_bit, set_bit, clear_bit}
use uix.Io.{Io}
use uix.Io.Polling.{poll_until}

pub record Cpu (S : Type 0) : Type 0 where
  pub io : Io S
  pub rdtsc : S → S × ℕ
  -- the low half of a model-specific register, and a write of one
  pub rdmsr : S → ℕ → S × ℕ
  pub wrmsr : S → ℕ → ℕ → S
  -- the ECX of `cpuid` with EAX = 1
  pub cpuid : S → S × ℕ
  -- 32 bits at an address that is mapped to a device
  pub read32 : S → ℕ → S × ℕ
  pub write32 : S → ℕ → ℕ → S

-- the static variables; `hhdm` is that of `boot_info`
pub record Apic : Type 0 where
  pub lapic : ℕ
  pub hhdm : ℕ
  pub tsc_hz : ℕ
  pub use_tsc_deadline : Bool
  pub apic_timer_hz : ℕ
  pub jiffies : ℕ

abbrev pub lapic_eoi : ℕ
lapic_eoi = 0x0B0

abbrev pub lapic_svr : ℕ
lapic_svr = 0x0F0

abbrev pub lapic_timer_lvt : ℕ
lapic_timer_lvt = 0x320

abbrev pub lapic_timer_icr : ℕ
lapic_timer_icr = 0x380

abbrev pub lapic_timer_ccr : ℕ
lapic_timer_ccr = 0x390

abbrev pub lapic_timer_dcr : ℕ
lapic_timer_dcr = 0x3E0

abbrev pub msr_tsc_deadline : ℕ
msr_tsc_deadline = 0x660

abbrev pub ioapic_base : ℕ
ioapic_base = 0xFEC00000

abbrev pub irq_base : ℕ
irq_base = 32

abbrev pub irq_keyboard : ℕ
irq_keyboard = 1

-- 59659 periods of the PIT are 50 ms.
abbrev pub reload : ℕ
reload = 59659

-- `inb(0x61) & 0x20`
abbrev pub gate_done : ℕ → Bool
gate_done v = test_bit v 5

module _ {S : Type 0} (cpu : Cpu S) where
  open cpu use {io, rdtsc, rdmsr, wrmsr, cpuid, read32, write32}

  unfoldable pub lapic_read : Apic → S → ℕ → S × ℕ
  lapic_read a s reg = let (s', v) = read32 s ((a.lapic + reg) % 2 ^ 64) in (s', v % 2 ^ 32)

  unfoldable pub lapic_write : Apic → S → ℕ → ℕ → S
  lapic_write a s reg val = write32 s ((a.lapic + reg) % 2 ^ 64) val

  unfoldable pub apic_eoi : Apic → S → S
  unfolding lapic_write
  apic_eoi a s = lapic_write a s lapic_eoi 0

  -- a register of the I/O APIC, through its select register and its window
  unfoldable pub ioapic_write : Apic → S → ℕ → ℕ → S
  ioapic_write a s reg v =
      let base = (a.hhdm + ioapic_base) % 2 ^ 64 in
      write32 (write32 s base reg) ((base + 0x10) % 2 ^ 64) v

  unfoldable pub ioapic_set_isa : Apic → S → ℕ → ℕ → S
  unfolding ioapic_write
  ioapic_set_isa a s isa_irq vec =
      let s' = ioapic_write a s (0x10 + isa_irq * 2) vec in ioapic_write a s' (0x11 + isa_irq * 2) 0

  -- channel 2 of the PIT is started for one shot of 50 ms
  unfoldable pub start_gate : S → S
  unfolding set_bit clear_bit
  start_gate s =
      let (s1, v) = io.inb s 0x61 in
      let s2 = io.outb s1 0x61 (set_bit (clear_bit v 1) 0) in
      let s3 = io.outb s2 0x43 0xB0 in
      let s4 = io.outb s3 0x42 (reload % 256) in io.outb s4 0x42 (reload / 256 % 256)

  abbrev pub gate : S → S × ℕ
  gate s = io.inb s 0x61

  -- `while (!(inb(0x61) & 0x20));`
  unfoldable pub wait_gate : ℕ → S → Option S
  unfolding poll_until
  wait_gate fuel s = poll_until gate gate_done fuel s

  unfoldable pub calibrate_tsc : ℕ → S → Option (S × ℕ)
  unfolding start_gate wait_gate
  calibrate_tsc fuel s =
      let (s1, t0) = rdtsc (start_gate s) in
      elim (wait_gate fuel s1) [
        | none ↦ none
        | some s2 ↦ let (s3, t1) = rdtsc s2 in some (s3, (t1 + 2 ^ 64 - t0) * 20 % 2 ^ 64)
      ]

  unfoldable pub arm_timer : Apic → S → S
  arm_timer a s =
      let (s', now) = rdtsc s in
      if a.use_tsc_deadline then wrmsr s' msr_tsc_deadline ((now + a.tsc_hz / 100) % 2 ^ 64) else s

  unfoldable pub cpu_has_tsc_deadline : S → S × Bool
  unfolding test_bit
  cpu_has_tsc_deadline s = let (s', ecx) = cpuid s in (s', test_bit ecx 24)

  -- The counter counts down from 0xFFFFFFFF.
  unfoldable pub calibrate_lapic : ℕ → Apic → S → Option (S × ℕ)
  unfolding start_gate wait_gate lapic_read lapic_write
  calibrate_lapic fuel a s =
      let s1 = lapic_write a (start_gate s) lapic_timer_dcr 0x1 in
      let s2 = lapic_write a s1 lapic_timer_lvt (2 ^ 16 + 0x20) in
      let s3 = lapic_write a s2 lapic_timer_icr 0xFFFFFFFF in
      let (s4, first) = lapic_read a s3 lapic_timer_ccr in
      elim (wait_gate fuel s4) [
        | none ↦ none
        | some s5 ↦
            let (s6, last) = lapic_read a s5 lapic_timer_ccr in
            let start = 0xFFFFFFFF - first in
            let end = 0xFFFFFFFF - last in some (s6, (end + 2 ^ 64 - start) * 20 % 2 ^ 64)
      ]

  -- `apic_init` up to the choice of the timer: the PICs are off, the APIC is on, and IRQ 1 has vector 33
  unfoldable pub enable_apic : Apic → S → S × Apic
  unfolding lapic_write ioapic_set_isa cpu_has_tsc_deadline
  enable_apic a s =
      let s1 = io.outb (io.outb s 0x21 0xFF) 0xA1 0xFF in
      let (s2, base) = rdmsr s1 0x1B in
      let b : Apic = record a { lapic = (a.hhdm + base / 4096 * 4096) % 2 ^ 64 } in
      let s3 = lapic_write b s2 lapic_svr (0x100 + 0xFF) in
      let s4 = ioapic_set_isa b s3 irq_keyboard (irq_base + irq_keyboard) in
      let (s5, deadline) = cpu_has_tsc_deadline s4 in (s5, record b { use_tsc_deadline = deadline })

  -- the timer that is armed again at each tick
  unfoldable pub start_deadline : Apic → S × ℕ → Outcome (S × Apic)
  unfolding arm_timer lapic_write
  start_deadline a (s, hz) =
      let b : Apic = record a { tsc_hz = hz; apic_timer_hz = hz } in
      if ltb hz 1000000
      then panic
      else ok (arm_timer b (lapic_write b s lapic_timer_lvt (irq_base + 2 ^ 18)), b)

  -- the timer that counts down again and again
  unfoldable pub start_periodic : Apic → S × ℕ → Outcome (S × Apic)
  unfolding lapic_write
  start_periodic a (s, hz) =
      let b : Apic = record a { apic_timer_hz = hz } in
      let s1 = lapic_write b s lapic_timer_dcr 0x1 in
      let s2 = lapic_write b s1 lapic_timer_lvt (irq_base + 2 ^ 17) in
      if ltb hz 100000 then panic else ok (lapic_write b s2 lapic_timer_icr (hz / 100 % 2 ^ 32), b)

  unfoldable pub apic_init : ℕ → Apic → S → Option (Outcome (S × Apic))
  unfolding enable_apic calibrate_tsc calibrate_lapic start_deadline start_periodic
  apic_init fuel a s =
      let (s', b) = enable_apic a s in
      if b.use_tsc_deadline
      then elim (calibrate_tsc fuel s') [ none ↦ none | some r ↦ some (start_deadline b r) ]
      else elim (calibrate_lapic fuel b s') [ none ↦ none | some r ↦ some (start_periodic b r) ]

  unfoldable pub apic_timer_tick : Apic → S → S × Apic
  unfolding arm_timer
  apic_timer_tick a s =
      let b : Apic = record a { jiffies = (a.jiffies + 1) % 2 ^ 64 } in (arm_timer b s, b)
