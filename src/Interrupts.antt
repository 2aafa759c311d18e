-- ===== src/Interrupts.antt =====
-- core/cpu/idt.c: the descriptor tables and the dispatch of interrupts. Loading the tables into the
-- processor is left out, and so are the log lines before a panic. The addresses of the entry stubs
-- and of the stacks belong to the assembly; they are arguments.
pub mod Gates
pub mod Dispatch
use uix.Base.{
  ℕ, ◌+◌, ◌-◌, ◌*◌, ◌/◌, ◌%◌, ◌^◌, Bool, true, false, ltb, ◌==◌, if◌then◌else◌, Outcome, ok, panic,
  ◌>>=◌,
}
use uix.Keyboard
use uix.Sched.{Next, tick}
use uix.Vmm.{Vmm, page_fault}
use uix.Syscall.{System, Frame, Reply, returns, leaves, Programs, dispatch}

-- IST_DF
abbrev pub ist_df : ℕ
ist_df = 0

abbrev pub tss_size : ℕ
tss_size = 104

-- The two words of the descriptor of the TSS at `base`; no two fields have a bit in common.
unfoldable pub tss_low : ℕ → ℕ
tss_low base =
    (tss_size - 1) % 2 ^ 16
    + base % 256 * 2 ^ 16
    + base / 2 ^ 8 % 256 * 2 ^ 24
    + base / 2 ^ 16 % 256 * 2 ^ 32
    + 0x89 * 2 ^ 40
    + base / 2 ^ 24 % 256 * 2 ^ 56

unfoldable pub tss_high : ℕ → ℕ
tss_high base = base / 2 ^ 32

-- the array `gdt` as `gdt_init` leaves it
unfoldable pub gdt_init : ℕ → ℕ → ℕ
unfolding tss_low tss_high
gdt_init base i =
    if i == 1
    then 2 ^ 47 + 2 ^ 44 + 2 ^ 43 + 2 ^ 41 + 2 ^ 53
    else if i == 2
    then 2 ^ 47 + 2 ^ 44 + 2 ^ 41
    else if i == 3
    then 2 ^ 47 + 2 ^ 46 + 2 ^ 45 + 2 ^ 44 + 2 ^ 43 + 2 ^ 41 + 2 ^ 53
    else if i == 4
    then 2 ^ 47 + 2 ^ 46 + 2 ^ 45 + 2 ^ 44 + 2 ^ 41
    else if i == 5
    then tss_low base
    else if i == 6
    then tss_high base
    else 0

-- an entry of `idt`
pub record Gate : Type 0 where
  pub off_lo : ℕ
  pub sel : ℕ
  pub ist : ℕ
  pub flags : ℕ
  pub off_mid : ℕ
  pub off_hi : ℕ

abbrev pub Gates : Type 0
Gates = ℕ → Gate

-- what the loop of `idt_init` writes for the stub at `addr`
unfoldable pub gate_to : ℕ → Gate
gate_to addr = record {
  off_lo = addr % 2 ^ 16;
  sel = 0x08;
  ist = 0;
  flags = 0x8E;
  off_mid = addr / 2 ^ 16 % 2 ^ 16;
  off_hi = addr / 2 ^ 32 % 2 ^ 32;
}

-- `idt_init`, for the table of the stubs
unfoldable pub idt_init : (ℕ → ℕ) → Gates
unfolding gate_to
idt_init stubs i =
    let gate = gate_to (stubs i) in if i == 8 then record gate { ist = ist_df + 1 } else gate

unfoldable pub idt_gate_set_dpl3 : Gates → ℕ → Gates
idt_gate_set_dpl3 idt vec i = if i == vec then record (idt i) { flags = 0xEE } else idt i

-- `syscall_init` of core/cpu/syscall.c
unfoldable pub syscall_init : Gates → Gates
unfolding idt_gate_set_dpl3
syscall_init idt = idt_gate_set_dpl3 idt 128

-- `jiffies` of core/cpu/apic.c, and how often `apic_eoi` has been called
pub record Machine : Type 0 where
  pub system : System
  pub vmm : Vmm
  pub jiffies : ℕ
  pub eois : ℕ

-- An interrupt: its number and error code, the registers, the faulting address, and the scan code
-- that the port of the keyboard would give.
pub record Trap : Type 0 where
  pub int_no : ℕ
  pub err : ℕ
  pub frame : Frame
  pub cr2 : ℕ
  pub scan_code : ℕ

unfoldable pub apic_eoi : Machine → Machine
apic_eoi m = record m { eois = m.eois + 1 }

-- `apic_timer_tick` up to the arming of the timer
unfoldable pub apic_timer_tick : Machine → Machine
apic_timer_tick m = record m { jiffies = (m.jiffies + 1) % 2 ^ 64 }

-- the branch of `isr_dispatch` for exceptions
unfoldable pub exception : Machine → Trap → Outcome (Machine × Reply)
unfolding page_fault
exception m t =
    if t.int_no == 14
    then (page_fault m.vmm t.cr2 t.err >>= λ r.
        if r.1 then ok (record m { vmm = r.0 }, returns t.frame.rax) else panic)
    else panic

-- An interrupted task goes on with its registers when `schedule` gives the processor back to it.
abbrev pub after_tick : Trap → Next → Reply
after_tick t next = elim next [ Next.stays ↦ returns t.frame.rax | other ↦ leaves other ]

unfoldable pub timer : Machine → Trap → Machine × Reply
unfolding apic_eoi apic_timer_tick tick
timer m t =
    let m' = apic_timer_tick (apic_eoi m) in
    let (k, next) = tick m'.system.kernel in
    (record m' { system = record m'.system { kernel = k } }, after_tick t next)

unfoldable pub keyboard : Machine → Trap → Machine × Reply
unfolding apic_eoi Keyboard.irq
keyboard m t =
    let s = m.system in
    (
      apic_eoi (record m { system = record s { keyboard = Keyboard.irq s.keyboard t.scan_code } }),
      returns t.frame.rax,
    )

-- The call of `apic_eoi` at the end is not reached while the caller is switched away.
unfoldable pub after_syscall : Machine → Reply → Machine × Reply
unfolding apic_eoi
after_syscall m (returns v) = (apic_eoi m, returns v)
after_syscall m (leaves next) = (m, leaves next)

unfoldable pub syscall : Programs → Machine → Trap → Machine × Reply
unfolding dispatch after_syscall
syscall p m t =
    let (s, reply) = dispatch p m.system t.frame in after_syscall (record m { system = s }) reply

unfoldable pub isr_dispatch : Programs → Machine → Trap → Outcome (Machine × Reply)
unfolding exception timer keyboard syscall apic_eoi
isr_dispatch p m t =
    if ltb t.int_no 32
    then exception m t
    else if t.int_no == 32
    then ok (timer m t)
    else if t.int_no == 33
    then ok (keyboard m t)
    else if t.int_no == 128
    then ok (syscall p m t)
    else ok (apic_eoi m, returns t.frame.rax)
