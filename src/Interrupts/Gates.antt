-- ===== src/Interrupts/Gates.antt =====
-- What the processor reads back from the descriptor tables of core/cpu/idt.c.
use uix.Base.{
  ℕ, ◌+◌, ◌*◌, ◌/◌, ◌%◌, ◌^◌, ◌<◌, ◌≡◌, refl, inl, inr, ◌==◌, if◌then◌else◌, arith, Bool-cases,
}
use uix.Interrupts.{
  Gate, gate_to, idt_init, idt_gate_set_dpl3, syscall_init, gdt_init, tss_low, tss_high,
}

-- the address that a gate leads to, and the privilege from which `int` may use it
unfoldable pub handler : Gate → ℕ
handler g = g.off_lo + g.off_mid * 2 ^ 16 + g.off_hi * 2 ^ 32

unfoldable pub privilege : Gate → ℕ
privilege g = g.flags / 2 ^ 5 % 4

-- the base of the segment that a descriptor of two words describes
unfoldable pub segment_base : ℕ → ℕ → ℕ
segment_base low high =
    low / 2 ^ 16 % 2 ^ 24 + low / 2 ^ 56 % 2 ^ 8 * 2 ^ 24 + high % 2 ^ 32 * 2 ^ 32

-- After `idt_init` and `syscall_init`, the gate of each vector leads to its stub, vector 128 alone
-- may be used from user mode, and the double fault alone has a stack of its own.
pub idt-gates :
    (stubs : ℕ → ℕ) (i : ℕ)
    → stubs i < 2 ^ 64
    → let g = syscall_init (idt_init stubs) i in
      (handler g ≡ stubs i)
      × (privilege g ≡ (if i == 128 then 3 else 0))
      × (g.ist ≡ (if i == 8 then 1 else 0))
unfolding handler privilege syscall_init idt_gate_set_dpl3 idt_init gate_to
idt-gates stubs i small =
    let whole : stubs i % 2 ^ 16
          + stubs i / 2 ^ 16 % 2 ^ 16 * 2 ^ 16
          + stubs i / 2 ^ 32 % 2 ^ 32 * 2 ^ 32
        ≡ stubs i =
      omega arith in
    elim (Bool-cases (i == 128)) [
      | inl e ↦ elim (Bool-cases (i == 8)) [
        | inl e' ↦ rw (e, e') (whole, refl, refl)
        | inr e' ↦ rw (e, e') (whole, refl, refl)
      ]
      | inr e ↦ elim (Bool-cases (i == 8)) [
        | inl e' ↦ rw (e, e') (whole, refl, refl)
        | inr e' ↦ rw (e, e') (whole, refl, refl)
      ]
    ]

-- The processor finds the TSS where it is.
pub segment_base-gdt_init :
    (base : ℕ) → base < 2 ^ 64 → segment_base (gdt_init base 5) (gdt_init base 6) ≡ base
unfolding segment_base gdt_init tss_low tss_high
segment_base-gdt_init base small = omega arith
