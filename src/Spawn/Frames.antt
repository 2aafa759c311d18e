-- ===== src/Spawn/Frames.antt =====
-- `switch_to` of arch/x86_64/switch.S takes apart what the C code has built.
use uix.Base.{
  ℕ, ◌+◌, ◌-◌, ◌*◌, ◌/◌, ◌%◌, ◌^◌, ◌≤◌, ◌<◌, ◌≡◌, refl, ◌∙◌, false, [], ◌∷◌, ◌==◌, arith, ne→==,
  ==_self, ap,
}
use uix.Spawn.{
  Words, push_all, stack_top, kstack_size, task_stack, user_stack, exec_stack, Regs, switch_to,
  user_enter,
}

-- the registers that a frame of seven words gives, the first word pushed being the last one popped
abbrev pub popped : ℕ → ℕ → ℕ → ℕ → ℕ → ℕ → ℕ → ℕ → Regs
popped rip rbp rbx r12 r13 r14 r15 rsp = record {
  r15 = r15;
  r14 = r14;
  r13 = r13;
  r12 = r12;
  rbx = rbx;
  rbp = rbp;
  rip = rip;
  rsp = rsp;
}

-- Where the stack has room for the frame, the pops are the inverse of the pushes.
pub switch_to-push_all :
    (w : Words) (sp rip rbp rbx r12 r13 r14 r15 : ℕ)
    → 56 ≤ sp
    → sp < 2 ^ 64
    → switch_to
        (push_all (record { words = w; sp = sp }) (rip ∷ rbp ∷ rbx ∷ r12 ∷ r13 ∷ r14 ∷ r15 ∷ []))
      ≡ popped rip rbp rbx r12 r13 r14 r15 sp
unfolding switch_to push_all
switch_to-push_all w sp rip rbp rbx r12 r13 r14 r15 lo hi =
    let apart : (i j : ℕ) → j < i → i ≤ 56 → (sp - i == sp - j) ≡ false =
      λ i j lt le. ne→== (sp - i) (sp - j) (λ e. omega arith) in
    let a1 : (sp + 2 ^ 64 - 8) % 2 ^ 64 ≡ sp - 8 = omega arith in
    let a2 : (sp - 8 + 2 ^ 64 - 8) % 2 ^ 64 ≡ sp - 16 = omega arith in
    let a3 : (sp - 16 + 2 ^ 64 - 8) % 2 ^ 64 ≡ sp - 24 = omega arith in
    let a4 : (sp - 24 + 2 ^ 64 - 8) % 2 ^ 64 ≡ sp - 32 = omega arith in
    let a5 : (sp - 32 + 2 ^ 64 - 8) % 2 ^ 64 ≡ sp - 40 = omega arith in
    let a6 : (sp - 40 + 2 ^ 64 - 8) % 2 ^ 64 ≡ sp - 48 = omega arith in
    let a7 : (sp - 48 + 2 ^ 64 - 8) % 2 ^ 64 ≡ sp - 56 = omega arith in
    let b1 : (sp - 56 + 8) % 2 ^ 64 ≡ sp - 48 = omega arith in
    let b2 : (sp - 56 + 16) % 2 ^ 64 ≡ sp - 40 = omega arith in
    let b3 : (sp - 56 + 24) % 2 ^ 64 ≡ sp - 32 = omega arith in
    let b4 : (sp - 56 + 32) % 2 ^ 64 ≡ sp - 24 = omega arith in
    let b5 : (sp - 56 + 40) % 2 ^ 64 ≡ sp - 16 = omega arith in
    let b6 : (sp - 56 + 48) % 2 ^ 64 ≡ sp - 8 = omega arith in
    let b7 : (sp - 56 + 56) % 2 ^ 64 ≡ sp = omega arith in
    rw (a1, a2, a3, a4, a5, a6, a7, b1, b2, b3, b4, b5, b6, b7)
      (rw
        (
          apart 56 48 (omega arith) (omega arith),
          apart 56 40 (omega arith) (omega arith),
          apart 48 40 (omega arith) (omega arith),
          apart 56 32 (omega arith) (omega arith),
          apart 48 32 (omega arith) (omega arith),
          apart 40 32 (omega arith) (omega arith),
          apart 56 24 (omega arith) (omega arith),
          apart 48 24 (omega arith) (omega arith),
          apart 40 24 (omega arith) (omega arith),
          apart 32 24 (omega arith) (omega arith),
          apart 56 16 (omega arith) (omega arith),
          apart 48 16 (omega arith) (omega arith),
          apart 40 16 (omega arith) (omega arith),
          apart 32 16 (omega arith) (omega arith),
          apart 24 16 (omega arith) (omega arith),
          apart 56 8 (omega arith) (omega arith),
          apart 48 8 (omega arith) (omega arith),
          apart 40 8 (omega arith) (omega arith),
          apart 32 8 (omega arith) (omega arith),
          apart 24 8 (omega arith) (omega arith),
          apart 16 8 (omega arith) (omega arith),
          ==_self (sp - 56),
          ==_self (sp - 48),
          ==_self (sp - 40),
          ==_self (sp - 32),
          ==_self (sp - 24),
          ==_self (sp - 16),
          ==_self (sp - 8),
        )
        refl)

-- the top of a stack, which is aligned
abbrev pub aligned_top : ℕ → ℕ
aligned_top kstack = (kstack + kstack_size) / 16 * 16

pub top_of_stack :
    (w : Words) (kstack : ℕ)
    → kstack + kstack_size < 2 ^ 64
    → stack_top w kstack kstack_size ≡ record { words = w; sp = aligned_top kstack }
top_of_stack w kstack room =
    let e : (kstack + kstack_size) % 2 ^ 64 / 16 * 16 ≡ (kstack + kstack_size) / 16 * 16 =
      omega arith in
    ap (λ sp. record { words = w; sp = sp }) e

-- A kernel task that `task_create` has made starts in its trampoline, with its function in r12 and
-- the argument in r13. A user task starts in user mode at the first byte of its code, with
-- interrupts on and its stack below USER_STACK_TOP; after `execve`, it starts at the entry point with
-- the stack that was built for it. All three leave an empty kernel stack behind.
pub switch_to-stacks :
    (w : Words) (kstack trampoline fn arg entry user_rsp : ℕ)
    → kstack + kstack_size < 2 ^ 64
    → let task = switch_to (task_stack w kstack trampoline fn arg) in
      let user = switch_to (user_stack w kstack trampoline) in
      let exec = switch_to (exec_stack w kstack trampoline entry user_rsp) in
      (task ≡ popped trampoline 0 0 fn arg 0 0 (aligned_top kstack))
      × (user.rip ≡ trampoline)
      × (user_enter user ≡ 0x400000 ∷ 0x1B ∷ 0x202 ∷ 0x7FFFF0 ∷ 0x23 ∷ [])
      × (user.rsp ≡ aligned_top kstack)
      × (exec.rip ≡ trampoline)
      × (user_enter exec ≡ entry ∷ 0x1B ∷ 0x202 ∷ user_rsp ∷ 0x23 ∷ [])
      × (exec.rsp ≡ aligned_top kstack)
unfolding task_stack user_stack exec_stack user_enter
switch_to-stacks w kstack trampoline fn arg entry user_rsp room =
    let top = top_of_stack w kstack room in
    let frame = λ (r12 r13 r14 : ℕ). trampoline ∷ 0 ∷ 0 ∷ r12 ∷ r13 ∷ r14 ∷ 0 ∷ [] in
    let pops = λ (r12 r13 r14 : ℕ).
      ap (λ s. switch_to (push_all s (frame r12 r13 r14))) top
      ∙ switch_to-push_all w (aligned_top kstack) trampoline 0 0 r12 r13 r14 0 (omega arith)
          (omega arith) in
    let user = pops 0x400000 0x7FFFF0 0x202 in
    let exec = pops entry user_rsp 0x202 in
    (
      pops fn arg 0,
      ap Regs.rip user,
      ap user_enter user,
      ap Regs.rsp user,
      ap Regs.rip exec,
      ap user_enter exec,
      ap Regs.rsp exec,
    )
