-- ===== src/Examples/Traps.antt =====
-- Runs of core/cpu/idt.c in the system of three tasks.
use uix.Base.{ℕ, ◌+◌, ◌*◌, ◌≡◌, refl, none, some, arith, [], ◌∷◌, ok}
use uix.Sched.{tick, schedule}
use uix.Sched.Queue.{IsValid}
use uix.Syscall.{Programs, Reply, returns}
use uix.Spawn.{do_fork}
use uix.Interrupts.{Machine, Trap, isr_dispatch, timer, syscall, apic_eoi, apic_timer_tick}
use uix.Interrupts.Dispatch.{Steps, done, more, Provides, forks, Steps-IsValid}
use uix.Examples.Tables.{one_page}
use uix.Examples.Calls.{system}
use uix.Examples.Processes.{three_tasks-IsValid, no_stacks, fork_frame}

-- `fork` as the kernel has it, where the allocators give task 400, a stack at 0x10000 and the top
-- table 8192
abbrev fork_400 : Programs
fork_400 = record {
  do_fork = λ s fr.
      let (k, st, child) = do_fork s.kernel no_stacks 400 0x10000 8192 0x5000 fork_frame in
      (record s { kernel = k }, elim child [ none ↦ none | some t ↦ some (k.tasks t).pid ]);
  do_execve = λ s path. (s, returns 0);
}

abbrev machine : Machine
machine = record { system = system; vmm = one_page; jiffies = 0; eois = 0 }

abbrev trap : ℕ → Trap
trap n = record {
  int_no = n;
  err = 0;
  frame = record { rax = 2; rdi = 0; rsi = 0; rdx = 0 };
  cr2 = 0;
  scan_code = 30;
}

abbrev fork_trap : Trap
fork_trap = record (trap 128) { frame = record { rax = 7; rdi = 0; rsi = 0; rdx = 0 } }

after_timer : isr_dispatch fork_400 machine (trap 32) ≡ ok (timer machine (trap 32))
unfolding isr_dispatch
after_timer = refl

queue_after : (timer machine (trap 32)).0.system.kernel.runqueue ≡ 100 ∷ []
unfolding timer apic_eoi apic_timer_tick tick schedule
queue_after = refl

abbrev after_fork : Machine × Reply
after_fork = syscall fork_400 (timer machine (trap 32)).0 fork_trap

fork_handled :
    isr_dispatch fork_400 (timer machine (trap 32)).0 fork_trap ≡ ok (after_fork.0, after_fork.1)
unfolding isr_dispatch
fork_handled = refl

fork_given : Provides fork_400 (timer machine (trap 32)).0.system fork_trap.frame
unfolding timer apic_eoi apic_timer_tick tick schedule
fork_given =
    forks no_stacks 400 0x10000 8192 0x5000 fork_frame refl (omega arith) refl refl refl refl

timer_then_fork : Steps fork_400 machine after_fork.0
timer_then_fork =
    more (trap 32) (timer machine (trap 32)).1 200 [] refl (λ c. absurd (omega arith)) after_timer
      (more fork_trap after_fork.1 100 [] queue_after (λ c. fork_given) fork_handled done)

Steps-IsValid_example : IsValid after_fork.0.system.kernel
Steps-IsValid_example = Steps-IsValid fork_400 three_tasks-IsValid timer_then_fork

-- stubs of 16 bytes in the upper half of the address space
abbrev stubs : ℕ → ℕ
stubs i = 0xFFFFFFFF80001000 + i * 16
