-- ===== src/Interrupts/Dispatch.antt =====
-- Runs of `isr_dispatch` of core/cpu/idt.c: the invariant of the scheduler, and the end of interrupts.
use mathlib.Core.Path.{subst}
use uix.Base.{
  ℕ, ◌+◌, ◌≡◌, ◌≢◌, ◌≤◌, refl, false, inl, inr, List, ◌∷◌, ltb, ◌==◌, arith, Bool-cases, Outcome,
  ok, sequence_returns, if_both, if_case, ne→==, ==→eq, ◌<◌, ◌^◌, length, sym,
}
use uix.Sched.Queue.{has, IsValid}
use uix.Sched.Leaving.{tick-IsValid}
use uix.Spawn.{Stacks, kstack_size, do_fork}
use uix.Spawn.Child.{do_fork-IsValid}
use uix.Exec.{World, Env, Executed, do_execve}
use uix.Exec.Scheduled.{do_execve-IsValid}
use uix.Syscall.{System, Frame, Programs, Reply, returns, leaves, dispatch}
use uix.Syscall.Kept.{KeepsValid, dispatch-IsValid}
use uix.Vmm.{page_fault}
use uix.Interrupts.{
  Machine, Trap, isr_dispatch, exception, timer, keyboard, syscall, after_syscall, apic_eoi,
  apic_timer_tick,
}

-- What the dispatcher of the system calls is given for the call in frame `fr` is what the kernel does:
-- `do_fork`, with what the allocators give (a task that is on no list, a kernel stack, a top table);
-- `do_execve` of the current task, in a run that returns or enters the new image; or any other call.
pub data Provides (p : Programs) (s : System) (fr : Frame) : Type 0 where
  forks :
      (st : Stacks) (child kstack cr3 stub : ℕ) (saved : List ℕ)
      → fr.rax ≡ 7
      → kstack + kstack_size < 2 ^ 64
      → length saved ≡ 22
      → has child (s.kernel.current ∷ s.kernel.runqueue) ≡ false
      → has child s.kernel.blocked_list ≡ false
      → (p.do_fork s fr).0.kernel ≡ (do_fork s.kernel st child kstack cr3 stub saved).0
      → Provides p s fr
  execs :
      (env : Env) (w w' : World) (r : Executed) (path : ℕ)
      → fr.rax ≡ 8
      → w.system ≡ s
      → do_execve env w w.system.kernel.current path fr.rdi ≡ ok (w', r)
      → (p.do_execve s fr.rdi).0 ≡ w'.system
      → Provides p s fr
  neither : fr.rax ≢ 7 → fr.rax ≢ 8 → Provides p s fr

Provides-KeepsValid :
    (p : Programs) (s : System) (fr : Frame)
    → IsValid s.kernel
    → Provides p s fr
    → KeepsValid p s fr
Provides-KeepsValid p s fr v (forks st child kstack cr3 stub saved call room long out out' e) =
    record {
      forks =
          λ c. rw e (do_fork-IsValid s.kernel st child kstack cr3 stub saved v room long out out');
      execs = λ c. absurd (omega arith);
    }
Provides-KeepsValid p s fr v (execs env w w' r path call same run e) = record {
  forks = λ c. absurd (omega arith);
  execs = λ c. rw e (
      do_execve-IsValid env w w' path fr.rdi r
        (subst (λ (x : System). IsValid x.kernel) (sym same) v) run);
}
Provides-KeepsValid p s fr v (neither a b) = record {
  forks = λ c. absurd (a c);
  execs = λ c. absurd (b c);
}

-- The interrupts that arrive from a state on, at each of which another task is ready.
pub data Steps (p : Programs) : Machine → Machine → Type 0 where
  done : {m : Machine} → Steps p m m
  more :
      {m m' m'' : Machine} (t : Trap) (r : Reply) (next : ℕ) (queue : List ℕ)
      → m.system.kernel.runqueue ≡ next ∷ queue
      → (t.int_no ≡ 128 → Provides p m.system t.frame)
      → isr_dispatch p m t ≡ ok (m', r)
      → Steps p m' m''
      → Steps p m m''

exception-kernel :
    (m m' : Machine) (t : Trap) (r : Reply) → exception m t ≡ ok (m', r) → m'.system ≡ m.system
unfolding exception
exception-kernel m m' t r e = elim (Bool-cases (t.int_no == 14)) [
  | inr other ↦ absurd (let e' = rw other at e in cc)
  | inl fault_no ↦
      let (v, tail, first) =
        sequence_returns (page_fault m.vmm t.cr2 t.err) _ _ (rw fault_no at e) in
      elim (Bool-cases v.1) [
        | inr failed ↦ absurd (let e' = rw failed at tail in cc)
        | inl handled ↦ let e' = rw handled at tail in ground (arith, e')
      ]
]

keyboard-IsValid :
    (m : Machine) (t : Trap) → IsValid m.system.kernel → IsValid (keyboard m t).0.system.kernel
unfolding keyboard apic_eoi
keyboard-IsValid m t v = v

eoi-IsValid : (m : Machine) → IsValid m.system.kernel → IsValid (apic_eoi m).system.kernel
unfolding apic_eoi
eoi-IsValid m v = v

timer-IsValid :
    (m : Machine) (t : Trap) → IsValid m.system.kernel → IsValid (timer m t).0.system.kernel
unfolding timer apic_timer_tick apic_eoi
timer-IsValid m t v = tick-IsValid m.system.kernel v

after_syscall-system : (m : Machine) (r : Reply) → (after_syscall m r).0.system ≡ m.system
unfolding after_syscall apic_eoi
after_syscall-system m (returns v) = refl
after_syscall-system m (leaves n) = refl

syscall-IsValid :
    (p : Programs) (m : Machine) (t : Trap) (next : ℕ) (queue : List ℕ)
    → Provides p m.system t.frame
    → IsValid m.system.kernel
    → m.system.kernel.runqueue ≡ next ∷ queue
    → IsValid (syscall p m t).0.system.kernel
unfolding syscall
syscall-IsValid p m t next queue given v e =
    rw
      (after_syscall-system (record m { system = (dispatch p m.system t.frame).0 })
        (dispatch p m.system t.frame).1)
      (dispatch-IsValid p m.system t.frame next queue
        (Provides-KeepsValid p m.system t.frame v given) v e)

outcome-IsValid :
    (x y : Machine × Reply) → IsValid x.0.system.kernel → ok x ≡ ok y → IsValid y.0.system.kernel
outcome-IsValid x y v e = let same : x ≡ y = cc in rw (← same) v

-- One interrupt keeps the invariant of the scheduler.
isr_dispatch-IsValid :
    (p : Programs) (m m' : Machine) (t : Trap) (r : Reply) (next : ℕ) (queue : List ℕ)
    → (t.int_no ≡ 128 → Provides p m.system t.frame)
    → IsValid m.system.kernel
    → m.system.kernel.runqueue ≡ next ∷ queue
    → isr_dispatch p m t ≡ ok (m', r)
    → IsValid m'.system.kernel
unfolding isr_dispatch
isr_dispatch-IsValid p m m' t r next queue given v e h =
    let P : Outcome (Machine × Reply) → Type 0 = λ o. o ≡ ok (m', r) → IsValid m'.system.kernel in
    if_both P (ltb t.int_no 32) (λ h'. rw (exception-kernel m m' t r h') v)
      (if_both P (t.int_no == 32) (outcome-IsValid (timer m t) (m', r) (timer-IsValid m t v)) (
        if_both P (t.int_no == 33) (outcome-IsValid (keyboard m t) (m', r) (keyboard-IsValid m t v))
          (if_case P (t.int_no == 128)
            (λ c.
              outcome-IsValid (syscall p m t) (m', r)
                (syscall-IsValid p m t next queue (given (==→eq t.int_no 128 c)) v e))
            (outcome-IsValid (apic_eoi m, returns t.frame.rax) (m', r) (eoi-IsValid m v)))))
      h

-- From a state that satisfies the invariant of the scheduler, every sequence of interrupts that the
-- kernel handles, at each of which another task is ready, and whose calls of `fork` and `execve` are runs of
-- `do_fork`, with a new task that is on no list, and of `do_execve` that return, leads to one that satisfies it: each task is current, ready on the
-- run queue or blocked, in one place only, and the current one is running.
pub Steps-IsValid :
    (p : Programs) {m m' : Machine}
    → IsValid m.system.kernel
    → Steps p m m'
    → IsValid m'.system.kernel
Steps-IsValid p v done = v
Steps-IsValid p v (more {m} {m'} t r next queue e given h later) =
    Steps-IsValid p (isr_dispatch-IsValid p m m' t r next queue given v e h) later

-- Every interrupt that is neither an exception nor a system call is handled, with one end of
-- interrupt for the controller, also if the timer switches to another task.
pub isr_dispatch-eois :
    (p : Programs) (m : Machine) (t : Trap)
    → 32 ≤ t.int_no
    → t.int_no ≢ 128
    → (m' : Machine) × (r : Reply) × (isr_dispatch p m t ≡ ok (m', r)) × (m'.eois ≡ m.eois + 1)
unfolding isr_dispatch timer keyboard apic_eoi apic_timer_tick
isr_dispatch-eois p m t hardware no_call =
    let no_exception : ltb t.int_no 32 ≡ false = ground arith in
    let not_call : (t.int_no == 128) ≡ false = ne→== t.int_no 128 no_call in
    elim (Bool-cases (t.int_no == 32)) [
      | inl e ↦ rw (no_exception, e) ((timer m t).0, (timer m t).1, refl, refl)
      | inr e ↦ elim (Bool-cases (t.int_no == 33)) [
        | inl e' ↦ rw (no_exception, e, e') ((keyboard m t).0, (keyboard m t).1, refl, refl)
        | inr e' ↦ rw (no_exception, e, e', not_call) (apic_eoi m, returns t.frame.rax, refl, refl)
      ]
    ]
