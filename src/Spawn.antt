-- ===== src/Spawn.antt =====
-- The kernel stacks on which new tasks start: core/cpu/task.c, user.c, fork.c and exec.c build them,
-- and `switch_to` of arch/x86_64/switch.S takes them apart. The words of the kernel stacks are a
-- function of their addresses. The addresses of the trampolines belong to the assembly, and what
-- `kzalloc`, `kmalloc` and the page tables give is an argument; that a task without a stack is freed, and
-- names of tasks, are left out.
pub mod Frames
pub mod Child
use uix.Base.{
  ℕ, zero, suc, ◌+◌, ◌-◌, ◌*◌, ◌/◌, ◌%◌, ◌^◌, Bool, true, Option, none, some, List, [], ◌∷◌, ◌++◌,
  ◌==◌, if◌then◌else◌, set, length, Outcome, ok, panic,
}
use uix.Task.{TaskState, Task, Kernel, zero_task, put_task, register}
use uix.Sched.{enqueue, enqueue_user}

abbrev pub Words : Type 0
Words = ℕ → ℕ

-- a stack: its words, and the stack pointer
pub record Stack : Type 0 where
  pub words : Words
  pub sp : ℕ

abbrev pub put_word : Words → ℕ → ℕ → Words
put_word w a v b = if a == b then v else w b

-- `sp -= 8; *(u64 *)sp = v;`
abbrev pub push : Stack → ℕ → Stack
push s v =
    let sp' = (s.sp + 2 ^ 64 - 8) % 2 ^ 64 in record { words = put_word s.words sp' v; sp = sp' }

unfoldable pub push_all : Stack → List ℕ → Stack
push_all s [] = s
push_all s (v ∷ vs) = push_all (push s v) vs

-- `sp = kstack + kstack_size; sp &= ~0xF;`
abbrev pub stack_top : Words → ℕ → ℕ → Stack
stack_top w kstack kstack_size = record {
  words = w;
  sp = (kstack + kstack_size) % 2 ^ 64 / 16 * 16;
}

abbrev pub kstack_size : ℕ
kstack_size = 16 * 1024

abbrev pub user_code_base : ℕ
user_code_base = 0x400000

abbrev pub user_stack_top : ℕ
user_stack_top = 0x800000

-- the stack that `task_create` builds for `fn(arg)`
unfoldable pub task_stack : Words → ℕ → ℕ → ℕ → ℕ → Stack
unfolding push_all
task_stack w kstack task_entry_trampoline fn arg =
    push_all (stack_top w kstack kstack_size)
      (task_entry_trampoline ∷ 0 ∷ 0 ∷ fn ∷ arg ∷ 0 ∷ 0 ∷ [])

-- the one that `user_task_create` builds
unfoldable pub user_stack : Words → ℕ → ℕ → Stack
unfolding push_all
user_stack w kstack user_launch_trampoline =
    push_all (stack_top w kstack kstack_size)
      (user_launch_trampoline ∷ 0 ∷ 0 ∷ user_code_base ∷ (user_stack_top - 16) ∷ 0x202 ∷ 0 ∷ [])

-- the one that `do_execve` builds, for its entry point and user stack
unfoldable pub exec_stack : Words → ℕ → ℕ → ℕ → ℕ → Stack
unfolding push_all
exec_stack w kstack user_launch_trampoline entry user_rsp =
    push_all (stack_top w kstack kstack_size)
      (user_launch_trampoline ∷ 0 ∷ 0 ∷ entry ∷ user_rsp ∷ 0x202 ∷ 0 ∷ [])

-- `memcpy((void *)sp, fr, sizeof(struct iframe))`, the frame as its words
unfoldable pub copy_words : Words → ℕ → List ℕ → Words
copy_words w a [] = w
copy_words w a (v ∷ vs) = copy_words (put_word w a v) (a + 8) vs

abbrev pub frame_size : ℕ
frame_size = 176

-- the one that `do_fork` builds, for the frame of the parent
unfoldable pub fork_stack : Words → ℕ → ℕ → List ℕ → Stack
unfolding push_all copy_words
fork_stack w kstack fork_child_stub fr =
    let top = stack_top w kstack kstack_size in
    let sp = (top.sp + 2 ^ 64 - frame_size) % 2 ^ 64 in
    push_all (record { words = copy_words top.words sp (set fr 0 0); sp = sp })
      (fork_child_stub ∷ 0 ∷ 0 ∷ 0 ∷ 0 ∷ 0 ∷ 0 ∷ [])

-- what `switch_to` leaves in the registers, with the address that its `ret` goes to
pub record Regs : Type 0 where
  pub r15 : ℕ
  pub r14 : ℕ
  pub r13 : ℕ
  pub r12 : ℕ
  pub rbx : ℕ
  pub rbp : ℕ
  pub rip : ℕ
  pub rsp : ℕ

-- `switch_to` from the load of the stack pointer on
unfoldable pub switch_to : Stack → Regs
switch_to s = record {
  r15 = s.words s.sp;
  r14 = s.words ((s.sp + 8) % 2 ^ 64);
  r13 = s.words ((s.sp + 16) % 2 ^ 64);
  r12 = s.words ((s.sp + 24) % 2 ^ 64);
  rbx = s.words ((s.sp + 32) % 2 ^ 64);
  rbp = s.words ((s.sp + 40) % 2 ^ 64);
  rip = s.words ((s.sp + 48) % 2 ^ 64);
  rsp = (s.sp + 56) % 2 ^ 64;
}

-- the `n` words from `a` on
unfoldable pub words_from : Words → ℕ → ℕ → List ℕ
words_from w a zero = []
words_from w a (suc n) = w a ∷ words_from w (a + 8) n

-- The state in which a task goes on: `fork_child_stub` pops 15 registers, skips two words, and its
-- `iretq` pops five.
pub record Context : Type 0 where
  pub general : List ℕ
  pub returned : List ℕ

unfoldable pub fork_child : Words → ℕ → Context
unfolding words_from
fork_child w rsp = record { general = words_from w rsp 15; returned = words_from w (rsp + 136) 5 }

-- what `user_launch_trampoline` and `user_enter` hand to `iretq`: rip, cs, rflags, rsp and ss
unfoldable pub user_enter : Regs → List ℕ
user_enter r = r.r12 ∷ 0x1B ∷ r.r14 ∷ r.r13 ∷ 0x23 ∷ []

-- The saved stack pointers of the tasks, and the words of their stacks.
pub record Stacks : Type 0 where
  pub words : Words
  pub rsps : ℕ → ℕ

abbrev pub set_rsp : Stacks → ℕ → Stack → Stacks
set_rsp st t s = record { words = s.words; rsps = λ u. if u == t then s.sp else st.rsps u }

-- `do_fork`, where `kzalloc` gives `child`, `kmalloc` gives `kstack`, and `vmm_fork_user_space` gives
-- `cr3`: the child, or `none` for NULL
unfoldable pub do_fork : Kernel → Stacks → ℕ → ℕ → ℕ → ℕ → List ℕ → Kernel × Stacks × Option ℕ
unfolding register enqueue_user fork_stack
do_fork k st child kstack cr3 fork_child_stub fr =
    let parent = k.tasks k.current in
    let fresh : Task = record zero_task {
      is_user = true;
      state = TaskState.ready;
      ppid = parent.pid;
      cr3 = cr3;
      fds = parent.fds;
    } in
    let k' = enqueue_user (register (put_task k child fresh) child) child in
    if child == 0
    then (k, st, none)
    else if kstack == 0
    then (k, st, none)
    else (k', set_rsp st child (fork_stack st.words kstack fork_child_stub fr), some child)

-- `task_alloc`, where `kzalloc` gives `t` and `kmalloc` gives `kstack`
unfoldable pub task_alloc : Kernel → ℕ → ℕ → Kernel × Option ℕ
unfolding register
task_alloc k t kstack =
    let fresh : Task = record zero_task { pid = k.next_pid; state = TaskState.ready } in
    let k' = record (put_task k t fresh) { next_pid = (k.next_pid + 1) % 2 ^ 64 } in
    if t == 0 then (k, none) else if kstack == 0 then (k, none) else (register k' t, some t)

-- The bootstrap task: it runs already, on the stack that the assembly gave it.
unfoldable pub task_init : Kernel → ℕ → ℕ → Outcome Kernel
unfolding task_alloc
task_init k t kstack =
    let (k', r) = task_alloc k t kstack in
    elim r [
      | none ↦ panic
      | some u ↦
          let running : Task = record (k'.tasks u) { state = TaskState.running } in
          ok (record (put_task k' u running) { current = u })
    ]

unfoldable pub task_create : Kernel → Stacks → ℕ → ℕ → ℕ → ℕ → ℕ → Kernel × Stacks × Option ℕ
unfolding task_alloc enqueue task_stack
task_create k st t kstack task_entry_trampoline fn arg =
    let (k', r) = task_alloc k t kstack in
    elim r [
      | none ↦ (k', st, none)
      | some u ↦ (
        enqueue k' u,
        set_rsp st u (task_stack st.words kstack task_entry_trampoline fn arg),
        some u,
      )
    ]
