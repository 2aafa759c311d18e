-- ===== src/Examples/Processes.antt =====
-- Runs of core/cpu/task.c and core/cpu/sched.c: task 100 (pid 2) runs, task 200 (pid 3) is ready,
-- and task 300 (pid 1), the parent of task 100, is blocked until a child exits.
use uix.Base.{
  ℕ, some, ◌≡◌, refl, arith, true, false, if◌then◌else◌, ◌==◌, List, [], ◌∷◌, ◌++◌, none, replicate,
}
use uix.Task.{TaskState, Fd, Task, zero_task, Kernel, fd_console_in, fd_console_out, fd_none}
use uix.Sched.{wakeup_children}
use uix.Sched.Queue.{IsValid, IsPlaced}
use uix.Sched.RoundRobin.{slices, slices_fair}
use uix.Sched.Wakeup.{WakeSplit, wakeup_children_lem}
use uix.Spawn.{
  Stacks, switch_to, task_stack, user_stack, exec_stack, user_enter, do_fork, fork_child,
}
use uix.Spawn.Frames.{popped, switch_to-stacks}
use uix.Spawn.Child.{do_fork_lem, frame_at, resumed}

-- the descriptors of the first process: 0 reads the console, 1 and 2 write it
abbrev pub console_fds : List Fd
console_fds =
    record { kind = fd_console_in; in_use = true }
    ∷ record { kind = fd_console_out; in_use = true }
    ∷ record { kind = fd_console_out; in_use = true }
    ∷ replicate 13 (record { kind = fd_none; in_use = false })

abbrev pub child : Task
child = record zero_task { pid = 2; ppid = 1; state = TaskState.running; fds = console_fds }

abbrev neighbour : Task
neighbour = record zero_task { pid = 3; ppid = 1; state = TaskState.ready }

abbrev parent : Task
parent = record zero_task { pid = 1; ppid = 0; state = TaskState.blocked }

abbrev pub three_tasks : Kernel
three_tasks = record {
  tasks = λ t.
      if t == 100
      then child
      else if t == 200
      then neighbour
      else if t == 300
      then parent
      else zero_task;
  all_tasks = 100 ∷ 200 ∷ 300 ∷ [];
  current = 100;
  next_pid = 4;
  runqueue = 200 ∷ [];
  blocked_list = 300 ∷ [];
  zombie = none;
  freed = [];
  ticks_since_switch = 1;
  need_resched = false;
  space = 0;
  kernel_cr3 = 4096;
}

pub three_tasks-IsPlaced : IsPlaced three_tasks
three_tasks-IsPlaced = record {
  run_distinct = (refl, (refl, tt));
  blocked_distinct = (refl, tt);
  apart = λ t h. ground arith;
  readies = (refl, tt);
  blocks = (refl, tt);
}

pub three_tasks-IsValid : IsValid three_tasks
three_tasks-IsValid = record { placed = three_tasks-IsPlaced; runs = refl }

slices_fair_example :
    let k' = slices 1 three_tasks in
    (k'.current ≡ 200) × (k'.runqueue ≡ [] ++ 100 ∷ []) × (k'.blocked_list ≡ 300 ∷ []) × IsValid k'
slices_fair_example = slices_fair [] three_tasks 200 [] three_tasks-IsValid refl

-- the same system once task 100 has become a zombie
abbrev after_exit : Kernel
after_exit = record three_tasks {
  tasks = λ t. if t == 100 then record child { state = TaskState.zombie } else three_tasks.tasks t;
}

wakeup_children_lem_example :
    let k' = wakeup_children three_tasks 2 1 in
    (moved : List ℕ) × (kept : List ℕ) × WakeSplit three_tasks.tasks 2 1 three_tasks.blocked_list
      moved kept
    × (k'.runqueue ≡ three_tasks.runqueue ++ moved)
    × (k'.blocked_list ≡ kept)
    × (k'.current ≡ three_tasks.current)
    × IsPlaced k'
wakeup_children_lem_example = wakeup_children_lem three_tasks 2 1 three_tasks-IsPlaced

-- the saved frame of a task that has called `fork` at 0x400010, from user mode
abbrev pub fork_frame : List ℕ
fork_frame =
    7 ∷ 1 ∷ 2 ∷ 3 ∷ 4 ∷ 5 ∷ 6 ∷ 8 ∷ 9 ∷ 10 ∷ 11 ∷ 12 ∷ 13 ∷ 14 ∷ 15 ∷ 128 ∷ 0 ∷ 0x400010 ∷ 0x1B
    ∷ 0x202 ∷ 0x7FFFF0 ∷ 0x23 ∷ []

abbrev pub no_stacks : Stacks
no_stacks = record { words = λ a. 0; rsps = λ t. 0 }

do_fork_lem_example :
    let (k', st', r) = do_fork three_tasks no_stacks 400 0x10000 8192 0x5000 fork_frame in
    (r ≡ some 400)
    × IsValid k'
    × (k'.runqueue ≡ 200 ∷ 400 ∷ [])
    × ((k'.tasks 400).pid ≡ 4)
    × ((k'.tasks 400).ppid ≡ 2)
    × ((k'.tasks 400).fds ≡ console_fds)
    × (switch_to (record { words = st'.words; sp = st'.rsps 400 })
        ≡ popped 0x5000 0 0 0 0 0 0 (frame_at 0x10000))
    × (fork_child st'.words (frame_at 0x10000) ≡ resumed fork_frame)
do_fork_lem_example =
    do_fork_lem three_tasks no_stacks 400 0x10000 8192 0x5000 fork_frame three_tasks-IsValid
      (λ e. omega arith) (λ e. omega arith) (omega arith) refl refl refl

switch_to-stacks_example :
    let task = switch_to (task_stack (λ a. 0) 0x10000 0x5000 0x6000 1) in
    let user = switch_to (user_stack (λ a. 0) 0x10000 0x5000) in
    let exec = switch_to (exec_stack (λ a. 0) 0x10000 0x5000 0x401000 0x7FF000) in
    (task ≡ popped 0x5000 0 0 0x6000 1 0 0 0x14000)
    × (user.rip ≡ 0x5000)
    × (user_enter user ≡ 0x400000 ∷ 0x1B ∷ 0x202 ∷ 0x7FFFF0 ∷ 0x23 ∷ [])
    × (user.rsp ≡ 0x14000)
    × (exec.rip ≡ 0x5000)
    × (user_enter exec ≡ 0x401000 ∷ 0x1B ∷ 0x202 ∷ 0x7FF000 ∷ 0x23 ∷ [])
    × (exec.rsp ≡ 0x14000)
switch_to-stacks_example =
    switch_to-stacks (λ a. 0) 0x10000 0x5000 0x6000 1 0x401000 0x7FF000 (omega arith)
