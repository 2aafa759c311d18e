-- ===== src/Examples/Calls.antt =====
-- Runs of core/cpu/syscall.c in the system of three tasks.
use uix.Base.{ℕ, ◌-◌, ◌≡◌, ◌≢◌, ◌⊎◌, refl, true, false, if◌then◌else◌, ◌==◌, [], ◌∷◌, get_or, ◌^◌}
use uix.Libc.{Memory}
use uix.Task.{TaskState, zero_task, find_zombie}
use uix.Task.Zombies.{registered}
use uix.Sched.{Next, block_any, schedule}
use uix.Sched.Queue.{has}
use uix.Syscall.{System, Frame, returns, leaves, sys_exit, bytes, console_path, sys_wait4}
use uix.Syscall.Calls.{sys_exit_wakes, exited, sys_wait4_reaps}
use uix.Examples.Processes.{three_tasks, three_tasks-IsPlaced}

-- the text "/dev/console" at address 0
abbrev path_memory : Memory
path_memory a = get_or console_path a 0

abbrev pub system : System
system = record {
  kernel = three_tasks;
  keyboard = record { kbuf = []; head = 0; tail = 0 };
  tty = record { line = []; line_len = 0; line_ready = false; echoed = [] };
  memory = path_memory;
}

abbrev exit_7 : Frame
exit_7 = record { rax = 0; rdi = 7; rsi = 0; rdx = 0 }

sys_exit_wakes_example :
    let (s', r) = sys_exit system exit_7 in
    (r ≡ leaves Next.switches)
    × (has 300 (s'.kernel.current ∷ s'.kernel.runqueue) ≡ true)
    × (s'.kernel.tasks 100 ≡ exited system exit_7)
    × (s'.kernel.all_tasks ≡ 100 ∷ 200 ∷ 300 ∷ [])
sys_exit_wakes_example = sys_exit_wakes system exit_7 300 three_tasks-IsPlaced refl refl refl

abbrev open_console : Frame
open_console = record { rax = 6; rdi = 0; rsi = 0; rdx = 0 }

path_bytes : bytes system.memory open_console.rdi 13 ≡ console_path
unfolding bytes
path_bytes = refl

abbrev open_other : Frame
open_other = record { rax = 6; rdi = 5; rsi = 0; rdx = 0 }

other_bytes : bytes system.memory open_other.rdi 13 ≢ console_path
unfolding bytes
other_bytes e = cc

-- the system once task 200, a child of task 300, has exited with status 5, and task 300 runs
abbrev child_gone : System
child_gone = record system {
  kernel = record three_tasks {
    tasks = λ t.
        if t == 200
        then record zero_task { pid = 3; ppid = 1; exit_status = 5; state = TaskState.zombie }
        else if t == 300
        then record zero_task { pid = 1; state = TaskState.running }
        else three_tasks.tasks t;
    current = 300;
    runqueue = 100 ∷ [];
    blocked_list = [];
  };
}

abbrev wait_any : Frame
wait_any = record { rax = 9; rdi = 2 ^ 64 - 1; rsi = 0; rdx = 0 }

child_found : (sys_wait4 child_gone wait_any).1 ≡ returns 3
unfolding sys_wait4 find_zombie
child_found = refl

sys_wait4_reaps_example :
    (z : ℕ) × (registered z child_gone.kernel.all_tasks ≡ true)
    × ((child_gone.kernel.tasks z).state ≡ TaskState.zombie)
    × ((child_gone.kernel.tasks z).ppid ≡ 1)
    × ((wait_any.rdi ≡ 2 ^ 64 - 1) ⊎ ((child_gone.kernel.tasks z).pid ≡ wait_any.rdi))
    × (3 ≡ (child_gone.kernel.tasks z).pid)
    × (((sys_wait4 child_gone wait_any).0.kernel.tasks z).state ≡ TaskState.dead)
    × ((u : ℕ)
        → u ≢ z
        → (sys_wait4 child_gone wait_any).0.kernel.tasks u ≡ child_gone.kernel.tasks u)
sys_wait4_reaps_example = sys_wait4_reaps child_gone wait_any child_found

nobody_gone : (sys_wait4 system wait_any).1 ≡ leaves Next.switches
unfolding sys_wait4 find_zombie block_any schedule
nobody_gone = refl
