-- ===== src/Examples/Launches.antt =====
-- Runs of core/cpu/exec.c and user.c in the system of three tasks: task 100, whose space is that of one
-- page, executes a file that starts like an ELF image; and a user task of four bytes is created.
use uix.Base.{ℕ, ◌≡◌, refl, true, false, none, some, [], ◌∷◌, ok, arith, get_or}
use uix.Base.Words.{test_bit, set_bit, clear_bit}
use uix.Pmm
use uix.Pmm.{Pmm}
use uix.Libc.{Memory}
use uix.Uixfs.{Fs}
use uix.Vmm.{Vmm, create_space, map_page, pt_for, next_entry}
use uix.Vmm.Backing.{kernel_pages}
use uix.Task.{zero_task}
use uix.Sched.Queue.{IsValid}
use uix.Spawn.{switch_to, user_enter}
use uix.Exec.{World, Env, Binary, user_space, user_task_create, stdio}
use uix.Exec.Image.{Space, load_image, load_flat, map_stack, map_stack_from, user_page}
use uix.Exec.NewTask.{user_task_create_lem}
use uix.Examples.Calls.{system}
use uix.Examples.Processes.{three_tasks, three_tasks-IsValid, no_stacks}
use uix.Examples.Tables.{one_page}

abbrev env : Env
env = record {
  user_program_start = 0x100000;
  user_program_end = 0x101000;
  user_hello2_start = 0x101000;
  user_hello2_end = 0x101200;
  user_launch_trampoline = 0x5000;
  device = λ n. none;
  held = λ p i. 0;
  kstack = λ t. 0x10000;
}

abbrev no_files : Fs
no_files = record {
  table = [];
  nfiles = 0;
  mounted = false;
  sector = [];
  file_buf = none;
  file_buf_pages = 0;
  contents = [];
  pmm = one_page.pmm;
}

abbrev caller : World
caller = record {
  system = record system {
    kernel = record three_tasks { tasks = λ t. record (three_tasks.tasks t) { cr3 = 4096 } };
  };
  vmm = one_page;
  fs = no_files;
  stacks = no_stacks;
}

abbrev short_elf : Binary
short_elf = record { bytes = λ i. get_or (0x7F ∷ b'E' ∷ b'L' ∷ b'F' ∷ []) i 0; len = 4 }

-- a memory of 128 pages, of which the first two are in use; page 1 is an empty top table
abbrev empty_tables : Vmm
empty_tables = record {
  words = λ q j. 0;
  pmm = record {
    bitmap = 0xFFFFFFFFFFFFFFFC ∷ 0xFFFFFFFFFFFFFFFF ∷ [];
    bitmap_len = 128;
    total_pages = 128;
    free_count = 126;
    next_free_scan = 0;
    refcounts = none;
  };
  pml4 = 4096;
  kernel_cr3 = 4096;
}

abbrev creator : World
creator = record caller { system = system; vmm = empty_tables }

abbrev code : Memory
code i = get_or (0x90 ∷ 0x90 ∷ 0xEB ∷ 0xFE ∷ []) i 0

-- what `user_space` gives for it
abbrev filled : Space kernel_pages × ℕ
filled = elim (user_space env empty_tables system.memory code 4) [
  | ok r ↦ r
  | _ ↦ (record { pages = empty_tables; memory = code }, 0)
]

filled_lem : user_space env empty_tables system.memory code 4 ≡ ok filled
unfolding user_space create_space load_image load_flat user_page map_stack map_stack_from map_page
    pt_for next_entry Pmm.alloc test_bit set_bit clear_bit
filled_lem = refl

user_task_create_lem_example :
    (w' : World) × (user_task_create env creator 400 0x10000 code 4
      ≡ ok (w', some (400, filled.0.memory)))
    × IsValid w'.system.kernel
    × (w'.system.kernel.runqueue ≡ 200 ∷ 400 ∷ [])
    × (w'.system.kernel.tasks 400
        ≡ record zero_task { pid = 4; cr3 = filled.1; is_user = true; fds = stdio zero_task.fds })
    × (w'.vmm ≡ filled.0.pages)
    × (user_enter (switch_to (record { words = w'.stacks.words; sp = w'.stacks.rsps 400 }))
        ≡ 0x400000 ∷ 0x1B ∷ 0x202 ∷ 0x7FFFF0 ∷ 0x23 ∷ [])
user_task_create_lem_example =
    user_task_create_lem env creator 400 0x10000 code 4 filled.0 filled.1 three_tasks-IsValid
      (λ e. omega arith) (λ e. omega arith) (omega arith) refl refl filled_lem

-- what the new task finds: its code
code_there : filled.0.memory 0x400002 ≡ 0xEB
unfolding user_space create_space load_image load_flat user_page map_stack map_stack_from map_page
    pt_for next_entry Pmm.alloc test_bit set_bit clear_bit
code_there = refl
