-- ===== src/Task.antt =====
-- core/cpu/task.c and include/uix/task.h: tasks, their registry and their file descriptors.
-- A task is known by its address; `tasks` is the store. Each list that is chained through a field
-- of its tasks (the run queue and the blocked list share `next`, the registry has `next_all`) is
-- the list of its tasks. Kernel stacks are in Spawn.
pub mod Fds
pub mod Zombies
use uix.Base.{
  ℕ, zero, suc, ◌+◌, ◌-◌, ◌%◌, ◌^◌, Bool, true, false, Option, none, some, List, [], ◌∷◌, ◌++◌, ltb,
  leb, ◌==◌, ◌&&◌, ◌||◌, not, if◌then◌else◌, replicate,
}

pub data TaskState : Type 0 where
  ready running dead zombie blocked : TaskState

abbrev pub is_dead : TaskState → Bool
is_dead TaskState.dead = true
is_dead _ = false

abbrev pub is_zombie : TaskState → Bool
is_zombie TaskState.zombie = true
is_zombie _ = false

abbrev pub is_running : TaskState → Bool
is_running TaskState.running = true
is_running _ = false

abbrev pub fd_none : ℕ
fd_none = 0

abbrev pub fd_console_in : ℕ
fd_console_in = 1

abbrev pub fd_console_out : ℕ
fd_console_out = 2

pub record Fd : Type 0 where
  pub kind : ℕ
  pub in_use : Bool

pub record Task : Type 0 where
  pub pid : ℕ
  pub cr3 : ℕ
  pub state : TaskState
  pub is_user : Bool
  pub exit_status : ℕ
  pub ppid : ℕ
  pub block_on : ℕ
  pub fds : List Fd

-- what `kzalloc` leaves in a task
abbrev pub zero_task : Task
zero_task = record {
  pid = 0;
  cr3 = 0;
  state = TaskState.ready;
  is_user = false;
  exit_status = 0;
  ppid = 0;
  block_on = 0;
  fds = replicate 16 (record { kind = 0; in_use = false });
}

-- The static variables of task.c and sched.c. `freed` collects the tasks given to `kfree`.
pub record Kernel : Type 0 where
  pub tasks : ℕ → Task
  pub all_tasks : List ℕ
  pub current : ℕ
  pub next_pid : ℕ
  pub runqueue : List ℕ
  pub blocked_list : List ℕ
  pub zombie : Option ℕ
  pub freed : List ℕ
  pub ticks_since_switch : ℕ
  pub need_resched : Bool
  -- the address space that `vmm_switch` made current, and the kernel's own
  pub space : ℕ
  pub kernel_cr3 : ℕ

abbrev pub update : (ℕ → Task) → ℕ → Task → ℕ → Task
update tasks t v u = if t == u then v else tasks u

abbrev pub put_task : Kernel → ℕ → Task → Kernel
put_task k t v = record k { tasks = update k.tasks t v }

abbrev pub with_state : Kernel → ℕ → TaskState → Kernel
with_state k t st = put_task k t (record (k.tasks t) { state = st })

unfoldable pub register : Kernel → ℕ → Kernel
register k t = record k { all_tasks = t ∷ k.all_tasks }

abbrev pub any_pid : ℕ
any_pid = 2 ^ 64 - 1

abbrev pub is_wanted_zombie : ℕ → ℕ → Task → Bool
is_wanted_zombie ppid want v =
    is_zombie v.state && (v.ppid == ppid && (want == any_pid || v.pid == want))

unfoldable pub find_zombie_in : (ℕ → Task) → ℕ → ℕ → List ℕ → Option ℕ
find_zombie_in tasks ppid want [] = none
find_zombie_in tasks ppid want (t ∷ ts) =
    if is_wanted_zombie ppid want (tasks t) then some t else find_zombie_in tasks ppid want ts

unfoldable pub find_zombie : Kernel → ℕ → ℕ → Option ℕ
unfolding find_zombie_in
find_zombie k ppid want = find_zombie_in k.tasks ppid want k.all_tasks

unfoldable pub drop_dead : (ℕ → Task) → ℕ → List ℕ → List ℕ
drop_dead tasks ppid [] = []
drop_dead tasks ppid (t ∷ ts) =
    let rest = drop_dead tasks ppid ts in
    if is_dead (tasks t).state && (tasks t).ppid == ppid then rest else t ∷ rest

unfoldable pub reap_children : Kernel → ℕ → Kernel
unfolding drop_dead
reap_children k ppid = record k { all_tasks = drop_dead k.tasks ppid k.all_tasks }

unfoldable pub alloc_pid : Kernel → ℕ × Kernel
alloc_pid k = (k.next_pid, record k { next_pid = (k.next_pid + 1) % 2 ^ 64 })

unfoldable pub count : Kernel → ℕ
count k = (k.next_pid + 2 ^ 64 - 1) % 2 ^ 64

-- `proc_fd_alloc`: the descriptor (`none` for -EMFILE) and the table, from descriptor `i` on
unfoldable pub fd_alloc_from : ℕ → List Fd → ℕ → Option ℕ × List Fd
fd_alloc_from i [] kind = (none, [])
fd_alloc_from i (f ∷ fs) kind =
    let (r, fs') = fd_alloc_from (i + 1) fs kind in
    if f.in_use then (r, f ∷ fs') else (some i, record { kind = kind; in_use = true } ∷ fs)

unfoldable pub fd_alloc : List Fd → ℕ → Option ℕ × List Fd
unfolding fd_alloc_from
fd_alloc fds kind = fd_alloc_from 0 fds kind

-- An `int fd` that is negative is a number of 2 ^ 31 or more here; both are out of range.
unfoldable pub fd_free : List Fd → ℕ → List Fd
fd_free [] fd = []
fd_free (f ∷ fs) zero = record f { in_use = false } ∷ fs
fd_free (f ∷ fs) (suc fd) = f ∷ fd_free fs fd

unfoldable pub fd_type : List Fd → ℕ → ℕ
fd_type [] fd = fd_none
fd_type (f ∷ fs) zero = if f.in_use then f.kind else fd_none
fd_type (f ∷ fs) (suc fd) = fd_type fs fd
