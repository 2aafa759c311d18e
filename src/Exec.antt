-- ===== src/Exec.antt =====
-- core/cpu/exec.c and user.c: a program replaces the image of its task, or starts as a new one. Kernel
-- state, page tables, file system and kernel stacks are the record `World`. `memory` is what the
-- processor sees through the current page tables: pages that are mapped bring in what they hold, and
-- user bytes that are no longer mapped are left as they were. The addresses of the embedded programs
-- and of the trampoline belong to the build, `kzalloc` and `kmalloc` give arguments, and log lines
-- and names of tasks are left out.
pub mod UserStack
pub mod Layout
pub mod Start
pub mod Image
pub mod Flat
pub mod Freeing
pub mod Released
pub mod Emptied
pub mod Refused
pub mod Scheduled
pub mod NewTask
use uix.Base.{
  ℕ, zero, suc, ◌+◌, ◌-◌, ◌*◌, ◌/◌, ◌%◌, ◌^◌, Bool, true, false, Option, none, some, List, [], ◌∷◌,
  leb, ◌==◌, ◌&&◌, if◌then◌else◌, Outcome, ok, fault, ◌>>=◌, get_or, set,
}
use uix.Libc.{Memory, store}
use uix.Task.{
  TaskState, Task, Fd, Kernel, zero_task, put_task, register, fd_console_in, fd_console_out,
}
use uix.Sched.{enqueue_user}
use uix.Syscall.{System, path_matches, enoent}
use uix.Vmm.{Vmm, create_space, switch}
use uix.Vmm.Backing.{kernel_pages}
use uix.Uixfs
use uix.Uixfs.{Fs, Device, Result, release_buf}
use uix.Elf.{Loader, elf_load}
use uix.Spawn.{
  Words, Stack, Stacks, set_rsp, user_code_base, user_stack_top, user_stack, exec_stack,
}
use uix.Exec.UserStack.{build_user_stack}
use uix.Exec.Image.{Space, load_image, map_stack}
use uix.Exec.Freeing.{free_space}

pub record World : Type 0 where
  pub system : System
  pub vmm : Vmm
  -- its `pmm` is that of `vmm`, which is handed over for each call
  pub fs : Fs
  pub stacks : Stacks

-- `struct uxn`: the name with its NUL, and where the program is
pub record Program : Type 0 where
  pub name : List ℕ
  pub start : ℕ
  pub stop : ℕ

-- what the build and the hardware give
pub record Env : Type 0 where
  pub user_program_start : ℕ
  pub user_program_end : ℕ
  pub user_hello2_start : ℕ
  pub user_hello2_end : ℕ
  pub user_launch_trampoline : ℕ
  pub device : Device
  -- the bytes that a physical page holds when it is mapped
  pub held : ℕ → ℕ → ℕ
  -- the kernel stack of a task
  pub kstack : ℕ → ℕ

unfoldable pub programs : Env → List Program
programs env =
    record {
      name = b'/' ∷ b's' ∷ b'h' ∷ 0 ∷ [];
      start = env.user_program_start;
      stop = env.user_program_end;
    }
    ∷ record {
      name = b'/' ∷ b'h' ∷ b'e' ∷ b'l' ∷ b'l' ∷ b'o' ∷ b'2' ∷ 0 ∷ [];
      start = env.user_hello2_start;
      stop = env.user_hello2_end;
    }
    ∷ []

-- `for (i = 0; i < 63 && upath[i]; i++) path[i] = upath[i];`
unfoldable pub copy_chars : Memory → ℕ → ℕ → ℕ → Memory
copy_chars m path upath zero = m
copy_chars m path upath (suc rounds) = elim (m upath == 0) [
  | true ↦ m
  | false ↦ copy_chars (store m path (m upath)) (path + 1) (upath + 1) rounds
]

-- `char path[64]` at `path`, which is not cleared before; `path[63] = 0`
unfoldable pub copy_path : Memory → ℕ → ℕ → Memory
unfolding copy_chars
copy_path m path upath = store (copy_chars m path upath 63) (path + 63) 0

-- an image: its bytes, and how many there are
pub record Binary : Type 0 where
  pub bytes : Memory
  pub len : ℕ

-- the program of the table whose name `strcmp` finds equal
unfoldable pub find_program : Memory → ℕ → List Program → Option Binary
unfolding path_matches
find_program m path [] = none
find_program m path (p ∷ ps) =
    if path_matches m path p.name
    then some (record { bytes = λ i. m (p.start + i); len = (p.stop + 2 ^ 64 - p.start) % 2 ^ 64 })
    else find_program m path ps

-- the characters at `a` up to the NUL, which is among the `rounds + 1` first
unfoldable pub text_at : Memory → ℕ → ℕ → List ℕ
text_at m a zero = []
text_at m a (suc rounds) = elim (m a == 0) [ true ↦ [] | false ↦ m a ∷ text_at m (a + 1) rounds ]

abbrev pub with_fs : World → Fs → World
with_fs w f = record w { fs = f; vmm = record w.vmm { pmm = f.pmm } }

abbrev pub lent_fs : World → Fs
lent_fs w = record w.fs { pmm = w.vmm.pmm }

abbrev pub with_memory : World → Memory → World
with_memory w m = record w { system = record w.system { memory = m } }

-- what `do_execve` comes to: the number of an error, or a switch to the kernel stack that it has built
pub data Executed : Type 0 where
  errno : ℕ → Executed
  enters : Stack → Executed

abbrev pub enoexec : ℕ
enoexec = 8

unfoldable pub is_elf : Binary → Bool
is_elf b = leb 4 b.len && ((b.bytes 0 == 0x7F) && (b.bytes 1 == b'E'))

abbrev pub set_cr3 : World → ℕ → ℕ → World
set_cr3 w t cr3 = record w {
  system = record w.system {
    kernel = put_task w.system.kernel t (record (w.system.kernel.tasks t) { cr3 = cr3 });
  };
}

-- the old tables are freed, and the task gets a space of its own
unfoldable pub fresh_space : World → ℕ → Outcome World
unfolding free_space create_space switch
fresh_space w t = free_space (w.system.kernel.tasks t).cr3 w.vmm >>= λ v.
    create_space v >>= λ r. ok (record (set_cr3 w t r.1) { vmm = switch r.0 r.1 })

abbrev pub with_space : World → Space kernel_pages → World
with_space w s = record w { vmm = s.pages; system = record w.system { memory = s.memory } }

abbrev pub space_of : World → Space kernel_pages
space_of w = record { pages = w.vmm; memory = w.system.memory }

-- the entry point and the stack pointer, or nothing for an image that `elf_load` refuses; the path is
-- shorter than the 64 bytes of its array
unfoldable pub load_binary : Env → World → ℕ → Binary → Outcome (World × Option (ℕ × ℕ))
unfolding is_elf elf_load map_stack build_user_stack load_image
load_binary env w path b =
    if is_elf b
    then (elf_load kernel_pages b.bytes b.len w.vmm w.system.memory >>= λ l.
        let w1 = with_space w (record { pages = l.0.pages; memory = l.0.memory }) in
        if l.1 == 0
        then ok (w1, none)
        else (map_stack kernel_pages env.held (space_of w1) >>= λ s.
            elim (build_user_stack 64 s.memory path) [
              | none ↦ fault
              | some r ↦
                  ok (with_space w (record { pages = s.pages; memory = r.0 }), some (l.1, r.1))
            ]))
    else (load_image kernel_pages env.held b.bytes b.len (space_of w) >>= λ s.
        map_stack kernel_pages env.held s >>= λ s'.
        ok (with_space w s', some (user_code_base, user_stack_top - 16)))

-- the end of `do_execve`: the buffer of an image from the disk is released, and the kernel stack is
-- built anew
unfoldable pub start_image : Env → ℕ → Bool → World × Option (ℕ × ℕ) → Outcome (World × Executed)
unfolding release_buf exec_stack
start_image env t on_disk (w, none) = ok (w, Executed.errno enoexec)
start_image env t on_disk (w, some (entry, user_rsp)) =
    (if on_disk then (release_buf (lent_fs w) >>= λ f. ok (with_fs w f)) else ok w) >>= λ w'.
    let s = exec_stack w'.stacks.words (env.kstack t) env.user_launch_trampoline entry user_rsp in
    ok (record w' { stacks = set_rsp w'.stacks t s }, Executed.enters s)

-- `do_execve` from the freeing of the old tables on; `on_disk` is whether the image has been read from
-- the disk
unfoldable pub exec_binary : Env → World → ℕ → ℕ → Binary → Bool → Outcome (World × Executed)
unfolding fresh_space load_binary start_image
exec_binary env w t path b on_disk =
    fresh_space w t >>= λ w1. load_binary env w1 path b >>= start_image env t on_disk

unfoldable pub do_execve : Env → World → ℕ → ℕ → ℕ → Outcome (World × Executed)
unfolding copy_path find_program programs text_at Uixfs.read exec_binary
do_execve env w t path upath =
    let m = copy_path w.system.memory path upath in
    let w1 = with_memory w m in
    elim (find_program m path (programs env)) [
      | some b ↦ exec_binary env w1 t path b false
      | none ↦
          (Uixfs.read env.device (text_at m path 63) (lent_fs w1) >>= λ r. elim r.1 [
            | Result.errno n ↦ ok (with_fs w1 r.0, Executed.errno enoent)
            | Result.size n ↦
                let image : Binary = record { bytes = λ i. get_or r.0.contents i 0; len = n } in
                exec_binary env (with_fs w1 r.0) t path image true
          ])
    ]

abbrev pub open_fd : ℕ → Fd
open_fd kind = record { kind = kind; in_use = true }

-- stdio of a user task: the terminal, and the console twice
abbrev pub stdio : List Fd → List Fd
stdio fds =
    set (set (set fds 0 (open_fd fd_console_in)) 1 (open_fd fd_console_out)) 2
      (open_fd fd_console_out)

-- the space of a user task, filled with its code and its stack, and its memory; `kernel_cr3` is the current
-- space again
unfoldable pub user_space : Env → Vmm → Memory → Memory → ℕ → Outcome (Space kernel_pages × ℕ)
unfolding create_space switch load_image map_stack
user_space env v m img len = create_space v >>= λ r.
    load_image kernel_pages env.held img len (record { pages = switch r.0 r.1; memory = m })
    >>= λ s. map_stack kernel_pages env.held s >>= λ s'.
        ok (record { pages = switch s'.pages s'.pages.kernel_cr3; memory = s'.memory }, r.1)

-- `user_task_create`, where `kzalloc` gives `t` and `kmalloc` gives `kstack`: the task with its memory, or
-- `none` for NULL
unfoldable pub user_task_create :
    Env → World → ℕ → ℕ → Memory → ℕ → Outcome (World × Option (ℕ × Memory))
unfolding register user_space user_stack enqueue_user
user_task_create env w t kstack img len =
    let fresh : Task = record zero_task { is_user = true; fds = stdio zero_task.fds } in
    let k = register (put_task w.system.kernel t fresh) t in
    let st = set_rsp w.stacks t (user_stack w.stacks.words kstack env.user_launch_trampoline) in
    if t == 0
    then ok (w, none)
    else if kstack == 0
    then ok (w, none)
    else (user_space env w.vmm w.system.memory img len >>= λ r.
        let k' = put_task k t (record (k.tasks t) { cr3 = r.1 }) in
        ok (
          record w {
            system = record w.system { kernel = enqueue_user k' t };
            vmm = r.0.pages;
            stacks = st;
          },
          some (t, r.0.memory),
        ))
