-- ===== src/Syscall.antt =====
-- core/cpu/syscall.c: the dispatcher of `int 0x80`. The words of the frame are arguments, the
-- memory is that of the calling task, and `tty.echoed` is what the console has been given.
-- `do_fork` and `do_execve` belong to other parts of the kernel: the dispatcher sees them through
-- the interface `Programs`.
pub mod Calls
pub mod Kept
use uix.Base.{
  ℕ, zero, suc, ◌+◌, ◌-◌, ◌*◌, ◌/◌, ◌%◌, ◌^◌, Bool, true, false, Option, none, some, List, [], ◌∷◌,
  ◌++◌, ltb, leb, ◌==◌, ◌&&◌, not, if◌then◌else◌,
}
use uix.Libc.{Memory, store}
use uix.Keyboard.{Keyboard}
use uix.Tty
use uix.Tty.{Tty}
use uix.Task.{
  TaskState, Task, Kernel, put_task, find_zombie, fd_alloc, fd_free, fd_type, fd_none,
  fd_console_in, fd_console_out,
}
use uix.Sched.{Next, schedule, wakeup_children, block_any, yield}

pub record System : Type 0 where
  pub kernel : Kernel
  pub keyboard : Keyboard
  pub tty : Tty
  pub memory : Memory

pub record Frame : Type 0 where
  pub rax : ℕ
  pub rdi : ℕ
  pub rsi : ℕ
  pub rdx : ℕ

-- what the caller sees: a result, or nothing yet since another task was switched to
pub data Reply : Type 0 where
  returns : ℕ → Reply
  leaves : Next → Reply

-- `(u64)-e`
abbrev pub error : ℕ → ℕ
error e = 2 ^ 64 - e

abbrev pub ebadf : ℕ
ebadf = 9

abbrev pub enoent : ℕ
enoent = 2

abbrev pub enomem : ℕ
enomem = 12

abbrev pub enosys : ℕ
enosys = 38

abbrev pub emfile : ℕ
emfile = 24

abbrev pub caller : System → Task
caller s = s.kernel.tasks s.kernel.current

abbrev pub with_caller : System → Task → System
with_caller s t = record s { kernel = put_task s.kernel s.kernel.current t }

-- the `int fd` of a system call
abbrev pub int_arg : ℕ → ℕ
int_arg w = w % 2 ^ 32

unfoldable pub sys_exit : System → Frame → System × Reply
sys_exit s fr =
    let t = caller s in
    let gone : Task = record t { exit_status = int_arg fr.rdi; state = TaskState.zombie } in
    let k = wakeup_children (put_task s.kernel s.kernel.current gone) t.pid t.ppid in
    let (k', next) = schedule k in (record s { kernel = k' }, leaves next)

-- `n` bytes from address `a`
unfoldable pub bytes : Memory → ℕ → ℕ → List ℕ
bytes m a zero = []
bytes m a (suc n) = m a ∷ bytes m (a + 1) n

unfoldable pub sys_write : System → Frame → System × Reply
unfolding bytes
sys_write s fr =
    if not (fd_type (caller s).fds (int_arg fr.rdi) == fd_console_out)
    then (s, returns (error ebadf))
    else (record s { tty = Tty.echo s.tty (bytes s.memory fr.rsi fr.rdx) }, returns fr.rdx)

unfoldable pub put_bytes : Memory → ℕ → List ℕ → Memory
put_bytes m a [] = m
put_bytes m a (c ∷ cs) = put_bytes (store m a c) (a + 1) cs

-- The poll comes before the line is asked for. Nothing is stored while the line is not complete.
unfoldable pub sys_read : System → Frame → System × Reply
unfolding put_bytes
sys_read s fr =
    let (kb, polled) = Tty.poll s.keyboard s.tty in
    let (out, n, tty') = Tty.readline polled (fr.rdx % 2 ^ 32) in
    let memory' =
      if polled.line_ready then put_bytes s.memory fr.rsi (out ++ 0 ∷ []) else s.memory in
    if not (fd_type (caller s).fds (int_arg fr.rdi) == fd_console_in)
    then (s, returns (error ebadf))
    else if ltb fr.rdx 1
    then (s, returns 0)
    else (record s { keyboard = kb; tty = tty'; memory = memory' }, returns n)

unfoldable pub sys_close : System → Frame → System × Reply
sys_close s fr =
    let t = caller s in
    let fd = int_arg fr.rdi in
    if fd_type t.fds fd == fd_none
    then (s, returns (error ebadf))
    else (with_caller s (record t { fds = fd_free t.fds fd }), returns 0)

-- "/dev/console" and its NUL
abbrev pub console_path : List ℕ
console_path =
    b'/' ∷ b'd' ∷ b'e' ∷ b'v' ∷ b'/' ∷ b'c' ∷ b'o' ∷ b'n' ∷ b's' ∷ b'o' ∷ b'l' ∷ b'e' ∷ 0 ∷ []

-- The comparison of `SYS_open` from one character on: it ends at a NUL in both, or where they
-- differ.
unfoldable pub path_matches : Memory → ℕ → List ℕ → Bool
path_matches m a [] = false
path_matches m a (c ∷ cs) =
    if m a == c then (if m a == 0 then true else path_matches m (a + 1) cs) else false

unfoldable pub sys_open : System → Frame → System × Reply
unfolding path_matches
sys_open s fr =
    let t = caller s in
    let (fd, fds') = fd_alloc t.fds fd_console_in in
    if not (path_matches s.memory fr.rdi console_path) then (s, returns (error enoent)) else (
      with_caller s (record t { fds = fds' }),
      returns (elim fd [ some d ↦ d | none ↦ error emfile ]),
    )

-- a u64 stored at `a`, the low byte first
unfoldable pub store64 : Memory → ℕ → ℕ → Memory
unfolding put_bytes
store64 m a v = put_bytes m a (
    v % 256
    ∷ v / 256 % 256
    ∷ v / 2 ^ 16 % 256
    ∷ v / 2 ^ 24 % 256
    ∷ v / 2 ^ 32 % 256
    ∷ v / 2 ^ 40 % 256
    ∷ v / 2 ^ 48 % 256
    ∷ v / 2 ^ 56 % 256
    ∷ [])

-- `(u64)` of an int
abbrev pub sign_extend : ℕ → ℕ
sign_extend v = if ltb v (2 ^ 31) then v else v + (2 ^ 64 - 2 ^ 32)

-- what `SYS_wait4` does with the zombie that it has found
unfoldable pub reap : System → Frame → ℕ → System
unfolding store64
reap s fr z =
    let t = s.kernel.tasks z in
    record s {
      kernel = put_task s.kernel z (record t { state = TaskState.dead });
      memory =
          if fr.rsi == 0 then s.memory else store64 s.memory fr.rsi (sign_extend t.exit_status);
    }

-- One round of the loop of `SYS_wait4`; a caller that blocks runs the next one when it is back.
unfoldable pub sys_wait4 : System → Frame → System × Reply
unfolding reap
sys_wait4 s fr = elim (find_zombie s.kernel (caller s).pid fr.rdi) [
  | some z ↦ (reap s fr z, returns (s.kernel.tasks z).pid)
  | none ↦ let (k, next) = block_any s.kernel in (record s { kernel = k }, leaves next)
]

-- `do_fork`: the pid of the child, or `none` for NULL. `do_execve`: its result.
pub record Programs : Type 0 where
  pub do_fork : System → Frame → System × Option ℕ
  pub do_execve : System → ℕ → System × Reply

unfoldable pub dispatch : Programs → System → Frame → System × Reply
dispatch p s fr =
    if fr.rax == 0
    then sys_exit s fr
    else if fr.rax == 1
    then sys_write s fr
    else if fr.rax == 2
    then (s, returns (caller s).pid)
    else if fr.rax == 3
    then (record s { kernel = yield s.kernel }, returns 0)
    else if fr.rax == 4
    then sys_read s fr
    else if fr.rax == 5
    then sys_close s fr
    else if fr.rax == 6
    then sys_open s fr
    else if fr.rax == 7
    then (let (s', child) = p.do_fork s fr in
        (s', returns (elim child [ some pid ↦ pid | none ↦ error enomem ])))
    else if fr.rax == 8
    then p.do_execve s fr.rdi
    else if fr.rax == 9
    then sys_wait4 s fr
    else (s, returns (error enosys))
