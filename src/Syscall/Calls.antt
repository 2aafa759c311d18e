-- ===== src/Syscall/Calls.antt =====
-- What each system call of core/cpu/syscall.c does to the system.
use uix.Base.{
  ℕ, suc, ◌+◌, ◌-◌, ◌^◌, ◌<◌, ◌≡◌, ◌≢◌, refl, sym, ◌∙◌, ap, true, false, inl, inr, ◌⊎◌, List, [],
  ◌∷◌, ◌++◌, ◌==◌, if◌then◌else◌, arith, Bool-cases, ==→eq, ==_self, Option-cases, length,
}
use uix.Libc.{Memory}
use uix.Tty
use uix.Task.{
  TaskState, Task, Kernel, put_task, find_zombie, find_zombie_in, is_wanted_zombie, is_zombie,
  fd_type, fd_console_in, fd_console_out,
}
use uix.Task.Zombies.{registered, find_zombie_sound, find_zombie_complete}
use uix.Task.Fds.{fd_alloc_result, is_open}
use uix.Sched.{Next, schedule, wakeup_children}
use uix.Sched.Queue.{has, has-append, IsPlaced, AllIn-update}
use uix.Sched.RoundRobin.{schedule_exited}
use uix.Sched.Wakeup.{woken, wakeup_children-lists, wakeup_children_frame, waiting_parent_woken}
use uix.Syscall.{
  System, Frame, returns, leaves, error, ebadf, enoent, emfile, caller, int_arg, sys_exit, bytes,
  sys_write, sys_open, path_matches, console_path, reap, sys_wait4,
}

-- `write` on a descriptor that is not open for output fails with -EBADF and changes nothing; on
-- one that is, it gives the console exactly the `len` bytes at the address, and returns `len`.
pub sys_write_lem :
    (s : System) (fr : Frame)
    → sys_write s fr ≡ (
        if fd_type (caller s).fds (int_arg fr.rdi) == fd_console_out
        then (
          record s { tty = record s.tty { echoed = s.tty.echoed ++ bytes s.memory fr.rsi fr.rdx } },
          returns fr.rdx,
        )
        else (s, returns (error ebadf)))
unfolding sys_write Tty.echo
sys_write_lem s fr = elim (Bool-cases (fd_type (caller s).fds (int_arg fr.rdi) == fd_console_out)) [
  | inl out ↦ rw out refl
  | inr other ↦ rw other refl
]

abbrev NoNul : List ℕ → Type 0
NoNul [] = Unit {0}
NoNul (c ∷ cs) = (c ≢ 0) × NoNul cs

bytes_of_match :
    (m : Memory) (a : ℕ) (cs : List ℕ)
    → NoNul cs
    → path_matches m a (cs ++ 0 ∷ []) ≡ true
    → bytes m a (suc (length cs)) ≡ cs ++ 0 ∷ []
unfolding path_matches bytes
bytes_of_match m a [] nn h = ground arith
bytes_of_match m a (c ∷ cs) nn h = ground (arith, nn.0, bytes_of_match m (a + 1) cs nn.1)

match_of_bytes :
    (m : Memory) (a : ℕ) (cs : List ℕ)
    → NoNul cs
    → bytes m a (suc (length cs)) ≡ cs ++ 0 ∷ []
    → path_matches m a (cs ++ 0 ∷ []) ≡ true
unfolding path_matches bytes
match_of_bytes m a [] nn h = ground arith
match_of_bytes m a (c ∷ cs) nn h = ground (arith, nn.0, match_of_bytes m (a + 1) cs nn.1)

abbrev console_name : List ℕ
console_name =
    b'/' ∷ b'd' ∷ b'e' ∷ b'v' ∷ b'/' ∷ b'c' ∷ b'o' ∷ b'n' ∷ b's' ∷ b'o' ∷ b'l' ∷ b'e' ∷ []

console_name-NoNul : NoNul console_name
console_name-NoNul = omega arith

-- `open` of a path whose 13 bytes, the NUL included, are not "/dev/console" fails with -ENOENT and
-- changes nothing.
pub sys_open_other :
    (s : System) (fr : Frame)
    → bytes s.memory fr.rdi 13 ≢ console_path
    → sys_open s fr ≡ (s, returns (error enoent))
unfolding sys_open
sys_open_other s fr h = elim (Bool-cases (path_matches s.memory fr.rdi console_path)) [
  | inl yes_same ↦
      absurd (h (bytes_of_match s.memory fr.rdi console_name console_name-NoNul yes_same))
  | inr other ↦ rw other refl
]

-- `open` of a path whose 13 bytes are "/dev/console" and its NUL returns the lowest descriptor that
-- was closed, which is then open for console input; or -EMFILE, if all were open.
pub sys_open_console :
    (s : System) (fr : Frame)
    → bytes s.memory fr.rdi 13 ≡ console_path
    → (((sys_open s fr).1 ≡ returns (error emfile))
        × ((j : ℕ) → j < length (caller s).fds → is_open (caller s).fds j ≡ true))
      ⊎ ((d : ℕ) × ((sys_open s fr).1 ≡ returns d)
          × (is_open (caller s).fds d ≡ false)
          × ((j : ℕ) → j < d → is_open (caller s).fds j ≡ true)
          × (fd_type (caller (sys_open s fr).0).fds d ≡ fd_console_in))
unfolding sys_open
sys_open_console s fr h =
    let found : path_matches s.memory fr.rdi console_path ≡ true =
      match_of_bytes s.memory fr.rdi console_name console_name-NoNul h in
    rw found (elim (fd_alloc_result (caller s).fds fd_console_in) [
      | inl (e, full) ↦ inl (rw e refl, full)
      | inr (d, lt, r, was, lower, opens, types) ↦ inr (
        d,
        rw r (ap returns (omega arith)),
        was,
        lower,
        rw (==_self s.kernel.current) (types d ∙ rw (==_self d) refl),
      )
    ])

-- The test of the source tells a zombie from every other state.
pub zombie_state : (st : TaskState) → is_zombie st ≡ true → st ≡ TaskState.zombie
zombie_state TaskState.ready e = cc
zombie_state TaskState.running e = cc
zombie_state TaskState.dead e = cc
zombie_state TaskState.zombie e = refl
zombie_state TaskState.blocked e = cc

wanted-parts :
    (ppid want : ℕ) (v : Task)
    → is_wanted_zombie ppid want v ≡ true
    → (is_zombie v.state ≡ true) × (v.ppid ≡ ppid) × ((want ≡ 2 ^ 64 - 1) ⊎ (v.pid ≡ want))
wanted-parts ppid want v e = (
  ground arith,
  ground arith,
  elim (Bool-cases (v.pid == want)) [
    | inl named ↦ inr (==→eq v.pid want named)
    | inr other ↦ inl (ground arith)
  ],
)

-- When a round of `wait4` returns, it returns the pid of a registered task, which was a zombie whose
-- `ppid` is the pid of the caller; it is the pid that the caller has asked for, unless that is -1.
-- That child is then dead, and every other task is as it was.
pub sys_wait4_reaps :
    (s : System) (fr : Frame) {v : ℕ}
    → (sys_wait4 s fr).1 ≡ returns v
    → (z : ℕ) × (registered z s.kernel.all_tasks ≡ true)
      × ((s.kernel.tasks z).state ≡ TaskState.zombie)
      × ((s.kernel.tasks z).ppid ≡ (caller s).pid)
      × ((fr.rdi ≡ 2 ^ 64 - 1) ⊎ ((s.kernel.tasks z).pid ≡ fr.rdi))
      × (v ≡ (s.kernel.tasks z).pid)
      × (((sys_wait4 s fr).0.kernel.tasks z).state ≡ TaskState.dead)
      × ((u : ℕ) → u ≢ z → (sys_wait4 s fr).0.kernel.tasks u ≡ s.kernel.tasks u)
unfolding sys_wait4 find_zombie reap
sys_wait4_reaps s fr {v} e =
    elim (Option-cases (find_zombie_in s.kernel.tasks (caller s).pid fr.rdi s.kernel.all_tasks)) [
      | inl missing ↦ absurd (ground arith)
      | inr (z, found) ↦
          let sound =
            find_zombie_sound s.kernel.tasks (caller s).pid fr.rdi s.kernel.all_tasks {z = z}
              found in
          let (gone, child, asked) =
            wanted-parts (caller s).pid fr.rdi (s.kernel.tasks z) sound.1 in
          (
            z,
            sound.0,
            zombie_state (s.kernel.tasks z).state gone,
            child,
            asked,
            ground arith,
            ground (arith, ==_self z),
            λ u ne. ground arith,
          )
    ]

-- When a round of `wait4` gives up the processor, no registered task is a zombie child of the
-- caller that it asks for.
pub sys_wait4_waits :
    (s : System) (fr : Frame) {next : Next} (t : ℕ)
    → (sys_wait4 s fr).1 ≡ leaves next
    → registered t s.kernel.all_tasks ≡ true
    → is_wanted_zombie (caller s).pid fr.rdi (s.kernel.tasks t) ≡ false
unfolding sys_wait4 find_zombie
sys_wait4_waits s fr t e h =
    elim (Option-cases (find_zombie_in s.kernel.tasks (caller s).pid fr.rdi s.kernel.all_tasks)) [
      | inl missing ↦
          find_zombie_complete s.kernel.tasks (caller s).pid fr.rdi s.kernel.all_tasks t missing h
      | inr (z, found) ↦ absurd (ground arith)
    ]

-- The caller of `exit` as it is left: a zombie with the status.
abbrev pub exited : System → Frame → Task
exited s fr = record (caller s) { exit_status = int_arg fr.rdi; state = TaskState.zombie }

abbrev pub exiting : System → Frame → Kernel
exiting s fr = put_task s.kernel s.kernel.current (exited s fr)

abbrev pub announced : System → Frame → Kernel
announced s fr = wakeup_children (exiting s fr) (caller s).pid (caller s).ppid

pub exiting-IsPlaced : (s : System) (fr : Frame) → IsPlaced s.kernel → IsPlaced (exiting s fr)
exiting-IsPlaced s fr v = record {
  run_distinct = v.run_distinct;
  blocked_distinct = v.blocked_distinct;
  apart = v.apart;
  readies =
      AllIn-update s.kernel.tasks TaskState.ready s.kernel.current _ s.kernel.runqueue
        v.run_distinct.0 v.readies;
  blocks =
      AllIn-update s.kernel.tasks TaskState.blocked s.kernel.current _ s.kernel.blocked_list
        (v.apart s.kernel.current (ground arith)) v.blocks;
}

-- a list that has an element has a first one
first_of_has : (t : ℕ) (ts : List ℕ) → has t ts ≡ true → (u : ℕ) × (us : List ℕ) × (ts ≡ u ∷ us)
first_of_has t [] h = cc
first_of_has t (u ∷ us) h = (u, us, refl)

-- Where every task is in one place, a child's `exit` wakes a parent that is blocked until any child
-- exits: another task is switched to, the parent runs or is on the run queue, the child is left a
-- zombie with its exit status, and the registry, where the parent searches, is unchanged.
pub sys_exit_wakes :
    (s : System) (fr : Frame) (parent : ℕ)
    → IsPlaced s.kernel
    → has parent s.kernel.blocked_list ≡ true
    → (s.kernel.tasks parent).block_on ≡ 0
    → (s.kernel.tasks parent).pid ≡ (caller s).ppid
    → let (s', r) = sys_exit s fr in
      (r ≡ leaves Next.switches)
      × (has parent (s'.kernel.current ∷ s'.kernel.runqueue) ≡ true)
      × (s'.kernel.tasks s.kernel.current ≡ exited s fr)
      × (s'.kernel.all_tasks ≡ s.kernel.all_tasks)
unfolding sys_exit
sys_exit_wakes s fr parent v waits any parent_of =
    let k : Kernel = exiting s fr in
    let me : ℕ = s.kernel.current in
    let placed : IsPlaced k = exiting-IsPlaced s fr v in
    let lem = wakeup_children-lists k (caller s).pid (caller s).ppid placed in
    let not_me : (me == parent) ≡ false = ground (arith, v.apart parent) in
    let out_me : has me s.kernel.blocked_list ≡ false = v.apart me (ground (arith, ==_self me)) in
    let frame = wakeup_children_frame k (caller s).pid (caller s).ppid me out_me in
    let self : k.tasks me ≡ exited s fr = rw (==_self me) refl in
    let called : has parent (woken k.tasks (caller s).pid (caller s).ppid s.kernel.blocked_list)
        ≡ true =
      waiting_parent_woken k.tasks (caller s).pid (caller s).ppid parent s.kernel.blocked_list waits
        (rw not_me any) (rw not_me parent_of) in
    let queued : has parent (announced s fr).runqueue ≡ true =
      rw lem.0 (has-append parent s.kernel.runqueue _ ∙ ground (arith, called)) in
    let (next, queue, shape) = first_of_has parent (announced s fr).runqueue queued in
    let gone : ((announced s fr).tasks (announced s fr).current).state ≡ TaskState.zombie =
      ap (λ c. ((announced s fr).tasks c).state) lem.2
      ∙ ap (λ (v : Task). v.state) (frame.0 ∙ self) in
    let apart : (next == (announced s fr).current) ≡ false =
      ground (arith, lem.3.run_distinct.0, shape) in
    let done = schedule_exited (announced s fr) next queue gone shape apart in
    (
      ap leaves done.0,
      rw (done.1, done.2) (rw shape at queued),
      ap (schedule (announced s fr)).0.tasks (sym lem.2)
          ∙ done.4
          ∙ ap (announced s fr).tasks lem.2
          ∙ frame.0
          ∙ self,
      done.3 ∙ frame.1,
    )
