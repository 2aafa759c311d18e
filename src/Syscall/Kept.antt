-- ===== src/Syscall/Kept.antt =====
-- The calls of core/cpu/syscall.c keep the invariant of the scheduler.
use uix.Base.{
  ℕ, ◌≡◌, refl, ◌∙◌, ap, true, false, inl, inr, List, ◌∷◌, ◌++◌, ◌==◌, arith, Bool-cases,
  Option-cases, ==_self, ==→eq, if_both, if_case,
}
use uix.Task.{TaskState, Task, Kernel, is_running, find_zombie, find_zombie_in, fd_type, fd_none}
use uix.Task.Zombies.{find_zombie_sound}
use uix.Sched.{yield}
use uix.Sched.Queue.{has, IsValid}
use uix.Sched.Wakeup.{wakeup_children-lists, wakeup_children_frame, woken}
use uix.Sched.Leaving.{
  IsValid-same, schedule_leaves, not_listed, put_other-IsValid, put_current-IsValid,
  block_any-IsValid,
}
use uix.Syscall.{
  System, Frame, Programs, Reply, caller, sys_exit, sys_write, sys_read, sys_close, sys_open,
  sys_wait4, dispatch, reap, int_arg, path_matches, console_path,
}
use uix.Syscall.Calls.{zombie_state, exited, exiting, announced, exiting-IsPlaced}

-- What the call in frame `fr` asks of the rest of the kernel: if it is `fork` or `execve`, that keeps the
-- invariant.
pub record KeepsValid (p : Programs) (s : System) (fr : Frame) : Type 0 where
  pub forks : fr.rax ≡ 7 → IsValid (p.do_fork s fr).0.kernel
  pub execs : fr.rax ≡ 8 → IsValid (p.do_execve s fr.rdi).0.kernel

append_cons : (next : ℕ) (queue us : List ℕ) → (next ∷ queue) ++ us ≡ next ∷ (queue ++ us)
append_cons next queue us = refl

sys_exit-IsValid :
    (s : System) (fr : Frame) (next : ℕ) (queue : List ℕ)
    → IsValid s.kernel
    → s.kernel.runqueue ≡ next ∷ queue
    → IsValid (sys_exit s fr).0.kernel
unfolding sys_exit
sys_exit-IsValid s fr next queue v e =
    let k : Kernel = exiting s fr in
    let me : ℕ = s.kernel.current in
    let lem =
      wakeup_children-lists k (caller s).pid (caller s).ppid (exiting-IsPlaced s fr v.placed) in
    let out_me : has me s.kernel.blocked_list ≡ false =
      v.placed.apart me (ground (arith, ==_self me)) in
    let frame = wakeup_children_frame k (caller s).pid (caller s).ppid me out_me in
    let self : k.tasks me ≡ exited s fr = rw (==_self me) refl in
    let gone : ((announced s fr).tasks (announced s fr).current).state ≡ TaskState.zombie =
      ap (λ c. ((announced s fr).tasks c).state) lem.2
      ∙ ap (λ (v : Task). v.state) (frame.0 ∙ self) in
    let more = woken k.tasks (caller s).pid (caller s).ppid s.kernel.blocked_list in
    schedule_leaves (announced s fr) next (queue ++ more) (ap is_running gone)
      (lem.0 ∙ ap (λ us. us ++ more) e)
      (record {
        queue_distinct = lem.3.run_distinct.1;
        blocked_distinct = lem.3.blocked_distinct;
        apart = λ t h. lem.3.apart t (ground arith);
        readies = lem.3.readies;
        blocks = lem.3.blocks;
      })

sys_wait4-IsValid :
    (s : System) (fr : Frame) (next : ℕ) (queue : List ℕ)
    → IsValid s.kernel
    → s.kernel.runqueue ≡ next ∷ queue
    → IsValid (sys_wait4 s fr).0.kernel
unfolding sys_wait4 find_zombie reap
sys_wait4-IsValid s fr next queue v e =
    elim (Option-cases (find_zombie_in s.kernel.tasks (caller s).pid fr.rdi s.kernel.all_tasks)) [
      | inl missing ↦ rw (sys_wait4, missing) (block_any-IsValid s.kernel next queue v e)
      | inr (z, found) ↦
          let sound =
            find_zombie_sound s.kernel.tasks (caller s).pid fr.rdi s.kernel.all_tasks {z = z}
              found in
          let gone : (s.kernel.tasks z).state ≡ TaskState.zombie =
            zombie_state (s.kernel.tasks z).state (ground (arith, sound.1)) in
          rw (sys_wait4, found)
            (put_other-IsValid s.kernel z (record (s.kernel.tasks z) { state = TaskState.dead }) v
              (ground (
                arith,
                not_listed s.kernel.tasks TaskState.ready z s.kernel.runqueue v.placed.readies
                    (λ e'. cc),
                ap (λ x. (s.kernel.tasks x).state) {x = z} {y = s.kernel.current},
                v.runs,
                ==→eq z s.kernel.current,
              ))
              (not_listed s.kernel.tasks TaskState.blocked z s.kernel.blocked_list v.placed.blocks
                (λ e'. cc)))
    ]

sys_close-IsValid : (s : System) (fr : Frame) → IsValid s.kernel → IsValid (sys_close s fr).0.kernel
unfolding sys_close
sys_close-IsValid s fr v = elim (Bool-cases (fd_type (caller s).fds (int_arg fr.rdi) == fd_none)) [
  | inl e ↦ rw e v
  | inr e ↦ rw e (put_current-IsValid s.kernel _ v v.runs)
]

sys_open-IsValid : (s : System) (fr : Frame) → IsValid s.kernel → IsValid (sys_open s fr).0.kernel
unfolding sys_open
sys_open-IsValid s fr v = elim (Bool-cases (path_matches s.memory fr.rdi console_path)) [
  | inl e ↦ rw e (put_current-IsValid s.kernel _ v v.runs)
  | inr e ↦ rw e v
]

sys_read-kernel : (s : System) (fr : Frame) → (sys_read s fr).0.kernel ≡ s.kernel
unfolding sys_read
sys_read-kernel s fr = ground arith

sys_write-kernel : (s : System) (fr : Frame) → (sys_write s fr).0.kernel ≡ s.kernel
unfolding sys_write
sys_write-kernel s fr = ground arith

yield-IsValid : (k : Kernel) → IsValid k → IsValid (yield k)
unfolding yield
yield-IsValid k v =
    IsValid-same k (record k { ticks_since_switch = 0; need_resched = true }) refl refl refl refl v

-- Where another task is ready, every call of the dispatcher keeps the invariant of the scheduler:
-- each task is current, ready on the run queue or blocked, in one place, and the current one runs.
pub dispatch-IsValid :
    (p : Programs) (s : System) (fr : Frame) (next : ℕ) (queue : List ℕ)
    → KeepsValid p s fr
    → IsValid s.kernel
    → s.kernel.runqueue ≡ next ∷ queue
    → IsValid (dispatch p s fr).0.kernel
unfolding dispatch
dispatch-IsValid p s fr next queue keeps v e =
    let P : System × Reply → Type 0 = λ r. IsValid r.0.kernel in
    if_both P (fr.rax == 0) (sys_exit-IsValid s fr next queue v e) (
      if_both P (fr.rax == 1) (rw (sys_write-kernel s fr) v) (
        if_both P (fr.rax == 2) v (
          if_both P (fr.rax == 3) (yield-IsValid s.kernel v) (
            if_both P (fr.rax == 4) (rw (sys_read-kernel s fr) v) (
              if_both P (fr.rax == 5) (sys_close-IsValid s fr v) (
                if_both P (fr.rax == 6) (sys_open-IsValid s fr v) (
                  if_case P (fr.rax == 7) (λ e. keeps.forks (==→eq fr.rax 7 e))
                    (if_case P (fr.rax == 8) (λ e. keeps.execs (==→eq fr.rax 8 e))
                      (if_both P (fr.rax == 9) (sys_wait4-IsValid s fr next queue v e) v)))))))))
