-- ===== src/Exec/NewTask.antt =====
-- `user_task_create` of core/cpu/user.c.
use uix.Base.{
  ℕ, ◌+◌, ◌%◌, ◌^◌, ◌<◌, ◌≡◌, ◌≢◌, refl, ◌∙◌, ap, true, false, some, [], ◌∷◌, ◌++◌, ◌==◌, ne→==,
  Bool, if◌then◌else◌, none, ==_self, ok, ◌>>=◌,
}
use uix.Libc.{Memory}
use uix.Vmm.Backing.{kernel_pages}
use uix.Task.{TaskState, Task, Kernel, put_task, register, zero_task, alloc_pid}
use uix.Sched.{enqueue, enqueue_user}
use uix.Sched.Queue.{has, IsValid}
use uix.Sched.Leaving.{put_other-IsValid, IsValid-same}
use uix.Spawn.{kstack_size, set_rsp, switch_to, user_enter, user_stack}
use uix.Spawn.Frames.{switch_to-stacks}
use uix.Spawn.Child.{enqueue-IsValid}
use uix.Exec.{World, Env, stdio, user_space, user_task_create}
use uix.Exec.Image.{Space}

-- A ready task that is on no list can be given a pid and a place in the run queue.
enqueue_user-IsValid :
    (k : Kernel) (t : ℕ)
    → IsValid k
    → has t (k.current ∷ k.runqueue) ≡ false
    → has t k.blocked_list ≡ false
    → (k.tasks t).state ≡ TaskState.ready
    → IsValid (enqueue_user k t)
unfolding enqueue_user alloc_pid
enqueue_user-IsValid k t v out out' ready =
    let k' : Kernel =
      put_task (record k { next_pid = (k.next_pid + 1) % 2 ^ 64 }) t
        (record (k.tasks t) { pid = k.next_pid }) in
    let v' : IsValid k' =
      IsValid-same (put_task k t (record (k.tasks t) { pid = k.next_pid })) k' refl refl refl refl
        (put_other-IsValid k t (record (k.tasks t) { pid = k.next_pid }) v out out') in
    enqueue-IsValid k' t v' out out' (rw (==_self t) ready)

-- Where the task and its stack are to be had, the new task is on no list, and its space has been filled,
-- `user_task_create` returns the task, with that space: the scheduler's invariant is kept, the task
-- is at the end of the run queue with the next pid, no parent, its first three descriptors on the terminal
-- and the console, and the first switch to it goes on in user mode at the first byte of its code.
pub user_task_create_lem :
    (env : Env) (w : World) (t kstack : ℕ) (img : Memory) (len : ℕ) (s : Space kernel_pages)
    (cr3 : ℕ)
    → IsValid w.system.kernel
    → t ≢ 0
    → kstack ≢ 0
    → kstack + kstack_size < 2 ^ 64
    → has t (w.system.kernel.current ∷ w.system.kernel.runqueue) ≡ false
    → has t w.system.kernel.blocked_list ≡ false
    → user_space env w.vmm w.system.memory img len ≡ ok (s, cr3)
    → (w' : World) × (user_task_create env w t kstack img len ≡ ok (w', some (t, s.memory)))
      × IsValid w'.system.kernel
      × (w'.system.kernel.runqueue ≡ w.system.kernel.runqueue ++ t ∷ [])
      × (w'.system.kernel.tasks t ≡ record zero_task {
        pid = w.system.kernel.next_pid;
        cr3 = cr3;
        is_user = true;
        fds = stdio zero_task.fds;
      })
      × (w'.vmm ≡ s.pages)
      × (user_enter (switch_to (record { words = w'.stacks.words; sp = w'.stacks.rsps t }))
          ≡ 0x400000 ∷ 0x1B ∷ 0x202 ∷ 0x7FFFF0 ∷ 0x23 ∷ [])
unfolding user_task_create register enqueue_user enqueue alloc_pid
user_task_create_lem env w t kstack img len s cr3 v some_task some_stack room out out' filled =
    let k = w.system.kernel in
    let fresh : Task = record zero_task { is_user = true; fds = stdio zero_task.fds } in
    let k1 : Kernel = register (put_task k t fresh) t in
    let k2 : Kernel = put_task k1 t (record (k1.tasks t) { cr3 = cr3 }) in
    let v1 : IsValid k1 =
      IsValid-same (put_task k t fresh) k1 refl refl refl refl
        (put_other-IsValid k t fresh v out out') in
    let v2 : IsValid k2 = put_other-IsValid k1 t (record (k1.tasks t) { cr3 = cr3 }) v1 out out' in
    let self = ==_self t in
    let st = set_rsp w.stacks t (user_stack w.stacks.words kstack env.user_launch_trampoline) in
    let finished = λ (r : Space kernel_pages × ℕ). ok (
      record w {
        system = record w.system {
          kernel = enqueue_user (put_task k1 t (record (k1.tasks t) { cr3 = r.1 })) t;
        };
        vmm = r.0.pages;
        stacks = st;
      },
      some (t, r.0.memory),
    ) in
    let whole = user_space env w.vmm w.system.memory img len >>= finished in
    let made_stack = λ (b : Bool). if b then ok (w, none) else whole in
    let made = λ (b : Bool). if b then ok (w, none) else made_stack (kstack == 0) in
    let w' : World = record w {
      system = record w.system { kernel = enqueue_user k2 t };
      vmm = s.pages;
      stacks = st;
    } in
    let start = switch_to-stacks w.stacks.words kstack env.user_launch_trampoline 0 0 0 0 room in
    (
      w',
      ap made (ne→== t 0 some_task)
          ∙ ap made_stack (ne→== kstack 0 some_stack)
          ∙ ap (λ m. m >>= finished) filled,
      enqueue_user-IsValid k2 t v2 out out' (rw self refl),
      refl,
      rw self refl,
      refl,
      rw self start.2,
    )
