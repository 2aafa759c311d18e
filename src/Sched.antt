-- ===== src/Sched.antt =====
-- core/cpu/sched.c: the round-robin scheduler. `schedule` is cut at `switch_to`: what stands before
-- it is `schedule`, and what the task that is switched in runs after it is `resume`. Kernel stack
-- pointers and the TSS are left out.
pub mod Queue
pub mod RoundRobin
pub mod Wakeup
pub mod Leaving
use uix.Base.{
  ℕ, zero, suc, ◌+◌, ◌%◌, ◌^◌, Bool, true, false, Option, none, some, List, [], ◌∷◌, ◌++◌, ltb,
  ◌==◌, ◌&&◌, ◌||◌, not, if◌then◌else◌,
}
use uix.Task.{
  TaskState, is_dead, is_zombie, is_running, Task, Kernel, put_task, with_state, alloc_pid,
}

unfoldable pub enqueue : Kernel → ℕ → Kernel
enqueue k t = record k { runqueue = k.runqueue ++ t ∷ [] }

unfoldable pub enqueue_user : Kernel → ℕ → Kernel
unfolding enqueue alloc_pid
enqueue_user k t =
    let (pid, k') = alloc_pid k in enqueue (put_task k' t (record (k'.tasks t) { pid = pid })) t

unfoldable pub init : Kernel → Kernel
init k = record k { runqueue = [] }

-- what a call of `schedule` comes to: the caller goes on, another task runs, or the machine halts
pub data Next : Type 0 where
  stays switches halts : Next

-- `if (zombie && zombie != …)`: the task that died and has been left is freed
unfoldable pub free_zombie : Kernel → Kernel
free_zombie k = elim k.zombie [
  | none ↦ k
  | some z ↦ if z == k.current then k else record k { freed = z ∷ k.freed; zombie = none }
]

-- what happens to the task that is left
unfoldable pub put_prev : Kernel → Kernel
unfolding enqueue
put_prev k =
    let prev = k.current in
    if is_running (k.tasks prev).state
    then enqueue (with_state k prev TaskState.ready) prev
    else if is_dead (k.tasks prev).state
    then record k { zombie = some prev }
    else k

unfoldable pub switch_in : Kernel → ℕ → Kernel
switch_in k next =
    let k' = record (with_state k next TaskState.running) { current = next } in
    let cr3 = (k.tasks next).cr3 in
    if not (cr3 == 0) && not (cr3 == k.kernel_cr3) then record k' { space = cr3 } else k'

-- `schedule` past its first reaping, with the run queue in sight
unfoldable pub pick : Kernel → List ℕ → Kernel × Next
unfolding put_prev switch_in
pick k [] =
    if is_dead (k.tasks k.current).state || is_zombie (k.tasks k.current).state
    then (k, Next.halts)
    else (k, Next.stays)
pick k (next ∷ queue) = (switch_in (put_prev (record k { runqueue = queue })) next, Next.switches)

unfoldable pub schedule : Kernel → Kernel × Next
unfolding free_zombie pick
schedule k = let k' = free_zombie k in pick k' k'.runqueue

unfoldable pub resume : Kernel → Kernel
unfolding free_zombie
resume k = free_zombie k

-- `task_block` and `task_block_any` up to their call of `schedule`
unfoldable pub put_blocked : Kernel → Kernel
put_blocked k = record (with_state k k.current TaskState.blocked) {
  blocked_list = k.current ∷ k.blocked_list;
}

unfoldable pub block : Kernel → Kernel × Next
unfolding put_blocked
block k = schedule (put_blocked k)

unfoldable pub put_blocked_any : Kernel → Kernel
unfolding put_blocked
put_blocked_any k = put_blocked (put_task k k.current (record (k.tasks k.current) { block_on = 0 }))

unfoldable pub block_any : Kernel → Kernel × Next
unfolding put_blocked_any
block_any k = schedule (put_blocked_any k)

abbrev pub is_woken : ℕ → ℕ → Task → Bool
is_woken exiting_pid exiting_ppid v =
    (v.block_on == 0 && v.pid == exiting_ppid) || v.block_on == exiting_pid

abbrev pub wake : Kernel → ℕ → Kernel
wake k t = record (with_state k t TaskState.ready) { runqueue = k.runqueue ++ t ∷ [] }

-- The loop of `task_wakeup_children` over the blocked list: the state, and the list left.
unfoldable pub wake_scan : Kernel → ℕ → ℕ → List ℕ → Kernel × List ℕ
wake_scan k pid ppid [] = (k, [])
wake_scan k pid ppid (t ∷ ts) =
    let woken = wake_scan (wake k t) pid ppid ts in
    let (k', left) = wake_scan k pid ppid ts in
    if is_woken pid ppid (k.tasks t) then woken else (k', t ∷ left)

unfoldable pub wakeup_children : Kernel → ℕ → ℕ → Kernel
unfolding wake_scan
wakeup_children k pid ppid =
    let (k', left) = wake_scan k pid ppid k.blocked_list in record k' { blocked_list = left }

-- The loop of `task_wakeup`, which stops at the first match.
unfoldable pub wake_first : Kernel → ℕ → List ℕ → Kernel × List ℕ
wake_first k pid [] = (k, [])
wake_first k pid (t ∷ ts) =
    let (k', left) = wake_first k pid ts in
    if (k.tasks t).block_on == pid then (wake k t, ts) else (k', t ∷ left)

unfoldable pub wakeup : Kernel → ℕ → Kernel
unfolding wake_first
wakeup k pid = let (k', left) = wake_first k pid k.blocked_list in record k' { blocked_list = left }

abbrev pub time_slice : ℕ
time_slice = 2

unfoldable pub tick : Kernel → Kernel × Next
tick k =
    let ticks = (k.ticks_since_switch + 1) % 2 ^ 64 in
    if not k.need_resched && ltb ticks time_slice
    then (record k { ticks_since_switch = ticks }, Next.stays)
    else schedule (record k { need_resched = false; ticks_since_switch = 0 })

unfoldable pub yield : Kernel → Kernel
yield k = record k { ticks_since_switch = 0; need_resched = true }

unfoldable pub exit : Kernel → Kernel × Next
exit k = schedule (with_state k k.current TaskState.dead)

-- `sched_start` up to the loop of the bootstrap task, which halts until the next interrupt
unfoldable pub sched_start : Kernel → Kernel × Next
unfolding schedule
sched_start k = schedule k
