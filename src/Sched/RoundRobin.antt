-- ===== src/Sched/RoundRobin.antt =====
-- `schedule` and `sched_tick` of core/cpu/sched.c: the turn goes round.
use uix.Base.{
  ℕ, zero, suc, ◌+◌, ◌<◌, ◌≡◌, refl, ◌∙◌, ap, true, false, inl, inr, List, [], ◌∷◌, ◌++◌, ltb, ◌==◌,
  ◌||◌, if◌then◌else◌, arith, Bool-cases, length, ==_self, ◌^◌, ◌%◌, ◌-◌,
}
use mathlib.Core.List.{append_assoc}
use uix.Task.{TaskState, Task, Kernel, update}
use uix.Sched.{schedule, pick, put_prev, switch_in, free_zombie, enqueue, Next, tick}
use uix.Sched.Queue.{has, AllIn-update, AllIn-append, Distinct-snoc, Placed, IsValid, has-append}

-- the tasks after `cur` gave the processor to `next`
abbrev turned : (ℕ → Task) → ℕ → ℕ → ℕ → Task
turned tasks cur next =
    let tasks' = update tasks cur (record (tasks cur) { state = TaskState.ready }) in
    update tasks' next (record (tasks' next) { state = TaskState.running })

turn-Placed :
    (tasks : ℕ → Task) (cur next : ℕ) (queue blocked : List ℕ)
    → Placed tasks cur (next ∷ queue) blocked
    → Placed (turned tasks cur next) next (queue ++ cur ∷ []) blocked
turn-Placed tasks cur next queue blocked v =
    let other : (next == cur) ≡ false = ground (arith, v.run_distinct.0) in
    let back : (cur == cur) ≡ true = ground arith in
    let tasks' : (ℕ → Task) = update tasks cur (record (tasks cur) { state = TaskState.ready }) in
    let out_cur : has cur queue ≡ false = ground (arith, v.run_distinct.0) in
    record {
      run_distinct = (
        has-append next queue (cur ∷ []) ∙ ground (arith, v.run_distinct.1.0),
        Distinct-snoc queue cur out_cur v.run_distinct.1.1,
      );
      blocked_distinct = v.blocked_distinct;
      apart = λ t h. v.apart t (ground (arith, has-append t queue (cur ∷ [])));
      readies =
          AllIn-append (turned tasks cur next) TaskState.ready queue (cur ∷ [])
            (AllIn-update tasks' TaskState.ready next _ queue v.run_distinct.1.0
              (AllIn-update tasks TaskState.ready cur _ queue out_cur v.readies.1))
            (rw (other, back) (refl, tt));
      blocks = AllIn-update tasks' TaskState.blocked next _ blocked (v.apart next (ground arith)) (
          AllIn-update tasks TaskState.blocked cur _ blocked (v.apart cur (ground arith)) v.blocks);
    }

-- What `schedule` looks at is left alone when a dead task is freed.
pub free_zombie_lem :
    (k : Kernel)
    → ((free_zombie k).tasks ≡ k.tasks)
      × ((free_zombie k).current ≡ k.current)
      × ((free_zombie k).runqueue ≡ k.runqueue)
      × ((free_zombie k).blocked_list ≡ k.blocked_list)
unfolding free_zombie
free_zombie_lem k = ground arith

pick_turn :
    (k : Kernel) (next : ℕ) (queue : List ℕ)
    → (k.tasks k.current).state ≡ TaskState.running
    → let r = pick k (next ∷ queue) in
      (r.1 ≡ Next.switches)
      × (r.0.current ≡ next)
      × (r.0.runqueue ≡ queue ++ k.current ∷ [])
      × (r.0.blocked_list ≡ k.blocked_list)
      × (r.0.tasks ≡ turned k.tasks k.current next)
unfolding pick put_prev switch_in enqueue
pick_turn k next queue runs = simp runs (ground arith)

pub schedule-pick :
    (k : Kernel) (next : ℕ) (queue : List ℕ)
    → k.runqueue ≡ next ∷ queue
    → schedule k ≡ pick (free_zombie k) (next ∷ queue)
unfolding schedule
schedule-pick k next queue e = ap (pick (free_zombie k)) ((free_zombie_lem k).2 ∙ e)

-- In a valid state with `next` at the head of the run queue, `schedule` switches to `next`; the
-- caller goes to the end of the queue, the blocked tasks stay blocked, and the invariant holds, so
-- that `next` is running and the queue is ready.
pub schedule_turn :
    (k : Kernel) (next : ℕ) (queue : List ℕ)
    → IsValid k
    → k.runqueue ≡ next ∷ queue
    → let k' = (schedule k).0 in
      ((schedule k).1 ≡ Next.switches)
      × (k'.current ≡ next)
      × (k'.runqueue ≡ queue ++ k.current ∷ [])
      × (k'.blocked_list ≡ k.blocked_list)
      × IsValid k'
schedule_turn k next queue v e =
    let z = free_zombie_lem k in
    let p = pick_turn (free_zombie k) next queue (rw (z.0, z.1) v.runs) in
    let v' : Placed k.tasks k.current (next ∷ queue) k.blocked_list = rw (← e) v.placed in
    rw (schedule-pick k next queue e) (
      p.0,
      p.1,
      p.2 ∙ ap (λ c. queue ++ c ∷ []) z.1,
      p.3 ∙ z.3,
      record {
        placed =
            rw (p.4, p.1, p.2, p.3, z.0, z.1, z.3)
              (turn-Placed k.tasks k.current next queue k.blocked_list v');
        runs = rw (p.4, p.1, ==_self next) refl;
      },
    )

pick_alone :
    (k : Kernel) → (k.tasks k.current).state ≡ TaskState.running → pick k [] ≡ (k, Next.stays)
unfolding pick
pick_alone k runs = simp runs refl

-- With nothing on the run queue a running caller goes on, and nothing changes but the freeing of
-- a dead task that it has left.
pub schedule_alone :
    (k : Kernel) → IsValid k → k.runqueue ≡ [] → schedule k ≡ (free_zombie k, Next.stays)
unfolding schedule
schedule_alone k v e =
    let z = free_zombie_lem k in
    ap (pick (free_zombie k)) (z.2 ∙ e) ∙ pick_alone (free_zombie k) (rw (z.0, z.1) v.runs)

-- `n` time slices of tasks that all keep running
unfoldable pub slices : ℕ → Kernel → Kernel
slices zero k = k
slices (suc n) k = slices n (schedule k).0

-- From a valid state in which every task keeps running its slice out, every task on the run queue
-- gets its turn: the task with `length before` tasks in front of it runs after that many calls of
-- `schedule` and one more. The tasks that ran before it then wait behind those that were behind
-- it, the blocked tasks stay blocked, and the invariant holds.
pub slices_fair :
    (before : List ℕ) (k : Kernel) (t : ℕ) (after : List ℕ)
    → IsValid k
    → k.runqueue ≡ before ++ t ∷ after
    → let k' = slices (suc (length before)) k in
      (k'.current ≡ t)
      × (k'.runqueue ≡ after ++ k.current ∷ before)
      × (k'.blocked_list ≡ k.blocked_list)
      × IsValid k'
unfolding slices
slices_fair [] k t after v e = let s = schedule_turn k t after v e in (s.1, s.2, s.3, s.4)
slices_fair (u ∷ before) k t after v e =
    let s = schedule_turn k u (before ++ t ∷ after) v e in
    let later =
      slices_fair before (schedule k).0 t (after ++ k.current ∷ []) s.4
        (s.2 ∙ append_assoc before (t ∷ after) (k.current ∷ [])) in
    (
      later.0,
      later.1 ∙ rw s.1 (append_assoc after (k.current ∷ []) (u ∷ before)),
      later.2 ∙ s.3,
      later.3,
    )

-- While the counter does not wrap, a timer tick calls `schedule`, with the counter and the request
-- cleared, exactly if `task_yield` has asked for it or a tick has passed since the last switch;
-- otherwise it counts.
pub tick_slice :
    (k : Kernel)
    → k.ticks_since_switch < 2 ^ 64 - 1
    → tick k ≡ (
        if k.need_resched || ltb 0 k.ticks_since_switch
        then schedule (record k { need_resched = false; ticks_since_switch = 0 })
        else (record k { ticks_since_switch = k.ticks_since_switch + 1 }, Next.stays))
unfolding tick
tick_slice k h =
    let no_wrap : (k.ticks_since_switch + 1) % 2 ^ 64 ≡ k.ticks_since_switch + 1 = omega arith in
    elim (Bool-cases k.need_resched) [
      | inl asked ↦ simp asked refl
      | inr calm ↦ elim (Bool-cases (ltb 0 k.ticks_since_switch)) [
        | inl late ↦
            let over : ltb (k.ticks_since_switch + 1) 2 ≡ false = ground arith in
            simp (calm, no_wrap, over, late) refl
        | inr early ↦
            let under : ltb (k.ticks_since_switch + 1) 2 ≡ true = ground arith in
            simp (calm, no_wrap, under, early) refl
      ]
    ]

pick_exited :
    (k : Kernel) (next : ℕ) (queue : List ℕ)
    → (k.tasks k.current).state ≡ TaskState.zombie
    → let r = pick k (next ∷ queue) in
      (r.1 ≡ Next.switches)
      × (r.0.current ≡ next)
      × (r.0.runqueue ≡ queue)
      × (r.0.all_tasks ≡ k.all_tasks)
      × ((u : ℕ) → (next == u) ≡ false → r.0.tasks u ≡ k.tasks u)
unfolding pick put_prev switch_in
pick_exited k next queue gone =
    simp gone (refl, ground arith, ground arith, ground arith, λ u other. ground arith)

free_zombie_registry : (k : Kernel) → (free_zombie k).all_tasks ≡ k.all_tasks
unfolding free_zombie
free_zombie_registry k = ground arith

-- `schedule` in a task that has become a zombie switches to the head of the run queue, another
-- task. The zombie stays as it is, and the registry is unchanged; it is not put on the run queue.
pub schedule_exited :
    (k : Kernel) (next : ℕ) (queue : List ℕ)
    → (k.tasks k.current).state ≡ TaskState.zombie
    → k.runqueue ≡ next ∷ queue
    → (next == k.current) ≡ false
    → let k' = (schedule k).0 in
      ((schedule k).1 ≡ Next.switches)
      × (k'.current ≡ next)
      × (k'.runqueue ≡ queue)
      × (k'.all_tasks ≡ k.all_tasks)
      × (k'.tasks k.current ≡ k.tasks k.current)
schedule_exited k next queue gone e other =
    let z = free_zombie_lem k in
    let p = pick_exited (free_zombie k) next queue (rw (z.0, z.1) gone) in
    rw (schedule-pick k next queue e)
      (p.0, p.1, p.2, p.3 ∙ free_zombie_registry k, p.4 k.current other ∙ rw z.0 refl)
