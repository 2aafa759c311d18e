-- ===== src/Sched/Leaving.antt =====
-- `schedule` of core/cpu/sched.c in a task that does not run on, and what keeps the invariant.
use uix.Base.{
  ℕ, ◌≡◌, ◌≢◌, refl, sym, ◌∙◌, ap, true, false, inl, inr, List, [], ◌∷◌, ◌==◌, arith, Bool-cases,
  ==_self, ==→eq, ◌⊎◌, not, ◌&&◌, ltb, ◌+◌, ◌%◌, ◌^◌,
}
use uix.Task.{TaskState, Task, Kernel, update, put_task, is_running}
use uix.Sched.{
  schedule, pick, put_prev, switch_in, free_zombie, tick, put_blocked, put_blocked_any, block_any,
}
use uix.Sched.Queue.{has, Distinct, AllIn, AllIn-update, Placed, IsValid}
use uix.Sched.RoundRobin.{free_zombie_lem, schedule-pick, schedule_turn, schedule_alone}

-- The run queue and the blocked list, apart, with each task in the state of its list.
pub record Parted (tasks : ℕ → Task) (queue blocked : List ℕ) : Type 0 where
  pub queue_distinct : Distinct queue
  pub blocked_distinct : Distinct blocked
  pub apart : (t : ℕ) → has t queue ≡ true → has t blocked ≡ false
  pub readies : AllIn tasks TaskState.ready queue
  pub blocks : AllIn tasks TaskState.blocked blocked

switch_in-Placed :
    (tasks : ℕ → Task) (next : ℕ) (queue blocked : List ℕ) (v : Task)
    → Parted tasks (next ∷ queue) blocked
    → Placed (update tasks next v) next queue blocked
switch_in-Placed tasks next queue blocked v p = record {
  run_distinct = p.queue_distinct;
  blocked_distinct = p.blocked_distinct;
  apart = p.apart;
  readies = AllIn-update tasks TaskState.ready next v queue p.queue_distinct.0 p.readies.1;
  blocks =
      AllIn-update tasks TaskState.blocked next v blocked
        (p.apart next (ground (arith, ==_self next))) p.blocks;
}

put_prev_gone :
    (k : Kernel)
    → is_running (k.tasks k.current).state ≡ false
    → ((put_prev k).tasks ≡ k.tasks)
      × ((put_prev k).runqueue ≡ k.runqueue)
      × ((put_prev k).blocked_list ≡ k.blocked_list)
unfolding put_prev
put_prev_gone k gone = ground arith

pick_leaves :
    (k : Kernel) (next : ℕ) (queue : List ℕ)
    → is_running (k.tasks k.current).state ≡ false
    → let r = pick k (next ∷ queue) in
      (r.0.current ≡ next)
      × (r.0.runqueue ≡ queue)
      × (r.0.blocked_list ≡ k.blocked_list)
      × (r.0.tasks ≡ update k.tasks next (record (k.tasks next) { state = TaskState.running }))
unfolding pick switch_in put_prev
pick_leaves k next queue gone = simp gone (ground arith)

-- In a task that does not run on, `schedule` makes the head of the run queue the running task.
pub schedule_leaves :
    (k : Kernel) (next : ℕ) (queue : List ℕ)
    → is_running (k.tasks k.current).state ≡ false
    → k.runqueue ≡ next ∷ queue
    → Parted k.tasks k.runqueue k.blocked_list
    → IsValid (schedule k).0
schedule_leaves k next queue gone e v =
    let z = free_zombie_lem k in
    let p = pick_leaves (free_zombie k) next queue (rw (z.0, z.1) gone) in
    let v' : Parted k.tasks (next ∷ queue) k.blocked_list = rw (sym e) v in
    rw (schedule-pick k next queue e) (record {
      placed =
          rw (p.3, p.0, p.1, p.2, z.0, z.3)
            (switch_in-Placed k.tasks next queue k.blocked_list
              (record (k.tasks next) { state = TaskState.running }) v');
      runs = rw (p.3, p.0, ==_self next) refl;
    })

-- The invariant reads four fields of the state only.
pub IsValid-same :
    (k k' : Kernel)
    → k'.tasks ≡ k.tasks
    → k'.current ≡ k.current
    → k'.runqueue ≡ k.runqueue
    → k'.blocked_list ≡ k.blocked_list
    → IsValid k
    → IsValid k'
IsValid-same k k' et ec eq eb v = record {
  placed = rw (et, ec, eq, eb) v.placed;
  runs = rw (et, ec) v.runs;
}

free_zombie-IsValid : (k : Kernel) → IsValid k → IsValid (free_zombie k)
free_zombie-IsValid k v =
    let z = free_zombie_lem k in IsValid-same k (free_zombie k) z.0 z.1 z.2 z.3 v

queue_cases : (ts : List ℕ) → (ts ≡ []) ⊎ ((t : ℕ) × (us : List ℕ) × (ts ≡ t ∷ us))
queue_cases [] = inl refl
queue_cases (t ∷ us) = inr (t, us, refl)

pub schedule-IsValid : (k : Kernel) → IsValid k → IsValid (schedule k).0
schedule-IsValid k v = elim (queue_cases k.runqueue) [
  | inl e ↦ rw (schedule_alone k v e) (free_zombie-IsValid k v)
  | inr (next, queue, e) ↦ (schedule_turn k next queue v e).4
]

pub tick-IsValid : (k : Kernel) → IsValid k → IsValid (tick k).0
unfolding tick
tick-IsValid k v =
    let ticks = (k.ticks_since_switch + 1) % 2 ^ 64 in
    elim (Bool-cases (not k.need_resched && ltb ticks 2)) [
      | inl e ↦
          rw e (IsValid-same k (record k { ticks_since_switch = ticks }) refl refl refl refl v)
      | inr e ↦ rw e (
          schedule-IsValid (record k { need_resched = false; ticks_since_switch = 0 })
            (IsValid-same k (record k { need_resched = false; ticks_since_switch = 0 }) refl refl
              refl refl v))
    ]

-- A task in another state is not on a list.
pub not_listed :
    (tasks : ℕ → Task) (st : TaskState) (t : ℕ) (ts : List ℕ)
    → AllIn tasks st ts
    → (tasks t).state ≢ st
    → has t ts ≡ false
not_listed tasks st t [] all ne = refl
not_listed tasks st t (u ∷ us) all ne = elim (Bool-cases (t == u)) [
  | inl e ↦ absurd (ne (ap (λ x. (tasks x).state) (==→eq t u e) ∙ all.0))
  | inr e ↦ rw e (not_listed tasks st t us all.1 ne)
]

-- A change of a task that is on no list, and is not current, keeps the invariant;
pub put_other-IsValid :
    (k : Kernel) (t : ℕ) (v : Task)
    → IsValid k
    → has t (k.current ∷ k.runqueue) ≡ false
    → has t k.blocked_list ≡ false
    → IsValid (put_task k t v)
put_other-IsValid k t v w out out' =
    let other : (t == k.current) ≡ false = ground arith in
    record {
      placed = record {
        run_distinct = w.placed.run_distinct;
        blocked_distinct = w.placed.blocked_distinct;
        apart = w.placed.apart;
        readies =
            AllIn-update k.tasks TaskState.ready t v k.runqueue (ground arith) w.placed.readies;
        blocks = AllIn-update k.tasks TaskState.blocked t v k.blocked_list out' w.placed.blocks;
      };
      runs = rw other w.runs;
    }

-- and so does a change of the current task that leaves it running.
pub put_current-IsValid :
    (k : Kernel) (v : Task)
    → IsValid k
    → v.state ≡ TaskState.running
    → IsValid (put_task k k.current v)
put_current-IsValid k v w running = record {
  placed = record {
    run_distinct = w.placed.run_distinct;
    blocked_distinct = w.placed.blocked_distinct;
    apart = w.placed.apart;
    readies =
        AllIn-update k.tasks TaskState.ready k.current v k.runqueue w.placed.run_distinct.0
          w.placed.readies;
    blocks =
        AllIn-update k.tasks TaskState.blocked k.current v k.blocked_list
          (w.placed.apart k.current (ground (arith, ==_self k.current))) w.placed.blocks;
  };
  runs = rw (==_self k.current) running;
}

-- A task that blocks leaves the processor to another one.
pub block_any-IsValid :
    (k : Kernel) (next : ℕ) (queue : List ℕ)
    → IsValid k
    → k.runqueue ≡ next ∷ queue
    → IsValid (block_any k).0
unfolding block_any put_blocked_any put_blocked
block_any-IsValid k next queue w e =
    let me = k.current in
    let self : (me == me) ≡ true = ==_self me in
    let first : Task = record (k.tasks me) { block_on = 0 } in
    let tasks' : (ℕ → Task) = update k.tasks me first in
    let out : has me k.blocked_list ≡ false = w.placed.apart me (ground (arith, self)) in
    schedule_leaves (put_blocked_any k) next queue (rw self refl) e (record {
      queue_distinct = w.placed.run_distinct.1;
      blocked_distinct = (out, w.placed.blocked_distinct);
      apart = λ t h. ground (
        arith,
        w.placed.apart t,
        w.placed.run_distinct.0,
        ==→eq t me,
        ap (λ x. has x k.runqueue) {x = t} {y = me},
      );
      readies = AllIn-update tasks' TaskState.ready me _ k.runqueue w.placed.run_distinct.0 (
          AllIn-update k.tasks TaskState.ready me first k.runqueue w.placed.run_distinct.0
            w.placed.readies);
      blocks = (
        rw self refl,
        AllIn-update tasks' TaskState.blocked me _ k.blocked_list out
            (AllIn-update k.tasks TaskState.blocked me first k.blocked_list out w.placed.blocks),
      );
    })
