-- ===== src/Sched/Wakeup.antt =====
-- `task_wakeup_children` of core/cpu/sched.c: who is woken, in which order, and what stays.
use mathlib.Core.List.{append_assoc, append-nil}
use uix.Base.{
  ℕ, ◌≡◌, refl, sym, ◌∙◌, ap, true, false, inl, inr, ◌⊎◌, List, [], ◌∷◌, ◌++◌, ◌==◌, if◌then◌else◌,
  arith, Bool-cases, ==→eq, ==_self,
}
use uix.Task.{TaskState, Task, Kernel, update}
use uix.Sched.{wake, wake_scan, wakeup_children, is_woken}
use uix.Sched.Queue.{
  has, Distinct, AllIn, AllIn-update, AllIn-append, Distinct-snoc, Placed, IsPlaced, has-append,
}

-- the blocked tasks that an exit wakes, in the order of the list
unfoldable pub woken : (ℕ → Task) → ℕ → ℕ → List ℕ → List ℕ
woken tasks pid ppid [] = []
woken tasks pid ppid (t ∷ ts) =
    if is_woken pid ppid (tasks t) then t ∷ woken tasks pid ppid ts else woken tasks pid ppid ts

-- those that it leaves blocked
unfoldable pub asleep : (ℕ → Task) → ℕ → ℕ → List ℕ → List ℕ
asleep tasks pid ppid [] = []
asleep tasks pid ppid (t ∷ ts) =
    if is_woken pid ppid (tasks t) then asleep tasks pid ppid ts else t ∷ asleep tasks pid ppid ts

-- A change of state does not change who is woken.
same_choice :
    (tasks : ℕ → Task) (t u pid ppid : ℕ) (st : TaskState)
    → is_woken pid ppid (update tasks t (record (tasks t) { state = st }) u)
      ≡ is_woken pid ppid (tasks u)
same_choice tasks t u pid ppid st = elim (Bool-cases (t == u)) [
  | inl e ↦ rw (==→eq t u e, ==_self u)
  | inr e ↦ rw e
]

woken-state :
    (tasks : ℕ → Task) (t pid ppid : ℕ) (st : TaskState) (ts : List ℕ)
    → let tasks' = update tasks t (record (tasks t) { state = st }) in
      (woken tasks' pid ppid ts ≡ woken tasks pid ppid ts)
      × (asleep tasks' pid ppid ts ≡ asleep tasks pid ppid ts)
unfolding woken asleep
woken-state tasks t pid ppid st [] = (refl, refl)
woken-state tasks t pid ppid st (u ∷ us) =
    let later = woken-state tasks t pid ppid st us in
    rw (same_choice tasks t u pid ppid st, later.0, later.1) (refl, refl)

wake_scan_lists :
    (k : Kernel) (pid ppid : ℕ) (ts : List ℕ)
    → let r = wake_scan k pid ppid ts in
      (r.0.runqueue ≡ k.runqueue ++ woken k.tasks pid ppid ts)
      × (r.1 ≡ asleep k.tasks pid ppid ts)
      × (r.0.current ≡ k.current)
unfolding wake_scan woken asleep
wake_scan_lists k pid ppid [] = (sym (append-nil k.runqueue), refl, refl)
wake_scan_lists k pid ppid (t ∷ ts) = elim (Bool-cases (is_woken pid ppid (k.tasks t))) [
  | inl yes_woken ↦
      let later = wake_scan_lists (wake k t) pid ppid ts in
      let same = woken-state k.tasks t pid ppid TaskState.ready ts in
      rw yes_woken (
        later.0 ∙ rw same.0 (append_assoc k.runqueue (t ∷ []) (woken k.tasks pid ppid ts)),
        later.1 ∙ same.1,
        later.2,
      )
  | inr not_woken ↦
      let later = wake_scan_lists k pid ppid ts in
      rw not_woken (later.0, ap (λ us. t ∷ us) later.1, later.2)
]

-- Taking one element out of a list without repetition.
Distinct-remove :
    (ks : List ℕ) (t : ℕ) (ts : List ℕ)
    → Distinct (ks ++ t ∷ ts)
    → Distinct (ks ++ ts) × (has t (ks ++ ts) ≡ false)
Distinct-remove [] t ts d = (d.1, d.0)
Distinct-remove (u ∷ ks) t ts d =
    let later = Distinct-remove ks t ts d.1 in
    (
      (ground (arith, d.0, has-append u ks (t ∷ ts), has-append u ks ts), later.0),
      ground (arith, d.0, has-append u ks (t ∷ ts), later.1),
    )

AllIn-remove :
    (tasks : ℕ → Task) (st : TaskState) (ks : List ℕ) (t : ℕ) (ts : List ℕ)
    → AllIn tasks st (ks ++ t ∷ ts)
    → AllIn tasks st (ks ++ ts)
AllIn-remove tasks st [] t ts all = all.1
AllIn-remove tasks st (u ∷ ks) t ts all = (all.0, AllIn-remove tasks st ks t ts all.1)

-- Waking one blocked task keeps every task in one place.
wake-Placed :
    (k : Kernel) (t : ℕ) (kept ts : List ℕ)
    → Placed k.tasks k.current k.runqueue (kept ++ t ∷ ts)
    → Placed (wake k t).tasks k.current (wake k t).runqueue (kept ++ ts)
wake-Placed k t kept ts v =
    let gone = Distinct-remove kept t ts v.blocked_distinct in
    let v' : Task = record (k.tasks t) { state = TaskState.ready } in
    let is_blocked : has t (kept ++ t ∷ ts) ≡ true =
      has-append t kept (t ∷ ts) ∙ ground (arith, ==_self t) in
    let not_run : has t (k.current ∷ k.runqueue) ≡ false = ground (arith, v.apart t) in
    record {
      run_distinct = (
        has-append k.current k.runqueue (t ∷ []) ∙ ground (arith, v.run_distinct.0),
        Distinct-snoc k.runqueue t (ground arith) v.run_distinct.1,
      );
      blocked_distinct = gone.0;
      apart = λ u h. elim (Bool-cases (u == t)) [
        | inl same ↦ rw (==→eq u t same) gone.1
        | inr other ↦ ground (
          arith,
          has-append u k.runqueue (t ∷ []),
          v.apart u,
          has-append u kept (t ∷ ts),
          has-append u kept ts,
        )
      ];
      readies =
          AllIn-append (wake k t).tasks TaskState.ready k.runqueue (t ∷ [])
            (AllIn-update k.tasks TaskState.ready t v' k.runqueue (ground arith) v.readies)
            (rw (==_self t) (refl, tt));
      blocks =
          AllIn-update k.tasks TaskState.blocked t v' (kept ++ ts) gone.1
            (AllIn-remove k.tasks TaskState.blocked kept t ts v.blocks);
    }

wake_scan-Placed :
    (k : Kernel) (pid ppid : ℕ) (kept ts : List ℕ)
    → Placed k.tasks k.current k.runqueue (kept ++ ts)
    → let r = wake_scan k pid ppid ts in Placed r.0.tasks r.0.current r.0.runqueue (kept ++ r.1)
unfolding wake_scan
wake_scan-Placed k pid ppid kept [] v = v
wake_scan-Placed k pid ppid kept (t ∷ ts) v = elim (Bool-cases (is_woken pid ppid (k.tasks t))) [
  | inl yes_woken ↦
      rw yes_woken (wake_scan-Placed (wake k t) pid ppid kept ts (wake-Placed k t kept ts v))
  | inr not_woken ↦
      let v' : Placed k.tasks k.current k.runqueue ((kept ++ t ∷ []) ++ ts) =
        rw (append_assoc kept (t ∷ []) ts) v in
      rw (not_woken, ← append_assoc kept (t ∷ []) (wake_scan k pid ppid ts).1)
        (wake_scan-Placed k pid ppid (kept ++ t ∷ []) ts v')
]

-- The run queue and the blocked list after an exit, every task still in one place.
pub wakeup_children-lists :
    (k : Kernel) (pid ppid : ℕ)
    → IsPlaced k
    → let k' = wakeup_children k pid ppid in
      (k'.runqueue ≡ k.runqueue ++ woken k.tasks pid ppid k.blocked_list)
      × (k'.blocked_list ≡ asleep k.tasks pid ppid k.blocked_list)
      × (k'.current ≡ k.current)
      × IsPlaced k'
unfolding wakeup_children
wakeup_children-lists k pid ppid v =
    let lists = wake_scan_lists k pid ppid k.blocked_list in
    (lists.0, lists.1, lists.2, wake_scan-Placed k pid ppid [] k.blocked_list v)

-- what a blocked task waits for: any child, or the task with the pid `block_on`
abbrev pub Awaits : ℕ → ℕ → Task → Type 0
Awaits pid ppid v = ((v.block_on ≡ 0) × (v.pid ≡ ppid)) ⊎ (v.block_on ≡ pid)

-- The list is parted, in order, into the tasks that wait for the exiting one and the others.
pub data WakeSplit (tasks : ℕ → Task) (pid ppid : ℕ) : List ℕ → List ℕ → List ℕ → Type 0 where
  nobody : WakeSplit tasks pid ppid [] [] []
  wakes :
      {t : ℕ} {ts moved kept : List ℕ}
      → Awaits pid ppid (tasks t)
      → WakeSplit tasks pid ppid ts moved kept
      → WakeSplit tasks pid ppid (t ∷ ts) (t ∷ moved) kept
  sleeps :
      {t : ℕ} {ts moved kept : List ℕ}
      → ¬ (Awaits pid ppid (tasks t))
      → WakeSplit tasks pid ppid ts moved kept
      → WakeSplit tasks pid ppid (t ∷ ts) moved (t ∷ kept)

is_woken-Awaits : (pid ppid : ℕ) (v : Task) → is_woken pid ppid v ≡ true → Awaits pid ppid v
is_woken-Awaits pid ppid v e = elim (Bool-cases (v.block_on == pid)) [
  | inl named ↦ inr (==→eq v.block_on pid named)
  | inr other ↦ inl (ground arith, ground arith)
]

not_woken-Awaits : (pid ppid : ℕ) (v : Task) → is_woken pid ppid v ≡ false → ¬ (Awaits pid ppid v)
not_woken-Awaits pid ppid v e (inl (any, parent)) = ground arith
not_woken-Awaits pid ppid v e (inr named) = ground arith

woken-WakeSplit :
    (tasks : ℕ → Task) (pid ppid : ℕ) (ts : List ℕ)
    → WakeSplit tasks pid ppid ts (woken tasks pid ppid ts) (asleep tasks pid ppid ts)
unfolding woken asleep
woken-WakeSplit tasks pid ppid [] = nobody
woken-WakeSplit tasks pid ppid (t ∷ ts) = elim (Bool-cases (is_woken pid ppid (tasks t))) [
  | inl e ↦ rw e (wakes (is_woken-Awaits pid ppid (tasks t) e) (woken-WakeSplit tasks pid ppid ts))
  | inr e ↦
      rw e (sleeps (not_woken-Awaits pid ppid (tasks t) e) (woken-WakeSplit tasks pid ppid ts))
]

-- Where every task is in one place, `task_wakeup_children` moves exactly the blocked tasks whose
-- `block_on` is the pid of the exiting task, or 0 where they are its parent, to the end of the run
-- queue, in order and ready; the others stay blocked, in order, the current task stays, and
-- every task is still in one place, in the state of its list.
pub wakeup_children_lem :
    (k : Kernel) (pid ppid : ℕ)
    → IsPlaced k
    → let k' = wakeup_children k pid ppid in
      (moved : List ℕ) × (kept : List ℕ) × WakeSplit k.tasks pid ppid k.blocked_list moved kept
      × (k'.runqueue ≡ k.runqueue ++ moved)
      × (k'.blocked_list ≡ kept)
      × (k'.current ≡ k.current)
      × IsPlaced k'
wakeup_children_lem k pid ppid v =
    let (run, left, me, placed) = wakeup_children-lists k pid ppid v in
    (
      woken k.tasks pid ppid k.blocked_list,
      asleep k.tasks pid ppid k.blocked_list,
      woken-WakeSplit k.tasks pid ppid k.blocked_list,
      run,
      left,
      me,
      placed,
    )

-- A task that waits for any child is woken by the exit of each of its children.
pub waiting_parent_woken :
    (tasks : ℕ → Task) (pid ppid t : ℕ) (ts : List ℕ)
    → has t ts ≡ true
    → (tasks t).block_on ≡ 0
    → (tasks t).pid ≡ ppid
    → has t (woken tasks pid ppid ts) ≡ true
unfolding woken
waiting_parent_woken tasks pid ppid t [] h any parent = cc
waiting_parent_woken tasks pid ppid t (u ∷ us) h any parent = elim (Bool-cases (t == u)) [
  | inl same ↦
      let e : t ≡ u = ==→eq t u same in
      let yes_woken : is_woken pid ppid (tasks u) ≡ true = rw (← e) (ground arith) in
      rw yes_woken (ground arith)
  | inr other ↦ ground (arith, waiting_parent_woken tasks pid ppid t us (ground arith) any parent)
]

-- Tasks that are not on the blocked list, and the registry, are left alone.
wake_scan_frame :
    (k : Kernel) (pid ppid : ℕ) (ts : List ℕ) (u : ℕ)
    → has u ts ≡ false
    → let r = wake_scan k pid ppid ts in (r.0.tasks u ≡ k.tasks u) × (r.0.all_tasks ≡ k.all_tasks)
unfolding wake_scan
wake_scan_frame k pid ppid [] u out = (refl, refl)
wake_scan_frame k pid ppid (t ∷ ts) u out = elim (Bool-cases (is_woken pid ppid (k.tasks t))) [
  | inl yes_woken ↦
      let later = wake_scan_frame (wake k t) pid ppid ts u (ground arith) in
      let other : (t == u) ≡ false = ground arith in rw yes_woken (later.0 ∙ rw other refl, later.1)
  | inr not_woken ↦ rw not_woken (wake_scan_frame k pid ppid ts u (ground arith))
]

pub wakeup_children_frame :
    (k : Kernel) (pid ppid u : ℕ)
    → has u k.blocked_list ≡ false
    → ((wakeup_children k pid ppid).tasks u ≡ k.tasks u)
      × ((wakeup_children k pid ppid).all_tasks ≡ k.all_tasks)
unfolding wakeup_children
wakeup_children_frame k pid ppid u out = wake_scan_frame k pid ppid k.blocked_list u out
