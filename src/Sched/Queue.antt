-- ===== src/Sched/Queue.antt =====
-- Lists of tasks without repetition, and the invariant of core/cpu/sched.c.
use uix.Base.{ℕ, ◌≡◌, refl, ◌∙◌, Bool, true, false, List, [], ◌∷◌, ◌++◌, ◌==◌, ◌||◌, arith}
use uix.Task.{TaskState, Task, Kernel, update}

abbrev pub has : ℕ → List ℕ → Bool
has t [] = false
has t (u ∷ us) = (t == u) || has t us

abbrev pub Distinct : List ℕ → Type 0
Distinct [] = Unit {0}
Distinct (t ∷ ts) = (has t ts ≡ false) × Distinct ts

pub has-append : (t : ℕ) (us vs : List ℕ) → has t (us ++ vs) ≡ (has t us || has t vs)
has-append t [] vs = refl
has-append t (u ∷ us) vs = ground (arith, has-append t us vs)

-- every task of the list is in state `st`
abbrev pub AllIn : (ℕ → Task) → TaskState → List ℕ → Type 0
AllIn tasks st [] = Unit {0}
AllIn tasks st (t ∷ ts) = ((tasks t).state ≡ st) × AllIn tasks st ts

-- A change of a task that is not on the list keeps the states of its tasks.
pub AllIn-update :
    (tasks : ℕ → Task) (st : TaskState) (t : ℕ) (v : Task) (ts : List ℕ)
    → has t ts ≡ false
    → AllIn tasks st ts
    → AllIn (update tasks t v) st ts
AllIn-update tasks st t v [] out all = tt
AllIn-update tasks st t v (u ∷ us) out all =
    let other : (t == u) ≡ false = ground arith in
    rw other (all.0, AllIn-update tasks st t v us (ground arith) all.1)

pub AllIn-append :
    (tasks : ℕ → Task) (st : TaskState) (ts us : List ℕ)
    → AllIn tasks st ts
    → AllIn tasks st us
    → AllIn tasks st (ts ++ us)
AllIn-append tasks st [] us all all' = all'
AllIn-append tasks st (t ∷ ts) us all all' = (all.0, AllIn-append tasks st ts us all.1 all')

-- Moving the first task to the end keeps a list without repetition.
pub Distinct-snoc : (ts : List ℕ) (u : ℕ) → has u ts ≡ false → Distinct ts → Distinct (ts ++ u ∷ [])
Distinct-snoc [] u out d = (refl, tt)
Distinct-snoc (t ∷ ts) u out d =
    (has-append t ts (u ∷ []) ∙ ground arith, Distinct-snoc ts u (ground arith) d.1)

-- A task is current, on the run queue or blocked, in one place only (so no task is on two lists
-- that share its `next` field), and in the state of its list.
pub record Placed (tasks : ℕ → Task) (current : ℕ) (queue blocked : List ℕ) : Type 0 where
  pub run_distinct : Distinct (current ∷ queue)
  pub blocked_distinct : Distinct blocked
  pub apart : (t : ℕ) → has t (current ∷ queue) ≡ true → has t blocked ≡ false
  pub readies : AllIn tasks TaskState.ready queue
  pub blocks : AllIn tasks TaskState.blocked blocked

abbrev pub IsPlaced : Kernel → Type 0
IsPlaced k = Placed k.tasks k.current k.runqueue k.blocked_list

-- The invariant between calls: the current task is also marked running.
pub record IsValid (k : Kernel) : Type 0 where
  pub placed : IsPlaced k
  pub runs : (k.tasks k.current).state ≡ TaskState.running
