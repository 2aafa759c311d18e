-- ===== src/Spawn/Child.antt =====
-- `do_fork` of core/cpu/fork.c: what the child starts with.
use uix.Base.{
  ℕ, zero, suc, ◌+◌, ◌-◌, ◌*◌, ◌/◌, ◌%◌, ◌^◌, ◌≤◌, ◌<◌, ◌≡◌, ◌≢◌, refl, sym, ◌∙◌, ap, ap₂, true,
  false, List, [], ◌∷◌, ◌++◌, ◌==◌, arith, ne→==, ==→eq, ==→ne, ==_self, Bool-cases, inl, inr,
  length, take, drop, set, some, length-set,
}
use uix.Task.{TaskState, Task, Kernel, put_task, register, zero_task, alloc_pid}
use uix.Sched.{enqueue, enqueue_user}
use uix.Sched.Queue.{has, has-append, IsValid, AllIn-append, Distinct-snoc}
use uix.Sched.Leaving.{put_other-IsValid, IsValid-same}
use uix.Spawn.{
  Words, Stack, Stacks, put_word, push_all, kstack_size, copy_words, frame_size, fork_stack,
  switch_to, words_from, Context, fork_child, do_fork,
}
use uix.Spawn.Frames.{popped, switch_to-push_all, aligned_top}

-- Pushes that do not reach round the address space leave the words above alone.
push_all-above :
    (w : Words) (sp : ℕ) (vs : List ℕ) (a : ℕ)
    → length vs * 8 ≤ sp
    → sp < 2 ^ 64
    → sp ≤ a
    → (push_all (record { words = w; sp = sp }) vs).words a ≡ w a
unfolding push_all
push_all-above w sp [] a room small le = refl
push_all-above w sp (v ∷ vs) a room small le =
    let next : (sp + 2 ^ 64 - 8) % 2 ^ 64 ≡ sp - 8 = omega arith in
    ap (λ sp'. (push_all (record { words = put_word w sp' v; sp = sp' }) vs).words a) next
    ∙ push_all-above (put_word w (sp - 8) v) (sp - 8) vs a (omega arith) (omega arith) (omega arith)
    ∙ rw (ne→== (sp - 8) a (λ e. omega arith)) refl

words_from-same :
    (w w' : Words) (a n : ℕ) → ((b : ℕ) → a ≤ b → w b ≡ w' b) → words_from w a n ≡ words_from w' a n
unfolding words_from
words_from-same w w' a zero same = refl
words_from-same w w' a (suc n) same =
    ap₂ (λ x xs. x ∷ xs) (same a (omega arith))
      (words_from-same w w' (a + 8) n (λ b le. same b (omega arith)))

copy_words-below : (w : Words) (a : ℕ) (vs : List ℕ) (b : ℕ) → b < a → copy_words w a vs b ≡ w b
unfolding copy_words
copy_words-below w a [] b lt = refl
copy_words-below w a (v ∷ vs) b lt =
    copy_words-below (put_word w a v) (a + 8) vs b (omega arith)
    ∙ rw (ne→== a b (λ e. omega arith)) refl

-- Words read back where they have been copied to.
words_from-copy_words :
    (w : Words) (a : ℕ) (vs : List ℕ) (i n : ℕ)
    → i + n ≤ length vs
    → words_from (copy_words w a vs) (a + i * 8) n ≡ take n (drop i vs)
unfolding words_from copy_words
words_from-copy_words w a vs i zero fits = refl
words_from-copy_words w a [] i (suc n) fits = absurd (omega arith)
words_from-copy_words w a (v ∷ vs) zero (suc n) fits =
    let z : a + 0 ≡ a = omega arith in
    let next : a + 8 ≡ a + 8 + 0 = omega arith in
    let first : copy_words (put_word w a v) (a + 8) vs a ≡ v =
      copy_words-below (put_word w a v) (a + 8) vs a (omega arith) ∙ rw (==_self a) refl in
    let rest = words_from-copy_words (put_word w a v) (a + 8) vs 0 n (omega arith) in
    rw z (
      ap₂ (λ x xs. x ∷ xs) first
        (ap (λ b. words_from (copy_words (put_word w a v) (a + 8) vs) b n) next ∙ rest))
words_from-copy_words w a (v ∷ vs) (suc i) (suc n) fits =
    let e : a + suc i * 8 ≡ a + 8 + i * 8 = omega arith in
    rw e (words_from-copy_words (put_word w a v) (a + 8) vs i (suc n) (omega arith))

-- where the copy of the frame of the parent stands
abbrev pub frame_at : ℕ → ℕ
frame_at kstack = aligned_top kstack - 176

-- the words that `iretq` and the pops before it take from a frame: those of the parent, with a 0 in rax
abbrev pub resumed : List ℕ → Context
resumed fr = record { general = take 15 (set fr 0 0); returned = take 5 (drop 17 (set fr 0 0)) }

-- On the stack of a child, `switch_to` goes to `fork_child_stub`, which goes on with the registers
-- that the parent has in the system call, but for rax, which is 0.
fork_stack_lem :
    (w : Words) (kstack stub : ℕ) (fr : List ℕ)
    → kstack + kstack_size < 2 ^ 64
    → length fr ≡ 22
    → let s = fork_stack w kstack stub fr in
      (switch_to s ≡ popped stub 0 0 0 0 0 0 (frame_at kstack))
      × (fork_child s.words (frame_at kstack) ≡ resumed fr)
unfolding fork_stack fork_child
fork_stack_lem w kstack stub fr room long =
    let top = aligned_top kstack in
    let base = frame_at kstack in
    let at : ((kstack + kstack_size) % 2 ^ 64 / 16 * 16 + 2 ^ 64 - frame_size) % 2 ^ 64 ≡ base =
      omega arith in
    let copied = copy_words w base (set fr 0 0) in
    let vs = stub ∷ 0 ∷ 0 ∷ 0 ∷ 0 ∷ 0 ∷ 0 ∷ [] in
    let s = push_all (record { words = copied; sp = base }) vs in
    let size : length (set fr 0 0) ≡ 22 = length-set fr 0 0 ∙ long in
    let same : (b : ℕ) → base ≤ b → s.words b ≡ copied b =
      λ b le. push_all-above copied base vs b (omega arith) (omega arith) le in
    let z : base + 0 * 8 ≡ base = omega arith in
    let general : words_from s.words base 15 ≡ take 15 (set fr 0 0) =
      words_from-same s.words copied base 15 same
      ∙ ap (λ b. words_from copied b 15) (sym z)
      ∙ words_from-copy_words w base (set fr 0 0) 0 15 (omega arith) in
    let returned : words_from s.words (base + 136) 5 ≡ take 5 (drop 17 (set fr 0 0)) =
      words_from-same s.words copied (base + 136) 5 (λ b le. same b (omega arith))
      ∙ words_from-copy_words w base (set fr 0 0) 17 5 (omega arith) in
    let whole : fork_stack w kstack stub fr ≡ s =
      ap (λ b. push_all (record { words = copy_words w b (set fr 0 0); sp = b }) vs) at in
    (
      ap switch_to whole
          ∙ switch_to-push_all copied base stub 0 0 0 0 0 0 (omega arith) (omega arith),
      ap (λ (u : Stack). fork_child u.words base) whole
          ∙ ap₂ (λ g r. record { general = g; returned = r }) general returned,
    )

-- A ready task that is on no list can go to the end of the run queue.
pub enqueue-IsValid :
    (k : Kernel) (t : ℕ)
    → IsValid k
    → has t (k.current ∷ k.runqueue) ≡ false
    → has t k.blocked_list ≡ false
    → (k.tasks t).state ≡ TaskState.ready
    → IsValid (enqueue k t)
unfolding enqueue
enqueue-IsValid k t v out out' is_ready = record {
  placed = record {
    run_distinct = (
      has-append k.current k.runqueue (t ∷ [])
          ∙ ground (arith, v.placed.run_distinct.0, ==→eq k.current t, ==_self k.current),
      Distinct-snoc k.runqueue t (ground arith) v.placed.run_distinct.1,
    );
    blocked_distinct = v.placed.blocked_distinct;
    apart = λ u h. elim (Bool-cases (u == t)) [
      | inl same ↦ rw (==→eq u t same) out'
      | inr other ↦ v.placed.apart u (ground (arith, has-append u k.runqueue (t ∷ [])))
    ];
    readies =
        AllIn-append k.tasks TaskState.ready k.runqueue (t ∷ []) v.placed.readies (is_ready, tt);
    blocks = v.placed.blocks;
  };
  runs = v.runs;
}

-- Where the pages, the task and its stack are to be had, and the new task is on no list, `do_fork`
-- returns the child: with the next pid, the descriptors of its parent and the parent's pid, at the
-- end of the run queue, the invariant of the scheduler kept. The first switch to it goes to
-- `fork_child_stub`, which goes on with the registers of the parent, but for a 0 in rax.
pub do_fork_lem :
    (k : Kernel) (st : Stacks) (child kstack cr3 stub : ℕ) (fr : List ℕ)
    → IsValid k
    → child ≢ 0
    → kstack ≢ 0
    → kstack + kstack_size < 2 ^ 64
    → length fr ≡ 22
    → has child (k.current ∷ k.runqueue) ≡ false
    → has child k.blocked_list ≡ false
    → let (k', st', r) = do_fork k st child kstack cr3 stub fr in
      (r ≡ some child)
      × IsValid k'
      × (k'.runqueue ≡ k.runqueue ++ child ∷ [])
      × ((k'.tasks child).pid ≡ k.next_pid)
      × ((k'.tasks child).ppid ≡ (k.tasks k.current).pid)
      × ((k'.tasks child).fds ≡ (k.tasks k.current).fds)
      × (switch_to (record { words = st'.words; sp = st'.rsps child })
          ≡ popped stub 0 0 0 0 0 0 (frame_at kstack))
      × (fork_child st'.words (frame_at kstack) ≡ resumed fr)
unfolding do_fork register enqueue_user enqueue alloc_pid
do_fork_lem k st child kstack cr3 stub fr v some_child some_stack room long out out' =
    let has_child : (child == 0) ≡ false = ne→== child 0 some_child in
    let has_stack : (kstack == 0) ≡ false = ne→== kstack 0 some_stack in
    let self : (child == child) ≡ true = ==_self child in
    let stack = fork_stack_lem st.words kstack stub fr room long in
    let fresh : Task = record zero_task {
      is_user = true;
      ppid = (k.tasks k.current).pid;
      cr3 = cr3;
      fds = (k.tasks k.current).fds;
    } in
    let k1 : Kernel = register (put_task k child fresh) child in
    let k2 : Kernel =
      put_task (record k1 { next_pid = (k.next_pid + 1) % 2 ^ 64 }) child
        (record (k1.tasks child) { pid = k.next_pid }) in
    let v1 : IsValid k1 =
      IsValid-same (put_task k child fresh) k1 refl refl refl refl
        (put_other-IsValid k child fresh v out out') in
    let v2 : IsValid k2 =
      IsValid-same (put_task k1 child (record (k1.tasks child) { pid = k.next_pid })) k2 refl refl
        refl refl
        (put_other-IsValid k1 child (record (k1.tasks child) { pid = k.next_pid }) v1 out out') in
    let v3 : IsValid (enqueue k2 child) = enqueue-IsValid k2 child v2 out out' (rw self refl) in
    rw (has_child, has_stack)
      (refl, v3, refl, rw self refl, rw self refl, rw self refl, rw self stack.0, stack.1)

-- Whether a page or the task itself is to be had or not, `do_fork` keeps the invariant of the scheduler.
pub do_fork-IsValid :
    (k : Kernel) (st : Stacks) (child kstack cr3 stub : ℕ) (fr : List ℕ)
    → IsValid k
    → kstack + kstack_size < 2 ^ 64
    → length fr ≡ 22
    → has child (k.current ∷ k.runqueue) ≡ false
    → has child k.blocked_list ≡ false
    → IsValid (do_fork k st child kstack cr3 stub fr).0
unfolding do_fork
do_fork-IsValid k st child kstack cr3 stub fr v room long out out' =
    elim (Bool-cases (child == 0)) [
      | inl missing ↦ rw missing v
      | inr some_child ↦ elim (Bool-cases (kstack == 0)) [
        | inl missing ↦ rw (some_child, missing) v
        | inr some_stack ↦
            (do_fork_lem k st child kstack cr3 stub fr v (==→ne child 0 some_child)
              (==→ne kstack 0 some_stack) room long out out').1
      ]
    ]
