-- ===== src/Exec/Scheduled.antt =====
-- `do_execve` of core/cpu/exec.c changes nothing that the scheduler looks at.
use mathlib.Core.Path.{subst}
use uix.Base.{
  ℕ, ◌≡◌, refl, sym, ap, Bool, true, false, inl, inr, ◌⊎◌, Option, none, some, ◌==◌, Outcome, ok,
  panic, fault, ◌>>=◌, ok-injective, if_both, get_or,
}
use uix.Syscall.{enoent}
use uix.Task.{Kernel, put_task}
use uix.Sched.Queue.{IsValid}
use uix.Sched.Leaving.{put_current-IsValid}
use uix.Vmm.{create_space}
use uix.Vmm.Backing.{kernel_pages}
use uix.Elf.{elf_load}
use uix.Uixfs
use uix.Uixfs.{Result, release_buf}
use uix.Exec.{
  World, Env, Binary, Executed, with_space, space_of, with_fs, lent_fs, with_memory, is_elf,
  copy_path, find_program, programs, text_at, fresh_space, load_binary, start_image, exec_binary,
  do_execve,
}
use uix.Exec.UserStack.{build_user_stack}
use uix.Exec.Image.{load_image, map_stack}
use uix.Exec.Freeing.{free_space}

-- What holds of the result of a routine when it returns.
abbrev Returns : {A : Type 0} → (A → Type 0) → Outcome A → Type 0
Returns {A} Q o = (w : A) → o ≡ ok w → Q w

Returns-ok : {A : Type 0} (Q : A → Type 0) {v : A} → Q v → Returns Q (ok v)
Returns-ok Q q w e = subst Q (ok-injective e) q

Returns-then :
    {A B : Type 0} (P : A → Type 0) (Q : B → Type 0) (m : Outcome A) {next : A → Outcome B}
    → Returns P m
    → ((v : A) → P v → Returns Q (next v))
    → Returns Q (m >>= next)
Returns-then P Q panic p q w e = cc
Returns-then P Q fault p q w e = cc
Returns-then P Q (ok v) p q w e = q v (p v refl) w e

Returns-seq :
    {A B : Type 0} (Q : B → Type 0) (m : Outcome A) {next : A → Outcome B}
    → ((v : A) → Returns Q (next v))
    → Returns Q (m >>= next)
Returns-seq Q m q = Returns-then (λ v. Unit {0}) Q m (λ v e. tt) (λ v p. q v)

Returns-option :
    {A B : Type 0} (Q : B → Type 0) (o : Option A) {missing : Outcome B} {next : A → Outcome B}
    → Returns Q missing
    → ((v : A) → Returns Q (next v))
    → Returns Q (elim o [ none ↦ missing | some v ↦ next v ])
Returns-option Q none p q = p
Returns-option Q (some v) p q = q v

Returns-result :
    {B : Type 0} (Q : B → Type 0) (r : Result) {failed next : ℕ → Outcome B}
    → ((n : ℕ) → Returns Q (failed n))
    → ((n : ℕ) → Returns Q (next n))
    → Returns Q (elim r [ Result.errno n ↦ failed n | Result.size n ↦ next n ])
Returns-result Q (Result.errno n) p q = p n
Returns-result Q (Result.size n) p q = q n

Returns-fault : {A : Type 0} (Q : A → Type 0) → Returns Q fault
Returns-fault Q w e = cc

-- The kernel's state is `k`, but for the address space of task `t`.
abbrev HasSpace : Kernel → ℕ → World → Type 0
HasSpace k t w =
    (w.system.kernel ≡ k)
    ⊎ ((c : ℕ) × (w.system.kernel ≡ put_task k t (record (k.tasks t) { cr3 = c })))

module _ (k : Kernel) (t : ℕ) where
  fresh_space-HasSpace :
      (w : World) → w.system.kernel ≡ k → Returns (HasSpace k t) (fresh_space w t)
  unfolding fresh_space
  fresh_space-HasSpace w same =
      Returns-seq (HasSpace k t) (free_space (w.system.kernel.tasks t).cr3 w.vmm) (λ v.
        Returns-seq (HasSpace k t) (create_space v) (λ r.
          Returns-ok (HasSpace k t)
            (inr (r.1, ap (λ k'. put_task k' t (record (k'.tasks t) { cr3 = r.1 })) same))))

  load_binary-HasSpace :
      (env : Env) (w : World) (path : ℕ) (b : Binary)
      → HasSpace k t w
      → Returns (λ x. HasSpace k t x.0) (load_binary env w path b)
  unfolding load_binary
  load_binary-HasSpace env w path b h =
      let Q : World × Option (ℕ × ℕ) → Type 0 = λ x. HasSpace k t x.0 in
      if_both (Returns Q) (is_elf b)
        (Returns-seq Q (elf_load kernel_pages b.bytes b.len w.vmm w.system.memory) (λ l.
          let w1 = with_space w (record { pages = l.0.pages; memory = l.0.memory }) in
          if_both (Returns Q) (l.1 == 0) (Returns-ok Q h) (
            Returns-seq Q (map_stack kernel_pages env.held (space_of w1)) (λ s.
              Returns-option Q (build_user_stack 64 s.memory path) (Returns-fault Q)
                (λ r. Returns-ok Q h)))))
        (Returns-seq Q (load_image kernel_pages env.held b.bytes b.len (space_of w))
          (λ s. Returns-seq Q (map_stack kernel_pages env.held s) (λ s'. Returns-ok Q h)))

  start_image-HasSpace :
      (env : Env) (on_disk : Bool) (x : World × Option (ℕ × ℕ))
      → HasSpace k t x.0
      → Returns (λ y. HasSpace k t y.0) (start_image env t on_disk x)
  unfolding start_image
  start_image-HasSpace env on_disk (w, none) h = Returns-ok (λ y. HasSpace k t y.0) h
  start_image-HasSpace env on_disk (w, some (entry, user_rsp)) h =
      Returns-then (HasSpace k t) (λ y. HasSpace k t y.0) _
        (if_both (Returns (HasSpace k t)) on_disk
          (Returns-seq (HasSpace k t) (release_buf (lent_fs w)) (λ f. Returns-ok (HasSpace k t) h))
          (Returns-ok (HasSpace k t) h))
        (λ w' h'. Returns-ok (λ y. HasSpace k t y.0) h')

  exec_binary-HasSpace :
      (env : Env) (w : World) (path : ℕ) (b : Binary) (on_disk : Bool)
      → w.system.kernel ≡ k
      → Returns (λ y. HasSpace k t y.0) (exec_binary env w t path b on_disk)
  unfolding exec_binary
  exec_binary-HasSpace env w path b on_disk same =
      let Q : World × Executed → Type 0 = λ y. HasSpace k t y.0 in
      Returns-then (HasSpace k t) Q (fresh_space w t) (fresh_space-HasSpace w same) (λ w1 h.
        Returns-then (λ x. HasSpace k t x.0) Q (load_binary env w1 path b)
          (load_binary-HasSpace env w1 path b h) (start_image-HasSpace env on_disk))

  do_execve-HasSpace :
      (env : Env) (w : World) (path upath : ℕ)
      → w.system.kernel ≡ k
      → Returns (λ y. HasSpace k t y.0) (do_execve env w t path upath)
  unfolding do_execve
  do_execve-HasSpace env w path upath same =
      let Q : World × Executed → Type 0 = λ y. HasSpace k t y.0 in
      let m = copy_path w.system.memory path upath in
      let w1 = with_memory w m in
      Returns-option Q (find_program m path (programs env))
        (Returns-seq Q (Uixfs.read env.device (text_at m path 63) (lent_fs w1)) (λ r.
          let w2 = with_fs w1 r.0 in
          let image : ℕ → Binary = λ n. record { bytes = λ i. get_or r.0.contents i 0; len = n } in
          Returns-result Q r.1 (λ n. Returns-ok Q {v = (w2, Executed.errno enoent)} (inl same))
            (λ n. exec_binary-HasSpace env w2 path (image n) true same)))
        (λ b. exec_binary-HasSpace env w1 path b false same)

-- Whatever `do_execve` in the current task comes to when it returns, an error or the new image, the
-- invariant of the scheduler is kept.
pub do_execve-IsValid :
    (env : Env) (w w' : World) (path upath : ℕ) (r : Executed)
    → IsValid w.system.kernel
    → do_execve env w w.system.kernel.current path upath ≡ ok (w', r)
    → IsValid w'.system.kernel
do_execve-IsValid env w w' path upath r v e =
    let k = w.system.kernel in
    elim (do_execve-HasSpace k k.current env w path upath refl (w', r) e) [
      | inl same ↦ subst IsValid (sym same) v
      | inr (c, same) ↦ subst IsValid (sym same) (put_current-IsValid k _ v v.runs)
    ]
