-- ===== src/Task/Fds.antt =====
-- The descriptor table of core/cpu/task.c.
use uix.Base.{
  ℕ, zero, suc, ◌+◌, ◌<◌, ◌≡◌, refl, ◌∙◌, ap, Bool, true, false, inl, inr, ◌⊎◌, Option, none, some,
  List, [], ◌∷◌, ◌==◌, if◌then◌else◌, arith, Bool-cases, length,
}
use uix.Task.{Fd, fd_none, fd_alloc_from, fd_alloc, fd_free, fd_type}

-- whether descriptor `fd` is open
unfoldable pub is_open : List Fd → ℕ → Bool
is_open [] fd = false
is_open (f ∷ fs) zero = f.in_use
is_open (f ∷ fs) (suc fd) = is_open fs fd

-- What allocation returns: nothing with every slot taken and the table unchanged, or the lowest
-- slot that was free, now open with the type asked for, and every other slot unchanged.
abbrev pub AllocResult : List Fd → ℕ → ℕ → Option ℕ × List Fd → Type 0
AllocResult fds kind i r =
    ((r ≡ (none, fds)) × ((j : ℕ) → j < length fds → is_open fds j ≡ true))
    ⊎ ((d : ℕ) × (d < length fds)
        × (r.0 ≡ some (i + d))
        × (is_open fds d ≡ false)
        × ((j : ℕ) → j < d → is_open fds j ≡ true)
        × ((j : ℕ) → is_open r.1 j ≡ (if j == d then true else is_open fds j))
        × ((j : ℕ) → fd_type r.1 j ≡ (if j == d then kind else fd_type fds j)))

fd_alloc_from-used :
    (i kind : ℕ) (f : Fd) (fs : List Fd)
    → f.in_use ≡ true
    → fd_alloc_from i (f ∷ fs) kind
      ≡ ((fd_alloc_from (i + 1) fs kind).0, f ∷ (fd_alloc_from (i + 1) fs kind).1)
unfolding fd_alloc_from
fd_alloc_from-used i kind f fs used = simp used

fd_alloc_from-free :
    (i kind : ℕ) (f : Fd) (fs : List Fd)
    → f.in_use ≡ false
    → fd_alloc_from i (f ∷ fs) kind ≡ (some i, record { kind = kind; in_use = true } ∷ fs)
unfolding fd_alloc_from
fd_alloc_from-free i kind f fs free = simp free

fd_alloc_from_result :
    (i : ℕ) (fds : List Fd) (kind : ℕ) → AllocResult fds kind i (fd_alloc_from i fds kind)
unfolding is_open fd_type
fd_alloc_from_result i [] kind = inl (unfold fd_alloc_from in refl, λ j h. absurd (omega arith))
fd_alloc_from_result i (f ∷ fs) kind = elim (Bool-cases f.in_use) [
  | inl used ↦
      rw (fd_alloc_from-used i kind f fs used) (elim (fd_alloc_from_result (i + 1) fs kind) [
        | inl (e, full) ↦
            inl (rw e refl, elim [ zero ↦ λ h. used | suc j ↦ λ h. full j (omega arith) ])
        | inr (d, lt, r, was, lower, opens, types) ↦ inr (
          suc d,
          omega arith,
          r ∙ ap some (omega arith),
          was,
          elim [ zero ↦ λ h. used | suc j ↦ λ h. lower j (omega arith) ],
          elim [ zero ↦ ground arith | suc j ↦ opens j ∙ ground arith ],
          elim [ zero ↦ ground arith | suc j ↦ types j ∙ ground arith ],
        )
      ])
  | inr free ↦ rw (fd_alloc_from-free i kind f fs free) (
      inr (
        0,
        omega arith,
        ap some (omega arith),
        free,
        λ j h. absurd (omega arith),
        elim [ zero ↦ ground arith | suc j ↦ ground arith ],
        elim [ zero ↦ ground arith | suc j ↦ ground arith ],
      ))
]

-- `proc_fd_alloc` fails, with the table unchanged, exactly when every descriptor is open;
-- otherwise it opens the lowest free one with the type asked for, and leaves every other as it is.
pub fd_alloc_result : (fds : List Fd) (kind : ℕ) → AllocResult fds kind 0 (fd_alloc fds kind)
unfolding fd_alloc
fd_alloc_result fds kind = fd_alloc_from_result 0 fds kind

-- `proc_fd_free` closes its descriptor, if there is one of that number, and no other.
pub is_open-fd_free :
    (fds : List Fd) (fd j : ℕ)
    → is_open (fd_free fds fd) j ≡ (if j == fd then false else is_open fds j)
unfolding is_open fd_free
is_open-fd_free [] fd j = ground arith
is_open-fd_free (f ∷ fs) zero zero = refl
is_open-fd_free (f ∷ fs) zero (suc j) = ground arith
is_open-fd_free (f ∷ fs) (suc fd) zero = ground arith
is_open-fd_free (f ∷ fs) (suc fd) (suc j) = is_open-fd_free fs fd j ∙ ground arith

-- What is not open has type FD_NONE.
pub fd_type-closed : (fds : List Fd) (fd : ℕ) → is_open fds fd ≡ false → fd_type fds fd ≡ fd_none
unfolding is_open fd_type
fd_type-closed [] fd h = refl
fd_type-closed (f ∷ fs) zero h = ground arith
fd_type-closed (f ∷ fs) (suc fd) h = fd_type-closed fs fd h
