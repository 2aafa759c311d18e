-- ===== src/Task/Zombies.antt =====
-- The search for an exited child in the registry of core/cpu/task.c.
use uix.Base.{
  ℕ, ◌≡◌, Bool, true, false, inl, inr, none, some, List, [], ◌∷◌, ◌==◌, ◌||◌, arith, Bool-cases,
  ==→eq, ==_self,
}
use uix.Task.{Task, is_wanted_zombie, find_zombie_in}

abbrev pub registered : ℕ → List ℕ → Bool
registered t [] = false
registered t (u ∷ us) = (t == u) || registered t us

-- `task_find_zombie` returns only a registered zombie child of the caller that it asked for.
pub find_zombie_sound :
    (tasks : ℕ → Task) (ppid want : ℕ) (ts : List ℕ) {z : ℕ}
    → find_zombie_in tasks ppid want ts ≡ some z
    → (registered z ts ≡ true) × (is_wanted_zombie ppid want (tasks z) ≡ true)
unfolding find_zombie_in
find_zombie_sound tasks ppid want [] e = cc
find_zombie_sound tasks ppid want (t ∷ ts) {z} e =
    elim (Bool-cases (is_wanted_zombie ppid want (tasks t))) [
      | inl found ↦
          let same : t ≡ z = ground arith in rw (← same) (ground (arith, ==_self t), found)
      | inr other ↦
          let later = find_zombie_sound tasks ppid want ts {z = z} (rw other at e) in
          (ground (arith, later.0), later.1)
    ]

-- It returns nothing only if the registry has no such child.
pub find_zombie_complete :
    (tasks : ℕ → Task) (ppid want : ℕ) (ts : List ℕ) (t : ℕ)
    → find_zombie_in tasks ppid want ts ≡ none
    → registered t ts ≡ true
    → is_wanted_zombie ppid want (tasks t) ≡ false
unfolding find_zombie_in
find_zombie_complete tasks ppid want [] t e h = cc
find_zombie_complete tasks ppid want (u ∷ us) t e h =
    elim (Bool-cases (is_wanted_zombie ppid want (tasks u))) [
      | inl found ↦ ground arith
      | inr other ↦ elim (Bool-cases (t == u)) [
        | inl same ↦ rw (==→eq t u same) other
        | inr apart ↦ find_zombie_complete tasks ppid want us t (rw other at e) (ground arith)
      ]
    ]
