-- ===== src/Io/Polling.antt =====
-- Loops of the kernel that read a register until it passes a test. C bounds them by the hardware only,
-- so they take fuel, and `none` means that it ran out.
use uix.Base.{ℕ, zero, suc, ◌<◌, ◌≡◌, ap, ◌∙◌, Bool, true, false, Option, none, some, arith}

module _ {S : Type 0} (read : S → S × ℕ) (test : ℕ → Bool) where
  unfoldable pub poll_until : ℕ → S → Option S
  poll_until zero s = none
  poll_until (suc fuel) s =
      let (s', v) = read s in elim (test v) [ true ↦ some s' | false ↦ poll_until fuel s' ]

  -- the state after `n` reads
  unfoldable pub after : ℕ → S → S
  after zero s = s
  after (suc n) s = after n (read s).0

  -- what read `n` gives, from 0 on
  abbrev pub answer : ℕ → S → ℕ
  answer n s = (read (after n s)).1

  -- Where read `n` is the first that passes, more fuel than `n` is enough, and there are `n + 1` reads.
  pub poll_until_lem :
      (n fuel : ℕ) (s : S)
      → test (answer n s) ≡ true
      → ((k : ℕ) → k < n → test (answer k s) ≡ false)
      → n < fuel
      → poll_until fuel s ≡ some (after (suc n) s)
  unfolding poll_until after
  poll_until_lem n zero s passes fails enough = absurd (omega arith)
  poll_until_lem zero (suc fuel) s passes fails enough =
      ap (λ b. elim b [ true ↦ some (read s).0 | false ↦ poll_until fuel (read s).0 ]) passes
  poll_until_lem (suc n) (suc fuel) s passes fails enough =
      ap (λ b. elim b [ true ↦ some (read s).0 | false ↦ poll_until fuel (read s).0 ])
        (fails 0 (omega arith))
      ∙ poll_until_lem n fuel (read s).0 passes (λ k lt. fails (suc k) (omega arith)) (omega arith)
