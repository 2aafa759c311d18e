-- ===== src/Base/Loops.antt =====
-- Counted loops.
use Prim.Native.Nat.{ℕ, zero, suc, ◌+◌, ◌≤◌, ◌<◌}
use mathlib.Core.Path.{◌≡◌}
use mathlib.Core.Logic.{◌≢◌, inl, inr}
use native.Mathlib.Omega.{arith}
use uix.Base.Tests.{◌==◌, Bool-cases, ==→eq, ==→ne}

-- `for (i = first; …; i++)`, `rounds` times
unfoldable pub for_range {ℓ} : {S : Type ℓ} → (ℕ → S → S) → ℕ → ℕ → S → S
for_range body zero first s = s
for_range body (suc rounds) first s = for_range body rounds (suc first) (body first s)

-- What each round keeps, the loop keeps.
pub for_range_inv {ℓ κ} :
    {S : Type ℓ} (P : S → Type κ) (body : ℕ → S → S) (rounds first : ℕ) (s : S)
    → ((i : ℕ) (t : S) → first ≤ i → i < first + rounds → P t → P (body i t))
    → P s
    → P (for_range body rounds first s)
unfolding for_range
for_range_inv P body zero first s keep p = p
for_range_inv P body (suc rounds) first s keep p =
    for_range_inv P body rounds (suc first) (body first s)
      (λ i t lo hi. keep i t (omega arith) (omega arith))
      (keep first s (omega arith) (omega arith) p)

-- An invariant that counts the rounds.
pub for_range_step {ℓ κ} :
    {S : Type ℓ} (P : ℕ → S → Type κ) (body : ℕ → S → S) (rounds first : ℕ) (s : S)
    → ((i : ℕ) (t : S) → first ≤ i → i < first + rounds → P i t → P (suc i) (body i t))
    → P first s
    → P (first + rounds) (for_range body rounds first s)
unfolding for_range
for_range_step P body zero first s step p = let e : first + 0 ≡ first = omega arith in rw e p
for_range_step P body (suc rounds) first s step p =
    let e : first + suc rounds ≡ suc first + rounds = omega arith in
    rw e (
      for_range_step P body rounds (suc first) (body first s)
        (λ i t lo hi. step i t (omega arith) (omega arith))
        (step first s (omega arith) (omega arith) p))

-- What round `k` brings about and the later rounds keep holds at the end.
pub for_range_hit {ℓ κ} :
    {S : Type ℓ} (P : S → Type κ) (body : ℕ → S → S) (rounds first k : ℕ) (s : S)
    → first ≤ k
    → k < first + rounds
    → ((t : S) → P (body k t))
    → ((i : ℕ) (t : S) → first ≤ i → i < first + rounds → i ≢ k → P t → P (body i t))
    → P (for_range body rounds first s)
unfolding for_range
for_range_hit P body zero first k s lo hi hit keep = absurd (omega arith)
for_range_hit P body (suc rounds) first k s lo hi hit keep = elim (Bool-cases (first == k)) [
  | inl e ↦
      let eq : first ≡ k = ==→eq first k e in
      for_range_inv P body rounds (suc first) (body first s)
        (λ i t lo' hi'. keep i t (omega arith) (omega arith) (λ e'. omega arith)) (rw eq (hit s))
  | inr e ↦
      let ne : first ≢ k = ==→ne first k e in
      for_range_hit P body rounds (suc first) k (body first s) (omega arith) (omega arith) hit
        (λ i t lo' hi'. keep i t (omega arith) (omega arith))
]
