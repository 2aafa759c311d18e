-- ===== src/Base/Words.antt =====
-- Bits of machine words: `w & (1 << b)`, `w | (1 << b)` and `w & ~(1 << b)`, digit by digit,
-- so that their laws hold at every word and bit.
use Prim.Native.Nat.{ℕ, zero, suc, ◌+◌, ◌*◌, ◌/◌, ◌%◌, ◌^◌, ◌<◌}
use mathlib.Core.Path.{◌≡◌, refl}
use mathlib.Core.Bool.{Bool, true, false}
use native.Mathlib.Omega.{arith}
use native.Mathlib.Nat.{pow-succ'}
use uix.Base.Tests.{◌==◌, if◌then◌else◌}

-- whether bit `b` of `w` is set
unfoldable pub test_bit : ℕ → ℕ → Bool
test_bit w zero = w % 2 == 1
test_bit w (suc b) = test_bit (w / 2) b

unfoldable pub set_bit : ℕ → ℕ → ℕ
set_bit w zero = w / 2 * 2 + 1
set_bit w (suc b) = w % 2 + 2 * set_bit (w / 2) b

unfoldable pub clear_bit : ℕ → ℕ → ℕ
clear_bit w zero = w / 2 * 2
clear_bit w (suc b) = w % 2 + 2 * clear_bit (w / 2) b

low_half : (r s : ℕ) → r < 2 → (r + 2 * s) / 2 ≡ s
low_half r s h = omega arith

pub test_bit-set_bit :
    (w b c : ℕ) → test_bit (set_bit w b) c ≡ (if b == c then true else test_bit w c)
unfolding test_bit set_bit
test_bit-set_bit w zero zero = ground arith
test_bit-set_bit w zero (suc c) =
    let e : (w / 2 * 2 + 1) / 2 ≡ w / 2 = omega arith in rw e (ground arith)
test_bit-set_bit w (suc b) zero = ground arith
test_bit-set_bit w (suc b) (suc c) =
    rw (low_half (w % 2) (set_bit (w / 2) b) (omega arith))
      (ground (arith, test_bit-set_bit (w / 2) b c))

pub test_bit-clear_bit :
    (w b c : ℕ) → test_bit (clear_bit w b) c ≡ (if b == c then false else test_bit w c)
unfolding test_bit clear_bit
test_bit-clear_bit w zero zero = ground arith
test_bit-clear_bit w zero (suc c) =
    let e : w / 2 * 2 / 2 ≡ w / 2 = omega arith in rw e (ground arith)
test_bit-clear_bit w (suc b) zero = ground arith
test_bit-clear_bit w (suc b) (suc c) =
    rw (low_half (w % 2) (clear_bit (w / 2) b) (omega arith))
      (ground (arith, test_bit-clear_bit (w / 2) b c))

pub test_bit-zero : (b : ℕ) → test_bit 0 b ≡ false
unfolding test_bit
test_bit-zero zero = refl
test_bit-zero (suc b) = test_bit-zero b

-- A word has no bit at or above its length.
pub test_bit-small : (w b : ℕ) → w < 2 ^ b → test_bit w b ≡ false
unfolding test_bit
test_bit-small w zero h = ground arith
test_bit-small w (suc b) h = test_bit-small (w / 2) b (omega (arith, pow-succ' 2 b))
