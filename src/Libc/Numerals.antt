-- ===== src/Libc/Numerals.antt =====
-- Number printing of core/lib.c: what the digits mean, and that they fit in `tmp`.
use uix.Base.{
  ℕ, zero, suc, ◌+◌, ◌-◌, ◌*◌, ◌/◌, ◌%◌, ◌^◌, ◌<◌, ◌≤◌, ◌≡◌, ◌≢◌, refl, ◌∙◌, Bool, true, false, inl,
  inr, ◌||◌, ltb, leb, if◌then◌else◌, ◌==◌, arith, Bool-cases, ==→eq, ap, List, [], ◌∷◌, length,
}
use native.Mathlib.Nat.{pow-succ', div-add-mod}
use uix.Libc.{digit, digits_from, tmp_digits, reverse_onto, utoa}

-- the digit that a character stands for
unfoldable pub digit_value : ℕ → ℕ
digit_value c = if leb c b'9' then c - b'0' else if leb c b'F' then c - 55 else c - 87

digit_value-digit : (upper : Bool) (d : ℕ) → d < 16 → digit_value (digit upper d) ≡ d
unfolding digit_value
digit_value-digit true d h = ground arith
digit_value-digit false d h = ground arith

-- what a numeral means, the highest digit first
unfoldable pub value_from : ℕ → ℕ → List ℕ → ℕ
value_from base acc [] = acc
value_from base acc (c ∷ cs) = value_from base (acc * base + digit_value c) cs

-- what a list of digits means, the lowest digit first
low_value : ℕ → List ℕ → ℕ
low_value base [] = 0
low_value base (c ∷ cs) = digit_value c + base * low_value base cs

value_from-reverse_onto :
    (base : ℕ) (cs out : List ℕ)
    → value_from base 0 (reverse_onto cs out) ≡ value_from base (low_value base cs) out
unfolding value_from reverse_onto low_value
value_from-reverse_onto base [] out = refl
value_from-reverse_onto base (c ∷ cs) out =
    value_from-reverse_onto base cs (c ∷ out) ∙ ap (λ k. value_from base k out) (grind arith)

-- Dividing by a base takes off at least a factor `k` that is not above it.
div_bound : (v base k m : ℕ) → k ≤ base → 0 < k → v < k * m → v / base < m
div_bound v base k m hk pos h = grind arith

low_value-digits_from :
    (fuel v base : ℕ) (upper : Bool)
    → 1 < base
    → base ≤ 16
    → v < 2 ^ fuel
    → low_value base (digits_from fuel v base upper) ≡ v
unfolding low_value digits_from
low_value-digits_from zero v base upper lo hi h = omega arith
low_value-digits_from (suc fuel) v base upper lo hi h = elim (Bool-cases (v == 0)) [
  | inl e ↦ rw e (ground arith)
  | inr e ↦ rw e (
      ground (
        arith,
        digit_value-digit upper (v % base) (omega arith),
        low_value-digits_from fuel (v / base) base upper lo hi
            (div_bound v base 2 (2 ^ fuel) lo (omega arith) (omega (arith, pow-succ' 2 fuel))),
        div-add-mod v base,
      ))
]

-- Reading back what `uix_utoa` prints gives the number, for every u64, in every base from 2 to 16
-- and in either case of the letters.
pub value-utoa :
    (v base : ℕ) (upper : Bool)
    → 1 < base
    → base ≤ 16
    → v < 2 ^ 64
    → value_from base 0 (utoa v base upper) ≡ v
unfolding utoa tmp_digits value_from
value-utoa v base upper lo hi h =
    value_from-reverse_onto base (tmp_digits v base upper) [] ∙ elim (Bool-cases (v == 0)) [
      | inl e ↦ rw e (unfold low_value digit_value in omega (arith, ==→eq v 0 e))
      | inr e ↦ rw (e, in_bases) (low_value-digits_from 64 v base upper lo hi h)
    ]
  where
    in_bases : (ltb base 2 || ltb 16 base) ≡ false
    in_bases = ground arith

length-digits_from :
    (fuel v base k : ℕ) (upper : Bool)
    → 4 ≤ base
    → v < 4 ^ k
    → length (digits_from fuel v base upper) ≤ k
unfolding digits_from
length-digits_from zero v base k upper lo h = omega arith
length-digits_from (suc fuel) v base zero upper lo h =
    let z : v ≡ 0 = omega arith in rw z (omega arith)
length-digits_from (suc fuel) v base (suc k) upper lo h = ground (
  arith,
  length-digits_from fuel (v / base) base k upper lo
      (div_bound v base 4 (4 ^ k) lo (omega arith) (omega (arith, pow-succ' 4 k))),
)

-- `tmp[32]` of `uix_utoa` holds the digits of every u64 in every base but 2 and 3 (a base out of
-- range is replaced by 10).
pub tmp_digits-fit :
    (v base : ℕ) (upper : Bool)
    → v < 2 ^ 64
    → base ≢ 2
    → base ≢ 3
    → length (tmp_digits v base upper) ≤ 32
unfolding tmp_digits
tmp_digits-fit v base upper h two three = elim (Bool-cases (ltb base 2 || ltb 16 base)) [
  | inl out ↦ rw out (ground (arith, length-digits_from 64 v 10 32 upper (omega arith) h))
  | inr within ↦ rw within (ground (arith, length-digits_from 64 v base 32 upper (ground arith) h))
]

two_pow_pos : (k : ℕ) → 0 < 2 ^ k
two_pow_pos zero = omega arith
two_pow_pos (suc k) = omega (arith, pow-succ' 2 k, two_pow_pos k)

length-digits_from-binary :
    (fuel v k : ℕ) (upper : Bool) → 2 ^ k ≤ v → k < fuel → k < length (digits_from fuel v 2 upper)
unfolding digits_from
length-digits_from-binary zero v k upper h lt = absurd (omega arith)
length-digits_from-binary (suc fuel) v zero upper h lt = ground arith
length-digits_from-binary (suc fuel) v (suc k) upper h lt = ground (
  arith,
  pow-succ' 2 k,
  two_pow_pos k,
  length-digits_from-binary fuel (v / 2) k upper (omega (arith, pow-succ' 2 k)) (omega arith),
)

-- In base 2, `tmp[32]` of `uix_utoa` does not hold the digits of a number of 2 ^ 32 or more.
pub tmp_digits-overflow : (v : ℕ) (upper : Bool) → 2 ^ 32 ≤ v → 32 < length (tmp_digits v 2 upper)
unfolding tmp_digits
tmp_digits-overflow v upper h =
    ground (arith, length-digits_from-binary 64 v 32 upper h (omega arith))
