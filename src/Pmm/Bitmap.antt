-- ===== src/Pmm/Bitmap.antt =====
-- The bitmap of core/memory/pmm.c seen page by page, and the number of its free pages.
use uix.Base.{
  ℕ, zero, suc, ◌+◌, ◌*◌, ◌/◌, ◌%◌, ◌<◌, ◌≤◌, ◌≡◌, refl, ◌∙◌, Bool, true, false, List,
  if◌then◌else◌, ◌==◌, length, length-set, get_or, get_or-set, arith, Bool-cases, inl, inr, ==→eq,
  ltb, ◌&&◌, leb,
}
use uix.Base.Words.{set_bit, clear_bit, test_bit-set_bit, test_bit-clear_bit}
use uix.Pmm.{set_free, set_used, is_free, use_range}

-- The word and the bit of a page determine it.
same_page : (i j : ℕ) → i / 64 ≡ j / 64 → i % 64 ≡ j % 64 → i ≡ j
same_page i j p q = omega arith

module _ (bitmap : List ℕ) (i j : ℕ) (h : i / 64 < length bitmap) where
  -- `set_free` marks its own page and no other.
  pub is_free-set_free : is_free (set_free bitmap i) j ≡ (if i == j then true else is_free bitmap j)
  unfolding set_free is_free
  is_free-set_free = ground (
    arith,
    get_or-set bitmap (i / 64) (j / 64) (set_bit (get_or bitmap (i / 64) 0) (i % 64)) 0 h,
    test_bit-set_bit (get_or bitmap (i / 64) 0) (i % 64) (j % 64),
    same_page i j,
  )

  -- `set_used` clears its own page and no other.
  pub is_free-set_used :
      is_free (set_used bitmap i) j ≡ (if i == j then false else is_free bitmap j)
  unfolding set_used is_free
  is_free-set_used = ground (
    arith,
    get_or-set bitmap (i / 64) (j / 64) (clear_bit (get_or bitmap (i / 64) 0) (i % 64)) 0 h,
    test_bit-clear_bit (get_or bitmap (i / 64) 0) (i % 64) (j % 64),
    same_page i j,
  )

pub length-set_free : (bitmap : List ℕ) (i : ℕ) → length (set_free bitmap i) ≡ length bitmap
unfolding set_free
length-set_free bitmap i = length-set bitmap (i / 64) _

pub length-set_used : (bitmap : List ℕ) (i : ℕ) → length (set_used bitmap i) ≡ length bitmap
unfolding set_used
length-set_used bitmap i = length-set bitmap (i / 64) _

pub length-use_range :
    (bitmap : List ℕ) (first count : ℕ) → length (use_range bitmap first count) ≡ length bitmap
unfolding use_range
length-use_range bitmap first zero = refl
length-use_range bitmap first (suc count) =
    length-use_range (set_used bitmap first) (suc first) count ∙ length-set_used bitmap first

-- whether `first ≤ j < first + count`
abbrev pub in_range : ℕ → ℕ → ℕ → Bool
in_range first count j = leb first j && ltb j (first + count)

-- The loop that reserves a run clears exactly the pages of the run.
pub is_free-use_range :
    (bitmap : List ℕ) (first count j : ℕ)
    → first + count ≤ length bitmap * 64
    → is_free (use_range bitmap first count) j
      ≡ (if in_range first count j then false else is_free bitmap j)
unfolding use_range
is_free-use_range bitmap first zero j h = ground arith
is_free-use_range bitmap first (suc count) j h =
    is_free-use_range (set_used bitmap first) (suc first) count j
      (omega (arith, length-set_used bitmap first))
    ∙ ground (arith, is_free-set_used bitmap first j (omega arith))

-- the free pages below `n`
unfoldable pub count_free : List ℕ → ℕ → ℕ
count_free bitmap zero = 0
count_free bitmap (suc n) = count_free bitmap n + (if is_free bitmap n then 1 else 0)

pub count_free-le : (bitmap : List ℕ) (n : ℕ) → count_free bitmap n ≤ n
unfolding count_free
count_free-le bitmap zero = omega arith
count_free-le bitmap (suc n) = ground (arith, count_free-le bitmap n)

pub count_free-set_used :
    (bitmap : List ℕ) (i n : ℕ)
    → i / 64 < length bitmap
    → is_free bitmap i ≡ true
    → count_free (set_used bitmap i) n + (if ltb i n then 1 else 0) ≡ count_free bitmap n
unfolding count_free
count_free-set_used bitmap i zero h f = ground arith
count_free-set_used bitmap i (suc n) h f =
    ground (arith, count_free-set_used bitmap i n h f, is_free-set_used bitmap i n h)

pub count_free-set_free :
    (bitmap : List ℕ) (i n : ℕ)
    → i / 64 < length bitmap
    → is_free bitmap i ≡ false
    → count_free (set_free bitmap i) n ≡ count_free bitmap n + (if ltb i n then 1 else 0)
unfolding count_free
count_free-set_free bitmap i zero h f = ground arith
count_free-set_free bitmap i (suc n) h f =
    ground (arith, count_free-set_free bitmap i n h f, is_free-set_free bitmap i n h)

-- A free page below `n` is counted.
pub count_free-pos :
    (bitmap : List ℕ) (i n : ℕ) → i < n → is_free bitmap i ≡ true → 0 < count_free bitmap n
unfolding count_free
count_free-pos bitmap i zero h f = absurd (omega arith)
count_free-pos bitmap i (suc n) h f = elim (Bool-cases (i == n)) [
  | inl e ↦ ground (arith, ==→eq i n e)
  | inr e ↦ ground (arith, count_free-pos bitmap i n)
]
