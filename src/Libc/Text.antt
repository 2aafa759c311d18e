-- ===== src/Libc/Text.antt =====
-- The string routines of core/lib.c on NUL-terminated text.
use uix.Base.{
  ℕ, zero, suc, ◌+◌, ◌-◌, ◌<◌, ◌≡◌, ◌≢◌, ◌∙◌, false, if◌then◌else◌, ◌==◌, arith, ap, some,
}
use uix.Libc.{Memory, store, strlen, strncpy_copy, strncpy, strcmp, Comparison}
use uix.Libc.Blocks.{within, memset_lem, copied}

-- `n` characters other than NUL stand at `s`, and then a NUL
pub record IsText (m : Memory) (s n : ℕ) : Type 0 where
  pub chars : (i : ℕ) → i < n → m (s + i) ≢ 0
  pub nul : m (s + n) ≡ 0

IsText-tail : (m : Memory) (s n : ℕ) → IsText m s (suc n) → IsText m (s + 1) n
IsText-tail m s n t = record {
  chars = λ i lt e. t.chars (suc i) (omega arith) (ap m (shift i) ∙ e);
  nul = ap m (shift' n) ∙ t.nul;
}
  where
    shift : (i : ℕ) → s + suc i ≡ s + 1 + i
    shift i = omega arith

    shift' : (i : ℕ) → s + 1 + i ≡ s + suc i
    shift' i = omega arith

head_ne : (m : Memory) (s n : ℕ) → IsText m s (suc n) → (m s == 0) ≡ false
head_ne m s n t = ground (arith, t.chars 0, ap m {x = s + 0} {y = s})

-- On a NUL-terminated text, the loop of `strlen` ends within one round more than the text has
-- characters, with the length of the text.
pub strlen_lem :
    (fuel : ℕ) (m : Memory) (s n : ℕ) → IsText m s n → n < fuel → strlen fuel m s ≡ some n
unfolding strlen
strlen_lem zero m s n t h = absurd (omega arith)
strlen_lem (suc fuel) m s zero t h = ground (arith, t.nul, ap m {x = s + 0} {y = s})
strlen_lem (suc fuel) m s (suc n) t h =
    ground (arith, head_ne m s n t, strlen_lem fuel m (s + 1) n (IsText-tail m s n t) (omega arith))

-- A write past a text leaves it a text.
IsText-store : (m : Memory) (s n d v : ℕ) → IsText m s n → s + n < d → IsText (store m d v) s n
IsText-store m s n d v t h = record {
  chars = λ i lt. ground (arith, t.chars i lt);
  nul = ground (arith, t.nul);
}

-- The first loop of `strncpy`, on a text of `n` characters and room for more: it copies the text
-- and its NUL, and leaves the count that was there before the NUL.
strncpy_copy_lem :
    (m : Memory) (dst src n room : ℕ)
    → IsText m src n
    → src + n < dst
    → n < room
    → ((a : ℕ) → (strncpy_copy m dst src room).0 a ≡ copied m dst src (suc n) a)
      × ((strncpy_copy m dst src room).1 ≡ dst + n + 1)
      × ((strncpy_copy m dst src room).2 ≡ room - n)
unfolding strncpy_copy
strncpy_copy_lem m dst src n zero t apart h = absurd (omega arith)
strncpy_copy_lem m dst src zero (suc room) t apart h =
    let at_nul : m src ≡ 0 = ground (arith, t.nul, ap m {x = src + 0} {y = src}) in
    rw at_nul
      (λ a. ground (arith, at_nul, ap m {x = src} {y = src + (a - dst)}), omega arith, omega arith)
strncpy_copy_lem m dst src (suc n) (suc room) t apart h =
    let m' : Memory = store m dst (m src) in
    let rest =
      strncpy_copy_lem m' (dst + 1) (src + 1) n room
        (IsText-store m (src + 1) n dst (m src) (IsText-tail m src n t) (omega arith)) (omega arith)
        (omega arith) in
    rw (head_ne m src n t) (
      λ a.
          rest.0 a
          ∙ ground (
            arith,
            ap m {x = src + 1 + (a - (dst + 1))} {y = src + (a - dst)},
            ap m {x = src} {y = src + (a - dst)},
          ),
      omega (arith, rest.1),
      omega (arith, rest.2),
    )

-- `strncpy` of a text shorter than `room` characters, to a place past its end, copies the text and
-- fills with NULs up to and including the byte at `dst + room`, one more than the `room` bytes
-- that it is given; no other byte changes.
pub strncpy_lem :
    (m : Memory) (dst src n room a : ℕ)
    → IsText m src n
    → src + n < dst
    → n < room
    → strncpy m dst src room a
      ≡ (if within dst n a then m (src + (a - dst)) else if within dst (room + 1) a then 0 else m a)
unfolding strncpy
strncpy_lem m dst src n room a t apart h =
    let first = strncpy_copy_lem m dst src n room t apart h in
    memset_lem (strncpy_copy m dst src room).0 (strncpy_copy m dst src room).1 0
      (strncpy_copy m dst src room).2 a
    ∙ ground (arith, first.0 a, first.1, first.2, t.nul, ap m {x = src + n} {y = src + (a - dst)})

-- two texts of the same length with the same characters
pub record SameText (m : Memory) (a b n : ℕ) : Type 0 where
  pub left : IsText m a n
  pub right : IsText m b n
  pub same : (i : ℕ) → i < n → m (a + i) ≡ m (b + i)

SameText-tail : (m : Memory) (a b n : ℕ) → SameText m a b (suc n) → SameText m (a + 1) (b + 1) n
SameText-tail m a b n t = record {
  left = IsText-tail m a n t.left;
  right = IsText-tail m b n t.right;
  same = λ i lt. ground (
    arith,
    t.same (suc i) (omega arith),
    ap m {x = a + 1 + i} {y = a + suc i},
    ap m {x = b + 1 + i} {y = b + suc i},
  );
}

-- `strcmp` of two equal texts returns 0.
pub strcmp-same :
    (fuel : ℕ) (m : Memory) (a b n : ℕ)
    → SameText m a b n
    → n < fuel
    → strcmp fuel m a b ≡ some Comparison.equal
unfolding strcmp
strcmp-same zero m a b n t h = absurd (omega arith)
strcmp-same (suc fuel) m a b zero t h =
    ground (arith, t.left.nul, t.right.nul, ap m {x = a + 0} {y = a}, ap m {x = b + 0} {y = b})
strcmp-same (suc fuel) m a b (suc n) t h = ground (
  arith,
  head_ne m a n t.left,
  t.same 0 (omega arith),
  ap m {x = a + 0} {y = a},
  ap m {x = b + 0} {y = b},
  strcmp-same fuel m (a + 1) (b + 1) n (SameText-tail m a b n t) (omega arith),
)
