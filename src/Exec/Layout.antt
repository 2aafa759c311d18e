-- ===== src/Exec/Layout.antt =====
-- What `build_user_stack` of core/cpu/exec.c leaves in the memory of the task.
use uix.Base.{
  ℕ, zero, suc, ◌+◌, ◌-◌, ◌*◌, ◌/◌, ◌%◌, ◌^◌, ◌<◌, ◌≡◌, refl, ◌∙◌, ap₂, true, false, inl, inr, List,
  [], ◌∷◌, ltb, ◌==◌, if◌then◌else◌, arith, Bool-cases, ne→==, ==_self, length, get_or,
  for_range_inv, for_range_hit,
}
use uix.Libc.{Memory, store}
use uix.Libc.Blocks.{within}
use uix.Elf.{u64_at}
use uix.Syscall.{store64, put_bytes}
use uix.Exec.UserStack.{random_byte, fill_random, put_words}

put_bytes_lem :
    (m : Memory) (a : ℕ) (bs : List ℕ) (b : ℕ)
    → put_bytes m a bs b ≡ (if within a (length bs) b then get_or bs (b - a) 0 else m b)
unfolding put_bytes
put_bytes_lem m a [] b = ground arith
put_bytes_lem m a (c ∷ bs) b =
    put_bytes_lem (store m a c) (a + 1) bs b ∙ elim (Bool-cases (ltb a b)) [
      | inl past ↦ let e : b - a ≡ suc (b - (a + 1)) = ground arith in rw e (ground arith)
      | inr here ↦ elim (Bool-cases (a == b)) [
        | inl same ↦ let z : b - a ≡ 0 = ground arith in rw (z, same) (ground arith)
        | inr other ↦ ground arith
      ]
    ]

-- the bytes of a word, the low one first
abbrev u64_bytes : ℕ → List ℕ
u64_bytes v =
    v % 256
    ∷ v / 256 % 256
    ∷ v / 2 ^ 16 % 256
    ∷ v / 2 ^ 24 % 256
    ∷ v / 2 ^ 32 % 256
    ∷ v / 2 ^ 40 % 256
    ∷ v / 2 ^ 48 % 256
    ∷ v / 2 ^ 56 % 256
    ∷ []

store64_lem :
    (m : Memory) (a v b : ℕ)
    → store64 m a v b ≡ (if within a 8 b then get_or (u64_bytes v) (b - a) 0 else m b)
unfolding store64
store64_lem m a v b = put_bytes_lem m a (u64_bytes v) b

store64_outside : (m : Memory) (a v b : ℕ) → within a 8 b ≡ false → store64 m a v b ≡ m b
store64_outside m a v b out = store64_lem m a v b ∙ rw out refl

store64_byte :
    (m : Memory) (a v k b : ℕ) → k < 8 → b ≡ a + k → store64 m a v b ≡ get_or (u64_bytes v) k 0
store64_byte m a v k b lt e =
    let inside : within a 8 b ≡ true = ground arith in
    let off : b - a ≡ k = omega arith in store64_lem m a v b ∙ rw (inside, off) refl

-- A word reads the bytes that are stored in it.
u64_at-store64 : (m : Memory) (a v : ℕ) → v < 2 ^ 64 → u64_at (store64 m a v) a ≡ v
u64_at-store64 m a v small = omega (
  arith,
  store64_byte m a v 0 a (omega arith) (omega arith),
  store64_byte m a v 1 (a + 1) (omega arith) (omega arith),
  store64_byte m a v 2 (a + 2) (omega arith) (omega arith),
  store64_byte m a v 3 (a + 2 + 1) (omega arith) (omega arith),
  store64_byte m a v 4 (a + 4) (omega arith) (omega arith),
  store64_byte m a v 5 (a + 4 + 1) (omega arith) (omega arith),
  store64_byte m a v 6 (a + 4 + 2) (omega arith) (omega arith),
  store64_byte m a v 7 (a + 4 + 2 + 1) (omega arith) (omega arith),
)

u64_at-same :
    (m m' : Memory) (a : ℕ)
    → ((b : ℕ) → within a 8 b ≡ true → m b ≡ m' b)
    → u64_at m a ≡ u64_at m' a
u64_at-same m m' a same = omega (
  arith,
  same a (ground arith),
  same (a + 1) (ground arith),
  same (a + 2) (ground arith),
  same (a + 2 + 1) (ground arith),
  same (a + 4) (ground arith),
  same (a + 4 + 1) (ground arith),
  same (a + 4 + 2) (ground arith),
  same (a + 4 + 2 + 1) (ground arith),
)

pub put_words_outside :
    (m : Memory) (a : ℕ) (vs : List ℕ) (b : ℕ)
    → within a (length vs * 8) b ≡ false
    → put_words m a vs b ≡ m b
unfolding put_words
put_words_outside m a [] b out = refl
put_words_outside m a (v ∷ vs) b out =
    put_words_outside (store64 m a v) (a + 8) vs b (ground arith)
    ∙ store64_outside m a v b (ground arith)

-- the `n` words from `a` on
unfoldable pub words_at : Memory → ℕ → ℕ → List ℕ
words_at m a zero = []
words_at m a (suc n) = u64_at m a ∷ words_at m (a + 8) n

abbrev pub AllWords : List ℕ → Type 0
AllWords [] = Unit {0}
AllWords (v ∷ vs) = (v < 2 ^ 64) × AllWords vs

pub words_at-put_words :
    (m : Memory) (a : ℕ) (vs : List ℕ)
    → AllWords vs
    → words_at (put_words m a vs) a (length vs) ≡ vs
unfolding words_at put_words
words_at-put_words m a [] small = refl
words_at-put_words m a (v ∷ vs) small =
    let m1 = store64 m a v in
    let first : u64_at (put_words m1 (a + 8) vs) a ≡ v =
      u64_at-same (put_words m1 (a + 8) vs) m1 a
        (λ b here. put_words_outside m1 (a + 8) vs b (ground arith))
      ∙ u64_at-store64 m a v small.0 in
    ap₂ (λ x xs. x ∷ xs) first (words_at-put_words m1 (a + 8) vs small.1)

pub fill_random_outside :
    (m : Memory) (va b : ℕ) → within va 16 b ≡ false → fill_random m va b ≡ m b
unfolding fill_random
fill_random_outside m va b out =
    for_range_inv (λ (t : Memory). t b ≡ m b) (λ i t. store t (va + i) (random_byte i)) 16 0 m
      (λ i t lo hi same. rw (ne→== (va + i) b (λ e. ground arith)) same) refl

pub fill_random_inside :
    (m : Memory) (va k : ℕ) → k < 16 → fill_random m va (va + k) ≡ random_byte k
unfolding fill_random
fill_random_inside m va k lt =
    for_range_hit (λ (t : Memory). t (va + k) ≡ random_byte k)
      (λ i t. store t (va + i) (random_byte i)) 16 0 k m (omega arith) (omega arith)
      (λ t. rw (==_self (va + k)) refl)
      (λ i t lo hi ne same. rw (ne→== (va + i) (va + k) (λ e. ne (omega arith))) same)
