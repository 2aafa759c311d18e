-- ===== src/Libc/Blocks.antt =====
-- The block operations of core/lib.c: memset, memcpy and memmove at every address.
use uix.Base.{
  ℕ, zero, suc, ◌+◌, ◌-◌, ◌%◌, ◌<◌, ◌≤◌, ◌≡◌, ◌∙◌, Bool, ◌⊎◌, inl, inr, ◌&&◌, ltb, leb,
  if◌then◌else◌, arith, Bool-cases, ap,
}
use uix.Libc.{Memory, store, memset, memcpy, copy_down, memmove}

-- whether `a` lies in the `n` bytes at `base`
abbrev pub within : ℕ → ℕ → ℕ → Bool
within base n a = leb base a && ltb a (base + n)

-- `memset` writes the low byte of `c` to the `n` bytes at `dst`, and to no other address.
pub memset_lem :
    (m : Memory) (dst c n a : ℕ) → memset m dst c n a ≡ (if within dst n a then c % 256 else m a)
unfolding memset
memset_lem m dst c zero a = ground arith
memset_lem m dst c (suc n) a = memset_lem (store m dst (c % 256)) (dst + 1) c n a ∙ ground arith

-- what a copy of `n` bytes should leave at `a`: the byte that the source had before
abbrev pub copied : Memory → ℕ → ℕ → ℕ → ℕ → ℕ
copied m dst src n a = if within dst n a then m (src + (a - dst)) else m a

-- Going up is right where the destination starts before the source, or past its end.
pub memcpy_lem :
    (m : Memory) (dst src n a : ℕ)
    → (dst ≤ src) ⊎ (src + n ≤ dst)
    → memcpy m dst src n a ≡ copied m dst src n a
unfolding memcpy
memcpy_lem m dst src zero a h = ground arith
memcpy_lem m dst src (suc n) a h =
    memcpy_lem (store m dst (m src)) (dst + 1) (src + 1) n a (ground arith)
    ∙ ground (
      arith,
      ap m {x = src + 1 + (a - (dst + 1))} {y = src + (a - dst)},
      ap m {x = src} {y = src + (a - dst)},
    )

-- Going down is right where the source starts before the destination.
copy_down_lem :
    (m : Memory) (dst src n a : ℕ) → src < dst → copy_down m dst src n a ≡ copied m dst src n a
unfolding copy_down
copy_down_lem m dst src zero a h = ground arith
copy_down_lem m dst src (suc n) a h =
    copy_down_lem (store m (dst + n) (m (src + n))) dst src n a h
    ∙ ground (arith, ap m {x = src + n} {y = src + (a - dst)})

-- `memmove` copies right however the two blocks overlap: every byte of the destination becomes
-- the byte that the source held before the call, and no other address changes.
pub memmove_lem : (m : Memory) (dst src n a : ℕ) → memmove m dst src n a ≡ copied m dst src n a
unfolding memmove
memmove_lem m dst src n a = elim (Bool-cases (ltb dst src)) [
  | inl lo ↦ rw lo (memcpy_lem m dst src n a (ground arith))
  | inr ge ↦ elim (Bool-cases (ltb src dst)) [
    | inl hi ↦ rw (ge, hi) (copy_down_lem m dst src n a (ground arith))
    | inr same ↦ rw (ge, same) (ground (arith, ap m {x = a} {y = src + (a - dst)}))
  ]
]
