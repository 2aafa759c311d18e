-- ===== src/Exec/UserStack.antt =====
-- `build_user_stack` of core/cpu/exec.c: the stack on which an ELF program starts. The path is text
-- in the memory, and `strlen` takes its fuel.
use uix.Base.{ℕ, ◌+◌, ◌-◌, ◌*◌, ◌/◌, ◌%◌, ◌^◌, Option, none, some, List, [], ◌∷◌, for_range}
use uix.Libc.{Memory, store, memcpy, strlen}
use uix.Spawn.{user_stack_top}
use uix.Syscall.{store64}

-- `*(u8 *)(atrandom_va + i) = (u8)(i * 7 + 0x5A);`
abbrev pub random_byte : ℕ → ℕ
random_byte i = (i * 7 + 0x5A) % 256

unfoldable pub fill_random : Memory → ℕ → Memory
unfolding for_range
fill_random m atrandom_va = for_range (λ i m'. store m' (atrandom_va + i) (random_byte i)) 16 0 m

-- `*p++ = v;` for each word
unfoldable pub put_words : Memory → ℕ → List ℕ → Memory
unfolding store64
put_words m p [] = m
put_words m p (v ∷ vs) = put_words (store64 m p v) (p + 8) vs

abbrev pub at_null : ℕ
at_null = 0

abbrev pub at_pagesz : ℕ
at_pagesz = 6

abbrev pub at_random : ℕ
at_random = 25

-- argc, argv with its NULL, the empty envp, and the auxiliary vector
abbrev pub start_words : ℕ → ℕ → List ℕ
start_words argv0_va atrandom_va =
    1 ∷ argv0_va ∷ 0 ∷ 0 ∷ at_pagesz ∷ 4096 ∷ at_random ∷ atrandom_va ∷ at_null ∷ 0 ∷ []

-- `top -= pathlen;` and the address of the copied path
abbrev pub argv0_at : ℕ → ℕ
argv0_at pathlen = (user_stack_top - 64 + 2 ^ 64 - pathlen) % 2 ^ 64

-- `top -= 16; top &= ~0xF;`
abbrev pub atrandom_at : ℕ → ℕ
atrandom_at top = (top + 2 ^ 64 - 16) % 2 ^ 64 / 16 * 16

-- `(top - frame_bytes) & ~0xF`, with one word more than are written
abbrev pub rsp_at : ℕ → ℕ
rsp_at top = (top + 2 ^ 64 - (1 + 2 + 1 + 6 + 1) * 8) % 2 ^ 64 / 16 * 16

-- the stack for a path of `pathlen` bytes, its NUL included
unfoldable pub stack_for : Memory → ℕ → ℕ → Memory × ℕ
unfolding memcpy fill_random put_words
stack_for m path pathlen =
    let argv0_va = argv0_at pathlen in
    let atrandom_va = atrandom_at argv0_va in
    let rsp = rsp_at atrandom_va in
    let m' = fill_random (memcpy m argv0_va path pathlen) atrandom_va in
    (put_words m' rsp (start_words argv0_va atrandom_va), rsp)

unfoldable pub build_user_stack : ℕ → Memory → ℕ → Option (Memory × ℕ)
unfolding strlen stack_for
build_user_stack fuel m path = elim (strlen fuel m path) [
  | none ↦ none
  | some n ↦ some (stack_for m path (n + 1))
]
