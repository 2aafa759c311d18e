-- ===== src/Exec/Start.antt =====
-- The stack on which an ELF program starts, as `build_user_stack` of core/cpu/exec.c leaves it.
use uix.Base.{
  ℕ, ◌+◌, ◌-◌, ◌%◌, ◌≤◌, ◌<◌, ◌≡◌, refl, sym, ◌∙◌, true, false, inl, inr, ◌⊎◌, some, arith,
}
use uix.Libc.{Memory, memcpy}
use uix.Libc.Blocks.{within, copied, memcpy_lem}
use uix.Libc.Text.{IsText, strlen_lem}
use uix.Spawn.{user_stack_top}
use uix.Exec.UserStack.{
  random_byte, fill_random, put_words, start_words, argv0_at, atrandom_at, rsp_at, stack_for,
  build_user_stack,
}
use uix.Exec.Layout.{
  words_at, words_at-put_words, put_words_outside, fill_random_outside, fill_random_inside,
}

-- the start of the highest page of the stack
abbrev pub stack_page : ℕ
stack_page = user_stack_top - 4096

-- Where the parts of the stack are: the words from `rsp` on, then the random bytes, then the path.
record Places (argv0 atrandom rsp n : ℕ) : Type 0 where
  aligned : rsp % 16 ≡ 0
  bottom : stack_page ≤ rsp
  words_end : rsp + 80 ≤ atrandom
  random_end : atrandom + 16 ≤ argv0
  top : argv0 + n < user_stack_top

places :
    (n : ℕ)
    → n < 64
    → let argv0 = argv0_at (n + 1) in
      let atrandom = atrandom_at argv0 in Places argv0 atrandom (rsp_at atrandom) n
places n lt = record {
  aligned = omega arith;
  bottom = omega arith;
  words_end = omega arith;
  random_end = omega arith;
  top = omega arith;
}

-- What a program finds at `rsp`: argc is 1; argv[0] is the address of a copy of the path; argv and the
-- empty envp end in NULL; the auxiliary vector gives the size of a page and the address of 16 bytes
-- that are set; and only the highest page of the stack has been written, `rsp` and all above.
pub record StartStack (m m' : Memory) (path n argv0 atrandom rsp : ℕ) : Type 0 where
  pub aligned : rsp % 16 ≡ 0
  pub bottom : stack_page ≤ rsp
  pub words : words_at m' rsp 10 ≡ start_words argv0 atrandom
  pub argv : IsText m' argv0 n
  pub same_text : (i : ℕ) → i ≤ n → m' (argv0 + i) ≡ m (path + i)
  pub random : (i : ℕ) → i < 16 → m' (atrandom + i) ≡ random_byte i
  pub outside : (a : ℕ) → within rsp (user_stack_top - rsp) a ≡ false → m' a ≡ m a

module _ (m : Memory) (path n argv0 atrandom rsp : ℕ) (p : Places argv0 atrandom rsp n)
    (t : IsText m path n) (apart : (path + n < stack_page) ⊎ (user_stack_top ≤ path)) where
  filled : Memory
  filled = fill_random (memcpy m argv0 path (n + 1)) atrandom

  result : Memory
  result = put_words filled rsp (start_words argv0 atrandom)

  copied_path : (a : ℕ) → memcpy m argv0 path (n + 1) a ≡ copied m argv0 path (n + 1) a
  copied_path a = memcpy_lem m argv0 path (n + 1) a (elim apart [
    | inl below ↦ inr (omega (arith, p.words_end, p.random_end, p.bottom, below))
    | inr above ↦ inl (omega (arith, p.top, above))
  ])

  same_text_lem : (i : ℕ) → i ≤ n → result (argv0 + i) ≡ m (path + i)
  unfolding result filled
  same_text_lem i le =
      let a : within rsp 80 (argv0 + i) ≡ false = ground (arith, p.words_end, p.random_end) in
      let b : within atrandom 16 (argv0 + i) ≡ false = ground (arith, p.random_end) in
      let c : within argv0 (n + 1) (argv0 + i) ≡ true = ground arith in
      let d : path + (argv0 + i - argv0) ≡ path + i = omega arith in
      put_words_outside filled rsp (start_words argv0 atrandom) (argv0 + i) a
      ∙ fill_random_outside (memcpy m argv0 path (n + 1)) atrandom (argv0 + i) b
      ∙ copied_path (argv0 + i)
      ∙ rw (c, d) refl

  start_stack : StartStack m result path n argv0 atrandom rsp
  unfolding result filled
  start_stack = record {
    aligned = p.aligned;
    bottom = p.bottom;
    words =
        words_at-put_words filled rsp (start_words argv0 atrandom)
          (omega (arith, p.top, p.random_end, p.words_end));
    argv = record {
      chars = λ i lt e. t.chars i lt (sym (same_text_lem i (omega arith)) ∙ e);
      nul = same_text_lem n (omega arith) ∙ t.nul;
    };
    same_text = same_text_lem;
    random = λ i lt.
        put_words_outside filled rsp (start_words argv0 atrandom) (atrandom + i)
          (ground (arith, p.words_end))
        ∙ fill_random_inside (memcpy m argv0 path (n + 1)) atrandom i lt;
    outside = λ a out.
        put_words_outside filled rsp (start_words argv0 atrandom) a
          (ground (arith, p.words_end, p.random_end, p.top))
        ∙ fill_random_outside (memcpy m argv0 path (n + 1)) atrandom a
            (ground (arith, p.words_end, p.random_end, p.top))
        ∙ copied_path a
        ∙ ground (arith, p.words_end, p.random_end, p.top);
  }

-- For a path of less than 64 characters that does not lie in the highest page of the stack, with
-- enough fuel for its length, `build_user_stack` returns a stack pointer that is a multiple of 16
-- and lies in that page. The words from there on are argc = 1, argv with its NULL, the empty envp and
-- the auxiliary vector; argv[0] is the address of a copy of the path; AT_RANDOM is the address of 16
-- bytes that are set; and no byte below the stack pointer or from the top of the stack on has changed.
pub build_user_stack_lem :
    (fuel : ℕ) (m : Memory) (path n : ℕ)
    → IsText m path n
    → n < 64
    → n < fuel
    → (path + n < stack_page) ⊎ (user_stack_top ≤ path)
    → (m' : Memory) × (rsp : ℕ) × (build_user_stack fuel m path ≡ some (m', rsp))
      × StartStack m m' path n (argv0_at (n + 1)) (atrandom_at (argv0_at (n + 1))) rsp
unfolding build_user_stack stack_for result filled
build_user_stack_lem fuel m path n t lt enough apart =
    let argv0 = argv0_at (n + 1) in
    let atrandom = atrandom_at argv0 in
    let rsp = rsp_at atrandom in
    (
      result m path n argv0 atrandom rsp (places n lt) t apart,
      rsp,
      rw (build_user_stack, strlen_lem fuel m path n t enough) refl,
      start_stack m path n argv0 atrandom rsp (places n lt) t apart,
    )
