-- ===== src/Exec/Image.antt =====
-- The loading of a flat image and the pages of the user stack, which core/cpu/exec.c and user.c do
-- alike. `pmm_alloc` and `vmm_map` are the interface `Pages` of the heap; the result of `pmm_alloc` is
-- not checked there. `held` gives what a page holds when it is mapped: the pages are not cleared.
use uix.Base.{ℕ, zero, suc, ◌+◌, ◌-◌, ◌/◌, Outcome, ok, ◌>>=◌, ltb, leb, ◌&&◌, if◌then◌else◌}
use uix.Libc.{Memory}
use uix.Heap.{Pages}
use uix.Elf.{copy_in, user_flags}
use uix.Spawn.{user_code_base, user_stack_top}

abbrev pub user_stack_size : ℕ
user_stack_size = 0x40000

-- `chunk = len - off; if (chunk > UIX_PAGE_SIZE) chunk = UIX_PAGE_SIZE;`
abbrev pub flat_chunk : ℕ → ℕ → ℕ
flat_chunk len off = if ltb 4096 (len - off) then 4096 else len - off

module _ (P : Pages) where
  open P use {State, alloc, map_page}

  pub record Space : Type 0 where
    pub pages : State
    pub memory : Memory

  -- one page for the user, at `va`
  unfoldable pub user_page : (ℕ → ℕ → ℕ) → ℕ → Space → Outcome Space
  user_page held va s =
      let (pages, p) = alloc s.pages in
      map_page pages va p user_flags >>= λ pages'. ok (record {
        pages = pages';
        memory = λ a. if leb va a && ltb a (va + 4096) then held p (a - va) else s.memory a;
      })

  -- `while (off < len)`, with the rounds that are left
  unfoldable pub load_flat : (ℕ → ℕ → ℕ) → Memory → ℕ → ℕ → ℕ → Space → Outcome Space
  unfolding user_page copy_in
  load_flat held img len zero off s = ok s
  load_flat held img len (suc rounds) off s = user_page held (user_code_base + off) s >>= λ s'.
      load_flat held img len rounds (off + 4096) (record s' {
        memory = copy_in img s'.memory (user_code_base + off) off (flat_chunk len off);
      })

  -- all of the image
  unfoldable pub load_image : (ℕ → ℕ → ℕ) → Memory → ℕ → Space → Outcome Space
  unfolding load_flat
  load_image held img len s = load_flat held img len ((len + 4095) / 4096) 0 s

  -- `for (va = …; va >= …; va -= UIX_PAGE_SIZE)`, downwards
  unfoldable pub map_stack_from : (ℕ → ℕ → ℕ) → ℕ → ℕ → Space → Outcome Space
  unfolding user_page
  map_stack_from held va zero s = ok s
  map_stack_from held va (suc rounds) s =
      user_page held va s >>= λ s'. map_stack_from held (va - 4096) rounds s'

  unfoldable pub map_stack : (ℕ → ℕ → ℕ) → Space → Outcome Space
  unfolding map_stack_from
  map_stack held s = map_stack_from held (user_stack_top - 4096) (user_stack_size / 4096) s
