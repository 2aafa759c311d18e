-- ===== src/Examples/Images.antt =====
-- Runs of core/cpu/exec.c and user.c on small states.
use uix.Base.{
  ℕ, zero, suc, sym, ap, ◌∙◌, ◌+◌, ◌-◌, ◌<◌, ◌≡◌, ◌≢◌, refl, inl, true, some, List, [], ◌∷◌, ok,
  panic, fault, ◌==◌, ◌&&◌, arith, ltb, get_or, if◌then◌else◌,
}
use uix.Base.Words.{test_bit, set_bit}
use uix.Libc.{Memory}
use uix.Libc.Text.{IsText}
use uix.Pmm
use uix.Pmm.{Pmm, is_free, page_index}
use uix.Pmm.Bitmap.{count_free}
use uix.Pmm.Valid.{IsValid}
use uix.Vmm.{Vmm, create_space, for_each, map_page}
use uix.Vmm.Space.{create_space_lem}
use uix.Exec.UserStack.{build_user_stack, argv0_at, atrandom_at}
use uix.Exec.Start.{StartStack, build_user_stack_lem}
use uix.Exec.Image.{Space}
use uix.Exec.Freeing.{free_space, free_under, free_user_tables}
use uix.Exec.Emptied.{TableBelow, free_space_lem}
use uix.Examples.Tables.{one_page}
use uix.Elf.{user_flags}
use uix.Vmm.Backing.{kernel_pages}

-- the text "/hi"
abbrev hi : List ℕ
hi = b'/' ∷ b'h' ∷ b'i' ∷ []

-- at 0x1000
abbrev hi_text : Memory
hi_text a = get_or hi (a - 0x1000) 0

hi_char : (i : ℕ) → i < 3 → get_or hi i 0 ≢ 0
hi_char zero lt e = omega arith
hi_char (suc zero) lt e = omega arith
hi_char (suc (suc zero)) lt e = omega arith
hi_char (suc (suc (suc i))) lt e = omega arith

hi_text-IsText : IsText hi_text 0x1000 3
hi_text-IsText = record {
  chars = λ i lt e.
      let at : 0x1000 + i - 0x1000 ≡ i = omega arith in
      hi_char i lt (sym (ap (λ k. get_or hi k 0) at) ∙ e);
  nul = refl;
}

build_user_stack_lem_example :
    (m' : Memory) × (rsp : ℕ) × (build_user_stack 64 hi_text 0x1000 ≡ some (m', rsp))
    × StartStack hi_text m' 0x1000 3 (argv0_at 4) (atrandom_at (argv0_at 4)) rsp
build_user_stack_lem_example =
    build_user_stack_lem 64 hi_text 0x1000 3 hi_text-IsText (omega arith) (omega arith)
      (inl (omega arith))

create_space_lem_example :
    (u : Vmm) × (create_space one_page ≡ ok (u, 24576))
    × ((i : ℕ) → i < 512 → u.words 24576 i ≡ (if ltb i 256 then 0 else one_page.words 4096 i))
    × ((q i : ℕ) → q ≢ 24576 → u.words q i ≡ one_page.words q i)
    × (u.pmm ≡ (Pmm.alloc one_page.pmm).0)
    × (u.pml4 ≡ 4096)
unfolding Pmm.alloc test_bit
create_space_lem_example = create_space_lem one_page (λ e. omega arith)

one_page-IsValid : IsValid one_page.pmm
unfolding count_free is_free test_bit
one_page-IsValid = record {
  covered = omega arith;
  small = omega arith;
  cursor = omega arith;
  counted = refl;
}

-- all pages but 0 and the shared one are free then
abbrev pub freed_page : Vmm
freed_page = record one_page {
  pmm = record {
    bitmap = 222 ∷ [];
    bitmap_len = 8;
    total_pages = 8;
    free_count = 6;
    next_free_scan = 0;
    refcounts = some (0 ∷ 0 ∷ 0 ∷ 0 ∷ 0 ∷ 1 ∷ 0 ∷ 0 ∷ []);
  };
}

pub one_page_freed : free_space 4096 one_page ≡ ok freed_page
unfolding free_space test_bit set_bit for_each free_under free_user_tables
one_page_freed = refl

free_space_lem_example :
    IsValid freed_page.pmm
    × ((j : ℕ) → is_free one_page.pmm.bitmap j ≡ true → is_free freed_page.pmm.bitmap j ≡ true)
    × ((t : ℕ)
        → TableBelow one_page.words 3 256 4096 t
        → is_free freed_page.pmm.bitmap (page_index t) ≡ true)
    × (is_free freed_page.pmm.bitmap (page_index 4096) ≡ true)
    × (freed_page.words ≡ one_page.words)
    × (freed_page.pml4 ≡ 4096)
free_space_lem_example =
    free_space_lem 4096 one_page freed_page (λ e. omega arith) one_page-IsValid one_page_freed

-- an address space that has the tables for the addresses from USER_CODE_BASE on; pages 6 and 7 are free
abbrev code_tables : Vmm
code_tables = record one_page {
  words = λ q j.
      if q == 4096 && j == 0
      then 8199
      else if q == 8192 && j == 0
      then 12295
      else if q == 12288 && j == 2
      then 16391
      else 0;
}

-- the state after the next page is mapped at `va`
abbrev with_page : Vmm → ℕ → Vmm
with_page s va = elim (map_page (kernel_pages.alloc s).0 va (kernel_pages.alloc s).1 user_flags) [
  | ok u ↦ u
  | panic ↦ s
  | fault ↦ s
]
