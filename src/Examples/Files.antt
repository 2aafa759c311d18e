-- ===== src/Examples/Files.antt =====
-- A run of personality/fs/uixfs.c: 600 bytes from sector 3 on, of a disk whose sectors hold their
-- own numbers.
use mathlib.Core.Path.{subst}
use uix.Pmm.{alloc_pages}
use uix.Base.Words.{test_bit}
use uix.Base.{
  Bool, sym, ap, ℕ, ◌==◌, if◌then◌else◌, [], ◌∷◌, ◌++◌, none, false, ok, inl, inr, Bool-cases, ◌+◌,
  ◌/◌, ◌%◌, ◌<◌, ◌≡◌, refl, true, List, some, get_or, length, length-replicate, replicate, arith,
}
use uix.Uixfs.{Fs, Result, mount, mount_from, read, lookup, same_name, file_buf_free, Device}
use uix.Uixfs.Mount.{Mounted, mount_lem}
use uix.Uixfs.File.{read_lem}

abbrev numbered : ℕ → List ℕ
numbered n = replicate 512 n

abbrev numbered_disk : Device
numbered_disk n = some (numbered n)

-- A disk with one file, "a", of 3 bytes in sector 2.
abbrev small_disk : ℕ → List ℕ
small_disk n =
    if n == 0
    then 0x55 ∷ 0x49 ∷ 0x58 ∷ 0x46 ∷ 1 ∷ replicate 507 0
    else if n == 1
    then b'a' ∷ replicate 23 0 ++ (3 ∷ 0 ∷ 0 ∷ 0 ∷ 2 ∷ replicate 483 0)
    else b'h' ∷ b'i' ∷ b'!' ∷ replicate 509 0

small_disk-length : (n : ℕ) → length (small_disk n) ≡ 512
small_disk-length n = elim (Bool-cases (n == 0)) [
  | inl zeroth ↦ rw zeroth refl
  | inr other ↦ elim (Bool-cases (n == 1)) [
    | inl first ↦ rw (other, first) refl
    | inr later ↦ rw (other, later) refl
  ]
]

abbrev small_device : Device
small_device n = some (small_disk n)

-- the static variables at the start, with four pages of memory
abbrev unmounted : Fs
unmounted = record {
  table = replicate 1024 0;
  nfiles = 0;
  mounted = false;
  sector = replicate 512 0;
  file_buf = none;
  file_buf_pages = 0;
  contents = [];
  pmm = record {
    bitmap = 14 ∷ [];
    bitmap_len = 4;
    total_pages = 4;
    free_count = 3;
    next_free_scan = 2;
    refcounts = none;
  };
}

mount_lem_example :
    (g : Fs) × (mount small_device unmounted ≡ (g, true))
    × Mounted small_disk g
    × (g.pmm ≡ unmounted.pmm)
    × (g.file_buf ≡ none)
    × (g.file_buf_pages ≡ 0)
mount_lem_example =
    mount_lem small_device small_disk unmounted (λ n. refl) small_disk-length refl
      (length-replicate {A = ℕ} 1024 0)

-- the file system after that
abbrev with_one_file : Fs
with_one_file = (mount small_device unmounted).0

with_one_file-Mounted : Mounted small_disk with_one_file
with_one_file-Mounted =
    let (g, run, m, pmm, buffer, pages) =
      mount_lem small_device small_disk unmounted (λ n. refl) small_disk-length refl
        (length-replicate {A = ℕ} 1024 0) in
    subst (Mounted small_disk) (sym (ap (λ (r : Fs × Bool). r.0) run)) m

read_lem_example :
    (h : Fs) × (read small_device (b'a' ∷ []) with_one_file ≡ ok (h, Result.size 3))
    × (length h.contents ≡ 3)
    × ((k : ℕ) → k < 3 → get_or h.contents k 0 ≡ get_or (small_disk (2 + k / 512)) (k % 512) 0)
    × (h.file_buf ≡ some 4096)
unfolding mount mount_from lookup same_name file_buf_free alloc_pages test_bit
read_lem_example =
    read_lem small_device small_disk (b'a' ∷ []) with_one_file with_one_file 0 (λ n. refl)
      small_disk-length with_one_file-Mounted refl refl (λ e. omega arith) (omega arith)
