-- ===== src/Uixfs/File.antt =====
-- `uixfs_read` of personality/fs/uixfs.c on a mounted disk.
use uix.Base.{
  ℕ, zero, suc, ◌+◌, ◌-◌, ◌*◌, ◌/◌, ◌%◌, ◌^◌, ◌<◌, ◌≤◌, ◌≡◌, ◌≢◌, refl, ◌∙◌, ap, ap₂, true, false,
  inl, inr, List, Bool, if◌then◌else◌, ◌==◌, not, get_or, drop, length, none, some, arith,
  Bool-cases, ne→==, Outcome, ok, ◌>>=◌,
}
use uix.Pmm
use uix.Uixfs.{
  Fs, Device, Result, u32_at, same_name, lookup, file_buf_free, file_buf_alloc, read_sectors, read,
}
use uix.Uixfs.Read.{read_sectors_lem}
use uix.Uixfs.Mount.{Mounted, directory, file_count}

-- The entry that is found is one of the table, and has the name.
lookup-bounds :
    (table name : List ℕ) (rounds j i : ℕ)
    → lookup table name rounds j ≡ some i
    → (j ≤ i) × (i < j + rounds)
unfolding lookup
lookup-bounds table name zero j i e = absurd (ground (arith, e))
lookup-bounds table name (suc rounds) j i e =
    elim (Bool-cases (same_name (drop (32 * j) table) name)) [
      | inl here ↦
          let same : j ≡ i = ap (λ o. elim o [ some v ↦ v | none ↦ j ]) (rw here at e) in
          (omega arith, omega arith)
      | inr later ↦
          let b = lookup-bounds table name rounds (suc j) i (rw later at e) in
          (omega arith, omega arith)
    ]

-- the word at `off` of entry `i` of the directory
abbrev pub entry_word : (ℕ → List ℕ) → ℕ → ℕ → ℕ
entry_word disk i off =
    directory disk (32 * i + off)
    + directory disk (32 * i + off + 1) * 2 ^ 8
    + directory disk (32 * i + off + 2) * 2 ^ 16
    + directory disk (32 * i + off + 3) * 2 ^ 24

u32_at-entry :
    (disk : ℕ → List ℕ) (f : Fs) (i off : ℕ)
    → Mounted disk f
    → i < file_count disk
    → off + 4 ≤ 32
    → u32_at f.table (32 * i + off) ≡ entry_word disk i off
u32_at-entry disk f i off m lt le = omega (
  arith,
  m.table (32 * i + off) (omega arith),
  m.table (32 * i + off + 1) (omega arith),
  m.table (32 * i + off + 2) (omega arith),
  m.table (32 * i + off + 3) (omega arith),
)

-- the pages of a buffer for `n` bytes
abbrev pub pages_for : ℕ → ℕ
pages_for n = (n + 4096 - 1) / 4096

-- the end of `file_buf_alloc`
abbrev take_pages : ℕ → Fs → Outcome (Fs × Bool)
take_pages n g =
    let (p, pa) = Pmm.alloc_pages g.pmm (pages_for n) in
    ok (
      if pa == 0
      then (record g { pmm = p; file_buf_pages = 0 }, false)
      else (record g { pmm = p; file_buf = some pa; file_buf_pages = pages_for n }, true))

-- Where the old buffer can be given back and there is a run of pages for the new one, `file_buf_alloc`
-- takes it.
file_buf_alloc_lem :
    (f g : Fs) (n : ℕ)
    → file_buf_free f ≡ ok g
    → (Pmm.alloc_pages g.pmm (pages_for n)).1 ≢ 0
    → let (p, pa) = Pmm.alloc_pages g.pmm (pages_for n) in
      file_buf_alloc f n
      ≡ ok (record g { pmm = p; file_buf = some pa; file_buf_pages = pages_for n }, true)
unfolding file_buf_alloc
file_buf_alloc_lem f g n freed got =
    let (p, pa) = Pmm.alloc_pages g.pmm (pages_for n) in
    let taken = λ (b : Bool). ok (
      if b
      then (record g { pmm = p; file_buf_pages = 0 }, false)
      else (record g { pmm = p; file_buf = some pa; file_buf_pages = pages_for n }, true)) in
    ap (λ m. m >>= take_pages n) freed ∙ ap taken (ne→== pa 0 got)

-- The parts of `read`, for a file of `n` bytes from sector `first` on.
abbrev filled_buffer : Device → ℕ → ℕ → Fs × Bool → Outcome (Fs × Result)
filled_buffer dev n first r =
    let (bytes, done) = read_sectors dev n first n in
    ok (
      if not r.1
      then (r.0, Result.errno 12)
      else if done
      then (record r.0 { contents = bytes }, Result.size n)
      else (record r.0 { contents = bytes }, Result.errno 5))

abbrev read_sized : Device → Fs → ℕ → ℕ → Outcome (Fs × Result)
read_sized dev f n first = file_buf_alloc f n >>= filled_buffer dev n first

abbrev read_found : Device → Fs → ℕ → Bool → Outcome (Fs × Result)
read_found dev f i on =
    if not on
    then ok (f, Result.errno 1)
    else read_sized dev f (u32_at f.table (32 * i + 24)) (u32_at f.table (32 * i + 28))

read-run :
    (dev : Device) (name : List ℕ) (f b : Fs) (i n first : ℕ)
    → lookup f.table name f.nfiles 0 ≡ some i
    → f.mounted ≡ true
    → u32_at f.table (32 * i + 24) ≡ n
    → u32_at f.table (32 * i + 28) ≡ first
    → file_buf_alloc f n ≡ ok (b, true)
    → (read_sectors dev n first n).1 ≡ true
    → read dev name f ≡ ok (record b { contents = (read_sectors dev n first n).0 }, Result.size n)
unfolding read
read-run dev name f b i n first found on size start buffer done =
    let entry : read dev name f ≡ read_found dev f i f.mounted = rw (read, found) refl in
    let last = λ (d : Bool). ok (
      if d
      then (record b { contents = (read_sectors dev n first n).0 }, Result.size n)
      else (record b { contents = (read_sectors dev n first n).0 }, Result.errno 5)) in
    entry
    ∙ ap (read_found dev f i) on
    ∙ ap₂ (read_sized dev f) size start
    ∙ ap (λ m. m >>= filled_buffer dev n first) buffer
    ∙ ap last done

-- On a mounted disk all of whose sectors can be read, for a name that the table has at entry `i`, where
-- the old buffer can be given back and there are pages for a new one, and where the first sector and the
-- size of the file add up to less than 2 ^ 32, `uixfs_read` returns the size that
-- the directory gives for that file, and the buffer holds that many bytes: byte `k` is byte
-- `k % 512` of the sector `k / 512` behind the first one of the file.
pub read_lem :
    (dev : Device) (disk : ℕ → List ℕ) (name : List ℕ) (f g : Fs) (i : ℕ)
    → ((n : ℕ) → dev n ≡ some (disk n))
    → ((n : ℕ) → length (disk n) ≡ 512)
    → Mounted disk f
    → lookup f.table name f.nfiles 0 ≡ some i
    → let n = entry_word disk i 24 in
      let first = entry_word disk i 28 in
      file_buf_free f ≡ ok g
      → (Pmm.alloc_pages g.pmm (pages_for n)).1 ≢ 0
      → first + n < 2 ^ 32
      → (h : Fs) × (read dev name f ≡ ok (h, Result.size n))
        × (length h.contents ≡ n)
        × ((k : ℕ) → k < n → get_or h.contents k 0 ≡ get_or (disk (first + k / 512)) (k % 512) 0)
        × (h.file_buf ≡ some (Pmm.alloc_pages g.pmm (pages_for n)).1)
read_lem dev disk name f g i reads whole m found freed got small =
    let n = entry_word disk i 24 in
    let first = entry_word disk i 28 in
    let (p, pa) = Pmm.alloc_pages g.pmm (pages_for n) in
    let (lo, hi) = lookup-bounds f.table name f.nfiles 0 i found in
    let lt : i < file_count disk = omega (arith, m.count) in
    let size : u32_at f.table (32 * i + 24) ≡ n = u32_at-entry disk f i 24 m lt (omega arith) in
    let start : u32_at f.table (32 * i + 28) ≡ first =
      u32_at-entry disk f i 28 m lt (omega arith) in
    let (done, len, bytes) = read_sectors_lem dev disk n first n reads whole (omega arith) small in
    let h : Fs = record g {
      pmm = p;
      file_buf = some pa;
      file_buf_pages = pages_for n;
      contents = (read_sectors dev n first n).0;
    } in
    (
      h,
      read-run dev name f (record g { pmm = p; file_buf = some pa; file_buf_pages = pages_for n }) i
          n first found m.mounted size start (file_buf_alloc_lem f g n freed got) done,
      len,
      bytes,
      refl,
    )
