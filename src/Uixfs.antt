-- ===== src/Uixfs.antt =====
-- personality/fs/uixfs.c: the read-only file system. The block device is a parameter: a sector read
-- gives its 512 bytes, or fails. `table` is the array of entries as bytes, 32 for each; `contents` is what
-- the file buffer holds. The read loop leaves its last sector out of `sector`, which no later call
-- looks at before it is read again. Log lines are left out.
pub mod Read
pub mod Mount
pub mod File
use uix.Base.{
  ℕ, zero, suc, ◌+◌, ◌-◌, ◌*◌, ◌/◌, ◌%◌, ◌^◌, Bool, true, false, Option, none, some, List, [], ◌∷◌,
  ◌++◌, ltb, not, if◌then◌else◌, ◌==◌, ◌&&◌, get_or, take, drop, Outcome, ok, ◌>>=◌,
}
use uix.Pmm
use uix.Pmm.{Pmm}

pub record Fs : Type 0 where
  pub table : List ℕ
  pub nfiles : ℕ
  pub mounted : Bool
  pub sector : List ℕ
  -- the physical address of the file buffer
  pub file_buf : Option ℕ
  pub file_buf_pages : ℕ
  pub contents : List ℕ
  pub pmm : Pmm

abbrev pub Device : Type 0
Device = ℕ → Option (List ℕ)

-- `*(u32 *)(bytes + off)`, the low byte first
abbrev pub u32_at : List ℕ → ℕ → ℕ
u32_at bytes off =
    get_or bytes off 0
    + get_or bytes (off + 1) 0 * 2 ^ 8
    + get_or bytes (off + 2) 0 * 2 ^ 16
    + get_or bytes (off + 3) 0 * 2 ^ 24

unfoldable pub free_run : Pmm → ℕ → ℕ → Outcome Pmm
unfolding Pmm.free
free_run p page zero = ok p
free_run p page (suc count) = Pmm.free p page >>= λ q. free_run q (page + 4096) count

unfoldable pub file_buf_free : Fs → Outcome Fs
unfolding free_run
file_buf_free f = elim f.file_buf [
  | none ↦ ok f
  | some page ↦
      (free_run f.pmm page f.file_buf_pages >>= λ p.
      ok (record f { pmm = p; file_buf = none; file_buf_pages = 0 }))
]

-- The sum is a u64, since UIX_PAGE_SIZE is.
unfoldable pub file_buf_alloc : Fs → ℕ → Outcome (Fs × Bool)
unfolding file_buf_free Pmm.alloc_pages
file_buf_alloc f size = file_buf_free f >>= λ g.
    let pages = (size + 4096 - 1) / 4096 in
    let (p, pa) = Pmm.alloc_pages g.pmm pages in
    ok (
      if pa == 0
      then (record g { pmm = p; file_buf_pages = 0 }, false)
      else (record g { pmm = p; file_buf = some pa; file_buf_pages = pages }, true))

-- `memcpy(&entries[i], sector + off, 32)`
abbrev pub put_entry : List ℕ → ℕ → List ℕ → ℕ → List ℕ
put_entry table i sector off =
    take (32 * i) table ++ take 32 (drop off sector) ++ drop (32 * i + 32) table

-- The loop of `uixfs_mount` from entry `i`; false for its early return.
unfoldable pub mount_from : Device → ℕ → ℕ → Fs → Fs × Bool
mount_from dev zero i f = (f, true)
mount_from dev (suc rounds) i f =
    let off = i * 32 % 512 in
    let keep =
      mount_from dev rounds (suc i) (record f { table = put_entry f.table i f.sector off }) in
    if off == 0
    then elim (dev (1 + i * 32 / 512)) [
      | none ↦ (f, false)
      | some s ↦
          mount_from dev rounds (suc i) (record f { sector = s; table = put_entry f.table i s off })
    ]
    else keep

unfoldable pub mount : Device → Fs → Fs × Bool
unfolding mount_from
mount dev f = elim (dev 0) [
  | none ↦ (f, false)
  | some s ↦
      let count = u32_at s 4 in
      let n = if ltb 32 count then 32 else count in
      let g = record f { sector = s; nfiles = n } in
      let (h, done) = mount_from dev n 0 g in
      if not (u32_at s 0 == 0x46584955)
      then (record f { sector = s }, false)
      else if done
      then (record h { mounted = true }, true)
      else (h, false)
]

unfoldable pub release_buf : Fs → Outcome Fs
unfolding file_buf_free
release_buf f = file_buf_free f

-- `strcmp(entries[i].name, name) == 0`, with the bytes from the entry's name on; `name` has no NUL
unfoldable pub same_name : List ℕ → List ℕ → Bool
same_name stored [] = get_or stored 0 0 == 0
same_name [] (c ∷ cs) = false
same_name (b ∷ bs) (c ∷ cs) = (b == c) && same_name bs cs

-- the entry of that name, from entry `i` on
unfoldable pub lookup : List ℕ → List ℕ → ℕ → ℕ → Option ℕ
unfolding same_name
lookup table name zero i = none
lookup table name (suc rounds) i =
    if same_name (drop (32 * i) table) name then some i else lookup table name rounds (suc i)

-- The loop that reads the sectors: the bytes read with `left` to go, and whether each read worked.
-- A round reads at least one byte, so that `left` rounds are enough.
unfoldable pub read_sectors : Device → ℕ → ℕ → ℕ → List ℕ × Bool
read_sectors dev zero lba left = ([], true)
read_sectors dev (suc rounds) lba left =
    let chunk = if ltb 512 left then 512 else left in
    let (rest, done) = read_sectors dev rounds ((lba + 1) % 2 ^ 32) (left - chunk) in
    if left == 0
    then ([], true)
    else elim (dev lba) [ none ↦ ([], false) | some s ↦ (take chunk s ++ rest, done) ]

-- what `uixfs_read` returns: the size, or the number of the error
pub data Result : Type 0 where
  size : ℕ → Result
  errno : ℕ → Result

unfoldable pub read : Device → List ℕ → Fs → Outcome (Fs × Result)
unfolding lookup file_buf_alloc read_sectors
read dev name f = elim (lookup f.table name f.nfiles 0) [
  | none ↦ ok (f, if f.mounted then Result.errno 2 else Result.errno 1)
  | some i ↦
      if not f.mounted
      then ok (f, Result.errno 1)
      else (file_buf_alloc f (u32_at f.table (32 * i + 24)) >>= λ r.
          let n = u32_at f.table (32 * i + 24) in
          let (bytes, done) = read_sectors dev n (u32_at f.table (32 * i + 28)) n in
          ok (
            if not r.1
            then (r.0, Result.errno 12)
            else if done
            then (record r.0 { contents = bytes }, Result.size n)
            else (record r.0 { contents = bytes }, Result.errno 5)))
]
