-- ===== src/Uixfs/Mount.antt =====
-- The table of files that `uixfs_mount` of personality/fs/uixfs.c leaves.
use uix.Base.{
  ℕ, zero, suc, ◌+◌, ◌-◌, ◌*◌, ◌/◌, ◌%◌, ◌<◌, ◌≤◌, ◌≡◌, ◌≢◌, refl, sym, ◌∙◌, ap, true, inl, inr,
  List, [], ◌∷◌, ◌++◌, ltb, if◌then◌else◌, ◌==◌, get_or, take, drop, length, length-take,
  length-append, some, arith, Bool-cases, ==→ne,
}
use uix.Uixfs.{Fs, Device, put_entry, mount_from, mount, u32_at}
use uix.Uixfs.Read.{get_or-append, get_or-take}

get_or-drop : (n : ℕ) (xs : List ℕ) (k : ℕ) → get_or (drop n xs) k 0 ≡ get_or xs (n + k) 0
get_or-drop zero xs k = let e : 0 + k ≡ k = omega arith in rw e refl
get_or-drop (suc n) [] k = refl
get_or-drop (suc n) (x ∷ xs) k =
    let e : suc n + k ≡ suc (n + k) = omega arith in rw e (get_or-drop n xs k)

length-drop : (n : ℕ) (xs : List ℕ) → length (drop n xs) ≡ length xs - n
length-drop zero xs = omega arith
length-drop (suc n) [] = omega arith
length-drop (suc n) (x ∷ xs) = omega (arith, length-drop n xs)

-- what an entry of the table is after the copy
entry_or : List ℕ → ℕ → List ℕ → ℕ → ℕ → ℕ
entry_or table i s off k =
    if ltb k (32 * i)
    then get_or table k 0
    else if ltb k (32 * i + 32)
    then get_or s (off + (k - 32 * i)) 0
    else get_or table k 0

put_entry_lem :
    (table : List ℕ) (i : ℕ) (s : List ℕ) (off k : ℕ)
    → 32 * i + 32 ≤ length table
    → off + 32 ≤ length s
    → get_or (put_entry table i s off) k 0 ≡ entry_or table i s off k
unfolding entry_or
put_entry_lem table i s off k room full =
    let front : length (take (32 * i) table) ≡ 32 * i = length-take (32 * i) table ∙ omega arith in
    let middle : length (take 32 (drop off s)) ≡ 32 =
      length-take 32 (drop off s) ∙ omega (arith, length-drop off s) in
    let both : length (take (32 * i) table ++ take 32 (drop off s)) ≡ 32 * i + 32 =
      length-append (take (32 * i) table) (take 32 (drop off s)) ∙ omega (arith, front, middle) in
    get_or-append (take (32 * i) table ++ take 32 (drop off s)) (drop (32 * i + 32) table) k
    ∙ rw (both, get_or-append (take (32 * i) table) (take 32 (drop off s)) k, front)
        (elim (Bool-cases (ltb k (32 * i))) [
          | inl before ↦
              let b : ltb k (32 * i + 32) ≡ true = ground arith in
              rw (before, b) (get_or-take (32 * i) table k (ground arith))
          | inr after ↦ elim (Bool-cases (ltb k (32 * i + 32))) [
            | inl here ↦
                rw (after, here)
                  (get_or-take 32 (drop off s) (k - 32 * i) (ground arith)
                    ∙ get_or-drop off s (k - 32 * i))
            | inr beyond ↦
                let e : 32 * i + 32 + (k - (32 * i + 32)) ≡ k = ground arith in
                rw (after, beyond) (get_or-drop (32 * i + 32) table (k - (32 * i + 32)) ∙ rw e refl)
          ]
        ])

length-put_entry :
    (table : List ℕ) (i : ℕ) (s : List ℕ) (off : ℕ)
    → 32 * i + 32 ≤ length table
    → off + 32 ≤ length s
    → length (put_entry table i s off) ≡ length table
length-put_entry table i s off room full =
    length-append (take (32 * i) table ++ take 32 (drop off s)) (drop (32 * i + 32) table)
    ∙ omega (
      arith,
      length-append (take (32 * i) table) (take 32 (drop off s)),
      length-take (32 * i) table,
      length-take 32 (drop off s),
      length-drop off s,
      length-drop (32 * i + 32) table,
    )

-- byte `k` of the directory, which starts at sector 1
abbrev pub directory : (ℕ → List ℕ) → ℕ → ℕ
directory disk k = get_or (disk (1 + k / 512)) (k % 512) 0

-- the sector that entry `i` stands in
abbrev sector_of : (ℕ → List ℕ) → ℕ → List ℕ
sector_of disk i = disk (1 + i * 32 / 512)

entry-directory :
    (disk : ℕ → List ℕ) (table : List ℕ) (i k : ℕ)
    → entry_or table i (sector_of disk i) (i * 32 % 512) k ≡ (
        if ltb k (32 * i)
        then get_or table k 0
        else if ltb k (32 * i + 32)
        then directory disk k
        else get_or table k 0)
unfolding entry_or
entry-directory disk table i k = elim (Bool-cases (ltb k (32 * i))) [
  | inl before ↦ rw before refl
  | inr after ↦ elim (Bool-cases (ltb k (32 * i + 32))) [
    | inr beyond ↦ rw (after, beyond) refl
    | inl here ↦
        let start : i * 32 % 512 ≡ 32 * (i % 16) = omega arith in
        let same : 1 + i * 32 / 512 ≡ 1 + k / 512 = ground (arith, start) in
        let place : i * 32 % 512 + (k - 32 * i) ≡ k % 512 = ground (arith, start) in
        rw (after, here, same, place) refl
  ]
]

-- one round of the loop
mounted_entry : (ℕ → List ℕ) → Fs → ℕ → Fs
mounted_entry disk f i = record f {
  sector = sector_of disk i;
  table = put_entry f.table i (sector_of disk i) (i * 32 % 512);
}

mount_from-round :
    (dev : Device) (disk : ℕ → List ℕ) (rounds i : ℕ) (f : Fs)
    → ((n : ℕ) → dev n ≡ some (disk n))
    → (i % 16 ≢ 0 → f.sector ≡ sector_of disk i)
    → mount_from dev (suc rounds) i f ≡ mount_from dev rounds (suc i) (mounted_entry disk f i)
unfolding mount_from mounted_entry
mount_from-round dev disk rounds i f reads kept = elim (Bool-cases (i * 32 % 512 == 0)) [
  | inl new ↦ simp (new, reads (1 + i * 32 / 512)) refl
  | inr old ↦
      let off = i * 32 % 512 in
      let same : f.sector ≡ sector_of disk i = kept (λ z. ==→ne off 0 old (omega arith)) in
      simp old (
        ap
          (λ s.
            mount_from dev rounds (suc i)
              (record f { sector = s; table = put_entry f.table i s off }))
          same)
]

-- What the rounds behind an entry leave, and the entry.
join_entries :
    (k i rounds old new now : ℕ)
    → now ≡ (if ltb k (32 * i) then old else if ltb k (32 * i + 32) then new else old)
    → (if ltb k (32 * suc i) then now else if ltb k (32 * (suc i + rounds)) then new else now)
      ≡ (if ltb k (32 * i) then old else if ltb k (32 * (i + suc rounds)) then new else old)
join_entries k i rounds old new now e = ground arith

-- Where the table has room, the loop reads the rest of the directory into it.
mount_from_lem :
    (dev : Device) (disk : ℕ → List ℕ) (rounds i : ℕ) (f : Fs)
    → ((n : ℕ) → dev n ≡ some (disk n))
    → ((n : ℕ) → length (disk n) ≡ 512)
    → 32 * (i + rounds) ≤ length f.table
    → (i % 16 ≢ 0 → f.sector ≡ sector_of disk (i - 1))
    → (g : Fs) × (mount_from dev rounds i f ≡ (g, true))
      × ((k : ℕ)
          → get_or g.table k 0 ≡ (
              if ltb k (32 * i)
              then get_or f.table k 0
              else if ltb k (32 * (i + rounds))
              then directory disk k
              else get_or f.table k 0))
      × (g ≡ record f { sector = g.sector; table = g.table })
unfolding mounted_entry
mount_from_lem dev disk zero i f reads whole room kept =
    (f, unfold mount_from in refl, λ k. ground arith, refl)
mount_from_lem dev disk (suc rounds) i f reads whole room kept =
    let now : i % 16 ≢ 0 → f.sector ≡ sector_of disk i =
      λ h. let e : 1 + (i - 1) * 32 / 512 ≡ 1 + i * 32 / 512 = omega arith in kept h ∙ ap disk e in
    let full : i * 32 % 512 + 32 ≤ length (sector_of disk i) =
      omega (arith, whole (1 + i * 32 / 512)) in
    let next = mounted_entry disk f i in
    let fits : 32 * i + 32 ≤ length f.table = omega arith in
    let same_length = length-put_entry f.table i (sector_of disk i) (i * 32 % 512) fits full in
    let back : suc i - 1 ≡ i = omega arith in
    let (g, run, bytes, rest) =
      mount_from_lem dev disk rounds (suc i) next reads whole (omega (arith, same_length))
        (λ h. ap (sector_of disk) (sym back)) in
    (
      g,
      mount_from-round dev disk rounds i f reads now ∙ run,
      λ k.
          bytes k
          ∙ join_entries k i rounds (get_or f.table k 0) (directory disk k) (get_or next.table k 0)
              (put_entry_lem f.table i (sector_of disk i) (i * 32 % 512) k fits full
                ∙ entry-directory disk f.table i k),
      rest,
    )

-- the number of files that the disk gives, 32 at most
abbrev pub file_count : (ℕ → List ℕ) → ℕ
file_count disk = let count = u32_at (disk 0) 4 in if ltb 32 count then 32 else count

-- A mounted file system has the directory of the disk as its table.
pub record Mounted (disk : ℕ → List ℕ) (f : Fs) : Type 0 where
  pub mounted : f.mounted ≡ true
  pub count : f.nfiles ≡ file_count disk
  pub table : (k : ℕ) → k < 32 * file_count disk → get_or f.table k 0 ≡ directory disk k

file_count-le : (disk : ℕ → List ℕ) → file_count disk ≤ 32
file_count-le disk = ground arith

in_table :
    (k n x d y : ℕ)
    → k < 32 * n
    → (if ltb k (32 * 0) then x else if ltb k (32 * (0 + n)) then d else y) ≡ d
in_table k n x d y lt = ground arith

mount-run :
    (dev : Device) (disk : ℕ → List ℕ) (f g : Fs)
    → dev 0 ≡ some (disk 0)
    → (u32_at (disk 0) 0 == 0x46584955) ≡ true
    → mount_from dev (file_count disk) 0 (record f { sector = disk 0; nfiles = file_count disk })
      ≡ (g, true)
    → mount dev f ≡ (record g { mounted = true }, true)
unfolding mount
mount-run dev disk f g reads magic run = rw (mount, reads, magic, run) refl

-- On a disk with sectors of 512 bytes whose first four bytes are "UIXF", all of whose sectors can be
-- read, and with the 1024 bytes of the table in place, `uixfs_mount` succeeds: the number of entries is the
-- word at offset 4 of sector 0, cut at 32, the table holds the directory, which starts at sector 1,
-- and neither the pages nor the file buffer have changed.
pub mount_lem :
    (dev : Device) (disk : ℕ → List ℕ) (f : Fs)
    → ((n : ℕ) → dev n ≡ some (disk n))
    → ((n : ℕ) → length (disk n) ≡ 512)
    → u32_at (disk 0) 0 ≡ 0x46584955
    → length f.table ≡ 1024
    → (g : Fs) × (mount dev f ≡ (g, true))
      × Mounted disk g
      × (g.pmm ≡ f.pmm)
      × (g.file_buf ≡ f.file_buf)
      × (g.file_buf_pages ≡ f.file_buf_pages)
mount_lem dev disk f reads whole magic size =
    let n = file_count disk in
    let start : Fs = record f { sector = disk 0; nfiles = n } in
    let (g, run, bytes, rest) =
      mount_from_lem dev disk n 0 start reads whole (omega (arith, file_count-le disk, size))
        (λ h. absurd (h (omega arith))) in
    (
      record g { mounted = true },
      mount-run dev disk f g (reads 0) (rw magic refl) run,
      record {
        mounted = refl;
        count = ap Fs.nfiles rest;
        table = λ k lt.
            bytes k ∙ in_table k n (get_or f.table k 0) (directory disk k) (get_or f.table k 0) lt;
      },
      ap Fs.pmm rest,
      ap Fs.file_buf rest,
      ap Fs.file_buf_pages rest,
    )
