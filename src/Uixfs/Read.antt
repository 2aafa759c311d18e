-- ===== src/Uixfs/Read.antt =====
-- What the loop of `uixfs_read` of personality/fs/uixfs.c puts into the file buffer.
use uix.Base.{
  ℕ, zero, suc, ◌+◌, ◌-◌, ◌/◌, ◌%◌, ◌^◌, ◌<◌, ◌≤◌, ◌≡◌, refl, ◌∙◌, true, false, inl, inr, List, [],
  ◌∷◌, ◌++◌, ltb, if◌then◌else◌, ◌==◌, get_or, take, length, length-take, length-append, some,
  arith, Bool-cases,
}
use uix.Uixfs.{Device, read_sectors}

pub get_or-append :
    (xs ys : List ℕ) (k : ℕ)
    → get_or (xs ++ ys) k 0
      ≡ (if ltb k (length xs) then get_or xs k 0 else get_or ys (k - length xs) 0)
get_or-append [] ys k = ground arith
get_or-append (x ∷ xs) ys zero = ground arith
get_or-append (x ∷ xs) ys (suc k) = get_or-append xs ys k ∙ ground arith

pub get_or-take : (n : ℕ) (xs : List ℕ) (k : ℕ) → k < n → get_or (take n xs) k 0 ≡ get_or xs k 0
get_or-take zero xs k h = absurd (omega arith)
get_or-take (suc n) [] k h = refl
get_or-take (suc n) (x ∷ xs) zero h = refl
get_or-take (suc n) (x ∷ xs) (suc k) h = get_or-take n xs k (omega arith)

-- the rounds of the loop for `left` bytes
abbrev chunk_of : ℕ → ℕ
chunk_of left = if ltb 512 left then 512 else left

read_sectors-round :
    (dev : Device) (rounds lba left : ℕ) (s : List ℕ)
    → 0 < left
    → dev lba ≡ some s
    → let r = read_sectors dev rounds ((lba + 1) % 2 ^ 32) (left - chunk_of left) in
      read_sectors dev (suc rounds) lba left ≡ (take (chunk_of left) s ++ r.0, r.1)
unfolding read_sectors
read_sectors-round dev rounds lba left s pos e =
    let more : (left == 0) ≡ false = ground arith in simp (more, e) refl

read_sectors-end :
    (dev : Device) (rounds lba left : ℕ) → left ≡ 0 → read_sectors dev rounds lba left ≡ ([], true)
unfolding read_sectors
read_sectors-end dev zero lba left z = refl
read_sectors-end dev (suc rounds) lba left z =
    let e : (left == 0) ≡ true = ground arith in simp e refl

-- Byte `k` comes from the sector just read, or from the rounds after it.
byte_here :
    (dev : Device) (disk : ℕ → List ℕ) (rounds lba left k : ℕ)
    → k < left
    → ((n : ℕ) → length (disk n) ≡ 512)
    → let rest = (read_sectors dev rounds (lba + 1) (left - chunk_of left)).0 in
      ((j : ℕ)
        → j < left - chunk_of left
        → get_or rest j 0 ≡ get_or (disk (lba + 1 + j / 512)) (j % 512) 0)
      → (if ltb k (chunk_of left)
          then get_or (take (chunk_of left) (disk lba)) k 0
          else get_or rest (k - chunk_of left) 0)
        ≡ get_or (disk (lba + k / 512)) (k % 512) 0
byte_here dev disk rounds lba left k h whole later = elim (Bool-cases (ltb k (chunk_of left))) [
  | inl first ↦
      let quotient : lba + k / 512 ≡ lba = ground arith in
      let place : k % 512 ≡ k = ground arith in
      rw (first, quotient, place) (get_or-take (chunk_of left) (disk lba) k (ground arith))
  | inr beyond ↦
      let full : chunk_of left ≡ 512 = ground arith in
      let quotient : lba + 1 + (k - 512) / 512 ≡ lba + k / 512 = ground arith in
      let place : (k - 512) % 512 ≡ k % 512 = ground arith in
      let there = later (k - chunk_of left) (ground arith) in
      rw beyond (there ∙ rw (full, quotient, place) refl)
]

-- Where the device reads sectors of 512 bytes and their numbers do not wrap, the loop of
-- `uixfs_read` ends within `left` rounds, every read having worked, with exactly `left` bytes: byte
-- `k` is byte `k % 512` of sector `lba + k / 512`.
pub read_sectors_lem :
    (dev : Device) (disk : ℕ → List ℕ) (rounds lba left : ℕ)
    → ((n : ℕ) → dev n ≡ some (disk n))
    → ((n : ℕ) → length (disk n) ≡ 512)
    → left ≤ rounds
    → lba + left < 2 ^ 32
    → ((read_sectors dev rounds lba left).1 ≡ true)
      × (length (read_sectors dev rounds lba left).0 ≡ left)
      × ((k : ℕ)
          → k < left
          → get_or (read_sectors dev rounds lba left).0 k 0
            ≡ get_or (disk (lba + k / 512)) (k % 512) 0)
read_sectors_lem dev disk zero lba left reads whole enough room =
    let e : read_sectors dev zero lba left ≡ ([], true) =
      read_sectors-end dev zero lba left (omega arith) in
    rw e (refl, omega arith, λ k h. absurd (omega arith))
read_sectors_lem dev disk (suc rounds) lba left reads whole enough room =
    elim (Bool-cases (left == 0)) [
      | inl z ↦
          let e : read_sectors dev (suc rounds) lba left ≡ ([], true) =
            read_sectors-end dev (suc rounds) lba left (ground arith) in
          rw e (refl, ground arith, λ k h. absurd (ground arith))
      | inr more ↦
          let c : ℕ = chunk_of left in
          let next : (lba + 1) % 2 ^ 32 ≡ lba + 1 = ground arith in
          let later =
            read_sectors_lem dev disk rounds (lba + 1) (left - c) reads whole (ground arith)
              (ground arith) in
          let len : length (take c (disk lba)) ≡ c =
            ground (arith, length-take {A = ℕ} c (disk lba), whole lba) in
          rw (read_sectors-round dev rounds lba left (disk lba) (ground arith) (reads lba), next)
            (
              later.0,
              length-append (take c (disk lba)) _ ∙ ground (arith, len, later.1),
              λ k h.
                  get_or-append (take c (disk lba)) _ k
                  ∙ rw len (byte_here dev disk rounds lba left k h whole later.2),
            )
    ]
