-- ===== src/Elf/Bytes.antt =====
-- The bytes of the file that core/cpu/elf.c copies into one page.
use uix.Base.{
  ℕ, zero, suc, ◌+◌, ◌-◌, ◌*◌, ◌/◌, ◌%◌, ◌^◌, ◌≤◌, ◌<◌, ◌≡◌, refl, ◌∙◌, Bool, true, false, inl, inr,
  ltb, leb, ◌==◌, ◌&&◌, if◌then◌else◌, arith, Bool-cases, ==→eq,
}
use uix.Libc.{Memory, store}
use uix.Libc.Blocks.{within}
use uix.Elf.{Phdr, copy_in, file_part, first_page, file_off, file_end}

-- A segment that lies in the image and in the address space, its offset not smaller than the part of
-- its first page that lies in front of it.
pub record Fits (len : ℕ) (ph : Phdr) : Type 0 where
  pub image : len < 2 ^ 64
  pub inside : ph.offset + ph.filesz ≤ len
  pub small : ph.vaddr + ph.memsz + 4096 ≤ 2 ^ 64
  pub part : ph.filesz ≤ ph.memsz
  pub before : ph.vaddr % 4096 ≤ ph.offset

-- The byte of a segment at address `a`: that of the file, if the page of `a` does not start in front
-- of the segment and `a` is in front of its end in the file, and 0 otherwise.
unfoldable pub content : Memory → Phdr → ℕ → ℕ
content img ph a =
    if leb ph.vaddr (a / 4096 * 4096) && ltb a (ph.vaddr + ph.filesz)
    then img (ph.offset + (a - ph.vaddr))
    else 0

pub copy_in_lem :
    (img m : Memory) (va off n a : ℕ)
    → copy_in img m va off n a ≡ (if within va n a then img (off + (a - va)) else m a)
unfolding copy_in
copy_in_lem img m va off zero a = ground arith
copy_in_lem img m va off (suc n) a =
    copy_in_lem img (store m va (img off)) (va + 1) (off + 1) n a ∙ elim (Bool-cases (va == a)) [
      | inl e ↦
          let here : va ≡ a = ==→eq va a e in
          let same : off + (a - va) ≡ off = omega (arith, here) in rw same (ground (arith, here))
      | inr e ↦ elim (Bool-cases (ltb va a)) [
        | inl later ↦
            let same : off + 1 + (a - (va + 1)) ≡ off + (a - va) = ground arith in
            rw same (ground arith)
        | inr earlier ↦ ground arith
      ]
    ]

-- the part of the file that belongs to the page at `va`
pub file_part_lem :
    (img : Memory) (len : ℕ) (ph : Phdr) (va : ℕ) (m : Memory) (a : ℕ)
    → Fits len ph
    → va % 4096 ≡ 0
    → first_page ph ≤ va
    → va < ph.vaddr + ph.memsz
    → file_part img len ph va m a ≡ (
        if leb ph.vaddr va && (within va 4096 a && ltb a (ph.vaddr + ph.filesz))
        then img (ph.offset + (a - ph.vaddr))
        else m a)
unfolding file_part
file_part_lem img len ph va m a f aligned lo hi =
    let end : file_end ph ≡ ph.vaddr + ph.filesz = omega (arith, f.small, f.part) in
    rw end (elim (Bool-cases (ltb va (ph.vaddr + ph.filesz))) [
      | inr past ↦ elim (Bool-cases (leb ph.offset (file_off ph va))) [
        | inl e ↦ rw (e, past) (ground arith)
        | inr e ↦ rw e (ground arith)
      ]
      | inl early ↦ elim (Bool-cases (leb ph.vaddr va)) [
        | inr front ↦
            let same : va ≡ ph.vaddr - ph.vaddr % 4096 = ground (arith, aligned, lo) in
            let skewed : 0 < ph.vaddr % 4096 = ground (arith, same) in
            let off : file_off ph va ≡ ph.offset - ph.vaddr % 4096 =
              omega (arith, same, skewed, f.before, f.inside, f.image, f.small) in
            let low : leb ph.offset (file_off ph va) ≡ false = rw off (ground (arith, f.before)) in
            rw (low, front) refl
        | inl on ↦
            let le : ph.vaddr ≤ va = ground arith in
            let lt : va < ph.vaddr + ph.filesz = ground arith in
            let off : file_off ph va ≡ ph.offset + (va - ph.vaddr) =
              omega (arith, f.inside, f.image, f.small) in
            let rest : (ph.vaddr + ph.filesz + 2 ^ 64 - va) % 2 ^ 64 ≡ ph.vaddr + ph.filesz - va =
              omega (arith, f.small, f.part) in
            let high : leb ph.offset (ph.offset + (va - ph.vaddr)) ≡ true = ground arith in
            let n =
              if ltb 4096 (ph.vaddr + ph.filesz - va) then 4096 else ph.vaddr + ph.filesz - va in
            let whole : ltb len ((ph.offset + (va - ph.vaddr) + n) % 2 ^ 64) ≡ false =
              ground (arith, f.inside, f.image, f.small, f.part) in
            rw (off, rest, high, early, on, whole)
              (copy_in_lem img m va (ph.offset + (va - ph.vaddr)) n a
                ∙ elim (Bool-cases (leb va a)) [
                  | inl above ↦
                      let same : ph.offset + (va - ph.vaddr) + (a - va)
                          ≡ ph.offset + (a - ph.vaddr) =
                        ground arith in
                      rw same (ground arith)
                  | inr below ↦ ground arith
                ])
      ]
    ])

pub no_byte : (b : Bool) (x y : ℕ) → (if b && false then x else y) ≡ y
no_byte true x y = refl
no_byte false x y = refl

pub page_start : (va a : ℕ) → va % 4096 ≡ 0 → within va 4096 a ≡ true → a / 4096 * 4096 ≡ va
page_start va a aligned w = ground arith

-- A page and the pages behind it.
pub join_pages :
    (va rounds a x y : ℕ)
    → (if within (va + 4096) (rounds * 4096) a then x else (if within va 4096 a then x else y))
      ≡ (if within va (suc rounds * 4096) a then x else y)
join_pages va rounds a x y = ground arith
