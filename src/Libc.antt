-- ===== src/Libc.antt =====
-- core/lib.c: the freestanding C library. Memory is a function from addresses to bytes, and no
-- object reaches round the end of the address space. A loop that runs until it meets a NUL takes
-- fuel, and `none` means that the fuel ran out.
pub mod Blocks
pub mod Text
pub mod Numerals
use uix.Base.{
  ℕ, zero, suc, ◌+◌, ◌-◌, ◌*◌, ◌/◌, ◌%◌, ◌^◌, Bool, true, false, Option, none, some, List, [], ◌∷◌,
  ltb, leb, if◌then◌else◌, ◌==◌, ◌&&◌, not, ◌||◌,
}

abbrev pub Memory : Type 0
Memory = ℕ → ℕ

-- `*a = v;`
abbrev pub store : Memory → ℕ → ℕ → Memory
store m a v b = if a == b then v else m b

unfoldable pub memset : Memory → ℕ → ℕ → ℕ → Memory
memset m dst c zero = m
memset m dst c (suc n) = memset (store m dst (c % 256)) (dst + 1) c n

unfoldable pub memcpy : Memory → ℕ → ℕ → ℕ → Memory
memcpy m dst src zero = m
memcpy m dst src (suc n) = memcpy (store m dst (m src)) (dst + 1) (src + 1) n

-- `while (n--) *--d = *--s;` with both pointers past the end
unfoldable pub copy_down : Memory → ℕ → ℕ → ℕ → Memory
copy_down m dst src zero = m
copy_down m dst src (suc n) = copy_down (store m (dst + n) (m (src + n))) dst src n

unfoldable pub memmove : Memory → ℕ → ℕ → ℕ → Memory
unfolding memcpy copy_down
memmove m dst src n =
    if ltb dst src then memcpy m dst src n else if ltb src dst then copy_down m dst src n else m

-- `*x - *y` is an int; its sign is what callers use: (less, greater).
pub data Comparison : Type 0 where
  less equal greater : Comparison

abbrev pub byte_order : ℕ → ℕ → Comparison
byte_order a b =
    if ltb a b then Comparison.less else if ltb b a then Comparison.greater else Comparison.equal

unfoldable pub memcmp : Memory → ℕ → ℕ → ℕ → Comparison
memcmp m a b zero = Comparison.equal
memcmp m a b (suc n) = if m a == m b then memcmp m (a + 1) (b + 1) n else byte_order (m a) (m b)

unfoldable pub strlen : ℕ → Memory → ℕ → Option ℕ
strlen zero m s = none
strlen (suc fuel) m s = elim (m s == 0) [
  | true ↦ some 0
  | false ↦ elim (strlen fuel m (s + 1)) [ none ↦ none | some n ↦ some (n + 1) ]
]

unfoldable pub strcpy : ℕ → Memory → ℕ → ℕ → Option Memory
strcpy zero m dst src = none
strcpy (suc fuel) m dst src =
    let m' = store m dst (m src) in
    let rest = strcpy fuel m' (dst + 1) (src + 1) in if m src == 0 then some m' else rest

-- The first loop of `strncpy` leaves the memory, the pointer and the count. The count is not
-- decremented for the NUL that it copies.
unfoldable pub strncpy_copy : Memory → ℕ → ℕ → ℕ → Memory × ℕ × ℕ
strncpy_copy m dst src zero = (m, dst, 0)
strncpy_copy m dst src (suc n) =
    let m' = store m dst (m src) in
    let rest = strncpy_copy m' (dst + 1) (src + 1) n in
    if m src == 0 then (m', dst + 1, suc n) else rest

unfoldable pub strncpy : Memory → ℕ → ℕ → ℕ → Memory
unfolding strncpy_copy memset
strncpy m dst src n = let (m', d, left) = strncpy_copy m dst src n in memset m' d 0 left

unfoldable pub strcmp : ℕ → Memory → ℕ → ℕ → Option Comparison
strcmp zero m a b = none
strcmp (suc fuel) m a b =
    let rest = strcmp fuel m (a + 1) (b + 1) in
    if not (m a == 0) && m a == m b then rest else some (byte_order (m a) (m b))

unfoldable pub strncmp : Memory → ℕ → ℕ → ℕ → Comparison
strncmp m a b zero = Comparison.equal
strncmp m a b (suc n) =
    if not (m a == 0) && m a == m b then strncmp m (a + 1) (b + 1) n else byte_order (m a) (m b)

-- `lut[d]`
abbrev pub digit : Bool → ℕ → ℕ
digit upper d = if ltb d 10 then b'0' + d else (if upper then b'A' else b'a') + d - 10

-- The loop that fills `tmp`, the lowest digit first. A u64 has at most 64 digits.
unfoldable pub digits_from : ℕ → ℕ → ℕ → Bool → List ℕ
digits_from zero v base upper = []
digits_from (suc fuel) v base upper =
    let rest = digits_from fuel (v / base) base upper in
    if v == 0 then [] else digit upper (v % base) ∷ rest

unfoldable pub tmp_digits : ℕ → ℕ → Bool → List ℕ
tmp_digits v base upper =
    if v == 0
    then b'0' ∷ []
    else digits_from 64 v (if ltb base 2 || ltb 16 base then 10 else base) upper

-- `while (i--) *p++ = tmp[i];`
unfoldable pub reverse_onto : List ℕ → List ℕ → List ℕ
reverse_onto [] out = out
reverse_onto (c ∷ cs) out = reverse_onto cs (c ∷ out)

-- the characters that go to `buf`, before the NUL
unfoldable pub utoa : ℕ → ℕ → Bool → List ℕ
unfolding tmp_digits reverse_onto
utoa v base upper = reverse_onto (tmp_digits v base upper) []

-- An i64 is its bit pattern; -(v + 1) + 1 is its distance from 2 ^ 64.
unfoldable pub itoa : ℕ → ℕ → List ℕ
unfolding utoa
itoa v base =
    if base == 10 && leb (2 ^ 63) v then b'-' ∷ utoa (2 ^ 64 - v) base false else utoa v base false
