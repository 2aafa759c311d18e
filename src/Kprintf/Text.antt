-- ===== src/Kprintf/Text.antt =====
-- What the formatter of core/kprintf.c prints for a text and a number.
use mathlib.Core.List.{append-nil}
use uix.Base.{ℕ, length, ◌-◌, ◌<◌, ◌^◌, ◌≡◌, ◌≢◌, refl, false, List, [], ◌∷◌, ◌++◌, ◌==◌, arith, ok}
use uix.Libc.{utoa}
use uix.Libc.Numerals.{value_from, value-utoa}
use uix.Kprintf.{Arg, Mode, kvprintf, convert, convert_number}

-- no character of the list starts a conversion
abbrev pub NoPercent : List ℕ → Type 0
NoPercent [] = Unit {0}
NoPercent (c ∷ cs) = (c ≢ b'%') × NoPercent cs

-- A text without '%' and then "%u" prints the text, and then a numeral that reads back as the
-- number given, for every u64.
pub kvprintf-text_number :
    (text : List ℕ) (v : ℕ)
    → NoPercent text
    → v < 2 ^ 64
    → (numeral : List ℕ) × (kvprintf Mode.plain (text ++ b'%' ∷ b'u' ∷ []) (Arg.number v ∷ [])
        ≡ ok (text ++ numeral))
      × (value_from 10 0 numeral ≡ v)
unfolding kvprintf convert convert_number
kvprintf-text_number [] v none_there small =
    let none_left : 0 - length (utoa v 10 false) ≡ 0 = omega arith in
    (
      utoa v 10 false,
      rw (none_left, append-nil (utoa v 10 false)) refl,
      value-utoa v 10 false (omega arith) (omega arith) small,
    )
kvprintf-text_number (c ∷ cs) v none_there small =
    let later = kvprintf-text_number cs v none_there.1 small in
    let other : (c == b'%') ≡ false = ground (arith, none_there.0) in
    (later.0, simp (other, later.1) refl, later.2)
