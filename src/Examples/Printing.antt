-- ===== src/Examples/Printing.antt =====
-- A run of core/kprintf.c: "ab%u" with 7.
use uix.Base.{ℕ, ◌≡◌, ◌++◌, [], ◌∷◌, List, ok, arith}
use uix.Kprintf.{Arg, Mode, kvprintf}
use uix.Kprintf.Text.{NoPercent, kvprintf-text_number}
use uix.Libc.Numerals.{value_from}

two_letters-NoPercent : NoPercent (b'a' ∷ b'b' ∷ [])
two_letters-NoPercent = omega arith

kvprintf-text_number_example :
    (numeral : List ℕ) × (kvprintf Mode.plain
        ((b'a' ∷ b'b' ∷ []) ++ b'%' ∷ b'u' ∷ [])
        (Arg.number 7 ∷ [])
      ≡ ok ((b'a' ∷ b'b' ∷ []) ++ numeral))
    × (value_from 10 0 numeral ≡ 7)
kvprintf-text_number_example =
    kvprintf-text_number (b'a' ∷ b'b' ∷ []) 7 two_letters-NoPercent (omega arith)
