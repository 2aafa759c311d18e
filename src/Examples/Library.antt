-- ===== src/Examples/Library.antt =====
-- Runs of core/lib.c.
use uix.Base.{◌≡◌, refl, arith, if◌then◌else◌, ltb}
use uix.Libc.{Memory, memmove}
use uix.Libc.Blocks.{copied, memmove_lem}
use uix.Libc.Text.{IsText}

-- "xxxxx" at address 0, and NULs from address 5 on
abbrev five_letters : Memory
five_letters a = if ltb a 5 then b'x' else 0

five_letters-IsText : IsText five_letters 0 5
five_letters-IsText = record { chars = λ i lt. ground arith; nul = refl }

memmove_lem_example : memmove five_letters 2 0 5 6 ≡ copied five_letters 2 0 5 6
memmove_lem_example = memmove_lem five_letters 2 0 5 6
