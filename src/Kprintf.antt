-- ===== src/Kprintf.antt =====
-- core/kprintf.c: the formatter, as a function from a format and its arguments to the characters that
-- the console is given. A width is a number without bound. An argument that is missing or of another
-- type, and a format that ends inside a conversion, are faults: the source then reads outside.
pub mod Text
use uix.Base.{
  ℕ, ◌+◌, ◌-◌, ◌*◌, ◌%◌, ◌^◌, Bool, true, false, Option, none, some, List, [], ◌∷◌, ◌++◌, leb,
  if◌then◌else◌, ◌==◌, ◌&&◌, ◌||◌, length, replicate, Outcome, ok, fault, ◌>>=◌,
}
use uix.Libc.{utoa, itoa}

-- A number of 64 bits, or a string, which may be NULL.
pub data Arg : Type 0 where
  number : ℕ → Arg
  text : Option (List ℕ) → Arg

-- `emit_pad(c, width - len); console_write(s);`
abbrev pub padded : ℕ → ℕ → List ℕ → List ℕ
padded c width s = replicate (width - length s) c ++ s

abbrev pub null_text : List ℕ
null_text = b'(' ∷ b'n' ∷ b'u' ∷ b'l' ∷ b'l' ∷ b')' ∷ []

unfoldable pub convert_number : ℕ → ℕ → ℕ → Option (List ℕ)
convert_number spec width v =
    if spec == b'c'
    then some (padded 32 width (v % 256 ∷ []))
    else if (spec == b'd') || (spec == b'i')
    then some (padded 32 (if leb (2 ^ 63) v then width - 1 else width) (itoa v 10))
    else if spec == b'u'
    then some (padded 32 width (utoa v 10 false))
    else if spec == b'x'
    then some (padded 32 width (utoa v 16 false))
    else if spec == b'X'
    then some (padded 32 width (utoa v 16 true))
    else if spec == b'p'
    then some (b'0' ∷ b'x' ∷ padded b'0' 16 (utoa v 16 false))
    else none

abbrev pub takes_number : ℕ → Bool
takes_number spec =
    (spec == b'c')
    || ((spec == b'd')
        || ((spec == b'i')
            || ((spec == b'u') || ((spec == b'x') || ((spec == b'X') || (spec == b'p'))))))

abbrev pub literal : ℕ → List ℕ
literal spec = if spec == b'%' then b'%' ∷ [] else b'%' ∷ spec ∷ []

-- the `switch` on the conversion: the characters, and the arguments left
unfoldable pub convert : ℕ → ℕ → List Arg → Outcome (List ℕ × List Arg)
unfolding convert_number
convert spec width [] = if takes_number spec || (spec == b's') then fault else ok (literal spec, [])
convert spec width (Arg.number v ∷ args) =
    if spec == b's' then fault else elim (convert_number spec width v) [
      | some out ↦ ok (out, args)
      | none ↦ ok (literal spec, Arg.number v ∷ args)
    ]
convert spec width (Arg.text t ∷ args) =
    if takes_number spec
    then fault
    else if spec == b's'
    then ok (padded 32 width (elim t [ none ↦ null_text | some s ↦ s ]), args)
    else ok (literal spec, Arg.text t ∷ args)

-- where the loop stands: in text, in the digits of a width, or in the modifiers after them
pub data Mode : Type 0 where
  plain : Mode
  digits : ℕ → Mode
  modifiers : ℕ → Mode

abbrev pub is_modifier : ℕ → Bool
is_modifier c = (c == b'l') || ((c == b'h') || (c == b'z'))

unfoldable pub kvprintf : Mode → List ℕ → List Arg → Outcome (List ℕ)
unfolding convert
kvprintf Mode.plain [] args = ok []
kvprintf (Mode.digits w) [] args = fault
kvprintf (Mode.modifiers w) [] args = fault
kvprintf Mode.plain (c ∷ cs) args =
    if c == b'%'
    then kvprintf (Mode.digits 0) cs args
    else kvprintf Mode.plain cs args >>= λ out. ok (c ∷ out)
kvprintf (Mode.digits w) (c ∷ cs) args =
    if leb b'0' c && leb c b'9'
    then kvprintf (Mode.digits (w * 10 + (c - b'0'))) cs args
    else if is_modifier c
    then kvprintf (Mode.modifiers w) cs args
    else convert c w args >>= λ r. kvprintf Mode.plain cs r.1 >>= λ out. ok (r.0 ++ out)
kvprintf (Mode.modifiers w) (c ∷ cs) args =
    if is_modifier c
    then kvprintf (Mode.modifiers w) cs args
    else convert c w args >>= λ r. kvprintf Mode.plain cs r.1 >>= λ out. ok (r.0 ++ out)

unfoldable pub kprintf : List ℕ → List Arg → Outcome (List ℕ)
unfolding kvprintf
kprintf fmt args = kvprintf Mode.plain fmt args

unfoldable pub kputs : List ℕ → List ℕ
kputs s = s ++ b'\n' ∷ []

unfoldable pub kputc : ℕ → List ℕ
kputc c = c ∷ []

-- "[PANIC] "
abbrev pub klog_panic : List ℕ
klog_panic = b'[' ∷ b'P' ∷ b'A' ∷ b'N' ∷ b'I' ∷ b'C' ∷ b']' ∷ b' ' ∷ []

-- what `panic` prints before it halts
unfoldable pub panic_text : List ℕ → List Arg → Outcome (List ℕ)
unfolding kvprintf
panic_text fmt args = kvprintf Mode.plain fmt args >>= λ out. ok (klog_panic ++ out ++ b'\n' ∷ [])
