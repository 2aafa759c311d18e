-- ===== src/Tty.antt =====
-- personality/tty.c: the line discipline over the keyboard ring. What goes to the console is
-- collected in `echoed`, the latest character last.
pub mod Edit
use uix.Base.{
  ℕ, zero, suc, ◌+◌, ◌-◌, ◌%◌, ◌^◌, Bool, true, false, List, [], ◌∷◌, ◌++◌, ltb, leb, ◌==◌,
  if◌then◌else◌, get_or, set, take, replicate,
}
use uix.Keyboard
use uix.Keyboard.{Keyboard}

abbrev pub line_max : ℕ
line_max = 128

pub record Tty : Type 0 where
  pub line : List ℕ
  pub line_len : ℕ
  pub line_ready : Bool
  pub echoed : List ℕ

abbrev pub backspace : ℕ
backspace = 8

abbrev pub newline : ℕ
newline = 10

abbrev pub carriage_return : ℕ
carriage_return = 13

unfoldable pub init : Tty → Tty
init t = record t { line_len = 0; line_ready = false }

-- `line[line_len++] = c;`, if there is room
unfoldable pub add_char : Tty → ℕ → Tty
add_char t c =
    if ltb t.line_len (line_max - 1)
    then record t { line = set t.line t.line_len c; line_len = t.line_len + 1 }
    else t

unfoldable pub echo : Tty → List ℕ → Tty
echo t cs = record t { echoed = t.echoed ++ cs }

-- The body of the loop of `tty_poll` once CR is replaced by LF, its tests in the order of the
-- source.
unfoldable pub handle : Tty → ℕ → Tty
unfolding add_char echo
handle t c =
    if c == backspace
    then (if ltb 0 t.line_len
        then echo (record t { line_len = t.line_len - 1 }) (8 ∷ 32 ∷ 8 ∷ [])
        else t)
    else if t.line_ready
    then t
    else if c == newline
    then echo (record (add_char t newline) { line_ready = true }) (newline ∷ [])
    else if ltb t.line_len (line_max - 1)
    then echo (add_char t c) (c ∷ [])
    else t

abbrev pub cr_to_lf : ℕ → ℕ
cr_to_lf raw = if raw == carriage_return then newline else raw

unfoldable pub process_char : Tty → ℕ → Tty
unfolding handle
process_char t raw = handle t (cr_to_lf raw)

unfoldable pub process : Tty → List ℕ → Tty
unfolding process_char
process t [] = t
process t (c ∷ cs) = process (process_char t c) cs

-- `tty_poll`: at most 32 characters of the keyboard ring
unfoldable pub poll : Keyboard → Tty → Keyboard × Tty
unfolding process
poll k t = let (raw, k') = Keyboard.read k 32 in (k', process t raw)

-- `tty_readline`: the bytes put into `buf` (a NUL follows them), the result and the state left.
-- `len - 1` is a subtraction of u32.
unfoldable pub readline : Tty → ℕ → List ℕ × ℕ × Tty
readline t len =
    let room = (len + 2 ^ 32 - 1) % 2 ^ 32 in
    let n = if ltb room t.line_len then room else t.line_len in
    if t.line_ready
    then (take n t.line, n, record t { line_len = 0; line_ready = false })
    else ([], 0, t)
