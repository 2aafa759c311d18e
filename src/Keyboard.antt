-- ===== src/Keyboard.antt =====
-- drivers/keyboard.c: the scan code map and the ring between the interrupt and the reader.
-- A scan code read from the port is an argument.
pub mod Queue
use uix.Base.{
  ℕ, zero, suc, ◌+◌, ◌%◌, Bool, List, [], ◌∷◌, ◌++◌, leb, ltb, ◌==◌, ◌||◌, if◌then◌else◌, get_or,
  set, replicate,
}

abbrev pub kbuf_size : ℕ
kbuf_size = 256

pub record Keyboard : Type 0 where
  pub kbuf : List ℕ
  pub head : ℕ
  pub tail : ℕ

-- US QWERTY, scan code set 1; the 70 codes past the space bar have no character
abbrev pub keymap : List ℕ
keymap =
    (0 ∷ 27 ∷ b'1' ∷ b'2' ∷ b'3' ∷ b'4' ∷ b'5' ∷ b'6' ∷ b'7' ∷ b'8' ∷ b'9' ∷ b'0' ∷ b'-' ∷ b'=' ∷ 8
      ∷ 9 ∷ b'q' ∷ b'w' ∷ b'e' ∷ b'r' ∷ b't' ∷ b'y' ∷ b'u' ∷ b'i' ∷ b'o' ∷ b'p' ∷ b'[' ∷ b']' ∷ 10
      ∷ 0 ∷ b'a' ∷ b's' ∷ b'd' ∷ b'f' ∷ b'g' ∷ b'h' ∷ b'j' ∷ b'k' ∷ b'l' ∷ 59 ∷ 39 ∷ 96 ∷ 0 ∷ 92
      ∷ b'z' ∷ b'x' ∷ b'c' ∷ b'v' ∷ b'b' ∷ b'n' ∷ b'm' ∷ b',' ∷ 46 ∷ b'/' ∷ 0 ∷ b'*' ∷ 0 ∷ 32 ∷ [])
    ++ replicate 70 0

-- `keyboard_init` past the flush of the port; the buffer is a static array of zeros
unfoldable pub init : Keyboard
init = record { kbuf = replicate 256 0; head = 0; tail = 0 }

-- the character of a pressed key, or 0 for a release and for a key without one
unfoldable pub key_char : ℕ → ℕ
key_char sc = if leb 128 sc then 0 else get_or keymap sc 0

-- what `keyboard_irq` does with a character that is not 0
unfoldable pub put_char : Keyboard → ℕ → Keyboard
put_char k c =
    let next = (k.head + 1) % kbuf_size in
    if next == k.tail then k else record k { kbuf = set k.kbuf k.head c; head = next }

unfoldable pub irq : Keyboard → ℕ → Keyboard
unfolding key_char put_char
irq k sc = if key_char sc == 0 then k else put_char k (key_char sc)

-- `keyboard_read` of at most `len` characters: those read, and the state left
unfoldable pub read : Keyboard → ℕ → List ℕ × Keyboard
read k zero = ([], k)
read k (suc len) =
    let (cs, k') = read (record k { tail = (k.tail + 1) % kbuf_size }) len in
    if k.tail == k.head then ([], k) else (get_or k.kbuf k.tail 0 ∷ cs, k')
