-- ===== src/Examples/Input.antt =====
-- Runs of drivers/keyboard.c and personality/tty.c: the keys q and w, and the line they make.
use uix.Base.{
  ◌≡◌, refl, arith, true, false, if◌then◌else◌, ltb, ◌==◌, ◌&&◌, not, [], ◌∷◌, ◌++◌, length, take,
  drop, replicate,
}
use uix.Keyboard.{Keyboard, key_char, irq}
use uix.Keyboard.Queue.{irq_lem, read_lem, contents}
use uix.Keyboard.Queue
use uix.Tty.{Tty, poll}
use uix.Tty.Edit.{IsValid, view, edit_all, poll_lem}

abbrev two_keys : Keyboard
two_keys = record { kbuf = b'q' ∷ b'w' ∷ replicate 254 0; head = 2; tail = 0 }

two_keys-IsValid : Queue.IsValid two_keys
two_keys-IsValid = record { whole = refl; head_in = omega arith; tail_in = omega arith }

irq_lem_example :
    Queue.IsValid (irq two_keys 18)
    × (contents (irq two_keys 18) ≡ (
        if not (key_char 18 == 0) && ltb (length (contents two_keys)) 255
        then contents two_keys ++ key_char 18 ∷ []
        else contents two_keys))
irq_lem_example = irq_lem two_keys 18 two_keys-IsValid

abbrev typing : Tty
typing = record {
  line = b'l' ∷ b's' ∷ replicate 126 0;
  line_len = 2;
  line_ready = false;
  echoed = [];
}

typing-IsValid : IsValid typing
typing-IsValid = record { whole = refl; fits = omega arith }

poll_lem_example :
    let (k', t') = poll two_keys typing in
    Queue.IsValid k'
    × IsValid t'
    × (contents k' ≡ drop 32 (contents two_keys))
    × (view t' ≡ edit_all (view typing) (take 32 (contents two_keys)))
poll_lem_example = poll_lem two_keys typing two_keys-IsValid typing-IsValid

abbrev typed : Tty
typed = record typing { line_ready = true }

typed-IsValid : IsValid typed
typed-IsValid = record { whole = refl; fits = omega arith }
