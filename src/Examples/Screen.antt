-- ===== src/Examples/Screen.antt =====
-- Runs of core/console.c on a screen of two by two cells.
use uix.Base.{ℕ, ◌+◌, ◌*◌, ◌≤◌, ◌≡◌, [], ◌∷◌, ◌++◌, none, some, if◌then◌else◌, get_or, arith}
use uix.Base.Words.{test_bit}
use uix.Console.{Framebuffer, Console, init, write, fb_draw_char, fb_scroll, glyph, fg, bg}
use uix.Console.Cursor.{IsValid, write_lem, init-IsValid, crlf}
use uix.Console.Cell.{fb_draw_char_lem}
use uix.Console.Scroll.{fb_scroll_lem}

abbrev small_screen : Framebuffer
small_screen = record { width = 16; height = 32; pitch = 64 }

abbrev before_init : Console
before_init = record {
  serial = [];
  fb = none;
  pixels = λ a. 7;
  cur_x = 0;
  cur_y = 0;
  cols = 0;
  rows = 0;
}

screen : Console
screen = init before_init (some small_screen)

screen-IsValid : IsValid small_screen screen
unfolding screen
screen-IsValid =
    init-IsValid small_screen before_init (omega arith) (omega arith) (omega arith) (omega arith)

write_lem_example :
    IsValid small_screen (write screen (b'h' ∷ b'i' ∷ 10 ∷ []))
    × ((write screen (b'h' ∷ b'i' ∷ 10 ∷ [])).serial
        ≡ screen.serial ++ crlf (b'h' ∷ b'i' ∷ 10 ∷ []))
    × ((a : ℕ) → 512 ≤ a → (write screen (b'h' ∷ b'i' ∷ 10 ∷ [])).pixels a ≡ screen.pixels a)
write_lem_example = write_lem small_screen screen (b'h' ∷ b'i' ∷ 10 ∷ []) screen-IsValid

fb_draw_char_lem_example :
    fb_draw_char small_screen b'A' 1 0 (λ a. 7) (5 * 16 + 9)
    ≡ (if test_bit (get_or (glyph b'A') 2 0) 1 then fg else bg)
fb_draw_char_lem_example =
    fb_draw_char_lem small_screen b'A' 1 0 9 5 (λ a. 7) (omega arith) (omega arith) (omega arith)
      (omega arith) (omega arith)

fb_scroll_lem_example : fb_scroll small_screen (λ a. a) (3 * 16 + 2) ≡ (3 + 16) * 16 + 2
fb_scroll_lem_example =
    fb_scroll_lem small_screen (λ a. a) 2 3 (omega arith) (omega arith) (omega arith) (omega arith)
