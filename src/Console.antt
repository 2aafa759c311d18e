-- ===== src/Console.antt =====
-- core/console.c: the serial line and the framebuffer console. A character is a byte. The framebuffer
-- is the array of u32 pixels from its address on; `serial` is what the serial line has been given.
pub mod Font
pub mod Cursor
pub mod Cell
pub mod Scroll
use uix.Base.{
  ℕ, zero, suc, ◌+◌, ◌-◌, ◌*◌, ◌/◌, ◌%◌, ◌^◌, Bool, Option, none, some, List, [], ◌∷◌, ◌++◌, ltb,
  leb, if◌then◌else◌, ◌==◌, ◌||◌, get_or, for_range,
}
use uix.Base.Words.{test_bit}
use uix.Console.Font.{font8x8}

-- `struct limine_framebuffer`, as far as the console reads it
pub record Framebuffer : Type 0 where
  pub width : ℕ
  pub height : ℕ
  pub pitch : ℕ

pub record Console : Type 0 where
  pub serial : List ℕ
  pub fb : Option Framebuffer
  pub pixels : ℕ → ℕ
  pub cur_x : ℕ
  pub cur_y : ℕ
  pub cols : ℕ
  pub rows : ℕ

abbrev pub fg : ℕ
fg = 0xe8e8e8

abbrev pub bg : ℕ
bg = 0x101018

abbrev pub glyph_w : ℕ
glyph_w = 8

abbrev pub glyph_h : ℕ
glyph_h = 16

abbrev pub Pixels : Type 0
Pixels = ℕ → ℕ

abbrev pub set_pixel : Pixels → ℕ → ℕ → Pixels
set_pixel p i color j = if i == j then color else p j

-- `serial_console_putc`
unfoldable pub serial_putc : Console → ℕ → Console
serial_putc t c = record t { serial = t.serial ++ (if c == 10 then 13 ∷ c ∷ [] else c ∷ []) }

-- `fb_plot`; the pitch is a u64, and so is the index
abbrev pub fb_plot : Framebuffer → ℕ → ℕ → ℕ → Pixels → Pixels
fb_plot f x y color p = set_pixel p ((y * (f.pitch / 4) + x) % 2 ^ 64) color

-- the rows of the glyph that stands for a character
unfoldable pub glyph : ℕ → List ℕ
unfolding font8x8
glyph c = get_or font8x8 ((if ltb c 0x20 || ltb 0x7e c then b'?' else c) - 0x20) []

-- the rounds of the three loops of `fb_draw_char`, the inner one first
abbrev pub plot_bit : Framebuffer → ℕ → ℕ → ℕ → ℕ → Pixels → Pixels
plot_bit f bits cx py gx =
    fb_plot f ((cx * glyph_w + gx) % 2 ^ 32) py (if test_bit bits gx then fg else bg)

unfoldable pub draw_row : Framebuffer → ℕ → ℕ → ℕ → Pixels → Pixels
unfolding for_range
draw_row f bits cx py p = for_range (plot_bit f bits cx py) 8 0 p

abbrev pub draw_rep : Framebuffer → ℕ → ℕ → ℕ → ℕ → ℕ → Pixels → Pixels
draw_rep f c cx cy gy rep =
    draw_row f (get_or (glyph c) gy 0) cx ((cy * glyph_h + gy * 2 + rep) % 2 ^ 32)

abbrev pub draw_twice : Framebuffer → ℕ → ℕ → ℕ → ℕ → Pixels → Pixels
draw_twice f c cx cy gy p = for_range (draw_rep f c cx cy gy) 2 0 p

unfoldable pub fb_draw_char : Framebuffer → ℕ → ℕ → ℕ → Pixels → Pixels
unfolding glyph draw_row for_range
fb_draw_char f c cx cy p = for_range (draw_twice f c cx cy) 8 0 p

-- `for (y = first; y < height; y++) for (x = 0; x < w; x++)`, the indices in u32
abbrev pub copy_pixel : ℕ → ℕ → ℕ → Pixels → Pixels
copy_pixel w y x p = set_pixel p (((y - glyph_h) * w + x) % 2 ^ 32) (p ((y * w + x) % 2 ^ 32))

abbrev pub scroll_up : ℕ → ℕ → Pixels → Pixels
scroll_up w y p = for_range (copy_pixel w y) w 0 p

abbrev pub clear_pixel : ℕ → ℕ → ℕ → Pixels → Pixels
clear_pixel w y x p = set_pixel p ((y * w + x) % 2 ^ 32) bg

abbrev pub clear_row : ℕ → ℕ → Pixels → Pixels
clear_row w y p = for_range (clear_pixel w y) w 0 p

-- `y` is a u32 that runs up to the height; the second loop starts at `(u32)(height - 16)`
unfoldable pub fb_scroll : Framebuffer → Pixels → Pixels
unfolding for_range
fb_scroll f p =
    let w = f.pitch / 4 % 2 ^ 32 in
    let start = (f.height + 2 ^ 64 - glyph_h) % 2 ^ 32 in
    for_range (clear_row w) (f.height - start) start
      (for_range (scroll_up w) (f.height - glyph_h) glyph_h p)

-- where a character moves the cursor, before the scroll
unfoldable pub advance : Console → ℕ → Console
advance t c =
    if c == 10
    then record t { cur_x = 0; cur_y = (t.cur_y + 1) % 2 ^ 32 }
    else if c == 13
    then record t { cur_x = 0 }
    else if c == 8
    then (if ltb 0 t.cur_x then record t { cur_x = t.cur_x - 1 } else t)
    else if leb t.cols ((t.cur_x + 1) % 2 ^ 32)
    then record t { cur_x = 0; cur_y = (t.cur_y + 1) % 2 ^ 32 }
    else record t { cur_x = (t.cur_x + 1) % 2 ^ 32 }

abbrev pub is_control : ℕ → Bool
is_control c = (c == 10) || ((c == 13) || (c == 8))

-- `fb_putc` with a framebuffer
unfoldable pub put_char : Framebuffer → Console → ℕ → Console
unfolding advance fb_draw_char fb_scroll
put_char f t c =
    let p = if is_control c then t.pixels else fb_draw_char f c t.cur_x t.cur_y t.pixels in
    let u = advance (record t { pixels = p }) c in
    if leb u.rows u.cur_y
    then record u { pixels = fb_scroll f u.pixels; cur_y = (u.rows + 2 ^ 32 - 1) % 2 ^ 32 }
    else u

-- `if (!fb) return;`
unfoldable pub put_on : Option Framebuffer → Console → ℕ → Console
put_on none t c = t
put_on (some f) t c = put_char f t c

unfoldable pub fb_putc : Console → ℕ → Console
unfolding put_on
fb_putc t c = put_on t.fb t c

-- `console_init`, given the framebuffer that the boot loader reports, past the set-up of the port
unfoldable pub init : Console → Option Framebuffer → Console
unfolding for_range
init t none = t
init t (some f) = record t {
  fb = some f;
  cols = f.width / glyph_w % 2 ^ 32;
  rows = f.height / glyph_h % 2 ^ 32;
  cur_x = 0;
  cur_y = 0;
  pixels = for_range (λ y. for_range (λ x. fb_plot f x y bg) f.width 0) f.height 0 t.pixels;
}

unfoldable pub putc : Console → ℕ → Console
putc t c = fb_putc (serial_putc t c) c

unfoldable pub write : Console → List ℕ → Console
unfolding putc
write t [] = t
write t (c ∷ cs) = write (putc t c) cs

unfoldable pub puts : Console → List ℕ → Console
unfolding write putc
puts t cs = putc (write t cs) 10
