-- ===== src/Console/Cursor.antt =====
-- The cursor of core/console.c stays on the screen, and nothing is drawn outside of the framebuffer.
use uix.Base.{
  ℕ, ◌+◌, ◌-◌, ◌*◌, ◌/◌, ◌%◌, ◌^◌, ◌<◌, ◌≤◌, ◌≡◌, refl, sym, ◌∙◌, ap, inl, inr, List, [], ◌∷◌, ◌++◌,
  leb, ◌==◌, if◌then◌else◌, get_or, arith, Bool-cases, some, for_range, for_range_inv,
}
use mathlib.Core.List.{append_assoc, append-nil}
use uix.Base.Words.{test_bit}
use uix.Console.{
  Framebuffer, Console, Pixels, set_pixel, fb_plot, glyph, draw_row, fb_draw_char, fb_scroll,
  scroll_up, clear_row, plot_bit, draw_rep, draw_twice, copy_pixel, clear_pixel, fg, bg, advance,
  is_control, put_char, put_on, fb_putc, serial_putc, putc, write, init,
}

-- The grid of cells fits the framebuffer `f`, whose pixels have 32-bit indices, and the cursor is on
-- the grid.
pub record IsValid (f : Framebuffer) (t : Console) : Type 0 where
  pub shown : t.fb ≡ some f
  pub wide : t.cols * 8 ≤ f.pitch / 4
  pub high : t.rows * 16 ≤ f.height
  pub small : f.height * (f.pitch / 4) < 2 ^ 32
  pub on_x : t.cur_x < t.cols
  pub on_y : t.cur_y < t.rows

-- the rows of a screen that is wider than nothing are fewer than 2 ^ 32
pub few : (a b c : ℕ) → a * b < c → 0 < b → a < c
few a b c h pos = grind arith

pub row_in_range : (y x h w : ℕ) → y < h → x < w → y * w + x < h * w
row_in_range y x h w p q = grind arith

module _ (f : Framebuffer) (small : f.height * (f.pitch / 4) < 2 ^ 32) (a : ℕ)
    (outside : f.height * (f.pitch / 4) ≤ a) where
  -- A pixel at a row and a column of the framebuffer is not at index `a`.
  fb_plot-outside :
      (x y color : ℕ) (p : Pixels) → x < f.pitch / 4 → y < f.height → fb_plot f x y color p a ≡ p a
  fb_plot-outside x y color p hx hy = ground (arith, row_in_range y x f.height (f.pitch / 4) hy hx)

  draw_row-outside :
      (bits cx py : ℕ) (p : Pixels)
      → cx * 8 + 8 ≤ f.pitch / 4
      → f.pitch / 4 < 2 ^ 32
      → py < f.height
      → draw_row f bits cx py p a ≡ p a
  unfolding draw_row
  draw_row-outside bits cx py p hx hw hy =
      for_range_inv (λ (q : Pixels). q a ≡ p a) (plot_bit f bits cx py) 8 0 p
        (λ i q lo hi e.
          fb_plot-outside ((cx * 8 + i) % 2 ^ 32) py (if test_bit bits i then fg else bg) q
            (omega arith) hy
          ∙ e)
        refl

  -- A character in a cell of the screen is drawn inside of the framebuffer.
  fb_draw_char-outside :
      (c cx cy : ℕ) (p : Pixels)
      → cx * 8 + 8 ≤ f.pitch / 4
      → f.pitch / 4 < 2 ^ 32
      → cy * 16 + 16 ≤ f.height
      → f.height < 2 ^ 32
      → fb_draw_char f c cx cy p a ≡ p a
  unfolding fb_draw_char
  fb_draw_char-outside c cx cy p hx hw hy hh =
      for_range_inv (λ (q : Pixels). q a ≡ p a) (draw_twice f c cx cy) 8 0 p
        (λ gy q lo hi e.
          for_range_inv (λ (r : Pixels). r a ≡ p a) (draw_rep f c cx cy gy) 2 0 q
            (λ rep r lo' hi' e'.
              draw_row-outside (get_or (glyph c) gy 0) cx ((cy * 16 + gy * 2 + rep) % 2 ^ 32) r hx
                hw (omega arith)
              ∙ e')
            e)
        refl

  set_pixel-outside :
      (y x color : ℕ) (p : Pixels)
      → x < f.pitch / 4
      → y < f.height
      → set_pixel p ((y * (f.pitch / 4) + x) % 2 ^ 32) color a ≡ p a
  set_pixel-outside y x color p hx hy =
      ground (arith, row_in_range y x f.height (f.pitch / 4) hy hx)

  -- So is a scroll.
  fb_scroll-outside :
      (p : Pixels)
      → f.pitch / 4 < 2 ^ 32
      → f.height < 2 ^ 32
      → 16 ≤ f.height
      → fb_scroll f p a ≡ p a
  unfolding fb_scroll
  fb_scroll-outside p hw hh tall =
      let w : f.pitch / 4 % 2 ^ 32 ≡ f.pitch / 4 = omega arith in
      let start : (f.height + 2 ^ 64 - 16) % 2 ^ 32 ≡ f.height - 16 = omega arith in
      rw (w, start)
        (for_range_inv (λ (q : Pixels). q a ≡ p a) (clear_row (f.pitch / 4))
          (f.height - (f.height - 16)) (f.height - 16)
          (for_range (scroll_up (f.pitch / 4)) (f.height - 16) 16 p)
          (λ y q lo hi e.
            for_range_inv (λ (r : Pixels). r a ≡ p a) (clear_pixel (f.pitch / 4) y) (f.pitch / 4) 0
              q
              (λ x r lo' hi' e'. set_pixel-outside y x 0x101018 r (omega arith) (omega arith) ∙ e')
              e)
          (for_range_inv (λ (q : Pixels). q a ≡ p a) (scroll_up (f.pitch / 4)) (f.height - 16) 16 p
            (λ y q lo hi e.
              for_range_inv (λ (r : Pixels). r a ≡ p a) (copy_pixel (f.pitch / 4) y) (f.pitch / 4) 0
                q
                (λ x r lo' hi' e'.
                  set_pixel-outside (y - 16) x (r ((y * (f.pitch / 4) + x) % 2 ^ 32)) r
                    (omega arith) (omega arith)
                  ∙ e')
                e)
            refl))

-- The height and the width in pixels of a screen that shows a cell.
pub dimensions : (h w : ℕ) → h * w < 2 ^ 32 → 16 ≤ h → 8 ≤ w → (h < 2 ^ 32) × (w < 2 ^ 32)
dimensions h w small tall wide =
    (few h w (2 ^ 32) small (omega arith), few w h (2 ^ 32) (grind arith) (omega arith))

advance-pixels : (t : Console) (c : ℕ) → (advance t c).pixels ≡ t.pixels
unfolding advance
advance-pixels t c = ground arith

module _ {f : Framebuffer} {t : Console} (v : IsValid f t) where
  sizes : (f.height < 2 ^ 32) × (f.pitch / 4 < 2 ^ 32)
  sizes =
      dimensions f.height (f.pitch / 4) v.small (omega (arith, v.high, v.on_y))
        (omega (arith, v.wide, v.on_x))

  -- One character keeps the cursor on the screen,
  put_char-IsValid : (c : ℕ) → IsValid f (put_char f t c)
  unfolding put_char advance
  put_char-IsValid c = ground (arith, sizes)

  drawn_pixels : ℕ → Pixels
  drawn_pixels c = if is_control c then t.pixels else fb_draw_char f c t.cur_x t.cur_y t.pixels

  drawn-outside : (c a : ℕ) → f.height * (f.pitch / 4) ≤ a → drawn_pixels c a ≡ t.pixels a
  unfolding drawn_pixels
  drawn-outside c a outside =
      let drawn =
        fb_draw_char-outside f v.small a outside c t.cur_x t.cur_y t.pixels
          (omega (arith, v.on_x, v.wide)) sizes.1 (omega (arith, v.on_y, v.high)) sizes.0 in
      elim (Bool-cases (is_control c)) [ inl e ↦ rw e refl | inr e ↦ rw e drawn ]

  -- and draws inside of the framebuffer.
  put_char-outside :
      (c a : ℕ) → f.height * (f.pitch / 4) ≤ a → (put_char f t c).pixels a ≡ t.pixels a
  unfolding put_char drawn_pixels
  put_char-outside c a outside =
      let u : Console = advance (record t { pixels = drawn_pixels c }) c in
      let kept : u.pixels ≡ drawn_pixels c =
        advance-pixels (record t { pixels = drawn_pixels c }) c in
      let tall : 16 ≤ f.height = omega (arith, v.high, v.on_y) in
      let here : u.pixels a ≡ t.pixels a =
        ap (λ (q : Pixels). q a) kept ∙ drawn-outside c a outside in
      let scrolled : fb_scroll f u.pixels a ≡ t.pixels a =
        fb_scroll-outside f v.small a outside u.pixels sizes.1 sizes.0 tall ∙ here in
      elim (Bool-cases (leb u.rows u.cur_y)) [ inl e ↦ simp e scrolled | inr e ↦ simp e here ]

  put_char-serial : (c : ℕ) → (put_char f t c).serial ≡ t.serial
  unfolding put_char advance
  put_char-serial c = ground arith

-- what the serial line is given for a text: a carriage return before each line feed
unfoldable pub crlf : List ℕ → List ℕ
crlf [] = []
crlf (c ∷ cs) = (if c == 10 then 13 ∷ c ∷ [] else c ∷ []) ++ crlf cs

fb_putc-some :
    (f : Framebuffer) (t : Console) (c : ℕ) → t.fb ≡ some f → fb_putc t c ≡ put_char f t c
unfolding fb_putc
fb_putc-some f t c e = ap (λ o. put_on o t c) e

putc_lem :
    {f : Framebuffer} {t : Console} (c : ℕ)
    → IsValid f t
    → IsValid f (putc t c)
      × ((putc t c).serial ≡ t.serial ++ (if c == 10 then 13 ∷ c ∷ [] else c ∷ []))
      × ((a : ℕ) → f.height * (f.pitch / 4) ≤ a → (putc t c).pixels a ≡ t.pixels a)
unfolding putc serial_putc
putc_lem {f} {t} c v =
    let u : Console = record t { serial = t.serial ++ (if c == 10 then 13 ∷ c ∷ [] else c ∷ []) } in
    let v' : IsValid f u = record {
      shown = v.shown;
      wide = v.wide;
      high = v.high;
      small = v.small;
      on_x = v.on_x;
      on_y = v.on_y;
    } in
    rw (fb_putc-some f u c v.shown)
      (put_char-IsValid v' c, put_char-serial v' c, put_char-outside v' c)

-- With a framebuffer that the grid of cells fits, writing a text keeps the cursor on the grid at
-- every character, so that nothing is drawn outside of the framebuffer; and the serial line gets the
-- text with a carriage return before each line feed.
pub write_lem :
    (f : Framebuffer) (t : Console) (cs : List ℕ)
    → IsValid f t
    → IsValid f (write t cs)
      × ((write t cs).serial ≡ t.serial ++ crlf cs)
      × ((a : ℕ) → f.height * (f.pitch / 4) ≤ a → (write t cs).pixels a ≡ t.pixels a)
unfolding write crlf
write_lem f t [] v = (v, sym (append-nil t.serial), λ a outside. refl)
write_lem f t (c ∷ cs) v =
    let here = putc_lem c v in
    let later = write_lem f (putc t c) cs here.0 in
    (
      later.0,
      later.1
          ∙ rw here.1 (append_assoc t.serial (if c == 10 then 13 ∷ c ∷ [] else c ∷ []) (crlf cs)),
      λ a outside. later.2 a outside ∙ here.2 a outside,
    )

-- `console_init` makes the grid of cells fit, when the framebuffer has room for one cell.
pub init-IsValid :
    (f : Framebuffer) (t : Console)
    → 8 ≤ f.width
    → f.width ≤ f.pitch / 4
    → 16 ≤ f.height
    → f.height * (f.pitch / 4) < 2 ^ 32
    → IsValid f (init t (some f))
unfolding init
init-IsValid f t wide room tall small =
    let (hh, hw) = dimensions f.height (f.pitch / 4) small tall (omega arith) in
    record {
      shown = refl;
      wide = omega arith;
      high = omega arith;
      small = small;
      on_x = omega arith;
      on_y = omega arith;
    }
