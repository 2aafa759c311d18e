-- ===== src/Console/Cell.antt =====
-- What `fb_draw_char` of core/console.c draws: the glyph, each of its rows twice, and nothing else.
use uix.Base.{
  ℕ, ◌+◌, ◌-◌, ◌*◌, ◌/◌, ◌%◌, ◌^◌, ◌<◌, ◌≤◌, ◌≡◌, ◌≢◌, refl, sym, ◌∙◌, ap, inl, inr, ◌⊎◌, ◌==◌,
  ◌&&◌, if◌then◌else◌, get_or, arith, Bool-cases, for_range_inv, for_range_hit, ==→eq,
}
use uix.Base.Words.{test_bit}
use uix.Console.{
  Framebuffer, Pixels, fb_plot, glyph, draw_row, fb_draw_char, plot_bit, draw_rep, draw_twice, fg,
  bg,
}
use uix.Console.Cursor.{row_in_range, dimensions}

-- A pixel of a screen of width `w` has one row and one column.
pub row_of : (w y x y' x' : ℕ) → x < w → x' < w → y * w + x ≡ y' * w + x' → y ≡ y'
row_of w y x y' x' p q e = ground (arith, row_in_range y x y' w, row_in_range y' x' y w)

pub column_of : (w y x y' x' : ℕ) → x < w → x' < w → y * w + x ≡ y' * w + x' → x ≡ x'
column_of w y x y' x' p q e =
    let same : y ≡ y' = row_of w y x y' x' p q e in
    let e' : y * w + x ≡ y * w + x' = e ∙ ap (λ v. v * w + x') (sym same) in omega arith

module _ (f : Framebuffer) (small : f.height * (f.pitch / 4) < 2 ^ 32) (y x : ℕ)
    (hx : x < f.pitch / 4) (hy : y < f.height) where
  abbrev at : ℕ
  at = y * (f.pitch / 4) + x

  fb_plot_hit : (color : ℕ) (p : Pixels) → fb_plot f x y color p at ≡ color
  fb_plot_hit color p = ground (arith, row_in_range y x f.height (f.pitch / 4) hy hx)

  fb_plot_miss :
      (y' x' color : ℕ) (p : Pixels)
      → x' < f.pitch / 4
      → y' < f.height
      → (y' ≢ y) ⊎ (x' ≢ x)
      → fb_plot f x' y' color p at ≡ p at
  fb_plot_miss y' x' color p hx' hy' apart =
      let wide : (y' * (f.pitch / 4) + x') % 2 ^ 64 ≡ y' * (f.pitch / 4) + x' =
        omega (arith, row_in_range y' x' f.height (f.pitch / 4) hy' hx', small) in
      rw wide (elim (Bool-cases ((y' * (f.pitch / 4) + x') == at)) [
        | inl e ↦
            let here = ==→eq (y' * (f.pitch / 4) + x') at e in
            absurd (elim apart [
              | inl n ↦ n (row_of (f.pitch / 4) y' x' y x hx' hx here)
              | inr n ↦ n (column_of (f.pitch / 4) y' x' y x hx' hx here)
            ])
        | inr e ↦ rw e refl
      ])

  module _ (cx : ℕ) (hc : cx * 8 + 8 ≤ f.pitch / 4) (hw : f.pitch / 4 < 2 ^ 32) where
    draw_row_hit :
        (bits : ℕ) (p : Pixels)
        → cx * 8 ≤ x
        → x < cx * 8 + 8
        → draw_row f bits cx y p at ≡ (if test_bit bits (x - cx * 8) then fg else bg)
    unfolding draw_row
    draw_row_hit bits p lo hi =
        for_range_hit (λ (q : Pixels). q at ≡ (if test_bit bits (x - cx * 8) then fg else bg))
          (plot_bit f bits cx y) 8 0 (x - cx * 8) p (omega arith) (omega arith)
          (λ q.
            let e : (cx * 8 + (x - cx * 8)) % 2 ^ 32 ≡ x = omega arith in
            rw e (fb_plot_hit (if test_bit bits (x - cx * 8) then fg else bg) q))
          (λ i q lo' hi' ne same.
            fb_plot_miss y ((cx * 8 + i) % 2 ^ 32) (if test_bit bits i then fg else bg) q
              (omega arith) hy (inr (λ e. ne (omega arith)))
            ∙ same)

    draw_row_miss :
        (bits py : ℕ) (p : Pixels)
        → py < f.height
        → (py ≢ y) ⊎ ((x < cx * 8) ⊎ (cx * 8 + 8 ≤ x))
        → draw_row f bits cx py p at ≡ p at
    unfolding draw_row
    draw_row_miss bits py p hy' apart =
        for_range_inv (λ (q : Pixels). q at ≡ p at) (plot_bit f bits cx py) 8 0 p
          (λ i q lo' hi' same.
            fb_plot_miss py ((cx * 8 + i) % 2 ^ 32) (if test_bit bits i then fg else bg) q
              (omega arith) hy'
              (elim apart [
                | inl n ↦ inl n
                | inr (inl l) ↦ inr (λ e. omega arith)
                | inr (inr g) ↦ inr (λ e. omega arith)
              ])
            ∙ same)
          refl

    module _ (c cy : ℕ) (hr : cy * 16 + 16 ≤ f.height) (hh : f.height < 2 ^ 32) where
      -- the row of the screen of one round
      abbrev row_at : ℕ → ℕ → ℕ
      row_at gy rep = (cy * 16 + gy * 2 + rep) % 2 ^ 32

      draw_twice_miss :
          (gy : ℕ) (p : Pixels)
          → gy < 8
          → (y / 2 ≢ cy * 8 + gy) ⊎ ((x < cx * 8) ⊎ (cx * 8 + 8 ≤ x))
          → draw_twice f c cx cy gy p at ≡ p at
      draw_twice_miss gy p small_gy apart =
          for_range_inv (λ (q : Pixels). q at ≡ p at) (draw_rep f c cx cy gy) 2 0 p
            (λ rep q lo hi same.
              draw_row_miss (get_or (glyph c) gy 0) (row_at gy rep) q (omega arith)
                (elim apart [ inl n ↦ inl (λ e. omega arith) | inr o ↦ inr o ])
              ∙ same)
            refl

      fb_draw_char_miss :
          (p : Pixels)
          → (y < cy * 16 ⊎ cy * 16 + 16 ≤ y) ⊎ ((x < cx * 8) ⊎ (cx * 8 + 8 ≤ x))
          → fb_draw_char f c cx cy p at ≡ p at
      unfolding fb_draw_char
      fb_draw_char_miss p apart =
          for_range_inv (λ (q : Pixels). q at ≡ p at) (draw_twice f c cx cy) 8 0 p
            (λ gy q lo hi same.
              draw_twice_miss gy q (omega arith) (elim apart [
                | inl (inl l) ↦ inl (λ e. omega arith)
                | inl (inr g) ↦ inl (λ e. omega arith)
                | inr o ↦ inr o
              ])
              ∙ same)
            refl

      abbrev shade : ℕ
      shade = if test_bit (get_or (glyph c) (y % 16 / 2) 0) (x % 8) then fg else bg

      module _ (lo_x : cx * 8 ≤ x) (hi_x : x < cx * 8 + 8) where
        draw_rep_hit :
            (gy rep : ℕ) (p : Pixels)
            → gy ≡ y % 16 / 2
            → row_at gy rep ≡ y
            → draw_rep f c cx cy gy rep p at ≡ shade
        draw_rep_hit gy rep p g e =
            let bit : x % 8 ≡ x - cx * 8 = omega arith in
            rw (e, bit, sym g) (draw_row_hit (get_or (glyph c) gy 0) p lo_x hi_x)

        fb_draw_char_hit :
            (p : Pixels) → cy * 16 ≤ y → y < cy * 16 + 16 → fb_draw_char f c cx cy p at ≡ shade
        unfolding fb_draw_char
        fb_draw_char_hit p lo hi =
            for_range_hit (λ (q : Pixels). q at ≡ shade) (draw_twice f c cx cy) 8 0 (y % 16 / 2) p
              (omega arith) (omega arith)
              (λ q.
                for_range_hit (λ (r : Pixels). r at ≡ shade) (draw_rep f c cx cy (y % 16 / 2)) 2 0
                  (y % 2) q (omega arith) (omega arith)
                  (λ r. draw_rep_hit (y % 16 / 2) (y % 2) r refl (omega arith))
                  (λ rep r lo' hi' ne same.
                    draw_row_miss (get_or (glyph c) (y % 16 / 2) 0) (row_at (y % 16 / 2) rep) r
                      (omega arith) (inl (λ e. ne (omega arith)))
                    ∙ same))
              (λ gy q lo' hi' ne same.
                draw_twice_miss gy q (omega arith) (inl (λ e. ne (omega arith))) ∙ same)

-- Drawing a character in a cell of the screen gives the pixels of that cell the colours of the
-- glyph, a bit a column and each of its rows twice, and leaves every other pixel of the screen.
pub fb_draw_char_lem :
    (f : Framebuffer) (c cx cy x y : ℕ) (p : Pixels)
    → f.height * (f.pitch / 4) < 2 ^ 32
    → cx * 8 + 8 ≤ f.pitch / 4
    → cy * 16 + 16 ≤ f.height
    → x < f.pitch / 4
    → y < f.height
    → fb_draw_char f c cx cy p (y * (f.pitch / 4) + x) ≡ (
        if (x / 8 == cx) && (y / 16 == cy)
        then (if test_bit (get_or (glyph c) (y % 16 / 2) 0) (x % 8) then fg else bg)
        else p (y * (f.pitch / 4) + x))
fb_draw_char_lem f c cx cy x y p small hc hr hx hy =
    let (hh, hw) = dimensions f.height (f.pitch / 4) small (omega arith) (omega arith) in
    let miss = fb_draw_char_miss f small y x hx hy cx hc hw c cy hr hh p in
    elim (Bool-cases (x / 8 == cx)) [
      | inr e ↦ rw e (miss (inr (ground arith)))
      | inl e ↦ elim (Bool-cases (y / 16 == cy)) [
        | inr e' ↦ rw (e, e') (miss (inl (ground arith)))
        | inl e' ↦
            rw (e, e')
              (fb_draw_char_hit f small y x hx hy cx hc hw c cy hr hh (ground arith) (ground arith)
                p (ground arith) (ground arith))
      ]
    ]
