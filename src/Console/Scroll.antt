-- ===== src/Console/Scroll.antt =====
-- What `fb_scroll` of core/console.c leaves on the screen.
use uix.Base.{
  ℕ, suc, ◌+◌, ◌-◌, ◌*◌, ◌/◌, ◌%◌, ◌^◌, ◌<◌, ◌≤◌, ◌≡◌, refl, ◌∙◌, inl, inr, ltb, ◌==◌, ◌&&◌, ◌||◌,
  if◌then◌else◌, arith, Bool-cases, for_range, for_range_step, ==→eq,
}
use uix.Console.{
  Framebuffer, Pixels, set_pixel, fb_scroll, scroll_up, clear_row, copy_pixel, clear_pixel, bg,
}
use uix.Console.Cursor.{row_in_range, few}
use uix.Console.Cell.{row_of, column_of}

module _ (h w : ℕ) (small : h * w < 2 ^ 32) where
  -- Writing the pixel of row `y'` and column `x'`, as the pixel of row `y` and column `x` sees it.
  set_pixel-at :
      (y x y' x' color : ℕ) (p : Pixels)
      → x < w
      → x' < w
      → y' < h
      → set_pixel p ((y' * w + x') % 2 ^ 32) color (y * w + x)
        ≡ (if (y' == y) && (x' == x) then color else p (y * w + x))
  set_pixel-at y x y' x' color p hx hx' hy' =
      let narrow : (y' * w + x') % 2 ^ 32 ≡ y' * w + x' =
        omega (arith, row_in_range y' x' h w hy' hx', small) in
      rw narrow (elim (Bool-cases ((y' * w + x') == (y * w + x))) [
        | inl e ↦
            let here = ==→eq (y' * w + x') (y * w + x) e in
            let same_row : y' ≡ y = row_of w y' x' y x hx' hx here in
            let same_column : x' ≡ x = column_of w y' x' y x hx' hx here in rw e (ground arith)
        | inr e ↦ rw e (elim (Bool-cases (y' == y)) [
          | inr ne ↦ rw ne refl
          | inl eq ↦ let same : y' ≡ y = ==→eq y' y eq in rw eq (ground (arith, same))
        ])
      ])

  module _ (p : Pixels) where
    -- the screen while row `y` moves up, its pixels before column `j` done
    Shifting : ℕ → ℕ → Pixels → Type 0
    Shifting y j q =
        (r x : ℕ)
        → r < h
        → x < w
        → q (r * w + x) ≡ (
            if ltb (r + 16) y || ((r + 16 == y) && ltb x j)
            then p ((r + 16) * w + x)
            else p (r * w + x))

    copy_pixel-Shifting :
        (y j : ℕ) (q : Pixels)
        → 16 ≤ y
        → y < h
        → j < w
        → Shifting y j q
        → Shifting y (suc j) (copy_pixel w y j q)
    unfolding Shifting
    copy_pixel-Shifting y j q ge hy hj s r x hr hx =
        let narrow : (y * w + j) % 2 ^ 32 ≡ y * w + j =
          omega (arith, row_in_range y j h w hy hj, small) in
        let fresh : q (y * w + j) ≡ p (y * w + j) = s y j hy hj ∙ ground arith in
        let old = s r x hr hx in
        set_pixel-at r x (y - 16) j (q ((y * w + j) % 2 ^ 32)) q hx hj (omega arith)
        ∙ rw (narrow, fresh, old)
            (elim (Bool-cases (r + 16 == y)) [
              | inr ne ↦ ground (arith, ne)
              | inl eq ↦
                  let here : r + 16 ≡ y = ==→eq (r + 16) y eq in
                  elim (Bool-cases (j == x)) [
                    | inr ne' ↦ ground (arith, ne')
                    | inl eq' ↦ let there : j ≡ x = ==→eq j x eq' in rw (here, there) (ground arith)
                  ]
            ])

    -- the screen once the rows before row `y` have moved up
    Shifted : ℕ → Pixels → Type 0
    Shifted y q =
        (r x : ℕ)
        → r < h
        → x < w
        → q (r * w + x) ≡ (if ltb (r + 16) y then p ((r + 16) * w + x) else p (r * w + x))

    scroll_up-Shifted :
        (y : ℕ) (q : Pixels) → 16 ≤ y → y < h → Shifted y q → Shifted (suc y) (scroll_up w y q)
    unfolding Shifted Shifting
    scroll_up-Shifted y q ge hy s r x hr hx =
        for_range_step (Shifting y) (copy_pixel w y) w 0 q
          (λ j t lo hi. copy_pixel-Shifting y j t ge hy (omega arith))
          (λ r' x' hr' hx'. s r' x' hr' hx' ∙ ground arith) r x hr hx
        ∙ ground arith

    -- the screen once it has moved up, and while the rows from `h - 16` on are cleared: those before
    -- row `y` are done, and of row `y` the pixels before column `j`
    Clearing : ℕ → ℕ → Pixels → Type 0
    Clearing y j q =
        (r x : ℕ)
        → r < h
        → x < w
        → q (r * w + x) ≡ (
            if ltb (r + 16) h
            then p ((r + 16) * w + x)
            else if ltb r y || ((r == y) && ltb x j)
            then bg
            else p (r * w + x))

    clear_pixel-Clearing :
        (y j : ℕ) (q : Pixels)
        → h ≤ y + 16
        → y < h
        → j < w
        → Clearing y j q
        → Clearing y (suc j) (clear_pixel w y j q)
    unfolding Clearing
    clear_pixel-Clearing y j q ge hy hj s r x hr hx =
        let old = s r x hr hx in set_pixel-at r x y j bg q hx hj hy ∙ rw old (ground arith)

    clear_row-Clearing :
        (y : ℕ) (q : Pixels)
        → h ≤ y + 16
        → y < h
        → Clearing y 0 q
        → Clearing (suc y) 0 (clear_row w y q)
    unfolding Clearing
    clear_row-Clearing y q ge hy s r x hr hx =
        for_range_step (Clearing y) (clear_pixel w y) w 0 q
          (λ j t lo hi. clear_pixel-Clearing y j t ge hy (omega arith)) s r x hr hx
        ∙ ground arith

-- A scroll moves every pixel of the screen up by the height of a character, and gives the rows that
-- come free at the bottom the background colour.
pub fb_scroll_lem :
    (f : Framebuffer) (p : Pixels) (x y : ℕ)
    → f.height * (f.pitch / 4) < 2 ^ 32
    → 16 ≤ f.height
    → x < f.pitch / 4
    → y < f.height
    → fb_scroll f p (y * (f.pitch / 4) + x)
      ≡ (if ltb (y + 16) f.height then p ((y + 16) * (f.pitch / 4) + x) else bg)
unfolding fb_scroll Clearing Shifted
fb_scroll_lem f p x y small tall hx hy =
    let hh : f.height < 2 ^ 32 = few f.height (f.pitch / 4) (2 ^ 32) small (omega arith) in
    let hw : f.pitch / 4 < 2 ^ 32 =
      few (f.pitch / 4) f.height (2 ^ 32) (grind arith) (omega arith) in
    let w : f.pitch / 4 % 2 ^ 32 ≡ f.pitch / 4 = omega arith in
    let start : (f.height + 2 ^ 64 - 16) % 2 ^ 32 ≡ f.height - 16 = omega arith in
    let rounds : f.height - (f.height - 16) ≡ 16 = omega arith in
    let moved =
      for_range_step (Shifted f.height (f.pitch / 4) small p) (scroll_up (f.pitch / 4))
        (f.height - 16) 16 p
        (λ i t lo hi. scroll_up-Shifted f.height (f.pitch / 4) small p i t lo (omega arith))
        (λ r' x' hr' hx'. ground arith) in
    rw (w, start, rounds)
      (for_range_step (λ i. Clearing f.height (f.pitch / 4) small p i 0) (clear_row (f.pitch / 4))
          16 (f.height - 16) (for_range (scroll_up (f.pitch / 4)) (f.height - 16) 16 p)
          (λ i t lo hi.
            clear_row-Clearing f.height (f.pitch / 4) small p i t (omega arith) (omega arith))
          (λ r' x' hr' hx'. moved r' x' hr' hx' ∙ ground arith) y x hy hx
        ∙ ground arith)
