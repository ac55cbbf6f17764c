-- ===== src/Wizard/Draw/Below.antt =====
-- kernel/wizard.h: the drawing routines leave the memory behind the screen alone.
use samos.Base.{
  ℕ, zero, suc, ◌+◌, ◌-◌, ◌*◌, ◌/◌, ◌<◌, ◌≤◌, ◌≡◌, refl, ◌∙◌, arith, Bool, true, not, ◌&&◌,
  if-cases, leb, ◌==◌, List, [], ◌∷◌, get_or, add32, sub32, u32,
}
use samos.Fb.{SamFb, Vram, fb_pixel, fb_fill_rect, dot}
use samos.Fb.Fill.{IsScreen, fb_fill_rect-below}
use samos.Fb.Glyph.{Offscreen, fb_pixel-off}
use samos.Fb.Below.{below-Offscreen, fb_draw_rect-below, fb_clear-below}
use samos.Wizard.Draw.{
  square_row, square_rows, wz_glyph_row, wz_glyph_rows, wz_putchar, wz_puts, wz_puts_centre,
  corner_rows, wz_rounded_rect, dot_row, dot_rows, wz_draw_step_dot, Draw, clear, fill, frame,
  rounded, step_dot, puts, puts_centre, draw, draws,
}

-- What is drawn pixel by pixel.
module _ (fb : SamFb) (p : ℕ) (off : Offscreen fb p) where
  square_row-off :
      (sx left : ℕ) (v : Vram) (x y colour : ℕ) → square_row fb v x y colour sx left p ≡ v p
  unfolding square_row
  square_row-off sx zero v x y colour = refl
  square_row-off sx (suc left) v x y colour =
      square_row-off (sx + 1) left (fb_pixel fb v (add32 x sx) y colour) x y colour
      ∙ fb_pixel-off fb p off v (add32 x sx) y colour

  square_rows-off :
      (sy left : ℕ) (v : Vram) (x y colour scale : ℕ)
      → square_rows fb v x y colour scale sy left p ≡ v p
  unfolding square_rows
  square_rows-off sy zero v x y colour scale = refl
  square_rows-off sy (suc left) v x y colour scale =
      square_rows-off (sy + 1) left _ x y colour scale
      ∙ square_row-off 0 scale v x (add32 y sy) colour

  wz_glyph_row-off :
      (col left : ℕ) (v : Vram) (x y fg bg scale bits : ℕ)
      → wz_glyph_row fb v x y fg bg scale bits col left p ≡ v p
  unfolding wz_glyph_row
  wz_glyph_row-off col zero v x y fg bg scale bits = refl
  wz_glyph_row-off col (suc left) v x y fg bg scale bits =
      wz_glyph_row-off (col + 1) left _ x y fg bg scale bits
      ∙ square_rows-off 0 scale v (add32 x (u32 (col * scale))) y (dot fb fg bg bits col) scale

  wz_glyph_rows-off :
      (row left : ℕ) (v : Vram) (x y fg bg scale : ℕ) (glyph : List ℕ)
      → wz_glyph_rows fb v x y fg bg scale glyph row left p ≡ v p
  unfolding wz_glyph_rows
  wz_glyph_rows-off row zero v x y fg bg scale glyph = refl
  wz_glyph_rows-off row (suc left) v x y fg bg scale glyph =
      wz_glyph_rows-off (row + 1) left _ x y fg bg scale glyph
      ∙ wz_glyph_row-off 0 8 v x (add32 y (u32 (row * scale))) fg bg scale (get_or glyph row 0)

  wz_putchar-off : (v : Vram) (x y c fg bg scale : ℕ) → wz_putchar fb v x y c fg bg scale p ≡ v p
  unfolding wz_putchar
  wz_putchar-off v x y c fg bg scale =
      if-cases (λ (r : Vram). r p ≡ v p) (not fb.ready) (λ e. refl)
        (λ e. wz_glyph_rows-off 0 16 v x y fg bg scale _)

  wz_puts-off :
      (s : List ℕ) (v : Vram) (x y fg bg scale : ℕ) → wz_puts fb v x y s fg bg scale p ≡ v p
  unfolding wz_puts
  wz_puts-off [] v x y fg bg scale = refl
  wz_puts-off (c ∷ s) v x y fg bg scale =
      wz_puts-off s _ (add32 x (u32 (8 * scale))) y fg bg scale ∙ wz_putchar-off v x y c fg bg scale

  wz_puts_centre-off :
      (v : Vram) (x y : ℕ) (s : List ℕ) (fg bg scale : ℕ)
      → wz_puts_centre fb v x y s fg bg scale p ≡ v p
  unfolding wz_puts_centre
  wz_puts_centre-off v x y s fg bg scale = wz_puts-off s v _ y fg bg scale

  dot_row-off :
      (dx left : ℕ) (v : Vram) (cx cy r colour dy : ℕ)
      → dot_row fb v cx cy r colour dy dx left p ≡ v p
  unfolding dot_row
  dot_row-off dx zero v cx cy r colour dy = refl
  dot_row-off dx (suc left) v cx cy r colour dy =
      dot_row-off (dx + 1) left _ cx cy r colour dy
      ∙ if-cases (λ (w : Vram). w p ≡ v p) (leb (dx * dx + dy * dy) (r * r))
          (λ e.
            fb_pixel-off fb p off _ (sub32 cx dx) (sub32 cy dy) colour
            ∙ (fb_pixel-off fb p off _ (add32 cx dx) (sub32 cy dy) colour
                ∙ (fb_pixel-off fb p off _ (sub32 cx dx) (add32 cy dy) colour
                    ∙ fb_pixel-off fb p off v (add32 cx dx) (add32 cy dy) colour)))
          (λ e. refl)

  dot_rows-off :
      (dy left : ℕ) (v : Vram) (cx cy r colour : ℕ) → dot_rows fb v cx cy r colour dy left p ≡ v p
  unfolding dot_rows
  dot_rows-off dy zero v cx cy r colour = refl
  dot_rows-off dy (suc left) v cx cy r colour =
      dot_rows-off (dy + 1) left _ cx cy r colour ∙ dot_row-off 0 (r + 1) v cx cy r colour dy

  wz_draw_step_dot-off :
      (v : Vram) (cx cy r colour : ℕ) → wz_draw_step_dot fb v cx cy r colour p ≡ v p
  unfolding wz_draw_step_dot
  wz_draw_step_dot-off v cx cy r colour = dot_rows-off 0 (r + 1) v cx cy r colour

-- The call stays inside the 1024 by 768 pixels of the layout, as far as rectangles go.
abbrev pub in_page : ℕ → ℕ → ℕ → ℕ → ℕ → Bool
in_page x y w h margin =
    (leb (x + w) 1024 && leb (y + h) 768) && (leb (2 * margin) w && leb (2 * margin) h)

abbrev pub fits : Draw → Bool
fits (clear colour) = true
fits (fill x y w h colour) = in_page x y w h 0
fits (frame x y w h colour thickness) = in_page x y w h thickness
fits (rounded x y w h colour border r) = in_page x y w h (r + 2)
fits (step_dot cx cy r colour) = true
fits (puts x y s fg bg scale) = true
fits (puts_centre x y s fg bg scale) = true

abbrev pub all_fit : List Draw → Bool
all_fit [] = true
all_fit (d ∷ ds) = let rest = all_fit ds in fits d && rest

-- A framebuffer on which the layout has room.
pub record HasPage (fb : SamFb) : Type 0 where
  pub is_screen : IsScreen fb
  pub wide : 1024 ≤ fb.width
  pub high : 768 ≤ fb.height

module _ (fb : SamFb) (page : HasPage fb) (p : ℕ) (behind : fb.height * fb.pitch_px ≤ p) where
  rect_off :
      (v : Vram) (x y w h colour : ℕ)
      → x + w ≤ 1024
      → y + h ≤ 768
      → fb_fill_rect fb v x y w h colour p ≡ v p
  rect_off v x y w h colour hx hy =
      fb_fill_rect-below fb page.is_screen v x y w h colour fb.height p (omega (arith, page.wide))
        (omega (arith, page.wide)) (omega (arith, page.high)) (omega arith) behind

  corner_rows-off :
      (i left : ℕ) (v : Vram) (x y w h colour r : ℕ)
      → x + w ≤ 1024
      → y + h ≤ 768
      → 2 * r < w
      → 2 * r < h
      → i + left ≤ r
      → corner_rows fb v x y w h colour r i left p ≡ v p
  unfolding corner_rows
  corner_rows-off i zero v x y w h colour r hx hy wide_r high_r hi = refl
  corner_rows-off i (suc left) v x y w h colour r hx hy wide_r high_r hi =
      let span = r - r * i / r in
      let low : span ≤ r = omega arith in
      corner_rows-off (i + 1) left _ x y w h colour r hx hy wide_r high_r (omega arith)
      ∙ (rect_off _ (add32 x span) (sub32 (sub32 (add32 y h) 1) i) (sub32 w (2 * span)) 1 colour
            (omega arith) (omega arith)
          ∙ rect_off v (add32 x span) (add32 y i) (sub32 w (2 * span)) 1 colour (omega arith)
              (omega arith))

  wz_rounded_rect-off :
      (v : Vram) (x y w h colour border r : ℕ)
      → x + w ≤ 1024
      → y + h ≤ 768
      → 2 * (r + 2) ≤ w
      → 2 * (r + 2) ≤ h
      → wz_rounded_rect fb v x y w h colour border r p ≡ v p
  unfolding wz_rounded_rect
  wz_rounded_rect-off v x y w h colour border r hx hy wide_r high_r =
      let v1 = fb_fill_rect fb v (add32 x r) y (sub32 w (2 * r)) h colour in
      let v2 = fb_fill_rect fb v1 x (add32 y r) r (sub32 h (2 * r)) colour in
      let v3 = fb_fill_rect fb v2 (sub32 (add32 x w) r) (add32 y r) r (sub32 h (2 * r)) colour in
      let filled =
        corner_rows-off 0 r v3 x y w h colour r hx hy (omega arith) (omega arith) (omega arith)
        ∙ (rect_off v2 (sub32 (add32 x w) r) (add32 y r) r (sub32 h (2 * r)) colour (omega arith)
              (omega arith)
            ∙ (rect_off v1 x (add32 y r) r (sub32 h (2 * r)) colour (omega arith) (omega arith)
                ∙ rect_off v (add32 x r) y (sub32 w (2 * r)) h colour (omega arith)
                    (omega arith))) in
      if-cases (λ (m : Vram). m p ≡ v p) (border == colour) (λ e. filled)
        (λ e.
          fb_draw_rect-below fb page.is_screen (corner_rows fb v3 x y w h colour r 0 r) x y w h
            border 2 fb.height p (omega (arith, page.wide)) (omega (arith, page.high)) (omega arith)
            (omega arith) (omega arith) behind
          ∙ filled)

  draw-off : (d : Draw) (v : Vram) → fits d ≡ true → draw fb v d p ≡ v p
  unfolding draw
  draw-off (clear colour) v h = fb_clear-below fb page.is_screen v colour p behind
  draw-off (fill x y w h colour) v f = rect_off v x y w h colour (ground arith) (ground arith)
  draw-off (frame x y w h colour thickness) v f =
      let wide = page.wide in
      let high = page.high in
      fb_draw_rect-below fb page.is_screen v x y w h colour thickness fb.height p (ground arith)
        (ground arith) (ground arith) (ground arith) (omega arith) behind
  draw-off (rounded x y w h colour border r) v f =
      wz_rounded_rect-off v x y w h colour border r (ground arith) (ground arith) (ground arith)
        (ground arith)
  draw-off (step_dot cx cy r colour) v f =
      wz_draw_step_dot-off fb p (below-Offscreen fb page.is_screen p behind) v cx cy r colour
  draw-off (puts x y s fg bg scale) v f =
      wz_puts-off fb p (below-Offscreen fb page.is_screen p behind) s v x y fg bg scale
  draw-off (puts_centre x y s fg bg scale) v f =
      wz_puts_centre-off fb p (below-Offscreen fb page.is_screen p behind) v x y s fg bg scale

  pub draws-off : (ds : List Draw) (v : Vram) → all_fit ds ≡ true → draws fb v ds p ≡ v p
  unfolding draws
  draws-off [] v h = refl
  draws-off (d ∷ ds) v h = draws-off ds (draw fb v d) (ground arith) ∙ draw-off d v (ground arith)
