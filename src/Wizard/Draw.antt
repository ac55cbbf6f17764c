-- ===== src/Wizard/Draw.antt =====
-- kernel/wizard.h: the drawing routines on the framebuffer. A screen is the list of its drawing
-- calls.
pub mod Below
use samos.Base.{
  ℕ, zero, suc, ◌+◌, ◌-◌, ◌*◌, ◌/◌, Bool, not, ◌||◌, ltb, leb, ◌==◌, if◌then◌else◌, List, [], ◌∷◌,
  length, get_or, bit_and, add32, sub32, u32, ◌>>>◌,
}
use samos.Fb.{SamFb, Vram, fb_pixel, fb_fill_rect, fb_draw_rect, fb_clear, glyph_of, dot}

module _ (fb : SamFb) where
  -- The loops over sx, sy, col and row of `wz_putchar`.
  pub square_row : Vram → ℕ → ℕ → ℕ → ℕ → ℕ → Vram
  square_row v x y colour sx zero = v
  square_row v x y colour sx (suc left) =
      square_row (fb_pixel fb v (add32 x sx) y colour) x y colour (sx + 1) left

  pub square_rows : Vram → ℕ → ℕ → ℕ → ℕ → ℕ → ℕ → Vram
  square_rows v x y colour scale sy zero = v
  square_rows v x y colour scale sy (suc left) =
      square_rows (square_row v x (add32 y sy) colour 0 scale) x y colour scale (sy + 1) left

  pub wz_glyph_row : Vram → ℕ → ℕ → ℕ → ℕ → ℕ → ℕ → ℕ → ℕ → Vram
  wz_glyph_row v x y fg bg scale bits col zero = v
  wz_glyph_row v x y fg bg scale bits col (suc left) =
      wz_glyph_row
        (square_rows v (add32 x (u32 (col * scale))) y (dot fb fg bg bits col) scale 0 scale) x y fg
        bg scale bits (col + 1) left

  pub wz_glyph_rows : Vram → ℕ → ℕ → ℕ → ℕ → ℕ → List ℕ → ℕ → ℕ → Vram
  wz_glyph_rows v x y fg bg scale glyph row zero = v
  wz_glyph_rows v x y fg bg scale glyph row (suc left) =
      wz_glyph_rows
        (wz_glyph_row v x (add32 y (u32 (row * scale))) fg bg scale (get_or glyph row 0) 0 8) x y fg
        bg scale glyph (row + 1) left

  pub wz_putchar : Vram → ℕ → ℕ → ℕ → ℕ → ℕ → ℕ → Vram
  wz_putchar v x y c fg bg scale =
      if not fb.ready
      then v
      else wz_glyph_rows v x y fg bg scale (glyph_of fb (if ltb c 32 || ltb 127 c then b'?' else c))
          0 16

  pub wz_puts : Vram → ℕ → ℕ → List ℕ → ℕ → ℕ → ℕ → Vram
  wz_puts v x y [] fg bg scale = v
  wz_puts v x y (c ∷ s) fg bg scale =
      wz_puts (wz_putchar v x y c fg bg scale) (add32 x (u32 (8 * scale))) y s fg bg scale

  pub wz_puts_centre : Vram → ℕ → ℕ → List ℕ → ℕ → ℕ → ℕ → Vram
  wz_puts_centre v cx y s fg bg scale =
      let total_w = u32 (length s * 8 * scale) in
      wz_puts v (if leb (total_w / 2) cx then cx - total_w / 2 else 0) y s fg bg scale

  -- The loop over the corner rows; span = r - r * i / r.
  pub corner_rows : Vram → ℕ → ℕ → ℕ → ℕ → ℕ → ℕ → ℕ → ℕ → Vram
  corner_rows v x y w h colour r i zero = v
  corner_rows v x y w h colour r i (suc left) =
      let span = r - r * i / r in
      let v1 = fb_fill_rect fb v (add32 x span) (add32 y i) (sub32 w (2 * span)) 1 colour in
      let v2 =
        fb_fill_rect fb v1 (add32 x span) (sub32 (sub32 (add32 y h) 1) i) (sub32 w (2 * span)) 1
          colour in
      corner_rows v2 x y w h colour r (i + 1) left

  pub wz_rounded_rect : Vram → ℕ → ℕ → ℕ → ℕ → ℕ → ℕ → ℕ → Vram
  wz_rounded_rect v x y w h colour border r =
      let v1 = fb_fill_rect fb v (add32 x r) y (sub32 w (2 * r)) h colour in
      let v2 = fb_fill_rect fb v1 x (add32 y r) r (sub32 h (2 * r)) colour in
      let v3 = fb_fill_rect fb v2 (sub32 (add32 x w) r) (add32 y r) r (sub32 h (2 * r)) colour in
      let v4 = corner_rows v3 x y w h colour r 0 r in
      if border == colour then v4 else fb_draw_rect fb v4 x y w h border 2

  -- One row of `wz_draw_step_dot`, from `dx` on, and all rows from `dy` on.
  pub dot_row : Vram → ℕ → ℕ → ℕ → ℕ → ℕ → ℕ → ℕ → Vram
  dot_row v cx cy r colour dy dx zero = v
  dot_row v cx cy r colour dy dx (suc left) =
      let v1 = fb_pixel fb v (add32 cx dx) (add32 cy dy) colour in
      let v2 = fb_pixel fb v1 (sub32 cx dx) (add32 cy dy) colour in
      let v3 = fb_pixel fb v2 (add32 cx dx) (sub32 cy dy) colour in
      let v4 = fb_pixel fb v3 (sub32 cx dx) (sub32 cy dy) colour in
      dot_row (if leb (dx * dx + dy * dy) (r * r) then v4 else v) cx cy r colour dy (dx + 1) left

  pub dot_rows : Vram → ℕ → ℕ → ℕ → ℕ → ℕ → ℕ → Vram
  dot_rows v cx cy r colour dy zero = v
  dot_rows v cx cy r colour dy (suc left) =
      dot_rows (dot_row v cx cy r colour dy 0 (r + 1)) cx cy r colour (dy + 1) left

  pub wz_draw_step_dot : Vram → ℕ → ℕ → ℕ → ℕ → Vram
  wz_draw_step_dot v cx cy r colour = dot_rows v cx cy r colour 0 (r + 1)

-- A call of one of the routines.
pub data Draw : Type 0 where
  clear : (colour : ℕ) → Draw
  fill : (x y w h colour : ℕ) → Draw
  frame : (x y w h colour thickness : ℕ) → Draw
  rounded : (x y w h colour border r : ℕ) → Draw
  step_dot : (cx cy r colour : ℕ) → Draw
  puts puts_centre : (x y : ℕ) (s : List ℕ) (fg bg scale : ℕ) → Draw

pub draw : SamFb → Vram → Draw → Vram
draw fb v (clear colour) = fb_clear fb v colour
draw fb v (fill x y w h colour) = fb_fill_rect fb v x y w h colour
draw fb v (frame x y w h colour thickness) = fb_draw_rect fb v x y w h colour thickness
draw fb v (rounded x y w h colour border r) = wz_rounded_rect fb v x y w h colour border r
draw fb v (step_dot cx cy r colour) = wz_draw_step_dot fb v cx cy r colour
draw fb v (puts x y s fg bg scale) = wz_puts fb v x y s fg bg scale
draw fb v (puts_centre x y s fg bg scale) = wz_puts_centre fb v x y s fg bg scale

pub draws : SamFb → Vram → List Draw → Vram
draws fb v [] = v
draws fb v (d ∷ ds) = draws fb (draw fb v d) ds
