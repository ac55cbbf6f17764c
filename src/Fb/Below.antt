-- ===== src/Fb/Below.antt =====
-- kernel/fb.h: what is drawn on the screen leaves the memory behind it alone.
use samos.Base.{ℕ, ◌+◌, ◌-◌, ◌*◌, ◌<◌, ◌≤◌, ◌^◌, ◌≡◌, ◌∙◌, arith, add32, sub32}
use samos.Fb.{SamFb, Vram, fb_draw_rect, fb_clear}
use samos.Fb.Fill.{IsScreen, fb_fill_rect-below, rows_apart}
use samos.Fb.Glyph.{Offscreen}

pub edge_exact : (a b t : ℕ) → a + b < 2 ^ 32 → t ≤ a + b → sub32 (add32 a b) t ≡ a + b - t
edge_exact a b t h l = omega arith

module _ (fb : SamFb) (s : IsScreen fb) where
  -- The pixels behind the last row are none of the screen.
  pub below-Offscreen : (p : ℕ) → fb.height * fb.pitch_px ≤ p → Offscreen fb p
  below-Offscreen p h x y hx hy =
      let d = rows_apart y fb.height fb.pitch_px hy in λ e. omega (arith, s.row_fits)

  pub fb_draw_rect-below :
      (v : Vram) (x y w h colour thickness rows p : ℕ)
      → x + w ≤ fb.width
      → y + h ≤ rows
      → thickness ≤ w
      → thickness ≤ h
      → rows ≤ fb.height
      → rows * fb.pitch_px ≤ p
      → fb_draw_rect fb v x y w h colour thickness p ≡ v p
  unfolding fb_draw_rect
  fb_draw_rect-below v x y w h colour t rows p hx hy tw th hr hp =
      let bottom = edge_exact y h t (omega (arith, s.height_fits)) (omega arith) in
      let right = edge_exact x w t (omega (arith, s.width_fits)) (omega arith) in
      simp s.is_ready (
        fb_fill_rect-below fb s _ (sub32 (add32 x w) t) y t h colour rows p (omega arith)
          (omega (arith, s.width_fits)) hy hr hp
        ∙ (fb_fill_rect-below fb s _ x y t h colour rows p (omega arith)
              (omega (arith, s.width_fits)) hy hr hp
            ∙ (fb_fill_rect-below fb s _ x (sub32 (add32 y h) t) w t colour rows p (omega arith)
                  (omega (arith, s.width_fits)) (omega arith) hr hp
                ∙ fb_fill_rect-below fb s v x y w t colour rows p (omega arith)
                    (omega (arith, s.width_fits)) (omega arith) hr hp)))

  pub fb_clear-below :
      (v : Vram) (colour p : ℕ) → fb.height * fb.pitch_px ≤ p → fb_clear fb v colour p ≡ v p
  unfolding fb_clear
  fb_clear-below v colour p h = simp s.is_ready (
      fb_fill_rect-below fb s v 0 0 fb.width fb.height colour fb.height p (omega arith)
        (omega (arith, s.width_fits)) (omega arith) (omega arith) h)
