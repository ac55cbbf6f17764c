-- ===== src/Fb/Tests.antt =====
-- A small screen and a tag list, and the theorems at them.
use samos.Base.{
  ℕ, ◌+◌, ◌-◌, ◌*◌, ◌<◌, ◌≤◌, ◌≡◌, ◌≢◌, ◌⊎◌, refl, arith, List, [], ◌∷◌, ◌++◌, replicate, some,
  Memory, bytes_at, u32, add64, ltb, ◌&&◌, if◌then◌else◌,
}
use samos.Fb.{
  SamFb, Vram, fb_fill_rect, fill_rows, fill_line, fb_draw_char, glyph_rows, glyph_row, fb_pixel,
  fb_vbe_set_mode, screen, fb_draw_rect,
}
use samos.Fb.Fill.{IsScreen, in_rect, fb_fill_rect-painted, fb_fill_rect-wraps}
use samos.Fb.Ink.{ink, has_glyph}
use samos.Fb.Glyph.{fb_draw_char-glyph}
use samos.Fb.Init.{IsTags, framebuffer, other}

-- 20 by 16 pixels in rows of 24.
abbrev small : SamFb
small = screen 0xE0000000 24 20 16

abbrev black : Vram
black p = 0

small-IsScreen : IsScreen small
small-IsScreen = record {
  is_ready = refl;
  row_fits = omega arith;
  screen_fits = omega arith;
  width_fits = omega arith;
  height_fits = omega arith;
}

-- A rectangle that is cut off on the right.
cut_off :
    let v = fb_fill_rect small black 18 1 5 2 7 in (v 43 ≡ 7) × (v 44 ≡ 0) × (v 67 ≡ 7) × (v 91 ≡ 0)
unfolding fb_fill_rect fill_rows fill_line
cut_off = (refl, refl, refl, refl)

frame :
    let v = fb_draw_rect small black 2 2 6 6 7 1 in
    (v 50 ≡ 7) × (v 75 ≡ 0) × (v 79 ≡ 7) × (v 170 ≡ 7)
unfolding fb_draw_rect fb_fill_rect fill_rows fill_line
frame = (refl, refl, refl, refl)

-- The exclamation mark, in its third row: 0x18.
exclamation :
    let v = fb_draw_char small black 1 0 33 7 9 in
    (v (2 * 24 + 3) ≡ 9) × (v (2 * 24 + 4) ≡ 7) × (v (2 * 24 + 6) ≡ 9) × (v 0 ≡ 0)
unfolding fb_draw_char glyph_rows glyph_row fb_pixel
exclamation = (refl, refl, refl, refl)

no_device : (fb_vbe_set_mode 0 1024 768 small).code ≡ 0
unfolding fb_vbe_set_mode
no_device = refl

abbrev word : ℕ → ℕ → List ℕ
word n v = v ∷ replicate (n - 1) 0

-- A command line tag, and a framebuffer tag with 64 by 4 pixels of 32 bits.
abbrev boot_info : Memory
boot_info = bytes_at 0x1000 (
    word 8 64
    ++ word 4 1
    ++ word 4 12
    ++ replicate 8 0
    ++ word 4 8
    ++ word 4 32
    ++ (0 ∷ 0 ∷ 0 ∷ 0xE0 ∷ replicate 4 0)
    ++ (0 ∷ 1 ∷ 0 ∷ 0 ∷ [])
    ++ word 4 64
    ++ word 4 4
    ++ word 4 32)

two_tags : IsTags boot_info (add64 0x1000 8) 1 (some 0x1018)
two_tags = other (omega arith) (omega arith) (omega arith) (framebuffer refl)

-- The witnesses.
fb_fill_rect-painted_example :
    fb_fill_rect small black 18 1 5 2 7 (1 * 24 + 19)
    ≡ (if in_rect 18 1 5 2 19 1 && ltb 19 20 then 7 else black (1 * 24 + 19))
fb_fill_rect-painted_example =
    fb_fill_rect-painted small small-IsScreen black 18 1 5 2 7 19 1 (omega arith) (omega arith)
      (omega arith) (omega arith) (omega arith)

fb_fill_rect-wraps_example : fb_fill_rect small black 22 3 5 2 7 (3 * 24 + 22 + 1000000) ≡ 7
fb_fill_rect-wraps_example =
    fb_fill_rect-wraps small small-IsScreen black 22 3 5 2 7 1000000 (omega arith) (omega arith)
      (omega arith) (omega arith) (omega arith) (omega arith)

off_small : (x y : ℕ) → x < 20 → y < 16 → 22 ≢ u32 (y * 24 + x)
off_small x y hx hy = omega arith

fb_draw_char-glyph_example :
    ((i j : ℕ)
      → i < 8
      → j < 16
      → let drawn = fb_draw_char small black 1 0 33 7 9 ((0 + j) * 24 + (1 + i)) in
        (ink 1 i j ≡ 1 → drawn ≡ 7) × (ink 1 i j ≡ 0 → drawn ≡ 9))
    × ((q r : ℕ)
        → q < 20
        → (q < 1) ⊎ ((1 + 8 ≤ q) ⊎ ((r < 0) ⊎ (0 + 16 ≤ r)))
        → fb_draw_char small black 1 0 33 7 9 (r * 24 + q) ≡ black (r * 24 + q))
fb_draw_char-glyph_example =
    fb_draw_char-glyph small small-IsScreen black 1 0 33 1 7 9 (has_glyph 1 (omega arith))
      (omega arith) (omega arith)

-- The exclamation mark has two inked pixels in its third row.
exclamation_ink : (ink 1 2 2 ≡ 0) × (ink 1 3 2 ≡ 1) × (ink 1 4 2 ≡ 1) × (ink 1 5 2 ≡ 0)
exclamation_ink = (refl, refl, refl, refl)
