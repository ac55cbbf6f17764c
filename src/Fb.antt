-- ===== src/Fb.antt =====
-- kernel/fb.h: the linear framebuffer. Its pixels are a memory of their own, indexed by the
-- distance from `g_fb.addr` in pixels. Text is a list of bytes before its NUL.
mod Font
pub mod Fill
pub mod Below
pub mod Ink
pub mod Glyph
pub mod Init
mod Tests
use samos.Base.{
  ℕ, zero, suc, ◌+◌, ◌-◌, ◌*◌, ◌/◌, ◌%◌, ◌^◌, Bool, true, false, ◌&&◌, ◌||◌, not, ltb, leb, ◌==◌,
  if◌then◌else◌, Option, some, none, List, [], ◌∷◌, ◌++◌, get_or, length, Memory, store8, load32,
  load64, add64, bit_and, bit_or, add32, sub32, u32, u16, u8, ◌>>>◌,
}
use samos.Fb.Font.{fb_font_8x16}

-- `sam_fb_t`
pub record SamFb : Type 0 where
  pub addr : ℕ
  pub pitch_px : ℕ
  pub width : ℕ
  pub height : ℕ
  pub bpp : ℕ
  pub ready : Bool

-- The pixels.
abbrev pub Vram : Type 0
Vram = ℕ → ℕ

-- for (col = col; left > 0; col++) line[col] = colour;
pub fill_line : Vram → ℕ → ℕ → ℕ → ℕ → Vram
fill_line v line colour col zero = v
fill_line v line colour col (suc left) =
    fill_line (store8 v (line + col) colour) line colour (col + 1) left

module _ (fb : SamFb) where
  pub fb_pixel : Vram → ℕ → ℕ → ℕ → Vram
  fb_pixel v x y colour =
      if not fb.ready || (leb fb.width x || leb fb.height y)
      then v
      else store8 v (u32 (y * fb.pitch_px + x)) colour

  -- The rows from `row` on, `left` of them, `cols` pixels in each.
  pub fill_rows : Vram → ℕ → ℕ → ℕ → ℕ → ℕ → Vram
  fill_rows v x cols colour row zero = v
  fill_rows v x cols colour row (suc left) =
      fill_rows (fill_line v (u32 (row * fb.pitch_px) + x) colour 0 cols) x cols colour (row + 1)
        left

  -- x1 and y1
  abbrev pub clip : ℕ → ℕ → ℕ → ℕ
  clip limit a w = if ltb limit (add32 a w) then limit else add32 a w

  pub fb_fill_rect : Vram → ℕ → ℕ → ℕ → ℕ → ℕ → Vram
  fb_fill_rect v x y w h colour =
      if not fb.ready
      then v
      else fill_rows v x (sub32 (clip fb.width x w) x) colour y (clip fb.height y h - y)

  pub fb_draw_rect : Vram → ℕ → ℕ → ℕ → ℕ → ℕ → ℕ → Vram
  fb_draw_rect v x y w h colour thickness =
      if not fb.ready
      then v
      else let v1 = fb_fill_rect v x y w thickness colour in
        let v2 = fb_fill_rect v1 x (sub32 (add32 y h) thickness) w thickness colour in
        let v3 = fb_fill_rect v2 x y thickness h colour in
        fb_fill_rect v3 (sub32 (add32 x w) thickness) y thickness h colour

  pub fb_clear : Vram → ℕ → Vram
  fb_clear v colour = if not fb.ready then v else fb_fill_rect v 0 0 fb.width fb.height colour

  pub fb_hline : Vram → ℕ → ℕ → ℕ → ℕ → Vram
  fb_hline v x y w colour = fb_fill_rect v x y w 1 colour

  -- `glyph`, for a byte of the text
  abbrev pub glyph_of : ℕ → List ℕ
  glyph_of c = get_or fb_font_8x16 ((if ltb c 32 || ltb 127 c then 32 else c) - 32) []

  -- (bits & (0x80 >> col)) ? fg : bg
  abbrev pub dot : ℕ → ℕ → ℕ → ℕ → ℕ
  dot fg bg bits col = if bit_and bits (0x80 >>> col) == 0 then bg else fg

  -- One row of a glyph from column `col` on, `left` pixels.
  pub glyph_row : Vram → ℕ → ℕ → ℕ → ℕ → ℕ → ℕ → ℕ → Vram
  glyph_row v x y fg bg bits col zero = v
  glyph_row v x y fg bg bits col (suc left) =
      glyph_row (fb_pixel v (add32 x col) y (dot fg bg bits col)) x y fg bg bits (col + 1) left

  pub glyph_rows : Vram → ℕ → ℕ → ℕ → ℕ → List ℕ → ℕ → ℕ → Vram
  glyph_rows v x y fg bg glyph row zero = v
  glyph_rows v x y fg bg glyph row (suc left) =
      glyph_rows (glyph_row v x (add32 y row) fg bg (get_or glyph row 0) 0 8) x y fg bg glyph
        (row + 1) left

  pub fb_draw_char : Vram → ℕ → ℕ → ℕ → ℕ → ℕ → Vram
  fb_draw_char v x y c fg bg = if not fb.ready then v else glyph_rows v x y fg bg (glyph_of c) 0 16

  pub draw_chars : Vram → ℕ → ℕ → List ℕ → ℕ → ℕ → Vram
  draw_chars v x y [] fg bg = v
  draw_chars v x y (c ∷ s) fg bg =
      let v' = fb_draw_char v x y c fg bg in
      let rest = draw_chars v' (add32 x 8) y s fg bg in
      if ltb fb.width (add32 (add32 x 8) 8) then v' else rest

  pub fb_draw_str : Vram → ℕ → ℕ → List ℕ → ℕ → ℕ → Vram
  fb_draw_str v x y s fg bg = if not fb.ready then v else draw_chars v x y s fg bg

  pub fb_draw_str_centre : Vram → ℕ → ℕ → ℕ → List ℕ → ℕ → ℕ → Vram
  fb_draw_str_centre v band_x y band_w s fg bg =
      let str_px = u32 (length s * 8) in
      let x = if ltb str_px band_w then add32 band_x ((band_w - str_px) / 2) else band_x in
      fb_draw_str v x y s fg bg

-- while (v) { buf[--i] = '0' + v % 10; v /= 10; }, in front of the text so far. A uint64_t has at
-- most 20 digits.
pub dec_buf : ℕ → ℕ → List ℕ → List ℕ
dec_buf zero v buf = buf
dec_buf (suc fuel) v buf =
    let rest = dec_buf fuel (v / 10) ((48 + v % 10) ∷ buf) in if v == 0 then buf else rest

abbrev pub dec_text : ℕ → List ℕ
dec_text v = if v == 0 then 48 ∷ [] else dec_buf 20 v []

-- The pixels and the column behind the number.
pub fb_draw_dec : SamFb → Vram → ℕ → ℕ → ℕ → ℕ → ℕ → Vram × ℕ
fb_draw_dec fb v x y n fg bg =
    (fb_draw_str fb v x y (dec_text n) fg bg, add32 x (u32 (length (dec_text n) * 8)))

-- The Bochs VBE registers.
abbrev pub vbe_enable : ℕ
vbe_enable = 0x4

-- `vbe_write`: what goes to the index port and to the data port.
abbrev pub vbe_write : ℕ → ℕ → List (ℕ × ℕ)
vbe_write index value = (0x01CE, index) ∷ (0x01CF, value) ∷ []

-- What a routine that sets the mode leaves: the descriptor, the words sent to the ports in order,
-- and what it returns.
pub record ModeSet : Type 0 where
  pub fb : SamFb
  pub writes : List (ℕ × ℕ)
  pub code : ℕ

-- The descriptor that both ways of finding a framebuffer fill in.
abbrev pub screen : ℕ → ℕ → ℕ → ℕ → SamFb
screen addr pitch width height = record {
  addr = addr;
  pitch_px = pitch;
  width = width;
  height = height;
  bpp = 32;
  ready = true;
}

-- `id` is what the device answers on the identity register; reading it sends its index.
pub fb_vbe_set_mode : ℕ → ℕ → ℕ → SamFb → ModeSet
fb_vbe_set_mode id w h fb =
    if not (bit_and id 0xFF00 == 0xB000)
    then record { fb = fb; writes = (0x01CE, 0x0) ∷ []; code = 0 }
    else record {
      fb = screen 0xE0000000 w w h;
      writes =
          (0x01CE, 0x0)
          ∷ (vbe_write vbe_enable 0x00
              ++ vbe_write 0x1 (u16 w)
              ++ vbe_write 0x2 (u16 h)
              ++ vbe_write 0x3 32
              ++ vbe_write 0x6 (u16 w)
              ++ vbe_write 0x7 (u16 h)
              ++ vbe_write 0x8 0
              ++ vbe_write 0x9 0
              ++ vbe_write vbe_enable 0xC1);
      code = 1;
    }

-- The fields of `fb_mb2_tag_t` at `p`, as the descriptor.
abbrev pub tag_screen : Memory → ℕ → SamFb
tag_screen m p =
    screen (load64 m (add64 p 8)) (load32 m (add64 p 16) / 4) (load32 m (add64 p 20))
      (load32 m (add64 p 24))

-- `next`: the size of a tag rounded up to eight bytes, in 32 bits.
abbrev pub tag_step : Memory → ℕ → ℕ
tag_step m p = bit_and (add32 (load32 m (add64 p 4)) 7) 0xFFFFFFF8

-- The loop of `fb_init` at the tag `p`; the C loop has no bound, and `none` is that the fuel was
-- not enough.
pub tag_walk : Memory → ℕ → SamFb → ℕ → ℕ → Option ModeSet
tag_walk m id fb zero p = none
tag_walk m id fb (suc fuel) p =
    let rest = tag_walk m id fb fuel (add64 p (tag_step m p)) in
    let fallback = some (fb_vbe_set_mode id 1024 768 fb) in
    if load32 m p == 0
    then fallback
    else if load32 m p == 8
    then (if m (add64 p 28) == 32
        then some (record { fb = tag_screen m p; writes = []; code = 1 })
        else fallback)
    else if tag_step m p == 0
    then fallback
    else rest

pub fb_init : Memory → ℕ → SamFb → ℕ → ℕ → Option ModeSet
fb_init m id fb fuel multiboot_info = tag_walk m id fb fuel (add64 multiboot_info 8)
