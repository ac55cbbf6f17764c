-- ===== src/Shell.antt =====
-- kernel/shell.h: the kernel shell, its console and its command line. The text screen is a memory
-- of 16-bit cells, the framebuffer a memory of pixels (kernel/fb.h). Text is the list of the bytes
-- before its NUL: `cmd` with `cmd_len` is one such list, and `hist` with `hist_count` a list of
-- them.
mod Cells
pub mod Console
pub mod Words
pub mod Eval
pub mod Keys
pub mod Setup
mod Tests
use samos.Base.{
  ℕ, zero, suc, ◌+◌, ◌-◌, ◌*◌, Bool, true, false, ltb, leb, ◌==◌, if◌then◌else◌, List, [], ◌∷◌,
  ◌++◌, get_or, Memory, store8, bit_and, bit_or, u16, ◌>>>◌,
}
use samos.Serial.{codes, hex_digit}
use samos.Fb.{SamFb, Vram, fill_line, glyph_of, dot, fb_fill_rect, dec_text}

-- SH_COLS, SH_ROWS and the attributes
abbrev pub sh_cols : ℕ
sh_cols = 80

abbrev pub sh_rows : ℕ
sh_rows = 25

abbrev pub sh_white : ℕ
sh_white = 0x0F00

abbrev pub sh_green : ℕ
sh_green = 0x0A00

abbrev pub sh_cyan : ℕ
sh_cyan = 0x0B00

abbrev pub sh_yellow : ℕ
sh_yellow = 0x0E00

abbrev pub sh_red : ℕ
sh_red = 0x0C00

abbrev pub sh_grey : ℕ
sh_grey = 0x0700

-- SH_CMD_MAX and SH_HIST_MAX
abbrev pub sh_cmd_max : ℕ
sh_cmd_max = 79

abbrev pub sh_hist_max : ℕ
sh_hist_max = 8

-- `sh->row`, `sh->col`, the cells at SH_VGA_BASE and the pixels.
pub record Screen : Type 0 where
  pub row : ℕ
  pub col : ℕ
  pub vga : Memory
  pub vram : Vram

-- `pal`
abbrev palette : List ℕ
palette =
    0x00000000 ∷ 0x000000AA ∷ 0x0000AA00 ∷ 0x0000AAAA ∷ 0x00AA0000 ∷ 0x00AA00AA ∷ 0x00AA5500
    ∷ 0x00AAAAAA ∷ 0x00555555 ∷ 0x005555FF ∷ 0x0055FF55 ∷ 0x0055FFFF ∷ 0x00FF5555 ∷ 0x00FF55FF
    ∷ 0x00FFFF55 ∷ 0x00FFFFFF ∷ []

pub sh_vga_to_rgb : ℕ → ℕ
sh_vga_to_rgb attr = get_or palette (bit_and (bit_and (attr >>> 8) 0x0F) 0x0F) 0

-- for (x = x; left > 0; x++) dst[x] = src[x];
pub copy_line : Memory → ℕ → ℕ → ℕ → ℕ → Memory
copy_line v dst src x zero = v
copy_line v dst src x (suc left) = copy_line (store8 v (dst + x) (v (src + x))) dst src (x + 1) left

-- Row `y + down` of `width` cells moves to row `y`, for `left` rows.
pub move_rows : Memory → ℕ → ℕ → ℕ → ℕ → ℕ → Memory
move_rows v stride down width y zero = v
move_rows v stride down width y (suc left) =
    move_rows (copy_line v (y * stride) ((y + down) * stride) 0 width) stride down width (y + 1)
      left

-- `width` cells of `left` rows from row `y` on get the value `c`.
pub clear_rows : Memory → ℕ → ℕ → ℕ → ℕ → ℕ → Memory
clear_rows v stride width c y zero = v
clear_rows v stride width c y (suc left) =
    clear_rows (fill_line v (y * stride) c 0 width) stride width c (y + 1) left

-- SH_GREY | ' '
abbrev pub blank : ℕ
blank = bit_or sh_grey b' '

module _ (fb : SamFb) where
  -- One row of a glyph and the whole of it, at the pixel `line`.
  pub sh_glyph_row : Vram → ℕ → ℕ → ℕ → ℕ → ℕ → Vram
  sh_glyph_row v line fg bits col zero = v
  sh_glyph_row v line fg bits col (suc left) =
      sh_glyph_row (store8 v (line + col) (dot fb fg 0x00000000 bits col)) line fg bits (col + 1)
        left

  pub sh_glyph_rows : Vram → ℕ → ℕ → ℕ → ℕ → List ℕ → ℕ → ℕ → Vram
  sh_glyph_rows v pitch px py fg glyph row zero = v
  sh_glyph_rows v pitch px py fg glyph row (suc left) =
      sh_glyph_rows (sh_glyph_row v ((py + row) * pitch + px) fg (get_or glyph row 0) 0 8) pitch px
        py fg glyph (row + 1) left

  pub sh_fb_scroll : Vram → Vram
  sh_fb_scroll v =
      clear_rows (move_rows v fb.pitch_px 16 (sh_cols * 8) 0 (sh_rows * 16 - 16)) fb.pitch_px
        (sh_cols * 8) 0x00000000 (sh_rows * 16 - 16) 16

  -- The scroll of the text screen in `sh_putchar`.
  pub vga_scroll : Memory → Memory
  vga_scroll v =
      clear_rows (move_rows v sh_cols 1 sh_cols 0 (sh_rows - 1)) sh_cols sh_cols blank (sh_rows - 1)
        1

  -- What both functions do for '\n'.
  pub new_line : Screen → Screen
  new_line s =
      if leb sh_rows (s.row + 1)
      then record s {
        row = sh_rows - 1;
        col = 0;
        vga = if fb.ready then s.vga else vga_scroll s.vga;
        vram = if fb.ready then sh_fb_scroll s.vram else s.vram;
      }
      else record s { row = s.row + 1; col = 0 }

  -- The cursor behind a character.
  pub step_col : Screen → Screen
  step_col s = if leb sh_cols (s.col + 1) then new_line s else record s { col = s.col + 1 }

  pub sh_fb_putchar : Screen → ℕ → ℕ → Screen
  sh_fb_putchar s c attr =
      if c == b'\n'
      then new_line s
      else step_col (record s {
        vram =
            sh_glyph_rows s.vram fb.pitch_px (s.col * 8) (s.row * 16) (sh_vga_to_rgb attr)
              (glyph_of fb c) 0 16;
      })

  pub sh_putchar : Screen → ℕ → ℕ → Screen
  sh_putchar s c attr =
      if fb.ready
      then sh_fb_putchar s c attr
      else if c == b'\n'
      then new_line s
      else step_col (record s { vga = store8 s.vga (s.row * sh_cols + s.col) (bit_or attr c) })

  pub sh_puts : Screen → List ℕ → ℕ → Screen
  sh_puts s [] attr = s
  sh_puts s (c ∷ cs) attr = sh_puts (sh_putchar s c attr) cs attr

  -- The last `n` rounds of the loop over i = 60, 56, ..., 0.
  pub sh_hex_loop : ℕ → Screen → ℕ → ℕ → Screen
  sh_hex_loop zero s v attr = s
  sh_hex_loop (suc n) s v attr =
      sh_hex_loop n (sh_putchar s (hex_digit (bit_and (v >>> (4 * n)) 0xF)) attr) v attr

  pub sh_puthex : Screen → ℕ → ℕ → Screen
  sh_puthex s v attr = sh_hex_loop 16 (sh_puts s (codes "0x") attr) v attr

  pub sh_putdec : Screen → ℕ → ℕ → Screen
  sh_putdec s v attr = sh_puts s (dec_text v) attr

  pub sh_clear : Screen → Screen
  sh_clear s =
      if fb.ready
      then record s {
        row = 0;
        col = 0;
        vram = fb_fill_rect fb s.vram 0 0 (sh_cols * 8) (sh_rows * 16) 0x00000000;
      }
      else record s { row = 0; col = 0; vga = fill_line s.vga 0 blank 0 (sh_cols * sh_rows) }

  -- The cell at the cursor, with its character kept and the attribute `attr`.
  abbrev pub recolour : Screen → ℕ → Screen
  recolour s attr =
      let at = s.row * sh_cols + s.col in
      record s { vga = store8 s.vga at (u16 (bit_or (bit_and (s.vga at) 0x00FF) attr)) }

  pub sh_cursor_on : Screen → Screen
  sh_cursor_on s = if fb.ready then s else recolour s 0x7000

  pub sh_cursor_off : Screen → Screen
  sh_cursor_off s = if fb.ready then s else recolour s sh_grey

  -- The text screen is blanked to the end of the row, also while the framebuffer is shown.
  pub sh_redraw_cmd : Screen → List ℕ → Screen
  sh_redraw_cmd s cmd =
      sh_puts (record s { vga = fill_line s.vga (s.row * sh_cols) blank s.col (sh_cols - s.col) })
        cmd sh_white

  pub sh_prompt : Screen → Screen
  sh_prompt s = sh_puts (sh_puts s (codes "\nSAM") sh_green) (codes "> ") sh_cyan
