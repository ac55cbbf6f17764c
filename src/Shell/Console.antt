-- ===== src/Shell/Console.antt =====
-- kernel/shell.h: the console writes inside the screen. The 25 rows of 80 characters are 2000 cells
-- of the text screen, and the first 400 rows of pixels of the framebuffer.
use samos.Base.{
  ℕ, zero, suc, ◌+◌, ◌*◌, ◌-◌, ◌<◌, ◌≤◌, ◌≡◌, inr, ◌∙◌, arith, true, false, if-cases, if◌then◌else◌,
  leb, ◌==◌, List, [], ◌∷◌, Memory, store8, bit_and, bit_or, ◌>>>◌,
}
use samos.Serial.{codes, hex_digit}
use samos.Fb.{SamFb, Vram, glyph_of, fb_fill_rect, dec_text}
use samos.Fb.Fill.{IsScreen, fill_line-outside, fb_fill_rect-below}
use samos.Shell.Cells.{move_rows-outside, clear_rows-outside, sh_glyph_rows-outside}
use samos.Shell.{
  Screen, move_rows, sh_glyph_rows, sh_vga_to_rgb, blank, sh_fb_scroll, vga_scroll, new_line,
  step_col, sh_fb_putchar, sh_putchar, sh_puts, sh_hex_loop, sh_puthex, sh_putdec, sh_clear,
  sh_cursor_on, sh_cursor_off, sh_redraw_cmd, sh_prompt, sh_cols, sh_rows, sh_white, sh_green,
  sh_cyan,
}

-- The text screen is shown, or a framebuffer of at least 640 by 400 pixels.
pub data HasConsole (fb : SamFb) : Type 0 where
  text_mode : fb.ready ≡ false → HasConsole fb
  pixel_mode : IsScreen fb → 640 ≤ fb.width → 400 ≤ fb.height → HasConsole fb

-- What a framebuffer of that size has: rows of 640 pixels, and 400 of them.
abbrev IsWide : SamFb → Type 0
IsWide fb = (640 ≤ fb.pitch_px) × (400 * fb.pitch_px ≤ fb.height * fb.pitch_px)

screen-IsWide : (fb : SamFb) → fb.width ≤ fb.pitch_px → 640 ≤ fb.width → 400 ≤ fb.height → IsWide fb
screen-IsWide fb r w h = (omega arith, grind arith)

-- The cursor is on the screen, and outside the screen the cells and the pixels are `v0` and `w0`.
pub record IsKept (fb : SamFb) (v0 : Memory) (w0 : Vram) (s : Screen) : Type 0 where
  pub row_fits : s.row < sh_rows
  pub col_fits : s.col < sh_cols
  pub vga_kept : (p : ℕ) → 2000 ≤ p → s.vga p ≡ v0 p
  pub vram_kept : (p : ℕ) → fb.height * fb.pitch_px ≤ p → s.vram p ≡ w0 p

module _ (fb : SamFb) (console : HasConsole fb) (v0 : Memory) (w0 : Vram) where
  -- A branch that only the framebuffer takes may rely on its size.
  if_ready :
      {A : Type 0} (P : A → Type 0) {x y : A}
      → (IsWide fb → P x)
      → P y
      → P (if fb.ready then x else y)
  if_ready P f g = elim console [
    | text_mode e ↦ rw e g
    | pixel_mode s w h ↦ rw (IsScreen.is_ready s) (f (screen-IsWide fb s.row_fits w h))
  ]

  store8-kept :
      (v : Memory) (r c x : ℕ)
      → r < sh_rows
      → c < sh_cols
      → ((p : ℕ) → 2000 ≤ p → v p ≡ v0 p)
      → (p : ℕ) → 2000 ≤ p
      → store8 v (r * sh_cols + c) x p ≡ v0 p
  store8-kept v r c x hr hc k p h = let e = k p h in ground arith

  scrolled :
      (v : Memory) (p : ℕ) → ((p : ℕ) → 2000 ≤ p → v p ≡ v0 p) → 2000 ≤ p → vga_scroll fb v p ≡ v0 p
  unfolding vga_scroll
  scrolled v p k h =
      clear_rows-outside sh_cols sh_cols 25 p (omega arith) (omega arith)
        (move_rows v sh_cols 1 sh_cols 0 (sh_rows - 1)) blank (sh_rows - 1) 1 (omega arith)
      ∙ (move_rows-outside sh_cols sh_cols 25 p (omega arith) (omega arith) v 1 0 (sh_rows - 1)
            (omega arith)
          ∙ k p h)

  fb_scrolled :
      (v : Vram) (p : ℕ)
      → ((p : ℕ) → fb.height * fb.pitch_px ≤ p → v p ≡ w0 p)
      → fb.height * fb.pitch_px ≤ p
      → IsWide fb
      → sh_fb_scroll fb v p ≡ w0 p
  unfolding sh_fb_scroll
  fb_scrolled v p k h wide =
      clear_rows-outside fb.pitch_px (sh_cols * 8) 400 p (omega arith) (omega arith)
        (move_rows v fb.pitch_px 16 (sh_cols * 8) 0 (sh_rows * 16 - 16)) 0x00000000
        (sh_rows * 16 - 16) 16 (omega arith)
      ∙ (move_rows-outside fb.pitch_px (sh_cols * 8) 400 p (omega arith) (omega arith) v 16 0
            (sh_rows * 16 - 16) (omega arith)
          ∙ k p h)

  pub new_line-IsKept : (s : Screen) → IsKept fb v0 w0 s → IsKept fb v0 w0 (new_line fb s)
  unfolding new_line
  new_line-IsKept s k =
      if-cases (λ t. IsKept fb v0 w0 t) (leb sh_rows (s.row + 1))
        (λ h. record {
          row_fits = omega arith;
          col_fits = omega arith;
          vga_kept = λ p hp.
              if_ready (λ (m : Memory). m p ≡ v0 p) (λ wide. k.vga_kept p hp)
                (scrolled s.vga p k.vga_kept hp);
          vram_kept = λ p hp.
              if_ready (λ (m : Vram). m p ≡ w0 p) (fb_scrolled s.vram p k.vram_kept hp)
                (k.vram_kept p hp);
        })
        (λ h. record {
          row_fits = ground arith;
          col_fits = omega arith;
          vga_kept = k.vga_kept;
          vram_kept = k.vram_kept;
        })

  step_col-IsKept : (s : Screen) → IsKept fb v0 w0 s → IsKept fb v0 w0 (step_col fb s)
  unfolding step_col
  step_col-IsKept s k =
      if-cases (λ t. IsKept fb v0 w0 t) (leb sh_cols (s.col + 1)) (λ h. new_line-IsKept s k)
        (λ h. record {
          row_fits = k.row_fits;
          col_fits = ground arith;
          vga_kept = k.vga_kept;
          vram_kept = k.vram_kept;
        })

  -- A glyph drawn at the cursor.
  glyph-IsKept :
      (s : Screen) (fg : ℕ) (glyph : List ℕ)
      → IsKept fb v0 w0 s
      → IsWide fb
      → IsKept fb v0 w0 (record s {
        vram = sh_glyph_rows fb s.vram fb.pitch_px (s.col * 8) (s.row * 16) fg glyph 0 16;
      })
  glyph-IsKept s fg glyph k wide = record {
    row_fits = k.row_fits;
    col_fits = k.col_fits;
    vga_kept = k.vga_kept;
    vram_kept = λ p hp.
        let r = k.row_fits in
        let c = k.col_fits in
        sh_glyph_rows-outside fb s.vram fb.pitch_px (s.col * 8) (s.row * 16) fg glyph 0 16 400 p
          (omega arith) (omega arith) (omega arith)
        ∙ k.vram_kept p hp;
  }

  sh_fb_putchar-IsKept :
      (s : Screen) (c attr : ℕ)
      → IsKept fb v0 w0 s
      → IsWide fb
      → IsKept fb v0 w0 (sh_fb_putchar fb s c attr)
  unfolding sh_fb_putchar
  sh_fb_putchar-IsKept s c attr k wide =
      if-cases (λ t. IsKept fb v0 w0 t) (c == b'\n') (λ h. new_line-IsKept s k)
        (λ h. step_col-IsKept _ (glyph-IsKept s (sh_vga_to_rgb attr) (glyph_of fb c) k wide))

  -- A cell of the cursor's row is written.
  pub cell-IsKept :
      (s : Screen) (col x : ℕ)
      → IsKept fb v0 w0 s
      → col < sh_cols
      → IsKept fb v0 w0 (record s { col = col; vga = store8 s.vga (s.row * sh_cols + col) x })
  cell-IsKept s col x k h = record {
    row_fits = k.row_fits;
    col_fits = h;
    vga_kept = store8-kept s.vga s.row col x k.row_fits h k.vga_kept;
    vram_kept = k.vram_kept;
  }

  pub sh_putchar-IsKept :
      (s : Screen) (c attr : ℕ) → IsKept fb v0 w0 s → IsKept fb v0 w0 (sh_putchar fb s c attr)
  unfolding sh_putchar
  sh_putchar-IsKept s c attr k =
      if_ready (λ t. IsKept fb v0 w0 t) (sh_fb_putchar-IsKept s c attr k)
        (if-cases (λ t. IsKept fb v0 w0 t) (c == b'\n') (λ h. new_line-IsKept s k)
          (λ h. step_col-IsKept _ (cell-IsKept s s.col (bit_or attr c) k k.col_fits)))

  pub sh_puts-IsKept :
      (s : Screen) (text : List ℕ) (attr : ℕ)
      → IsKept fb v0 w0 s
      → IsKept fb v0 w0 (sh_puts fb s text attr)
  unfolding sh_puts
  sh_puts-IsKept s [] attr k = k
  sh_puts-IsKept s (c ∷ cs) attr k =
      sh_puts-IsKept (sh_putchar fb s c attr) cs attr (sh_putchar-IsKept s c attr k)

  sh_hex_loop-IsKept :
      (n : ℕ) (s : Screen) (v attr : ℕ)
      → IsKept fb v0 w0 s
      → IsKept fb v0 w0 (sh_hex_loop fb n s v attr)
  unfolding sh_hex_loop
  sh_hex_loop-IsKept zero s v attr k = k
  sh_hex_loop-IsKept (suc n) s v attr k =
      sh_hex_loop-IsKept n (sh_putchar fb s (hex_digit (bit_and (v >>> (4 * n)) 0xF)) attr) v attr
        (sh_putchar-IsKept s (hex_digit (bit_and (v >>> (4 * n)) 0xF)) attr k)

  pub sh_puthex-IsKept :
      (s : Screen) (v attr : ℕ) → IsKept fb v0 w0 s → IsKept fb v0 w0 (sh_puthex fb s v attr)
  unfolding sh_puthex
  sh_puthex-IsKept s v attr k =
      sh_hex_loop-IsKept 16 (sh_puts fb s (codes "0x") attr) v attr
        (sh_puts-IsKept s (codes "0x") attr k)

  pub sh_putdec-IsKept :
      (s : Screen) (v attr : ℕ) → IsKept fb v0 w0 s → IsKept fb v0 w0 (sh_putdec fb s v attr)
  unfolding sh_putdec
  sh_putdec-IsKept s v attr k = sh_puts-IsKept s (dec_text v) attr k

  pub sh_prompt-IsKept : (s : Screen) → IsKept fb v0 w0 s → IsKept fb v0 w0 (sh_prompt fb s)
  unfolding sh_prompt
  sh_prompt-IsKept s k =
      sh_puts-IsKept _ (codes "> ") sh_cyan (sh_puts-IsKept s (codes "\nSAM") sh_green k)

  -- A rectangle of the framebuffer inside the screen is filled, and the cursor moves to (row, col).
  pub rect-IsKept :
      (s : Screen) (row col x y w h colour : ℕ)
      → IsKept fb v0 w0 s
      → fb.ready ≡ true
      → row < sh_rows
      → col < sh_cols
      → x + w ≤ 640
      → y + h ≤ 400
      → IsKept fb v0 w0
          (record s { row = row; col = col; vram = fb_fill_rect fb s.vram x y w h colour })
  rect-IsKept s row col x y w h colour k e hr hc hx hy = elim console [
    | text_mode off ↦ cc
    | pixel_mode scr wide high ↦ record {
      row_fits = hr;
      col_fits = hc;
      vga_kept = k.vga_kept;
      vram_kept = λ p hp.
          fb_fill_rect-below fb scr s.vram x y w h colour fb.height p (omega arith) (omega arith)
            (omega arith) (omega arith) hp
          ∙ k.vram_kept p hp;
    }
  ]

  -- Both modes, for a branch that relies on the mode.
  by_mode :
      {A : Type 0} (P : A → Type 0) {x y : A}
      → (fb.ready ≡ true → P x)
      → P y
      → P (if fb.ready then x else y)
  by_mode P f g = if-cases P fb.ready f (λ e. g)

  pub sh_clear-IsKept : (s : Screen) → IsKept fb v0 w0 s → IsKept fb v0 w0 (sh_clear fb s)
  unfolding sh_clear
  sh_clear-IsKept s k =
      by_mode (λ t. IsKept fb v0 w0 t)
        (λ e.
          rect-IsKept s 0 0 0 0 (sh_cols * 8) (sh_rows * 16) 0x00000000 k e (omega arith)
            (omega arith) (omega arith) (omega arith))
        (record {
          row_fits = omega arith;
          col_fits = omega arith;
          vga_kept = λ p hp.
              fill_line-outside s.vga 0 blank 0 (sh_cols * sh_rows) p (inr (omega arith))
              ∙ k.vga_kept p hp;
          vram_kept = k.vram_kept;
        })

  pub sh_cursor_on-IsKept : (s : Screen) → IsKept fb v0 w0 s → IsKept fb v0 w0 (sh_cursor_on fb s)
  unfolding sh_cursor_on
  sh_cursor_on-IsKept s k =
      by_mode (λ t. IsKept fb v0 w0 t) (λ e. k) (cell-IsKept s s.col _ k k.col_fits)

  pub sh_cursor_off-IsKept : (s : Screen) → IsKept fb v0 w0 s → IsKept fb v0 w0 (sh_cursor_off fb s)
  unfolding sh_cursor_off
  sh_cursor_off-IsKept s k =
      by_mode (λ t. IsKept fb v0 w0 t) (λ e. k) (cell-IsKept s s.col _ k k.col_fits)

  pub sh_redraw_cmd-IsKept :
      (s : Screen) (cmd : List ℕ) → IsKept fb v0 w0 s → IsKept fb v0 w0 (sh_redraw_cmd fb s cmd)
  unfolding sh_redraw_cmd
  sh_redraw_cmd-IsKept s cmd k = sh_puts-IsKept _ cmd sh_white (record {
    row_fits = k.row_fits;
    col_fits = k.col_fits;
    vga_kept = λ p hp.
        let r = k.row_fits in
        let c = k.col_fits in
        fill_line-outside s.vga (s.row * sh_cols) blank s.col (sh_cols - s.col) p
          (inr (omega arith))
        ∙ k.vga_kept p hp;
    vram_kept = k.vram_kept;
  })
