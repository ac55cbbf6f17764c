-- ===== src/Shell/Cells.antt =====
-- kernel/shell.h: which cells the loops of the console leave alone.
use samos.Base.{
  ℕ, zero, suc, ◌+◌, ◌*◌, ◌<◌, ◌≤◌, ◌≡◌, inr, refl, ◌∙◌, arith, List, Memory, store8, get_or,
}
use samos.Fb.{SamFb, Vram, fill_line, dot}
use samos.Fb.Fill.{fill_line-outside, rows_apart}
use samos.Shell.{copy_line, move_rows, clear_rows, sh_glyph_row, sh_glyph_rows}

-- `p` is a cell that the copy does not reach.
pub copy_line-outside :
    (v : Memory) (dst src x n p : ℕ) → dst + x + n ≤ p → copy_line v dst src x n p ≡ v p
unfolding copy_line
copy_line-outside v dst src x zero p h = refl
copy_line-outside v dst src x (suc n) p h =
    copy_line-outside (store8 v (dst + x) (v (src + x))) dst src (x + 1) n p (omega arith)
    ∙ ground arith

-- The end of row `y`, where `total` rows end before `p`.
pub row_ends :
    (y total stride width p : ℕ)
    → y < total
    → width ≤ stride
    → total * stride ≤ p
    → y * stride + width ≤ p
row_ends y total stride width p h w e = omega (arith, rows_apart y total stride h)

module _ (stride width total p : ℕ) (w : width ≤ stride) (e : total * stride ≤ p) where
  pub move_rows-outside :
      (v : Memory) (down y n : ℕ) → y + n ≤ total → move_rows v stride down width y n p ≡ v p
  unfolding move_rows
  move_rows-outside v down y zero h = refl
  move_rows-outside v down y (suc n) h =
      let r = row_ends y total stride width p (omega arith) w e in
      move_rows-outside (copy_line v (y * stride) ((y + down) * stride) 0 width) down (y + 1) n
        (omega arith)
      ∙ copy_line-outside v (y * stride) ((y + down) * stride) 0 width p (omega arith)

  pub clear_rows-outside :
      (v : Memory) (c y n : ℕ) → y + n ≤ total → clear_rows v stride width c y n p ≡ v p
  unfolding clear_rows
  clear_rows-outside v c y zero h = refl
  clear_rows-outside v c y (suc n) h =
      let r = row_ends y total stride width p (omega arith) w e in
      clear_rows-outside (fill_line v (y * stride) c 0 width) c (y + 1) n (omega arith)
      ∙ fill_line-outside v (y * stride) c 0 width p (inr (omega arith))

module _ (fb : SamFb) where
  pub sh_glyph_row-outside :
      (v : Vram) (line fg bits col n p : ℕ)
      → line + col + n ≤ p
      → sh_glyph_row fb v line fg bits col n p ≡ v p
  unfolding sh_glyph_row
  sh_glyph_row-outside v line fg bits col zero p h = refl
  sh_glyph_row-outside v line fg bits col (suc n) p h =
      sh_glyph_row-outside (store8 v (line + col) (dot fb fg 0x00000000 bits col)) line fg bits
        (col + 1) n p (omega arith)
      ∙ ground arith

  pub sh_glyph_rows-outside :
      (v : Vram) (pitch px py fg : ℕ) (glyph : List ℕ) (row n total p : ℕ)
      → py + row + n ≤ total
      → px + 8 ≤ pitch
      → total * pitch ≤ p
      → sh_glyph_rows fb v pitch px py fg glyph row n p ≡ v p
  unfolding sh_glyph_rows
  sh_glyph_rows-outside v pitch px py fg glyph row zero total p h w e = refl
  sh_glyph_rows-outside v pitch px py fg glyph row (suc n) total p h w e =
      let r = row_ends (py + row) total pitch (px + 8) p (omega arith) w e in
      sh_glyph_rows-outside
        (sh_glyph_row fb v ((py + row) * pitch + px) fg (get_or glyph row 0) 0 8) pitch px py fg
        glyph (row + 1) n total p (omega arith) w e
      ∙ sh_glyph_row-outside v ((py + row) * pitch + px) fg (get_or glyph row 0) 0 8 p (omega arith)
