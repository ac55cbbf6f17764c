-- ===== src/Vga/Inside.antt =====
-- kernel/main.c: the boot's console keeps its cursor, and what it writes, on the screen.
use samos.Base.{
  ℕ, zero, suc, ◌+◌, ◌*◌, ◌<◌, ◌≤◌, ◌≡◌, inr, arith, ◌==◌, leb, if-cases, List, [], ◌∷◌, Memory,
  store8, u16, bit_or,
}
use samos.Serial.{codes}
use samos.Fb.{dec_text}
use samos.Fb.Fill.{fill_line-outside}
use samos.Vga.{
  vga_cols, vga_rows, Vga, next_row, vga_putchar, vga_puts, vga_clear, puthex_loop, vga_puthex,
  vga_putdec,
}

-- The cursor is on the screen, and behind its 2000 cells the memory is `m`.
pub record IsInside (m : Memory) (s : Vga) : Type 0 where
  pub row_fits : s.vga_row < vga_rows
  pub col_fits : s.vga_col < vga_cols
  pub kept : (p : ℕ) → 2000 ≤ p → s.cells p ≡ m p

module _ (m : Memory) where
  next_row-IsInside : (s : Vga) → IsInside m s → IsInside m (next_row s)
  unfolding next_row
  next_row-IsInside s i = record {
    row_fits =
        if-cases (λ r. r < vga_rows) (leb vga_rows (s.vga_row + 1)) (λ e. omega arith)
          (λ e. ground arith);
    col_fits = omega arith;
    kept = i.kept;
  }

  put_kept :
      (s : Vga) (x p : ℕ)
      → IsInside m s
      → 2000 ≤ p
      → store8 s.cells (s.vga_row * vga_cols + s.vga_col) x p ≡ m p
  put_kept s x p i h =
      let e = i.kept p h in let r = i.row_fits in let c = i.col_fits in ground arith

  pub vga_putchar-IsInside :
      (s : Vga) (c colour : ℕ) → IsInside m s → IsInside m (vga_putchar s c colour)
  unfolding vga_putchar
  vga_putchar-IsInside s c colour i =
      let x = u16 (bit_or colour c) in
      if-cases (λ (t : Vga). IsInside m t) (c == b'\n') (λ e. next_row-IsInside s i)
        (λ e.
          if-cases (λ (t : Vga). IsInside m t) (leb vga_cols (s.vga_col + 1))
            (λ e1. next_row-IsInside _ (record {
              row_fits = i.row_fits;
              col_fits = i.col_fits;
              kept = λ p h. put_kept s x p i h;
            }))
            (λ e1. record {
              row_fits = i.row_fits;
              col_fits = ground arith;
              kept = λ p h. put_kept s x p i h;
            }))

  pub vga_puts-IsInside :
      (s : Vga) (text : List ℕ) (colour : ℕ) → IsInside m s → IsInside m (vga_puts s text colour)
  unfolding vga_puts
  vga_puts-IsInside s [] colour i = i
  vga_puts-IsInside s (c ∷ text) colour i =
      vga_puts-IsInside (vga_putchar s c colour) text colour (vga_putchar-IsInside s c colour i)

  puthex_loop-IsInside :
      (left : ℕ) (s : Vga) (v colour : ℕ) → IsInside m s → IsInside m (puthex_loop left s v colour)
  unfolding puthex_loop
  puthex_loop-IsInside zero s v colour i = i
  puthex_loop-IsInside (suc left) s v colour i =
      puthex_loop-IsInside left _ v colour (vga_putchar-IsInside s _ colour i)

  pub vga_puthex-IsInside :
      (s : Vga) (v colour : ℕ) → IsInside m s → IsInside m (vga_puthex s v colour)
  unfolding vga_puthex
  vga_puthex-IsInside s v colour i =
      puthex_loop-IsInside 16 _ v colour (vga_puts-IsInside s (codes "0x") colour i)

  pub vga_putdec-IsInside :
      (s : Vga) (v colour : ℕ) → IsInside m s → IsInside m (vga_putdec s v colour)
  unfolding vga_putdec
  vga_putdec-IsInside s v colour i = vga_puts-IsInside s (dec_text v) colour i

-- `vga_clear` brings any cursor back to the screen.
pub vga_clear-IsInside : (s : Vga) → IsInside s.cells (vga_clear s)
unfolding vga_clear
vga_clear-IsInside s = record {
  row_fits = omega arith;
  col_fits = omega arith;
  kept = λ p h. fill_line-outside s.cells 0 _ 0 (vga_cols * vga_rows) p (inr h);
}
