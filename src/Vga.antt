-- ===== src/Vga.antt =====
-- kernel/main.c: the text console of the boot, whose screen starts again at the top when it is full.
-- The cells at 0xB8000 are a memory of their own; text is the list of its bytes before its NUL.
pub mod Inside
use samos.Base.{
  ℕ, zero, suc, ◌+◌, ◌-◌, ◌*◌, ◌/◌, ◌==◌, leb, if◌then◌else◌, List, [], ◌∷◌, Memory, store8, u16,
  u64, bit_and, bit_or, ◌>>>◌,
}
use samos.Serial.{codes, hex_digit}
use samos.Fb.{fill_line, dec_text}

-- VGA_COLS and VGA_ROWS
abbrev pub vga_cols : ℕ
vga_cols = 80

abbrev pub vga_rows : ℕ
vga_rows = 25

-- `vga_row`, `vga_col` and the cells
pub record Vga : Type 0 where
  pub vga_row : ℕ
  pub vga_col : ℕ
  pub cells : Memory

-- The cursor at the start of the next row, or of the first.
pub next_row : Vga → Vga
next_row s = record s {
  vga_row = if leb vga_rows (s.vga_row + 1) then 0 else s.vga_row + 1;
  vga_col = 0;
}

pub vga_putchar : Vga → ℕ → ℕ → Vga
vga_putchar s c colour =
    if c == b'\n'
    then next_row s
    else let put = record s {
      cells = store8 s.cells (s.vga_row * vga_cols + s.vga_col) (u16 (bit_or colour c));
    } in
      if leb vga_cols (s.vga_col + 1) then next_row put else record put { vga_col = s.vga_col + 1 }

pub vga_puts : Vga → List ℕ → ℕ → Vga
vga_puts s [] colour = s
vga_puts s (c ∷ text) colour = vga_puts (vga_putchar s c colour) text colour

pub vga_clear : Vga → Vga
vga_clear s = record {
  vga_row = 0;
  vga_col = 0;
  cells = fill_line s.cells 0 (bit_or 0x0700 b' ') 0 (vga_cols * vga_rows);
}

-- The loop, from the highest of `left` digits down.
pub puthex_loop : ℕ → Vga → ℕ → ℕ → Vga
puthex_loop zero s v colour = s
puthex_loop (suc left) s v colour =
    puthex_loop left (vga_putchar s (hex_digit (bit_and (v >>> 4 * left) 0xF)) colour) v colour

pub vga_puthex : Vga → ℕ → ℕ → Vga
vga_puthex s v colour = puthex_loop 16 (vga_puts s (codes "0x") colour) v colour

-- `v` is below 2 ^ 64, so that the 20 places of `buf` are enough.
pub vga_putdec : Vga → ℕ → ℕ → Vga
vga_putdec s v colour = vga_puts s (dec_text v) colour

-- PIT_CAL_COUNT
abbrev pub pit_cal_count : ℕ
pit_cal_count = 11931

pub pit_tsc_to_mhz : ℕ → ℕ
pit_tsc_to_mhz tsc_10ms = u64 (tsc_10ms * 1193182) / (pit_cal_count * 1000000)
