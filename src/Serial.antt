-- ===== src/Serial.antt =====
-- kernel/main.c: what serial_putchar, serial_puts, serial_puthex and serial_putdec send to COM1, as
-- the list of the bytes written to the data port. Waiting for the port to be ready is left out.
pub mod Numbers
mod Tests
use Prim.Native.Char.{code}
use Prim.Native.String.{String}
use samos.Base.{
  ℕ, zero, suc, ◌+◌, ◌*◌, ◌/◌, ◌%◌, List, [], ◌∷◌, ◌++◌, ◌==◌, if◌then◌else◌, bit_and, get_or,
  ◌>>>◌,
}

-- The bytes of an ASCII literal.
abbrev pub codes : String → List ℕ
codes String.[] = []
codes (String.◌∷◌ c s) = code c ∷ codes s

unfoldable pub serial_putchar : ℕ → List ℕ
serial_putchar c = if c == 10 then 13 ∷ 10 ∷ [] else c ∷ []

unfoldable pub serial_puts : List ℕ → List ℕ
unfolding serial_putchar
serial_puts [] = []
serial_puts (c ∷ s) = serial_putchar c ++ serial_puts s

-- h[d] for the literal h = "0123456789ABCDEF"
unfoldable pub hex_digit : ℕ → ℕ
hex_digit d = get_or (codes "0123456789ABCDEF") d 0

-- The last `n` rounds of the loop over i = 60, 56, ..., 0.
unfoldable pub hex_digits : ℕ → ℕ → List ℕ
hex_digits zero v = []
hex_digits (suc n) v = serial_putchar (hex_digit (bit_and (v >>> (4 * n)) 0xF)) ++ hex_digits n v

unfoldable pub serial_puthex : ℕ → List ℕ
serial_puthex v = serial_puts (codes "0x") ++ hex_digits 16 v

-- while (v && i > 0) { buf[--i] = '0' + (v % 10); v /= 10; }: the text at &buf[i] when it ends.
unfoldable pub dec_digits : ℕ → ℕ → List ℕ → List ℕ
dec_digits zero v text = text
dec_digits (suc i) v text =
    let rest = dec_digits i (v / 10) ((b'0' + v % 10) ∷ text) in if v == 0 then text else rest

unfoldable pub serial_putdec : ℕ → List ℕ
serial_putdec v = if v == 0 then serial_putchar b'0' else serial_puts (dec_digits 20 v [])
