-- ===== src/Serial/Tests.antt =====
-- Printed numbers at concrete values.
use samos.Base.{◌≡◌, refl}
use samos.Serial.{
  codes, serial_putchar, serial_puts, hex_digit, hex_digits, serial_puthex, dec_digits,
  serial_putdec,
}

prints :
    (serial_putdec 1024 ≡ codes "1024")
    × (serial_putdec 0 ≡ codes "0")
    × (serial_puthex 0x19000000 ≡ codes "0x0000000019000000")
    × (serial_puts (codes "OK\n") ≡ codes "OK\r\n")
unfolding serial_putdec dec_digits serial_puthex hex_digits hex_digit serial_puts serial_putchar
prints = (refl, refl, refl, refl)
