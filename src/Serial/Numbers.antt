-- ===== src/Serial/Numbers.antt =====
-- The printed numbers, read back.
use native.Mathlib.Nat.{pow-suc}
use samos.Base.{
  ℕ, zero, suc, ◌+◌, ◌-◌, ◌*◌, ◌/◌, ◌%◌, ◌^◌, ◌<◌, ◌≤◌, ◌≡◌, refl, arith, ◌∙◌, ap, List, [], ◌∷◌,
  ◌==◌, All, Bool-cases, inl, inr,
}
use samos.Serial.{serial_putchar, serial_puts, dec_digits, serial_putdec}

-- The number that decimal digits stand for, behind `acc`.
abbrev pub read_dec : ℕ → List ℕ → ℕ
read_dec acc [] = acc
read_dec acc (c ∷ s) = read_dec (10 * acc + (c - b'0')) s

-- Every character is a decimal digit.
abbrev pub IsDigits : List ℕ → Type 0
IsDigits s = All (λ c. (b'0' ≤ c) × (c ≤ b'9')) s

pub serial_puts-digits : (s : List ℕ) → IsDigits s → serial_puts s ≡ s
unfolding serial_puts serial_putchar
serial_puts-digits [] h = refl
serial_puts-digits (c ∷ s) h = ground (arith, serial_puts-digits s h.1)

pub dec_digits-IsDigits : (i v : ℕ) (text : List ℕ) → IsDigits text → IsDigits (dec_digits i v text)
unfolding dec_digits
dec_digits-IsDigits zero v text h = h
dec_digits-IsDigits (suc i) v text h = elim (Bool-cases (v == 0)) [
  | inl e ↦ rw e h
  | inr e ↦ rw e (dec_digits-IsDigits i (v / 10) _ (omega arith, h))
]

-- The accumulator that reading starts with, after `v` has been printed in front of the text.
read_dec-dec_digits :
    (i v : ℕ) (text : List ℕ) → v < 10 ^ i → read_dec 0 (dec_digits i v text) ≡ read_dec v text
unfolding dec_digits
read_dec-dec_digits zero v text h = ap (λ a. read_dec a text) (omega arith)
read_dec-dec_digits (suc i) v text h = elim (Bool-cases (v == 0)) [
  | inl e ↦ rw e (ap (λ a. read_dec a text) (ground arith))
  | inr e ↦ rw e (
      read_dec-dec_digits i (v / 10) ((b'0' + v % 10) ∷ text) (omega (arith, pow-suc 10 i))
      ∙ ap (λ a. read_dec a text) (omega arith))
]

-- `serial_putdec` prints every uint64_t in decimal: digits only, and they read back as the number.
pub read_dec-serial_putdec :
    (v : ℕ) → v < 2 ^ 64 → IsDigits (serial_putdec v) × (read_dec 0 (serial_putdec v) ≡ v)
unfolding serial_putdec
read_dec-serial_putdec v h = elim (Bool-cases (v == 0)) [
  | inl e ↦ rw e (unfold serial_putchar in (omega arith, ground arith))
  | inr e ↦
      rw (e, serial_puts-digits (dec_digits 20 v []) (dec_digits-IsDigits 20 v [] tt))
        (dec_digits-IsDigits 20 v [] tt, read_dec-dec_digits 20 v [] (omega arith))
]
