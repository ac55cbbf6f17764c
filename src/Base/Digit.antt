-- ===== src/Base/Digit.antt =====
-- The binary digits of a number, and what `|` and `&` do to them.
use Prim.Native.Nat.{ℕ, zero, suc, ◌*◌, ◌/◌, ◌%◌, ◌^◌, ◌≤◌, ◌<◌, max, bit_and, bit_or}
use mathlib.Core.Path.{◌≡◌, refl, sym, ap, ◌∙◌}
use mathlib.Core.Logic.{◌≢◌}
use native.Mathlib.Nat.{pow-suc, pow-succ', one-le-pow, div-div-eq-div-mul}
use native.Mathlib.Omega.{arith}
use samos.Base.Bits.{bit_and-shift, bit_and-mask, bit_or-digit}

-- Digit `j` of a number.
abbrev pub digit_of : ℕ → ℕ → ℕ
digit_of x j = x / 2 ^ j % 2

halve : (x j : ℕ) → x / 2 ^ suc j ≡ x / 2 / 2 ^ j
halve x j = sym (div-div-eq-div-mul x 2 (2 ^ j) ∙ ap (λ t. x / t) (sym (pow-succ' 2 j)))

pub bit_and-pow : (x j : ℕ) → bit_and x (2 ^ j) ≡ digit_of x j * 2 ^ j
bit_and-pow x j =
    let one : 1 * 2 ^ j ≡ 2 ^ j = omega arith in
    ap (bit_and x) (sym one)
    ∙ bit_and-shift j x 1
    ∙ ap (λ t. t * 2 ^ j) (bit_and-mask 1 (x / 2 ^ j))

pub digit_of-bit_or : (x y j : ℕ) → digit_of (bit_or x y) j ≡ max (digit_of x j) (digit_of y j)
digit_of-bit_or x y zero = omega (arith, bit_or-digit x y)
digit_of-bit_or x y (suc j) =
    let e : bit_or x y / 2 ≡ bit_or (x / 2) (y / 2) = omega (arith, bit_or-digit x y) in
    rw (halve (bit_or x y) j, halve x j, halve y j, e) (digit_of-bit_or (x / 2) (y / 2) j)

pub digit_of-pow_self : (j : ℕ) → digit_of (2 ^ j) j ≡ 1
digit_of-pow_self zero = refl
digit_of-pow_self (suc j) =
    let e : 2 ^ suc j / 2 ≡ 2 ^ j = rw (pow-suc 2 j) (omega arith) in
    rw (halve (2 ^ suc j) j, e) (digit_of-pow_self j)

pub digit_of-pow_ne : (i j : ℕ) → i ≢ j → digit_of (2 ^ i) j ≡ 0
digit_of-pow_ne zero zero h = absurd (h refl)
digit_of-pow_ne zero (suc j) h =
    let p : 1 ≤ 2 ^ j = one-le-pow j 2 (omega arith) in
    let e : 1 / 2 ≡ 0 = refl in rw (halve 1 j, e) (omega arith)
digit_of-pow_ne (suc i) zero h = rw (pow-suc 2 i) (omega arith)
digit_of-pow_ne (suc i) (suc j) h =
    let e : 2 ^ suc i / 2 ≡ 2 ^ i = rw (pow-suc 2 i) (omega arith) in
    rw (halve (2 ^ suc i) j, e) (digit_of-pow_ne i j (λ q. h (ap suc q)))

-- The digits of a byte are those of the number that it was cut from.
pub digit_of-u8 : (x j : ℕ) → j < 8 → digit_of (x % 2 ^ 8) j ≡ digit_of x j
digit_of-u8 x zero h = omega arith
digit_of-u8 x (suc zero) h = omega arith
digit_of-u8 x (suc (suc zero)) h = omega arith
digit_of-u8 x (suc (suc (suc zero))) h = omega arith
digit_of-u8 x (suc (suc (suc (suc zero)))) h = omega arith
digit_of-u8 x (suc (suc (suc (suc (suc zero))))) h = omega arith
digit_of-u8 x (suc (suc (suc (suc (suc (suc zero)))))) h = omega arith
digit_of-u8 x (suc (suc (suc (suc (suc (suc (suc zero))))))) h = omega arith
digit_of-u8 x (suc (suc (suc (suc (suc (suc (suc (suc j)))))))) h = absurd (omega arith)
