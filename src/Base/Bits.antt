-- ===== src/Base/Bits.antt =====
-- `&` and `|` at variables: the law of the lowest binary digit, and what follows for masks.
use Prim.Native.Nat.{
  ℕ, zero, suc, ◌+◌, ◌-◌, ◌*◌, ◌/◌, ◌%◌, ◌^◌, ◌≤◌, ◌<◌, min, max, digits, bitwise, bit_and, bit_or,
  bit_and-bitwise, bit_or-bitwise,
}
use mathlib.Core.Path.{◌≡◌, refl, sym, ap, ap₂, ◌∙◌}
use native.Mathlib.Nat.{pow-suc, pow-succ', one-le-pow, div-div-eq-div-mul, mod-eq_of_lt}
use native.Mathlib.Omega.{arith}

-- `digits` takes fuel; any fuel that covers the first number gives the same digits.
module _ (rest : ℕ → ℕ) (digit : ℕ → ℕ → ℕ) where
  any_fuel : (a b n n' : ℕ) → a ≤ n → a ≤ n' → digits rest digit n a b ≡ digits rest digit n' a b
  any_fuel a b zero zero h h' = refl
  any_fuel zero b zero (suc n') h h' = refl
  any_fuel (suc a) b zero (suc n') h h' = absurd (omega arith)
  any_fuel zero b (suc n) zero h h' = refl
  any_fuel (suc a) b (suc n) zero h h' = absurd (omega arith)
  any_fuel zero b (suc n) (suc n') h h' = refl
  any_fuel (suc a) b (suc n) (suc n') h h' =
      rw (any_fuel (suc a / 2) (b / 2) n n' (omega arith) (omega arith))

  bitwise-digit :
      (a b : ℕ)
      → bitwise rest digit (suc a) b
        ≡ bitwise rest digit (suc a / 2) (b / 2) * 2 + digit (suc a % 2) (b % 2)
  bitwise-digit a b =
      omega (arith, any_fuel (suc a / 2) (b / 2) a (suc a / 2) (omega arith) (omega arith))

pub bit_and-digit : (a b : ℕ) → bit_and a b ≡ bit_and (a / 2) (b / 2) * 2 + min (a % 2) (b % 2)
bit_and-digit zero b = simp bit_and-bitwise (omega arith)
bit_and-digit (suc a) b = simp bit_and-bitwise (bitwise-digit (λ _. 0) min a b)

pub bit_or-digit : (a b : ℕ) → bit_or a b ≡ bit_or (a / 2) (b / 2) * 2 + max (a % 2) (b % 2)
bit_or-digit zero b = simp bit_or-bitwise (omega arith)
bit_or-digit (suc a) b = simp bit_or-bitwise (bitwise-digit (λ y. y) max a b)

bit_and-zero_below : (n a : ℕ) → a ≤ n → bit_and a 0 ≡ 0
bit_and-zero_below n zero h = refl
bit_and-zero_below zero (suc a) h = absurd (omega arith)
bit_and-zero_below (suc n) (suc a) h =
    omega (arith, bit_and-digit (suc a) 0, bit_and-zero_below n (suc a / 2) (omega arith))

pub bit_and-zero : (a : ℕ) → bit_and a 0 ≡ 0
bit_and-zero a = bit_and-zero_below a a (omega arith)

bit_or-zero_below : (n a : ℕ) → a ≤ n → bit_or a 0 ≡ a
bit_or-zero_below n zero h = refl
bit_or-zero_below zero (suc a) h = absurd (omega arith)
bit_or-zero_below (suc n) (suc a) h =
    omega (arith, bit_or-digit (suc a) 0, bit_or-zero_below n (suc a / 2) (omega arith))

pub bit_or-zero : (a : ℕ) → bit_or a 0 ≡ a
bit_or-zero a = bit_or-zero_below a a (omega arith)

-- A mask of `k` ones keeps the remainder: first with the number given by its quotient.
mask_of_fields : (k q r : ℕ) → r < 2 ^ k → bit_and (q * 2 ^ k + r) (2 ^ k - 1) ≡ r
mask_of_fields zero q r h = rw bit_and-zero (omega arith)
mask_of_fields (suc k) q r h =
    let double : q * 2 ^ suc k ≡ 2 * (q * 2 ^ k) = rw (pow-suc 2 k) (omega arith) in
    let half : 2 ^ suc k ≡ 2 * 2 ^ k = rw (pow-suc 2 k) (omega arith) in
    let e : (q * 2 ^ suc k + r) / 2 ≡ q * 2 ^ k + r / 2 = omega arith in
    let pos : 1 ≤ 2 ^ k = one-le-pow k 2 (omega arith) in
    let e' : (2 ^ suc k - 1) / 2 ≡ 2 ^ k - 1 = omega arith in
    omega (
      arith,
      bit_and-digit (q * 2 ^ suc k + r) (2 ^ suc k - 1),
      ap₂ bit_and e e',
      mask_of_fields k q (r / 2) (omega arith),
    )

pub bit_and-mask : (k a : ℕ) → bit_and a (2 ^ k - 1) ≡ a % 2 ^ k
bit_and-mask k a =
    let pos : 1 ≤ 2 ^ k = one-le-pow k 2 (omega arith) in
    let split : a ≡ a / 2 ^ k * 2 ^ k + a % 2 ^ k = omega arith in
    ap (λ x. bit_and x (2 ^ k - 1)) split ∙ mask_of_fields k (a / 2 ^ k) (a % 2 ^ k) (omega arith)

-- A mask whose `k` low digits are zero is a mask of the shifted number.
pub bit_and-shift : (k a m : ℕ) → bit_and a (m * 2 ^ k) ≡ bit_and (a / 2 ^ k) m * 2 ^ k
bit_and-shift zero a m =
    let e : m * 2 ^ 0 ≡ m = omega arith in
    let e' : a / 2 ^ 0 ≡ a = omega arith in rw (e, e') (omega arith)
bit_and-shift (suc k) a m =
    let double : m * 2 ^ suc k ≡ 2 * (m * 2 ^ k) = rw (pow-suc 2 k) (omega arith) in
    let e : m * 2 ^ suc k / 2 ≡ m * 2 ^ k = omega arith in
    let e' : a / 2 / 2 ^ k ≡ a / 2 ^ suc k =
      div-div-eq-div-mul a 2 (2 ^ k) ∙ ap (λ t. a / t) (sym (pow-succ' 2 k)) in
    bit_and-digit a (m * 2 ^ suc k)
    ∙ rw (e, bit_and-shift k (a / 2) m, e', pow-suc 2 k) (omega (arith, double))

-- `a & ~(2 ^ k - 1)` in a word of `w` bits clears the `k` low digits.
pub bit_and-align :
    (k n a : ℕ) → a / 2 ^ k < 2 ^ n → bit_and a ((2 ^ n - 1) * 2 ^ k) ≡ a / 2 ^ k * 2 ^ k
bit_and-align k n a h =
    bit_and-shift k a (2 ^ n - 1) ∙ rw (bit_and-mask n (a / 2 ^ k), mod-eq_of_lt h)

-- Disjoint fields are joined by `|` as by `+`.
pub bit_or-fields : (k q r : ℕ) → r < 2 ^ k → bit_or (q * 2 ^ k) r ≡ q * 2 ^ k + r
bit_or-fields zero q r h = let e : r ≡ 0 = omega arith in rw (e, bit_or-zero) (omega arith)
bit_or-fields (suc k) q r h =
    let double : q * 2 ^ suc k ≡ 2 * (q * 2 ^ k) = rw (pow-suc 2 k) (omega arith) in
    let half : 2 ^ suc k ≡ 2 * 2 ^ k = rw (pow-suc 2 k) (omega arith) in
    let e : q * 2 ^ suc k / 2 ≡ q * 2 ^ k = omega arith in
    omega (
      arith,
      bit_or-digit (q * 2 ^ suc k) r,
      ap (λ x. bit_or x (r / 2)) e,
      bit_or-fields k q (r / 2) (omega arith),
    )

zero_bit_or : (b : ℕ) → bit_or 0 b ≡ b
zero_bit_or b = simp bit_or-bitwise refl

bit_or_comm_below : (n a b : ℕ) → a ≤ n → bit_or a b ≡ bit_or b a
bit_or_comm_below n zero b h = zero_bit_or b ∙ sym (bit_or-zero b)
bit_or_comm_below zero (suc a) b h = absurd (omega arith)
bit_or_comm_below (suc n) (suc a) b h = omega (
  arith,
  bit_or-digit (suc a) b,
  bit_or-digit b (suc a),
  bit_or_comm_below n (suc a / 2) (b / 2) (omega arith),
)

pub bit_or_comm : (a b : ℕ) → bit_or a b ≡ bit_or b a
bit_or_comm a b = bit_or_comm_below a a b (omega arith)
