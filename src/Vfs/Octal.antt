-- ===== src/Vfs/Octal.antt =====
-- `vfs_octal` reads what an octal field was written from.
use samos.Base.{
  ℕ, zero, suc, ◌+◌, ◌-◌, ◌*◌, ◌/◌, ◌%◌, ◌^◌, ◌≤◌, ◌<◌, ◌≡◌, sym, ◌∙◌, ap, arith, ◌⊎◌, inl, inr,
  false, ◌||◌, ltb, Memory, bit_or, u64, bit_or-fields,
}
use native.Mathlib.Nat.{pow-suc, div-div-eq-div-mul, div-eq_of_lt}
use samos.Vfs.{octal_loop, vfs_octal}

-- Digit `i`, from the left, of `n` as an octal number of `k` digits, in ASCII.
abbrev pub octal_digit : ℕ → ℕ → ℕ → ℕ
octal_digit n k i = 48 + n / 8 ^ (k - 1 - i) % 8

push_digit : (n a : ℕ) → n < 2 ^ 61 → a < 8 → bit_or (u64 (n * 8)) a ≡ n * 8 + a
push_digit n a h d =
    let w : u64 (n * 8) ≡ n * 2 ^ 3 = omega arith in rw w (bit_or-fields 3 n a (omega arith))

prefix-div : (n j : ℕ) → n / 8 ^ suc j ≡ n / 8 ^ j / 8
prefix-div n j =
    let e : 8 ^ suc j ≡ 8 ^ j * 8 = rw (pow-suc 8 j) (omega arith) in
    rw e (sym (div-div-eq-div-mul n (8 ^ j) 8))

prefix_le : (n j : ℕ) → n / 8 ^ j ≤ n
prefix_le n j = grind arith

digit_back : (q : ℕ) → q < 2 ^ 61 → bit_or (u64 (q / 8 * 8)) (48 + q % 8 - 48) ≡ q
digit_back q h =
    ap (bit_or (u64 (q / 8 * 8))) (omega arith)
    ∙ push_digit (q / 8) (q % 8) (omega arith) (omega arith)
    ∙ omega arith

-- What ends the digits: the end of the field, or a byte below '0' such as NUL or space.
octal_loop-prefix :
    (m : Memory) (s j len n : ℕ)
    → n < 2 ^ 61
    → ((i : ℕ) → i < j → m (s + i) ≡ octal_digit n j i)
    → j ≤ len
    → (j ≡ len) ⊎ (m (s + j) < 48)
    → octal_loop m s len (n / 8 ^ j) ≡ n
unfolding octal_loop
octal_loop-prefix m s zero zero n small digits fits stop = omega arith
octal_loop-prefix m s zero (suc len) n small digits fits stop = (ground arith)
octal_loop-prefix m s (suc j) zero n small digits fits stop = absurd (omega arith)
octal_loop-prefix m s (suc j) (suc len) n small digits fits stop =
    let z : s + 0 ≡ s = omega arith in
    let here : m s ≡ 48 + n / 8 ^ j % 8 =
      ap m (sym z) ∙ digits 0 (omega arith) ∙ ap (λ i. 48 + n / 8 ^ i % 8) (omega arith) in
    let e : s + 1 + j ≡ s + suc j = omega arith in
    let rest =
      octal_loop-prefix m (s + 1) j len n small
        (λ i l.
          ap m (omega arith)
          ∙ digits (suc i) (omega arith)
          ∙ ap (λ q. 48 + n / 8 ^ q % 8) (omega arith))
        (omega arith) (elim stop [ inl q ↦ inl (omega arith) | inr l ↦ inr (rw e l) ]) in
    let push : bit_or (u64 (n / 8 ^ suc j * 8)) (m s - 48) ≡ n / 8 ^ j =
      rw (prefix-div n j, here) (digit_back (n / 8 ^ j) (omega (arith, prefix_le n j))) in
    let digit : (ltb (m s) 48 || ltb 55 (m s)) ≡ false = ground arith in rw (digit, push) rest

-- A number written in octal digits into a field, with a NUL or a blank behind it if the field is
-- longer, is the number that `vfs_octal` reads from the field.
pub vfs_octal-octal_digit :
    (m : Memory) (s k len n : ℕ)
    → n < 2 ^ 61
    → n < 8 ^ k
    → ((i : ℕ) → i < k → m (s + i) ≡ octal_digit n k i)
    → k ≤ len
    → (k ≡ len) ⊎ (m (s + k) < 48)
    → vfs_octal m s len ≡ n
unfolding vfs_octal
vfs_octal-octal_digit m s k len n small fits digits h stop =
    ap (octal_loop m s len) (sym (div-eq_of_lt fits))
    ∙ octal_loop-prefix m s k len n small digits h stop
