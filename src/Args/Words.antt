-- ===== src/Args/Words.antt =====
-- Words written to and read from byte memory.
use samos.Base.{
  ℕ, ◌+◌, ◌-◌, ◌*◌, ◌/◌, ◌%◌, ◌^◌, ◌<◌, ◌≤◌, ◌≡◌, ◌⊎◌, refl, ◌∙◌, arith, true, ◌&&◌, leb, ltb,
  Memory, load64, add64,
}
use samos.Args.{store_word}

pub store_word-other : (m : Memory) (p v x : ℕ) → (x < p) ⊎ (p + 8 ≤ x) → store_word m p v x ≡ m x
store_word-other m p v x h = ground arith

byte : (m : Memory) (p v k : ℕ) → k < 8 → store_word m p v (p + k) ≡ v / 2 ^ (8 * k) % 256
byte m p v k h =
    let e : p + k - p ≡ k = omega arith in
    let t : (leb p (p + k) && ltb (p + k) (p + 8)) ≡ true = ground arith in rw (t, e) refl

-- The eight bytes of a word.
load64-bytes :
    (m : Memory) (p : ℕ)
    → p + 8 ≤ 2 ^ 64
    → load64 m p
      ≡ m (p + 0)
        + 2 ^ 8 * m (p + 1)
        + 2 ^ 16 * m (p + 2)
        + 2 ^ 24 * m (p + 3)
        + 2 ^ 32 * m (p + 4)
        + 2 ^ 40 * m (p + 5)
        + 2 ^ 48 * m (p + 6)
        + 2 ^ 56 * m (p + 7)
load64-bytes m p f =
    let e0 : p + 0 ≡ p = omega arith in
    let e1 : add64 p 1 ≡ p + 1 = omega arith in
    let e2 : add64 p 2 ≡ p + 2 = omega arith in
    let e3 : add64 (p + 2) 1 ≡ p + 3 = omega arith in
    let e4 : add64 p 4 ≡ p + 4 = omega arith in
    let e5 : add64 (p + 4) 1 ≡ p + 5 = omega arith in
    let e6 : add64 (p + 4) 2 ≡ p + 6 = omega arith in
    let e7 : add64 (p + 6) 1 ≡ p + 7 = omega arith in
    rw (e0, e4, e2, e1, e6, e3, e5, e7) (omega arith)

pub load64-store_word :
    (m : Memory) (p v : ℕ) → p + 8 ≤ 2 ^ 64 → v < 2 ^ 64 → load64 (store_word m p v) p ≡ v
load64-store_word m p v f h =
    load64-bytes (store_word m p v) p f
    ∙ omega (
      arith,
      byte m p v 0 (omega arith),
      byte m p v 1 (omega arith),
      byte m p v 2 (omega arith),
      byte m p v 3 (omega arith),
      byte m p v 4 (omega arith),
      byte m p v 5 (omega arith),
      byte m p v 6 (omega arith),
      byte m p v 7 (omega arith),
    )
