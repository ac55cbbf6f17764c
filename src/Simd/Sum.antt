-- ===== src/Simd/Sum.antt =====
-- kernel/simd.h: sums of 32-bit words, read modulo 2 ^ 32.
use samos.Base.{
  ℕ, zero, suc, ◌+◌, ◌*◌, ◌%◌, ◌^◌, ◌<◌, ◌≡◌, refl, sym, Bool-cases, inl, inr, ap, ◌∙◌, arith, ltb,
  add32, u32, Memory, IsBytes,
}
use samos.Simd.{sext8, dot_loop, sam_int8_dot_scalar, sum_loop}

-- f i + ... + f (i + n - 1)
abbrev pub sum_range : (ℕ → ℕ) → ℕ → ℕ → ℕ
sum_range f i zero = 0
sum_range f i (suc n) = sum_range f i n + f (i + n)

-- The dot product of `n` pairs, as a sum.
abbrev pub dot_sum : Memory → Memory → ℕ → ℕ → ℕ
dot_sum a b i n = sum_range (λ k. sext8 (a k) * sext8 (b k)) i n

pub sum_range-front : (f : ℕ → ℕ) (i n : ℕ) → sum_range f i (suc n) ≡ f i + sum_range f (i + 1) n
sum_range-front f i zero = let e : i + 0 ≡ i = omega arith in omega (arith, ap f e)
sum_range-front f i (suc n) =
    let e : i + suc n ≡ i + 1 + n = omega arith in omega (arith, sum_range-front f i n, ap f e)

pub sum_range-append :
    (f : ℕ → ℕ) (i m n : ℕ) → sum_range f i (m + n) ≡ sum_range f i m + sum_range f (i + m) n
sum_range-append f i m zero =
    let e : m + 0 ≡ m = omega arith in omega (arith, ap (λ q. sum_range f i q) e)
sum_range-append f i m (suc n) =
    let e : m + suc n ≡ suc (m + n) = omega arith in
    let g : i + (m + n) ≡ i + m + n = omega arith in
    omega (arith, ap (λ q. sum_range f i q) e, ap f g, sum_range-append f i m n)

mod_step : (acc t rest : ℕ) → (add32 acc (u32 t) + rest) % 2 ^ 32 ≡ (acc + (t + rest)) % 2 ^ 32
mod_step acc t rest = omega arith

dot_loop-sum :
    (a b : Memory) (n acc i : ℕ)
    → acc < 2 ^ 32
    → dot_loop a b acc i n ≡ (acc + dot_sum a b i n) % 2 ^ 32
unfolding dot_loop
dot_loop-sum a b zero acc i h = omega arith
dot_loop-sum a b (suc n) acc i h =
    let t = sum_range-front (λ k. sext8 (a k) * sext8 (b k)) i n in
    dot_loop-sum a b n (add32 acc (u32 (sext8 (a i) * sext8 (b i)))) (i + 1) (omega arith)
    ∙ (mod_step acc (sext8 (a i) * sext8 (b i)) (dot_sum a b (i + 1) n)
        ∙ ap (λ q. (acc + q) % 2 ^ 32) (sym t))

pub sam_int8_dot_scalar-sum :
    (a b : Memory) (n : ℕ) → sam_int8_dot_scalar a b n ≡ dot_sum a b 0 n % 2 ^ 32
unfolding sam_int8_dot_scalar
sam_int8_dot_scalar-sum a b n = omega (arith, dot_loop-sum a b n 0 0 (omega arith))

sum_loop-sum :
    (b : Memory) (n acc j : ℕ)
    → acc < 2 ^ 32
    → sum_loop b acc j n ≡ (acc + sum_range (λ k. sext8 (b k)) j n) % 2 ^ 32
unfolding sum_loop
sum_loop-sum b zero acc j h = omega arith
sum_loop-sum b (suc n) acc j h =
    let t = sum_range-front (λ k. sext8 (b k)) j n in
    sum_loop-sum b n (add32 acc (sext8 (b j))) (j + 1) (omega arith)
    ∙ (mod_plain acc (sext8 (b j)) (sum_range (λ k. sext8 (b k)) (j + 1) n)
        ∙ ap (λ q. (acc + q) % 2 ^ 32) (sym t))
  where
    mod_plain : (acc t rest : ℕ) → (add32 acc t + rest) % 2 ^ 32 ≡ (acc + (t + rest)) % 2 ^ 32
    mod_plain acc t rest = omega arith

pub sum_loop-range :
    (b : Memory) (n : ℕ) → sum_loop b 0 0 n ≡ sum_range (λ k. sext8 (b k)) 0 n % 2 ^ 32
sum_loop-range b n = omega (arith, sum_loop-sum b n 0 0 (omega arith))

-- The products with `a` biased by 128, as PMADDUBSW sees it.
abbrev pub biased : ℕ → ℕ
biased x = (x + 128) % 256

abbrev pub biased_sum : Memory → Memory → ℕ → ℕ → ℕ
biased_sum a b i n = sum_range (λ k. biased (a k) * sext8 (b k)) i n

product_shift : (u c s : ℕ) → (u + c) * s ≡ u * s + c * s
product_shift u c s = grind arith

term-biased : (x s : ℕ) → x < 256 → biased x * s % 2 ^ 32 ≡ (sext8 x * s + 128 * s) % 2 ^ 32
term-biased x s h =
    let shift = product_shift (sext8 x) 128 s in
    elim (Bool-cases (ltb x 128)) [
      | inl e ↦
          let same : biased x ≡ sext8 x + 128 = ground arith in omega (arith, ap (λ q. q * s) same)
      | inr e ↦
          let wrap : sext8 x + 128 ≡ biased x + 4294967296 = ground arith in
          omega (arith, ap (λ q. q * s) wrap, product_shift (biased x) 4294967296 s)
    ]

-- The bias adds 128 times the sum of `b` to the dot product.
pub biased_sum-dot_sum :
    (a b : Memory) (i n : ℕ)
    → IsBytes a
    → biased_sum a b i n % 2 ^ 32
      ≡ (dot_sum a b i n + 128 * sum_range (λ k. sext8 (b k)) i n) % 2 ^ 32
biased_sum-dot_sum a b i zero h = refl
biased_sum-dot_sum a b i (suc n) h =
    omega
      (arith, biased_sum-dot_sum a b i n h, term-biased (a (i + n)) (sext8 (b (i + n))) (h (i + n)))
