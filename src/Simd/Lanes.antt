-- ===== src/Simd/Lanes.antt =====
-- kernel/simd.h: what the intrinsics are documented to do to the lanes of a register, and what one
-- round of the vector loop adds to the four sums.
use samos.Base.{
  ℕ, ◌+◌, ◌-◌, ◌*◌, ◌/◌, ◌%◌, ◌^◌, ◌<◌, ◌≤◌, ◌≡◌, ap, ap₂, ◌∙◌, arith, Bool-cases, inl, inr, ltb,
  leb, if◌then◌else◌, Memory, IsBytes,
}
use samos.Simd.{sext8, sext16, from, Intrinsics, block}
use samos.Simd.Sum.{biased, biased_sum}

-- The product of an unsigned and a signed byte, as what is added and what is subtracted.
abbrev pub plus_part : ℕ → ℕ → ℕ
plus_part u s = if ltb s 128 then u * s else 0

abbrev pub minus_part : ℕ → ℕ → ℕ
minus_part u s = if ltb s 128 then 0 else u * (256 - s)

-- The 16-bit pattern of p - m, saturated to a signed word.
abbrev pub saturated : ℕ → ℕ → ℕ
saturated p m =
    if leb m p
    then (if ltb 32767 (p - m) then 32767 else p - m)
    else if ltb 32768 (m - p)
    then 32768
    else 65536 - (m - p)

-- A 16-bit lane of PMADDUBSW, for two pairs of bytes.
abbrev pub saturated_pair : ℕ → ℕ → ℕ → ℕ → ℕ
saturated_pair u s u' s' =
    saturated (plus_part u s + plus_part u' s') (minus_part u s + minus_part u' s')

-- The lanes of 8, 16 and 32 bits of a register, lowest first.
pub record Lanes (V : Type 0) : Type 0 where
  pub epi8 : V → ℕ → ℕ
  pub epi16 : V → ℕ → ℕ
  pub epi32 : V → ℕ → ℕ

abbrev pub lane_sum : {V : Type 0} → Lanes V → V → ℕ
lane_sum l v = l.epi32 v 0 + l.epi32 v 1 + l.epi32 v 2 + l.epi32 v 3

-- The instruction set reference, for the intrinsics used.
pub record IsDocumented {V : Type 0} (x : Intrinsics V) (l : Lanes V) : Type 0 where
  pub setzero_lanes : (i : ℕ) → i < 4 → l.epi32 x.mm_setzero_si128 i ≡ 0
  pub set1_epi16_lanes : (n i : ℕ) → n < 65536 → i < 8 → l.epi16 (x.mm_set1_epi16 n) i ≡ n
  pub set1_epi8_lanes : (n i : ℕ) → n < 256 → i < 16 → l.epi8 (x.mm_set1_epi8 n) i ≡ n
  pub loadu_lanes : (p : Memory) (i : ℕ) → IsBytes p → i < 16 → l.epi8 (x.mm_loadu_si128 p) i ≡ p i
  pub add_epi8_lanes :
      (v w : V) (i : ℕ) → i < 16 → l.epi8 (x.mm_add_epi8 v w) i ≡ (l.epi8 v i + l.epi8 w i) % 256
  pub maddubs_lanes :
      (v w : V) (i : ℕ)
      → i < 8
      → l.epi16 (x.mm_maddubs_epi16 v w) i
        ≡ saturated
            (plus_part (l.epi8 v (2 * i)) (l.epi8 w (2 * i))
              + plus_part (l.epi8 v (2 * i + 1)) (l.epi8 w (2 * i + 1)))
            (minus_part (l.epi8 v (2 * i)) (l.epi8 w (2 * i))
              + minus_part (l.epi8 v (2 * i + 1)) (l.epi8 w (2 * i + 1)))
  pub madd_lanes :
      (v w : V) (i : ℕ)
      → i < 4
      → l.epi32 (x.mm_madd_epi16 v w) i
        ≡ (sext16 (l.epi16 v (2 * i)) * sext16 (l.epi16 w (2 * i))
            + sext16 (l.epi16 v (2 * i + 1)) * sext16 (l.epi16 w (2 * i + 1)))
          % 2 ^ 32
  pub add_epi32_lanes :
      (v w : V) (i : ℕ)
      → i < 4
      → l.epi32 (x.mm_add_epi32 v w) i ≡ (l.epi32 v i + l.epi32 w i) % 2 ^ 32
  pub shuffle_lanes :
      (v : V) (c i : ℕ) → i < 4 → l.epi32 (x.mm_shuffle_epi32 v c) i ≡ l.epi32 v (c / 4 ^ i % 4)
  pub cvtsi128_lanes : (v : V) → x.mm_cvtsi128_si32 v ≡ l.epi32 v 0

-- The products at `k` and `k + 1` have a sum that fits in a signed 16-bit word.
pub record FitsPair (a b : Memory) (k : ℕ) : Type 0 where
  pub not_above :
      plus_part (biased (a k)) (b k) + plus_part (biased (a (k + 1))) (b (k + 1))
      ≤ minus_part (biased (a k)) (b k) + minus_part (biased (a (k + 1))) (b (k + 1)) + 32767
  pub not_below :
      minus_part (biased (a k)) (b k) + minus_part (biased (a (k + 1))) (b (k + 1))
      ≤ plus_part (biased (a k)) (b k) + plus_part (biased (a (k + 1))) (b (k + 1)) + 32768

distrib : (u x y : ℕ) → u * x + u * y ≡ u * (x + y)
distrib u x y = grind arith

product_wraps : (u s : ℕ) → s ≤ 256 → u * (s + 4294967040) + u * (256 - s) ≡ u * 4294967296
product_wraps u s h =
    let whole : s + 4294967040 + (256 - s) ≡ 4294967296 = omega arith in
    distrib u (s + 4294967040) (256 - s) ∙ ap (λ q. u * q) whole

-- A product, modulo 2 ^ 32, is its two parts' difference.
product_parts :
    (u s : ℕ) → s < 256 → (u * sext8 s + minus_part u s) % 2 ^ 32 ≡ plus_part u s % 2 ^ 32
product_parts u s h = elim (Bool-cases (ltb s 128)) [
  | inl e ↦ rw e (omega arith)
  | inr e ↦ rw e (omega (arith, product_wraps u s (omega arith)))
]

-- Without saturation, a 16-bit lane is the sum of its two products.
saturated-fits :
    (p m : ℕ) → p ≤ m + 32767 → m ≤ p + 32768 → (sext16 (saturated p m) + m) % 2 ^ 32 ≡ p % 2 ^ 32
saturated-fits p m h k = ground arith

both_parts :
    (w p p' m m' y y' : ℕ)
    → (w + (m + m')) % 2 ^ 32 ≡ (p + p') % 2 ^ 32
    → (y + m) % 2 ^ 32 ≡ p % 2 ^ 32
    → (y' + m') % 2 ^ 32 ≡ p' % 2 ^ 32
    → w % 2 ^ 32 ≡ (y + y') % 2 ^ 32
both_parts w p p' m m' y y' h k k' = omega arith

two_lanes :
    (c w w' y y' : ℕ)
    → w % 2 ^ 32 ≡ y % 2 ^ 32
    → w' % 2 ^ 32 ≡ y' % 2 ^ 32
    → (c + (w * 1 + w' * 1) % 2 ^ 32) % 2 ^ 32 ≡ (c + y + y') % 2 ^ 32
two_lanes c w w' y y' h k = omega arith

module _ {V : Type 0} (x : Intrinsics V) (l : Lanes V) (d : IsDocumented x l) (a b : Memory)
    (ha : IsBytes a) (hb : IsBytes b) (acc : V) (i : ℕ) where
  -- The registers of one round.
  abbrev va_u : V
  va_u = x.mm_add_epi8 (x.mm_loadu_si128 (from a i)) (x.mm_set1_epi8 128)

  abbrev vb : V
  vb = x.mm_loadu_si128 (from b i)

  abbrev pub prod16 : V
  prod16 = x.mm_maddubs_epi16 va_u vb

  abbrev product : ℕ → ℕ
  product k = biased (a k) * sext8 (b k)

  va_u-lane : (k : ℕ) → k < 16 → l.epi8 va_u k ≡ biased (a (i + k))
  va_u-lane k h =
      d.add_epi8_lanes _ _ k h
      ∙ ap₂ (λ p q. (p + q) % 256) (d.loadu_lanes (from a i) k (λ q. ha (i + q)) h)
          (d.set1_epi8_lanes 128 k (omega arith) h)

  vb-lane : (k : ℕ) → k < 16 → l.epi8 vb k ≡ b (i + k)
  vb-lane k h = d.loadu_lanes (from b i) k (λ q. hb (i + q)) h

  -- Lane `t` of the 16-bit products.
  pub prod16-lane :
      (t : ℕ)
      → t < 8
      → l.epi16 prod16 t
        ≡ saturated_pair
            (biased (a (i + 2 * t)))
            (b (i + 2 * t))
            (biased (a (i + 2 * t + 1)))
            (b (i + 2 * t + 1))
  prod16-lane t h =
      let next : i + (2 * t + 1) ≡ i + 2 * t + 1 = omega arith in
      d.maddubs_lanes va_u vb t h
      ∙ (ap₂ (λ u s. saturated_pair u s (l.epi8 va_u (2 * t + 1)) (l.epi8 vb (2 * t + 1)))
            (va_u-lane (2 * t) (omega arith)) (vb-lane (2 * t) (omega arith))
          ∙ ap₂ (λ u s. saturated_pair (biased (a (i + 2 * t))) (b (i + 2 * t)) u s)
              (va_u-lane (2 * t + 1) (omega arith) ∙ ap (λ q. biased (a q)) next)
              (vb-lane (2 * t + 1) (omega arith) ∙ ap b next))

  prod16-sum :
      (t : ℕ)
      → t < 8
      → FitsPair a b (i + 2 * t)
      → sext16 (l.epi16 prod16 t) % 2 ^ 32
        ≡ (product (i + 2 * t) + product (i + 2 * t + 1)) % 2 ^ 32
  prod16-sum t h f =
      ap (λ q. sext16 q % 2 ^ 32) (prod16-lane t h)
      ∙ both_parts _ _ _ _ _ _ _ (saturated-fits _ _ f.not_above f.not_below)
          (product_parts (biased (a (i + 2 * t))) (b (i + 2 * t)) (hb (i + 2 * t)))
          (product_parts (biased (a (i + 2 * t + 1))) (b (i + 2 * t + 1)) (hb (i + 2 * t + 1)))

  -- A lane of the accumulator after the round.
  block-lane :
      (j : ℕ)
      → j < 4
      → FitsPair a b (i + 2 * (2 * j))
      → FitsPair a b (i + 2 * (2 * j + 1))
      → l.epi32 (block x a b acc i) j
        ≡ (l.epi32 acc j
            + (product (i + 2 * (2 * j)) + product (i + 2 * (2 * j) + 1))
            + (product (i + 2 * (2 * j + 1)) + product (i + 2 * (2 * j + 1) + 1)))
          % 2 ^ 32
  unfolding block
  block-lane j h f g =
      let one = λ (k : ℕ) (hk : k < 8). d.set1_epi16_lanes 1 k (omega arith) hk in
      d.add_epi32_lanes acc _ j h
      ∙ (ap (λ q. (l.epi32 acc j + q) % 2 ^ 32)
            (d.madd_lanes prod16 (x.mm_set1_epi16 1) j h
              ∙ ap₂
                  (λ p q.
                    (sext16 (l.epi16 prod16 (2 * j)) * sext16 p
                      + sext16 (l.epi16 prod16 (2 * j + 1)) * sext16 q)
                    % 2 ^ 32)
                  (one (2 * j) (omega arith)) (one (2 * j + 1) (omega arith)))
          ∙ two_lanes (l.epi32 acc j) _ _ _ _ (prod16-sum (2 * j) (omega arith) f)
              (prod16-sum (2 * j + 1) (omega arith) g))

  -- The four sums together grow by the sixteen products.
  abbrev four : ℕ → ℕ
  four j =
      product (i + 4 * j)
      + product (i + (4 * j + 1))
      + product (i + (4 * j + 2))
      + product (i + (4 * j + 3))

  block-four :
      (j : ℕ)
      → j < 4
      → ((t : ℕ) → t < 8 → FitsPair a b (i + 2 * t))
      → l.epi32 (block x a b acc i) j ≡ (l.epi32 acc j + four j) % 2 ^ 32
  block-four j h f =
      let at0 : i + 2 * (2 * j) ≡ i + 4 * j = omega arith in
      let at1 : i + 2 * (2 * j) + 1 ≡ i + (4 * j + 1) = omega arith in
      let at2 : i + 2 * (2 * j + 1) ≡ i + (4 * j + 2) = omega arith in
      let at3 : i + 2 * (2 * j + 1) + 1 ≡ i + (4 * j + 3) = omega arith in
      omega (
        arith,
        block-lane j h (f (2 * j) (omega arith)) (f (2 * j + 1) (omega arith)),
        ap product at0,
        ap product at1,
        ap product at2,
        ap product at3,
      )

  pub block-sum :
      ((t : ℕ) → t < 8 → FitsPair a b (i + 2 * t))
      → lane_sum l (block x a b acc i) % 2 ^ 32 ≡ (lane_sum l acc + biased_sum a b i 16) % 2 ^ 32
  block-sum f = omega (
    arith,
    block-four 0 (omega arith) f,
    block-four 1 (omega arith) f,
    block-four 2 (omega arith) f,
    block-four 3 (omega arith) f,
  )
