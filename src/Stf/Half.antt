-- ===== src/Stf/Half.antt =====
-- `fp16_to_fp32_bits` against the IEEE 754 reading of the two formats.
use samos.Base.{
  ℕ, zero, suc, ◌+◌, ◌-◌, ◌*◌, ◌/◌, ◌%◌, ◌^◌, ◌<◌, ◌≡◌, ◌≢◌, ◌⊎◌, inl, inr, ap, ◌∙◌, arith, ◌==◌,
  if◌then◌else◌, bit_or, bit_and-mask, bit_or-fields, ne→==, u32,
}
use native.Mathlib.Nat.{pow-suc, add-zero}
use samos.Stf.{fp16_to_fp32_bits, half_sign, half_exp, half_mant}

-- A binary floating-point word with `e` exponent and `f` fraction bits: its fields.
module _ (e f : ℕ) where
  abbrev pub sign_of : ℕ → ℕ
  sign_of w = w / 2 ^ (e + f)

  abbrev pub exp_of : ℕ → ℕ
  exp_of w = w / 2 ^ f % 2 ^ e

  abbrev pub frac_of : ℕ → ℕ
  frac_of w = w % 2 ^ f

  -- The magnitude of a finite word, in units of its smallest subnormal.
  pub magnitude : ℕ → ℕ
  magnitude w = if exp_of w == 0 then frac_of w else (2 ^ f + frac_of w) * 2 ^ (exp_of w - 1)

fields : (h : ℕ) → (half_exp h ≡ exp_of 5 10 h) × (half_mant h ≡ frac_of 5 10 h)
fields h = (bit_and-mask 5 (h / 2 ^ 10), bit_and-mask 10 h)

-- Three disjoint fields of a word of 32 bits.
join :
    (s e f : ℕ)
    → e < 256
    → f < 2 ^ 23
    → bit_or (bit_or (s * 2 ^ 31) (e * 2 ^ 23)) f ≡ s * 2 ^ 31 + e * 2 ^ 23 + f
join s e f he hf =
    let first : bit_or (s * 2 ^ 31) (e * 2 ^ 23) ≡ s * 2 ^ 31 + e * 2 ^ 23 =
      bit_or-fields 31 s (e * 2 ^ 23) (omega arith) in
    let split : s * 2 ^ 31 + e * 2 ^ 23 ≡ (s * 2 ^ 8 + e) * 2 ^ 23 = omega arith in
    rw (first, split) (bit_or-fields 23 (s * 2 ^ 8 + e) f hf)

parts :
    (h : ℕ)
    → h < 2 ^ 16
    → (u32 (half_sign h * 2 ^ 31) ≡ h / 2 ^ 15 * 2 ^ 31)
      × (u32 ((exp_of 5 10 h + 112) * 2 ^ 23) ≡ (exp_of 5 10 h + 112) * 2 ^ 23)
      × (u32 (frac_of 5 10 h * 2 ^ 13) ≡ frac_of 5 10 h * 2 ^ 13)
parts h b = (omega arith, omega arith, omega arith)

-- What the code computes, as a sum of fields.
decoded :
    (h : ℕ)
    → h < 2 ^ 16
    → exp_of 5 10 h ≢ 0
    → exp_of 5 10 h ≢ 31
    → fp16_to_fp32_bits h
      ≡ h / 2 ^ 15 * 2 ^ 31 + (exp_of 5 10 h + 112) * 2 ^ 23 + frac_of 5 10 h * 2 ^ 13
unfolding fp16_to_fp32_bits
decoded h b z i =
    rw
      (
        (fields h).0,
        (fields h).1,
        ne→== _ _ z,
        ne→== _ _ i,
        (parts h b).0,
        (parts h b).1,
        (parts h b).2,
      )
      (join (h / 2 ^ 15) (exp_of 5 10 h + 112) (frac_of 5 10 h * 2 ^ 13) (omega arith)
        (omega arith))

special :
    (h : ℕ)
    → h < 2 ^ 16
    → exp_of 5 10 h ≡ 31
    → fp16_to_fp32_bits h ≡ h / 2 ^ 15 * 2 ^ 31 + 255 * 2 ^ 23 + frac_of 5 10 h * 2 ^ 13
unfolding fp16_to_fp32_bits
special h b i =
    rw ((fields h).0, (fields h).1, i, (parts h b).0, (parts h b).2)
      (join (h / 2 ^ 15) 255 (frac_of 5 10 h * 2 ^ 13) (omega arith) (omega arith))

subnormal : (h : ℕ) → h < 2 ^ 16 → exp_of 5 10 h ≡ 0 → fp16_to_fp32_bits h ≡ h / 2 ^ 15 * 2 ^ 31
unfolding fp16_to_fp32_bits
subnormal h b z = rw ((fields h).0, z) ((parts h b).0)

pow_add : (k n : ℕ) → 2 ^ (k + n) ≡ 2 ^ k * 2 ^ n
pow_add k zero = rw (add-zero k) (omega arith)
pow_add k (suc n) =
    let e : k + suc n ≡ suc (k + n) = omega arith in
    rw (e, pow-suc 2 (k + n), pow-suc 2 n, pow_add k n) (omega arith)

scaled : (k f : ℕ) → (2 ^ 23 + f * 2 ^ 13) * 2 ^ (k + 112) ≡ (2 ^ 10 + f) * 2 ^ k * 2 ^ 125
scaled k f = rw (pow_add k 112) (grind arith)

sign_kept : (h : ℕ) → h < 2 ^ 16 → sign_of 8 23 (fp16_to_fp32_bits h) ≡ sign_of 5 10 h
sign_kept h b = elim (exponent_cases (exp_of 5 10 h)) [
  | inl z ↦ rw (subnormal h b z) (omega arith)
  | inr (inl i) ↦ rw (special h b i) (omega arith)
  | inr (inr (z, i)) ↦ rw (decoded h b z i) (omega arith)
]
  where
    exponent_cases : (e : ℕ) → (e ≡ 0) ⊎ ((e ≡ 31) ⊎ ((e ≢ 0) × (e ≢ 31)))
    exponent_cases e = omega arith

normal_kept :
    (h : ℕ)
    → h < 2 ^ 16
    → exp_of 5 10 h ≢ 0
    → exp_of 5 10 h ≢ 31
    → magnitude 8 23 (fp16_to_fp32_bits h) ≡ magnitude 5 10 h * 2 ^ 125
unfolding magnitude
normal_kept h b z i =
    rw (decoded h b z i, exp_new, frac_new, ne→== _ _ z, ne→== _ _ (above z))
      (ap (λ k. (2 ^ 23 + frac_of 5 10 h * 2 ^ 13) * 2 ^ k) (less z)
        ∙ scaled (exp_of 5 10 h - 1) (frac_of 5 10 h))
  where
    w : ℕ
    w = h / 2 ^ 15 * 2 ^ 31 + (exp_of 5 10 h + 112) * 2 ^ 23 + frac_of 5 10 h * 2 ^ 13

    exp_new : exp_of 8 23 w ≡ exp_of 5 10 h + 112
    exp_new = omega arith

    frac_new : frac_of 8 23 w ≡ frac_of 5 10 h * 2 ^ 13
    frac_new = omega arith

    above : {e : ℕ} → e ≢ 0 → e + 112 ≢ 0
    above z = omega arith

    less : {e : ℕ} → e ≢ 0 → e + 112 - 1 ≡ e - 1 + 112
    less z = omega arith

zero_kept : (h : ℕ) → h < 2 ^ 16 → exp_of 5 10 h ≡ 0 → magnitude 8 23 (fp16_to_fp32_bits h) ≡ 0
unfolding magnitude
zero_kept h b z = rw (subnormal h b z) (ground arith)

payload_kept :
    (h : ℕ)
    → h < 2 ^ 16
    → exp_of 5 10 h ≡ 31
    → (exp_of 8 23 (fp16_to_fp32_bits h) ≡ 255)
      × (frac_of 8 23 (fp16_to_fp32_bits h) ≡ frac_of 5 10 h * 2 ^ 13)
payload_kept h b i = rw (special h b i) (omega arith, omega arith)

-- The conversion of a half to a single keeps its sign, and keeps the value of a normal number
-- exactly: its magnitude in units of 2 ^ -149 is that of the half in units of 2 ^ -24, times
-- 2 ^ 125. A subnormal half becomes a zero; infinities and NaNs stay such, with their payload.
pub fp16_to_fp32_bits-magnitude :
    (h : ℕ)
    → h < 2 ^ 16
    → let w = fp16_to_fp32_bits h in
      (sign_of 8 23 w ≡ sign_of 5 10 h)
      × (exp_of 5 10 h ≢ 0 → exp_of 5 10 h ≢ 31 → magnitude 8 23 w ≡ magnitude 5 10 h * 2 ^ 125)
      × (exp_of 5 10 h ≡ 0 → magnitude 8 23 w ≡ 0)
      × (exp_of 5 10 h ≡ 31 → (exp_of 8 23 w ≡ 255) × (frac_of 8 23 w ≡ frac_of 5 10 h * 2 ^ 13))
fp16_to_fp32_bits-magnitude h b = (sign_kept h b, normal_kept h b, zero_kept h b, payload_kept h b)
