-- ===== src/Simd/Tests.antt =====
-- kernel/simd.h: registers of sixteen bytes that meet the documentation, and the witnesses.
use samos.Base.{
  ℕ, ◌+◌, ◌*◌, ◌/◌, ◌%◌, ◌^◌, ◌<◌, ◌≡◌, ◌≢◌, refl, true, false, arith, ◌==◌, if◌then◌else◌, Memory,
  IsBytes,
}
use samos.Simd.{sext8, sext16, Intrinsics, sam_int8_dot, sam_int8_dot_scalar, sam_int8_matmul}
use samos.Simd.Sum.{sum_range, dot_sum}
use samos.Simd.Lanes.{Lanes, IsDocumented, saturated, saturated_pair, plus_part, minus_part}
use samos.Simd.Dot.{NoneSaturates, sam_int8_dot-scalar}
use samos.Simd.Saturation.{sam_int8_dot-saturates}
use samos.Simd.Matmul.{sam_int8_matmul-entry}

-- A register is the function from a position to its byte.
abbrev lanes : Lanes Memory
lanes = record {
  epi8 = λ v i. v i;
  epi16 = λ v i. v (2 * i) + 256 * v (2 * i + 1);
  epi32 = λ v i. v (4 * i) + 256 * v (4 * i + 1) + 65536 * v (4 * i + 2) + 16777216 * v (4 * i + 3);
}

-- The bytes of 16-bit and of 32-bit lanes.
abbrev of_epi16 : Memory → Memory
of_epi16 f j = if j % 2 == 0 then f (j / 2) % 256 else f (j / 2) / 256 % 256

abbrev of_epi32 : Memory → Memory
of_epi32 f j =
    if j % 4 == 0
    then f (j / 4) % 256
    else if j % 4 == 1
    then f (j / 4) / 256 % 256
    else if j % 4 == 2
    then f (j / 4) / 65536 % 256
    else f (j / 4) / 16777216 % 256

epi16-of_epi16 : (f : Memory) (i : ℕ) → f i < 65536 → lanes.epi16 (of_epi16 f) i ≡ f i
epi16-of_epi16 f i h =
    let e : 2 * i / 2 ≡ i = omega arith in
    let o : (2 * i + 1) / 2 ≡ i = omega arith in
    let t : (2 * i % 2 == 0) ≡ true = ground arith in
    let u : ((2 * i + 1) % 2 == 0) ≡ false = ground arith in rw t rw u rw e rw o (omega arith)

epi32-of_epi32 : (f : Memory) (i : ℕ) → lanes.epi32 (of_epi32 f) i ≡ f i % 2 ^ 32
epi32-of_epi32 f i =
    let e0 : 4 * i / 4 ≡ i = omega arith in
    let e1 : (4 * i + 1) / 4 ≡ i = omega arith in
    let e2 : (4 * i + 2) / 4 ≡ i = omega arith in
    let e3 : (4 * i + 3) / 4 ≡ i = omega arith in
    let t : (4 * i % 4 == 0) ≡ true = ground arith in
    let m1 : (4 * i + 1) % 4 ≡ 1 = omega arith in
    let m2 : (4 * i + 2) % 4 ≡ 2 = omega arith in
    let m3 : (4 * i + 3) % 4 ≡ 3 = omega arith in
    rw t rw m1 rw m2 rw m3 rw e0 rw e1 rw e2 rw e3 (omega arith)

abbrev pairs : Memory → Memory → Memory
pairs v w i = saturated_pair (v (2 * i)) (w (2 * i)) (v (2 * i + 1)) (w (2 * i + 1))

abbrev dots : Memory → Memory → Memory
dots v w i =
    sext16 (lanes.epi16 v (2 * i)) * sext16 (lanes.epi16 w (2 * i))
    + sext16 (lanes.epi16 v (2 * i + 1)) * sext16 (lanes.epi16 w (2 * i + 1))

abbrev sums : Memory → Memory → Memory
sums v w i = lanes.epi32 v i + lanes.epi32 w i

abbrev bytes16 : Intrinsics Memory
bytes16 = record {
  mm_setzero_si128 = λ j. 0;
  mm_set1_epi16 = λ n. of_epi16 (λ i. n);
  mm_set1_epi8 = λ n j. n;
  mm_loadu_si128 = λ p j. p j;
  mm_add_epi8 = λ v w j. (v j + w j) % 256;
  mm_maddubs_epi16 = λ v w. of_epi16 (pairs v w);
  mm_madd_epi16 = λ v w. of_epi32 (dots v w);
  mm_add_epi32 = λ v w. of_epi32 (sums v w);
  mm_shuffle_epi32 = λ v c j. v (4 * (c / 4 ^ (j / 4) % 4) + j % 4);
  mm_cvtsi128_si32 = λ v. lanes.epi32 v 0;
}

pairs-lt : (v w : Memory) (i : ℕ) → pairs v w i < 65536
pairs-lt v w i =
    saturated-lt (plus_part (v (2 * i)) (w (2 * i)) + plus_part (v (2 * i + 1)) (w (2 * i + 1)))
      (minus_part (v (2 * i)) (w (2 * i)) + minus_part (v (2 * i + 1)) (w (2 * i + 1)))
  where
    saturated-lt : (p m : ℕ) → saturated p m < 65536
    saturated-lt p m = ground arith

shuffle-lane :
    (v : Memory) (c i : ℕ)
    → lanes.epi32 (bytes16.mm_shuffle_epi32 v c) i ≡ lanes.epi32 v (c / 4 ^ i % 4)
shuffle-lane v c i =
    let e0 : 4 * i / 4 ≡ i = omega arith in
    let e1 : (4 * i + 1) / 4 ≡ i = omega arith in
    let e2 : (4 * i + 2) / 4 ≡ i = omega arith in
    let e3 : (4 * i + 3) / 4 ≡ i = omega arith in
    let m0 : 4 * i % 4 ≡ 0 = omega arith in
    let m1 : (4 * i + 1) % 4 ≡ 1 = omega arith in
    let m2 : (4 * i + 2) % 4 ≡ 2 = omega arith in
    let m3 : (4 * i + 3) % 4 ≡ 3 = omega arith in
    let start : 4 * (c / 4 ^ i % 4) + 0 ≡ 4 * (c / 4 ^ i % 4) = omega arith in
    rw e0 rw e1 rw e2 rw e3 rw m0 rw m1 rw m2 rw m3 rw start

bytes16-IsDocumented : IsDocumented bytes16 lanes
bytes16-IsDocumented = record {
  setzero_lanes = λ i h. refl;
  set1_epi16_lanes = λ n i hn h. epi16-of_epi16 (λ j. n) i hn;
  set1_epi8_lanes = λ n i hn h. refl;
  loadu_lanes = λ p i hp h. refl;
  add_epi8_lanes = λ v w i h. refl;
  maddubs_lanes = λ v w i h. epi16-of_epi16 (pairs v w) i (pairs-lt v w i);
  madd_lanes = λ v w i h. epi32-of_epi32 (dots v w) i;
  add_epi32_lanes = λ v w i h. epi32-of_epi32 (sums v w) i;
  shuffle_lanes = λ v c i h. shuffle-lane v c i;
  cvtsi128_lanes = λ v. refl;
}

-- Weights of 3 and inputs of -2 (0xFE).
abbrev weights : Memory
weights k = 3

abbrev inputs : Memory
inputs k = 0xFE

weights-IsBytes : IsBytes weights
weights-IsBytes k = omega arith

inputs-IsBytes : IsBytes inputs
inputs-IsBytes k = omega arith

none_saturates : (n : ℕ) → NoneSaturates weights inputs n
none_saturates n k e h = record { not_above = omega arith; not_below = omega arith }

-- The witness.
sam_int8_dot-scalar_example :
    (sam_int8_dot bytes16 1 weights inputs 40 ≡ sam_int8_dot_scalar weights inputs 40)
    × (sam_int8_dot_scalar weights inputs 40 ≡ dot_sum weights inputs 0 40 % 2 ^ 32)
sam_int8_dot-scalar_example =
    sam_int8_dot-scalar bytes16 lanes bytes16-IsDocumented 1 weights inputs 40 weights-IsBytes
      inputs-IsBytes (none_saturates 40)

-- The witness.
sam_int8_dot-saturates_example :
    sam_int8_dot bytes16 1 (λ k. 127) (λ k. 100) 16 ≢ sam_int8_dot_scalar (λ k. 127) (λ k. 100) 16
sam_int8_dot-saturates_example =
    sam_int8_dot-saturates bytes16 lanes bytes16-IsDocumented 100 (omega arith) (omega arith)

-- The witness.
sam_int8_matmul-entry_example :
    (sam_int8_matmul bytes16 1 weights inputs (λ p. 0) 2 16 3 (1 * 3 + 2)
      ≡ sum_range (λ q. sext8 (weights (1 * 16 + q)) * sext8 (inputs (2 * 16 + q))) 0 16 % 2 ^ 32)
    × (sam_int8_matmul bytes16 1 weights inputs (λ p. 0) 2 16 3 6 ≡ 0)
sam_int8_matmul-entry_example =
    sam_int8_matmul-entry bytes16 lanes bytes16-IsDocumented 1 weights inputs (λ p. 0) 2 16 3 1 2 6
      weights-IsBytes inputs-IsBytes (omega arith) (omega arith) (none_saturates 16) (omega arith)
