-- ===== src/Simd/Saturation.antt =====
-- kernel/simd.h: PMADDUBSW saturates the sum of two biased products to 16 bits, and the result of
-- the vector code is then wrong.
use samos.Base.{ℕ, ◌+◌, ◌-◌, ◌*◌, ◌%◌, ◌^◌, ◌<◌, ◌≡◌, ◌≢◌, ap₂, ◌∙◌, arith, Memory, IsBytes}
use samos.Simd.{
  sext8, sext16, from, Intrinsics, block, vector_loop, horizontal, finish, sam_int8_dot_sse42,
  sam_int8_dot_scalar, sam_int8_dot,
}
use samos.Simd.Sum.{sam_int8_dot_scalar-sum, sum_loop-range}
use samos.Simd.Lanes.{Lanes, IsDocumented, prod16-lane, prod16, saturated_pair}
use samos.Simd.Dot.{horizontal-sum}

module _ {V : Type 0} (x : Intrinsics V) (l : Lanes V) (d : IsDocumented x l) (c : ℕ)
    (above : 64 < c) (positive : c < 128) where
  abbrev all_127 : Memory
  all_127 k = 127

  abbrev all_c : Memory
  all_c k = c

  pair_saturates : saturated_pair 255 c 255 c ≡ 32767
  pair_saturates = ground arith

  -- The accumulator after the only round.
  abbrev after : V
  after = block x all_127 all_c x.mm_setzero_si128 0

  bytes_a : IsBytes all_127
  bytes_a k = omega arith

  bytes_c : IsBytes all_c
  bytes_c k = omega arith

  lane_saturates :
      (t : ℕ)
      → t < 8
      → l.epi16 (prod16 x l d all_127 all_c bytes_a bytes_c x.mm_setzero_si128 0) t ≡ 32767
  lane_saturates t h =
      prod16-lane x l d all_127 all_c bytes_a bytes_c x.mm_setzero_si128 0 t h ∙ pair_saturates

  lane_full : (j : ℕ) → j < 4 → l.epi32 after j ≡ 65534
  unfolding block
  lane_full j h =
      let w = prod16 x l d all_127 all_c bytes_a bytes_c x.mm_setzero_si128 0 in
      let ones = x.mm_set1_epi16 1 in
      omega (
        arith,
        d.add_epi32_lanes x.mm_setzero_si128 (x.mm_madd_epi16 w ones) j h,
        d.setzero_lanes j h,
        d.madd_lanes w ones j h
            ∙ ap₂
                (λ p q.
                  (sext16 p * sext16 (l.epi16 ones (2 * j))
                    + sext16 q * sext16 (l.epi16 ones (2 * j + 1)))
                  % 2 ^ 32)
                (lane_saturates (2 * j) (omega arith)) (lane_saturates (2 * j + 1) (omega arith))
            ∙ ap₂ (λ p q. (32767 * sext16 p + 32767 * sext16 q) % 2 ^ 32)
                (d.set1_epi16_lanes 1 (2 * j) (omega arith) (omega arith))
                (d.set1_epi16_lanes 1 (2 * j + 1) (omega arith) (omega arith)),
      )

  sums_full : horizontal x after ≡ 262136
  sums_full = omega (
    arith,
    horizontal-sum x l d after,
    lane_full 0 (omega arith),
    lane_full 1 (omega arith),
    lane_full 2 (omega arith),
    lane_full 3 (omega arith),
  )

  vector_result : sam_int8_dot x 1 all_127 all_c 16 ≡ 262136 - 2048 * c
  unfolding sam_int8_dot sam_int8_dot_sse42 vector_loop finish
  vector_result =
      let small : sext8 c ≡ c = ground arith in
      omega (
        arith,
        sums_full,
        small,
        sum_loop-range all_c 16,
        sam_int8_dot_scalar-sum (from all_127 16) (from all_c 16) 0,
      )

  scalar_result : sam_int8_dot_scalar all_127 all_c 16 ≡ 2032 * c
  scalar_result =
      let small : sext8 c ≡ c = ground arith in
      omega (arith, small, sam_int8_dot_scalar-sum all_127 all_c 16)

-- Saturation gives wrong results: of 16 times 127 against 16 times `c`, where 64 < c < 128, the
-- SSE4.2 code does not return the dot product of the scalar code. The intrinsics do what their
-- documentation says.
pub sam_int8_dot-saturates :
    {V : Type 0} (x : Intrinsics V) (l : Lanes V)
    → IsDocumented x l
    → (c : ℕ) → 64 < c
    → c < 128
    → sam_int8_dot x 1 (λ k. 127) (λ k. c) 16 ≢ sam_int8_dot_scalar (λ k. 127) (λ k. c) 16
sam_int8_dot-saturates x l d c above positive same = absurd (
    omega (arith, same, vector_result x l d c above positive, scalar_result x l d c above positive))
