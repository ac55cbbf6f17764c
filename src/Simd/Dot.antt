-- ===== src/Simd/Dot.antt =====
-- kernel/simd.h: the vector code computes the dot product of the scalar code, where no pair of
-- products saturates.
use samos.Base.{
  ℕ, zero, suc, ◌+◌, ◌-◌, ◌*◌, ◌%◌, ◌^◌, ◌<◌, ◌≤◌, ◌≡◌, refl, sym, ap, ◌∙◌, arith, leb, leb→le,
  ◌==◌, if-cases, Memory, IsBytes,
}
use samos.Simd.{
  sext8, from, Intrinsics, block, vector_loop, horizontal, finish, sam_int8_dot_sse42,
  sam_int8_dot_scalar, sam_int8_dot,
}
use samos.Simd.Sum.{
  sum_range-append, dot_sum, sam_int8_dot_scalar-sum, sum_loop-range, biased_sum,
  biased_sum-dot_sum,
}
use samos.Simd.Lanes.{Lanes, lane_sum, IsDocumented, FitsPair, block-sum}

-- No pair of products of the first `n` saturates.
abbrev pub NoneSaturates : Memory → Memory → ℕ → Type 0
NoneSaturates a b n = (k : ℕ) → k % 2 ≡ 0 → k + 1 < n → FitsPair a b k

dot_sum-from : (a b : Memory) (i n : ℕ) → dot_sum (from a i) (from b i) 0 n ≡ dot_sum a b (0 + i) n
dot_sum-from a b i zero = refl
dot_sum-from a b i (suc n) =
    let here : i + (0 + n) ≡ 0 + i + n = omega arith in
    omega (arith, dot_sum-from a b i n, ap (λ q. sext8 (a q) * sext8 (b q)) here)

grown :
    (t t' s s' more : ℕ)
    → t' % 2 ^ 32 ≡ (t + more) % 2 ^ 32
    → t % 2 ^ 32 ≡ s % 2 ^ 32
    → s' ≡ s + more
    → t' % 2 ^ 32 ≡ s' % 2 ^ 32
grown t t' s s' more h k e = omega arith

module _ {V : Type 0} (x : Intrinsics V) (l : Lanes V) (d : IsDocumented x l) where
  -- The accumulator and the index of the vector loop, so far.
  record IsPartial (a b : Memory) (n : ℕ) (r : V × ℕ) : Type 0 where
    sum_so_far : lane_sum l r.0 % 2 ^ 32 ≡ biased_sum a b 0 r.1 % 2 ^ 32
    inside : r.1 ≤ n
    even : r.1 % 2 ≡ 0

  module _ (a b : Memory) (ha : IsBytes a) (hb : IsBytes b) (n : ℕ) (f : NoneSaturates a b n) where
    block-IsPartial :
        (acc : V) (i : ℕ)
        → IsPartial a b n (acc, i)
        → i + 16 ≤ n
        → IsPartial a b n (block x a b acc i, i + 16)
    block-IsPartial acc i p h = record {
      sum_so_far =
          let e = p.even in
          let begin : 0 + i ≡ i = omega arith in
          grown _ _ _ _ _
            (block-sum x l d a b ha hb acc i (λ t ht. f (i + 2 * t) (omega arith) (omega arith)))
            p.sum_so_far
            (sum_range-append (λ k. (a k + 128) % 256 * sext8 (b k)) 0 i 16
              ∙ ap (λ q. biased_sum a b 0 i + biased_sum a b q 16) begin);
      inside = h;
      even = let e = p.even in omega arith;
    }

    vector_loop-IsPartial :
        (fuel : ℕ) (acc : V) (i : ℕ)
        → IsPartial a b n (acc, i)
        → IsPartial a b n (vector_loop x fuel a b n acc i)
    unfolding vector_loop
    vector_loop-IsPartial zero acc i p = p
    vector_loop-IsPartial (suc fuel) acc i p =
        if-cases (λ r. IsPartial a b n r) (leb (i + 16) n)
          (λ e.
            vector_loop-IsPartial fuel (block x a b acc i) (i + 16)
              (block-IsPartial acc i p (leb→le _ _ e)))
          (λ e. p)

  pub horizontal-sum : (acc : V) → horizontal x acc ≡ lane_sum l acc % 2 ^ 32
  unfolding horizontal
  horizontal-sum acc =
      let half = x.mm_shuffle_epi32 acc 0x4E in
      let sum2 = x.mm_add_epi32 acc half in
      let swapped = x.mm_shuffle_epi32 sum2 0xB1 in
      omega (
        arith,
        d.cvtsi128_lanes (x.mm_add_epi32 sum2 swapped),
        d.add_epi32_lanes sum2 swapped 0 (omega arith),
        d.shuffle_lanes sum2 0xB1 0 (omega arith),
        d.add_epi32_lanes acc half 0 (omega arith),
        d.add_epi32_lanes acc half 1 (omega arith),
        d.shuffle_lanes acc 0x4E 0 (omega arith),
        d.shuffle_lanes acc 0x4E 1 (omega arith),
      )

  finish-sum :
      (a b : Memory) (n : ℕ) (r : V × ℕ)
      → IsBytes a
      → IsPartial a b n r
      → finish x a b n r.0 r.1 ≡ dot_sum a b 0 n % 2 ^ 32
  unfolding finish
  finish-sum a b n r ha p =
      let h = p.sum_so_far in
      let within = p.inside in
      let whole : r.1 + (n - r.1) ≡ n = omega arith in
      omega (
        arith,
        horizontal-sum r.0,
        sum_loop-range b r.1,
        sam_int8_dot_scalar-sum (from a r.1) (from b r.1) (n - r.1),
        biased_sum-dot_sum a b 0 r.1 ha,
        sum_range-append (λ k. sext8 (a k) * sext8 (b k)) 0 r.1 (n - r.1),
        ap (λ q. dot_sum a b 0 q) whole,
        dot_sum-from a b r.1 (n - r.1),
      )

  sam_int8_dot_sse42-sum :
      (a b : Memory) (n : ℕ)
      → IsBytes a
      → IsBytes b
      → NoneSaturates a b n
      → sam_int8_dot_sse42 x a b n ≡ dot_sum a b 0 n % 2 ^ 32
  unfolding sam_int8_dot_sse42
  sam_int8_dot_sse42-sum a b n ha hb f =
      finish-sum a b n (vector_loop x n a b n x.mm_setzero_si128 0) ha (
        vector_loop-IsPartial a b ha hb n f n x.mm_setzero_si128 0 (record {
          sum_so_far = omega (
            arith,
            d.setzero_lanes 0 (omega arith),
            d.setzero_lanes 1 (omega arith),
            d.setzero_lanes 2 (omega arith),
            d.setzero_lanes 3 (omega arith),
          );
          inside = omega arith;
          even = omega arith;
        }))

  -- At every level the dispatched dot product is the scalar one, and so the sum of the products of
  -- the signed bytes, in 32 bits, for any length, if no sum of two adjacent biased products leaves
  -- the signed 16-bit range. The intrinsics do what their documentation says.
  pub sam_int8_dot-scalar :
      (level : ℕ) (a b : Memory) (n : ℕ)
      → IsBytes a
      → IsBytes b
      → NoneSaturates a b n
      → (sam_int8_dot x level a b n ≡ sam_int8_dot_scalar a b n)
        × (sam_int8_dot_scalar a b n ≡ dot_sum a b 0 n % 2 ^ 32)
  unfolding sam_int8_dot
  sam_int8_dot-scalar level a b n ha hb f =
      let scalar = sam_int8_dot_scalar-sum a b n in
      (
        if-cases (λ r. r ≡ sam_int8_dot_scalar a b n) (level == 1)
            (λ e. sam_int8_dot_sse42-sum a b n ha hb f ∙ sym scalar) (λ e. refl),
        scalar,
      )
