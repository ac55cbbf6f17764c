-- ===== src/Simd.antt =====
-- kernel/simd.h: the int8 dot product, scalar and in SSE4.2 registers, and the matrix product. An
-- array is the function from its index to its bytes, and an `int32_t` its 32-bit word, so that the
-- sums wrap. The intrinsics of <immintrin.h> and CPUID are arguments; the build defines __SSE4_2__
-- and not __AVX2__.
pub mod Sum
pub mod Lanes
pub mod Dot
pub mod Saturation
pub mod Matmul
mod Tests
use samos.Base.{
  ℕ, zero, suc, ◌+◌, ◌-◌, ◌*◌, ◌%◌, ◌^◌, Bool, not, ltb, leb, ◌==◌, if◌then◌else◌, add32, sub32,
  u32, ◌>>>◌, bit_and, Memory, store8,
}

-- An `int8_t` and an `int16_t` as an `int32_t`.
abbrev pub sext8 : ℕ → ℕ
sext8 x = if ltb x 128 then x else x + 4294967040

abbrev pub sext16 : ℕ → ℕ
sext16 x = if ltb x 32768 then x else x + 4294901760

-- `a + i`
abbrev pub from : Memory → ℕ → Memory
from a i k = a (i + k)

pub dot_loop : Memory → Memory → ℕ → ℕ → ℕ → ℕ
dot_loop a b acc i zero = acc
dot_loop a b acc i (suc left) =
    dot_loop a b (add32 acc (u32 (sext8 (a i) * sext8 (b i)))) (i + 1) left

pub sam_int8_dot_scalar : Memory → Memory → ℕ → ℕ
sam_int8_dot_scalar a b n = dot_loop a b 0 0 n

-- The intrinsics, on a type of 128-bit registers.
pub record Intrinsics (V : Type 0) : Type 0 where
  pub mm_setzero_si128 : V
  pub mm_set1_epi16 : ℕ → V
  pub mm_set1_epi8 : ℕ → V
  pub mm_loadu_si128 : Memory → V
  pub mm_add_epi8 : V → V → V
  pub mm_maddubs_epi16 : V → V → V
  pub mm_madd_epi16 : V → V → V
  pub mm_add_epi32 : V → V → V
  pub mm_shuffle_epi32 : V → ℕ → V
  pub mm_cvtsi128_si32 : V → ℕ

-- for (j = 0; j < i; j++) sum_b += b[j];
pub sum_loop : Memory → ℕ → ℕ → ℕ → ℕ
sum_loop b acc j zero = acc
sum_loop b acc j (suc left) = sum_loop b (add32 acc (sext8 (b j))) (j + 1) left

module _ {V : Type 0} (x : Intrinsics V) where
  -- The body of the vector loop at `i`.
  pub block : Memory → Memory → V → ℕ → V
  block a b acc i =
      let va = x.mm_loadu_si128 (from a i) in
      let vb = x.mm_loadu_si128 (from b i) in
      let va_u = x.mm_add_epi8 va (x.mm_set1_epi8 128) in
      let prod16 = x.mm_maddubs_epi16 va_u vb in
      let prod32 = x.mm_madd_epi16 prod16 (x.mm_set1_epi16 1) in x.mm_add_epi32 acc prod32

  -- The vector loop: its accumulator and its index at the end. Each round adds 16 to `i`, so that
  -- `n` rounds are enough.
  pub vector_loop : ℕ → Memory → Memory → ℕ → V → ℕ → V × ℕ
  vector_loop zero a b n acc i = (acc, i)
  vector_loop (suc fuel) a b n acc i =
      let rest = vector_loop fuel a b n (block a b acc i) (i + 16) in
      if leb (i + 16) n then rest else (acc, i)

  -- The sum of the four lanes.
  pub horizontal : V → ℕ
  horizontal acc =
      let sum2 = x.mm_add_epi32 acc (x.mm_shuffle_epi32 acc 0x4E) in
      let sum1 = x.mm_add_epi32 sum2 (x.mm_shuffle_epi32 sum2 0xB1) in x.mm_cvtsi128_si32 sum1

  -- From the end of the vector loop on.
  pub finish : Memory → Memory → ℕ → V → ℕ → ℕ
  finish a b n acc i =
      let result = sub32 (horizontal acc) (u32 (128 * sum_loop b 0 0 i)) in
      add32 result (sam_int8_dot_scalar (from a i) (from b i) (n - i))

  pub sam_int8_dot_sse42 : Memory → Memory → ℕ → ℕ
  sam_int8_dot_sse42 a b n =
      let (acc, i) = vector_loop n a b n x.mm_setzero_si128 0 in finish a b n acc i

  -- `level` is `sam_simd_level`; 2 (AVX2) goes the way of the default in this build.
  pub sam_int8_dot : ℕ → Memory → Memory → ℕ → ℕ
  sam_int8_dot level a b n =
      if level == 1 then sam_int8_dot_sse42 a b n else sam_int8_dot_scalar a b n

  -- The inner loop from column `j` on, `left` columns, for the row of A at `row` and of C at `out`.
  pub matmul_row : ℕ → Memory → Memory → ℕ → Memory → ℕ → ℕ → ℕ → Memory
  matmul_row level row b_t k c out j zero = c
  matmul_row level row b_t k c out j (suc left) =
      matmul_row level row b_t k (store8 c (out + j) (sam_int8_dot level row (from b_t (j * k)) k))
        out (j + 1) left

  pub matmul_rows : ℕ → Memory → Memory → ℕ → ℕ → Memory → ℕ → ℕ → Memory
  matmul_rows level a b_t k n c i zero = c
  matmul_rows level a b_t k n c i (suc left) =
      matmul_rows level a b_t k n (matmul_row level (from a (i * k)) b_t k c (i * n) 0 n) (i + 1)
        left

  -- A is `m` by `k`, B_T is `n` by `k`; the result is C, of `int32_t`.
  pub sam_int8_matmul : ℕ → Memory → Memory → Memory → ℕ → ℕ → ℕ → Memory
  sam_int8_matmul level a b_t c m k n = matmul_rows level a b_t k n c 0 m

-- `sam_simd_level` after `sam_simd_init`, with ECX of CPUID leaf 1 and EBX of leaf 7.
pub sam_simd_init : ℕ → ℕ → ℕ
sam_simd_init ecx1 ebx7 =
    if not (bit_and (ebx7 >>> 5) 1 == 0)
    then 2
    else if not (bit_and (ecx1 >>> 20) 1 == 0)
    then 1
    else 0
