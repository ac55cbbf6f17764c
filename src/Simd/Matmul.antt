-- ===== src/Simd/Matmul.antt =====
-- kernel/simd.h: each entry of the matrix product is the dot product of its row and its column.
use samos.Base.{
  ℕ, zero, suc, ◌+◌, ◌*◌, ◌%◌, ◌^◌, ◌<◌, ◌≤◌, ◌≡◌, ◌⊎◌, inl, inr, refl, sym, ap, ◌∙◌, arith, Memory,
  IsBytes, store8,
}
use samos.Fb.Fill.{rows_apart}
use samos.Simd.{sext8, from, Intrinsics, sam_int8_dot, matmul_row, matmul_rows, sam_int8_matmul}
use samos.Simd.Sum.{sum_range}
use samos.Simd.Lanes.{Lanes, IsDocumented}
use samos.Simd.Dot.{NoneSaturates, sam_int8_dot-scalar}

module _ {V : Type 0} (x : Intrinsics V) (level : ℕ) (b_t : Memory) (k : ℕ) where
  matmul_row-outside :
      (row c : Memory) (out j left p : ℕ)
      → (p < out + j) ⊎ (out + j + left ≤ p)
      → matmul_row x level row b_t k c out j left p ≡ c p
  unfolding matmul_row
  matmul_row-outside row c out j zero p h = refl
  matmul_row-outside row c out j (suc left) p h =
      matmul_row-outside row (store8 c (out + j) (sam_int8_dot x level row (from b_t (j * k)) k))
        out (j + 1) left p (omega arith)
      ∙ ground arith

  matmul_row-inside :
      (row c : Memory) (out j left q : ℕ)
      → j ≤ q
      → q < j + left
      → matmul_row x level row b_t k c out j left (out + q)
        ≡ sam_int8_dot x level row (from b_t (q * k)) k
  unfolding matmul_row
  matmul_row-inside row c out j zero q l u = absurd (omega arith)
  matmul_row-inside row c out j (suc left) q l u =
      let entry = sam_int8_dot x level row (from b_t (j * k)) k in
      let c' = store8 c (out + j) entry in
      elim (cases q j l) [
        | inl e ↦
            matmul_row-outside row c' out (j + 1) left (out + q) (inl (omega arith))
            ∙ (here c (out + q) (out + j) entry (omega arith)
                ∙ ap (λ r. sam_int8_dot x level row (from b_t (r * k)) k) (sym e))
        | inr lt ↦ matmul_row-inside row c' out (j + 1) left q (omega arith) (omega arith)
      ]
    where
      cases : (q j : ℕ) → j ≤ q → (q ≡ j) ⊎ (j < q)
      cases q j l = omega arith

      here : (c : Memory) (p q v : ℕ) → p ≡ q → store8 c q v p ≡ v
      here c p q v e = ground arith

  module _ (a : Memory) (n : ℕ) where
    -- The rows from `i` on leave what lies before them and behind them.
    matmul_rows-outside :
        (c : Memory) (i left p : ℕ)
        → (p < i * n) ⊎ ((i + left) * n ≤ p)
        → matmul_rows x level a b_t k n c i left p ≡ c p
    unfolding matmul_rows
    matmul_rows-outside c i zero p h = refl
    matmul_rows-outside c i (suc left) p h =
        matmul_rows-outside (matmul_row x level (from a (i * k)) b_t k c (i * n) 0 n) (i + 1) left p
          (next h)
        ∙ matmul_row-outside (from a (i * k)) c (i * n) 0 n p (this h)
      where
        next : (p < i * n) ⊎ ((i + suc left) * n ≤ p) → (p < (i + 1) * n) ⊎ ((i + 1 + left) * n ≤ p)
        next (inl l) = inl (omega (arith, rows_apart i (i + 1) n (omega arith)))
        next (inr u) =
            let e : i + suc left ≡ i + 1 + left = omega arith in
            inr (omega (arith, ap (λ r. r * n) e))

        this : (p < i * n) ⊎ ((i + suc left) * n ≤ p) → (p < i * n + 0) ⊎ (i * n + 0 + n ≤ p)
        this (inl l) = inl (omega arith)
        this (inr u) = inr (omega (arith, rows_apart i (i + suc left) n (omega arith)))

    matmul_rows-inside :
        (c : Memory) (i left r q : ℕ)
        → i ≤ r
        → r < i + left
        → q < n
        → matmul_rows x level a b_t k n c i left (r * n + q)
          ≡ sam_int8_dot x level (from a (r * k)) (from b_t (q * k)) k
    unfolding matmul_rows
    matmul_rows-inside c i zero r q l u h = absurd (omega arith)
    matmul_rows-inside c i (suc left) r q l u h =
        let c' = matmul_row x level (from a (i * k)) b_t k c (i * n) 0 n in
        elim (cases r i l) [
          | inl e ↦
              matmul_rows-outside c' (i + 1) left (r * n + q)
                (inl (omega (arith, rows_apart r (i + 1) n (omega arith))))
              ∙ (ap (λ s. c' (s * n + q)) e
                  ∙ (matmul_row-inside (from a (i * k)) c (i * n) 0 n q (omega arith) (omega arith)
                      ∙ ap (λ s. sam_int8_dot x level (from a (s * k)) (from b_t (q * k)) k)
                          (sym e)))
          | inr lt ↦ matmul_rows-inside c' (i + 1) left r q (omega arith) (omega arith) h
        ]
      where
        cases : (q j : ℕ) → j ≤ q → (q ≡ j) ⊎ (j < q)
        cases q j l = omega arith

-- The matrix product: the entry in row `i` and column `j` is the sum of the products of row `i` of
-- A and row `j` of the transposed B, in 32 bits, and nothing behind the `m` by `n` entries of C
-- changes. The bytes are bytes, no pair of products of that row and column saturates, and the
-- intrinsics do what their documentation says.
pub sam_int8_matmul-entry :
    {V : Type 0} (x : Intrinsics V) (l : Lanes V)
    → IsDocumented x l
    → (level : ℕ) (a b_t c : Memory) (m k n i j p : ℕ) → IsBytes a
    → IsBytes b_t
    → i < m
    → j < n
    → NoneSaturates (from a (i * k)) (from b_t (j * k)) k
    → m * n ≤ p
    → (sam_int8_matmul x level a b_t c m k n (i * n + j)
        ≡ sum_range (λ q. sext8 (a (i * k + q)) * sext8 (b_t (j * k + q))) 0 k % 2 ^ 32)
      × (sam_int8_matmul x level a b_t c m k n p ≡ c p)
unfolding sam_int8_matmul
sam_int8_matmul-entry x l d level a b_t c m k n i j p ha hb hi hj f hp =
    let e =
      sam_int8_dot-scalar x l d level (from a (i * k)) (from b_t (j * k)) k (λ q. ha (i * k + q))
        (λ q. hb (j * k + q)) f in
    (
      matmul_rows-inside x level b_t k a n c 0 m i j (omega arith) (omega arith) hj ∙ (e.0 ∙ e.1),
      matmul_rows-outside x level b_t k a n c 0 m p (inr (ends (0 + m) m (omega arith) hp)),
    )
  where
    ends : (q r : ℕ) → q ≡ r → r * n ≤ p → q * n ≤ p
    ends q r e h = omega (arith, ap (λ s. s * n) e)
