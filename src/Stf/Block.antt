-- ===== src/Stf/Block.antt =====
-- Blocks of Q8_0: what `stf_q8_dequant_block` and `stf_q8_nonzero_check` read.
use samos.Base.{
  ℕ, zero, suc, ◌+◌, ◌*◌, ◌<◌, ◌^◌, ◌≡◌, ◌↔◌, refl, ap, ◌∙◌, arith, false, All, load16,
  bit_or-fields, bit_or_comm, length, get_or, Memory, IsBytes, add64, bit_or,
}
use samos.Stf.{stf_q8_dequant_block, dequant_loop, nonzero_loop, stf_q8_nonzero_check, sign_extend8}

module _ (m : Memory) where
  dequant_loop-get :
      (w left i : ℕ)
      → i < left
      → w + left < 2 ^ 64
      → get_or (dequant_loop m w left) i 0 ≡ sign_extend8 (m (w + i))
  unfolding dequant_loop
  dequant_loop-get w zero i l f = absurd (omega arith)
  dequant_loop-get w (suc left) zero l f = ap (λ a. sign_extend8 (m a)) (omega arith)
  dequant_loop-get w (suc left) (suc i) l f =
      let e : add64 w 1 ≡ w + 1 = omega arith in
      let e' : w + 1 + i ≡ w + suc i = omega arith in
      rw e (
        dequant_loop-get (w + 1) left i (omega arith) (omega arith)
        ∙ ap (λ a. sign_extend8 (m a)) e')

  length-dequant_loop : (w left : ℕ) → length (dequant_loop m w left) ≡ left
  unfolding dequant_loop
  length-dequant_loop w zero = refl
  length-dequant_loop w (suc left) = ap suc (length-dequant_loop (add64 w 1) left)

  nonzero_loop-All :
      IsBytes m
      → (w left : ℕ) → nonzero_loop m w left ≡ false
      → All (λ v. v ≡ 0) (dequant_loop m w left)
  unfolding nonzero_loop dequant_loop
  nonzero_loop-All bytes w zero h = tt
  nonzero_loop-All bytes w (suc left) h =
      (ground arith, nonzero_loop-All bytes (add64 w 1) left (ground arith))

  All-nonzero_loop :
      IsBytes m
      → (w left : ℕ) → All (λ v. v ≡ 0) (dequant_loop m w left)
      → nonzero_loop m w left ≡ false
  unfolding nonzero_loop dequant_loop
  All-nonzero_loop bytes w zero h = refl
  All-nonzero_loop bytes w (suc left) h =
      let byte = bytes w in
      let rest = All-nonzero_loop bytes (add64 w 1) left h.1 in let first = h.0 in ground arith

  -- A Q8_0 block of 34 bytes: the scale is its first two bytes, and the 32 weights behind it are
  -- read as signed bytes; `stf_q8_nonzero_check` says 0 exactly if all of them are zero. Memory
  -- holds bytes, and the block does not wrap round the address space.
  pub stf_q8_dequant_block-weights :
      (block : ℕ)
      → IsBytes m
      → block + 34 < 2 ^ 64
      → let (scale, out) = stf_q8_dequant_block m block in
        (scale ≡ load16 m block)
        × (length out ≡ 32)
        × ((i : ℕ) → i < 32 → get_or out i 0 ≡ sign_extend8 (m (block + 2 + i)))
        × ((stf_q8_nonzero_check m block ≡ false) ↔ All (λ v. v ≡ 0) out)
  unfolding stf_q8_dequant_block stf_q8_nonzero_check
  stf_q8_dequant_block-weights block bytes fits = (
    joined,
    length-dequant_loop (add64 block 2) 32,
    λ i l.
        dequant_loop-get (add64 block 2) 32 i l (omega arith)
        ∙ ap (λ a. sign_extend8 (m a)) (omega arith),
    (nonzero_loop-All bytes (add64 block 2) 32, All-nonzero_loop bytes (add64 block 2) 32),
  )
    where
      joined : bit_or (m block) (m (add64 block 1) * 2 ^ 8) ≡ load16 m block
      joined =
          bit_or_comm (m block) (m (add64 block 1) * 2 ^ 8)
          ∙ bit_or-fields 8 (m (add64 block 1)) (m block) (bytes block)
          ∙ omega arith
