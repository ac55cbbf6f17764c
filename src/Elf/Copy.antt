-- ===== src/Elf/Copy.antt =====
-- What the two byte loops of the loader leave in memory.
use samos.Base.{
  ℕ, zero, suc, ◌+◌, ◌≤◌, ◌<◌, ◌^◌, ◌≡◌, ◌⊎◌, refl, arith, ◌∙◌, Memory, store8, add64, ◌==◌,
  Bool-cases, inl, inr,
}
use samos.Elf.{copy_bytes, zero_bytes}

store8-ne : (m : Memory) (a v x : ℕ) → (x ≡ a → ⊥) → store8 m a v x ≡ m x
store8-ne m a v x h = ground arith

store8-eq : (m : Memory) (a v : ℕ) → store8 m a v a ≡ v
store8-eq m a v = ground arith

-- A copy changes nothing outside its destination.
pub copy_bytes-outside :
    (m : Memory) (dst src b n x : ℕ)
    → dst + b + n ≤ 2 ^ 64
    → (x < dst + b) ⊎ (dst + b + n ≤ x)
    → copy_bytes m dst src b n x ≡ m x
unfolding copy_bytes
copy_bytes-outside m dst src b zero x h o = refl
copy_bytes-outside m dst src b (suc n) x h o =
    copy_bytes-outside (store8 m (add64 dst b) (m (add64 src b))) dst src (b + 1) n x (omega arith)
      (omega arith)
    ∙ store8-ne m (add64 dst b) (m (add64 src b)) x (omega arith)

-- A copy from a source that it does not overwrite moves every byte.
pub copy_bytes-inside :
    (m : Memory) (dst src b n k : ℕ)
    → dst + b + n ≤ 2 ^ 64
    → src + b + n ≤ 2 ^ 64
    → (src + b + n ≤ dst + b) ⊎ (dst + b + n ≤ src + b)
    → b ≤ k
    → k < b + n
    → copy_bytes m dst src b n (dst + k) ≡ m (src + k)
unfolding copy_bytes
copy_bytes-inside m dst src b zero k h hs o l u = absurd (omega arith)
copy_bytes-inside m dst src b (suc n) k h hs o l u = elim (Bool-cases (k == b)) [
  | inl e ↦
      let e' : k ≡ b = ground arith in
      copy_bytes-outside (store8 m (add64 dst b) (m (add64 src b))) dst src (b + 1) n (dst + k)
        (omega arith) (omega arith)
      ∙ ground arith
  | inr ne ↦
      copy_bytes-inside (store8 m (add64 dst b) (m (add64 src b))) dst src (b + 1) n k (omega arith)
        (omega arith) (omega arith) (ground arith) (omega arith)
      ∙ store8-ne m (add64 dst b) (m (add64 src b)) (src + k) (omega arith)
]

pub zero_bytes-outside :
    (m : Memory) (dst b n x : ℕ)
    → dst + b + n ≤ 2 ^ 64
    → (x < dst + b) ⊎ (dst + b + n ≤ x)
    → zero_bytes m dst b n x ≡ m x
unfolding zero_bytes
zero_bytes-outside m dst b zero x h o = refl
zero_bytes-outside m dst b (suc n) x h o =
    zero_bytes-outside (store8 m (add64 dst b) 0) dst (b + 1) n x (omega arith) (omega arith)
    ∙ store8-ne m (add64 dst b) 0 x (omega arith)

pub zero_bytes-inside :
    (m : Memory) (dst b n x : ℕ)
    → dst + b + n ≤ 2 ^ 64
    → dst + b ≤ x
    → x < dst + b + n
    → zero_bytes m dst b n x ≡ 0
unfolding zero_bytes
zero_bytes-inside m dst b zero x h l u = absurd (omega arith)
zero_bytes-inside m dst b (suc n) x h l u = elim (Bool-cases (x == dst + b)) [
  | inl e ↦
      let e' : x ≡ dst + b = ground arith in
      zero_bytes-outside (store8 m (add64 dst b) 0) dst (b + 1) n x (omega arith) (omega arith)
      ∙ ground arith
  | inr ne ↦
      zero_bytes-inside (store8 m (add64 dst b) 0) dst (b + 1) n x (omega arith) (ground arith)
        (omega arith)
]
