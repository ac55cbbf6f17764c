-- ===== src/Acpi/Signature.antt =====
-- What an RSDP is, and that the test of `acpi_find_rsdp` tells.
use samos.Base.{
  ℕ, zero, suc, ◌+◌, ◌%◌, ◌<◌, ◌^◌, ◌≡◌, refl, ap, ◌∙◌, arith, true, List, [], ◌∷◌, length, get_or,
  Memory, add64, u8,
}
use samos.Serial.{codes}
use samos.Acpi.{sum_loop, acpi_checksum, has_signature, is_rsdp, rsdp_sig}

-- The sum of `n` bytes.
pub sum_of : Memory → ℕ → ℕ → ℕ
sum_of m a zero = 0
sum_of m a (suc n) = m a + sum_of m (a + 1) n

-- The signature, and a sum of the first 20 bytes that is a multiple of 256.
pub record IsRsdp (m : Memory) (r : ℕ) : Type 0 where
  pub signature : (i : ℕ) → i < 8 → m (r + i) ≡ get_or (codes "RSD PTR ") i 0
  pub checksum : sum_of m r 20 % 256 ≡ 0

module _ (m : Memory) where
  sum_loop-sum_of :
      (left p i sum : ℕ)
      → p + i + left < 2 ^ 64
      → sum < 256
      → sum_loop m p i left sum ≡ (sum + sum_of m (p + i) left) % 256
  unfolding sum_loop sum_of
  sum_loop-sum_of zero p i sum f h = omega arith
  sum_loop-sum_of (suc left) p i sum f h =
      let e : add64 p i ≡ p + i = omega arith in
      let next : p + (i + 1) ≡ p + i + 1 = omega arith in
      sum_loop-sum_of left p (i + 1) (u8 (sum + m (add64 p i))) (omega arith) (omega arith)
      ∙ rw (e, next) (omega arith)

  has_signature-reads :
      (cs : List ℕ) (p i : ℕ)
      → p + length cs < 2 ^ 64
      → has_signature m p cs ≡ true
      → i < length cs
      → m (p + i) ≡ get_or cs i 0
  unfolding has_signature
  has_signature-reads [] p i f h l = absurd (omega arith)
  has_signature-reads (c ∷ cs) p zero f h l = let e : p + 0 ≡ p = omega arith in rw e (ground arith)
  has_signature-reads (c ∷ cs) p (suc i) f h l =
      ap m (omega arith)
      ∙ has_signature-reads cs (add64 p 1) i (omega arith) (ground arith) (omega arith)

  reads-has_signature :
      (cs : List ℕ) (p : ℕ)
      → p + length cs < 2 ^ 64
      → ((i : ℕ) → i < length cs → m (p + i) ≡ get_or cs i 0)
      → has_signature m p cs ≡ true
  unfolding has_signature
  reads-has_signature [] p f h = refl
  reads-has_signature (c ∷ cs) p f h =
      let first : m p ≡ c = ap m (omega arith) ∙ h 0 (omega arith) in
      let rest =
        reads-has_signature cs (add64 p 1) (omega arith)
          (λ i l. ap m (omega arith) ∙ h (suc i) (omega arith)) in
      ground arith

  checksum_eq : (r : ℕ) → r + 20 < 2 ^ 64 → sum_loop m r 0 20 0 ≡ sum_of m r 20 % 256
  checksum_eq r f =
      sum_loop-sum_of 20 r 0 0 (omega arith) (omega arith)
      ∙ (let e : r + 0 ≡ r = omega arith in rw e (omega arith))

  pub is_rsdp-IsRsdp : (r : ℕ) → r + 20 < 2 ^ 64 → is_rsdp m r ≡ true → IsRsdp m r
  unfolding acpi_checksum
  is_rsdp-IsRsdp r f h = record {
    signature = λ i l. has_signature-reads (rsdp_sig m) r i (omega arith) (ground arith) l;
    checksum = let e = checksum_eq r f in ground arith;
  }

  pub IsRsdp-is_rsdp : (r : ℕ) → r + 20 < 2 ^ 64 → IsRsdp m r → is_rsdp m r ≡ true
  unfolding acpi_checksum
  IsRsdp-is_rsdp r f is =
      let s = reads-has_signature (rsdp_sig m) r (omega arith) is.signature in
      let e = checksum_eq r f in let c = is.checksum in ground arith
