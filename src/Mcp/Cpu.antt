-- ===== src/Mcp/Cpu.antt =====
-- The CPUID part of kernel/mcp.h; `cpuid` is what the instruction answers.
use samos.Base.{
  ℕ, zero, suc, ◌+◌, ◌≤◌, ◌<◌, ◌≡◌, refl, ◌∙◌, arith, not, ◌||◌, ltb, leb, ◌==◌, if◌then◌else◌,
  if-cases, List, [], ◌∷◌, ◌++◌, get_or, set, length, length-set, replicate, bit_and, bit_and-mask,
  u8, ◌>>>◌,
}
use samos.Mcp.Profile.{SamMcp, mcp_arch_x86_64, mcp_simd_scalar, mcp_simd_sse42, mcp_simd_avx2}

-- `mcp_cpuid_t`
pub record McpCpuid : Type 0 where
  pub eax : ℕ
  pub ebx : ℕ
  pub ecx : ℕ
  pub edx : ℕ

-- A word as it lies in memory.
abbrev pub word_bytes : ℕ → List ℕ
word_bytes w = u8 w ∷ u8 (w >>> 8) ∷ u8 (w >>> 16) ∷ u8 (w >>> 24) ∷ []

abbrev pub leaf_bytes : McpCpuid → List ℕ
leaf_bytes r = word_bytes r.eax ++ (word_bytes r.ebx ++ (word_bytes r.ecx ++ word_bytes r.edx))

-- while (brand[si] == ' ') si++;
unfoldable pub spaces : List ℕ → ℕ
spaces [] = 0
spaces (c ∷ cs) = let rest = spaces cs in if c == 32 then suc rest else 0

-- while (brand[si]) brand[di++] = brand[si++];  brand[di] = 0;  There are 48 bytes.
unfoldable pub shift_loop : ℕ → List ℕ → ℕ → ℕ → List ℕ
shift_loop zero brand di si = brand
shift_loop (suc fuel) brand di si =
    let rest = shift_loop fuel (set brand di (get_or brand si 0)) (di + 1) (si + 1) in
    if get_or brand si 0 == 0 then set brand di 0 else rest

unfoldable pub strip_brand : List ℕ → List ℕ
strip_brand brand = if spaces brand == 0 then brand else shift_loop 48 brand 0 (spaces brand)

-- "x86-64 processor"
abbrev pub fallback_brand : List ℕ
fallback_brand =
    b'x' ∷ b'8' ∷ b'6' ∷ b'-' ∷ b'6' ∷ b'4' ∷ b' ' ∷ b'p' ∷ b'r' ∷ b'o' ∷ b'c' ∷ b'e' ∷ b's' ∷ b's'
    ∷ b'o' ∷ b'r' ∷ []

length-shift_loop :
    (fuel : ℕ) (brand : List ℕ) (di si : ℕ) → length (shift_loop fuel brand di si) ≡ length brand
unfolding shift_loop
length-shift_loop zero brand di si = refl
length-shift_loop (suc fuel) brand di si =
    if-cases (λ (b : List ℕ). length b ≡ length brand) (get_or brand si 0 == 0)
      (λ e. length-set brand di 0)
      (λ e.
        length-shift_loop fuel (set brand di (get_or brand si 0)) (di + 1) (si + 1)
        ∙ length-set brand di (get_or brand si 0))

length-strip_brand : (brand : List ℕ) → length (strip_brand brand) ≡ length brand
unfolding strip_brand
length-strip_brand brand =
    if-cases (λ (b : List ℕ). length b ≡ length brand) (spaces brand == 0) (λ e. refl)
      (λ e. length-shift_loop 48 brand 0 (spaces brand))

module _ (cpuid : ℕ → ℕ → McpCpuid) where
  unfoldable pub brand_string : List ℕ
  brand_string =
      if leb 0x80000004 (cpuid 0x80000000 0).eax
      then strip_brand (
          set
            (leaf_bytes (cpuid 0x80000002 0)
              ++ (leaf_bytes (cpuid 0x80000003 0) ++ leaf_bytes (cpuid 0x80000004 0)))
            47 0)
      else fallback_brand ++ replicate 32 0

  -- `logical` and `cores`
  abbrev pub logical : ℕ
  logical = let n = bit_and ((cpuid 1 0).ebx >>> 16) 0xFF in if n == 0 then 1 else n

  abbrev pub cores : ℕ
  cores =
      let n = u8 (bit_and ((cpuid 4 0).eax >>> 26) 0x3F + 1) in
      if n == 0 || ltb logical n then logical else n

  abbrev pub simd : ℕ
  simd =
      if not (bit_and ((cpuid 7 0).ebx >>> 5) 1 == 0)
      then mcp_simd_avx2
      else if not (bit_and ((cpuid 1 0).ecx >>> 28) 1 == 0)
      then mcp_simd_sse42
      else if not (bit_and ((cpuid 1 0).ecx >>> 20) 1 == 0)
      then mcp_simd_sse42
      else mcp_simd_scalar

  unfoldable pub mcp_scan_cpu : SamMcp → SamMcp
  mcp_scan_cpu mcp = record mcp {
    cpu_arch = mcp_arch_x86_64;
    cpu_brand = brand_string;
    cpu_cores = cores;
    cpu_threads = logical;
    simd_level = simd;
  }

  cores_bounds : (1 ≤ cores) × (cores ≤ logical) × (logical < 256)
  cores_bounds =
      let l = bit_and-mask 8 ((cpuid 1 0).ebx >>> 16) in (ground arith, ground arith, ground arith)

  length-brand_string : length brand_string ≡ 48
  unfolding brand_string
  length-brand_string =
      if-cases (λ (b : List ℕ). length b ≡ 48) (leb 0x80000004 (cpuid 0x80000000 0).eax)
        (λ e. length-strip_brand _ ∙ refl) (λ e. refl)

  -- Whatever CPUID answers, the profile has at least one core, no more cores than threads, at most
  -- 255 threads, and a brand field of 48 bytes.
  pub mcp_scan_cpu-bounds :
      (mcp : SamMcp)
      → let after = mcp_scan_cpu mcp in
        (1 ≤ after.cpu_cores)
        × (after.cpu_cores ≤ after.cpu_threads)
        × (after.cpu_threads < 256)
        × (length after.cpu_brand ≡ 48)
  unfolding mcp_scan_cpu
  mcp_scan_cpu-bounds mcp = (cores_bounds.0, cores_bounds.1, cores_bounds.2, length-brand_string)
