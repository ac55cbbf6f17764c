-- ===== src/Stf/Format.antt =====
-- What a model file is, field by field, and that the accessors and tests of kernel/stf.h read it so.
use samos.Base.{
  ℕ, zero, suc, ◌+◌, ◌*◌, ◌≤◌, ◌<◌, ◌^◌, ◌≡◌, ◌≢◌, ◌⊎◌, sym, ap, ◌∙◌, arith, true, Memory, add64,
  load32, load64,
}
use samos.Stf.{
  StfModel, StfResult, n_tensors, header_data_offset, version, magic, magic_ok, ok, too_small,
  bad_magic, bad_version, bad_count, truncated, bad_data_offset, table_overlaps,
}

-- The number of `n` bytes at `a`, the lowest first.
pub number : Memory → ℕ → ℕ → ℕ
number m a zero = 0
number m a (suc n) = m a + 256 * number m (a + 1) n

-- The header of 64 bytes has the characters STF1, the version at offset 4, the number of tensors at
-- offset 8 and the start of the data at offset 16. The descriptors of 128 bytes follow it.
module _ (m : Memory) (buf : ℕ) where
  abbrev pub HasMagic : Type 0
  HasMagic = (m buf ≡ b'S') × (m (buf + 1) ≡ b'T') × (m (buf + 2) ≡ b'F') × (m (buf + 3) ≡ b'1')

  abbrev pub tensors_said : ℕ
  tensors_said = number m (buf + 8) 4

  abbrev pub data_start : ℕ
  data_start = number m (buf + 16) 8

  abbrev pub table_end : ℕ
  table_end = 64 + 128 * tensors_said

-- A model file: the header is right, the table of 1 to 256 tensors ends before the data section,
-- and the data section begins in the buffer.
pub record IsStf (m : Memory) (buf size : ℕ) : Type 0 where
  pub whole_header : 64 ≤ size
  pub right_magic : HasMagic m buf
  pub right_version : number m (buf + 4) 4 ≡ 1
  pub some_tensors : 0 < tensors_said m buf
  pub few_tensors : tensors_said m buf ≤ 256
  pub table_first : table_end m buf ≤ data_start m buf
  pub data_in_buffer : data_start m buf < size

-- The index of a buffer: the table of descriptors lies behind the header and ends before the data
-- section, which reaches to the end of the buffer.
pub record IsIndex (m : Memory) (buf size : ℕ) (model : StfModel) : Type 0 where
  pub at_header : model.hdr ≡ buf
  pub behind_header : model.tensors ≡ buf + 64
  pub whole_table : model.tensors + 128 * model.tensor_count ≤ model.data_base
  pub all_tensors : model.tensor_count ≡ tensors_said m buf
  pub at_data : model.data_base ≡ buf + data_start m buf
  pub up_to_end : model.data_base + model.data_size ≡ buf + size
  pub whole_buffer : model.buf_size ≡ size
  pub marked : model.is_loaded ≡ true

-- What is wrong with a buffer that is refused with this result.
unfoldable pub IsReason : Memory → ℕ → ℕ → StfResult → Type 0
IsReason m buf size ok = ⊥
IsReason m buf size too_small = size < 64
IsReason m buf size bad_magic = ¬ HasMagic m buf
IsReason m buf size bad_version = number m (buf + 4) 4 ≢ 1
IsReason m buf size bad_count = (tensors_said m buf ≡ 0) ⊎ (256 < tensors_said m buf)
IsReason m buf size truncated = size < table_end m buf
IsReason m buf size bad_data_offset = size ≤ data_start m buf
IsReason m buf size table_overlaps = data_start m buf < table_end m buf

load32-number : (m : Memory) (a : ℕ) → a + 4 < 2 ^ 64 → load32 m a ≡ number m a 4
unfolding number
load32-number m a f =
    let e1 : add64 a 1 ≡ a + 1 = omega arith in
    let e2 : add64 a 2 ≡ a + 2 = omega arith in
    let e3 : add64 (a + 2) 1 ≡ a + 2 + 1 = omega arith in
    let e4 : a + 1 + 1 ≡ a + 2 = omega arith in rw (e1, e2, e3, e4) (omega arith)

halves : (m : Memory) (a : ℕ) → number m a 4 + 4294967296 * number m (a + 4) 4 ≡ number m a 8
unfolding number
halves m a = let e : a + 1 + 1 + 1 + 1 ≡ a + 4 = omega arith in rw e (omega arith)

load64-number : (m : Memory) (a : ℕ) → a + 8 < 2 ^ 64 → load64 m a ≡ number m a 8
load64-number m a f =
    let e1 : add64 a 4 ≡ a + 4 = omega arith in
    rw (e1, load32-number m a (omega arith), load32-number m (a + 4) (omega arith)) (halves m a)

-- The fields as the code reads them.
module _ (m : Memory) (buf : ℕ) (fits : buf + 64 < 2 ^ 64) where
  abbrev shifted : (k : ℕ) → k < 64 → add64 buf k ≡ buf + k
  shifted k h = omega arith

  pub version-number : version m buf ≡ number m (buf + 4) 4
  version-number = ap (load32 m) (shifted 4 (omega arith)) ∙ load32-number m (buf + 4) (omega arith)

  pub n_tensors-number : n_tensors m buf ≡ tensors_said m buf
  unfolding n_tensors
  n_tensors-number =
      ap (load32 m) (shifted 8 (omega arith)) ∙ load32-number m (buf + 8) (omega arith)

  pub header_data_offset-number : header_data_offset m buf ≡ data_start m buf
  unfolding header_data_offset
  header_data_offset-number =
      ap (load64 m) (shifted 16 (omega arith)) ∙ load64-number m (buf + 16) (omega arith)

  magic_at : (k : ℕ) → k < 64 → magic m buf k ≡ m (buf + k)
  magic_at k h = ap m (shifted k h)

  first : magic m buf 0 ≡ m buf
  first = ap m (omega arith)

  pub magic_ok-HasMagic : magic_ok m buf ≡ true → HasMagic m buf
  magic_ok-HasMagic h = (
    sym first ∙ ground arith,
    sym (magic_at 1 (omega arith)) ∙ ground arith,
    sym (magic_at 2 (omega arith)) ∙ ground arith,
    sym (magic_at 3 (omega arith)) ∙ ground arith,
  )

  pub HasMagic-magic_ok : HasMagic m buf → magic_ok m buf ≡ true
  HasMagic-magic_ok (a, b, c, d) =
      let a' = first ∙ a in
      let b' = magic_at 1 (omega arith) ∙ b in
      let c' = magic_at 2 (omega arith) ∙ c in let d' = magic_at 3 (omega arith) ∙ d in ground arith

-- No reason to refuse a model file.
pub IsStf-no_reason :
    (m : Memory) (buf size : ℕ) (r : StfResult) → IsStf m buf size → IsReason m buf size r → ⊥
unfolding IsReason
IsStf-no_reason m buf size ok s h = h
IsStf-no_reason m buf size too_small s h = omega (arith, s.whole_header)
IsStf-no_reason m buf size bad_magic s h = h s.right_magic
IsStf-no_reason m buf size bad_version s h = h s.right_version
IsStf-no_reason m buf size bad_count s h = omega (arith, s.some_tensors, s.few_tensors)
IsStf-no_reason m buf size truncated s h = omega (arith, s.table_first, s.data_in_buffer)
IsStf-no_reason m buf size bad_data_offset s h = omega (arith, s.data_in_buffer)
IsStf-no_reason m buf size table_overlaps s h = omega (arith, s.table_first)
