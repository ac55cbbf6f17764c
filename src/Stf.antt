-- ===== src/Stf.antt =====
-- kernel/stf.h: the index over a model file in the SAM tensor format. The file is a buffer in
-- memory; a pointer into it is an address. `int32_t` and `float` are their 32-bit words.
pub mod Format
pub mod Load
pub mod Find
pub mod Half
pub mod Block
mod Tests
use samos.Base.{
  ℕ, zero, suc, ◌+◌, ◌-◌, ◌*◌, ◌^◌, Bool, true, false, ◌&&◌, ◌||◌, not, ltb, ◌==◌, if◌then◌else◌,
  Option, some, none, List, [], ◌∷◌, Memory, load32, load64, add64, sub64, u64, bit_and, bit_or,
  ◌>>>◌, u32,
}

-- sizeof(stf_header_t), sizeof(stf_tensor_t)
abbrev pub header_size : ℕ
header_size = 64

abbrev pub tensor_size : ℕ
tensor_size = 128

-- STF_VERSION, STF_MAX_TENSORS, STF_Q8_BLOCK_SIZE
abbrev pub stf_version : ℕ
stf_version = 1

abbrev pub stf_max_tensors : ℕ
stf_max_tensors = 256

abbrev pub stf_q8_block_size : ℕ
stf_q8_block_size = 32

-- The fields of `stf_header_t` that are read, at their offsets in the packed struct.
module _ (m : Memory) (h : ℕ) where
  abbrev pub magic : ℕ → ℕ
  magic k = m (add64 h k)

  abbrev pub version : ℕ
  version = load32 m (add64 h 4)

  pub n_tensors : ℕ
  n_tensors = load32 m (add64 h 8)

  pub header_data_offset : ℕ
  header_data_offset = load64 m (add64 h 16)

-- The fields of `stf_tensor_t`; the name is the first of them.
module _ (m : Memory) (t : ℕ) where
  abbrev pub ndim : ℕ
  ndim = load32 m (add64 t 68)

  abbrev pub shape : ℕ → ℕ
  shape i = load64 m (add64 t (72 + 8 * i))

  pub tensor_data_offset : ℕ
  tensor_data_offset = load64 m (add64 t 104)

  pub tensor_data_bytes : ℕ
  tensor_data_bytes = load64 m (add64 t 112)

-- `stf_model_t`
pub record StfModel : Type 0 where
  pub hdr : ℕ
  pub tensors : ℕ
  pub data_base : ℕ
  pub buf_size : ℕ
  pub data_size : ℕ
  pub tensor_count : ℕ
  pub is_loaded : Bool

-- 0 and -1 to -7, what `stf_validate` and `stf_load` return.
pub data StfResult : Type 0 where
  ok too_small bad_magic bad_version bad_count truncated bad_data_offset table_overlaps : StfResult

-- 64 + n_tensors * 128
abbrev pub tensor_end : Memory → ℕ → ℕ
tensor_end m buf = u64 (64 + n_tensors m buf * 128)

abbrev pub magic_ok : Memory → ℕ → Bool
magic_ok m h =
    magic m h 0 == b'S' && (magic m h 1 == b'T' && (magic m h 2 == b'F' && magic m h 3 == b'1'))

pub stf_validate : Memory → ℕ → ℕ → StfResult
stf_validate m buf buf_size =
    if ltb buf_size header_size
    then too_small
    else if not (magic_ok m buf)
    then bad_magic
    else if not (version m buf == stf_version)
    then bad_version
    else if n_tensors m buf == 0 || ltb stf_max_tensors (n_tensors m buf)
    then bad_count
    else if ltb buf_size (tensor_end m buf)
    then truncated
    else ok

abbrev pub model_of : Memory → ℕ → ℕ → StfModel
model_of m buf size = record {
  hdr = buf;
  tensors = add64 buf 64;
  data_base = add64 buf (header_data_offset m buf);
  buf_size = size;
  data_size = sub64 size (header_data_offset m buf);
  tensor_count = n_tensors m buf;
  is_loaded = true;
}

-- What follows a validation with the result `r`.
pub load_validated : Memory → ℕ → ℕ → StfModel → StfResult → StfModel × StfResult
load_validated m buf buf_size model ok =
    if not (ltb (header_data_offset m buf) buf_size)
    then (model, bad_data_offset)
    else if ltb (header_data_offset m buf) (tensor_end m buf)
    then (model, table_overlaps)
    else (model_of m buf buf_size, ok)
load_validated m buf buf_size model r = (model, r)

pub stf_load : Memory → ℕ → ℕ → StfModel → StfModel × StfResult
stf_load m buf buf_size model = load_validated m buf buf_size model (stf_validate m buf buf_size)

-- The comparison of the C string at `a` with a name, the list of its bytes before the NUL.
pub name_match : Memory → ℕ → List ℕ → Bool
name_match m a [] = m a == 0
name_match m a (c ∷ cs) = m a == c && name_match m (add64 a 1) cs

abbrev pub tensor_at : StfModel → ℕ → ℕ
tensor_at model i = add64 model.tensors (i * tensor_size)

-- The loop of `stf_find` from index `i` on, `left` tensors before the end.
pub find_from : Memory → StfModel → List ℕ → ℕ → ℕ → Option ℕ
find_from m model name i zero = none
find_from m model name i (suc left) =
    if name_match m (tensor_at model i) name
    then some (tensor_at model i)
    else find_from m model name (i + 1) left

-- `none` is NULL.
pub stf_find : Memory → StfModel → List ℕ → Option ℕ
stf_find m model name =
    if not model.is_loaded then none else find_from m model name 0 model.tensor_count

pub stf_tensor_data : Memory → StfModel → ℕ → Option ℕ
stf_tensor_data m model t =
    if ltb model.data_size (tensor_data_offset m t)
    then none
    else if ltb (sub64 model.data_size (tensor_data_offset m t)) (tensor_data_bytes m t)
    then none
    else some (add64 model.data_base (tensor_data_offset m t))

-- `(int32_t)(int8_t)b`
abbrev pub sign_extend8 : ℕ → ℕ
sign_extend8 b = if ltb b 128 then b else 2 ^ 32 - 256 + b

-- The loops over the weights at `w`, `left` of them.
pub dequant_loop : Memory → ℕ → ℕ → List ℕ
dequant_loop m w zero = []
dequant_loop m w (suc left) = sign_extend8 (m w) ∷ dequant_loop m (add64 w 1) left

-- `*scale_fp16_bits` and `out_i32`
pub stf_q8_dequant_block : Memory → ℕ → ℕ × List ℕ
stf_q8_dequant_block m block =
    (bit_or (m block) (m (add64 block 1) * 2 ^ 8), dequant_loop m (add64 block 2) stf_q8_block_size)

pub nonzero_loop : Memory → ℕ → ℕ → Bool
nonzero_loop m w zero = false
nonzero_loop m w (suc left) = if not (m w == 0) then true else nonzero_loop m (add64 w 1) left

pub stf_q8_nonzero_check : Memory → ℕ → Bool
stf_q8_nonzero_check m block = nonzero_loop m (add64 block 2) stf_q8_block_size

-- The fields of a half: h >> 15, (h >> 10) & 0x1F, h & 0x3FF
abbrev pub half_sign : ℕ → ℕ
half_sign h = h >>> 15

abbrev pub half_exp : ℕ → ℕ
half_exp h = bit_and (h >>> 10) 0x1F

abbrev pub half_mant : ℕ → ℕ
half_mant h = bit_and h 0x3FF

pub fp16_to_fp32_bits : ℕ → ℕ
fp16_to_fp32_bits h =
    let sign = u32 (half_sign h * 2 ^ 31) in
    let mant = u32 (half_mant h * 2 ^ 13) in
    if half_exp h == 0
    then sign
    else if half_exp h == 31
    then bit_or (bit_or sign 0x7F800000) mant
    else bit_or (bit_or sign (u32 ((half_exp h + 112) * 2 ^ 23))) mant

-- for (i = i; left > 0; i++) n *= t->shape[i];
pub elements_loop : Memory → ℕ → ℕ → ℕ → ℕ → ℕ
elements_loop m t n i zero = n
elements_loop m t n i (suc left) = elements_loop m t (u64 (n * shape m t i)) (i + 1) left

pub stf_n_elements : Memory → ℕ → ℕ
stf_n_elements m t = elements_loop m t 1 0 (ndim m t)
