-- ===== src/Stf/Tests.antt =====
-- A model file with two tensors, and the theorems at it.
use samos.Base.{
  ℕ, ◌+◌, ◌-◌, ◌≡◌, refl, arith, List, [], ◌∷◌, ◌++◌, replicate, Memory, bytes_at, bytes_at-IsBytes,
  some, none, false, true, ◌<◌, ◌≤◌, ◌≢◌, ◌*◌, ◌^◌, IsBytes,
}
use samos.Stf.{
  StfModel, stf_load, stf_validate, load_validated, stf_find, find_from, name_match,
  stf_tensor_data, fp16_to_fp32_bits, stf_n_elements, elements_loop, ok, n_tensors,
  header_data_offset, tensor_data_offset, tensor_data_bytes,
}
use samos.Stf.Load.{Meaning, stf_load_iff, stf_tensor_data-inside}
use samos.Stf.Half.{sign_of, exp_of, frac_of, magnitude, fp16_to_fp32_bits-magnitude}

abbrev word : ℕ → ℕ → List ℕ
word n v = v ∷ replicate (n - 1) 0

abbrev tensor : ℕ → ℕ → ℕ → List ℕ
tensor c offset size =
    (c ∷ replicate 63 0)
    ++ word 4 3
    ++ word 4 2
    ++ word 8 2
    ++ word 8 3
    ++ replicate 16 0
    ++ word 8 offset
    ++ word 8 size
    ++ replicate 8 0

-- Two tensors "a" and "b" of 34 and 4 bytes, data from offset 0x140 on.
abbrev file_bytes : List ℕ
file_bytes =
    (b'S' ∷ b'T' ∷ b'F' ∷ b'1' ∷ [])
    ++ word 4 1
    ++ word 4 2
    ++ word 4 0
    ++ (0x40 ∷ 1 ∷ replicate 6 0)
    ++ replicate 40 0
    ++ tensor b'a' 0 34
    ++ tensor b'b' 64 4
    ++ (1 ∷ 0x3c ∷ 0xff ∷ 7 ∷ replicate 30 0)

abbrev model_file : Memory
model_file = bytes_at 0x1000 file_bytes

abbrev empty_model : StfModel
empty_model = record {
  hdr = 0;
  tensors = 0;
  data_base = 0;
  buf_size = 0;
  data_size = 0;
  tensor_count = 0;
  is_loaded = false;
}

abbrev loaded_model : StfModel
loaded_model = (stf_load model_file 0x1000 0x200 empty_model).0

loads : (stf_load model_file 0x1000 0x200 empty_model).1 ≡ ok
unfolding stf_load stf_validate load_validated n_tensors header_data_offset
loads = refl

finds_b : stf_find model_file loaded_model (b'b' ∷ []) ≡ some 0x10c0
unfolding stf_find find_from name_match stf_load stf_validate load_validated n_tensors
    header_data_offset
finds_b = refl

data_b : stf_tensor_data model_file loaded_model 0x10c0 ≡ some 0x1180
unfolding stf_tensor_data stf_load stf_validate load_validated n_tensors header_data_offset
    tensor_data_offset tensor_data_bytes
data_b = refl

six : stf_n_elements model_file 0x10c0 ≡ 6
unfolding stf_n_elements elements_loop
six = refl

one_half : fp16_to_fp32_bits 0x3800 ≡ 0x3f000000
unfolding fp16_to_fp32_bits
one_half = refl

is_byte : IsBytes model_file
is_byte = bytes_at-IsBytes 0x1000 file_bytes (omega arith)

-- The witnesses.
stf_load_iff_example :
    let (after, r) = stf_load model_file 0x1000 0x200 empty_model in
    Meaning model_file 0x1000 0x200 empty_model after r
stf_load_iff_example = stf_load_iff model_file 0x1000 0x200 empty_model (omega arith)

stf_tensor_data-inside_example :
    let start =
      0x1000 + header_data_offset model_file 0x1000 + tensor_data_offset model_file 0x10c0 in
    (header_data_offset model_file 0x1000
          + tensor_data_offset model_file 0x10c0
          + tensor_data_bytes model_file 0x10c0
        ≤ 0x200
      → (stf_tensor_data model_file loaded_model 0x10c0 ≡ some start)
        × (0x1000 + 64 + n_tensors model_file 0x1000 * 128 ≤ start)
        × (start + tensor_data_bytes model_file 0x10c0 ≤ 0x1000 + 0x200))
    × (0x200
          < header_data_offset model_file 0x1000
            + tensor_data_offset model_file 0x10c0
            + tensor_data_bytes model_file 0x10c0
        → stf_tensor_data model_file loaded_model 0x10c0 ≡ none)
stf_tensor_data-inside_example =
    stf_tensor_data-inside model_file 0x1000 0x200 empty_model (omega arith) loads 0x10c0

loaded_flag : loaded_model.is_loaded ≡ true
unfolding stf_load stf_validate load_validated n_tensors header_data_offset
loaded_flag = refl

fp16_to_fp32_bits-magnitude_example :
    let w = fp16_to_fp32_bits 0x3800 in
    (sign_of 8 23 w ≡ sign_of 5 10 0x3800)
    × (exp_of 5 10 0x3800 ≢ 0
        → exp_of 5 10 0x3800 ≢ 31
        → magnitude 8 23 w ≡ magnitude 5 10 0x3800 * 2 ^ 125)
    × (exp_of 5 10 0x3800 ≡ 0 → magnitude 8 23 w ≡ 0)
    × (exp_of 5 10 0x3800 ≡ 31
        → (exp_of 8 23 w ≡ 255) × (frac_of 8 23 w ≡ frac_of 5 10 0x3800 * 2 ^ 13))
fp16_to_fp32_bits-magnitude_example = fp16_to_fp32_bits-magnitude 0x3800 (omega arith)
