-- ===== src/Stf/Load.antt =====
-- Which buffers `stf_load` accepts, and where the data of their tensors lies.
use samos.Base.{
  ℕ, ◌+◌, ◌*◌, ◌≤◌, ◌<◌, ◌^◌, ◌≡◌, ◌≢◌, ◌↔◌, ap, arith, refl, if-cases, not, ltb, ◌||◌, ◌==◌, some,
  none, Memory, true,
}
use samos.Stf.{
  StfModel, StfResult, tensor_end, too_small, bad_magic, bad_version, bad_count, truncated,
  bad_data_offset, table_overlaps, n_tensors, header_data_offset, tensor_data_offset,
  tensor_data_bytes, version, magic_ok, ok, stf_validate, load_validated, stf_load, stf_tensor_data,
  model_of, stf_version, header_size, stf_max_tensors,
}
use samos.Stf.Format.{
  number, HasMagic, tensors_said, table_end, IsStf, IsIndex, IsReason, version-number,
  n_tensors-number, header_data_offset-number, magic_ok-HasMagic, HasMagic-magic_ok,
  IsStf-no_reason,
}

-- What the code's own tests say of a buffer that is accepted.
record IsChecked (m : Memory) (buf size : ℕ) : Type 0 where
  whole_header : header_size ≤ size
  right_magic : magic_ok m buf ≡ true
  right_version : version m buf ≡ stf_version
  some_tensors : 0 < n_tensors m buf
  few_tensors : n_tensors m buf ≤ stf_max_tensors
  table_first : 64 + n_tensors m buf * 128 ≤ header_data_offset m buf
  data_in_buffer : header_data_offset m buf < size

-- What a call on `model` that leaves the index `after` and returns `r` means.
abbrev pub Meaning : Memory → ℕ → ℕ → StfModel → StfModel → StfResult → Type 0
Meaning m buf size model after r =
    ((r ≡ ok) ↔ IsStf m buf size)
    × (r ≡ ok → IsIndex m buf size after)
    × (r ≢ ok → IsReason m buf size r × (after ≡ model))

module _ (m : Memory) (buf size : ℕ) (model : StfModel) where
  accepted_IsChecked : (stf_load m buf size model).1 ≡ ok → IsChecked m buf size
  unfolding stf_load load_validated stf_validate
  accepted_IsChecked h = ground arith

  IsChecked-accepted : IsChecked m buf size → stf_load m buf size model ≡ (model_of m buf size, ok)
  unfolding stf_load load_validated stf_validate
  IsChecked-accepted h = ground (
    arith, h.whole_header, h.right_magic, h.right_version, h.some_tensors, h.few_tensors,
    h.table_first, h.data_in_buffer,
  )

  -- What a call that leaves the index `after` and returns `r` says.
  Judged : StfModel → StfResult → Type 0
  Judged after ok = IsStf m buf size × IsIndex m buf size after
  Judged after too_small = IsReason m buf size too_small × (after ≡ model)
  Judged after bad_magic = IsReason m buf size bad_magic × (after ≡ model)
  Judged after bad_version = IsReason m buf size bad_version × (after ≡ model)
  Judged after bad_count = IsReason m buf size bad_count × (after ≡ model)
  Judged after truncated = IsReason m buf size truncated × (after ≡ model)
  Judged after bad_data_offset = IsReason m buf size bad_data_offset × (after ≡ model)
  Judged after table_overlaps = IsReason m buf size table_overlaps × (after ≡ model)

  -- What a validation with the result `r` says.
  record IsHeader : Type 0 where
    whole : 64 ≤ size
    right_magic : HasMagic m buf
    right_version : number m (buf + 4) 4 ≡ 1
    some_tensors : 0 < tensors_said m buf
    few_tensors : tensors_said m buf ≤ 256
    table_fits : table_end m buf ≤ size

  Validated : StfResult → Type 0
  Validated ok = IsHeader
  Validated too_small = IsReason m buf size too_small
  Validated bad_magic = IsReason m buf size bad_magic
  Validated bad_version = IsReason m buf size bad_version
  Validated bad_count = IsReason m buf size bad_count
  Validated truncated = IsReason m buf size truncated
  Validated bad_data_offset = ⊥
  Validated table_overlaps = ⊥

  module _ (fits : buf + size < 2 ^ 64) where
    stf_validate-Validated : Validated (stf_validate m buf size)
    unfolding stf_validate Validated IsReason
    stf_validate-Validated =
        if-cases Validated (ltb size header_size) (λ e. ground arith)
          (λ big.
            let f : buf + 64 < 2 ^ 64 = ground arith in
            let v = version-number m buf f in
            let n = n_tensors-number m buf f in
            if-cases Validated (not (magic_ok m buf))
              (λ e h. let t = HasMagic-magic_ok m buf f h in absurd (ground arith))
              (λ e1.
                if-cases Validated (not (version m buf == stf_version)) (λ e h. ground arith)
                  (λ e2.
                    if-cases Validated
                      (n_tensors m buf == 0 || ltb stf_max_tensors (n_tensors m buf))
                      (λ e. ground arith)
                      (λ e3.
                        if-cases Validated (ltb size (tensor_end m buf)) (λ e. ground arith)
                          (λ e4. record {
                            whole = ground arith;
                            right_magic = magic_ok-HasMagic m buf f (ground arith);
                            right_version = ground arith;
                            some_tensors = ground arith;
                            few_tensors = ground arith;
                            table_fits = ground arith;
                          })))))

    load_validated-Judged :
        (r : StfResult)
        → Validated r
        → let (after, r') = load_validated m buf size model r in Judged after r'
    unfolding load_validated Validated Judged IsReason
    load_validated-Judged ok h =
        let P = λ (q : StfModel × StfResult). Judged q.0 q.1 in
        let f : buf + 64 < 2 ^ 64 = omega (arith, h.whole) in
        let n = n_tensors-number m buf f in
        let d = header_data_offset-number m buf f in
        let few = h.few_tensors in
        if-cases P (not (ltb (header_data_offset m buf) size)) (λ e. (ground arith, refl))
          (λ e1.
            if-cases P (ltb (header_data_offset m buf) (tensor_end m buf))
              (λ e. (ground arith, refl))
              (λ e2. (
                record {
                  whole_header = h.whole;
                  right_magic = h.right_magic;
                  right_version = h.right_version;
                  some_tensors = h.some_tensors;
                  few_tensors = h.few_tensors;
                  table_first = ground arith;
                  data_in_buffer = ground arith;
                },
                record {
                  at_header = refl;
                  behind_header = omega arith;
                  whole_table = ground arith;
                  all_tensors = n;
                  at_data = ground arith;
                  up_to_end = ground arith;
                  whole_buffer = refl;
                  marked = refl;
                },
              )))
    load_validated-Judged too_small h = (h, refl)
    load_validated-Judged bad_magic h = (h, refl)
    load_validated-Judged bad_version h = (h, refl)
    load_validated-Judged bad_count h = (h, refl)
    load_validated-Judged truncated h = (h, refl)
    load_validated-Judged bad_data_offset h = absurd h
    load_validated-Judged table_overlaps h = absurd h

  refusal :
      (after : StfModel) (r : StfResult)
      → r ≢ ok
      → IsReason m buf size r × (after ≡ model)
      → Meaning m buf size model after r
  refusal after r n h = (
    (λ e. absurd (n e), λ s. absurd (IsStf-no_reason m buf size r s h.0)),
    λ e. absurd (n e),
    λ n'. h,
  )

  Judged-Meaning :
      (after : StfModel) (r : StfResult) → Judged after r → Meaning m buf size model after r
  unfolding Judged
  Judged-Meaning after ok j = ((λ e. j.0, λ s. refl), λ e. j.1, λ n. absurd (n refl))
  Judged-Meaning after too_small j = refusal after too_small (λ e. cc) j
  Judged-Meaning after bad_magic j = refusal after bad_magic (λ e. cc) j
  Judged-Meaning after bad_version j = refusal after bad_version (λ e. cc) j
  Judged-Meaning after bad_count j = refusal after bad_count (λ e. cc) j
  Judged-Meaning after truncated j = refusal after truncated (λ e. cc) j
  Judged-Meaning after bad_data_offset j = refusal after bad_data_offset (λ e. cc) j
  Judged-Meaning after table_overlaps j = refusal after table_overlaps (λ e. cc) j

  -- `stf_load` returns 0 exactly for the model files, and then the index describes the buffer: its
  -- table is the descriptors behind the header, one for each tensor that the header names, and its
  -- data section is the rest of the buffer from the data offset on, and begins behind the table.
  -- Any other result leaves the index as it was and names something that is wrong with the buffer.
  -- The buffer does not wrap round the address space.
  pub stf_load_iff :
      buf + size < 2 ^ 64
      → let (after, r) = stf_load m buf size model in Meaning m buf size model after r
  unfolding stf_load
  stf_load_iff fits =
      let r = stf_validate m buf size in
      let (after, r') = load_validated m buf size model r in
      Judged-Meaning after r' (load_validated-Judged fits r (stf_validate-Validated fits))

  -- A loaded file hands out tensor data only inside its data section: a descriptor, wherever it is
  -- read from, whose offset and size together fit gives the address of its data, which lies
  -- behind the tensor table and ends in the buffer; any other descriptor gives NULL. The buffer
  -- does not wrap round the address space.
  pub stf_tensor_data-inside :
      buf + size < 2 ^ 64
      → (stf_load m buf size model).1 ≡ ok
      → (t : ℕ)
      → let loaded = (stf_load m buf size model).0 in
        let start = buf + header_data_offset m buf + tensor_data_offset m t in
        (header_data_offset m buf + tensor_data_offset m t + tensor_data_bytes m t ≤ size
          → (stf_tensor_data m loaded t ≡ some start)
            × (buf + 64 + n_tensors m buf * 128 ≤ start)
            × (start + tensor_data_bytes m t ≤ buf + size))
        × (size < header_data_offset m buf + tensor_data_offset m t + tensor_data_bytes m t
            → stf_tensor_data m loaded t ≡ none)
  unfolding stf_tensor_data
  stf_tensor_data-inside fits h t =
      let s = accepted_IsChecked h in
      rw (ap (λ r. r.0) (IsChecked-accepted s)) (
        λ le. (ground (arith, s.data_in_buffer), omega (arith, s.table_first), omega arith),
        λ lt. ground (arith, s.data_in_buffer),
      )
