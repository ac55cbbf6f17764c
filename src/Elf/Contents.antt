-- ===== src/Elf/Contents.antt =====
-- What a successful load leaves in memory: the segments of the image, a later one over an earlier.
use native.Mathlib.Numerals.{add-one}
use samos.Base.{
  ◌||◌, ℕ, sym, zero, suc, ◌+◌, ◌*◌, ◌-◌, ◌≤◌, ◌<◌, ◌^◌, ◌≡◌, ◌≢◌, ◌⊎◌, inl, inr, refl, arith, ◌∙◌,
  ap, ap₂, Memory, IsBytes, add64, true, false, ltb, leb, Bool-cases, if◌then◌else◌, lt→ltb, ◌==◌,
  fun_ext, ◌&&◌,
}
use samos.Elf.{
  e_phnum, e_phoff, e_phentsize, e_entry, Phdr, read_phdr, phdr_address, phdr_size, skip, copy,
  verdict, check_phdr, load_segment, load_loop, elf_load_in, check_ehdr, loaded,
}
use samos.Elf.Copy.{zero_bytes-outside, copy_bytes-inside, zero_bytes-inside}
use samos.Elf.Image.{
  IsSized, IsPlaced, Agrees, verdict-same, phdr_address-same, phdr-same, e_phnum-same, e_entry-same,
}
use samos.Elf.Safety.{load_loop-end, load_loop-skip, load_loop-copy, load_segment-outside}

-- The byte at `x` after a segment has been laid over the memory `under`, read off the original
-- memory: a byte of the file, a zero, or what was there.
abbrev pub overlay : Memory → ℕ → Phdr → Memory → Memory
overlay m img ph under x =
    if ph.p_type == 1 && (leb ph.p_vaddr x && ltb x (ph.p_vaddr + ph.p_memsz))
    then if ltb x (ph.p_vaddr + ph.p_filesz) then m (img + ph.p_offset + (x - ph.p_vaddr)) else 0
    else under x

-- The first `n` segments of the image, in order.
pub laid_out : Memory → ℕ → ℕ → Memory
laid_out m img zero = m
laid_out m img (suc n) = overlay m img (read_phdr m (phdr_address m img n)) (laid_out m img n)

-- Every program header lies in the image, and every PT_LOAD segment in the window and the image.
pub record IsLoadable (m : Memory) (img size lo hi : ℕ) : Type 0 where
  pub in_image : (i : ℕ) → i < e_phnum m img → phdr_address m img i + phdr_size ≤ img + size
  pub in_window :
      (i : ℕ)
      → i < e_phnum m img
      → let ph = read_phdr m (phdr_address m img i) in
        ph.p_type ≡ 1
        → (lo ≤ ph.p_vaddr) × (ph.p_vaddr + ph.p_memsz ≤ hi) × (ph.p_offset + ph.p_filesz ≤ size)

check_phdr-skip :
    (img size lo hi : ℕ) (ph : Phdr) → ph.p_type ≢ 1 → check_phdr img size lo hi ph ≡ skip
unfolding check_phdr
check_phdr-skip img size lo hi ph h = ground arith

check_phdr-copy :
    (img size lo hi : ℕ) (ph : Phdr)
    → IsSized ph
    → ph.p_type ≡ 1
    → lo ≤ ph.p_vaddr
    → ph.p_vaddr + ph.p_memsz ≤ hi
    → ph.p_offset + ph.p_filesz ≤ size
    → check_phdr img size lo hi ph ≡ copy
unfolding check_phdr
check_phdr-copy img size lo hi ph s t l h f = ground arith

verdict-eq :
    (img size lo hi : ℕ) (m : Memory) (phb : ℕ)
    → phb + phdr_size ≤ img + size
    → img + size + phdr_size < 2 ^ 64
    → verdict img size lo hi m phb ≡ check_phdr img size lo hi (read_phdr m phb)
unfolding verdict
verdict-eq img size lo hi m phb h f = ground arith

-- Loading a segment over `under`, which agrees with `m` on the image, is the overlay.
module _ (m under : Memory) (img size lo hi : ℕ) (ph : Phdr) (sized : IsSized ph)
    (is_load : ph.p_type ≡ 1) (low : lo ≤ ph.p_vaddr) (high : ph.p_vaddr + ph.p_memsz ≤ hi)
    (file : ph.p_offset + ph.p_filesz ≤ size) (apart : (img + size ≤ lo) ⊎ (hi ≤ img))
    (fits : img + size < 2 ^ 64) (same : (x : ℕ) → img ≤ x → x < img + size → under x ≡ m x) where
  file_byte :
      (k : ℕ)
      → k < ph.p_filesz
      → load_segment under img ph (ph.p_vaddr + k) ≡ m (img + ph.p_offset + k)
  unfolding load_segment
  file_byte k h =
      zero_bytes-outside _ ph.p_vaddr ph.p_filesz (ph.p_memsz - ph.p_filesz) (ph.p_vaddr + k)
        (omega arith) (omega arith)
      ∙ copy_bytes-inside under ph.p_vaddr (add64 img ph.p_offset) 0 ph.p_filesz k (omega arith)
          (omega arith) (omega arith) (omega arith) (omega arith)
      ∙ same (add64 img ph.p_offset + k) (omega arith) (omega arith)
      ∙ ap m (omega arith)

  bss_byte :
      (x : ℕ)
      → ph.p_vaddr + ph.p_filesz ≤ x
      → x < ph.p_vaddr + ph.p_memsz
      → load_segment under img ph x ≡ 0
  unfolding load_segment
  bss_byte x l u =
      zero_bytes-inside _ ph.p_vaddr ph.p_filesz (ph.p_memsz - ph.p_filesz) x (omega arith)
        (omega arith) (omega arith)

  file_byte_at :
      (x : ℕ)
      → ph.p_vaddr ≤ x
      → x < ph.p_vaddr + ph.p_filesz
      → load_segment under img ph x ≡ m (img + ph.p_offset + (x - ph.p_vaddr))
  file_byte_at x l u =
      ap (load_segment under img ph) (omega arith) ∙ file_byte (x - ph.p_vaddr) (omega arith)

  pub load_segment-overlay : load_segment under img ph ≡ overlay m img ph under
  load_segment-overlay =
      fun_ext
        λ x. ground (arith, file_byte_at x, bss_byte x, load_segment-outside under img ph x sized)

pub overlay-skip :
    (m : Memory) (img : ℕ) (ph : Phdr) (under : Memory)
    → ph.p_type ≢ 1
    → overlay m img ph under ≡ under
overlay-skip m img ph under h = fun_ext λ x. ground arith

module _ (m : Memory) (img size lo hi : ℕ) (placed : IsPlaced m img size lo hi)
    (loadable : IsLoadable m img size lo hi) where
  laid_out-Agrees : (n : ℕ) → n ≤ e_phnum m img → Agrees lo hi m (laid_out m img n)
  unfolding laid_out
  laid_out-Agrees zero h x o = refl
  laid_out-Agrees (suc n) h x o =
      ground (arith, laid_out-Agrees n (omega arith) x o, loadable.in_window n h)

  laid_out-suc :
      (i : ℕ)
      → i < e_phnum m img
      → (read_phdr m (phdr_address m img i)).p_type ≡ 1
      → load_segment (laid_out m img i) img (read_phdr m (phdr_address m img i))
        ≡ laid_out m img (suc i)
  unfolding laid_out
  laid_out-suc i h t =
      let w = loadable.in_window i h t in
      load_segment-overlay m (laid_out m img i) img size lo hi (read_phdr m (phdr_address m img i))
        (placed.sized i h) t w.0 w.1 w.2 placed.apart (omega (arith, placed.image_fits))
        (λ x l u.
          laid_out-Agrees i (omega arith) x
            (elim placed.apart [ inl p ↦ inl (omega arith) | inr p ↦ inr (omega arith) ]))

  -- At header `i` the loop sees the verdict on the original image.
  verdict_at :
      (i : ℕ)
      → i < e_phnum m img
      → verdict img size lo hi (laid_out m img i) (phdr_address (laid_out m img i) img i)
        ≡ check_phdr img size lo hi (read_phdr m (phdr_address m img i))
  verdict_at i h =
      verdict-same m img size lo hi placed (laid_out m img i) (laid_out-Agrees i (omega arith)) i h
      ∙ verdict-eq img size lo hi m (phdr_address m img i) (loadable.in_image i h) placed.image_fits

  more_at : (i : ℕ) → i < e_phnum m img → ltb i (e_phnum (laid_out m img i) img) ≡ true
  more_at i h =
      rw (e_phnum-same m img size lo hi placed (laid_out m img i) (laid_out-Agrees i (omega arith)))
        (lt→ltb _ _ h)

  load_loop_round-skip :
      (fuel i count : ℕ)
      → i < e_phnum m img
      → (read_phdr m (phdr_address m img i)).p_type ≢ 1
      → load_loop img size lo hi (suc fuel) (laid_out m img i) i count
        ≡ load_loop img size lo hi fuel (laid_out m img (suc i)) (suc i) count
  load_loop_round-skip fuel i count h t =
      load_loop-skip img size lo hi fuel (laid_out m img i) i count (more_at i h)
        (verdict_at i h ∙ check_phdr-skip img size lo hi _ t)
      ∙ ap₂ (λ mem k. load_loop img size lo hi fuel mem k count)
          (unfold laid_out in
            sym (overlay-skip m img (read_phdr m (phdr_address m img i)) (laid_out m img i) t))
          (add-one i)

  load_loop_round-copy :
      (fuel i count : ℕ)
      → i < e_phnum m img
      → (read_phdr m (phdr_address m img i)).p_type ≡ 1
      → load_loop img size lo hi (suc fuel) (laid_out m img i) i count
        ≡ load_loop img size lo hi fuel (laid_out m img (suc i)) (suc i) (count + 1)
  load_loop_round-copy fuel i count h t =
      let agrees = laid_out-Agrees i (omega arith) in
      let w = loadable.in_window i h t in
      load_loop-copy img size lo hi fuel (laid_out m img i) i count (more_at i h)
        (verdict_at i h ∙ check_phdr-copy img size lo hi _ (placed.sized i h) t w.0 w.1 w.2)
      ∙ ap₂ (λ mem k. load_loop img size lo hi fuel mem k (count + 1))
          (rw
            (
              phdr_address-same m img size lo hi placed (laid_out m img i) agrees i,
              phdr-same m img size lo hi placed (laid_out m img i) agrees i h
                  (loadable.in_image i h),
            )
            (laid_out-suc i h t))
          (add-one i)

  -- From header `i` with enough fuel, the loop lays out the rest and succeeds.
  load_loop-laid_out :
      (fuel i count left : ℕ)
      → left < fuel
      → i + left ≡ e_phnum m img
      → (0 < count)
        ⊎ ((k : ℕ) × (i ≤ k)
            × (k < e_phnum m img)
            × ((read_phdr m (phdr_address m img k)).p_type ≡ 1))
      → load_loop img size lo hi fuel (laid_out m img i) i count
        ≡ (laid_out m img (e_phnum m img), loaded (e_entry m img))
  load_loop-laid_out zero i count left f e some = absurd (omega arith)
  load_loop-laid_out (suc fuel) i count zero f e some =
      let agrees = laid_out-Agrees i (omega arith) in
      load_loop-end img size lo hi fuel (laid_out m img i) i count
        (rw (e_phnum-same m img size lo hi placed (laid_out m img i) agrees) (ground arith))
      ∙ rw (e_entry-same m img size lo hi placed (laid_out m img i) agrees)
          (ap₂ (λ a b. (a, b)) (ap (laid_out m img) (omega arith)) (ground arith))
  load_loop-laid_out (suc fuel) i count (suc left) f e some =
      elim (Bool-cases ((read_phdr m (phdr_address m img i)).p_type == 1)) [
        | inl t ↦
            load_loop_round-copy fuel i count (omega arith) (ground arith)
            ∙ load_loop-laid_out fuel (suc i) (count + 1) left (omega arith) (omega arith)
                (inl (omega arith))
        | inr t ↦
            load_loop_round-skip fuel i count (omega arith) (ground arith)
            ∙ load_loop-laid_out fuel (suc i) count left (omega arith) (omega arith)
                (elim some [ inl c ↦ inl c | inr (k, l, u, load) ↦ inr (k, ground arith, u, load) ])
      ]

  -- A well-formed executable loads: `elf_load_in` returns its entry point, and memory is the
  -- layout of its segments (file bytes, then zeros), a later segment over an earlier one, with
  -- everything else as before. The image passes the tests of its header, has program headers,
  -- lies outside the window, its sums do not wrap, no file part is longer than its memory part,
  -- and every PT_LOAD segment (there is at least one, at index `k`) lies in the window and in the
  -- image.
  pub elf_load_in-laid_out :
      (k : ℕ)
      → check_ehdr img size lo hi m ≡ false
      → 0 < e_phoff m img
      → IsBytes m
      → k < e_phnum m img
      → (read_phdr m (phdr_address m img k)).p_type ≡ 1
      → elf_load_in img size lo hi m ≡ (laid_out m img (e_phnum m img), loaded (e_entry m img))
  unfolding elf_load_in laid_out
  elf_load_in-laid_out k ok off bytes below load =
      rw (ok, some_headers, table_fits)
        (load_loop-laid_out 65536 0 0 (e_phnum m img) small (omega arith)
          (inr (k, omega arith, below, load)))
    where
      small : e_phnum m img < 65536
      small = unfold e_phnum in omega (arith, bytes (add64 img 56), bytes (add64 (add64 img 56) 1))

      some_headers : (e_phnum m img == 0 || e_phoff m img == 0) ≡ false
      some_headers = ground arith

      table_fits : ltb size (add64 (e_phoff m img) (e_phnum m img * e_phentsize m img)) ≡ false
      table_fits = ground (arith, placed.table, placed.size_fits)
