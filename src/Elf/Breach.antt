-- ===== src/Elf/Breach.antt =====
-- What the loader does not check: `p_filesz` against `p_memsz`. A segment whose file part is
-- longer than its memory part is copied past the end of the window.
use samos.Base.{
  ◌||◌, ℕ, ◌+◌, ◌*◌, ◌-◌, ◌≤◌, ◌<◌, ◌^◌, ◌≡◌, ◌⊎◌, inl, inr, refl, arith, ◌∙◌, ap, Memory, add64,
  false, ltb, ◌==◌,
}
use samos.Elf.{
  e_phnum, e_phoff, e_phentsize, e_entry, Phdr, read_phdr, phdr_address, ehdr_size, phdr_size, copy,
  verdict, check_phdr, load_segment, load_loop, elf_load_in, check_ehdr, loaded, copy_bytes,
  zero_bytes,
}
use samos.Elf.Copy.{copy_bytes-outside, copy_bytes-inside}
use samos.Elf.Image.{load16-same, load64-same}
use samos.Elf.Safety.{load_loop-end, load_loop-copy}

-- An executable with one PT_LOAD segment that starts in the window [lo, hi) and whose memory part
-- ends in it, but whose file part reaches past `hi`.
pub record IsOverlong (m : Memory) (img size lo hi : ℕ) (ph : Phdr) : Type 0 where
  pub header : check_ehdr img size lo hi m ≡ false
  pub one : e_phnum m img ≡ 1
  pub table : 0 < e_phoff m img
  pub table_fits : e_phoff m img + e_phentsize m img ≤ size
  pub phdr : read_phdr m (phdr_address m img 0) ≡ ph
  pub phdr_in : phdr_address m img 0 + phdr_size ≤ img + size
  pub size_big : ehdr_size ≤ size
  pub size_fits : size < 2 ^ 32
  pub image_fits : img + size + phdr_size < 2 ^ 64
  pub is_load : ph.p_type ≡ 1
  pub low : lo ≤ ph.p_vaddr
  pub high : ph.p_vaddr + ph.p_memsz ≤ hi
  pub overlong : hi < ph.p_vaddr + ph.p_filesz
  pub file : ph.p_offset + ph.p_filesz ≤ size
  pub no_wrap : ph.p_vaddr + ph.p_filesz < 2 ^ 64
  pub apart : (img + size ≤ ph.p_vaddr) ⊎ (ph.p_vaddr + ph.p_filesz ≤ img)

module _ (m : Memory) (img size lo hi : ℕ) (ph : Phdr) (o : IsOverlong m img size lo hi ph) where
  outside :
      (x : ℕ) → (x < ph.p_vaddr) ⊎ (ph.p_vaddr + ph.p_filesz ≤ x) → load_segment m img ph x ≡ m x
  unfolding load_segment
  outside x out =
      zero_bytes-none
      ∙ copy_bytes-outside m ph.p_vaddr _ 0 ph.p_filesz x (omega (arith, o.no_wrap)) (omega arith)
    where
      none_left : ph.p_memsz - ph.p_filesz ≡ 0
      none_left = omega (arith, o.high, o.overlong)

      zero_bytes-none :
          load_segment m img ph x ≡ copy_bytes m ph.p_vaddr (add64 img ph.p_offset) 0 ph.p_filesz x
      zero_bytes-none = rw none_left (unfold zero_bytes in refl)

  in_image : (x : ℕ) → img ≤ x → x < img + size → load_segment m img ph x ≡ m x
  in_image x l u =
      outside x (elim o.apart [ inl p ↦ inl (omega arith) | inr p ↦ inr (omega arith) ])

  past_window :
      (x : ℕ)
      → hi ≤ x
      → x < ph.p_vaddr + ph.p_filesz
      → load_segment m img ph x ≡ m (img + ph.p_offset + (x - ph.p_vaddr))
  unfolding load_segment
  past_window x l u =
      zero_bytes-none
      ∙ ap (copy_bytes m ph.p_vaddr (add64 img ph.p_offset) 0 ph.p_filesz) (omega (arith, o.high))
      ∙ copy_bytes-inside m ph.p_vaddr (add64 img ph.p_offset) 0 ph.p_filesz (x - ph.p_vaddr)
          (omega (arith, o.no_wrap)) (omega (arith, o.file, o.image_fits)) src_apart (omega arith)
          (omega (arith, o.high))
      ∙ ap m (omega (arith, o.file, o.image_fits))
    where
      none_left : ph.p_memsz - ph.p_filesz ≡ 0
      none_left = omega (arith, o.high, o.overlong)

      zero_bytes-none :
          load_segment m img ph x ≡ copy_bytes m ph.p_vaddr (add64 img ph.p_offset) 0 ph.p_filesz x
      zero_bytes-none = rw none_left (unfold zero_bytes in refl)

      src_apart :
          (add64 img ph.p_offset + 0 + ph.p_filesz ≤ ph.p_vaddr + 0)
          ⊎ (ph.p_vaddr + 0 + ph.p_filesz ≤ add64 img ph.p_offset + 0)
      src_apart = omega (arith, o.file, o.image_fits, o.apart)

  first_verdict : verdict img size lo hi m (phdr_address m img 0) ≡ copy
  unfolding verdict check_phdr
  first_verdict = rw o.phdr (ground arith)

  loads : load_loop img size lo hi 65536 m 0 0 ≡ (load_segment m img ph, loaded (e_entry m img))
  loads =
      load_loop-copy img size lo hi 65535 m 0 0 (rw o.one) first_verdict
      ∙ rw o.phdr (
          load_loop-end img size lo hi 65534 (load_segment m img ph) 1 1 (rw (phnum_kept, o.one))
          ∙ rw entry_kept)
    where
      phnum_kept : e_phnum (load_segment m img ph) img ≡ e_phnum m img
      phnum_kept =
          unfold e_phnum in
          load16-same m (load_segment m img ph) img size (omega (arith, o.image_fits)) in_image
            (add64 img 56) (omega (arith, o.image_fits)) (omega (arith, o.image_fits, o.size_big))

      entry_kept : e_entry (load_segment m img ph) img ≡ e_entry m img
      entry_kept =
          unfold e_entry in
          load64-same m (load_segment m img ph) img size (omega (arith, o.image_fits)) in_image
            (add64 img 24) (omega (arith, o.image_fits)) (omega (arith, o.image_fits, o.size_big))

  -- Isolation fails for an overlong segment: `elf_load_in` accepts the image, and every address
  -- from the window's end `hi` up to the end of the file part holds a byte of the image.
  pub elf_load_in-overlong :
      ((elf_load_in img size lo hi m).1 ≡ loaded (e_entry m img))
      × ((x : ℕ)
          → hi ≤ x
          → x < ph.p_vaddr + ph.p_filesz
          → (elf_load_in img size lo hi m).0 x ≡ m (img + ph.p_offset + (x - ph.p_vaddr)))
  unfolding elf_load_in
  elf_load_in-overlong = rw (o.header, some_headers, fits, loads) (refl, λ x l u. past_window x l u)
    where
      some_headers : (e_phnum m img == 0 || e_phoff m img == 0) ≡ false
      some_headers = rw o.one (ground (arith, o.table))

      fits : ltb size (add64 (e_phoff m img) (e_phnum m img * e_phentsize m img)) ≡ false
      fits = rw o.one (ground (arith, o.table_fits, o.size_fits))
