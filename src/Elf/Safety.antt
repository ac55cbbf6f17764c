-- ===== src/Elf/Safety.antt =====
-- Isolation: loading writes nothing outside the window, whatever it returns.
use samos.Base.{
  ◌||◌, ℕ, sym, zero, suc, ◌+◌, ◌*◌, ◌-◌, ◌≤◌, ◌<◌, ◌≡◌, ◌⊎◌, inl, inr, refl, arith, ◌∙◌, Memory,
  add64, true, false, ltb, Bool-cases, if◌then◌else◌, ◌==◌,
}
use samos.Elf.{
  e_phnum, e_phoff, e_phentsize, e_entry, Phdr, read_phdr, phdr_address, Verdict, skip, copy, stop,
  verdict, load_segment, load_loop, elf_load_in, LoadResult, loaded, no_segments, check_ehdr,
}
use samos.Elf.Copy.{copy_bytes-outside, zero_bytes-outside}
use samos.Elf.Image.{
  IsSized, IsPlaced, Agrees, IsAccepted, verdict_copy, verdict-same, phdr_address-same, phdr-same,
  phdr_address-eq, e_phnum-same,
}

pub load_segment-outside :
    (m : Memory) (img : ℕ) (ph : Phdr) (x : ℕ)
    → IsSized ph
    → (x < ph.p_vaddr) ⊎ (ph.p_vaddr + ph.p_memsz ≤ x)
    → load_segment m img ph x ≡ m x
unfolding load_segment
load_segment-outside m img ph x s o =
    zero_bytes-outside _ ph.p_vaddr ph.p_filesz (ph.p_memsz - ph.p_filesz) x (omega arith)
      (omega arith)
    ∙ copy_bytes-outside m ph.p_vaddr _ 0 ph.p_filesz x (omega arith) (omega arith)

-- The rounds of the loop, one equation for each way through it.
module _ (img size lo hi fuel : ℕ) (m : Memory) (i count : ℕ) where
  abbrev at_header : Verdict
  at_header = verdict img size lo hi m (phdr_address m img i)

  pub load_loop-end :
      ltb i (e_phnum m img) ≡ false
      → load_loop img size lo hi (suc fuel) m i count
        ≡ (m, if count == 0 then no_segments else loaded (e_entry m img))
  unfolding load_loop
  load_loop-end e = rw (e, load_loop)

  pub load_loop-stop :
      (r : LoadResult)
      → ltb i (e_phnum m img) ≡ true
      → at_header ≡ stop r
      → load_loop img size lo hi (suc fuel) m i count ≡ (m, r)
  unfolding load_loop
  load_loop-stop r e v = rw (e, load_loop, v)

  pub load_loop-skip :
      ltb i (e_phnum m img) ≡ true
      → at_header ≡ skip
      → load_loop img size lo hi (suc fuel) m i count
        ≡ load_loop img size lo hi fuel m (i + 1) count
  unfolding load_loop
  load_loop-skip e v = rw (e, load_loop, v)

  pub load_loop-copy :
      ltb i (e_phnum m img) ≡ true
      → at_header ≡ copy
      → load_loop img size lo hi (suc fuel) m i count
        ≡ load_loop img size lo hi fuel
            (load_segment m img (read_phdr m (phdr_address m img i)))
            (i + 1)
            (count + 1)
  unfolding load_loop
  load_loop-copy e v = rw (e, load_loop, v)

Verdict-cases : (v : Verdict) → ((r : LoadResult) × (v ≡ stop r)) ⊎ ((v ≡ skip) ⊎ (v ≡ copy))
Verdict-cases (stop r) = inl (r, refl)
Verdict-cases skip = inr (inl refl)
Verdict-cases copy = inr (inr refl)

module _ (m : Memory) (img size lo hi : ℕ) (placed : IsPlaced m img size lo hi) where
  accepted :
      (m' : Memory) (agrees : Agrees lo hi m m') (i : ℕ)
      → i < e_phnum m img
      → verdict img size lo hi m' (phdr_address m' img i) ≡ copy
      → IsAccepted img size lo hi m (phdr_address m img i)
  accepted m' agrees i h v =
      verdict_copy m img size lo hi (phdr_address m img i) (placed.sized i h)
        (phdr_address-eq m img size lo hi placed i h).1 placed.image_fits
        (sym (verdict-same m img size lo hi placed m' agrees i h) ∙ v)

  -- An accepted segment leaves memory outside the window alone.
  Agrees-load_segment :
      (m' : Memory) (agrees : Agrees lo hi m m') (i : ℕ)
      → i < e_phnum m img
      → verdict img size lo hi m' (phdr_address m' img i) ≡ copy
      → Agrees lo hi m (load_segment m' img (read_phdr m' (phdr_address m' img i)))
  Agrees-load_segment m' agrees i h v x o =
      let acc = accepted m' agrees i h v in
      rw
        (
          phdr_address-same m img size lo hi placed m' agrees i,
          phdr-same m img size lo hi placed m' agrees i h acc.in_image,
        )
        (load_segment-outside m' img (read_phdr m (phdr_address m img i)) x (placed.sized i h)
            (ground (arith, acc.low, acc.high))
          ∙ agrees x o)

  load_loop-Agrees :
      (fuel : ℕ) (m' : Memory) (agrees : Agrees lo hi m m') (i count : ℕ)
      → Agrees lo hi m (load_loop img size lo hi fuel m' i count).0
  load_loop-Agrees zero m' agrees i count = unfold load_loop in agrees
  load_loop-Agrees (suc fuel) m' agrees i count = elim (Bool-cases (ltb i (e_phnum m' img))) [
    | inl more ↦
        let h : i < e_phnum m img =
          ground (arith, e_phnum-same m img size lo hi placed m' agrees) in
        elim (Verdict-cases (at_header img size lo hi fuel m' i count)) [
          | inl (r, v) ↦ rw (load_loop-stop img size lo hi fuel m' i count r more v) agrees
          | inr (inl v) ↦
              rw (load_loop-skip img size lo hi fuel m' i count more v)
                (load_loop-Agrees fuel m' agrees (i + 1) count)
          | inr (inr v) ↦ rw (load_loop-copy img size lo hi fuel m' i count more v) (
              load_loop-Agrees fuel (load_segment m' img (read_phdr m' (phdr_address m' img i)))
                (Agrees-load_segment m' agrees i h v) (i + 1) (count + 1))
        ]
    | inr done ↦ rw (load_loop-end img size lo hi fuel m' i count done) agrees
  ]

  -- Isolation: whatever `elf_load_in` returns, errors included, it has written nothing outside
  -- the window [lo, hi), if the image lies outside the window, its tables lie in the image, and
  -- the sums in its program headers do not wrap and no file part is longer than its memory part.
  pub elf_load_in-Agrees : (x : ℕ) → (x < lo) ⊎ (hi ≤ x) → (elf_load_in img size lo hi m).0 x ≡ m x
  unfolding elf_load_in
  elf_load_in-Agrees x o = elim (Bool-cases (check_ehdr img size lo hi m)) [
    | inl bad ↦ rw bad
    | inr ok ↦ elim (Bool-cases (e_phnum m img == 0 || e_phoff m img == 0)) [
      | inl bad ↦ rw (ok, bad)
      | inr some ↦
          elim (Bool-cases (ltb size (add64 (e_phoff m img) (e_phnum m img * e_phentsize m img)))) [
            | inl bad ↦ rw (ok, some, bad)
            | inr fits ↦ rw (ok, some, fits) (load_loop-Agrees 65536 m (λ y p. refl) 0 0 x o)
          ]
    ]
  ]
