-- ===== src/Elf/Image.antt =====
-- An image beside the window that it is loaded into: what the loader reads of it stays as it was.
use samos.Base.{
  ℕ, ◌+◌, ◌*◌, ◌≤◌, ◌<◌, ◌^◌, ◌≡◌, ◌⊎◌, inl, inr, arith, ap, ap₂, Memory, load16, load32, load64,
  add64, ltb, Bool-cases,
}
use samos.Elf.{
  e_phnum, e_phoff, e_phentsize, e_entry, Phdr, read_phdr, phdr_address, ehdr_size, phdr_size, copy,
  verdict, check_phdr,
}

-- A program header whose sums do not wrap, and whose file part is not longer than its memory.
pub record IsSized (ph : Phdr) : Type 0 where
  pub file_in_memory : ph.p_filesz ≤ ph.p_memsz
  pub memory_fits : ph.p_vaddr + ph.p_memsz < 2 ^ 64
  pub file_fits : ph.p_offset + ph.p_filesz < 2 ^ 64

-- The image lies outside the window, its header and its table of program headers lie in the
-- image, and every program header is sized.
pub record IsPlaced (m : Memory) (img size lo hi : ℕ) : Type 0 where
  pub apart : (img + size ≤ lo) ⊎ (hi ≤ img)
  pub size_fits : size < 2 ^ 32
  pub image_fits : img + size + phdr_size < 2 ^ 64
  pub header : ehdr_size ≤ size
  pub table : e_phoff m img + e_phnum m img * e_phentsize m img ≤ size
  pub sized : (i : ℕ) → i < e_phnum m img → IsSized (read_phdr m (phdr_address m img i))

abbrev pub Agrees : ℕ → ℕ → Memory → Memory → Type 0
Agrees lo hi m m' = (x : ℕ) → (x < lo) ⊎ (hi ≤ x) → m' x ≡ m x

module _ (m m' : Memory) (base len : ℕ) (fits : base + len < 2 ^ 64)
    (same : (x : ℕ) → base ≤ x → x < base + len → m' x ≡ m x) where
  pub load16-same : (a : ℕ) → base ≤ a → a + 2 ≤ base + len → load16 m' a ≡ load16 m a
  load16-same a l u = omega (arith, same a, same (add64 a 1))

  load32-same : (a : ℕ) → base ≤ a → a + 4 ≤ base + len → load32 m' a ≡ load32 m a
  load32-same a l u =
      ap₂ (λ p q. p + 65536 * q) (load16-same a l (omega arith))
        (load16-same (add64 a 2) (omega arith) (omega arith))

  pub load64-same : (a : ℕ) → base ≤ a → a + 8 ≤ base + len → load64 m' a ≡ load64 m a
  load64-same a l u =
      ap₂ (λ p q. p + 4294967296 * q) (load32-same a l (omega arith))
        (load32-same (add64 a 4) (omega arith) (omega arith))

  read_phdr-same : (a : ℕ) → base ≤ a → a + phdr_size ≤ base + len → read_phdr m' a ≡ read_phdr m a
  unfolding read_phdr
  read_phdr-same a l u i = record {
    p_type = load32-same a l (omega arith) i;
    p_offset = load64-same (add64 a 8) (omega arith) (omega arith) i;
    p_vaddr = load64-same (add64 a 16) (omega arith) (omega arith) i;
    p_filesz = load64-same (add64 a 32) (omega arith) (omega arith) i;
    p_memsz = load64-same (add64 a 40) (omega arith) (omega arith) i;
  }

index_le : (i n s : ℕ) → i < n → i * s ≤ n * s
index_le i n s h = grind arith

module _ (m : Memory) (img size lo hi : ℕ) (placed : IsPlaced m img size lo hi) where
  pub phdr_address-eq :
      (i : ℕ)
      → i < e_phnum m img
      → (phdr_address m img i ≡ img + e_phoff m img + i * e_phentsize m img)
        × (phdr_address m img i ≤ img + size)
  unfolding phdr_address
  phdr_address-eq i h = omega (
    arith,
    index_le i (e_phnum m img) (e_phentsize m img) h,
    placed.table,
    placed.size_fits,
    placed.image_fits,
  )

  -- `m'` is the memory after any number of rounds.
  module _ (m' : Memory) (agrees : Agrees lo hi m m') where
    in_image : (x : ℕ) → img ≤ x → x < img + size → m' x ≡ m x
    in_image x l u =
        agrees x (elim placed.apart [ inl p ↦ inl (omega arith) | inr p ↦ inr (omega arith) ])

    pub e_phnum-same : e_phnum m' img ≡ e_phnum m img
    unfolding e_phnum
    e_phnum-same =
        load16-same m m' img size (omega (arith, placed.image_fits)) in_image (add64 img 56)
          (omega (arith, placed.image_fits)) (omega (arith, placed.image_fits, placed.header))

    pub e_entry-same : e_entry m' img ≡ e_entry m img
    unfolding e_entry
    e_entry-same =
        load64-same m m' img size (omega (arith, placed.image_fits)) in_image (add64 img 24)
          (omega (arith, placed.image_fits)) (omega (arith, placed.image_fits, placed.header))

    e_phoff-same : e_phoff m' img ≡ e_phoff m img
    unfolding e_phoff
    e_phoff-same =
        load64-same m m' img size (omega (arith, placed.image_fits)) in_image (add64 img 32)
          (omega (arith, placed.image_fits)) (omega (arith, placed.image_fits, placed.header))

    e_phentsize-same : e_phentsize m' img ≡ e_phentsize m img
    unfolding e_phentsize
    e_phentsize-same =
        load16-same m m' img size (omega (arith, placed.image_fits)) in_image (add64 img 54)
          (omega (arith, placed.image_fits)) (omega (arith, placed.image_fits, placed.header))

    pub phdr_address-same : (i : ℕ) → phdr_address m' img i ≡ phdr_address m img i
    unfolding phdr_address
    phdr_address-same i = rw (e_phoff-same, e_phentsize-same)

    pub phdr-same :
        (i : ℕ)
        → i < e_phnum m img
        → phdr_address m img i + phdr_size ≤ img + size
        → read_phdr m' (phdr_address m img i) ≡ read_phdr m (phdr_address m img i)
    phdr-same i h u =
        read_phdr-same m m' img size (omega (arith, placed.image_fits)) in_image
          (phdr_address m img i) (omega (arith, phdr_address-eq i h)) u

    pub verdict-same :
        (i : ℕ)
        → i < e_phnum m img
        → verdict img size lo hi m' (phdr_address m' img i)
          ≡ verdict img size lo hi m (phdr_address m img i)
    unfolding verdict
    verdict-same i h =
        elim (Bool-cases (ltb (add64 img size) (add64 (phdr_address m img i) phdr_size))) [
          | inl far ↦ rw (phdr_address-same i, far)
          | inr near ↦
              let u : phdr_address m img i + phdr_size ≤ img + size =
                ground (arith, phdr_address-eq i h, placed.image_fits) in
              rw (phdr_address-same i, near) (ap (check_phdr img size lo hi) (phdr-same i h u))
        ]

-- A header that is accepted lies in the image, and its segment in the window and in the image.
pub record IsAccepted (img size lo hi : ℕ) (m : Memory) (phb : ℕ) : Type 0 where
  pub in_image : phb + phdr_size ≤ img + size
  pub is_load : (read_phdr m phb).p_type ≡ 1
  pub low : lo ≤ (read_phdr m phb).p_vaddr
  pub high : (read_phdr m phb).p_vaddr + (read_phdr m phb).p_memsz ≤ hi
  pub file : (read_phdr m phb).p_offset + (read_phdr m phb).p_filesz ≤ size

pub verdict_copy :
    (m : Memory) (img size lo hi phb : ℕ)
    → IsSized (read_phdr m phb)
    → phb ≤ img + size
    → img + size + phdr_size < 2 ^ 64
    → verdict img size lo hi m phb ≡ copy
    → IsAccepted img size lo hi m phb
unfolding verdict check_phdr
verdict_copy m img size lo hi phb sz p q h = ground arith
