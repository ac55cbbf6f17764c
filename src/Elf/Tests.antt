-- ===== src/Elf/Tests.antt =====
-- Concrete images for the loader, and the theorems at them.
use samos.Base.{
  ℕ, zero, suc, ◌+◌, ◌-◌, ◌≤◌, ◌<◌, ◌≡◌, refl, arith, List, [], ◌∷◌, ◌++◌, replicate, Memory,
  bytes_at, bytes_at-IsBytes, store8,
}
use samos.Elf.{
  e_phnum, e_phoff, e_phentsize, e_entry, read_phdr, phdr_address, check_ehdr, elf_load_in,
  load_loop, verdict, check_phdr, load_segment, copy_bytes, zero_bytes, loaded, no_segments,
  bad_image, truncated, outside_region,
}
use samos.Elf.Image.{IsSized, IsPlaced}
use samos.Elf.Safety.{elf_load_in-Agrees}
use samos.Elf.Contents.{IsLoadable, laid_out, elf_load_in-laid_out}
use samos.Elf.Breach.{IsOverlong, elf_load_in-overlong}

-- A little-endian word of `n` bytes whose value is below 256.
abbrev word : ℕ → ℕ → List ℕ
word n v = v ∷ replicate (n - 1) 0

-- An ELF64 header with one program header behind it, type `t`, offset 120, address 0x2000 + `a`,
-- and the given sizes.
abbrev image : ℕ → ℕ → ℕ → ℕ → List ℕ
image t a filesz memsz =
    (0x7f ∷ b'E' ∷ b'L' ∷ b'F' ∷ 2 ∷ 1 ∷ 1 ∷ 0 ∷ replicate 8 0)
    ++ word 2 2
    ++ word 2 0x3e
    ++ word 4 1
    ++ (a ∷ 0x20 ∷ replicate 6 0)
    ++ word 8 64
    ++ replicate 8 0
    ++ word 4 0
    ++ word 2 64
    ++ word 2 56
    ++ word 2 1
    ++ replicate 6 0
    ++ word 4 t
    ++ replicate 4 0
    ++ word 8 120
    ++ (a ∷ 0x20 ∷ replicate 6 0)
    ++ replicate 8 0
    ++ word 8 filesz
    ++ word 8 memsz
    ++ replicate 8 0
    ++ (0xaa ∷ 0xbb ∷ 0xcc ∷ 0xdd ∷ [])

abbrev good : Memory
good = bytes_at 0x1000 (image 1 4 3 6)

abbrev overlong : Memory
overlong = bytes_at 0x1000 (image 1 4 4 2)

load_good :
    let (m, r) = elf_load_in 0x1000 124 0x2000 0x2010 (store8 good 0x2008 9) in
    (r ≡ loaded 0x2004) × (m 0x2003 ≡ 0) × (m 0x2004 ≡ 0xaa) × (m 0x2006 ≡ 0xcc) × (m 0x2008 ≡ 0)
unfolding elf_load_in load_loop verdict check_phdr load_segment copy_bytes zero_bytes read_phdr
    phdr_address e_phnum e_phoff e_phentsize e_entry check_ehdr
load_good = (refl, refl, refl, refl, refl)

load_errors :
    ((elf_load_in 0x1000 123 0x2000 0x2010 (bytes_at 0x1000 (image 1 4 4 6))).1 ≡ truncated)
    × ((elf_load_in 0x1000 124 0x2005 0x2010 good).1 ≡ outside_region)
    × ((elf_load_in 0x1000 124 0x2000 0x2009 good).1 ≡ outside_region)
    × ((elf_load_in 0x1000 124 0x2000 0x2010 (bytes_at 0x1000 (image 2 4 3 6))).1 ≡ no_segments)
    × ((elf_load_in 0x1000 63 0x2000 0x2010 good).1 ≡ bad_image)
unfolding elf_load_in load_loop verdict check_phdr load_segment copy_bytes zero_bytes read_phdr
    phdr_address e_phnum e_phoff e_phentsize e_entry check_ehdr
load_errors = (refl, refl, refl, refl, refl)

good-IsSized :
    (i : ℕ) → i < e_phnum good 0x1000 → IsSized (read_phdr good (phdr_address good 0x1000 i))
unfolding e_phnum read_phdr phdr_address e_phoff e_phentsize
good-IsSized zero h = omega arith
good-IsSized (suc i) h = absurd (omega arith)

good-IsPlaced : IsPlaced good 0x1000 124 0x2000 0x2010
unfolding e_phnum e_phoff e_phentsize
good-IsPlaced = record {
  apart = omega arith;
  size_fits = omega arith;
  image_fits = omega arith;
  header = omega arith;
  table = omega arith;
  sized = good-IsSized;
}

good-in_image : (i : ℕ) → i < e_phnum good 0x1000 → phdr_address good 0x1000 i + 56 ≤ 0x1000 + 124
unfolding e_phnum phdr_address e_phoff e_phentsize
good-in_image zero h = omega arith
good-in_image (suc i) h = absurd (omega arith)

good-in_window :
    (i : ℕ)
    → i < e_phnum good 0x1000
    → let ph = read_phdr good (phdr_address good 0x1000 i) in
      ph.p_type ≡ 1
      → (0x2000 ≤ ph.p_vaddr)
        × (ph.p_vaddr + ph.p_memsz ≤ 0x2010)
        × (ph.p_offset + ph.p_filesz ≤ 124)
unfolding e_phnum read_phdr phdr_address e_phoff e_phentsize
good-in_window zero h t = omega arith
good-in_window (suc i) h t = absurd (omega arith)

good-IsLoadable : IsLoadable good 0x1000 124 0x2000 0x2010
good-IsLoadable = record { in_image = good-in_image; in_window = good-in_window }

elf_load_in-laid_out_example :
    elf_load_in 0x1000 124 0x2000 0x2010 good ≡ (laid_out good 0x1000 1, loaded 0x2004)
unfolding e_phnum read_phdr phdr_address e_phoff e_phentsize check_ehdr e_entry
elf_load_in-laid_out_example =
    elf_load_in-laid_out good 0x1000 124 0x2000 0x2010 good-IsPlaced good-IsLoadable 0 refl
      (omega arith) (bytes_at-IsBytes 0x1000 (image 1 4 3 6) (omega arith)) (omega arith) refl

elf_load_in-Agrees_example : (elf_load_in 0x1000 124 0x2000 0x2010 good).0 0x2010 ≡ 0
elf_load_in-Agrees_example =
    elf_load_in-Agrees good 0x1000 124 0x2000 0x2010 good-IsPlaced 0x2010 (omega arith)

overlong-IsOverlong :
    IsOverlong overlong 0x1000 124 0x2000 0x2006
      (read_phdr overlong (phdr_address overlong 0x1000 0))
unfolding e_phnum read_phdr phdr_address e_phoff e_phentsize check_ehdr
overlong-IsOverlong = record {
  header = refl;
  one = refl;
  table = omega arith;
  table_fits = omega arith;
  phdr = refl;
  phdr_in = omega arith;
  size_big = omega arith;
  size_fits = omega arith;
  image_fits = omega arith;
  is_load = refl;
  low = omega arith;
  high = omega arith;
  overlong = omega arith;
  file = omega arith;
  no_wrap = omega arith;
  apart = omega arith;
}

elf_load_in-overlong_example :
    ((elf_load_in 0x1000 124 0x2000 0x2006 overlong).1 ≡ loaded (e_entry overlong 0x1000))
    × ((x : ℕ)
        → 0x2006 ≤ x
        → x < 0x2008
        → (elf_load_in 0x1000 124 0x2000 0x2006 overlong).0 x
          ≡ overlong (0x1000 + 120 + (x - 0x2004)))
unfolding e_phnum read_phdr phdr_address e_phoff e_phentsize
elf_load_in-overlong_example =
    elf_load_in-overlong overlong 0x1000 124 0x2000 0x2006
      (read_phdr overlong (phdr_address overlong 0x1000 0)) overlong-IsOverlong
