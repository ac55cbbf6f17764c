-- ===== src/Elf.antt =====
-- kernel/elf.h: the ELF64 loader. The image and the destination are both physical memory, so the
-- model passes one memory along; sizes and addresses are 64-bit words, whose sums wrap.
pub mod Copy
pub mod Image
pub mod Safety
pub mod Contents
pub mod Breach
mod Tests
use samos.Base.{
  ℕ, zero, suc, ◌+◌, ◌-◌, ◌*◌, ◌%◌, ◌^◌, Bool, true, false, ◌||◌, not, ltb, ◌==◌, if◌then◌else◌,
  Memory, store8, load16, load32, load64, add64, u32,
}

-- USER_CODE_BASE and USER_STACK_TOP
abbrev pub user_code_base : ℕ
user_code_base = 0x19000000

abbrev pub user_stack_top : ℕ
user_stack_top = 0x19400000

-- sizeof(sam_elf_ehdr_t) and sizeof(sam_elf_phdr_t)
abbrev pub ehdr_size : ℕ
ehdr_size = 64

abbrev pub phdr_size : ℕ
phdr_size = 56

-- The fields of `sam_elf_ehdr_t` that the loader reads, at their offsets in the packed struct.
module _ (m : Memory) (img : ℕ) where
  abbrev pub e_ident : ℕ → ℕ
  e_ident k = m (add64 img k)

  abbrev pub e_type : ℕ
  e_type = load16 m (add64 img 16)

  abbrev pub e_machine : ℕ
  e_machine = load16 m (add64 img 18)

  pub e_entry : ℕ
  e_entry = load64 m (add64 img 24)

  unfoldable pub e_phoff : ℕ
  e_phoff = load64 m (add64 img 32)

  unfoldable pub e_phentsize : ℕ
  e_phentsize = load16 m (add64 img 54)

  unfoldable pub e_phnum : ℕ
  e_phnum = load16 m (add64 img 56)

-- The fields of `sam_elf_phdr_t` that the loader reads.
pub record Phdr : Type 0 where
  pub p_type : ℕ
  pub p_offset : ℕ
  pub p_vaddr : ℕ
  pub p_filesz : ℕ
  pub p_memsz : ℕ

unfoldable pub read_phdr : Memory → ℕ → Phdr
read_phdr m a = record {
  p_type = load32 m a;
  p_offset = load64 m (add64 a 8);
  p_vaddr = load64 m (add64 a 16);
  p_filesz = load64 m (add64 a 32);
  p_memsz = load64 m (add64 a 40);
}

-- `phb`, the address of program header `i`
unfoldable pub phdr_address : Memory → ℕ → ℕ → ℕ
phdr_address m img i = add64 (add64 img (e_phoff m img)) (u32 (i * e_phentsize m img))

-- What `elf_load_in` returns: 0 with `*entry_out`, or -1, -2, -3, -4. `out_of_fuel` is the model's.
pub data LoadResult : Type 0 where
  loaded : ℕ → LoadResult
  bad_image no_segments outside_region truncated out_of_fuel : LoadResult

-- for (b = b; left > 0; b++) dst[b] = src[b];
pub copy_bytes : Memory → ℕ → ℕ → ℕ → ℕ → Memory
copy_bytes m dst src b zero = m
copy_bytes m dst src b (suc left) =
    copy_bytes (store8 m (add64 dst b) (m (add64 src b))) dst src (b + 1) left

-- for (b = b; left > 0; b++) dst[b] = 0;
pub zero_bytes : Memory → ℕ → ℕ → ℕ → Memory
zero_bytes m dst b zero = m
zero_bytes m dst b (suc left) = zero_bytes (store8 m (add64 dst b) 0) dst (b + 1) left

-- The copy of one PT_LOAD segment and the clearing of its BSS. The header is read once, before the
-- copy; the code reads its sizes again for each byte, which differs for a segment that is loaded
-- over its own header.
pub load_segment : Memory → ℕ → Phdr → Memory
load_segment m img ph =
    zero_bytes (copy_bytes m ph.p_vaddr (add64 img ph.p_offset) 0 ph.p_filesz) ph.p_vaddr
      ph.p_filesz (ph.p_memsz - ph.p_filesz)

-- What the loop does with a program header: return, `continue`, or copy.
pub data Verdict : Type 0 where
  stop : LoadResult → Verdict
  skip copy : Verdict

module _ (img image_size lo hi : ℕ) where
  pub check_phdr : Phdr → Verdict
  check_phdr ph =
      if not (ph.p_type == 1)
      then skip
      else if ltb ph.p_vaddr lo
      then stop outside_region
      else if ltb hi (add64 ph.p_vaddr ph.p_memsz)
      then stop outside_region
      else if ltb image_size (add64 ph.p_offset ph.p_filesz)
      then stop truncated
      else copy

  -- The check that the header at `phb` lies in the image comes before it is read.
  pub verdict : Memory → ℕ → Verdict
  verdict m phb =
      if ltb (add64 img image_size) (add64 phb phdr_size)
      then stop truncated
      else check_phdr (read_phdr m phb)

  -- The loop over the program headers, from index `i`, with `count` segments loaded. The header
  -- is read anew in each round, as the C code reads it through `eh`.
  pub load_loop : ℕ → Memory → ℕ → ℕ → Memory × LoadResult
  load_loop zero m i count = (m, out_of_fuel)
  load_loop (suc fuel) m i count = elim (ltb i (e_phnum m img)) [
    | false ↦ (m, if count == 0 then no_segments else loaded (e_entry m img))
    | true ↦ elim (verdict m (phdr_address m img i)) [
      | stop r ↦ (m, r)
      | skip ↦ load_loop fuel m (i + 1) count
      | copy ↦
          load_loop fuel (load_segment m img (read_phdr m (phdr_address m img i))) (i + 1)
            (count + 1)
    ]
  ]

  -- The tests before the loop; `none` goes on to it. The image is not read if it is too short.
  pub check_ehdr : Memory → Bool
  check_ehdr m =
      ltb image_size ehdr_size
      || not (e_ident m img 0 == 0x7f)
      || not (e_ident m img 1 == b'E')
      || not (e_ident m img 2 == b'L')
      || not (e_ident m img 3 == b'F')
      || not (e_ident m img 4 == 2)
      || not (e_ident m img 5 == 1)
      || not (e_type m img == 2)
      || not (e_machine m img == 0x3e)

  -- `e_phnum` is a uint16_t, so 65536 rounds are enough.
  unfoldable pub elf_load_in : Memory → Memory × LoadResult
  elf_load_in m =
      if check_ehdr m
      then (m, bad_image)
      else if e_phnum m img == 0 || e_phoff m img == 0
      then (m, no_segments)
      else if ltb image_size (add64 (e_phoff m img) (e_phnum m img * e_phentsize m img))
      then (m, truncated)
      else load_loop 65536 m 0 0

unfoldable pub elf_load : Memory → ℕ → ℕ → Memory × LoadResult
elf_load m img image_size = elf_load_in img image_size user_code_base user_stack_top m
