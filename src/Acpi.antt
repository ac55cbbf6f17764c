-- ===== src/Acpi.antt =====
-- kernel/acpi.h: the search for the RSDP, the walk over RSDT or XSDT, and the MADT. The tables are
-- physical memory; a pointer is an address.
pub mod Madt
pub mod Signature
pub mod Rsdp
mod Tests
use samos.Base.{
  ℕ, zero, suc, ◌+◌, ◌-◌, ◌*◌, ◌/◌, ◌%◌, ◌^◌, Bool, true, false, ◌&&◌, ◌||◌, not, ltb, leb, ◌==◌,
  if◌then◌else◌, Option, some, none, List, [], ◌∷◌, Memory, load16, load32, load64, add64, add32,
  u8, u32, bit_and, bytes_from,
}

-- `sam_acpi_t`
pub record SamAcpi : Type 0 where
  pub present : ℕ
  pub version : ℕ
  pub cpu_count : ℕ
  pub lapic_base : ℕ
  pub ioapic_base : ℕ
  pub ioapic_id : ℕ
  pub oem_id : List ℕ

-- sizeof(acpi_sdt_hdr_t), sizeof(acpi_madt_t), of acpi_madt_lapic_t and of acpi_madt_ioapic_t
abbrev pub sdt_size : ℕ
sdt_size = 36

abbrev pub madt_size : ℕ
madt_size = 44

abbrev pub lapic_size : ℕ
lapic_size = 8

abbrev pub ioapic_size : ℕ
ioapic_size = 12

module _ (m : Memory) where
  -- The fields that are read: of `acpi_rsdp_t`, of `acpi_sdt_hdr_t` and of `acpi_madt_t`.
  abbrev pub revision : ℕ → ℕ
  revision r = m (add64 r 15)

  abbrev pub rsdt_address : ℕ → ℕ
  rsdt_address r = load32 m (add64 r 16)

  abbrev pub xsdt_address : ℕ → ℕ
  xsdt_address r = load64 m (add64 r 24)

  pub table_length : ℕ → ℕ
  table_length hdr = load32 m (add64 hdr 4)

  abbrev pub lapic_address : ℕ → ℕ
  lapic_address hdr = load32 m (add64 hdr 36)

  -- for (i = i; left > 0; i++) sum += p[i];
  pub sum_loop : ℕ → ℕ → ℕ → ℕ → ℕ
  sum_loop p i zero sum = sum
  sum_loop p i (suc left) sum = sum_loop p (i + 1) left (u8 (sum + m (add64 p i)))

  pub acpi_checksum : ℕ → ℕ → Bool
  acpi_checksum p len = sum_loop p 0 len 0 == 0

  -- The comparison of the bytes at an address with a signature.
  pub has_signature : ℕ → List ℕ → Bool
  has_signature p [] = true
  has_signature p (c ∷ cs) = m p == c && has_signature (add64 p 1) cs

  -- "RSD PTR ", "APIC"
  abbrev pub rsdp_sig : List ℕ
  rsdp_sig = b'R' ∷ b'S' ∷ b'D' ∷ b' ' ∷ b'P' ∷ b'T' ∷ b'R' ∷ b' ' ∷ []

  abbrev pub madt_sig : List ℕ
  madt_sig = b'A' ∷ b'P' ∷ b'I' ∷ b'C' ∷ []

  -- A candidate of the search.
  abbrev pub is_rsdp : ℕ → Bool
  is_rsdp p = has_signature p rsdp_sig && acpi_checksum p 20

  -- The loops of the search: `left` candidates from `addr` on, 16 bytes apart.
  pub rsdp_loop : ℕ → ℕ → Option ℕ
  rsdp_loop addr zero = none
  rsdp_loop addr (suc left) =
      let rest = rsdp_loop (add32 addr 16) left in if is_rsdp addr then some addr else rest

  -- `ebda_phys`
  abbrev pub ebda_phys : ℕ
  ebda_phys = u32 (load16 m 0x40E * 2 ^ 4)

  -- The first 1 KiB of the EBDA, if it lies where an EBDA lies; `none` goes on to the BIOS area.
  abbrev pub ebda_search : Option ℕ
  ebda_search =
      if leb 0x80000 ebda_phys && ltb ebda_phys 0xA0000 then rsdp_loop ebda_phys 64 else none

  abbrev pub or_bios : Option ℕ → Option ℕ
  or_bios (some r) = some r
  or_bios none = rsdp_loop 0xE0000 8192

  pub acpi_find_rsdp : Option ℕ
  acpi_find_rsdp = or_bios ebda_search

  -- The body of the loop over the MADT entries, for the entry at `p`.
  pub note_entry : ℕ → SamAcpi → SamAcpi
  note_entry p acpi =
      if m p == 0
      then (if leb lapic_size (m (add64 p 1)) && not (bit_and (load32 m (add64 p 4)) 1 == 0)
          then record acpi { cpu_count = u8 (acpi.cpu_count + 1) }
          else acpi)
      else if m p == 1
      then (if leb ioapic_size (m (add64 p 1)) && acpi.ioapic_base == 0
          then record acpi { ioapic_base = load32 m (add64 p 4); ioapic_id = m (add64 p 2) }
          else acpi)
      else acpi

  -- Each entry has two bytes at least, so that half the length of the table bounds the rounds.
  pub entries_loop : ℕ → ℕ → ℕ → SamAcpi → SamAcpi
  entries_loop zero p end acpi = acpi
  entries_loop (suc fuel) p end acpi =
      let rest = entries_loop fuel (add64 p (m (add64 p 1))) end (note_entry p acpi) in
      if ltb end (add64 p 2) || (ltb (m (add64 p 1)) 2 || ltb end (add64 p (m (add64 p 1))))
      then acpi
      else rest

  pub acpi_parse_madt : SamAcpi → ℕ → SamAcpi
  acpi_parse_madt acpi hdr =
      if ltb (table_length hdr) madt_size
      then acpi
      else if not (acpi_checksum hdr (table_length hdr))
      then acpi
      else entries_loop (table_length hdr) (add64 hdr madt_size) (add64 hdr (table_length hdr))
          (record acpi { lapic_base = lapic_address hdr })

  -- `phys`, read at `p`; with an XSDT it is put together from two halves.
  abbrev pub entry_phys : Bool → ℕ → ℕ
  entry_phys use_xsdt p =
      if use_xsdt then load32 m (add64 p 4) * 2 ^ 32 + load32 m p else load32 m p

  abbrev pub entry_bytes : Bool → ℕ
  entry_bytes use_xsdt = if use_xsdt then 8 else 4

  -- The loop of `acpi_find_table`; each round moves on by an entry.
  pub find_loop : Bool → List ℕ → ℕ → ℕ → ℕ → Option ℕ
  find_loop use_xsdt sig zero p end = none
  find_loop use_xsdt sig (suc fuel) p end =
      let phys = entry_phys use_xsdt p in
      let rest = find_loop use_xsdt sig fuel (add64 p (entry_bytes use_xsdt)) end in
      if ltb end (add64 p (entry_bytes use_xsdt))
      then none
      else if phys == 0 || ltb 0xFFFFFFFF phys
      then rest
      else if has_signature phys sig
      then some phys
      else rest

  pub acpi_find_table : ℕ → Bool → List ℕ → Option ℕ
  acpi_find_table rsdt use_xsdt sig =
      if rsdt == 0
      then none
      else if not (acpi_checksum rsdt (table_length rsdt))
      then none
      else find_loop use_xsdt sig (table_length rsdt) (add64 rsdt sdt_size)
          (add64 rsdt (table_length rsdt))

  -- The defaults, and what the RSDP at `r` says.
  abbrev pub defaults : SamAcpi
  defaults = record {
    present = 0;
    version = 0;
    cpu_count = 1;
    lapic_base = 0xFEE00000;
    ioapic_base = 0;
    ioapic_id = 0;
    oem_id = 0 ∷ 0 ∷ 0 ∷ 0 ∷ 0 ∷ 0 ∷ 0 ∷ [];
  }

  abbrev pub from_rsdp : ℕ → SamAcpi
  from_rsdp r = record defaults {
    present = 1;
    version = revision r;
    oem_id =
        m (add64 r 9)
        ∷ m (add64 r 10)
        ∷ m (add64 r 11)
        ∷ m (add64 r 12)
        ∷ m (add64 r 13)
        ∷ m (add64 r 14)
        ∷ 0
        ∷ [];
  }

  abbrev pub has_xsdt : ℕ → Bool
  has_xsdt r = leb 2 (revision r) && not (xsdt_address r == 0)

  abbrev pub parse_found : SamAcpi → Option ℕ → SamAcpi
  parse_found acpi none = acpi
  parse_found acpi (some hdr) = acpi_parse_madt acpi hdr

  abbrev pub init_at : Option ℕ → SamAcpi × ℕ
  init_at none = (defaults, 0)
  init_at (some r) = (
    parse_found (from_rsdp r) (
        acpi_find_table (if has_xsdt r then xsdt_address r else rsdt_address r) (has_xsdt r)
          madt_sig),
    1,
  )

  pub acpi_init : SamAcpi × ℕ
  acpi_init = init_at acpi_find_rsdp
