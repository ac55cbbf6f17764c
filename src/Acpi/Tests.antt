-- ===== src/Acpi/Tests.antt =====
-- Tables with two processors, one of them enabled, and the theorems at them.
use samos.Base.{
  ℕ, ◌+◌, ◌-◌, ◌%◌, ◌^◌, ◌≡◌, ◌⊎◌, refl, arith, List, [], ◌∷◌, ◌++◌, replicate, some, Memory, ltb,
  if◌then◌else◌, get_or, true, false, All, IsBytes, if-cases, ◌<◌, zero, suc,
}
use samos.Acpi.{
  acpi_checksum, sum_loop, has_signature, rsdp_loop, acpi_find_rsdp, acpi_find_table, find_loop,
  table_length, acpi_init, madt_sig,
}
use samos.Acpi.Madt.{IsMadt, done, processor, other, acpi_init-count}
use samos.Acpi.Rsdp.{InEbda, InBios, acpi_find_rsdp-IsFirst}

-- The bytes `bs` at `base`, over a memory.
abbrev laid : ℕ → List ℕ → Memory → Memory
laid base bs m x = if ltb x base then m x else get_or bs (x - base) (m x)

abbrev rsdp_bytes : List ℕ
rsdp_bytes =
    (b'R' ∷ b'S' ∷ b'D' ∷ b' ' ∷ b'P' ∷ b'T' ∷ b'R' ∷ b' ' ∷ 224 ∷ b'S' ∷ b'A' ∷ b'M' ∷ [])
    ++ (replicate 5 0 ++ (0x20 ∷ 0 ∷ 0 ∷ []))

-- An RSDT with one entry, 0x3000.
abbrev rsdt_bytes : List ℕ
rsdt_bytes =
    (b'R' ∷ b'S' ∷ b'D' ∷ b'T' ∷ 40 ∷ 0 ∷ 0 ∷ 0 ∷ 0 ∷ 107 ∷ [])
    ++ (replicate 27 0 ++ (0x30 ∷ 0 ∷ 0 ∷ []))

-- A MADT with an enabled and a disabled processor.
abbrev madt_bytes : List ℕ
madt_bytes =
    (b'A' ∷ b'P' ∷ b'I' ∷ b'C' ∷ 60 ∷ 0 ∷ 0 ∷ 0 ∷ 0 ∷ 148 ∷ [])
    ++ replicate 34 0
    ++ (0 ∷ 8 ∷ 0 ∷ 0 ∷ 1 ∷ 0 ∷ 0 ∷ 0 ∷ [])
    ++ (0 ∷ 8 ∷ 1 ∷ 1 ∷ 0 ∷ 0 ∷ 0 ∷ 0 ∷ [])

-- The RSDP stands in the second paragraph of the EBDA.
abbrev tables : Memory
tables =
    laid 0x80010 rsdp_bytes
      (laid 0x3000 madt_bytes (laid 0x2000 rsdt_bytes (laid 0x40E (0 ∷ 0x80 ∷ []) (λ a. 0))))

found : acpi_find_rsdp tables ≡ some 0x80010
unfolding acpi_find_rsdp rsdp_loop acpi_checksum sum_loop has_signature
found = refl

madt_found : acpi_find_table tables 0x2000 false (madt_sig tables) ≡ some 0x3000
unfolding acpi_find_table find_loop acpi_checksum sum_loop has_signature table_length
madt_found = refl

madt_sum : acpi_checksum tables 0x3000 (table_length tables 0x3000) ≡ true
unfolding acpi_checksum sum_loop table_length
madt_sum = refl

madt_entries : IsMadt tables (0x3000 + table_length tables 0x3000) (0x3000 + 44) 1
unfolding table_length
madt_entries =
    processor refl (omega arith) (omega arith)
      (other refl (omega arith) (omega arith) (done (omega arith)))

-- The witnesses.
acpi_init-count_example :
    ((acpi_init tables).1 ≡ 1) × ((acpi_init tables).0.cpu_count ≡ (1 + 1) % 2 ^ 8)
unfolding table_length
acpi_init-count_example =
    acpi_init-count tables 0x80010 0x3000 1 found madt_found (omega arith) (omega arith) madt_sum
      madt_entries

laid-IsBytes :
    (base : ℕ) (bs : List ℕ) (m : Memory)
    → All (λ b. b < 256) bs
    → IsBytes m
    → IsBytes (laid base bs m)
laid-IsBytes base bs m h k a =
    if-cases (λ v. v < 256) (ltb a base) (λ e. k a) (λ e. inside bs (a - base) (m a) h (k a))
  where
    inside : (bs : List ℕ) (i d : ℕ) → All (λ b. b < 256) bs → d < 256 → get_or bs i d < 256
    inside [] i d h l = l
    inside (b ∷ bs) zero d h l = h.0
    inside (b ∷ bs) (suc i) d h l = inside bs i d h.1 l

tables-IsBytes : IsBytes tables
tables-IsBytes = laid-IsBytes 0x80010 rsdp_bytes _ (omega arith) (
    laid-IsBytes 0x3000 madt_bytes _ (omega arith) (
      laid-IsBytes 0x2000 rsdt_bytes _ (omega arith)
        (laid-IsBytes 0x40E (0 ∷ 0x80 ∷ []) _ (omega arith) (λ a. omega arith))))

acpi_find_rsdp-IsFirst_example :
    InEbda tables (acpi_find_rsdp tables) ⊎ InBios tables (acpi_find_rsdp tables)
acpi_find_rsdp-IsFirst_example = acpi_find_rsdp-IsFirst tables tables-IsBytes
