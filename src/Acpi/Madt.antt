-- ===== src/Acpi/Madt.antt =====
-- The number of processors that the MADT gives.
use samos.Base.{
  ℕ, zero, suc, ◌+◌, ◌<◌, ◌≤◌, ◌^◌, ◌%◌, ◌≡◌, refl, ◌∙◌, arith, Bool, true, false, not, ◌&&◌, ◌||◌,
  leb, ltb, ◌==◌, if◌then◌else◌, some, Memory, load32, add64, bit_and,
}
use samos.Acpi.{
  SamAcpi, table_length, acpi_checksum, note_entry, entries_loop, acpi_parse_madt, acpi_find_rsdp,
  acpi_find_table, has_xsdt, xsdt_address, rsdt_address, madt_sig, acpi_init, madt_size, lapic_size,
  lapic_address, from_rsdp,
}

module _ (m : Memory) where
  -- An entry for a processor that is enabled.
  abbrev pub is_enabled : ℕ → Bool
  is_enabled p =
      m p == 0 && (leb lapic_size (m (add64 p 1)) && not (bit_and (load32 m (add64 p 4)) 1 == 0))

  -- The entries from `p` to the end of the table, with the number of enabled processors.
  pub data IsMadt (end : ℕ) : ℕ → ℕ → Type 0 where
    done : {p : ℕ} → end < p + 2 → IsMadt end p 0
    processor :
        {p n : ℕ}
        → is_enabled p ≡ true
        → 2 ≤ m (add64 p 1)
        → p + m (add64 p 1) ≤ end
        → IsMadt end (p + m (add64 p 1)) n
        → IsMadt end p (suc n)
    other :
        {p n : ℕ}
        → is_enabled p ≡ false
        → 2 ≤ m (add64 p 1)
        → p + m (add64 p 1) ≤ end
        → IsMadt end (p + m (add64 p 1)) n
        → IsMadt end p n

  note_entry-enabled :
      (p : ℕ) (acpi : SamAcpi)
      → is_enabled p ≡ true
      → (note_entry m p acpi).cpu_count ≡ (acpi.cpu_count + 1) % 2 ^ 8
  unfolding note_entry
  note_entry-enabled p acpi h = ground arith

  note_entry-other :
      (p : ℕ) (acpi : SamAcpi)
      → is_enabled p ≡ false
      → (note_entry m p acpi).cpu_count ≡ acpi.cpu_count
  unfolding note_entry
  note_entry-other p acpi h = ground arith

  abbrev ends_here : ℕ → ℕ → Bool
  ends_here end p =
      ltb end (add64 p 2) || (ltb (m (add64 p 1)) 2 || ltb end (add64 p (m (add64 p 1))))

  goes_on :
      (end p : ℕ)
      → end < 2 ^ 63
      → 2 ≤ m (add64 p 1)
      → p + m (add64 p 1) ≤ end
      → (ends_here end p ≡ false) × (add64 p (m (add64 p 1)) ≡ p + m (add64 p 1))
  goes_on end p e a b = (ground arith, omega arith)

  entries_loop-count :
      (fuel : ℕ) {end p n : ℕ} (acpi : SamAcpi)
      → end < 2 ^ 63
      → p ≤ end
      → end < p + fuel
      → acpi.cpu_count < 2 ^ 8
      → IsMadt end p n
      → (entries_loop m fuel p end acpi).cpu_count ≡ (acpi.cpu_count + n) % 2 ^ 8
  unfolding entries_loop
  entries_loop-count zero acpi e l f c d = absurd (omega arith)
  entries_loop-count (suc fuel) {end} {p} acpi e l f c (done d) =
      let t : ends_here end p ≡ true = ground arith in rw t (omega arith)
  entries_loop-count (suc fuel) {end} {p} acpi e l f c (processor a b d r) =
      let g = goes_on end p e b d in
      let q = note_entry-enabled p acpi a in
      rw (g.0, g.1)
        (entries_loop-count fuel (note_entry m p acpi) e d (omega arith) (omega arith) r
          ∙ omega arith)
  entries_loop-count (suc fuel) {end} {p} acpi e l f c (other a b d r) =
      let g = goes_on end p e b d in
      let q = note_entry-other p acpi a in
      rw (g.0, g.1)
        (entries_loop-count fuel (note_entry m p acpi) e d (omega arith) (omega arith) r
          ∙ omega arith)

  acpi_parse_madt-count :
      (acpi : SamAcpi) (hdr n : ℕ)
      → madt_size ≤ table_length m hdr
      → hdr + table_length m hdr < 2 ^ 63
      → acpi_checksum m hdr (table_length m hdr) ≡ true
      → acpi.cpu_count < 2 ^ 8
      → IsMadt (hdr + table_length m hdr) (hdr + madt_size) n
      → (acpi_parse_madt m acpi hdr).cpu_count ≡ (acpi.cpu_count + n) % 2 ^ 8
  unfolding acpi_parse_madt
  acpi_parse_madt-count acpi hdr n long fits sum c d =
      let short : ltb (table_length m hdr) madt_size ≡ false = ground arith in
      let start : add64 hdr madt_size ≡ hdr + madt_size = omega arith in
      let stop : add64 hdr (table_length m hdr) ≡ hdr + table_length m hdr = omega arith in
      rw (short, sum, start, stop)
        (entries_loop-count (table_length m hdr) (record acpi { lapic_base = lapic_address m hdr })
          fits (omega arith) (omega arith) c d)

  -- With an RSDP and a valid MADT whose entries show `n` enabled processors, `acpi_init` returns 1
  -- and counts `n + 1` processors, in 8 bits: the count starts from the 1 that is the default for a
  -- machine without ACPI. The MADT lies below 2 ^ 63.
  pub acpi_init-count :
      (r hdr n : ℕ)
      → acpi_find_rsdp m ≡ some r
      → acpi_find_table m
          (if has_xsdt m r then xsdt_address m r else rsdt_address m r)
          (has_xsdt m r)
          (madt_sig m)
        ≡ some hdr
      → madt_size ≤ table_length m hdr
      → hdr + table_length m hdr < 2 ^ 63
      → acpi_checksum m hdr (table_length m hdr) ≡ true
      → IsMadt (hdr + table_length m hdr) (hdr + madt_size) n
      → ((acpi_init m).1 ≡ 1) × ((acpi_init m).0.cpu_count ≡ (1 + n) % 2 ^ 8)
  unfolding acpi_init
  acpi_init-count r hdr n found table long fits sum d =
      rw (found, table)
        (refl, acpi_parse_madt-count (from_rsdp m r) hdr n long fits sum (omega arith) d)
