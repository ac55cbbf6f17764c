-- ===== src/Mcp/Ends.antt =====
-- The PCI scan ends, whatever the configuration space says, and what it never changes.
use samos.Base.{
  ℕ, zero, suc, ◌+◌, ◌<◌, ◌≤◌, ◌≡◌, ◌≢◌, inl, inr, refl, sym, ap, ◌∙◌, arith, true, not, ◌&&◌, ◌||◌,
  ◌==◌, if◌then◌else◌, if-cases, Bool-cases, Option, some, length, length-set, bit_and,
  bit_and-mask, ◌>>>◌, u16,
}
use samos.Mcp.Profile.{SamMcp, mcp_gpu_discrete}
use samos.Mcp.Pci.{
  SamMcpPci3, Scan, is_visited, pci_bus_mark, note_display, note_rest, note_ahci, note_ata,
  is_absent, pci_read32, pci_class, prog_if, pci_classify, header_type, secondary, enters_bridge,
  follow_bridge, scan_function, functions_loop, other_functions, pci_scan_device, devices_loop,
  pci_scan_bus, scan_start, note_scanned, mcp_scan_pci,
}
use samos.Mcp.Visited.{unvisited, unvisited-mark, unvisited_le}

abbrev left_to_visit : Scan → ℕ
left_to_visit s = unvisited s.visited 256

-- What the scan relies on and keeps: the bitmap has its 32 bytes, the I/O base of the ATA
-- controller is the legacy one, and no display is classed as discrete.
pub record IsKept (s : Scan) : Type 0 where
  pub bitmap : length s.visited ≡ 32
  pub ata : s.pci3.ata_iobase ≡ 0x1F0
  pub gpu : s.mcp.gpu_class ≢ mcp_gpu_discrete

-- A step of the scan returned a state that keeps all this and has no more buses left.
record IsDone (s : Scan) (o : Option Scan) : Type 0 where
  after : Scan
  returned : o ≡ some after
  kept : IsKept after
  fewer : left_to_visit after ≤ left_to_visit s

note_ata-kept : (c p bar0 : ℕ) (x : SamMcpPci3) → x.ata_iobase ≡ 0x1F0 → note_ata c p bar0 x ≡ x
unfolding note_ata
note_ata-kept c p bar0 x h =
    if-cases (λ (r : SamMcpPci3). r ≡ x)
      (not (bit_and c 0xFF00 == 0x0100 && bit_and c 0x00FF == 0x01)) (λ e. refl)
      (λ e. ap (λ b. if b then x else other_bases) in_use)
  where
    other_bases : SamMcpPci3
    other_bases =
        if bit_and p 1 == 0
        then record x { ata_iobase = 0x1F0 }
        else if not (bit_and bar0 1 == 0)
        then record x { ata_iobase = u16 (bit_and bar0 0xFFFFFFFC) }
        else x

    in_use : not (x.ata_iobase == 0) ≡ true
    in_use = ground arith

note_ahci-kept : (c bar5 : ℕ) (x : SamMcpPci3) → (note_ahci c bar5 x).ata_iobase ≡ x.ata_iobase
unfolding note_ahci
note_ahci-kept c bar5 x =
    if-cases (λ (r : SamMcpPci3). r.ata_iobase ≡ x.ata_iobase) (c == 0x0106 && x.ahci_bar5 == 0)
      (λ e. refl) (λ e. refl)

note_display-kept :
    (c id : ℕ) (mcp : SamMcp)
    → mcp.gpu_class ≢ mcp_gpu_discrete
    → (note_display c id mcp).gpu_class ≢ mcp_gpu_discrete
unfolding note_display
note_display-kept c id mcp h = ground arith

note_rest-gpu : (c p : ℕ) (mcp : SamMcp) → (note_rest c p mcp).gpu_class ≡ mcp.gpu_class
unfolding note_rest
note_rest-gpu c p mcp = refl

ata_kept :
    (c p bar5 bar0 : ℕ) (x : SamMcpPci3)
    → x.ata_iobase ≡ 0x1F0
    → (note_ata c p bar0 (note_ahci c bar5 x)).ata_iobase ≡ 0x1F0
ata_kept c p bar5 bar0 x h =
    let e = note_ahci-kept c bar5 x ∙ h in
    ap (λ (r : SamMcpPci3). r.ata_iobase) (note_ata-kept c p bar0 (note_ahci c bar5 x) e) ∙ e

gpu_kept :
    (c p id : ℕ) (mcp : SamMcp)
    → mcp.gpu_class ≢ mcp_gpu_discrete
    → (note_rest c p (note_display c id mcp)).gpu_class ≢ mcp_gpu_discrete
gpu_kept c p id mcp h e =
    note_display-kept c id mcp h (sym (note_rest-gpu c p (note_display c id mcp)) ∙ e)

module _ (config : ℕ → ℕ) where
  pci_classify-IsKept :
      (s : Scan) (bus dev fn : ℕ)
      → IsKept s
      → IsKept (pci_classify config s bus dev fn)
        × ((pci_classify config s bus dev fn).visited ≡ s.visited)
  unfolding pci_classify
  pci_classify-IsKept s bus dev fn k =
      if-cases (λ (r : Scan). IsKept r × (r.visited ≡ s.visited)) _ (λ e. (k, refl))
        (λ e. (
          record {
            bitmap = k.bitmap;
            ata =
                ata_kept (pci_class config bus dev fn) (prog_if config bus dev fn)
                  (pci_read32 config bus dev fn 0x24) (pci_read32 config bus dev fn 0x10)
                  (record s.pci3 { pci_dev_count = u16 (s.pci3.pci_dev_count + 1) }) k.ata;
            gpu =
                gpu_kept (pci_class config bus dev fn) (prog_if config bus dev fn)
                  (pci_read32 config bus dev fn 0x00) s.mcp k.gpu;
          },
          refl,
        ))

  secondary_small : (bus dev fn : ℕ) → secondary config bus dev fn < 256
  secondary_small bus dev fn =
      omega (arith, bit_and-mask 8 (pci_read32 config bus dev fn 0x18 >>> 8))

  -- What the proof supposes of `_pci_scan_bus` with `n` buses left.
  abbrev Ends : ℕ → (Scan → ℕ → Option Scan) → Type 0
  Ends n scan =
      (s : Scan) (bus : ℕ) → IsKept s → bus < 256 → left_to_visit s < n → IsDone s (scan s bus)

  module _ (n : ℕ) (scan : Scan → ℕ → Option Scan) (ends : Ends n scan) where
    follow_bridge-IsDone :
        (s : Scan) (bus dev fn : ℕ)
        → IsKept s
        → left_to_visit s < n
        → IsDone s (follow_bridge config scan s bus dev fn)
    unfolding follow_bridge
    follow_bridge-IsDone s bus dev fn k l = elim (Bool-cases (enters_bridge config bus dev fn)) [
      | inl e ↦
          rw (e, follow_bridge)
            (ends s (secondary config bus dev fn) k (secondary_small bus dev fn) l)
      | inr e ↦
          rw (e, follow_bridge)
            (record { after = s; returned = refl; kept = k; fewer = omega arith })
    ]

    -- One step after another.
    IsDone-trans :
        {s t : Scan} {o : Option Scan} → left_to_visit t ≤ left_to_visit s → IsDone t o → IsDone s o
    IsDone-trans l d = record {
      after = d.after;
      returned = d.returned;
      kept = d.kept;
      fewer = omega (arith, d.fewer);
    }

    scan_function-IsDone :
        (s : Scan) (bus dev fn : ℕ)
        → IsKept s
        → left_to_visit s < n
        → IsDone s (scan_function config scan s bus dev fn)
    unfolding scan_function
    scan_function-IsDone s bus dev fn k l =
        elim (Bool-cases (is_absent (pci_read32 config bus dev fn 0x00))) [
          | inl e ↦
              rw (e, scan_function)
                (record { after = s; returned = refl; kept = k; fewer = omega arith })
          | inr e ↦
              let c = pci_classify-IsKept s bus dev fn k in
              let same : left_to_visit (pci_classify config s bus dev fn) ≡ left_to_visit s =
                ap (λ v. unvisited v 256) c.1 in
              rw (e, scan_function)
                (IsDone-trans (omega arith) (
                  follow_bridge-IsDone (pci_classify config s bus dev fn) bus dev fn c.0
                    (omega arith)))
        ]

    functions_loop-IsDone :
        (left : ℕ) (s : Scan) (bus dev fn : ℕ)
        → IsKept s
        → left_to_visit s < n
        → IsDone s (functions_loop config scan left s bus dev fn)
    unfolding functions_loop
    functions_loop-IsDone zero s bus dev fn k l = record {
      after = s;
      returned = refl;
      kept = k;
      fewer = omega arith;
    }
    functions_loop-IsDone (suc left) s bus dev fn k l =
        let d = scan_function-IsDone s bus dev fn k l in
        rw (d.returned, functions_loop)
          (IsDone-trans d.fewer
            (functions_loop-IsDone left d.after bus dev (fn + 1) d.kept (omega (arith, d.fewer))))

    pci_scan_device-IsDone :
        (s : Scan) (bus dev : ℕ)
        → IsKept s
        → left_to_visit s < n
        → IsDone s (pci_scan_device config scan s bus dev)
    unfolding pci_scan_device other_functions
    pci_scan_device-IsDone s bus dev k l =
        let d = scan_function-IsDone s bus dev 0 k l in
        rw (d.returned)
          (elim (Bool-cases (
            is_absent (pci_read32 config bus dev 0 0x00)
            || bit_and (header_type config bus dev 0) 0x80 == 0)) [
              | inl e ↦
                  rw (e, other_functions)
                    (record { after = d.after; returned = refl; kept = d.kept; fewer = d.fewer })
              | inr e ↦
                  rw (e, other_functions)
                    (IsDone-trans d.fewer
                      (functions_loop-IsDone 7 d.after bus dev 1 d.kept (omega (arith, d.fewer))))
            ])

    devices_loop-IsDone :
        (left : ℕ) (s : Scan) (bus dev : ℕ)
        → IsKept s
        → left_to_visit s < n
        → IsDone s (devices_loop config scan left s bus dev)
    unfolding devices_loop
    devices_loop-IsDone zero s bus dev k l = record {
      after = s;
      returned = refl;
      kept = k;
      fewer = omega arith;
    }
    devices_loop-IsDone (suc left) s bus dev k l =
        let d = pci_scan_device-IsDone s bus dev k l in
        rw (d.returned, devices_loop)
          (IsDone-trans d.fewer
            (devices_loop-IsDone left d.after bus (dev + 1) d.kept (omega (arith, d.fewer))))

  marked-IsKept :
      (s : Scan) (bus : ℕ) → IsKept s → IsKept (record s { visited = pci_bus_mark s.visited bus })
  unfolding pci_bus_mark
  marked-IsKept s bus k = record {
    bitmap = length-set s.visited _ _ ∙ k.bitmap;
    ata = k.ata;
    gpu = k.gpu;
  }

  pci_scan_bus-Ends : (fuel : ℕ) → Ends fuel (pci_scan_bus config fuel)
  unfolding pci_scan_bus
  pci_scan_bus-Ends zero s bus k small l = absurd (omega arith)
  pci_scan_bus-Ends (suc fuel) s bus k small l = elim (Bool-cases (is_visited s.visited bus)) [
    | inl e ↦
        rw (e, pci_scan_bus) (record { after = s; returned = refl; kept = k; fewer = omega arith })
    | inr e ↦
        let m = unvisited-mark s.visited k.bitmap bus small e 256 small in
        rw (e, pci_scan_bus)
          (IsDone-trans fuel (pci_scan_bus config fuel) (pci_scan_bus-Ends fuel) (omega arith) (
            devices_loop-IsDone fuel (pci_scan_bus config fuel) (pci_scan_bus-Ends fuel) 32
              (record s { visited = pci_bus_mark s.visited bus }) bus 0 (marked-IsKept s bus k)
              (omega arith)))
  ]

  -- The PCI scan of a fresh profile returns, whatever devices, functions and bridges the
  -- configuration space shows, cycles among the bridges included. It ends with the I/O base of
  -- the ATA controller still at 0x1F0 and with no display classed as discrete.
  pub mcp_scan_pci-IsKept :
      (mcp : SamMcp)
      → mcp.gpu_class ≢ mcp_gpu_discrete
      → (s : Scan) × (mcp_scan_pci config mcp ≡ some s) × (s.mcp.pci_scanned ≡ 1) × IsKept s
  unfolding mcp_scan_pci
  mcp_scan_pci-IsKept mcp h =
      let start = scan_start config mcp in
      let d =
        pci_scan_bus-Ends 257 start 0 (record { bitmap = refl; ata = refl; gpu = h }) (omega arith)
          (omega (arith, unvisited_le start.visited 256)) in
      (
        record d.after { mcp = record d.after.mcp { pci_scanned = 1 } },
        ap (λ o. note_scanned config o) d.returned,
        refl,
        record { bitmap = d.kept.bitmap; ata = d.kept.ata; gpu = d.kept.gpu },
      )
