-- ===== src/Mcp/Pci.antt =====
-- The PCI scan of kernel/mcp.h. `config` is what the configuration ports answer for an address.
use samos.Base.{
  ℕ, zero, suc, ◌+◌, ◌*◌, ◌^◌, Bool, true, false, not, ◌&&◌, ◌||◌, ◌==◌, if◌then◌else◌, Option,
  some, none, List, get_or, set, replicate, bit_and, bit_or, u8, u16, ◌>>>◌,
}
use samos.Mcp.Profile.{SamMcp, mcp_gpu_none, mcp_gpu_integrated, mcp_gpu_multi}

-- `sam_mcp_pci3_t`
pub record SamMcpPci3 : Type 0 where
  pub ahci_bar5 : ℕ
  pub ata_iobase : ℕ
  pub pci_dev_count : ℕ

-- What the scan changes: the profile, `_pci3`, and the bitmap `_pci_bus_visited`.
pub record Scan : Type 0 where
  pub mcp : SamMcp
  pub pci3 : SamMcpPci3
  pub visited : List ℕ

-- The address that `pci_read32` puts on the port.
abbrev pub pci_address : ℕ → ℕ → ℕ → ℕ → ℕ
pci_address bus dev fn reg =
    bit_or (bit_or (bit_or (bit_or (2 ^ 31) (bus * 2 ^ 16)) (dev * 2 ^ 11)) (fn * 2 ^ 8))
      (bit_and reg 0xFC)

-- The bit of a bus, and the test and the set of `_pci_bus_mark`.
abbrev pub bus_bit : ℕ → ℕ
bus_bit bus = 2 ^ bit_and bus 7

unfoldable pub is_visited : List ℕ → ℕ → Bool
is_visited visited bus = not (bit_and (get_or visited (bus >>> 3) 0) (bus_bit bus) == 0)

unfoldable pub pci_bus_mark : List ℕ → ℕ → List ℕ
pci_bus_mark visited bus =
    set visited (bus >>> 3) (u8 (bit_or (get_or visited (bus >>> 3) 0) (bus_bit bus)))

-- The parts of `_pci_classify`, in its order: each looks at the class code.
abbrev pub is_display : ℕ → Bool
is_display c = c == 0x0300 || (c == 0x0301 || (c == 0x0302 || c == 0x0380))

unfoldable pub note_display : ℕ → ℕ → SamMcp → SamMcp
note_display c id mcp =
    if not (is_display c)
    then mcp
    else if mcp.gpu_class == mcp_gpu_none
    then record mcp {
      gpu_class = mcp_gpu_integrated;
      gpu_pci_vendor = bit_and id 0xFFFF;
      gpu_pci_device = u16 (id >>> 16);
    }
    else record mcp { gpu_class = mcp_gpu_multi }

unfoldable pub note_rest : ℕ → ℕ → SamMcp → SamMcp
note_rest c prog_if mcp = record mcp {
  has_ahci = if c == 0x0106 then 1 else mcp.has_ahci;
  storage_count =
      if c == 0x0106 || c == 0x0108 then u8 (mcp.storage_count + 1) else mcp.storage_count;
  has_nvme = if c == 0x0108 then 1 else mcp.has_nvme;
  has_ethernet = if c == 0x0200 then 1 else mcp.has_ethernet;
  has_wireless = if c == 0x0280 then 1 else mcp.has_wireless;
  has_usb3 = if c == 0x0C03 && prog_if == 0x30 then 1 else mcp.has_usb3;
  has_usb2 = if c == 0x0C03 && not (prog_if == 0x30) then 1 else mcp.has_usb2;
  has_hda_audio = if c == 0x0403 then 1 else mcp.has_hda_audio;
}

unfoldable pub note_ahci : ℕ → ℕ → SamMcpPci3 → SamMcpPci3
note_ahci c bar5 pci3 =
    if c == 0x0106 && pci3.ahci_bar5 == 0
    then record pci3 { ahci_bar5 = bit_and bar5 0xFFFFFFF0 }
    else pci3

unfoldable pub note_ata : ℕ → ℕ → ℕ → SamMcpPci3 → SamMcpPci3
note_ata c prog_if bar0 pci3 =
    if not (bit_and c 0xFF00 == 0x0100 && bit_and c 0x00FF == 0x01)
    then pci3
    else if not (pci3.ata_iobase == 0)
    then pci3
    else if bit_and prog_if 1 == 0
    then record pci3 { ata_iobase = 0x1F0 }
    else if not (bit_and bar0 1 == 0)
    then record pci3 { ata_iobase = u16 (bit_and bar0 0xFFFFFFFC) }
    else pci3

-- No function answers.
abbrev pub is_absent : ℕ → Bool
is_absent id = id == 0xFFFFFFFF || id == 0

module _ (config : ℕ → ℕ) where
  abbrev pub pci_read32 : ℕ → ℕ → ℕ → ℕ → ℕ
  pci_read32 bus dev fn reg = config (pci_address bus dev fn reg)

  -- `pci_class` and `prog_if`
  abbrev pub pci_class : ℕ → ℕ → ℕ → ℕ
  pci_class bus dev fn = u16 (pci_read32 bus dev fn 0x08 >>> 16)

  abbrev pub prog_if : ℕ → ℕ → ℕ → ℕ
  prog_if bus dev fn = bit_and (pci_read32 bus dev fn 0x08 >>> 8) 0xFF

  unfoldable pub pci_classify : Scan → ℕ → ℕ → ℕ → Scan
  pci_classify s bus dev fn =
      let id = pci_read32 bus dev fn 0x00 in
      let c = pci_class bus dev fn in
      let p = prog_if bus dev fn in
      let counted = record s.pci3 { pci_dev_count = u16 (s.pci3.pci_dev_count + 1) } in
      if is_absent id then s else record s {
        mcp = note_rest c p (note_display c id s.mcp);
        pci3 =
            note_ata c p (pci_read32 bus dev fn 0x10)
              (note_ahci c (pci_read32 bus dev fn 0x24) counted);
      }

  -- hdr_type, and the secondary bus of a bridge
  abbrev pub header_type : ℕ → ℕ → ℕ → ℕ
  header_type bus dev fn = bit_and (pci_read32 bus dev fn 0x0C >>> 16) 0xFF

  abbrev pub secondary : ℕ → ℕ → ℕ → ℕ
  secondary bus dev fn = bit_and (pci_read32 bus dev fn 0x18 >>> 8) 0xFF

  -- The recursion into a bridge; `scan` is `_pci_scan_bus`, which may run out of the model's fuel.
  abbrev pub enters_bridge : ℕ → ℕ → ℕ → Bool
  enters_bridge bus dev fn =
      bit_and (header_type bus dev fn) 0x7F == 1
      && (not (secondary bus dev fn == 0) && not (secondary bus dev fn == bus))

  unfoldable pub follow_bridge : (Scan → ℕ → Option Scan) → Scan → ℕ → ℕ → ℕ → Option Scan
  follow_bridge scan s bus dev fn = elim (enters_bridge bus dev fn) [
    | true ↦ scan s (secondary bus dev fn)
    | false ↦ some s
  ]

  -- One function that is there: classified, then followed if it is a bridge.
  unfoldable pub scan_function : (Scan → ℕ → Option Scan) → Scan → ℕ → ℕ → ℕ → Option Scan
  scan_function scan s bus dev fn = elim (is_absent (pci_read32 bus dev fn 0x00)) [
    | true ↦ some s
    | false ↦ follow_bridge scan (pci_classify s bus dev fn) bus dev fn
  ]

  -- for (fn = fn; left > 0; fn++)
  unfoldable pub functions_loop : (Scan → ℕ → Option Scan) → ℕ → Scan → ℕ → ℕ → ℕ → Option Scan
  functions_loop scan zero s bus dev fn = some s
  functions_loop scan (suc left) s bus dev fn = elim (scan_function scan s bus dev fn) [
    | none ↦ none
    | some s' ↦ functions_loop scan left s' bus dev (fn + 1)
  ]

  -- Functions 1 to 7 after function 0, if the device has several.
  unfoldable pub other_functions : (Scan → ℕ → Option Scan) → Option Scan → ℕ → ℕ → Option Scan
  other_functions scan none bus dev = none
  other_functions scan (some s) bus dev =
      elim (is_absent (pci_read32 bus dev 0 0x00) || bit_and (header_type bus dev 0) 0x80 == 0) [
        | true ↦ some s
        | false ↦ functions_loop scan 7 s bus dev 1
      ]

  unfoldable pub pci_scan_device : (Scan → ℕ → Option Scan) → Scan → ℕ → ℕ → Option Scan
  pci_scan_device scan s bus dev = other_functions scan (scan_function scan s bus dev 0) bus dev

  -- for (dev = dev; left > 0; dev++)
  unfoldable pub devices_loop : (Scan → ℕ → Option Scan) → ℕ → Scan → ℕ → ℕ → Option Scan
  devices_loop scan zero s bus dev = some s
  devices_loop scan (suc left) s bus dev = elim (pci_scan_device scan s bus dev) [
    | none ↦ none
    | some s' ↦ devices_loop scan left s' bus (dev + 1)
  ]

  unfoldable pub pci_scan_bus : ℕ → Scan → ℕ → Option Scan
  pci_scan_bus zero s bus = none
  pci_scan_bus (suc fuel) s bus = elim (is_visited s.visited bus) [
    | true ↦ some s
    | false ↦
        devices_loop (pci_scan_bus fuel) 32 (record s { visited = pci_bus_mark s.visited bus }) bus
          0
  ]

  -- The bitmap and `_pci3` when the scan starts.
  abbrev pub scan_start : SamMcp → Scan
  scan_start mcp = record {
    mcp = mcp;
    pci3 = record { ahci_bar5 = 0; ata_iobase = 0x1F0; pci_dev_count = 0 };
    visited = replicate 32 0;
  }

  abbrev pub note_scanned : Option Scan → Option Scan
  note_scanned none = none
  note_scanned (some s) = some (record s { mcp = record s.mcp { pci_scanned = 1 } })

  -- There are 256 buses, and each level of the recursion marks another one.
  unfoldable pub mcp_scan_pci : SamMcp → Option Scan
  mcp_scan_pci mcp = note_scanned (pci_scan_bus 257 (scan_start mcp) 0)
