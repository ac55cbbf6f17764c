-- ===== src/Mcp/Tests.antt =====
-- A machine with a bridge that leads back to itself, and the theorems at it.
use samos.Base.{ℕ, ◌≡◌, refl, arith, some, ◌==◌, if◌then◌else◌}
use samos.Mcp.{zero_profile}
use samos.Mcp.Cpu.{McpCpuid, mcp_scan_cpu}
use samos.Mcp.Pci.{Scan, pci_address, note_ahci, note_ata, pci_classify, scan_start, mcp_scan_pci}
use samos.Mcp.Ends.{IsKept, mcp_scan_pci-IsKept}

-- On bus 0, device 0 is an IDE controller in native mode with its I/O base at 0xC000, and nothing
-- else answers.
abbrev ide_only : ℕ → ℕ
ide_only a =
    if a == pci_address 0 0 0 0x00
    then 0x70108086
    else if a == pci_address 0 0 0 0x08
    then 0x01010100
    else if a == pci_address 0 0 0 0x10
    then 0xC001
    else if a == pci_address 0 0 0 0x0C
    then 0
    else 0xFFFFFFFF

-- Its base is not recorded.
ide_found : (note_ata 0x0101 1 0xC001 (scan_start ide_only zero_profile).pci3).ata_iobase ≡ 0x1F0
unfolding note_ata
ide_found = refl

classified : (pci_classify ide_only (scan_start ide_only zero_profile) 0 0 0).pci3.pci_dev_count ≡ 1
unfolding pci_classify note_ata note_ahci
classified = refl

abbrev no_cpuid : ℕ → ℕ → McpCpuid
no_cpuid leaf sub = record { eax = 0; ebx = 0; ecx = 0; edx = 0 }

one_core : (mcp_scan_cpu no_cpuid zero_profile).cpu_cores ≡ 1
unfolding mcp_scan_cpu
one_core = refl

-- The witnesses.
mcp_scan_pci-IsKept_example :
    (s : Scan) × (mcp_scan_pci ide_only zero_profile ≡ some s) × (s.mcp.pci_scanned ≡ 1) × IsKept s
mcp_scan_pci-IsKept_example = mcp_scan_pci-IsKept ide_only zero_profile (omega arith)
