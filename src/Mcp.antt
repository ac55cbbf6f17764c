-- ===== src/Mcp.antt =====
-- kernel/mcp.h: the machine capability probe. Its parts are in Profile (the profile and the scans of
-- the boot information), Cpu and Pci; here they are put together.
pub mod Profile
pub mod Cpu
pub mod Pci
mod Visited
pub mod Ends
mod Tests
use samos.Base.{ℕ, zero, suc, Memory, Option, some, none, List, replicate}
use samos.Mcp.Profile.{SamMcp, mcp_scan_ram, mcp_scan_fb}
use samos.Mcp.Cpu.{McpCpuid, mcp_scan_cpu}
use samos.Mcp.Pci.{Scan, mcp_scan_pci}

-- `mcp_memset` of the whole profile to zero
abbrev pub zero_profile : SamMcp
zero_profile = record {
  ram_mb = 0;
  ram_mb_raw = 0;
  cpu_arch = 0;
  simd_level = 0;
  cpu_cores = 0;
  cpu_threads = 0;
  cpu_mhz = 0;
  cpu_brand = replicate 48 0;
  gpu_class = 0;
  gpu_pci_vendor = 0;
  gpu_pci_device = 0;
  fb_available = 0;
  fb_width = 0;
  fb_height = 0;
  fb_bpp = 0;
  fb_type_raw = 0;
  fb_addr_raw = 0;
  storage_count = 0;
  has_nvme = 0;
  has_ahci = 0;
  has_ethernet = 0;
  has_wireless = 0;
  has_usb2 = 0;
  has_usb3 = 0;
  has_hda_audio = 0;
  pci_scanned = 0;
  mmap_valid = 0;
}

-- `sam_mcp_scan`, with the fuel for the loops over the boot information; `none` is that it was not
-- enough.
module _ (m : Memory) (cpuid : ℕ → ℕ → McpCpuid) (config : ℕ → ℕ) (efuel fuel : ℕ) where
  abbrev scan_with_fb : Option SamMcp → Option Scan
  scan_with_fb none = none
  scan_with_fb (some mcp) = mcp_scan_pci config (mcp_scan_cpu cpuid mcp)

  abbrev scan_with_ram : ℕ → Option SamMcp → Option Scan
  scan_with_ram info none = none
  scan_with_ram info (some mcp) = scan_with_fb (mcp_scan_fb m fuel mcp info)

  pub sam_mcp_scan : ℕ → ℕ → Option Scan
  sam_mcp_scan multiboot_info cpu_mhz_pit =
      scan_with_ram multiboot_info
        (mcp_scan_ram m efuel fuel (record zero_profile { cpu_mhz = cpu_mhz_pit }) multiboot_info)
