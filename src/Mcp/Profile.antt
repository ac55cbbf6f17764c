-- ===== src/Mcp/Profile.antt =====
-- The machine capability profile of kernel/mcp.h, and its scans of the boot information.
use samos.Base.{
  ℕ, zero, suc, ◌-◌, ◌^◌, leb, ◌==◌, if◌then◌else◌, Option, some, none, List, Memory, load32,
  load64, add64, add32, u32, bit_and, ◌>>>◌,
}

-- MCP_ARCH_X86_64, MCP_SIMD_*, MCP_GPU_*
abbrev pub mcp_arch_x86_64 : ℕ
mcp_arch_x86_64 = 1

abbrev pub mcp_simd_scalar : ℕ
mcp_simd_scalar = 0

abbrev pub mcp_simd_sse42 : ℕ
mcp_simd_sse42 = 1

abbrev pub mcp_simd_avx2 : ℕ
mcp_simd_avx2 = 2

abbrev pub mcp_gpu_none : ℕ
mcp_gpu_none = 0

abbrev pub mcp_gpu_integrated : ℕ
mcp_gpu_integrated = 1

abbrev pub mcp_gpu_discrete : ℕ
mcp_gpu_discrete = 2

abbrev pub mcp_gpu_multi : ℕ
mcp_gpu_multi = 3

-- `sam_mcp_t`; the 48 bytes of the brand string are a list.
pub record SamMcp : Type 0 where
  pub ram_mb : ℕ
  pub ram_mb_raw : ℕ
  pub cpu_arch : ℕ
  pub simd_level : ℕ
  pub cpu_cores : ℕ
  pub cpu_threads : ℕ
  pub cpu_mhz : ℕ
  pub cpu_brand : List ℕ
  pub gpu_class : ℕ
  pub gpu_pci_vendor : ℕ
  pub gpu_pci_device : ℕ
  pub fb_available : ℕ
  pub fb_width : ℕ
  pub fb_height : ℕ
  pub fb_bpp : ℕ
  pub fb_type_raw : ℕ
  pub fb_addr_raw : ℕ
  pub storage_count : ℕ
  pub has_nvme : ℕ
  pub has_ahci : ℕ
  pub has_ethernet : ℕ
  pub has_wireless : ℕ
  pub has_usb2 : ℕ
  pub has_usb3 : ℕ
  pub has_hda_audio : ℕ
  pub pci_scanned : ℕ
  pub mmap_valid : ℕ

-- `next` of both loops: the size of the tag rounded up to eight bytes, in 32 bits.
abbrev pub tag_next : Memory → ℕ → ℕ
tag_next m p = bit_and (add32 (load32 m (add64 p 4)) 7) 0xFFFFFFF8

-- The fields of `mb2_mmap_tag_t` and `mb2_mmap_entry_t`.
abbrev pub map_entry_size : Memory → ℕ → ℕ
map_entry_size m p = load32 m (add64 p 8)

abbrev pub entry_length : Memory → ℕ → ℕ
entry_length m ep = load64 m (add64 ep 8)

abbrev pub entry_type : Memory → ℕ → ℕ
entry_type m ep = load32 m (add64 ep 16)

-- The two sums of `mcp_scan_ram`.
pub record Sums : Type 0 where
  pub usable : ℕ
  pub raw : ℕ

abbrev pub add_entry : Memory → ℕ → Sums → Sums
add_entry m ep s = record {
  usable = if entry_type m ep == 1 then add64 s.usable (entry_length m ep) else s.usable;
  raw = add64 s.raw (entry_length m ep);
}

-- The loop over the entries of the tag at `p`, from `ep` on. The C loop does not end if the tag
-- says that an entry has no size; `none` is that the fuel was not enough.
unfoldable pub entries_loop : Memory → ℕ → ℕ → ℕ → Sums → Option Sums
entries_loop m p zero ep s = none
entries_loop m p (suc fuel) ep s =
    let rest = entries_loop m p fuel (add64 ep (map_entry_size m p)) (add_entry m ep s) in
    if leb (add64 ep (map_entry_size m p)) (add64 p (load32 m (add64 p 4))) then rest else some s

-- What the loop over the tags carries: the sums, and whether a memory map was seen.
abbrev pub RamScan : Type 0
RamScan = Sums × ℕ

-- The body of that loop for a memory map.
unfoldable pub scan_map : Memory → ℕ → ℕ → RamScan → Option RamScan
scan_map m fuel p (s, valid) = elim (entries_loop m p fuel (add64 p 16) s) [
  | none ↦ none
  | some s' ↦ some (s', 1)
]

-- The loop over the tags, and what follows the body in it.
unfoldable pub tags_loop : Memory → ℕ → ℕ → ℕ → RamScan → Option RamScan
tags_loop m efuel zero p r = none
tags_loop m efuel (suc fuel) p r =
    if load32 m p == 0
    then some r
    else elim (if load32 m p == 6 then scan_map m efuel p r else some r) [
      | none ↦ none
      | some r' ↦
          let rest = tags_loop m efuel fuel (add64 p (tag_next m p)) r' in
          if tag_next m p == 0 then some r' else rest
    ]

-- (uint32_t)((v + ((1ULL<<20)-1)) >> 20)
abbrev pub to_mib : ℕ → ℕ
to_mib v = u32 (add64 v (2 ^ 20 - 1) >>> 20)

abbrev pub note_ram : SamMcp → RamScan → SamMcp
note_ram mcp (s, valid) = record mcp {
  mmap_valid = if valid == 1 then 1 else mcp.mmap_valid;
  ram_mb = to_mib s.usable;
  ram_mb_raw = to_mib s.raw;
}

unfoldable pub mcp_scan_ram : Memory → ℕ → ℕ → SamMcp → ℕ → Option SamMcp
mcp_scan_ram m efuel fuel mcp multiboot_info =
    elim (tags_loop m efuel fuel (add64 multiboot_info 8) (record { usable = 0; raw = 0 }, 0)) [
      | none ↦ none
      | some r ↦ some (note_ram mcp r)
    ]

-- The loop of `mcp_scan_fb`.
unfoldable pub fb_loop : Memory → ℕ → ℕ → SamMcp → Option SamMcp
fb_loop m zero p mcp = none
fb_loop m (suc fuel) p mcp =
    let rest = fb_loop m fuel (add64 p (tag_next m p)) mcp in
    if load32 m p == 0
    then some mcp
    else if load32 m p == 8
    then some (record mcp {
      fb_available = 1;
      fb_width = load32 m (add64 p 20);
      fb_height = load32 m (add64 p 24);
      fb_bpp = m (add64 p 28);
    })
    else if tag_next m p == 0
    then some mcp
    else rest

unfoldable pub mcp_scan_fb : Memory → ℕ → SamMcp → ℕ → Option SamMcp
mcp_scan_fb m fuel mcp multiboot_info = fb_loop m fuel (add64 multiboot_info 8) mcp
