-- ===== src/Config.antt =====
-- kernel/boot_config.h and the end of kernel/wizard.h: the boot configuration at 0x7000, which the
-- wizard writes and the kernel reads. The structure at that address is a record; text in a field
-- is the list of its bytes before the NUL.
use samos.Base.{ℕ, ◌==◌, if◌then◌else◌, List, Option, some, none}

-- SAM_BOOT_CFG_MAGIC
abbrev pub sam_boot_cfg_magic : ℕ
sam_boot_cfg_magic = 0xB007C0FF

-- `sam_boot_config_t`
pub record SamBootConfig : Type 0 where
  pub magic : ℕ
  pub mode : ℕ
  pub ai_base : ℕ
  pub game_base : ℕ
  pub general_base : ℕ
  pub ai_size : ℕ
  pub game_size : ℕ
  pub general_size : ℕ
  pub mode_name : List ℕ
  pub ram_mb : ℕ
  pub simd_level : ℕ
  pub gpu_class : ℕ
  pub has_nvme : ℕ
  pub has_wireless : ℕ
  pub hostname : List ℕ
  pub ssid : List ℕ

-- What the function leaves in `*out` when it returns 0; `none` is the result -1.
unfoldable pub sam_boot_config_read : SamBootConfig → Option SamBootConfig
sam_boot_config_read src = if src.magic == sam_boot_cfg_magic then some src else none
