-- ===== src/Wizard/Tests.antt =====
-- kernel/wizard.h: witnesses, and runs on small inputs.
use samos.Base.{ℕ, ◌≡◌, refl, arith, true, false, some, List, [], ◌∷◌, ◌++◌}
use samos.Serial.{codes}
use samos.Fb.{SamFb}
use samos.Mcp.Profile.{SamMcp}
use samos.Wizard.{sam_wizard_run, typed, skipped, field_key, wait_enter, type_char, wz_sc_alpha_sh}
use samos.Wizard.Handoff.{Returned, sam_wizard_run-Returned}
use samos.Wizard.Safety.{page_display, Contained, sam_wizard_run-Contained}

abbrev xga : SamFb
xga = record {
  addr = 0xFD000000;
  pitch_px = 1024;
  width = 1024;
  height = 768;
  bpp = 32;
  ready = true;
}

abbrev laptop : SamMcp
laptop = record {
  ram_mb = 4096;
  ram_mb_raw = 4096;
  cpu_arch = 1;
  simd_level = 1;
  cpu_cores = 2;
  cpu_threads = 4;
  cpu_mhz = 2400;
  cpu_brand = codes "i5" ++ 0 ∷ [];
  gpu_class = 1;
  gpu_pci_vendor = 0;
  gpu_pci_device = 0;
  fb_available = 1;
  fb_width = 1024;
  fb_height = 768;
  fb_bpp = 32;
  fb_type_raw = 1;
  fb_addr_raw = 0xFD000000;
  storage_count = 0;
  has_nvme = 0;
  has_ahci = 1;
  has_ethernet = 1;
  has_wireless = 1;
  has_usb2 = 1;
  has_usb3 = 0;
  has_hda_audio = 0;
  pci_scanned = 1;
  mmap_valid = 1;
}

-- Enter; backspace, shift, "B" and Enter; "h" and Enter; Enter; the release of a key, and Enter.
abbrev typed_keys : List ℕ
typed_keys = 0x1C ∷ 0x0E ∷ 0x2A ∷ 0x30 ∷ 0x1C ∷ 0x23 ∷ 0x1C ∷ 0x1C ∷ 0x9C ∷ 0x1C ∷ []

-- The witness.
sam_wizard_run-Returned_example : Returned (sam_wizard_run xga laptop typed_keys (λ p. 0) (λ p. 0))
sam_wizard_run-Returned_example =
    sam_wizard_run-Returned xga laptop typed_keys (λ p. 0) (λ p. 0) (omega arith)

-- The witness.
sam_wizard_run-Contained_example :
    Contained xga (λ p. 0) (λ p. 0) (sam_wizard_run xga laptop typed_keys (λ p. 0) (λ p. 0))
sam_wizard_run-Contained_example =
    sam_wizard_run-Contained xga laptop typed_keys (λ p. 0) (λ p. 0)
      (page_display (record {
        is_screen = record {
          is_ready = refl;
          row_fits = omega arith;
          screen_fits = omega arith;
          width_fits = omega arith;
          height_fits = omega arith;
        };
        wide = omega arith;
        high = omega arith;
      }))
      (omega arith)

-- Any character is taken, not only letters, digits and hyphens.
field_key_bang : field_key false true (codes "a") 0x02 ≡ typed false (codes "a!") true
unfolding field_key type_char wz_sc_alpha_sh
field_key_bang = refl

field_key_tab : field_key true false (codes "a") 0x0F ≡ skipped
unfolding field_key
field_key_tab = refl

wait_enter_skips : wait_enter (0x01 ∷ 0x9C ∷ 0x1C ∷ 0x02 ∷ []) ≡ some (0x02 ∷ [])
unfolding wait_enter
wait_enter_skips = refl
