-- ===== src/Shell/Tests.antt =====
-- kernel/shell.h: witnesses, and runs on small inputs.
use samos.Base.{ℕ, ◌≡◌, ◌≤◌, refl, arith, true, false, List, [], ◌∷◌, ◌++◌, map, take, length, All}
use samos.Serial.{codes}
use samos.Fb.{SamFb}
use samos.Mcp.Profile.{SamMcp}
use samos.Config.{SamBootConfig}
use samos.Shell.{Screen}
use samos.Shell.Eval.History.{saves}
use samos.Wizard.Safety.{text_display}
use samos.Shell.Setup.{wizard_calls, wizard_calls-IsTame}
use samos.Shell.Words.{skip_spaces, spaced, tokens, tokens-spaced}
use samos.Shell.Console.{text_mode}
use samos.Shell.Eval.{Calls, Shell, task_failed, command, named, sh_strcmp}
use samos.Shell.Keys.{
  blink, key, extended, shell_loop, key_char, caps_lower, caps_upper, sc_ascii, sc_enter, sc_up,
  sam_shell_run,
}
use samos.Shell.Keys.Invariant.{IsShell, sam_shell_run-IsShell}
use samos.Shell.Keys.Typing.{IsPlain, text_of}
use samos.Shell.Keys.Recall.{typed_line-recalled}

-- The witness.
tokens-spaced_example :
    tokens 8 (spaced ((0, codes "echo") ∷ (2, codes "hi") ∷ []) 1)
    ≡ take 8 (codes "echo" ∷ codes "hi" ∷ [])
tokens-spaced_example =
    tokens-spaced 8 1 ((0, codes "echo") ∷ (2, codes "hi") ∷ [])
      (((λ e. cc), omega arith), (((λ e. cc), omega arith), tt))

abbrev vaio : SamMcp
vaio = record {
  ram_mb = 4096;
  ram_mb_raw = 4096;
  cpu_arch = 1;
  simd_level = 1;
  cpu_cores = 2;
  cpu_threads = 4;
  cpu_mhz = 2400;
  cpu_brand = codes "i5" ++ 0 ∷ [];
  gpu_class = 1;
  gpu_pci_vendor = 0;
  gpu_pci_device = 0;
  fb_available = 0;
  fb_width = 0;
  fb_height = 0;
  fb_bpp = 0;
  fb_type_raw = 0;
  fb_addr_raw = 0;
  storage_count = 0;
  has_nvme = 0;
  has_ahci = 1;
  has_ethernet = 1;
  has_wireless = 0;
  has_usb2 = 1;
  has_usb3 = 0;
  has_hda_audio = 0;
  pci_scanned = 1;
  mmap_valid = 1;
}

abbrev no_fb : SamFb
no_fb = record { addr = 0; pitch_px = 0; width = 0; height = 0; bpp = 0; ready = false }

abbrev config : SamBootConfig
config = record {
  magic = 0;
  mode = 2;
  ai_base = 0x200000;
  game_base = 0x4200000;
  general_base = 0x6200000;
  ai_size = 0x4000000;
  game_size = 0x2000000;
  general_size = 0x2000000;
  mode_name = codes "GENERAL";
  ram_mb = 4096;
  simd_level = 1;
  gpu_class = 1;
  has_nvme = 0;
  has_wireless = 0;
  hostname = codes "samOS-1";
  ssid = [];
}

-- No task starts, and the wizard draws nothing.
abbrev calls : Calls
calls = record { sam_run_task = λ args. task_failed; sam_wizard_run = λ vga vram. (vga, vram) }

abbrev dark : Screen
dark = record { row = 0; col = 0; vga = λ p. 0; vram = λ p. 0 }

-- What ends the wizard with its defaults.
abbrev five_enters : List ℕ
five_enters = sc_enter ∷ sc_enter ∷ sc_enter ∷ sc_enter ∷ sc_enter ∷ []

-- "mem", in the first set of scancodes.
abbrev mem_keys : List ℕ
mem_keys = 0x32 ∷ 0x12 ∷ 0x32 ∷ []

-- The witness.
sam_shell_run-IsShell_example :
    IsShell no_fb
      (λ p. 0)
      (λ p. 0)
      (sam_shell_run no_fb vaio config
        (wizard_calls no_fb vaio five_enters (λ args. task_failed))
        dark
        (map key mem_keys ++ blink ∷ key sc_enter ∷ []))
sam_shell_run-IsShell_example =
    sam_shell_run-IsShell no_fb vaio config
      (wizard_calls no_fb vaio five_enters (λ args. task_failed)) dark
      (map key mem_keys ++ blink ∷ key sc_enter ∷ []) (text_mode refl)
      (wizard_calls-IsTame no_fb vaio five_enters (λ args. task_failed) (text_display refl)
        (omega arith))
      (omega arith) (omega arith)

key_char_plain : key_char false true 0x1E ≡ b'a'
unfolding key_char caps_lower caps_upper sc_ascii
key_char_plain = refl

abbrev fresh : Shell
fresh = record {
  screen = dark;
  shift = false;
  caps = false;
  cmd = [];
  hist = [];
  hist_back = 0;
  cursor_visible = false;
  halted = false;
}

mem_keys-IsPlain : All IsPlain mem_keys
mem_keys-IsPlain =
    let m : IsPlain 0x32 = record {
      in_table = omega arith;
      no_shift = refl;
      no_back = omega arith;
      no_enter = omega arith;
    } in
    let e : IsPlain 0x12 = record {
      in_table = omega arith;
      no_shift = refl;
      no_back = omega arith;
      no_enter = omega arith;
    } in
    (m, (e, (m, tt)))

mem_fits : length (text_of false false mem_keys) ≤ 79
unfolding key_char caps_lower caps_upper sc_ascii
mem_fits = omega arith

mem_saved : saves (command (skip_spaces (text_of false false mem_keys))) ≡ true
unfolding key_char caps_lower caps_upper sc_ascii command named sh_strcmp skip_spaces
mem_saved = refl

-- The witness.
typed_line-recalled_example :
    let sh' =
      shell_loop no_fb vaio config calls fresh
        (map key mem_keys ++ key sc_enter ∷ extended sc_up ∷ []) in
    (sh'.cmd ≡ text_of false false mem_keys) × (sh'.hist ≡ text_of false false mem_keys ∷ [])
typed_line-recalled_example =
    typed_line-recalled no_fb vaio config calls fresh mem_keys refl refl (omega arith)
      mem_keys-IsPlain mem_fits mem_saved
