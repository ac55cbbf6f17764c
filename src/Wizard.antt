-- ===== src/Wizard.antt =====
-- kernel/wizard.h: the first-boot wizard. The scancodes that port 0x60 delivers are a list, and
-- what a function leaves of it comes back with its result; `none` is that a key is still awaited.
-- Text is the list of its bytes before its NUL.
pub mod Draw
pub mod Screens
pub mod Field
pub mod Handoff
pub mod Safety
mod Tests
use samos.Base.{
  ℕ, zero, suc, ◌+◌, ◌-◌, ◌*◌, Bool, true, false, not, ◌&&◌, ◌||◌, ltb, leb, ◌==◌, if◌then◌else◌,
  Option, some, none, List, [], ◌∷◌, ◌++◌, length, get_or, take, Memory, store8, u16, bit_or, ◌^◌,
  before_nul, drop_last,
}
use samos.Serial.{codes}
use samos.Fb.{SamFb, Vram, fill_line}
use samos.Domains.{compute_domain_sizes, boot_mode_general}
use samos.Config.{SamBootConfig, sam_boot_cfg_magic}
use samos.Mcp.Profile.{SamMcp}
use samos.Wizard.Draw.{draws}
use samos.Wizard.Screens.{
  welcome_draws, wz_draw_hostname_screen, wz_draw_wifi_screen, summary_draws, done_draws,
}

-- `wz_sc_alpha` and `wz_sc_alpha_sh`, of 58 entries.
unfoldable pub wz_sc_alpha : List ℕ
wz_sc_alpha =
    0 ∷ 0 ∷ 49 ∷ 50 ∷ 51 ∷ 52 ∷ 53 ∷ 54 ∷ 55 ∷ 56 ∷ 57 ∷ 48 ∷ 45 ∷ 61 ∷ 0 ∷ 0 ∷ 113 ∷ 119 ∷ 101
    ∷ 114 ∷ 116 ∷ 121 ∷ 117 ∷ 105 ∷ 111 ∷ 112 ∷ 91 ∷ 93 ∷ 0 ∷ 0 ∷ 97 ∷ 115 ∷ 100 ∷ 102 ∷ 103 ∷ 104
    ∷ 106 ∷ 107 ∷ 108 ∷ 59 ∷ 39 ∷ 96 ∷ 0 ∷ 92 ∷ 122 ∷ 120 ∷ 99 ∷ 118 ∷ 98 ∷ 110 ∷ 109 ∷ 44 ∷ 46 ∷ 47
    ∷ 0 ∷ 42 ∷ 0 ∷ 32 ∷ []

unfoldable pub wz_sc_alpha_sh : List ℕ
wz_sc_alpha_sh =
    0 ∷ 0 ∷ 33 ∷ 64 ∷ 35 ∷ 36 ∷ 37 ∷ 94 ∷ 38 ∷ 42 ∷ 40 ∷ 41 ∷ 95 ∷ 43 ∷ 0 ∷ 0 ∷ 81 ∷ 87 ∷ 69 ∷ 82
    ∷ 84 ∷ 89 ∷ 85 ∷ 73 ∷ 79 ∷ 80 ∷ 123 ∷ 125 ∷ 0 ∷ 0 ∷ 65 ∷ 83 ∷ 68 ∷ 70 ∷ 71 ∷ 72 ∷ 74 ∷ 75 ∷ 76
    ∷ 58 ∷ 34 ∷ 126 ∷ 0 ∷ 124 ∷ 90 ∷ 88 ∷ 67 ∷ 86 ∷ 66 ∷ 78 ∷ 77 ∷ 60 ∷ 62 ∷ 63 ∷ 0 ∷ 42 ∷ 0 ∷ 32
    ∷ []

-- WZ_HOSTNAME_MAX, which is WZ_SSID_MAX too
abbrev pub wz_field_max : ℕ
wz_field_max = 32

-- `wz_state_t`
pub record WzState : Type 0 where
  pub hostname : List ℕ
  pub wifi_present : Bool
  pub ssid : List ℕ
  pub wifi_skip : Bool

-- for (;;) { if (wz_wait_key() == SC_ENTER) break; }  `wz_wait_key` passes over the codes from 0x80
-- on, and the loop over the others.
pub wait_enter : List ℕ → Option (List ℕ)
wait_enter [] = none
wait_enter (sc ∷ scs) = let rest = wait_enter scs in if sc == 0x1C then some scs else rest

-- What a key does to a field.
pub data FieldStep : Type 0 where
  entered skipped : FieldStep
  typed : (shift : Bool) (text : List ℕ) (redraw : Bool) → FieldStep

-- The key with a character.
pub type_char : Bool → List ℕ → ℕ → FieldStep
type_char shift text sc =
    let c = get_or (if shift then wz_sc_alpha_sh else wz_sc_alpha) sc 0 in
    if not (c == 0) && ltb (length text) wz_field_max
    then typed false (text ++ c ∷ []) true
    else typed false text false

-- The body of the loops of `wz_screen_hostname` and `wz_screen_wifi`, which alone knows `tab`. A
-- key of `wz_wait_key` is never 0xE0.
pub field_key : Bool → Bool → List ℕ → ℕ → FieldStep
field_key tab shift text sc =
    if sc == 0x2A || sc == 0x36
    then typed true text false
    else if sc == 0x0E
    then (if length text == 0 then typed shift text false else typed shift (drop_last text) true)
    else if sc == 0x1C
    then entered
    else if tab && sc == 0x0F
    then skipped
    else if ltb sc 58
    then type_char shift text sc
    else typed shift text false

-- How a field is left: with Enter or (`skip`) with Tab.
pub record FieldEnd : Type 0 where
  pub text : List ℕ
  pub skip : Bool
  pub vram : Vram
  pub codes_left : List ℕ

-- What follows a key: the field is left, or the loop goes on with `rest`.
pub after_step :
    (Bool → List ℕ → Vram → Option FieldEnd)
    → (List ℕ → Vram → Vram)
    → List ℕ
    → List ℕ
    → Vram
    → FieldStep
    → Option FieldEnd
after_step rest show scs text v entered =
    some (record { text = text; skip = false; vram = v; codes_left = scs })
after_step rest show scs text v skipped =
    some (record { text = []; skip = true; vram = v; codes_left = scs })
after_step rest show scs text v (typed shift' text' redraw) =
    rest shift' text' (if redraw then show text' v else v)

-- The loop; `show` draws the screen for a text. `wz_wait_key` passes over the codes from 0x80 on.
pub field_loop : (List ℕ → Vram → Vram) → Bool → List ℕ → Bool → List ℕ → Vram → Option FieldEnd
field_loop show tab [] shift text v = none
field_loop show tab (sc ∷ scs) shift text v =
    let rest = field_loop show tab scs in
    if ltb sc 0x80
    then after_step rest show scs text v (field_key tab shift text sc)
    else rest shift text v

-- `samOS-1`
abbrev pub default_hostname : List ℕ
default_hostname = codes "samOS-1"

-- `wz_write_config`: the fields that are written to the structure at 0x7000, all of it but the
-- padding.
pub wz_write_config : WzState → SamMcp → SamBootConfig
wz_write_config wz mcp =
    let sz = compute_domain_sizes mcp.ram_mb boot_mode_general in
    record {
      magic = sam_boot_cfg_magic;
      mode = boot_mode_general;
      ai_base = sz.ai_base;
      game_base = sz.game_base;
      general_base = sz.general_base;
      ai_size = sz.ai_size;
      game_size = sz.game_size;
      general_size = sz.general_size;
      mode_name = take 15 (codes "GENERAL");
      ram_mb = mcp.ram_mb;
      simd_level = mcp.simd_level;
      gpu_class = mcp.gpu_class;
      has_nvme = mcp.has_nvme;
      has_wireless = mcp.has_wireless;
      hostname = take 31 wz.hostname;
      ssid = take 31 wz.ssid;
    }

infixl 5 ◌>>=◌
abbrev ◌>>=◌ : {A B : Type 0} → Option A → (A → Option B) → Option B
none >>= f = none
some a >>= f = f a

-- VGA_CELL
abbrev vga_cell : ℕ → ℕ → ℕ → ℕ
vga_cell ch fg bg = u16 (bit_or (bit_or (bg * 2 ^ 12) (fg * 2 ^ 8)) ch)

pub wz_vga_puts : Memory → ℕ → ℕ → List ℕ → ℕ → ℕ → Memory
wz_vga_puts v row col [] fg bg = v
wz_vga_puts v row col (c ∷ s) fg bg =
    let rest = wz_vga_puts (store8 v (row * 80 + col) (vga_cell c fg bg)) row (col + 1) s fg bg in
    if ltb col 80 then rest else v

pub wz_vga_cls : Memory → ℕ → Memory
wz_vga_cls v bg = fill_line v 0 (vga_cell b' ' 0xF bg) 0 (80 * 25)

-- `wz_vga_puts` for each row, column, text and pair of colours.
pub vga_texts : Memory → List (ℕ × ℕ × List ℕ × ℕ × ℕ) → Memory
vga_texts v [] = v
vga_texts v ((row, col, s, fg, bg) ∷ more) = vga_texts (wz_vga_puts v row col s fg bg) more

abbrev fallback_first : List (ℕ × ℕ × List ℕ × ℕ × ℕ)
fallback_first =
    (0, 0, codes " SAM OS Setup (text mode)          Press Enter to begin ", 0xF, 0x9)
    ∷ (4, 4, codes "Welcome to SAM OS Setup Wizard", 0xF, 0x1)
    ∷ (6, 4, codes "Hostname:", 0x7, 0x1)
    ∷ (7, 4, codes "> samOS-1", 0xF, 0x1)
    ∷ (9, 4, codes "Press Enter to use default hostname 'samOS-1'", 0x7, 0x1)
    ∷ []

abbrev fallback_second : Bool → List (ℕ × ℕ × List ℕ × ℕ × ℕ)
fallback_second present =
    (0, 0, codes " SAM OS Setup - WiFi                                     ", 0xF, 0x9)
    ∷ (if present
        then (4, 4, codes "Wireless adapter detected.", 0xA, 0x1)
          ∷ (6, 4, codes "Full 802.11 support coming in Sprint 17.", 0x7, 0x1)
          ∷ (8, 4, codes "Press Enter to continue.", 0x7, 0x1)
          ∷ []
        else (4, 4, codes "No wireless adapter detected.", 0xE, 0x1)
          ∷ (6, 4, codes "Press Enter to skip.", 0x7, 0x1)
          ∷ [])

-- What `sam_wizard_run` leaves: both screens, and the structure at 0x7000.
pub record WizardRun : Type 0 where
  pub vga : Memory
  pub vram : Vram
  pub config : SamBootConfig

-- `wz_fallback_run` and the writing of what it leaves.
pub wz_fallback_run : SamMcp → List ℕ → Memory → Vram → Option WizardRun
wz_fallback_run mcp scs vga vram = do
  scs1 ← wait_enter scs
  scs2 ← wait_enter scs1
  some (record {
    vga =
        vga_texts (wz_vga_cls (vga_texts (wz_vga_cls vga 0x1) fallback_first) 0x1)
          (fallback_second (not (mcp.has_wireless == 0)));
    vram = vram;
    config =
        wz_write_config
          (record {
            hostname = default_hostname;
            wifi_present = false;
            ssid = [];
            wifi_skip = mcp.has_wireless == 0;
          })
          mcp;
  })

-- An empty name is replaced by the default.
pub named_host : FieldEnd → FieldEnd
named_host e = if length e.text == 0 then record e { text = default_hostname } else e

module _ (fb : SamFb) (mcp : SamMcp) where
  abbrev show_hostname : List ℕ → Vram → Vram
  show_hostname text v = draws fb v (wz_draw_hostname_screen text)

  abbrev show_wifi : ℕ → List ℕ → Vram → Vram
  show_wifi phase text v = draws fb v (wz_draw_wifi_screen (not (mcp.has_wireless == 0)) phase text)

  pub wz_screen_hostname : List ℕ → Vram → Option FieldEnd
  wz_screen_hostname scs v = do
    e ← field_loop show_hostname false scs false default_hostname (show_hostname default_hostname v)
    some (named_host e)

  pub wz_screen_wifi : List ℕ → Vram → Option FieldEnd
  wz_screen_wifi scs v =
      if mcp.has_wireless == 0
      then (do
        left ← wait_enter scs
        some (record { text = []; skip = true; vram = show_wifi 0 [] v; codes_left = left }))
      else field_loop (show_wifi 1) true scs false [] (show_wifi 1 [] (show_wifi 0 [] v))

  -- What the two fields have left in `wz_state_t`.
  abbrev state_of : FieldEnd → FieldEnd → WzState
  state_of host wifi = record {
    hostname = host.text;
    wifi_present = not (mcp.has_wireless == 0);
    ssid = wifi.text;
    wifi_skip = wifi.skip;
  }

  -- The pixels after the summary, and after the last screen.
  abbrev summary_shown : WzState → Vram → Vram
  summary_shown wz v = draws fb v (
      summary_draws wz.hostname wz.wifi_present wz.wifi_skip wz.ssid mcp (before_nul mcp.cpu_brand))

  pub wizard_screens : List ℕ → Memory → Vram → Option WizardRun
  wizard_screens scs vga vram = do
    scs1 ← wait_enter scs
    host ← wz_screen_hostname scs1 (draws fb vram welcome_draws)
    wifi ← wz_screen_wifi host.codes_left host.vram
    let wz = state_of host wifi
    scs2 ← wait_enter wifi.codes_left
    scs3 ← wait_enter scs2
    some (record {
      vga = vga;
      vram = draws fb (summary_shown wz wifi.vram) (done_draws wz.hostname);
      config = wz_write_config wz mcp;
    })

  pub sam_wizard_run : List ℕ → Memory → Vram → Option WizardRun
  sam_wizard_run scs vga vram =
      if fb.ready then wizard_screens scs vga vram else wz_fallback_run mcp scs vga vram
