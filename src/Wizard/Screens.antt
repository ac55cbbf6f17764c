-- ===== src/Wizard/Screens.antt =====
-- kernel/wizard.h: what each screen draws, as the list of its drawing calls.
pub mod Fits
use samos.Base.{
  ℕ, zero, suc, ◌+◌, ◌-◌, ◌*◌, ◌/◌, Bool, not, ◌||◌, ltb, ◌==◌, if◌then◌else◌, List, [], ◌∷◌, ◌++◌,
  length,
}
use samos.Serial.{codes}
use samos.Fb.{dec_text}
use samos.Mcp.Profile.{SamMcp, mcp_gpu_integrated, mcp_gpu_discrete, mcp_gpu_multi}
use samos.Wizard.Draw.{Draw, clear, fill, frame, rounded, step_dot, puts, puts_centre}

-- The colours.
abbrev wz_bg : ℕ
wz_bg = 0x00121A2B

abbrev wz_sidebar_bg : ℕ
wz_sidebar_bg = 0x000D1117

abbrev wz_panel_bg : ℕ
wz_panel_bg = 0x001A2340

abbrev wz_panel_border : ℕ
wz_panel_border = 0x00253758

abbrev wz_input_active : ℕ
wz_input_active = 0x00162030

abbrev wz_input_cursor : ℕ
wz_input_cursor = 0x0044AAFF

abbrev wz_text_h1 : ℕ
wz_text_h1 = 0x00FFFFFF

abbrev wz_text_h2 : ℕ
wz_text_h2 = 0x00C8E0FF

abbrev wz_text_body : ℕ
wz_text_body = 0x0089A8C8

abbrev wz_text_dim : ℕ
wz_text_dim = 0x00445566

abbrev wz_text_input : ℕ
wz_text_input = 0x00E0F0FF

abbrev wz_text_good : ℕ
wz_text_good = 0x0044CC88

abbrev wz_text_warn : ℕ
wz_text_warn = 0x00FFAA33

abbrev wz_text_key : ℕ
wz_text_key = 0x0088CCFF

abbrev wz_accent : ℕ
wz_accent = 0x000088FF

abbrev wz_accent_lit : ℕ
wz_accent_lit = 0x0044AAFF

abbrev wz_step_done : ℕ
wz_step_done = 0x0022AA66

abbrev wz_step_active : ℕ
wz_step_active = 0x000088FF

abbrev wz_step_todo : ℕ
wz_step_todo = 0x00334455

abbrev wz_btn_text : ℕ
wz_btn_text = 0x00FFFFFF

-- The layout.
abbrev wz_w : ℕ
wz_w = 1024

abbrev wz_h : ℕ
wz_h = 768

abbrev wz_sb_w : ℕ
wz_sb_w = 260

abbrev wz_sb_pad : ℕ
wz_sb_pad = 28

abbrev wz_cp_x : ℕ
wz_cp_x = wz_sb_w + 1

abbrev wz_cp_w : ℕ
wz_cp_w = wz_w - wz_sb_w - 1

abbrev wz_cp_pad : ℕ
wz_cp_pad = 50

-- One round of the loop over the steps.
abbrev chrome_step : ℕ → ℕ → List ℕ → List Draw → List Draw
chrome_step current i name line =
    let step_y = 200 + 48 * i in
    let dot_col =
      if ltb i current
      then wz_step_done
      else (if i == current then wz_step_active else wz_step_todo) in
    let text_col =
      if ltb i current then wz_text_body else (if i == current then wz_text_h2 else wz_text_dim) in
    step_dot (wz_sb_pad + 10) (step_y + 8) 5 dot_col
    ∷ (line ++ puts (wz_sb_pad + 10 + 18) step_y name text_col wz_sidebar_bg 1 ∷ [])

-- The line to the next step.
abbrev connector : ℕ → List Draw
connector i =
    let step_y = 200 + 48 * i in
    fill (wz_sb_pad + 10) (step_y + 8 + 6) 1 (step_y + 48 - (step_y + 8 + 6)) wz_step_todo ∷ []

pub wz_draw_chrome : ℕ → List Draw
wz_draw_chrome current =
    clear wz_bg
    ∷ fill 0 0 wz_sb_w wz_h wz_sidebar_bg
    ∷ puts_centre (wz_sb_w / 2) 40 (codes "SAM") wz_accent_lit wz_sidebar_bg 3
    ∷ puts_centre (wz_sb_w / 2) (40 + 3 * 16 + 6) (codes "OS") wz_accent wz_sidebar_bg 3
    ∷ puts_centre (wz_sb_w / 2) (40 + 3 * 16 * 2 + 18) (codes "Setup") wz_text_body wz_sidebar_bg 1
    ∷ fill wz_sb_pad 160 (wz_sb_w - 2 * wz_sb_pad) 1 wz_panel_border
    ∷ (chrome_step current 0 (codes "Hostname") (connector 0)
        ++ (chrome_step current 1 (codes "Network") (connector 1)
            ++ (chrome_step current 2 (codes "Confirm") []
                ++ (puts wz_sb_pad (wz_h - 32) (codes "SAM OS v0.1.0") wz_text_dim wz_sidebar_bg 1
                    ∷ puts wz_sb_pad (wz_h - 16) (codes "Sprint 13") wz_text_dim wz_sidebar_bg 1
                    ∷ fill wz_sb_w 0 1 wz_h wz_panel_border
                    ∷ fill wz_cp_x 0 wz_cp_w 52 wz_panel_bg
                    ∷ fill wz_cp_x 52 wz_cp_w 1 wz_accent
                    ∷ puts (wz_w - wz_cp_pad - 88) 18
                        (codes "Step " ++ ((b'1' + current) ∷ codes " of 3")) wz_text_body
                        wz_panel_bg 1
                    ∷ []))))

pub wz_content_clear : Draw
wz_content_clear = fill wz_cp_x 53 wz_cp_w (wz_h - 53) wz_bg

-- An active button.
pub wz_draw_button : ℕ → ℕ → List ℕ → List Draw
wz_draw_button x y label =
    rounded x y (length label * 8 * 2 + 40) 36 wz_accent_lit wz_accent 6
    ∷ puts (x + 20) (y + (36 - 16) / 2) label wz_btn_text wz_accent_lit 2
    ∷ []

-- An active input field; each character of the text is a `wz_putchar`.
pub wz_draw_input : ℕ → ℕ → ℕ → List ℕ → List Draw
wz_draw_input x y w text =
    let tx = x + 14 in
    let ty = y + (42 - 16) / 2 in
    fill x y w 42 wz_input_active
    ∷ frame x y w 42 wz_accent 2
    ∷ puts tx ty text wz_text_input wz_input_active 1
    ∷ (if ltb (length text) 32
        then fill (tx + length text * 8 + 2) (ty + 2) 2 (16 - 4) wz_input_cursor ∷ []
        else [])

-- The x of the left edge of the contents, and the line above the footer.
abbrev lx : ℕ
lx = wz_cp_x + wz_cp_pad

abbrev footer_line : ℕ → Draw
footer_line y = fill (wz_cp_x + wz_cp_pad) y (wz_cp_w - 2 * wz_cp_pad) 1 wz_panel_border

pub welcome_draws : List Draw
welcome_draws =
    let cx = wz_cp_x + wz_cp_w / 2 in
    wz_draw_chrome 0
    ++ (wz_content_clear
        ∷ puts_centre cx 120 (codes "Welcome to") wz_text_body wz_bg 2
        ∷ puts_centre cx (120 + 40) (codes "SAM OS") wz_text_h1 wz_bg 3
        ∷ puts_centre cx (120 + 110) (codes "Let's set up your system in just a few steps.")
            wz_text_body wz_bg 1
        ∷ puts lx (120 + 160) (codes "1.  Choose a hostname for this machine") wz_text_h2 wz_bg 1
        ∷ puts lx (120 + 160 + 28) (codes "2.  Connect to a WiFi network (if available)") wz_text_h2
            wz_bg 1
        ∷ puts lx (120 + 160 + 56) (codes "3.  Confirm and apply your settings") wz_text_h2 wz_bg 1
        ∷ puts_centre cx (wz_h - 80) (codes "Press  Enter  to begin") wz_text_key wz_bg 1
        ∷ footer_line (wz_h - 95)
        ∷ [])

pub wz_draw_hostname_screen : List ℕ → List Draw
wz_draw_hostname_screen hostname =
    wz_draw_chrome 0
    ++ (wz_content_clear
        ∷ puts lx 90 (codes "Choose a hostname") wz_text_h1 wz_bg 2
        ∷ puts lx (90 + 42) (codes "This name identifies your machine on the network.") wz_text_body
            wz_bg 1
        ∷ puts lx (90 + 60) (codes "Use letters, digits and hyphens only (max 32 chars).")
            wz_text_dim wz_bg 1
        ∷ (wz_draw_input lx (90 + 100) (wz_cp_w - 2 * wz_cp_pad) hostname
            ++ (puts lx (90 + 160) (codes "Default:  samOS-1   |   Backspace to delete") wz_text_dim
                  wz_bg 1
                ∷ (wz_draw_button (wz_w - wz_cp_pad - (10 * 8 * 2 + 40)) (wz_h - 80)
                      (codes "Continue")
                    ++ (puts lx (wz_h - 72) (codes "Press  Enter  to continue") wz_text_key wz_bg 1
                        ∷ footer_line (wz_h - 90)
                        ∷ [])))))

-- The screen without an adapter.
pub no_adapter_draws : List Draw
no_adapter_draws =
    wz_draw_chrome 1
    ++ (wz_content_clear
        ∷ puts lx 90 (codes "WiFi Network") wz_text_h1 wz_bg 2
        ∷ puts lx (90 + 50) (codes "No wireless adapter detected on this system.") wz_text_warn
            wz_bg 1
        ∷ puts lx (90 + 70) (codes "PCI wireless classes 0x0280-0x0282 not found.") wz_text_dim
            wz_bg 1
        ∷ rounded lx (90 + 110) (wz_cp_w - 2 * wz_cp_pad) 140 wz_panel_bg wz_panel_border 8
        ∷ puts (lx + 20) (90 + 130) (codes "What you can do:") wz_text_h2 wz_panel_bg 1
        ∷ puts (lx + 20) (90 + 155) (codes "- Connect via Ethernet cable (works immediately)")
            wz_text_body wz_panel_bg 1
        ∷ puts (lx + 20) (90 + 175) (codes "- Plug in a USB WiFi adapter, then run: setup")
            wz_text_body wz_panel_bg 1
        ∷ puts (lx + 20) (90 + 195) (codes "- VirtualBox: enable USB WiFi passthrough in settings")
            wz_text_body wz_panel_bg 1
        ∷ puts lx (wz_h - 72) (codes "Press  Enter  to skip") wz_text_key wz_bg 1
        ∷ footer_line (wz_h - 90)
        ∷ [])

-- The part that both phases share.
abbrev adapter_head : List Draw
adapter_head =
    wz_content_clear
    ∷ puts lx 90 (codes "WiFi Network") wz_text_h1 wz_bg 2
    ∷ puts lx (90 + 50) (codes "Wireless adapter detected  (PCI class 0x0280).") wz_text_good wz_bg
        1
    ∷ []

pub scanning_draws : List Draw
scanning_draws =
    wz_draw_chrome 1
    ++ (adapter_head
        ++ (puts lx (90 + 90) (codes "Scanning for networks...") wz_text_body wz_bg 1
            ∷ fill lx (90 + 120) 8 8 wz_accent_lit
            ∷ fill (lx + 16) (90 + 120) 8 8 wz_panel_border
            ∷ fill (lx + 32) (90 + 120) 8 8 wz_panel_border
            ∷ []))

pub ssid_draws : List ℕ → List Draw
ssid_draws ssid =
    wz_draw_chrome 1
    ++ (adapter_head
        ++ (puts lx (90 + 80) (codes "Enter your WiFi network name (SSID):") wz_text_body wz_bg 1
            ∷ puts lx (90 + 100)
                (codes "Full 802.11 association will complete after boot (Sprint 17).") wz_text_dim
                wz_bg 1
            ∷ (wz_draw_input lx (90 + 130) (wz_cp_w - 2 * wz_cp_pad) ssid
                ++ (puts lx (90 + 190) (codes "Backspace to delete  |  Tab to skip WiFi")
                      wz_text_dim wz_bg 1
                    ∷ (wz_draw_button (wz_w - wz_cp_pad - (10 * 8 * 2 + 40)) (wz_h - 80)
                          (codes "Continue")
                        ++ (puts lx (wz_h - 72) (codes "Enter = save  |  Tab = skip WiFi")
                              wz_text_key wz_bg 1
                            ∷ footer_line (wz_h - 90)
                            ∷ []))))))

-- `wz_draw_wifi_screen`
pub wz_draw_wifi_screen : Bool → ℕ → List ℕ → List Draw
wz_draw_wifi_screen present phase ssid =
    if present then (if phase == 0 then scanning_draws else ssid_draws ssid) else no_adapter_draws

-- The last two screens.
abbrev gpu_text : ℕ → List ℕ
gpu_text g =
    if g == mcp_gpu_integrated
    then codes "Integrated"
    else if g == mcp_gpu_discrete
    then codes "Discrete"
    else if g == mcp_gpu_multi
    then codes "Multi-GPU"
    else codes "None"

-- The value beside "WiFi SSID".
abbrev ssid_value : Bool → Bool → List ℕ → Draw
ssid_value present skip ssid =
    let y = 90 + 80 + 20 + 30 in
    if not present
    then puts (lx + 160) y (codes "No adapter") wz_text_warn wz_panel_bg 1
    else if skip || length ssid == 0
    then puts (lx + 160) y (codes "Skipped") wz_text_warn wz_panel_bg 1
    else puts (lx + 160) y ssid wz_text_h2 wz_panel_bg 1

-- `brand` is the text in `mcp->cpu_brand`.
pub summary_draws : List ℕ → Bool → Bool → List ℕ → SamMcp → List ℕ → List Draw
summary_draws hostname present skip ssid mcp brand =
    let card_w = wz_cp_w - 2 * wz_cp_pad in
    let card_y = 90 + 80 in
    let hw_y = card_y + 110 + 20 in
    let ky = card_y + 20 in
    let kx = lx + 20 in
    let vx = lx + 160 in
    let hy = hw_y + 44 in
    wz_draw_chrome 2
    ++ (wz_content_clear
        ∷ puts lx 90 (codes "Confirm your settings") wz_text_h1 wz_bg 2
        ∷ puts lx (90 + 42) (codes "Review the configuration below, then press Enter to apply.")
            wz_text_body wz_bg 1
        ∷ rounded lx card_y card_w 110 wz_panel_bg wz_panel_border 8
        ∷ puts kx ky (codes "Hostname") wz_text_dim wz_panel_bg 1
        ∷ puts vx ky hostname wz_text_h2 wz_panel_bg 1
        ∷ puts kx (ky + 30) (codes "WiFi SSID") wz_text_dim wz_panel_bg 1
        ∷ ssid_value present skip ssid
        ∷ puts kx (ky + 60) (codes "Config at") wz_text_dim wz_panel_bg 1
        ∷ puts vx (ky + 60) (codes "0x7000 (physical)") wz_text_body wz_panel_bg 1
        ∷ rounded lx hw_y card_w 130 wz_panel_bg wz_panel_border 8
        ∷ puts kx (hw_y + 12) (codes "Detected Hardware") wz_text_h2 wz_panel_bg 1
        ∷ fill (lx + 20) (hw_y + 32) (card_w - 40) 1 wz_panel_border
        ∷ puts kx hy (codes "CPU") wz_text_dim wz_panel_bg 1
        ∷ puts vx hy brand wz_text_body wz_panel_bg 1
        ∷ puts kx (hy + 22) (codes "RAM") wz_text_dim wz_panel_bg 1
        ∷ puts vx (hy + 22) (dec_text mcp.ram_mb) wz_text_body wz_panel_bg 1
        ∷ puts (vx + 48) (hy + 22) (codes " MiB") wz_text_dim wz_panel_bg 1
        ∷ puts kx (hy + 44) (codes "WiFi") wz_text_dim wz_panel_bg 1
        ∷ puts vx (hy + 44)
            (if mcp.has_wireless == 0 then codes "Not detected" else codes "Adapter present")
            (if mcp.has_wireless == 0 then wz_text_warn else wz_text_good) wz_panel_bg 1
        ∷ puts kx (hy + 66) (codes "GPU") wz_text_dim wz_panel_bg 1
        ∷ puts vx (hy + 66) (gpu_text mcp.gpu_class) wz_text_body wz_panel_bg 1
        ∷ (wz_draw_button (wz_w - wz_cp_pad - (16 * 8 * 2 + 40)) (wz_h - 80)
              (codes "Apply & Continue")
            ++ (puts lx (wz_h - 72) (codes "Press  Enter  to apply and start kernel shell")
                  wz_text_key wz_bg 1
                ∷ footer_line (wz_h - 90)
                ∷ [])))

pub done_draws : List ℕ → List Draw
done_draws hostname =
    let cx = wz_cp_x + wz_cp_w / 2 in
    wz_draw_chrome 2
    ++ (wz_content_clear
        ∷ rounded (cx - 40) 80 80 80 wz_step_done wz_step_done 12
        ∷ puts_centre cx (80 + 28) (codes "OK") wz_text_h1 wz_step_done 3
        ∷ puts_centre cx (80 + 110) (codes "Configuration saved!") wz_text_good wz_bg 2
        ∷ puts lx (80 + 150) (codes "Hostname : ") wz_text_dim wz_bg 1
        ∷ puts (lx + 96) (80 + 150) hostname wz_text_h2 wz_bg 1
        ∷ puts_centre cx (80 + 210) (codes "Press Enter to continue") wz_text_key wz_bg 1
        ∷ [])
