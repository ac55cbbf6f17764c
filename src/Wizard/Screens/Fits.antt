-- ===== src/Wizard/Screens/Fits.antt =====
-- kernel/wizard.h: every screen keeps inside the 1024 by 768 pixels of its layout.
use samos.Base.{
  ℕ, ◌+◌, ◌≤◌, ◌≡◌, refl, ap, ◌-◌, ◌*◌, arith, Bool, true, ◌&&◌, ◌||◌, not, ltb, ◌==◌, if-cases,
  List, [], ◌∷◌, ◌++◌, length,
}
use samos.Mcp.Profile.{SamMcp}
use samos.Wizard.Draw.{Draw}
use samos.Wizard.Draw.Below.{in_page, fits, all_fit}
use samos.Wizard.Screens.{
  wz_draw_chrome, wz_content_clear, wz_draw_button, wz_draw_input, welcome_draws,
  wz_draw_hostname_screen, no_adapter_draws, scanning_draws, ssid_draws, wz_draw_wifi_screen,
  ssid_value, summary_draws, done_draws, lx, wz_cp_w, wz_cp_pad,
}

all_fit-append :
    (ds es : List Draw) → all_fit ds ≡ true → all_fit es ≡ true → all_fit (ds ++ es) ≡ true
all_fit-append [] es h k = k
all_fit-append (d ∷ ds) es h k = let r = all_fit-append ds es (ground arith) k in ground arith

chrome_fits : (current : ℕ) → all_fit (wz_draw_chrome current) ≡ true
unfolding wz_draw_chrome
chrome_fits current = refl

input_fits :
    (y : ℕ) (text : List ℕ)
    → y + 42 ≤ 768
    → all_fit (wz_draw_input lx y (wz_cp_w - 2 * wz_cp_pad) text) ≡ true
unfolding wz_draw_input
input_fits y text h =
    if-cases (λ ds. (in_page lx y 624 42 0 && (in_page lx y 624 42 2 && all_fit ds)) ≡ true)
      (ltb (length text) 32) (λ e. ground arith) (λ e. ground arith)

abbrev input : ℕ → List ℕ → List Draw
input y text = wz_draw_input lx y (wz_cp_w - 2 * wz_cp_pad) text

pub welcome_draws-fit : all_fit welcome_draws ≡ true
unfolding welcome_draws wz_content_clear wz_draw_chrome
welcome_draws-fit = refl

pub hostname_screen-fits : (text : List ℕ) → all_fit (wz_draw_hostname_screen text) ≡ true
unfolding wz_draw_hostname_screen wz_content_clear wz_draw_button
hostname_screen-fits text =
    all_fit-append (wz_draw_chrome 0) _ (chrome_fits 0)
      (all_fit-append (input 190 text) _ (input_fits 190 text (omega arith)) refl)

ssid_draws-fit : (text : List ℕ) → all_fit (ssid_draws text) ≡ true
unfolding ssid_draws wz_content_clear wz_draw_button
ssid_draws-fit text =
    all_fit-append (wz_draw_chrome 1) _ (chrome_fits 1)
      (all_fit-append (input 220 text) _ (input_fits 220 text (omega arith)) refl)

scanning_draws-fit : all_fit scanning_draws ≡ true
unfolding scanning_draws wz_content_clear wz_draw_chrome
scanning_draws-fit = refl

no_adapter_draws-fit : all_fit no_adapter_draws ≡ true
unfolding no_adapter_draws wz_content_clear wz_draw_chrome
no_adapter_draws-fit = refl

pub wifi_screen-fits :
    (present : Bool) (phase : ℕ) (text : List ℕ)
    → all_fit (wz_draw_wifi_screen present phase text) ≡ true
unfolding wz_draw_wifi_screen
wifi_screen-fits present phase text =
    let P = λ (ds : List Draw). all_fit ds ≡ true in
    if-cases P present
      (λ e. if-cases P (phase == 0) (λ e1. scanning_draws-fit) (λ e1. ssid_draws-fit text))
      (λ e. no_adapter_draws-fit)

ssid_value-fits : (present skip : Bool) (ssid : List ℕ) → fits (ssid_value present skip ssid) ≡ true
ssid_value-fits present skip ssid =
    let P = λ (d : Draw). fits d ≡ true in
    if-cases P (not present) (λ e. refl)
      (λ e. if-cases P (skip || length ssid == 0) (λ e1. refl) (λ e1. refl))

pub summary_draws-fit :
    (hostname : List ℕ) (present skip : Bool) (ssid : List ℕ) (mcp : SamMcp) (brand : List ℕ)
    → all_fit (summary_draws hostname present skip ssid mcp brand) ≡ true
unfolding summary_draws wz_content_clear wz_draw_button wz_draw_chrome
summary_draws-fit hostname present skip ssid mcp brand =
    ap (λ b. b && true) (ssid_value-fits present skip ssid)

pub done_draws-fit : (hostname : List ℕ) → all_fit (done_draws hostname) ≡ true
unfolding done_draws wz_content_clear wz_draw_chrome
done_draws-fit hostname = refl
