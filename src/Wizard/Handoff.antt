-- ===== src/Wizard/Handoff.antt =====
-- kernel/wizard.h: the wizard returns, and what it hands over to the boot at 0x7000.
use samos.Base.{
  ℕ, suc, ◌≤◌, ◌≡◌, ◌≢◌, refl, ap, inl, inr, arith, true, false, ◌==◌, Bool-cases, if-cases, Option,
  some, List, [], ◌∷◌, length, take, IsText, take-IsText, Memory,
}
use samos.Fb.{SamFb, Vram}
use samos.Domains.{DomainSizes, allocated, boot_mode_general}
use samos.Domains.Sizes.{register, entry, compute_domain_sizes-registers}
use samos.Config.{SamBootConfig, sam_boot_config_read}
use samos.Mcp.Profile.{SamMcp}
use samos.Wizard.{
  WzState, WizardRun, FieldEnd, default_hostname, wz_write_config, wz_fallback_run, named_host,
  wz_screen_hostname, wz_screen_wifi, wizard_screens, sam_wizard_run, state_of, ◌>>=◌,
}
use samos.Wizard.Draw.{draws}
use samos.Wizard.Screens.{welcome_draws}
use samos.Wizard.Field.{enters, IsField, wait_enter-returns, Left, field_loop-Left, no_text}

-- The layout that the structure at 0x7000 records.
abbrev pub layout_of : SamBootConfig → DomainSizes
layout_of c = record {
  ai_size = c.ai_size;
  game_size = c.game_size;
  general_size = c.general_size;
  ai_base = c.ai_base;
  game_base = c.game_base;
  general_base = c.general_base;
}

-- The reader accepts the structure, its texts end with a NUL inside their fields of 32 bytes, the
-- name is not empty, and the domains it records can be registered.
pub record IsHandedOver (c : SamBootConfig) : Type 0 where
  pub accepted : sam_boot_config_read c ≡ some c
  pub in_mode : c.mode ≡ boot_mode_general
  pub host_fits : IsText 31 c.hostname
  pub host_named : c.hostname ≢ []
  pub ssid_fits : IsText 31 c.ssid
  pub registers :
      (ai game general : List ℕ)
      → register (layout_of c) ai game general ≡ (
        entry 0x10 c.ai_base c.ai_size ai
            ∷ entry 0x20 c.game_base c.game_size game
            ∷ entry 0x30 c.general_base c.general_size general
            ∷ [],
        (allocated, (allocated, allocated)),
      )

-- A text of a field that is not empty.
record IsName (text : List ℕ) : Type 0 where
  fits : IsField text
  named : text ≢ []

take-named : (s : List ℕ) → s ≢ [] → take 31 s ≢ []
take-named [] h = h
take-named (c ∷ s) h =
    λ e. let n : suc (length (take 30 s)) ≡ 0 = ap length e in absurd (omega arith)

default_hostname-IsName : IsName default_hostname
default_hostname-IsName = record {
  fits = record {
    text_fits = omega arith;
    no_nul = (
      λ e. omega arith,
      (
        λ e. omega arith,
        (
          λ e. omega arith,
          (λ e. omega arith, (λ e. omega arith, (λ e. omega arith, (λ e. omega arith, tt)))),
        ),
      ),
    );
  };
  named = λ e. let n : 7 ≡ 0 = ap length e in absurd (omega arith);
}

wz_write_config-IsHandedOver :
    (wz : WzState) (mcp : SamMcp)
    → IsName wz.hostname
    → IsField wz.ssid
    → IsHandedOver (wz_write_config wz mcp)
unfolding wz_write_config sam_boot_config_read
wz_write_config-IsHandedOver wz mcp h s = record {
  accepted = refl;
  in_mode = refl;
  host_fits = take-IsText _ 31 wz.hostname h.fits;
  host_named = take-named wz.hostname h.named;
  ssid_fits = take-IsText _ 31 wz.ssid s;
  registers = compute_domain_sizes-registers mcp.ram_mb boot_mode_general;
}

bind-some :
    {A B : Type 0} {o : Option A} {a : A} (f : A → Option B) {r : Option B}
    → o ≡ some a
    → f a ≡ r
    → (o >>= f) ≡ r
bind-some f h k = rw h k

named_host-IsName : (e : FieldEnd) → IsField e.text → IsName (named_host e).text
unfolding named_host
named_host-IsName e f = elim (Bool-cases (length e.text == 0)) [
  | inl q ↦ rw q default_hostname-IsName
  | inr q ↦
      rw q
        (record { fits = f; named = λ z. let n : length e.text ≡ 0 = ap length z in ground arith })
]

-- `o` is what the wizard returns: it returns, and leaves a structure as above.
pub record Returned (o : Option WizardRun) : Type 0 where
  pub run : WizardRun
  pub returns : o ≡ some run
  pub handed_over : IsHandedOver run.config

wz_fallback_run-Returned :
    (mcp : SamMcp) (scs : List ℕ) (vga : Memory) (vram : Vram)
    → 2 ≤ enters scs
    → Returned (wz_fallback_run mcp scs vga vram)
unfolding wz_fallback_run
wz_fallback_run-Returned mcp scs vga vram h =
    let w1 = wait_enter-returns 1 scs h in
    let w2 = wait_enter-returns 0 w1.left w1.enough in
    record {
      run = _;
      returns = bind-some _ w1.ends (bind-some _ w2.ends refl);
      handed_over = wz_write_config-IsHandedOver _ mcp default_hostname-IsName no_text;
    }

-- The screen of the host name is left, with a name.
record Named (k : ℕ) (o : Option FieldEnd) : Type 0 where
  end : FieldEnd
  ends : o ≡ some end
  enough : k ≤ enters end.codes_left
  is_name : IsName end.text

module _ (fb : SamFb) (mcp : SamMcp) where
  wz_screen_hostname-Named :
      (k : ℕ) (scs : List ℕ) (v : Vram)
      → suc k ≤ enters scs
      → Named k (wz_screen_hostname fb mcp scs v)
  unfolding wz_screen_hostname named_host
  wz_screen_hostname-Named k scs v h =
      let l =
        field_loop-Left _ false k scs false default_hostname _ default_hostname-IsName.fits h in
      record {
        end = _;
        ends = bind-some _ l.ends refl;
        enough =
            if-cases (λ (e : FieldEnd). k ≤ enters e.codes_left) (length l.end.text == 0)
              (λ e. l.enough) (λ e. l.enough);
        is_name = named_host-IsName l.end l.fits;
      }

  wz_screen_wifi-Left :
      (k : ℕ) (scs : List ℕ) (v : Vram) → suc k ≤ enters scs → Left k (wz_screen_wifi fb mcp scs v)
  unfolding wz_screen_wifi
  wz_screen_wifi-Left k scs v h =
      if-cases (λ o. Left k o) (mcp.has_wireless == 0)
        (λ e.
          let w = wait_enter-returns k scs h in
          record { end = _; ends = bind-some _ w.ends refl; enough = w.enough; fits = no_text })
        (λ e. field_loop-Left _ true k scs false [] _ no_text h)

  wizard_screens-Returned :
      (scs : List ℕ) (vga : Memory) (vram : Vram)
      → 5 ≤ enters scs
      → Returned (wizard_screens fb mcp scs vga vram)
  unfolding wizard_screens
  wizard_screens-Returned scs vga vram h =
      let w1 = wait_enter-returns 4 scs h in
      let host = wz_screen_hostname-Named 3 w1.left (draws fb vram welcome_draws) w1.enough in
      let wifi = wz_screen_wifi-Left 2 host.end.codes_left host.end.vram host.enough in
      let w2 = wait_enter-returns 1 wifi.end.codes_left wifi.enough in
      let w3 = wait_enter-returns 0 w2.left w2.enough in
      record {
        run = _;
        returns = bind-some _ w1.ends (
            bind-some _ host.ends
              (bind-some _ wifi.ends (bind-some _ w2.ends (bind-some _ w3.ends refl))));
        handed_over =
            wz_write_config-IsHandedOver (state_of fb mcp host.end wifi.end) mcp host.is_name
              wifi.fits;
      }

  -- For keys among which Enter is pressed five times or more, on any screen, the wizard returns. The
  -- structure that it leaves at 0x7000 is one that `sam_boot_config_read` accepts, in general mode,
  -- with a host name of 1 to 31 characters and a network of at most 31, and `domain_alloc` accepts
  -- the three domains that it records.
  pub sam_wizard_run-Returned :
      (scs : List ℕ) (vga : Memory) (vram : Vram)
      → 5 ≤ enters scs
      → Returned (sam_wizard_run fb mcp scs vga vram)
  unfolding sam_wizard_run
  sam_wizard_run-Returned scs vga vram h =
      if-cases Returned fb.ready (λ e. wizard_screens-Returned scs vga vram h)
        (λ e. wz_fallback_run-Returned mcp scs vga vram (omega arith))
