-- ===== src/Wizard/Safety.antt =====
-- kernel/wizard.h: the wizard writes on the screen only.
use samos.Base.{
  ℕ, ◌+◌, ◌*◌, ◌<◌, ◌≤◌, ◌≡◌, ◌≢◌, inr, refl, ◌∙◌, arith, Bool, true, false, not, ltb, ◌==◌,
  if-cases, if◌then◌else◌, Option, some, none, List, [], ◌∷◌, length, All, Memory, store8,
  before_nul,
}
use samos.Fb.{SamFb, Vram}
use samos.Fb.Fill.{fill_line-outside}
use samos.Mcp.Profile.{SamMcp}
use samos.Wizard.Draw.{draws}
use samos.Wizard.Draw.Below.{HasPage, draws-off}
use samos.Wizard.Screens.{welcome_draws, done_draws}
use samos.Wizard.Screens.Fits.{
  welcome_draws-fit, hostname_screen-fits, wifi_screen-fits, summary_draws-fit, done_draws-fit,
}
use samos.Wizard.{
  FieldStep, entered, skipped, typed, field_key, FieldEnd, after_step, field_loop, wait_enter,
  default_hostname, wz_vga_puts, wz_vga_cls, vga_texts, vga_cell, fallback_first, fallback_second,
  WizardRun, wz_fallback_run, named_host, wz_screen_hostname, wz_screen_wifi, wizard_screens,
  sam_wizard_run, show_hostname, show_wifi, ◌>>=◌,
}
use samos.Wizard.Field.{enters}
use samos.Wizard.Handoff.{sam_wizard_run-Returned}

-- What the option has, if anything, satisfies Q.
abbrev Holds : {A : Type 0} → (A → Type 0) → Option A → Type 0
Holds Q none = Unit
Holds Q (some a) = Q a

bind-Holds :
    {A B : Type 0} (Q : A → Type 0) (R : B → Type 0) (o : Option A) (f : A → Option B)
    → Holds Q o
    → ((a : A) → Q a → Holds R (f a))
    → Holds R (o >>= f)
bind-Holds Q R none f h k = tt
bind-Holds Q R (some a) f h k = k a h

anything : {A : Type 0} (o : Option A) → Holds (λ a. Unit) o
anything none = tt
anything (some a) = tt

-- The text screen.
wz_vga_puts-outside :
    (row col : ℕ) (s : List ℕ) (v : Memory) (fg bg p : ℕ)
    → row < 25
    → 2000 ≤ p
    → wz_vga_puts v row col s fg bg p ≡ v p
unfolding wz_vga_puts
wz_vga_puts-outside row col [] v fg bg p h l = refl
wz_vga_puts-outside row col (c ∷ s) v fg bg p h l =
    if-cases (λ (m : Memory). m p ≡ v p) (ltb col 80)
      (λ e.
        wz_vga_puts-outside row (col + 1) s (store8 v (row * 80 + col) (vga_cell c fg bg)) fg bg p h
          l
        ∙ other v (row * 80 + col) (vga_cell c fg bg) p (ground arith))
      (λ e. refl)
  where
    other : (v : Memory) (a x p : ℕ) → p ≢ a → store8 v a x p ≡ v p
    other v a x p n = ground arith

vga_texts-outside :
    (texts : List (ℕ × ℕ × List ℕ × ℕ × ℕ)) (v : Memory) (p : ℕ)
    → All (λ t. t.0 < 25) texts
    → 2000 ≤ p
    → vga_texts v texts p ≡ v p
unfolding vga_texts
vga_texts-outside [] v p h l = refl
vga_texts-outside ((row, col, s, fg, bg) ∷ more) v p h l =
    vga_texts-outside more (wz_vga_puts v row col s fg bg) p h.1 l
    ∙ wz_vga_puts-outside row col s v fg bg p h.0 l

wz_vga_cls-outside : (v : Memory) (bg p : ℕ) → 2000 ≤ p → wz_vga_cls v bg p ≡ v p
unfolding wz_vga_cls
wz_vga_cls-outside v bg p l = fill_line-outside v 0 (vga_cell b' ' 0xF bg) 0 (80 * 25) p (inr l)

second_rows : (present : Bool) → All (λ t. t.0 < 25) (fallback_second present)
second_rows true = (omega arith, (omega arith, (omega arith, (omega arith, tt))))
second_rows false = (omega arith, (omega arith, (omega arith, tt)))

-- What holds of a run of the wizard at one cell and at one pixel.
abbrev Same : Memory → Vram → ℕ → ℕ → WizardRun → Type 0
Same vga vram a p r = (r.vga a ≡ vga a) × (r.vram p ≡ vram p)

fallback_kept :
    (mcp : SamMcp) (scs : List ℕ) (vga : Memory) (vram : Vram) (a p : ℕ)
    → 2000 ≤ a
    → Holds (Same vga vram a p) (wz_fallback_run mcp scs vga vram)
unfolding wz_fallback_run
fallback_kept mcp scs vga vram a p l =
    bind-Holds (λ s. Unit) (Same vga vram a p) (wait_enter scs) _ (anything (wait_enter scs))
      (λ s1 u1.
        bind-Holds (λ s. Unit) (Same vga vram a p) (wait_enter s1) _ (anything (wait_enter s1))
          (λ s2 u2. (
            vga_texts-outside (fallback_second (not (mcp.has_wireless == 0))) _ a
                  (second_rows (not (mcp.has_wireless == 0))) l
                ∙ (wz_vga_cls-outside _ 0x1 a l
                    ∙ (vga_texts-outside fallback_first _ a
                          (
                            omega arith,
                            (omega arith, (omega arith, (omega arith, (omega arith, tt)))),
                          )
                          l
                        ∙ wz_vga_cls-outside vga 0x1 a l)),
            refl,
          )))

-- A field whose screens leave the pixel `p` alone.
module _ (show : List ℕ → Vram → Vram) (v0 : Vram) (p : ℕ)
    (shows : (text : List ℕ) (v : Vram) → show text v p ≡ v p) where
  abbrev Field : Option FieldEnd → Type 0
  Field o = Holds (λ e. e.vram p ≡ v0 p) o

  after_step_kept :
      (rest : Bool → List ℕ → Vram → Option FieldEnd) (scs text : List ℕ) (v : Vram)
      (step : FieldStep)
      → v p ≡ v0 p
      → ((shift : Bool) (text : List ℕ) (v : Vram) → v p ≡ v0 p → Field (rest shift text v))
      → Field (after_step rest show scs text v step)
  unfolding after_step
  after_step_kept rest scs text v entered h r = h
  after_step_kept rest scs text v skipped h r = h
  after_step_kept rest scs text v (typed shift' text' redraw) h r =
      r shift' text' (if redraw then show text' v else v)
        (if-cases (λ (w : Vram). w p ≡ v0 p) redraw (λ e. shows text' v ∙ h) (λ e. h))

  field_loop_kept :
      (tab : Bool) (scs : List ℕ) (shift : Bool) (text : List ℕ) (v : Vram)
      → v p ≡ v0 p
      → Field (field_loop show tab scs shift text v)
  unfolding field_loop
  field_loop_kept tab [] shift text v h = tt
  field_loop_kept tab (sc ∷ scs) shift text v h =
      if-cases Field (ltb sc 0x80)
        (λ e.
          after_step_kept (field_loop show tab scs) scs text v (field_key tab shift text sc) h
            (λ shift' text' v' h'. field_loop_kept tab scs shift' text' v' h'))
        (λ e. field_loop_kept tab scs shift text v h)

module _ (fb : SamFb) (mcp : SamMcp) (page : HasPage fb) (a p : ℕ)
    (behind : fb.height * fb.pitch_px ≤ p) where
  abbrev At : Vram → FieldEnd → Type 0
  At v e = e.vram p ≡ v p

  host_shows : (text : List ℕ) (v : Vram) → show_hostname fb mcp text v p ≡ v p
  host_shows text v = draws-off fb page p behind _ v (hostname_screen-fits text)

  wifi_shows : (phase : ℕ) (text : List ℕ) (v : Vram) → show_wifi fb mcp phase text v p ≡ v p
  wifi_shows phase text v =
      draws-off fb page p behind _ v (wifi_screen-fits (not (mcp.has_wireless == 0)) phase text)

  host_kept : (scs : List ℕ) (v : Vram) → Holds (At v) (wz_screen_hostname fb mcp scs v)
  unfolding wz_screen_hostname named_host
  host_kept scs v =
      bind-Holds (At v) (At v) _ _
        (field_loop_kept (show_hostname fb mcp) v p host_shows false scs false default_hostname
          (show_hostname fb mcp default_hostname v) (host_shows default_hostname v))
        (λ e h. if-cases (At v) (length e.text == 0) (λ q. h) (λ q. h))

  wifi_kept : (scs : List ℕ) (v : Vram) → Holds (At v) (wz_screen_wifi fb mcp scs v)
  unfolding wz_screen_wifi
  wifi_kept scs v =
      if-cases (Holds (At v)) (mcp.has_wireless == 0)
        (λ q.
          bind-Holds (λ s. Unit) (At v) (wait_enter scs) _ (anything (wait_enter scs))
            (λ s u. wifi_shows 0 [] v))
        (λ q.
          field_loop_kept (show_wifi fb mcp 1) v p (wifi_shows 1) true scs false []
            (show_wifi fb mcp 1 [] (show_wifi fb mcp 0 [] v))
            (wifi_shows 1 [] (show_wifi fb mcp 0 [] v) ∙ wifi_shows 0 [] v))

  screens_kept :
      (scs : List ℕ) (vga : Memory) (vram : Vram)
      → Holds (Same vga vram a p) (wizard_screens fb mcp scs vga vram)
  unfolding wizard_screens
  screens_kept scs vga vram =
      let v1 = draws fb vram welcome_draws in
      let S = Same vga vram a p in
      let U = λ (s : List ℕ). Unit in
      bind-Holds U S (wait_enter scs) _ (anything (wait_enter scs)) (λ s1 u1.
        bind-Holds (At v1) S (wz_screen_hostname fb mcp s1 v1) _ (host_kept s1 v1) (λ host h.
          bind-Holds (At host.vram) S (wz_screen_wifi fb mcp host.codes_left host.vram) _
            (wifi_kept host.codes_left host.vram)
            (λ wifi w.
              bind-Holds U S (wait_enter wifi.codes_left) _ (anything (wait_enter wifi.codes_left))
                (λ s2 u2. bind-Holds U S (wait_enter s2) _ (anything (wait_enter s2)) (λ s3 u3. (
                  refl,
                  draws-off fb page p behind (done_draws host.text) _ (done_draws-fit host.text)
                      ∙ (draws-off fb page p behind _ wifi.vram (
                            summary_draws-fit host.text (not (mcp.has_wireless == 0)) wifi.skip
                              wifi.text mcp (before_nul mcp.cpu_brand))
                          ∙ (w
                              ∙ (h
                                  ∙ draws-off fb page p behind welcome_draws vram
                                      welcome_draws-fit))),
                ))))))

-- The text screen is shown, or a framebuffer on which the layout has room.
pub data HasDisplay (fb : SamFb) : Type 0 where
  text_display : fb.ready ≡ false → HasDisplay fb
  page_display : HasPage fb → HasDisplay fb

-- The wizard returns, and outside the 2000 cells and the rows of pixels nothing has changed.
pub record Contained (fb : SamFb) (vga : Memory) (vram : Vram) (o : Option WizardRun) : Type 0 where
  pub run : WizardRun
  pub returns : o ≡ some run
  pub vga_kept : (a : ℕ) → 2000 ≤ a → run.vga a ≡ vga a
  pub vram_kept : (p : ℕ) → fb.height * fb.pitch_px ≤ p → run.vram p ≡ vram p

-- For keys among which Enter is pressed five times or more, in text mode or on a framebuffer of at
-- least 1024 by 768 pixels, whatever is typed in between, the wizard returns, and no cell behind
-- the 2000 of the text screen and no pixel behind the last row of the framebuffer has changed.
pub sam_wizard_run-Contained :
    (fb : SamFb) (mcp : SamMcp) (scs : List ℕ) (vga : Memory) (vram : Vram)
    → HasDisplay fb
    → 5 ≤ enters scs
    → Contained fb vga vram (sam_wizard_run fb mcp scs vga vram)
unfolding sam_wizard_run
sam_wizard_run-Contained fb mcp scs vga vram display h =
    let r = sam_wizard_run-Returned fb mcp scs vga vram h in
    let same = λ (a p : ℕ) (l : 2000 ≤ a) (b : fb.height * fb.pitch_px ≤ p).
      rw r.returns at (kept a p l b) in
    record {
      run = r.run;
      returns = r.returns;
      vga_kept = λ a l. (same a (fb.height * fb.pitch_px) l (omega arith)).0;
      vram_kept = λ p b. (same 2000 p (omega arith) b).1;
    }
  where
    kept :
        (a p : ℕ)
        → 2000 ≤ a
        → fb.height * fb.pitch_px ≤ p
        → Holds (Same vga vram a p) (sam_wizard_run fb mcp scs vga vram)
    kept a p l b = elim display [
      | text_display e ↦ rw e (fallback_kept mcp scs vga vram a p l)
      | page_display page ↦
          if-cases (Holds (Same vga vram a p)) fb.ready
            (λ r. screens_kept fb mcp page a p b scs vga vram)
            (λ r. fallback_kept mcp scs vga vram a p l)
    ]
