-- ===== src/Shell/Setup.antt =====
-- kernel/shell.h: the wizard of kernel/wizard.h as the one that `setup` enters.
use samos.Base.{ℕ, ◌≤◌, Option, some, none, List, Memory}
use samos.Fb.{SamFb, Vram}
use samos.Mcp.Profile.{SamMcp}
use samos.Wizard.{WizardRun, sam_wizard_run}
use samos.Wizard.Field.{enters}
use samos.Wizard.Safety.{HasDisplay, sam_wizard_run-Contained}
use samos.Shell.Eval.{Calls, TaskResult}
use samos.Shell.Eval.Safety.{IsTame}

-- The screens that the wizard leaves; while it waits for a key they are as before.
abbrev pub screens_after : Memory → Vram → Option WizardRun → Memory × Vram
screens_after vga vram none = (vga, vram)
screens_after vga vram (some r) = (r.vga, r.vram)

-- The wizard is given the keys `scs`.
abbrev pub wizard_calls : SamFb → SamMcp → List ℕ → (List (List ℕ) → TaskResult) → Calls
wizard_calls fb mcp scs run = record {
  sam_run_task = run;
  sam_wizard_run = λ vga vram. screens_after vga vram (sam_wizard_run fb mcp scs vga vram);
}

-- With the wizard on a display that it has room on, and keys that bring it to its end, `setup`
-- writes on the screen only, which is what the shell relies on.
pub wizard_calls-IsTame :
    (fb : SamFb) (mcp : SamMcp) (scs : List ℕ) (run : List (List ℕ) → TaskResult)
    → HasDisplay fb
    → 5 ≤ enters scs
    → IsTame fb (wizard_calls fb mcp scs run)
wizard_calls-IsTame fb mcp scs run display h = record {
  vga_tame = λ vga vram p hp.
      let c = sam_wizard_run-Contained fb mcp scs vga vram display h in
      rw c.returns (c.vga_kept p hp);
  vram_tame = λ vga vram p hp.
      let c = sam_wizard_run-Contained fb mcp scs vga vram display h in
      rw c.returns (c.vram_kept p hp);
}
