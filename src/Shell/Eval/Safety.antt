-- ===== src/Shell/Eval/Safety.antt =====
-- kernel/shell.h: whatever a command prints, it stays on the screen.
use samos.Base.{ℕ, ◌*◌, ◌≤◌, ◌≡◌, ◌∙◌, List, [], ◌∷◌, Memory}
use samos.Serial.{codes}
use samos.Fb.{SamFb, Vram}
use samos.Mcp.Profile.{SamMcp}
use samos.Config.{SamBootConfig}
use samos.Shell.{Screen, sh_puts, sh_putdec, sh_white, sh_green, sh_cyan, sh_grey}
use samos.Shell.Words.{tokens}
use samos.Shell.Console.{
  HasConsole, IsKept, sh_puts-IsKept, sh_puthex-IsKept, sh_putdec-IsKept, sh_clear-IsKept,
}
use samos.Shell.Eval.{
  TaskResult, task_exited, task_faulted, task_failed, Calls, Command, empty, help, cpu, mem, mode,
  res, setup, clear, reboot, unknown, run, prints, cmd_help, cmd_cpu, cmd_mem, domain_line,
  cmd_mode, cmd_res, cmd_setup, cmd_reboot, cmd_unknown, show_args, show_end, run_tokens, cmd_run,
  show,
}

-- The wizard, too, writes only on the screen.
pub record IsTame (fb : SamFb) (calls : Calls) : Type 0 where
  pub vga_tame : (v : Memory) (w : Vram) (p : ℕ) → 2000 ≤ p → (calls.sam_wizard_run v w).0 p ≡ v p
  pub vram_tame :
      (v : Memory) (w : Vram) (p : ℕ)
      → fb.height * fb.pitch_px ≤ p
      → (calls.sam_wizard_run v w).1 p ≡ w p

module _ (fb : SamFb) (console : HasConsole fb) (v0 : Memory) (w0 : Vram) where
  abbrev Kept : Screen → Type 0
  Kept s = IsKept fb v0 w0 s

  abbrev puts_kept :
      (s : Screen) (text : List ℕ) (attr : ℕ) → Kept s → Kept (sh_puts fb s text attr)
  puts_kept s text attr k = sh_puts-IsKept fb console v0 w0 s text attr k

  pub prints-IsKept : (s : Screen) (texts : List (List ℕ × ℕ)) → Kept s → Kept (prints fb s texts)
  unfolding prints
  prints-IsKept s [] k = k
  prints-IsKept s ((text, attr) ∷ more) k =
      prints-IsKept (sh_puts fb s text attr) more (puts_kept s text attr k)

  abbrev dec_kept : (s : Screen) (v attr : ℕ) → Kept s → Kept (sh_putdec fb s v attr)
  dec_kept s v attr k = sh_putdec-IsKept fb console v0 w0 s v attr k

  cmd_help-IsKept : (s : Screen) → Kept s → Kept (cmd_help fb s)
  unfolding cmd_help
  cmd_help-IsKept s k = prints-IsKept s _ k

  cmd_cpu-IsKept : (s : Screen) (mcp : SamMcp) → Kept s → Kept (cmd_cpu fb s mcp)
  unfolding cmd_cpu
  cmd_cpu-IsKept s mcp k = prints-IsKept _ _ (dec_kept _ mcp.ram_mb sh_cyan (prints-IsKept s _ k))

  domain_line-IsKept :
      (s : Screen) (name : List ℕ) (base size : ℕ) → Kept s → Kept (domain_line fb s name base size)
  domain_line-IsKept s name base size k = puts_kept _ _ sh_white (
      dec_kept _ _ sh_cyan (
        puts_kept _ _ sh_white
          (sh_puthex-IsKept fb console v0 w0 _ base sh_cyan (puts_kept s name sh_white k))))

  cmd_mem-IsKept : (s : Screen) (bcfg : SamBootConfig) → Kept s → Kept (cmd_mem fb s bcfg)
  unfolding cmd_mem
  cmd_mem-IsKept s bcfg k =
      domain_line-IsKept _ _ _ _
        (domain_line-IsKept _ _ _ _ (domain_line-IsKept _ _ _ _ (puts_kept s _ sh_white k)))

  cmd_mode-IsKept : (s : Screen) (bcfg : SamBootConfig) → Kept s → Kept (cmd_mode fb s bcfg)
  unfolding cmd_mode
  cmd_mode-IsKept s bcfg k = prints-IsKept s _ k

  cmd_res-IsKept : (s : Screen) (mcp : SamMcp) → Kept s → Kept (cmd_res fb s mcp)
  unfolding cmd_res
  cmd_res-IsKept s mcp k = prints-IsKept _ _ (
      dec_kept _ _ sh_cyan (
        prints-IsKept _ _ (
          dec_kept _ _ sh_cyan (
            prints-IsKept _ _ (
              dec_kept _ _ sh_cyan
                (puts_kept _ _ sh_grey (dec_kept _ _ sh_cyan (prints-IsKept s _ k))))))))

  cmd_setup-IsKept :
      (calls : Calls) (s : Screen) → IsTame fb calls → Kept s → Kept (cmd_setup fb calls s)
  unfolding cmd_setup
  cmd_setup-IsKept calls s t k =
      let k1 = puts_kept s (codes "\n  Re-entering configuration wizard...\n") _ k in
      prints-IsKept _ _ (
        sh_clear-IsKept fb console v0 w0 _ (record {
          row_fits = k1.row_fits;
          col_fits = k1.col_fits;
          vga_kept = λ p h. t.vga_tame _ _ p h ∙ k1.vga_kept p h;
          vram_kept = λ p h. t.vram_tame _ _ p h ∙ k1.vram_kept p h;
        }))

  show_args-IsKept : (args : List (List ℕ)) (s : Screen) → Kept s → Kept (show_args fb s args)
  unfolding show_args
  show_args-IsKept [] s k = k
  show_args-IsKept (arg ∷ args) s k = show_args-IsKept args _ (prints-IsKept s _ k)

  show_end-IsKept : (s : Screen) (r : TaskResult) → Kept s → Kept (show_end fb s r)
  unfolding show_end
  show_end-IsKept s (task_exited code) k =
      puts_kept _ _ sh_green (dec_kept _ code sh_green (puts_kept s _ sh_green k))
  show_end-IsKept s task_faulted k = puts_kept s _ _ k
  show_end-IsKept s task_failed k = puts_kept s _ _ k

  run_tokens-IsKept :
      (calls : Calls) (s : Screen) (args : List (List ℕ))
      → Kept s
      → Kept (run_tokens fb calls s args)
  unfolding run_tokens
  run_tokens-IsKept calls s [] k = puts_kept s _ _ k
  run_tokens-IsKept calls s (name ∷ args) k =
      show_end-IsKept _ (calls.sam_run_task (name ∷ args))
        (puts_kept _ _ sh_cyan (show_args-IsKept args _ (prints-IsKept s _ k)))

  module _ (mcp : SamMcp) (bcfg : SamBootConfig) (calls : Calls) (t : IsTame fb calls) where
    pub show-IsKept :
        (s : Screen) (cmd : List ℕ) (c : Command) → Kept s → Kept (show fb mcp bcfg calls s cmd c)
    unfolding show cmd_run cmd_reboot cmd_unknown
    show-IsKept s cmd empty k = k
    show-IsKept s cmd help k = cmd_help-IsKept s k
    show-IsKept s cmd cpu k = cmd_cpu-IsKept s mcp k
    show-IsKept s cmd mem k = cmd_mem-IsKept s bcfg k
    show-IsKept s cmd mode k = cmd_mode-IsKept s bcfg k
    show-IsKept s cmd res k = cmd_res-IsKept s mcp k
    show-IsKept s cmd setup k = cmd_setup-IsKept calls s t k
    show-IsKept s cmd clear k = sh_clear-IsKept fb console v0 w0 s k
    show-IsKept s cmd reboot k = puts_kept s _ _ k
    show-IsKept s cmd unknown k = prints-IsKept s _ k
    show-IsKept s cmd (run args) k = run_tokens-IsKept calls s (tokens 8 args) k
