-- ===== src/Shell/Eval.antt =====
-- kernel/shell.h: the commands, and `sh_eval`. `sam_run_task` and `sam_wizard_run`, which the
-- commands call, are arguments.
pub mod History
pub mod Safety
use samos.Base.{
  ℕ, zero, suc, ◌+◌, ◌-◌, ◌/◌, Bool, true, false, ◌&&◌, ◌||◌, not, ltb, leb, ◌==◌, if◌then◌else◌,
  List, [], ◌∷◌, ◌++◌, length, Memory, ◌*◌, before_nul,
}
use samos.Serial.{codes}
use samos.Fb.{SamFb, Vram}
use samos.Mcp.Profile.{
  SamMcp, mcp_simd_avx2, mcp_simd_sse42, mcp_gpu_integrated, mcp_gpu_discrete, mcp_gpu_multi,
}
use samos.Config.{SamBootConfig}
use samos.Shell.{
  Screen, sh_puts, sh_puthex, sh_putdec, sh_clear, sh_white, sh_green, sh_cyan, sh_yellow, sh_red,
  sh_grey, sh_hist_max,
}
use samos.Shell.Words.{skip_spaces, tokens}

-- What `sam_run_task` returns, with `g_exit_code`.
pub data TaskResult : Type 0 where
  task_exited : ℕ → TaskResult
  task_faulted task_failed : TaskResult

-- The functions of other files that commands call: the task by its argument strings, the wizard by
-- what it does to the screen. What a task sends to the serial port and leaves in memory is not kept.
pub record Calls : Type 0 where
  pub sam_run_task : List (List ℕ) → TaskResult
  pub sam_wizard_run : Memory → Vram → Memory × Vram

-- `sam_shell_t` and the local variables of `sam_shell_run`. `hist_back` is `hist_idx + 1`: how many
-- commands back the arrow keys have gone. `halted` is set by `cmd_reboot`.
pub record Shell : Type 0 where
  pub screen : Screen
  pub shift : Bool
  pub caps : Bool
  pub cmd : List ℕ
  pub hist : List (List ℕ)
  pub hist_back : ℕ
  pub cursor_visible : Bool
  pub halted : Bool

-- What `sh_eval` makes of the text at `cmd`, in the order of its tests.
pub data Command : Type 0 where
  empty help cpu mem mode res setup clear reboot unknown : Command
  run : (args : List ℕ) → Command

-- sh_strcmp(a, b) == 0
unfoldable pub sh_strcmp : List ℕ → List ℕ → Bool
sh_strcmp [] [] = true
sh_strcmp [] (d ∷ b) = false
sh_strcmp (c ∷ a) [] = false
sh_strcmp (c ∷ a) (d ∷ b) = let rest = sh_strcmp a b in if c == d then rest else false

unfoldable pub named : List ℕ → Command
named cmd =
    if length cmd == 0
    then empty
    else if sh_strcmp cmd (codes "help")
    then help
    else if sh_strcmp cmd (codes "cpu")
    then cpu
    else if sh_strcmp cmd (codes "mem")
    then mem
    else if sh_strcmp cmd (codes "mode")
    then mode
    else if sh_strcmp cmd (codes "res")
    then res
    else if sh_strcmp cmd (codes "setup")
    then setup
    else if sh_strcmp cmd (codes "clear")
    then clear
    else if sh_strcmp cmd (codes "reboot")
    then reboot
    else unknown

-- The test for "run" followed by a space or the NUL.
unfoldable pub command : List ℕ → Command
command (c ∷ d ∷ e ∷ []) =
    if c == b'r' && (d == b'u' && e == b'n') then run [] else named (c ∷ d ∷ e ∷ [])
command (c ∷ d ∷ e ∷ f ∷ s) =
    if c == b'r' && (d == b'u' && (e == b'n' && f == b' '))
    then run (f ∷ s)
    else named (c ∷ d ∷ e ∷ f ∷ s)
command cmd = named cmd

-- `sh_puts` for each text with its attribute.
unfoldable pub prints : SamFb → Screen → List (List ℕ × ℕ) → Screen
prints fb s [] = s
prints fb s ((text, attr) ∷ more) = prints fb (sh_puts fb s text attr) more

abbrev pub gpu_name : ℕ → List ℕ → List ℕ → List ℕ
gpu_name g multi none_text =
    if g == mcp_gpu_integrated
    then codes "Integrated"
    else if g == mcp_gpu_discrete
    then codes "Discrete"
    else if g == mcp_gpu_multi
    then multi
    else none_text

abbrev pub simd_name : ℕ → List ℕ
simd_name level =
    if leb mcp_simd_avx2 level
    then codes "AVX2"
    else if leb mcp_simd_sse42 level
    then codes "SSE4.2"
    else codes "SSE2/scalar"

abbrev pub yes_no : ℕ → List ℕ
yes_no b = if b == 0 then codes "no" else codes "yes"

abbrev pub banner : List ℕ
banner = codes "============================================================\n"

abbrev pub version_line : List ℕ
version_line = codes "  SAM OS  v0.1.0  |  Kernel Shell  |  Sprint 16\n"

module _ (fb : SamFb) where
  pub cmd_help : Screen → Screen
  cmd_help s = prints fb s (
      (codes "\n  help    -- this list\n", sh_cyan)
      ∷ (codes "  cpu     -- processor info\n", sh_cyan)
      ∷ (codes "  mem     -- memory domain layout\n", sh_cyan)
      ∷ (codes "  mode    -- current boot mode\n", sh_cyan)
      ∷ (codes "  res     -- hardware resource summary\n", sh_cyan)
      ∷ (codes "  run <n> -- run ELF program from initrd (Sprint 19)\n", sh_cyan)
      ∷ (codes "  setup   -- re-run configuration wizard\n", sh_cyan)
      ∷ (codes "  clear   -- clear screen\n", sh_cyan)
      ∷ (codes "  reboot  -- system reset\n", sh_cyan)
      ∷ [])

  pub cmd_cpu : Screen → SamMcp → Screen
  cmd_cpu s mcp =
      let s1 = prints fb s (
        (codes "\n  CPU   : ", sh_white)
        ∷ (before_nul mcp.cpu_brand, sh_cyan)
        ∷ (codes "\n  SIMD  : ", sh_white)
        ∷ (simd_name mcp.simd_level, sh_green)
        ∷ (codes "\n  RAM   : ", sh_white)
        ∷ []) in
      prints fb (sh_putdec fb s1 mcp.ram_mb sh_cyan) (
        (codes " MB\n", sh_white)
        ∷ (codes "  GPU   : ", sh_white)
        ∷ (gpu_name mcp.gpu_class (codes "None/Unknown") (codes "None/Unknown"), sh_cyan)
        ∷ (codes "\n", sh_white)
        ∷ [])

  -- One line of `cmd_mem`.
  abbrev pub domain_line : Screen → List ℕ → ℕ → ℕ → Screen
  domain_line s name base size =
      let s1 = sh_puthex fb (sh_puts fb s name sh_white) base sh_cyan in
      let s2 =
        sh_putdec fb (sh_puts fb s1 (codes "  size=") sh_white) (size / (1024 * 1024)) sh_cyan in
      sh_puts fb s2 (codes " MiB\n") sh_white

  pub cmd_mem : Screen → SamBootConfig → Screen
  cmd_mem s bcfg =
      let s1 = sh_puts fb s (codes "\n  Domain layout:\n") sh_white in
      let s2 = domain_line s1 (codes "  AI      base=") bcfg.ai_base bcfg.ai_size in
      let s3 = domain_line s2 (codes "  GAME    base=") bcfg.game_base bcfg.game_size in
      domain_line s3 (codes "  GENERAL base=") bcfg.general_base bcfg.general_size

  pub cmd_mode : Screen → SamBootConfig → Screen
  cmd_mode s bcfg = prints fb s (
      (codes "\n  Boot mode : ", sh_white)
      ∷ (bcfg.mode_name, sh_green)
      ∷ (codes "\n  Config at : 0x7000\n", sh_grey)
      ∷ [])

  pub cmd_res : Screen → SamMcp → Screen
  cmd_res s mcp =
      let s1 = prints fb s (
        (codes "\n  -- Hardware Resource Summary --\n", sh_cyan)
        ∷ (codes "  CPU    : ", sh_white)
        ∷ (before_nul mcp.cpu_brand, sh_cyan)
        ∷ (codes "\n  Cores  : ", sh_white)
        ∷ []) in
      let s2 = sh_puts fb (sh_putdec fb s1 mcp.cpu_cores sh_cyan) (codes " phys / ") sh_grey in
      let s3 =
        prints fb (sh_putdec fb s2 mcp.cpu_threads sh_cyan)
          ((codes " logical\n", sh_grey) ∷ (codes "  MHz    : ", sh_white) ∷ []) in
      let s4 = prints fb (sh_putdec fb s3 mcp.cpu_mhz sh_cyan) (
        (codes "\n  SIMD   : ", sh_white)
        ∷ (simd_name mcp.simd_level, sh_green)
        ∷ (codes "\n  RAM    : ", sh_white)
        ∷ []) in
      prints fb (sh_putdec fb s4 mcp.ram_mb sh_cyan) (
        (codes " MiB\n", sh_white)
        ∷ (codes "  GPU    : ", sh_white)
        ∷ (gpu_name mcp.gpu_class (codes "Multi-GPU") (codes "None"), sh_cyan)
        ∷ (codes "\n  NVMe   : ", sh_white)
        ∷ (yes_no mcp.has_nvme, sh_cyan)
        ∷ (codes "   AHCI : ", sh_white)
        ∷ (yes_no mcp.has_ahci, sh_cyan)
        ∷ (codes "\n  ETH    : ", sh_white)
        ∷ (yes_no mcp.has_ethernet, sh_cyan)
        ∷ (codes "   WiFi : ", sh_white)
        ∷ (yes_no mcp.has_wireless, sh_cyan)
        ∷ (codes "\n  USB2   : ", sh_white)
        ∷ (yes_no mcp.has_usb2, sh_cyan)
        ∷ (codes "   USB3 : ", sh_white)
        ∷ (yes_no mcp.has_usb3, sh_cyan)
        ∷ (codes "\n  Audio  : ", sh_white)
        ∷ (yes_no mcp.has_hda_audio, sh_cyan)
        ∷ (codes "\n", sh_white)
        ∷ [])

  pub cmd_setup : Calls → Screen → Screen
  cmd_setup calls s =
      let s1 = sh_puts fb s (codes "\n  Re-entering configuration wizard...\n") sh_yellow in
      let (vga, vram) = calls.sam_wizard_run s1.vga s1.vram in
      prints fb (sh_clear fb (record s1 { vga = vga; vram = vram })) (
        (banner, sh_cyan)
        ∷ (version_line, sh_white)
        ∷ (banner, sh_cyan)
        ∷ (codes "  Wizard complete. Type 'help' for commands.\n", sh_grey)
        ∷ [])

  pub cmd_reboot : Screen → Screen
  cmd_reboot s = sh_puts fb s (codes "\n  Rebooting...\n") sh_yellow

  pub cmd_unknown : Screen → List ℕ → Screen
  cmd_unknown s cmd =
      prints fb s (
        (codes "\n  Unknown: ", sh_red) ∷ (cmd, sh_red) ∷ (codes "  (type 'help')\n", sh_grey) ∷ [])

  -- for (a = 1; a < ac; a++)
  pub show_args : Screen → List (List ℕ) → Screen
  show_args s [] = s
  show_args s (arg ∷ args) =
      show_args (prints fb s ((codes " ", sh_cyan) ∷ (arg, sh_cyan) ∷ [])) args

  pub show_end : Screen → TaskResult → Screen
  show_end s (task_exited code) =
      sh_puts fb
        (sh_putdec fb (sh_puts fb s (codes "  [run] task exited with code ") sh_green) code
          sh_green)
        (codes "\n") sh_green
  show_end s task_faulted = sh_puts fb s (codes "  [run] task faulted (isolation held)\n") sh_yellow
  show_end s task_failed = sh_puts fb s (codes "  [run] task failed to start\n") sh_red

  -- From the tokens on.
  pub run_tokens : Calls → Screen → List (List ℕ) → Screen
  run_tokens calls s [] = sh_puts fb s (codes "\n  Usage: run <name> [args...]\n") sh_yellow
  run_tokens calls s (name ∷ args) =
      let s1 = prints fb s ((codes "\n  [run] starting ", sh_cyan) ∷ (name, sh_cyan) ∷ []) in
      show_end (sh_puts fb (show_args s1 args) (codes "\n") sh_cyan)
        (calls.sam_run_task (name ∷ args))

  pub cmd_run : Calls → Screen → List ℕ → Screen
  cmd_run calls s args = run_tokens calls s (tokens 8 args)

-- The command is appended while there is room.
pub save_history : List (List ℕ) → List ℕ → List (List ℕ)
save_history hist cmd = if ltb (length hist) sh_hist_max then hist ++ cmd ∷ [] else hist

-- `return` before the end, an empty line and the endless loop of `cmd_reboot` save nothing.
pub saved : Command → List (List ℕ) → List ℕ → List (List ℕ)
saved empty hist cmd = hist
saved setup hist cmd = hist
saved clear hist cmd = hist
saved reboot hist cmd = hist
saved other hist cmd = save_history hist cmd

abbrev pub is_reboot : Command → Bool
is_reboot reboot = true
is_reboot other = false

module _ (fb : SamFb) (mcp : SamMcp) (bcfg : SamBootConfig) (calls : Calls) where
  pub show : Screen → List ℕ → Command → Screen
  show s cmd empty = s
  show s cmd help = cmd_help fb s
  show s cmd cpu = cmd_cpu fb s mcp
  show s cmd mem = cmd_mem fb s bcfg
  show s cmd mode = cmd_mode fb s bcfg
  show s cmd res = cmd_res fb s mcp
  show s cmd setup = cmd_setup fb calls s
  show s cmd clear = sh_clear fb s
  show s cmd reboot = cmd_reboot fb s
  show s cmd unknown = cmd_unknown fb s cmd
  show s cmd (run args) = cmd_run fb calls s args

  unfoldable pub sh_eval : Shell → Shell
  sh_eval sh =
      let cmd = skip_spaces sh.cmd in
      let c = command cmd in
      record sh {
        screen = show sh.screen cmd c;
        hist = saved c sh.hist sh.cmd;
        halted = is_reboot c;
      }
