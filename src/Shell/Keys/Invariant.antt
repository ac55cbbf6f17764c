-- ===== src/Shell/Keys/Invariant.antt =====
-- kernel/shell.h: what holds in every state of the shell, whatever is typed.
use samos.Base.{
  ℕ, ◌+◌, ◌*◌, ◌-◌, ◌<◌, ◌≤◌, refl, arith, Bool, true, false, not, ◌&&◌, if-cases, if◌then◌else◌,
  ltb, ◌==◌, List, [], ◌∷◌, length, Memory, bit_and, drop_last-IsText, longer-IsText,
}
use samos.Fb.{SamFb, Vram}
use samos.Mcp.Profile.{SamMcp}
use samos.Config.{SamBootConfig}
use samos.Shell.{Screen, sh_prompt, sh_cmd_max, sh_white, sh_rows, sh_cols, blank}
use samos.Shell.Words.{skip_spaces}
use samos.Shell.Console.{
  HasConsole, IsKept, sh_putchar-IsKept, sh_clear-IsKept, sh_prompt-IsKept, sh_cursor_on-IsKept,
  sh_cursor_off-IsKept, sh_redraw_cmd-IsKept, rect-IsKept, cell-IsKept,
}
use samos.Shell.Eval.{Calls, Shell, command, sh_eval}
use samos.Shell.Eval.Safety.{IsTame, show-IsKept, prints-IsKept}
use samos.Shell.Eval.History.{IsLine, IsHistory, saved-IsHistory, length-saved}
use samos.Shell.Keys.Lines.{empty-IsLine, get_or-IsLine}
use samos.Shell.Keys.{
  Event, blink, key, extended, blink_cursor, hide_cursor, recall, history_older, history_newer,
  on_extended, erase_cell, on_back, on_enter, on_char, on_key, on_event, shell_loop, shell_start,
  sam_shell_run, key_char, is_shift, sc_caps, sc_back, sc_enter, sc_up, sc_down,
}

-- The screen is kept, the line and the lines of the history fit in their arrays, and the arrow keys
-- have not gone behind the oldest command.
pub record IsShell (fb : SamFb) (v0 : Memory) (w0 : Vram) (sh : Shell) : Type 0 where
  pub on_screen : IsKept fb v0 w0 sh.screen
  pub is_line : IsLine sh.cmd
  pub is_history : IsHistory sh.hist
  pub back_fits : sh.hist_back ≤ length sh.hist

module _ (fb : SamFb) (console : HasConsole fb) (v0 : Memory) (w0 : Vram) where
  -- The screen is replaced by another that is kept, and the cursor shown or hidden.
  on_screen_kept :
      (sh : Shell) (s : Screen) (visible : Bool)
      → IsShell fb v0 w0 sh
      → IsKept fb v0 w0 s
      → IsShell fb v0 w0 (record sh { screen = s; cursor_visible = visible })
  on_screen_kept sh s visible i k = record {
    on_screen = k;
    is_line = i.is_line;
    is_history = i.is_history;
    back_fits = i.back_fits;
  }

  hide_cursor-IsShell : (sh : Shell) → IsShell fb v0 w0 sh → IsShell fb v0 w0 (hide_cursor fb sh)
  unfolding hide_cursor
  hide_cursor-IsShell sh i =
      if-cases (λ q. IsShell fb v0 w0 q) sh.cursor_visible
        (λ e.
          on_screen_kept sh _ false i (sh_cursor_off-IsKept fb console v0 w0 sh.screen i.on_screen))
        (λ e. i)

  blink_cursor-IsShell : (sh : Shell) → IsShell fb v0 w0 sh → IsShell fb v0 w0 (blink_cursor fb sh)
  unfolding blink_cursor
  blink_cursor-IsShell sh i =
      if-cases (λ q. IsShell fb v0 w0 q) sh.cursor_visible
        (λ e.
          on_screen_kept sh _ false i (sh_cursor_off-IsKept fb console v0 w0 sh.screen i.on_screen))
        (λ e.
          on_screen_kept sh _ true i (sh_cursor_on-IsKept fb console v0 w0 sh.screen i.on_screen))

  recall-IsShell :
      (sh : Shell) (back : ℕ) (line : List ℕ)
      → IsShell fb v0 w0 sh
      → back ≤ length sh.hist
      → IsLine line
      → IsShell fb v0 w0 (recall fb sh back line)
  unfolding recall
  recall-IsShell sh back line i h l = record {
    on_screen = sh_redraw_cmd-IsKept fb console v0 w0 sh.screen line i.on_screen;
    is_line = l;
    is_history = i.is_history;
    back_fits = h;
  }

  history_older-IsShell :
      (sh : Shell) → IsShell fb v0 w0 sh → IsShell fb v0 w0 (history_older fb sh)
  unfolding history_older
  history_older-IsShell sh i =
      if-cases (λ q. IsShell fb v0 w0 q)
        (ltb 0 (length sh.hist) && ltb sh.hist_back (length sh.hist))
        (λ e.
          recall-IsShell sh (sh.hist_back + 1) _ i (ground arith)
            (get_or-IsLine sh.hist _ i.is_history.hist_lines))
        (λ e. i)

  history_newer-IsShell :
      (sh : Shell) → IsShell fb v0 w0 sh → IsShell fb v0 w0 (history_newer fb sh)
  unfolding history_newer
  history_newer-IsShell sh i =
      if-cases (λ q. IsShell fb v0 w0 q) (ltb 1 sh.hist_back)
        (λ e.
          recall-IsShell sh (sh.hist_back - 1) _ i (let b = i.back_fits in omega arith)
            (get_or-IsLine sh.hist _ i.is_history.hist_lines))
        (λ e.
          if-cases (λ q. IsShell fb v0 w0 q) (sh.hist_back == 1)
            (λ e1. recall-IsShell sh 0 [] i (omega arith) empty-IsLine) (λ e1. i))

  erase_cell-IsKept : (s : Screen) → IsKept fb v0 w0 s → IsKept fb v0 w0 (erase_cell fb s)
  unfolding erase_cell
  erase_cell-IsKept s k =
      let r = k.row_fits in
      let c = k.col_fits in
      if-cases (λ q. IsKept fb v0 w0 q) fb.ready
        (λ e.
          rect-IsKept fb console v0 w0 s s.row (s.col - 1) ((s.col - 1) * 8) (s.row * 16) 8 16
            0x00000000 k e r (omega arith) (omega arith) (omega arith))
        (λ e. cell-IsKept fb console v0 w0 s (s.col - 1) blank k (omega arith))

  on_back-IsShell : (sh : Shell) → IsShell fb v0 w0 sh → IsShell fb v0 w0 (on_back fb sh)
  unfolding on_back
  on_back-IsShell sh i =
      if-cases (λ q. IsShell fb v0 w0 q) (length sh.cmd == 0) (λ e. i)
        (λ e. record {
          on_screen = erase_cell-IsKept sh.screen i.on_screen;
          is_line = drop_last-IsText sh_cmd_max sh.cmd i.is_line;
          is_history = i.is_history;
          back_fits = i.back_fits;
        })

  on_char-IsShell : (sh : Shell) (c : ℕ) → IsShell fb v0 w0 sh → IsShell fb v0 w0 (on_char fb sh c)
  unfolding on_char
  on_char-IsShell sh c i =
      if-cases (λ q. IsShell fb v0 w0 q) (not (c == 0) && ltb (length sh.cmd) sh_cmd_max)
        (λ e. record {
          on_screen = sh_putchar-IsKept fb console v0 w0 sh.screen c sh_white i.on_screen;
          is_line = longer-IsText sh_cmd_max sh.cmd c i.is_line e;
          is_history = i.is_history;
          back_fits = i.back_fits;
        })
        (λ e. i)

  on_extended-IsShell :
      (sh : Shell) (sc2 : ℕ) → IsShell fb v0 w0 sh → IsShell fb v0 w0 (on_extended fb sh sc2)
  unfolding on_extended
  on_extended-IsShell sh sc2 i =
      if-cases (λ q. IsShell fb v0 w0 q) (sc2 == sc_up) (λ e. history_older-IsShell sh i)
        (λ e.
          if-cases (λ q. IsShell fb v0 w0 q) (sc2 == sc_down) (λ e1. history_newer-IsShell sh i)
            (λ e1. i))

  shell_start-IsShell : (s : Screen) → IsKept fb v0 w0 s → IsShell fb v0 w0 (shell_start fb s)
  unfolding shell_start
  shell_start-IsShell s k = record {
    on_screen =
        sh_prompt-IsKept fb console v0 w0 _
          (prints-IsKept fb console v0 w0 _ _ (sh_clear-IsKept fb console v0 w0 s k));
    is_line = empty-IsLine;
    is_history = record { hist_fits = omega arith; hist_lines = tt };
    back_fits = omega arith;
  }

  -- The state of the shift key or of the caps lock changes.
  modifiers_kept :
      (sh : Shell) (shift caps : Bool)
      → IsShell fb v0 w0 sh
      → IsShell fb v0 w0 (record sh { shift = shift; caps = caps })
  modifiers_kept sh shift caps i = record {
    on_screen = i.on_screen;
    is_line = i.is_line;
    is_history = i.is_history;
    back_fits = i.back_fits;
  }

  module _ (mcp : SamMcp) (bcfg : SamBootConfig) (calls : Calls) (t : IsTame fb calls) where
    sh_eval-IsShell :
        (sh : Shell) → IsShell fb v0 w0 sh → IsShell fb v0 w0 (sh_eval fb mcp bcfg calls sh)
    unfolding sh_eval
    sh_eval-IsShell sh i =
        let c = command (skip_spaces sh.cmd) in
        record {
          on_screen =
              show-IsKept fb console v0 w0 mcp bcfg calls t sh.screen (skip_spaces sh.cmd) c
                i.on_screen;
          is_line = i.is_line;
          is_history = saved-IsHistory c sh.hist sh.cmd i.is_history i.is_line;
          back_fits = omega (arith, i.back_fits, length-saved c sh.hist sh.cmd);
        }

    -- After a command that returns, the line is empty.
    after_eval :
        (sh : Shell)
        → IsShell fb v0 w0 sh
        → IsShell fb v0 w0 (
            if sh.halted
            then sh
            else record sh { cmd = []; hist_back = 0; screen = sh_prompt fb sh.screen })
    after_eval sh i =
        if-cases (λ q. IsShell fb v0 w0 q) sh.halted (λ e. i)
          (λ e. record {
            on_screen = sh_prompt-IsKept fb console v0 w0 sh.screen i.on_screen;
            is_line = empty-IsLine;
            is_history = i.is_history;
            back_fits = omega arith;
          })

    on_enter-IsShell :
        (sh : Shell) → IsShell fb v0 w0 sh → IsShell fb v0 w0 (on_enter fb mcp bcfg calls sh)
    unfolding on_enter
    on_enter-IsShell sh i = after_eval _ (
        sh_eval-IsShell _ (
          on_screen_kept sh _ sh.cursor_visible i
            (sh_putchar-IsKept fb console v0 w0 sh.screen b'\n' sh_white i.on_screen)))

    on_key-IsShell :
        (sh : Shell) (sc : ℕ)
        → IsShell fb v0 w0 sh
        → IsShell fb v0 w0 (on_key fb mcp bcfg calls sh sc)
    unfolding on_key
    on_key-IsShell sh sc i =
        let P = λ (q : Shell). IsShell fb v0 w0 q in
        if-cases P (not (bit_and sc 0x80 == 0))
          (λ e.
            if-cases P (is_shift (bit_and sc 0x7F)) (λ e1. modifiers_kept sh false sh.caps i)
              (λ e1. i))
          (λ e.
            if-cases P (is_shift sc) (λ e1. modifiers_kept sh true sh.caps i)
              (λ e1.
                if-cases P (sc == sc_caps) (λ e2. modifiers_kept sh sh.shift (not sh.caps) i)
                  (λ e2.
                    if-cases P (sc == sc_back) (λ e3. on_back-IsShell sh i)
                      (λ e3.
                        if-cases P (sc == sc_enter) (λ e4. on_enter-IsShell sh i)
                          (λ e4.
                            if-cases P (ltb sc 58)
                              (λ e5. on_char-IsShell sh (key_char sh.shift sh.caps sc) i)
                              (λ e5. i))))))

    on_event-IsShell :
        (sh : Shell) (e : Event)
        → IsShell fb v0 w0 sh
        → IsShell fb v0 w0 (on_event fb mcp bcfg calls sh e)
    unfolding on_event
    on_event-IsShell sh blink i = blink_cursor-IsShell sh i
    on_event-IsShell sh (key sc) i = on_key-IsShell _ sc (hide_cursor-IsShell sh i)
    on_event-IsShell sh (extended sc2) i = on_extended-IsShell _ sc2 (hide_cursor-IsShell sh i)

    shell_loop-IsShell :
        (es : List Event) (sh : Shell)
        → IsShell fb v0 w0 sh
        → IsShell fb v0 w0 (shell_loop fb mcp bcfg calls sh es)
    unfolding shell_loop
    shell_loop-IsShell [] sh i = i
    shell_loop-IsShell (e ∷ es) sh i =
        shell_loop-IsShell es _
          (if-cases (λ q. IsShell fb v0 w0 q) sh.halted (λ h. i) (λ h. on_event-IsShell sh e i))

-- Whatever keys are pressed: the cursor stays on the screen; no cell behind the 2000 of the text
-- screen and no pixel behind those of the framebuffer is written; the command line and each line of the
-- history are text of at most 79 characters, the history has at most 8 lines, and the arrow keys
-- stop at its oldest. The framebuffer, if it is used, has at least 640 by 400 pixels, the cursor
-- is on the screen before, and the wizard writes only on the screen.
pub sam_shell_run-IsShell :
    (fb : SamFb) (mcp : SamMcp) (bcfg : SamBootConfig) (calls : Calls) (s : Screen)
    (es : List Event)
    → HasConsole fb
    → IsTame fb calls
    → s.row < sh_rows
    → s.col < sh_cols
    → IsShell fb s.vga s.vram (sam_shell_run fb mcp bcfg calls s es)
unfolding sam_shell_run
sam_shell_run-IsShell fb mcp bcfg calls s es console t hr hc =
    shell_loop-IsShell fb console s.vga s.vram mcp bcfg calls t es (shell_start fb s) (
      shell_start-IsShell fb console s.vga s.vram s
        (record { row_fits = hr; col_fits = hc; vga_kept = λ p h. refl; vram_kept = λ p h. refl }))
