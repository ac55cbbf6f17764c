-- ===== src/Shell/Keys.antt =====
-- kernel/shell.h: the loop of `sam_shell_run`. An event is what one of its rounds reads: nothing
-- until the cursor is due to blink, a scancode, or the code behind the prefix 0xE0.
mod Lines
pub mod Invariant
pub mod Typing
pub mod Recall
pub mod Caps
use samos.Base.{
  ℕ, zero, suc, ◌+◌, ◌-◌, ◌*◌, Bool, true, false, ◌&&◌, ◌||◌, not, ltb, leb, ◌==◌, if◌then◌else◌,
  List, [], ◌∷◌, ◌++◌, length, get_or, store8, bit_and, drop_last,
}
use samos.Serial.{codes}
use samos.Fb.{SamFb, fb_fill_rect}
use samos.Mcp.Profile.{SamMcp}
use samos.Config.{SamBootConfig}
use samos.Shell.{
  Screen, sh_putchar, sh_clear, sh_cursor_on, sh_cursor_off, sh_redraw_cmd, sh_prompt, blank,
  sh_cols, sh_cmd_max, sh_white, sh_cyan, sh_grey,
}
use samos.Shell.Eval.{Calls, Shell, prints, banner, version_line, sh_eval}

-- The table has 58 entries.
unfoldable pub sc_ascii : List ℕ
sc_ascii =
    0 ∷ 0 ∷ 49 ∷ 50 ∷ 51 ∷ 52 ∷ 53 ∷ 54 ∷ 55 ∷ 56 ∷ 57 ∷ 48 ∷ 45 ∷ 61 ∷ 0 ∷ 9 ∷ 113 ∷ 119 ∷ 101
    ∷ 114 ∷ 116 ∷ 121 ∷ 117 ∷ 105 ∷ 111 ∷ 112 ∷ 91 ∷ 93 ∷ 10 ∷ 0 ∷ 97 ∷ 115 ∷ 100 ∷ 102 ∷ 103 ∷ 104
    ∷ 106 ∷ 107 ∷ 108 ∷ 59 ∷ 39 ∷ 96 ∷ 0 ∷ 92 ∷ 122 ∷ 120 ∷ 99 ∷ 118 ∷ 98 ∷ 110 ∷ 109 ∷ 44 ∷ 46 ∷ 47
    ∷ 0 ∷ 42 ∷ 0 ∷ 32 ∷ []

unfoldable pub sc_ascii_shift : List ℕ
sc_ascii_shift =
    0 ∷ 0 ∷ 33 ∷ 64 ∷ 35 ∷ 36 ∷ 37 ∷ 94 ∷ 38 ∷ 42 ∷ 40 ∷ 41 ∷ 95 ∷ 43 ∷ 0 ∷ 9 ∷ 81 ∷ 87 ∷ 69 ∷ 82
    ∷ 84 ∷ 89 ∷ 85 ∷ 73 ∷ 79 ∷ 80 ∷ 123 ∷ 125 ∷ 10 ∷ 0 ∷ 65 ∷ 83 ∷ 68 ∷ 70 ∷ 71 ∷ 72 ∷ 74 ∷ 75 ∷ 76
    ∷ 58 ∷ 34 ∷ 126 ∷ 0 ∷ 124 ∷ 90 ∷ 88 ∷ 67 ∷ 86 ∷ 66 ∷ 78 ∷ 77 ∷ 60 ∷ 62 ∷ 63 ∷ 0 ∷ 42 ∷ 0 ∷ 32
    ∷ []

abbrev pub sc_up : ℕ
sc_up = 0x48

abbrev pub sc_down : ℕ
sc_down = 0x50

abbrev pub sc_back : ℕ
sc_back = 0x0E

abbrev pub sc_enter : ℕ
sc_enter = 0x1C

abbrev pub sc_caps : ℕ
sc_caps = 0x3A

-- SC_LSHIFT or SC_RSHIFT
abbrev pub is_shift : ℕ → Bool
is_shift sc = sc == 0x2A || sc == 0x36

abbrev pub is_lower : ℕ → Bool
is_lower c = leb b'a' c && leb c b'z'

abbrev pub is_upper : ℕ → Bool
is_upper c = leb b'A' c && leb c b'Z'

-- The two assignments to `c` for the caps lock, one after the other.
unfoldable pub caps_lower : Bool → ℕ → ℕ
caps_lower caps c = if caps && is_lower c then c - 32 else c

unfoldable pub caps_upper : Bool → Bool → ℕ → ℕ
caps_upper shift caps c = if caps && (is_upper c && not shift) then c + 32 else c

-- The character of a key, 0 if it has none.
unfoldable pub key_char : Bool → Bool → ℕ → ℕ
key_char shift caps sc =
    caps_upper shift caps
      (caps_lower caps (get_or (if shift then sc_ascii_shift else sc_ascii) sc 0))

pub data Event : Type 0 where
  blink : Event
  key extended : (sc : ℕ) → Event

module _ (fb : SamFb) where
  pub blink_cursor : Shell → Shell
  blink_cursor sh =
      if sh.cursor_visible
      then record sh { screen = sh_cursor_off fb sh.screen; cursor_visible = false }
      else record sh { screen = sh_cursor_on fb sh.screen; cursor_visible = true }

  pub hide_cursor : Shell → Shell
  hide_cursor sh =
      if sh.cursor_visible
      then record sh { screen = sh_cursor_off fb sh.screen; cursor_visible = false }
      else sh

  -- The command `back` steps back in the history becomes the line.
  pub recall : Shell → ℕ → List ℕ → Shell
  recall sh back line = record sh {
    hist_back = back;
    cmd = line;
    screen = sh_redraw_cmd fb sh.screen line;
  }

  pub history_older : Shell → Shell
  history_older sh =
      if ltb 0 (length sh.hist) && ltb sh.hist_back (length sh.hist)
      then recall sh (sh.hist_back + 1) (get_or sh.hist (length sh.hist - 1 - sh.hist_back) [])
      else sh

  pub history_newer : Shell → Shell
  history_newer sh =
      if ltb 1 sh.hist_back
      then recall sh (sh.hist_back - 1) (get_or sh.hist (length sh.hist - (sh.hist_back - 1)) [])
      else if sh.hist_back == 1
      then recall sh 0 []
      else sh

  pub on_extended : Shell → ℕ → Shell
  on_extended sh sc2 =
      if sc2 == sc_up then history_older sh else if sc2 == sc_down then history_newer sh else sh

  -- The cell before the cursor is blanked.
  pub erase_cell : Screen → Screen
  erase_cell s =
      let col = s.col - 1 in
      if fb.ready
      then record s {
        col = col;
        vram = fb_fill_rect fb s.vram (col * 8) (s.row * 16) 8 16 0x00000000;
      }
      else record s { col = col; vga = store8 s.vga (s.row * sh_cols + col) blank }

  pub on_back : Shell → Shell
  on_back sh =
      if length sh.cmd == 0
      then sh
      else record sh { cmd = drop_last sh.cmd; screen = erase_cell sh.screen }

  pub on_char : Shell → ℕ → Shell
  on_char sh c =
      if not (c == 0) && ltb (length sh.cmd) sh_cmd_max
      then record sh { cmd = sh.cmd ++ c ∷ []; screen = sh_putchar fb sh.screen c sh_white }
      else sh

  -- The state before the loop, on a screen with any contents.
  pub shell_start : Screen → Shell
  shell_start s = record {
    screen = sh_prompt fb (
        prints fb (sh_clear fb s) (
          (banner, sh_cyan)
          ∷ (version_line, sh_white)
          ∷ (banner, sh_cyan)
          ∷ (codes "  Type 'help' for available commands.\n", sh_grey)
          ∷ []));
    shift = false;
    caps = false;
    cmd = [];
    hist = [];
    hist_back = 0;
    cursor_visible = false;
    halted = false;
  }

module _ (fb : SamFb) (mcp : SamMcp) (bcfg : SamBootConfig) (calls : Calls) where
  pub on_enter : Shell → Shell
  on_enter sh =
      let sh' =
        sh_eval fb mcp bcfg calls (record sh { screen = sh_putchar fb sh.screen b'\n' sh_white }) in
      if sh'.halted
      then sh'
      else record sh' { cmd = []; hist_back = 0; screen = sh_prompt fb sh'.screen }

  pub on_key : Shell → ℕ → Shell
  on_key sh sc =
      if not (bit_and sc 0x80 == 0)
      then (if is_shift (bit_and sc 0x7F) then record sh { shift = false } else sh)
      else if is_shift sc
      then record sh { shift = true }
      else if sc == sc_caps
      then record sh { caps = not sh.caps }
      else if sc == sc_back
      then on_back fb sh
      else if sc == sc_enter
      then on_enter sh
      else if ltb sc 58
      then on_char fb sh (key_char sh.shift sh.caps sc)
      else sh

  -- One round of the loop. A code behind 0xE0 is an `extended` event, and 0xE0 itself none.
  pub on_event : Shell → Event → Shell
  on_event sh blink = blink_cursor fb sh
  on_event sh (key sc) = on_key (hide_cursor fb sh) sc
  on_event sh (extended sc2) = on_extended fb (hide_cursor fb sh) sc2

  -- The rounds that read these events; after `cmd_reboot` there are none.
  pub shell_loop : Shell → List Event → Shell
  shell_loop sh [] = sh
  shell_loop sh (e ∷ es) = let sh' = if sh.halted then sh else on_event sh e in shell_loop sh' es

  pub sam_shell_run : Screen → List Event → Shell
  sam_shell_run s es = shell_loop (shell_start fb s) es
