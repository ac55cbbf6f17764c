-- ===== src/Kbd.antt =====
-- kernel/ps2kbd.h: the ring buffer between the keyboard interrupt and its readers, the translation
-- of scancodes, and the line reader. What the interrupt handler reads from port 0x60 is its
-- argument.
pub mod Queue
pub mod Fifo
pub mod Line
mod Tests
use samos.Base.{
  ℕ, zero, suc, ◌+◌, ◌-◌, ◌%◌, Bool, true, false, ◌&&◌, ◌||◌, ltb, leb, ◌==◌, if◌then◌else◌, Option,
  some, none, List, [], ◌∷◌, ◌++◌, length, get_or, set, replicate, drop_last,
}

-- KBD_BUF_SIZE
abbrev pub kbd_buf_size : ℕ
kbd_buf_size = 64

-- `_kbd_buf`, `_kbd_head`, `_kbd_tail`, `_kbd_shift`
pub record Kbd : Type 0 where
  pub buf : List ℕ
  pub head : ℕ
  pub tail : ℕ
  pub shift : Bool

abbrev pub kbd_start : Kbd
kbd_start = record { buf = replicate kbd_buf_size 0; head = 0; tail = 0; shift = false }

pub kbd_buf_push : Kbd → ℕ → Kbd
kbd_buf_push k c =
    let next = (k.tail + 1) % kbd_buf_size in
    if next == k.head then k else record k { buf = set k.buf k.tail c; tail = next }

pub kbd_buf_pop : Kbd → Kbd × ℕ
kbd_buf_pop k =
    if k.head == k.tail
    then (k, 0)
    else (record k { head = (k.head + 1) % kbd_buf_size }, get_or k.buf k.head 0)

-- `_kbd_map_lo`
unfoldable pub kbd_map_lo : List ℕ
kbd_map_lo =
    0 ∷ 27 ∷ 49 ∷ 50 ∷ 51 ∷ 52 ∷ 53 ∷ 54 ∷ 55 ∷ 56 ∷ 57 ∷ 48 ∷ 45 ∷ 61 ∷ 8 ∷ 9 ∷ 113 ∷ 119 ∷ 101
    ∷ 114 ∷ 116 ∷ 121 ∷ 117 ∷ 105 ∷ 111 ∷ 112 ∷ 91 ∷ 93 ∷ 10 ∷ 0 ∷ 97 ∷ 115 ∷ 100 ∷ 102 ∷ 103 ∷ 104
    ∷ 106 ∷ 107 ∷ 108 ∷ 59 ∷ 39 ∷ 96 ∷ 0 ∷ 92 ∷ 122 ∷ 120 ∷ 99 ∷ 118 ∷ 98 ∷ 110 ∷ 109 ∷ 44 ∷ 46 ∷ 47
    ∷ 0 ∷ 42 ∷ 0 ∷ 32 ∷ 0 ∷ 0 ∷ 0 ∷ 0 ∷ 0 ∷ 0 ∷ 0 ∷ 0 ∷ 0 ∷ 0 ∷ 0 ∷ 0 ∷ 0 ∷ 55 ∷ 56 ∷ 57 ∷ 45 ∷ 52
    ∷ 53 ∷ 54 ∷ 43 ∷ 49 ∷ 50 ∷ 51 ∷ 48 ∷ 46 ∷ 0 ∷ 0 ∷ 0 ∷ 0 ∷ 0 ∷ []

-- `_kbd_map_hi`
unfoldable pub kbd_map_hi : List ℕ
kbd_map_hi =
    0 ∷ 27 ∷ 33 ∷ 64 ∷ 35 ∷ 36 ∷ 37 ∷ 94 ∷ 38 ∷ 42 ∷ 40 ∷ 41 ∷ 95 ∷ 43 ∷ 8 ∷ 9 ∷ 81 ∷ 87 ∷ 69 ∷ 82
    ∷ 84 ∷ 89 ∷ 85 ∷ 73 ∷ 79 ∷ 80 ∷ 123 ∷ 125 ∷ 10 ∷ 0 ∷ 65 ∷ 83 ∷ 68 ∷ 70 ∷ 71 ∷ 72 ∷ 74 ∷ 75 ∷ 76
    ∷ 58 ∷ 34 ∷ 126 ∷ 0 ∷ 124 ∷ 90 ∷ 88 ∷ 67 ∷ 86 ∷ 66 ∷ 78 ∷ 77 ∷ 60 ∷ 62 ∷ 63 ∷ 0 ∷ 42 ∷ 0 ∷ 32
    ∷ 0 ∷ 0 ∷ 0 ∷ 0 ∷ 0 ∷ 0 ∷ 0 ∷ 0 ∷ 0 ∷ 0 ∷ 0 ∷ 0 ∷ 0 ∷ 55 ∷ 56 ∷ 57 ∷ 45 ∷ 52 ∷ 53 ∷ 54 ∷ 43 ∷ 49
    ∷ 50 ∷ 51 ∷ 48 ∷ 46 ∷ 0 ∷ 0 ∷ 0 ∷ 0 ∷ 0 ∷ []

-- The character of a make code below 89, in either state of the shift key.
abbrev pub map_char : Bool → ℕ → ℕ
map_char shifted sc = get_or (if shifted then kbd_map_hi else kbd_map_lo) sc 0

-- The EOI that ends the handler is sent in every case.
pub ps2kbd_irq_handler : Kbd → ℕ → Kbd
ps2kbd_irq_handler k sc =
    if sc == 0x2A || sc == 0x36
    then record k { shift = true }
    else if sc == 0xAA || sc == 0xB6
    then record k { shift = false }
    else if ltb sc 0x80 && ltb sc 89
    then (if map_char k.shift sc == 0 then k else kbd_buf_push k (map_char k.shift sc))
    else k

pub ps2_getchar : Kbd → Kbd × ℕ
ps2_getchar k = kbd_buf_pop k

-- The loop of `ps2_readline` on the characters that `ps2_wait_char` returns, with the bytes that
-- stand in `buf` so far; `none` if the characters end before the line does. The second list is
-- what was echoed.
pub readline_loop : ℕ → List ℕ → List ℕ → List ℕ → Option (List ℕ × List ℕ)
readline_loop maxlen [] line echo = none
readline_loop maxlen (c ∷ cs) line echo =
    let erased = readline_loop maxlen cs (drop_last line) (echo ++ (8 ∷ 32 ∷ 8 ∷ [])) in
    let skipped = readline_loop maxlen cs line echo in
    let typed = readline_loop maxlen cs (line ++ (c ∷ [])) (echo ++ (c ∷ [])) in
    if c == 10 || c == 13
    then some (line, echo ++ (10 ∷ []))
    else if c == 8
    then (if ltb 0 (length line) then erased else skipped)
    else if leb 0x20 c && (ltb c 0x7F && ltb (length line + 1) maxlen)
    then typed
    else skipped

pub ps2_readline : ℕ → List ℕ → Option (List ℕ × List ℕ)
ps2_readline maxlen cs = readline_loop maxlen cs [] []
