-- ===== src/Pong.antt =====
-- kernel/game.h: the Pong game. An `int32_t` is its 32-bit word; the text screen is a memory of
-- cells, at row * 80 + column. The interrupt stubs are assembly.
pub mod Field
mod Tests
use samos.Base.{
  ℕ, zero, suc, ◌+◌, ◌-◌, ◌*◌, ◌/◌, ◌%◌, ◌^◌, Bool, true, false, ◌&&◌, ◌||◌, not, ltb, leb, ◌==◌,
  if◌then◌else◌, List, [], ◌∷◌, ◌++◌, get_or, set, replicate, Memory, store8, add32, sub32, bit_or,
  bit_and, u16, u32, ◌>>>◌,
}
use samos.Serial.{codes}

-- COLS, PLAY_TOP, PLAY_BOT, PADDLE_H, PADDLE_LCOL, PADDLE_RCOL, BALL_SPEED_TICKS
abbrev pub columns : ℕ
columns = 80

abbrev pub play_top : ℕ
play_top = 1

abbrev pub play_bot : ℕ
play_bot = 23

abbrev pub paddle_h : ℕ
paddle_h = 4

abbrev pub paddle_lcol : ℕ
paddle_lcol = 2

abbrev pub paddle_rcol : ℕ
paddle_rcol = 77

abbrev pub ball_speed_ticks : ℕ
ball_speed_ticks = 2

-- -1, and `<`, `<=` of `int32_t`
abbrev pub minus_one : ℕ
minus_one = 0xFFFFFFFF

abbrev pub slt : ℕ → ℕ → Bool
slt a b = ltb (add32 a 0x80000000) (add32 b 0x80000000)

abbrev pub sle : ℕ → ℕ → Bool
sle a b = leb (add32 a 0x80000000) (add32 b 0x80000000)

-- `pong_state_t`
pub record PongState : Type 0 where
  pub ball_x : ℕ
  pub ball_y : ℕ
  pub ball_dx : ℕ
  pub ball_dy : ℕ
  pub paddle_l : ℕ
  pub paddle_r : ℕ
  pub score_l : ℕ
  pub score_r : ℕ
  pub tick_last : ℕ

-- What the interrupt handlers write: `game_ticks`, `key_state` and `key_quit`.
pub record Inputs : Type 0 where
  pub game_ticks : ℕ
  pub key_state : List ℕ
  pub key_quit : ℕ

pub pong_init : PongState
pong_init = record {
  ball_x = columns / 2;
  ball_y = (play_top + play_bot) / 2;
  ball_dx = 1;
  ball_dy = 1;
  paddle_l = (play_top + play_bot) / 2 - paddle_h / 2;
  paddle_r = (play_top + play_bot) / 2 - paddle_h / 2;
  score_l = 0;
  score_r = 0;
  tick_last = 0;
}

-- The handlers, without the end-of-interrupt command; `sc` is the scan code read.
pub irq0_handler : Inputs → Inputs
irq0_handler i = record i { game_ticks = add32 i.game_ticks 1 }

pub irq1_handler : ℕ → Inputs → Inputs
irq1_handler sc i =
    if sc == 0x11
    then record i { key_state = set i.key_state 0 1 }
    else if sc == 0x91
    then record i { key_state = set i.key_state 0 0 }
    else if sc == 0x1F
    then record i { key_state = set i.key_state 1 1 }
    else if sc == 0x9F
    then record i { key_state = set i.key_state 1 0 }
    else if sc == 0x48
    then record i { key_state = set i.key_state 2 1 }
    else if sc == 0xC8
    then record i { key_state = set i.key_state 2 0 }
    else if sc == 0x50
    then record i { key_state = set i.key_state 3 1 }
    else if sc == 0xD0
    then record i { key_state = set i.key_state 3 0 }
    else if sc == 0x10
    then record i { key_quit = 1 }
    else i

-- One key of `key_state`, and a paddle under its two keys.
abbrev pub pressed : Inputs → ℕ → Bool
pressed i k = not (get_or i.key_state k 0 == 0)

pub move_paddle : Bool → Bool → ℕ → ℕ
move_paddle up down p =
    let q = if up && slt play_top p then sub32 p 1 else p in
    if down && slt (sub32 (add32 q paddle_h) 1) play_bot then add32 q 1 else q

-- The ball's row and vertical velocity after its move.
pub bounce : ℕ → ℕ → ℕ × ℕ
bounce y dy =
    let (y1, dy1) = if sle y play_top then (play_top, 1) else (y, dy) in
    if sle play_bot y1 then (play_bot, minus_one) else (y1, dy1)

-- The row is on the paddle.
abbrev pub on_paddle : ℕ → ℕ → Bool
on_paddle y p = sle p y && slt y (add32 p paddle_h)

-- The horizontal velocity after the left and the right paddle.
pub hit_left : ℕ → ℕ → ℕ → ℕ → ℕ
hit_left x y dx p = if x == paddle_lcol + 1 && (slt dx 0 && on_paddle y p) then 1 else dx

pub hit_right : ℕ → ℕ → ℕ → ℕ → ℕ
hit_right x y dx p = if x == paddle_rcol - 1 && (slt 0 dx && on_paddle y p) then minus_one else dx

abbrev pub serve : ℕ → PongState → PongState
serve dx s = record s {
  ball_x = columns / 2;
  ball_y = (play_top + play_bot) / 2;
  ball_dx = dx;
  ball_dy = 1;
}

-- The two tests for a score, the second on what the first leaves.
pub score_left_exit : PongState → PongState
score_left_exit s = if sle s.ball_x 0 then serve 1 (record s { score_r = add32 s.score_r 1 }) else s

pub score_right_exit : PongState → PongState
score_right_exit s =
    if sle (columns - 1) s.ball_x
    then serve minus_one (record s { score_l = add32 s.score_l 1 })
    else s

-- The paddles and the ball moved and bounced, before the scores.
pub move_all : Inputs → PongState → PongState
move_all i s =
    let pl = move_paddle (pressed i 0) (pressed i 1) s.paddle_l in
    let pr = move_paddle (pressed i 2) (pressed i 3) s.paddle_r in
    let x = add32 s.ball_x s.ball_dx in
    let y = bounce (add32 s.ball_y s.ball_dy) s.ball_dy in
    record s {
      tick_last = i.game_ticks;
      paddle_l = pl;
      paddle_r = pr;
      ball_x = x;
      ball_y = y.0;
      ball_dy = y.1;
      ball_dx = hit_right x y.0 (hit_left x y.0 s.ball_dx pl) pr;
    }

pub pong_update : Inputs → PongState → PongState
pong_update i s =
    if ltb (sub32 i.game_ticks s.tick_last) ball_speed_ticks
    then s
    else score_right_exit (score_left_exit (move_all i s))

-- The text screen. `row` and `col` are not negative where the code calls this.
pub vga_put : Memory → ℕ → ℕ → ℕ → ℕ → Memory
vga_put v row col c attr = store8 v (row * columns + col) (bit_or attr c)

-- for (col = col; left > 0; col++)
pub fill_cells : Memory → ℕ → ℕ → ℕ → ℕ → ℕ → Memory
fill_cells v row c attr col zero = v
fill_cells v row c attr col (suc left) =
    fill_cells (vga_put v row col c attr) row c attr (col + 1) left

pub vga_fill_row : Memory → ℕ → ℕ → ℕ → Memory
vga_fill_row v row c attr = fill_cells v row c attr 0 columns

pub clear_rows : Memory → ℕ → ℕ → Memory
clear_rows v r zero = v
clear_rows v r (suc left) = clear_rows (vga_fill_row v r 0x20 0) (r + 1) left

pub vga_clear_play : Memory → Memory
vga_clear_play v = clear_rows v play_top (play_bot + 1 - play_top)

pub vga_puts_at : Memory → ℕ → ℕ → List ℕ → ℕ → Memory
vga_puts_at v row col [] attr = v
vga_puts_at v row col (c ∷ s) attr = vga_puts_at (vga_put v row col c attr) row (col + 1) s attr

-- while (v && i > 0) { buf[--i] = '0' + (v % 10); v /= 10; }
pub dec_loop : ℕ → ℕ → List ℕ → List ℕ
dec_loop zero n buf = buf
dec_loop (suc i) n buf =
    let rest = dec_loop i (n / 10) ((48 + n % 10) ∷ buf) in if n == 0 then buf else rest

pub vga_putdec_at : Memory → ℕ → ℕ → ℕ → ℕ → Memory
vga_putdec_at v row col n attr =
    if n == 0 then vga_put v row col 48 attr else vga_puts_at v row col (dec_loop 11 n []) attr

-- The loop over the rows of a paddle.
pub draw_paddle : Memory → ℕ → ℕ → ℕ → ℕ → Memory
draw_paddle v p col i zero = v
draw_paddle v p col i (suc left) =
    let r = add32 p i in
    draw_paddle (if sle play_top r && sle r play_bot then vga_put v r col 0xDB 0x0A00 else v) p col
      (i + 1) left

pub draw_ball : Memory → PongState → Memory
draw_ball v s =
    if (sle play_top s.ball_y && sle s.ball_y play_bot) && (sle 0 s.ball_x && slt s.ball_x columns)
    then vga_put v s.ball_y s.ball_x 0xDB 0x0F00
    else v

pub pong_draw : Memory → PongState → Memory
pong_draw v s =
    let borders =
      vga_fill_row (vga_fill_row (vga_clear_play v) (play_top - 1) 0xCD 0x0B00) (play_bot + 1) 0xCD
        0x0B00 in
    let line = vga_puts_at (vga_fill_row borders 0 0x20 0) 0 28 (codes "SAM OS PONG  L:") 0x0E00 in
    let left = vga_putdec_at line 0 43 s.score_l 0x0F00 in
    let scores = vga_putdec_at (vga_puts_at left 0 45 (codes "R:") 0x0E00) 0 47 s.score_r 0x0F00 in
    let paddles =
      draw_paddle (draw_paddle scores s.paddle_l paddle_lcol 0 paddle_h) s.paddle_r paddle_rcol 0
        paddle_h in
    let status = vga_fill_row (draw_ball paddles s) 24 0x20 0 in
    vga_puts_at
      (vga_puts_at status 24 0 (codes "W/S: left paddle   UP/DOWN: right paddle   Q: quit") 0x0B00)
      24 55 (codes "SAM OS GAME domain 0x4200000") 0x0E00
