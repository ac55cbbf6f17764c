-- ===== src/Pong/Tests.antt =====
-- A few moves of a game.
use samos.Base.{◌≡◌, refl, replicate}
use samos.Pong.{
  PongState, Inputs, pong_init, pong_update, move_all, move_paddle, bounce, hit_left, hit_right,
  score_left_exit, score_right_exit, irq0_handler, irq1_handler, vga_put, minus_one, draw_ball,
}
use samos.Pong.Field.{start, tick, key, update, IsInField, IsGame-IsInField}

abbrev idle : Inputs
idle = record { game_ticks = 0; key_state = replicate 4 0; key_quit = 0 }

abbrev two_ticks : Inputs
unfolding irq0_handler irq1_handler
two_ticks = irq1_handler 0x11 (irq0_handler (irq0_handler idle))

abbrev second : PongState
unfolding irq0_handler irq1_handler
second = pong_update two_ticks pong_init

moved : (second.ball_x ≡ 41) × (second.ball_y ≡ 13) × (second.paddle_l ≡ 9) × (second.paddle_r ≡ 10)
unfolding pong_update pong_init move_all move_paddle bounce hit_left hit_right score_left_exit
    score_right_exit irq0_handler irq1_handler
moved = (refl, refl, refl, refl)

-- At the left wall the right player scores and the ball is served to the right.
exits :
    let s = score_left_exit (record pong_init { ball_x = 0; ball_dx = minus_one }) in
    (s.score_r ≡ 1) × (s.ball_x ≡ 40) × (s.ball_dx ≡ 1)
unfolding score_left_exit pong_init
exits = (refl, refl, refl)

drawn : draw_ball (λ a. 0) pong_init 1000 ≡ 0x0FDB
unfolding draw_ball pong_init vga_put
drawn = refl

-- The witness.
IsGame-IsInField_example : IsInField second
unfolding irq0_handler irq1_handler
IsGame-IsInField_example = IsGame-IsInField (update (key 0x11 (tick (tick (start idle)))))
