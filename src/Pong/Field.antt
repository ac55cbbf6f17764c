-- ===== src/Pong/Field.antt =====
-- The field: ball and paddles stay in it.
use samos.Base.{
  ℕ, ◌+◌, ◌-◌, ◌≤◌, ◌≡◌, ◌⊎◌, inl, inr, refl, arith, Bool, false, if◌then◌else◌, ◌&&◌, ltb, ◌==◌,
  if-cases, add32, sub32,
}
use samos.Pong.{
  irq0_handler, irq1_handler, paddle_lcol, paddle_rcol, PongState, Inputs, pong_init, pong_update,
  move_all, move_paddle, bounce, hit_left, hit_right, score_left_exit, score_right_exit, minus_one,
  slt, sle, on_paddle, play_top, play_bot, paddle_h, columns, ball_speed_ticks, pressed,
}

-- A velocity of one cell.
abbrev IsUnit : ℕ → Type 0
IsUnit d = (d ≡ 1) ⊎ (d ≡ minus_one)

-- The ball is between the side columns and in the play rows, the paddles lie in the play rows, and
-- the ball moves by one cell in both directions.
pub record IsInField (s : PongState) : Type 0 where
  pub left : 1 ≤ s.ball_x
  pub right : s.ball_x ≤ 78
  pub top : play_top ≤ s.ball_y
  pub bottom : s.ball_y ≤ play_bot
  pub unit_x : IsUnit s.ball_dx
  pub unit_y : IsUnit s.ball_dy
  pub l_top : play_top ≤ s.paddle_l
  pub l_bottom : s.paddle_l + paddle_h ≤ play_bot + 1
  pub r_top : play_top ≤ s.paddle_r
  pub r_bottom : s.paddle_r + paddle_h ≤ play_bot + 1

move_paddle-in :
    (up down : Bool) (p : ℕ)
    → play_top ≤ p
    → p + paddle_h ≤ play_bot + 1
    → (play_top ≤ move_paddle up down p) × (move_paddle up down p + paddle_h ≤ play_bot + 1)
unfolding move_paddle
move_paddle-in up down p t b = (ground arith, ground arith)

bounce-in :
    (y dy : ℕ)
    → y ≤ play_bot + 1
    → IsUnit dy
    → (play_top ≤ (bounce y dy).0) × ((bounce y dy).0 ≤ play_bot) × IsUnit (bounce y dy).1
unfolding bounce
bounce-in y dy l u =
    if-cases
      (λ (b : ℕ × ℕ). (play_top ≤ (again b).0) × ((again b).0 ≤ play_bot) × IsUnit (again b).1)
      (sle y play_top) (λ e. (omega arith, omega arith, inl refl))
      (λ e.
        if-cases (λ (b : ℕ × ℕ). (play_top ≤ b.0) × (b.0 ≤ play_bot) × IsUnit b.1) (sle play_bot y)
          (λ e'. (omega arith, omega arith, inr refl)) (λ e'. (ground arith, ground arith, u)))
  where
    again : ℕ × ℕ → ℕ × ℕ
    again (y1, dy1) = if sle play_bot y1 then (play_bot, minus_one) else (y1, dy1)

hit_left-IsUnit : (x y dx p : ℕ) → IsUnit dx → IsUnit (hit_left x y dx p)
unfolding hit_left
hit_left-IsUnit x y dx p u =
    if-cases IsUnit (x == paddle_lcol + 1 && (slt dx 0 && on_paddle y p)) (λ e. inl refl) (λ e. u)

hit_right-IsUnit : (x y dx p : ℕ) → IsUnit dx → IsUnit (hit_right x y dx p)
unfolding hit_right
hit_right-IsUnit x y dx p u =
    if-cases IsUnit (x == paddle_rcol - 1 && (slt 0 dx && on_paddle y p)) (λ e. inr refl) (λ e. u)

-- The same before the score is taken: the ball may be in a side column.
record IsMoved (s : PongState) : Type 0 where
  side : s.ball_x ≤ 79
  top : play_top ≤ s.ball_y
  bottom : s.ball_y ≤ play_bot
  unit_x : IsUnit s.ball_dx
  unit_y : IsUnit s.ball_dy
  l_top : play_top ≤ s.paddle_l
  l_bottom : s.paddle_l + paddle_h ≤ play_bot + 1
  r_top : play_top ≤ s.paddle_r
  r_bottom : s.paddle_r + paddle_h ≤ play_bot + 1

one_step : (x d : ℕ) → 1 ≤ x → x ≤ 78 → IsUnit d → add32 x d ≤ 79
one_step x d l r (inl e) = omega arith
one_step x d l r (inr e) = omega arith

one_row : (y d : ℕ) → play_top ≤ y → y ≤ play_bot → IsUnit d → add32 y d ≤ play_bot + 1
one_row y d l r (inl e) = omega arith
one_row y d l r (inr e) = omega arith

move_all-IsMoved : (i : Inputs) (s : PongState) → IsInField s → IsMoved (move_all i s)
unfolding move_all
move_all-IsMoved i s f =
    let b =
      bounce-in (add32 s.ball_y s.ball_dy) s.ball_dy
        (one_row s.ball_y s.ball_dy f.top f.bottom f.unit_y) f.unit_y in
    let l = move_paddle-in (pressed i 0) (pressed i 1) s.paddle_l f.l_top f.l_bottom in
    let r = move_paddle-in (pressed i 2) (pressed i 3) s.paddle_r f.r_top f.r_bottom in
    record {
      side = one_step s.ball_x s.ball_dx f.left f.right f.unit_x;
      top = b.0;
      bottom = b.1;
      unit_x = hit_right-IsUnit _ _ _ _ (hit_left-IsUnit _ _ _ _ f.unit_x);
      unit_y = b.2;
      l_top = l.0;
      l_bottom = l.1;
      r_top = r.0;
      r_bottom = r.1;
    }

-- After the left exit has been dealt with, the ball is not in column 0.
record IsRight (s : PongState) : Type 0 where
  moved : IsMoved s
  left : 1 ≤ s.ball_x

score_left_exit-IsRight : (s : PongState) → IsMoved s → IsRight (score_left_exit s)
unfolding score_left_exit
score_left_exit-IsRight s m =
    if-cases IsRight (sle s.ball_x 0)
      (λ e. record {
        moved = record {
          side = omega arith;
          top = omega arith;
          bottom = omega arith;
          unit_x = inl refl;
          unit_y = inl refl;
          l_top = m.l_top;
          l_bottom = m.l_bottom;
          r_top = m.r_top;
          r_bottom = m.r_bottom;
        };
        left = omega arith;
      })
      (λ e. record { moved = m; left = away s.ball_x m.side e })
  where
    away : (x : ℕ) → x ≤ 79 → sle x 0 ≡ false → 1 ≤ x
    away x l e = ground arith

score_right_exit-IsInField : (s : PongState) → IsRight s → IsInField (score_right_exit s)
unfolding score_right_exit
score_right_exit-IsInField s r =
    let m = r.moved in
    if-cases IsInField (sle (columns - 1) s.ball_x)
      (λ e. record {
        left = omega arith;
        right = omega arith;
        top = omega arith;
        bottom = omega arith;
        unit_x = inr refl;
        unit_y = inl refl;
        l_top = m.l_top;
        l_bottom = m.l_bottom;
        r_top = m.r_top;
        r_bottom = m.r_bottom;
      })
      (λ e. record {
        left = r.left;
        right = away s.ball_x m.side e;
        top = m.top;
        bottom = m.bottom;
        unit_x = m.unit_x;
        unit_y = m.unit_y;
        l_top = m.l_top;
        l_bottom = m.l_bottom;
        r_top = m.r_top;
        r_bottom = m.r_bottom;
      })
  where
    away : (x : ℕ) → x ≤ 79 → sle 79 x ≡ false → x ≤ 78
    away x l e = ground arith

pong_update-IsInField : (i : Inputs) (s : PongState) → IsInField s → IsInField (pong_update i s)
unfolding pong_update
pong_update-IsInField i s f =
    if-cases IsInField (ltb (sub32 i.game_ticks s.tick_last) ball_speed_ticks) (λ e. f)
      (λ e.
        score_right_exit-IsInField (score_left_exit (move_all i s))
          (score_left_exit-IsRight (move_all i s) (move_all-IsMoved i s f)))

pong_init-IsInField : IsInField pong_init
unfolding pong_init
pong_init-IsInField = record {
  left = omega arith;
  right = omega arith;
  top = omega arith;
  bottom = omega arith;
  unit_x = inl refl;
  unit_y = inl refl;
  l_top = omega arith;
  l_bottom = omega arith;
  r_top = omega arith;
  r_bottom = omega arith;
}

-- A game: from the start, with timer and keyboard interrupts and updates in any order.
pub data IsGame : Inputs → PongState → Type 0 where
  start : (i : Inputs) → IsGame i pong_init
  tick : {i : Inputs} {s : PongState} → IsGame i s → IsGame (irq0_handler i) s
  key : {i : Inputs} {s : PongState} (sc : ℕ) → IsGame i s → IsGame (irq1_handler sc i) s
  update : {i : Inputs} {s : PongState} → IsGame i s → IsGame i (pong_update i s)

-- In every state that a game reaches, whatever the keys and the ticks, the ball is inside the field
-- between the side columns, moves by one cell in both directions, and both paddles lie in the
-- play rows.
pub IsGame-IsInField : {i : Inputs} {s : PongState} → IsGame i s → IsInField s
IsGame-IsInField (start i) = pong_init-IsInField
IsGame-IsInField (tick g) = IsGame-IsInField g
IsGame-IsInField (key sc g) = IsGame-IsInField g
IsGame-IsInField (update {i = i} {s = s} g) = pong_update-IsInField i s (IsGame-IsInField g)
