-- ===== src/Kbd/Tests.antt =====
-- Keys pressed one after the other, and a line with a correction.
use samos.Base.{◌≡◌, refl, arith, false, some, List, [], ◌∷◌}
use samos.Kbd.{
  kbd_start, kbd_map_lo, kbd_map_hi, kbd_buf_push, kbd_buf_pop, ps2kbd_irq_handler, ps2_getchar,
  ps2_readline, readline_loop,
}
use samos.Kbd.Queue.{IsRing, queue}
use samos.Kbd.Fifo.{Event, scancode, getchar, run, run_queue, run-run_queue}

-- Shift and `a`, then shift released and `b`, and three reads.
abbrev keys : List Event
keys =
    scancode 0x2A ∷ scancode 0x1E ∷ scancode 0xAA ∷ scancode 0x30 ∷ getchar ∷ getchar ∷ getchar ∷ []

keys-run : (run kbd_start keys).1 ≡ 65 ∷ 98 ∷ 0 ∷ []
unfolding run ps2kbd_irq_handler kbd_map_lo kbd_map_hi kbd_buf_push ps2_getchar kbd_buf_pop
keys-run = refl

kbd_start-IsRing : IsRing kbd_start
kbd_start-IsRing = record { slots = refl; head_in = omega arith; tail_in = omega arith }

run-run_queue_example :
    ((run kbd_start keys).1 ≡ (run_queue [] false keys).1)
    × (queue (run kbd_start keys).0 ≡ (run_queue [] false keys).0)
run-run_queue_example = run-run_queue kbd_start keys kbd_start-IsRing

-- `x`, erased, then `hi`.
corrected :
    ps2_readline 8 (120 ∷ 8 ∷ 104 ∷ 105 ∷ 13 ∷ [])
    ≡ some (104 ∷ 105 ∷ [], 120 ∷ 8 ∷ 32 ∷ 8 ∷ 104 ∷ 105 ∷ 10 ∷ [])
unfolding ps2_readline readline_loop
corrected = refl
