-- ===== src/Kbd/Fifo.antt =====
-- The keyboard as a reader sees it: a queue of characters and a shift key, whatever the order in
-- which interrupts and reads come.
use samos.Base.{
  ℕ, ◌≡◌, ◌∙◌, ap, ap₂, sym, refl, arith, Bool, true, false, ◌&&◌, ◌||◌, ltb, ◌==◌, if◌then◌else◌,
  if-cases, ==_iff, List, [], ◌∷◌,
}
use mathlib.Core.Path.{subst}
use samos.Kbd.{Kbd, kbd_buf_push, kbd_buf_pop, map_char, ps2kbd_irq_handler, ps2_getchar}
use samos.Kbd.Queue.{
  IsRing, queue, push, pop, kbd_buf_push-IsRing, kbd_buf_pop-IsRing, queue-kbd_buf_push,
  queue-kbd_buf_pop,
}

-- What happens to the driver: a keyboard interrupt with a scancode, or a read.
pub data Event : Type 0 where
  scancode : ℕ → Event
  getchar : Event

-- The driver, and the characters that the reads return, 0 for none.
unfoldable pub run : Kbd → List Event → Kbd × List ℕ
run k [] = (k, [])
run k (scancode sc ∷ es) = run (ps2kbd_irq_handler k sc) es
run k (getchar ∷ es) =
    let (after, c) = ps2_getchar k in let rest = run after es in (rest.0, c ∷ rest.1)

-- The abstract keyboard: the state of shift after a scancode, the character of a scancode, 0 for
-- none, and a queue of at most 63 characters.
pub shift_after : Bool → ℕ → Bool
shift_after shift sc =
    (sc == 0x2A || sc == 0x36)
    || (shift && (if sc == 0xAA then false else (if sc == 0xB6 then false else true)))

pub typed : Bool → ℕ → ℕ
typed shift sc =
    if ltb sc 89 && (if sc == 0x2A || sc == 0x36 then false else true) then map_char shift sc else 0

pub enter : List ℕ → ℕ → List ℕ
enter q c = if c == 0 then q else push q c

pub run_queue : List ℕ → Bool → List Event → List ℕ × List ℕ
run_queue q shift [] = (q, [])
run_queue q shift (scancode sc ∷ es) =
    run_queue (enter q (typed shift sc)) (shift_after shift sc) es
run_queue q shift (getchar ∷ es) =
    let (left, c) = pop q in let rest = run_queue left shift es in (rest.0, c ∷ rest.1)

kbd_buf_push-shift : (k : Kbd) (c : ℕ) → (kbd_buf_push k c).shift ≡ k.shift
unfolding kbd_buf_push
kbd_buf_push-shift k c = ground arith

irq-shift : (k : Kbd) (sc : ℕ) → (ps2kbd_irq_handler k sc).shift ≡ shift_after k.shift sc
unfolding ps2kbd_irq_handler shift_after
irq-shift k sc = ground (arith, kbd_buf_push-shift k (map_char k.shift sc))

irq-IsRing : (k : Kbd) (sc : ℕ) → IsRing k → IsRing (ps2kbd_irq_handler k sc)
unfolding ps2kbd_irq_handler
irq-IsRing k sc r = ground (arith, kbd_buf_push-IsRing k (map_char k.shift sc) r)

enter-none : (q : List ℕ) → enter q 0 ≡ q
unfolding enter
enter-none q = refl

enter-char : (q : List ℕ) (c : ℕ) → (c == 0) ≡ false → enter q c ≡ push q c
unfolding enter
enter-char q c h = rw h refl

-- The character of each kind of scancode.
module _ (shift : Bool) (sc : ℕ) where
  typed-shift : (sc == 0x2A || sc == 0x36) ≡ true → typed shift sc ≡ 0
  unfolding typed
  typed-shift h = ground arith

  typed-break : (sc == 0xAA || sc == 0xB6) ≡ true → typed shift sc ≡ 0
  unfolding typed
  typed-break h = ground arith

  typed-other : (ltb sc 0x80 && ltb sc 89) ≡ false → typed shift sc ≡ 0
  unfolding typed
  typed-other h = ground arith

  typed-map :
      (sc == 0x2A || sc == 0x36) ≡ false
      → (ltb sc 0x80 && ltb sc 89) ≡ true
      → typed shift sc ≡ map_char shift sc
  unfolding typed
  typed-map h e = ground arith

irq-queue :
    (k : Kbd) (sc : ℕ)
    → IsRing k
    → queue (ps2kbd_irq_handler k sc) ≡ enter (queue k) (typed k.shift sc)
unfolding ps2kbd_irq_handler
irq-queue k sc r =
    if-cases goal (sc == 0x2A || sc == 0x36) (λ e. nothing (typed-shift k.shift sc e))
      (λ not_make.
        if-cases goal (sc == 0xAA || sc == 0xB6) (λ e. nothing (typed-break k.shift sc e))
          (λ _.
            if-cases goal (ltb sc 0x80 && ltb sc 89)
              (λ e.
                let t : typed k.shift sc ≡ map_char k.shift sc = typed-map k.shift sc not_make e in
                if-cases goal (map_char k.shift sc == 0)
                  (λ z. nothing (t ∙ (==_iff (map_char k.shift sc) 0).0 z))
                  (λ nz.
                    queue-kbd_buf_push k (map_char k.shift sc) r
                    ∙ sym (enter-char (queue k) (map_char k.shift sc) nz)
                    ∙ ap (enter (queue k)) (sym t)))
              (λ e. nothing (typed-other k.shift sc e))))
  where
    goal : Kbd → Type 0
    goal o = queue o ≡ enter (queue k) (typed k.shift sc)

    nothing : typed k.shift sc ≡ 0 → queue k ≡ enter (queue k) (typed k.shift sc)
    nothing z = sym (enter-none (queue k)) ∙ ap (enter (queue k)) (sym z)

getchar-shift : (k : Kbd) → (ps2_getchar k).0.shift ≡ k.shift
unfolding ps2_getchar kbd_buf_pop
getchar-shift k = ground arith

getchar-IsRing : (k : Kbd) → IsRing k → IsRing (ps2_getchar k).0
unfolding ps2_getchar
getchar-IsRing k r = kbd_buf_pop-IsRing k r

getchar-queue :
    (k : Kbd)
    → IsRing k
    → (queue (ps2_getchar k).0 ≡ (pop (queue k)).0) × ((ps2_getchar k).1 ≡ (pop (queue k)).1)
unfolding ps2_getchar
getchar-queue k r = (
  ap (λ (o : List ℕ × ℕ). o.0) (queue-kbd_buf_pop k r),
  ap (λ (o : List ℕ × ℕ). o.1) (queue-kbd_buf_pop k r),
)

-- The driver refines the abstract keyboard: after any sequence of interrupts and reads, the reads
-- have returned the same characters, and the same ones wait in the ring, as in a queue of at most
-- 63 characters into which each make code puts its character under the shift state at that time.
pub run-run_queue :
    (k : Kbd) (es : List Event)
    → IsRing k
    → ((run k es).1 ≡ (run_queue (queue k) k.shift es).1)
      × (queue (run k es).0 ≡ (run_queue (queue k) k.shift es).0)
unfolding run run_queue
run-run_queue k [] r = (refl, refl)
run-run_queue k (scancode sc ∷ es) r =
    let rest = run-run_queue (ps2kbd_irq_handler k sc) es (irq-IsRing k sc r) in
    subst
      (λ (s : List ℕ × Bool).
        ((run (ps2kbd_irq_handler k sc) es).1 ≡ (run_queue s.0 s.1 es).1)
        × (queue (run (ps2kbd_irq_handler k sc) es).0 ≡ (run_queue s.0 s.1 es).0))
      (ap₂ (λ q b. (q, b)) (irq-queue k sc r) (irq-shift k sc)) rest
run-run_queue k (getchar ∷ es) r =
    let (waits, taken) = getchar-queue k r in
    let rest =
      subst
        (λ (s : List ℕ × Bool).
          ((run (ps2_getchar k).0 es).1 ≡ (run_queue s.0 s.1 es).1)
          × (queue (run (ps2_getchar k).0 es).0 ≡ (run_queue s.0 s.1 es).0))
        (ap₂ (λ q b. (q, b)) waits (getchar-shift k))
        (run-run_queue (ps2_getchar k).0 es (getchar-IsRing k r)) in
    (ap₂ (λ c cs. c ∷ cs) taken rest.0, rest.1)
