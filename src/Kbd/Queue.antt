-- ===== src/Kbd/Queue.antt =====
-- The ring buffer is a queue of at most 63 characters.
use samos.Base.{
  ℕ, zero, suc, ◌+◌, ◌-◌, ◌%◌, ◌<◌, ◌≡◌, ◌≢◌, refl, sym, ◌∙◌, ap, ap₂, arith, true, false, ◌==◌,
  if◌then◌else◌, if-cases, List, [], ◌∷◌, ◌++◌, length, get_or, set, length-set, get_or-set_self,
  get_or-set_ne, ltb,
}
use mathlib.Core.Path.{subst}
use samos.Kbd.{Kbd, kbd_buf_push, kbd_buf_pop}

pub record IsRing (k : Kbd) : Type 0 where
  pub slots : length k.buf ≡ 64
  pub head_in : k.head < 64
  pub tail_in : k.tail < 64

-- The characters that wait in the ring: how many, and which.
abbrev pub waiting : Kbd → ℕ
waiting k = (k.tail + 64 - k.head) % 64

abbrev pub ring_from : List ℕ → ℕ → ℕ → List ℕ
ring_from buf i zero = []
ring_from buf i (suc n) = get_or buf i 0 ∷ ring_from buf ((i + 1) % 64) n

abbrev pub queue : Kbd → List ℕ
queue k = ring_from k.buf k.head (waiting k)

length-ring_from : (buf : List ℕ) (i n : ℕ) → length (ring_from buf i n) ≡ n
length-ring_from buf i zero = refl
length-ring_from buf i (suc n) = ap suc (length-ring_from buf ((i + 1) % 64) n)

pub length-queue : (k : Kbd) → length (queue k) ≡ waiting k
length-queue k = length-ring_from k.buf k.head (waiting k)

-- A write just behind the characters appends to them.
ring_from-set :
    (buf : List ℕ) (i n c : ℕ)
    → length buf ≡ 64
    → i < 64
    → n < 64
    → ring_from (set buf ((i + n) % 64) c) i (n + 1) ≡ ring_from buf i n ++ (c ∷ [])
ring_from-set buf i zero c len h l =
    let here : (i + 0) % 64 ≡ i = omega arith in
    rw here (ap (λ x. x ∷ []) (get_or-set_self buf i c 0 (omega arith)))
ring_from-set buf i (suc n) c len h l =
    let one_more : suc n + 1 ≡ suc (n + 1) = omega arith in
    let from_next : (i + suc n) % 64 ≡ ((i + 1) % 64 + n) % 64 = omega arith in
    let other : (i + suc n) % 64 ≢ i = omega arith in
    rw one_more (
      ap₂ (λ x xs. x ∷ xs) (get_or-set_ne buf ((i + suc n) % 64) i c 0 other)
        (ap (λ j. ring_from (set buf j c) ((i + 1) % 64) (n + 1)) from_next
          ∙ ring_from-set buf ((i + 1) % 64) n c len (omega arith) (omega arith)))

-- The ring stays well-formed.
pub kbd_buf_push-IsRing : (k : Kbd) (c : ℕ) → IsRing k → IsRing (kbd_buf_push k c)
unfolding kbd_buf_push
kbd_buf_push-IsRing k c r =
    if-cases IsRing ((k.tail + 1) % 64 == k.head) (λ _. r)
      (λ _. record {
        slots = length-set k.buf k.tail c ∙ r.slots;
        head_in = r.head_in;
        tail_in = omega arith;
      })

pub kbd_buf_pop-IsRing : (k : Kbd) → IsRing k → IsRing (kbd_buf_pop k).0
unfolding kbd_buf_pop
kbd_buf_pop-IsRing k r =
    if-cases (λ (o : Kbd × ℕ). IsRing o.0) (k.head == k.tail) (λ _. r)
      (λ _. record { slots = r.slots; head_in = omega arith; tail_in = r.tail_in })

-- What a push and a pop of a queue of at most 63 characters do.
abbrev pub push : List ℕ → ℕ → List ℕ
push q c = if ltb (length q) 63 then q ++ (c ∷ []) else q

abbrev pub pop : List ℕ → List ℕ × ℕ
pop [] = ([], 0)
pop (c ∷ q) = (q, c)

-- A pushed character comes behind those that wait, and is dropped if 63 wait already.
pub queue-kbd_buf_push : (k : Kbd) (c : ℕ) → IsRing k → queue (kbd_buf_push k c) ≡ push (queue k) c
unfolding kbd_buf_push
queue-kbd_buf_push k c r =
    if-cases (λ o. queue o ≡ push (queue k) c) ((k.tail + 1) % 64 == k.head)
      (λ full.
        let no_room : ltb (length (queue k)) 63 ≡ false =
          ground (arith, length-queue k, r.head_in, r.tail_in) in
        rw no_room refl)
      (λ room.
        let fits : ltb (length (queue k)) 63 ≡ true =
          ground (arith, length-queue k, r.head_in, r.tail_in) in
        rw fits (
          ap₂ (λ j n. ring_from (set k.buf j c) k.head n) at_tail (one_more (λ e. ground arith))
          ∙ ring_from-set k.buf k.head (waiting k) c r.slots r.head_in (omega arith)))
  where
    at_tail : k.tail ≡ (k.head + waiting k) % 64
    at_tail = omega (arith, r.head_in, r.tail_in)

    one_more : (k.tail + 1) % 64 ≢ k.head → ((k.tail + 1) % 64 + 64 - k.head) % 64 ≡ waiting k + 1
    one_more ne = omega (arith, r.head_in, r.tail_in)

-- A pop takes the first character that waits, and gives 0 if there is none.
pub queue-kbd_buf_pop :
    (k : Kbd) → IsRing k → (queue (kbd_buf_pop k).0, (kbd_buf_pop k).1) ≡ pop (queue k)
unfolding kbd_buf_pop
queue-kbd_buf_pop k r =
    if-cases (λ (o : Kbd × ℕ). (queue o.0, o.1) ≡ pop (queue k)) (k.head == k.tail)
      (λ empty.
        let z : waiting k ≡ 0 = ground (arith, r.head_in, r.tail_in) in
        subst (λ n. (ring_from k.buf k.head n, 0) ≡ pop (ring_from k.buf k.head n)) (sym z) refl)
      (λ some_wait.
        let left = (k.tail + 64 - (k.head + 1) % 64) % 64 in
        let one_less : waiting k ≡ suc left = ground (arith, r.head_in, r.tail_in) in
        subst
          (λ n.
            (ring_from k.buf ((k.head + 1) % 64) left, get_or k.buf k.head 0)
            ≡ pop (ring_from k.buf k.head n))
          (sym one_less) refl)
