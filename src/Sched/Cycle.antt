-- ===== src/Sched/Cycle.antt =====
-- A cycle runs every posted unit of work once, in the order of the slots.
use samos.Base.{
  ℕ, ◌+◌, ◌<◌, ◌≡◌, refl, sym, ◌∙◌, ap, ap₂, arith, true, false, not, ◌==◌, if◌then◌else◌, ne→==,
  Bool-cases, inl, inr, List, [], ◌∷◌, ◌++◌, length, length-append, get_or, set, u32,
}
use mathlib.Core.List.{append_assoc}
use samos.Sched.{
  Slot, Scheduler, idle_slot, run_quantum, tick_loop, sam_sched_tick, submit_loop, sam_sched_submit,
}

-- A slot after its cycle.
abbrev pub served : Slot → Slot
served s =
    if s.runnable then record s { runnable = false; quanta_run = u32 (s.quanta_run + 1) } else s

abbrev pub all_served : List Slot → List Slot
all_served [] = []
all_served (s ∷ ss) = served s ∷ all_served ss

abbrev pub runnable_count : List Slot → ℕ
runnable_count [] = 0
runnable_count (s ∷ ss) = if Slot.runnable s then 1 + runnable_count ss else runnable_count ss

get_or-middle : (xs ys : List Slot) (s d : Slot) → get_or (xs ++ (s ∷ ys)) (length xs) d ≡ s
get_or-middle [] ys s d = refl
get_or-middle (x ∷ xs) ys s d = get_or-middle xs ys s d

set-middle : (xs ys : List Slot) (s t : Slot) → set (xs ++ (s ∷ ys)) (length xs) t ≡ xs ++ (t ∷ ys)
set-middle [] ys s t = refl
set-middle (x ∷ xs) ys s t = ap (λ l. x ∷ l) (set-middle xs ys s t)

-- The effect of the work alone: each posted unit with a function, in order.
module _ {W : Type 0} (effect : ℕ → ℕ → W → W) where
  abbrev pub work_in_order : List Slot → W → W
  work_in_order [] w = w
  work_in_order (s ∷ ss) w = work_in_order ss (
      if Slot.runnable s
      then (if Slot.work s == 0 then w else effect (Slot.work s) (Slot.ctx s) w)
      else w)

  -- Work that leaves the scheduler alone.
  abbrev pub plain_call : ℕ → ℕ → Scheduler × W → Scheduler × W
  plain_call f c st = (st.0, effect f c st.1)

  run_quantum-eq :
      (pre post : List Slot) (s : Slot) (sched : Scheduler) (w : W)
      → s.runnable ≡ true
      → run_quantum plain_call (record sched { slots = pre ++ (s ∷ post) }, w) (length pre) ≡ (
        record sched { slots = pre ++ (served s ∷ post) },
        if s.work == 0 then w else effect s.work s.ctx w,
      )
  unfolding run_quantum
  run_quantum-eq pre post s sched w r =
      let c : Slot = record s { runnable = false } in
      let d : Slot = record c { quanta_run = u32 (s.quanta_run + 1) } in
      elim (Bool-cases (s.work == 0)) [
        | inl z ↦
            rw
              (
                get_or-middle pre post s (idle_slot 0 []),
                set-middle pre post s c,
                get_or-middle pre post c (idle_slot 0 []),
                z,
                r,
                get_or-middle pre post c (idle_slot 0 []),
                set-middle pre post c d,
              )
              refl
        | inr z ↦
            rw
              (
                get_or-middle pre post s (idle_slot 0 []),
                set-middle pre post s c,
                get_or-middle pre post c (idle_slot 0 []),
                z,
                r,
                get_or-middle pre post c (idle_slot 0 []),
                set-middle pre post c d,
              )
              refl
      ]

  -- The loop at the slot behind `pre`, once that slot has become `t`.
  next_slot :
      (pre post : List Slot) (t : Slot) (sched : Scheduler) (w w' : W) (n ran ran' : ℕ)
      → tick_loop plain_call
          (record sched { slots = (pre ++ (t ∷ [])) ++ post }, w)
          (length (pre ++ (t ∷ [])))
          n
          ran
        ≡ ((record sched { slots = (pre ++ (t ∷ [])) ++ all_served post }, w'), ran')
      → tick_loop plain_call (record sched { slots = pre ++ (t ∷ post) }, w) (length pre + 1) n ran
        ≡ ((record sched { slots = pre ++ (t ∷ all_served post) }, w'), ran')
  next_slot pre post t sched w w' n ran ran' h =
      ap₂ (λ l i. tick_loop plain_call (record sched { slots = l }, w) i n ran)
        (sym (append_assoc pre (t ∷ []) post)) (sym (length-append pre (t ∷ [])))
      ∙ h
      ∙ ap (λ l. ((record sched { slots = l }, w'), ran'))
          (append_assoc pre (t ∷ []) (all_served post))

  tick_loop-served :
      (pre post : List Slot) (sched : Scheduler) (w : W) (ran : ℕ)
      → tick_loop plain_call
          (record sched { slots = pre ++ post }, w)
          (length pre)
          (length post)
          ran
        ≡ (
          (record sched { slots = pre ++ all_served post }, work_in_order post w),
          ran + runnable_count post,
        )
  unfolding tick_loop
  tick_loop-served pre [] sched w ran =
      ap (λ n. ((record sched { slots = pre ++ [] }, w), n)) (omega arith)
  tick_loop-served pre (s ∷ post) sched w ran = elim (Bool-cases s.runnable) [
    | inl r ↦
        ap (λ b. if not b then skipped else ran_one)
          (ap Slot.runnable (get_or-middle pre post s (idle_slot 0 [])) ∙ r)
        ∙ ap (λ st. tick_loop plain_call st (length pre + 1) (length post) (ran + 1))
            (run_quantum-eq pre post s sched w r)
        ∙ next_slot pre post (served s) sched w1 (work_in_order post w1) (length post) (ran + 1)
            (ran + 1 + runnable_count post)
            (tick_loop-served (pre ++ (served s ∷ [])) post sched w1 (ran + 1))
        ∙ ap₂ (λ x n. ((record sched { slots = pre ++ (served s ∷ all_served post) }, x), n))
            (ap (λ b. work_in_order post (if b then w1 else w)) (sym r)) (rw r (omega arith))
    | inr r ↦
        ap (λ b. if not b then skipped else ran_one)
          (ap Slot.runnable (get_or-middle pre post s (idle_slot 0 [])) ∙ r)
        ∙ next_slot pre post s sched w (work_in_order post w) (length post) ran
            (ran + runnable_count post) (tick_loop-served (pre ++ (s ∷ [])) post sched w ran)
        ∙ ap
            (λ b. (
              (
                record sched { slots = pre ++ ((if b then done else s) ∷ all_served post) },
                work_in_order post (if b then w1 else w),
              ),
              ran + (if b then 1 + runnable_count post else runnable_count post),
            ))
            (sym r)
  ]
    where
      here : Scheduler
      here = record sched { slots = pre ++ (s ∷ post) }

      done : Slot
      done = record s { runnable = false; quanta_run = u32 (s.quanta_run + 1) }

      w1 : W
      w1 = if s.work == 0 then w else effect s.work s.ctx w

      skipped : (Scheduler × W) × ℕ
      skipped = tick_loop plain_call (here, w) (length pre + 1) (length post) ran

      ran_one : (Scheduler × W) × ℕ
      ran_one =
          tick_loop plain_call (run_quantum plain_call (here, w) (length pre)) (length pre + 1)
            (length post) (ran + 1)

  -- A cycle, with work that leaves the scheduler alone: each posted unit runs exactly once, in the
  -- order of the slots, and nothing else runs; afterwards no slot is runnable, the count of quanta
  -- of each slot that ran is one higher, the cycle is counted, and the number of units is returned.
  pub sam_sched_tick-served :
      (sched : Scheduler) (w : W)
      → sam_sched_tick plain_call (sched, w) ≡ (
        (
          record sched { slots = all_served sched.slots; cycles = u32 (sched.cycles + 1) },
          work_in_order sched.slots w,
        ),
        runnable_count sched.slots,
      )
  unfolding sam_sched_tick
  sam_sched_tick-served sched w =
      ap
        (λ (r : (Scheduler × W) × ℕ).
          ((record r.0.0 { cycles = u32 (r.0.0.cycles + 1) }, r.0.1), r.1))
        (tick_loop-served [] sched.slots sched w 0)
      ∙ ap
          (λ n. (
            (
              record sched { slots = all_served sched.slots; cycles = u32 (sched.cycles + 1) },
              work_in_order sched.slots w,
            ),
            n,
          ))
          (omega arith)

  work_in_order-idle : (ss : List Slot) (w : W) → runnable_count ss ≡ 0 → work_in_order ss w ≡ w
  work_in_order-idle [] w h = refl
  work_in_order-idle (s ∷ ss) w h =
      let idle : s.runnable ≡ false = ground arith in
      rw idle (work_in_order-idle ss w (ground arith))

  submit_loop-only :
      (ss : List Slot) (id f c : ℕ) (w : W)
      → runnable_count ss ≡ 0
      → 0 < f
      → (submit_loop ss id f c).1 ≡ true
      → (runnable_count (submit_loop ss id f c).0 ≡ 1)
        × (work_in_order (submit_loop ss id f c).0 w ≡ effect f c w)
  unfolding submit_loop
  submit_loop-only [] id f c w h p e = absurd (ground arith)
  submit_loop-only (s ∷ ss) id f c w h p e =
      let idle : s.runnable ≡ false = ground arith in
      let left : runnable_count ss ≡ 0 = ground arith in
      elim (Bool-cases (s.id == id)) [
        | inl here ↦
            rw (here, ne→== f 0 (omega arith))
              (omega (arith, left), work_in_order-idle ss (effect f c w) left)
        | inr other ↦
            let found : (submit_loop ss id f c).1 ≡ true = rw other at e in
            rw (other, idle) (submit_loop-only ss id f c w left p found)
      ]

  -- A unit posted while nothing else is posted is what the next cycle runs, once and with its
  -- context, whatever domain it was posted to; the domain is known and the function not null.
  pub submit-tick :
      (sched : Scheduler) (id f c : ℕ) (w : W)
      → runnable_count sched.slots ≡ 0
      → 0 < f
      → (sam_sched_submit sched id f c).1 ≡ true
      → let r = sam_sched_tick plain_call ((sam_sched_submit sched id f c).0, w) in
        (r.1 ≡ 1) × (r.0.1 ≡ effect f c w)
  unfolding sam_sched_submit
  submit-tick sched id f c w h p e =
      let served_so = sam_sched_tick-served (sam_sched_submit sched id f c).0 w in
      let only = submit_loop-only sched.slots id f c w h p e in
      (
        ap (λ (r : (Scheduler × W) × ℕ). r.1) served_so ∙ only.0,
        ap (λ (r : (Scheduler × W) × ℕ). r.0.1) served_so ∙ only.1,
      )
