-- ===== src/Sched.antt =====
-- kernel/scheduler.h: the cooperative scheduler of the three domains. A work function is a pointer,
-- 0 for none, and what it does is a parameter: it takes its context, the scheduler's state, to which
-- it may submit again, and the rest of the machine. The slots are the list of the first `count`.
pub mod Cycle
mod Tests
use samos.Base.{
  ℕ, zero, suc, ◌+◌, ◌%◌, ◌^◌, Bool, true, false, not, ◌==◌, if◌then◌else◌, List, [], ◌∷◌, ◌++◌,
  length, get_or, set, u32,
}

-- `sched_slot_t`
pub record Slot : Type 0 where
  pub id : ℕ
  pub runnable : Bool
  pub work : ℕ
  pub ctx : ℕ
  pub quanta_run : ℕ
  pub name : List ℕ

-- `sam_scheduler_t`
pub record Scheduler : Type 0 where
  pub slots : List Slot
  pub current : ℕ
  pub cycles : ℕ

abbrev pub idle_slot : ℕ → List ℕ → Slot
idle_slot i n = record { id = i; runnable = false; work = 0; ctx = 0; quanta_run = 0; name = n }

-- The names "AI", "GAME" and "GEN".
pub sam_sched_init : Scheduler
sam_sched_init = record {
  slots =
      idle_slot 0x10 (65 ∷ 73 ∷ [])
      ∷ idle_slot 0x20 (71 ∷ 65 ∷ 77 ∷ 69 ∷ [])
      ∷ idle_slot 0x30 (71 ∷ 69 ∷ 78 ∷ [])
      ∷ [];
  current = 0;
  cycles = 0;
}

abbrev pub posted : Slot → ℕ → ℕ → Slot
posted s work ctx = record s { work = work; ctx = ctx; runnable = true }

-- The loop of `sam_sched_submit`; `false` is -1.
pub submit_loop : List Slot → ℕ → ℕ → ℕ → List Slot × Bool
submit_loop [] domain_id work ctx = ([], false)
submit_loop (s ∷ ss) domain_id work ctx =
    let rest = submit_loop ss domain_id work ctx in
    if Slot.id s == domain_id then (posted s work ctx ∷ ss, true) else (s ∷ rest.0, rest.1)

pub sam_sched_submit : Scheduler → ℕ → ℕ → ℕ → Scheduler × Bool
sam_sched_submit sched domain_id work ctx =
    let r = submit_loop sched.slots domain_id work ctx in (record sched { slots = r.0 }, r.1)

abbrev pub slot : Scheduler → ℕ → Slot
slot sched i = get_or sched.slots i (idle_slot 0 [])

-- s->runnable = 0;
abbrev pub claim : Scheduler → ℕ → Scheduler
claim sched i = record sched {
  slots = set sched.slots i (record (slot sched i) { runnable = false });
}

-- s->quanta_run++;
abbrev pub account : Scheduler → ℕ → Scheduler
account sched i = record sched {
  slots =
      set sched.slots i
        (record (slot sched i) { quanta_run = u32 ((slot sched i).quanta_run + 1) });
}

module _ {W : Type 0} (call : ℕ → ℕ → Scheduler × W → Scheduler × W) where
  -- One quantum of slot `i`.
  pub run_quantum : Scheduler × W → ℕ → Scheduler × W
  run_quantum (sched, w) i =
      let claimed = claim sched i in
      let (after, w') =
        if (slot claimed i).work == 0
        then (claimed, w)
        else call (slot claimed i).work (slot claimed i).ctx (claimed, w) in
      (account after i, w')

  -- The loop of `sam_sched_tick` from slot `i` on.
  pub tick_loop : Scheduler × W → ℕ → ℕ → ℕ → (Scheduler × W) × ℕ
  tick_loop st i zero ran = (st, ran)
  tick_loop st i (suc left) ran =
      let skipped = tick_loop st (i + 1) left ran in
      let rest = tick_loop (run_quantum st i) (i + 1) left (ran + 1) in
      if not (slot st.0 i).runnable then skipped else rest

  pub sam_sched_tick : Scheduler × W → (Scheduler × W) × ℕ
  sam_sched_tick st =
      let ((sched, w), ran) = tick_loop st 0 (length st.0.slots) 0 in
      ((record sched { cycles = u32 (sched.cycles + 1) }, w), ran)
