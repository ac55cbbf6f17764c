-- ===== src/Sched/Tests.antt =====
-- Units of work that add their context to a number.
use samos.Base.{ℕ, ◌+◌, ◌≡◌, u32}
use samos.Sched.{sam_sched_init, sam_sched_submit, sam_sched_tick}
use samos.Sched.Cycle.{all_served, work_in_order, runnable_count, plain_call, sam_sched_tick-served}

abbrev add : ℕ → ℕ → ℕ → ℕ
add f c w = w + c

sam_sched_tick-served_example :
    sam_sched_tick (plain_call add) ((sam_sched_submit sam_sched_init 0x20 1 5).0, 7) ≡ (
      (
        record (sam_sched_submit sam_sched_init 0x20 1 5).0 {
          slots = all_served (sam_sched_submit sam_sched_init 0x20 1 5).0.slots;
          cycles = u32 ((sam_sched_submit sam_sched_init 0x20 1 5).0.cycles + 1);
        },
        work_in_order add (sam_sched_submit sam_sched_init 0x20 1 5).0.slots 7,
      ),
      runnable_count (sam_sched_submit sam_sched_init 0x20 1 5).0.slots,
    )
sam_sched_tick-served_example =
    sam_sched_tick-served add (sam_sched_submit sam_sched_init 0x20 1 5).0 7
