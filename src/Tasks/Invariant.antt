-- ===== src/Tasks/Invariant.antt =====
-- The task table is well-formed, and every interrupt keeps it so.
use samos.Base.{ℕ, ◌+◌, ◌%◌, ◌≤◌, ◌<◌, ◌≡◌, arith, ◌∙◌, true, Memory, length, length-set}
use samos.Tasks.{
  Frame, Kernel, task, save_frame, initial_frame, sam_task_mark_start, switch_task, timer_tick,
  sam_syscall_handler, sam_interrupt_dispatcher,
}

-- Two slots, one or two of them in play, the current one among those, and a quantum not used up.
pub record IsReady (k : Kernel) : Type 0 where
  pub slots : length k.tasks ≡ 2
  pub some_task : 0 < k.ntasks
  pub two_tasks : k.ntasks ≤ 2
  pub current : k.cur < k.ntasks
  pub in_slice : k.quantum < 3

pub mark_start-IsReady : (k : Kernel) (i : ℕ) → IsReady k → IsReady (sam_task_mark_start k i)
unfolding sam_task_mark_start
mark_start-IsReady k i r =
    ground (
      arith,
      length-set k.tasks i (record (task k i) { frame = initial_frame k i; started = true }),
    )

pub mark_start_keeps :
    (k : Kernel) (i : ℕ)
    → (length (sam_task_mark_start k i).tasks ≡ length k.tasks)
      × ((sam_task_mark_start k i).ntasks ≡ k.ntasks)
      × ((sam_task_mark_start k i).quantum ≡ k.quantum)
unfolding sam_task_mark_start
mark_start_keeps k i =
    ground (
      arith,
      length-set k.tasks i (record (task k i) { frame = initial_frame k i; started = true }),
    )

pub switch_task-IsReady : (k : Kernel) (f : Frame) → IsReady k → IsReady (switch_task k f).0
unfolding switch_task
switch_task-IsReady k f r =
    let next = (k.cur + 1) % k.ntasks in
    let keeps = mark_start_keeps (save_frame k f) next in
    record {
      slots = keeps.0 ∙ length-set k.tasks k.cur (record (task k k.cur) { frame = f }) ∙ r.slots;
      some_task = rw keeps.1 r.some_task;
      two_tasks = rw keeps.1 r.two_tasks;
      current = rw keeps.1 (grind (arith, r.some_task));
      in_slice = rw keeps.2 (omega arith);
    }

timer_tick-IsReady : (k : Kernel) (f : Frame) → IsReady k → IsReady (timer_tick k f).0
unfolding timer_tick
timer_tick-IsReady k f r = grind (arith, switch_task-IsReady)

syscall-IsReady :
    (m : Memory) (k : Kernel) (f : Frame) → IsReady k → IsReady (sam_syscall_handler m k f).0
unfolding sam_syscall_handler
syscall-IsReady m k f r = ground arith

-- Every interrupt, of any kind and from any ring, keeps the task table well-formed.
pub dispatcher-IsReady :
    (m : Memory) (k : Kernel) (f : Frame) → IsReady k → IsReady (sam_interrupt_dispatcher m k f).0
unfolding sam_interrupt_dispatcher
dispatcher-IsReady m k f r = ground (arith, timer_tick-IsReady k f r, syscall-IsReady m k f r)
