-- ===== src/Tasks/Ended.antt =====
-- The end of a task: what the interrupt records, what `sam_run_pair` does next, and what the timer
-- does with the task that ended.
use samos.Base.{
  ℕ, ◌+◌, ◌-◌, ◌<◌, ◌≡◌, refl, sym, arith, ◌∙◌, ap, Bool, true, false, ◌&&◌, ◌||◌, ◌==◌,
  if◌then◌else◌, Memory, get_or, length,
}
use samos.Tasks.{
  Frame, Tcb, zero_tcb, note_end, tell_end, Kernel, resume, await, task, sam_syscall_handler,
  sam_interrupt_dispatcher, from_user, EndReason, end_exit, end_fault, Pair, Pass, finished,
  resumed, await_pass,
}
use samos.Tasks.Invariant.{IsReady, mark_start_keeps}
use samos.Tasks.Switch.{
  IsUserTick, Steady, Steady-IsSame, Steady-IsReady, IsSame, tick, tick-IsReady, tick_switches,
  next_frame, switch_task-outcome, mark_start-task, mark_start-task_ne,
}

-- The interrupts that end a task: the exit call, and a page fault in ring 3.
pub data Ends (f : Frame) : EndReason → Type 0 where
  exits : f.vector ≡ 128 → f.rax ≡ 2 → Ends f end_exit
  faults : f.vector ≡ 14 → from_user f ≡ true → Ends f end_fault

-- What an ended task leaves.
record IsLeft (k k' : Kernel) (why : EndReason) : Type 0 where
  left_tasks : k'.tasks ≡ k.tasks
  left_entry : k'.entry ≡ k.entry
  left_stktop : k'.stktop ≡ k.stktop
  left_cur : k'.cur ≡ k.cur
  left_ntasks : k'.ntasks ≡ k.ntasks
  left_quantum : k'.quantum ≡ k.quantum
  left_idx : k'.end_idx ≡ k.cur
  left_reason : k'.end_reason ≡ why

end-IsLeft :
    (m : Memory) (k : Kernel) (f : Frame) (why : EndReason)
    → Ends f why
    → IsLeft k (sam_interrupt_dispatcher m k f).0 why × ((sam_interrupt_dispatcher m k f).1 ≡ await)
unfolding sam_interrupt_dispatcher sam_syscall_handler
end-IsLeft m k f _ (exits v a) =
    rw (v, a)
      (
        record {
          left_tasks = refl;
          left_entry = refl;
          left_stktop = refl;
          left_cur = refl;
          left_ntasks = refl;
          left_quantum = refl;
          left_idx = refl;
          left_reason = refl;
        },
        refl,
      )
end-IsLeft m k f _ (faults v u) =
    rw (v, u)
      (
        record {
          left_tasks = refl;
          left_entry = refl;
          left_stktop = refl;
          left_cur = refl;
          left_ntasks = refl;
          left_quantum = refl;
          left_idx = refl;
          left_reason = refl;
        },
        refl,
      )

-- `ended[i]`
abbrev pub ended : Pair → ℕ → Bool
ended p i = if i == 0 then p.ended0 else p.ended1

-- What the loop of `sam_run_pair` does when task `k.end_idx` has ended and the other has not.
record IsTurn (k : Kernel) (p : Pair) (r : Kernel × Pair × Pass) : Type 0 where
  turn_pass : r.2 ≡ resumed (next_frame k (1 - k.end_idx)) (task k (1 - k.end_idx)).cr3
  turn_cur : r.0.cur ≡ 1 - k.end_idx
  turn_ntasks : r.0.ntasks ≡ k.ntasks
  turn_quantum : r.0.quantum ≡ k.quantum
  turn_slots : length r.0.tasks ≡ length k.tasks
  turn_task : task r.0 k.end_idx ≡ task k k.end_idx
  turn_ended : ended r.1 k.end_idx ≡ true
  turn_other : ended r.1 (1 - k.end_idx) ≡ false

flags :
    (k : Kernel) (p : Pair)
    → k.end_idx < 2
    → ended p (1 - k.end_idx) ≡ false
    → ((note_end k p).ended0 && (note_end k p).ended1 ≡ false)
      × (ended (note_end k p) k.end_idx ≡ true)
      × (ended (note_end k p) (1 - k.end_idx) ≡ false)
flags k p idx alive = ground arith

pass-IsTurn :
    (k : Kernel) (p : Pair)
    → length k.tasks ≡ 2
    → k.end_idx < 2
    → ended p (1 - k.end_idx) ≡ false
    → IsTurn k p (await_pass k p)
unfolding await_pass
pass-IsTurn k p slots idx alive =
    let (one, mine, its) = flags k p idx alive in
    rw one (record {
      turn_pass =
          ap (λ t. resumed (Tcb.frame t) (Tcb.cr3 t))
            (mark_start-task (tell_end k) (1 - k.end_idx) (omega arith));
      turn_cur = refl;
      turn_ntasks = (mark_start_keeps (tell_end k) (1 - k.end_idx)).1;
      turn_quantum = (mark_start_keeps (tell_end k) (1 - k.end_idx)).2;
      turn_slots = (mark_start_keeps (tell_end k) (1 - k.end_idx)).0;
      turn_task = mark_start-task_ne (tell_end k) (1 - k.end_idx) k.end_idx (omega arith);
      turn_ended = mine;
      turn_other = its;
    })

both :
    (i : ℕ) (p : Pair)
    → i < 2
    → ended p (1 - i) ≡ true
    → ((p.ended0 || i == 0) && (p.ended1 || i == 1)) ≡ true
both i p c gone = ground arith

-- The task that runs ends while the other of two lives.
module _ (m : Memory) (k : Kernel) (f : Frame) (why : EndReason) (p : Pair) (r : IsReady k)
    (two : k.ntasks ≡ 2) (e : Ends f why) (alive : ended p (1 - k.cur) ≡ false) where
  abbrev left : Kernel
  left = (sam_interrupt_dispatcher m k f).0

  is_left : IsLeft k left why
  is_left = (end-IsLeft m k f why e).0

  turn : IsTurn left p (await_pass left p)
  turn =
      pass-IsTurn left p (ap length is_left.left_tasks ∙ r.slots)
        (rw is_left.left_idx (omega (arith, r.current, two))) (rw is_left.left_idx alive)

  abbrev after : Kernel × Pair × Pass
  after = await_pass left p

  after-pass : after.2 ≡ resumed (next_frame k (1 - k.cur)) (task k (1 - k.cur)).cr3
  after-pass =
      turn.turn_pass
      ∙ rw (is_left.left_idx, is_left.left_tasks, is_left.left_entry, is_left.left_stktop) refl

  after-cur : after.0.cur ≡ 1 - k.cur
  after-cur = turn.turn_cur ∙ ap (λ i. 1 - i) is_left.left_idx

  after-ntasks : after.0.ntasks ≡ 2
  after-ntasks = turn.turn_ntasks ∙ is_left.left_ntasks ∙ two

  after-ended : (ended after.1 k.cur ≡ true) × (ended after.1 (1 - k.cur) ≡ false)
  after-ended = (
    ap (ended after.1) (sym is_left.left_idx) ∙ turn.turn_ended,
    ap (λ i. ended after.1 (1 - i)) (sym is_left.left_idx) ∙ turn.turn_other,
  )

  after-task : task after.0 k.cur ≡ task k k.cur
  after-task =
      ap (task after.0) (sym is_left.left_idx)
      ∙ turn.turn_task
      ∙ rw (is_left.left_idx, is_left.left_tasks) refl

  after-IsReady : IsReady after.0
  after-IsReady = record {
    slots = turn.turn_slots ∙ ap length is_left.left_tasks ∙ r.slots;
    some_task = rw (turn.turn_ntasks, is_left.left_ntasks) r.some_task;
    two_tasks = rw (turn.turn_ntasks, is_left.left_ntasks) r.two_tasks;
    current =
        rw (turn.turn_cur, turn.turn_ntasks, is_left.left_ntasks, is_left.left_idx)
          (omega (arith, two, r.current));
    in_slice = rw (turn.turn_quantum, is_left.left_quantum) r.in_slice;
  }

-- A task that exits or page-faults in ring 3 never goes on by itself, and the pass of the pair
-- that follows marks it as ended and resumes the other of two tasks, which has not ended, where it
-- was left or from its start; the table stays well-formed.
pub survivor_resumes :
    (m : Memory) (k : Kernel) (f : Frame) (why : EndReason) (p : Pair)
    → IsReady k
    → k.ntasks ≡ 2
    → Ends f why
    → ended p (1 - k.cur) ≡ false
    → let step = sam_interrupt_dispatcher m k f in
      let pass = await_pass step.0 p in
      (step.1 ≡ await)
      × (pass.2 ≡ resumed (next_frame k (1 - k.cur)) (task k (1 - k.cur)).cr3)
      × (pass.0.cur ≡ 1 - k.cur)
      × (ended pass.1 k.cur ≡ true)
      × (ended pass.1 (1 - k.cur) ≡ false)
      × IsReady pass.0
survivor_resumes m k f why p r two e alive =
    let ends = after-ended m k f why p r two e alive in
    (
      (end-IsLeft m k f why e).1,
      after-pass m k f why p r two e alive,
      after-cur m k f why p r two e alive,
      ends.0,
      ends.1,
      after-IsReady m k f why p r two e alive,
    )

-- The timer does not know that a task has ended: after the pass that resumes the survivor, the
-- switch that ends the survivor's slice resumes the ended task again, with the frame that was saved
-- when it was last preempted, whatever system calls and ticks came in between.
pub ended_resumes :
    (m : Memory) (k k2 : Kernel) (f g : Frame) (why : EndReason) (p : Pair)
    → IsReady k
    → k.ntasks ≡ 2
    → Ends f why
    → ended p (1 - k.cur) ≡ false
    → (task k k.cur).started ≡ true
    → Steady m (await_pass (sam_interrupt_dispatcher m k f).0 p).0 k2
    → IsUserTick g
    → k2.quantum ≡ 2
    → (sam_interrupt_dispatcher m k2 g).1 ≡ resume (task k k.cur).frame (task k k.cur).cr3
ended_resumes m k k2 f g why p r two e alive st steady tg qg =
    ap (λ o. o.1) (tick_switches m k2 g tg r2.some_task qg)
    ∙ switch_task-outcome (tick k2) g (tick-IsReady k2 r2)
        (same.same_ntasks ∙ after-ntasks m k f why p r two e alive)
    ∙ rw (back, kept, st) refl
  where
    same : IsSame (await_pass (sam_interrupt_dispatcher m k f).0 p).0 k2
    same = Steady-IsSame steady

    r2 : IsReady k2
    r2 = Steady-IsReady steady (after-IsReady m k f why p r two e alive)

    back : 1 - k2.cur ≡ k.cur
    back =
        ap (λ c. 1 - c) (same.same_cur ∙ after-cur m k f why p r two e alive)
        ∙ omega (arith, r.current, two)

    kept : task k2 k.cur ≡ task k k.cur
    kept =
        ap (λ ts. get_or ts k.cur zero_tcb) same.same_tasks ∙ after-task m k f why p r two e alive

-- The loop of the pair stops when the second task ends: no task is in play any more, and what it
-- returns counts one more if that end was an exit.
pub pair_finishes :
    (m : Memory) (k : Kernel) (f : Frame) (why : EndReason) (p : Pair)
    → k.cur < 2
    → Ends f why
    → ended p (1 - k.cur) ≡ true
    → let pass = await_pass (sam_interrupt_dispatcher m k f).0 p in
      (pass.0.ntasks ≡ 0) × (pass.2 ≡ finished (elim why [ end_exit ↦ p.clean + 1 | _ ↦ p.clean ]))
unfolding await_pass
pair_finishes m k f why p c e gone =
    let l = (end-IsLeft m k f why e).0 in
    rw (l.left_idx, both k.cur p c gone)
      (refl, ap (λ w. finished (elim w [ end_exit ↦ p.clean + 1 | _ ↦ p.clean ])) l.left_reason)
