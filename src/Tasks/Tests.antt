-- ===== src/Tasks/Tests.antt =====
-- A pair of tasks at the addresses that `sam_run_pair` gives them, run through slices, calls and ends.
use samos.Base.{ℕ, ◌<◌, ◌≡◌, refl, arith, true, false, [], ◌∷◌, Memory}
use samos.Tasks.{
  Frame, zero_frame, Tcb, zero_tcb, Kernel, resume, await, sam_interrupt_dispatcher,
  sam_task_mark_start, end_none, end_exit, Pair, resumed, await_pass, switch_task, timer_tick,
  sam_syscall_handler,
}
use samos.Tasks.Invariant.{IsReady, dispatcher-IsReady}
use samos.Tasks.Switch.{IsUserTick, Steady, stay, goes_on, next_frame, preempted_resumes}
use samos.Tasks.Ended.{exits, ended, survivor_resumes, ended_resumes}

abbrev first_task : Tcb
first_task = record {
  frame = record zero_frame { rip = 0x19000040; cs = 0x1B };
  cr3 = 0x18400000;
  started = true;
}

abbrev second_task : Tcb
second_task = record zero_tcb { cr3 = 0x18403000 }

-- Task 0 runs, task 1 waits for its first slice.
abbrev pair : ℕ → Kernel
pair q = record {
  tasks = first_task ∷ second_task ∷ [];
  entry = 0x19000000 ∷ 0x19500000 ∷ [];
  stktop = 0x193ffff0 ∷ 0x198ffff0 ∷ [];
  ntasks = 2;
  cur = 0;
  end_idx = 0;
  end_reason = end_none;
  exit_code = 0;
  preempt_count = 0;
  tick_count = 0;
  quantum = q;
  serial = [];
}

abbrev timer_frame : ℕ → Frame
timer_frame at = record zero_frame { vector = 32; rip = at; cs = 0x1B }

abbrev call_frame : ℕ → ℕ → ℕ → ℕ → Frame
call_frame a d s n = record zero_frame {
  vector = 128;
  rax = a;
  rdi = d;
  rsi = s;
  rdx = n;
  cs = 0x1B;
}

-- The letter `A` at every address.
abbrev letters : Memory
letters = λ x. 65

abbrev fresh_pair : Pair
fresh_pair = record { ended0 = false; ended1 = false; clean = 0 }

pair-IsReady : (q : ℕ) → q < 3 → IsReady (pair q)
pair-IsReady q h = record {
  slots = refl;
  some_task = omega arith;
  two_tasks = omega arith;
  current = omega arith;
  in_slice = h;
}

timer_frame-IsUserTick : (at : ℕ) → IsUserTick (timer_frame at)
timer_frame-IsUserTick at = record { timer = refl; user = refl }

dispatcher-IsReady_example :
    IsReady (sam_interrupt_dispatcher letters (pair 2) (timer_frame 0x19000044)).0
dispatcher-IsReady_example =
    dispatcher-IsReady letters (pair 2) (timer_frame 0x19000044) (pair-IsReady 2 (omega arith))

-- The switch to task 1, and the two ticks of its slice that do not switch back.
abbrev switched : Kernel
switched = (sam_interrupt_dispatcher letters (pair 2) (timer_frame 0x19000044)).0

abbrev ticked : Kernel → Kernel
ticked k = (sam_interrupt_dispatcher letters k (timer_frame 7)).0

two_ticks : Steady letters switched (ticked (ticked switched))
unfolding sam_interrupt_dispatcher timer_tick switch_task sam_task_mark_start
two_ticks =
    goes_on (timer_frame 7) (timer_frame 7) refl (goes_on (timer_frame 7) (timer_frame 7) refl stay)

two_ticks-quantum : (ticked (ticked switched)).quantum ≡ 2
unfolding sam_interrupt_dispatcher timer_tick switch_task sam_task_mark_start
two_ticks-quantum = refl

preempted_resumes_example :
    ((sam_interrupt_dispatcher letters (pair 2) (timer_frame 0x19000044)).1
      ≡ resume (next_frame (pair 2) 1) 0x18403000)
    × ((sam_interrupt_dispatcher letters (ticked (ticked switched)) (timer_frame 8)).1
        ≡ resume (timer_frame 0x19000044) 0x18400000)
preempted_resumes_example =
    preempted_resumes letters (pair 2) (ticked (ticked switched)) (timer_frame 0x19000044)
      (timer_frame 8) (pair-IsReady 2 (omega arith)) refl refl (timer_frame-IsUserTick 0x19000044)
      refl two_ticks (timer_frame-IsUserTick 8) two_ticks-quantum

survivor_resumes_example :
    let step = sam_interrupt_dispatcher letters (pair 0) (call_frame 2 7 0 0) in
    let pass = await_pass step.0 fresh_pair in
    (step.1 ≡ await)
    × (pass.2 ≡ resumed (next_frame (pair 0) 1) 0x18403000)
    × (pass.0.cur ≡ 1)
    × (ended pass.1 0 ≡ true)
    × (ended pass.1 1 ≡ false)
    × IsReady pass.0
survivor_resumes_example =
    survivor_resumes letters (pair 0) (call_frame 2 7 0 0) end_exit fresh_pair
      (pair-IsReady 0 (omega arith)) refl (exits refl refl) refl

-- Task 0 exits in the middle of the third tick of its slice.
abbrev survived : Kernel
survived =
    (await_pass (sam_interrupt_dispatcher letters (pair 2) (call_frame 2 7 0 0)).0 fresh_pair).0

survived-quantum : survived.quantum ≡ 2
unfolding sam_interrupt_dispatcher sam_syscall_handler await_pass sam_task_mark_start
survived-quantum = refl

ended_resumes_example :
    (sam_interrupt_dispatcher letters survived (timer_frame 0x19500010)).1
    ≡ resume first_task.frame 0x18400000
ended_resumes_example =
    ended_resumes letters (pair 2) survived (call_frame 2 7 0 0) (timer_frame 0x19500010) end_exit
      fresh_pair (pair-IsReady 2 (omega arith)) refl (exits refl refl) refl refl stay
      (timer_frame-IsUserTick 0x19500010) survived-quantum
