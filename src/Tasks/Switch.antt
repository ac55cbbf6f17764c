-- ===== src/Tasks/Switch.antt =====
-- Round-robin of two resident tasks: when it switches, and that a preempted task goes on with the
-- very frame it was interrupted with.
use samos.Base.{
  ℕ, ◌+◌, ◌-◌, ◌%◌, ◌<◌, ◌≡◌, ◌≢◌, refl, sym, arith, ◌∙◌, ap, true, if◌then◌else◌, Memory, get_or,
  length, length-set, add64, get_or-set_self, get_or-set_ne,
}
use samos.Tasks.{
  Frame, Tcb, zero_tcb, Kernel, iret, resume, task, save_frame, initial_frame, sam_task_mark_start,
  switch_task, timer_tick, sam_syscall_handler, sam_interrupt_dispatcher, from_user,
}
use samos.Tasks.Invariant.{IsReady, mark_start_keeps, dispatcher-IsReady}

-- A timer interrupt from ring 3.
pub record IsUserTick (f : Frame) : Type 0 where
  pub timer : f.vector ≡ 32
  pub user : from_user f ≡ true

abbrev pub tick : Kernel → Kernel
tick k = record k { tick_count = add64 k.tick_count 1 }

-- A tick within the slice is counted, and the task goes on.
pub tick_counts :
    (m : Memory) (k : Kernel) (f : Frame)
    → IsUserTick f
    → 0 < k.ntasks
    → k.quantum < 2
    → sam_interrupt_dispatcher m k f ≡ (record (tick k) { quantum = k.quantum + 1 }, iret f)
unfolding sam_interrupt_dispatcher timer_tick
tick_counts m k f t n q = ground arith

-- The third tick of the slice switches.
pub tick_switches :
    (m : Memory) (k : Kernel) (f : Frame)
    → IsUserTick f
    → 0 < k.ntasks
    → k.quantum ≡ 2
    → sam_interrupt_dispatcher m k f ≡ switch_task (tick k) f
unfolding sam_interrupt_dispatcher timer_tick
tick_switches m k f t n q = ground arith

-- What a task is resumed with: its saved frame, or its initial frame if it never ran.
abbrev pub next_frame : Kernel → ℕ → Frame
next_frame k i = if (task k i).started then (task k i).frame else initial_frame k i

pub mark_start-task :
    (k : Kernel) (i : ℕ)
    → i < length k.tasks
    → task (sam_task_mark_start k i) i
      ≡ record { frame = next_frame k i; cr3 = (task k i).cr3; started = true }
unfolding sam_task_mark_start
mark_start-task k i h = ground (
  arith,
  get_or-set_self k.tasks i
      (record { frame = initial_frame k i; cr3 = (task k i).cr3; started = true }) zero_tcb h,
)

pub mark_start-task_ne :
    (k : Kernel) (i j : ℕ) → i ≢ j → task (sam_task_mark_start k i) j ≡ task k j
unfolding sam_task_mark_start
mark_start-task_ne k i j h = ground (
  arith,
  get_or-set_ne k.tasks i j
      (record { frame = initial_frame k i; cr3 = (task k i).cr3; started = true }) zero_tcb h,
)

switch_task-quantum : (k : Kernel) (f : Frame) → (switch_task k f).0.quantum ≡ 0
unfolding switch_task
switch_task-quantum k f = (mark_start_keeps (save_frame k f) ((k.cur + 1) % k.ntasks)).2

-- A switch between two tasks: the current one is left with its frame, the other one resumes.
module _ (k : Kernel) (f : Frame) (r : IsReady k) (two : k.ntasks ≡ 2) where
  abbrev other : ℕ
  other = 1 - k.cur

  other-eq : (k.cur + 1) % k.ntasks ≡ other
  other-eq = rw two (omega (arith, r.current, two))

  other-ne : k.cur ≢ other
  other-ne = omega (arith, r.current, two)

  saved_other : task (save_frame k f) other ≡ task k other
  saved_other =
      get_or-set_ne k.tasks k.cur other (record (task k k.cur) { frame = f }) zero_tcb other-ne

  saved_cur : task (save_frame k f) k.cur ≡ record (task k k.cur) { frame = f }
  saved_cur =
      get_or-set_self k.tasks k.cur (record (task k k.cur) { frame = f }) zero_tcb
        (omega (arith, r.slots, r.current, two))

  marked-length : other < length (save_frame k f).tasks
  marked-length = omega (
    arith,
    length-set k.tasks k.cur (record (task k k.cur) { frame = f }),
    r.slots,
    r.current,
    two,
  )

  pub switch_task-outcome : (switch_task k f).1 ≡ resume (next_frame k other) (task k other).cr3
  unfolding switch_task
  switch_task-outcome =
      rw (other-eq, mark_start-task (save_frame k f) other marked-length)
        (ap (λ t. resume (if Tcb.started t then Tcb.frame t else initial_frame k other) (Tcb.cr3 t))
          saved_other)

  pub switch_task-cur : (switch_task k f).0.cur ≡ other
  unfolding switch_task
  switch_task-cur = other-eq

  pub switch_task-ntasks : (switch_task k f).0.ntasks ≡ k.ntasks
  unfolding switch_task
  switch_task-ntasks = (mark_start_keeps (save_frame k f) ((k.cur + 1) % k.ntasks)).1

  pub switch_task-saved : task (switch_task k f).0 k.cur ≡ record (task k k.cur) { frame = f }
  unfolding switch_task
  switch_task-saved =
      rw other-eq
        (mark_start-task_ne (save_frame k f) other k.cur (λ e. other-ne (sym e)) ∙ saved_cur)

pub record IsSame (k k' : Kernel) : Type 0 where
  pub same_tasks : k'.tasks ≡ k.tasks
  pub same_cur : k'.cur ≡ k.cur
  pub same_ntasks : k'.ntasks ≡ k.ntasks

-- An interrupt that goes on with the interrupted task leaves the task table alone.
iret-IsSame :
    (m : Memory) (k : Kernel) (f g : Frame)
    → (sam_interrupt_dispatcher m k f).1 ≡ iret g
    → IsSame k (sam_interrupt_dispatcher m k f).0
unfolding sam_interrupt_dispatcher timer_tick switch_task sam_syscall_handler
iret-IsSame m k f g h = ground arith

IsSame-trans : {a b c : Kernel} → IsSame a b → IsSame b c → IsSame a c
IsSame-trans p q = record {
  same_tasks = q.same_tasks ∙ p.same_tasks;
  same_cur = q.same_cur ∙ p.same_cur;
  same_ntasks = q.same_ntasks ∙ p.same_ntasks;
}

-- A run of interrupts, each of which goes on with the interrupted task: plain ticks, system calls
-- that return. There is no switch, no end and no panic in between.
pub data Steady (m : Memory) : Kernel → Kernel → Type 0 where
  stay : {k : Kernel} → Steady m k k
  goes_on :
      {k k' : Kernel} (f g : Frame)
      → (sam_interrupt_dispatcher m k f).1 ≡ iret g
      → Steady m (sam_interrupt_dispatcher m k f).0 k'
      → Steady m k k'

pub Steady-IsSame : {m : Memory} {k k' : Kernel} → Steady m k k' → IsSame k k'
Steady-IsSame stay = record { same_tasks = refl; same_cur = refl; same_ntasks = refl }
Steady-IsSame {m} (goes_on {k} f g e s) = IsSame-trans (iret-IsSame m k f g e) (Steady-IsSame s)

pub Steady-IsReady : {m : Memory} {k k' : Kernel} → Steady m k k' → IsReady k → IsReady k'
Steady-IsReady stay r = r
Steady-IsReady {m} (goes_on {k} f g e s) r = Steady-IsReady s (dispatcher-IsReady m k f r)

pub tick-IsReady : (k : Kernel) → IsReady k → IsReady (tick k)
tick-IsReady k r = omega (arith, r.slots, r.some_task, r.two_tasks, r.current, r.in_slice)

-- Preemption is transparent: a started task that is preempted at frame `f` by the last tick of its
-- slice while the other of two tasks is resumed, is itself resumed with the frame `f` and its own
-- CR3 by the switch that ends the other's slice, whatever system calls and ticks came in between.
pub preempted_resumes :
    (m : Memory) (k k2 : Kernel) (f g : Frame)
    → IsReady k
    → k.ntasks ≡ 2
    → (task k k.cur).started ≡ true
    → IsUserTick f
    → k.quantum ≡ 2
    → Steady m (sam_interrupt_dispatcher m k f).0 k2
    → IsUserTick g
    → k2.quantum ≡ 2
    → ((sam_interrupt_dispatcher m k f).1
        ≡ resume (next_frame k (1 - k.cur)) (task k (1 - k.cur)).cr3)
      × ((sam_interrupt_dispatcher m k2 g).1 ≡ resume f (task k k.cur).cr3)
preempted_resumes m k k2 f g r two st tf qf steady tg qg = (
  ap (λ o. o.1) first ∙ switch_task-outcome (tick k) f rt two,
  ap (λ o. o.1) (tick_switches m k2 g tg r2.some_task qg)
      ∙ switch_task-outcome (tick k2) g (tick-IsReady k2 r2) two2
      ∙ rw (back, task_kept, st),
)
  where
    first : sam_interrupt_dispatcher m k f ≡ switch_task (tick k) f
    first = tick_switches m k f tf r.some_task qf

    rt : IsReady (tick k)
    rt = tick-IsReady k r

    same : IsSame (sam_interrupt_dispatcher m k f).0 k2
    same = Steady-IsSame steady

    r2 : IsReady k2
    r2 = Steady-IsReady steady (dispatcher-IsReady m k f r)

    back : 1 - k2.cur ≡ k.cur
    back =
        ap (λ c. 1 - c)
          (same.same_cur ∙ ap (λ o. o.0.cur) first ∙ switch_task-cur (tick k) f rt two)
        ∙ omega (arith, r.current, two)

    two2 : k2.ntasks ≡ 2
    two2 =
        same.same_ntasks ∙ ap (λ o. o.0.ntasks) first ∙ switch_task-ntasks (tick k) f rt two ∙ two

    task_kept : task k2 k.cur ≡ record (task k k.cur) { frame = f }
    task_kept =
        ap (λ ts. get_or ts k.cur zero_tcb) (same.same_tasks ∙ ap (λ o. o.0.tasks) first)
        ∙ switch_task-saved (tick k) f rt two

-- A slice is three ticks: a task that starts its slice and is interrupted by the timer three times
-- goes on after the first two, and the third one resumes the other of two tasks.
pub slice_of_three :
    (m : Memory) (k : Kernel) (f g h : Frame)
    → IsReady k
    → k.ntasks ≡ 2
    → k.quantum ≡ 0
    → IsUserTick f
    → IsUserTick g
    → IsUserTick h
    → let k1 = (sam_interrupt_dispatcher m k f).0 in
      let k2 = (sam_interrupt_dispatcher m k1 g).0 in
      ((sam_interrupt_dispatcher m k f).1 ≡ iret f)
      × ((sam_interrupt_dispatcher m k1 g).1 ≡ iret g)
      × ((sam_interrupt_dispatcher m k2 h).1
          ≡ resume (next_frame k (1 - k.cur)) (task k (1 - k.cur)).cr3)
      × ((sam_interrupt_dispatcher m k2 h).0.quantum ≡ 0)
slice_of_three m k f g h r two q tf tg th =
    rw
      (
        tick_counts m k f tf r.some_task (omega arith),
        tick_counts m k1 g tg r.some_task (omega arith),
        tick_switches m k2 h th r.some_task (omega arith),
      )
      (refl, refl, switch_task-outcome (tick k2) h ready two, switch_task-quantum (tick k2) h)
  where
    k1 : Kernel
    k1 = record (tick k) { quantum = k.quantum + 1 }

    k2 : Kernel
    k2 = record (tick k1) { quantum = k.quantum + 1 + 1 }

    ready : IsReady (tick k2)
    ready = omega (arith, r.slots, r.some_task, r.two_tasks, r.current, q)
