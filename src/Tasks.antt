-- ===== src/Tasks.antt =====
-- kernel/syscall.h: the resident task table, the timer's round-robin, and the system calls; and the
-- await loop of `sam_run_pair` (kernel/main.c). An interrupt takes the saved frame and the globals,
-- and ends in one of four ways (`Outcome`). The serial port is the list of the bytes sent so far.
pub mod Invariant
pub mod Switch
pub mod Calls
pub mod Ended
mod Tests
use samos.Serial.{codes, serial_putchar, serial_puts, serial_puthex, serial_putdec}
use samos.Base.{
  ℕ, zero, suc, ◌+◌, ◌-◌, ◌%◌, ◌^◌, Bool, true, false, ◌&&◌, ◌||◌, not, ltb, leb, ◌==◌,
  if◌then◌else◌, List, [], ◌∷◌, ◌++◌, bit_and, get_or, set, add64, Memory,
}

-- `cpu_frame_t`
pub record Frame : Type 0 where
  pub r15 : ℕ
  pub r14 : ℕ
  pub r13 : ℕ
  pub r12 : ℕ
  pub r11 : ℕ
  pub r10 : ℕ
  pub r9 : ℕ
  pub r8 : ℕ
  pub rbp : ℕ
  pub rdi : ℕ
  pub rsi : ℕ
  pub rdx : ℕ
  pub rcx : ℕ
  pub rbx : ℕ
  pub rax : ℕ
  pub vector : ℕ
  pub error_code : ℕ
  pub rip : ℕ
  pub cs : ℕ
  pub rflags : ℕ
  pub rsp : ℕ
  pub ss : ℕ

abbrev pub zero_frame : Frame
zero_frame = record {
  r15 = 0;
  r14 = 0;
  r13 = 0;
  r12 = 0;
  r11 = 0;
  r10 = 0;
  r9 = 0;
  r8 = 0;
  rbp = 0;
  rdi = 0;
  rsi = 0;
  rdx = 0;
  rcx = 0;
  rbx = 0;
  rax = 0;
  vector = 0;
  error_code = 0;
  rip = 0;
  cs = 0;
  rflags = 0;
  rsp = 0;
  ss = 0;
}

-- `sam_tcb_t`
pub record Tcb : Type 0 where
  pub frame : Frame
  pub cr3 : ℕ
  pub started : Bool

abbrev pub zero_tcb : Tcb
zero_tcb = record { frame = zero_frame; cr3 = 0; started = false }

-- TASK_END_*
pub data EndReason : Type 0 where
  end_none end_exit end_fault end_preempt : EndReason

-- The globals of syscall.h, and the bytes on the serial port.
pub record Kernel : Type 0 where
  pub tasks : List Tcb
  pub entry : List ℕ
  pub stktop : List ℕ
  pub ntasks : ℕ
  pub cur : ℕ
  pub end_idx : ℕ
  pub end_reason : EndReason
  pub exit_code : ℕ
  pub preempt_count : ℕ
  pub tick_count : ℕ
  pub quantum : ℕ
  pub serial : List ℕ

-- What happens after an interrupt: `iretq` with the frame as it then is, `sam_user_resume` of a
-- task, a longjmp to the kernel's await point, or `sam_exception_handler` (a panic).
pub data Outcome : Type 0 where
  iret : Frame → Outcome
  resume : Frame → ℕ → Outcome
  await panic : Outcome

-- SEL_USER_CODE, SEL_USER_DATA, SAM_QUANTUM_TICKS
abbrev pub sel_user_code : ℕ
sel_user_code = 0x1B

abbrev pub sel_user_data : ℕ
sel_user_data = 0x23

abbrev pub sam_quantum_ticks : ℕ
sam_quantum_ticks = 3

abbrev pub task : Kernel → ℕ → Tcb
task k i = get_or k.tasks i zero_tcb

-- The frame with which a task is first dispatched.
abbrev pub initial_frame : Kernel → ℕ → Frame
initial_frame k i = record zero_frame {
  rip = get_or k.entry i 0;
  rsp = get_or k.stktop i 0;
  cs = sel_user_code;
  ss = sel_user_data;
  rflags = 0x202;
}

unfoldable pub sam_task_mark_start : Kernel → ℕ → Kernel
sam_task_mark_start k i = if (task k i).started then k else record k {
  tasks = set k.tasks i (record (task k i) { frame = initial_frame k i; started = true });
}

-- The interrupted code ran in ring 3: `(f->cs & 3) == 3`.
abbrev pub from_user : Frame → Bool
from_user f = bit_and f.cs 3 == 3

abbrev pub resume_task : Kernel → ℕ → Kernel × Outcome
resume_task k i = (k, resume (task k i).frame (task k i).cr3)

-- The end of a slice: the current frame is saved in its slot.
abbrev pub save_frame : Kernel → Frame → Kernel
save_frame k f = record k {
  quantum = 0;
  preempt_count = add64 k.preempt_count 1;
  tasks = set k.tasks k.cur (record (task k k.cur) { frame = f });
}

-- The switch to the next task.
pub switch_task : Kernel → Frame → Kernel × Outcome
switch_task k f =
    let next = (k.cur + 1) % k.ntasks in
    let marked = sam_task_mark_start (save_frame k f) next in
    resume_task (record marked { cur = next }) next

-- Vector 32. The quantum is counted only for a tick that interrupts ring 3.
pub timer_tick : Kernel → Frame → Kernel × Outcome
timer_tick k f =
    let ticked = record k { tick_count = add64 k.tick_count 1 } in
    if ltb 0 k.ntasks && from_user f
    then if leb sam_quantum_ticks (add64 k.quantum 1)
      then switch_task ticked f
      else (record ticked { quantum = add64 k.quantum 1 }, iret f)
    else (ticked, iret f)

-- The bytes that the loop of SAM_SYS_WRITE sends, from index `i` on.
pub write_bytes : Memory → ℕ → ℕ → ℕ → List ℕ
write_bytes m buf i zero = []
write_bytes m buf i (suc left) = serial_putchar (m (add64 buf i)) ++ write_bytes m buf (i + 1) left

-- (uint64_t)-1
abbrev pub minus_one : ℕ
minus_one = 2 ^ 64 - 1

abbrev pub return_value : Kernel → Frame → ℕ → Kernel × Outcome
return_value k f v = (k, iret (record f { rax = v }))

-- The memory is what the kernel reads, in supervisor mode.
pub sam_syscall_handler : Memory → Kernel → Frame → Kernel × Outcome
sam_syscall_handler m k f =
    if f.rax == 1
    then if not (f.rdi == 1)
      then return_value k f minus_one
      else if f.rsi == 0
      then return_value k f minus_one
      else return_value (record k { serial = k.serial ++ write_bytes m f.rsi 0 f.rdx }) f f.rdx
    else if f.rax == 2
    then (
      record k {
        serial = k.serial ++ serial_puts (codes "[OK] ring-3 task exited cleanly\n");
        exit_code = f.rdi;
        end_reason = end_exit;
        end_idx = k.cur;
      },
      await,
    )
    else if f.rax == 3
    then return_value k f 0
    else return_value k f minus_one

-- What the dispatcher prints about a page fault from ring 3.
pub fault_message : Frame → List ℕ
fault_message f =
    serial_puts (codes "[OK] ring-3 access violation faulted (#PF) at ")
    ++ (serial_puthex f.rip ++ serial_puts (codes "\n"))

pub sam_interrupt_dispatcher : Memory → Kernel → Frame → Kernel × Outcome
sam_interrupt_dispatcher m k f =
    if f.vector == 32
    then timer_tick k f
    else if f.vector == 128
    then sam_syscall_handler m k f
    else if f.vector == 14 && from_user f
    then (
      record k { serial = k.serial ++ fault_message f; end_reason = end_fault; end_idx = k.cur },
      await,
    )
    else (k, panic)

-- The state of `sam_run_pair`'s loop: `ended` and `clean`.
pub record Pair : Type 0 where
  pub ended0 : Bool
  pub ended1 : Bool
  pub clean : ℕ

-- What a pass of the loop ends in: both are gone and the count is returned, or the survivor runs.
pub data Pass : Type 0 where
  finished : ℕ → Pass
  resumed : Frame → ℕ → Pass

abbrev pub end_name : EndReason → List ℕ
end_name end_exit = codes "exit"
end_name end_fault = codes "fault"
end_name _ = codes "?"

-- `ended[g_end_idx] = 1`, and the count of clean ends.
abbrev pub note_end : Kernel → Pair → Pair
note_end k p = record {
  ended0 = p.ended0 || k.end_idx == 0;
  ended1 = p.ended1 || k.end_idx == 1;
  clean = elim k.end_reason [ end_exit ↦ p.clean + 1 | _ ↦ p.clean ];
}

abbrev pub tell_end : Kernel → Kernel
tell_end k = record k {
  serial =
      k.serial
      ++ (serial_puts (codes "     [sched] task ")
          ++ (serial_putdec k.end_idx
              ++ (serial_puts (codes " ended (")
                  ++ (serial_puts (end_name k.end_reason) ++ serial_puts (codes ")\n")))));
}

-- One pass of the `for (;;)` of `sam_run_pair`, entered whenever a task has ended.
pub await_pass : Kernel → Pair → Kernel × Pair × Pass
await_pass k p =
    let noted = note_end k p in
    if noted.ended0 && noted.ended1
    then (record (tell_end k) { ntasks = 0 }, noted, finished noted.clean)
    else let other = 1 - k.end_idx in
      let marked = record (sam_task_mark_start (tell_end k) other) { cur = other } in
      (marked, noted, resumed (task marked other).frame (task marked other).cr3)
