-- ===== src/Run/Task.antt =====
-- kernel/main.c: `sam_run_task` up to the point where the task enters ring 3.
use samos.Base.{
  ℕ, ◌-◌, ◌⊎◌, if-cases, ◌+◌, ◌*◌, ◌<◌, ◌≤◌, ◌≡◌, ◌≢◌, inl, inr, refl, sym, ap, ◌∙◌, arith, true,
  false, Bool-cases, ◌==◌, if◌then◌else◌, List, [], ◌++◌, length, length-set, set, get_or-set_self,
  Memory,
}
use mathlib.Core.Path.{subst}
use samos.Serial.{codes, serial_puts, serial_puthex, serial_putdec}
use samos.Vfs.{VfsFile, VfsFileHandle, vfs_open}
use samos.Elf.{
  LoadResult, loaded, bad_image, no_segments, outside_region, truncated, out_of_fuel, elf_load,
  elf_load_in, user_stack_top, user_code_base,
}
use samos.Vmm.{Vmm, vmm_create_user_as}
use samos.Tasks.{Kernel, Tcb, task, zero_tcb, sam_task_mark_start, initial_frame, end_none}
use samos.Tasks.Invariant.{IsReady}
use samos.Args.{sam_build_args}
use samos.Args.Stack.{IsStack, sam_build_args-IsStack}
use samos.Args.Strings.{total}
use samos.Run.Staged.{OffStage, OffWindow, Sound, Fits, read_opened-Fits, loaded-off}
use samos.Run.{
  Machine, say, stage, put_stage, Image, not_found, unreadable, bytes, read_opened, error_number,
  Start, gives_up, enters,
}

-- The messages.
abbrev absent_text : List ℕ → List ℕ
absent_text name =
    serial_puts (codes "     [FAIL] ")
    ++ (serial_puts name ++ serial_puts (codes " not found in initrd\n"))

abbrev unreadable_text : ℕ → List ℕ
unreadable_text got =
    serial_puts (codes "     [FAIL] vfs_read returned ")
    ++ (serial_putdec got ++ serial_puts (codes "\n"))

abbrev staged_text : List ℕ → ℕ → List ℕ
staged_text name got =
    serial_puts (codes "     [OK] ")
    ++ (serial_puts name
        ++ (serial_puts (codes " staged (")
            ++ (serial_putdec got ++ serial_puts (codes " bytes)\n"))))

abbrev error_text : LoadResult → List ℕ
error_text r =
    serial_puts (codes "     [FAIL] elf_load error: ")
    ++ (serial_putdec (error_number r) ++ serial_puts (codes "\n"))

abbrev entry_text : ℕ → List ℕ
entry_text entry =
    serial_puts (codes "     [OK] Sprint 19: ELF64 loaded, entry=")
    ++ (serial_puthex entry ++ serial_puts (codes "\n"))

abbrev ready_text : ℕ → List ℕ
ready_text argc =
    serial_puts (codes "     [OK] Sprint 17: user address space built\n")
    ++ ((if argc == 0
          then []
          else serial_puts (codes "     [OK] Sprint 22: argv placed on user stack\n"))
        ++ serial_puts (codes "     Entering ring 3...\n"))

-- The task as the only resident one.
abbrev register_only : Kernel → ℕ → ℕ → Kernel
register_only k entry cr3 = record k {
  entry = set k.entry 0 entry;
  stktop = set k.stktop 0 user_stack_top;
  tasks = set k.tasks 0 (record (task k 0) { cr3 = cr3; started = false });
  ntasks = 1;
  cur = 0;
  end_reason = end_none;
  quantum = 0;
}

-- The kernel with the task registered and marked as started.
module _ (k : Kernel) (entry cr3 : ℕ) (two : length k.tasks ≡ 2) where
  abbrev only : Kernel
  only = register_only k entry cr3

  abbrev fresh : Tcb
  fresh = record (task k 0) { cr3 = cr3; started = false }

  abbrev running : Tcb
  running = record (task only 0) { frame = initial_frame only 0; started = true }

  abbrev marked : Kernel
  marked = record only { tasks = set only.tasks 0 running }

  task-fresh : task only 0 ≡ fresh
  task-fresh = get_or-set_self k.tasks 0 fresh zero_tcb (omega arith)

  only-marked : sam_task_mark_start only 0 ≡ marked
  unfolding sam_task_mark_start
  only-marked = ap (λ (c : Tcb). if c.started then only else marked) task-fresh

  slots : length only.tasks ≡ 2
  slots = length-set k.tasks 0 fresh ∙ two

  marked-IsReady : IsReady marked × (marked.ntasks ≡ 1) × ((task marked 0).cr3 ≡ cr3)
  marked-IsReady = (
    record {
      slots = length-set only.tasks 0 running ∙ slots;
      some_task = omega arith;
      two_tasks = omega arith;
      current = omega arith;
      in_slice = omega arith;
    },
    refl,
    ap (λ (c : Tcb). c.cr3) (get_or-set_self only.tasks 0 running zero_tcb (omega (arith, slots)))
        ∙ ap (λ (c : Tcb). c.cr3) task-fresh,
  )

  only-IsReady :
      let after = sam_task_mark_start only 0 in
      IsReady after × (after.ntasks ≡ 1) × ((task after 0).cr3 ≡ cr3)
  only-IsReady =
      subst (λ q. IsReady q × (q.ntasks ≡ 1) × ((task q 0).cr3 ≡ cr3)) (sym only-marked)
        marked-IsReady

-- A start with its arguments: the task table is well-formed, and the stack at the entry's stack
-- pointer is that of the arguments, over a memory `under`.
pub IsEntered : List (List ℕ) → Machine → Start → Type 0
IsEntered argv h gives_up = Unit
IsEntered argv h (enters rip rsp cr3) =
    IsReady h.kernel
    × (h.kernel.ntasks ≡ 1)
    × ((task h.kernel 0).cr3 ≡ cr3)
    × (cr3 ≢ 0)
    × ((under : Memory) × IsStack under user_stack_top argv h.mem rsp)

module _ (pdpt_table : ℕ) (archive : Memory) (files : List VfsFile) (handle : VfsFileHandle)
    (name : List ℕ) (argv : List (List ℕ)) where
  -- The steps from the last one back to the first; `gives_up` is `return -1`.
  pub enter_space : Machine → ℕ → Vmm × ℕ → Machine × Start
  enter_space h entry (v, cr3) =
      if cr3 == 0
      then (
        say (record h { vmm = v })
            (serial_puts (codes "     [FAIL] vmm_create_user_as: out of page-table pages\n")),
        gives_up,
      )
      else let built = sam_build_args h.mem user_stack_top argv in
        let told = say (record h { vmm = v; mem = built.0 }) (ready_text (length argv)) in
        (
          record told { kernel = sam_task_mark_start (register_only told.kernel entry cr3) 0 },
          enters entry built.1 cr3,
        )

  pub enter_image : Machine → LoadResult → Machine × Start
  enter_image h (loaded entry) =
      let told = say h (entry_text entry) in
      enter_space told entry (vmm_create_user_as pdpt_table told.vmm)
  enter_image h r = (say h (error_text r), gives_up)

  pub enter_file : Machine → Image → Machine × Start
  enter_file h not_found = (say h (absent_text name), gives_up)
  enter_file h (unreadable got) = (say h (unreadable_text got), gives_up)
  enter_file h (bytes bs) =
      let told = say h (staged_text name (length bs)) in
      let l = elf_load (put_stage h.mem bs) stage (length bs) in
      enter_image (record told { mem = l.0 }) l.1

  pub sam_run_task : Machine → Machine × Start
  sam_run_task h = enter_file h (read_opened archive files (vfs_open files name handle))

  module _ (some_args : 0 < length argv) (few : length argv ≤ 8)
      (room : total argv + 8 * length argv + 31 ≤ user_stack_top - user_code_base) where
    enter_space-IsEntered :
        (h : Machine) (entry : ℕ) (r : Vmm × ℕ)
        → length h.kernel.tasks ≡ 2
        → IsEntered argv (enter_space h entry r).0 (enter_space h entry r).1
    unfolding enter_space IsEntered
    enter_space-IsEntered h entry (v, cr3) two = elim (Bool-cases (cr3 == 0)) [
      | inl z ↦ rw z tt
      | inr nz ↦
          let told =
            say (record h { vmm = v; mem = (sam_build_args h.mem user_stack_top argv).0 })
              (ready_text (length argv)) in
          let r = only-IsReady told.kernel entry cr3 two in
          rw nz (
            r.0,
            r.1,
            r.2,
            (λ z. different (sym nz ∙ ap (λ n. n == 0) z)),
            (
              h.mem,
              sam_build_args-IsStack h.mem user_stack_top argv some_args few (omega arith)
                  (omega arith),
            ),
          )
    ]
      where
        different : false ≡ true → ⊥
        different q = ground arith

    enter_image-IsEntered :
        (h : Machine) (r : LoadResult)
        → length h.kernel.tasks ≡ 2
        → IsEntered argv (enter_image h r).0 (enter_image h r).1
    unfolding enter_image IsEntered
    enter_image-IsEntered h (loaded entry) two =
        enter_space-IsEntered (say h (entry_text entry)) entry
          (vmm_create_user_as pdpt_table (say h (entry_text entry)).vmm) two
    enter_image-IsEntered h bad_image two = tt
    enter_image-IsEntered h no_segments two = tt
    enter_image-IsEntered h outside_region two = tt
    enter_image-IsEntered h truncated two = tt
    enter_image-IsEntered h out_of_fuel two = tt

    enter_file-IsEntered :
        (h : Machine) (i : Image)
        → length h.kernel.tasks ≡ 2
        → IsEntered argv (enter_file h i).0 (enter_file h i).1
    unfolding enter_file IsEntered
    enter_file-IsEntered h not_found two = tt
    enter_file-IsEntered h (unreadable got) two = tt
    enter_file-IsEntered h (bytes bs) two =
        enter_image-IsEntered
          (record (say h (staged_text name (length bs))) {
            mem = (elf_load (put_stage h.mem bs) stage (length bs)).0;
          })
          (elf_load (put_stage h.mem bs) stage (length bs)).1 two

    abbrev OffTask : ℕ → Type 0
    OffTask x = OffStage x × OffWindow user_code_base user_stack_top x

    -- The steps change memory only in the staging buffer and in the window.
    enter_space-off :
        (h : Machine) (entry : ℕ) (r : Vmm × ℕ) (x : ℕ)
        → OffWindow user_code_base user_stack_top x
        → (enter_space h entry r).0.mem x ≡ h.mem x
    unfolding enter_space
    enter_space-off h entry (v, cr3) x w =
        let st =
          sam_build_args-IsStack h.mem user_stack_top argv some_args few (omega arith)
            (omega arith) in
        if-cases (λ (q : Machine × Start). q.0.mem x ≡ h.mem x) (cr3 == 0) (λ e. refl)
          (λ e. st.outside x (below st.low w))
      where
        below :
            {rsp : ℕ}
            → user_stack_top ≤ rsp + total argv + 8 * length argv + 31
            → OffWindow user_code_base user_stack_top x
            → (x < rsp) ⊎ (user_stack_top ≤ x)
        below l w = omega arith

    enter_image-off :
        (h : Machine) (r : LoadResult) (x : ℕ)
        → OffWindow user_code_base user_stack_top x
        → (enter_image h r).0.mem x ≡ h.mem x
    unfolding enter_image
    enter_image-off h (loaded entry) x w =
        let told = say h (entry_text entry) in
        enter_space-off told entry (vmm_create_user_as pdpt_table told.vmm) x w
    enter_image-off h bad_image x w = refl
    enter_image-off h no_segments x w = refl
    enter_image-off h outside_region x w = refl
    enter_image-off h truncated x w = refl
    enter_image-off h out_of_fuel x w = refl

    enter_file-off :
        (h : Machine) (i : Image) (x : ℕ)
        → Sound i
        → Fits i
        → OffTask x
        → (enter_file h i).0.mem x ≡ h.mem x
    unfolding enter_file elf_load
    enter_file-off h not_found x s f o = refl
    enter_file-off h (unreadable got) x s f o = refl
    enter_file-off h (bytes bs) x s f o =
        let l = elf_load_in stage (length bs) user_code_base user_stack_top (put_stage h.mem bs) in
        enter_image-off (record (say h (staged_text name (length bs))) { mem = l.0 }) l.1 x o.1
        ∙ loaded-off h.mem bs user_code_base user_stack_top (omega arith) s f x o.0 o.1

    -- Let the named file, if there is one, be an executable whose header and program headers lie in
    -- it, where no sum in a program header wraps and no file part is longer than its memory part.
    -- Then `sam_run_task` with one to eight arguments changes memory only in the staging buffer and
    -- in the user's window, and either gives up or enters ring 3 with a well-formed table whose only
    -- task has the address space that is entered, and with a stack pointer at which the arguments
    -- lie as a program expects them. The arguments have room in the window, and the table has two
    -- slots.
    pub sam_run_task-IsEntered :
        (h : Machine)
        → Sound (read_opened archive files (vfs_open files name handle))
        → length h.kernel.tasks ≡ 2
        → IsEntered argv (sam_run_task h).0 (sam_run_task h).1
          × ((x : ℕ)
              → OffStage x
              → OffWindow user_code_base user_stack_top x
              → (sam_run_task h).0.mem x ≡ h.mem x)
    unfolding sam_run_task
    sam_run_task-IsEntered h sound two =
        let opened = vfs_open files name handle in
        let image = read_opened archive files opened in
        (
          enter_file-IsEntered h image two,
          λ x o w. enter_file-off h image x sound (read_opened-Fits archive files opened) (o, w),
        )
