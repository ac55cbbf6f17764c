-- ===== src/Run/Pair.antt =====
-- The pair that `sam_run_pair` starts is one that the scheduler's theorems speak of.
use samos.Base.{
  ℕ, ◌≤◌, if-cases, ◌+◌, ◌≡◌, ◌≢◌, inl, inr, refl, sym, ap, ◌∙◌, arith, Bool, true, false, ◌==◌,
  if◌then◌else◌, Bool-cases, List, length, get_or, set, length-set, get_or-set_self, get_or-set_ne,
  Memory,
}
use mathlib.Core.Path.{subst}
use samos.Tasks.{initial_frame, Kernel, Tcb, zero_tcb, task, sam_task_mark_start}
use samos.Tasks.Invariant.{IsReady}
use samos.Vfs.{vfs_open, VfsFile, VfsFileHandle}
use samos.Vmm.{Vmm, vmm_create_user_as_at}
use samos.Elf.{
  LoadResult, loaded, bad_image, no_segments, outside_region, truncated, out_of_fuel, elf_load_in,
}
use samos.Run.Staged.{OffStage, OffWindow, Sound, Fits, stage_size, read_opened-Fits, loaded-off}
use samos.Run.{
  read_opened, Start, gives_up, enters, stage, put_stage, after_first, after_second, sam_run_pair,
  Machine, Image, not_found, unreadable, bytes, with_space, with_image, with_file, load_task,
  window_base, start_pair,
}

-- What the loader does to the tables for task `t`.
record IsRegistered (t : ℕ) (k k' : Kernel) : Type 0 where
  start : ℕ
  space : ℕ
  some_space : space ≢ 0
  tasks : k'.tasks ≡ set k.tasks t (record (task k t) { cr3 = space; started = false })
  entry : k'.entry ≡ set k.entry t start
  stktop : k'.stktop ≡ set k.stktop t (window_base t + 0x400000)

abbrev WellLoaded : ℕ → Kernel → Machine × Bool → Type 0
WellLoaded t k r = r.1 ≡ true → IsRegistered t k r.0.kernel

-- What a start of the pair is.
pub IsStarted : Machine → Start → Type 0
IsStarted h gives_up = Unit
IsStarted h (enters rip rsp cr3) =
    IsReady h.kernel
    × ((task h.kernel 0).frame.rip ≡ rip)
    × ((task h.kernel 0).frame.rsp ≡ rsp)
    × (rsp ≡ 0x19400000)
    × ((task h.kernel 0).cr3 ≡ cr3)
    × (cr3 ≢ 0)
    × ((task h.kernel 1).started ≡ false)
    × ((task h.kernel 1).cr3 ≢ 0)
    × (get_or h.kernel.stktop 1 0 ≡ 0x19900000)

module _ (pdpt_table : ℕ) (archive : Memory) (files : List VfsFile) (handle : VfsFileHandle) where
  with_space-IsRegistered :
      (h : Machine) (t : ℕ) (name : List ℕ) (e : ℕ) (r : Vmm × ℕ)
      → WellLoaded t h.kernel (with_space pdpt_table archive files handle h t name e r)
  unfolding with_space
  with_space-IsRegistered h t name e (v, cr3) = elim (Bool-cases (cr3 == 0)) [
    | inl z ↦ rw z (λ q. absurd (different q))
    | inr nz ↦ rw nz (λ q. record {
      start = e;
      space = cr3;
      some_space = λ z. different (sym nz ∙ ap (λ n. n == 0) z);
      tasks = refl;
      entry = refl;
      stktop = refl;
    })
  ]
    where
      different : false ≡ true → ⊥
      different q = ground arith

  with_image-IsRegistered :
      (h : Machine) (t : ℕ) (name : List ℕ) (r : LoadResult)
      → WellLoaded t h.kernel (with_image pdpt_table archive files handle h t name r)
  unfolding with_image
  with_image-IsRegistered h t name (loaded e) q =
      with_space-IsRegistered h t name e (vmm_create_user_as_at pdpt_table h.vmm (window_base t)) q
  with_image-IsRegistered h t name bad_image q = absurd (ground arith)
  with_image-IsRegistered h t name no_segments q = absurd (ground arith)
  with_image-IsRegistered h t name outside_region q = absurd (ground arith)
  with_image-IsRegistered h t name truncated q = absurd (ground arith)
  with_image-IsRegistered h t name out_of_fuel q = absurd (ground arith)

  with_file-IsRegistered :
      (h : Machine) (t : ℕ) (name : List ℕ) (i : Image)
      → WellLoaded t h.kernel (with_file pdpt_table archive files handle h t name i)
  unfolding with_file
  with_file-IsRegistered h t name not_found q = absurd (ground arith)
  with_file-IsRegistered h t name (unreadable n) q = absurd (ground arith)
  with_file-IsRegistered h t name (bytes bs) q =
      with_image-IsRegistered (record h { mem = (in_window h t bs).0 }) t name (in_window h t bs).1
        q
    where
      in_window : Machine → ℕ → List ℕ → Memory × LoadResult
      in_window h t bs =
          elf_load_in stage (length bs) (window_base t) (window_base t + 0x400000)
            (put_stage h.mem bs)

  -- The tables after both tasks have been loaded.
  module _ (k k1 k2 : Kernel) (tasks2 : length k.tasks ≡ 2) (entry2 : length k.entry ≡ 2)
      (stktop2 : length k.stktop ≡ 2) (a : IsRegistered 0 k k1) (b : IsRegistered 1 k1 k2) where
    slots : length k2.tasks ≡ 2
    slots =
        ap length b.tasks
        ∙ length-set k1.tasks 1 _
        ∙ ap length a.tasks
        ∙ length-set k.tasks 0 _
        ∙ tasks2

    first_task : task k2 0 ≡ record (task k 0) { cr3 = a.space; started = false }
    first_task =
        ap (λ ts. get_or ts 0 zero_tcb) b.tasks
        ∙ get_or-set_ne k1.tasks 1 0 _ zero_tcb (omega arith)
        ∙ ap (λ ts. get_or ts 0 zero_tcb) a.tasks
        ∙ get_or-set_self k.tasks 0 _ zero_tcb (omega arith)

    second_task : task k2 1 ≡ record (task k1 1) { cr3 = b.space; started = false }
    second_task =
        ap (λ ts. get_or ts 1 zero_tcb) b.tasks
        ∙ get_or-set_self k1.tasks 1 _ zero_tcb (
            omega (
              arith,
              ap length a.tasks,
              length-set k.tasks 0 (record (task k 0) { cr3 = a.space; started = false }),
            ))

    first_stack : get_or k2.stktop 0 0 ≡ 0x19400000
    first_stack =
        ap (λ ts. get_or ts 0 0) b.stktop
        ∙ get_or-set_ne k1.stktop 1 0 _ 0 (omega arith)
        ∙ ap (λ ts. get_or ts 0 0) a.stktop
        ∙ get_or-set_self k.stktop 0 _ 0 (omega arith)

    second_stack : get_or k2.stktop 1 0 ≡ 0x19900000
    second_stack =
        ap (λ ts. get_or ts 1 0) b.stktop
        ∙ get_or-set_self k1.stktop 1 _ 0
            (omega (arith, ap length a.stktop, length-set k.stktop 0 (window_base 0 + 0x400000)))

    -- The tables with task 0 marked as started.
    abbrev pair : Kernel
    pair = record k2 { ntasks = 2; cur = 0; quantum = 0 }

    abbrev first_started : Tcb
    first_started = record (task k2 0) { frame = initial_frame pair 0; started = true }

    abbrev started : Kernel
    started = record pair { tasks = set k2.tasks 0 first_started }

    start_pair-started : start_pair k2 ≡ started
    unfolding sam_task_mark_start
    start_pair-started = ap (λ (c : Tcb). if c.started then pair else started) first_task

    first_running : task started 0 ≡ first_started
    first_running = get_or-set_self k2.tasks 0 first_started zero_tcb (omega (arith, slots))

    second_waiting : task started 1 ≡ record (task k1 1) { cr3 = b.space; started = false }
    second_waiting = get_or-set_ne k2.tasks 0 1 first_started zero_tcb (omega arith) ∙ second_task

    started-IsReady : IsReady started
    started-IsReady = record {
      slots = length-set k2.tasks 0 first_started ∙ slots;
      some_task = omega arith;
      two_tasks = omega arith;
      current = omega arith;
      in_slice = omega arith;
    }

    start_pair-IsStarted :
        (h : Machine)
        → IsStarted
            (record h { kernel = start_pair k2 })
            (enters (get_or k2.entry 0 0) (get_or k2.stktop 0 0) (task k2 0).cr3)
    unfolding IsStarted
    start_pair-IsStarted h =
        subst
          (λ q.
            IsStarted (record h { kernel = q })
              (enters (get_or k2.entry 0 0) (get_or k2.stktop 0 0) (task k2 0).cr3))
          (sym start_pair-started)
          (
            started-IsReady,
            ap (λ (c : Tcb). c.frame.rip) first_running,
            ap (λ (c : Tcb). c.frame.rsp) first_running,
            first_stack,
            ap (λ (c : Tcb). c.cr3) first_running,
            (λ z. a.some_space (sym (ap (λ (c : Tcb). c.cr3) first_task) ∙ z)),
            ap (λ (c : Tcb). c.started) second_waiting,
            (λ z. b.some_space (sym (ap (λ (c : Tcb). c.cr3) second_waiting) ∙ z)),
            second_stack,
          )

module _ (pdpt_table : ℕ) (archive : Memory) (files : List VfsFile) (handle : VfsFileHandle) where
  after_second-IsStarted :
      (k k1 : Kernel) (r : Machine × Bool)
      → length k.tasks ≡ 2
      → length k.entry ≡ 2
      → length k.stktop ≡ 2
      → IsRegistered 0 k k1
      → WellLoaded 1 k1 r
      → IsStarted
          (after_second pdpt_table archive files handle r).0
          (after_second pdpt_table archive files handle r).1
  unfolding after_second IsStarted
  after_second-IsStarted k k1 (h, false) ts es ss a b = tt
  after_second-IsStarted k k1 (h, true) ts es ss a b =
      start_pair-IsStarted pdpt_table archive files handle k k1 h.kernel ts es ss a (b refl) h

  after_first-IsStarted :
      (k : Kernel) (name_b : List ℕ) (r : Machine × Bool)
      → length k.tasks ≡ 2
      → length k.entry ≡ 2
      → length k.stktop ≡ 2
      → WellLoaded 0 k r
      → IsStarted
          (after_first pdpt_table archive files handle name_b r).0
          (after_first pdpt_table archive files handle name_b r).1
  unfolding after_first load_task IsStarted
  after_first-IsStarted k name_b (h, false) ts es ss a = tt
  after_first-IsStarted k name_b (h, true) ts es ss a =
      after_second-IsStarted k h.kernel (load_task pdpt_table archive files handle h 1 name_b) ts es
        ss (a refl)
        (with_file-IsRegistered pdpt_table archive files handle h 1 name_b
          (read_opened archive files (vfs_open files name_b handle)))

  -- Loading task `t` changes memory only in the staging buffer and in the task's window.
  with_space-off :
      (h : Machine) (t : ℕ) (name : List ℕ) (e : ℕ) (r : Vmm × ℕ)
      → (with_space pdpt_table archive files handle h t name e r).0.mem ≡ h.mem
  unfolding with_space
  with_space-off h t name e (v, cr3) =
      if-cases (λ (q : Machine × Bool). q.0.mem ≡ h.mem) (cr3 == 0) (λ z. refl) (λ z. refl)

  with_image-off :
      (h : Machine) (t : ℕ) (name : List ℕ) (r : LoadResult)
      → (with_image pdpt_table archive files handle h t name r).0.mem ≡ h.mem
  unfolding with_image
  with_image-off h t name (loaded e) =
      with_space-off h t name e (vmm_create_user_as_at pdpt_table h.vmm (window_base t))
  with_image-off h t name bad_image = refl
  with_image-off h t name no_segments = refl
  with_image-off h t name outside_region = refl
  with_image-off h t name truncated = refl
  with_image-off h t name out_of_fuel = refl

  with_file-off :
      (h : Machine) (t : ℕ) (name : List ℕ) (i : Image) (x : ℕ)
      → Sound i
      → Fits i
      → OffStage x
      → OffWindow (window_base t) (window_base t + 0x400000) x
      → (with_file pdpt_table archive files handle h t name i).0.mem x ≡ h.mem x
  unfolding with_file
  with_file-off h t name not_found x s f o w = refl
  with_file-off h t name (unreadable n) x s f o w = refl
  with_file-off h t name (bytes bs) x s f o w =
      let hi = window_base t + 0x400000 in
      let l = elf_load_in stage (length bs) (window_base t) hi (put_stage h.mem bs) in
      ap (λ (m : Memory). m x) (with_image-off (record h { mem = l.0 }) t name l.1)
      ∙ loaded-off h.mem bs (window_base t) hi (behind t) s f x o w
    where
      behind : (t : ℕ) → stage + stage_size ≤ window_base t
      behind t = ground arith

  load_task-off :
      (h : Machine) (t : ℕ) (name : List ℕ) (x : ℕ)
      → Sound (read_opened archive files (vfs_open files name handle))
      → OffStage x
      → OffWindow (window_base t) (window_base t + 0x400000) x
      → (load_task pdpt_table archive files handle h t name).0.mem x ≡ h.mem x
  unfolding load_task
  load_task-off h t name x s o w =
      let opened = vfs_open files name handle in
      with_file-off h t name (read_opened archive files opened) x s
        (read_opened-Fits archive files opened) o w

  after_second-off :
      (r : Machine × Bool) → (after_second pdpt_table archive files handle r).0.mem ≡ r.0.mem
  unfolding after_second
  after_second-off (h, false) = refl
  after_second-off (h, true) = refl

  after_first-off :
      (name_b : List ℕ) (r : Machine × Bool) (x : ℕ)
      → Sound (read_opened archive files (vfs_open files name_b handle))
      → OffStage x
      → OffWindow 0x19500000 0x19900000 x
      → (after_first pdpt_table archive files handle name_b r).0.mem x ≡ r.0.mem x
  unfolding after_first
  after_first-off name_b (h, false) x s o w = refl
  after_first-off name_b (h, true) x s o w =
      ap (λ (m : Memory). m x)
        (after_second-off (load_task pdpt_table archive files handle h 1 name_b))
      ∙ load_task-off h 1 name_b x s o w

  -- Let each of the two named files, if it is there, be an executable whose header and program
  -- headers lie in it, where no sum in a program header wraps and no file part is longer than its
  -- memory part. Then `sam_run_pair` changes memory only in the staging buffer and in the two
  -- windows, and either gives up or enters ring 3 with a task table from which the scheduler runs
  -- both tasks: it is well-formed, with task 0 current and its saved frame that of the entry, at the
  -- top of the first window; both have an address space, and task 1 waits for its start at the top
  -- of the second window. The tables have two slots.
  pub sam_run_pair-IsStarted :
      (h : Machine) (name_a name_b : List ℕ)
      → Sound (read_opened archive files (vfs_open files name_a handle))
      → Sound (read_opened archive files (vfs_open files name_b handle))
      → length h.kernel.tasks ≡ 2
      → length h.kernel.entry ≡ 2
      → length h.kernel.stktop ≡ 2
      → let (after, start) = sam_run_pair pdpt_table archive files handle h name_a name_b in
        IsStarted after start
        × ((x : ℕ)
            → OffStage x
            → OffWindow 0x19000000 0x19400000 x
            → OffWindow 0x19500000 0x19900000 x
            → after.mem x ≡ h.mem x)
  unfolding sam_run_pair load_task
  sam_run_pair-IsStarted h name_a name_b sound_a sound_b ts es ss =
      let first = load_task pdpt_table archive files handle h 0 name_a in
      (
        after_first-IsStarted h.kernel name_b first ts es ss (loads h name_a),
        λ x o w0 w1.
            after_first-off name_b first x sound_b o w1 ∙ load_task-off h 0 name_a x sound_a o w0,
      )
    where
      loads :
          (h : Machine) (name : List ℕ)
          → WellLoaded 0 h.kernel (load_task pdpt_table archive files handle h 0 name)
      loads h name =
          with_file-IsRegistered pdpt_table archive files handle h 0 name
            (read_opened archive files (vfs_open files name handle))
