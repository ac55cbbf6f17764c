-- ===== src/Run.antt =====
-- kernel/main.c: `sam_run_pair` up to the point where the first task enters ring 3 (`sam_run_task`
-- is in Task). It composes the file system, the loader, the address spaces and the task table.
-- Names are lists of bytes; the initrd is a memory of its own, as for Vfs, and so are the page
-- tables, as for Vmm, and the kernel's globals. Memory has a byte at every address, while the kernel
-- maps the first 4 GiB, so that a program header whose sums wrap, which the loader accepts, faults
-- there and goes on here; Staged says which images have none.
pub mod Staged
pub mod Pair
pub mod Task
mod Tests
use samos.Base.{
  ℕ, zero, suc, ◌+◌, ◌-◌, ◌*◌, ◌^◌, Bool, true, false, ◌&&◌, not, leb, ltb, ◌==◌, if◌then◌else◌,
  Option, some, none, List, [], ◌∷◌, ◌++◌, length, get_or, set, Memory,
}
use samos.Serial.{codes, serial_puts, serial_puthex, serial_putdec}
use samos.Vfs.{VfsFile, VfsFileHandle, vfs_open, vfs_read}
use samos.Elf.{
  LoadResult, loaded, bad_image, no_segments, outside_region, truncated, out_of_fuel, elf_load_in,
}
use samos.Vmm.{Vmm, vmm_create_user_as_at}
use samos.Tasks.{Kernel, Tcb, task, sam_task_mark_start}

-- `stage`: GENERAL_DOMAIN_BASE + 1 MiB
abbrev pub stage : ℕ
stage = 0x14200000 + 0x00100000

-- The globals, memory and the pool of page tables.
pub record Machine : Type 0 where
  pub kernel : Kernel
  pub mem : Memory
  pub vmm : Vmm

abbrev pub say : Machine → List ℕ → Machine
say h text = record h { kernel = record h.kernel { serial = h.kernel.serial ++ text } }

-- What open, read and close of an image give: no file, nothing read (with
-- what `vfs_read` returned, as an uint64_t), or the bytes.
pub data Image : Type 0 where
  not_found : Image
  unreadable : ℕ → Image
  bytes : List ℕ → Image

abbrev pub read_result : Option (List ℕ) → Image
read_result none = unreadable (2 ^ 64 - 1)
read_result (some []) = unreadable 0
read_result (some (b ∷ bs)) = bytes (b ∷ bs)

pub read_opened : Memory → List VfsFile → VfsFileHandle × Bool → Image
read_opened archive files (h, false) = not_found
read_opened archive files (h, true) = read_result (vfs_read archive files h 0x00100000).1

-- The bytes read, in the staging buffer.
abbrev pub put_stage : Memory → List ℕ → Memory
put_stage m bs x = if leb stage x && ltb x (stage + length bs) then get_or bs (x - stage) 0 else m x

-- `base[t]`
abbrev pub window_base : ℕ → ℕ
window_base t = if t == 0 then 0x19000000 else 0x19500000

-- `-er`
abbrev pub error_number : LoadResult → ℕ
error_number (loaded e) = 0
error_number bad_image = 1
error_number no_segments = 2
error_number outside_region = 3
error_number truncated = 4
error_number out_of_fuel = 0

abbrev pub not_found_text : List ℕ → List ℕ
not_found_text name =
    serial_puts (codes "     [FAIL] ") ++ (serial_puts name ++ serial_puts (codes " not found\n"))

abbrev pub load_error_text : List ℕ → LoadResult → List ℕ
load_error_text name r =
    serial_puts (codes "     [FAIL] elf_load(")
    ++ (serial_puts name
        ++ (serial_puts (codes ") error: ")
            ++ (serial_putdec (error_number r) ++ serial_puts (codes "\n"))))

abbrev pub loaded_text : List ℕ → ℕ → ℕ → List ℕ
loaded_text name base entry =
    serial_puts (codes "     [OK] ")
    ++ (serial_puts name
        ++ (serial_puts (codes " loaded @")
            ++ (serial_puthex base
                ++ (serial_puts (codes " entry=")
                    ++ (serial_puthex entry ++ serial_puts (codes "\n"))))))

-- The entries of task `t` in the tables.
abbrev pub register_task : Kernel → ℕ → ℕ → ℕ → Kernel
register_task k t entry cr3 = record k {
  entry = set k.entry t entry;
  stktop = set k.stktop t (window_base t + 0x400000);
  tasks = set k.tasks t (record (task k t) { cr3 = cr3; started = false });
}

-- After the loop, with `sam_task_mark_start` of task 0.
abbrev pub start_pair : Kernel → Kernel
start_pair k = sam_task_mark_start (record k { ntasks = 2; cur = 0; quantum = 0 }) 0

-- `return 0`, or `sam_user_enter`.
pub data Start : Type 0 where
  gives_up : Start
  enters : (rip rsp cr3 : ℕ) → Start

module _ (pdpt_table : ℕ) (archive : Memory) (files : List VfsFile) (handle : VfsFileHandle) where
  -- The body of the loop over the two tasks, from its end to its start; `false` is `return 0`.
  pub with_space : Machine → ℕ → List ℕ → ℕ → Vmm × ℕ → Machine × Bool
  with_space h t name entry (v, cr3) = if cr3 == 0 then (record h { vmm = v }, false) else (
    say (record h { vmm = v; kernel = register_task h.kernel t entry cr3 })
        (loaded_text name (window_base t) entry),
    true,
  )

  pub with_image : Machine → ℕ → List ℕ → LoadResult → Machine × Bool
  with_image h t name (loaded entry) =
      with_space h t name entry (vmm_create_user_as_at pdpt_table h.vmm (window_base t))
  with_image h t name r = (say h (load_error_text name r), false)

  pub with_file : Machine → ℕ → List ℕ → Image → Machine × Bool
  with_file h t name not_found = (say h (not_found_text name), false)
  with_file h t name (unreadable n) = (h, false)
  with_file h t name (bytes bs) =
      let l =
        elf_load_in stage (length bs) (window_base t) (window_base t + 0x400000)
          (put_stage h.mem bs) in
      with_image (record h { mem = l.0 }) t name l.1

  pub load_task : Machine → ℕ → List ℕ → Machine × Bool
  load_task h t name = with_file h t name (read_opened archive files (vfs_open files name handle))

  pub after_second : Machine × Bool → Machine × Start
  after_second (h, false) = (h, gives_up)
  after_second (h, true) = (
    record h { kernel = start_pair h.kernel },
    enters (get_or h.kernel.entry 0 0) (get_or h.kernel.stktop 0 0) (task h.kernel 0).cr3,
  )

  pub after_first : List ℕ → Machine × Bool → Machine × Start
  after_first name_b (h, false) = (h, gives_up)
  after_first name_b (h, true) = after_second (load_task h 1 name_b)

  pub sam_run_pair : Machine → List ℕ → List ℕ → Machine × Start
  sam_run_pair h name_a name_b = after_first name_b (load_task h 0 name_a)
