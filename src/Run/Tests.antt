-- ===== src/Run/Tests.antt =====
-- Two small executables in an initrd, started as a pair.
use samos.Base.{
  ℕ, zero, suc, ◌<◌, ◌-◌, ◌≡◌, refl, true, List, [], ◌∷◌, ◌++◌, replicate, none, Memory, bytes_at,
  arith,
}
use samos.Vfs.{
  VfsFile, VfsFileHandle, vfs_open, vfs_lookup, lookup_from, same_name, open_at, vfs_read, read_fd,
}
use samos.Elf.{e_phnum, e_phoff, e_phentsize, read_phdr, phdr_address}
use samos.Elf.Image.{IsSized}
use samos.Tasks.{zero_tcb, end_none, task}
use samos.Run.Staged.{OffStage, OffWindow, IsSound, Sound}
use samos.Run.{
  stage, put_stage, read_opened, Machine, gives_up, sam_run_pair, after_second, with_space,
}
use samos.Args.Strings.{total}
use samos.Run.Task.{sam_run_task, IsEntered, sam_run_task-IsEntered}
use samos.Run.Pair.{IsStarted, sam_run_pair-IsStarted}

abbrev word : ℕ → ℕ → List ℕ
word n v = v ∷ replicate (n - 1) 0

-- A little-endian address 0x19 `c` 00 00 with four bytes of zeros behind it.
abbrev address : ℕ → List ℕ
address c = 0 ∷ 0 ∷ c ∷ 0x19 ∷ replicate 4 0

-- An executable with one segment of three bytes at its entry.
abbrev image : ℕ → List ℕ
image c =
    (0x7f ∷ b'E' ∷ b'L' ∷ b'F' ∷ 2 ∷ 1 ∷ 1 ∷ 0 ∷ replicate 8 0)
    ++ word 2 2
    ++ word 2 0x3e
    ++ word 4 1
    ++ address c
    ++ word 8 64
    ++ replicate 8 0
    ++ word 4 0
    ++ word 2 64
    ++ word 2 56
    ++ word 2 1
    ++ replicate 6 0
    ++ word 4 1
    ++ replicate 4 0
    ++ word 8 120
    ++ address c
    ++ replicate 8 0
    ++ word 8 3
    ++ word 8 3
    ++ replicate 8 0
    ++ (0xaa ∷ 0xbb ∷ 0xcc ∷ [])

-- The first is linked for the first window, the second for the second.
abbrev initrd : Memory
initrd = bytes_at 0 (image 0 ++ image 0x50)

abbrev files : List VfsFile
files =
    record { name = 47 ∷ 97 ∷ []; data_at = 0; size = 123 }
    ∷ record { name = 47 ∷ 98 ∷ []; data_at = 123; size = 123 }
    ∷ []

abbrev closed : VfsFileHandle
closed = record { fd = none; pos = 0 }

abbrev booted : Machine
booted = record {
  kernel = record {
    tasks = zero_tcb ∷ zero_tcb ∷ [];
    entry = 0 ∷ 0 ∷ [];
    stktop = 0 ∷ 0 ∷ [];
    ntasks = 0;
    cur = 0;
    end_idx = 0;
    end_reason = end_none;
    exit_code = 0;
    preempt_count = 0;
    tick_count = 0;
    quantum = 0;
    serial = [];
  };
  mem = λ a. 0;
  vmm = record { bump = 0x18400000; words = λ a. 0 };
}

-- A task that has been given an address space is registered; without one the start is given up.
registered :
    let (h, ok) =
      with_space 0x5000 initrd files closed booted 1
        (47 ∷ 98 ∷ [])
        0x19500000
        (booted.vmm, 0x18403000) in
    (ok ≡ true)
    × (h.kernel.entry ≡ 0 ∷ 0x19500000 ∷ [])
    × (h.kernel.stktop ≡ 0 ∷ 0x19900000 ∷ [])
    × ((task h.kernel 1).cr3 ≡ 0x18403000)
unfolding with_space
registered = (refl, refl, refl, refl)

no_pages :
    (after_second 0x5000 initrd files closed
      (with_space 0x5000 initrd files closed booted 1 (47 ∷ 98 ∷ []) 0x19500000 (booted.vmm, 0))).1
    ≡ gives_up
unfolding with_space after_second
no_pages = refl

abbrev two_args : List (List ℕ)
two_args = (b'a' ∷ []) ∷ (b'h' ∷ b'i' ∷ []) ∷ []

-- Both images, over any memory.
image-IsSized :
    (c : ℕ) (m : Memory) (i : ℕ)
    → let s = put_stage m (image c) in
      c < 256 → i < e_phnum s stage → IsSized (read_phdr s (phdr_address s stage i))
unfolding e_phnum read_phdr phdr_address e_phoff e_phentsize
image-IsSized c m zero b h = omega arith
image-IsSized c m (suc i) b h = absurd (omega arith)

image-IsSound : (c : ℕ) → c < 256 → IsSound (image c)
unfolding e_phnum e_phoff e_phentsize
image-IsSound c b = record {
  header = omega arith;
  table = λ m. omega arith;
  sized = λ m i h. image-IsSized c m i b h;
}

first-Sound : Sound (read_opened initrd files (vfs_open files (47 ∷ 97 ∷ []) closed))
unfolding read_opened vfs_open vfs_lookup lookup_from same_name open_at vfs_read read_fd
first-Sound = image-IsSound 0 (omega arith)

second-Sound : Sound (read_opened initrd files (vfs_open files (47 ∷ 98 ∷ []) closed))
unfolding read_opened vfs_open vfs_lookup lookup_from same_name open_at vfs_read read_fd
second-Sound = image-IsSound 0x50 (omega arith)

-- The witnesses.
sam_run_pair-IsStarted_example :
    let (after, start) =
      sam_run_pair 0x5000 initrd files closed booted (47 ∷ 97 ∷ []) (47 ∷ 98 ∷ []) in
    IsStarted after start
    × ((x : ℕ)
        → OffStage x
        → OffWindow 0x19000000 0x19400000 x
        → OffWindow 0x19500000 0x19900000 x
        → after.mem x ≡ 0)
sam_run_pair-IsStarted_example =
    sam_run_pair-IsStarted 0x5000 initrd files closed booted (47 ∷ 97 ∷ []) (47 ∷ 98 ∷ [])
      first-Sound second-Sound refl refl refl

sam_run_task-IsEntered_example :
    let (after, start) = sam_run_task 0x5000 initrd files closed (47 ∷ 97 ∷ []) two_args booted in
    IsEntered two_args after start
    × ((x : ℕ) → OffStage x → OffWindow 0x19000000 0x19400000 x → after.mem x ≡ 0)
unfolding total
sam_run_task-IsEntered_example =
    sam_run_task-IsEntered 0x5000 initrd files closed (47 ∷ 97 ∷ []) two_args (omega arith)
      (omega arith) (omega arith) booted first-Sound refl
