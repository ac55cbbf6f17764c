-- ===== src/Run/Staged.antt =====
-- kernel/main.c: what the loader does with a staged image, for `sam_run_task` and `sam_run_pair`.
use samos.Base.{
  ℕ, ◌+◌, ◌*◌, ◌<◌, ◌≤◌, ◌≡◌, ◌⊎◌, inl, refl, ◌∙◌, arith, Bool, true, false, ◌&&◌, leb, ltb,
  if-cases, Option, none, some, List, [], ◌∷◌, length, Memory,
}
use samos.Vfs.{VfsFile, VfsFileHandle, vfs_read}
use samos.Vfs.Read.{AtMost, vfs_read-AtMost}
use samos.Elf.{ehdr_size, e_phnum, e_phoff, e_phentsize, read_phdr, phdr_address, elf_load_in}
use samos.Elf.Image.{IsSized, IsPlaced}
use samos.Elf.Safety.{elf_load_in-Agrees}
use samos.Run.{stage, put_stage, Image, not_found, unreadable, bytes, read_result, read_opened}

-- The bytes that are asked for, which a read does not exceed.
abbrev pub stage_size : ℕ
stage_size = 0x00100000

-- Outside the staging buffer.
abbrev pub OffStage : ℕ → Type 0
OffStage x = (x < stage) ⊎ (stage + stage_size ≤ x)

abbrev pub OffWindow : ℕ → ℕ → ℕ → Type 0
OffWindow lo hi x = (x < lo) ⊎ (hi ≤ x)

-- An executable whose header and program headers lie in it, where no sum in a program header wraps
-- and no file part is longer than its memory part. Around it memory holds anything.
pub record IsSound (bs : List ℕ) : Type 0 where
  pub header : ehdr_size ≤ length bs
  pub table :
      (m : Memory)
      → let s = put_stage m bs in
        e_phoff s stage + e_phnum s stage * e_phentsize s stage ≤ length bs
  pub sized :
      (m : Memory) (i : ℕ)
      → let s = put_stage m bs in
        i < e_phnum s stage → IsSized (read_phdr s (phdr_address s stage i))

-- If an image was read it is sound.
abbrev pub Sound : Image → Type 0
Sound not_found = Unit
Sound (unreadable n) = Unit
Sound (bytes bs) = IsSound bs

-- If an image was read it fits in the staging buffer.
abbrev pub Fits : Image → Type 0
Fits not_found = Unit
Fits (unreadable n) = Unit
Fits (bytes bs) = length bs ≤ stage_size

read_result-Fits : (o : Option (List ℕ)) → AtMost stage_size o → Fits (read_result o)
read_result-Fits none h = tt
read_result-Fits (some []) h = tt
read_result-Fits (some (b ∷ bs)) h = h

pub read_opened-Fits :
    (archive : Memory) (files : List VfsFile) (r : VfsFileHandle × Bool)
    → Fits (read_opened archive files r)
unfolding read_opened
read_opened-Fits archive files (h, false) = tt
read_opened-Fits archive files (h, true) =
    read_result-Fits (vfs_read archive files h stage_size).1
      (vfs_read-AtMost archive files h stage_size)

module _ (m : Memory) (bs : List ℕ) (lo hi : ℕ) (behind : stage + stage_size ≤ lo)
    (sound : IsSound bs) (fits : length bs ≤ stage_size) where
  put_stage-off : (x : ℕ) → OffStage x → put_stage m bs x ≡ m x
  put_stage-off x o =
      if-cases (λ v. v ≡ m x) (leb stage x && ltb x (stage + length bs)) (λ e. absurd (inside e o))
        (λ e. refl)
    where
      inside : (leb stage x && ltb x (stage + length bs)) ≡ true → OffStage x → ⊥
      inside e o = ground arith

  staged-IsPlaced : IsPlaced (put_stage m bs) stage (length bs) lo hi
  staged-IsPlaced = record {
    apart = inl (omega arith);
    size_fits = omega arith;
    image_fits = omega arith;
    header = sound.header;
    table = sound.table m;
    sized = sound.sized m;
  }

  -- Loading a staged image changes memory only in the staging buffer and in the window.
  pub loaded-off :
      (x : ℕ)
      → OffStage x
      → OffWindow lo hi x
      → (elf_load_in stage (length bs) lo hi (put_stage m bs)).0 x ≡ m x
  loaded-off x o w =
      elf_load_in-Agrees (put_stage m bs) stage (length bs) lo hi staged-IsPlaced x w
      ∙ put_stage-off x o
