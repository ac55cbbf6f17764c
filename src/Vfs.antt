-- ===== src/Vfs.antt =====
-- kernel/vfs.h: the file table over an initrd in ustar format. The archive is the memory from its
-- first byte on, so that a pointer into it is an offset; the archive does not wrap round the
-- address space. The table is the list of the first `vfs_file_count` entries of `vfs_files`, and a
-- name is the list of its bytes before the NUL.
pub mod Octal
pub mod Scan
pub mod Archive
pub mod Lookup
pub mod Read
mod Tests
use samos.Base.{
  ℕ, zero, suc, ◌+◌, ◌-◌, ◌*◌, ◌/◌, ◌%◌, ◌^◌, Bool, true, false, ◌&&◌, ◌||◌, not, ltb, leb, ◌==◌,
  if◌then◌else◌, Option, some, none, List, [], ◌∷◌, ◌++◌, length, get_or, Memory, bit_or, bit_and,
  u32, u64, add32, bytes_from,
}

-- VFS_MAX_FILES, VFS_NAME_MAX
abbrev pub vfs_max_files : ℕ
vfs_max_files = 16

abbrev pub vfs_name_max : ℕ
vfs_name_max = 100

-- `vfs_file_t`
pub record VfsFile : Type 0 where
  pub name : List ℕ
  pub data_at : ℕ
  pub size : ℕ

abbrev pub no_file : VfsFile
no_file = record { name = []; data_at = 0; size = 0 }

-- `vfs_file_handle_t`: no descriptor is `fd = -1`.
pub record VfsFileHandle : Type 0 where
  pub fd : Option ℕ
  pub pos : ℕ

-- The loop of `vfs_octal`: `left` characters from `s` on, `v` read so far.
pub octal_loop : Memory → ℕ → ℕ → ℕ → ℕ
octal_loop m s zero v = v
octal_loop m s (suc left) v =
    let rest = octal_loop m (s + 1) left (bit_or (u64 (v * 8)) (m s - 48)) in
    if ltb (m s) 48 || ltb 55 (m s) then v else rest

pub vfs_octal : Memory → ℕ → ℕ → ℕ
vfs_octal m s len = octal_loop m s len 0

-- What `vfs_init` returns: a number of files, -1, -2, -3. The loop of the model has fuel, and
-- `out_of_fuel` says that it was not enough.
pub data InitResult : Type 0 where
  registered : ℕ → InitResult
  null_pointer bad_magic too_many out_of_fuel : InitResult

-- The test for the block that ends the archive.
pub zero_block : Memory → ℕ → ℕ → Bool
zero_block m p zero = true
zero_block m p (suc left) = (m p == 0) && zero_block m (p + 1) left

-- "ustar" at offset 257
pub ustar_magic : Memory → ℕ → Bool
ustar_magic m p =
    m (p + 257) == 117
    && (m (p + 258) == 115 && (m (p + 259) == 116 && (m (p + 260) == 97 && m (p + 261) == 114)))

-- The name field, up to a NUL and to `left` bytes.
pub path_bytes : Memory → ℕ → ℕ → List ℕ
path_bytes m p zero = []
path_bytes m p (suc left) =
    let rest = path_bytes m (p + 1) left in if m p == 0 then [] else m p ∷ rest

-- The size field, a `uint32_t`.
abbrev pub entry_size : Memory → ℕ → ℕ
entry_size m p = u32 (vfs_octal m (p + 124) 12)

-- The entry for the header at `p`: the path with a leading '/', and the size cut off at the end.
pub table_entry : Memory → ℕ → ℕ → VfsFile
table_entry m end p = record {
  name = 47 ∷ path_bytes m p (vfs_name_max - 1);
  data_at = p + 512;
  size = if ltb end (p + 512 + entry_size m p) then end - (p + 512) else entry_size m p;
}

-- typeflag '0' or NUL
abbrev pub regular : Memory → ℕ → Bool
regular m p = m (p + 156) == 48 || m (p + 156) == 0

-- `adv`: header and padded data, in 32 bits; `& ~511u` clears the last nine bits.
abbrev pub advance : Memory → ℕ → ℕ
advance m p = add32 512 (bit_and (add32 (entry_size m p) 511) 0xFFFFFE00)

-- The `while` loop of `vfs_init`, at the header `p` with the table so far.
pub init_loop : Memory → ℕ → ℕ → ℕ → List VfsFile → List VfsFile × InitResult
init_loop m end zero p files = (files, out_of_fuel)
init_loop m end (suc fuel) p files =
    let files' = if regular m p then files ++ (table_entry m end p ∷ []) else files in
    let rest = init_loop m end fuel (p + advance m p) files' in
    if ltb end (p + 512) || zero_block m p 512
    then (files, registered (length files))
    else if not (ustar_magic m p)
    then (files, if length files == 0 then bad_magic else registered (length files))
    else if regular m p && leb vfs_max_files (length files)
    then (files, too_many)
    else if advance m p == 0
    then (files', registered (length files'))
    else rest

-- `null` tells whether the archive pointer is null.
pub vfs_init : Memory → Bool → ℕ → List VfsFile → List VfsFile × InitResult
vfs_init m null archive_size files =
    if null || ltb archive_size 512
    then (files, null_pointer)
    else init_loop m archive_size (archive_size / 512 + 1) 0 []

-- The comparison of two C strings in `vfs_lookup`.
unfoldable pub same_name : List ℕ → List ℕ → Bool
same_name [] [] = true
same_name [] (b ∷ bs) = false
same_name (a ∷ rest) [] = false
same_name (a ∷ rest) (b ∷ bs) = (a == b) && same_name rest bs

-- The loop of `vfs_lookup` from index `i` on.
unfoldable pub lookup_from : List VfsFile → ℕ → List ℕ → Option ℕ
lookup_from [] i name = none
lookup_from (f ∷ fs) i name =
    if same_name (VfsFile.name f) name then some i else lookup_from fs (i + 1) name

unfoldable pub vfs_lookup : List VfsFile → List ℕ → Option ℕ
vfs_lookup files name = lookup_from files 0 name

unfoldable pub open_at : Option ℕ → VfsFileHandle → VfsFileHandle × Bool
open_at none h = (h, false)
open_at (some idx) h = (record { fd = some idx; pos = 0 }, true)

-- `false` is -1, with the handle left as it was.
unfoldable pub vfs_open : List VfsFile → List ℕ → VfsFileHandle → VfsFileHandle × Bool
vfs_open files name h = open_at (vfs_lookup files name) h

abbrev pub read_length : VfsFile → ℕ → ℕ → ℕ
read_length f pos len = if ltb (f.size - pos) len then f.size - pos else len

abbrev pub read_file : Memory → VfsFile → VfsFileHandle → ℕ → VfsFileHandle × Option (List ℕ)
read_file m f h len = if leb f.size h.pos then (h, some []) else (
  record h { pos = u32 (h.pos + read_length f h.pos len) },
  some (bytes_from m (f.data_at + h.pos) (read_length f h.pos len)),
)

unfoldable pub read_fd :
    Memory → List VfsFile → VfsFileHandle → ℕ → Option ℕ → VfsFileHandle × Option (List ℕ)
read_fd m files h len none = (h, none)
read_fd m files h len (some i) =
    if ltb i (length files) then read_file m (get_or files i no_file) h len else (h, none)

-- The bytes that reach the buffer, whose number is what the code returns; `none` is -1.
unfoldable pub vfs_read :
    Memory → List VfsFile → VfsFileHandle → ℕ → VfsFileHandle × Option (List ℕ)
vfs_read m files h len = read_fd m files h len h.fd

pub vfs_close : VfsFileHandle → VfsFileHandle
vfs_close h = record { fd = none; pos = 0 }
