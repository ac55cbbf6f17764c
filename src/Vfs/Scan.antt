-- ===== src/Vfs/Scan.antt =====
-- `vfs_init` on any archive at all: its loop ends, and the table it leaves is well-formed.
use samos.Base.{
  ℕ, zero, suc, ◌+◌, ◌*◌, ◌/◌, ◌%◌, ◌^◌, ◌≤◌, ◌<◌, ◌≡◌, ◌≢◌, ◌⊎◌, ap, arith, false, ◌||◌, ◌&&◌, not,
  ltb, leb, ◌==◌, if◌then◌else◌, List, [], ◌∷◌, ◌++◌, length, length-append, All, Memory, add32,
  bit_and-align, if-cases,
}
use samos.Vfs.{
  VfsFile, InitResult, registered, out_of_fuel, vfs_max_files, vfs_name_max, zero_block,
  ustar_magic, path_bytes, entry_size, table_entry, regular, advance, init_loop, vfs_init,
}

-- The step to the next header, for a size in 32 bits.
pub advance-eq :
    (m : Memory) (p : ℕ)
    → advance m p ≡ (512 + (entry_size m p + 511) % 2 ^ 32 / 512 * 512) % 2 ^ 32
advance-eq m p = ap (add32 512) (bit_and-align 9 23 (add32 (entry_size m p) 511) (omega arith))

pub advance-bound : (m : Memory) (p : ℕ) → (advance m p ≡ 0) ⊎ (512 ≤ advance m p)
advance-bound m p = omega (arith, advance-eq m p)

init_loop-finishes :
    (m : Memory) (end fuel p : ℕ) (files : List VfsFile)
    → 0 < fuel
    → end < p + 512 * fuel
    → (init_loop m end fuel p files).1 ≢ out_of_fuel
unfolding init_loop
init_loop-finishes m end zero p files pos enough = absurd (omega arith)
init_loop-finishes m end (suc fuel) p files pos enough =
    if-cases done (ltb end (p + 512) || zero_block m p 512) (λ _ e. ground arith)
      (λ go.
        if-cases done (not (ustar_magic m p)) (λ _ e. ground arith)
          (λ _.
            if-cases done (regular m p && leb vfs_max_files (length files)) (λ _ e. ground arith)
              (λ _.
                if-cases done (advance m p == 0) (λ _ e. ground arith)
                  (λ ne.
                    let adv = advance-bound m p in
                    let in_end : p + 512 ≤ end = ground arith in
                    let far : 512 ≤ advance m p = ground arith in
                    init_loop-finishes m end fuel (p + advance m p)
                      (if regular m p then files ++ (table_entry m end p ∷ []) else files)
                      (omega arith) (omega (arith, far))))))
  where
    done : List VfsFile × InitResult → Type 0
    done r = r.1 ≢ out_of_fuel

path_bytes-length : (m : Memory) (p n : ℕ) → length (path_bytes m p n) ≤ n
unfolding path_bytes
path_bytes-length m p zero = omega arith
path_bytes-length m p (suc n) = ground (arith, path_bytes-length m (p + 1) n)

-- An entry whose contents lie inside the archive, and whose name fits its field.
pub record IsInside (end : ℕ) (f : VfsFile) : Type 0 where
  pub inside : f.data_at + f.size ≤ end
  pub fits : length f.name ≤ vfs_name_max

-- A table of at most 16 such entries.
pub record IsTable (end : ℕ) (files : List VfsFile) : Type 0 where
  pub count : length files ≤ vfs_max_files
  pub entries : All (IsInside end) files

table_entry-IsInside : (m : Memory) (end p : ℕ) → p + 512 ≤ end → IsInside end (table_entry m end p)
unfolding table_entry
table_entry-IsInside m end p h = record {
  inside = ground arith;
  fits = omega (arith, path_bytes-length m p 99);
}

All-append :
    (P : VfsFile → Type 0) (xs : List VfsFile) (y : VfsFile)
    → All P xs
    → P y
    → All P (xs ++ (y ∷ []))
All-append P [] y a b = (b, tt)
All-append P (x ∷ xs) y a b = (a.0, All-append P xs y a.1 b)

-- The table is well-formed, and a number that is returned is the number of its entries.
pub record IsScanned (end : ℕ) (r : List VfsFile × InitResult) : Type 0 where
  pub table : IsTable end r.0
  pub counted : (n : ℕ) → r.1 ≡ registered n → n ≡ length r.0

registered_inj : (a b : ℕ) → registered a ≡ registered b → b ≡ a
registered_inj a b e = ground arith

extended :
    (m : Memory) (end p : ℕ) (files : List VfsFile)
    → IsTable end files
    → p + 512 ≤ end
    → (regular m p && leb vfs_max_files (length files)) ≡ false
    → IsTable end (if regular m p then files ++ (table_entry m end p ∷ []) else files)
extended m end p files t h room =
    if-cases (IsTable end) (regular m p)
      (λ r. record {
        count = ground (arith, length-append files (table_entry m end p ∷ []));
        entries =
            All-append (IsInside end) files (table_entry m end p) t.entries
              (table_entry-IsInside m end p h);
      })
      (λ _. t)

init_loop-IsScanned :
    (m : Memory) (end fuel p : ℕ) (files : List VfsFile)
    → IsTable end files
    → IsScanned end (init_loop m end fuel p files)
unfolding init_loop
init_loop-IsScanned m end zero p files t = record { table = t; counted = λ n e. ground arith }
init_loop-IsScanned m end (suc fuel) p files t =
    if-cases (IsScanned end) (ltb end (p + 512) || zero_block m p 512) (λ _. found files t)
      (λ go.
        if-cases (IsScanned end) (not (ustar_magic m p))
          (λ _. record {
            table = t;
            counted = λ n.
                if-cases (λ r. r ≡ registered n → n ≡ length files) (length files == 0)
                  (λ _ e. ground arith) (λ _. registered_inj (length files) n);
          })
          (λ _.
            if-cases (IsScanned end) (regular m p && leb vfs_max_files (length files))
              (λ _. record { table = t; counted = λ n e. ground arith })
              (λ room.
                let t' = extended m end p files t (ground arith) room in
                if-cases (IsScanned end) (advance m p == 0) (λ _. found files' t')
                  (λ ne. init_loop-IsScanned m end fuel (p + advance m p) files' t'))))
  where
    files' : List VfsFile
    files' = if regular m p then files ++ (table_entry m end p ∷ []) else files

    found : (fs : List VfsFile) → IsTable end fs → IsScanned end (fs, registered (length fs))
    found fs tf = record { table = tf; counted = λ n. registered_inj (length fs) n }

-- Whatever an archive of at least one block holds, `vfs_init` ends, within as many rounds as it has blocks: the table
-- then has at most 16 entries, each with its contents inside the archive and a name of at most 100
-- bytes, and a number that is returned is the number of entries.
pub vfs_init-IsScanned :
    (m : Memory) (archive_size : ℕ) (files : List VfsFile)
    → 512 ≤ archive_size
    → let r = vfs_init m false archive_size files in (r.1 ≢ out_of_fuel) × IsScanned archive_size r
unfolding vfs_init
vfs_init-IsScanned m archive_size files h =
    let big : ltb archive_size 512 ≡ false = ground arith in
    rw big (
      init_loop-finishes m archive_size (archive_size / 512 + 1) 0 [] (omega arith) (omega arith),
      init_loop-IsScanned m archive_size (archive_size / 512 + 1) 0 []
          (record { count = omega arith; entries = tt }),
    )
