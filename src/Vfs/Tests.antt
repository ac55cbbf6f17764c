-- ===== src/Vfs/Tests.antt =====
-- A small archive: the file `a` with the contents "hi", written by hand, and an octal field.
use samos.Base.{
  ℕ, ◌+◌, ◌-◌, ◌<◌, ◌≡◌, ◌≢◌, inr, refl, arith, true, false, ltb, ◌==◌, if◌then◌else◌, some, get_or,
  List, [], ◌∷◌, Memory, Bool, suc, zero, Bool-cases, ◌∙◌, ap, sym, inl, false, if◌then◌else◌,
}
use samos.Vfs.{VfsFile, VfsFileHandle, registered, out_of_fuel, vfs_init, vfs_open, vfs_read}
use samos.Vfs.Octal.{octal_digit}
use samos.Vfs.Scan.{IsScanned, vfs_init-IsScanned}
use samos.Vfs.Archive.{TarFile, IsStored, IsTar, stores, ends_there, table_of, vfs_init-IsTar}
use samos.Vfs.Read.{IsOpen, open_read-content}

abbrev hello : TarFile
hello = record { path = 97 ∷ []; content = 104 ∷ 105 ∷ [] }

-- The size field, the type flag and the magic word, and the contents behind the header.
abbrev archive : Memory
archive x =
    if ltb x 124
    then get_or (97 ∷ []) x 0
    else if ltb x 136
    then get_or (48 ∷ 48 ∷ 48 ∷ 48 ∷ 48 ∷ 48 ∷ 48 ∷ 48 ∷ 48 ∷ 48 ∷ 50 ∷ []) (x - 124) 0
    else if x == 156
    then 48
    else if ltb x 257
    then 0
    else if ltb x 512
    then get_or (117 ∷ 115 ∷ 116 ∷ 97 ∷ 114 ∷ []) (x - 257) 0
    else get_or (104 ∷ 105 ∷ []) (x - 512) 0

-- Two arrays are compared up to a length, by evaluation.
same_up_to : (ℕ → ℕ) → (ℕ → ℕ) → ℕ → Bool
same_up_to f g zero = true
same_up_to f g (suc n) = if f n == g n then same_up_to f g n else false

agree : (n : ℕ) (f g : ℕ → ℕ) → same_up_to f g n ≡ true → (i : ℕ) → i < n → f i ≡ g i
unfolding same_up_to
agree zero f g h i l = absurd (omega arith)
agree (suc n) f g h i l = elim (Bool-cases (i == n)) [
  | inl here ↦ let at : i ≡ n = ground arith in ap f at ∙ ground arith ∙ ap g (sym at)
  | inr below ↦ agree n f g (ground arith) i (ground arith)
]

-- The archive has a header, a block of contents and no end block.
stored : IsStored archive 0 hello
unfolding same_up_to
stored = record {
  path_at = path_at;
  path_chars = (omega arith, tt);
  path_end = refl;
  path_fits = omega arith;
  type_flag = refl;
  size_at = size_at;
  size_end = refl;
  small = omega arith;
  u = refl;
  s = refl;
  t = refl;
  a = refl;
  r = refl;
  content_at = content_at;
}
  where
    path_at : (i : ℕ) → i < 1 → archive (0 + i) ≡ get_or (97 ∷ []) i 0
    path_at i l = agree 1 (λ j. archive (0 + j)) (λ j. get_or (97 ∷ []) j 0) refl i l

    size_at : (i : ℕ) → i < 11 → archive (0 + 124 + i) ≡ octal_digit 2 11 i
    size_at i l = agree 11 (λ j. archive (0 + 124 + j)) (λ j. octal_digit 2 11 j) refl i l

    content_at : (i : ℕ) → i < 2 → archive (0 + 512 + i) ≡ get_or (104 ∷ 105 ∷ []) i 0
    content_at i l =
        agree 2 (λ j. archive (0 + 512 + j)) (λ j. get_or (104 ∷ 105 ∷ []) j 0) refl i l

tar : IsTar archive 1024 0 (hello ∷ [])
tar = stores stored (omega arith) (ends_there (omega arith))

vfs_init-IsScanned_example :
    ((vfs_init archive false 1024 []).1 ≢ out_of_fuel)
    × IsScanned 1024 (vfs_init archive false 1024 [])
vfs_init-IsScanned_example = vfs_init-IsScanned archive 1024 [] (omega arith)

vfs_init-IsTar_example :
    vfs_init archive false 1024 []
    ≡ (record { name = 47 ∷ 97 ∷ []; data_at = 512; size = 2 } ∷ [], registered 1)
vfs_init-IsTar_example = vfs_init-IsTar archive 1024 [] (hello ∷ []) (omega arith) tar (omega arith)

abbrev table : List VfsFile
table = table_of 0 (hello ∷ [])

abbrev handle : ℕ → VfsFileHandle
handle p = record { fd = some 0; pos = p }

handle-IsOpen : IsOpen table (handle 1) 0
handle-IsOpen = record {
  opened = refl;
  listed = omega arith;
  in_word = omega arith;
  in_file = omega arith;
}

open_read-content_example :
    let files = (vfs_init archive false 1024 []).0 in
    let opened = vfs_open files (47 ∷ 97 ∷ []) (handle 9) in
    (opened.1 ≡ true) × (vfs_read archive files opened.0 100 ≡ (handle 2, some (104 ∷ 105 ∷ [])))
open_read-content_example =
    open_read-content archive 1024 [] (hello ∷ []) 0 hello (handle 9) 100 (omega arith) tar
      (omega arith) refl (λ i g l e. absurd (omega arith)) (omega arith)
