-- ===== src/Vfs/Archive.antt =====
-- What a ustar archive is, and that `vfs_init` finds in it the files that were put there.
use samos.Base.{
  ℕ, zero, suc, ◌+◌, ◌*◌, ◌/◌, ◌^◌, ◌≤◌, ◌<◌, ◌≡◌, ◌≢◌, inr, refl, ◌∙◌, ap, ap₂, arith, Bool, true,
  false, ◌||◌, ltb, leb, ◌==◌, List, [], ◌∷◌, ◌++◌, length, length-append, get_or, All, Memory, u32,
}
use mathlib.Core.List.{append-nil, append_assoc}
use samos.Vfs.{
  VfsFile, registered, zero_block, ustar_magic, path_bytes, entry_size, table_entry, regular,
  advance, init_loop, vfs_init,
}
use samos.Vfs.Octal.{octal_digit, vfs_octal-octal_digit}
use samos.Vfs.Scan.{advance-eq}

-- A file as it is put into an archive.
pub record TarFile : Type 0 where
  pub path : List ℕ
  pub content : List ℕ

-- The header at `p`, followed by the contents.
pub record IsStored (m : Memory) (p : ℕ) (f : TarFile) : Type 0 where
  pub path_at : (i : ℕ) → i < length f.path → m (p + i) ≡ get_or f.path i 0
  pub path_chars : All (λ c. 0 < c) f.path
  pub path_end : m (p + length f.path) ≡ 0
  pub path_fits : length f.path < 100
  pub type_flag : m (p + 156) ≡ 48
  pub size_at : (i : ℕ) → i < 11 → m (p + 124 + i) ≡ octal_digit (length f.content) 11 i
  pub size_end : m (p + 124 + 11) ≡ 0
  pub small : length f.content < 2 ^ 31
  pub u : m (p + 257) ≡ 117
  pub s : m (p + 258) ≡ 115
  pub t : m (p + 259) ≡ 116
  pub a : m (p + 260) ≡ 97
  pub r : m (p + 261) ≡ 114
  pub content_at : (i : ℕ) → i < length f.content → m (p + 512 + i) ≡ get_or f.content i 0

-- A length up to the next multiple of the block size.
abbrev pub padded : ℕ → ℕ
padded n = (n + 511) / 512 * 512

abbrev pub next_header : ℕ → TarFile → ℕ
next_header p f = p + 512 + padded (length f.content)

-- The archive that ends at `end` holds these files from `p` on, and then a zero block or nothing.
pub data IsTar (m : Memory) (end : ℕ) : ℕ → List TarFile → Type 0 where
  ends_there : {p : ℕ} → end < p + 512 → IsTar m end p []
  ends_with_zeros : {p : ℕ} → ((i : ℕ) → i < 512 → m (p + i) ≡ 0) → IsTar m end p []
  stores :
      {p : ℕ} {f : TarFile} {fs : List TarFile}
      → IsStored m p f
      → next_header p f ≤ end
      → IsTar m end (next_header p f) fs
      → IsTar m end p (f ∷ fs)

-- The entry for a file whose header is at `p`, and the entries for all of them.
abbrev pub entry_of : ℕ → TarFile → VfsFile
entry_of p f = record { name = 47 ∷ f.path; data_at = p + 512; size = length f.content }

abbrev pub table_of : ℕ → List TarFile → List VfsFile
table_of p [] = []
table_of p (f ∷ fs) = entry_of p f ∷ table_of (next_header p f) fs

zero_block-zeros :
    (m : Memory) (p n : ℕ) → ((i : ℕ) → i < n → m (p + i) ≡ 0) → zero_block m p n ≡ true
unfolding zero_block
zero_block-zeros m p zero h = refl
zero_block-zeros m p (suc n) h =
    let z : m p ≡ 0 = ap m (omega arith) ∙ h 0 (omega arith) in
    rw z (zero_block-zeros m (p + 1) n (λ i l. ap m (omega arith) ∙ h (suc i) (omega arith)))

zero_block-ne : (m : Memory) (p n i : ℕ) → i < n → m (p + i) ≢ 0 → zero_block m p n ≡ false
unfolding zero_block
zero_block-ne m p zero i l h = absurd (omega arith)
zero_block-ne m p (suc n) zero l h =
    let ne : m p ≢ 0 = λ z. h (ap m (omega arith) ∙ z) in ground arith
zero_block-ne m p (suc n) (suc i) l h =
    rw (zero_block-ne m (p + 1) n i (omega arith) (λ z. h (ap m (omega arith) ∙ z))) (ground arith)

path_bytes-eq :
    (m : Memory) (p n : ℕ) (path : List ℕ)
    → ((i : ℕ) → i < length path → m (p + i) ≡ get_or path i 0)
    → All (λ c. 0 < c) path
    → m (p + length path) ≡ 0
    → length path ≤ n
    → path_bytes m p n ≡ path
unfolding path_bytes
path_bytes-eq m p zero [] at pos stop fits = refl
path_bytes-eq m p zero (c ∷ path) at pos stop fits = absurd (omega arith)
path_bytes-eq m p (suc n) [] at pos stop fits =
    let z : m p ≡ 0 = ap m (omega arith) ∙ stop in rw z refl
path_bytes-eq m p (suc n) (c ∷ path) at pos stop fits =
    let here : m p ≡ c = ap m (omega arith) ∙ at 0 (omega arith) in
    let some_char : c == 0 ≡ false = ground (arith, pos.0) in
    rw (here, some_char)
      (ap (λ cs. c ∷ cs)
        (path_bytes-eq m (p + 1) n path (λ i l. ap m (omega arith) ∙ at (suc i) (omega arith)) pos.1
          (ap m (omega arith) ∙ stop) (omega arith)))

-- What the code computes at a stored header.
module _ (m : Memory) (end p : ℕ) (f : TarFile) (st : IsStored m p f) where
  stored-size : entry_size m p ≡ length f.content
  stored-size =
      ap u32 (
        vfs_octal-octal_digit m (p + 124) 11 12 (length f.content) (omega (arith, st.small))
          (omega (arith, st.small)) st.size_at (omega arith) (inr (rw st.size_end (omega arith))))
      ∙ omega (arith, st.small)

  pub stored-entry : next_header p f ≤ end → table_entry m end p ≡ entry_of p f
  unfolding table_entry
  stored-entry h =
      let inside : ltb end (p + 512 + length f.content) ≡ false = ground arith in
      rw
        (
          path_bytes-eq m p 99 f.path st.path_at st.path_chars st.path_end
              (omega (arith, st.path_fits)),
          stored-size,
          inside,
        )
        refl

  pub stored-magic : ustar_magic m p ≡ true
  unfolding ustar_magic
  stored-magic = rw (st.u, st.s, st.t, st.a, st.r) refl

  pub stored-regular : regular m p ≡ true
  stored-regular = rw st.type_flag refl

  pub stored-zero_block : zero_block m p 512 ≡ false
  stored-zero_block = zero_block-ne m p 512 257 (omega arith) (omega (arith, st.u))

  pub stored-advance : advance m p ≡ 512 + padded (length f.content)
  stored-advance = advance-eq m p ∙ rw stored-size (omega (arith, st.small))

or_true : (b : Bool) → (b || true) ≡ true
or_true true = refl
or_true false = refl

init_loop-IsTar :
    (m : Memory) (end fuel p : ℕ) (files : List VfsFile) (fs : List TarFile)
    → IsTar m end p fs
    → length files + length fs ≤ 16
    → 0 < fuel
    → end < p + 512 * fuel
    → init_loop m end fuel p files
      ≡ (files ++ table_of p fs, registered (length (files ++ table_of p fs)))
unfolding init_loop
init_loop-IsTar m end zero p files fs tar room pos enough = absurd (omega arith)
init_loop-IsTar m end (suc fuel) p files _ (ends_there e) room pos enough =
    let over : ltb end (p + 512) ≡ true = ground arith in rw (over, append-nil files) refl
init_loop-IsTar m end (suc fuel) p files _ (ends_with_zeros z) room pos enough =
    rw (zero_block-zeros m p 512 z, append-nil files) (rw (or_true (ltb end (p + 512))) refl)
init_loop-IsTar m end (suc fuel) p files _ (stores {f = f} {fs = fs} st h tar) room pos enough =
    let inside : ltb end (p + 512) ≡ false = ground arith in
    let free : leb 16 (length files) ≡ false = ground arith in
    let far : (advance m p == 0) ≡ false = ground (arith, stored-advance m end p f st) in
    let rest =
      init_loop-IsTar m end fuel (next_header p f) (files ++ (entry_of p f ∷ [])) fs tar
        (omega (arith, room, length-append files (entry_of p f ∷ []))) (omega arith)
        (omega arith) in
    rw
      (
        inside,
        stored-zero_block m end p f st,
        stored-magic m end p f st,
        stored-regular m end p f st,
        free,
        far,
      )
      (ap₂ (λ q e. init_loop m end fuel q (files ++ (e ∷ [])))
          (ap (λ a. p + a) (stored-advance m end p f st) ∙ omega arith)
          (stored-entry m end p f st (omega arith))
        ∙ rest
        ∙ ap (λ l. (l, registered (length l)))
            (append_assoc files (entry_of p f ∷ []) (table_of (next_header p f) fs)))

-- From an archive of at least one block that holds at most 16 files, whose paths have fewer than 100 bytes and whose
-- sizes are below 2 GiB, `vfs_init` registers exactly these files, in order: each by its path after
-- a '/', with the place and the length of its contents.
pub vfs_init-IsTar :
    (m : Memory) (archive_size : ℕ) (before : List VfsFile) (fs : List TarFile)
    → 512 ≤ archive_size
    → IsTar m archive_size 0 fs
    → length fs ≤ 16
    → vfs_init m false archive_size before ≡ (table_of 0 fs, registered (length (table_of 0 fs)))
unfolding vfs_init
vfs_init-IsTar m archive_size before fs big tar room =
    let enough : ltb archive_size 512 ≡ false = ground arith in
    rw enough (
      init_loop-IsTar m archive_size (archive_size / 512 + 1) 0 [] fs tar (omega arith)
        (omega arith) (omega arith))
