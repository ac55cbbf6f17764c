-- ===== src/Vfs/Read.antt =====
-- Reading an open file: in pieces, and whole after it was found by its path in an archive.
use samos.Base.{
  ℕ, zero, suc, ◌+◌, ◌^◌, ◌≤◌, ◌<◌, ◌≡◌, ◌≢◌, refl, sym, ◌∙◌, ap, ap₂, arith, true, false, ltb, leb,
  if-cases, Option, none, some, List, [], ◌∷◌, ◌++◌, length, get_or, get_elem?, Memory, bytes_from,
  u32,
}
use mathlib.Core.Path.{subst}
use mathlib.Core.List.{tail-eq_of_cons-eq}
use samos.Vfs.{
  VfsFile, no_file, VfsFileHandle, vfs_lookup, vfs_open, vfs_read, open_at, read_fd, vfs_init,
  read_length, read_file,
}
use samos.Vfs.Archive.{
  TarFile, IsTar, ends_there, ends_with_zeros, stores, table_of, next_header, vfs_init-IsTar,
}
use samos.Vfs.Lookup.{vfs_lookup-first}

bytes_from-append :
    (m : Memory) (a n k : ℕ) → bytes_from m a n ++ bytes_from m (a + n) k ≡ bytes_from m a (n + k)
bytes_from-append m a zero k = ap₂ (bytes_from m) (omega arith) (omega arith)
bytes_from-append m a (suc n) k =
    let e : a + suc n ≡ a + 1 + n = omega arith in
    let d : suc n + k ≡ suc (n + k) = omega arith in
    rw (e, d) (ap (λ l. m a ∷ l) (bytes_from-append m (a + 1) n k))

bytes_from-list :
    (m : Memory) (a : ℕ) (bs : List ℕ)
    → ((i : ℕ) → i < length bs → m (a + i) ≡ get_or bs i 0)
    → bytes_from m a (length bs) ≡ bs
bytes_from-list m a [] h = refl
bytes_from-list m a (b ∷ bs) h =
    ap₂ (λ c cs. c ∷ cs) (ap m (omega arith) ∙ h 0 (omega arith))
      (bytes_from-list m (a + 1) bs (λ i l. ap m (omega arith) ∙ h (suc i) (omega arith)))

-- A handle to an entry of the table, at a position inside it, of a size in 32 bits.
pub record IsOpen (files : List VfsFile) (h : VfsFileHandle) (i : ℕ) : Type 0 where
  pub opened : h.fd ≡ some i
  pub listed : i < length files
  pub in_word : (get_or files i no_file).size < 2 ^ 32
  pub in_file : h.pos ≤ (get_or files i no_file).size

-- `min len (size - pos)` bytes are read from the position on, and the position moves behind them.
abbrev read_n : Memory → VfsFile → VfsFileHandle → ℕ → VfsFileHandle × Option (List ℕ)
read_n m f h n = (record h { pos = h.pos + n }, some (bytes_from m (f.data_at + h.pos) n))

read_file-read_n :
    (m : Memory) (f : VfsFile) (h : VfsFileHandle) (len : ℕ)
    → f.size < 2 ^ 32
    → h.pos ≤ f.size
    → read_file m f h len ≡ read_n m f h (read_length f h.pos len)
read_file-read_n m f h len small inside =
    if-cases (λ r. r ≡ read_n m f h (read_length f h.pos len)) (leb f.size h.pos)
      (λ e.
        let none_left : read_length f h.pos len ≡ 0 = ground arith in
        rw none_left (ap (λ q. (record h { pos = q }, some [])) (omega arith)))
      (λ e.
        let fits : u32 (h.pos + read_length f h.pos len) ≡ h.pos + read_length f h.pos len =
          ground arith in
        ap
          (λ q. (
            record h { pos = q },
            some (bytes_from m (f.data_at + h.pos) (read_length f h.pos len)),
          ))
          fits)

vfs_read-read_n :
    (m : Memory) (files : List VfsFile) (h : VfsFileHandle) (i len : ℕ)
    → IsOpen files h i
    → let f = get_or files i no_file in
      vfs_read m files h len ≡ read_n m f h (read_length f h.pos len)
unfolding vfs_read read_fd
vfs_read-read_n m files h i len o =
    let listed : ltb i (length files) ≡ true = ground (arith, o.listed) in
    ap (read_fd m files h len) o.opened
    ∙ rw listed (read_file-read_n m (get_or files i no_file) h len o.in_word o.in_file)

read_length-split :
    (f : VfsFile) (pos a b : ℕ)
    → pos ≤ f.size
    → read_length f pos a + read_length f (pos + read_length f pos a) b ≡ read_length f pos (a + b)
read_length-split f pos a b h = ground arith

-- Two reads in a row deliver, one after the other, what one read of the two lengths together
-- delivers, and leave the handle at the same place; the end of the file may fall anywhere.
pub vfs_read-split :
    (m : Memory) (files : List VfsFile) (h : VfsFileHandle) (i a b : ℕ)
    → IsOpen files h i
    → let first = vfs_read m files h a in
      let second = vfs_read m files first.0 b in
      let both = vfs_read m files h (a + b) in
      (xs : List ℕ) × (ys : List ℕ) × (first.1 ≡ some xs)
      × (second.1 ≡ some ys)
      × (both.1 ≡ some (xs ++ ys))
      × (both.0 ≡ second.0)
vfs_read-split m files h i a b o =
    let n = read_length f h.pos a in
    let k = read_length f (h.pos + n) b in
    rw
      (
        vfs_read-read_n m files h i a o,
        vfs_read-read_n m files (record h { pos = h.pos + n }) i b moved,
        vfs_read-read_n m files h i (a + b) o,
        sym (read_length-split f h.pos a b o.in_file),
      )
      (
        bytes_from m (f.data_at + h.pos) n,
        bytes_from m (f.data_at + (h.pos + n)) k,
        refl,
        refl,
        ap (λ l. some l)
            (sym (
              ap (λ q. bytes_from m (f.data_at + h.pos) n ++ bytes_from m q k) (omega arith)
              ∙ bytes_from-append m (f.data_at + h.pos) n k)),
        ap (λ q. record h { pos = q }) (omega arith),
      )
  where
    f : VfsFile
    f = get_or files i no_file

    moved : IsOpen files (record h { pos = h.pos + read_length f h.pos a }) i
    moved = record {
      opened = o.opened;
      listed = o.listed;
      in_word = o.in_word;
      in_file = ground (arith, o.in_file);
    }

table_of-get :
    (p i : ℕ) (fs : List TarFile) (f : TarFile)
    → get_elem? fs i ≡ some f
    → (i < length (table_of p fs)) × ((get_or (table_of p fs) i no_file).name ≡ 47 ∷ f.path)
table_of-get p i [] f e = absurd cc
table_of-get p zero (g ∷ fs) f e = (omega arith, cc)
table_of-get p (suc i) (g ∷ fs) f e =
    let rest = table_of-get (next_header p g) i fs f e in (omega (arith, rest.0), rest.1)

-- Where the contents of a stored file lie.
table_of-content :
    (m : Memory) (end p i : ℕ) (fs : List TarFile) (f : TarFile)
    → IsTar m end p fs
    → get_elem? fs i ≡ some f
    → let t = get_or (table_of p fs) i no_file in
      (t.size ≡ length f.content)
      × (length f.content < 2 ^ 31)
      × (bytes_from m t.data_at (length f.content) ≡ f.content)
table_of-content m end p i _ f (ends_there h) e = absurd cc
table_of-content m end p i _ f (ends_with_zeros h) e = absurd cc
table_of-content m end p zero _ f (stores {f = g} st h tar) e =
    let q : g ≡ f = cc in
    subst
      (λ x.
        (length g.content ≡ length x.content)
        × (length x.content < 2 ^ 31)
        × (bytes_from m (p + 512) (length x.content) ≡ x.content))
      q (refl, st.small, bytes_from-list m (p + 512) g.content st.content_at)
table_of-content m end p (suc i) _ f (stores {f = g} {fs = fs} st h tar) e =
    table_of-content m end (next_header p g) i fs f tar e

table_of-elem :
    (p i : ℕ) (fs : List TarFile)
    → i < length (table_of p fs)
    → (f : TarFile) × (get_elem? fs i ≡ some f)
table_of-elem p i [] l = absurd (omega arith)
table_of-elem p zero (g ∷ fs) l = (g, refl)
table_of-elem p (suc i) (g ∷ fs) l = table_of-elem (next_header p g) i fs (omega arith)

-- A file that was stored in an archive (of at least one block and at most 16 files) is found under
-- '/' and its path, unless an earlier one has the same path, and one read of at least its length
-- gives its contents.
pub open_read-content :
    (m : Memory) (archive_size : ℕ) (before : List VfsFile) (fs : List TarFile) (j : ℕ)
    (f : TarFile) (h : VfsFileHandle) (len : ℕ)
    → 512 ≤ archive_size
    → IsTar m archive_size 0 fs
    → length fs ≤ 16
    → get_elem? fs j ≡ some f
    → ((i : ℕ) (g : TarFile) → i < j → get_elem? fs i ≡ some g → g.path ≢ f.path)
    → length f.content ≤ len
    → let files = (vfs_init m false archive_size before).0 in
      let opened = vfs_open files (47 ∷ f.path) h in
      (opened.1 ≡ true)
      × (vfs_read m files opened.0 len
          ≡ (record { fd = some j; pos = length f.content }, some f.content))
unfolding vfs_open open_at
open_read-content m archive_size before fs j f h len big tar room e first enough =
    rw (vfs_init-IsTar m archive_size before fs big tar room, found)
      (refl, vfs_read-read_n m table opened j len ready ∙ whole)
  where
    table : List VfsFile
    table = table_of 0 fs

    at_j : (j < length table) × ((get_or table j no_file).name ≡ 47 ∷ f.path)
    at_j = table_of-get 0 j fs f e

    stored :
        ((get_or table j no_file).size ≡ length f.content)
        × (length f.content < 2 ^ 31)
        × (bytes_from m (get_or table j no_file).data_at (length f.content) ≡ f.content)
    stored = table_of-content m archive_size 0 j fs f tar e

    earlier : (i : ℕ) → i < j → (get_or table i no_file).name ≢ 47 ∷ f.path
    earlier i l q =
        let (g, eg) = table_of-elem 0 i fs (omega (arith, at_j.0)) in
        first i g l eg (tail-eq_of_cons-eq (sym (table_of-get 0 i fs g eg).1 ∙ q))

    found : vfs_lookup table (47 ∷ f.path) ≡ some j
    found = vfs_lookup-first table (47 ∷ f.path) j at_j.0 at_j.1 earlier

    opened : VfsFileHandle
    opened = record { fd = some j; pos = 0 }

    ready : IsOpen table opened j
    ready = record {
      opened = refl;
      listed = at_j.0;
      in_word = omega (arith, stored.0, stored.1);
      in_file = omega arith;
    }

    whole :
        read_n m (get_or table j no_file) opened (read_length (get_or table j no_file) 0 len)
        ≡ (record { fd = some j; pos = length f.content }, some f.content)
    whole =
        let n : read_length (get_or table j no_file) 0 len ≡ length f.content =
          ground (arith, stored.0) in
        rw n (
          ap₂ (λ q bs. (record { fd = some j; pos = q }, some bs)) (omega arith)
            (ap (λ a. bytes_from m a (length f.content)) (omega arith) ∙ stored.2))

length-bytes_from : (m : Memory) (a n : ℕ) → length (bytes_from m a n) ≡ n
length-bytes_from m a zero = refl
length-bytes_from m a (suc n) = ap suc (length-bytes_from m (a + 1) n)

-- What is read is no longer than what was asked for.
abbrev pub AtMost : ℕ → Option (List ℕ) → Type 0
AtMost len none = Unit
AtMost len (some bs) = length bs ≤ len

read_file-AtMost :
    (m : Memory) (f : VfsFile) (h : VfsFileHandle) (len : ℕ) → AtMost len (read_file m f h len).1
read_file-AtMost m f h len =
    if-cases (λ (r : VfsFileHandle × Option (List ℕ)). AtMost len r.1) (leb f.size h.pos)
      (λ e. omega arith)
      (λ e.
        let n = length-bytes_from m (f.data_at + h.pos) (read_length f h.pos len) in
        ground (arith, n))

pub vfs_read-AtMost :
    (m : Memory) (files : List VfsFile) (h : VfsFileHandle) (len : ℕ)
    → AtMost len (vfs_read m files h len).1
unfolding vfs_read read_fd
vfs_read-AtMost m files h len = by_fd h.fd
  where
    by_fd : (fd : Option ℕ) → AtMost len (read_fd m files h len fd).1
    by_fd none = tt
    by_fd (some i) =
        if-cases (λ (r : VfsFileHandle × Option (List ℕ)). AtMost len r.1) (ltb i (length files))
          (λ e. read_file-AtMost m (get_or files i no_file) h len) (λ e. tt)
