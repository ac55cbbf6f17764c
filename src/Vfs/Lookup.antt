-- ===== src/Vfs/Lookup.antt =====
-- `vfs_lookup` finds the first entry with a name.
use samos.Base.{
  ℕ, zero, suc, ◌+◌, ◌<◌, ◌≡◌, ◌≢◌, ◌⊎◌, inl, inr, refl, sym, ap, ap₂, arith, true, if-cases,
  Option, some, none, List, [], ◌∷◌, length, get_or, All, Bool-cases, ==_refl,
}
use mathlib.Core.Path.{subst}
use samos.Vfs.{VfsFile, no_file, same_name, lookup_from, vfs_lookup}

pub same_name_sound : (a b : List ℕ) → same_name a b ≡ true → a ≡ b
unfolding same_name
same_name_sound [] [] h = refl
same_name_sound [] (y ∷ ys) h = ground arith
same_name_sound (x ∷ xs) [] h = ground arith
same_name_sound (x ∷ xs) (y ∷ ys) h =
    ap₂ (λ c cs. c ∷ cs) (ground arith) (same_name_sound xs ys (ground arith))

pub same_name_refl : (a : List ℕ) → same_name a a ≡ true
unfolding same_name
same_name_refl [] = refl
same_name_refl (x ∷ xs) = rw (==_refl x, same_name_refl xs) refl

-- What a search for `name` gives: the index of the first entry of that name, or no entry has it.
pub IsFound : List VfsFile → List ℕ → Option ℕ → Type 0
IsFound files name (some i) =
    (i < length files)
    × ((get_or files i no_file).name ≡ name)
    × ((j : ℕ) → j < i → (get_or files j no_file).name ≢ name)
IsFound files name none = All (λ f. VfsFile.name f ≢ name) files

abbrev next_index : Option ℕ → Option ℕ
next_index none = none
next_index (some j) = some (suc j)

lookup_from-suc :
    (fs : List VfsFile) (i : ℕ) (name : List ℕ)
    → lookup_from fs (i + 1) name ≡ next_index (lookup_from fs i name)
unfolding lookup_from
lookup_from-suc [] i name = refl
lookup_from-suc (f ∷ fs) i name = elim (Bool-cases (same_name f.name name)) [
  | inl e ↦ rw e (ap (λ j. some j) (omega arith))
  | inr e ↦ rw e (lookup_from-suc fs (i + 1) name)
]

IsFound-next :
    (f : VfsFile) (fs : List VfsFile) (name : List ℕ) (o : Option ℕ)
    → f.name ≢ name
    → IsFound fs name o
    → IsFound (f ∷ fs) name (next_index o)
unfolding IsFound
IsFound-next f fs name none ne h = (ne, h)
IsFound-next f fs name (some i) ne (l, e, first) = (omega arith, e, first')
  where
    first' : (j : ℕ) → j < suc i → (get_or (f ∷ fs) j no_file).name ≢ name
    first' zero lt = ne
    first' (suc j) lt = first j (omega arith)

-- `vfs_lookup` returns the index of the first entry of that name, and -1 only if no entry has it.
pub vfs_lookup-IsFound :
    (files : List VfsFile) (name : List ℕ) → IsFound files name (vfs_lookup files name)
unfolding vfs_lookup lookup_from IsFound
vfs_lookup-IsFound [] name = tt
vfs_lookup-IsFound (f ∷ fs) name =
    if-cases (IsFound (f ∷ fs) name) (same_name f.name name)
      (λ e. (omega arith, same_name_sound f.name name e, λ j lt. absurd (omega arith)))
      (λ e.
        let ne : f.name ≢ name = λ q.
          let same : same_name f.name name ≡ true = rw q (same_name_refl name) in ground arith in
        subst (IsFound (f ∷ fs) name) (sym (lookup_from-suc fs 0 name))
          (IsFound-next f fs name (vfs_lookup fs name) ne (vfs_lookup-IsFound fs name)))

All-get :
    (P : VfsFile → Type 0) (files : List VfsFile) (i : ℕ)
    → All P files
    → i < length files
    → P (get_or files i no_file)
All-get P [] i a l = absurd (omega arith)
All-get P (f ∷ fs) zero a l = a.0
All-get P (f ∷ fs) (suc i) a l = All-get P fs i a.1 (omega arith)

trichotomy : (a b : ℕ) → (a < b) ⊎ ((a ≡ b) ⊎ (b < a))
trichotomy a b = omega arith

-- There is only one first entry of a name.
pub vfs_lookup-first :
    (files : List VfsFile) (name : List ℕ) (j : ℕ)
    → j < length files
    → (get_or files j no_file).name ≡ name
    → ((i : ℕ) → i < j → (get_or files i no_file).name ≢ name)
    → vfs_lookup files name ≡ some j
unfolding IsFound
vfs_lookup-first files name j l e first =
    same (vfs_lookup files name) (vfs_lookup-IsFound files name)
  where
    same : (o : Option ℕ) → IsFound files name o → o ≡ some j
    same none a = absurd (All-get (λ f. VfsFile.name f ≢ name) files j a l e)
    same (some k) (lk, ek, fk) = elim (trichotomy k j) [
      | inl lt ↦ absurd (first k lt ek)
      | inr (inl q) ↦ ap (λ x. some x) q
      | inr (inr gt) ↦ absurd (fk j gt e)
    ]
