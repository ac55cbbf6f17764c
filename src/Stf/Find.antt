-- ===== src/Stf/Find.antt =====
-- `stf_find` finds the first tensor with a name.
use samos.Base.{
  ℕ, zero, suc, ◌+◌, ◌<◌, ◌≤◌, ◌≡◌, ◌⊎◌, inl, inr, refl, sym, arith, true, if-cases, Option, some,
  none, List, [], ◌∷◌, Memory, add64, ==_refl,
}
use mathlib.Core.Path.{subst}
use samos.Stf.{StfModel, name_match, tensor_at, find_from, stf_find}

-- The C string at an address is `name`.
pub IsNamed : Memory → ℕ → List ℕ → Type 0
IsNamed m a [] = m a ≡ 0
IsNamed m a (c ∷ cs) = (m a ≡ c) × IsNamed m (add64 a 1) cs

name_match-IsNamed :
    (m : Memory) (a : ℕ) (name : List ℕ) → name_match m a name ≡ true → IsNamed m a name
unfolding name_match IsNamed
name_match-IsNamed m a [] h = ground arith
name_match-IsNamed m a (c ∷ cs) h =
    (ground arith, name_match-IsNamed m (add64 a 1) cs (ground arith))

IsNamed-name_match :
    (m : Memory) (a : ℕ) (name : List ℕ) → IsNamed m a name → name_match m a name ≡ true
unfolding name_match IsNamed
IsNamed-name_match m a [] h = ground arith
IsNamed-name_match m a (c ∷ cs) h =
    rw (h.0, ==_refl c, IsNamed-name_match m (add64 a 1) cs h.1) refl

-- What a search from index `i` to the end `n` gives.
pub IsFirst : Memory → StfModel → List ℕ → ℕ → ℕ → Option ℕ → Type 0
IsFirst m model name i n (some t) =
    (j : ℕ) × (i ≤ j)
    × (j < n)
    × (t ≡ tensor_at model j)
    × IsNamed m t name
    × ((k : ℕ) → i ≤ k → k < j → ¬ IsNamed m (tensor_at model k) name)
IsFirst m model name i n none = (k : ℕ) → i ≤ k → k < n → ¬ IsNamed m (tensor_at model k) name

module _ (m : Memory) (model : StfModel) (name : List ℕ) where
  here_or_later :
      (i : ℕ)
      → ¬ IsNamed m (tensor_at model i) name
      → (k : ℕ) → (i + 1 ≤ k → ¬ IsNamed m (tensor_at model k) name)
      → i ≤ k
      → ¬ IsNamed m (tensor_at model k) name
  here_or_later i other k later l q = elim (cases i k l) [
    | inl e ↦ other (subst (λ j. IsNamed m (tensor_at model j) name) (sym e) q)
    | inr lt ↦ later lt q
  ]
    where
      cases : (i k : ℕ) → i ≤ k → (i ≡ k) ⊎ (i + 1 ≤ k)
      cases i k l = omega arith

  IsFirst-before :
      (i n : ℕ) (o : Option ℕ)
      → ¬ IsNamed m (tensor_at model i) name
      → IsFirst m model name (i + 1) n o
      → IsFirst m model name i n o
  unfolding IsFirst
  IsFirst-before i n none other h = λ k l u. here_or_later i other k (λ l'. h k l' u) l
  IsFirst-before i n (some t) other (j, l, u, e, named, first) =
      (j, omega arith, u, e, named, λ k l' u'. here_or_later i other k (λ l''. first k l'' u') l')

  find_from-IsFirst :
      (i left n : ℕ) → n ≡ i + left → IsFirst m model name i n (find_from m model name i left)
  unfolding find_from IsFirst
  find_from-IsFirst i zero n e = λ k l u. absurd (omega arith)
  find_from-IsFirst i (suc left) n e =
      if-cases (IsFirst m model name i n) (name_match m (tensor_at model i) name)
        (λ h. (
          i,
          omega arith,
          omega arith,
          refl,
          name_match-IsNamed m (tensor_at model i) name h,
          λ k l u. absurd (omega arith),
        ))
        (λ h.
          IsFirst-before i n (find_from m model name (i + 1) left)
            (λ q. let c = IsNamed-name_match m (tensor_at model i) name q in ground arith)
            (find_from-IsFirst (i + 1) left n (omega arith)))

  -- `stf_find` on a loaded index returns the first tensor of that name, and NULL only if no
  -- tensor has it.
  pub stf_find-IsFirst :
      model.is_loaded ≡ true → IsFirst m model name 0 model.tensor_count (stf_find m model name)
  unfolding stf_find
  stf_find-IsFirst h =
      simp h (find_from-IsFirst 0 model.tensor_count model.tensor_count (omega arith))
