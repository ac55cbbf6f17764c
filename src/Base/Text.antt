-- ===== src/Base/Text.antt =====
-- Text in a buffer: the list of the bytes before its NUL.
use Prim.Native.Nat.{ℕ, zero, suc, ◌≤◌}
use mathlib.Core.Path.{◌≡◌}
use mathlib.Core.Logic.{◌≢◌}
use mathlib.Core.Bool.{true, not, ◌&&◌}
use mathlib.Core.List.{List, [], ◌∷◌, ◌++◌}
use native.Mathlib.Omega.{arith}
use samos.Base.Lists.{length, length-append, length-take, take, All}
use samos.Base.Tests.{◌==◌, ltb, if◌then◌else◌}

-- The bytes before the NUL, or all.
pub before_nul : List ℕ → List ℕ
before_nul [] = []
before_nul (c ∷ s) = let rest = before_nul s in if c == 0 then [] else c ∷ rest

-- A text without its last character.
abbrev pub drop_last : List ℕ → List ℕ
drop_last [] = []
drop_last (c ∷ []) = []
drop_last (c ∷ d ∷ s) = c ∷ drop_last (d ∷ s)

pub length-drop_last : (s : List ℕ) → length (drop_last s) ≤ length s
length-drop_last [] = omega arith
length-drop_last (c ∷ []) = omega arith
length-drop_last (c ∷ d ∷ s) = omega (arith, length-drop_last (d ∷ s))

pub drop_last-All {ℓ} : (P : ℕ → Type ℓ) (s : List ℕ) → All P s → All P (drop_last s)
drop_last-All P [] h = tt
drop_last-All P (c ∷ []) h = tt
drop_last-All P (c ∷ d ∷ s) h = (h.0, drop_last-All P (d ∷ s) h.1)

append-All {ℓ} : (P : ℕ → Type ℓ) (s : List ℕ) (c : ℕ) → All P s → P c → All P (s ++ c ∷ [])
append-All P [] c h n = (n, tt)
append-All P (d ∷ s) c h n = (h.0, append-All P s c h.1 n)

-- At most `max` characters, none of them a NUL.
pub record IsText (max : ℕ) (s : List ℕ) : Type 0 where
  pub text_fits : length s ≤ max
  pub no_nul : All (λ c. c ≢ 0) s

pub drop_last-IsText : (max : ℕ) (s : List ℕ) → IsText max s → IsText max (drop_last s)
drop_last-IsText max s t = record {
  text_fits = omega (arith, length-drop_last s, t.text_fits);
  no_nul = drop_last-All (λ c. c ≢ 0) s t.no_nul;
}

-- A character other than the NUL is added to a text with room for it.
pub longer-IsText :
    (max : ℕ) (s : List ℕ) (c : ℕ)
    → IsText max s
    → (not (c == 0) && ltb (length s) max) ≡ true
    → IsText max (s ++ c ∷ [])
longer-IsText max s c t h = record {
  text_fits = let n = length-append s (c ∷ []) in ground arith;
  no_nul = append-All (λ c. c ≢ 0) s c t.no_nul (ground arith);
}

take-All {ℓ} : (P : ℕ → Type ℓ) (n : ℕ) (s : List ℕ) → All P s → All P (take n s)
take-All P zero s h = tt
take-All P (suc n) [] h = tt
take-All P (suc n) (c ∷ s) h = (h.0, take-All P n s h.1)

-- A text that is cut off after `n` characters.
pub take-IsText : (max n : ℕ) (s : List ℕ) → IsText max s → IsText n (take n s)
take-IsText max n s t = record {
  text_fits = length-take n s;
  no_nul = take-All (λ c. c ≢ 0) n s t.no_nul;
}
