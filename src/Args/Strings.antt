-- ===== src/Args/Strings.antt =====
-- The strings that `sam_build_args` pushes.
use samos.Base.{
  ℕ, suc, ◌+◌, ◌^◌, ◌<◌, ◌≤◌, ◌≡◌, ◌⊎◌, refl, ap, ◌∙◌, arith, All, List, [], ◌∷◌, length, Memory,
  store8, add64, sub64,
}
use mathlib.Core.Path.{subst}
use samos.Args.{put_string, Pushed, push_strings}

-- The C string `s` at an address.
pub IsString : Memory → ℕ → List ℕ → Type 0
IsString m a [] = m a ≡ 0
IsString m a (c ∷ cs) = (m a ≡ c) × IsString m (a + 1) cs

-- Each pointer is that of its string, which lies in [lo, hi).
pub AreStrings : Memory → ℕ → ℕ → List ℕ → List (List ℕ) → Type 0
AreStrings m lo hi [] [] = Unit
AreStrings m lo hi (a ∷ ptrs) (s ∷ ss) =
    IsString m a s × (lo ≤ a) × (a + length s + 1 ≤ hi) × AreStrings m lo hi ptrs ss
AreStrings m lo hi _ _ = ⊥

-- The bytes that the strings take, their NULs included.
unfoldable pub total : List (List ℕ) → ℕ
total [] = 0
total (s ∷ ss) = length s + 1 + total ss

put_string-outside :
    (s : List ℕ) (m : Memory) (p x : ℕ)
    → p + length s + 1 ≤ 2 ^ 64
    → (x < p) ⊎ (p + length s + 1 ≤ x)
    → put_string m p s x ≡ m x
unfolding put_string
put_string-outside [] m p x f h = ground arith
put_string-outside (c ∷ cs) m p x f h =
    let e : p + suc (length cs) + 1 ≤ 2 ^ 64 = f in
    put_string-outside cs (store8 m p c) (add64 p 1) x (omega arith) (omega arith) ∙ ground arith

put_string-IsString :
    (s : List ℕ) (m : Memory) (p : ℕ) → p + length s + 1 < 2 ^ 64 → IsString (put_string m p s) p s
unfolding put_string IsString
put_string-IsString [] m p f = ground arith
put_string-IsString (c ∷ cs) m p f =
    let e : add64 p 1 ≡ p + 1 = omega arith in
    (
      put_string-outside cs (store8 m p c) (add64 p 1) p (omega arith) (omega arith) ∙ ground arith,
      subst (λ a. IsString (put_string (store8 m p c) (add64 p 1) cs) a cs) e
          (put_string-IsString cs (store8 m p c) (add64 p 1) (omega arith)),
    )

IsString-same :
    (s : List ℕ) (m m' : Memory) (a : ℕ)
    → ((x : ℕ) → a ≤ x → x < a + length s + 1 → m' x ≡ m x)
    → IsString m a s
    → IsString m' a s
unfolding IsString
IsString-same [] m m' a same h = same a (omega arith) (omega arith) ∙ h
IsString-same (c ∷ cs) m m' a same h = (
  same a (omega arith) (omega arith) ∙ h.0,
  IsString-same cs m m' (a + 1) (λ x l u. same x (omega arith) (omega arith)) h.1,
)

pub AreStrings-same :
    (ptrs : List ℕ) (ss : List (List ℕ)) (m m' : Memory) (lo lo' hi : ℕ)
    → lo' ≤ lo
    → ((x : ℕ) → lo ≤ x → x < hi → m' x ≡ m x)
    → AreStrings m lo hi ptrs ss
    → AreStrings m' lo' hi ptrs ss
unfolding AreStrings
AreStrings-same [] [] m m' lo lo' hi l same h = h
AreStrings-same [] (s ∷ ss) m m' lo lo' hi l same h = h
AreStrings-same (a ∷ ptrs) [] m m' lo lo' hi l same h = h
AreStrings-same (a ∷ ptrs) (s ∷ ss) m m' lo lo' hi l same (is, la, ua, rest) = (
  IsString-same s m m' a (λ x lx ux. same x (omega arith) (omega arith)) is,
  omega arith,
  ua,
  AreStrings-same ptrs ss m m' lo lo' hi l same rest,
)

-- The strings pushed below `top`.
pub record IsPushed (m : Memory) (top : ℕ) (ss : List (List ℕ)) (r : Pushed) : Type 0 where
  pub low : r.p + total ss ≡ top
  pub below : (x : ℕ) → (x < r.p) ⊎ (top ≤ x) → r.mem x ≡ m x
  pub strings : AreStrings r.mem r.p top r.ptrs ss
  pub count : length r.ptrs ≡ length ss

pub push_strings-IsPushed :
    (m : Memory) (top : ℕ) (ss : List (List ℕ))
    → total ss ≤ top
    → top < 2 ^ 64
    → IsPushed m top ss (push_strings m top ss)
unfolding push_strings AreStrings total
push_strings-IsPushed m top [] h f = record {
  low = omega arith;
  below = λ x o. refl;
  strings = tt;
  count = refl;
}
push_strings-IsPushed m top (s ∷ ss) h f =
    let r = push_strings m top ss in
    let i = push_strings-IsPushed m top ss (omega arith) f in
    let q : sub64 r.p (length s + 1) + (length s + 1) ≡ r.p = omega (arith, i.low) in
    record {
      low = omega (arith, i.low);
      below = λ x o.
          put_string-outside s r.mem (sub64 r.p (length s + 1)) x (omega (arith, i.low))
            (omega (arith, i.low))
          ∙ i.below x (omega (arith, i.low));
      strings = (
        put_string-IsString s r.mem (sub64 r.p (length s + 1)) (omega (arith, i.low)),
        omega arith,
        omega (arith, i.low),
        AreStrings-same r.ptrs ss r.mem (put_string r.mem (sub64 r.p (length s + 1)) s) r.p
            (sub64 r.p (length s + 1)) top (omega arith)
            (λ x l u.
              put_string-outside s r.mem (sub64 r.p (length s + 1)) x (omega (arith, i.low))
                (omega arith))
            i.strings,
      );
      count = ap suc i.count;
    }

pub AreStrings-All :
    (ptrs : List ℕ) (ss : List (List ℕ)) (m : Memory) (lo hi : ℕ)
    → hi < 2 ^ 64
    → AreStrings m lo hi ptrs ss
    → All (λ a. a < 2 ^ 64) ptrs
unfolding AreStrings
AreStrings-All [] [] m lo hi f h = tt
AreStrings-All [] (s ∷ ss) m lo hi f h = tt
AreStrings-All (a ∷ ptrs) [] m lo hi f h = absurd h
AreStrings-All (a ∷ ptrs) (s ∷ ss) m lo hi f (is, la, ua, rest) =
    (omega arith, AreStrings-All ptrs ss m lo hi f rest)
