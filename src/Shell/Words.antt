-- ===== src/Shell/Words.antt =====
-- kernel/shell.h: the tokens of `cmd_run`, on the text between the NULs that it writes.
use samos.Base.{
  ℕ, zero, suc, ◌==◌, if◌then◌else◌, List, [], ◌∷◌, ◌++◌, take, replicate, All, ◌≡◌, ◌≢◌, refl, sym,
  ap, ap₂, ◌∙◌, ne→==,
}

-- while (buf[i2] == ' ') i2++;
unfoldable pub skip_spaces : List ℕ → List ℕ
skip_spaces [] = []
skip_spaces (c ∷ s) = let rest = skip_spaces s in if c == b' ' then rest else c ∷ s

-- while (buf[i2] && buf[i2] != ' ') i2++; the characters passed, and what is left behind them and
-- the character at which the loop ends.
pub token : List ℕ → List ℕ
token [] = []
token (c ∷ s) = let rest = token s in if c == b' ' then [] else c ∷ rest

pub after_token : List ℕ → List ℕ
after_token [] = []
after_token (c ∷ s) = let rest = after_token s in if c == b' ' then s else rest

pub tokens_at : (List ℕ → List (List ℕ)) → List ℕ → List (List ℕ)
tokens_at rest [] = []
tokens_at rest (c ∷ s) = token (c ∷ s) ∷ rest (after_token (c ∷ s))

-- The loop, with room for `n` more pointers in `av`.
pub tokens : ℕ → List ℕ → List (List ℕ)
tokens zero s = []
tokens (suc n) s = tokens_at (tokens n) (skip_spaces s)

-- A word has characters, none of them a space.
abbrev pub IsWord : List ℕ → Type 0
IsWord w = (w ≢ []) × All (λ c. c ≢ b' ') w

-- A line of words, each behind one space and as many more as the list says beside it, with `m`
-- spaces at its end.
pub spaced : List (ℕ × List ℕ) → ℕ → List ℕ
spaced [] m = replicate m b' '
spaced ((n, w) ∷ ws) m = b' ' ∷ replicate n b' ' ++ (w ++ spaced ws m)

abbrev pub words : List (ℕ × List ℕ) → List (List ℕ)
words [] = []
words ((n, w) ∷ ws) = w ∷ words ws

abbrev pub AreWords : List (ℕ × List ℕ) → Type 0
AreWords [] = Unit
AreWords ((n, w) ∷ ws) = IsWord w × AreWords ws

skip_spaces-replicate : (n : ℕ) (s : List ℕ) → skip_spaces (replicate n b' ' ++ s) ≡ skip_spaces s
unfolding skip_spaces
skip_spaces-replicate zero s = refl
skip_spaces-replicate (suc n) s = skip_spaces-replicate n s

-- What stands behind a word: nothing, or a space and more.
data Ends : List ℕ → Type 0 where
  at_end : Ends []
  at_space : (s : List ℕ) → Ends (b' ' ∷ s)

spaced-Ends : (ws : List (ℕ × List ℕ)) (m : ℕ) → Ends (spaced ws m)
unfolding spaced
spaced-Ends [] zero = at_end
spaced-Ends [] (suc m) = at_space (replicate m b' ')
spaced-Ends ((n, w) ∷ ws) m = at_space (replicate n b' ' ++ (w ++ spaced ws m))

token-word : (w s : List ℕ) → All (λ c. c ≢ b' ') w → Ends s → token (w ++ s) ≡ w
unfolding token
token-word [] s h at_end = refl
token-word [] s h (at_space t) = refl
token-word (c ∷ w) s h e = rw (ne→== c b' ' h.0) (ap (c ∷◌) (token-word w s h.1 e))

tokens-space : (k : ℕ) (s : List ℕ) → tokens k (b' ' ∷ s) ≡ tokens k s
unfolding tokens skip_spaces
tokens-space zero s = refl
tokens-space (suc k) s = refl

tokens-replicate : (k m : ℕ) → tokens k (replicate m b' ') ≡ []
unfolding tokens tokens_at skip_spaces
tokens-replicate zero m = refl
tokens-replicate (suc k) zero = refl
tokens-replicate (suc k) (suc m) = tokens-replicate (suc k) m

tokens-after :
    (k : ℕ) (w s : List ℕ)
    → All (λ c. c ≢ b' ') w
    → Ends s
    → tokens k (after_token (w ++ s)) ≡ tokens k s
unfolding after_token
tokens-after k [] s h at_end = refl
tokens-after k [] s h (at_space t) = sym (tokens-space k t)
tokens-after k (c ∷ w) s h e = rw (ne→== c b' ' h.0) (tokens-after k w s h.1 e)

-- A word behind spaces is the next token, and the loop goes on behind it.
next-token :
    (k n : ℕ) (w s : List ℕ)
    → IsWord w
    → Ends s
    → tokens (suc k) (replicate n b' ' ++ (w ++ s)) ≡ w ∷ tokens k s
unfolding tokens tokens_at skip_spaces
next-token k n [] s h e = absurd (h.0 refl)
next-token k n (c ∷ w) s h e =
    rw skip_spaces-replicate rw (ne→== c b' ' h.1.0)
      (ap₂ ◌∷◌ (token-word (c ∷ w) s h.1 e) (tokens-after k (c ∷ w) s h.1 e))

-- The tokens of a line of words are the words, the first `n` of them, however many spaces stand
-- between them and at the end.
pub tokens-spaced :
    (n m : ℕ) (ws : List (ℕ × List ℕ)) → AreWords ws → tokens n (spaced ws m) ≡ take n (words ws)
unfolding spaced tokens
tokens-spaced n m [] h = tokens-replicate n m ∙ take-nil n
  where
    take-nil : (n : ℕ) → [] ≡ take {A = List ℕ} n []
    take-nil zero = refl
    take-nil (suc n) = refl
tokens-spaced zero m ((k, w) ∷ ws) h = tokens_none (spaced ((k, w) ∷ ws) m)
  where
    tokens_none : (s : List ℕ) → tokens 0 s ≡ []
    tokens_none s = refl
tokens-spaced (suc n) m ((k, w) ∷ ws) h =
    tokens-space (suc n) (replicate k b' ' ++ (w ++ spaced ws m))
    ∙ (next-token n k w (spaced ws m) h.0 (spaced-Ends ws m) ∙ ap (w ∷◌) (tokens-spaced n m ws h.1))
