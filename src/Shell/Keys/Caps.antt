-- ===== src/Shell/Keys/Caps.antt =====
-- kernel/shell.h: the caps lock.
use samos.Base.{
  ℕ, zero, suc, ◌≡◌, refl, sym, ◌∙◌, arith, Bool, true, false, ◌&&◌, not, List, [], ◌∷◌, get_or,
}
use samos.Shell.Keys.{
  key_char, caps_lower, caps_upper, sc_ascii, sc_ascii_shift, is_lower, is_upper,
}

every : (ℕ → Bool) → List ℕ → Bool
every p [] = true
every p (c ∷ cs) = p c && every p cs

get_or-every :
    (p : ℕ → Bool) (cs : List ℕ) (i d : ℕ)
    → every p cs ≡ true
    → p d ≡ true
    → p (get_or cs i d) ≡ true
unfolding every
get_or-every p [] i d h hd = hd
get_or-every p (c ∷ cs) zero d h hd = ground arith
get_or-every p (c ∷ cs) (suc i) d h hd = get_or-every p cs i d (ground arith) hd

no_upper : every (λ c. not (is_upper c)) sc_ascii ≡ true
unfolding every sc_ascii
no_upper = refl

no_lower : every (λ c. not (is_lower c)) sc_ascii_shift ≡ true
unfolding every sc_ascii_shift
no_lower = refl

back_and_forth : (c : ℕ) → not (is_upper c) ≡ true → caps_upper false true (caps_lower true c) ≡ c
unfolding caps_upper caps_lower
back_and_forth c h = ground arith

untouched : (c : ℕ) → not (is_lower c) ≡ true → caps_upper true true (caps_lower true c) ≡ c
unfolding caps_upper caps_lower
untouched c h = ground arith

without_caps : (shift : Bool) (c : ℕ) → caps_upper shift false (caps_lower false c) ≡ c
unfolding caps_upper caps_lower
without_caps shift c = refl

-- The caps lock has no effect: every key gives the same character with it and without it, in both
-- states of the shift key.
pub key_char-caps : (shift caps : Bool) (sc : ℕ) → key_char shift caps sc ≡ key_char shift false sc
unfolding key_char
key_char-caps shift false sc = refl
key_char-caps false true sc =
    back_and_forth (get_or sc_ascii sc 0)
      (get_or-every (λ c. not (is_upper c)) sc_ascii sc 0 no_upper refl)
    ∙ sym (without_caps false (get_or sc_ascii sc 0))
key_char-caps true true sc =
    untouched (get_or sc_ascii_shift sc 0)
      (get_or-every (λ c. not (is_lower c)) sc_ascii_shift sc 0 no_lower refl)
    ∙ sym (without_caps true (get_or sc_ascii_shift sc 0))
