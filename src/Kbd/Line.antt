-- ===== src/Kbd/Line.antt =====
-- The line reader: a line fits its buffer and holds only what can be printed, and a line that is
-- typed without corrections is the line that is read.
use samos.Base.{
  ℕ, ◌+◌, ◌≤◌, ◌<◌, ◌≡◌, ◌∙◌, ap₂, sym, refl, arith, true, false, ◌&&◌, ◌||◌, ltb, leb, ◌==◌,
  if-cases, Option, some, List, [], ◌∷◌, ◌++◌, length, length-append, All, drop_last,
  length-drop_last, drop_last-All,
}
use mathlib.Core.List.{append-nil, append_assoc}
use samos.Kbd.{readline_loop, ps2_readline}

abbrev pub Printable : ℕ → Type 0
Printable c = (0x20 ≤ c) × (c < 0x7F)

-- A line that fits, with the NUL, into a buffer of `maxlen` bytes.
pub record IsLine (maxlen : ℕ) (line : List ℕ) : Type 0 where
  pub fits : length line < maxlen
  pub chars : All Printable line

All-snoc : (l : List ℕ) (c : ℕ) → All Printable l → Printable c → All Printable (l ++ (c ∷ []))
All-snoc [] c a p = (p, tt)
All-snoc (d ∷ l) c a p = (a.0, All-snoc l c a.1 p)

-- The reader has returned a line that fits.
pub Returned : ℕ → Option (List ℕ × List ℕ) → Type 0
Returned maxlen o = (line : List ℕ) × (echo : List ℕ) × (o ≡ some (line, echo)) × IsLine maxlen line

readline_loop-Returned :
    (maxlen : ℕ) (cs rest line echo : List ℕ)
    → IsLine maxlen line
    → Returned maxlen (readline_loop maxlen (cs ++ (10 ∷ rest)) line echo)
unfolding readline_loop Returned
readline_loop-Returned maxlen [] rest line echo h = (line, echo ++ (10 ∷ []), refl, h)
readline_loop-Returned maxlen (c ∷ cs) rest line echo h =
    if-cases (Returned maxlen) (c == 10 || c == 13) (λ _. (line, echo ++ (10 ∷ []), refl, h))
      (λ _.
        if-cases (Returned maxlen) (c == 8)
          (λ _.
            if-cases (Returned maxlen) (ltb 0 (length line))
              (λ _.
                readline_loop-Returned maxlen cs rest (drop_last line) (echo ++ (8 ∷ 32 ∷ 8 ∷ []))
                  (record {
                    fits = omega (arith, length-drop_last line, h.fits);
                    chars = drop_last-All Printable line h.chars;
                  }))
              (λ _. readline_loop-Returned maxlen cs rest line echo h))
          (λ _.
            if-cases (Returned maxlen) (leb 0x20 c && (ltb c 0x7F && ltb (length line + 1) maxlen))
              (λ e.
                readline_loop-Returned maxlen cs rest (line ++ (c ∷ [])) (echo ++ (c ∷ []))
                  (record {
                    fits = ground (arith, length-append line (c ∷ []));
                    chars = All-snoc line c h.chars (ground arith);
                  }))
              (λ _. readline_loop-Returned maxlen cs rest line echo h)))

-- Whatever is typed before Enter, `ps2_readline` returns, with a line that has room for its NUL in
-- the buffer and consists of printable characters; the buffer is not empty.
pub ps2_readline-Returned :
    (maxlen : ℕ) (cs rest : List ℕ)
    → 0 < maxlen
    → Returned maxlen (ps2_readline maxlen (cs ++ (10 ∷ rest)))
unfolding ps2_readline
ps2_readline-Returned maxlen cs rest h =
    readline_loop-Returned maxlen cs rest [] [] (record { fits = h; chars = tt })

readline_loop-typed :
    (maxlen : ℕ) (cs rest line echo : List ℕ)
    → All Printable cs
    → length line + length cs < maxlen
    → readline_loop maxlen (cs ++ (10 ∷ rest)) line echo
      ≡ some (line ++ cs, (echo ++ cs) ++ (10 ∷ []))
unfolding readline_loop
readline_loop-typed maxlen [] rest line echo p fits =
    ap₂ (λ l e. some (l, e ++ (10 ∷ []))) (sym (append-nil line)) (sym (append-nil echo))
readline_loop-typed maxlen (c ∷ cs) rest line echo p fits =
    let no_end : (c == 10 || c == 13) ≡ false = ground (arith, p.0) in
    let no_erase : (c == 8) ≡ false = ground (arith, p.0) in
    let room : (leb 0x20 c && (ltb c 0x7F && ltb (length line + 1) maxlen)) ≡ true =
      ground (arith, p.0) in
    rw (no_end, no_erase, room)
      (readline_loop-typed maxlen cs rest (line ++ (c ∷ [])) (echo ++ (c ∷ [])) p.1
          (omega (arith, length-append line (c ∷ [])))
        ∙ ap₂ (λ l e. some (l, e ++ (10 ∷ []))) (append_assoc line (c ∷ []) cs)
            (append_assoc echo (c ∷ []) cs))

-- Printable characters that fit the buffer, typed without a correction, are the line that is read,
-- and are echoed as typed.
pub ps2_readline-typed :
    (maxlen : ℕ) (cs rest : List ℕ)
    → All Printable cs
    → length cs < maxlen
    → ps2_readline maxlen (cs ++ (10 ∷ rest)) ≡ some (cs, cs ++ (10 ∷ []))
unfolding ps2_readline
ps2_readline-typed maxlen cs rest p fits = readline_loop-typed maxlen cs rest [] [] p (omega arith)
