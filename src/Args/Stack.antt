-- ===== src/Args/Stack.antt =====
-- What `sam_build_args` leaves on the stack.
use samos.Base.{
  ℕ, zero, suc, ◌+◌, ◌-◌, ◌*◌, ◌/◌, ◌%◌, ◌^◌, ◌<◌, ◌≤◌, ◌≡◌, ◌⊎◌, refl, sym, ap, ◌∙◌, arith, All,
  List, [], ◌∷◌, length, take, Memory, load64, add64, sub64, bit_and-align,
}
use mathlib.Core.Path.{subst}
use samos.Elf.Image.{load64-same}
use samos.Args.{store_word, Pushed, push_strings, put_pointers, align16, place_args, sam_build_args}
use samos.Args.Strings.{
  AreStrings, total, AreStrings-same, AreStrings-All, IsPushed, push_strings-IsPushed,
}
use samos.Args.Words.{store_word-other, load64-store_word}

-- The pointers, one behind the other from an address on, and a NULL behind them.
pub IsArgv : Memory → ℕ → List ℕ → Type 0
IsArgv m p [] = load64 m p ≡ 0
IsArgv m p (a ∷ ptrs) = (load64 m p ≡ a) × IsArgv m (p + 8) ptrs

put_pointers-outside :
    (ptrs : List ℕ) (m : Memory) (p x : ℕ)
    → p + 8 * length ptrs + 8 < 2 ^ 64
    → (x < p) ⊎ (p + 8 * length ptrs + 8 ≤ x)
    → put_pointers m p ptrs x ≡ m x
unfolding put_pointers
put_pointers-outside [] m p x f h = store_word-other m p 0 x (omega arith)
put_pointers-outside (a ∷ ptrs) m p x f h =
    put_pointers-outside ptrs (store_word m p a) (add64 p 8) x (omega arith) (omega arith)
    ∙ store_word-other m p a x (omega arith)

IsArgv-same :
    (ptrs : List ℕ) (m m' : Memory) (p : ℕ)
    → p + 8 * length ptrs + 8 < 2 ^ 64
    → ((x : ℕ) → p ≤ x → x < p + 8 * length ptrs + 8 → m' x ≡ m x)
    → IsArgv m p ptrs
    → IsArgv m' p ptrs
unfolding IsArgv
IsArgv-same [] m m' p f same h =
    load64-same m m' p 8 (omega arith) (λ x l u. same x l (omega arith)) p (omega arith)
      (omega arith)
    ∙ h
IsArgv-same (a ∷ ptrs) m m' p f same h = (
  load64-same m m' p 8 (omega arith) (λ x l u. same x l (omega arith)) p (omega arith) (omega arith)
      ∙ h.0,
  IsArgv-same ptrs m m' (p + 8) (omega arith) (λ x l u. same x (omega arith) (omega arith)) h.1,
)

-- Every pointer is a 64-bit word.
put_pointers-IsArgv :
    (ptrs : List ℕ) (m : Memory) (p : ℕ)
    → p + 8 * length ptrs + 8 < 2 ^ 64
    → All (λ a. a < 2 ^ 64) ptrs
    → IsArgv (put_pointers m p ptrs) p ptrs
unfolding put_pointers IsArgv
put_pointers-IsArgv [] m p f h = load64-store_word m p 0 (omega arith) (omega arith)
put_pointers-IsArgv (a ∷ ptrs) m p f h =
    let e : add64 p 8 ≡ p + 8 = omega arith in
    (
      load64-same (store_word m p a) (put_pointers (store_word m p a) (add64 p 8) ptrs) p 8
            (omega arith)
            (λ x l u.
              put_pointers-outside ptrs (store_word m p a) (add64 p 8) x (omega arith)
                (omega arith))
            p (omega arith) (omega arith)
          ∙ load64-store_word m p a (omega arith) h.0,
      subst (λ q. IsArgv (put_pointers (store_word m p a) (add64 p 8) ptrs) q ptrs) e
          (put_pointers-IsArgv ptrs (store_word m p a) (add64 p 8) (omega arith) h.1),
    )

-- The stack of a program that starts with the arguments `ss`: `argc` at the stack pointer, the
-- pointers and a NULL behind it, the strings between these and `top`, and below the stack pointer,
-- which is no lower than all of this and the alignment need, and from `top` on the memory as it was.
pub record IsStack (m : Memory) (top : ℕ) (ss : List (List ℕ)) (after : Memory) (rsp : ℕ)
    : Type 0 where
  pub argc : load64 after rsp ≡ length ss
  pub ptrs : List ℕ
  pub argv : IsArgv after (rsp + 8) ptrs
  pub strings : AreStrings after (rsp + 8 * length ss + 16) top ptrs ss
  pub aligned : rsp % 8 ≡ 0
  pub low : top ≤ rsp + total ss + 8 * length ss + 31
  pub outside : (x : ℕ) → (x < rsp) ⊎ (top ≤ x) → after x ≡ m x

take-all : (n : ℕ) (ss : List (List ℕ)) → length ss ≤ n → take n ss ≡ ss
take-all zero [] h = refl
take-all zero (s ∷ ss) h = absurd (omega arith)
take-all (suc n) [] h = refl
take-all (suc n) (s ∷ ss) h = ap (λ t. s ∷ t) (take-all n ss (omega arith))

module _ (m : Memory) (top : ℕ) (ss : List (List ℕ)) (r : Pushed) (i : IsPushed m top ss r)
    (room : total ss + 8 * length ss + 31 ≤ top) (fits : top < 2 ^ 64) where
  abbrev av : ℕ
  av = r.p / 16 * 16 - 8 * (length ss + 1)

  align16_lem : align16 r.p ≡ r.p / 16 * 16
  align16_lem = bit_and-align 4 60 r.p (omega (arith, i.low))

  av_eq : sub64 (align16 r.p) (8 * (length ss + 1)) ≡ av
  av_eq = rw align16_lem (omega (arith, i.low))

  rsp_eq : sub64 av 8 ≡ av - 8
  rsp_eq = omega (arith, i.low)

  -- The memory before `argc` is stored.
  abbrev written : Memory
  written = put_pointers r.mem av r.ptrs

  argc_other :
      (x : ℕ) → (x < av - 8) ⊎ (av ≤ x) → store_word written (av - 8) (length ss) x ≡ written x
  argc_other x o = store_word-other written (av - 8) (length ss) x (omega (arith, i.low))

  array_other : (x : ℕ) → (x < av) ⊎ (av + 8 * length ss + 8 ≤ x) → written x ≡ r.mem x
  array_other x o =
      put_pointers-outside r.ptrs r.mem av x (omega (arith, i.low, i.count))
        (omega (arith, i.count))

  place_args-IsStack : IsStack m top ss (place_args r (length ss)).0 (place_args r (length ss)).1
  place_args-IsStack =
      rw (av_eq, rsp_eq)
        (record {
          argc =
              load64-store_word written (av - 8) (length ss) (omega (arith, i.low)) (omega arith);
          ptrs = r.ptrs;
          argv =
              subst (λ p. IsArgv (store_word written (av - 8) (length ss)) p r.ptrs)
                (omega (arith, i.low))
                (IsArgv-same r.ptrs written (store_word written (av - 8) (length ss)) av
                  (omega (arith, i.low, i.count)) (λ x l u. argc_other x (omega arith))
                  (put_pointers-IsArgv r.ptrs r.mem av (omega (arith, i.low, i.count))
                    (AreStrings-All r.ptrs ss r.mem r.p top fits i.strings)));
          strings =
              AreStrings-same r.ptrs ss r.mem (store_word written (av - 8) (length ss)) r.p
                (av - 8 + 8 * length ss + 16) top (omega (arith, i.low))
                (λ x l u.
                  argc_other x (omega (arith, i.low)) ∙ array_other x (omega (arith, i.low)))
                i.strings;
          aligned = omega (arith, i.low);
          low = omega (arith, i.low);
          outside = λ x o.
              argc_other x (omega (arith, i.low))
              ∙ array_other x (omega (arith, i.low))
              ∙ i.below x (omega (arith, i.low));
        })

-- With one to eight arguments, `sam_build_args` builds the stack of a program that starts with
-- them: `argc` at the stack pointer that it returns, then the array of pointers with its NULL, each
-- pointer that of a copy of its string above the array and below `stktop`. Below the stack
-- pointer and from `stktop` on memory stays as it was. There is room for the strings, the array and
-- the alignment, and `stktop` is a 64-bit address.
pub sam_build_args-IsStack :
    (m : Memory) (stktop : ℕ) (argv : List (List ℕ))
    → 0 < length argv
    → length argv ≤ 8
    → total argv + 8 * length argv + 31 ≤ stktop
    → stktop < 2 ^ 64
    → let (after, rsp) = sam_build_args m stktop argv in IsStack m stktop argv after rsp
unfolding sam_build_args
sam_build_args-IsStack m stktop [] some_args few room fits = absurd (omega arith)
sam_build_args-IsStack m stktop (s ∷ ss) some_args few room fits =
    let e : take 8 (s ∷ ss) ≡ s ∷ ss = take-all 8 (s ∷ ss) few in
    subst
      (λ args.
        IsStack m stktop (s ∷ ss) (place_args (push_strings m stktop args) (length args)).0
          (place_args (push_strings m stktop args) (length args)).1)
      (sym e)
      (place_args-IsStack m stktop (s ∷ ss) (push_strings m stktop (s ∷ ss))
        (push_strings-IsPushed m stktop (s ∷ ss) (omega arith) fits) room fits)
