-- ===== src/Shell/Keys/Typing.antt =====
-- kernel/shell.h: plain keys add their characters to the command line.
use samos.Base.{
  ℕ, zero, suc, ◌+◌, ◌<◌, ◌≤◌, ◌≡◌, ◌≢◌, refl, sym, ap, ap₂, ◌∙◌, arith, Bool, true, false, ◌&&◌,
  Bool-cases, if-cases, inl, inr, ltb, ◌==◌, ne→==, if◌then◌else◌, List, [], ◌∷◌, ◌++◌, map, length,
  length-append, All, bit_and,
}
use mathlib.Core.Path.{subst}
use mathlib.Core.List.{append_assoc, append-nil}
use samos.Fb.{SamFb}
use samos.Mcp.Profile.{SamMcp}
use samos.Config.{SamBootConfig}
use samos.Shell.{sh_cmd_max}
use samos.Shell.Eval.{Calls, Shell}
use samos.Shell.Keys.{
  Event, key, hide_cursor, on_char, on_key, on_event, shell_loop, key_char, is_shift, sc_caps,
  sc_back, sc_enter,
}

-- A key with a character in the tables, other than those with a meaning of their own.
pub record IsPlain (sc : ℕ) : Type 0 where
  pub in_table : sc < 58
  pub no_shift : is_shift sc ≡ false
  pub no_back : sc ≢ sc_back
  pub no_enter : sc ≢ sc_enter

-- One character, if the key has one.
abbrev pub char_text : ℕ → List ℕ
char_text c = if c == 0 then [] else c ∷ []

-- The characters of the keys.
abbrev pub text_of : Bool → Bool → List ℕ → List ℕ
text_of shift caps [] = []
text_of shift caps (sc ∷ scs) = char_text (key_char shift caps sc) ++ text_of shift caps scs

-- `sh'` is `sh` with `text` added to the line, up to its screen.
pub record IsTyped (sh sh' : Shell) (text : List ℕ) : Type 0 where
  pub cmd_typed : sh'.cmd ≡ sh.cmd ++ text
  pub hist_kept : sh'.hist ≡ sh.hist
  pub back_kept : sh'.hist_back ≡ sh.hist_back
  pub shift_kept : sh'.shift ≡ sh.shift
  pub caps_kept : sh'.caps ≡ sh.caps
  pub halted_kept : sh'.halted ≡ sh.halted

make_codes : (n : ℕ) → Bool
make_codes zero = true
make_codes (suc n) = bit_and n 0x80 == 0 && make_codes n

make_code_below : (n sc : ℕ) → make_codes n ≡ true → sc < n → bit_and sc 0x80 ≡ 0
unfolding make_codes
make_code_below zero sc h lt = absurd (omega arith)
make_code_below (suc n) sc h lt = ground (arith, make_code_below n sc)

make_code : (sc : ℕ) → sc < 58 → bit_and sc 0x80 ≡ 0
unfolding make_codes
make_code sc h = make_code_below 58 sc refl h

-- Only the screen and the cursor's state differ.
same_line :
    (sh sh' : Shell)
    → sh'.cmd ≡ sh.cmd
    → sh'.hist ≡ sh.hist
    → sh'.hist_back ≡ sh.hist_back
    → sh'.shift ≡ sh.shift
    → sh'.caps ≡ sh.caps
    → sh'.halted ≡ sh.halted
    → IsTyped sh sh' []
same_line sh sh' e h b s c d = record {
  cmd_typed = e ∙ sym (append-nil sh.cmd);
  hist_kept = h;
  back_kept = b;
  shift_kept = s;
  caps_kept = c;
  halted_kept = d;
}

IsTyped-trans :
    (a b c : Shell) (s t : List ℕ) → IsTyped a b s → IsTyped b c t → IsTyped a c (s ++ t)
IsTyped-trans a b c s t p q = record {
  cmd_typed = q.cmd_typed ∙ (ap (λ l. l ++ t) p.cmd_typed ∙ append_assoc a.cmd s t);
  hist_kept = q.hist_kept ∙ p.hist_kept;
  back_kept = q.back_kept ∙ p.back_kept;
  shift_kept = q.shift_kept ∙ p.shift_kept;
  caps_kept = q.caps_kept ∙ p.caps_kept;
  halted_kept = q.halted_kept ∙ p.halted_kept;
}

pub hide_cursor-IsTyped : (fb : SamFb) (sh : Shell) → IsTyped sh (hide_cursor fb sh) []
unfolding hide_cursor
hide_cursor-IsTyped fb sh =
    if-cases (λ q. IsTyped sh q []) sh.cursor_visible
      (λ e. same_line sh _ refl refl refl refl refl refl)
      (λ e. same_line sh sh refl refl refl refl refl refl)

on_char-IsTyped :
    (fb : SamFb) (sh : Shell) (c : ℕ)
    → length sh.cmd + length (char_text c) ≤ sh_cmd_max
    → IsTyped sh (on_char fb sh c) (char_text c)
unfolding on_char
on_char-IsTyped fb sh c h = elim (Bool-cases (c == 0)) [
  | inl z ↦ rw z (same_line sh sh refl refl refl refl refl refl)
  | inr n ↦
      let room : ltb (length sh.cmd) 79 ≡ true = ground arith in
      rw n rw room (record {
        cmd_typed = refl;
        hist_kept = refl;
        back_kept = refl;
        shift_kept = refl;
        caps_kept = refl;
        halted_kept = refl;
      })
]

module _ (fb : SamFb) (mcp : SamMcp) (bcfg : SamBootConfig) (calls : Calls) where
  on_key-plain :
      (sh : Shell) (sc : ℕ)
      → IsPlain sc
      → on_key fb mcp bcfg calls sh sc ≡ on_char fb sh (key_char sh.shift sh.caps sc)
  unfolding on_key
  on_key-plain sh sc p =
      let table = p.in_table in
      let back = ne→== sc sc_back p.no_back in
      let enter = ne→== sc sc_enter p.no_enter in
      let caps : (sc == sc_caps) ≡ false = ground arith in
      let inside : ltb sc 58 ≡ true = ground arith in
      rw (make_code sc p.in_table) rw p.no_shift rw caps rw back rw enter rw inside

  -- A plain key, from a state `m` with the line and the modifiers of `sh`.
  on_key-IsTyped :
      (sh m : Shell) (sc : ℕ)
      → IsTyped sh m []
      → IsPlain sc
      → length sh.cmd + length (char_text (key_char sh.shift sh.caps sc)) ≤ sh_cmd_max
      → IsTyped sh (on_key fb mcp bcfg calls m sc) (char_text (key_char sh.shift sh.caps sc))
  on_key-IsTyped sh m sc e p h =
      let chars : key_char m.shift m.caps sc ≡ key_char sh.shift sh.caps sc =
        ap₂ (λ a b. key_char a b sc) e.shift_kept e.caps_kept in
      let line : m.cmd ≡ sh.cmd = e.cmd_typed ∙ append-nil sh.cmd in
      let room : length m.cmd + length (char_text (key_char m.shift m.caps sc)) ≤ sh_cmd_max =
        omega (arith, ap (λ l. length l) line, ap (λ q. length (char_text q)) chars) in
      let step =
        subst (λ q. IsTyped m (on_char fb m q) (char_text q)) chars
          (on_char-IsTyped fb m (key_char m.shift m.caps sc) room) in
      IsTyped-trans sh m _ [] (char_text (key_char sh.shift sh.caps sc)) e (
        subst (λ q. IsTyped m q (char_text (key_char sh.shift sh.caps sc)))
          (sym (on_key-plain m sc p ∙ ap (λ c. on_char fb m c) chars)) step)

  on_event-IsTyped :
      (sh : Shell) (sc : ℕ)
      → IsPlain sc
      → length sh.cmd + length (char_text (key_char sh.shift sh.caps sc)) ≤ sh_cmd_max
      → IsTyped sh
          (on_event fb mcp bcfg calls sh (key sc))
          (char_text (key_char sh.shift sh.caps sc))
  unfolding on_event
  on_event-IsTyped sh sc p h =
      on_key-IsTyped sh (hide_cursor fb sh) sc (hide_cursor-IsTyped fb sh) p h

  pub shell_loop-step :
      (sh : Shell) (e : Event) (es : List Event)
      → sh.halted ≡ false
      → shell_loop fb mcp bcfg calls sh (e ∷ es)
        ≡ shell_loop fb mcp bcfg calls (on_event fb mcp bcfg calls sh e) es
  unfolding shell_loop
  shell_loop-step sh e es h =
      ap (λ b. shell_loop fb mcp bcfg calls (if b then sh else on_event fb mcp bcfg calls sh e) es)
        h

  pub shell_loop-nil : (sh : Shell) → shell_loop fb mcp bcfg calls sh [] ≡ sh
  unfolding shell_loop
  shell_loop-nil sh = refl

  pub shell_loop-append :
      (sh : Shell) (es fs : List Event)
      → shell_loop fb mcp bcfg calls sh (es ++ fs)
        ≡ shell_loop fb mcp bcfg calls (shell_loop fb mcp bcfg calls sh es) fs
  unfolding shell_loop
  shell_loop-append sh [] fs = refl
  shell_loop-append sh (e ∷ es) fs =
      shell_loop-append (if sh.halted then sh else on_event fb mcp bcfg calls sh e) es fs

  -- Plain keys add their characters to the line, while there is room.
  pub shell_loop-IsTyped :
      (scs : List ℕ) (sh : Shell)
      → sh.halted ≡ false
      → All IsPlain scs
      → length sh.cmd + length (text_of sh.shift sh.caps scs) ≤ sh_cmd_max
      → IsTyped sh (shell_loop fb mcp bcfg calls sh (map key scs)) (text_of sh.shift sh.caps scs)
  shell_loop-IsTyped [] sh live p h =
      same_line sh _ (ap Shell.cmd (shell_loop-nil sh)) (ap Shell.hist (shell_loop-nil sh))
        (ap Shell.hist_back (shell_loop-nil sh)) (ap Shell.shift (shell_loop-nil sh))
        (ap Shell.caps (shell_loop-nil sh)) (ap Shell.halted (shell_loop-nil sh))
  shell_loop-IsTyped (sc ∷ scs) sh live p h =
      let c = char_text (key_char sh.shift sh.caps sc) in
      let n = length-append c (text_of sh.shift sh.caps scs) in
      let next = on_event fb mcp bcfg calls sh (key sc) in
      let e = on_event-IsTyped sh sc p.0 (omega arith) in
      let same = ap₂ (λ a b. text_of a b scs) e.shift_kept e.caps_kept in
      let m = length-append sh.cmd c in
      let k = ap (λ l. length l) e.cmd_typed in
      let room : length next.cmd + length (text_of next.shift next.caps scs) ≤ sh_cmd_max =
        omega (arith, ap (λ l. length l) same) in
      let rest = shell_loop-IsTyped scs next (e.halted_kept ∙ live) p.1 room in
      subst (λ q. IsTyped sh q (c ++ text_of sh.shift sh.caps scs))
        (sym (shell_loop-step sh (key sc) (map key scs) live))
        (IsTyped-trans sh next _ c (text_of sh.shift sh.caps scs) e
          (subst (λ t. IsTyped next (shell_loop fb mcp bcfg calls next (map key scs)) t) same rest))
