-- ===== src/Wizard/Field.antt =====
-- kernel/wizard.h: the input fields, and that the wizard returns.
use samos.Base.{
  ℕ, suc, ◌≤◌, ◌≡◌, ◌≢◌, inl, inr, refl, arith, Bool, true, false, not, ◌&&◌, ◌||◌, ltb, ◌==◌,
  Bool-cases, if-cases, if◌then◌else◌, Option, some, List, [], ◌∷◌, ◌++◌, length, get_or, IsText,
  drop_last, drop_last-IsText, longer-IsText,
}
use samos.Fb.{Vram}
use samos.Wizard.{
  FieldStep, entered, skipped, typed, type_char, field_key, FieldEnd, after_step, field_loop,
  wait_enter, wz_field_max, wz_sc_alpha, wz_sc_alpha_sh,
}

-- How often Enter is pressed.
abbrev pub enters : List ℕ → ℕ
enters [] = 0
enters (sc ∷ scs) = let rest = enters scs in if sc == 0x1C then suc rest else rest

abbrev pub IsField : List ℕ → Type 0
IsField text = IsText wz_field_max text

pub no_text : IsField []
no_text = record { text_fits = omega arith; no_nul = tt }

-- While Enter is pressed often enough, the wait for it ends.
pub record Waited (k : ℕ) (scs : List ℕ) : Type 0 where
  pub left : List ℕ
  pub ends : wait_enter scs ≡ some left
  pub enough : k ≤ enters left

pub wait_enter-returns : (k : ℕ) (scs : List ℕ) → suc k ≤ enters scs → Waited k scs
unfolding wait_enter
wait_enter-returns k [] h = absurd (omega arith)
wait_enter-returns k (sc ∷ scs) h = elim (Bool-cases (sc == 0x1C)) [
  | inl e ↦ record {
    left = scs;
    ends = rw e refl;
    enough = let r : suc (enters scs) ≡ enters (sc ∷ scs) = rw e refl in omega arith;
  }
  | inr e ↦
      let same : enters scs ≡ enters (sc ∷ scs) = rw e refl in
      let w = wait_enter-returns k scs (omega arith) in
      record { left = w.left; ends = rw e w.ends; enough = w.enough }
]

-- A key ends the field, or leaves a text that fits; Enter ends it.
data StepOf (sc : ℕ) : FieldStep → Type 0 where
  at_enter : StepOf sc entered
  at_tab : StepOf sc skipped
  goes_on :
      (shift : Bool) (text : List ℕ) (redraw : Bool)
      → IsField text
      → sc ≢ 0x1C
      → StepOf sc (typed shift text redraw)

type_char-StepOf :
    (shift : Bool) (text : List ℕ) (sc : ℕ)
    → IsField text
    → sc ≢ 0x1C
    → StepOf sc (type_char shift text sc)
unfolding type_char
type_char-StepOf shift text sc f n =
    let c = get_or (if shift then wz_sc_alpha_sh else wz_sc_alpha) sc 0 in
    if-cases (λ s. StepOf sc s) (not (c == 0) && ltb (length text) wz_field_max)
      (λ e. goes_on false (text ++ c ∷ []) true (longer-IsText wz_field_max text c f e) n)
      (λ e. goes_on false text false f n)

field_key-StepOf :
    (tab shift : Bool) (text : List ℕ) (sc : ℕ)
    → IsField text
    → StepOf sc (field_key tab shift text sc)
unfolding field_key
field_key-StepOf tab shift text sc f =
    let P = λ (s : FieldStep). StepOf sc s in
    if-cases P (sc == 0x2A || sc == 0x36) (λ e. goes_on true text false f (ground arith))
      (λ e.
        if-cases P (sc == 0x0E)
          (λ e1.
            if-cases P (length text == 0) (λ e2. goes_on shift text false f (ground arith))
              (λ e2.
                goes_on shift (drop_last text) true (drop_last-IsText wz_field_max text f)
                  (ground arith)))
          (λ e1.
            if-cases P (sc == 0x1C) (λ e2. at_enter)
              (λ e2.
                if-cases P (tab && sc == 0x0F) (λ e3. at_tab)
                  (λ e3.
                    if-cases P (ltb sc 58) (λ e4. type_char-StepOf shift text sc f (ground arith))
                      (λ e4. goes_on shift text false f (ground arith))))))

-- The field is left, with a text that fits.
pub record Left (k : ℕ) (o : Option FieldEnd) : Type 0 where
  pub end : FieldEnd
  pub ends : o ≡ some end
  pub enough : k ≤ enters end.codes_left
  pub fits : IsField end.text

enters-le : (sc : ℕ) (scs : List ℕ) → enters (sc ∷ scs) ≤ suc (enters scs)
enters-le sc scs = ground arith

enters-other : (sc : ℕ) (scs : List ℕ) → sc ≢ 0x1C → enters (sc ∷ scs) ≡ enters scs
enters-other sc scs h = ground arith

after_step-Left :
    (rest : Bool → List ℕ → Vram → Option FieldEnd) (show : List ℕ → Vram → Vram) (k sc : ℕ)
    (scs text : List ℕ) (v : Vram) (step : FieldStep)
    → StepOf sc step
    → IsField text
    → suc k ≤ enters (sc ∷ scs)
    → ((shift : Bool) (text : List ℕ) (v : Vram)
        → IsField text
        → suc k ≤ enters scs
        → Left k (rest shift text v))
    → Left k (after_step rest show scs text v step)
unfolding after_step
after_step-Left rest show k sc scs text v entered at_enter f h r = record {
  end = _;
  ends = refl;
  enough = omega (arith, enters-le sc scs);
  fits = f;
}
after_step-Left rest show k sc scs text v skipped at_tab f h r = record {
  end = _;
  ends = refl;
  enough = omega (arith, enters-le sc scs);
  fits = no_text;
}
after_step-Left rest show k sc scs text v (typed shift' text' redraw) (goes_on _ _ _ f' n) f h r =
    r shift' text' (if redraw then show text' v else v) f' (omega (arith, enters-other sc scs n))

pub field_loop-Left :
    (show : List ℕ → Vram → Vram) (tab : Bool) (k : ℕ) (scs : List ℕ) (shift : Bool) (text : List ℕ)
    (v : Vram)
    → IsField text
    → suc k ≤ enters scs
    → Left k (field_loop show tab scs shift text v)
unfolding field_loop
field_loop-Left show tab k [] shift text v f h = absurd (omega arith)
field_loop-Left show tab k (sc ∷ scs) shift text v f h =
    if-cases (λ o. Left k o) (ltb sc 0x80)
      (λ e.
        after_step-Left (field_loop show tab scs) show k sc scs text v (field_key tab shift text sc)
          (field_key-StepOf tab shift text sc f) f h
          (λ shift' text' v' f' h'. field_loop-Left show tab k scs shift' text' v' f' h'))
      (λ e.
        field_loop-Left show tab k scs shift text v f
          (omega (arith, enters-other sc scs (ground arith))))
