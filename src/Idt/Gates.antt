-- ===== src/Idt/Gates.antt =====
-- Every vector has its handler, and only the system call can be raised from ring 3.
use samos.Base.{
  ℕ, zero, suc, ◌+◌, ◌*◌, ◌/◌, ◌%◌, ◌^◌, ◌<◌, ◌≤◌, ◌≡◌, ◌≢◌, ◌⊎◌, inl, inr, refl, sym, ap, ◌∙◌,
  arith, ltb, ◌==◌, if◌then◌else◌, if-cases, List, length, set, get_or, length-set, get_or-set_self,
  get_or-set_ne, bit_and-mask, ◌>>>◌, ne→==,
}
use samos.Idt.{IdtGate, gate, idt_set_gate_dpl, idt_set_gate, Stubs, gates_loop, idt_init}

abbrev pub no_gate : IdtGate
no_gate = record {
  offset_lo = 0;
  selector = 0;
  ist = 0;
  type_attr = 0;
  offset_mid = 0;
  offset_hi = 0;
  reserved = 0;
}

-- What the processor reads from a gate: the handler, the privilege that `int` needs, and whether
-- the gate is present with the type of a 64-bit interrupt gate.
abbrev pub handler_of : IdtGate → ℕ
handler_of g = g.offset_lo + g.offset_mid * 2 ^ 16 + g.offset_hi * 2 ^ 32

abbrev pub dpl_of : IdtGate → ℕ
dpl_of g = g.type_attr / 2 ^ 5 % 4

abbrev pub IsGate : IdtGate → Type 0
IsGate g = (g.type_attr / 2 ^ 7 ≡ 1) × (g.type_attr % 16 ≡ 0x0E) × (g.selector ≡ 0x08)

handler_of-gate : (a dpl : ℕ) → a < 2 ^ 64 → handler_of (gate a dpl) ≡ a
handler_of-gate a dpl h =
    omega (arith, bit_and-mask 16 a, bit_and-mask 16 (a >>> 16), bit_and-mask 32 (a >>> 32))

length-gates_loop :
    (handler : ℕ → ℕ) (i left : ℕ) (table : List IdtGate)
    → length (gates_loop handler table i left) ≡ length table
unfolding gates_loop idt_set_gate idt_set_gate_dpl
length-gates_loop handler i zero table = refl
length-gates_loop handler i (suc left) table =
    length-gates_loop handler (i + 1) left (set table i (gate (handler i) 0))
    ∙ length-set table i (gate (handler i) 0)

gates_loop-outside :
    (handler : ℕ → ℕ) (i left : ℕ) (table : List IdtGate) (v : ℕ)
    → (v < i) ⊎ (i + left ≤ v)
    → get_or (gates_loop handler table i left) v no_gate ≡ get_or table v no_gate
unfolding gates_loop idt_set_gate idt_set_gate_dpl
gates_loop-outside handler i zero table v h = refl
gates_loop-outside handler i (suc left) table v h =
    gates_loop-outside handler (i + 1) left (set table i (gate (handler i) 0)) v (omega arith)
    ∙ get_or-set_ne table i v (gate (handler i) 0) no_gate (omega arith)

gates_loop-inside :
    (handler : ℕ → ℕ) (i left : ℕ) (table : List IdtGate) (v : ℕ)
    → i ≤ v
    → v < i + left
    → i + left ≤ length table
    → get_or (gates_loop handler table i left) v no_gate ≡ gate (handler v) 0
unfolding gates_loop idt_set_gate idt_set_gate_dpl
gates_loop-inside handler i zero table v l u h = absurd (omega arith)
gates_loop-inside handler i (suc left) table v l u h = elim (first i v l) [
  | inl e ↦
      gates_loop-outside handler (i + 1) left (set table i (gate (handler i) 0)) v (omega arith)
      ∙ ap (λ w. get_or (set table i (gate (handler i) 0)) w no_gate) e
      ∙ get_or-set_self table i (gate (handler i) 0) no_gate (omega arith)
      ∙ ap (λ w. gate (handler w) 0) (sym e)
  | inr lt ↦
      let len = length-set table i (gate (handler i) 0) in
      gates_loop-inside handler (i + 1) left (set table i (gate (handler i) 0)) v (omega arith)
        (omega arith) (omega arith)
]
  where
    first : (i v : ℕ) → i ≤ v → (v ≡ i) ⊎ (i + 1 ≤ v)
    first i v l = omega arith

-- The handler that each vector is meant to have.
abbrev pub handler_for : Stubs → ℕ → ℕ
handler_for s v =
    if v == 0x80
    then s.syscall80
    else if v == 0x20
    then s.irq0
    else if ltb v 32
    then s.isr v
    else s.isr_generic

module _ (s : Stubs) (table : List IdtGate) (sized : length table ≡ 256) where
  abbrev exceptions : List IdtGate
  exceptions = gates_loop s.isr table 0 32

  abbrev all : List IdtGate
  all = gates_loop (λ i. s.isr_generic) exceptions 32 224

  length-all : length all ≡ 256
  length-all =
      length-gates_loop (λ i. s.isr_generic) 32 224 exceptions
      ∙ length-gates_loop s.isr 0 32 table
      ∙ sized

  vector_cases : (v : ℕ) → (v ≡ 0x80) ⊎ ((v ≡ 0x20) ⊎ ((v ≢ 0x80) × (v ≢ 0x20)))
  vector_cases v = omega arith

  plain_gate :
      (v : ℕ)
      → v < 256
      → get_or all v no_gate ≡ gate (if ltb v 32 then s.isr v else s.isr_generic) 0
  plain_gate v h =
      if-cases (λ a. get_or all v no_gate ≡ gate a 0) (ltb v 32)
        (λ e.
          gates_loop-outside (λ i. s.isr_generic) 32 224 exceptions v (inl (ground arith))
          ∙ gates_loop-inside s.isr 0 32 table v (omega arith) (ground arith) (omega arith))
        (λ e.
          gates_loop-inside (λ i. s.isr_generic) 32 224 exceptions v (ground arith) (omega arith)
            (omega (arith, length-gates_loop s.isr 0 32 table)))

  gate_at :
      (v : ℕ)
      → v < 256
      → get_or (idt_init s table) v no_gate ≡ gate (handler_for s v) (if v == 0x80 then 3 else 0)
  unfolding idt_init idt_set_gate idt_set_gate_dpl
  gate_at v h = elim (vector_cases v) [
    | inl e ↦ rw e (
        get_or-set_self (set all 0x20 (gate s.irq0 0)) 0x80 (gate s.syscall80 3) no_gate
          (omega (arith, length-set all 0x20 (gate s.irq0 0), length-all)))
    | inr (inl e) ↦ rw e (
        get_or-set_ne (set all 0x20 (gate s.irq0 0)) 0x80 0x20 (gate s.syscall80 3) no_gate
          (omega arith)
        ∙ get_or-set_self all 0x20 (gate s.irq0 0) no_gate (omega (arith, length-all)))
    | inr (inr (a, b)) ↦
        rw (ne→== v 0x80 a, ne→== v 0x20 b)
          (get_or-set_ne (set all 0x20 (gate s.irq0 0)) 0x80 v (gate s.syscall80 3) no_gate
              (λ e. a (sym e))
            ∙ get_or-set_ne all 0x20 v (gate s.irq0 0) no_gate (λ e. b (sym e))
            ∙ plain_gate v h)
  ]

  -- After `idt_init` each of the 256 vectors has a present 64-bit interrupt gate into the kernel's
  -- code segment, with the handler that is meant for it (an exception stub, the timer, the system
  -- call or the generic stub); and `int` from ring 3 can raise vector 0x80 and no other. The
  -- table has 256 entries, and addresses of stubs have 64 bits.
  pub idt_init-gates :
      (v : ℕ)
      → v < 256
      → handler_for s v < 2 ^ 64
      → let g = get_or (idt_init s table) v no_gate in
        (handler_of g ≡ handler_for s v) × IsGate g × (dpl_of g ≡ (if v == 0x80 then 3 else 0))
  idt_init-gates v h fits = rw (gate_at v h) (
    handler_of-gate (handler_for s v) (if v == 0x80 then 3 else 0) fits,
    if-cases (λ d. IsGate (gate (handler_for s v) d)) (v == 0x80) {x = 3} {y = 0}
        (λ e. (refl, refl, refl)) (λ e. (refl, refl, refl)),
    if-cases (λ d. dpl_of (gate (handler_for s v) d) ≡ d) (v == 0x80) {x = 3} {y = 0} (λ e. refl)
        (λ e. refl),
  )
