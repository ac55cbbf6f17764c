-- ===== src/Idt.antt =====
-- kernel/idt.h: the gates of the interrupt table. The stubs are assembly; their addresses are
-- parameters.
pub mod Gates
mod Tests
use samos.Base.{
  ℕ, zero, suc, ◌+◌, ◌-◌, ◌*◌, ◌%◌, ◌^◌, List, [], ◌∷◌, set, get_or, bit_and, bit_or, u8, u16, u32,
  ◌>>>◌,
}

-- `idt_gate_t`
pub record IdtGate : Type 0 where
  pub offset_lo : ℕ
  pub selector : ℕ
  pub ist : ℕ
  pub type_attr : ℕ
  pub offset_mid : ℕ
  pub offset_hi : ℕ
  pub reserved : ℕ

-- What `idt_set_gate_dpl` writes.
abbrev pub gate : ℕ → ℕ → IdtGate
gate addr dpl = record {
  offset_lo = u16 (bit_and addr 0xFFFF);
  selector = 0x08;
  ist = 0;
  type_attr = u8 (bit_or (bit_or 0x80 (dpl * 2 ^ 5)) 0x0E);
  offset_mid = u16 (bit_and (addr >>> 16) 0xFFFF);
  offset_hi = u32 (bit_and (addr >>> 32) 0xFFFFFFFF);
  reserved = 0;
}

-- `idt_table` is the list of its 256 gates.
pub idt_set_gate_dpl : List IdtGate → ℕ → ℕ → ℕ → List IdtGate
idt_set_gate_dpl table vec handler dpl = set table vec (gate handler dpl)

pub idt_set_gate : List IdtGate → ℕ → ℕ → List IdtGate
idt_set_gate table vec handler = idt_set_gate_dpl table vec handler 0

-- The addresses of the stubs.
pub record Stubs : Type 0 where
  pub isr : ℕ → ℕ
  pub isr_generic : ℕ
  pub irq0 : ℕ
  pub syscall80 : ℕ

-- The calls for the vectors 0 to 31, and the loop over those from 32 on: `left` gates from `i` on.
pub gates_loop : (ℕ → ℕ) → List IdtGate → ℕ → ℕ → List IdtGate
gates_loop handler table i zero = table
gates_loop handler table i (suc left) =
    gates_loop handler (idt_set_gate table i (handler i)) (i + 1) left

pub idt_init : Stubs → List IdtGate → List IdtGate
idt_init s table =
    let exceptions = gates_loop s.isr table 0 32 in
    let all = gates_loop (λ i. s.isr_generic) exceptions 32 224 in
    idt_set_gate_dpl (idt_set_gate all 0x20 s.irq0) 0x80 s.syscall80 3
