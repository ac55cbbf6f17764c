-- ===== src/Idt/Tests.antt =====
-- A table with made-up stub addresses.
use samos.Base.{◌+◌, ◌*◌, ◌≡◌, refl, arith, List, replicate, length-replicate, get_or}
use samos.Idt.{IdtGate, Stubs, gate, idt_init}
use samos.Idt.Gates.{no_gate, handler_of, dpl_of, IsGate, idt_init-gates}

abbrev stubs : Stubs
stubs = record {
  isr = λ v. 0xFFFF800000100000 + 16 * v;
  isr_generic = 0x200000;
  irq0 = 0x200010;
  syscall80 = 0x200020;
}

abbrev blank : List IdtGate
blank = replicate 256 no_gate

syscall_gate : (gate 0xFFFF800000200020 3).type_attr ≡ 0xEE
syscall_gate = refl

-- The witness.
idt_init-gates_example :
    let g = get_or (idt_init stubs blank) 0x80 no_gate in
    (handler_of g ≡ 0x200020) × IsGate g × (dpl_of g ≡ 3)
idt_init-gates_example =
    idt_init-gates stubs blank (length-replicate 256 no_gate) 0x80 (omega arith) (omega arith)
