-- ===== src/Interrupts/Tests.antt =====
-- Runs of the interrupt code, and the theorems at concrete inputs.
use shed_os.Base.{false, ◌==◌, if◌then◌else◌, arith}
use shed_os.Libk.Memutil.{Ram}
use shed_os.Interrupts.Idt.{IdtTable, idt_initialize}
use shed_os.Interrupts.Idt.Gates.{AreGates, idt_targets}
use shed_os.Interrupts.Apic.{Found}

abbrev no_gates : IdtTable
no_gates v = record {
  offset0 = 0;
  selector = 0;
  ist = 0;
  type_attr = 0;
  offset1 = 0;
  offset2 = 0;
  reserved = 0;
}

idt_targets_example :
    AreGates
      (λ k. 0xffff_ffff_8000_0000)
      0x8100_0000
      0x8200_0000
      no_gates
      (idt_initialize (λ k. 0xffff_ffff_8000_0000) 0x8100_0000 0x8200_0000 no_gates)
idt_targets_example =
    idt_targets (λ k. 0xffff_ffff_8000_0000) 0x8100_0000 0x8200_0000 no_gates
      (λ k lt. (omega arith, omega arith)) (omega arith) (omega arith) (omega arith) (omega arith)

-- A processor's record of 8 bytes, and an override of 10 bytes.
abbrev madt_bytes : Ram
madt_bytes a = if a == 1 then 8 else if a == 8 then 2 else if a == 9 then 10 else 0

abbrev nothing : Found
nothing = record {
  core_count = 0;
  ioapic_count = 0;
  ioapics = λ i. record { ioapic_id = 0; ioapic_addr = 0; gsib = 0 };
  iso_count = 0;
  isos = λ i. record { bus_source = 0; irq_source = 0; gsi = 0; flags = 0 };
  overrun = false;
}
