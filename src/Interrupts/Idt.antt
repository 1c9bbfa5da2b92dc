-- ===== src/Interrupts/Idt.antt =====
-- kernel/src/interrupts/idt.c: the table of interrupt gates.
pub mod Gates
use shed_os.Base.{ℕ, zero, suc, ◌+◌, ◌*◌, ◌/◌, ◌%◌, ◌^◌, ◌==◌, if◌then◌else◌, update}

pub record IdtDesc : Type 0 where
  pub offset0 : ℕ
  pub selector : ℕ
  pub ist : ℕ
  pub type_attr : ℕ
  pub offset1 : ℕ
  pub offset2 : ℕ
  pub reserved : ℕ

abbrev pub idt_ta_interrupt : ℕ
idt_ta_interrupt = 0x8e

abbrev pub idt_ta_system_call : ℕ
idt_ta_system_call = 0xee

-- `idt_descriptors`
abbrev pub IdtTable : Type 0
IdtTable = ℕ → IdtDesc

unfoldable pub load_interrupt : (vector callback type_attr : ℕ) → IdtTable → IdtTable
load_interrupt vector callback type_attr t =
    if callback == 0
    then t
    else update t vector (record {
      offset0 = callback % 2 ^ 16;
      offset1 = callback / 2 ^ 16 % 2 ^ 16;
      offset2 = callback / 2 ^ 32 % 2 ^ 32;
      ist = 0;
      type_attr = type_attr;
      selector = 0x08;
      reserved = (t vector).reserved;
    })

-- The loop over the exceptions; `stubs` is `__exception_interrupts`.
unfoldable pub load_exceptions : ℕ → (i : ℕ) → (ℕ → ℕ) → IdtTable → IdtTable
load_exceptions zero i stubs t = t
load_exceptions (suc left) i stubs t =
    load_exceptions left (i + 1) stubs (load_interrupt i (stubs i) idt_ta_interrupt t)

-- `isr34` and `isr128` are the addresses of the two stubs.
unfoldable pub idt_initialize : (stubs : ℕ → ℕ) → (isr34 isr128 : ℕ) → IdtTable → IdtTable
idt_initialize stubs isr34 isr128 t =
    load_interrupt 128 isr128 idt_ta_system_call
      (load_interrupt 34 isr34 idt_ta_interrupt (load_exceptions 31 0 stubs t))
