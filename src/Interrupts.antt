-- ===== src/Interrupts.antt =====
-- kernel/src/interrupts: the tables and chips through which interrupts come.
pub mod Idt
pub mod Apic
pub mod Chips
pub mod Dispatch
mod Tests
