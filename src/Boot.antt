-- ===== src/Boot.antt =====
-- What the kernel finds when it starts: kernel/src/sdt, gdt, pci and start.c.
pub mod Cpuinfo
pub mod Sdt
pub mod Gdt
pub mod Pci
pub mod Start
mod Tests
