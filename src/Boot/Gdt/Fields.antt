-- ===== src/Boot/Gdt/Fields.antt =====
-- What the processor reads from a descriptor of gdt.c.
use shed_os.Base.{ℕ, ◌+◌, ◌*◌, ◌^◌, ◌<◌, ◌≡◌, arith}
use shed_os.Boot.Gdt.{GdtEntry, gdt_entry, gdt_tables}

abbrev pub base_of : GdtEntry → ℕ
base_of e = e.base0 + 2 ^ 16 * e.base1 + 2 ^ 24 * e.base2

-- The descriptor of the task state segment leads to it, at any 64-bit address.
pub tss_base :
    (tss : ℕ)
    → tss < 2 ^ 64
    → base_of (gdt_tables tss).tss_lower + 2 ^ 32 * (gdt_tables tss).tss_base3 ≡ tss
unfolding gdt_tables gdt_entry
tss_base tss lt = omega arith

pub base_of-gdt_entry :
    (base limit access flags : ℕ)
    → base < 2 ^ 32
    → base_of (gdt_entry base limit access flags) ≡ base
unfolding gdt_entry
base_of-gdt_entry base limit access flags lt = omega arith
