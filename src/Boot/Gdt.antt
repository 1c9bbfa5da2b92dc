-- ===== src/Boot/Gdt.antt =====
-- kernel/src/gdt/gdt.c: the segment descriptors and the task state segment.
pub mod Fields
use shed_os.Base.{ℕ, ◌+◌, ◌-◌, ◌*◌, ◌/◌, ◌%◌, ◌^◌, bit_or}
use shed_os.Base.Word.{u32_mod}

pub record GdtEntry : Type 0 where
  pub limit0 : ℕ
  pub base0 : ℕ
  pub base1 : ℕ
  pub access : ℕ
  pub limit1_flags : ℕ
  pub base2 : ℕ

-- The macro `GDT_ENTRY`, each field cut to its width.
unfoldable pub gdt_entry : (base limit access flags : ℕ) → GdtEntry
gdt_entry base limit access flags = record {
  limit0 = limit % 2 ^ 16;
  base0 = base % 2 ^ 16;
  base1 = base / 2 ^ 16 % 2 ^ 8;
  access = bit_or access 0x80;
  limit1_flags = bit_or (limit / 2 ^ 16) (flags * 2 ^ 4) % 2 ^ 8;
  base2 = base / 2 ^ 24 % 2 ^ 8;
}

pub record Gdt : Type 0 where
  pub null : GdtEntry
  pub kernel_code : GdtEntry
  pub kernel_data : GdtEntry
  pub user_code : GdtEntry
  pub user_data : GdtEntry
  pub tss_lower : GdtEntry
  pub tss_base3 : ℕ
  pub tss_reserved0 : ℕ

-- The fields of the task state segment that are set; the others are cleared.
pub record Tss : Type 0 where
  pub rsp0 : ℕ
  pub ist1 : ℕ
  pub iopb_offset : ℕ

-- `sizeof(struct tss)`
abbrev pub tss_size : ℕ
tss_size = 100

-- The table after `gdt_initialize`; `tss` is the address of the segment.
unfoldable pub gdt_tables : (tss : ℕ) → Gdt
gdt_tables tss = record {
  null = gdt_entry 0 0 0 0;
  kernel_code = gdt_entry 0 0xfffff 0x1a 2;
  kernel_data = gdt_entry 0 0xfffff 0x12 0;
  user_code = gdt_entry 0 0xfffff 0x7a 2;
  user_data = gdt_entry 0 0xfffff 0x72 0;
  tss_lower = gdt_entry (tss % u32_mod) tss_size 9 4;
  tss_base3 = tss / 2 ^ 32 % u32_mod;
  tss_reserved0 = 0;
}

unfoldable pub tss_fields : (kernel_stack : ℕ) → Tss
tss_fields kernel_stack = record { rsp0 = kernel_stack; ist1 = 0; iopb_offset = tss_size }
