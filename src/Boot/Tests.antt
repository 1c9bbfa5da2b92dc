-- ===== src/Boot/Tests.antt =====
-- The theorems on what the kernel finds when it starts, at concrete inputs.
use shed_os.Base.{ℕ, ◌+◌, ◌*◌, ◌%◌, ◌^◌, ◌≡◌, refl, ◌==◌, if◌then◌else◌, [], ◌∷◌, some, arith}
use shed_os.Base.Bytes.{read32}
use shed_os.Libk.Memutil.{Ram}
use shed_os.Boot.Sdt.{do_checksum_sdt}
use shed_os.Boot.Sdt.Find.{total, checksum_lem}
use shed_os.Boot.Gdt.{gdt_tables}
use shed_os.Boot.Gdt.Fields.{base_of, tss_base}
use shed_os.Boot.Pci.{pci_get_cap}
use shed_os.Boot.Pci.Search.{Searched, pci_get_cap_lem}
use shed_os.Boot.Start.{stivale2_get_tag}
use shed_os.Boot.Start.Tags.{first_tag, get_tag_lem}

-- A table of 8 bytes whose sum is 256.
abbrev bytes : Ram
bytes a = if a == 4 then 8 else if a == 0 then 248 else 0

checksum_lem_example : do_checksum_sdt 0 bytes ≡ (total (read32 bytes (0 + 4)) 0 bytes % 256 == 0)
checksum_lem_example = checksum_lem 0 bytes

tss_base_example :
    base_of (gdt_tables 0xffff_ffff_8001_2340).tss_lower
      + 2 ^ 32 * (gdt_tables 0xffff_ffff_8001_2340).tss_base3
    ≡ 0xffff_ffff_8001_2340
tss_base_example = tss_base 0xffff_ffff_8001_2340 (omega arith)

-- Two tags, with the identifiers 7 and 9.
abbrev tags : ℕ → ℕ
tags a = if a == 0x10 then 7 else if a == 0x18 then 0x40 else if a == 0x40 then 9 else 0

get_tag_lem_example : stivale2_get_tag 3 0x10 9 tags ≡ some (first_tag tags 9 (0x10 ∷ 0x40 ∷ []))
get_tag_lem_example =
    get_tag_lem (0x10 ∷ 0x40 ∷ []) 3 0x10 9 tags (refl, omega arith, (refl, omega arith, refl))
      (omega arith)

-- A device whose only capability, of kind 5, is the last one.
abbrev one_cap : Ram
one_cap a = if a == 0x1040 then 5 else 0

pci_get_cap_lem_example :
    Searched one_cap 0x1000 0x40 0x11 1000 (pci_get_cap 1000 (0x1000 + 0x40) 0x1000 0x11 one_cap)
pci_get_cap_lem_example =
    pci_get_cap_lem 0x1000 0x11 one_cap (λ a. ground arith) (λ e. omega arith) (omega arith) 1000
      0x40
