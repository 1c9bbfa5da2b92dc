-- ===== src/Libk/Memutil/Tests.antt =====
-- The theorems of memutil.c at concrete blocks.
use shed_os.Base.{◌%◌, ◌≡◌, if◌then◌else◌}
use shed_os.Libk.Memutil.{Ram, memcmp, memset}
use shed_os.Libk.Memutil.Laws.{within, Compared, memset_lem, memcmp_lem}

-- Byte `a` holds `a` itself.
abbrev ramp : Ram
ramp a = a % 256

memset_lem_example :
    memset 0x10 0x141 4 ramp 0x12 ≡ (if within 0x10 4 0x12 then 0x141 % 256 else ramp 0x12)
memset_lem_example = memset_lem 0x10 0x141 4 0x12 ramp

memcmp_lem_example : Compared 0x10 0x12 0 4 ramp (memcmp 0x10 0x12 4 ramp)
memcmp_lem_example = memcmp_lem 0x10 0x12 4 ramp
