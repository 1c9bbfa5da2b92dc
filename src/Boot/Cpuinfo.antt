-- ===== src/Boot/Cpuinfo.antt =====
-- kernel/src/cpu/cpuinfo.c: what the processor says of itself. `cpuid` gives the four registers that the
-- instruction answers with. Numbers of the types `short` and `int` are kept as their bits.
use shed_os.Base.{
  ℕ, ◌+◌, ◌*◌, ◌/◌, ◌%◌, ◌^◌, Bool, false, ◌==◌, ◌&&◌, if◌then◌else◌, update, bit_or, for_range,
}
use shed_os.Libk.Memutil.{Ram}
use shed_os.Boot.Start.{cpu_version}

pub record CpuidAnswer : Type 0 where
  pub a : ℕ
  pub b : ℕ
  pub c : ℕ
  pub d : ℕ

-- `struct cpuinfo` without `core_count`, which is set elsewhere.
pub record Cpuinfo : Type 0 where
  pub supported : Bool
  pub brand_string : Ram
  pub vendor_string : Ram
  pub stepping : ℕ
  pub model : ℕ
  pub family : ℕ
  pub processor_type : ℕ
  pub featureset : ℕ
  pub base_frequency : ℕ
  pub max_frequency : ℕ
  pub bus_frequency : ℕ
  pub tsc_ratio_denom : ℕ
  pub tsc_ratio_numer : ℕ
  pub core_crystal_freq : ℕ

-- `*((uint32_t*)(str + at)) = v`
unfoldable pub put32 : (at v : ℕ) → Ram → Ram
put32 at v str =
    update
      (update (update (update str at (v % 256)) (at + 1) (v / 2 ^ 8 % 256)) (at + 2)
        (v / 2 ^ 16 % 256))
      (at + 3) (v / 2 ^ 24 % 256)

-- Sixteen characters of the brand string.
unfoldable pub brand_part : (ℕ → CpuidAnswer) → (i : ℕ) → Ram → Ram
brand_part cpuid i str =
    let r = cpuid (0x80000002 + i) in
    put32 (12 + i * 16) r.d
      (put32 (8 + i * 16) r.c (put32 (4 + i * 16) r.b (put32 (i * 16) r.a str)))

-- A space before another one becomes the end of the string.
unfoldable pub cut_spaces : (i : ℕ) → Ram → Ram
cut_spaces i str = if (str i == 32) && (str (i + 1) == 32) then update str i 0 else str

unfoldable pub brand : (ℕ → CpuidAnswer) → Ram → Ram
brand cpuid str = for_range 47 0 cut_spaces (for_range 3 0 (brand_part cpuid) str)

unfoldable pub vendor : CpuidAnswer → Ram → Ram
vendor r str = put32 8 r.c (put32 4 r.d (put32 0 r.b (update str 12 0)))

-- `present` is the test of the ID flag. Without CPUID only `supported` is set.
unfoldable pub cpuinfo_initialize : (present : Bool) → (ℕ → CpuidAnswer) → Cpuinfo → Cpuinfo
cpuinfo_initialize present cpuid info =
    let version = cpu_version (cpuid 1).a in
    if present
    then record info {
      brand_string = brand cpuid info.brand_string;
      vendor_string = vendor (cpuid 0) info.vendor_string;
      stepping = version.stepping;
      model = version.model;
      family = version.family;
      processor_type = version.processor_type;
      featureset = bit_or (cpuid 1).d ((cpuid 1).c * 2 ^ 32);
      base_frequency = (cpuid 0x16).a % 2 ^ 16;
      max_frequency = (cpuid 0x16).b % 2 ^ 16;
      bus_frequency = (cpuid 0x16).c % 2 ^ 16;
      tsc_ratio_denom = (cpuid 0x15).a;
      tsc_ratio_numer = (cpuid 0x15).b;
      core_crystal_freq = (cpuid 0x15).c;
    }
    else record info { supported = false }
