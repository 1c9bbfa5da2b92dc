-- ===== src/Boot/Start.antt =====
-- kernel/src/start.c and kernel/src/cpu/cpuinfo.c: what the bootloader and the processor say. A tag's
-- `read` gives its identifier at its address and the address of the next tag eight bytes on.
pub mod Tags
pub mod Size
use shed_os.Base.{
  ℕ, zero, suc, ◌+◌, ◌-◌, ◌*◌, ◌/◌, ◌%◌, ◌^◌, Bool, ◌||◌, ◌==◌, if◌then◌else◌, Option, none, some,
  List, [], ◌∷◌,
}

unfoldable pub stivale2_get_tag : (fuel current_tag id : ℕ) → (ℕ → ℕ) → Option ℕ
stivale2_get_tag zero current_tag id read = none
stivale2_get_tag (suc fuel) current_tag id read =
    let rest = stivale2_get_tag fuel (read (current_tag + 8)) id read in
    if current_tag == 0 then some 0 else if read current_tag == id then some current_tag else rest

-- The size of the terminal in characters, from that of the framebuffer.
unfoldable pub term_size : (framebuffer_width framebuffer_height : ℕ) → ℕ × ℕ
term_size framebuffer_width framebuffer_height =
    ((framebuffer_width - 16) / 8, (framebuffer_height - 16) / 16)

-- The names that `dump_memory` prints.
pub data MemoryType : Type 0 where
  usable : MemoryType
  reserved : MemoryType
  acpi_reclaimable : MemoryType
  acpi_nvs : MemoryType
  bad_memory : MemoryType
  bootloader_reclaimable : MemoryType
  kernel_and_modules : MemoryType
  unknown : MemoryType

unfoldable pub memory_type : ℕ → MemoryType
memory_type type =
    if type == 1
    then usable
    else if type == 2
    then reserved
    else if type == 3
    then acpi_reclaimable
    else if type == 4
    then acpi_nvs
    else if type == 5
    then bad_memory
    else if type == 0x1000
    then bootloader_reclaimable
    else if type == 0x1001
    then kernel_and_modules
    else unknown

-- The features that `dump_cpu` names: the bits that are set, without the reserved ones.
unfoldable pub features_loop : ℕ → (i featureset : ℕ) → List ℕ
features_loop zero i featureset = []
features_loop (suc left) i featureset =
    let rest = features_loop left (i + 1) featureset in
    if (i == 10) || ((i == 20) || (i == 47))
    then rest
    else if featureset / 2 ^ i % 2 == 0
    then rest
    else i ∷ rest

unfoldable pub features : ℕ → List ℕ
features featureset = features_loop 64 0 featureset

pub record CpuVersion : Type 0 where
  pub stepping : ℕ
  pub model : ℕ
  pub family : ℕ
  pub processor_type : ℕ

-- `cpuinfo_initialize` on the word that CPUID leaf 1 leaves in eax.
unfoldable pub cpu_version : ℕ → CpuVersion
cpu_version a =
    let family = a / 2 ^ 8 % 16 in
    let model = a / 2 ^ 4 % 16 in
    record {
      stepping = a % 16;
      model = if (family == 6) || (family == 15) then model + a / 2 ^ 16 % 16 * 2 ^ 4 else model;
      family = if family == 15 then family + a / 2 ^ 20 % 256 else family;
      processor_type = a / 2 ^ 12 % 4;
    }
