-- ===== src/Boot/Sdt.antt =====
-- kernel/src/sdt/sdt.c: the tables of the firmware. `m` gives the byte at each address.
pub mod Find
use shed_os.Base.{
  ℕ, zero, suc, ◌+◌, ◌-◌, ◌*◌, ◌/◌, ◌%◌, Bool, true, false, not, ◌&&◌, ◌==◌, ltb, if◌then◌else◌,
}
use shed_os.Base.Word.{sub64}
use shed_os.Base.Bytes.{read32, read64}
use shed_os.Base.Int.{ℤ, pos, negsuc}
use shed_os.Base.Result.{Result, ok, panic}
use shed_os.Libk.Memutil.{Ram}
use shed_os.Libk.Strutil.{strncmp}
use shed_os.Memory.Addr.{addr_ensure_higher}

-- The sum in a `uint8_t`.
unfoldable pub sum_loop : ℕ → (i sum hdr : ℕ) → Ram → ℕ
sum_loop zero i sum hdr m = sum
sum_loop (suc left) i sum hdr m = sum_loop left (i + 1) ((sum + m (hdr + i)) % 256) hdr m

unfoldable pub do_checksum_sdt : ℕ → Ram → Bool
do_checksum_sdt hdr m = sum_loop (read32 m (hdr + 4)) 0 0 hdr m == 0

-- 20 bytes, or the length that the newer structure names.
unfoldable pub do_checksum_rsdp : (use_xsdt : Bool) → ℕ → Ram → Bool
do_checksum_rsdp use_xsdt rsdp m =
    sum_loop (if use_xsdt then read32 m (rsdp + 20) else 20) 0 0 rsdp m == 0

-- `sizeof(struct sdt_header)`
abbrev pub sdt_header_size : ℕ
sdt_header_size = 36

-- The `i`-th table that the root table `sdt` points to.
unfoldable pub sdt_at : (use_xsdt : Bool) → (sdt i : ℕ) → Ram → ℕ
sdt_at use_xsdt sdt i m = addr_ensure_higher (
    if use_xsdt
    then read64 m (sdt + sdt_header_size + 8 * i)
    else read32 m (sdt + sdt_header_size + 4 * i))

abbrev pub is_zero : ℤ → Bool
is_zero (pos n) = n == 0
is_zero (negsuc n) = false

-- Whether the table at `hdr` has the signature.
unfoldable pub signed : (signature hdr : ℕ) → Ram → Bool
signed signature hdr m = is_zero (strncmp signature hdr 4 m)

-- The loop of `find_sdt`; 0 is NULL.
unfoldable pub find_loop : ℕ → (i signature : ℕ) → (use_xsdt : Bool) → (sdt : ℕ) → Ram → ℕ
find_loop zero i signature use_xsdt sdt m = 0
find_loop (suc left) i signature use_xsdt sdt m =
    let rest = find_loop left (i + 1) signature use_xsdt sdt m in
    let hdr = sdt_at use_xsdt sdt i m in if signed signature hdr m then hdr else rest

unfoldable pub num_sdts : (use_xsdt : Bool) → (sdt : ℕ) → Ram → ℕ
num_sdts use_xsdt sdt m = sub64 (read32 m (sdt + 4)) sdt_header_size / (if use_xsdt then 8 else 4)

unfoldable pub find_sdt : (signature : ℕ) → (use_xsdt : Bool) → (sdt : ℕ) → Ram → ℕ
find_sdt signature use_xsdt sdt m = find_loop (num_sdts use_xsdt sdt m) 0 signature use_xsdt sdt m

pub record Tables : Type 0 where
  pub root : ℕ
  pub madt : ℕ
  pub hpet : ℕ
  pub mcfg : ℕ

-- A table that must be there, with a checksum that must be right.
unfoldable pub required : (hdr : ℕ) → Ram → Bool
required hdr m = not (hdr == 0) && do_checksum_sdt hdr m

-- `apic`, `hpet_name` and `mcfg_name` are the addresses of the three signatures.
unfoldable pub sdt_initialize : (rsdp apic hpet_name mcfg_name : ℕ) → Ram → Result Tables
sdt_initialize rsdp apic hpet_name mcfg_name m =
    let use_xsdt = ltb 0 (m (rsdp + 15)) in
    let root =
      addr_ensure_higher (if use_xsdt then read64 m (rsdp + 24) else read32 m (rsdp + 16)) in
    let madt = find_sdt apic use_xsdt root m in
    let hpet = find_sdt hpet_name use_xsdt root m in
    let mcfg = find_sdt mcfg_name use_xsdt root m in
    if do_checksum_rsdp use_xsdt rsdp m
      && (do_checksum_sdt root m && (required madt m && (required hpet m && required mcfg m)))
    then ok (record { root = root; madt = madt; hpet = hpet; mcfg = mcfg })
    else panic
