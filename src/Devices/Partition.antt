-- ===== src/Devices/Partition.antt =====
-- kernel/src/vfs/partition.c and vfs.c: the partition table of a drive. `lba2` gives the bytes that were
-- read from the table's blocks.
pub mod Entries
use shed_os.Base.{
  ℕ, zero, suc, ◌+◌, ◌*◌, ◌/◌, ◌==◌, ltb, if◌then◌else◌, Option, none, some, List, [], ◌∷◌,
}
use shed_os.Base.Bytes.{read64}
use shed_os.Base.Int.{ℤ, pos, negsuc}
use shed_os.Base.Result.{Result, ok, panic}
use shed_os.Libk.Memutil.{Ram}
use shed_os.Libk.Strutil.{strlen}

-- The fields of `struct gpt_hdr` that the code uses.
pub record GptHdr : Type 0 where
  pub signature_ok : ℤ
  pub pentry_start_lba : ℕ
  pub pentry_count : ℕ
  pub pentry_size : ℕ

-- The fields of `struct gpt_entry` that are looked at.
pub record GptEntry : Type 0 where
  pub first_lba : ℕ
  pub last_lba : ℕ

unfoldable pub load_entry : Ram → ℕ → GptEntry
load_entry lba2 off = record {
  first_lba = read64 lba2 (off + 32);
  last_lba = read64 lba2 (off + 40);
}

-- The loop over the table: the entries that are in use, in order.
unfoldable pub entries_loop : ℕ → (i pentry_size : ℕ) → Ram → List GptEntry
entries_loop zero i pentry_size lba2 = []
entries_loop (suc left) i pentry_size lba2 =
    let rest = entries_loop left (i + 1) pentry_size lba2 in
    let entry = load_entry lba2 (i * pentry_size) in
    if entry.first_lba == 0 then rest else entry ∷ rest

-- `partition_load_drive`: `signature_ok` is the answer of `strncmp` on the signature.
unfoldable pub partition_load_drive : GptHdr → Ram → Result (List GptEntry)
partition_load_drive hdr lba2 = elim hdr.signature_ok [
  | pos n ↦ if n == 0 then ok (entries_loop hdr.pentry_count 0 hdr.pentry_size lba2) else panic
  | negsuc n ↦ panic
]

-- The pages that the table's blocks are read to, and those that are given back.
unfoldable pub pages_taken : ℕ → ℕ
pages_taken block_size = (block_size * 32 + 0xfff) / 0x1000

unfoldable pub pages_given_back : ℕ → ℕ
pages_given_back block_size = (block_size + 0xfff) / 0x1000

-- `vfs_file_open`, which only looks at the length so far: -1 for a path that is too long, or 0.
unfoldable pub vfs_file_open : (fuel path : ℕ) → Ram → Option ℤ
vfs_file_open fuel path m = elim (strlen fuel path m) [
  | none ↦ none
  | some len ↦ some (if ltb 126 len then negsuc 0 else pos 0)
]
