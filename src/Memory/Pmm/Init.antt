-- ===== src/Memory/Pmm/Init.antt =====
-- `pmm_initialize` of pmm.c over the memory map that the bootloader passes.
pub mod Books
pub mod Marks
pub mod Tail
use shed_os.Base.{
  ℕ, ◌+◌, ◌-◌, ◌*◌, ◌/◌, Option, none, some, List, [], ◌∷◌, ◌==◌, ltb, if◌then◌else◌,
}
use shed_os.Base.Word.{add64}
use shed_os.Memory.Addr.{addr_ensure_higher}
use shed_os.Memory.Bitmap.{Bitmap}
use shed_os.Memory.Pmm.{Pmm, lock_pages, unlock_pages}

-- `struct stivale2_mmap_entry`
pub record MmapEntry : Type 0 where
  pub base : ℕ
  pub length : ℕ
  pub type : ℕ

abbrev pub mmap_usable : ℕ
mmap_usable = 1

-- The larger of the largest entry so far and `e`; the first one where they are as large.
unfoldable pub larger : Option MmapEntry → MmapEntry → Option MmapEntry
larger none e = some e
larger (some l) e = if ltb l.length e.length then some e else some l

-- The first loop: the total amount of memory, and the largest usable entry.
unfoldable pub scan : List MmapEntry → ℕ → Option MmapEntry → ℕ × Option MmapEntry
scan [] total largest = (total, largest)
scan (e ∷ es) total largest =
    scan es (add64 total e.length) (if e.type == mmap_usable then larger largest e else largest)

-- The second loop: unlock the pages of every usable entry.
unfoldable pub unlock_usable : List MmapEntry → Pmm → Pmm
unlock_usable [] s = s
unlock_usable (e ∷ es) s =
    unlock_usable es
      (if e.type == mmap_usable then (unlock_pages e.base (e.length / 0x1000) s).1 else s)

-- `memset(page_bitmap.buf, 0xff, len)` on what stands in memory there.
unfoldable pub memset_full : (mem : ℕ → ℕ) → (base len : ℕ) → Bitmap
memset_full mem base len = record {
  buf = λ i. if ltb i len then 0xff else mem (base + i);
  len = len;
}

-- The state after the `memset`: no page is free.
unfoldable pub all_locked : (mem : ℕ → ℕ) → ℕ → MmapEntry → Pmm
unfolding memset_full
all_locked mem total largest = record {
  page_bitmap = memset_full mem largest.base (total / (0x1000 * 8) + 1);
  bitmap_addr = largest.base;
  last_free = 0;
  free_memory = 0;
  total_memory = total;
}

-- The part behind the first loop, with a largest entry.
unfoldable pub set_up : (mem : ℕ → ℕ) → List MmapEntry → ℕ → MmapEntry → Pmm
set_up mem es total largest =
    let s0 = unlock_usable es (all_locked mem total largest) in
    let s = (lock_pages largest.base (s0.page_bitmap.len / 0x1000) s0).1 in
    record s { bitmap_addr = addr_ensure_higher s.bitmap_addr }

-- `none` is the access through a null `largest_entry`, where no entry is usable.
unfoldable pub pmm_initialize : (mem : ℕ → ℕ) → List MmapEntry → Option Pmm
pmm_initialize mem es =
    let (total, largest) = scan es 0 none in
    elim largest [ none ↦ none | some l ↦ some (set_up mem es total l) ]
