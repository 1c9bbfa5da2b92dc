-- ===== src/Memory/Spaces.antt =====
-- kernel/src/memory/paging.c: whole address spaces, made, copied and taken the right to write. The
-- messages of DEBUG builds are left out.
pub mod Plain
pub mod Readonly
pub mod Rights
pub mod Kept
pub mod Copied
pub mod Step
pub mod Copy
pub mod Twin
pub mod Filled
pub mod Huge
pub mod Initial
use shed_os.Base.{
  ℕ, zero, suc, ◌+◌, ◌-◌, ◌*◌, ◌/◌, ◌^◌, true, false, bit_and, bit_or, ltb, leb, ◌==◌, ◌&&◌,
  if◌then◌else◌, List, [], ◌∷◌, update, for_range,
}
use shed_os.Base.Word.{add64, mul64, not64}
use shed_os.Memory.Addr.{vaddr_higher, addr_offset_lower}
use shed_os.Memory.Pmm.Init.{MmapEntry}
use shed_os.Memory.Paging.{
  Machine, palloc, zero_page, slot, present, table_of, paging_map, paging_unmap, paging_flush_tlb,
  paging_write_cr3, paging_present, paging_writable, paging_huge,
}

-- `memcpy(dst, src, n)` on words, between places that do not overlap
unfoldable pub copy_range : (dst src n : ℕ) → (ℕ → ℕ) → ℕ → ℕ
copy_range dst src n ram a = if leb dst a && ltb a (dst + n) then ram (src + (a - dst)) else ram a

-- A fresh top-level table, zeroed.
unfoldable pub new_table : Machine → ℕ × Machine
new_table s = let (child, s1) = palloc 1 s in (child, record s1 { ram = zero_page child s1.ram })

unfoldable pub paging_create_empty : Machine → ℕ × Machine
paging_create_empty s =
    let (new, s1) = new_table s in
    (new, record s1 { ram = copy_range (new + 0x800) (s1.kernel_table + 0x800) 0x800 s1.ram })

-- How many entries of a table the recursions go through: the user half of a top-level one.
abbrev pub entries : ℕ → ℕ
entries level = if level == 4 then 256 else 512

-- `dst[i]` points to the copy of the table that `src[i]` points to.
unfoldable pub link_copy : (dst src i new_dst : ℕ) → Machine → Machine
link_copy dst src i new_dst s = record s {
  ram =
      update s.ram (slot dst i)
        (bit_or (addr_offset_lower new_dst) (bit_and (s.ram (slot src i)) 0xfff));
}

-- `paging_copy_recursive(dst, src, below + 1)`
unfoldable pub paging_copy_recursive : (below dst src : ℕ) → Machine → Machine
paging_copy_recursive zero dst src s = record s { ram = copy_range dst src 0x1000 s.ram }
paging_copy_recursive (suc below) dst src s =
    for_range (entries (suc below + 1)) 0
      (λ i s1. elim (present (s1.ram (slot src i))) [
        | true ↦
            (let (new_dst, s2) = palloc 1 s1 in
              link_copy dst src i new_dst
                (paging_copy_recursive below new_dst (table_of (s1.ram (slot src i))) s2))
        | false ↦ s1
      ])
      s

unfoldable pub paging_copy : (parent : ℕ) → Machine → ℕ × Machine
paging_copy parent s =
    let (new, s1) = paging_create_empty s in (new, paging_copy_recursive 3 new parent s1)

-- `(vaddr << 9) | i`
unfoldable pub child_vaddr : (vaddr i : ℕ) → ℕ
child_vaddr vaddr i = bit_or (mul64 vaddr (2 ^ 9)) i

-- `table[i] &= ~PAGING_WRITABLE`, and the address whose entry it is.
unfoldable pub readonly_entry : (table vaddr i : ℕ) → Machine → Machine
readonly_entry table vaddr i s =
    let s1 = paging_flush_tlb (mul64 (child_vaddr vaddr i) (2 ^ 12)) s in
    record s1 {
      ram = update s1.ram (slot table i) (bit_and (s1.ram (slot table i)) (not64 paging_writable));
    }

-- `paging_make_readonly_recursive(table, below + 1, vaddr)`
unfoldable pub paging_make_readonly_recursive : (below table vaddr : ℕ) → Machine → Machine
paging_make_readonly_recursive zero table vaddr s = for_range 512 0 (readonly_entry table vaddr) s
paging_make_readonly_recursive (suc below) table vaddr s =
    for_range (entries (suc below + 1)) 0
      (λ i s1. elim (present (s1.ram (slot table i))) [
        | true ↦
            paging_make_readonly_recursive below (table_of (s1.ram (slot table i)))
              (child_vaddr vaddr i) s1
        | false ↦ s1
      ])
      s

unfoldable pub paging_make_readonly : (table : ℕ) → Machine → Machine
paging_make_readonly table s = paging_make_readonly_recursive 3 table 0 s

-- One round of the first loop of `paging_initialize`: an empty table for a top-level entry.
unfoldable pub kernel_entry : ℕ → Machine → Machine
kernel_entry i s =
    let (child, s1) = new_table s in
    record s1 {
      ram =
          update s1.ram (slot s1.kernel_table i) (bit_or paging_present (addr_offset_lower child));
    }

-- `parent[first + i]` maps the gigabyte `i`.
unfoldable pub huge_entry : (parent first i : ℕ) → Machine → Machine
huge_entry parent first i s = record s {
  ram =
      update s.ram (slot parent (first + i))
        (bit_or (bit_or (bit_or (i * 0x40000000) paging_present) paging_writable) paging_huge);
}

-- 4G at `vaddr_higher`, by the table of the entry 256.
unfoldable pub map_higher : Machine → Machine
map_higher s = for_range 4 0 (huge_entry (table_of (s.ram (slot s.kernel_table 256))) 0) s

-- 2G at `vaddr_kernel`, by the end of the table of the entry 511.
unfoldable pub map_kernel : Machine → Machine
map_kernel s = for_range 2 0 (huge_entry (table_of (s.ram (slot s.kernel_table 511))) 510) s

-- The pages of a memory map entry; `rounds` bounds their number.
unfoldable pub map_pages : (rounds paddr stop : ℕ) → Machine → Machine
map_pages zero paddr stop s = s
map_pages (suc rounds) paddr stop s =
    let s1 =
      if ltb paddr 0x100000000
      then s
      else paging_map s.kernel_table (add64 vaddr_higher paddr) paddr paging_writable s in
    if ltb paddr stop then map_pages rounds (add64 paddr 0x1000) stop s1 else s

unfoldable pub map_entries : List MmapEntry → Machine → Machine
map_entries [] s = s
map_entries (e ∷ es) s =
    map_entries es (map_pages ((e.length + 0xfff) / 0x1000) e.base (add64 e.base e.length) s)

-- `kernel_table`, with its upper half filled in.
unfoldable pub kernel_tables : Machine → Machine
kernel_tables s =
    let (table, s1) = new_table s in
    map_kernel (map_higher (for_range 256 256 kernel_entry (record s1 { kernel_table = table })))

unfoldable pub paging_initialize : List MmapEntry → Machine → Machine
paging_initialize mmap s =
    let s1 = map_entries mmap (kernel_tables s) in
    paging_write_cr3 s1.kernel_table (paging_unmap s1.kernel_table 0 s1)
