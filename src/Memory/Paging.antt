-- ===== src/Memory/Paging.antt =====
-- kernel/src/memory/paging.c: the four-level page tables, with `palloc` of kernel/src/libk/alloc.c.
-- `ram` gives the 64-bit word at each address of the higher half, through which the kernel reaches a
-- table; `flushed` lists the addresses that `invlpg` was run on, the last one first.
pub mod Entry
pub mod Tree
pub mod Walk
pub mod Extends
pub mod Leaves
pub mod Grow
pub mod Descend
pub mod Map
pub mod Get
pub mod Unmap
mod Tests
use shed_os.Base.{
  ℕ, zero, suc, ◌+◌, ◌*◌, ◌/◌, ◌^◌, Bool, true, false, not, bit_and, bit_or, ◌==◌, ltb, leb, ◌&&◌,
  if◌then◌else◌, List, ◌∷◌, update,
}
use shed_os.Base.Word.{add64, not64}
use shed_os.Memory.Addr.{
  vaddr_higher, addr_offset_higher, addr_offset_lower, addr_ensure_higher, addr_ensure_lower,
}
use shed_os.Memory.Pmm.{Pmm, pmm_request_pages, pmm_release_pages}

abbrev pub paging_present : ℕ
paging_present = 1

abbrev pub paging_writable : ℕ
paging_writable = 2

abbrev pub paging_user : ℕ
paging_user = 4

abbrev pub paging_huge : ℕ
paging_huge = 128

pub record Machine : Type 0 where
  pub ram : ℕ → ℕ
  pub pmm : Pmm
  pub kernel_table : ℕ
  pub cr3 : ℕ
  pub flushed : List ℕ

unfoldable pub palloc : ℕ → Machine → ℕ × Machine
palloc n s =
    let (page, pmm) = pmm_request_pages n s.pmm in (addr_offset_higher page, record s { pmm = pmm })

unfoldable pub pfree : ℕ → ℕ → Machine → Machine
pfree ptr n s = record s { pmm = pmm_release_pages (addr_ensure_lower ptr) n s.pmm }

-- `memset(p, 0, 0x1000)` at the start of a page
unfoldable pub zero_page : ℕ → (ℕ → ℕ) → ℕ → ℕ
zero_page p ram a = if leb p a && ltb a (p + 0x1000) then 0 else ram a

-- `&table[i]`
abbrev pub slot : ℕ → ℕ → ℕ
slot table i = table + 8 * i

-- `indices[level]`, found by shifting nine bits at a time
unfoldable pub index : ℕ → ℕ → ℕ
index zero v = bit_and v 0x1ff
index (suc level) v = index level (v / 2 ^ 9)

unfoldable pub vaddr_to_index : ℕ → ℕ → ℕ
unfolding index
vaddr_to_index vaddr level = index level (vaddr / 2 ^ 12)

abbrev pub present : ℕ → Bool
present entry = not (bit_and entry paging_present == 0)

abbrev pub huge : ℕ → Bool
huge entry = not (bit_and entry paging_huge == 0)

-- The table that an entry points to, as the kernel reaches it.
unfoldable pub table_of : ℕ → ℕ
table_of entry = addr_ensure_higher (bit_and entry (not64 0xfff))

unfoldable pub paging_flush_tlb : ℕ → Machine → Machine
paging_flush_tlb addr s = record s { flushed = addr ∷ s.flushed }

unfoldable pub paging_write_cr3 : ℕ → Machine → Machine
paging_write_cr3 table s = record s { cr3 = addr_ensure_lower table }

-- The entry that `paging_map` puts in for a new table.
unfoldable pub new_entry : ℕ → ℕ → ℕ
new_entry vaddr child =
    let entry = bit_or (addr_offset_lower child) paging_present in
    if ltb vaddr vaddr_higher then bit_or entry (bit_or paging_writable paging_user) else entry

-- One round of the loop of `paging_map`: the next table, made if it is not there.
unfoldable pub descend : (vaddr i table : ℕ) → Machine → ℕ × Machine
descend vaddr i table s =
    if present (s.ram (slot table i))
    then (table_of (s.ram (slot table i)), s)
    else (let (child, s') = palloc 1 s in
        (
          table_of child,
          record s' {
            ram = update (zero_page child s'.ram) (slot table i) (new_entry vaddr child);
          },
        ))

unfoldable pub map_walk : ℕ → (vaddr table : ℕ) → Machine → ℕ × Machine
map_walk zero vaddr table s = (table, s)
map_walk (suc level) vaddr table s =
    let (child, s') = descend vaddr (vaddr_to_index vaddr (suc level)) table s in
    map_walk level vaddr child s'

unfoldable pub paging_map : (table vaddr paddr flags : ℕ) → Machine → Machine
paging_map table vaddr paddr flags s =
    let (leaf, s') = map_walk 3 vaddr table s in
    paging_flush_tlb vaddr (record s' {
      ram =
          update s'.ram (slot leaf (vaddr_to_index vaddr 0))
            (bit_or (bit_or paddr flags) paging_present);
    })

unfoldable pub unmap_walk : ℕ → (vaddr table : ℕ) → Machine → Machine
unmap_walk zero vaddr table s =
    paging_flush_tlb vaddr (record s { ram = update s.ram (slot table (vaddr_to_index vaddr 0)) 0 })
unmap_walk (suc level) vaddr table s =
    let child = s.ram (slot table (vaddr_to_index vaddr (suc level))) in
    let rest = unmap_walk level vaddr (table_of child) s in if not (present child) then s else rest

unfoldable pub paging_unmap : (table vaddr : ℕ) → Machine → Machine
paging_unmap table vaddr s = unmap_walk 3 vaddr table s

unfoldable pub get_walk : ℕ → (vaddr table : ℕ) → (ℕ → ℕ) → ℕ
get_walk zero vaddr table ram = ram (slot table (vaddr_to_index vaddr 0))
get_walk (suc level) vaddr table ram =
    let child = ram (slot table (vaddr_to_index vaddr (suc level))) in
    let rest = get_walk level vaddr (table_of child) ram in
    if not (present child) then 0 else if huge child then child else rest

unfoldable pub paging_get : (table vaddr : ℕ) → Machine → ℕ
paging_get table vaddr s = get_walk 3 vaddr table s.ram
