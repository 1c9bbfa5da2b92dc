-- ===== src/Memory/Vmm.antt =====
-- kernel/src/memory/vmm.c: pages of an address space, taken from the page manager.
pub mod Fresh
pub mod Many
mod Tests
use shed_os.Base.{ℕ, zero, suc, ◌+◌, not, bit_and, if◌then◌else◌}
use shed_os.Base.Word.{add64, mul64, not64}
use shed_os.Memory.Pmm.{pmm_request_pages, pmm_release_pages}
use shed_os.Memory.Paging.{Machine, present, paging_get, paging_map, paging_unmap}

-- A page for one address, unless it has one.
unfoldable pub request_page : (table target flags : ℕ) → Machine → Machine
request_page table target flags s =
    if present (paging_get table target s)
    then s
    else (let (memory, pmm) = pmm_request_pages 1 s.pmm in
        paging_map table target memory flags (record s { pmm = pmm }))

-- The rounds that are left, and the number of the next one.
unfoldable pub request_rounds : ℕ → (i table vaddr flags : ℕ) → Machine → Machine
request_rounds zero i table vaddr flags s = s
request_rounds (suc left) i table vaddr flags s =
    request_rounds left (i + 1) table vaddr flags
      (request_page table (add64 vaddr (mul64 i 0x1000)) flags s)

unfoldable pub vmm_request_at : (table vaddr n flags : ℕ) → Machine → Machine
unfolding request_rounds
vmm_request_at table vaddr n flags s = request_rounds n 0 table vaddr flags s

unfoldable pub vmm_release_at : (table vaddr n : ℕ) → Machine → Machine
vmm_release_at table vaddr n s =
    let entry = paging_get table vaddr s in
    if not (present entry)
    then s
    else paging_unmap table vaddr
        (record s { pmm = pmm_release_pages (bit_and entry (not64 0xfff)) n s.pmm })
