-- ===== src/Libk/Alloc/Zeroed.antt =====
-- The allocations of kernel/src/libk/alloc.c that clear what they take. `m` gives the bytes in memory.
use shed_os.Base.{ℕ, Option, none, some}
use shed_os.Libk.Alloc.{Heap, malloc}
use shed_os.Libk.Memutil.{Ram, memset}
use shed_os.Memory.Addr.{addr_offset_higher}
use shed_os.Memory.Pmm.{Pmm, pmm_request_pages}

unfoldable pub zmalloc : (fuel n : ℕ) → Heap → Ram → Option (ℕ × Heap × Ram)
zmalloc fuel n s m = elim (malloc fuel n 0 s) [
  | none ↦ none
  | some (mem, s1) ↦ some (mem, s1, memset mem 0 n m)
]

-- `n` pages are taken, and `n` bytes are cleared.
unfoldable pub zpalloc : (n : ℕ) → Pmm → Ram → ℕ × Pmm × Ram
zpalloc n s m =
    let (page, s1) = pmm_request_pages n s in
    (addr_offset_higher page, s1, memset (addr_offset_higher page) 0 n m)
