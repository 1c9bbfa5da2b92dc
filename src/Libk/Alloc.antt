-- ===== src/Libk/Alloc.antt =====
-- kernel/src/libk/alloc.c: the kernel heap, chunks behind one another with a header before each.
-- `hdrs` gives the header at an address; headers of a chain never overlap, so one is changed as a
-- whole. The walk to a free chunk takes fuel, and `none` is fuel that ran out.
pub mod Zeroed
pub mod Chain
pub mod Place
pub mod Grow
pub mod Exact
pub mod Free
pub mod Restore
mod Tests
use shed_os.Base.{
  ℕ, zero, suc, ◌+◌, ◌*◌, ◌/◌, Bool, true, false, not, ◌&&◌, ◌||◌, ◌==◌, ltb, if◌then◌else◌, Option,
  none, some, update,
}
use shed_os.Base.Word.{add64, sub64, mul64}
use shed_os.Memory.Addr.{addr_page_align_up}
use shed_os.Memory.Paging.{Machine, paging_writable}
use shed_os.Memory.Vmm.{vmm_request_at}

abbrev pub kernel_heap_virtual_start : ℕ
kernel_heap_virtual_start = 0xffff_8100_0000_0000

abbrev pub kernel_heap_virtual_end : ℕ
kernel_heap_virtual_end = 0xffff_8102_0000_0000

pub record ChunkHdr : Type 0 where
  pub in_use : Bool
  pub size : ℕ
  pub size_prev : ℕ

-- `sizeof(struct chunk_hdr)`
abbrev pub hdr_size : ℕ
hdr_size = 24

abbrev pub Hdrs : Type 0
Hdrs = ℕ → ChunkHdr

-- The heap's headers, where it starts, and the machine whose pages it takes.
pub record Heap : Type 0 where
  pub start : ℕ
  pub size : ℕ
  pub hdrs : Hdrs
  pub machine : Machine

-- `NEXT_HDR`
abbrev pub next_hdr : Hdrs → ℕ → ℕ
next_hdr h hdr = add64 (add64 hdr (h hdr).size) hdr_size

-- `PREV_HDR`, which steps back by the size of the chunk itself
abbrev pub prev_hdr : Hdrs → ℕ → ℕ
prev_hdr h hdr = sub64 (sub64 hdr (h hdr).size) hdr_size

unfoldable pub malloc_init : Heap → Heap
malloc_init s =
    let head : ChunkHdr = record {
      in_use = false;
      size = sub64 s.size (2 * hdr_size);
      size_prev = 0;
    } in
    let h1 = update s.hdrs s.start head in
    let tail : ChunkHdr = record { in_use = true; size = 0; size_prev = head.size } in
    record s {
      hdrs = update h1 (next_hdr h1 s.start) tail;
      machine =
          vmm_request_at s.machine.kernel_table s.start (s.size / 0x1000) paging_writable s.machine;
    }

-- The `while` loop of `malloc`: on to the first chunk that is the tail, or free and large enough.
unfoldable pub find : ℕ → (size hdr : ℕ) → Hdrs → Option ℕ
find zero size hdr h = none
find (suc fuel) size hdr h =
    let rest = find fuel size (next_hdr h hdr) h in
    if not ((h hdr).size == 0) && ((h hdr).in_use || ltb (h hdr).size size) then rest else some hdr

-- The end of `malloc`: the chunk is cut in two.
unfoldable pub split : (size hdr : ℕ) → Hdrs → Hdrs
split size hdr h =
    let size_old = (h hdr).size in
    let h1 =
      update h hdr
        (record { in_use = true; size = sub64 size hdr_size; size_prev = (h hdr).size_prev }) in
    update h1 (next_hdr h1 hdr)
      (record { in_use = false; size = sub64 size_old size; size_prev = (h1 hdr).size })

-- New pages behind the tail `hdr`, which becomes a chunk.
unfoldable pub append : (size hdr : ℕ) → Heap → Heap
append size hdr s =
    let new_page_count = addr_page_align_up size / 0x1000 in
    let h1 = update s.hdrs hdr (record {
      in_use = (s.hdrs hdr).in_use;
      size = sub64 (mul64 new_page_count 0x1000) hdr_size;
      size_prev = (s.hdrs hdr).size_prev;
    }) in
    record s {
      hdrs =
          update h1 (next_hdr h1 hdr)
            (record { in_use = true; size = 0; size_prev = (h1 hdr).size });
      machine =
          vmm_request_at s.machine.kernel_table (add64 hdr hdr_size) new_page_count paging_writable
            s.machine;
    }

-- What is done with the header where the walk ended.
unfoldable pub malloc_at : (size hdr : ℕ) → Heap → ℕ × Heap
malloc_at size hdr s =
    if (s.hdrs hdr).size == 0
    then (if ltb kernel_heap_virtual_end (add64 hdr hdr_size)
        then (0, s)
        else (let s' = append size hdr s in
            (add64 hdr hdr_size, record s' { hdrs = split size hdr s'.hdrs })))
    else (add64 hdr hdr_size, record s { hdrs = split size hdr s.hdrs })

-- The alignment is ignored, as in the source.
unfoldable pub malloc : (fuel n alignment : ℕ) → Heap → Option (ℕ × Heap)
malloc fuel n alignment s =
    let size = add64 n hdr_size in
    if n == 0 then some (0, s) else elim (find fuel size s.start s.hdrs) [
      | none ↦ none
      | some hdr ↦ some (malloc_at size hdr s)
    ]

-- Merge with the chunk before, if there is one and it is free: the header that stands for both.
unfoldable pub merge_prev : ℕ → Hdrs → ℕ × Hdrs
merge_prev hdr h =
    let prev = prev_hdr h hdr in
    if not ((h hdr).size_prev == 0) && not (h prev).in_use
    then (
      prev,
      update h prev (record {
        in_use = (h prev).in_use;
        size = add64 (h prev).size (add64 (h hdr).size hdr_size);
        size_prev = (h prev).size_prev;
      }),
    )
    else (hdr, h)

-- Merge with the chunk behind, if it is free and not the tail.
unfoldable pub merge_next : ℕ → Hdrs → Hdrs
merge_next hdr h =
    let next = next_hdr h hdr in
    if not (h next).in_use && not ((h next).size == 0)
    then (let h1 = update h hdr (record {
      in_use = (h hdr).in_use;
      size = add64 (h hdr).size (add64 (h next).size hdr_size);
      size_prev = (h hdr).size_prev;
    }) in
        let nextnext = next_hdr h1 next in
        update h1 nextnext (record {
          in_use = (h1 nextnext).in_use;
          size = (h1 nextnext).size;
          size_prev = (h1 next).size;
        }))
    else h

unfoldable pub mfree : ℕ → Heap → Heap
mfree addr s =
    let hdr = sub64 addr hdr_size in
    let h1 =
      update s.hdrs hdr
        (record { in_use = false; size = (s.hdrs hdr).size; size_prev = (s.hdrs hdr).size_prev }) in
    let (at, h2) = merge_prev hdr h1 in record s { hdrs = merge_next at h2 }
