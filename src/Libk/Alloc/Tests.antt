-- ===== src/Libk/Alloc/Tests.antt =====
-- Runs of alloc.c, and the theorems at concrete inputs.
use shed_os.Base.{
  ℕ, ◌+◌, ◌-◌, ◌*◌, ◌≡◌, refl, true, false, inl, ◌==◌, if◌then◌else◌, arith, List, [], ◌∷◌, ◌++◌,
  some,
}
use shed_os.Memory.Addr.{addr_page_align_up, addr_align_up}
use shed_os.Memory.Paging.{Machine, paging_writable}
use shed_os.Memory.Vmm.{vmm_request_at}
use shed_os.Libk.Alloc.{
  ChunkHdr, Heap, hdr_size, malloc_init, malloc, mfree, find, split, malloc_at,
}
use shed_os.Libk.Alloc.Chain.{Chunk, Chain, malloc_init-Chain}
use shed_os.Libk.Alloc.Place.{malloc_lem}
use shed_os.Libk.Alloc.Grow.{malloc_grows, pages}
use shed_os.Libk.Alloc.Exact.{malloc_exact}
use shed_os.Libk.Alloc.Free.{give_back, mfree_lem}
use shed_os.Libk.Alloc.Restore.{mfree-malloc}

abbrev machine : Machine
machine = record {
  ram = λ a. 0;
  pmm = record {
    page_bitmap = record { buf = λ a. 0; len = 0 };
    bitmap_addr = 0;
    last_free = 0;
    free_memory = 0;
    total_memory = 0;
  };
  kernel_table = 0;
  cr3 = 0;
  flushed = [];
}

-- A page with one used chunk of 100 bytes and a free one behind it.
abbrev hdrs : ℕ → ChunkHdr
hdrs a =
    if a == 0x10000
    then record { in_use = true; size = 100; size_prev = 0 }
    else if a == 0x1007c
    then record { in_use = false; size = 3924; size_prev = 100 }
    else record { in_use = true; size = 0; size_prev = 4048 }

abbrev heap : Heap
heap = record { start = 0x10000; size = 0x1000; hdrs = hdrs; machine = machine }

abbrev chunks : List Chunk
chunks = record { n = 100; used = true } ∷ record { n = 3924; used = false } ∷ []

heap-Chain : Chain hdrs 0x10000 chunks 0x10fe8
heap-Chain = (
  refl,
  refl,
  omega arith,
  omega arith,
  (refl, refl, omega arith, omega arith, (refl, refl, omega arith)),
)

malloc_init-Chain_example :
    Chain (malloc_init heap).hdrs 0x10000 (record { n = 4048; used = false } ∷ []) 0x10fe8
malloc_init-Chain_example = malloc_init-Chain heap (omega arith) (omega arith)

malloc_lem_example :
    (s' : Heap) × (malloc 3 200 0 heap ≡ some (0x1007c + hdr_size, s'))
    × Chain s'.hdrs 0x10000
        (record { n = 100; used = true }
          ∷ record { n = 200; used = true }
          ∷ record { n = 3700; used = false }
          ∷ [])
        0x10fe8
    × (s'.start ≡ 0x10000)
    × (s'.machine ≡ machine)
malloc_lem_example =
    malloc_lem chunks 3 200 0 0x10fe8 0x1007c _ heap heap-Chain refl (omega arith) (omega arith)
      (omega arith)

malloc_exact_example :
    (s' : Heap) × (malloc 3 3900 0 heap ≡ some (0x1007c + hdr_size, s'))
    × Chain s'.hdrs 0x10000
        (record { n = 100; used = true } ∷ record { n = 3900; used = true } ∷ [])
        0x10fd0
malloc_exact_example =
    malloc_exact chunks 3 3900 0 0x10fe8 0x1007c _ heap heap-Chain refl (omega arith) (omega arith)
      refl

pages_run : pages 5000 ≡ 2
unfolding addr_page_align_up addr_align_up
pages_run = refl

pages_short_run : pages 4072 ≡ 1
unfolding addr_page_align_up addr_align_up
pages_short_run = refl

malloc_grows_example :
    (s' : Heap) × (malloc 3 5000 0 heap ≡ some (0x10fe8 + hdr_size, s'))
    × Chain s'.hdrs 0x10000
        (chunks
          ++ record { n = 5000; used = true }
            ∷ record { n = pages 5000 * 0x1000 - (5000 + 2 * hdr_size); used = false }
            ∷ [])
        (0x10fe8 + pages 5000 * 0x1000)
    × (s'.machine
        ≡ vmm_request_at machine.kernel_table
            (0x10fe8 + hdr_size)
            (pages 5000)
            paging_writable
            machine)
malloc_grows_example =
    malloc_grows chunks 3 5000 0 0x10fe8 heap heap-Chain refl (omega arith) (omega arith)
      (omega arith) (omega (arith, pages_run)) (omega (arith, pages_run))

mfree_lem_example :
    Chain
      (mfree (0x10000 + hdr_size) heap).hdrs
      (mfree (0x10000 + hdr_size) heap).start
      (give_back 0x10000 0x10000 chunks)
      0x10fe8
    × ((mfree (0x10000 + hdr_size) heap).machine ≡ machine)
mfree_lem_example = mfree_lem chunks 0x10000 0x10fe8 heap heap-Chain (inl refl) (inl refl)

-- A page with one free chunk, and the heap that `malloc` of 200 bytes leaves of it.
abbrev fresh : Heap
fresh = record heap {
  hdrs = λ a.
      if a == 0x10000
      then record { in_use = false; size = 4048; size_prev = 0 }
      else record { in_use = true; size = 0; size_prev = 4048 };
}

fresh_run :
    malloc 2 200 0 fresh ≡ some (0x10018, record fresh { hdrs = split 224 0x10000 fresh.hdrs })
unfolding malloc malloc_at find
fresh_run = refl

left_head : (split 224 0x10000 fresh.hdrs 0x10000).size_prev ≡ 0
unfolding split
left_head = refl

mfree-malloc_example :
    let s' : Heap = record fresh { hdrs = split 224 0x10000 fresh.hdrs } in
    Chain
      (mfree 0x10018 s').hdrs
      (mfree 0x10018 s').start
      (record { n = 4048; used = false } ∷ [])
      0x10fe8
    × ((mfree 0x10018 s').machine ≡ machine)
mfree-malloc_example =
    mfree-malloc (record { n = 4048; used = false } ∷ []) 2 200 0 0x10fe8 0x10000 _ fresh
      (record fresh { hdrs = split 224 0x10000 fresh.hdrs })
      (refl, refl, omega arith, omega arith, (refl, refl, omega arith)) refl (omega arith)
      (omega arith) (omega arith) fresh_run (inl left_head)
