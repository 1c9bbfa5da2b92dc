-- ===== src/Memory/Paging/Tests.antt =====
-- The theorems of paging.c at a machine with an empty root table in frame 1 of sixteen pages.
use shed_os.Base.{ℕ, ◌^◌, ◌<◌, ◌≡◌, ◌≢◌, refl, true, ◌==◌, if◌then◌else◌, arith, [], update, bit_or}
use shed_os.Memory.Bitmap.{bitmap_isset, bitmap_set}
use shed_os.Memory.Addr.{addr_ensure_higher, addr_offset_higher, addr_offset_lower}
use shed_os.Memory.Pmm.{
  Pmm, lock_page, lock_loop, lock_pages, is_free, request_loop, pmm_request_pages,
}
use shed_os.Memory.Pmm.Count.{free_pages}
use shed_os.Memory.Pmm.Lock.{locked}
use shed_os.Memory.Pmm.Valid.{IsValid}
use shed_os.Memory.Paging.{
  Machine, descend, map_walk, palloc, new_entry, zero_page, table_of, paging_flush_tlb, paging_map,
  paging_unmap, paging_get, paging_present, vaddr_to_index, index,
}
use shed_os.Memory.Paging.Entry.{page}
use shed_os.Memory.Paging.Walk.{walk, HugeFree}
use shed_os.Memory.Paging.Descend.{IsMachine}
use shed_os.Memory.Paging.Map.{CanRequest}
use shed_os.Memory.Paging.Get.{Apart, get-map, get-map_other, map-IsMachine}
use shed_os.Memory.Paging.Unmap.{Unmapped, unmap_lem}

abbrev sixteen : Pmm
sixteen = record {
  page_bitmap = record { buf = λ i. if i == 0 then 3 else if i == 1 then 0 else 255; len = 3 };
  bitmap_addr = 0x1000;
  last_free = 0;
  free_memory = 0xe000;
  total_memory = 0x10000;
}

sixteen-IsValid : IsValid sixteen
unfolding free_pages bitmap_isset
sixteen-IsValid = record {
  bytes = record { byte = λ i. ground arith };
  counted = record { fits = omega arith; free = refl };
  within = omega arith;
  guard = refl;
}

abbrev root : ℕ
root = page 1

abbrev level : ℕ → ℕ
level = update (λ t. 0) root 4

abbrev parent : ℕ → ℕ
parent t = 0

abbrev empty : Machine
empty = record { ram = λ a. 0; pmm = sixteen; kernel_table = root; cr3 = 0; flushed = [] }

only_root : (t : ℕ) → level t ≢ 0 → t ≡ root
only_root t h = ground arith

held : (m : ℕ) → m < 2 ^ 35 → level (page m) ≢ 0 → locked sixteen m ≡ true
unfolding bitmap_isset
held m small h = let e : m ≡ 1 = omega (arith, only_root (page m) h) in rw e

empty-IsMachine : IsMachine root level parent empty
empty-IsMachine = record {
  tree = record {
    top = refl;
    frame = λ t h. (1, omega arith, only_root t h);
    child_level = λ t i it h p q. cc;
    child_parent = λ t i it h p q. cc;
  };
  pmm = sixteen-IsValid;
  small = omega arith;
  held = held;
}

-- An address of a user page, and of the next page.
abbrev here : ℕ
here = 0x400000

abbrev there : ℕ
there = 0x401000

HugeFree-empty : HugeFree (walk 3 (vaddr_to_index here) root empty.ram)
unfolding walk
HugeFree-empty = tt

empty-CanRequest : CanRequest 3 sixteen
unfolding pmm_request_pages request_loop is_free bitmap_isset lock_pages lock_loop lock_page
    bitmap_set
empty-CanRequest = (λ e. omega arith, (λ e. omega arith, (λ e. omega arith, tt)))

apart : Apart here there
unfolding vaddr_to_index index
apart = (0, omega arith, λ e. omega arith)

get-map_example :
    paging_get root here (paging_map root here 0x5000 6 empty)
    ≡ bit_or (bit_or 0x5000 6) paging_present
get-map_example = get-map root here 0x5000 6 empty empty-IsMachine HugeFree-empty empty-CanRequest

get-map_other_example :
    paging_get root there (paging_map root here 0x5000 6 empty) ≡ paging_get root there empty
get-map_other_example =
    get-map_other root here 0x5000 6 empty empty-IsMachine HugeFree-empty empty-CanRequest there
      apart

map-IsMachine_example :
    (level' parent' : ℕ → ℕ) × IsMachine root level' parent' (paging_map root here 0x5000 6 empty)
map-IsMachine_example =
    map-IsMachine root here 0x5000 6 empty empty-IsMachine HugeFree-empty empty-CanRequest

abbrev mapped : Machine
mapped = paging_map root here 0x5000 6 empty

HugeFree-mapped : HugeFree (walk 3 (vaddr_to_index here) root mapped.ram)
unfolding walk paging_map map_walk descend palloc pmm_request_pages request_loop is_free
    bitmap_isset lock_pages lock_loop lock_page bitmap_set new_entry zero_page table_of
    addr_ensure_higher addr_offset_higher addr_offset_lower vaddr_to_index index paging_flush_tlb
HugeFree-mapped = tt

unmap_lem_example :
    Unmapped root here map-IsMachine_example.0 map-IsMachine_example.1 mapped
      (paging_unmap root here mapped)
unmap_lem_example = unmap_lem root here mapped map-IsMachine_example.2 HugeFree-mapped
