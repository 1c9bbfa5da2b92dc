-- ===== src/Memory/Vmm/Tests.antt =====
-- The theorem of vmm.c at an empty root table in frame 1 of sixteen pages.
use shed_os.Base.{ℕ, ◌^◌, ◌<◌, ◌≡◌, ◌≢◌, refl, true, false, ◌==◌, if◌then◌else◌, arith, [], update}
use shed_os.Memory.Bitmap.{bitmap_isset, bitmap_set}
use shed_os.Memory.Pmm.{
  Pmm, lock_page, lock_loop, lock_pages, is_free, request_loop, pmm_request_pages,
}
use shed_os.Memory.Pmm.Count.{free_pages}
use shed_os.Memory.Pmm.Lock.{locked}
use shed_os.Memory.Pmm.Valid.{IsValid}
use shed_os.Memory.Paging.{Machine, paging_get, get_walk, vaddr_to_index, present}
use shed_os.Memory.Paging.Entry.{page}
use shed_os.Memory.Paging.Walk.{walk, HugeFree}
use shed_os.Memory.Paging.Descend.{IsMachine}
use shed_os.Memory.Paging.Map.{CanRequest}
use shed_os.Memory.Vmm.{request_page}
use shed_os.Memory.Vmm.Fresh.{Fresh, request_page-Fresh}

abbrev sixteen : Pmm
sixteen = record {
  page_bitmap = record { buf = λ i. if i == 0 then 3 else if i == 1 then 0 else 255; len = 3 };
  bitmap_addr = 0x1000;
  last_free = 0;
  free_memory = 0xe000;
  total_memory = 0x10000;
}

sixteen-IsValid : IsValid sixteen
unfolding free_pages bitmap_isset
sixteen-IsValid = record {
  bytes = record { byte = λ i. ground arith };
  counted = record { fits = omega arith; free = refl };
  within = omega arith;
  guard = refl;
}

abbrev root : ℕ
root = page 1

abbrev level : ℕ → ℕ
level = update (λ t. 0) root 4

abbrev parent : ℕ → ℕ
parent t = 0

abbrev empty : Machine
empty = record { ram = λ a. 0; pmm = sixteen; kernel_table = root; cr3 = 0; flushed = [] }

only_root : (t : ℕ) → level t ≢ 0 → t ≡ root
only_root t h = ground arith

held : (m : ℕ) → m < 2 ^ 35 → level (page m) ≢ 0 → locked sixteen m ≡ true
unfolding bitmap_isset
held m small h = let e : m ≡ 1 = omega (arith, only_root (page m) h) in rw e

empty-IsMachine : IsMachine root level parent empty
empty-IsMachine = record {
  tree = record {
    top = refl;
    frame = λ t h. (1, omega arith, only_root t h);
    child_level = λ t i it h p q. cc;
    child_parent = λ t i it h p q. cc;
  };
  pmm = sixteen-IsValid;
  small = omega arith;
  held = held;
}

abbrev here : ℕ
here = 0x400000

HugeFree-empty : HugeFree (walk 3 (vaddr_to_index here) root empty.ram)
unfolding walk
HugeFree-empty = tt

empty-CanRequest : CanRequest 4 sixteen
unfolding pmm_request_pages request_loop is_free bitmap_isset lock_pages lock_loop lock_page
    bitmap_set
empty-CanRequest =
    (λ e. omega arith, (λ e. omega arith, (λ e. omega arith, (λ e. omega arith, tt))))

no_page : present (paging_get root here empty) ≡ false
unfolding paging_get get_walk
no_page = refl

request_page-Fresh_example : (m : ℕ) × Fresh root here 6 m empty (request_page root here 6 empty)
request_page-Fresh_example =
    request_page-Fresh root here 6 empty empty-IsMachine HugeFree-empty empty-CanRequest no_page
