-- ===== src/Memory/Tests.antt =====
-- The theorems on address spaces at a machine with one user page: tables in the frames 1 to 4 of
-- sixteen pages, the address 0x400000 mapped to frame 5; frame 6 is the kernel's table and frame 7 the
-- table that both share for the entry 258.
use shed_os.Base.{
  inr, ℕ, zero, suc, ◌+◌, ◌-◌, ◌*◌, ◌/◌, ◌^◌, ◌<◌, ◌≤◌, ◌≡◌, ◌≢◌, ◌⊎◌, inl, inr, refl, sym, true,
  ◌==◌, if◌then◌else◌, arith, ◌||◌, [], List, ◌∷◌, ltb,
}
use shed_os.Memory.Bitmap.{bitmap_isset}
use shed_os.Memory.Addr.{addr_ensure_higher}
use shed_os.Memory.Pmm.{Pmm}
use shed_os.Memory.Pmm.Count.{free_pages}
use shed_os.Memory.Pmm.Lock.{locked}
use shed_os.Memory.Pmm.Valid.{IsValid}
use shed_os.Memory.Pmm.Supply.{available, unmarked}
use shed_os.Memory.Paging.{Machine, slot, present, table_of}
use shed_os.Memory.Paging.Entry.{page}
use shed_os.Memory.Paging.{paging_get, get_walk, vaddr_to_index, index}
use shed_os.Memory.Paging.Entry.{vaddr_to_index-lt}
use shed_os.Memory.Paging.Walk.{walk, HugeFree}
use shed_os.Memory.Paging.Get.{Apart}
use shed_os.Memory.Vmm.{vmm_request_at}
use shed_os.Memory.Vmm.Many.{Serves, AllPresent, target, vmm_request_at_lem}
use shed_os.Memory.Addr.{addr_page_align_up, addr_align_up, ptr_is_user}
use shed_os.Interrupts.Dispatch.{exception_handle}
use shed_os.Interrupts.Dispatch.Faults.{Answered, fault-Answered}
use shed_os.Tasks.Loader.{Elf64Phdr, segment_pages, load_segment}
use shed_os.Tasks.Loader.Segment.{Loaded, load_segment_lem}
use shed_os.Memory.Cow.{kernel_copy_vaddr, cow_copy_on_write}
use shed_os.Memory.Cow.Own.{page_of, Shared, Served, cow_lem}
use shed_os.Memory.Paging.Descend.{IsMachine}
use shed_os.Memory.Pmm.Init.{MmapEntry}
use shed_os.Memory.Spaces.{paging_copy, paging_make_readonly, paging_initialize}
use shed_os.Memory.Spaces.Initial.{IsLoaded, paging_initialize_lem}
use shed_os.Memory.Spaces.Plain.{IsPlain, IsPlain-HugeFree, entries-le}
use shed_os.Memory.Spaces.Step.{tables, sum_below}
use shed_os.Memory.Spaces.Rights.{IsReadonly, make_readonly_lem, user_half}
use shed_os.Memory.Spaces.Twin.{IsCopy, paging_copy_lem}

abbrev pages : Pmm
pages = record {
  page_bitmap = record { buf = λ i. if i == 0 then 255 else if i == 1 then 0 else 255; len = 3 };
  bitmap_addr = 0x1000;
  last_free = 0;
  free_memory = 0x8000;
  total_memory = 0x10000;
}

pages-IsValid : IsValid pages
unfolding free_pages bitmap_isset
pages-IsValid = record {
  bytes = record { byte = λ i. ground arith };
  counted = record { fits = omega arith; free = refl };
  within = omega arith;
  guard = refl;
}

abbrev root : ℕ
root = page 1

abbrev memory : ℕ → ℕ
memory a =
    if a == slot (page 1) 0
    then 0x2007
    else if a == slot (page 2) 0
    then 0x3007
    else if a == slot (page 3) 2
    then 0x4007
    else if a == slot (page 4) 0
    then 0x5007
    else if (a == slot (page 1) 258) || (a == slot (page 6) 258)
    then 0x7003
    else 0

abbrev level : ℕ → ℕ
level t =
    if t == page 1
    then 4
    else if t == page 2
    then 3
    else if t == page 3
    then 2
    else if t == page 4
    then 1
    else if t == page 7
    then 3
    else 0

abbrev parent : ℕ → ℕ
parent t =
    if t == page 2
    then slot (page 1) 0
    else if t == page 3
    then slot (page 2) 0
    else if t == page 7
    then slot (page 1) 258
    else slot (page 3) 2

abbrev machine : Machine
machine = record { ram = memory; pmm = pages; kernel_table = page 6; cr3 = 0; flushed = [] }

-- A present entry of a table above the last level is one of four.
where_present :
    (t i : ℕ)
    → i < 512
    → 2 ≤ level t
    → present (memory (slot t i)) ≡ true
    → ((t ≡ page 1) × (memory (slot t i) ≡ 0x2007) × (slot t i ≡ slot (page 1) 0))
      ⊎ (((t ≡ page 2) × (memory (slot t i) ≡ 0x3007) × (slot t i ≡ slot (page 2) 0))
          ⊎ (((t ≡ page 3) × (memory (slot t i) ≡ 0x4007) × (slot t i ≡ slot (page 3) 2))
              ⊎ ((t ≡ page 1) × (memory (slot t i) ≡ 0x7003) × (slot t i ≡ slot (page 1) 258))))
where_present t i it lt p = ground arith

-- What the entry leads to, one level down and back.
leads :
    (t i : ℕ)
    → i < 512
    → 2 ≤ level t
    → present (memory (slot t i)) ≡ true
    → (level (table_of (memory (slot t i))) + 1 ≡ level t)
      × (parent (table_of (memory (slot t i))) ≡ slot t i)
unfolding table_of addr_ensure_higher
leads t i it lt p = elim (where_present t i it lt p) [
  | inl (e, x, at) ↦ rw x (ground (arith, e), sym at)
  | inr (inl (e, x, at)) ↦ rw x (ground (arith, e), sym at)
  | inr (inr (inl (e, x, at))) ↦ rw x (ground (arith, e), sym at)
  | inr (inr (inr (e, x, at))) ↦ rw x (ground (arith, e), sym at)
]

table_frame : (m : ℕ) → level (page m) ≢ 0 → (m ≡ 1) ⊎ ((m ≡ 2) ⊎ ((m ≡ 3) ⊎ ((m ≡ 4) ⊎ (m ≡ 7))))
table_frame m h = ground arith

machine-IsMachine : IsMachine root level parent machine
unfolding bitmap_isset
machine-IsMachine = record {
  tree = record {
    top = refl;
    frame = λ t h. ((t - page 0) / 0x1000, ground arith, ground arith);
    child_level = λ t i it lt p h. (leads t i it lt p).0;
    child_parent = λ t i it lt p h. (leads t i it lt p).1;
  };
  pmm = pages-IsValid;
  small = omega arith;
  held = λ m lm h. elim (table_frame m h) [
    | inl e ↦ rw e refl
    | inr (inl e) ↦ rw e refl
    | inr (inr (inl e)) ↦ rw e refl
    | inr (inr (inr (inl e))) ↦ rw e refl
    | inr (inr (inr (inr e))) ↦ rw e refl
  ];
}

IsPlain-below : (below t : ℕ) → level t ≡ suc below → IsPlain below t memory
IsPlain-below zero t e = tt
IsPlain-below (suc below) t e = λ i it p.
    let lt : i < 512 = omega (arith, entries-le (suc below + 1)) in
    (
      elim (where_present t i lt (omega arith) p) [
        | inl (at, x, slot_is) ↦ rw x refl
        | inr (inl (at, x, slot_is)) ↦ rw x refl
        | inr (inr (inl (at, x, slot_is))) ↦ rw x refl
        | inr (inr (inr (at, x, slot_is))) ↦ rw x refl
      ],
      IsPlain-below below (table_of (memory (slot t i)))
          (omega (arith, leads t i lt (omega arith) p)),
    )

machine-IsPlain : IsPlain 3 root memory
machine-IsPlain = IsPlain-below 3 root refl

supply : tables 3 root memory + 1 ≤ available pages
unfolding tables sum_below unmarked table_of addr_ensure_higher bitmap_isset
supply = omega arith

locked_kernel : locked pages 6 ≡ true
unfolding bitmap_isset
locked_kernel = refl

paging_copy_lem_example :
    IsCopy root level parent (1 + tables 3 root memory) machine (paging_copy root machine)
paging_copy_lem_example =
    paging_copy_lem root machine machine-IsMachine machine-IsPlain 6 refl (omega arith)
      locked_kernel (λ i a b. ground arith) supply

make_readonly_lem_example : IsReadonly root level parent machine (paging_make_readonly root machine)
make_readonly_lem_example = make_readonly_lem root machine machine-IsMachine machine-IsPlain

-- A boot with 300 free pages.
abbrev many : Pmm
many = record {
  page_bitmap = record { buf = λ i. if ltb i 37 then 0 else 255; len = 39 };
  bitmap_addr = 0x1000;
  last_free = 0;
  free_memory = 0x128000;
  total_memory = 0x130000;
}

many-IsValid : IsValid many
unfolding free_pages bitmap_isset
many-IsValid = record {
  bytes = record { byte = λ i. ground arith };
  counted = record { fits = omega arith; free = refl };
  within = omega arith;
  guard = refl;
}

many_supply : 257 ≤ available many
unfolding unmarked bitmap_isset
many_supply = omega arith

abbrev boot : Machine
boot = record { ram = λ a. a; pmm = many; kernel_table = 0; cr3 = 0; flushed = [] }

abbrev map_of_memory : List MmapEntry
map_of_memory = record { base = 0; length = 0x130000; type = 1 } ∷ []

paging_initialize_lem_example : IsLoaded (paging_initialize map_of_memory boot)
paging_initialize_lem_example =
    paging_initialize_lem map_of_memory boot many-IsValid (omega arith) many_supply
      (omega arith, tt)

abbrev here : ℕ
here = 0x400000

-- A page beside the mapped one, for which a table is missing.
abbrev there : ℕ
there = 0x10000

no_huge : (w : ℕ) → vaddr_to_index w 3 < 256 → HugeFree (walk 3 (vaddr_to_index w) root memory)
no_huge w lt =
    IsPlain-HugeFree 3 root memory (vaddr_to_index w) (omega arith) machine-IsPlain
      (vaddr_to_index-lt w) lt

user_page : (w : ℕ) → w < 2 ^ 47 → HugeFree (walk 3 (vaddr_to_index w) root memory)
user_page w lt = no_huge w (user_half w lt)

no_huge_window : HugeFree (walk 3 (vaddr_to_index kernel_copy_vaddr) root memory)
unfolding walk vaddr_to_index index table_of addr_ensure_higher
no_huge_window = tt

zero_held : locked pages 0 ≡ true
unfolding bitmap_isset
zero_held = refl

eight : available pages ≡ 8
unfolding unmarked bitmap_isset
eight = refl

vmm_request_at_lem_example :
    Serves root (4 * 2) machine (vmm_request_at root there 2 6 machine)
    × AllPresent root there 0 2 (vmm_request_at root there 2 6 machine)
vmm_request_at_lem_example =
    vmm_request_at_lem root there 2 6 machine machine-IsMachine
      (λ k lt. user_page (target there k) (omega arith)) zero_held (omega (arith, eight))

here_there : present (paging_get root (page_of here) machine) ≡ true
unfolding paging_get get_walk vaddr_to_index index table_of addr_ensure_higher
here_there = refl

window-Apart : Apart kernel_copy_vaddr (page_of here)
unfolding vaddr_to_index index
window-Apart = (3, omega arith, λ e. omega arith)

window-Shared : Shared root 6 machine
unfolding vaddr_to_index index
window-Shared = (refl, refl, refl)

cow_lem_example : Served root here machine (cow_copy_on_write root here machine)
cow_lem_example =
    cow_lem root here 6 machine (omega arith) machine-IsMachine here_there
      (user_page (page_of here) (omega arith)) no_huge_window window-Apart (omega arith)
      locked_kernel refl window-Shared zero_held (omega (arith, eight))

-- A segment of 0x1800 bytes, of which the file is meant to have 0x1000.
abbrev segment : Elf64Phdr
segment = record {
  p_type = 1;
  p_flags = 6;
  p_offset = 0x1000;
  p_vaddr = there;
  p_paddr = 0;
  p_filesz = 0x1000;
  p_memsz = 0x1800;
  p_align = 0x1000;
}

segment_run : segment_pages segment ≡ 2
unfolding segment_pages addr_page_align_up addr_align_up
segment_run = refl

load_segment_lem_example :
    Loaded root 0x7000_0000_0000 segment [] machine
      (load_segment root 0x7000_0000_0000 segment ([], machine))
load_segment_lem_example =
    load_segment_lem root 0x7000_0000_0000 segment [] machine refl (omega arith) (omega arith)
      machine-IsMachine (λ k lt. user_page (target there k) (omega (arith, segment_run))) zero_held
      (omega (arith, segment_run, eight))

here_user : ptr_is_user here ≡ true
unfolding ptr_is_user
here_user = refl

fault-Answered_example : Answered root here machine (exception_handle 14 here root machine)
fault-Answered_example =
    fault-Answered root here 6 machine here_user (omega arith) machine-IsMachine here_there
      (user_page (page_of here) (omega arith)) no_huge_window window-Apart (omega arith)
      locked_kernel refl window-Shared zero_held (omega (arith, eight))
