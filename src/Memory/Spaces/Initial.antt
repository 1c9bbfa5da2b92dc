-- ===== src/Memory/Spaces/Initial.antt =====
-- The kernel's table that `paging_initialize` (paging.c) builds.
use shed_os.Base.{
  ℕ, zero, suc, ◌+◌, ◌/◌, ◌^◌, ◌<◌, ◌≤◌, ◌≡◌, ◌≢◌, refl, sym, ap, ◌∙◌, subst, true, false, arith,
  inl, inr, lt_cases, lt→ltb, le→ltb, update, for_range, List, [], ◌∷◌,
}
use shed_os.Memory.Addr.{vaddr_higher, vaddr_kernel, addr_ensure_lower}
use shed_os.Memory.Pmm.Init.{MmapEntry}
use shed_os.Base.Word.{add64}
use shed_os.Memory.Pmm.Valid.{IsValid, page_total}
use shed_os.Memory.Pmm.Supply.{available, Supplied, supply_lem}
use shed_os.Memory.Paging.{
  Machine, zero_page, present, huge, slot, table_of, paging_get, vaddr_to_index, index,
  paging_unmap, unmap_walk, paging_write_cr3,
}
use shed_os.Memory.Paging.Entry.{page, vaddr_to_index-lt}
use shed_os.Memory.Paging.Tree.{slot_injective}
use shed_os.Memory.Paging.Descend.{IsMachine}
use shed_os.Memory.Spaces.{
  new_table, kernel_entry, huge_entry, kernel_tables, map_higher, map_kernel, map_pages,
  map_entries, paging_initialize,
}
use shed_os.Memory.Spaces.Kept.{Kept-taken, Holds-taken, taken, palloc_lem, supplied_small}
use shed_os.Memory.Spaces.Filled.{Filled, Filled-loop}
use shed_os.Memory.Spaces.Huge.{
  gigabyte, Gigabytes, Gigabytes-loop, get-huge, get-empty, get-absent, index_physical, index_image,
}

-- The kernel's address space: the first four gigabytes of physical memory from `vaddr_higher` on, the
-- first two from `vaddr_kernel` on, nothing else, and a table for every top-level entry of the upper
-- half, so that spaces that copy those entries share all that the kernel maps later.
pub record IsKernelSpace (kernel : ℕ) (s : Machine) : Type 0 where
  pub is_kernel : s.kernel_table ≡ kernel
  pub level : ℕ → ℕ
  pub parent : ℕ → ℕ
  pub machine : IsMachine kernel level parent s
  pub physical :
      (p : ℕ) → p < 2 ^ 32 → paging_get kernel (vaddr_higher + p) s ≡ gigabyte (p / 2 ^ 30)
  pub image : (p : ℕ) → p < 2 ^ 31 → paging_get kernel (vaddr_kernel + p) s ≡ gigabyte (p / 2 ^ 30)
  pub vacant : (k : ℕ) → k < 256 → s.ram (slot kernel k) ≡ 0
  pub lower : (v : ℕ) → vaddr_to_index v 3 < 256 → paging_get kernel v s ≡ 0
  pub between :
      (v : ℕ) → 256 < vaddr_to_index v 3 → vaddr_to_index v 3 < 511 → paging_get kernel v s ≡ 0
  pub tables :
      (k : ℕ)
      → 256 ≤ k
      → k < 512
      → (present (s.ram (slot kernel k)) ≡ true) × (huge (s.ram (slot kernel k)) ≡ false)

module _ (d supply : ℕ) (s : Machine) (f : Filled d supply 512 s) where
  -- The table below entry `k`.
  abbrev child : ℕ → ℕ
  child k = table_of (s.ram (slot (page d) k))

  child_level : (k : ℕ) → 256 ≤ k → k < 512 → f.level (child k) ≡ 3
  child_level k lo hi =
      let old = f.filled k lo hi hi in
      omega (
        arith,
        f.machine.tree.top,
        f.machine.tree.child_level (page d) k hi (omega (arith, f.machine.tree.top)) old.there
            old.plain,
      )

  -- Different entries have different tables.
  child_apart : (k l : ℕ) → 256 ≤ k → k < 512 → 256 ≤ l → l < 512 → k ≢ l → child k ≢ child l
  child_apart k l ka kb la lb ne e =
      let a = f.filled k ka kb kb in
      let b = f.filled l la lb lb in
      let top = f.machine.tree.top in
      let p = f.machine.tree.child_parent (page d) k kb (omega (arith, top)) a.there a.plain in
      let q = f.machine.tree.child_parent (page d) l lb (omega (arith, top)) b.there b.plain in
      omega (arith, ap f.parent e, p, q)

  slot_apart :
      (t u i j : ℕ)
      → f.level t ≢ 0
      → f.level u ≢ 0
      → i < 512
      → j < 512
      → t ≢ u
      → slot t i ≢ slot u j
  slot_apart t u i j lt lu li lj ne e = ne (slot_injective f.machine.tree t u i j lt lu li lj e).0

  module _ (s3 s4 : Machine) (g : Gigabytes (page d) f.level f.parent (child 256) 0 4 s s3)
      (h : Gigabytes (page d) f.level f.parent (child 511) 510 2 s3 s4) where
    -- Tables but the two keep their words.
    same_words :
        (u j : ℕ)
        → f.level u ≢ 0
        → j < 512
        → u ≢ child 256
        → u ≢ child 511
        → s4.ram (slot u j) ≡ s.ram (slot u j)
    same_words u j lu lj a b =
        h.other (slot u j) (λ i li.
          slot_apart u (child 511) j (510 + i) lu
            (omega (arith, child_level 511 (omega arith) (omega arith))) lj (omega arith) b)
        ∙ g.other (slot u j) (λ i li.
          slot_apart u (child 256) j (0 + i) lu
            (omega (arith, child_level 256 (omega arith) (omega arith))) lj (omega arith) a)

    root_words : (k : ℕ) → k < 512 → s4.ram (slot (page d) k) ≡ s.ram (slot (page d) k)
    root_words k lt =
        same_words (page d) k (omega (arith, f.machine.tree.top)) lt
          (λ e.
            omega (
              arith,
              ap f.level e,
              f.machine.tree.top,
              child_level 256 (omega arith) (omega arith),
            ))
          (λ e.
            omega (
              arith,
              ap f.level e,
              f.machine.tree.top,
              child_level 511 (omega arith) (omega arith),
            ))

    low_words : (j : ℕ) → j < 4 → s4.ram (slot (child 256) j) ≡ gigabyte j
    low_words j lt =
        h.other (slot (child 256) j) (λ i li.
          slot_apart (child 256) (child 511) j (510 + i)
            (omega (arith, child_level 256 (omega arith) (omega arith)))
            (omega (arith, child_level 511 (omega arith) (omega arith))) (omega arith) (omega arith)
            (child_apart 256 511 (omega arith) (omega arith) (omega arith) (omega arith)
              (λ e. omega arith)))
        ∙ (ap (λ (x : ℕ). s3.ram (slot (child 256) x)) {x = j} {y = 0 + j} (omega arith)
            ∙ g.mapped j lt)

    entry :
        (k : ℕ)
        → 256 ≤ k
        → k < 512
        → (present (s4.ram (slot (page d) k)) ≡ true) × (huge (s4.ram (slot (page d) k)) ≡ false)
    entry k lo hi = let old = f.filled k lo hi hi in rw (root_words k hi) (old.there, old.plain)

    -- A word of the table below entry `k`, as the walk of an address reaches it.
    below :
        (v k j x : ℕ)
        → k < 512
        → vaddr_to_index v 3 ≡ k
        → vaddr_to_index v 2 ≡ j
        → s4.ram (slot (child k) j) ≡ x
        → s4.ram
            (slot (table_of (s4.ram (slot (page d) (vaddr_to_index v 3)))) (vaddr_to_index v 2))
          ≡ x
    below v k j x lt e e' w = rw (e, e', root_words k lt) w

    read_physical :
        (p : ℕ) → p < 2 ^ 32 → paging_get (page d) (vaddr_higher + p) s4 ≡ gigabyte (p / 2 ^ 30)
    read_physical p lt =
        let (top, next) = index_physical p (omega arith) in
        let (there, plain) = entry 256 (omega arith) (omega arith) in
        let v = vaddr_higher + p in
        get-huge (page d) v (p / 2 ^ 30) s4 (rw top there) (rw top plain)
          (below v 256 (p / 2 ^ 30) _ (omega arith) top next (low_words (p / 2 ^ 30) (omega arith)))
          (omega arith)

    read_image :
        (p : ℕ) → p < 2 ^ 31 → paging_get (page d) (vaddr_kernel + p) s4 ≡ gigabyte (p / 2 ^ 30)
    read_image p lt =
        let (top, next) = index_image p lt in
        let (there, plain) = entry 511 (omega arith) (omega arith) in
        let v = vaddr_kernel + p in
        get-huge (page d) v (p / 2 ^ 30) s4 (rw top there) (rw top plain)
          (below v 511 (510 + p / 2 ^ 30) _ (omega arith) top next
            (h.mapped (p / 2 ^ 30) (omega arith)))
          (omega arith)

    read_between :
        (v : ℕ) → 256 < vaddr_to_index v 3 → vaddr_to_index v 3 < 511 → paging_get (page d) v s4 ≡ 0
    read_between v lo hi =
        let k = vaddr_to_index v 3 in
        let j = vaddr_to_index v 2 in
        let (there, plain) = entry k (omega arith) (omega arith) in
        let lv = child_level k (omega arith) (omega arith) in
        get-empty (page d) v s4 there plain (
          below v k j 0 (omega arith) refl refl (
            same_words (child k) j (omega arith) (vaddr_to_index-lt v 2)
              (child_apart k 256 (omega arith) (omega arith) (omega arith) (omega arith)
                (λ e. omega arith))
              (child_apart k 511 (omega arith) (omega arith) (omega arith) (omega arith)
                (λ e. omega arith))
            ∙ (f.filled k (omega arith) (omega arith) (omega arith)).zeros j
                (vaddr_to_index-lt v 2)))

    IsKernelSpace-mapped : IsKernelSpace (page d) s4
    IsKernelSpace-mapped =
        let pmm = h.rest.0 ∙ g.rest.0 in
        let vacant = λ (k : ℕ) (lt : k < 256).
          root_words k (omega arith) ∙ f.vacant k (omega arith) (inl lt) in
        record {
          is_kernel = h.rest.1 ∙ (g.rest.1 ∙ f.kernel);
          level = f.level;
          parent = f.parent;
          machine = record {
            tree = h.tree;
            pmm = subst IsValid (sym pmm) f.machine.pmm;
            small = ground (arith, pmm, f.machine.small);
            held = λ m lm lv. ground (arith, pmm, f.machine.held m lm lv);
          };
          physical = read_physical;
          image = read_image;
          vacant = vacant;
          lower = λ v lt. get-absent (page d) v s4 (vacant (vaddr_to_index v 3) lt);
          between = read_between;
          tables = entry;
        }

  abbrev s3 : Machine
  s3 = for_range 4 0 (huge_entry (child 256) 0) s

  higher_is : map_higher s ≡ s3
  unfolding map_higher
  higher_is =
      ap (λ (x : ℕ). for_range 4 0 (huge_entry (table_of (s.ram (slot x 256))) 0) s) f.kernel

  mapped-higher : Gigabytes (page d) f.level f.parent (child 256) 0 4 s s3
  mapped-higher =
      Gigabytes-loop (page d) f.level f.parent (child 256) 0 4 s (omega arith) f.machine.tree

  same_entry : s3.ram (slot s3.kernel_table 511) ≡ s.ram (slot (page d) 511)
  same_entry =
      ap (λ (x : ℕ). s3.ram (slot x 511)) (mapped-higher.rest.1 ∙ f.kernel)
      ∙ mapped-higher.other (slot (page d) 511) (λ i li.
        slot_apart (page d) (child 256) 511 (0 + i) (omega (arith, f.machine.tree.top))
          (omega (arith, child_level 256 (omega arith) (omega arith))) (omega arith) (omega arith)
          (λ e.
            omega (
              arith,
              ap f.level e,
              f.machine.tree.top,
              child_level 256 (omega arith) (omega arith),
            )))

  abbrev s4 : Machine
  s4 = for_range 2 0 (huge_entry (child 511) 510) s3

  kernel_is : map_kernel (map_higher s) ≡ s4
  unfolding map_kernel
  kernel_is =
      ap map_kernel higher_is
      ∙ ap (λ (x : ℕ). for_range 2 0 (huge_entry (table_of x) 510) s3) same_entry

  mapped-IsKernelSpace : IsKernelSpace (page d) (map_kernel (map_higher s))
  mapped-IsKernelSpace = subst (IsKernelSpace (page d)) (sym kernel_is) (
      IsKernelSpace-mapped s3 s4 mapped-higher (
        Gigabytes-loop (page d) f.level f.parent (child 511) 510 2 s3 (omega arith)
          mapped-higher.tree))

-- From the empty top-level table on.
module _ (s : Machine) (valid : IsValid s.pmm) (small : page_total s.pmm ≤ 2 ^ 35)
    (p : Supplied s.pmm) where
  abbrev d : ℕ
  d = p.first

  abbrev started : Machine
  started = record (taken s) { ram = zero_page (page d) s.ram; kernel_table = page d }

  Filled-start : Filled d (available (taken s).pmm) 256 started
  unfolding zero_page
  Filled-start = record {
    level = update (λ u. 0) (page d) 4;
    parent = λ u. 0;
    machine = record {
      tree = record {
        top = ground arith;
        frame = λ u lu. (d, supplied_small d s valid small p, ground arith);
        child_level = λ u j lj lu there plain. absurd (ground arith);
        child_parent = λ u j lj lu there plain. absurd (ground arith);
      };
      pmm = (Kept-taken d s valid small p).valid;
      small = ground (arith, p.grant.total, small);
      held = λ m lm lv. ground (arith, (Holds-taken d s valid small p).held);
    };
    small = supplied_small d s valid small p;
    kernel = refl;
    shallow = λ u lu ne. absurd (ground arith);
    vacant = λ k lk c. ground arith;
    filled = λ k lo hi lk. absurd (omega arith);
    left = refl;
  }

  started_is : kernel_tables s ≡ map_kernel (map_higher (for_range 256 256 kernel_entry started))
  unfolding kernel_tables new_table
  started_is =
      ap
        (λ (q : ℕ × Machine). map_kernel (
          map_higher (
            for_range 256 256 kernel_entry
              (record q.1 { ram = zero_page q.0 q.1.ram; kernel_table = q.0 }))))
        (palloc_lem d s valid small p)

-- With 257 pages to be had, `paging_initialize` builds the kernel's space before it comes to the memory
-- map.
pub kernel_tables_lem :
    (s : Machine)
    → IsValid s.pmm
    → page_total s.pmm ≤ 2 ^ 35
    → 257 ≤ available s.pmm
    → IsKernelSpace (kernel_tables s).kernel_table (kernel_tables s)
kernel_tables_lem s valid small enough =
    let p = supply_lem s.pmm valid (omega arith) in
    let f =
      Filled-loop p.first (available (taken s).pmm) (started s valid small p)
        (omega (arith, p.one_less)) (Filled-start s valid small p) in
    let k =
      subst (IsKernelSpace (page p.first)) (sym (started_is s valid small p))
        (mapped-IsKernelSpace p.first (available (taken s).pmm) _ f) in
    subst (λ (x : ℕ). IsKernelSpace x (kernel_tables s)) (sym k.is_kernel) k

-- Every entry of the memory map ends below 4G.
abbrev pub AllLow : List MmapEntry → Type 0
AllLow [] = Unit {0}
AllLow (e ∷ es) = (e.base + e.length ≤ 2 ^ 32) × AllLow es

map_pages-low :
    (rounds paddr stop : ℕ) (s : Machine) → stop ≤ 2 ^ 32 → map_pages rounds paddr stop s ≡ s
unfolding map_pages
map_pages-low zero paddr stop s le = refl
map_pages-low (suc rounds) paddr stop s le = elim (lt_cases paddr stop) [
  | inl lt ↦
      rw (lt→ltb paddr stop lt, lt→ltb paddr 0x100000000 (omega arith), map_pages)
        (map_pages-low rounds (add64 paddr 0x1000) stop s le)
  | inr ge ↦ rw (le→ltb paddr stop ge, map_pages) refl
]

map_entries-low : (es : List MmapEntry) (s : Machine) → AllLow es → map_entries es s ≡ s
unfolding map_entries
map_entries-low [] s low = refl
map_entries-low (e ∷ es) s low =
    ap (map_entries es) (
      map_pages-low ((e.length + 0xfff) / 0x1000) e.base (add64 e.base e.length) s
        (omega (arith, low)))
    ∙ map_entries-low es s low.1

unmap_null : (root : ℕ) (s : Machine) → s.ram (slot root 0) ≡ 0 → paging_unmap root 0 s ≡ s
unfolding paging_unmap unmap_walk vaddr_to_index index
unmap_null root s e = rw e refl

loaded-IsKernelSpace :
    (kernel x : ℕ) (s : Machine)
    → IsKernelSpace kernel s
    → IsKernelSpace kernel (paging_write_cr3 x s)
unfolding paging_write_cr3 paging_get
loaded-IsKernelSpace kernel x s k = record {
  is_kernel = k.is_kernel;
  level = k.level;
  parent = k.parent;
  machine = record {
    tree = k.machine.tree;
    pmm = k.machine.pmm;
    small = k.machine.small;
    held = k.machine.held;
  };
  physical = k.physical;
  image = k.image;
  vacant = k.vacant;
  lower = k.lower;
  between = k.between;
  tables = k.tables;
}

-- The state and the register after the initialisation.
abbrev pub IsLoaded : Machine → Type 0
IsLoaded s = IsKernelSpace s.kernel_table s × (s.cr3 ≡ addr_ensure_lower s.kernel_table)

IsLoaded-IsLoaded :
    (s : Machine) → IsKernelSpace s.kernel_table s → IsLoaded (paging_write_cr3 s.kernel_table s)
unfolding paging_write_cr3
IsLoaded-IsLoaded s k = (loaded-IsKernelSpace s.kernel_table s.kernel_table s k, refl)

initialize_is :
    (mmap : List MmapEntry) (s : Machine)
    → AllLow mmap
    → IsKernelSpace (kernel_tables s).kernel_table (kernel_tables s)
    → paging_initialize mmap s ≡ paging_write_cr3 (kernel_tables s).kernel_table (kernel_tables s)
unfolding paging_initialize
initialize_is mmap s low k =
    ap (λ (t : Machine). paging_write_cr3 t.kernel_table (paging_unmap t.kernel_table 0 t))
      (map_entries-low mmap (kernel_tables s) low)
    ∙ ap (paging_write_cr3 (kernel_tables s).kernel_table)
        (unmap_null (kernel_tables s).kernel_table (kernel_tables s) (k.vacant 0 (omega arith)))

-- With a page manager in order of at most 2 ^ 35 pages, 257 pages to be had and a memory map that
-- ends below 4G, `paging_initialize` builds the kernel's space and loads it: the first 4G of
-- physical memory are mapped as huge pages from `vaddr_higher` on, the first 2G from
-- `vaddr_kernel` on, the lower half maps nothing, every top-level entry of the upper half has a
-- table, and the machine is in order.
pub paging_initialize_lem :
    (mmap : List MmapEntry) (s : Machine)
    → IsValid s.pmm
    → page_total s.pmm ≤ 2 ^ 35
    → 257 ≤ available s.pmm
    → AllLow mmap
    → IsLoaded (paging_initialize mmap s)
paging_initialize_lem mmap s valid small enough low =
    let k = kernel_tables_lem s valid small enough in
    subst IsLoaded (sym (initialize_is mmap s low k)) (IsLoaded-IsLoaded (kernel_tables s) k)
