-- ===== src/Tasks/Loader/Segment.antt =====
-- A segment that the loader of kernel/src/task/task.c brings into an address space.
use shed_os.Base.{
  List, [], ◌∷◌, ◌++◌, inl, inr, ℕ, ◌+◌, ◌-◌, ◌*◌, ◌/◌, ◌%◌, ◌^◌, ◌<◌, ◌≤◌, ◌≡◌, ◌⊎◌, refl, sym, ap,
  ◌∙◌, subst, true, arith, ◌==◌, if◌then◌else◌,
}
use shed_os.Base.Word.{add64}
use shed_os.Memory.Addr.{addr_page_align_up}
use shed_os.Memory.Addr.Align.{align_up_lem}
use shed_os.Memory.Pmm.Lock.{locked}
use shed_os.Memory.Pmm.Supply.{available}
use shed_os.Memory.Paging.{Machine, present, paging_get, vaddr_to_index}
use shed_os.Memory.Paging.Descend.{IsMachine}
use shed_os.Memory.Paging.Walk.{walk, HugeFree}
use shed_os.Memory.Paging.Get.{get_lem}
use shed_os.Memory.Vmm.{vmm_request_at}
use shed_os.Memory.Vmm.Many.{target, vmm_request_at_lem}
use shed_os.Tasks.Loader.{
  Write, clears, copies, Elf64Phdr, pt_load, segment_pages, fill_segment, load_segment,
}

page_align_lem :
    (x : ℕ) → x + 0x1000 ≤ 2 ^ 64 → addr_page_align_up x ≡ (x + 0xfff) / 0x1000 * 0x1000
unfolding addr_page_align_up
page_align_lem x small = align_up_lem x 12 small (omega arith) ∙ omega arith

segment_pages_lem :
    (p : Elf64Phdr)
    → p.p_memsz + 0x2000 < 2 ^ 64
    → segment_pages p ≡ (p.p_memsz + p.p_vaddr % 0x1000 + 0xfff) / 0x1000
unfolding segment_pages
segment_pages_lem p small =
    omega (arith, page_align_lem (add64 p.p_memsz (p.p_vaddr % 0x1000)) (omega arith))

-- Two addresses of one page read the same entry.
get_page :
    (root v w : ℕ) (s : Machine)
    → v / 2 ^ 12 ≡ w / 2 ^ 12
    → paging_get root v s ≡ paging_get root w s
unfolding vaddr_to_index walk
get_page root v w s e = get_lem root v s ∙ (rw e refl ∙ sym (get_lem root w s))

-- The bytes that a write changes.
abbrev pub Touches : Write → ℕ → Type 0
Touches (clears dst n) a = (dst ≤ a) × (a < dst + n)
Touches (copies dst src n) a = (dst ≤ a) × (a < dst + n)

-- The writes and the machine `out` after a segment was loaded.
pub record Loaded (vmap hdr : ℕ) (p : Elf64Phdr) (writes : List Write) (s : Machine)
    (out : List Write × Machine) : Type 0 where
  pub there : (j : ℕ) → j < p.p_memsz → present (paging_get vmap (p.p_vaddr + j) out.1) ≡ true
  pub kept :
      (w : ℕ) → present (paging_get vmap w s) ≡ true → paging_get vmap w out.1 ≡ paging_get vmap w s
  -- Two writes come after those before, and go to pages that are there.
  pub first : Write
  pub second : Write
  pub made : out.0 ≡ writes ++ (first ∷ second ∷ [])
  pub mapped :
      (a : ℕ) → Touches first a ⊎ Touches second a → present (paging_get vmap a out.1) ≡ true
  -- The second one brings every byte of the segment from the file.
  pub brought : second ≡ copies p.p_vaddr (hdr + p.p_offset) p.p_memsz
  pub level' : ℕ → ℕ
  pub parent' : ℕ → ℕ
  pub machine : IsMachine vmap level' parent' out.1

load_is :
    (vmap hdr : ℕ) (p : Elf64Phdr) (writes : List Write) (s : Machine)
    → p.p_type ≡ pt_load
    → load_segment vmap hdr p (writes, s)
      ≡ (writes ++ fill_segment hdr p, vmm_request_at vmap p.p_vaddr (segment_pages p) 6 s)
unfolding load_segment
load_is vmap hdr p writes s load =
    ap
      (λ (t : ℕ).
        if t == pt_load
        then (writes ++ fill_segment hdr p, vmm_request_at vmap p.p_vaddr (segment_pages p) 6 s)
        else (writes, s))
      load

-- A segment of type PT_LOAD, in an address space in order whose page 0 is held, with no huge page
-- in the way and four pages to be had for each page of the segment, where the segment ends 0x2000
-- bytes or more below 2 ^ 64 and is not shorter than its part of the file: every byte of the
-- segment gets a page, every page that was there is mapped as before, two writes follow those
-- before, which only go to pages that are there, the second one copies all `p_memsz` bytes from
-- the file, and the address space stays in order.
pub load_segment_lem :
    (vmap hdr : ℕ) (p : Elf64Phdr) {level parent : ℕ → ℕ} (writes : List Write) (s : Machine)
    → p.p_type ≡ pt_load
    → p.p_filesz ≤ p.p_memsz
    → p.p_vaddr + p.p_memsz + 0x2000 < 2 ^ 64
    → IsMachine vmap level parent s
    → ((k : ℕ)
        → k < segment_pages p
        → HugeFree (walk 3 (vaddr_to_index (target p.p_vaddr k)) vmap s.ram))
    → locked s.pmm 0 ≡ true
    → 4 * segment_pages p ≤ available s.pmm
    → Loaded vmap hdr p writes s (load_segment vmap hdr p (writes, s))
unfolding fill_segment
load_segment_lem vmap hdr p writes s load shorter small ok plain z enough =
    let (serves, all) = vmm_request_at_lem vmap p.p_vaddr (segment_pages p) 6 s ok plain z enough in
    let t = vmm_request_at vmap p.p_vaddr (segment_pages p) 6 s in
    let there : (j : ℕ) → j < p.p_memsz → present (paging_get vmap (p.p_vaddr + j) t) ≡ true =
      λ j lt.
        let k = (p.p_vaddr + j) / 0x1000 - p.p_vaddr / 0x1000 in
        ap present (get_page vmap (p.p_vaddr + j) (target p.p_vaddr k) _ (omega arith))
        ∙ all k (omega arith) (omega (arith, segment_pages_lem p (omega arith))) in
    let at : (a : ℕ)
        → p.p_vaddr ≤ a
        → a < p.p_vaddr + p.p_memsz
        → present (paging_get vmap a t) ≡ true =
      λ a le lt.
        subst (λ (x : ℕ). present (paging_get vmap x t) ≡ true) {x = p.p_vaddr + (a - p.p_vaddr)}
          {y = a} (omega arith) (there (a - p.p_vaddr) (omega arith)) in
    subst (Loaded vmap hdr p writes s) (sym (load_is vmap hdr p writes s load)) (record {
      there = there;
      kept = serves.stays;
      first = clears p.p_vaddr p.p_filesz;
      second = copies p.p_vaddr (hdr + p.p_offset) p.p_memsz;
      made = refl;
      mapped = λ a c. elim c [ inl (le, lt) ↦ at a le (omega arith) | inr (le, lt) ↦ at a le lt ];
      brought = refl;
      level' = serves.level;
      parent' = serves.parent;
      machine = serves.machine;
    })
