-- ===== src/Memory/Spaces/Twin.antt =====
-- `paging_copy` of paging.c, as `paging_get` sees the copy and its source.
use shed_os.Base.{
  ℕ, suc, ◌+◌, ◌^◌, ◌<◌, ◌≤◌, ◌≡◌, ◌≢◌, refl, sym, ap, ◌∙◌, subst, true, false, arith, inl, inr,
  eq_cases,
}
use shed_os.Memory.Pmm.Lock.{locked}
use shed_os.Memory.Pmm.Supply.{available, Supplied, supply_lem}
use shed_os.Memory.Paging.{Machine, zero_page, present, slot, paging_get, vaddr_to_index}
use shed_os.Memory.Paging.Entry.{page, vaddr_to_index-lt}
use shed_os.Memory.Paging.Walk.{Walk, walk, read, hit, absent, big, HugeFree, hit_leaf, walk_same}
use shed_os.Memory.Paging.Get.{get_lem}
use shed_os.Memory.Paging.Descend.{IsMachine}
use shed_os.Memory.Spaces.{
  new_table, copy_range, paging_create_empty, paging_copy, paging_copy_recursive,
}
use shed_os.Memory.Spaces.Plain.{IsPlain, IsPlain-HugeFree}
use shed_os.Memory.Spaces.Kept.{
  Kept, Kept-trans, Kept-written, Kept-taken, Holds-taken, taken, palloc_lem, supplied_small,
  supplied_free,
}
use shed_os.Memory.Spaces.Copied.{Copied-walk}
use shed_os.Memory.Spaces.Step.{tables, Fresh, Ready, Kept-Ready, Copies}
use shed_os.Memory.Spaces.Copy.{Copies-recursive}

-- What `paging_copy` answers: `out` is the new table and the machine, after `n` pages were taken.
pub record IsCopy (root : ℕ) (level parent : ℕ → ℕ) (n : ℕ) (s : Machine) (out : ℕ × Machine)
    : Type 0 where
  pub frame : ℕ
  pub new : out.0 ≡ page frame
  pub fresh : Fresh s out.1 frame
  -- A user page that is there is mapped alike in the copy.
  pub user :
      (v : ℕ)
      → vaddr_to_index v 3 < 256
      → paging_get root v s ≢ 0
      → paging_get out.0 v out.1 ≡ paging_get root v s
  -- Where the source has no table for the top-level entry, nothing is mapped.
  pub missing :
      (v : ℕ)
      → vaddr_to_index v 3 < 256
      → present (s.ram (slot root (vaddr_to_index v 3))) ≡ false
      → paging_get out.0 v out.1 ≡ 0
  pub kernel : (v : ℕ) → 256 ≤ vaddr_to_index v 3 → paging_get out.0 v out.1 ≡ paging_get root v s
  -- The source is left as it was.
  pub source : (v : ℕ) → paging_get root v out.1 ≡ paging_get root v s
  pub machine : IsMachine root level parent out.1
  pub pages : available out.1.pmm + n ≡ available s.pmm

-- A walk is settled by the first entry that it reads.
walk_top :
    (l : ℕ) (ix : ℕ → ℕ) (t u : ℕ) (ram : ℕ → ℕ)
    → ram (slot t (ix (suc l))) ≡ ram (slot u (ix (suc l)))
    → walk (suc l) ix t ram ≡ walk (suc l) ix u ram
unfolding walk
walk_top l ix t u ram e = ground (arith, e)

walk_absent :
    (l : ℕ) (ix : ℕ → ℕ) (t : ℕ) (ram : ℕ → ℕ)
    → ram (slot t (ix (suc l))) ≡ 0
    → walk (suc l) ix t ram ≡ absent
unfolding walk
walk_absent l ix t ram e = rw e refl

module _ (root : ℕ) {level parent : ℕ → ℕ} (s : Machine) (ok : IsMachine root level parent s)
    (plain : IsPlain 3 root s.ram) (k : ℕ) (kernel : s.kernel_table ≡ page k) (ks : k < 2 ^ 35)
    (kh : locked s.pmm k ≡ true) (supplied : Supplied s.pmm)
    (enough : tables 3 root s.ram + 1 ≤ available s.pmm) where
  abbrev d : ℕ
  d = supplied.first

  -- The machine with the new top-level table, before the recursion.
  abbrev started : Machine
  started = record (taken s) {
    ram = copy_range (page d + 0x800) (s.kernel_table + 0x800) 0x800 (zero_page (page d) s.ram);
  }

  started_lem : paging_create_empty s ≡ (page d, started)
  unfolding paging_create_empty new_table
  started_lem =
      ap
        (λ (q : ℕ × Machine). (
          q.0,
          record q.1 {
            ram = copy_range (q.0 + 0x800) (q.1.kernel_table + 0x800) 0x800 (zero_page q.0 q.1.ram);
          },
        ))
        (palloc_lem 0 s ok.pmm ok.small supplied)

  started_apart :
      (m j : ℕ) → j < 512 → m ≢ d → started.ram (slot (page m) j) ≡ s.ram (slot (page m) j)
  unfolding copy_range zero_page
  started_apart m j lj ne = ground arith

  started_user : (j : ℕ) → j < 256 → started.ram (slot (page d) j) ≡ 0
  unfolding copy_range zero_page
  started_user j lj = ground arith

  free : locked s.pmm d ≡ false
  free = supplied_free d s ok.pmm ok.small supplied

  started_kernel :
      (j : ℕ) → 256 ≤ j → j < 512 → started.ram (slot (page d) j) ≡ s.ram (slot s.kernel_table j)
  unfolding copy_range zero_page
  started_kernel j le lj =
      let apart : k ≢ d = λ e. ground (arith, kh, free, ap (locked s.pmm) e) in ground arith

  Kept-started : Kept d 1 s started
  Kept-started = Kept-trans d 1 0 s (taken s) started (Kept-taken d s ok.pmm ok.small supplied) (
      Kept-written d (taken s) started (Kept-taken d s ok.pmm ok.small supplied).valid
        (λ m j lm lj ne. started_apart m j lj ne) refl)

  ready : Ready ok.tree d started
  ready = record {
    holds = record {
      valid = Kept-started.valid;
      small = ground (arith, Kept-started.total, ok.small);
      here = supplied_small d s ok.pmm ok.small supplied;
      held = (Holds-taken d s ok.pmm ok.small supplied).held;
    };
    apart = apart;
    held = λ m lm lv. Kept-started.locked_on m (ok.held m lm lv);
    same = λ u j lu lj.
        let (m, small, at) = ok.tree.frame u lu in
        rw at (started_apart m j lj (λ e. ground (arith, lu, at, apart, ap page e)));
  }
    where
      apart : level (page d) ≡ 0
      apart = elim (eq_cases (level (page d)) 0) [
        | inl e ↦ e
        | inr ne ↦
            absurd
              (ground (arith, ok.held d (supplied_small d s ok.pmm ok.small supplied) ne, free))
      ]

  abbrev after : Machine
  after = paging_copy_recursive 3 (page d) root started

  copies : Copies ok.tree 3 d root started after
  copies =
      Copies-recursive ok.tree 3 d root started (omega arith) ok.tree.top plain ready
        (omega (arith, Kept-started.supply))

  copy_is : paging_copy root s ≡ (page d, after)
  unfolding paging_copy
  copy_is = ap (λ (q : ℕ × Machine). (q.0, paging_copy_recursive 3 q.0 root q.1)) started_lem

  kept : Kept d (1 + tables 3 root s.ram) s after
  kept = Kept-trans d 1 (tables 3 root s.ram) s started after Kept-started copies.kept

  ready_after : Ready ok.tree d after
  ready_after = Kept-Ready ok.tree d _ started after copies.kept ready

  source_read :
      (v : ℕ) (w : Walk)
      → walk 3 (vaddr_to_index v) root s.ram ≡ w
      → read w after.ram ≡ read w s.ram
  source_read v (hit a) e =
      let (leaf, ll, at) =
        hit_leaf ok.tree 3 (vaddr_to_index v) root a (vaddr_to_index-lt v) ok.tree.top e in
      ground (arith, at, ready_after.same leaf (vaddr_to_index v 0), vaddr_to_index-lt v 0)
  source_read v absent e = refl
  source_read v (big x) e = refl

  source_lem : (v : ℕ) → paging_get root v after ≡ paging_get root v s
  source_lem v =
      get_lem root v after
      ∙ (ap (λ (w : Walk). read w after.ram)
            (walk_same ok.tree after.ram 3 (vaddr_to_index v) root
              (λ u j lu lj. ready_after.same u j (omega arith) lj) (vaddr_to_index-lt v)
              ok.tree.top)
          ∙ (source_read v _ refl ∙ sym (get_lem root v s)))

  user_read :
      (v : ℕ) (w : Walk)
      → vaddr_to_index v 3 < 256
      → walk 3 (vaddr_to_index v) root s.ram ≡ w
      → HugeFree w
      → read w s.ram ≢ 0
      → read (walk 3 (vaddr_to_index v) (page d) after.ram) after.ram ≡ read w s.ram
  user_read v (hit a) lt e free there =
      let (b, ends, same) =
        Copied-walk 3 (Fresh started after) s.ram after.ram (vaddr_to_index v) d root a
          (omega arith) copies.copied (vaddr_to_index-lt v) lt e in
      ap (λ (w : Walk). read w after.ram) ends ∙ same
  user_read v absent lt e free there = absurd (there refl)
  user_read v (big x) lt e free there = absurd free

  user_lem :
      (v : ℕ)
      → vaddr_to_index v 3 < 256
      → paging_get root v s ≢ 0
      → paging_get (page d) v after ≡ paging_get root v s
  user_lem v lt there =
      get_lem (page d) v after
      ∙ (user_read v _ lt refl
            (IsPlain-HugeFree 3 root s.ram (vaddr_to_index v) (omega arith) plain
              (vaddr_to_index-lt v) lt)
            (λ e. there (get_lem root v s ∙ e))
          ∙ sym (get_lem root v s))

  missing_lem :
      (v : ℕ)
      → vaddr_to_index v 3 < 256
      → present (s.ram (slot root (vaddr_to_index v 3))) ≡ false
      → paging_get (page d) v after ≡ 0
  missing_lem v lt gone =
      get_lem (page d) v after
      ∙ ap (λ (w : Walk). read w after.ram)
          (walk_absent 2 (vaddr_to_index v) (page d) after.ram (
            copies.spared (vaddr_to_index v 3) (vaddr_to_index-lt v 3) (omega arith) (inr gone)
            ∙ started_user (vaddr_to_index v 3) lt))

  module _
      (shared : (i : ℕ)
        → 256 ≤ i
        → i < 512
        → s.ram (slot s.kernel_table i) ≡ s.ram (slot root i)) where
    kernel_lem :
        (v : ℕ) → 256 ≤ vaddr_to_index v 3 → paging_get (page d) v after ≡ paging_get root v s
    kernel_lem v le =
        let i = vaddr_to_index v 3 in
        let lt = vaddr_to_index-lt v 3 in
        get_lem (page d) v after
        ∙ (ap (λ (w : Walk). read w after.ram)
              (walk_top 2 (vaddr_to_index v) (page d) root after.ram (
                copies.spared i lt (omega arith) (inl le)
                ∙ (started_kernel i le lt
                    ∙ (shared i le lt
                        ∙ sym (ready_after.same root i (omega (arith, ok.tree.top)) lt)))))
            ∙ (sym (get_lem root v after) ∙ source_lem v))

    IsCopy-after : IsCopy root level parent (1 + tables 3 root s.ram) s (page d, after)
    IsCopy-after = record {
      frame = d;
      new = refl;
      fresh = (free, ready_after.holds.held);
      user = user_lem;
      missing = missing_lem;
      kernel = kernel_lem;
      source = source_lem;
      machine = record {
        tree = record {
          top = ok.tree.top;
          frame = ok.tree.frame;
          child_level = λ u j lj lu p h.
              ground (arith, ready_after.same u j (omega arith) lj, ok.tree.child_level u j lj lu);
          child_parent = λ u j lj lu p h.
              ground (arith, ready_after.same u j (omega arith) lj, ok.tree.child_parent u j lj lu);
        };
        pmm = kept.valid;
        small = ground (arith, kept.total, ok.small);
        held = ready_after.held;
      };
      pages = kept.supply;
    }

-- In a machine in order, with no huge page below the user half of `root`, a kernel table (a held
-- page) that has the same upper half as `root`, and a page to be had for the new top-level table
-- and for each table below the user half: the copy is a page that was free, has every user page
-- that is there and the kernel's pages at the same entries as the source, takes exactly that many
-- pages, and leaves the source, and the order of the machine, as they were.
pub paging_copy_lem :
    (root : ℕ) {level parent : ℕ → ℕ} (s : Machine)
    → IsMachine root level parent s
    → IsPlain 3 root s.ram
    → (k : ℕ) → s.kernel_table ≡ page k
    → k < 2 ^ 35
    → locked s.pmm k ≡ true
    → ((i : ℕ) → 256 ≤ i → i < 512 → s.ram (slot s.kernel_table i) ≡ s.ram (slot root i))
    → tables 3 root s.ram + 1 ≤ available s.pmm
    → IsCopy root level parent (1 + tables 3 root s.ram) s (paging_copy root s)
paging_copy_lem root s ok plain k kernel ks kh shared enough =
    let p = supply_lem s.pmm ok.pmm (omega arith) in
    subst (IsCopy root _ _ (1 + tables 3 root s.ram) s)
      (sym (copy_is root s ok plain k kernel ks kh p enough))
      (IsCopy-after root s ok plain k kernel ks kh p enough shared)
