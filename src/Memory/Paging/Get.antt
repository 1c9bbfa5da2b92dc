-- ===== src/Memory/Paging/Get.antt =====
-- `paging_map` and `paging_get` (paging.c): what was mapped is found, and nothing else changes.
use shed_os.Base.{
  ℕ, ◌<◌, ◌≤◌, ◌≡◌, ◌≢◌, refl, sym, ap, subst, ◌∙◌, arith, update, bit_or, ne→==, ◌⊎◌, inl, inr,
  eq_cases, zero, suc,
}
use shed_os.Memory.Paging.{
  Machine, slot, map_walk, paging_map, paging_get, vaddr_to_index, paging_flush_tlb, paging_present,
}
use shed_os.Memory.Paging.Entry.{page, vaddr_to_index-lt}
use shed_os.Memory.Paging.Walk.{
  Walk, hit, walk, read, HugeFree, get_walk_lem, walk_injective, walk_agree,
}
use shed_os.Memory.Paging.Leaves.{Leaves}
use shed_os.Memory.Paging.Descend.{IsMachine}
use shed_os.Memory.Paging.Map.{
  CanRequest, Reached, map_walk_lem, written_above, written-IsTree, written-walk, written-read,
}

pub get_lem :
    (table v : ℕ) (s : Machine)
    → paging_get table v s ≡ read (walk 3 (vaddr_to_index v) table s.ram) s.ram
unfolding paging_get
get_lem table v s = get_walk_lem 3 v table s.ram

-- `v` and `w` are addresses of different pages (of 48-bit addresses).
abbrev pub Apart : ℕ → ℕ → Type 0
Apart v w = (k : ℕ) × (k ≤ 3) × (vaddr_to_index v k ≢ vaddr_to_index w k)

-- Two addresses are of different pages, or read alike.
pub Apart-cases :
    (root v w : ℕ) (s : Machine) → Apart v w ⊎ (paging_get root w s ≡ paging_get root v s)
Apart-cases root v w s = elim (eq_cases (vaddr_to_index v 0) (vaddr_to_index w 0)) [
  | inr ne ↦ inl (0, omega arith, ne)
  | inl a ↦ elim (eq_cases (vaddr_to_index v 1) (vaddr_to_index w 1)) [
    | inr ne ↦ inl (1, omega arith, ne)
    | inl b ↦ elim (eq_cases (vaddr_to_index v 2) (vaddr_to_index w 2)) [
      | inr ne ↦ inl (2, omega arith, ne)
      | inl c ↦ elim (eq_cases (vaddr_to_index v 3) (vaddr_to_index w 3)) [
        | inr ne ↦ inl (3, omega arith, ne)
        | inl d ↦ inr (same a b c d)
      ]
    ]
  ]
]
  where
    index_same :
        (k : ℕ)
        → k ≤ 3
        → vaddr_to_index v 0 ≡ vaddr_to_index w 0
        → vaddr_to_index v 1 ≡ vaddr_to_index w 1
        → vaddr_to_index v 2 ≡ vaddr_to_index w 2
        → vaddr_to_index v 3 ≡ vaddr_to_index w 3
        → vaddr_to_index w k ≡ vaddr_to_index v k
    index_same zero le a b c d = sym a
    index_same (suc zero) le a b c d = sym b
    index_same (suc (suc zero)) le a b c d = sym c
    index_same (suc (suc (suc zero))) le a b c d = sym d
    index_same (suc (suc (suc (suc k)))) le a b c d = absurd (omega arith)

    same :
        vaddr_to_index v 0 ≡ vaddr_to_index w 0
        → vaddr_to_index v 1 ≡ vaddr_to_index w 1
        → vaddr_to_index v 2 ≡ vaddr_to_index w 2
        → vaddr_to_index v 3 ≡ vaddr_to_index w 3
        → paging_get root w s ≡ paging_get root v s
    same a b c d =
        get_lem root w s
        ∙ (ap (λ (x : Walk). read x s.ram)
              (walk_agree 3 (vaddr_to_index w) (vaddr_to_index v) root s.ram
                (λ k le. index_same k le a b c d))
            ∙ sym (get_lem root v s))

module _ (root v paddr flags : ℕ) {level parent : ℕ → ℕ} (s : Machine)
    (ok : IsMachine root level parent s) (free : HugeFree (walk 3 (vaddr_to_index v) root s.ram))
    (can : CanRequest 3 s.pmm) where
  reached : Reached root level s 3 v root (map_walk 3 v root s)
  reached = map_walk_lem 3 v root s ok ok.tree.top free can

  abbrev entry : ℕ
  entry = bit_or (bit_or paddr flags) paging_present

  abbrev leaf : ℕ
  leaf = (map_walk 3 v root s).0

  -- The last table, and the memory before the last write.
  abbrev before : ℕ → ℕ
  before = (map_walk 3 v root s).1.ram

  ram-map :
      (paging_map root v paddr flags s).ram ≡ update before (slot leaf (vaddr_to_index v 0)) entry
  unfolding paging_map paging_flush_tlb
  ram-map = refl

  read_map :
      (w : ℕ)
      → paging_get root w (paging_map root v paddr flags s)
        ≡ read
            (walk 3 (vaddr_to_index w) root before)
            (update before (slot leaf (vaddr_to_index v 0)) entry)
  read_map w =
      get_lem root w _
      ∙ (ap (λ (r : ℕ → ℕ). read (walk 3 (vaddr_to_index w) root r) r) ram-map
          ∙ ap (λ (x : Walk). read x (update before (slot leaf (vaddr_to_index v 0)) entry))
              (written-walk reached.machine.tree leaf (vaddr_to_index v 0) entry reached.leaf
                (vaddr_to_index-lt v 0) 3 (vaddr_to_index w) root (vaddr_to_index-lt w)
                reached.machine.tree.top))

  -- In a machine whose tables are a tree of held pages, with no huge page on the way and three
  -- pages to be had: after a mapping the address reads back as the physical address, the flags and
  -- PRESENT.
  pub get-map :
      paging_get root v (paging_map root v paddr flags s)
      ≡ bit_or (bit_or paddr flags) paging_present
  get-map = read_map v ∙ rw reached.reaches (ground arith)

  -- In a machine whose tables are a tree of held pages, with no huge page on the way to the
  -- address and three pages to be had: after a mapping every address of another page reads as
  -- before.
  pub get-map_other :
      (w : ℕ)
      → Apart v w
      → paging_get root w (paging_map root v paddr flags s) ≡ paging_get root w s
  get-map_other w (k, le, ne) =
      read_map w
      ∙ (written-read reached.machine.tree leaf (vaddr_to_index v 0) entry reached.leaf
            (vaddr_to_index-lt v 0) (walk 3 (vaddr_to_index w) root before) elsewhere
          ∙ (reached.extends.keeps_read 3 (vaddr_to_index w) root (vaddr_to_index-lt w) ok.tree.top
              ∙ sym (get_lem root w s)))
    where
      elsewhere : walk 3 (vaddr_to_index w) root before ≢ hit (slot leaf (vaddr_to_index v 0))
      elsewhere e = ne (
          (walk_injective reached.machine.tree 3 (vaddr_to_index v) (vaddr_to_index w) root root _
              (vaddr_to_index-lt v) (vaddr_to_index-lt w) reached.machine.tree.top
              reached.machine.tree.top reached.reaches e).1
            k le)

  machine-map : IsMachine root reached.level' reached.parent' (paging_map root v paddr flags s)
  unfolding paging_map paging_flush_tlb
  machine-map = record {
    tree =
        written-IsTree reached.machine.tree leaf (vaddr_to_index v 0) entry reached.leaf
          (vaddr_to_index-lt v 0);
    pmm = reached.machine.pmm;
    small = reached.machine.small;
    held = reached.machine.held;
  }

  -- The tables stay a tree of pages that the page manager holds.
  pub map-IsMachine :
      (level' parent' : ℕ → ℕ) × IsMachine root level' parent' (paging_map root v paddr flags s)
  map-IsMachine = (reached.level', reached.parent', machine-map)

  Leaves-map : Leaves level reached.level' 3 s (paging_map root v paddr flags s)
  unfolding paging_map paging_flush_tlb
  Leaves-map = record {
    outside = λ m lm h e.
        let (e', same) = reached.leaves.outside m lm h e in
        (
          e',
          λ j lj.
              rw (ne→== (slot (page m) j) (slot leaf (vaddr_to_index v 0)) (apart m j lj e'))
                (same j lj),
        );
    above = λ u j lj lu there.
        let (e, same) = reached.leaves.above u j lj lu there in
        (
          e,
          written_above reached.machine.tree leaf (vaddr_to_index v 0) entry reached.leaf
                (vaddr_to_index-lt v 0) u j (omega (arith, e, lu)) lj
              ∙ same,
        );
    locked_on = reached.leaves.locked_on;
    budget = reached.leaves.budget;
    table = reached.leaves.table;
  }
    where
      apart :
          (m j : ℕ)
          → j < 512
          → reached.level' (page m) ≡ 0
          → slot (page m) j ≢ slot leaf (vaddr_to_index v 0)
      apart m j lj none_at e =
          let (f, small, at) = reached.machine.tree.frame leaf (omega (arith, reached.leaf)) in
          let same : page m ≡ leaf = omega (arith, vaddr_to_index-lt v 0) in
          omega (arith, reached.leaf, ap reached.level' same)

  -- The machine stays in order, at most three pages are taken, and what was held for something else is
  -- left alone.
  pub map-Leaves :
      (level' parent' : ℕ → ℕ) × IsMachine root level' parent' (paging_map root v paddr flags s)
      × Leaves level level' 3 s (paging_map root v paddr flags s)
  map-Leaves = (reached.level', reached.parent', machine-map, Leaves-map)

  -- No huge page comes in the way of an address.
  pub map-HugeFree :
      (w : ℕ)
      → HugeFree (walk 3 (vaddr_to_index w) root s.ram)
      → HugeFree (walk 3 (vaddr_to_index w) root (paging_map root v paddr flags s).ram)
  unfolding paging_map paging_flush_tlb
  map-HugeFree w h =
      subst HugeFree
        (sym (
          written-walk reached.machine.tree leaf (vaddr_to_index v 0) entry reached.leaf
            (vaddr_to_index-lt v 0) 3 (vaddr_to_index w) root (vaddr_to_index-lt w)
            reached.machine.tree.top))
        (reached.extends.keeps_plain 3 (vaddr_to_index w) root (vaddr_to_index-lt w) ok.tree.top h)
