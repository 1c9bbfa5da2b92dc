-- ===== src/Memory/Paging/Unmap.antt =====
-- `paging_unmap` (paging.c): the page is gone, and nothing else changes.
use shed_os.Base.{
  ℕ, zero, suc, ◌<◌, ◌≤◌, ◌≡◌, ◌≢◌, refl, sym, ap, subst, ◌∙◌, arith, update, Bool-cases, inl, inr,
  ◌∷◌,
}
use shed_os.Memory.Paging.{
  Machine, present, slot, table_of, unmap_walk, paging_unmap, paging_get, vaddr_to_index,
  paging_flush_tlb,
}
use shed_os.Memory.Paging.Entry.{page, vaddr_to_index-lt}
use shed_os.Memory.Paging.Walk.{
  Walk, hit, absent, big, walk, read, HugeFree, hit_leaf, walk_injective, walk_down, walk_same,
  HugeFree-slot,
}
use shed_os.Memory.Paging.Leaves.{Leaves, Leaves-refl}
use shed_os.Memory.Paging.Descend.{IsMachine}
use shed_os.Memory.Paging.Map.{written_above, written-IsTree, written-walk, written-read}
use shed_os.Memory.Paging.Get.{get_lem, Apart}

-- The machine without what the walk found.
cleared : ℕ → Machine → Walk → Machine
cleared v s (hit a) = paging_flush_tlb v (record s { ram = update s.ram a 0 })
cleared v s absent = s
cleared v s (big x) = s

unmap_walk_lem :
    (l v t : ℕ) (s : Machine)
    → HugeFree (walk l (vaddr_to_index v) t s.ram)
    → unmap_walk l v t s ≡ cleared v s (walk l (vaddr_to_index v) t s.ram)
unfolding unmap_walk walk cleared
unmap_walk_lem zero v t s free = refl
unmap_walk_lem (suc l) v t s free =
    elim (Bool-cases (present (s.ram (slot t (vaddr_to_index v (suc l)))))) [
      | inl p ↦
          let h = HugeFree-slot l (vaddr_to_index v) t s.ram free p in
          rw (p, h)
            (unmap_walk_lem l v (table_of (s.ram (slot t (vaddr_to_index v (suc l))))) s
              (subst HugeFree (walk_down l (vaddr_to_index v) t s.ram p h) free))
      | inr p ↦ rw p
    ]

-- What holds of the machine `m` that an unmapping of `v` leaves of `s`.
abbrev pub Unmapped : (root v : ℕ) (level parent : ℕ → ℕ) (s m : Machine) → Type 0
Unmapped root v level parent s m =
    (paging_get root v m ≡ 0)
    × ((w : ℕ) → Apart v w → paging_get root w m ≡ paging_get root w s)
    × IsMachine root level parent m

module _ (root v : ℕ) {level parent : ℕ → ℕ} (s : Machine) (ok : IsMachine root level parent s)
    (free : HugeFree (walk 3 (vaddr_to_index v) root s.ram)) where
  Unmapped-hit :
      (u : ℕ)
      → level u ≡ 1
      → walk 3 (vaddr_to_index v) root s.ram ≡ hit (slot u (vaddr_to_index v 0))
      → Unmapped root v level parent s (cleared v s (hit (slot u (vaddr_to_index v 0))))
  unfolding cleared paging_flush_tlb
  Unmapped-hit u lu e = (
    read_back v ∙ rw e (ground arith),
    λ w (k, le, ne).
        read_back w
        ∙ (written-read ok.tree u i 0 lu it (walk 3 (vaddr_to_index w) root s.ram)
              (elsewhere w k le ne)
            ∙ sym (get_lem root w s)),
    record {
      tree = written-IsTree ok.tree u i 0 lu it;
      pmm = ok.pmm;
      small = ok.small;
      held = ok.held;
    },
  )
    where
      i : ℕ
      i = vaddr_to_index v 0

      it : i < 512
      it = vaddr_to_index-lt v 0

      after : ℕ → ℕ
      after = update s.ram (slot u i) 0

      read_back :
          (w : ℕ)
          → paging_get root w (record s { ram = after; flushed = v ∷ s.flushed })
            ≡ read (walk 3 (vaddr_to_index w) root s.ram) after
      read_back w =
          get_lem root w _
          ∙ ap (λ (x : Walk). read x after)
              (written-walk ok.tree u i 0 lu it 3 (vaddr_to_index w) root (vaddr_to_index-lt w)
                ok.tree.top)

      elsewhere :
          (w k : ℕ)
          → k ≤ 3
          → vaddr_to_index v k ≢ vaddr_to_index w k
          → walk 3 (vaddr_to_index w) root s.ram ≢ hit (slot u i)
      elsewhere w k le ne f = ne (
          (walk_injective ok.tree 3 (vaddr_to_index v) (vaddr_to_index w) root root _
              (vaddr_to_index-lt v) (vaddr_to_index-lt w) ok.tree.top ok.tree.top e f).1
            k le)

  Unmapped-walk :
      (x : Walk)
      → walk 3 (vaddr_to_index v) root s.ram ≡ x
      → Unmapped root v level parent s (cleared v s x)
  unfolding cleared
  Unmapped-walk (hit a) e =
      let (u, lu, at) =
        hit_leaf ok.tree 3 (vaddr_to_index v) root a (vaddr_to_index-lt v) ok.tree.top e in
      subst (λ (b : ℕ). Unmapped root v level parent s (cleared v s (hit b))) (sym at)
        (Unmapped-hit u lu (e ∙ ap hit at))
  Unmapped-walk absent e = (get_lem root v s ∙ rw e, λ w a. refl, ok)
  Unmapped-walk (big x) e = absurd (subst HugeFree e free)

  -- In a machine in order, with no huge page on the way: after `paging_unmap` the page reads 0,
  -- every other page reads as before, and the tables stay in order, whether it was mapped or not.
  pub unmap_lem : Unmapped root v level parent s (paging_unmap root v s)
  unfolding paging_unmap
  unmap_lem =
      subst (Unmapped root v level parent s) (sym (unmap_walk_lem 3 v root s free))
        (Unmapped-walk _ refl)

  Leaves-hit :
      (u : ℕ)
      → level u ≡ 1
      → Leaves level level 0 s (cleared v s (hit (slot u (vaddr_to_index v 0))))
  unfolding cleared paging_flush_tlb
  Leaves-hit u lu = record {
    outside = λ m lm h e. (e, λ j lj. ground (arith, outside m j lj e));
    above = λ t j lj lt there.
        (refl, written_above ok.tree u (vaddr_to_index v 0) 0 lu (vaddr_to_index-lt v 0) t j lt lj);
    locked_on = λ m h. h;
    budget = omega arith;
    table = refl;
  }
    where
      outside :
          (m j : ℕ) → j < 512 → level (page m) ≡ 0 → slot (page m) j ≢ slot u (vaddr_to_index v 0)
      outside m j lj none_at e =
          let (f, small, at) = ok.tree.frame u (omega (arith, lu)) in
          let same : page m ≡ u = omega (arith, vaddr_to_index-lt v 0) in
          omega (arith, lu, ap level same)

  Leaves-walk :
      (x : Walk) → walk 3 (vaddr_to_index v) root s.ram ≡ x → Leaves level level 0 s (cleared v s x)
  unfolding cleared
  Leaves-walk (hit a) e =
      let (u, lu, at) =
        hit_leaf ok.tree 3 (vaddr_to_index v) root a (vaddr_to_index-lt v) ok.tree.top e in
      subst (λ (b : ℕ). Leaves level level 0 s (cleared v s (hit b))) (sym at) (Leaves-hit u lu)
  Leaves-walk absent e = Leaves-refl level 0 s
  Leaves-walk (big x) e = Leaves-refl level 0 s

  -- No page is taken, and what is held for something else is left alone.
  pub unmap-Leaves : Leaves level level 0 s (paging_unmap root v s)
  unfolding paging_unmap
  unmap-Leaves =
      subst (Leaves level level 0 s) (sym (unmap_walk_lem 3 v root s free)) (Leaves-walk _ refl)

  -- The entries above the last level stay.
  abbrev SameAbove : Machine → Type 0
  SameAbove t = (u j : ℕ) → 2 ≤ level u → j < 512 → t.ram (slot u j) ≡ s.ram (slot u j)

  SameAbove-walk : (x : Walk) → walk 3 (vaddr_to_index v) root s.ram ≡ x → SameAbove (cleared v s x)
  unfolding cleared paging_flush_tlb
  SameAbove-walk (hit a) e =
      let (u, lu, at) =
        hit_leaf ok.tree 3 (vaddr_to_index v) root a (vaddr_to_index-lt v) ok.tree.top e in
      subst (λ (b : ℕ). SameAbove (record s { ram = update s.ram b 0 })) (sym at)
        (written_above ok.tree u (vaddr_to_index v 0) 0 lu (vaddr_to_index-lt v 0))
  SameAbove-walk absent e = λ u j lu lj. refl
  SameAbove-walk (big x) e = λ u j lu lj. refl

  same_above : SameAbove (paging_unmap root v s)
  unfolding paging_unmap
  same_above = subst SameAbove (sym (unmap_walk_lem 3 v root s free)) (SameAbove-walk _ refl)

  -- The walks are those of before.
  pub unmap-walk :
      (w : ℕ)
      → walk 3 (vaddr_to_index w) root (paging_unmap root v s).ram
        ≡ walk 3 (vaddr_to_index w) root s.ram
  unmap-walk w =
      walk_same ok.tree (paging_unmap root v s).ram 3 (vaddr_to_index w) root same_above
        (vaddr_to_index-lt w) ok.tree.top
