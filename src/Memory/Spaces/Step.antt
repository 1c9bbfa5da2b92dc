-- ===== src/Memory/Spaces/Step.antt =====
-- One round of the recursion of `paging_copy` (paging.c): an entry, and what is below it, is copied.
use shed_os.Base.{
  ℕ, zero, suc, ◌+◌, ◌^◌, ◌<◌, ◌≤◌, ◌≡◌, ◌≢◌, ◌⊎◌, refl, sym, ap, ◌∙◌, subst, true, false, arith,
  inl, inr, eq_cases,
}
use shed_os.Memory.Pmm.Lock.{locked}
use shed_os.Memory.Pmm.Supply.{Supplied}
use shed_os.Memory.Paging.{Machine, palloc, present, slot, table_of}
use shed_os.Memory.Paging.Entry.{page}
use shed_os.Memory.Paging.Tree.{IsTree}
use shed_os.Memory.Spaces.{entries, link_copy, paging_copy_recursive}
use shed_os.Memory.Spaces.Kept.{
  Holds, Kept, Kept-refl, Kept-trans, Kept-fresh, Kept-Holds, Kept-written, taken, palloc_lem,
  Kept-taken, Holds-taken, supplied_free, supplied_small,
}
use shed_os.Memory.Spaces.Copied.{Copied, Copied-keep, Linked, copy_entry}

unfoldable pub sum_below : ℕ → (ℕ → ℕ) → ℕ
sum_below zero f = 0
sum_below (suc n) f = sum_below n f + f n

pub sum_below-le : (f : ℕ → ℕ) (m n : ℕ) → m ≤ n → sum_below m f ≤ sum_below n f
unfolding sum_below
sum_below-le f m zero le = ground arith
sum_below-le f m (suc n) le = elim (eq_cases m (suc n)) [
  | inl e ↦ rw e (omega arith)
  | inr ne ↦ omega (arith, sum_below-le f m n (omega arith))
]

pub sum_below_next : (f : ℕ → ℕ) (n : ℕ) → sum_below (n + 1) f ≡ sum_below n f + f n
unfolding sum_below
sum_below_next f n = ap (λ (k : ℕ). sum_below k f) {x = n + 1} {y = suc n} (omega arith)

-- How many tables stand below `t`, as far as the recursion goes.
unfoldable pub tables : (below t : ℕ) → (ℕ → ℕ) → ℕ
tables zero t ram = 0
tables (suc below) t ram = sum_below (entries (suc below + 1)) (λ i.
    elim (present (ram (slot t i))) [
      | true ↦ 1 + tables below (table_of (ram (slot t i))) ram
      | false ↦ 0
    ])

abbrev pub tables_at : (below t : ℕ) → (ℕ → ℕ) → ℕ → ℕ
tables_at below t ram i = elim (present (ram (slot t i))) [
  | true ↦ 1 + tables below (table_of (ram (slot t i))) ram
  | false ↦ 0
]

-- Taken between `s` and `t`.
abbrev pub Fresh : Machine → Machine → ℕ → Type 0
Fresh s t m = (locked s.pmm m ≡ false) × (locked t.pmm m ≡ true)

module _ {root : ℕ} {level parent source : ℕ → ℕ} (tree : IsTree root level parent source) where
  -- The tables of `source` are there and held, and frame `d` is not one of them.
  pub record Ready (d : ℕ) (s : Machine) : Type 0 where
    pub holds : Holds d s
    pub apart : level (page d) ≡ 0
    pub held : (m : ℕ) → m < 2 ^ 35 → level (page m) ≢ 0 → locked s.pmm m ≡ true
    pub same : (u j : ℕ) → level u ≢ 0 → j < 512 → s.ram (slot u j) ≡ source (slot u j)

  pub Kept-Ready : (d n : ℕ) (s t : Machine) → Kept d n s t → Ready d s → Ready d t
  Kept-Ready d n s t k r = record {
    holds = Kept-Holds k d r.holds;
    apart = r.apart;
    held = λ m lm lv. k.locked_on m (r.held m lm lv);
    same = λ u j lu lj.
        let (m, small, at) = tree.frame u lu in
        let lm : level (page m) ≢ 0 = subst (λ (x : ℕ). level x ≢ 0) at lu in
        subst (λ (x : ℕ). t.ram (slot x j) ≡ s.ram (slot x j)) (sym at)
          (k.frame m j small lj (r.held m small lm)
            (λ e. lm (ap (λ (x : ℕ). level (page x)) e ∙ r.apart)))
        ∙ r.same u j lu lj;
  }

  -- A page taken next is ready to be filled.
  pub Ready-taken :
      (d : ℕ) (s : Machine) → Ready d s → (p : Supplied s.pmm) → Ready p.first (taken s)
  Ready-taken d s r p =
      let k = Kept-taken d s r.holds.valid r.holds.small p in
      record {
        holds = Holds-taken d s r.holds.valid r.holds.small p;
        apart = elim (eq_cases (level (page p.first)) 0) [
          | inl e ↦ e
          | inr ne ↦
              let h = r.held p.first (supplied_small d s r.holds.valid r.holds.small p) ne in
              absurd (ground (arith, h, supplied_free d s r.holds.valid r.holds.small p))
        ];
        held = λ m lm lv. k.locked_on m (r.held m lm lv);
        same = r.same;
      }

  -- `t` is `s` after the table `src` was copied to the one at frame `d`.
  pub record Copies (below d src : ℕ) (s t : Machine) : Type 0 where
    pub kept : Kept d (tables below src source) s t
    pub copied : Copied below (Fresh s t) source t.ram d src
    pub spared :
        (j : ℕ)
        → j < 512
        → 1 ≤ below
        → (entries (below + 1) ≤ j) ⊎ (present (source (slot src j)) ≡ false)
        → t.ram (slot (page d) j) ≡ s.ram (slot (page d) j)

  -- Entry `i` alone was copied, with what is below it.
  pub record Step (below d src i : ℕ) (s t : Machine) : Type 0 where
    pub kept : Kept d (tables_at below src source i) s t
    pub link :
        present (source (slot src i)) ≡ true
        → Linked (Copied below (Fresh s t) source t.ram) (Fresh s t) t.ram d i (source (slot src i))
    pub spared :
        (j : ℕ)
        → j < 512
        → (j ≢ i) ⊎ (present (source (slot src i)) ≡ false)
        → t.ram (slot (page d) j) ≡ s.ram (slot (page d) j)

  abbrev pub round : (below dst src i : ℕ) → Machine → Machine
  round below dst src i s1 = elim (present (s1.ram (slot src i))) [
    | true ↦
        (let (new_dst, s2) = palloc 1 s1 in
          link_copy dst src i new_dst
            (paging_copy_recursive below new_dst (table_of (s1.ram (slot src i))) s2))
    | false ↦ s1
  ]

  module _ (below d src i : ℕ) (s : Machine) (lt : level src ≢ 0) (it : i < 512)
      (r : Ready d s) where
    pub Step-absent :
        present (source (slot src i)) ≡ false → Step below d src i s (round below (page d) src i s)
    Step-absent e =
        rw (r.same src i lt it, e, round)
          (record {
            kept = rw (e, tables_at) (Kept-refl d s r.holds.valid);
            link = λ p. absurd (ground arith);
            spared = λ j lj ne. refl;
          })

    module _ (p : Supplied s.pmm) (t : Machine) where
      abbrev linked : Machine
      linked = link_copy (page d) src i (page p.first) t

      first_free : locked s.pmm p.first ≡ false
      first_free = supplied_free d s r.holds.valid r.holds.small p

      not_first : d ≢ p.first
      not_first e = ground (arith, ap (locked s.pmm) e, r.holds.held, first_free)

      taken-Kept : Kept d 1 s (taken s)
      taken-Kept = Kept-taken d s r.holds.valid r.holds.small p

      linked-word :
          (m j : ℕ) → j < 512 → m ≢ d → linked.ram (slot (page m) j) ≡ t.ram (slot (page m) j)
      unfolding link_copy
      linked-word m j lj ne = ground arith

      Kept-linked : (n : ℕ) → Kept p.first n (taken s) t → Kept d (1 + n) s linked
      unfolding link_copy
      Kept-linked n k =
          subst (λ (x : ℕ). Kept d x s linked) {x = 1 + n + 0} {y = 1 + n} (omega arith)
            (Kept-trans d (1 + n) 0 s t linked
              (Kept-fresh d p.first 1 n s (taken s) t first_free taken-Kept k)
              (Kept-written d t linked k.valid (λ m j lm lj ne. linked-word m j lj ne) refl))

      linked-entry :
          (n : ℕ)
          → Kept p.first n (taken s) t
          → linked.ram (slot (page d) i) ≡ copy_entry p.first (source (slot src i))
      unfolding link_copy copy_entry
      linked-entry n k =
          let r2 = Kept-Ready p.first n (taken s) t k (Ready-taken d s r p) in
          ground (arith, r2.same src i lt it)

      linked_below :
          Copies below p.first (table_of (source (slot src i))) (taken s) t
          → Copied below (Fresh s linked) source linked.ram p.first (table_of (source (slot src i)))
      unfolding link_copy
      linked_below c =
          Copied-keep below (Fresh (taken s) t) (Fresh s linked) source t.ram linked.ram p.first
            (table_of (source (slot src i)))
            (λ m lm f. (ground (arith, f, taken-Kept.locked_on m), f.1))
            (λ m j lm f lj. linked-word m j lj (λ e.
              ground (arith, ap (locked (taken s).pmm) e, f, taken-Kept.locked_on d r.holds.held)))
            (λ j lj. linked-word p.first j lj (λ e. not_first (sym e))) c.copied

      linked_spared :
          (n j : ℕ)
          → Kept p.first n (taken s) t
          → j < 512
          → j ≢ i
          → linked.ram (slot (page d) j) ≡ s.ram (slot (page d) j)
      unfolding link_copy
      linked_spared n j k lj ne =
          ground
            (arith, k.frame d j r.holds.here lj (taken-Kept.locked_on d r.holds.held) not_first)

      Step-linked :
          present (source (slot src i)) ≡ true
          → Copies below p.first (table_of (source (slot src i))) (taken s) t
          → Step below d src i s linked
      unfolding link_copy
      Step-linked e c = record {
        kept =
            rw (e, tables_at)
              (Kept-linked (tables below (table_of (source (slot src i))) source) c.kept);
        link = λ there. record {
          frame = p.first;
          small = supplied_small d s r.holds.valid r.holds.small p;
          own = (
            first_free,
            c.kept.locked_on p.first (Holds-taken d s r.holds.valid r.holds.small p).held,
          );
          points = linked-entry _ c.kept;
          below = linked_below c;
        };
        spared = λ j lj ne. elim ne [
          | inl other ↦ linked_spared _ j c.kept lj other
          | inr gone ↦ absurd (ground arith)
        ];
      }

      pub Step-present :
          present (source (slot src i)) ≡ true
          → t
            ≡ paging_copy_recursive below (page p.first) (table_of (source (slot src i))) (taken s)
          → Copies below p.first (table_of (source (slot src i))) (taken s) t
          → Step below d src i s (round below (page d) src i s)
      Step-present e same c = subst (Step below d src i s) (sym is_linked) (Step-linked e c)
        where
          deeper : ℕ × Machine → Machine
          deeper q =
              link_copy (page d) src i q.0
                (paging_copy_recursive below q.0 (table_of (source (slot src i))) q.1)

          is_linked : round below (page d) src i s ≡ linked
          is_linked =
              rw (r.same src i lt it, e, round)
                (rw (r.same src i lt it) (
                  ap deeper (palloc_lem d s r.holds.valid r.holds.small p)
                  ∙ ap (link_copy (page d) src i (page p.first)) (sym same)))
