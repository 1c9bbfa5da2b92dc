-- ===== src/Memory/Paging/Descend.antt =====
-- One round of the loop of `paging_map` (paging.c): with a page to be had, the next table is there
-- afterwards, and the machine stays in order.
use shed_os.Base.{
  ℕ, suc, ◌+◌, ◌*◌, ◌^◌, ◌<◌, ◌≤◌, ◌≡◌, ◌≢◌, ◌⊎◌, refl, sym, ap, subst, ◌∙◌, true, false, arith,
  inl, inr, Bool-cases, eq_cases, update,
}
use shed_os.Memory.Addr.{addr_offset_higher}
use shed_os.Memory.Pmm.{Pmm, pmm_request_pages}
use shed_os.Memory.Pmm.Lock.{locked}
use shed_os.Memory.Pmm.Valid.{IsValid, page_total, request-IsValid}
use shed_os.Memory.Pmm.Supply.{InRange-one, one_less_lem}
use shed_os.Memory.Paging.Leaves.{Leaves, Leaves-refl}
use shed_os.Memory.Pmm.Request.{Granted, granted, refused, request-Outcome}
use shed_os.Memory.Paging.{
  Machine, present, huge, slot, table_of, new_entry, zero_page, palloc, descend,
}
use shed_os.Memory.Paging.Entry.{
  page, offset_higher-page, table_of-page, new_entry-present, new_entry-huge, table_of-new_entry,
}
use shed_os.Memory.Paging.Tree.{IsTree}
use shed_os.Memory.Paging.Extends.{Extends, Extends-refl}
use shed_os.Memory.Paging.Grow.{
  grown_level, grown_parent, grown-IsTree, grown-Extends, HugeFree-fresh,
}
use shed_os.Memory.Paging.Walk.{HugeFree, walk, Indices}

-- A machine whose tables below `root` are a tree of pages that the page manager holds.
pub record IsMachine (root : ℕ) (level parent : ℕ → ℕ) (s : Machine) : Type 0 where
  pub tree : IsTree root level parent s.ram
  pub pmm : IsValid s.pmm
  pub small : page_total s.pmm ≤ 2 ^ 35
  pub held : (m : ℕ) → m < 2 ^ 35 → level (page m) ≢ 0 → locked s.pmm m ≡ true

-- What a round leaves behind for the slot `i` of `t`; `level'` and `parent'` describe the new tree.
pub record Descended (root : ℕ) (level : ℕ → ℕ) (s : Machine) (t i : ℕ) (out : ℕ × Machine)
    : Type 0 where
  pub level' : ℕ → ℕ
  pub parent' : ℕ → ℕ
  pub machine : IsMachine root level' parent' out.1
  pub extends : Extends level level' s.ram out.1.ram
  pub below : level' out.0 + 1 ≡ level t
  pub there : present (out.1.ram (slot t i)) ≡ true
  pub plain : huge (out.1.ram (slot t i)) ≡ false
  pub link : table_of (out.1.ram (slot t i)) ≡ out.0
  pub walks :
      (l : ℕ) (ix : ℕ → ℕ)
      → Indices ix
      → ix (suc l) ≡ i
      → HugeFree (walk (suc l) ix t s.ram)
      → HugeFree (walk l ix out.0 out.1.ram)
  pub leaves : Leaves level level' 1 s out.1
  pub pages : (out.1.pmm ≡ s.pmm) ⊎ (out.1.pmm ≡ (pmm_request_pages 1 s.pmm).1)

module _ {root : ℕ} {level parent : ℕ → ℕ} {s : Machine} (ok : IsMachine root level parent s)
    (v t i : ℕ) (it : i < 512) (high : 2 ≤ level t) where
  walks_present :
      (l : ℕ) (ix : ℕ → ℕ)
      → ix (suc l) ≡ i
      → present (s.ram (slot t i)) ≡ true
      → huge (s.ram (slot t i)) ≡ false
      → HugeFree (walk (suc l) ix t s.ram)
      → HugeFree (walk l ix (table_of (s.ram (slot t i))) s.ram)
  unfolding walk
  walks_present l ix e p h free = subst HugeFree down free
    where
      down : walk (suc l) ix t s.ram ≡ walk l ix (table_of (s.ram (slot t i))) s.ram
      down = ground (arith, e, p, h)

  descend-present :
      present (s.ram (slot t i)) ≡ true
      → huge (s.ram (slot t i)) ≡ false
      → Descended root level s t i (descend v i t s)
  unfolding descend
  descend-present p h = rw p (record {
    level' = level;
    parent' = parent;
    machine = ok;
    extends = Extends-refl level s.ram;
    below = ok.tree.child_level t i it high p h;
    there = p;
    plain = h;
    link = refl;
    walks = λ l ix li e free. walks_present l ix e p h free;
    leaves = Leaves-refl level 1 s;
    pages = inl refl;
  })

  -- The machine after a fresh table at frame `m` was entered.
  abbrev made : ℕ → Machine
  made child = record s {
    ram = update (zero_page child s.ram) (slot t i) (new_entry v child);
    pmm = (pmm_request_pages 1 s.pmm).1;
  }

  descend_absent :
      (m : ℕ)
      → m < 2 ^ 35
      → present (s.ram (slot t i)) ≡ false
      → (pmm_request_pages 1 s.pmm).0 ≡ 0x1000 * m
      → descend v i t s ≡ (page m, made (page m))
  unfolding descend palloc
  descend_absent m small p e = rw p (
      subst (λ (c : ℕ). ◌≡◌ {A = ℕ × Machine} (table_of c, made c) (page m, made (page m))) (sym at)
        (ap (λ (x : ℕ). (x, made (page m))) (table_of-page m small)))
    where
      at : addr_offset_higher (pmm_request_pages 1 s.pmm).0 ≡ page m
      at = ap addr_offset_higher e ∙ offset_higher-page m small

  fresh_page : (m : ℕ) {u : Pmm} → m < 2 ^ 35 → Granted 1 m s.pmm u → level (page m) ≡ 0
  fresh_page m small g = elim (eq_cases (level (page m)) 0) [
    | inl e ↦ e
    | inr ne ↦ ground (arith, ok.held m small ne, g.was_free m)
  ]

  made_outside :
      (m : ℕ)
      → present (s.ram (slot t i)) ≡ false
      → Granted 1 m s.pmm (pmm_request_pages 1 s.pmm).1
      → (k j : ℕ) → k < 2 ^ 35
      → j < 512
      → locked s.pmm k ≡ true
      → level (page k) ≡ 0
      → (made (page m)).ram (slot (page k) j) ≡ s.ram (slot (page k) j)
  unfolding zero_page
  made_outside m p g k j lk lj lv none_at =
      let (f, small, at) = ok.tree.frame t (omega (arith, high)) in
      let apart : k ≢ m = λ e. ground (arith, g.was_free m, ap (locked s.pmm) e) in
      let other : k ≢ f =
        λ e. omega (arith, high, none_at, ap (λ (x : ℕ). level (page x)) e, ap level at) in
      ground arith

  Descended-fresh :
      (m : ℕ)
      → present (s.ram (slot t i)) ≡ false
      → Granted 1 m s.pmm (pmm_request_pages 1 s.pmm).1
      → Descended root level s t i (page m, made (page m))
  Descended-fresh m p g = record {
    level' = grown_level ok.tree t i m e it high p small fresh there plain link;
    parent' = grown_parent ok.tree t i m e it high p small fresh there plain link;
    machine = record {
      tree = grown-IsTree ok.tree t i m e it high p small fresh there plain link;
      pmm = request-IsValid 1 s.pmm ok.pmm (InRange-one s.pmm ok.pmm);
      small = ground (arith, ok.small, g.total);
      held = λ k lk lv. ground (arith, g.bits k, ok.held k lk);
    };
    extends = grown-Extends ok.tree t i m e it high p small fresh there plain link;
    below = ground arith;
    there = rw self there;
    plain = rw self plain;
    link = rw self link;
    walks = λ l ix li at free.
        HugeFree-fresh ok.tree t i m e it high p small fresh there plain link l ix li;
    leaves = record {
      outside = λ k lk lv none_at.
          (ground (arith, g.was_free m), λ j lj. made_outside m p g k j lk lj lv none_at);
      above = λ u j lj lu present_at.
          let x = grown-Extends ok.tree t i m e it high p small fresh there plain link in
          (x.keeps_level u (omega (arith, lu)), x.keeps_entry u j lj lu present_at);
      locked_on = λ k h. ground (arith, g.bits k);
      budget = omega (arith, one_less_lem m s.pmm _ g);
      table = refl;
    };
    pages = inr refl;
  }
    where
      small : m < 2 ^ 35
      small = ground (arith, g.in_memory, ok.small)

      e : ℕ
      e = new_entry v (page m)

      self : (made (page m)).ram (slot t i) ≡ e
      self = ground arith

      fresh : level (page m) ≡ 0
      fresh = fresh_page m small g

      there : present e ≡ true
      there = new_entry-present m small v

      plain : huge e ≡ false
      plain = new_entry-huge m small v

      link : table_of e ≡ page m
      link = table_of-new_entry m small v

  -- A round on a slot that holds no huge page, with a page to be had, makes or finds the next table.
  pub descend_lem :
      (present (s.ram (slot t i)) ≡ true → huge (s.ram (slot t i)) ≡ false)
      → (pmm_request_pages 1 s.pmm).0 ≢ 0
      → Descended root level s t i (descend v i t s)
  descend_lem plain had = elim (Bool-cases (present (s.ram (slot t i)))) [
    | inl p ↦ descend-present p (plain p)
    | inr p ↦ elim (request-Outcome 1 s.pmm ok.pmm.bytes (InRange-one s.pmm ok.pmm)) [
      | granted m at g ↦
          subst (Descended root level s t i)
            (sym (descend_absent m (ground (arith, g.in_memory, ok.small)) p at))
            (Descended-fresh m p g)
      | refused same no_run ↦ absurd (had (ap (λ (o : ℕ × Pmm). o.0) same))
    ]
  ]
