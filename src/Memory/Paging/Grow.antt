-- ===== src/Memory/Paging/Grow.antt =====
-- The tree of tables after `paging_map` (paging.c) has entered a fresh, empty table.
use shed_os.Base.{
  ℕ, zero, suc, ◌+◌, ◌-◌, ◌^◌, ◌<◌, ◌≤◌, ◌≡◌, ◌≢◌, sym, ap, subst, ◌∙◌, true, false, arith, inl,
  inr, eq_cases, update, Bool-cases,
}
use shed_os.Memory.Paging.{present, huge, slot, table_of, zero_page}
use shed_os.Memory.Paging.Entry.{page}
use shed_os.Memory.Paging.Tree.{IsTree, slot_injective, slot_outside}
use shed_os.Memory.Paging.Walk.{
  absent, HugeFree, walk, read, Indices, walk_down, walk_none, HugeFree-slot,
}
use shed_os.Memory.Paging.Extends.{Extends}

HugeFree-leaf : (ix : ℕ → ℕ) (u : ℕ) (r : ℕ → ℕ) → HugeFree (walk 0 ix u r)
unfolding walk
HugeFree-leaf ix u r = tt

-- One step of a walk that meets no huge page, in memory with the same entry.
HugeFree-below :
    (l : ℕ) (ix : ℕ → ℕ) (u : ℕ) (r r' : ℕ → ℕ)
    → r' (slot u (ix (suc l))) ≡ r (slot u (ix (suc l)))
    → HugeFree (walk (suc l) ix u r)
    → (present (r (slot u (ix (suc l)))) ≡ true
        → huge (r (slot u (ix (suc l)))) ≡ false
        → HugeFree (walk l ix (table_of (r (slot u (ix (suc l))))) r)
        → HugeFree (walk l ix (table_of (r (slot u (ix (suc l))))) r'))
    → HugeFree (walk (suc l) ix u r')
HugeFree-below l ix u r r' same free go = elim (Bool-cases (present (r (slot u (ix (suc l)))))) [
  | inl p ↦
      let h = HugeFree-slot l ix u r free p in
      let down = walk_down l ix u r p h in
      let down' =
        walk_down l ix u r' (ap present same ∙ p) (ap huge same ∙ h)
        ∙ ap (λ (x : ℕ). walk l ix (table_of x) r') same in
      subst HugeFree (sym down') (go p h (subst HugeFree down free))
  | inr p ↦ subst HugeFree (sym (walk_none l ix u r' (ap present same ∙ p))) tt
]

-- A fresh table at frame `m`, entered in the absent slot `i` of `t`.
module _ {root : ℕ} {level parent : ℕ → ℕ} {ram : ℕ → ℕ} (tree : IsTree root level parent ram)
    (t i m entry : ℕ) (it : i < 512) (high : 2 ≤ level t) (gone : present (ram (slot t i)) ≡ false)
    (small : m < 2 ^ 35) (fresh : level (page m) ≡ 0) (p : present entry ≡ true)
    (h : huge entry ≡ false) (at : table_of entry ≡ page m) where
  abbrev pub grown : ℕ → ℕ
  grown = update (zero_page (page m) ram) (slot t i) entry

  abbrev pub grown_level : ℕ → ℕ
  grown_level = update level (page m) (level t - 1)

  abbrev pub grown_parent : ℕ → ℕ
  grown_parent = update parent (page m) (slot t i)

  not_fresh : (u : ℕ) → level u ≢ 0 → u ≢ page m
  not_fresh u lu e = lu (ap level e ∙ fresh)

  -- What stands in the slots of a table that was there before.
  pub grown-slot :
      (u j : ℕ) → level u ≢ 0 → j < 512 → (slot u j ≢ slot t i) → grown (slot u j) ≡ ram (slot u j)
  unfolding zero_page
  grown-slot u j lu lj ne = ground (arith, slot_outside tree u j m lu lj (not_fresh u lu))

  pub grown_self : grown (slot t i) ≡ entry
  grown_self = ground arith

  pub grown_fresh : (j : ℕ) → j < 512 → grown (slot (page m) j) ≡ 0
  unfolding zero_page
  grown_fresh j lj =
      ground (arith, slot_outside tree t i m (omega arith) it (not_fresh t (omega arith)))

  pub grown_level_old : (u : ℕ) → level u ≢ 0 → grown_level u ≡ level u
  grown_level_old u lu = ground (arith, not_fresh u lu)

  grown_parent_old : (u : ℕ) → level u ≢ 0 → grown_parent u ≡ parent u
  grown_parent_old u lu = ground (arith, not_fresh u lu)

  -- `x` in slot `j` of `u` points one level down and back.
  abbrev Points : (u j x : ℕ) → Type 0
  Points u j x =
      (grown_level (table_of x) + 1 ≡ grown_level u) × (grown_parent (table_of x) ≡ slot u j)

  Points-fresh : (u j : ℕ) → level u ≢ 0 → j < 512 → slot u j ≡ slot t i → Points u j entry
  Points-fresh u j lu lj e =
      let (same, index) = slot_injective tree u t j i lu (omega arith) lj it e in
      (ground (arith, at, same, grown_level_old u lu), ground (arith, at))

  Points-old :
      (u j : ℕ)
      → level u ≢ 0
      → j < 512
      → 2 ≤ level u
      → present (ram (slot u j)) ≡ true
      → huge (ram (slot u j)) ≡ false
      → Points u j (ram (slot u j))
  Points-old u j lu lj high' there plain =
      let down = tree.child_level u j lj high' there plain in
      let up = tree.child_parent u j lj high' there plain in
      (
        omega (
          arith,
          down,
          grown_level_old u lu,
          grown_level_old (table_of (ram (slot u j))) (omega arith),
        ),
        grown_parent_old (table_of (ram (slot u j))) (omega arith) ∙ up,
      )

  -- The table below a slot of the grown tree: the fresh one below `t`'s slot `i`, or an old one.
  grown_child :
      (u j : ℕ)
      → j < 512
      → 2 ≤ grown_level u
      → present (grown (slot u j)) ≡ true
      → huge (grown (slot u j)) ≡ false
      → Points u j (grown (slot u j))
  grown_child u j lj high' there plain = elim (eq_cases u (page m)) [
    | inl e ↦ absurd (ground (arith, e, grown_fresh j lj))
    | inr old ↦
        let lu : level u ≢ 0 = ground (arith, old) in
        elim (eq_cases (slot u j) (slot t i)) [
          | inl e ↦ subst (Points u j) (sym (ap grown e ∙ grown_self)) (Points-fresh u j lu lj e)
          | inr ne ↦
              let g = grown-slot u j lu lj ne in
              subst (Points u j) (sym g)
                (Points-old u j lu lj (ground (arith, old)) (rw g at there) (rw g at plain))
        ]
  ]

  pub grown-IsTree : IsTree root grown_level grown_parent grown
  grown-IsTree = record {
    top = grown_level_old root (ground (arith, tree.top)) ∙ tree.top;
    frame = λ u lu. elim (eq_cases u (page m)) [
      | inl e ↦ (m, small, e)
      | inr old ↦ tree.frame u (ground (arith, old))
    ];
    child_level = λ u j lj high' there plain. (grown_child u j lj high' there plain).0;
    child_parent = λ u j lj high' there plain. (grown_child u j lj high' there plain).1;
  }

  -- A walk that starts in the fresh table reads 0.
  read_fresh : (l : ℕ) (ix : ℕ → ℕ) → Indices ix → read (walk l ix (page m) grown) grown ≡ 0
  unfolding walk
  read_fresh zero ix li = grown_fresh (ix 0) (li 0)
  read_fresh (suc l) ix li = ground (arith, grown_fresh (ix (suc l)) (li (suc l)))

  -- Nor does it meet a huge page.
  pub HugeFree-fresh : (l : ℕ) (ix : ℕ → ℕ) → Indices ix → HugeFree (walk l ix (page m) grown)
  unfolding walk
  HugeFree-fresh zero ix li = tt
  HugeFree-fresh (suc l) ix li = subst HugeFree (sym none_below) tt
    where
      none_below : walk (suc l) ix (page m) grown ≡ absent
      none_below = ground (arith, grown_fresh (ix (suc l)) (li (suc l)))

  via-fresh :
      (l : ℕ) (ix : ℕ → ℕ) (u : ℕ)
      → slot u (ix (suc l)) ≡ slot t i
      → walk (suc l) ix u grown ≡ walk l ix (page m) grown
  unfolding walk
  via-fresh l ix u e = ground (arith, e, ap grown e, grown_self)

  read-grown :
      (l : ℕ) (ix : ℕ → ℕ) (u : ℕ)
      → Indices ix
      → level u ≡ suc l
      → read (walk l ix u grown) grown ≡ read (walk l ix u ram) ram
  unfolding walk
  read-grown zero ix u li lu = grown-slot u (ix 0) (omega arith) (li 0) apart
    where
      apart : slot u (ix 0) ≢ slot t i
      apart e =
          let same = slot_injective tree u t (ix 0) i (omega arith) (omega arith) (li 0) it e in
          ground (arith, same)
  read-grown (suc l) ix u li lu = elim (eq_cases (slot u (ix (suc l))) (slot t i)) [
    | inl e ↦ ground (arith, e, ap grown e, ap ram e, grown_self, read_fresh l ix li)
    | inr ne ↦ ground (
      arith,
      grown-slot u (ix (suc l)) (omega arith) (li (suc l)) ne,
      tree.child_level u (ix (suc l)) (li (suc l)) (omega arith),
      read-grown l ix (table_of (ram (slot u (ix (suc l))))) li,
    )
  ]

  -- The walk that passed the absent entry goes on in the fresh table, the others are as before.
  plain-grown :
      (l : ℕ) (ix : ℕ → ℕ) (u : ℕ)
      → Indices ix
      → level u ≡ suc l
      → HugeFree (walk l ix u ram)
      → HugeFree (walk l ix u grown)
  plain-grown zero ix u li lu free = HugeFree-leaf ix u grown
  plain-grown (suc l) ix u li lu free = elim (eq_cases (slot u (ix (suc l))) (slot t i)) [
    | inl e ↦ subst HugeFree (sym (via-fresh l ix u e)) (HugeFree-fresh l ix li)
    | inr ne ↦
        let same = grown-slot u (ix (suc l)) (omega arith) (li (suc l)) ne in
        HugeFree-below l ix u ram grown same free (λ there plain below.
          plain-grown l ix (table_of (ram (slot u (ix (suc l))))) li
            (omega (arith, tree.child_level u (ix (suc l)) (li (suc l)) (omega arith) there plain))
            below)
  ]

  pub grown-Extends : Extends level grown_level ram grown
  grown-Extends = record {
    keeps_level = grown_level_old;
    keeps_entry =
        λ u j lj high' there. grown-slot u j (omega arith) lj (λ e. ground (arith, ap ram e));
    keeps_read = read-grown;
    keeps_plain = plain-grown;
  }
