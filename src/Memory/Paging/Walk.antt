-- ===== src/Memory/Paging/Walk.antt =====
-- The walk of `paging_get` (paging.c) down the tables: what it ends at, and that two walks that end at
-- one slot took the same way.
use shed_os.Base.{
  ℕ, zero, suc, ◌<◌, ◌≤◌, ◌≡◌, refl, sym, ap, subst, ◌∙◌, true, false, not, if◌then◌else◌, arith,
  inl, inr, eq_cases, update, Bool-cases,
}
use shed_os.Memory.Paging.{present, huge, slot, table_of, get_walk, vaddr_to_index}
use shed_os.Memory.Paging.Tree.{IsTree, slot_injective}

-- The slot of the last table, no table on the way, or a huge page on the way.
pub data Walk : Type 0 where
  hit : ℕ → Walk
  absent : Walk
  big : ℕ → Walk

unfoldable pub walk : ℕ → (ix : ℕ → ℕ) → (table : ℕ) → (ℕ → ℕ) → Walk
walk zero ix table ram = hit (slot table (ix 0))
walk (suc l) ix table ram =
    let child = ram (slot table (ix (suc l))) in
    let rest = walk l ix (table_of child) ram in
    if not (present child) then absent else if huge child then big child else rest

abbrev pub read : Walk → (ℕ → ℕ) → ℕ
read (hit a) ram = ram a
read absent ram = 0
read (big v) ram = v

-- No huge page was met.
abbrev pub HugeFree : Walk → Type 0
HugeFree (hit a) = Unit {0}
HugeFree absent = Unit {0}
HugeFree (big v) = ⊥

pub get_walk_lem :
    (l v table : ℕ) (ram : ℕ → ℕ)
    → get_walk l v table ram ≡ read (walk l (vaddr_to_index v) table ram) ram
unfolding get_walk walk
get_walk_lem zero v table ram = refl
get_walk_lem (suc l) v table ram =
    ground (arith, get_walk_lem l v (table_of (ram (slot table (vaddr_to_index v (suc l))))) ram)

-- A walk depends on no index above its level.
pub walk_agree :
    (l : ℕ) (ix jx : ℕ → ℕ) (t : ℕ) (ram : ℕ → ℕ)
    → ((k : ℕ) → k ≤ l → ix k ≡ jx k)
    → walk l ix t ram ≡ walk l jx t ram
unfolding walk
walk_agree zero ix jx t ram same = rw (same 0 (omega arith)) refl
walk_agree (suc l) ix jx t ram same =
    let e = same (suc l) (omega arith) in
    let rest =
      walk_agree l ix jx (table_of (ram (slot t (jx (suc l))))) ram
        (λ k le. same k (omega arith)) in
    ground (arith, e, rest)

-- A walk from the table in entry `i` of `t`, as a walk from `t`.
pub walk_via :
    (l : ℕ) (ix : ℕ → ℕ) (t i : ℕ) (ram : ℕ → ℕ)
    → present (ram (slot t i)) ≡ true
    → huge (ram (slot t i)) ≡ false
    → walk (suc l) (update ix (suc l) i) t ram ≡ walk l ix (table_of (ram (slot t i))) ram
unfolding walk
walk_via l ix t i ram p h =
    let rest =
      walk_agree l (update ix (suc l) i) ix (table_of (ram (slot t i))) ram
        (λ k le. ground arith) in
    ground (arith, rest)

abbrev pub Indices : (ℕ → ℕ) → Type 0
Indices ix = (k : ℕ) → ix k < 512

-- A step down, where the entry is a table.
pub walk_down :
    (l : ℕ) (ix : ℕ → ℕ) (t : ℕ) (ram : ℕ → ℕ)
    → present (ram (slot t (ix (suc l)))) ≡ true
    → huge (ram (slot t (ix (suc l)))) ≡ false
    → walk (suc l) ix t ram ≡ walk l ix (table_of (ram (slot t (ix (suc l))))) ram
unfolding walk
walk_down l ix t ram p h = ground arith

pub HugeFree-slot :
    (l : ℕ) (ix : ℕ → ℕ) (t : ℕ) (ram : ℕ → ℕ)
    → HugeFree (walk (suc l) ix t ram)
    → present (ram (slot t (ix (suc l)))) ≡ true
    → huge (ram (slot t (ix (suc l)))) ≡ false
unfolding walk
HugeFree-slot l ix t ram free p = elim (Bool-cases (huge (ram (slot t (ix (suc l)))))) [
  | inl h ↦ absurd (subst HugeFree (met h) free)
  | inr h ↦ h
]
  where
    met :
        huge (ram (slot t (ix (suc l)))) ≡ true
        → walk (suc l) ix t ram ≡ big (ram (slot t (ix (suc l))))
    met h = ground (arith, p, h)

pub walk_none :
    (l : ℕ) (ix : ℕ → ℕ) (t : ℕ) (ram : ℕ → ℕ)
    → present (ram (slot t (ix (suc l)))) ≡ false
    → walk (suc l) ix t ram ≡ absent
unfolding walk
walk_none l ix t ram p = rw p refl

-- A hit passed through a table.
pub hit_present :
    (l : ℕ) (ix : ℕ → ℕ) (t : ℕ) (ram : ℕ → ℕ) {a : ℕ}
    → walk (suc l) ix t ram ≡ hit a
    → (present (ram (slot t (ix (suc l)))) ≡ true)
      × (huge (ram (slot t (ix (suc l)))) ≡ false)
      × (walk l ix (table_of (ram (slot t (ix (suc l))))) ram ≡ hit a)
unfolding walk
hit_present l ix t ram e = (ground arith, ground arith, ground arith)

up_to_zero : (ix jx : ℕ → ℕ) → ix 0 ≡ jx 0 → (k : ℕ) → k ≤ 0 → ix k ≡ jx k
up_to_zero ix jx e zero le = e
up_to_zero ix jx e (suc k) le = absurd (omega arith)

up_to_suc :
    (ix jx : ℕ → ℕ) (l : ℕ)
    → ((k : ℕ) → k ≤ l → ix k ≡ jx k)
    → ix (suc l) ≡ jx (suc l)
    → (k : ℕ) → k ≤ suc l
    → ix k ≡ jx k
up_to_suc ix jx l below e k le = elim (eq_cases k (suc l)) [
  | inl last ↦ subst (λ (n : ℕ). ix n ≡ jx n) (sym last) e
  | inr other ↦ below k (omega arith)
]

module _ {root : ℕ} {level parent ram : ℕ → ℕ} (tree : IsTree root level parent ram) where
  -- A hit is a slot of a table of level 1.
  pub hit_leaf :
      (l : ℕ) (ix : ℕ → ℕ) (t a : ℕ)
      → Indices ix
      → level t ≡ suc l
      → walk l ix t ram ≡ hit a
      → (u : ℕ) × (level u ≡ 1) × (a ≡ slot u (ix 0))
  unfolding walk
  hit_leaf zero ix t a lt lv e = (t, lv, ground arith)
  hit_leaf (suc l) ix t a lt lv e =
      let (p, h, rest) = hit_present l ix t ram e in
      hit_leaf l ix (table_of (ram (slot t (ix (suc l))))) a lt
        (omega (arith, tree.child_level t (ix (suc l)) (lt (suc l)) (omega arith) p h)) rest

  pub walk_injective :
      (l : ℕ) (ix jx : ℕ → ℕ) (t u a : ℕ)
      → Indices ix
      → Indices jx
      → level t ≡ suc l
      → level u ≡ suc l
      → walk l ix t ram ≡ hit a
      → walk l jx u ram ≡ hit a
      → (t ≡ u) × ((k : ℕ) → k ≤ l → ix k ≡ jx k)
  unfolding walk
  walk_injective zero ix jx t u a li lj lt lu e f =
      let (same, index) =
        slot_injective tree t u (ix 0) (jx 0) (omega arith) (omega arith) (li 0) (lj 0)
          (ground arith) in
      (same, λ k le. up_to_zero ix jx index k le)
  walk_injective (suc l) ix jx t u a li lj lt lu e f =
      let (p, h, down) = hit_present l ix t ram e in
      let (q, g, down') = hit_present l jx u ram f in
      let (child, below) =
        walk_injective l ix jx (table_of (ram (slot t (ix (suc l)))))
          (table_of (ram (slot u (jx (suc l))))) a li lj
          (omega (arith, tree.child_level t (ix (suc l)) (li (suc l)) (omega arith) p h))
          (omega (arith, tree.child_level u (jx (suc l)) (lj (suc l)) (omega arith) q g)) down
          down' in
      let (same, index) =
        slot_injective tree t u (ix (suc l)) (jx (suc l)) (omega arith) (omega arith) (li (suc l))
          (lj (suc l))
          (sym (tree.child_parent t (ix (suc l)) (li (suc l)) (omega arith) p h)
            ∙ (ap parent child
                ∙ tree.child_parent u (jx (suc l)) (lj (suc l)) (omega arith) q g)) in
      (same, λ k le. up_to_suc ix jx l below index k le)

  -- A change of memory that spares the slots of all tables above level 1 changes no walk.
  pub walk_same :
      (ram' : ℕ → ℕ) (l : ℕ) (ix : ℕ → ℕ) (t : ℕ)
      → ((u j : ℕ) → 2 ≤ level u → j < 512 → ram' (slot u j) ≡ ram (slot u j))
      → Indices ix
      → level t ≡ suc l
      → walk l ix t ram' ≡ walk l ix t ram
  unfolding walk
  walk_same ram' zero ix t same li lt = refl
  walk_same ram' (suc l) ix t same li lt = ground (
    arith,
    same t (ix (suc l)) (omega arith) (li (suc l)),
    tree.child_level t (ix (suc l)) (li (suc l)) (omega arith),
    walk_same ram' l ix (table_of (ram (slot t (ix (suc l))))) same li,
  )
