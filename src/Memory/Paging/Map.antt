-- ===== src/Memory/Paging/Map.antt =====
-- The loop of `paging_map` (paging.c): the last table is reached, and what a write to one of its slots
-- leaves alone.
use shed_os.Base.{
  ℕ, zero, suc, ◌+◌, ◌<◌, ◌≤◌, ◌≡◌, ◌≢◌, ◌⊎◌, refl, sym, ap, subst, true, false, arith, inl, inr,
  update, ne→==,
}
use shed_os.Memory.Pmm.{Pmm, pmm_request_pages}
use shed_os.Memory.Pmm.Lock.{locked}
use shed_os.Memory.Pmm.Valid.{IsValid, request-IsValid}
use shed_os.Memory.Pmm.Supply.{available, Supplied, supply_lem, InRange-one}
use shed_os.Memory.Paging.{
  Machine, present, huge, slot, table_of, descend, map_walk, vaddr_to_index,
}
use shed_os.Memory.Paging.Entry.{vaddr_to_index-lt}
use shed_os.Memory.Paging.Tree.{IsTree, slot_injective}
use shed_os.Memory.Paging.Walk.{
  Walk, hit, absent, big, walk, read, HugeFree, Indices, walk_same, HugeFree-slot,
}
use shed_os.Memory.Paging.Extends.{Extends, Extends-refl, Extends-trans}
use shed_os.Memory.Paging.Leaves.{Leaves, Leaves-refl, Leaves-trans}
use shed_os.Memory.Paging.Descend.{IsMachine, Descended, descend_lem}

-- The next `n` requests of one page are not answered by NULL.
abbrev pub CanRequest : ℕ → Pmm → Type 0
CanRequest zero s = Unit {0}
CanRequest (suc n) s = ((pmm_request_pages 1 s).0 ≢ 0) × CanRequest n (pmm_request_pages 1 s).1

CanRequest-pred : (n : ℕ) (s : Pmm) → CanRequest (suc n) s → CanRequest n s
CanRequest-pred zero s c = tt
CanRequest-pred (suc n) s c = (c.0, CanRequest-pred n (pmm_request_pages 1 s).1 c.1)

-- With page 0 held, so that no page handed out is NULL, single pages are there while they are available.
pub CanRequest-available :
    (n : ℕ) (s : Pmm) → IsValid s → locked s 0 ≡ true → n ≤ available s → CanRequest n s
CanRequest-available zero s v z le = tt
CanRequest-available (suc n) s v z le =
    let p = supply_lem s v (omega arith) in
    (
      λ e. nonzero p e,
      CanRequest-available n (pmm_request_pages 1 s).1 (request-IsValid 1 s v (InRange-one s v))
          (ground (arith, p.grant.bits 0)) (omega (arith, p.one_less)),
    )
  where
    nonzero : Supplied s → (pmm_request_pages 1 s).0 ≢ 0
    nonzero p e =
        let first_zero : p.first ≡ 0 = omega (arith, p.at) in
        ground (arith, p.grant.was_free p.first, first_zero)

-- The tables down to the last one, reached from `t`, are there.
pub record Reached (root : ℕ) (level : ℕ → ℕ) (s : Machine) (l v t : ℕ) (out : ℕ × Machine)
    : Type 0 where
  pub level' : ℕ → ℕ
  pub parent' : ℕ → ℕ
  pub machine : IsMachine root level' parent' out.1
  pub extends : Extends level level' s.ram out.1.ram
  pub leaves : Leaves level level' l s out.1
  pub leaf : level' out.0 ≡ 1
  pub reaches : walk l (vaddr_to_index v) t out.1.ram ≡ hit (slot out.0 (vaddr_to_index v 0))

via_table :
    (l : ℕ) (ix : ℕ → ℕ) (t : ℕ) (ram : ℕ → ℕ) (c a x : ℕ)
    → ram (slot t (ix (suc l))) ≡ x
    → present x ≡ true
    → huge x ≡ false
    → table_of x ≡ c
    → walk l ix c ram ≡ hit a
    → walk (suc l) ix t ram ≡ hit a
unfolding walk
via_table l ix t ram c a x e p h link below = ground (arith, e, p, h, link, below)

pub map_walk_lem :
    (l v t : ℕ) {root : ℕ} {level parent : ℕ → ℕ} (s : Machine)
    → IsMachine root level parent s
    → level t ≡ suc l
    → HugeFree (walk l (vaddr_to_index v) t s.ram)
    → CanRequest l s.pmm
    → Reached root level s l v t (map_walk l v t s)
unfolding map_walk walk
map_walk_lem zero v t {level} {parent} s ok lt free can = record {
  level' = level;
  parent' = parent;
  machine = ok;
  extends = Extends-refl level s.ram;
  leaves = Leaves-refl level 0 s;
  leaf = lt;
  reaches = refl;
}
map_walk_lem (suc l) v t {root} {level} {parent} s ok lt free can = joined d (
    map_walk_lem l v child s1 d.machine (omega (arith, d.below))
      (d.walks l ix (vaddr_to_index-lt v) refl free) (supply d.pages))
  where
    ix : ℕ → ℕ
    ix = vaddr_to_index v

    child : ℕ
    child = (descend v (ix (suc l)) t s).0

    s1 : Machine
    s1 = (descend v (ix (suc l)) t s).1

    d : Descended root level s t (ix (suc l)) (descend v (ix (suc l)) t s)
    d =
        descend_lem ok v t (ix (suc l)) (vaddr_to_index-lt v (suc l)) (omega arith)
          (HugeFree-slot l ix t s.ram free) can.0

    supply : (s1.pmm ≡ s.pmm) ⊎ (s1.pmm ≡ (pmm_request_pages 1 s.pmm).1) → CanRequest l s1.pmm
    supply (inl e) = subst (CanRequest l) (sym e) (CanRequest-pred l s.pmm can)
    supply (inr e) = subst (CanRequest l) (sym e) can.1

    joined :
        (d : Descended root level s t (ix (suc l)) (descend v (ix (suc l)) t s))
        → Reached root d.level' s1 l v child (map_walk l v child s1)
        → Reached root level s (suc l) v t (map_walk l v child s1)
    joined d r = record {
      level' = r.level';
      parent' = r.parent';
      machine = r.machine;
      extends = Extends-trans level d.level' r.level' _ _ _ d.extends r.extends;
      leaves =
          subst (λ (n : ℕ). Leaves level r.level' n s (map_walk l v child s1).1) {x = 1 + l}
            {y = suc l} (omega arith)
            (Leaves-trans level d.level' r.level' 1 l s s1 _ d.leaves r.leaves);
      leaf = r.leaf;
      reaches =
          via_table l ix t _ child _ _
            (r.extends.keeps_entry t (ix (suc l)) (vaddr_to_index-lt v (suc l))
              (omega (arith, d.extends.keeps_level t (omega arith))) d.there)
            d.there d.plain d.link r.reaches;
    }

-- A write to a slot of a table of level 1 keeps the tree, and every walk.
module _ {root : ℕ} {level parent : ℕ → ℕ} {ram : ℕ → ℕ} (tree : IsTree root level parent ram)
    (leaf i x : ℕ) (lt : level leaf ≡ 1) (it : i < 512) where
  abbrev pub written : ℕ → ℕ
  written = update ram (slot leaf i) x

  pub written_above : (u j : ℕ) → 2 ≤ level u → j < 512 → written (slot u j) ≡ ram (slot u j)
  written_above u j lu lj = rw (ne→== (slot u j) (slot leaf i) apart)
    where
      apart : slot u j ≢ slot leaf i
      apart e = ground (arith, slot_injective tree u leaf j i (omega arith) (omega arith) lj it e)

  pub written-IsTree : IsTree root level parent written
  written-IsTree = record {
    top = tree.top;
    frame = tree.frame;
    child_level =
        λ u j lj lu p h. ground (arith, written_above u j lu lj, tree.child_level u j lj lu);
    child_parent =
        λ u j lj lu p h. ground (arith, written_above u j lu lj, tree.child_parent u j lj lu);
  }

  pub written-walk :
      (l : ℕ) (ix : ℕ → ℕ) (u : ℕ)
      → Indices ix
      → level u ≡ suc l
      → walk l ix u written ≡ walk l ix u ram
  written-walk l ix u li lu = walk_same tree written l ix u written_above li lu

  -- A walk that ends elsewhere reads what it read.
  pub written-read : (w : Walk) → (w ≢ hit (slot leaf i)) → read w written ≡ read w ram
  written-read (hit a) ne = rw (ne→== a (slot leaf i) (λ e. ne (ap hit e)))
  written-read absent ne = refl
  written-read (big v) ne = refl
