-- ===== src/Memory/Paging/Tree.antt =====
-- The tables below one root as a tree: `level` gives each table its level (4 for the root, 1 for a
-- table of pages, 0 for what is no table) and `parent` the slot that points to it.
use shed_os.Base.{ℕ, ◌+◌, ◌^◌, ◌<◌, ◌≤◌, ◌≡◌, ◌≢◌, true, false, arith, ◌⊎◌}
use shed_os.Memory.Paging.{present, huge, slot, table_of}
use shed_os.Memory.Paging.Entry.{page}

pub record IsTree (root : ℕ) (level parent : ℕ → ℕ) (ram : ℕ → ℕ) : Type 0 where
  pub top : level root ≡ 4
  pub frame : (t : ℕ) → level t ≢ 0 → (m : ℕ) × (m < 2 ^ 35) × (t ≡ page m)
  pub child_level :
      (t i : ℕ)
      → i < 512
      → 2 ≤ level t
      → present (ram (slot t i)) ≡ true
      → huge (ram (slot t i)) ≡ false
      → level (table_of (ram (slot t i))) + 1 ≡ level t
  pub child_parent :
      (t i : ℕ)
      → i < 512
      → 2 ≤ level t
      → present (ram (slot t i)) ≡ true
      → huge (ram (slot t i)) ≡ false
      → parent (table_of (ram (slot t i))) ≡ slot t i

module _ {root : ℕ} {level parent ram : ℕ → ℕ} (tree : IsTree root level parent ram) where
  -- Slots of tables lie apart.
  pub slot_injective :
      (t u i j : ℕ)
      → level t ≢ 0
      → level u ≢ 0
      → i < 512
      → j < 512
      → slot t i ≡ slot u j
      → (t ≡ u) × (i ≡ j)
  slot_injective t u i j ht hu hi hj e =
      let (m, small, at) = tree.frame t ht in
      let (n, small', at') = tree.frame u hu in (omega arith, omega arith)

  -- A table that is not the one at frame `m` has no slot inside that frame.
  pub slot_outside :
      (t i m : ℕ)
      → level t ≢ 0
      → i < 512
      → t ≢ page m
      → (slot t i < page m) ⊎ (page m + 0x1000 ≤ slot t i)
  slot_outside t i m ht hi ne = let (n, small, at) = tree.frame t ht in omega arith
