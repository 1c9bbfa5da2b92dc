-- ===== src/Memory/Spaces/Huge.antt =====
-- The gigabytes that `paging_initialize` (paging.c) maps as huge pages.
use shed_os.Base.{
  ℕ, zero, suc, ◌+◌, ◌*◌, ◌/◌, ◌^◌, ◌<◌, ◌≤◌, ◌≡◌, ◌≢◌, refl, sym, ap, ◌∙◌, subst, true, false,
  arith, inl, inr, eq_cases, update, for_range, for_range_inv,
}
use shed_os.Base.Bits.{and_low_mask}
use shed_os.Memory.Addr.{vaddr_higher, vaddr_kernel}
use shed_os.Memory.Paging.{
  Machine, present, huge, slot, table_of, get_walk, paging_get, vaddr_to_index, index,
}
use shed_os.Memory.Paging.Tree.{IsTree}
use shed_os.Memory.Spaces.{huge_entry}

-- The entry of gigabyte `i`: PRESENT, WRITABLE and HUGE.
abbrev pub gigabyte : ℕ → ℕ
gigabyte i = i * 0x40000000 + 0x83

-- The word that `huge_entry` writes.
huge_word :
    (parent first i : ℕ) (s : Machine)
    → i < 4
    → (huge_entry parent first i s).ram ≡ update s.ram (slot parent (first + i)) (gigabyte i)
unfolding huge_entry
huge_word parent first zero s lt = refl
huge_word parent first (suc zero) s lt = refl
huge_word parent first (suc (suc zero)) s lt = refl
huge_word parent first (suc (suc (suc zero))) s lt = refl
huge_word parent first (suc (suc (suc (suc i)))) s lt = absurd (omega arith)

huge_pmm : (parent first i : ℕ) (s : Machine) → (huge_entry parent first i s).pmm ≡ s.pmm
unfolding huge_entry
huge_pmm parent first i s = refl

huge_table :
    (parent first i : ℕ) (s : Machine) → (huge_entry parent first i s).kernel_table ≡ s.kernel_table
unfolding huge_entry
huge_table parent first i s = refl

gigabyte-present : (i : ℕ) → i < 4 → present (gigabyte i) ≡ true
gigabyte-present zero lt = refl
gigabyte-present (suc zero) lt = refl
gigabyte-present (suc (suc zero)) lt = refl
gigabyte-present (suc (suc (suc zero))) lt = refl
gigabyte-present (suc (suc (suc (suc i)))) lt = absurd (omega arith)

gigabyte-huge : (i : ℕ) → i < 4 → huge (gigabyte i) ≡ true
gigabyte-huge zero lt = refl
gigabyte-huge (suc zero) lt = refl
gigabyte-huge (suc (suc zero)) lt = refl
gigabyte-huge (suc (suc (suc zero))) lt = refl
gigabyte-huge (suc (suc (suc (suc i)))) lt = absurd (omega arith)

-- A huge page put into a slot of a table keeps the tree.
module _ {root : ℕ} {level parent ram : ℕ → ℕ} (tree : IsTree root level parent ram) (a x : ℕ)
    (h : huge x ≡ true) where
  huge-IsTree : IsTree root level parent (update ram a x)
  huge-IsTree = record {
    top = tree.top;
    frame = tree.frame;
    child_level = λ u j lj lu p plain. elim (eq_cases (slot u j) a) [
      | inl e ↦ absurd (ground (arith, e))
      | inr ne ↦ ground (arith, tree.child_level u j lj lu)
    ];
    child_parent = λ u j lj lu p plain. elim (eq_cases (slot u j) a) [
      | inl e ↦ absurd (ground (arith, e))
      | inr ne ↦ ground (arith, tree.child_parent u j lj lu)
    ];
  }

-- The first `n` gigabytes are mapped by the entries of `table` from `first` on.
pub record Gigabytes (root : ℕ) (level parent : ℕ → ℕ) (table first n : ℕ) (s t : Machine)
    : Type 0 where
  pub tree : IsTree root level parent t.ram
  pub mapped : (j : ℕ) → j < n → t.ram (slot table (first + j)) ≡ gigabyte j
  pub other : (a : ℕ) → ((j : ℕ) → j < n → a ≢ slot table (first + j)) → t.ram a ≡ s.ram a
  pub rest : (t.pmm ≡ s.pmm) × (t.kernel_table ≡ s.kernel_table)

Gigabytes-next :
    (root : ℕ) (level parent : ℕ → ℕ) (table first n : ℕ) (s t : Machine)
    → n < 4
    → Gigabytes root level parent table first n s t
    → Gigabytes root level parent table first (n + 1) s (huge_entry table first n t)
Gigabytes-next root level parent table first n s t lt g =
    let word = huge_word table first n t lt in
    record {
      tree =
          subst (IsTree root level parent) (sym word)
            (huge-IsTree g.tree (slot table (first + n)) (gigabyte n) (gigabyte-huge n lt));
      mapped = λ j lj. rw word (ground (arith, g.mapped j));
      other = λ a ne. rw word (ground (arith, ne n, g.other a (λ j lj. ne j (omega arith))));
      rest = (huge_pmm table first n t ∙ g.rest.0, huge_table table first n t ∙ g.rest.1);
    }

pub Gigabytes-loop :
    (root : ℕ) (level parent : ℕ → ℕ) (table first n : ℕ) (s : Machine)
    → n ≤ 4
    → IsTree root level parent s.ram
    → Gigabytes root level parent table first n s (for_range n 0 (huge_entry table first) s)
Gigabytes-loop root level parent table first n s le tree =
    for_range_inv (λ i t. Gigabytes root level parent table first i s t) (huge_entry table first) n
      (λ i t it g. Gigabytes-next root level parent table first i s t (omega arith) g) n 0 s
      (omega arith)
      (record {
        tree = tree;
        mapped = λ j lj. absurd (omega arith);
        other = λ a ne. refl;
        rest = (refl, refl);
      })

-- A reading that a huge page, or nothing, of the second table ends.
pub get-huge :
    (root v x : ℕ) (s : Machine)
    → present (s.ram (slot root (vaddr_to_index v 3))) ≡ true
    → huge (s.ram (slot root (vaddr_to_index v 3))) ≡ false
    → s.ram (slot (table_of (s.ram (slot root (vaddr_to_index v 3)))) (vaddr_to_index v 2))
      ≡ gigabyte x
    → x < 4
    → paging_get root v s ≡ gigabyte x
unfolding paging_get get_walk
get-huge root v x s p h e lt =
    ground (arith, gigabyte-present x lt, gigabyte-huge x lt, ap present e, ap huge e)

pub get-empty :
    (root v : ℕ) (s : Machine)
    → present (s.ram (slot root (vaddr_to_index v 3))) ≡ true
    → huge (s.ram (slot root (vaddr_to_index v 3))) ≡ false
    → s.ram (slot (table_of (s.ram (slot root (vaddr_to_index v 3)))) (vaddr_to_index v 2)) ≡ 0
    → paging_get root v s ≡ 0
unfolding paging_get get_walk
get-empty root v s p h e = rw (p, h, e) refl

pub get-absent :
    (root v : ℕ) (s : Machine)
    → s.ram (slot root (vaddr_to_index v 3)) ≡ 0
    → paging_get root v s ≡ 0
unfolding paging_get get_walk
get-absent root v s e = rw e refl

-- The indices of an address in a mapped half.
pub index_physical :
    (p : ℕ)
    → p < 2 ^ 39
    → (vaddr_to_index (vaddr_higher + p) 3 ≡ 256)
      × (vaddr_to_index (vaddr_higher + p) 2 ≡ p / 2 ^ 30)
unfolding vaddr_to_index index
index_physical p lt =
    let q = (vaddr_higher + p) / 2 ^ 12 / 2 ^ 9 / 2 ^ 9 in
    (omega (arith, and_low_mask 9 (q / 2 ^ 9)), omega (arith, and_low_mask 9 q))

pub index_image :
    (p : ℕ)
    → p < 2 ^ 31
    → (vaddr_to_index (vaddr_kernel + p) 3 ≡ 511)
      × (vaddr_to_index (vaddr_kernel + p) 2 ≡ 510 + p / 2 ^ 30)
unfolding vaddr_to_index index
index_image p lt =
    let q = (vaddr_kernel + p) / 2 ^ 12 / 2 ^ 9 / 2 ^ 9 in
    (omega (arith, and_low_mask 9 (q / 2 ^ 9)), omega (arith, and_low_mask 9 q))
