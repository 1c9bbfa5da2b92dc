-- ===== src/Memory/Spaces/Readonly.antt =====
-- `paging_make_readonly` of paging.c: what it does to memory and to the flushed addresses.
use shed_os.Base.{
  ℕ, zero, suc, ◌+◌, ◌^◌, ◌<◌, ◌≤◌, ◌≡◌, ◌≢◌, ◌⊎◌, inl, inr, refl, sym, ap, ◌∙◌, subst, true, false,
  bit_and, arith, eq_cases, Bool-cases, update, for_range_inv,
}
use shed_os.Base.Bits.{and_again}
use shed_os.Base.Word.{mul64, not64}
use shed_os.Memory.Paging.{
  Machine, present, huge, slot, table_of, paging_flush_tlb, paging_writable,
}
use shed_os.Memory.Paging.Tree.{IsTree, slot_injective}
use shed_os.Memory.Paging.Walk.{walk, hit, Indices, hit_present, hit_leaf, walk_via}
use shed_os.Memory.Spaces.{entries, child_vaddr, readonly_entry, paging_make_readonly_recursive}
use shed_os.Memory.Spaces.Plain.{IsPlain, entries-le}
use mathlib.Core.List.{Memᴰ}

-- An entry without the right to write.
abbrev pub clear : ℕ → ℕ
clear x = bit_and x (not64 paging_writable)

-- The address that a walk below `vaddr` is for.
unfoldable pub address : (below vaddr : ℕ) → (ℕ → ℕ) → ℕ
address zero vaddr ix = mul64 (child_vaddr vaddr (ix 0)) (2 ^ 12)
address (suc below) vaddr ix = address below (child_vaddr vaddr (ix (suc below))) ix

-- `s'` is `s` after the entries that walks from `t` end at, whose first index is in `K`, were made
-- read-only. The walks are those of the memory `ram`.
pub record Made (ram : ℕ → ℕ) (below t vaddr : ℕ) (K : ℕ → Type 0) (s s' : Machine) : Type 0 where
  pub either : (a : ℕ) → (s'.ram a ≡ s.ram a) ⊎ (s'.ram a ≡ clear (s.ram a))
  pub done :
      (ix : ℕ → ℕ) (a : ℕ)
      → Indices ix
      → K (ix below)
      → walk below ix t ram ≡ hit a
      → (s'.ram a ≡ clear (s.ram a)) × Memᴰ (address below vaddr ix) s'.flushed
  pub other :
      (a : ℕ)
      → ((ix : ℕ → ℕ) → Indices ix → K (ix below) → walk below ix t ram ≢ hit a)
      → s'.ram a ≡ s.ram a
  pub flushes : (a : ℕ) → Memᴰ a s.flushed → Memᴰ a s'.flushed
  pub rest : (s'.pmm ≡ s.pmm) × (s'.kernel_table ≡ s.kernel_table) × (s'.cr3 ≡ s.cr3)

clear-clear : (x : ℕ) → clear (clear x) ≡ clear x
clear-clear x = and_again x (not64 paging_writable)

either_trans :
    (x y z : ℕ) → (y ≡ x) ⊎ (y ≡ clear x) → (z ≡ y) ⊎ (z ≡ clear y) → (z ≡ x) ⊎ (z ≡ clear x)
either_trans x y z e f = ground (arith, clear-clear x)

clear_trans : (x y z : ℕ) → y ≡ clear x → (z ≡ y) ⊎ (z ≡ clear y) → z ≡ clear x
clear_trans x y z e f = ground (arith, clear-clear x)

trans_clear : (x y z : ℕ) → (y ≡ x) ⊎ (y ≡ clear x) → z ≡ clear y → z ≡ clear x
trans_clear x y z e f = ground (arith, clear-clear x)

module _ {ram : ℕ → ℕ} {below t vaddr : ℕ} where
  Made-refl :
      (s : Machine) (K : ℕ → Type 0)
      → ((ix : ℕ → ℕ) (a : ℕ) → K (ix below) → walk below ix t ram ≢ hit a)
      → Made ram below t vaddr K s s
  Made-refl s K no_such = record {
    either = λ a. inl refl;
    done = λ ix a li k e. absurd (no_such ix a k e);
    other = λ a f. refl;
    flushes = λ a m. m;
    rest = (refl, refl, refl);
  }

  -- One round more.
  Made-next :
      (n : ℕ) (s s' s'' : Machine)
      → Made ram below t vaddr (λ k. k < n) s s'
      → Made ram below t vaddr (λ k. k ≡ n) s' s''
      → Made ram below t vaddr (λ k. k < n + 1) s s''
  Made-next n s s' s'' p q = record {
    either = λ a. either_trans (s.ram a) (s'.ram a) (s''.ram a) (p.either a) (q.either a);
    done = λ ix a li k e. elim (eq_cases (ix below) n) [
      | inl last ↦
          let (cleared, flushed) = q.done ix a li last e in
          (trans_clear (s.ram a) (s'.ram a) (s''.ram a) (p.either a) cleared, flushed)
      | inr before ↦
          let (cleared, flushed) = p.done ix a li (omega arith) e in
          (
            clear_trans (s.ram a) (s'.ram a) (s''.ram a) cleared (q.either a),
            q.flushes (address below vaddr ix) flushed,
          )
    ];
    other = λ a f.
        q.other a (λ ix li k. f ix li (omega arith)) ∙ p.other a (λ ix li k. f ix li (omega arith));
    flushes = λ a m. q.flushes a (p.flushes a m);
    rest = (q.rest.0 ∙ p.rest.0, q.rest.1 ∙ p.rest.1, q.rest.2 ∙ p.rest.2);
  }

-- The last level, where no table is read.
Made-entry :
    (ram : ℕ → ℕ) (t vaddr i : ℕ) (s : Machine)
    → i < 512
    → Made ram 0 t vaddr (λ k. k ≡ i) s (readonly_entry t vaddr i s)
unfolding walk readonly_entry paging_flush_tlb address
Made-entry ram t vaddr i s it = record {
  either = λ a. ground arith;
  done = λ ix a li k e. (ground arith, Memᴰ.head (rw k refl));
  other = λ a f. elim (eq_cases a (slot t i)) [
    | inl e ↦ absurd (f (λ k. i) (λ k. it) refl (ap hit (sym e)))
    | inr ne ↦ ground arith
  ];
  flushes = λ a m. Memᴰ.tail m;
  rest = (refl, refl, refl);
}

Made-leaf :
    (ram : ℕ → ℕ) (t vaddr : ℕ) (s : Machine)
    → Made ram 0 t vaddr (λ k. k < 512) s (paging_make_readonly_recursive 0 t vaddr s)
unfolding paging_make_readonly_recursive
Made-leaf ram t vaddr s =
    for_range_inv (λ n s'. Made ram 0 t vaddr (λ k. k < n) s s') (readonly_entry t vaddr) 512
      (λ i s' it p.
        Made-next i s s' (readonly_entry t vaddr i s') p (Made-entry ram t vaddr i s' it))
      512 0 s refl (Made-refl s (λ k. k < 0) (λ ix a k. absurd (omega arith)))

-- The memory has the entries of `ram` in the tables above the last level.
abbrev pub SameTables : (level : ℕ → ℕ) → (ℕ → ℕ) → Machine → Type 0
SameTables level ram s = (u j : ℕ) → 2 ≤ level u → j < 512 → s.ram (slot u j) ≡ ram (slot u j)

module _ {root : ℕ} {level parent ram : ℕ → ℕ} (tree : IsTree root level parent ram) where
  pub Made-SameTables :
      (below t vaddr : ℕ) (K : ℕ → Type 0) (s s' : Machine)
      → level t ≡ suc below
      → Made ram below t vaddr K s s'
      → SameTables level ram s
      → SameTables level ram s'
  Made-SameTables below t vaddr K s s' lt made same u j lu lj =
      made.other (slot u j) spared ∙ same u j lu lj
    where
      spared : (ix : ℕ → ℕ) → Indices ix → K (ix below) → walk below ix t ram ≢ hit (slot u j)
      spared ix li k e =
          let (leaf, ll, at) = hit_leaf tree below ix t (slot u j) li lt e in
          let (one, index) =
            slot_injective tree u leaf j (ix 0) (omega arith) (omega arith) lj (li 0) at in
          absurd (omega (arith, ap level one))

  -- What is done below the table in entry `i` of `t`.
  Made-child :
      (below t vaddr i : ℕ) (s s' : Machine)
      → i < 512
      → below < 3
      → present (ram (slot t i)) ≡ true
      → huge (ram (slot t i)) ≡ false
      → Made ram below
          (table_of (ram (slot t i)))
          (child_vaddr vaddr i)
          (λ k. k < entries (below + 1))
          s
          s'
      → Made ram (suc below) t vaddr (λ k. k ≡ i) s s'
  unfolding address
  Made-child below t vaddr i s s' it small p h made = record {
    either = made.either;
    done = λ ix a li k e.
        let (there, plain, down) = hit_present below ix t ram e in
        let (cleared, flushed) =
          made.done ix a li (ground (arith, li below))
            (subst (λ (n : ℕ). walk below ix (table_of (ram (slot t n))) ram ≡ hit a) k down) in
        (
          cleared,
          subst (λ (n : ℕ). Memᴰ (address below (child_vaddr vaddr n) ix) s'.flushed) (sym k)
              flushed,
        );
    other = λ a f. made.other a (λ ix li k e.
        f (update ix (suc below) i) (λ n. ground (arith, li n)) (ground arith)
          (walk_via below ix t i ram p h ∙ e));
    flushes = made.flushes;
    rest = made.rest;
  }

  -- The round for entry `i` of `t`, with what the recursion does below.
  abbrev round : (below t vaddr i : ℕ) → Machine → Machine
  round below t vaddr i s1 = elim (present (s1.ram (slot t i))) [
    | true ↦
        paging_make_readonly_recursive below (table_of (s1.ram (slot t i))) (child_vaddr vaddr i) s1
    | false ↦ s1
  ]

  Made-round :
      (below t vaddr i : ℕ) (s : Machine)
      → i < 512
      → below < 3
      → s.ram (slot t i) ≡ ram (slot t i)
      → (present (ram (slot t i)) ≡ true
          → (huge (ram (slot t i)) ≡ false)
            × Made ram below
                (table_of (ram (slot t i)))
                (child_vaddr vaddr i)
                (λ k. k < entries (below + 1))
                s
                (paging_make_readonly_recursive below
                  (table_of (ram (slot t i)))
                  (child_vaddr vaddr i)
                  s))
      → Made ram (suc below) t vaddr (λ k. k ≡ i) s (round below t vaddr i s)
  Made-round below t vaddr i s it small e deeper = elim (Bool-cases (present (ram (slot t i)))) [
    | inl p ↦
        let (h, made) = deeper p in
        rw (e, p, round) (rw e (Made-child below t vaddr i s _ it small p h made))
    | inr p ↦
        rw (e, p, round)
          (Made-refl s (λ k. k ≡ i)
            (λ ix a k w. absurd (ground (arith, k, hit_present below ix t ram w))))
  ]

  pub Made-recursive :
      (below t vaddr : ℕ) (s : Machine)
      → below ≤ 3
      → level t ≡ suc below
      → IsPlain below t ram
      → SameTables level ram s
      → Made ram below t vaddr
          (λ k. k < entries (below + 1))
          s
          (paging_make_readonly_recursive below t vaddr s)
  unfolding paging_make_readonly_recursive
  Made-recursive zero t vaddr s le lt plain same = Made-leaf ram t vaddr s
  Made-recursive (suc below) t vaddr s le lt plain same =
      for_range_inv (λ n s1. Made ram (suc below) t vaddr (λ k. k < n) s s1) (round below t vaddr)
        (entries (suc below + 1))
        (λ i s1 it p.
          let lt' : i < 512 = omega (arith, entries-le (suc below + 1)) in
          let same1 = Made-SameTables (suc below) t vaddr (λ k. k < i) s s1 lt p same in
          Made-next i s s1 (round below t vaddr i s1) p (
            Made-round below t vaddr i s1 lt' (omega arith) (same1 t i (omega arith) lt') (λ there.
              let (h, below_plain) = plain i it there in
              (
                h,
                Made-recursive below (table_of (ram (slot t i))) (child_vaddr vaddr i) s1
                    (omega arith) (omega (arith, tree.child_level t i lt' (omega arith) there h))
                    below_plain same1,
              ))))
        (entries (suc below + 1)) 0 s (omega arith)
        (Made-refl s (λ k. k < 0) (λ ix a k. absurd (omega arith)))
