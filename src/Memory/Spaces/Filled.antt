-- ===== src/Memory/Spaces/Filled.antt =====
-- The first loop of `paging_initialize` (paging.c): an empty table for each entry of the upper half of
-- the kernel's top-level table.
use shed_os.Base.{
  ℕ, ◌+◌, ◌*◌, ◌^◌, ◌<◌, ◌≤◌, ◌≡◌, ◌≢◌, ◌⊎◌, refl, sym, ap, ◌∙◌, subst, true, false, not, ◌==◌,
  arith, inl, inr, eq_cases, bit_or, update, for_range, for_range_inv,
}
use shed_os.Base.Bits.{or_blocks, zero_or}
use shed_os.Memory.Addr.{addr_offset_lower}
use shed_os.Memory.Pmm.Supply.{available, Supplied, supply_lem}
use shed_os.Memory.Paging.{Machine, zero_page, present, huge, slot, table_of, paging_present}
use shed_os.Memory.Paging.Entry.{page, flag_lem, table_of_frame}
use shed_os.Memory.Paging.Tree.{slot_injective}
use shed_os.Memory.Paging.Grow.{
  grown_level, grown_parent, grown-IsTree, grown-slot, grown_self, grown_fresh,
}
use shed_os.Memory.Paging.Descend.{IsMachine}
use shed_os.Memory.Spaces.{new_table, kernel_entry}
use shed_os.Memory.Spaces.Kept.{Kept-taken, taken, palloc_lem, supplied_small, supplied_free}

-- The entry of a kernel table at frame `m`.
abbrev pub table_entry : ℕ → ℕ
table_entry m = bit_or paging_present (addr_offset_lower (page m))

table_entry_lem : (m : ℕ) → m < 2 ^ 35 → table_entry m ≡ m * 4096 + 1
unfolding addr_offset_lower
table_entry_lem m small =
    ap (λ (x : ℕ). bit_or 1 x) lowered
    ∙ (or_blocks 12 0 1 m 0 (omega arith) (omega arith)
        ∙ omega (arith, ap (λ (x : ℕ). x * 4096) (zero_or m)))
  where
    lowered : addr_offset_lower (page m) ≡ m * 2 ^ 12 + 0
    lowered = omega arith

module _ (m : ℕ) (small : m < 2 ^ 35) where
  entry-present : present (table_entry m) ≡ true
  entry-present =
      rw (table_entry_lem m small)
        (ap (λ (x : ℕ). not (x == 0)) (flag_lem m 1 1 (omega arith) (omega arith)))

  entry-huge : huge (table_entry m) ≡ false
  entry-huge =
      rw (table_entry_lem m small)
        (ap (λ (x : ℕ). not (x == 0)) (flag_lem m 1 128 (omega arith) (omega arith)))

  table_of-entry : table_of (table_entry m) ≡ page m
  table_of-entry = rw (table_entry_lem m small) (table_of_frame m 1 small (omega arith))

-- An entry that points to an empty table.
pub record Empty (entry : ℕ) (ram : ℕ → ℕ) : Type 0 where
  pub there : present entry ≡ true
  pub plain : huge entry ≡ false
  pub zeros : (j : ℕ) → j < 512 → ram (slot (table_of entry) j) ≡ 0

-- The kernel's table at frame `d` after the entries from 256 up to `n`, when `supply` pages were to be
-- had before them.
pub record Filled (d supply n : ℕ) (s : Machine) : Type 0 where
  pub level : ℕ → ℕ
  pub parent : ℕ → ℕ
  pub machine : IsMachine (page d) level parent s
  pub small : d < 2 ^ 35
  pub kernel : s.kernel_table ≡ page d
  pub shallow : (u : ℕ) → level u ≢ 0 → u ≢ page d → level u ≡ 3
  pub vacant : (k : ℕ) → k < 512 → (k < 256) ⊎ (n ≤ k) → s.ram (slot (page d) k) ≡ 0
  pub filled : (k : ℕ) → 256 ≤ k → k < n → k < 512 → Empty (s.ram (slot (page d) k)) s.ram
  pub left : available s.pmm + n ≡ supply + 256

module _ (d supply i : ℕ) (s : Machine) (f : Filled d supply i s) (lo : 256 ≤ i) (hi : i < 512)
    (p : Supplied s.pmm) where
  abbrev m : ℕ
  m = p.first

  small : m < 2 ^ 35
  small = supplied_small m s f.machine.pmm f.machine.small p

  abbrev next : Machine
  next = record (taken s) {
    ram = update (zero_page (page m) s.ram) (slot (page d) i) (table_entry m);
  }

  next_is : kernel_entry i s ≡ next
  unfolding kernel_entry new_table
  next_is =
      let at : slot s.kernel_table i ≡ slot (page d) i = ap (λ (x : ℕ). slot x i) f.kernel in
      ap made_from (palloc_lem m s f.machine.pmm f.machine.small p)
      ∙ ap
          (λ (a : ℕ). record (taken s) {
            ram = update (zero_page (page m) s.ram) a (table_entry m);
          })
          at
    where
      made_from : ℕ × Machine → Machine
      made_from q = record q.1 {
        ram =
            update (zero_page q.0 q.1.ram) (slot q.1.kernel_table i)
              (bit_or paging_present (addr_offset_lower q.0));
      }

  gone : present (s.ram (slot (page d) i)) ≡ false
  gone = rw (f.vacant i hi (inr (omega arith))) refl

  fresh : f.level (page m) ≡ 0
  fresh = elim (eq_cases (f.level (page m)) 0) [
    | inl e ↦ e
    | inr ne ↦ absurd (
        ground
          (arith, f.machine.held m small ne, supplied_free m s f.machine.pmm f.machine.small p))
  ]

  high : 2 ≤ f.level (page d)
  high = omega (arith, f.machine.tree.top)

  abbrev entry : ℕ
  entry = table_entry m

  there : present entry ≡ true
  there = entry-present m small

  plain : huge entry ≡ false
  plain = entry-huge m small

  link : table_of entry ≡ page m
  link = table_of-entry m small

  -- Entry `k` of the table, and the words of a table that was there, after the round.
  same-slot :
      (u j : ℕ)
      → f.level u ≢ 0
      → j < 512
      → (slot u j ≢ slot (page d) i)
      → next.ram (slot u j) ≡ s.ram (slot u j)
  same-slot = grown-slot f.machine.tree (page d) i m entry hi high gone small fresh there plain link

  entry_self : next.ram (slot (page d) i) ≡ entry
  entry_self =
      grown_self f.machine.tree (page d) i m entry hi high gone small fresh there plain link

  zeros_self : (j : ℕ) → j < 512 → next.ram (slot (page m) j) ≡ 0
  zeros_self =
      grown_fresh f.machine.tree (page d) i m entry hi high gone small fresh there plain link

  Empty-self : Empty (next.ram (slot (page d) i)) next.ram
  Empty-self =
      subst (λ (x : ℕ). Empty x next.ram) (sym entry_self)
        (record {
          there = there;
          plain = plain;
          zeros = λ j lj. ap (λ (x : ℕ). next.ram (slot x j)) link ∙ zeros_self j lj;
        })

  Empty-other : (k : ℕ) → 256 ≤ k → k < i → Empty (next.ram (slot (page d) k)) next.ram
  Empty-other k lo' lt =
      let old = f.filled k lo' lt (omega arith) in
      let same = same-slot (page d) k (omega (arith, high)) (omega arith) (λ e. omega arith) in
      let child = table_of (s.ram (slot (page d) k)) in
      let below = f.machine.tree.child_level (page d) k (omega arith) high old.there old.plain in
      subst (λ (x : ℕ). Empty x next.ram) (sym same)
        (record {
          there = old.there;
          plain = old.plain;
          zeros = λ j lj.
              same-slot child j (omega (arith, f.machine.tree.top)) lj (λ e.
                let one =
                  slot_injective f.machine.tree child (page d) j i
                    (omega (arith, f.machine.tree.top)) (omega (arith, high)) lj hi e in
                omega (arith, ap f.level one.0))
              ∙ old.zeros j lj;
        })

  Filled-next : Filled d supply (i + 1) next
  Filled-next = record {
    level = grown_level f.machine.tree (page d) i m entry hi high gone small fresh there plain link;
    parent =
        grown_parent f.machine.tree (page d) i m entry hi high gone small fresh there plain link;
    machine = record {
      tree =
          grown-IsTree f.machine.tree (page d) i m entry hi high gone small fresh there plain link;
      pmm = (Kept-taken m s f.machine.pmm f.machine.small p).valid;
      small = ground (arith, p.grant.total, f.machine.small);
      held = λ k lk lv. ground (arith, p.grant.bits k, f.machine.held k lk);
    };
    small = f.small;
    kernel = f.kernel;
    shallow = λ u lu ne. ground (arith, f.machine.tree.top, f.shallow u);
    vacant = λ k lk c.
        same-slot (page d) k (omega (arith, high)) lk (λ e. ground arith)
        ∙ f.vacant k lk (ground arith);
    filled = λ k lo' lt lk. elim (eq_cases k i) [
      | inl here ↦
          subst (λ (x : ℕ). Empty (next.ram (slot (page d) x)) next.ram) (sym here) Empty-self
      | inr other ↦ Empty-other k lo' (omega arith)
    ];
    left = omega (arith, p.one_less, f.left);
  }

-- The whole loop.
pub Filled-loop :
    (d supply : ℕ) (s : Machine)
    → 256 ≤ supply
    → Filled d supply 256 s
    → Filled d supply 512 (for_range 256 256 kernel_entry s)
Filled-loop d supply s enough f =
    (for_range_inv (λ i t. (256 ≤ i) × Filled d supply i t) kernel_entry 512
      (λ i t hi (lo, g).
        let p = supply_lem t.pmm g.machine.pmm (omega (arith, g.left)) in
        (
          omega arith,
          subst (Filled d supply (i + 1)) (sym (next_is d supply i t g lo hi p))
              (Filled-next d supply i t g lo hi p),
        ))
      256 256 s refl (omega arith, f)).1
