-- ===== src/Memory/Paging/Leaves.antt =====
-- What `paging_map` (paging.c) leaves alone beside the pages it maps: the entries of tables above the
-- last level that are there, pages that are held for something else,
-- and the page manager but for the pages of new tables.
use shed_os.Base.{ap, ℕ, ◌+◌, ◌^◌, ◌<◌, ◌≤◌, ◌≡◌, refl, ◌∙◌, true, arith}
use shed_os.Memory.Pmm.Lock.{locked}
use shed_os.Memory.Pmm.Supply.{available}
use shed_os.Memory.Paging.{Machine, slot, present}
use shed_os.Memory.Paging.Entry.{page}

-- `t` is `s` after at most `n` pages were taken.
pub record Leaves (level level' : ℕ → ℕ) (n : ℕ) (s t : Machine) : Type 0 where
  pub outside :
      (m : ℕ)
      → m < 2 ^ 35
      → locked s.pmm m ≡ true
      → level (page m) ≡ 0
      → (level' (page m) ≡ 0)
        × ((j : ℕ) → j < 512 → t.ram (slot (page m) j) ≡ s.ram (slot (page m) j))
  pub above :
      (u j : ℕ)
      → j < 512
      → 2 ≤ level u
      → present (s.ram (slot u j)) ≡ true
      → (level' u ≡ level u) × (t.ram (slot u j) ≡ s.ram (slot u j))
  pub locked_on : (m : ℕ) → locked s.pmm m ≡ true → locked t.pmm m ≡ true
  pub budget : available s.pmm ≤ available t.pmm + n
  pub table : t.kernel_table ≡ s.kernel_table

pub Leaves-refl : (level : ℕ → ℕ) (n : ℕ) (s : Machine) → Leaves level level n s s
Leaves-refl level n s = record {
  outside = λ m lm h e. (e, λ j lj. refl);
  above = λ u j lj lu there. (refl, refl);
  locked_on = λ m h. h;
  budget = omega arith;
  table = refl;
}

pub Leaves-trans :
    (level level' level'' : ℕ → ℕ) (n n' : ℕ) (s t u : Machine)
    → Leaves level level' n s t
    → Leaves level' level'' n' t u
    → Leaves level level'' (n + n') s u
Leaves-trans level level' level'' n n' s t u p q = record {
  outside = λ m lm h e.
      let (e', same) = p.outside m lm h e in
      let (e'', same') = q.outside m lm (p.locked_on m h) e' in
      (e'', λ j lj. same' j lj ∙ same j lj);
  above = λ u j lj lu there.
      let (e, same) = p.above u j lj lu there in
      let (e', same') = q.above u j lj (omega (arith, e)) (ap present same ∙ there) in
      (e' ∙ e, same' ∙ same);
  locked_on = λ m h. q.locked_on m (p.locked_on m h);
  budget = omega (arith, p.budget, q.budget);
  table = q.table ∙ p.table;
}
