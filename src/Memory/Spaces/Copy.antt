-- ===== src/Memory/Spaces/Copy.antt =====
-- The recursion of `paging_copy` (paging.c), with as many pages to be had as it takes.
use shed_os.Base.{
  ℕ, zero, suc, ◌+◌, ◌<◌, ◌≤◌, ◌≡◌, ◌≢◌, ◌⊎◌, refl, sym, ap, ◌∙◌, subst, true, false, arith,
  Bool-cases, inl, inr, for_range_inv, eq_cases,
}
use shed_os.Memory.Pmm.Lock.{locked}
use shed_os.Memory.Pmm.Supply.{available, supply_lem}
use shed_os.Memory.Paging.{Machine, present, slot, table_of}
use shed_os.Memory.Paging.Entry.{page}
use shed_os.Memory.Paging.Tree.{IsTree}
use shed_os.Memory.Spaces.{entries, copy_range, paging_copy_recursive}
use shed_os.Memory.Spaces.Plain.{IsPlain, entries-le}
use shed_os.Memory.Spaces.Kept.{Holds, Kept, Kept-refl, Kept-trans, Kept-written, taken}
use shed_os.Memory.Spaces.Copied.{Copied, Linked, Linked-keep}
use shed_os.Memory.Spaces.Step.{
  sum_below, sum_below-le, sum_below_next, tables, tables_at, Fresh, Ready, Kept-Ready, Ready-taken,
  Copies, Step, round, Step-absent, Step-present,
}

module _ {root : ℕ} {level parent source : ℕ → ℕ} (tree : IsTree root level parent source) where
  -- The entries below `n` were gone through.
  record Done (below d src n : ℕ) (s t : Machine) : Type 0 where
    kept : Kept d (sum_below n (tables_at below src source)) s t
    links :
        (i : ℕ)
        → i < n
        → present (source (slot src i)) ≡ true
        → Linked (Copied below (Fresh s t) source t.ram) (Fresh s t) t.ram d i (source (slot src i))
    spared :
        (j : ℕ)
        → j < 512
        → (n ≤ j) ⊎ (present (source (slot src j)) ≡ false)
        → t.ram (slot (page d) j) ≡ s.ram (slot (page d) j)

  Done-next :
      (below d src n : ℕ) (s t u : Machine)
      → n < 512
      → Holds d s
      → Done below d src n s t
      → Step tree below d src n t u
      → Done below d src (n + 1) s u
  unfolding sum_below
  Done-next below d src n s t u ln h p q = record {
    kept =
        subst (λ (x : ℕ). Kept d x s u) (sym (sum_below_next (tables_at below src source) n))
          (Kept-trans d _ _ s t u p.kept q.kept);
    links = λ i li there. elim (eq_cases i n) [
      | inl last ↦
          subst
            (λ (k : ℕ).
              Linked (Copied below (Fresh s u) source u.ram) (Fresh s u) u.ram d k
                (source (slot src k)))
            (sym last)
            (Linked-keep below (Fresh t u) (Fresh s u) source u.ram u.ram d n (source (slot src n))
              (λ m lm f. (ground (arith, f.0, p.kept.locked_on m), f.1)) (λ m j lm f lj. refl) refl
              (q.link (subst (λ (k : ℕ). present (source (slot src k)) ≡ true) last there)))
      | inr before ↦
          Linked-keep below (Fresh s t) (Fresh s u) source t.ram u.ram d i (source (slot src i))
            (λ m lm f. (f.0, q.kept.locked_on m f.1))
            (λ m j lm f lj.
              q.kept.frame m j lm lj f.1 (λ e. ground (arith, ap (locked s.pmm) e, f.0, h.held)))
            (q.spared i (omega arith) (inl before)) (p.links i (omega arith) there)
    ];
    spared = λ j lj e. elim e [
      | inl behind ↦ q.spared j lj (inl (λ same. omega arith)) ∙ p.spared j lj (inl (omega arith))
      | inr gone ↦ elim (eq_cases j n) [
        | inl same ↦
            q.spared j lj (inr (subst (λ (k : ℕ). present (source (slot src k)) ≡ false) same gone))
            ∙ p.spared j lj (inr gone)
        | inr ne ↦ q.spared j lj (inl ne) ∙ p.spared j lj (inr gone)
      ]
    ];
  }

  Copies-leaf :
      (d src : ℕ) (s : Machine)
      → level src ≢ 0
      → Ready tree d s
      → Copies tree 0 d src s (paging_copy_recursive 0 (page d) src s)
  unfolding paging_copy_recursive copy_range Copied tables
  Copies-leaf d src s lt r = record {
    kept =
        Kept-written d s (record s { ram = copy_range (page d) src 0x1000 s.ram }) r.holds.valid
          (λ m j lm lj ne. ground arith) refl;
    copied = λ j lj. ground (arith, r.same src j lt lj);
    spared = λ j lj one. absurd (omega arith);
  }

  pub Copies-recursive :
      (below d src : ℕ) (s : Machine)
      → below ≤ 3
      → level src ≡ suc below
      → IsPlain below src source
      → Ready tree d s
      → tables below src source ≤ available s.pmm
      → Copies tree below d src s (paging_copy_recursive below (page d) src s)
  unfolding paging_copy_recursive tables Copied sum_below
  Copies-recursive zero d src s le lt plain r enough = Copies-leaf d src s (omega arith) r
  Copies-recursive (suc below) d src s le lt plain r enough =
      let last = entries (suc below + 1) in
      let f = tables_at below src source in
      let done =
        for_range_inv (λ n t. Done below d src n s t) (round tree below (page d) src) last
          (λ i t it p.
            let r1 = Kept-Ready tree d _ s t p.kept r in
            let it' : i < 512 = omega (arith, entries-le (suc below + 1)) in
            Done-next below d src i s t (round tree below (page d) src i t) it' r.holds p
              (elim (Bool-cases (present (source (slot src i)))) [
                | inr e ↦ Step-absent tree below d src i t (omega arith) it' r1 e
                | inl e ↦
                    let (h, below_plain) = plain i it e in
                    let one : f i ≡ 1 + tables below (table_of (source (slot src i))) source =
                      rw (e, tables_at) refl in
                    let more : sum_below i f + f i ≤ sum_below last f =
                      omega
                        (arith, sum_below_next f i, sum_below-le f (i + 1) last (omega arith)) in
                    let left : f i ≤ available t.pmm = omega (arith, p.kept.supply) in
                    let q = supply_lem t.pmm p.kept.valid (omega arith) in
                    Step-present tree below d src i t (omega arith) it' r1 q _ e refl (
                      Copies-recursive below q.first (table_of (source (slot src i))) (taken t)
                        (omega arith) (omega (arith, tree.child_level src i it' (omega arith) e h))
                        below_plain (Ready-taken tree d t r1 q) (omega (arith, q.one_less)))
              ]))
          last 0 s (omega arith)
          (record {
            kept = Kept-refl d s r.holds.valid;
            links = λ i none_below. absurd (omega arith);
            spared = λ j lj e. refl;
          }) in
      record { kept = done.kept; copied = done.links; spared = λ j lj one. done.spared j lj }
