-- ===== src/Memory/Spaces/Kept.antt =====
-- What the recursion of `paging_copy` (paging.c) leaves alone: the pages that were held before, but for
-- the table that it fills.
use shed_os.Base.{ℕ, ◌+◌, ◌^◌, ◌<◌, ◌≤◌, ◌≡◌, ◌≢◌, ap, refl, sym, subst, ◌∙◌, true, false, arith}
use shed_os.Memory.Addr.{addr_offset_higher}
use shed_os.Memory.Pmm.{pmm_request_pages}
use shed_os.Memory.Pmm.Lock.{locked}
use shed_os.Memory.Pmm.Valid.{IsValid, page_total, request-IsValid}
use shed_os.Memory.Pmm.Supply.{available, Supplied, InRange-one}
use shed_os.Memory.Paging.{Machine, palloc, slot}
use shed_os.Memory.Paging.Entry.{page, offset_higher-page}

-- The page manager can be worked with, and holds the table at frame `d`.
pub record Holds (d : ℕ) (s : Machine) : Type 0 where
  pub valid : IsValid s.pmm
  pub small : page_total s.pmm ≤ 2 ^ 35
  pub here : d < 2 ^ 35
  pub held : locked s.pmm d ≡ true

-- `t` is `s` after `n` pages were taken, and nothing but they and page `d` was written to.
pub record Kept (d n : ℕ) (s t : Machine) : Type 0 where
  pub valid : IsValid t.pmm
  pub total : page_total t.pmm ≡ page_total s.pmm
  pub supply : available t.pmm + n ≡ available s.pmm
  pub locked_on : (m : ℕ) → locked s.pmm m ≡ true → locked t.pmm m ≡ true
  pub frame :
      (m j : ℕ)
      → m < 2 ^ 35
      → j < 512
      → locked s.pmm m ≡ true
      → m ≢ d
      → t.ram (slot (page m) j) ≡ s.ram (slot (page m) j)
  pub table : t.kernel_table ≡ s.kernel_table
  pub register : t.cr3 ≡ s.cr3
  pub flushes : t.flushed ≡ s.flushed

module _ {d n : ℕ} {s t : Machine} (k : Kept d n s t) where
  pub Kept-Holds : (m : ℕ) → Holds m s → Holds m t
  Kept-Holds m h = record {
    valid = k.valid;
    small = ground (arith, k.total, h.small);
    here = h.here;
    held = k.locked_on m h.held;
  }

pub Kept-refl : (d : ℕ) (s : Machine) → IsValid s.pmm → Kept d 0 s s
Kept-refl d s v = record {
  valid = v;
  total = refl;
  supply = omega arith;
  locked_on = λ m e. e;
  frame = λ m j lm lj e ne. refl;
  table = refl;
  register = refl;
  flushes = refl;
}

pub Kept-trans : (d n n' : ℕ) (s t u : Machine) → Kept d n s t → Kept d n' t u → Kept d (n + n') s u
Kept-trans d n n' s t u p q = record {
  valid = q.valid;
  total = q.total ∙ p.total;
  supply = omega (arith, p.supply, q.supply);
  locked_on = λ m e. q.locked_on m (p.locked_on m e);
  frame = λ m j lm lj e ne. q.frame m j lm lj (p.locked_on m e) ne ∙ p.frame m j lm lj e ne;
  table = q.table ∙ p.table;
  register = q.register ∙ p.register;
  flushes = q.flushes ∙ p.flushes;
}

-- Work on a page that was not held before is work on no other page that was.
pub Kept-fresh :
    (d e n n' : ℕ) (s t u : Machine)
    → locked s.pmm e ≡ false
    → Kept d n s t
    → Kept e n' t u
    → Kept d (n + n') s u
Kept-fresh d e n n' s t u free p q = record {
  valid = q.valid;
  total = q.total ∙ p.total;
  supply = omega (arith, p.supply, q.supply);
  locked_on = λ m h. q.locked_on m (p.locked_on m h);
  frame = λ m j lm lj h ne.
      q.frame m j lm lj (p.locked_on m h) (λ same. ground (arith, ap (locked s.pmm) same))
      ∙ p.frame m j lm lj h ne;
  table = q.table ∙ p.table;
  register = q.register ∙ p.register;
  flushes = q.flushes ∙ p.flushes;
}

-- A page was taken.
abbrev pub taken : Machine → Machine
taken s = record s { pmm = (pmm_request_pages 1 s.pmm).1 }

module _ (d : ℕ) (s : Machine) (valid : IsValid s.pmm) (small : page_total s.pmm ≤ 2 ^ 35)
    (p : Supplied s.pmm) where
  pub supplied_small : p.first < 2 ^ 35
  supplied_small = ground (arith, p.grant.in_memory, small)

  pub palloc_lem : palloc 1 s ≡ (page p.first, taken s)
  unfolding palloc
  palloc_lem =
      ap (λ (x : ℕ). (x, taken s))
        (ap addr_offset_higher p.at ∙ offset_higher-page p.first supplied_small)

  pub Kept-taken : Kept d 1 s (taken s)
  Kept-taken = record {
    valid = request-IsValid 1 s.pmm valid (InRange-one s.pmm valid);
    total = ground (arith, p.grant.total);
    supply = p.one_less;
    locked_on = λ m e. ground (arith, p.grant.bits m);
    frame = λ m j lm lj e ne. refl;
    table = refl;
    register = refl;
    flushes = refl;
  }

  pub Holds-taken : Holds p.first (taken s)
  Holds-taken = record {
    valid = Kept-taken.valid;
    small = ground (arith, Kept-taken.total, small);
    here = supplied_small;
    held = ground (arith, p.grant.bits p.first);
  }

  pub supplied_free : locked s.pmm p.first ≡ false
  supplied_free = p.grant.was_free p.first (omega arith) (omega arith)

-- Words of the page `d` were written.
pub Kept-written :
    (d : ℕ) (s t : Machine)
    → IsValid s.pmm
    → ((m j : ℕ) → m < 2 ^ 35 → j < 512 → m ≢ d → t.ram (slot (page m) j) ≡ s.ram (slot (page m) j))
    → t ≡ record s { ram = t.ram }
    → Kept d 0 s t
Kept-written d s t v same e = record {
  valid = subst IsValid (sym (ap (λ (x : Machine). x.pmm) e)) v;
  total = ap (λ (x : Machine). page_total x.pmm) e;
  supply = ground (arith, ap (λ (x : Machine). available x.pmm) e);
  locked_on = λ m h. ap (λ (x : Machine). locked x.pmm m) e ∙ h;
  frame = λ m j lm lj h ne. same m j lm lj ne;
  table = ap (λ (x : Machine). x.kernel_table) e;
  register = ap (λ (x : Machine). x.cr3) e;
  flushes = ap (λ (x : Machine). x.flushed) e;
}
