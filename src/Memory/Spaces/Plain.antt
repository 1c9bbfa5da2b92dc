-- ===== src/Memory/Spaces/Plain.antt =====
-- Tables below which no huge page stands, as the recursions of paging.c over whole address spaces go
-- through them.
use shed_os.Base.{
  ℕ, zero, suc, ◌+◌, ◌<◌, ◌≤◌, ◌≡◌, sym, subst, true, false, arith, Bool-cases, inl, inr,
}
use shed_os.Memory.Paging.{present, huge, slot, table_of}
use shed_os.Memory.Paging.Walk.{walk, absent, HugeFree, Indices, walk_down}
use shed_os.Memory.Spaces.{entries}

-- Of the entries that the recursion visits below `t`, those of tables point to tables.
abbrev pub IsPlain : (below t : ℕ) → (ℕ → ℕ) → Type 0
IsPlain zero t ram = Unit {0}
IsPlain (suc below) t ram =
    (i : ℕ)
    → i < entries (suc below + 1)
    → present (ram (slot t i)) ≡ true
    → (huge (ram (slot t i)) ≡ false) × IsPlain below (table_of (ram (slot t i))) ram

pub entries-le : (level : ℕ) → entries level ≤ 512
entries-le level = ground arith

pub IsPlain-HugeFree :
    (below t : ℕ) (ram ix : ℕ → ℕ)
    → below ≤ 3
    → IsPlain below t ram
    → Indices ix
    → ix below < entries (below + 1)
    → HugeFree (walk below ix t ram)
unfolding walk
IsPlain-HugeFree zero t ram ix le plain li lt = tt
IsPlain-HugeFree (suc below) t ram ix le plain li lt =
    elim (Bool-cases (present (ram (slot t (ix (suc below)))))) [
      | inl p ↦
          let (h, rest) = plain (ix (suc below)) (ground arith) p in
          subst HugeFree (sym (walk_down below ix t ram p h)) (
            IsPlain-HugeFree below (table_of (ram (slot t (ix (suc below))))) ram ix (omega arith)
              rest li (ground (arith, li below)))
      | inr p ↦ subst HugeFree {x = absent} {y = walk (suc below) ix t ram} (ground arith) tt
    ]
