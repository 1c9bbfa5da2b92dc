-- ===== src/Memory/Paging/Extends.antt =====
-- Memory in which the tables of another one stand unchanged, with every reading of them: what
-- `paging_map` (paging.c) leaves alone while it makes tables.
use shed_os.Base.{ℕ, suc, ◌<◌, ◌≤◌, ◌≡◌, ◌≢◌, refl, ◌∙◌, true, arith}
use shed_os.Memory.Paging.{present, slot}
use shed_os.Memory.Paging.Walk.{walk, read, HugeFree, Indices}

-- `t` has the tables of `s`, their entries, and every reading of them.
pub record Extends (level level' : ℕ → ℕ) (r r' : ℕ → ℕ) : Type 0 where
  pub keeps_level : (u : ℕ) → level u ≢ 0 → level' u ≡ level u
  pub keeps_entry :
      (u j : ℕ)
      → j < 512
      → 2 ≤ level u
      → present (r (slot u j)) ≡ true
      → r' (slot u j) ≡ r (slot u j)
  pub keeps_read :
      (l : ℕ) (ix : ℕ → ℕ) (u : ℕ)
      → Indices ix
      → level u ≡ suc l
      → read (walk l ix u r') r' ≡ read (walk l ix u r) r
  pub keeps_plain :
      (l : ℕ) (ix : ℕ → ℕ) (u : ℕ)
      → Indices ix
      → level u ≡ suc l
      → HugeFree (walk l ix u r)
      → HugeFree (walk l ix u r')

pub Extends-refl : (level r : ℕ → ℕ) → Extends level level r r
Extends-refl level r = record {
  keeps_level = λ u h. refl;
  keeps_entry = λ u j a b c. refl;
  keeps_read = λ l ix u a b. refl;
  keeps_plain = λ l ix u a b h. h;
}

pub Extends-trans :
    (level level' level'' r r' r'' : ℕ → ℕ)
    → Extends level level' r r'
    → Extends level' level'' r' r''
    → Extends level level'' r r''
Extends-trans level level' level'' r r' r'' e f = record {
  keeps_level = λ u h. f.keeps_level u (ground (arith, e.keeps_level u h)) ∙ e.keeps_level u h;
  keeps_entry = λ u j a b c.
      f.keeps_entry u j a (ground (arith, e.keeps_level u (omega arith)))
        (ground (arith, e.keeps_entry u j a b c))
      ∙ e.keeps_entry u j a b c;
  keeps_read = λ l ix u a b.
      f.keeps_read l ix u a (ground (arith, e.keeps_level u (omega arith)))
      ∙ e.keeps_read l ix u a b;
  keeps_plain = λ l ix u a b h.
      f.keeps_plain l ix u a (ground (arith, e.keeps_level u (omega arith)))
        (e.keeps_plain l ix u a b h);
}
