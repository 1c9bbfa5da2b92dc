-- ===== src/Boot/Start/Tags.antt =====
-- The list of tags that start.c searches.
use shed_os.Base.{
  ℕ, zero, suc, ◌+◌, ◌<◌, ◌≡◌, ◌≢◌, refl, ◌==◌, if◌then◌else◌, List, [], ◌∷◌, length, some, arith,
  eq→==, ne→==, Bool-cases, inl, inr,
}
use shed_os.Boot.Start.{stivale2_get_tag}

-- The tags from `a` on are at these addresses, and the last one leads to 0.
abbrev pub Linked : (ℕ → ℕ) → ℕ → List ℕ → Type 0
Linked read a [] = a ≡ 0
Linked read a (t ∷ ts) = (a ≡ t) × (t ≢ 0) × Linked read (read (t + 8)) ts

-- The first of the addresses whose identifier is `id`, or 0.
abbrev pub first_tag : (ℕ → ℕ) → (id : ℕ) → List ℕ → ℕ
first_tag read id [] = 0
first_tag read id (t ∷ ts) = let rest = first_tag read id ts in if read t == id then t else rest

-- With more fuel than there are tags the search ends, at the first tag with the identifier, or at NULL
-- where there is none.
pub get_tag_lem :
    (ts : List ℕ) (fuel a id : ℕ) (read : ℕ → ℕ)
    → Linked read a ts
    → length ts < fuel
    → stivale2_get_tag fuel a id read ≡ some (first_tag read id ts)
unfolding stivale2_get_tag
get_tag_lem ts zero a id read linked le = absurd (omega arith)
get_tag_lem [] (suc fuel) a id read linked le = rw (eq→== a 0 linked) refl
get_tag_lem (t ∷ ts) (suc fuel) a id read (at, live, linked) le =
    rw (at, ne→== t 0 live, get_tag_lem ts fuel (read (t + 8)) id read linked (omega arith))
      (elim (Bool-cases (read t == id)) [ inl k ↦ rw k refl | inr k ↦ rw k refl ])
