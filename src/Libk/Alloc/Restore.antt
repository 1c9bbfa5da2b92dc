-- ===== src/Libk/Alloc/Restore.antt =====
-- `mfree` after `malloc` (alloc.c).
use mathlib.Core.Option.{some-injective}
use shed_os.Base.{
  ℕ, ◌+◌, ◌-◌, ◌||◌, ltb, subst, sym, ap, ◌∙◌, ◌<◌, ◌≤◌, ◌≡◌, ◌≢◌, ◌⊎◌, true, false, ne→==, eq→==,
  List, [], ◌∷◌, length, arith, Bool-cases, inl, inr, refl, some,
}
use shed_os.Libk.Alloc.{Heap, hdr_size, malloc, mfree, prev_hdr}
use shed_os.Libk.Alloc.Chain.{Chunk, Chain, behind}
use shed_os.Libk.Alloc.Place.{Placed, place, place_skip, place_take, after_inv, malloc_lem}
use shed_os.Libk.Alloc.Free.{give_back, IsHeader, mfree_lem}

-- What first fit cut is a header of the new chunks, and giving it back restores the old ones.
abbrev Restores : (a : ℕ) → List Chunk → Placed → Type 0
Restores a cs (b, ds) = (a ≤ b) × IsHeader a b ds × (give_back a b ds ≡ cs)

Restores-here :
    (a need : ℕ) (c : Chunk) (cs : List Chunk)
    → hdr_size ≤ need
    → c.used || ltb c.n need ≡ false
    → Restores a (c ∷ cs) (
      a,
      record { n = need - hdr_size; used = true } ∷ record { n = c.n - need; used = false } ∷ cs,
    )
Restores-here a need c cs lo k =
    (omega arith, inl refl, rw (eq→== a a refl) (ap (λ (x : Chunk). x ∷ cs) (ground arith)))

restores :
    (cs : List Chunk) (a need b : ℕ) (ds : List Chunk)
    → hdr_size ≤ need
    → place a need cs ≡ some (b, ds)
    → Restores a cs (b, ds)
restores [] a need b ds lo e = ground arith
restores (c ∷ cs) a need b ds lo e = elim (Bool-cases (c.used || ltb c.n need)) [
  | inl k ↦
      (let (es, at, front) =
          after_inv c (place (behind a c.n) need cs) b ds (sym (place_skip a need c cs k) ∙ e) in
        let (up, header, back) = restores cs (behind a c.n) need b es lo at in
        (
          omega arith,
          subst (IsHeader a b) (sym front) (inr header),
          subst (λ (x : List Chunk). give_back a b x ≡ c ∷ cs) (sym front)
              (rw (ne→== a b (omega arith), give_back) (ap (λ (x : List Chunk). c ∷ x) back)),
        ))
  | inr k ↦
      subst (Restores a (c ∷ cs)) (some-injective _ (b, ds) (sym (place_take a need c cs k) ∙ e))
        (Restores-here a need c cs lo k)
]

-- Freeing what `malloc` just answered from a free chunk gives the old chunks back, when the header in
-- front is not taken for a free one.
pub mfree-malloc :
    (cs : List Chunk) (fuel n alignment t b : ℕ) (ds : List Chunk) (s s' : Heap)
    → Chain s.hdrs s.start cs t
    → place s.start (n + hdr_size) cs ≡ some (b, ds)
    → length cs < fuel
    → 0 < n
    → (s.hdrs b).size ≢ n + hdr_size
    → malloc fuel n alignment s ≡ some (b + hdr_size, s')
    → ((s'.hdrs b).size_prev ≡ 0) ⊎ ((s'.hdrs (prev_hdr s'.hdrs b)).in_use ≡ true)
    → Chain (mfree (b + hdr_size) s').hdrs (mfree (b + hdr_size) s').start cs t
      × ((mfree (b + hdr_size) s').machine ≡ s.machine)
mfree-malloc cs fuel n alignment t b ds s s' ch e le pos ne run front =
    let (m, ran, chain, start, machine) = malloc_lem cs fuel n alignment t b ds s ch e le pos ne in
    let (up, header, back) = restores cs s.start (n + hdr_size) b ds (omega arith) e in
    let same : m ≡ s' =
      ap (λ (x : ℕ × Heap). x.1) (some-injective _ (b + hdr_size, s') (sym ran ∙ run)) in
    let now : Chain s'.hdrs s'.start ds t =
      subst (λ (x : Heap). Chain x.hdrs x.start ds t) same
        (subst (λ (x : ℕ). Chain m.hdrs x ds t) (sym start) chain) in
    let begin : s'.start ≡ s.start = subst (λ (x : Heap). x.start ≡ s.start) same start in
    let (freed, kept) =
      mfree_lem ds b t s' now (subst (λ (x : ℕ). IsHeader x b ds) (sym begin) header) front in
    (
      subst
          (λ (x : List Chunk).
            Chain (mfree (b + hdr_size) s').hdrs (mfree (b + hdr_size) s').start x t)
          (ap (λ (x : ℕ). give_back x b ds) begin ∙ back) freed,
      kept ∙ subst (λ (x : Heap). x.machine ≡ s.machine) same machine,
    )
