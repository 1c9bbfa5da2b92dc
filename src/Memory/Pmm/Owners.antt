-- ===== src/Memory/Pmm/Owners.antt =====
-- Runs of pmm.c: requests and releases in any order, and who holds which pages.
use shed_os.Base.{
  ℕ, ◌+◌, ◌*◌, ◌/◌, ◌^◌, ◌<◌, ◌≤◌, ◌≡◌, ◌≢◌, ◌⊎◌, inl, inr, sym, ap, ◌∙◌, subst, true, false,
  Option, none, some, arith, update, eq_cases,
}
use mathlib.Core.Option.{some-injective, none-ne-some}
use shed_os.Memory.Pmm.{Pmm, null, pmm_request_pages, pmm_release_pages}
use shed_os.Memory.Pmm.Lock.{locked}
use shed_os.Memory.Pmm.Request.{InRange, granted, refused, request-Outcome}
use shed_os.Memory.Pmm.Release.{release_lem}
use shed_os.Memory.Pmm.Valid.{IsValid, page_total, request-IsValid, release-IsValid, Granted-within}

-- A run of pages: the number of the first one, and how many.
abbrev pub Block : Type 0
Block = ℕ × ℕ

-- The page manager, and the block that each owner holds.
pub record Owners : Type 0 where
  pub pmm : Pmm
  pub holds : ℕ → Option Block

-- An owner without pages asks for some and gets them or NULL, or one gives back what it holds.
pub data Step : Owners → Owners → Type 0 where
  takes :
      (id count : ℕ) (w : Owners)
      → w.holds id ≡ none
      → InRange count w.pmm
      → (pmm_request_pages count w.pmm).0 ≢ null
      → Step w (record {
        pmm = (pmm_request_pages count w.pmm).1;
        holds = update w.holds id (some ((pmm_request_pages count w.pmm).0 / 0x1000, count));
      })
  misses :
      (count : ℕ) (w : Owners)
      → InRange count w.pmm
      → (pmm_request_pages count w.pmm).0 ≡ null
      → Step w (record w { pmm = (pmm_request_pages count w.pmm).1 })
  returns :
      (id first count : ℕ) (w : Owners)
      → w.holds id ≡ some (first, count)
      → Step w (record {
        pmm = pmm_release_pages (0x1000 * first) count w.pmm;
        holds = update w.holds id none;
      })

pub data Steps : Owners → Owners → Type 0 where
  start : (w : Owners) → Steps w w
  then_step : (w w1 w2 : Owners) → Steps w w1 → Step w1 w2 → Steps w w2

-- Every page that someone holds is managed and marked, and no page has two owners.
pub record IsOwned (w : Owners) : Type 0 where
  pub valid : IsValid w.pmm
  pub small : w.pmm.total_memory < 2 ^ 64
  pub within :
      (id first count : ℕ) → w.holds id ≡ some (first, count) → first + count ≤ page_total w.pmm
  pub marked :
      (id first count m : ℕ)
      → w.holds id ≡ some (first, count)
      → first ≤ m
      → m < first + count
      → locked w.pmm m ≡ true
  pub alone :
      (id id' first count first' count' m : ℕ)
      → w.holds id ≡ some (first, count)
      → w.holds id' ≡ some (first', count')
      → first ≤ m
      → m < first + count
      → first' ≤ m
      → m < first' + count'
      → id ≡ id'

request_keeps :
    (count : ℕ) (s : Pmm)
    → IsValid s
    → InRange count s
    → ((m : ℕ) → locked s m ≡ true → locked (pmm_request_pages count s).1 m ≡ true)
      × ((pmm_request_pages count s).1.total_memory ≡ s.total_memory)
request_keeps count s v r = elim (request-Outcome count s v.bytes r) [
  | granted first at g ↦ (λ m l. ground (arith, g.bits m, l), g.total)
  | refused same run ↦ (
    λ m l. ap (λ (o : ℕ × Pmm). locked o.1 m) same ∙ l,
    ap (λ (o : ℕ × Pmm). o.1.total_memory) same,
  )
]

-- The block that a request brings.
record Brings (count first : ℕ) (s t : Pmm) : Type 0 where
  fits : first + count ≤ page_total s
  was_free : (m : ℕ) → first ≤ m → m < first + count → locked s m ≡ false
  taken : (m : ℕ) → first ≤ m → m < first + count → locked t m ≡ true

request-Brings :
    (count : ℕ) (s : Pmm)
    → IsValid s
    → InRange count s
    → (pmm_request_pages count s).0 ≢ null
    → Brings count ((pmm_request_pages count s).0 / 0x1000) s (pmm_request_pages count s).1
request-Brings count s v r had = elim (request-Outcome count s v.bytes r) [
  | granted first at g ↦
      subst (λ (x : ℕ). Brings count x s (pmm_request_pages count s).1) {x = first}
        {y = (pmm_request_pages count s).0 / 0x1000} (omega (arith, at))
        (record {
          fits = Granted-within count first s _ v g;
          was_free = g.was_free;
          taken = λ m a b. ground (arith, g.bits m);
        })
  | refused same run ↦ absurd (had (ap (λ (o : ℕ × Pmm). o.0) same))
]

-- Who holds a block after one entry has changed.
updated :
    (h : ℕ → Option Block) (id : ℕ) (b : Option Block) (id' : ℕ) (c : Block)
    → update h id b id' ≡ some c
    → ((id' ≡ id) × (b ≡ some c)) ⊎ ((id' ≢ id) × (h id' ≡ some c))
updated h id b id' c e = elim (eq_cases id' id) [
  | inl same ↦ inl (same, ground (arith, same, e))
  | inr ne ↦ inr (ne, ground (arith, ne, e))
]

same_block :
    (a k first count : ℕ)
    → ◌≡◌ {A = Option Block} (some (a, k)) (some (first, count))
    → (a ≡ first) × (k ≡ count)
same_block a k first count e =
    let p = some-injective _ _ e in (ap (λ (b : Block). b.0) p, ap (λ (b : Block). b.1) p)

Step-IsOwned : (w w' : Owners) → Step w w' → IsOwned w → IsOwned w'
Step-IsOwned _ _ (takes id count w none_yet r had) o =
    let keeps = request_keeps count w.pmm o.valid r in
    let b = request-Brings count w.pmm o.valid r had in
    let a = (pmm_request_pages count w.pmm).0 / 0x1000 in
    record {
      valid = request-IsValid count w.pmm o.valid r;
      small = ground (arith, keeps.1, o.small);
      within = λ x first k e. elim (updated w.holds id (some (a, count)) x (first, k) e) [
        | inl (same, new) ↦ ground (arith, same_block a count first k new, b.fits, keeps.1)
        | inr (ne, old) ↦ ground (arith, o.within x first k old, keeps.1)
      ];
      marked = λ x first k m e l u. elim (updated w.holds id (some (a, count)) x (first, k) e) [
        | inl (same, new) ↦ ground (arith, same_block a count first k new, b.taken m)
        | inr (ne, old) ↦ keeps.0 m (o.marked x first k m old l u)
      ];
      alone = λ x y first k first' k' m e e' l u l' u'.
          elim (updated w.holds id (some (a, count)) x (first, k) e) [
            | inl (same, new) ↦ elim (updated w.holds id (some (a, count)) y (first', k') e') [
              | inl (same', new') ↦ same ∙ sym same'
              | inr (ne', old') ↦ ground (
                arith,
                same_block a count first k new,
                b.was_free m,
                o.marked y first' k' m old' l' u',
              )
            ]
            | inr (ne, old) ↦ elim (updated w.holds id (some (a, count)) y (first', k') e') [
              | inl (same', new') ↦ ground (
                arith,
                same_block a count first' k' new',
                b.was_free m,
                o.marked x first k m old l u,
              )
              | inr (ne', old') ↦ o.alone x y first k first' k' m old old' l u l' u'
            ]
          ];
    }
Step-IsOwned _ _ (misses count w r null_answer) o =
    let keeps = request_keeps count w.pmm o.valid r in
    record {
      valid = request-IsValid count w.pmm o.valid r;
      small = ground (arith, keeps.1, o.small);
      within = λ x first k e. ground (arith, o.within x first k e, keeps.1);
      marked = λ x first k m e l u. keeps.0 m (o.marked x first k m e l u);
      alone = o.alone;
    }
Step-IsOwned _ _ (returns id first count w mine) o =
    let fits = o.within id first count mine in
    let after = λ (m : ℕ).
      release_lem (0x1000 * first) count w.pmm m o.valid.bytes (ground (arith, fits, o.small)) in
    record {
      valid = release-IsValid (0x1000 * first) count w.pmm o.valid (omega (arith, fits));
      small = ground (arith, after 0, o.small);
      within = λ x first' k e. elim (updated w.holds id none x (first', k) e) [
        | inl (same, new) ↦ absurd (none-ne-some _ new)
        | inr (ne, old) ↦ ground (arith, o.within x first' k old, after 0)
      ];
      marked = λ x first' k m e l u. elim (updated w.holds id none x (first', k) e) [
        | inl (same, new) ↦ absurd (none-ne-some _ new)
        | inr (ne, old) ↦ ground (
          arith,
          o.marked x first' k m old l u,
          after m,
          ne,
          o.alone x id first' k first count m old mine l u,
        )
      ];
      alone = λ x y first1 k first' k' m e e' l u l' u'.
          elim (updated w.holds id none x (first1, k) e) [
            | inl (same, new) ↦ absurd (none-ne-some _ new)
            | inr (ne, old) ↦ elim (updated w.holds id none y (first', k') e') [
              | inl (same', new') ↦ absurd (none-ne-some _ new')
              | inr (ne', old') ↦ o.alone x y first1 k first' k' m old old' l u l' u'
            ]
          ];
    }

Steps-IsOwned : (w w' : Owners) → Steps w w' → IsOwned w → IsOwned w'
Steps-IsOwned w _ (start _) o = o
Steps-IsOwned w _ (then_step _ w1 w2 before last) o =
    Step-IsOwned w1 w2 last (Steps-IsOwned w w1 before o)

abbrev pub unowned : Pmm → Owners
unowned s = record { pmm = s; holds = λ id. none }

-- From a page manager in order, of less than 2 ^ 64 bytes, whose pages nobody holds yet: in every state
-- that requests and releases of blocks lead to, in whatever order, the page manager is in order, every
-- page that someone holds is managed and marked, and no page has two owners.
pub reached-IsOwned :
    (s : Pmm) (w : Owners) → IsValid s → s.total_memory < 2 ^ 64 → Steps (unowned s) w → IsOwned w
reached-IsOwned s w valid small run = Steps-IsOwned (unowned s) w run (record {
  valid = valid;
  small = small;
  within = λ id first count e. absurd (none-ne-some _ e);
  marked = λ id first count m e l u. absurd (none-ne-some _ e);
  alone = λ x y first k first' k' m e e' l u l' u'. absurd (none-ne-some _ e);
})
