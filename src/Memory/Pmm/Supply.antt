-- ===== src/Memory/Pmm/Supply.antt =====
-- How many more single pages `pmm_request_pages` (pmm.c) hands out: the unmarked ones that its search,
-- which never goes back, has still before it.
use shed_os.Base.{
  ℕ, zero, suc, ◌+◌, ◌-◌, ◌*◌, ◌<◌, ◌≤◌, ◌≡◌, ap, ap₂, refl, ◌∙◌, Bool, true, if◌then◌else◌, arith,
}
use shed_os.Memory.Pmm.{Pmm, pmm_request_pages}
use shed_os.Memory.Pmm.Lock.{locked}
use shed_os.Memory.Pmm.Valid.{IsValid, page_total}
use shed_os.Memory.Pmm.Request.{InRange, Granted, granted, refused, request-Outcome, NoRun}

-- The unmarked ones of the `n` pages from `first` on.
unfoldable pub unmarked : (bits : ℕ → Bool) → (first n : ℕ) → ℕ
unmarked bits first zero = 0
unmarked bits first (suc n) = (if bits first then 0 else 1) + unmarked bits (first + 1) n

abbrev pub available : Pmm → ℕ
available s = unmarked (locked s) s.last_free (page_total s - s.last_free)

-- Marked pages count for nothing.
unmarked_skip :
    (bits : ℕ → Bool) (k first last n total : ℕ)
    → ((m : ℕ) → first ≤ m → m < first + k → bits m ≡ true)
    → last ≡ first + k
    → total ≡ k + n
    → unmarked bits first total ≡ unmarked bits last n
unfolding unmarked
unmarked_skip bits zero first last n total all e f =
    let here : first ≡ last = omega arith in
    let all_of : total ≡ n = omega arith in ap₂ (unmarked bits) here all_of
unmarked_skip bits (suc k) first last n zero all e f = absurd (omega arith)
unmarked_skip bits (suc k) first last n (suc total) all e f =
    let mark = all first (omega arith) (omega arith) in
    let rest =
      unmarked_skip bits k (first + 1) last n total (λ m a b. all m (omega arith) (omega arith))
        (omega arith) (omega arith) in
    rw mark (omega (arith, rest))

unmarked_same :
    (bits bits' : ℕ → Bool) (first n : ℕ)
    → ((m : ℕ) → first ≤ m → bits' m ≡ bits m)
    → unmarked bits' first n ≡ unmarked bits first n
unfolding unmarked
unmarked_same bits bits' first zero same = refl
unmarked_same bits bits' first (suc n) same = ground (
  arith,
  same first (omega arith),
  unmarked_same bits bits' (first + 1) n (λ m a. same m (omega arith)),
)

-- One page lies within the arithmetic of the page manager.
pub InRange-one : (s : Pmm) → IsValid s → InRange 1 s
InRange-one s v = ground (arith, v.within, v.counted.fits)

locked_before :
    (first last : ℕ) (s : Pmm)
    → NoRun 1 first last s
    → (m : ℕ) → first ≤ m
    → m < last
    → locked s m ≡ true
locked_before first last s run m a b =
    let (k, lo, hi, mark) = run m a b in ap (locked s) {x = m} {y = k} (omega arith) ∙ mark

-- A page that is granted.
pub record Supplied (s : Pmm) : Type 0 where
  pub first : ℕ
  pub at : (pmm_request_pages 1 s).0 ≡ 0x1000 * first
  pub grant : Granted 1 first s (pmm_request_pages 1 s).1
  pub one_less : available (pmm_request_pages 1 s).1 + 1 ≡ available s

pub one_less_lem : (first : ℕ) (s t : Pmm) → Granted 1 first s t → available t + 1 ≡ available s
unfolding unmarked
one_less_lem first s t g =
    let last = page_total s in
    let skipped =
      unmarked_skip (locked s) (first - s.last_free) s.last_free first (suc (last - (first + 1)))
        (last - s.last_free)
        (λ m a b. locked_before s.last_free first s g.earliest m a (ground (arith, g.searched)))
        (ground (arith, g.searched)) (ground (arith, g.searched, g.in_memory)) in
    let same =
      unmarked_same (locked s) (locked t) (first + 1) (last - (first + 1))
        (λ m a. ground (arith, g.bits m)) in
    ground (arith, skipped, same, g.next, g.total, g.was_free first)

-- A request of one page is granted while one is available, and then one less is.
pub supply_lem : (s : Pmm) → IsValid s → 1 ≤ available s → Supplied s
unfolding unmarked
supply_lem s v some_left = elim (request-Outcome 1 s v.bytes (InRange-one s v)) [
  | granted first at g ↦ record {
    first = first;
    at = at;
    grant = g;
    one_less = one_less_lem first s _ g;
  }
  | refused same run ↦ absurd (
      ground (
        arith,
        unmarked_skip (locked s) (page_total s - s.last_free) s.last_free
            (s.last_free + (page_total s - s.last_free)) 0 (page_total s - s.last_free)
            (λ m a b. locked_before s.last_free (page_total s) s run m a (omega arith)) refl
            (omega arith),
        none_left s,
      ))
]
  where
    none_left : (s : Pmm) → unmarked (locked s) (s.last_free + (page_total s - s.last_free)) 0 ≡ 0
    none_left s = refl
