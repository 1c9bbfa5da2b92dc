-- ===== src/Memory/Pmm/Valid.antt =====
-- The invariant of pmm.c once it is initialised, and that every operation keeps it.
use shed_os.Base.{
  ℕ, ◌+◌, ◌/◌, ◌<◌, ◌≤◌, ◌≡◌, inl, inr, true, if◌then◌else◌, arith, ltb, lt_cases, lt→ltb, le→ltb,
  subst, sym, ap,
}
use shed_os.Base.Word.{add64, mul64}
use shed_os.Memory.Bitmap.{IsBytes}
use shed_os.Memory.Pmm.{Pmm, lock_pages, unlock_pages, pmm_request_pages, pmm_release_pages}
use shed_os.Memory.Pmm.Lock.{
  locked, locked-lock_pages, lock_pages-IsBytes, lock_pages-SameRest, locked-unlock_pages,
  unlock_pages-IsBytes, unlock_pages-SameRest,
}
use shed_os.Memory.Pmm.Count.{IsCounted, managed, lock_pages_count, unlock_pages_count}
use shed_os.Memory.Pmm.Request.{InRange, Granted, granted, refused, request-Outcome}

-- The number of pages that the memory map names: the bound of the search.
abbrev pub page_total : Pmm → ℕ
page_total s = s.total_memory / 0x1000

-- The bitmap has a bit behind the last page, which stays marked, so that no run goes past the end.
pub record IsValid (s : Pmm) : Type 0 where
  pub bytes : IsBytes s.page_bitmap
  pub counted : IsCounted s
  pub within : page_total s < managed s
  pub guard : locked s (page_total s) ≡ true

pub lock_pages-IsValid :
    (paddr n : ℕ) (s : Pmm)
    → IsValid s
    → paddr / 0x1000 + n ≤ page_total s
    → IsValid (lock_pages paddr n s).1
lock_pages-IsValid paddr n s v le = record {
  bytes = lock_pages-IsBytes paddr n s v.bytes;
  counted = (lock_pages_count paddr n s v.bytes v.counted (ground (arith, v.within))).counted;
  within = ground (arith, v.within, lock_pages-SameRest paddr n s);
  guard = ground (
    arith,
    v.guard,
    lock_pages-SameRest paddr n s,
    locked-lock_pages paddr n s (page_total s) v.bytes,
  );
}

pub unlock_pages-IsValid :
    (paddr n : ℕ) (s : Pmm)
    → IsValid s
    → paddr / 0x1000 + n ≤ page_total s
    → IsValid (unlock_pages paddr n s).1
unlock_pages-IsValid paddr n s v le = record {
  bytes = unlock_pages-IsBytes paddr n s v.bytes;
  counted = (unlock_pages_count paddr n s v.bytes v.counted (ground (arith, v.within))).counted;
  within = ground (arith, v.within, unlock_pages-SameRest paddr n s);
  guard = ground (
    arith,
    v.guard,
    v.within,
    v.counted.fits,
    unlock_pages-SameRest paddr n s,
    locked-unlock_pages paddr n s (page_total s) v.bytes,
  );
}

-- Releasing pages of managed memory keeps the invariant.
pub release-IsValid :
    (page count : ℕ) (s : Pmm)
    → IsValid s
    → page / 0x1000 + count ≤ page_total s
    → IsValid (pmm_release_pages page count s)
unfolding pmm_release_pages
release-IsValid page count s v le = moved (unlock_pages-IsValid page count s v le)
  where
    s' : Pmm
    s' = (unlock_pages page count s).1

    moved :
        IsValid s' → IsValid (if ltb page s'.last_free then record s' { last_free = page } else s')
    moved u = elim (lt_cases page s'.last_free) [
      | inl h ↦ rw (lt→ltb page s'.last_free h) (record {
        bytes = u.bytes;
        counted = ground (arith, u.counted);
        within = u.within;
        guard = u.guard;
      })
      | inr h ↦ rw (le→ltb page s'.last_free h) u
    ]

-- A run that is handed out ends before the end of memory.
pub Granted-within :
    (count first : ℕ) (s t : Pmm)
    → IsValid s
    → Granted count first s t
    → first + count ≤ page_total s
Granted-within count first s t v g = elim (lt_cases (page_total s) (first + count)) [
  | inl over ↦ ground (arith, v.guard, g.in_memory, g.was_free (page_total s))
  | inr fits ↦ fits
]

Granted-IsValid : (count first : ℕ) (s t : Pmm) → IsValid s → Granted count first s t → IsValid t
Granted-IsValid count first s t v g =
    subst IsValid (sym g.made) (lock_pages-IsValid (mul64 first 0x1000) count start valid le)
  where
    start : Pmm
    start = record s { last_free = add64 first count }

    valid : IsValid start
    valid = record {
      bytes = v.bytes;
      counted = ground (arith, v.counted);
      within = v.within;
      guard = v.guard;
    }

    le : mul64 first 0x1000 / 0x1000 + count ≤ page_total s
    le = ground (arith, Granted-within count first s t v g, v.within, v.counted.fits)

-- A request keeps the invariant, whatever it answers.
pub request-IsValid :
    (count : ℕ) (s : Pmm) → IsValid s → InRange count s → IsValid (pmm_request_pages count s).1
request-IsValid count s v r = elim (request-Outcome count s v.bytes r) [
  | granted first at g ↦ Granted-IsValid count first s _ v g
  | refused same no_run ↦ subst IsValid (sym (ap (λ (o : ℕ × Pmm). o.1) same)) v
]
