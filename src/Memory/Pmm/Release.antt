-- ===== src/Memory/Pmm/Release.antt =====
-- `pmm_release_pages` of pmm.c: the pages become free, and where the next search starts.
use shed_os.Base.{
  ℕ, ◌+◌, ◌*◌, ◌/◌, ◌^◌, ◌<◌, ◌≤◌, ◌≡◌, ◌⊎◌, inl, inr, false, if◌then◌else◌, arith, min, ap,
}
use shed_os.Memory.Bitmap.{IsBytes}
use shed_os.Memory.Pmm.{Pmm, null, pmm_request_pages, pmm_release_pages}
use shed_os.Memory.Pmm.Lock.{
  locked, inside, locked-unlock_pages, unlock_pages-IsBytes, unlock_pages-SameRest,
}
use shed_os.Memory.Pmm.Request.{InRange, granted, refused, request-Outcome}

-- Releasing whole pages unmarks exactly these; `last_free` falls to the ADDRESS of the first one if
-- that is below it, and the sizes stay.
pub release_lem :
    (page count : ℕ) (s : Pmm) (m : ℕ)
    → IsBytes s.page_bitmap
    → page + 0x1000 * count < 2 ^ 64
    → let t = pmm_release_pages page count s in
      (locked t m ≡ (if inside (page / 0x1000) count m then false else locked s m))
      × (t.last_free ≡ min page s.last_free)
      × (t.total_memory ≡ s.total_memory)
unfolding pmm_release_pages
release_lem page count s m w h =
    ground (arith, locked-unlock_pages page count s m w h, unlock_pages-SameRest page count s)

release-IsBytes :
    (page count : ℕ) (s : Pmm)
    → IsBytes s.page_bitmap
    → IsBytes (pmm_release_pages page count s).page_bitmap
unfolding pmm_release_pages
release-IsBytes page count s w = record {
  byte = λ i. ground (arith, (unlock_pages-IsBytes page count s w).byte i);
}

-- `last_free` is a page number and is compared with an address. So where the first released page
-- has a number below `last_free`, and an address that is not, and the sizes stay in 64 bits, all
-- released pages are unmarked, but the next request answers NULL or pages from the old `last_free`
-- on: none of the released pages below it.
pub released_not_reused :
    (page count n : ℕ) (s : Pmm)
    → IsBytes s.page_bitmap
    → page + 0x1000 * count < 2 ^ 64
    → InRange n s
    → page / 0x1000 < s.last_free
    → s.last_free ≤ page
    → let t = pmm_release_pages page count s in
      let answer = (pmm_request_pages n t).0 in
      ((m : ℕ) → page / 0x1000 ≤ m → m < page / 0x1000 + count → locked t m ≡ false)
      × ((answer ≡ null) ⊎ (0x1000 * s.last_free ≤ answer))
released_not_reused page count n s w h r below above =
    (λ m a b. ground (arith, release_lem page count s m w h), answered)
  where
    t : Pmm
    t = pmm_release_pages page count s

    answered :
        ((pmm_request_pages n t).0 ≡ null) ⊎ (0x1000 * s.last_free ≤ (pmm_request_pages n t).0)
    answered =
        elim (request-Outcome n t (release-IsBytes page count s w)
          (ground (arith, release_lem page count s 0 w h))) [
            | granted first at g ↦
                inr (ground (arith, at, g.searched, release_lem page count s 0 w h))
            | refused same no_run ↦ inl (ap (λ (o : ℕ × Pmm). o.0) same)
          ]
