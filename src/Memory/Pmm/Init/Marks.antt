-- ===== src/Memory/Pmm/Init/Marks.antt =====
-- Which pages are marked after `pmm_initialize` (pmm.c).
use shed_os.Base.{
  ℕ, ◌+◌, ◌*◌, ◌/◌, ◌^◌, ◌<◌, ◌≡◌, inl, inr, refl, Bool, true, false, not, ◌&&◌, ◌||◌, ◌==◌, none,
  some, List, [], ◌∷◌, arith, Bool-cases,
}
use shed_os.Memory.Bitmap.{IsBytes}
use shed_os.Memory.Bitmap.Laws.{isset-full}
use shed_os.Memory.Pmm.{Pmm, unlock_pages}
use shed_os.Memory.Pmm.Lock.{
  locked, inside, SameRest, locked-lock_pages, locked-unlock_pages, unlock_pages-IsBytes,
  unlock_pages-SameRest,
}
use shed_os.Memory.Pmm.Init.{
  MmapEntry, mmap_usable, scan, unlock_usable, all_locked, set_up, pmm_initialize,
}

-- Page number `m` belongs to a usable entry.
abbrev pub usable : MmapEntry → Bool
usable e = e.type == mmap_usable

abbrev pub usable_page : List MmapEntry → ℕ → Bool
usable_page [] m = false
usable_page (e ∷ es) m =
    (usable e && inside (e.base / 0x1000) (e.length / 0x1000) m) || usable_page es m

-- No entry runs over the end of the address space.
abbrev pub AllFit : List MmapEntry → Type 0
AllFit [] = Unit {0}
AllFit (e ∷ es) = (e.base + e.length < 2 ^ 64) × AllFit es

module _ (m : ℕ) where
  pub locked-unlock_usable :
      (es : List MmapEntry) (s : Pmm)
      → AllFit es
      → IsBytes s.page_bitmap
      → locked (unlock_usable es s) m ≡ (locked s m && not (usable_page es m))
  unfolding unlock_usable
  locked-unlock_usable [] s fit w = ground arith
  locked-unlock_usable (e ∷ es) s fit w = elim (Bool-cases (usable e)) [
    | inl u ↦ rw u (
        ground (
          arith,
          locked-unlock_pages e.base (e.length / 0x1000) s m w,
          locked-unlock_usable es (unlock_pages e.base (e.length / 0x1000) s).1 fit.1
              (unlock_pages-IsBytes e.base (e.length / 0x1000) s w),
        ))
    | inr u ↦ rw u (ground (arith, locked-unlock_usable es s fit.1 w))
  ]

pub unlock_usable-IsBytes :
    (es : List MmapEntry) (s : Pmm)
    → IsBytes s.page_bitmap
    → IsBytes (unlock_usable es s).page_bitmap
unfolding unlock_usable
unlock_usable-IsBytes [] s w = w
unlock_usable-IsBytes (e ∷ es) s w = elim (Bool-cases (usable e)) [
  | inl u ↦
      rw (u, unlock_usable)
        (unlock_usable-IsBytes es _ (unlock_pages-IsBytes e.base (e.length / 0x1000) s w))
  | inr u ↦ rw (u, unlock_usable) (unlock_usable-IsBytes es s w)
]

pub unlock_usable-SameRest : (es : List MmapEntry) (s : Pmm) → SameRest s (unlock_usable es s)
unfolding unlock_usable
unlock_usable-SameRest [] s = ground arith
unlock_usable-SameRest (e ∷ es) s = elim (Bool-cases (usable e)) [
  | inl u ↦
      rw (u, unlock_usable)
        (ground (
          arith,
          unlock_pages-SameRest e.base (e.length / 0x1000) s,
          unlock_usable-SameRest es (unlock_pages e.base (e.length / 0x1000) s).1,
        ))
  | inr u ↦ rw (u, unlock_usable) (unlock_usable-SameRest es s)
]

abbrev pub bitmap_len : ℕ → ℕ
bitmap_len total = total / (0x1000 * 8) + 1

pub all_locked-IsBytes :
    (mem : ℕ → ℕ) (total : ℕ) (l : MmapEntry)
    → ((i : ℕ) → mem i < 256)
    → IsBytes (all_locked mem total l).page_bitmap
unfolding all_locked
all_locked-IsBytes mem total l bytes = record { byte = λ i. ground (arith, bytes (l.base + i)) }

pub locked-all_locked :
    (mem : ℕ → ℕ) (total : ℕ) (l : MmapEntry) (m : ℕ)
    → m < 8 * bitmap_len total
    → locked (all_locked mem total l) m ≡ true
unfolding all_locked
locked-all_locked mem total l m h = isset-full _ m (ground arith)

pub len-all_locked :
    (mem : ℕ → ℕ) (total : ℕ) (l : MmapEntry)
    → (all_locked mem total l).page_bitmap.len ≡ bitmap_len total
unfolding all_locked
len-all_locked mem total l = refl

pub total-all_locked :
    (mem : ℕ → ℕ) (total : ℕ) (l : MmapEntry) → (all_locked mem total l).total_memory ≡ total
unfolding all_locked
total-all_locked mem total l = refl

module _ (mem : ℕ → ℕ) (es : List MmapEntry) (total : ℕ) (l : MmapEntry) where
  abbrev unlocked : Pmm
  unlocked = unlock_usable es (all_locked mem total l)

  len-unlocked : unlocked.page_bitmap.len ≡ bitmap_len total
  len-unlocked =
      ground (arith, unlock_usable-SameRest es (all_locked mem total l), len-all_locked mem total l)

  set_up_marks :
      (m : ℕ)
      → ((i : ℕ) → mem i < 256)
      → AllFit es
      → l.base + bitmap_len total < 2 ^ 64
      → m < 8 * bitmap_len total
      → locked (set_up mem es total l) m
        ≡ (inside (l.base / 0x1000) (bitmap_len total / 0x1000) m || not (usable_page es m))
  unfolding set_up
  set_up_marks m bytes fit room le = ground (
    arith,
    len-unlocked,
    locked-lock_pages l.base (unlocked.page_bitmap.len / 0x1000) unlocked m
        (unlock_usable-IsBytes es _ (all_locked-IsBytes mem total l bytes)),
    locked-unlock_usable m es (all_locked mem total l) fit (all_locked-IsBytes mem total l bytes),
    locked-all_locked mem total l m le,
  )

-- After initialisation page number `m` of the bitmap is marked exactly when it is one of the
-- `len / 0x1000` pages from the start of the bitmap on, or belongs to no usable entry.
pub init_marks :
    (mem : ℕ → ℕ) (es : List MmapEntry) (total : ℕ) (l : MmapEntry) (m : ℕ)
    → ((i : ℕ) → mem i < 256)
    → AllFit es
    → l.base + bitmap_len total < 2 ^ 64
    → scan es 0 none ≡ (total, some l)
    → m < 8 * bitmap_len total
    → (s : Pmm) × (pmm_initialize mem es ≡ some s)
      × (locked s m
          ≡ (inside (l.base / 0x1000) (bitmap_len total / 0x1000) m || not (usable_page es m)))
unfolding pmm_initialize
init_marks mem es total l m bytes fit room found le =
    (set_up mem es total l, ground arith, set_up_marks mem es total l m bytes fit room le)
