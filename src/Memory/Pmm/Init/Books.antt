-- ===== src/Memory/Pmm/Init/Books.antt =====
-- `pmm_initialize` (pmm.c) establishes the invariant of the later operations.
use shed_os.Base.{
  ℕ, zero, suc, ◌+◌, ◌*◌, ◌/◌, ◌^◌, ◌<◌, ◌≤◌, ◌≡◌, inl, inr, refl, none, some, List, [], ◌∷◌, arith,
  Bool-cases, true, subst, sym,
}
use shed_os.Memory.Pmm.{Pmm}
use shed_os.Memory.Pmm.Lock.{unlock_pages-SameRest}
use shed_os.Memory.Pmm.Count.{free_pages}
use shed_os.Memory.Pmm.Valid.{IsValid, page_total, lock_pages-IsValid, unlock_pages-IsValid}
use shed_os.Memory.Pmm.Init.{MmapEntry, scan, unlock_usable, all_locked, set_up, pmm_initialize}
use shed_os.Memory.Pmm.Init.Marks.{
  usable, bitmap_len, all_locked-IsBytes, locked-all_locked, len-all_locked, total-all_locked,
  unlock_usable-SameRest,
}

-- Each usable entry lies below the number of pages that the map adds up to.
abbrev pub AllBelow : ℕ → List MmapEntry → Type 0
AllBelow total [] = Unit {0}
AllBelow total (e ∷ es) =
    (usable e ≡ true → e.base / 0x1000 + e.length / 0x1000 ≤ total / 0x1000) × AllBelow total es

unlock_usable-IsValid :
    (es : List MmapEntry) (s : Pmm)
    → AllBelow s.total_memory es
    → IsValid s
    → IsValid (unlock_usable es s)
unfolding unlock_usable
unlock_usable-IsValid [] s below v = v
unlock_usable-IsValid (e ∷ es) s below v = elim (Bool-cases (usable e)) [
  | inl u ↦
      rw (u, unlock_usable)
        (unlock_usable-IsValid es _
          (subst (λ (t : ℕ). AllBelow t es)
            (sym (unlock_pages-SameRest e.base (e.length / 0x1000) s).total_memory) below.1)
          (unlock_pages-IsValid e.base (e.length / 0x1000) s v (below.0 u)))
  | inr u ↦ rw (u, unlock_usable) (unlock_usable-IsValid es s below.1 v)
]

module _ (mem : ℕ → ℕ) (total : ℕ) (l : MmapEntry) (bytes : (i : ℕ) → mem i < 256) where
  none_free :
      (n : ℕ) → n ≤ 8 * bitmap_len total → free_pages (all_locked mem total l).page_bitmap n ≡ 0
  unfolding free_pages
  none_free zero h = refl
  none_free (suc n) h = ground (arith, none_free n, locked-all_locked mem total l n h)

  all_locked-IsValid : total + 0x8000 < 2 ^ 64 → IsValid (all_locked mem total l)
  unfolding all_locked
  all_locked-IsValid small = record {
    bytes = all_locked-IsBytes mem total l bytes;
    counted = record {
      fits = omega arith;
      free = ground (arith, none_free (8 * bitmap_len total));
    };
    within = omega arith;
    guard = locked-all_locked mem total l (total / 0x1000) (omega arith);
  }

-- Over a memory map whose scan finds a usable entry, whose usable entries and the bitmap lie below
-- the sum of all lengths, wherever the other entries lie, and whose sum is 0x8000 or more below 2
-- ^ 64: initialisation succeeds and establishes the invariant: `free_memory` counts the unmarked
-- pages, and the bit behind the last page is marked.
pub init-IsValid :
    (mem : ℕ → ℕ) (es : List MmapEntry) (total : ℕ) (l : MmapEntry)
    → ((i : ℕ) → mem i < 256)
    → total + 0x8000 < 2 ^ 64
    → AllBelow total es
    → l.base / 0x1000 + bitmap_len total / 0x1000 ≤ total / 0x1000
    → scan es 0 none ≡ (total, some l)
    → (s : Pmm) × (pmm_initialize mem es ≡ some s) × IsValid s
unfolding pmm_initialize set_up
init-IsValid mem es total l bytes small below room found =
    (set_up mem es total l, ground arith, finish _ (lock_pages-IsValid l.base _ s0 v0 le))
  where
    start : Pmm
    start = all_locked mem total l

    s0 : Pmm
    s0 = unlock_usable es start

    below' : AllBelow start.total_memory es
    below' = subst (λ (t : ℕ). AllBelow t es) (sym (total-all_locked mem total l)) below

    v0 : IsValid s0
    v0 = unlock_usable-IsValid es start below' (all_locked-IsValid mem total l bytes small)

    le : l.base / 0x1000 + s0.page_bitmap.len / 0x1000 ≤ page_total s0
    le = ground (
      arith,
      room,
      unlock_usable-SameRest es start,
      len-all_locked mem total l,
      total-all_locked mem total l,
    )

    finish : (a : ℕ) {s : Pmm} → IsValid s → IsValid (record s { bitmap_addr = a })
    finish a {s} v = record {
      bytes = v.bytes;
      counted = ground (arith, v.counted);
      within = v.within;
      guard = v.guard;
    }
