-- ===== src/Memory/Pmm/Lock.antt =====
-- The loops `lock_pages` and `unlock_pages` of pmm.c: which bits they change, and what they count.
use shed_os.Base.{
  ℕ, zero, suc, ◌+◌, ◌*◌, ◌/◌, ◌^◌, ◌<◌, ◌≤◌, ◌≡◌, Bool, inl, inr, true, false, ◌&&◌, ◌==◌, ltb,
  leb, if◌then◌else◌, arith, Bool-cases, lt→ltb, le→ltb,
}
use shed_os.Base.Word.{add64}
use shed_os.Memory.Bitmap.{IsBytes, bitmap_isset}
use shed_os.Memory.Bitmap.Laws.{
  isset-set, isset-unset, set-IsBytes, unset-IsBytes, len-set, len-unset,
}
use shed_os.Memory.Pmm.{
  Pmm, lock_page, lock_loop, lock_pages, unlock_page, unlock_loop, unlock_pages,
}

-- Whether page number `m` is marked.
abbrev pub locked : Pmm → ℕ → Bool
locked s m = bitmap_isset s.page_bitmap m

-- `m` is one of the `n` page numbers from `first` on.
abbrev pub inside : (first n m : ℕ) → Bool
inside first n m = leb first m && ltb m (first + n)

-- What the two loops leave alone.
pub record SameRest (s t : Pmm) : Type 0 where
  pub last_free : t.last_free ≡ s.last_free
  pub total_memory : t.total_memory ≡ s.total_memory
  pub bitmap_addr : t.bitmap_addr ≡ s.bitmap_addr
  pub len : t.page_bitmap.len ≡ s.page_bitmap.len

module _ (paddr : ℕ) (s : Pmm) where
  pub locked-lock_page :
      (m : ℕ)
      → IsBytes s.page_bitmap
      → locked (lock_page paddr s).1 m ≡ (if m == paddr / 0x1000 then true else locked s m)
  unfolding lock_page
  locked-lock_page m w = ground (arith, isset-set s.page_bitmap (paddr / 0x1000) m w)

  pub lock_page-IsBytes : IsBytes s.page_bitmap → IsBytes (lock_page paddr s).1.page_bitmap
  unfolding lock_page
  lock_page-IsBytes w = elim (Bool-cases (locked s (paddr / 0x1000))) [
    | inl e ↦ rw e w
    | inr e ↦ rw e (set-IsBytes s.page_bitmap (paddr / 0x1000) w)
  ]

  pub lock_page-SameRest : SameRest s (lock_page paddr s).1
  unfolding lock_page
  lock_page-SameRest =
      ground
        (arith, len-set s.page_bitmap (paddr / 0x1000), len-unset s.page_bitmap (paddr / 0x1000))

module _ (paddr : ℕ) (s : Pmm) where
  pub locked-unlock_page :
      (m : ℕ)
      → IsBytes s.page_bitmap
      → locked (unlock_page paddr s).1 m ≡ (if m == paddr / 0x1000 then false else locked s m)
  unfolding unlock_page
  locked-unlock_page m w = ground (arith, isset-unset s.page_bitmap (paddr / 0x1000) m w)

  pub unlock_page-IsBytes : IsBytes s.page_bitmap → IsBytes (unlock_page paddr s).1.page_bitmap
  unfolding unlock_page
  unlock_page-IsBytes w = elim (Bool-cases (locked s (paddr / 0x1000))) [
    | inl e ↦ rw e (unset-IsBytes s.page_bitmap (paddr / 0x1000) w)
    | inr e ↦ rw e w
  ]

  pub unlock_page-SameRest : SameRest s (unlock_page paddr s).1
  unfolding unlock_page
  unlock_page-SameRest =
      ground
        (arith, len-set s.page_bitmap (paddr / 0x1000), len-unset s.page_bitmap (paddr / 0x1000))

module _ (m : ℕ) where
  pub locked-lock_loop :
      (rounds p stop acc : ℕ) (s : Pmm) (n : ℕ)
      → IsBytes s.page_bitmap
      → stop ≡ p + 0x1000 * n
      → stop < 2 ^ 64
      → n ≤ rounds
      → locked (lock_loop rounds p stop acc s).1 m
        ≡ (if inside (p / 0x1000) n m then true else locked s m)
  unfolding lock_loop
  locked-lock_loop zero p stop acc s n w e lt le = ground arith
  locked-lock_loop (suc rounds) p stop acc s zero w e lt le =
      rw (le→ltb p stop (omega arith), lock_loop) (ground arith)
  locked-lock_loop (suc rounds) p stop acc s (suc n) w e lt le =
      rw (lt→ltb p stop (omega arith), lock_loop)
        (ground (
          arith,
          locked-lock_page p s m w,
          locked-lock_loop rounds (add64 p 0x1000) stop (add64 acc (lock_page p s).0)
              (lock_page p s).1 n (lock_page-IsBytes p s w),
        ))

pub lock_loop-IsBytes :
    (rounds p stop acc : ℕ) (s : Pmm)
    → IsBytes s.page_bitmap
    → IsBytes (lock_loop rounds p stop acc s).1.page_bitmap
unfolding lock_loop
lock_loop-IsBytes zero p stop acc s w = w
lock_loop-IsBytes (suc rounds) p stop acc s w = elim (Bool-cases (ltb p stop)) [
  | inl e ↦ rw (e, lock_loop) (lock_loop-IsBytes rounds _ stop _ _ (lock_page-IsBytes p s w))
  | inr e ↦ rw (e, lock_loop) w
]

pub lock_loop-SameRest :
    (rounds p stop acc : ℕ) (s : Pmm) → SameRest s (lock_loop rounds p stop acc s).1
unfolding lock_loop
lock_loop-SameRest zero p stop acc s = ground arith
lock_loop-SameRest (suc rounds) p stop acc s = elim (Bool-cases (ltb p stop)) [
  | inl e ↦
      rw (e, lock_loop)
        (ground (
          arith,
          lock_page-SameRest p s,
          lock_loop-SameRest rounds (add64 p 0x1000) stop (add64 acc (lock_page p s).0)
              (lock_page p s).1,
        ))
  | inr e ↦ rw (e, lock_loop) (ground arith)
]

-- `lock_pages` on `n` whole pages changes exactly their bits.
pub locked-lock_pages :
    (paddr n : ℕ) (s : Pmm) (m : ℕ)
    → IsBytes s.page_bitmap
    → paddr + 0x1000 * n < 2 ^ 64
    → locked (lock_pages paddr n s).1 m ≡ (if inside (paddr / 0x1000) n m then true else locked s m)
unfolding lock_pages
locked-lock_pages paddr n s m w h =
    locked-lock_loop m n paddr _ 0 s n w (omega arith) (omega arith) (omega arith)

pub lock_pages-IsBytes :
    (paddr n : ℕ) (s : Pmm) → IsBytes s.page_bitmap → IsBytes (lock_pages paddr n s).1.page_bitmap
unfolding lock_pages
lock_pages-IsBytes paddr n s w = lock_loop-IsBytes n paddr _ 0 s w

pub lock_pages-SameRest : (paddr n : ℕ) (s : Pmm) → SameRest s (lock_pages paddr n s).1
unfolding lock_pages
lock_pages-SameRest paddr n s = lock_loop-SameRest n paddr _ 0 s

module _ (m : ℕ) where
  pub locked-unlock_loop :
      (rounds p stop acc : ℕ) (s : Pmm) (n : ℕ)
      → IsBytes s.page_bitmap
      → stop ≡ p + 0x1000 * n
      → stop < 2 ^ 64
      → n ≤ rounds
      → locked (unlock_loop rounds p stop acc s).1 m
        ≡ (if inside (p / 0x1000) n m then false else locked s m)
  unfolding unlock_loop
  locked-unlock_loop zero p stop acc s n w e lt le = ground arith
  locked-unlock_loop (suc rounds) p stop acc s zero w e lt le =
      rw (le→ltb p stop (omega arith), unlock_loop) (ground arith)
  locked-unlock_loop (suc rounds) p stop acc s (suc n) w e lt le =
      rw (lt→ltb p stop (omega arith), unlock_loop)
        (ground (
          arith,
          locked-unlock_page p s m w,
          locked-unlock_loop rounds (add64 p 0x1000) stop (add64 acc (unlock_page p s).0)
              (unlock_page p s).1 n (unlock_page-IsBytes p s w),
        ))

pub unlock_loop-IsBytes :
    (rounds p stop acc : ℕ) (s : Pmm)
    → IsBytes s.page_bitmap
    → IsBytes (unlock_loop rounds p stop acc s).1.page_bitmap
unfolding unlock_loop
unlock_loop-IsBytes zero p stop acc s w = w
unlock_loop-IsBytes (suc rounds) p stop acc s w = elim (Bool-cases (ltb p stop)) [
  | inl e ↦ rw (e, unlock_loop) (unlock_loop-IsBytes rounds _ stop _ _ (unlock_page-IsBytes p s w))
  | inr e ↦ rw (e, unlock_loop) w
]

pub unlock_loop-SameRest :
    (rounds p stop acc : ℕ) (s : Pmm) → SameRest s (unlock_loop rounds p stop acc s).1
unfolding unlock_loop
unlock_loop-SameRest zero p stop acc s = ground arith
unlock_loop-SameRest (suc rounds) p stop acc s = elim (Bool-cases (ltb p stop)) [
  | inl e ↦
      rw (e, unlock_loop)
        (ground (
          arith,
          unlock_page-SameRest p s,
          unlock_loop-SameRest rounds (add64 p 0x1000) stop (add64 acc (unlock_page p s).0)
              (unlock_page p s).1,
        ))
  | inr e ↦ rw (e, unlock_loop) (ground arith)
]

-- `unlock_pages` on `n` whole pages changes exactly their bits.
pub locked-unlock_pages :
    (paddr n : ℕ) (s : Pmm) (m : ℕ)
    → IsBytes s.page_bitmap
    → paddr + 0x1000 * n < 2 ^ 64
    → locked (unlock_pages paddr n s).1 m
      ≡ (if inside (paddr / 0x1000) n m then false else locked s m)
unfolding unlock_pages
locked-unlock_pages paddr n s m w h =
    locked-unlock_loop m n paddr _ 0 s n w (omega arith) (omega arith) (omega arith)

pub unlock_pages-IsBytes :
    (paddr n : ℕ) (s : Pmm) → IsBytes s.page_bitmap → IsBytes (unlock_pages paddr n s).1.page_bitmap
unfolding unlock_pages
unlock_pages-IsBytes paddr n s w = unlock_loop-IsBytes n paddr _ 0 s w

pub unlock_pages-SameRest : (paddr n : ℕ) (s : Pmm) → SameRest s (unlock_pages paddr n s).1
unfolding unlock_pages
unlock_pages-SameRest paddr n s = unlock_loop-SameRest n paddr _ 0 s
