-- ===== src/Memory/Pmm/Count.antt =====
-- The books of pmm.c: `free_memory` is the page size times the number of unmarked pages.
use shed_os.Base.{
  ℕ, zero, suc, ◌+◌, ◌*◌, ◌/◌, ◌^◌, ◌<◌, ◌≤◌, ◌≡◌, true, false, ltb, if◌then◌else◌, arith,
  Bool-cases, inl, inr, lt→ltb, le→ltb,
}
use shed_os.Base.Word.{add64}
use shed_os.Memory.Bitmap.{Bitmap, IsBytes, bitmap_isset, bitmap_set, bitmap_unset}
use shed_os.Memory.Bitmap.Laws.{isset-set, isset-unset, len-set, len-unset}
use shed_os.Memory.Pmm.{
  Pmm, lock_page, lock_loop, lock_pages, unlock_page, unlock_loop, unlock_pages,
}
use shed_os.Memory.Pmm.Lock.{locked, lock_page-IsBytes, unlock_page-IsBytes}

-- How many of the page numbers below `n` are unmarked.
unfoldable pub free_pages : Bitmap → ℕ → ℕ
free_pages bm zero = 0
free_pages bm (suc n) = free_pages bm n + (if bitmap_isset bm n then 0 else 1)

pub free_pages-le : (bm : Bitmap) (n : ℕ) → free_pages bm n ≤ n
unfolding free_pages
free_pages-le bm zero = omega arith
free_pages-le bm (suc n) = ground (arith, free_pages-le bm n)

-- The bitmap's bits: the pages that the manager can speak of.
abbrev pub managed : Pmm → ℕ
managed s = 8 * s.page_bitmap.len

pub record IsCounted (s : Pmm) : Type 0 where
  pub fits : 0x1000 * managed s < 2 ^ 64
  pub free : s.free_memory ≡ 0x1000 * free_pages s.page_bitmap (managed s)

free_pages-set :
    (bm : Bitmap) (i n : ℕ)
    → IsBytes bm
    → bitmap_isset bm i ≡ false
    → free_pages (bitmap_set bm i) n + (if ltb i n then 1 else 0) ≡ free_pages bm n
unfolding free_pages
free_pages-set bm i zero w e = ground arith
free_pages-set bm i (suc n) w e = ground (arith, isset-set bm i n w, free_pages-set bm i n w e)

free_pages-unset :
    (bm : Bitmap) (i n : ℕ)
    → IsBytes bm
    → bitmap_isset bm i ≡ true
    → free_pages (bitmap_unset bm i) n ≡ free_pages bm n + (if ltb i n then 1 else 0)
unfolding free_pages
free_pages-unset bm i zero w e = ground arith
free_pages-unset bm i (suc n) w e =
    ground (arith, isset-unset bm i n w, free_pages-unset bm i n w e)

-- `out` is `s` after pages were locked, `acc` plus their number beside it.
pub record Locks (acc : ℕ) (s : Pmm) (out : ℕ × Pmm) : Type 0 where
  pub counted : IsCounted out.1
  pub same_len : out.1.page_bitmap.len ≡ s.page_bitmap.len
  pub sum :
      out.0 + free_pages out.1.page_bitmap (managed s) ≡ acc + free_pages s.page_bitmap (managed s)

lock_page_count :
    (paddr : ℕ) (s : Pmm)
    → IsBytes s.page_bitmap
    → IsCounted s
    → paddr / 0x1000 < managed s
    → Locks 0 s (lock_page paddr s) × ((lock_page paddr s).0 ≤ 1)
unfolding lock_page
lock_page_count paddr s w c h = elim (Bool-cases (locked s (paddr / 0x1000))) [
  | inl e ↦ rw e (ground arith)
  | inr e ↦ rw e (
      ground (
        arith,
        free_pages-set s.page_bitmap (paddr / 0x1000) (managed s) w e,
        len-set s.page_bitmap (paddr / 0x1000),
        free_pages-le s.page_bitmap (managed s),
        free_pages-le (bitmap_set s.page_bitmap (paddr / 0x1000)) (managed s),
      ))
]

lock_loop_count :
    (rounds p stop acc : ℕ) (s : Pmm) (n : ℕ)
    → IsBytes s.page_bitmap
    → IsCounted s
    → stop ≡ p + 0x1000 * n
    → p / 0x1000 + n ≤ managed s
    → n ≤ rounds
    → acc + n < 2 ^ 64
    → Locks acc s (lock_loop rounds p stop acc s)
unfolding lock_loop
lock_loop_count zero p stop acc s n w c e h le small = ground arith
lock_loop_count (suc rounds) p stop acc s zero w c e h le small =
    rw (le→ltb p stop (omega arith), lock_loop) (ground arith)
lock_loop_count (suc rounds) p stop acc s (suc n) w c e h le small =
    rw (lt→ltb p stop (omega arith), lock_loop)
      (ground (
        arith,
        lock_page_count p s w c,
        lock_loop_count rounds (add64 p 0x1000) stop (add64 acc (lock_page p s).0) (lock_page p s).1
            n (lock_page-IsBytes p s w),
      ))

-- `out` is `s` after pages were unlocked, `acc` plus their number beside it.
pub record Unlocks (acc : ℕ) (s : Pmm) (out : ℕ × Pmm) : Type 0 where
  pub counted : IsCounted out.1
  pub same_len : out.1.page_bitmap.len ≡ s.page_bitmap.len
  pub sum :
      out.0 + free_pages s.page_bitmap (managed s) ≡ acc + free_pages out.1.page_bitmap (managed s)

unlock_page_count :
    (paddr : ℕ) (s : Pmm)
    → IsBytes s.page_bitmap
    → IsCounted s
    → paddr / 0x1000 < managed s
    → Unlocks 0 s (unlock_page paddr s) × ((unlock_page paddr s).0 ≤ 1)
unfolding unlock_page
unlock_page_count paddr s w c h = elim (Bool-cases (locked s (paddr / 0x1000))) [
  | inl e ↦ rw e (
      ground (
        arith,
        free_pages-unset s.page_bitmap (paddr / 0x1000) (managed s) w e,
        len-unset s.page_bitmap (paddr / 0x1000),
        free_pages-le s.page_bitmap (managed s),
        free_pages-le (bitmap_unset s.page_bitmap (paddr / 0x1000)) (managed s),
      ))
  | inr e ↦ rw e (ground arith)
]

unlock_loop_count :
    (rounds p stop acc : ℕ) (s : Pmm) (n : ℕ)
    → IsBytes s.page_bitmap
    → IsCounted s
    → stop ≡ p + 0x1000 * n
    → p / 0x1000 + n ≤ managed s
    → n ≤ rounds
    → acc + n < 2 ^ 64
    → Unlocks acc s (unlock_loop rounds p stop acc s)
unfolding unlock_loop
unlock_loop_count zero p stop acc s n w c e h le small = ground arith
unlock_loop_count (suc rounds) p stop acc s zero w c e h le small =
    rw (le→ltb p stop (omega arith), unlock_loop) (ground arith)
unlock_loop_count (suc rounds) p stop acc s (suc n) w c e h le small =
    rw (lt→ltb p stop (omega arith), unlock_loop)
      (ground (
        arith,
        unlock_page_count p s w c,
        unlock_loop_count rounds (add64 p 0x1000) stop (add64 acc (unlock_page p s).0)
            (unlock_page p s).1 n (unlock_page-IsBytes p s w),
      ))

pub lock_pages_count :
    (paddr n : ℕ) (s : Pmm)
    → IsBytes s.page_bitmap
    → IsCounted s
    → paddr / 0x1000 + n ≤ managed s
    → Locks 0 s (lock_pages paddr n s)
unfolding lock_pages
lock_pages_count paddr n s w c le =
    lock_loop_count n paddr _ 0 s n w c (ground (arith, c.fits)) le (omega arith)
      (ground (arith, c.fits))

pub unlock_pages_count :
    (paddr n : ℕ) (s : Pmm)
    → IsBytes s.page_bitmap
    → IsCounted s
    → paddr / 0x1000 + n ≤ managed s
    → Unlocks 0 s (unlock_pages paddr n s)
unfolding unlock_pages
unlock_pages_count paddr n s w c le =
    unlock_loop_count n paddr _ 0 s n w c (ground (arith, c.fits)) le (omega arith)
      (ground (arith, c.fits))
