-- ===== src/Memory/Pmm.antt =====
-- kernel/src/memory/pmm.c: physical pages. The file's static variables are a record; `size_t` and
-- `uintptr_t` wrap at 2 ^ 64. A loop over addresses takes as many rounds as it is given pages, and the
-- search for a free run as many as there are pages from `last_free` on; Pmm/Lock shows that these are
-- enough.
pub mod Init
pub mod Lock
pub mod Count
pub mod Request
pub mod Release
pub mod Valid
pub mod Supply
pub mod Owners
mod Tests
use shed_os.Base.{ℕ, zero, suc, ◌+◌, ◌-◌, ◌*◌, ◌/◌, ◌<◌, Bool, true, false, not, ltb, if◌then◌else◌}
use shed_os.Base.Word.{add64, sub64, mul64}
use shed_os.Memory.Bitmap.{Bitmap, bitmap_isset, bitmap_set, bitmap_unset}

-- `bitmap_addr` is the pointer `page_bitmap.buf`; `page_bitmap` holds the memory behind it.
pub record Pmm : Type 0 where
  pub page_bitmap : Bitmap
  pub bitmap_addr : ℕ
  pub last_free : ℕ
  pub free_memory : ℕ
  pub total_memory : ℕ

abbrev pub null : ℕ
null = 0

unfoldable pub lock_page : ℕ → Pmm → ℕ × Pmm
lock_page paddr s =
    let pi = paddr / 0x1000 in
    if not (bitmap_isset s.page_bitmap pi)
    then (
      1,
      record s {
        page_bitmap = bitmap_set s.page_bitmap pi;
        free_memory = sub64 s.free_memory 0x1000;
      },
    )
    else (0, s)

unfoldable pub lock_loop : ℕ → (p stop locked : ℕ) → Pmm → ℕ × Pmm
lock_loop zero p stop locked s = (locked, s)
lock_loop (suc rounds) p stop locked s = elim (ltb p stop) [
  | true ↦ let (n, s') = lock_page p s in lock_loop rounds (add64 p 0x1000) stop (add64 locked n) s'
  | false ↦ (locked, s)
]

unfoldable pub lock_pages : ℕ → ℕ → Pmm → ℕ × Pmm
lock_pages paddr n s = lock_loop n paddr (add64 paddr (mul64 0x1000 n)) 0 s

unfoldable pub unlock_page : ℕ → Pmm → ℕ × Pmm
unlock_page paddr s =
    let pi = paddr / 0x1000 in
    if bitmap_isset s.page_bitmap pi
    then (
      1,
      record s {
        page_bitmap = bitmap_unset s.page_bitmap pi;
        free_memory = add64 s.free_memory 0x1000;
      },
    )
    else (0, s)

unfoldable pub unlock_loop : ℕ → (p stop unlocked : ℕ) → Pmm → ℕ × Pmm
unlock_loop zero p stop unlocked s = (unlocked, s)
unlock_loop (suc rounds) p stop unlocked s = elim (ltb p stop) [
  | true ↦
      let (n, s') = unlock_page p s in
      unlock_loop rounds (add64 p 0x1000) stop (add64 unlocked n) s'
  | false ↦ (unlocked, s)
]

unfoldable pub unlock_pages : ℕ → ℕ → Pmm → ℕ × Pmm
unlock_pages paddr n s = unlock_loop n paddr (add64 paddr (mul64 0x1000 n)) 0 s

-- The inner loop of `pmm_request_pages`, with the pages that are left to look at.
unfoldable pub is_free : ℕ → (pi i : ℕ) → Pmm → Bool
is_free zero pi i s = true
is_free (suc left) pi i s = elim (bitmap_isset s.page_bitmap (pi + i)) [
  | true ↦ false
  | false ↦ is_free left pi (i + 1) s
]

unfoldable pub request_loop : ℕ → (pi count : ℕ) → Pmm → ℕ × Pmm
request_loop zero pi count s = (null, s)
request_loop (suc rounds) pi count s = elim (is_free count pi 0 s) [
  | true ↦
      let addr = mul64 pi 0x1000 in
      (addr, (lock_pages addr count (record s { last_free = add64 pi count })).1)
  | false ↦ request_loop rounds (pi + 1) count s
]

unfoldable pub pmm_request_pages : ℕ → Pmm → ℕ × Pmm
pmm_request_pages count s = request_loop (s.total_memory / 0x1000 - s.last_free) s.last_free count s

unfoldable pub pmm_release_pages : ℕ → ℕ → Pmm → Pmm
pmm_release_pages page count s =
    let s' = (unlock_pages page count s).1 in
    if ltb page s'.last_free then record s' { last_free = page } else s'
