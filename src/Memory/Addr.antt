-- ===== src/Memory/Addr.antt =====
-- kernel/src/memory/addrutil.c: the higher half, alignment, user pointers.
pub mod Half
pub mod Align
mod Tests
use shed_os.Base.{ℕ, ◌-◌, ◌*◌, ◌^◌, Bool, bit_and, bit_or, leb}
use shed_os.Base.Word.{add64, sub64, not64}

abbrev pub vaddr_higher : ℕ
vaddr_higher = 0xffff_8000_0000_0000

abbrev pub vaddr_kernel : ℕ
vaddr_kernel = 0xffff_ffff_8000_0000

unfoldable pub addr_offset_higher : ℕ → ℕ
addr_offset_higher p = add64 p vaddr_higher

unfoldable pub addr_offset_lower : ℕ → ℕ
addr_offset_lower p = sub64 p vaddr_higher

unfoldable pub addr_ensure_higher : ℕ → ℕ
addr_ensure_higher p = bit_or p vaddr_higher

unfoldable pub addr_ensure_lower : ℕ → ℕ
addr_ensure_lower p = bit_and p (not64 vaddr_higher)

-- `(p + a - 1) & ~(a - 1)`
unfoldable pub addr_align_up : ℕ → ℕ → ℕ
addr_align_up p a = bit_and (sub64 (add64 p a) 1) (not64 (sub64 a 1))

-- `p & ~(a - 1)`
unfoldable pub addr_align_down : ℕ → ℕ → ℕ
addr_align_down p a = bit_and p (not64 (sub64 a 1))

unfoldable pub addr_page_align_up : ℕ → ℕ
unfolding addr_align_up
addr_page_align_up p = addr_align_up p 0x1000

unfoldable pub addr_page_align_down : ℕ → ℕ
unfolding addr_align_down
addr_page_align_down p = addr_align_down p 0x1000

unfoldable pub ptr_is_user : ℕ → Bool
ptr_is_user p = leb p 0x7fff_ffff_fff0
