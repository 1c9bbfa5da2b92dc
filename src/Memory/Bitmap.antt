-- ===== src/Memory/Bitmap.antt =====
-- kernel/src/memory/bitmap.c: one bit for each page. `buf` is the memory from the pointer on, so a
-- read behind `len` bytes reads what stands there, as in the source.
pub mod Byte
pub mod Laws
mod Tests
use shed_os.Base.{ℕ, ◌-◌, ◌/◌, ◌%◌, ◌^◌, ◌<◌, Bool, not, bit_and, bit_or, bit_xor, ◌==◌, update}

pub record Bitmap : Type 0 where
  pub buf : ℕ → ℕ
  pub len : ℕ

unfoldable pub bitmap_isset : Bitmap → ℕ → Bool
bitmap_isset bm n = not (bit_and (bm.buf (n / 8)) (2 ^ (n % 8)) == 0)

unfoldable pub bitmap_set : Bitmap → ℕ → Bitmap
bitmap_set bm n = record bm { buf = update bm.buf (n / 8) (bit_or (bm.buf (n / 8)) (2 ^ (n % 8))) }

-- `~(1 << (n % 8))`, cut off to a byte by the assignment
unfoldable pub bitmap_unset : Bitmap → ℕ → Bitmap
bitmap_unset bm n = record bm {
  buf = update bm.buf (n / 8) (bit_and (bm.buf (n / 8)) (255 - 2 ^ (n % 8)));
}

unfoldable pub bitmap_flip : Bitmap → ℕ → Bitmap
bitmap_flip bm n = record bm {
  buf = update bm.buf (n / 8) (bit_xor (bm.buf (n / 8)) (2 ^ (n % 8)));
}

-- Every cell of the buffer is a byte.
pub record IsBytes (bm : Bitmap) : Type 0 where
  pub byte : (i : ℕ) → bm.buf i < 256
