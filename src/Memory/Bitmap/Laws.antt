-- ===== src/Memory/Bitmap/Laws.antt =====
-- A bitmap of bytes is a set of numbers: what each operation of bitmap.c does to membership.
use shed_os.Base.{ℕ, ◌/◌, ◌%◌, ◌≡◌, refl, true, false, not, ◌==◌, if◌then◌else◌, arith}
use shed_os.Memory.Bitmap.{Bitmap, IsBytes, bitmap_isset, bitmap_set, bitmap_unset, bitmap_flip}
use shed_os.Memory.Bitmap.Byte.{bit-set, bit-unset, bit-flip, bit-full}

-- Setting a bit reads back as that bit, and no other bit of the map changes.
pub isset-set :
    (bm : Bitmap) (n m : ℕ)
    → IsBytes bm
    → bitmap_isset (bitmap_set bm n) m ≡ (if m == n then true else bitmap_isset bm m)
unfolding bitmap_isset bitmap_set
isset-set bm n m w = ground (
  arith,
  (bit-set (bm.buf (n / 8)) (n % 8) (m % 8) (w.byte (n / 8)) (omega arith) (omega arith)).1,
)

pub set-IsBytes : (bm : Bitmap) (n : ℕ) → IsBytes bm → IsBytes (bitmap_set bm n)
unfolding bitmap_set
set-IsBytes bm n w = record {
  byte = λ i. ground (
    arith,
    w.byte i,
    (bit-set (bm.buf (n / 8)) (n % 8) 0 (w.byte (n / 8)) (omega arith) (omega arith)).0,
  );
}

-- Clearing a bit reads back as clear, and no other bit of the map changes.
pub isset-unset :
    (bm : Bitmap) (n m : ℕ)
    → IsBytes bm
    → bitmap_isset (bitmap_unset bm n) m ≡ (if m == n then false else bitmap_isset bm m)
unfolding bitmap_isset bitmap_unset
isset-unset bm n m w = ground (
  arith,
  (bit-unset (bm.buf (n / 8)) (n % 8) (m % 8) (w.byte (n / 8)) (omega arith) (omega arith)).1,
)

pub unset-IsBytes : (bm : Bitmap) (n : ℕ) → IsBytes bm → IsBytes (bitmap_unset bm n)
unfolding bitmap_unset
unset-IsBytes bm n w = record {
  byte = λ i. ground (
    arith,
    w.byte i,
    (bit-unset (bm.buf (n / 8)) (n % 8) 0 (w.byte (n / 8)) (omega arith) (omega arith)).0,
  );
}

-- Flipping a bit negates it, and no other bit of the map changes.
pub isset-flip :
    (bm : Bitmap) (n m : ℕ)
    → IsBytes bm
    → bitmap_isset (bitmap_flip bm n) m
      ≡ (if m == n then (not (bitmap_isset bm n)) else bitmap_isset bm m)
unfolding bitmap_isset bitmap_flip
isset-flip bm n m w = ground (
  arith,
  (bit-flip (bm.buf (n / 8)) (n % 8) (m % 8) (w.byte (n / 8)) (omega arith) (omega arith)).1,
)

pub flip-IsBytes : (bm : Bitmap) (n : ℕ) → IsBytes bm → IsBytes (bitmap_flip bm n)
unfolding bitmap_flip
flip-IsBytes bm n w = record {
  byte = λ i. ground (
    arith,
    w.byte i,
    (bit-flip (bm.buf (n / 8)) (n % 8) 0 (w.byte (n / 8)) (omega arith) (omega arith)).0,
  );
}

pub len-set : (bm : Bitmap) (n : ℕ) → (bitmap_set bm n).len ≡ bm.len
unfolding bitmap_set
len-set bm n = refl

pub len-unset : (bm : Bitmap) (n : ℕ) → (bitmap_unset bm n).len ≡ bm.len
unfolding bitmap_unset
len-unset bm n = refl

pub len-flip : (bm : Bitmap) (n : ℕ) → (bitmap_flip bm n).len ≡ bm.len
unfolding bitmap_flip
len-flip bm n = refl

-- Every bit of a byte 0xff is set.
pub isset-full : (bm : Bitmap) (n : ℕ) → bm.buf (n / 8) ≡ 255 → bitmap_isset bm n ≡ true
unfolding bitmap_isset
isset-full bm n e = rw e (bit-full (n % 8) (omega arith))
