-- ===== src/Memory/Bitmap/Tests.antt =====
-- The theorems of bitmap.c at concrete inputs.
use shed_os.Base.{◌≡◌, true, false, not, ◌==◌, if◌then◌else◌, arith}
use shed_os.Memory.Bitmap.{Bitmap, IsBytes, bitmap_isset, bitmap_set, bitmap_unset, bitmap_flip}
use shed_os.Memory.Bitmap.Laws.{isset-set, isset-unset, isset-flip}

-- Every second page is marked.
abbrev striped : Bitmap
striped = record { buf = λ i. 0x55; len = 4 }

striped-IsBytes : IsBytes striped
striped-IsBytes = record { byte = λ i. omega arith }

isset-set_example :
    bitmap_isset (bitmap_set striped 9) 10 ≡ (if ◌==◌ 10 9 then true else bitmap_isset striped 10)
isset-set_example = isset-set striped 9 10 striped-IsBytes

isset-unset_example :
    bitmap_isset (bitmap_unset striped 8) 8 ≡ (if ◌==◌ 8 8 then false else bitmap_isset striped 8)
isset-unset_example = isset-unset striped 8 8 striped-IsBytes

isset-flip_example :
    bitmap_isset (bitmap_flip striped 8) 8
    ≡ (if ◌==◌ 8 8 then not (bitmap_isset striped 8) else bitmap_isset striped 8)
isset-flip_example = isset-flip striped 8 8 striped-IsBytes
