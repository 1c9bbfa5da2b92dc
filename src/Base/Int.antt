-- ===== src/Base/Int.antt =====
-- C's `int` results, and the chars that are compared.
use Prim.Native.Nat.{ℕ, ◌+◌, ◌-◌, ◌%◌}
use shed_os.Base.Tests.{leb, if◌then◌else◌}

pub data ℤ : Type 0 where
  pos : ℕ → ℤ
  negsuc : ℕ → ℤ

-- `a - b` of numbers that are not negative.
abbrev pub diff : ℕ → ℕ → ℤ
diff a b = if leb b a then pos (a - b) else negsuc (b - a - 1)

-- The difference of two bytes read as `char`, which has a sign on x86-64.
abbrev pub char_diff : ℕ → ℕ → ℤ
char_diff a b = diff ((a + 128) % 256) ((b + 128) % 256)
