-- ===== src/Base/Bytes.antt =====
-- Numbers in memory, the low byte first.
use Prim.Native.Nat.{ℕ, ◌+◌, ◌*◌, ◌^◌}

abbrev pub read16 : (ℕ → ℕ) → ℕ → ℕ
read16 m a = m a + 2 ^ 8 * m (a + 1)

abbrev pub read32 : (ℕ → ℕ) → ℕ → ℕ
read32 m a = read16 m a + 2 ^ 16 * read16 m (a + 2)

abbrev pub read64 : (ℕ → ℕ) → ℕ → ℕ
read64 m a = read32 m a + 2 ^ 32 * read32 m (a + 4)
