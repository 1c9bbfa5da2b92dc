-- ===== src/Libk/Memutil/Laws.antt =====
-- What the loops of memutil.c do to every address.
use shed_os.Base.{
  ℕ, zero, suc, ◌+◌, ◌-◌, ◌%◌, ◌<◌, ◌≤◌, ◌≡◌, ◌⊎◌, inl, inr, Bool, ◌&&◌, leb, ltb, if◌then◌else◌,
  update, arith, lt_cases, lt→ltb, le→ltb,
}
use shed_os.Base.Int.{ℤ, pos, negsuc}
use shed_os.Libk.Memutil.{Ram, memcmp, memcmp_loop, memcpy, memcpy_loop, memset, memset_loop}

-- `a` is one of the `n` addresses from `p` on.
abbrev pub within : (p n a : ℕ) → Bool
within p n a = leb p a && ltb a (p + n)

memset_loop_lem :
    (left i dst c a : ℕ) (m : Ram)
    → memset_loop left i dst c m a ≡ (if within (dst + i) left a then c % 256 else m a)
unfolding memset_loop
memset_loop_lem zero i dst c a m = ground arith
memset_loop_lem (suc left) i dst c a m =
    ground (arith, memset_loop_lem left (i + 1) dst c a (update m (dst + i) (c % 256)))

-- `memset` puts the low byte of `c` at the `n` addresses from `dst` on, and changes no other one.
pub memset_lem :
    (dst c n a : ℕ) (m : Ram) → memset dst c n m a ≡ (if within dst n a then c % 256 else m a)
unfolding memset
memset_lem dst c n a m = ground (arith, memset_loop_lem n 0 dst c a m)

-- The destination does not begin inside the source, so that no byte is overwritten before it is read.
abbrev pub Forward : (dst src n : ℕ) → Type 0
Forward dst src n = (dst ≤ src) ⊎ (src + n ≤ dst)

memcpy_loop_lem :
    (left i dst src a : ℕ) (m : Ram)
    → Forward dst src (i + left)
    → memcpy_loop left i dst src m a
      ≡ (if within (dst + i) left a then m (src + (a - dst)) else m a)
unfolding memcpy_loop
memcpy_loop_lem zero i dst src a m fwd = ground arith
memcpy_loop_lem (suc left) i dst src a m fwd =
    ground (arith, memcpy_loop_lem left (i + 1) dst src a (update m (dst + i) (m (src + i))))

-- `memcpy` copies the bytes as they were before, and changes no other address, when the blocks do not
-- overlap or the destination begins first.
pub memcpy_lem :
    (dst src n a : ℕ) (m : Ram)
    → Forward dst src n
    → memcpy dst src n m a ≡ (if within dst n a then m (src + (a - dst)) else m a)
unfolding memcpy
memcpy_lem dst src n a m fwd = ground (arith, memcpy_loop_lem n 0 dst src a m)

-- What the answer of `memcmp` says of the first byte that differs.
pub data Compared (str1 str2 i n : ℕ) (m : Ram) : ℤ → Type 0 where
  same : ((k : ℕ) → i ≤ k → k < n → m (str1 + k) ≡ m (str2 + k)) → Compared str1 str2 i n m (pos 0)
  less :
      (k : ℕ)
      → i ≤ k
      → k < n
      → ((j : ℕ) → i ≤ j → j < k → m (str1 + j) ≡ m (str2 + j))
      → m (str1 + k) < m (str2 + k)
      → Compared str1 str2 i n m (negsuc 0)
  more :
      (k : ℕ)
      → i ≤ k
      → k < n
      → ((j : ℕ) → i ≤ j → j < k → m (str1 + j) ≡ m (str2 + j))
      → m (str2 + k) < m (str1 + k)
      → Compared str1 str2 i n m (pos 1)

compared_next :
    (str1 str2 i n : ℕ) (m : Ram) (z : ℤ)
    → m (str1 + i) ≡ m (str2 + i)
    → Compared str1 str2 (i + 1) n m z
    → Compared str1 str2 i n m z
compared_next str1 str2 i n m z e (same f) = same (λ k lo hi. ground (arith, f k))
compared_next str1 str2 i n m z e (less k lo hi f lt) =
    less k (omega arith) hi (λ j a b. ground (arith, f j)) lt
compared_next str1 str2 i n m z e (more k lo hi f lt) =
    more k (omega arith) hi (λ j a b. ground (arith, f j)) lt

memcmp_loop_lem :
    (left i str1 str2 n : ℕ) (m : Ram)
    → i + left ≡ n
    → Compared str1 str2 i n m (memcmp_loop left i str1 str2 m)
unfolding memcmp_loop
memcmp_loop_lem zero i str1 str2 n m e = same (λ k lo hi. absurd (omega arith))
memcmp_loop_lem (suc left) i str1 str2 n m e = elim (lt_cases (m (str1 + i)) (m (str2 + i))) [
  | inl lt ↦
      rw (lt→ltb (m (str1 + i)) (m (str2 + i)) lt)
        (less i (omega arith) (omega arith) (λ j a b. absurd (omega arith)) lt)
  | inr le ↦
      rw (le→ltb (m (str1 + i)) (m (str2 + i)) le) (elim (lt_cases (m (str2 + i)) (m (str1 + i))) [
        | inl gt ↦
            rw (lt→ltb (m (str2 + i)) (m (str1 + i)) gt)
              (more i (omega arith) (omega arith) (λ j a b. absurd (omega arith)) gt)
        | inr ge ↦ rw (le→ltb (m (str2 + i)) (m (str1 + i)) ge) (
            compared_next str1 str2 i n m _ (omega arith)
              (memcmp_loop_lem left (i + 1) str1 str2 n m (omega arith)))
      ])
]

-- `memcmp` answers 0 when all `n` bytes agree, and else -1 or 1 by the first byte that differs.
pub memcmp_lem : (str1 str2 n : ℕ) (m : Ram) → Compared str1 str2 0 n m (memcmp str1 str2 n m)
unfolding memcmp
memcmp_lem str1 str2 n m = memcmp_loop_lem n 0 str1 str2 n m (omega arith)
