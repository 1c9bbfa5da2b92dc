-- ===== src/Libk/Memutil.antt =====
-- kernel/src/libk/memutil.c: blocks of bytes. `m` gives the byte at each address.
pub mod Laws
mod Tests
use shed_os.Base.{ℕ, zero, suc, ◌+◌, ◌%◌, ltb, if◌then◌else◌, update}
use shed_os.Base.Int.{ℤ, pos, negsuc}

abbrev pub Ram : Type 0
Ram = ℕ → ℕ

-- The loops, with the rounds that are left and the index.
unfoldable pub memcmp_loop : ℕ → (i str1 str2 : ℕ) → Ram → ℤ
memcmp_loop zero i str1 str2 m = pos 0
memcmp_loop (suc left) i str1 str2 m =
    let rest = memcmp_loop left (i + 1) str1 str2 m in
    if ltb (m (str1 + i)) (m (str2 + i))
    then negsuc 0
    else if ltb (m (str2 + i)) (m (str1 + i))
    then pos 1
    else rest

unfoldable pub memcmp : (str1 str2 n : ℕ) → Ram → ℤ
unfolding memcmp_loop
memcmp str1 str2 n m = memcmp_loop n 0 str1 str2 m

unfoldable pub memcpy_loop : ℕ → (i dst src : ℕ) → Ram → Ram
memcpy_loop zero i dst src m = m
memcpy_loop (suc left) i dst src m =
    memcpy_loop left (i + 1) dst src (update m (dst + i) (m (src + i)))

unfoldable pub memcpy : (dst src n : ℕ) → Ram → Ram
unfolding memcpy_loop
memcpy dst src n m = memcpy_loop n 0 dst src m

unfoldable pub memset_loop : ℕ → (i dst c : ℕ) → Ram → Ram
memset_loop zero i dst c m = m
memset_loop (suc left) i dst c m = memset_loop left (i + 1) dst c (update m (dst + i) (c % 256))

unfoldable pub memset : (dst c n : ℕ) → Ram → Ram
unfolding memset_loop
memset dst c n m = memset_loop n 0 dst c m
