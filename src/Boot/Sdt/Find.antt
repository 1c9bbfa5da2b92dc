-- ===== src/Boot/Sdt/Find.antt =====
-- Checksums and the search of sdt.c.
use shed_os.Base.{ℕ, zero, suc, ◌+◌, ◌%◌, ◌<◌, ◌≤◌, ◌≡◌, ap, ◌∙◌, Bool, true, false, ◌==◌, arith}
use shed_os.Base.Bytes.{read32}
use shed_os.Libk.Memutil.{Ram}
use shed_os.Boot.Sdt.{sum_loop, do_checksum_sdt, sdt_at, signed}

-- The plain sum of `n` bytes.
abbrev pub total : (n a : ℕ) → Ram → ℕ
total zero a m = 0
total (suc n) a m = m a + total n (a + 1) m

sum_loop_lem :
    (left i sum hdr : ℕ) (m : Ram)
    → sum < 256
    → sum_loop left i sum hdr m ≡ (sum + total left (hdr + i) m) % 256
unfolding sum_loop
sum_loop_lem zero i sum hdr m lt = omega arith
sum_loop_lem (suc left) i sum hdr m lt =
    sum_loop_lem left (i + 1) ((sum + m (hdr + i)) % 256) hdr m (omega arith)
    ∙ (let at : total left (hdr + (i + 1)) m ≡ total left (hdr + i + 1) m =
          ap (λ (a : ℕ). total left a m) (omega arith) in
        omega (arith, at))

-- A table is accepted when the sum of its bytes is a multiple of 256.
pub checksum_lem :
    (hdr : ℕ) (m : Ram) → do_checksum_sdt hdr m ≡ (total (read32 m (hdr + 4)) hdr m % 256 == 0)
unfolding do_checksum_sdt
checksum_lem hdr m =
    let at : total (read32 m (hdr + 4)) (hdr + 0) m ≡ total (read32 m (hdr + 4)) hdr m =
      ap (λ (a : ℕ). total (read32 m (hdr + 4)) a m) (omega arith) in
    ap (λ (x : ℕ). x == 0)
      (sum_loop_lem (read32 m (hdr + 4)) 0 0 hdr m (omega arith) ∙ omega (arith, at))

-- The first table with the signature, or NULL when there is none among the `n` tables.
pub data Sought (signature : ℕ) (use_xsdt : Bool) (sdt i n : ℕ) (m : Ram) : ℕ → Type 0 where
  found :
      (k : ℕ)
      → i ≤ k
      → k < n
      → signed signature (sdt_at use_xsdt sdt k m) m ≡ true
      → ((j : ℕ) → i ≤ j → j < k → signed signature (sdt_at use_xsdt sdt j m) m ≡ false)
      → Sought signature use_xsdt sdt i n m (sdt_at use_xsdt sdt k m)
  missing :
      ((j : ℕ) → i ≤ j → j < n → signed signature (sdt_at use_xsdt sdt j m) m ≡ false)
      → Sought signature use_xsdt sdt i n m 0
