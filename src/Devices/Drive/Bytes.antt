-- ===== src/Devices/Drive/Bytes.antt =====
-- `drive_read` (drive.c) answers the bytes of the drive.
use native.Mathlib.Nat.{div-add-mod', mod-lt, le-div_iff_mul-le, one-le-pow, div-le_self}
use shed_os.Base.{
  ℕ, ◌+◌, ◌-◌, ◌*◌, ◌/◌, ◌%◌, ◌^◌, ◌<◌, ◌≤◌, ◌≡◌, ap, ◌∙◌, bit_and, arith, ◌⊎◌, inr, inl,
}
use shed_os.Base.Bits.{and_low_mask}
use shed_os.Base.Word.{add64, sub64}
use shed_os.Libk.Memutil.{Ram}
use shed_os.Libk.Memutil.Laws.{memcpy_lem}
use shed_os.Devices.Drive.{ReadBlocks, lba_start, block_count, drive_copy}

-- `read_blocks` as the drive offers it: the bytes of the blocks from `block_offset` on come to `buf`.
abbrev pub ReadsDisk : ReadBlocks → (bs : ℕ) → (ℕ → ℕ) → Type 0
ReadsDisk read_blocks bs disk =
    (buf count first i : ℕ) (m : Ram)
    → i < count * bs
    → read_blocks buf count first m (buf + i) ≡ disk (first * bs + i)

distribute : (d f w : ℕ) → (d + 1) * w + f * w ≡ (d + f) * w + w
distribute d f w = grind arith

-- The blocks that are read hold the bytes asked for.
module _ (len offset w : ℕ) (pos : 0 < len) (wide : 0 < w) (fits : offset + len + w < 2 ^ 64) where
  last : ℕ
  last = (offset + len - 1) / w

  le_last : offset / w ≤ last
  unfolding last
  le_last = (le-div_iff_mul-le wide).1 (omega (arith, div-add-mod' offset w))

  block_count_lem : block_count len offset w ≡ last - offset / w + 1
  unfolding last
  block_count_lem =
      let end : add64 offset (sub64 len 1) / w ≡ (offset + len - 1) / w =
        ap (λ (x : ℕ). x / w) {x = add64 offset (sub64 len 1)} {y = offset + len - 1}
          (omega arith) in
      let small : (offset + len - 1) / w ≤ offset + len - 1 = div-le_self (offset + len - 1) w in
      omega (arith, end, small, le_last)

  pub blocks_hold : (i : ℕ) → i < len → offset % w + i < block_count len offset w * w
  unfolding last
  blocks_hold i lt =
      let count : block_count len offset w * w ≡ (last - offset / w + 1) * w =
        ap (λ (x : ℕ). x * w) block_count_lem in
      let sum : (last - offset / w + offset / w) * w ≡ last * w =
        ap (λ (x : ℕ). x * w) {x = last - offset / w + offset / w} {y = last}
          (omega (arith, le_last)) in
      omega (
        arith,
        count,
        sum,
        distribute (last - offset / w) (offset / w) w,
        div-add-mod' offset w,
        div-add-mod' (offset + len - 1) w,
        mod-lt (offset + len - 1) wide,
      )

-- Reading `len` bytes from `offset` on puts exactly these bytes of the drive at `buf`, for a block size
-- that is a power of two, where the bytes asked for among the blocks do not overlap `buf`, and numbers
-- that stay below `2 ^ 64`.
pub drive_copy_lem :
    (read_blocks : ReadBlocks) (disk : ℕ → ℕ) (k buf len offset buf_blocks i : ℕ) (m : Ram)
    → ReadsDisk read_blocks (2 ^ k) disk
    → 0 < len
    → i < len
    → k < 64
    → offset + len + 2 ^ k < 2 ^ 64
    → buf_blocks + offset % 2 ^ k + len < 2 ^ 64
    → (buf + len ≤ buf_blocks + offset % 2 ^ k) ⊎ (buf_blocks + offset % 2 ^ k + len ≤ buf)
    → drive_copy read_blocks (2 ^ k) buf len offset buf_blocks m (buf + i) ≡ disk (offset + i)
unfolding drive_copy
drive_copy_lem read_blocks disk k buf len offset buf_blocks i m reads pos lt small fits below
      apart =
    let one : 0 < 2 ^ k = one-le-pow k 2 (omega arith) in
    let mask : bit_and offset (sub64 (2 ^ k) 1) ≡ offset % 2 ^ k =
      ap (bit_and offset) {x = sub64 (2 ^ k) 1} {y = 2 ^ k - 1} (omega arith)
      ∙ and_low_mask k offset in
    let low : offset % 2 ^ k ≤ offset = omega (arith, div-add-mod' offset (2 ^ k)) in
    let src : add64 buf_blocks (bit_and offset (sub64 (2 ^ k) 1)) ≡ buf_blocks + offset % 2 ^ k =
      omega (arith, mask, low) in
    let got =
      memcpy_lem buf (buf_blocks + offset % 2 ^ k) len (buf + i)
        (read_blocks buf_blocks (block_count len offset (2 ^ k)) (lba_start offset (2 ^ k)) m)
        (elim apart [ inl a ↦ inl (omega arith) | inr b ↦ inr (omega (arith, low)) ]) in
    let byte : read_blocks buf_blocks (block_count len offset (2 ^ k)) (lba_start offset (2 ^ k)) m
          (buf_blocks + offset % 2 ^ k + (buf + i - buf))
        ≡ disk (offset + i) =
      ap (read_blocks buf_blocks (block_count len offset (2 ^ k)) (lba_start offset (2 ^ k)) m)
        {x = buf_blocks + offset % 2 ^ k + (buf + i - buf)} {y = buf_blocks + (offset % 2 ^ k + i)}
        (omega arith)
      ∙ (reads buf_blocks (block_count len offset (2 ^ k)) (lba_start offset (2 ^ k))
            (offset % 2 ^ k + i) m (blocks_hold len offset (2 ^ k) pos one fits i lt)
          ∙ ap disk {x = offset / 2 ^ k * 2 ^ k + (offset % 2 ^ k + i)} {y = offset + i}
              (omega (arith, div-add-mod' offset (2 ^ k)))) in
    rw src (got ∙ ground (arith, byte))
