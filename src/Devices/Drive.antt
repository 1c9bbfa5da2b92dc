-- ===== src/Devices/Drive.antt =====
-- kernel/src/device/drive/drive.c: reading bytes from a drive of blocks. `read_blocks` is the function
-- in the drive's structure; `m` gives the byte at each address. The pages between are those of `palloc`.
pub mod Bytes
use shed_os.Base.{ℕ, ◌+◌, ◌-◌, ◌*◌, ◌/◌, bit_and}
use shed_os.Base.Word.{add64, sub64, mul64}
use shed_os.Libk.Memutil.{Ram, memcpy}
use shed_os.Memory.Paging.{Machine, palloc, pfree}

-- `read_blocks(buf, block_count, block_offset)`
abbrev pub ReadBlocks : Type 0
ReadBlocks = (buf block_count block_offset : ℕ) → Ram → Ram

-- The numbers of the first and the last block, and how many there are.
abbrev pub lba_start : (offset bs : ℕ) → ℕ
lba_start offset bs = offset / bs

abbrev pub block_count : (len offset bs : ℕ) → ℕ
block_count len offset bs = add64 (sub64 (add64 offset (sub64 len 1) / bs) (lba_start offset bs)) 1

abbrev pub page_count : (len offset bs : ℕ) → ℕ
page_count len offset bs = add64 (mul64 (block_count len offset bs) bs) 0xfff / 0x1000

-- Into the pages at `buf_blocks`, and from there to `buf`.
unfoldable pub drive_copy : ReadBlocks → (bs buf len offset buf_blocks : ℕ) → Ram → Ram
drive_copy read_blocks bs buf len offset buf_blocks m =
    memcpy buf (add64 buf_blocks (bit_and offset (sub64 bs 1))) len
      (read_blocks buf_blocks (block_count len offset bs) (lba_start offset bs) m)

unfoldable pub drive_read : ReadBlocks → (bs buf len offset : ℕ) → Ram → Machine → Ram × Machine
drive_read read_blocks bs buf len offset m s =
    let (buf_blocks, s') = palloc (page_count len offset bs) s in
    (
      drive_copy read_blocks bs buf len offset buf_blocks m,
      pfree buf_blocks (page_count len offset bs) s',
    )
