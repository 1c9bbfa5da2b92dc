-- ===== src/Devices/Nvme/Blocks.antt =====
-- Which blocks the commands of `read_blocks` (nvme.c) ask for.
use shed_os.Base.{
  ℕ, zero, suc, ◌+◌, ◌-◌, ◌*◌, ◌/◌, ◌%◌, ◌^◌, ◌<◌, ◌≡◌, ◌≢◌, ap, ◌∙◌, min, get_elem?, some, arith,
}
use shed_os.Base.Word.{add64}
use shed_os.Devices.Nvme.{SqEntry, read_blocks, read_loop, read_command, max_blocks}

-- The first block of a command and how many it asks for, as the device reads them.
abbrev pub first_block : SqEntry → ℕ
first_block c = c.cdw10 + 2 ^ 32 * c.cdw11

abbrev pub blocks : SqEntry → ℕ
blocks c = c.cdw12 % 2 ^ 16 + 1

-- The command of transfer `ct`.
abbrev pub transfer : (buf block_count block_offset block_size nsid ct : ℕ) → SqEntry
transfer buf block_count block_offset block_size nsid ct =
    read_command (add64 buf (ct * max_blocks * block_size)) (min block_count max_blocks)
      (add64 block_offset (ct * max_blocks)) nsid

read_loop-get :
    (left ct k buf block_count block_offset block_size nsid : ℕ)
    → k < left
    → get_elem? (read_loop left ct buf block_count block_offset block_size nsid) k
      ≡ some (transfer buf block_count block_offset block_size nsid (ct + k))
unfolding read_loop
read_loop-get zero ct k buf block_count block_offset block_size nsid lt = absurd (omega arith)
read_loop-get (suc left) ct zero buf block_count block_offset block_size nsid lt =
    ap (λ (x : ℕ). some (transfer buf block_count block_offset block_size nsid x)) {x = ct}
      {y = ct + 0} (omega arith)
read_loop-get (suc left) ct (suc k) buf block_count block_offset block_size nsid lt =
    read_loop-get left (ct + 1) k buf block_count block_offset block_size nsid (omega arith)
    ∙ ap (λ (x : ℕ). some (transfer buf block_count block_offset block_size nsid x))
        {x = ct + 1 + k} {y = ct + suc k} (omega arith)

transfer-first :
    (buf block_count block_offset block_size nsid ct : ℕ)
    → block_offset + ct * max_blocks < 2 ^ 64
    → first_block (transfer buf block_count block_offset block_size nsid ct)
      ≡ block_offset + ct * max_blocks
unfolding read_command
transfer-first buf block_count block_offset block_size nsid ct fits = omega arith

transfer-blocks :
    (buf block_count block_offset block_size nsid ct : ℕ)
    → 0 < block_count
    → blocks (transfer buf block_count block_offset block_size nsid ct) ≡ min block_count max_blocks
unfolding read_command
transfer-blocks buf block_count block_offset block_size nsid ct pos = omega arith

get-read_blocks :
    (ct buf block_count block_offset block_size nsid : ℕ)
    → ct < (block_count + (max_blocks - 1)) / max_blocks
    → get_elem? (read_blocks buf block_count block_offset block_size nsid) ct
      ≡ some (transfer buf block_count block_offset block_size nsid ct)
unfolding read_blocks
get-read_blocks ct buf block_count block_offset block_size nsid lt =
    read_loop-get ((block_count + (max_blocks - 1)) / max_blocks) 0 ct buf block_count block_offset
      block_size nsid lt
    ∙ ap (λ (x : ℕ). some (transfer buf block_count block_offset block_size nsid x)) {x = 0 + ct}
        {y = ct} (omega arith)

-- Block `k` of a request whose numbers stay below 2 ^ 64 is asked for by command `k / 16`, at
-- place `k % 16` of its blocks.
pub read_blocks_covers :
    (k buf block_count block_offset block_size nsid : ℕ)
    → k < block_count
    → block_offset + block_count + max_blocks < 2 ^ 64
    → (c : SqEntry) × (get_elem?
          (read_blocks buf block_count block_offset block_size nsid)
          (k / max_blocks)
        ≡ some c)
      × (first_block c + k % max_blocks ≡ block_offset + k)
      × (k % max_blocks < blocks c)
read_blocks_covers k buf block_count block_offset block_size nsid lt fits = (
  transfer buf block_count block_offset block_size nsid (k / max_blocks),
  get-read_blocks (k / max_blocks) buf block_count block_offset block_size nsid (omega arith),
  omega (
    arith,
    transfer-first buf block_count block_offset block_size nsid (k / max_blocks) (omega arith),
  ),
  omega (
    arith,
    transfer-blocks buf block_count block_offset block_size nsid (k / max_blocks) (omega arith),
  ),
)

-- Where more than 16 blocks are asked for, and no multiple of 16, the last command goes on behind the
-- last block of the request.
pub read_blocks_overrun :
    (buf block_count block_offset block_size nsid : ℕ)
    → max_blocks < block_count
    → block_count % max_blocks ≢ 0
    → block_offset + block_count + max_blocks < 2 ^ 64
    → (c : SqEntry) × (get_elem?
          (read_blocks buf block_count block_offset block_size nsid)
          (block_count / max_blocks)
        ≡ some c)
      × (block_offset + block_count < first_block c + blocks c)
read_blocks_overrun buf block_count block_offset block_size nsid many odd fits = (
  transfer buf block_count block_offset block_size nsid (block_count / max_blocks),
  get-read_blocks (block_count / max_blocks) buf block_count block_offset block_size nsid
      (omega arith),
  omega (
    arith,
    transfer-first buf block_count block_offset block_size nsid (block_count / max_blocks)
        (omega arith),
    transfer-blocks buf block_count block_offset block_size nsid (block_count / max_blocks)
        (omega arith),
  ),
)
