-- ===== src/Devices/Nvme.antt =====
-- kernel/src/pci/nvme.c: command queues, and reading blocks. The controller is not in the repository:
-- what it writes to a completion entry is a parameter.
pub mod Blocks
pub mod Rings
pub mod Regs
pub mod Setup
pub mod Namespaces
pub mod Checks
pub mod Places
mod Tests
use shed_os.Base.{
  ℕ, zero, suc, ◌+◌, ◌-◌, ◌*◌, ◌/◌, ◌%◌, ◌^◌, Bool, true, false, not, ◌==◌, if◌then◌else◌, Option,
  none, some, List, [], ◌∷◌, update, min,
}
use shed_os.Base.Word.{add64, sub64, u32_mod}
use shed_os.Memory.Addr.{addr_ensure_lower}

pub record SqEntry : Type 0 where
  pub cdw0 : ℕ
  pub nsid : ℕ
  pub mptr : ℕ
  pub prp1 : ℕ
  pub prp2 : ℕ
  pub cdw10 : ℕ
  pub cdw11 : ℕ
  pub cdw12 : ℕ

pub record CqEntry : Type 0 where
  pub cmd_specific : ℕ
  pub sq_head_ptr : ℕ
  pub sq_identifier : ℕ
  pub cmd_identifier : ℕ
  pub status_field : ℕ

-- The doorbells are the values last written to the device's registers.
pub record Queue : Type 0 where
  pub id : ℕ
  pub sq_tail : ℕ
  pub cq_head : ℕ
  pub sq : ℕ → SqEntry
  pub cq : ℕ → CqEntry
  pub sq_tail_dbl : ℕ
  pub cq_head_dbl : ℕ

-- `queue->sq[queue->sq_tail] = *command`, and the doorbell.
unfoldable pub submit : SqEntry → Queue → Queue
submit command q = record q {
  sq = update q.sq q.sq_tail command;
  sq_tail_dbl = (q.sq_tail + 1) % 256;
  sq_tail = (q.sq_tail + 1) % 256;
}

-- The wait: `polls` are what the head entry holds each time it is looked at. `none` is a device that
-- gives no answer while it is looked at.
unfoldable pub wait : List CqEntry → Option CqEntry
wait [] = none
wait (c ∷ polls) = let rest = wait polls in if c.status_field % 2 == 0 then rest else some c

-- The answer is taken: the phase bit is cleared in memory, and the doorbell written. The status goes to
-- the screen where it is not 0.
unfoldable pub complete : CqEntry → Queue → CqEntry × Queue
complete c q =
    let taken : CqEntry = record c { status_field = c.status_field - c.status_field % 2 } in
    (
      taken,
      record q {
        cq = update q.cq q.cq_head taken;
        cq_head_dbl = (q.cq_head + 1) % 256;
        cq_head = (q.cq_head + 1) % 256;
      },
    )

unfoldable pub send_cmd_sync : SqEntry → List CqEntry → Queue → Option (CqEntry × Queue)
send_cmd_sync command polls q = elim (wait polls) [
  | none ↦ none
  | some c ↦ some (complete c (submit command q))
]

-- The command of `read_blocks_nvme`.
unfoldable pub read_command : (buf block_count block_offset nsid : ℕ) → SqEntry
read_command buf block_count block_offset nsid = record {
  cdw0 = 2;
  nsid = nsid;
  mptr = 0;
  prp1 = addr_ensure_lower buf;
  prp2 = 0;
  cdw10 = block_offset % u32_mod;
  cdw11 = block_offset / 2 ^ 32 % u32_mod;
  cdw12 = sub64 block_count 1 % u32_mod;
}

abbrev pub max_blocks : ℕ
max_blocks = 16

-- The commands of `read_blocks`, from transfer `ct` on.
unfoldable pub read_loop : ℕ → (ct buf block_count block_offset block_size nsid : ℕ) → List SqEntry
read_loop zero ct buf block_count block_offset block_size nsid = []
read_loop (suc left) ct buf block_count block_offset block_size nsid =
    read_command (add64 buf (ct * max_blocks * block_size)) (min block_count max_blocks)
      (add64 block_offset (ct * max_blocks)) nsid
    ∷ read_loop left (ct + 1) buf block_count block_offset block_size nsid

unfoldable pub read_blocks : (buf block_count block_offset block_size nsid : ℕ) → List SqEntry
read_blocks buf block_count block_offset block_size nsid =
    read_loop ((block_count + (max_blocks - 1)) / max_blocks) 0 buf block_count block_offset
      block_size nsid

-- The commands one after the other, each with what the device shows while it is waited for.
unfoldable pub send_all : List SqEntry → List (List CqEntry) → Queue → Option Queue
send_all [] polls q = some q
send_all (c ∷ cs) [] q = none
send_all (c ∷ cs) (p ∷ polls) q = elim (send_cmd_sync c p q) [
  | none ↦ none
  | some (answer, q') ↦ send_all cs polls q'
]

-- The admin queue has the number 0, and the I/O queue of every drive the number 1.
pub data QueueKind : Type 0 where
  admin : QueueKind
  input_output : QueueKind

pub data RingEnd : Type 0 where
  submission : RingEnd
  completion : RingEnd

abbrev pub doorbell_index : QueueKind → RingEnd → ℕ
doorbell_index admin submission = 2 * 0 + 0
doorbell_index admin completion = 2 * 0 + 1
doorbell_index input_output submission = 2 * 1 + 0
doorbell_index input_output completion = 2 * 1 + 1

-- `create_admin_queue` and `create_io_queue` on the driver's side: where the doorbells are.
unfoldable pub doorbell : (regs cap : ℕ) → QueueKind → RingEnd → ℕ
doorbell regs cap kind end = regs + 0x1000 + doorbell_index kind end * 2 ^ (2 + cap / 2 ^ 32 % 16)

-- The size of a block, from the format that the namespace uses.
unfoldable pub block_size_of : (lbads : ℕ → ℕ) → (flbas : ℕ) → ℕ
block_size_of lbads flbas = 2 ^ lbads (flbas % 4)
