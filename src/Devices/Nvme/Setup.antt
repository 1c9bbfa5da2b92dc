-- ===== src/Devices/Nvme/Setup.antt =====
-- kernel/src/pci/nvme.c: a controller is checked, given its queues and asked for its namespaces.
-- Messages that are only printed are left out, with what is read for them alone.
use shed_os.Base.{
  ℕ, ◌+◌, ◌-◌, ◌*◌, ◌/◌, ◌%◌, ◌^◌, Bool, true, false, bit_and, bit_or, leb, ◌==◌, ◌&&◌,
  if◌then◌else◌, Option, none, some, List, [], ◌∷◌,
}
use shed_os.Base.Word.{add64, u32_mod}
use shed_os.Base.Result.{Result, ok, panic}
use shed_os.Memory.Addr.{addr_ensure_higher, addr_ensure_lower}
use shed_os.Memory.Pmm.{Pmm, pmm_request_pages}
use shed_os.Memory.Paging.{Machine, palloc}
use shed_os.Devices.Nvme.{SqEntry, QueueKind, admin, input_output, submission, completion, doorbell}
use shed_os.Devices.Nvme.Regs.{
  PciDeviceEndpoint, phc_io_space, phc_mem_space, phc_bus_master, phc_interrupt_disable, Regs,
}

-- Where a queue and its doorbells are.
pub record QueuePlaces : Type 0 where
  pub sq_tail : ℕ
  pub cq_head : ℕ
  pub sq : ℕ
  pub cq : ℕ
  pub sq_tail_dbl : ℕ
  pub cq_head_dbl : ℕ

-- `regs_at` is the address of the registers.
pub record NvmeController : Type 0 where
  pub regs_at : ℕ
  pub regs : Regs
  pub admin_queue : QueuePlaces

-- The command register: bus master, memory and I/O space, no interrupts.
unfoldable pub set_command : PciDeviceEndpoint → PciDeviceEndpoint
set_command ep = record ep {
  hdr = record (ep.hdr) {
    command =
        bit_or (bit_or (bit_or (bit_or ep.hdr.command phc_bus_master) phc_mem_space) phc_io_space)
          phc_interrupt_disable;
  };
}

-- The address that the two halves of the BAR give.
unfoldable pub bar0_addr : PciDeviceEndpoint → ℕ
bar0_addr ep = add64 (bit_and ep.bar0 0xfffffff0) (bit_and ep.bar1 0xffffffff * 2 ^ 32)

unfoldable pub page_size_min : Regs → ℕ
page_size_min regs = 2 ^ (12 + regs.cap / 2 ^ 48 % 16)

unfoldable pub page_size_max : Regs → ℕ
page_size_max regs = 2 ^ (12 + regs.cap / 2 ^ 52 % 16)

-- The three assertions; `read_regs` is what stands at the address of the registers. The answer is the
-- endpoint, the address and the registers.
unfoldable pub nvme_probe :
    (read_regs : ℕ → Regs) → PciDeviceEndpoint → Result (PciDeviceEndpoint × ℕ × Regs)
nvme_probe read_regs ep =
    let ep1 = set_command ep in
    let regs_at = addr_ensure_higher (bar0_addr ep1) in
    let regs = read_regs regs_at in
    if bit_and ep1.bar0 4 == 0
    then panic
    else if regs.cap / 2 ^ 37 % 2 == 0
    then panic
    else if leb 0x1000 (page_size_max regs) && leb (page_size_min regs) 0x1000
    then ok (ep1, regs_at, regs)
    else panic

-- `controller.regs->cc &= ~(1 << 0)`
unfoldable pub disable : Regs → Regs
disable regs = record regs { cc = bit_and regs.cc (u32_mod - 1 - 1) }

-- The bits that the controller is enabled with: entries of 2 ^ 6 and of 2 ^ 4 bytes.
unfoldable pub enable : Regs → Regs
enable regs = record regs { cc = bit_or (bit_or 1 (6 * 2 ^ 16)) (4 * 2 ^ 20) }

-- The loops that wait for the ready bit: the values of the status register as it is looked at, and
-- whether one of them ends the loop.
unfoldable pub settles : (ready : ℕ) → List ℕ → Bool
settles ready [] = false
settles ready (csts ∷ polls) = if csts % 2 == ready then true else settles ready polls

-- A queue of 256 entries in the pages at `sq` and `cq`.
unfoldable pub queue_at : (regs_at : ℕ) → Regs → QueueKind → (sq cq : ℕ) → QueuePlaces
queue_at regs_at regs kind sq cq = record {
  sq_tail = 0;
  cq_head = 0;
  sq = sq;
  cq = cq;
  sq_tail_dbl = doorbell regs_at regs.cap kind submission;
  cq_head_dbl = doorbell regs_at regs.cap kind completion;
}

abbrev pub sq_page_count : ℕ
sq_page_count = 64 * 256 / 0x1000

abbrev pub cq_page_count : ℕ
cq_page_count = 16 * 256 / 0x1000

unfoldable pub create_admin_queue : (regs_at : ℕ) → Regs → Pmm → NvmeController × Pmm
create_admin_queue regs_at regs pmm =
    let (asq, pmm1) = pmm_request_pages sq_page_count pmm in
    let (acq, pmm2) = pmm_request_pages cq_page_count pmm1 in
    let regs1 : Regs = record regs { asq = asq; acq = acq; aqa = bit_or 255 (255 * 2 ^ 16) } in
    (
      record {
        regs_at = regs_at;
        regs = regs1;
        admin_queue =
            queue_at regs_at regs1 admin (addr_ensure_higher asq) (addr_ensure_higher acq);
      },
      pmm2,
    )

abbrev pub no_command : SqEntry
no_command = record {
  cdw0 = 0;
  nsid = 0;
  mptr = 0;
  prp1 = 0;
  prp2 = 0;
  cdw10 = 0;
  cdw11 = 0;
  cdw12 = 0;
}

-- The command that has what `what` asks for written to `page`.
unfoldable pub identify_command : (what nsid page : ℕ) → SqEntry
identify_command what nsid page = record no_command {
  cdw0 = 6;
  nsid = nsid;
  prp1 = addr_ensure_lower page;
  cdw10 = what;
}

-- The page of `ctrl_identify`, and its command.
unfoldable pub ctrl_identify : Machine → ℕ × SqEntry × Machine
ctrl_identify s = let (id, s1) = palloc 1 s in (id, identify_command 1 0 id, s1)

-- The commands of `create_io_queue`: the completion queue comes first.
unfoldable pub create_completion : (cq : ℕ) → SqEntry
create_completion cq = record no_command {
  cdw0 = 5;
  prp1 = addr_ensure_lower cq;
  prp2 = addr_ensure_lower cq / 2 ^ 32;
  cdw10 = bit_or 1 (255 * 2 ^ 16);
  cdw11 = 1;
}

unfoldable pub create_submission : (sq : ℕ) → SqEntry
create_submission sq = record no_command {
  cdw0 = 1;
  prp1 = addr_ensure_lower sq;
  prp2 = addr_ensure_lower sq / 2 ^ 32;
  cdw10 = bit_or 1 (255 * 2 ^ 16);
  cdw11 = bit_or 1 (1 * 2 ^ 16);
}

unfoldable pub create_io_queue : NvmeController → Machine → QueuePlaces × List SqEntry × Machine
create_io_queue ctrl s =
    let (sq, s1) = palloc sq_page_count s in
    let (cq, s2) = palloc cq_page_count s1 in
    (
      queue_at ctrl.regs_at ctrl.regs input_output sq cq,
      create_completion cq ∷ create_submission sq ∷ [],
      s2,
    )

-- What `nvme_initialize_device` has after `ctrl_identify`.
pub record Attached : Type 0 where
  pub endpoint : PciDeviceEndpoint
  pub controller : NvmeController
  pub id : ℕ
  pub sent : List SqEntry

-- The controller is set up once it is off, and identified once it is on again. `none` is one that does
-- not change while it is looked at.
unfoldable pub attach :
    (off on : List ℕ) → PciDeviceEndpoint × ℕ × Regs → Machine → Option (Attached × Machine)
attach off on (ep, regs_at, regs) s =
    let (ctrl, pmm) = create_admin_queue regs_at (disable regs) s.pmm in
    let (id, command, s1) = ctrl_identify (record s { pmm = pmm }) in
    if settles 0 off && settles 1 on
    then some (
      record {
        endpoint = ep;
        controller = record ctrl { regs = enable ctrl.regs };
        id = id;
        sent = command ∷ [];
      },
      s1,
    )
    else none

-- `nvme_initialize_device` up to the namespaces. `off` and `on` are the values of the status register in
-- the two waits.
unfoldable pub nvme_initialize_device :
    (read_regs : ℕ → Regs)
    → (off on : List ℕ) → PciDeviceEndpoint
    → Machine
    → Result (Option (Attached × Machine))
nvme_initialize_device read_regs off on ep s = elim (nvme_probe read_regs ep) [
  | panic ↦ panic
  | ok found ↦ ok (attach off on found s)
]
