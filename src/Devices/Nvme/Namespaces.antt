-- ===== src/Devices/Nvme/Namespaces.antt =====
-- `namespaces_identify` of kernel/src/pci/nvme.c: every namespace becomes a device with a drive. What
-- the controller writes to the pages that it is given is a parameter: `nsids` is its list of namespaces,
-- `formats` the page about the one with an id.
use shed_os.Base.{ℕ, zero, suc, ◌+◌, ◌==◌, if◌then◌else◌, Option, none, some, List, [], ◌∷◌, ◌++◌}
use shed_os.Base.Result.{Result, ok, panic}
use shed_os.Memory.Paging.{Machine, palloc, pfree}
use shed_os.Devices.Nvme.{SqEntry, block_size_of}
use shed_os.Devices.Nvme.Setup.{QueuePlaces, NvmeController, identify_command, create_io_queue}
use shed_os.Devices.Registry.{Table, device_register, device_finalize, dclass_drive}

pub record LbaFormat : Type 0 where
  pub ms : ℕ
  pub lbads : ℕ
  pub rp : ℕ

-- The page that the controller writes about a namespace, without the reserved fields.
pub record NamespaceId : Type 0 where
  pub nsze : ℕ
  pub ncap : ℕ
  pub nuse : ℕ
  pub nsfeat : ℕ
  pub nlbaf : ℕ
  pub flbas : ℕ
  pub mc : ℕ
  pub dpc : ℕ
  pub dps : ℕ
  pub nmic : ℕ
  pub rescap : ℕ
  pub fpi : ℕ
  pub nawun : ℕ
  pub nawupf : ℕ
  pub nacwu : ℕ
  pub nabsn : ℕ
  pub nabo : ℕ
  pub nabspf : ℕ
  pub nvmcap : ℕ
  pub nguid : ℕ
  pub eui64 : ℕ
  pub lba_formats : ℕ → LbaFormat

-- `struct drive` with its `struct nvme_drive`.
pub record NvmeDrive : Type 0 where
  pub nsid : ℕ
  pub io_queue : QueuePlaces
  pub id : ℕ
  pub block_size : ℕ

-- The devices, the drives at their addresses, those that the file system was told of, and the commands
-- sent to the admin queue, in their order.
pub record Namespaces : Type 0 where
  pub machine : Machine
  pub devices : Table
  pub drives : List (ℕ × NvmeDrive)
  pub registered : List ℕ
  pub sent : List SqEntry

-- One round; `device` and `drive` are the addresses that `zmalloc` answers.
unfoldable pub namespace_round :
    (formats : ℕ → NamespaceId)
    → (device drive nsid : ℕ) → NvmeController
    → Namespaces
    → Result Namespaces
namespace_round formats device drive nsid ctrl n = elim (device_register device n.devices) [
  | panic ↦ panic
  | ok devices ↦
      (let (io_queue, commands, s1) = create_io_queue ctrl n.machine in
        let (id, s2) = palloc 1 s1 in
        ok (record {
          machine = s2;
          devices = devices;
          drives =
              (
                drive,
                record {
                  nsid = nsid;
                  io_queue = io_queue;
                  id = id;
                  block_size =
                      block_size_of (λ i. ((formats nsid).lba_formats i).lbads)
                        (formats nsid).flbas;
                },
              )
              ∷ n.drives;
          registered = device_finalize dclass_drive drive n.registered;
          sent = n.sent ++ (commands ++ (identify_command 0 nsid id ∷ []));
        }))
]

-- The rounds from the `i`-th namespace on, up to the id 0; `none` when the fuel is used up.
unfoldable pub namespace_rounds :
    ℕ
    → (formats : ℕ → NamespaceId) → (device drive : ℕ → ℕ) → (nsids : ℕ → ℕ) → (i : ℕ)
    → NvmeController
    → Namespaces
    → Option (Result Namespaces)
namespace_rounds zero formats device drive nsids i ctrl n = none
namespace_rounds (suc fuel) formats device drive nsids i ctrl n =
    if nsids i == 0
    then some (ok n)
    else (elim (namespace_round formats (device i) (drive i) (nsids i) ctrl n) [
      | panic ↦ some panic
      | ok n' ↦ namespace_rounds fuel formats device drive nsids (i + 1) ctrl n'
    ])

unfoldable pub namespaces_identify :
    ℕ
    → (formats : ℕ → NamespaceId) → (device drive : ℕ → ℕ) → (nsids : ℕ → ℕ) → NvmeController
    → Namespaces
    → Option (Result Namespaces)
namespaces_identify fuel formats device drive nsids ctrl n =
    let (page, s1) = palloc 1 n.machine in
    elim (namespace_rounds fuel formats device drive nsids 0 ctrl
      (record n { machine = s1; sent = n.sent ++ (identify_command 2 0 page ∷ []) })) [
        | none ↦ none
        | some panic ↦ some panic
        | some (ok n') ↦ some (ok (record n' { machine = pfree page 1 n'.machine }))
      ]
