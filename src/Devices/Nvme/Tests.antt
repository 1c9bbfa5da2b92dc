-- ===== src/Devices/Nvme/Tests.antt =====
-- The theorems on setting up a controller at concrete inputs.
use shed_os.Base.{ℕ, ◌≡◌, ◌≢◌, ◌⊎◌, refl, ◌==◌, if◌then◌else◌, arith, []}
use shed_os.Base.Result.{ok, panic}
use shed_os.Memory.Bitmap.{bitmap_isset, bitmap_set}
use shed_os.Memory.Pmm.{
  Pmm, pmm_request_pages, request_loop, is_free, lock_pages, lock_loop, lock_page,
}
use shed_os.Memory.Pmm.Count.{free_pages}
use shed_os.Memory.Pmm.Valid.{IsValid}
use shed_os.Memory.Paging.{Machine}
use shed_os.Devices.Nvme.Regs.{PciDeviceEndpoint, Regs}
use shed_os.Devices.Nvme.Setup.{
  NvmeController, QueuePlaces, nvme_probe, create_admin_queue, create_io_queue,
}
use shed_os.Devices.Nvme.Checks.{IsSuitable, Accepted, nvme_probe_lem}
use shed_os.Devices.Nvme.Places.{IsQueue, BellsApart, create_io_queue_lem, doorbells_apart}

abbrev registers : ℕ → Regs
registers a = record {
  cap = 0x20_ff00_00ff;
  vs = 0x10400;
  intms = 0;
  intmc = 0;
  cc = 1;
  reserved0 = 0;
  csts = 1;
  nssr = 0;
  aqa = 0;
  asq = 0;
  acq = 0;
  cmbloc = 0;
  cmbsz = 0;
}

abbrev endpoint : PciDeviceEndpoint
endpoint = record {
  hdr = record { vendor_id = 0x8086; command = 0; revision_id = 0x1080200; cl_size = 0 };
  bar0 = 0xfebf_0004;
  bar1 = 0;
  bar2 = 0;
  bar3 = 0;
  bar4 = 0;
  bar5 = 0;
  cis_pointer = 0;
  subsystem_vendor_id = 0;
  xrom_base_addr = 0;
  capabilities_ptr = 0x40;
  int_line = 0;
}

nvme_probe_lem_example :
    (IsSuitable registers endpoint
      × (out : PciDeviceEndpoint × ℕ × Regs) × (nvme_probe registers endpoint ≡ ok out)
      × Accepted registers endpoint out)
    ⊎ ((IsSuitable registers endpoint → ⊥) × (nvme_probe registers endpoint ≡ panic))
nvme_probe_lem_example = nvme_probe_lem registers endpoint (omega arith) (omega arith)

abbrev sixteen : Pmm
sixteen = record {
  page_bitmap = record { buf = λ i. if i == 0 then 3 else if i == 1 then 0 else 255; len = 3 };
  bitmap_addr = 0x1000;
  last_free = 0;
  free_memory = 0xe000;
  total_memory = 0x10000;
}

sixteen-IsValid : IsValid sixteen
unfolding free_pages bitmap_isset
sixteen-IsValid = record {
  bytes = record { byte = λ i. ground arith };
  counted = record { fits = omega arith; free = refl };
  within = omega arith;
  guard = refl;
}

abbrev machine : Machine
machine = record { ram = λ a. 0; pmm = sixteen; kernel_table = 0; cr3 = 0; flushed = [] }

abbrev places : QueuePlaces
places = record { sq_tail = 0; cq_head = 0; sq = 0; cq = 0; sq_tail_dbl = 0; cq_head_dbl = 0 }

abbrev controller : NvmeController
controller = record { regs_at = 0x1000; regs = registers 0; admin_queue = places }

had_four : (pmm_request_pages 4 sixteen).0 ≢ 0
unfolding pmm_request_pages request_loop is_free bitmap_isset lock_pages lock_loop lock_page
    bitmap_set
had_four e = omega arith

had_one : (pmm_request_pages 1 (pmm_request_pages 4 sixteen).1).0 ≢ 0
unfolding pmm_request_pages request_loop is_free bitmap_isset lock_pages lock_loop lock_page
    bitmap_set
had_one e = omega arith

create_io_queue_lem_example : IsQueue controller machine (create_io_queue controller machine)
create_io_queue_lem_example =
    create_io_queue_lem controller machine sixteen-IsValid (omega arith) had_four had_one

doorbells_apart_example :
    let ctrl = (create_admin_queue 0x1000 (registers 0) sixteen).0 in
    let first = (create_io_queue ctrl machine).0 in
    let second = (create_io_queue ctrl machine).0 in
    BellsApart ctrl.admin_queue first
    × (first.sq_tail_dbl ≡ second.sq_tail_dbl)
    × (first.cq_head_dbl ≡ second.cq_head_dbl)
doorbells_apart_example = doorbells_apart 0x1000 (registers 0) sixteen machine machine
