-- ===== src/Devices/Nvme/Regs.antt =====
-- The configuration space of an endpoint (kernel/src/pci/pci.h) and the registers of a controller
-- (kernel/src/pci/nvme.c).
use shed_os.Base.{ℕ, ◌^◌}

-- The configuration space of an endpoint (pci.h).
pub record PciDeviceHeader : Type 0 where
  pub vendor_id : ℕ
  pub command : ℕ
  pub revision_id : ℕ
  pub cl_size : ℕ

pub record PciDeviceEndpoint : Type 0 where
  pub hdr : PciDeviceHeader
  pub bar0 : ℕ
  pub bar1 : ℕ
  pub bar2 : ℕ
  pub bar3 : ℕ
  pub bar4 : ℕ
  pub bar5 : ℕ
  pub cis_pointer : ℕ
  pub subsystem_vendor_id : ℕ
  pub xrom_base_addr : ℕ
  pub capabilities_ptr : ℕ
  pub int_line : ℕ

abbrev pub phc_io_space : ℕ
phc_io_space = 2 ^ 0

abbrev pub phc_mem_space : ℕ
phc_mem_space = 2 ^ 1

abbrev pub phc_bus_master : ℕ
phc_bus_master = 2 ^ 2

abbrev pub phc_interrupt_disable : ℕ
phc_interrupt_disable = 2 ^ 10

-- The registers of the controller.
pub record Regs : Type 0 where
  pub cap : ℕ
  pub vs : ℕ
  pub intms : ℕ
  pub intmc : ℕ
  pub cc : ℕ
  pub reserved0 : ℕ
  pub csts : ℕ
  pub nssr : ℕ
  pub aqa : ℕ
  pub asq : ℕ
  pub acq : ℕ
  pub cmbloc : ℕ
  pub cmbsz : ℕ
