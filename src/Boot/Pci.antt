-- ===== src/Boot/Pci.antt =====
-- kernel/src/pci/pci.c: the functions on the bus. `read` gives the 32-bit word at an address of the
-- configuration space.
pub mod Search
use shed_os.Base.{
  ℕ, zero, suc, ◌+◌, ◌-◌, ◌*◌, ◌/◌, ◌%◌, ◌^◌, ◌&&◌, ◌||◌, bit_or, ◌==◌, if◌then◌else◌, Option, none,
  some, List, [], ◌∷◌, ◌++◌,
}
use shed_os.Base.Word.{add64}
use shed_os.Libk.Memutil.{Ram}
use shed_os.Memory.Addr.{addr_ensure_higher}

pub record PciAddr : Type 0 where
  pub bus : ℕ
  pub device : ℕ
  pub function : ℕ

-- The address of a function's header.
unfoldable pub conf_addr : (base : ℕ) → PciAddr → ℕ
conf_addr base a =
    addr_ensure_higher
      (add64 base (bit_or (bit_or (a.bus * 2 ^ 20) (a.device * 2 ^ 15)) (a.function * 2 ^ 12)))

-- What `enumerate` does with a function.
pub data Action : Type 0 where
  ignore : Action
  report : Action
  initialize_nvme : Action

-- Class 1 and subclass 8 are NVMe. The ids are the halves of the first word.
unfoldable pub enumerate : (read : ℕ → ℕ) → (base : ℕ) → PciAddr → Action
enumerate read base a =
    let conf = conf_addr base a in
    let vendor_id = read conf % 2 ^ 16 in
    let device_id = read conf / 2 ^ 16 % 2 ^ 16 in
    let subclass = read (conf + 8) / 2 ^ 16 % 2 ^ 8 in
    let class = read (conf + 8) / 2 ^ 24 % 2 ^ 8 in
    let header_type = read (conf + 12) / 2 ^ 16 % 2 ^ 8 in
    if (vendor_id == 0xffff) || (device_id == 0xffff)
    then ignore
    else if (header_type == 0) && ((class == 1) && (subclass == 8))
    then initialize_nvme
    else report

-- The loops of `pci_init`: functions, devices and buses.
unfoldable pub functions_of : ℕ → (bus device function : ℕ) → List PciAddr
functions_of zero bus device function = []
functions_of (suc left) bus device function =
    record { bus = bus; device = device; function = function }
    ∷ functions_of left bus device (function + 1)

unfoldable pub devices_of : ℕ → (bus device : ℕ) → List PciAddr
devices_of zero bus device = []
devices_of (suc left) bus device = functions_of 8 bus device 0 ++ devices_of left bus (device + 1)

unfoldable pub buses_of : ℕ → (bus : ℕ) → List PciAddr
buses_of zero bus = []
buses_of (suc left) bus = devices_of 32 bus 0 ++ buses_of left (bus + 1)

-- The bus number behind `end_bus_number - 1` ends the loop.
unfoldable pub pci_init : (start_bus_number end_bus_number : ℕ) → List PciAddr
pci_init start_bus_number end_bus_number =
    buses_of (end_bus_number - start_bus_number) start_bus_number

-- The walk of `pci_get_cap`; 0 stands for `false`. The next capability lies at the offset that the
-- header names, and the walk only ends at an address 0.
unfoldable pub pci_get_cap : (fuel hdr conf_base cap_id : ℕ) → Ram → Option ℕ
pci_get_cap zero hdr conf_base cap_id m = none
pci_get_cap (suc fuel) hdr conf_base cap_id m =
    let rest = pci_get_cap fuel (add64 (m (hdr + 1)) conf_base) conf_base cap_id m in
    if hdr == 0 then some 0 else if m hdr == cap_id then some hdr else rest
