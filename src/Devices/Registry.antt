-- ===== src/Devices/Registry.antt =====
-- kernel/src/device/device.c and kernel/src/userspace/kernel_function.c: tables of 255 places. Devices
-- and functions are addresses; 0 is a free place.
pub mod Places
use shed_os.Base.{ℕ, zero, suc, ◌+◌, ◌==◌, if◌then◌else◌, update, List, ◌∷◌}
use shed_os.Base.Result.{Result, ok, panic}

-- A table and the number that each entry carries itself.
pub record Table : Type 0 where
  pub places : ℕ → ℕ
  pub numbers : ℕ → ℕ

-- The loop of `device_register`.
unfoldable pub register_loop : ℕ → (id device : ℕ) → Table → Result Table
register_loop zero id device t = panic
register_loop (suc left) id device t =
    let rest = register_loop left (id + 1) device t in
    if t.places id == 0
    then ok (record { places = update t.places id device; numbers = update t.numbers device id })
    else rest

unfoldable pub device_register : ℕ → Table → Result Table
device_register device t = register_loop 255 0 device t

-- The loop of `kernel_function_register` goes on behind a free place.
unfoldable pub function_loop : ℕ → (code function : ℕ) → Table → Table
function_loop zero code function t = t
function_loop (suc left) code function t = function_loop left (code + 1) function (
    if t.places code == 0
    then record { places = update t.places code function; numbers = update t.numbers function code }
    else t)

-- The table when the machine stops: the panic behind the loop is always reached.
unfoldable pub kernel_function_register : ℕ → Table → Table
kernel_function_register function t = function_loop 255 0 function t

pub data DeviceClass : Type 0 where
  dclass_kernel : DeviceClass
  dclass_drive : DeviceClass

-- `device_finalize`: `drives` are those that `vfs_register_drive` was called for, the last one first.
unfoldable pub device_finalize : DeviceClass → (drive : ℕ) → (drives : List ℕ) → List ℕ
device_finalize dclass_drive drive drives = drive ∷ drives
device_finalize dclass_kernel drive drives = drives
