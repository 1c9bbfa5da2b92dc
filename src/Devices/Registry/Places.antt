-- ===== src/Devices/Registry/Places.antt =====
-- Which place a device gets (device.c), and what kernel_function.c does to all of them.
use shed_os.Base.{
  ℕ, zero, suc, ◌+◌, ◌<◌, ◌≤◌, ◌≡◌, ◌≢◌, refl, ◌==◌, ltb, leb, ◌&&◌, if◌then◌else◌, arith, eq_cases,
  inl, inr, eq→==, ne→==, update,
}
use shed_os.Base.Result.{Result, ok, panic}
use shed_os.Devices.Registry.{
  Table, register_loop, device_register, function_loop, kernel_function_register,
}

-- A device stands in the first free place and carries its number; or there is none, and the kernel
-- panics.
pub data Registered (device id : ℕ) (t : Table) : Result Table → Type 0 where
  placed :
      (k : ℕ) (t' : Table)
      → id ≤ k
      → k < 255
      → t.places k ≡ 0
      → ((j : ℕ) → id ≤ j → j < k → t.places j ≢ 0)
      → ((j : ℕ) → t'.places j ≡ (if j == k then device else t.places j))
      → t'.numbers device ≡ k
      → Registered device id t (ok t')
  full : ((j : ℕ) → id ≤ j → j < 255 → t.places j ≢ 0) → Registered device id t panic

registered_next :
    (device id : ℕ) (t : Table) (r : Result Table)
    → t.places id ≢ 0
    → Registered device (id + 1) t r
    → Registered device id t r
registered_next device id t r taken (placed k t' lo hi free before places number) =
    placed k t' (omega arith) hi free (λ j a b. ground (arith, before j)) places number
registered_next device id t r taken (full all) = full (λ j a b. ground (arith, all j))

register_loop_lem :
    (left id device : ℕ) (t : Table)
    → id + left ≡ 255
    → Registered device id t (register_loop left id device t)
unfolding register_loop
register_loop_lem zero id device t e = full (λ j a b. absurd (omega arith))
register_loop_lem (suc left) id device t e = elim (eq_cases (t.places id) 0) [
  | inl z ↦ rw (eq→== (t.places id) 0 z) (
      placed id _ (omega arith) (omega arith) z (λ j a b. absurd (omega arith)) (λ j. refl)
        (ground arith))
  | inr nz ↦
      rw (ne→== (t.places id) 0 nz)
        (registered_next device id t _ nz (register_loop_lem left (id + 1) device t (omega arith)))
]

-- `device_register` gives a device the first free place, or panics where all 255 are taken.
pub device_register_lem :
    (device : ℕ) (t : Table) → Registered device 0 t (device_register device t)
unfolding device_register
device_register_lem device t = register_loop_lem 255 0 device t refl

function_loop_lem :
    (left code function k : ℕ) (t : Table)
    → function ≢ 0
    → (function_loop left code function t).places k ≡ (
        if leb code k && ltb k (code + left)
        then (if t.places k == 0 then function else t.places k)
        else t.places k)
unfolding function_loop
function_loop_lem zero code function k t nz = ground arith
function_loop_lem (suc left) code function k t nz = ground (
  arith,
  function_loop_lem left (code + 1) function k
      (if t.places code == 0
        then record {
          places = update t.places code function;
          numbers = update t.numbers function code;
        }
        else t)
      nz,
)

-- `kernel_function_register` puts the function in every free place, not in the first one only.
pub function_everywhere :
    (function k : ℕ) (t : Table)
    → function ≢ 0
    → k < 255
    → (kernel_function_register function t).places k
      ≡ (if t.places k == 0 then function else t.places k)
unfolding kernel_function_register
function_everywhere function k t nz lt = ground (arith, function_loop_lem 255 0 function k t nz)
