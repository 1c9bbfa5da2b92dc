-- ===== src/Devices/Nvme/Checks.antt =====
-- `nvme_initialize_device` (nvme.c): which controllers are accepted, and what is set up.
use shed_os.Base.Bits.{
  or_digit, or_zero, or_blocks, and_high_mask, and_low_mask, and_digit, and_zero,
}
use shed_os.Memory.Addr.{vaddr_higher}
use shed_os.Memory.Addr.Half.{ensure_higher_lem}
use shed_os.Base.Word.{add64}
use shed_os.Base.{
  ap₂, ℕ, zero, suc, ◌+◌, ◌*◌, ◌/◌, ◌%◌, ◌^◌, ◌<◌, ◌≡◌, ◌≢◌, ◌⊎◌, inl, inr, refl, ap, ◌∙◌, true,
  false, arith, bit_and, bit_or, ◌==◌, Bool-cases, eq_cases, leb, ◌&&◌, not, Bool, if◌then◌else◌,
  ne→==,
}
use native.Mathlib.Nat.{pow-suc, one-le-pow}
use shed_os.Base.Result.{Result, ok, panic}
use shed_os.Memory.Addr.{addr_ensure_higher}
use shed_os.Devices.Nvme.Regs.{PciDeviceEndpoint, Regs}
use shed_os.Devices.Nvme.Setup.{set_command, bar0_addr, page_size_min, page_size_max, nvme_probe}

-- Where the registers are: the BAR without its four low bits, in the higher half.
abbrev pub place : PciDeviceEndpoint → ℕ
place ep = vaddr_higher + (ep.bar0 / 16 * 16 + 2 ^ 32 * ep.bar1) % 2 ^ 47

-- The controllers that the kernel can drive: a BAR of 64 bits (bit 2), the NVM command set (bit 37 of the
-- capabilities), and pages of 4096 bytes, the smallest size that there is (bits 48 to 51 are 0).
pub record IsSuitable (read_regs : ℕ → Regs) (ep : PciDeviceEndpoint) : Type 0 where
  pub wide : ep.bar0 / 4 % 2 ≡ 1
  pub nvm : (read_regs (place ep)).cap / 2 ^ 37 % 2 ≡ 1
  pub pages : (read_regs (place ep)).cap / 2 ^ 48 % 16 ≡ 0

-- What the probe answers for such a controller. In the command register the bits 0 to 2 (I/O space,
-- memory space, bus master) and 10 (no interrupts) are set, and nothing else is changed.
pub record Accepted (read_regs : ℕ → Regs) (ep : PciDeviceEndpoint)
    (out : PciDeviceEndpoint × ℕ × Regs) : Type 0 where
  pub command : out.0 ≡ record ep {
    hdr = record (ep.hdr) {
      command = ep.hdr.command / 2048 * 2048 + 1024 + ep.hdr.command % 1024 / 8 * 8 + 7;
    };
  }
  pub at : out.1 ≡ place ep
  pub regs : out.2 ≡ read_regs (place ep)

or_seven : (c : ℕ) → bit_or (bit_or (bit_or c 4) 2) 1 ≡ c / 8 * 8 + 7
or_seven c =
    let y = bit_or c 4 in
    let z = bit_or y 2 in
    let first : y ≡ c / 8 * 8 + 4 + c % 4 =
      omega (
        arith,
        or_digit c 4,
        or_digit (c / 2) 2,
        or_digit (c / 2 / 2) 1,
        or_zero (c / 2 / 2 / 2),
      ) in
    let second : z ≡ y / 4 * 4 + 2 + y % 2 =
      omega (arith, or_digit y 2, or_digit (y / 2) 1, or_zero (y / 2 / 2)) in
    omega (arith, first, second, or_digit z 1, or_zero (z / 2))

or_tenth : (x : ℕ) → bit_or x 1024 ≡ x / 2048 * 2048 + 1024 + x % 1024
or_tenth x =
    ap₂ bit_or {x = x} {y = x / 1024 * 2 ^ 10 + x % 1024} {u = 1024} {v = 1 * 2 ^ 10 + 0}
      (omega arith) refl
    ∙ (or_blocks 10 (x / 1024) (x % 1024) 1 0 (omega arith) (omega arith)
        ∙ omega (arith, or_digit (x / 1024) 1, or_zero (x / 1024 / 2), or_zero (x % 1024)))

pow_twelve : (k : ℕ) → 2 ^ (12 + k) ≡ 4096 * 2 ^ k
pow_twelve zero = refl
pow_twelve (suc k) =
    ap (λ (n : ℕ). 2 ^ n) {x = 12 + suc k} {y = suc (12 + k)} (omega arith)
    ∙ omega (arith, pow-suc 2 (12 + k), pow-suc 2 k, pow_twelve k)

max_enough : (regs : Regs) → leb 0x1000 (page_size_max regs) ≡ true
unfolding page_size_max
max_enough regs =
    ground (arith, pow_twelve (regs.cap / 2 ^ 52 % 16), one-le-pow (regs.cap / 2 ^ 52 % 16) 2)

large : (k : ℕ) → k ≢ 0 → 1 < 2 ^ k
large zero ne = absurd (ne refl)
large (suc k) ne = omega (arith, pow-suc 2 k, one-le-pow k 2)

min_only : (regs : Regs) → leb (page_size_min regs) 0x1000 ≡ (regs.cap / 2 ^ 48 % 16 == 0)
unfolding page_size_min
min_only regs =
    let k = regs.cap / 2 ^ 48 % 16 in
    elim (eq_cases k 0) [
      | inl e ↦ rw e refl
      | inr ne ↦ rw (ne→== k 0 ne) (ground (arith, pow_twelve k, large k ne))
    ]

-- Three checks one after the other, as one test.
one_test :
    {A : Type 0} (a b t m k : Bool) (x : Result A)
    → t ≡ true
    → m ≡ k
    → (if a then panic else if b then panic else if t && m then x else panic)
      ≡ (if not a && (not b && k) then x else panic)
one_test true b t m k x e f = refl
one_test false true t m k x e f = refl
one_test false false t m k x e f = rw (e, f) refl

-- What the probe answers for a controller that can be driven.
abbrev pub found : (ℕ → Regs) → PciDeviceEndpoint → PciDeviceEndpoint × ℕ × Regs
found read_regs ep = (
  set_command ep,
  addr_ensure_higher (bar0_addr ep),
  read_regs (addr_ensure_higher (bar0_addr ep)),
)

module _ (read_regs : ℕ → Regs) (ep : PciDeviceEndpoint) where
  abbrev regs : Regs
  regs = read_regs (addr_ensure_higher (bar0_addr ep))

  -- The probe as one test.
  abbrev suitable : Bool
  suitable =
      not (bit_and ep.bar0 4 == 0)
      && (not (regs.cap / 2 ^ 37 % 2 == 0) && (regs.cap / 2 ^ 48 % 16 == 0))

  probe_test : nvme_probe read_regs ep ≡ (if suitable then ok (found read_regs ep) else panic)
  unfolding nvme_probe set_command bar0_addr
  probe_test = one_test _ _ _ _ _ _ (max_enough regs) (min_only regs)

  place_lem : ep.bar0 < 2 ^ 32 → ep.bar1 < 2 ^ 32 → addr_ensure_higher (bar0_addr ep) ≡ place ep
  unfolding bar0_addr
  place_lem small0 small1 =
      let sum : add64 (bit_and ep.bar0 0xfffffff0) (bit_and ep.bar1 0xffffffff * 2 ^ 32)
          ≡ ep.bar0 / 16 * 16 + 2 ^ 32 * ep.bar1 =
        omega (arith, and_high_mask 4 28 ep.bar0 small0, and_low_mask 32 ep.bar1) in
      ensure_higher_lem (bar0_addr ep) (omega (arith, sum))
      ∙ ap (λ (x : ℕ). vaddr_higher + x % 2 ^ 47) sum

  wide_lem : bit_and ep.bar0 4 ≡ ep.bar0 / 4 % 2 * 4
  wide_lem = omega (
    arith,
    and_digit ep.bar0 4,
    and_digit (ep.bar0 / 2) 2,
    and_digit (ep.bar0 / 2 / 2) 1,
    and_zero (ep.bar0 / 2 / 2 / 2),
  )

  found-Accepted :
      addr_ensure_higher (bar0_addr ep) ≡ place ep → Accepted read_regs ep (found read_regs ep)
  unfolding set_command
  found-Accepted e = record {
    command =
        ap (λ (c : ℕ). record ep { hdr = record (ep.hdr) { command = c } })
          (ap (λ (x : ℕ). bit_or x 1024) (or_seven ep.hdr.command)
            ∙ (or_tenth (ep.hdr.command / 8 * 8 + 7) ∙ omega arith));
    at = e;
    regs = ap read_regs e;
  }

-- For a BAR whose halves have 32 bits: the probe stops the machine unless the BAR is one of 64 bits, the
-- NVM command set is there (bit 37 of the capabilities) and the least page size is 4096 bytes (bits 48 to
-- 51 are 0). Else it sets the bits 0 to 2 and 10 of the command register, and no other, and answers the
-- registers at the address in the higher half that both halves of the BAR give.
pub nvme_probe_lem :
    (read_regs : ℕ → Regs) (ep : PciDeviceEndpoint)
    → ep.bar0 < 2 ^ 32
    → ep.bar1 < 2 ^ 32
    → (IsSuitable read_regs ep
        × (out : PciDeviceEndpoint × ℕ × Regs) × (nvme_probe read_regs ep ≡ ok out)
        × Accepted read_regs ep out)
      ⊎ ((IsSuitable read_regs ep → ⊥) × (nvme_probe read_regs ep ≡ panic))
nvme_probe_lem read_regs ep small0 small1 =
    let at = place_lem read_regs ep small0 small1 in
    let caps = ap (λ (a : ℕ). (read_regs a).cap) at in
    let wide = wide_lem read_regs ep in
    elim (Bool-cases (suitable read_regs ep)) [
      | inl e ↦ inl (
        record {
          wide = ground (arith, e, wide);
          nvm = ground (arith, e, caps);
          pages = ground (arith, e, caps);
        },
        found read_regs ep,
        probe_test read_regs ep ∙ rw e refl,
        found-Accepted read_regs ep at,
      )
      | inr e ↦ inr (
        λ s. ground (arith, e, s.wide, s.nvm, s.pages, wide, caps),
        probe_test read_regs ep ∙ rw e refl,
      )
    ]
