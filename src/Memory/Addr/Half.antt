-- ===== src/Memory/Addr/Half.antt =====
-- The two ways into the higher half and back (addrutil.c).
use shed_os.Base.{ℕ, ◌+◌, ◌%◌, ◌^◌, ◌<◌, ◌≡◌, false, arith}
use shed_os.Base.Bits.{and_low_mask, or_high_mask}
use shed_os.Memory.Addr.{
  vaddr_higher, addr_offset_higher, addr_offset_lower, addr_ensure_higher, addr_ensure_lower,
  ptr_is_user,
}

pub ensure_higher_lem : (p : ℕ) → p < 2 ^ 64 → addr_ensure_higher p ≡ vaddr_higher + p % 2 ^ 47
unfolding addr_ensure_higher
ensure_higher_lem p h = or_high_mask 47 17 p h

pub ensure_lower_lem : (p : ℕ) → addr_ensure_lower p ≡ p % 2 ^ 47
unfolding addr_ensure_lower
ensure_lower_lem p = and_low_mask 47 p

-- Physical addresses below 2 ^ 47: both ways up agree, both ways back agree and undo them, and what
-- comes out above is no user pointer.
pub higher_half_roundtrip :
    (p : ℕ)
    → p < 2 ^ 47
    → (addr_ensure_higher p ≡ addr_offset_higher p)
      × (addr_ensure_lower (addr_ensure_higher p) ≡ p)
      × (addr_offset_lower (addr_offset_higher p) ≡ p)
      × (addr_ensure_higher (addr_ensure_higher p) ≡ addr_ensure_higher p)
      × (ptr_is_user (addr_ensure_higher p) ≡ false)
unfolding addr_offset_higher addr_offset_lower ptr_is_user
higher_half_roundtrip p h =
    let up = ensure_higher_lem p (omega arith) in
    let again = ensure_higher_lem (addr_ensure_higher p) (omega arith) in
    let down = ensure_lower_lem (addr_ensure_higher p) in
    (omega arith, omega arith, omega arith, omega arith, ground arith)
