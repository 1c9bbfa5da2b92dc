-- ===== src/Memory/Addr/Align.antt =====
-- Alignment to a power of two (addrutil.c).
use native.Mathlib.Nat.{
  pow-suc, one-le-pow, mul-mod_left, div-add-mod', mod-lt, pow-le-pow_right, add-zero, add-suc,
  le-div_iff_mul-le, div-lt_iff_lt-mul, div-mul-le_self,
}
use shed_os.Base.{ℕ, zero, suc, ◌+◌, ◌-◌, ◌*◌, ◌/◌, ◌%◌, ◌^◌, ◌<◌, ◌≤◌, ◌≡◌, ap, ◌∙◌, arith}
use shed_os.Base.Bits.{and_high_mask}
use shed_os.Base.Word.{add64, sub64, not64}
use shed_os.Memory.Addr.{addr_align_up, addr_align_down}

pow_split : (d k : ℕ) → 2 ^ d * 2 ^ k ≡ 2 ^ (d + k)
pow_split d zero = rw add-zero (omega arith)
pow_split d (suc k) = rw add-suc (
    omega (
      arith,
      pow-suc 2 k,
      pow-suc 2 (d + k),
      ap (λ (t : ℕ). 2 ^ d * t) (pow-suc 2 k),
      pow_split d k,
    ))

-- Sixty-four bits are `64 - k` bits above `k` bits.
pow_split_64 : (k : ℕ) → k < 64 → 2 ^ (64 - k) * 2 ^ k ≡ 2 ^ 64
pow_split_64 k lt = pow_split (64 - k) k ∙ ap (λ (t : ℕ). 2 ^ t) {y = 64} (omega arith)

pred_mul : (a b : ℕ) → (a - 1) * b ≡ a * b - b
pred_mul zero b = omega arith
pred_mul (suc a) b = let e : suc a - 1 ≡ a = omega arith in rw e (omega arith)

-- The mask `~(2 ^ k - 1)` in 64 bits.
align_mask : (k : ℕ) → k < 64 → not64 (sub64 (2 ^ k) 1) ≡ (2 ^ (64 - k) - 1) * 2 ^ k
align_mask k lt =
    omega (arith, pow_split_64 k lt, one-le-pow k 2, pred_mul (2 ^ (64 - k)) (2 ^ k), le_top)
  where
    le_top : 2 ^ k ≤ 2 ^ 63
    le_top = pow-le-pow_right (omega arith) {j = 63} (omega arith)

pub align_down_lem : (p k : ℕ) → p < 2 ^ 64 → k < 64 → addr_align_down p (2 ^ k) ≡ p / 2 ^ k * 2 ^ k
unfolding addr_align_down
align_down_lem p k h lt =
    rw (align_mask k lt) (and_high_mask k (64 - k) p (omega (arith, pow_split_64 k lt)))

pub align_up_lem :
    (p k : ℕ)
    → p + 2 ^ k ≤ 2 ^ 64
    → k < 64
    → addr_align_up p (2 ^ k) ≡ (p + 2 ^ k - 1) / 2 ^ k * 2 ^ k
unfolding addr_align_up
align_up_lem p k h lt =
    rw (align_mask k lt, sum)
      (and_high_mask k (64 - k) (p + 2 ^ k - 1) (omega (arith, pow_split_64 k lt, one-le-pow k 2)))
  where
    sum : sub64 (add64 p (2 ^ k)) 1 ≡ p + 2 ^ k - 1
    sum = ground (arith, one-le-pow k 2)

mul_mono : (w a b : ℕ) → a ≤ b → a * w ≤ b * w
mul_mono w a b h = grind arith

-- The multiple of `w` that `(p + w - 1) / w` gives is the least one from `p` on.
round_up_ge : (p w : ℕ) → 0 < w → p ≤ (p + w - 1) / w * w
round_up_ge p w h = omega (arith, div-add-mod' (p + w - 1) w, mod-lt (p + w - 1) h)

round_up_least : (p w m : ℕ) → 0 < w → p ≤ m * w → (p + w - 1) / w * w ≤ m * w
round_up_least p w m h le =
    mul_mono w ((p + w - 1) / w) m
      (omega (arith, (div-lt_iff_lt-mul {x = p + w - 1} {y = m + 1} h).1 (omega arith)))

-- Rounding up to a multiple of `2 ^ k` (the comment in addrutil.h: "a needs to be a multiple of 2"
-- is too weak) gives the least multiple that is not below `p`, unless `p + 2 ^ k` passes `2 ^ 64`.
pub align_up_least :
    (p k : ℕ)
    → p + 2 ^ k ≤ 2 ^ 64
    → k < 64
    → (addr_align_up p (2 ^ k) % 2 ^ k ≡ 0)
      × (p ≤ addr_align_up p (2 ^ k))
      × ((m : ℕ) → p ≤ m * 2 ^ k → addr_align_up p (2 ^ k) ≤ m * 2 ^ k)
align_up_least p k h lt =
    rw (align_up_lem p k h lt)
      (mul-mod_left _ _, round_up_ge p (2 ^ k) pos, λ m. round_up_least p (2 ^ k) m pos)
  where
    pos : 0 < 2 ^ k
    pos = one-le-pow k 2 (omega arith)

-- Rounding down gives the greatest multiple that is not above `p`.
pub align_down_greatest :
    (p k : ℕ)
    → p < 2 ^ 64
    → k < 64
    → (addr_align_down p (2 ^ k) % 2 ^ k ≡ 0)
      × (addr_align_down p (2 ^ k) ≤ p)
      × ((m : ℕ) → m * 2 ^ k ≤ p → m * 2 ^ k ≤ addr_align_down p (2 ^ k))
align_down_greatest p k h lt = rw (align_down_lem p k h lt) (
  mul-mod_left _ _,
  div-mul-le_self p (2 ^ k),
  λ m le. mul_mono (2 ^ k) m (p / 2 ^ k) ((le-div_iff_mul-le (one-le-pow k 2 (omega arith))).1 le),
)
