-- ===== src/Base/Bits.antt =====
-- Facts about `&` and `|` at variables: masks of low bits and of high bits, as arithmetic.
use Prim.Native.Nat.{
  ℕ, zero, suc, ◌+◌, ◌-◌, ◌*◌, ◌/◌, ◌%◌, ◌^◌, ◌≤◌, ◌<◌, min, max, bit_and, bit_or, digits,
  bit_and-bitwise, bit_or-bitwise,
}
use mathlib.Core.Path.{◌≡◌, refl, sym, ap, ap₂, ◌≡⟨◌⟩◌, ◌∎}
use native.Mathlib.Omega.{arith}
use native.Mathlib.Nat.{pow-suc, one-le-pow, mod-lt, div-add-mod', div-lt_iff_lt-mul}

-- More fuel than the first number has digits changes nothing.
digits_enough :
    (z : ℕ → ℕ) (f : ℕ → ℕ → ℕ) (n m a b : ℕ) → a ≤ n → a ≤ m → digits z f n a b ≡ digits z f m a b
digits_enough z f zero zero a b p q = refl
digits_enough z f zero (suc m) zero b p q = refl
digits_enough z f zero (suc m) (suc a) b p q = absurd (omega arith)
digits_enough z f (suc n) zero zero b p q = refl
digits_enough z f (suc n) zero (suc a) b p q = absurd (omega arith)
digits_enough z f (suc n) (suc m) zero b p q = refl
digits_enough z f (suc n) (suc m) (suc a) b p q =
    ap (λ (t : ℕ). t * 2 + f (suc a % 2) (b % 2))
      (digits_enough z f n m (suc a / 2) (b / 2) (omega arith) (omega arith))

pub zero_and : (b : ℕ) → bit_and 0 b ≡ 0
zero_and b = bit_and-bitwise 0 b

pub zero_or : (b : ℕ) → bit_or 0 b ≡ b
zero_or b = bit_or-bitwise 0 b

-- The lowest binary digit of a conjunction, and the rest.
pub and_digit : (a b : ℕ) → bit_and a b ≡ bit_and (a / 2) (b / 2) * 2 + min (a % 2) (b % 2)
and_digit zero b = omega (arith, zero_and b, zero_and (b / 2))
and_digit (suc a) b = omega (
  arith,
  bit_and-bitwise (suc a) b,
  bit_and-bitwise (suc a / 2) (b / 2),
  digits_enough (λ y. 0) min a (suc a / 2) (suc a / 2) (b / 2) (omega arith) (omega arith),
)

pub or_digit : (a b : ℕ) → bit_or a b ≡ bit_or (a / 2) (b / 2) * 2 + max (a % 2) (b % 2)
or_digit zero b = omega (arith, zero_or b, zero_or (b / 2))
or_digit (suc a) b = omega (
  arith,
  bit_or-bitwise (suc a) b,
  bit_or-bitwise (suc a / 2) (b / 2),
  digits_enough (λ y. y) max a (suc a / 2) (suc a / 2) (b / 2) (omega arith) (omega arith),
)

and_zero_below : (n a : ℕ) → a ≤ n → bit_and a 0 ≡ 0
and_zero_below n zero p = refl
and_zero_below zero (suc a) p = absurd (omega arith)
and_zero_below (suc n) (suc a) p =
    omega (arith, and_digit (suc a) 0, and_zero_below n (suc a / 2) (omega arith))

pub and_zero : (a : ℕ) → bit_and a 0 ≡ 0
and_zero a = and_zero_below a a (omega arith)

or_zero_below : (n a : ℕ) → a ≤ n → bit_or a 0 ≡ a
or_zero_below n zero p = refl
or_zero_below zero (suc a) p = absurd (omega arith)
or_zero_below (suc n) (suc a) p =
    omega (arith, or_digit (suc a) 0, or_zero_below n (suc a / 2) (omega arith))

pub or_zero : (a : ℕ) → bit_or a 0 ≡ a
or_zero a = or_zero_below a a (omega arith)

pow_double : (k : ℕ) → 2 ^ suc k ≡ 2 ^ k + 2 ^ k
pow_double k = omega (arith, pow-suc 2 k)

mul_pow_double : (q k : ℕ) → q * 2 ^ suc k ≡ q * 2 ^ k + q * 2 ^ k
mul_pow_double q k = omega (arith, ap (λ (t : ℕ). q * t) (pow_double k))

-- Numbers put together from a high part and `k` low bits are combined part by part.
pub and_blocks :
    (k q r s t : ℕ)
    → r < 2 ^ k
    → t < 2 ^ k
    → bit_and (q * 2 ^ k + r) (s * 2 ^ k + t) ≡ bit_and q s * 2 ^ k + bit_and r t
and_blocks zero q r s t hr ht =
    let er : r ≡ 0 = omega arith in
    let et : t ≡ 0 = omega arith in rw (er, et) (ground (arith, zero_and 0, and_blocks_one q s))
  where
    and_blocks_one : (q s : ℕ) → bit_and (q * 1 + 0) (s * 1 + 0) ≡ bit_and q s
    and_blocks_one q s = ap₂ bit_and (omega arith) (omega arith)
and_blocks (suc k) q r s t hr ht = ground (
  arith,
  and_digit (q * 2 ^ suc k + r) (s * 2 ^ suc k + t),
  and_digit r t,
  mul_pow_double q k,
  mul_pow_double s k,
  mul_pow_double (bit_and q s) k,
  pow_double k,
  and_blocks k q (r / 2) s (t / 2),
)

pub or_blocks :
    (k q r s t : ℕ)
    → r < 2 ^ k
    → t < 2 ^ k
    → bit_or (q * 2 ^ k + r) (s * 2 ^ k + t) ≡ bit_or q s * 2 ^ k + bit_or r t
or_blocks zero q r s t hr ht =
    let er : r ≡ 0 = omega arith in
    let et : t ≡ 0 = omega arith in rw (er, et) (ground (arith, zero_or 0, or_blocks_one q s))
  where
    or_blocks_one : (q s : ℕ) → bit_or (q * 1 + 0) (s * 1 + 0) ≡ bit_or q s
    or_blocks_one q s = ap₂ bit_or (omega arith) (omega arith)
or_blocks (suc k) q r s t hr ht = ground (
  arith,
  or_digit (q * 2 ^ suc k + r) (s * 2 ^ suc k + t),
  or_digit r t,
  mul_pow_double q k,
  mul_pow_double s k,
  mul_pow_double (bit_or q s) k,
  pow_double k,
  or_blocks k q (r / 2) s (t / 2),
)

and_ones : (k r : ℕ) → r < 2 ^ k → bit_and r (2 ^ k - 1) ≡ r
and_ones zero r h = let e : r ≡ 0 = omega arith in rw e (zero_and 0)
and_ones (suc k) r h =
    ground (arith, and_digit r (2 ^ suc k - 1), pow_double k, one-le-pow k 2, and_ones k (r / 2))

or_ones : (k r : ℕ) → r < 2 ^ k → bit_or r (2 ^ k - 1) ≡ 2 ^ k - 1
or_ones zero r h = let e : r ≡ 0 = omega arith in rw e (zero_or 0)
or_ones (suc k) r h =
    ground (arith, or_digit r (2 ^ suc k - 1), pow_double k, one-le-pow k 2, or_ones k (r / 2))

split_at : (k a : ℕ) → a / 2 ^ k * 2 ^ k + a % 2 ^ k ≡ a
split_at k a = div-add-mod' a (2 ^ k)

rem_lt : (k a : ℕ) → a % 2 ^ k < 2 ^ k
rem_lt k a = mod-lt a (one-le-pow k 2 (omega arith))

quotient_lt : (k d a : ℕ) → a < 2 ^ d * 2 ^ k → a / 2 ^ k < 2 ^ d
quotient_lt k d a h = (div-lt_iff_lt-mul (one-le-pow k 2 (omega arith))).1 h

-- `a & (2 ^ k - 1)` is the remainder.
pub and_low_mask : (k a : ℕ) → bit_and a (2 ^ k - 1) ≡ a % 2 ^ k
and_low_mask k a =
    bit_and a (2 ^ k - 1)
    ≡⟨ ap₂ bit_and (sym (split_at k a)) (omega arith) ⟩
      bit_and (a / 2 ^ k * 2 ^ k + a % 2 ^ k) (0 * 2 ^ k + (2 ^ k - 1))
    ≡⟨ and_blocks k (a / 2 ^ k) (a % 2 ^ k) 0 (2 ^ k - 1) (rem_lt k a)
        (omega (arith, one-le-pow k 2)) ⟩
      bit_and (a / 2 ^ k) 0 * 2 ^ k + bit_and (a % 2 ^ k) (2 ^ k - 1)
    ≡⟨ omega (
      arith,
      ap (λ (t : ℕ). t * 2 ^ k) (and_zero (a / 2 ^ k)),
      and_ones k (a % 2 ^ k) (rem_lt k a),
    ) ⟩
      a % 2 ^ k ∎

-- `a & (s * 2 ^ k)`, where `s` has ones for all the digits of `a` above `k`, clears the low bits.
pub and_high_mask :
    (k d a : ℕ) → a < 2 ^ d * 2 ^ k → bit_and a ((2 ^ d - 1) * 2 ^ k) ≡ a / 2 ^ k * 2 ^ k
and_high_mask k d a h =
    bit_and a ((2 ^ d - 1) * 2 ^ k)
    ≡⟨ ap₂ bit_and (sym (split_at k a)) (omega arith) ⟩
      bit_and (a / 2 ^ k * 2 ^ k + a % 2 ^ k) ((2 ^ d - 1) * 2 ^ k + 0)
    ≡⟨ and_blocks k (a / 2 ^ k) (a % 2 ^ k) (2 ^ d - 1) 0 (rem_lt k a)
        (one-le-pow k 2 (omega arith)) ⟩
      bit_and (a / 2 ^ k) (2 ^ d - 1) * 2 ^ k + bit_and (a % 2 ^ k) 0
    ≡⟨ omega (
      arith,
      ap (λ (t : ℕ). t * 2 ^ k) (and_ones d (a / 2 ^ k) (quotient_lt k d a h)),
      and_zero (a % 2 ^ k),
    ) ⟩
      a / 2 ^ k * 2 ^ k ∎

-- `a | (2 ^ d - 1) * 2 ^ k` keeps the `k` low bits and sets the `d` bits above them.
pub or_high_mask :
    (k d a : ℕ)
    → a < 2 ^ d * 2 ^ k
    → bit_or a ((2 ^ d - 1) * 2 ^ k) ≡ (2 ^ d - 1) * 2 ^ k + a % 2 ^ k
or_high_mask k d a h =
    bit_or a ((2 ^ d - 1) * 2 ^ k)
    ≡⟨ ap₂ bit_or (sym (split_at k a)) (omega arith) ⟩
      bit_or (a / 2 ^ k * 2 ^ k + a % 2 ^ k) ((2 ^ d - 1) * 2 ^ k + 0)
    ≡⟨ or_blocks k (a / 2 ^ k) (a % 2 ^ k) (2 ^ d - 1) 0 (rem_lt k a)
        (one-le-pow k 2 (omega arith)) ⟩
      bit_or (a / 2 ^ k) (2 ^ d - 1) * 2 ^ k + bit_or (a % 2 ^ k) 0
    ≡⟨ omega (
      arith,
      ap (λ (t : ℕ). t * 2 ^ k) (or_ones d (a / 2 ^ k) (quotient_lt k d a h)),
      or_zero (a % 2 ^ k),
    ) ⟩
      (2 ^ d - 1) * 2 ^ k + a % 2 ^ k ∎

-- `a | b` is the sum where `a` is a multiple of `2 ^ k` and `b` is below it.
pub or_disjoint : (k q b : ℕ) → b < 2 ^ k → bit_or (q * 2 ^ k) b ≡ q * 2 ^ k + b
or_disjoint k q b h =
    bit_or (q * 2 ^ k) b
    ≡⟨ ap₂ bit_or (omega arith) (omega arith) ⟩ bit_or (q * 2 ^ k + 0) (0 * 2 ^ k + b)
    ≡⟨ or_blocks k q 0 0 b (one-le-pow k 2 (omega arith)) h ⟩ bit_or q 0 * 2 ^ k + bit_or 0 b
    ≡⟨ omega (arith, ap (λ (t : ℕ). t * 2 ^ k) (or_zero q), zero_or b) ⟩ q * 2 ^ k + b ∎

and_again_below : (n a b : ℕ) → a ≤ n → bit_and (bit_and a b) b ≡ bit_and a b
and_again_below n zero b p = rw (zero_and b) (zero_and b)
and_again_below zero (suc a) b p = absurd (omega arith)
and_again_below (suc n) (suc a) b p = ground (
  arith,
  and_digit (suc a) b,
  and_digit (bit_and (suc a) b) b,
  and_again_below n (suc a / 2) (b / 2),
)

-- A mask taken twice.
pub and_again : (a b : ℕ) → bit_and (bit_and a b) b ≡ bit_and a b
and_again a b = and_again_below a a b (omega arith)

and_apart_below : (n a b c : ℕ) → a ≤ n → bit_and b c ≡ 0 → bit_and (bit_and a b) c ≡ 0
and_apart_below n zero b c p e = rw (zero_and b) (zero_and c)
and_apart_below zero (suc a) b c p e = absurd (omega arith)
and_apart_below (suc n) (suc a) b c p e = ground (
  arith,
  and_digit (suc a) b,
  and_digit b c,
  and_digit (bit_and (suc a) b) c,
  and_apart_below n (suc a / 2) (b / 2) (c / 2),
)

-- Nothing is left of a bit that the mask lacks.
pub and_apart : (a b c : ℕ) → bit_and b c ≡ 0 → bit_and (bit_and a b) c ≡ 0
and_apart a b c e = and_apart_below a a b c (omega arith) e
