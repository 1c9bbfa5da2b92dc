-- ===== src/Memory/Bitmap/Byte.antt =====
-- What the byte operations of bitmap.c do to each bit, checked over every byte and position.
use shed_os.Base.{
  ℕ, zero, suc, ◌-◌, ◌^◌, ◌<◌, ◌≡◌, refl, Bool, true, false, not, ◌&&◌, bit_and, bit_or, bit_xor,
  ◌==◌, ltb, if◌then◌else◌, arith,
}

abbrev pub bit : ℕ → ℕ → Bool
bit b j = not (bit_and b (2 ^ j) == 0)

same : Bool → Bool → Bool
same true b = b
same false b = not b

same_sound : (a b : Bool) → same a b ≡ true → a ≡ b
unfolding same
same_sound a b h = ground arith

-- `p` holds at every number below the bound.
every : ℕ → (ℕ → Bool) → Bool
every zero p = true
every (suc n) p = every n p && p n

every_at : (n i : ℕ) (p : ℕ → Bool) → every n p ≡ true → i < n → p i ≡ true
unfolding every
every_at zero i p h lt = absurd (omega arith)
every_at (suc n) i p h lt = ground (arith, every_at n i p)

-- A test of a byte, a changed position and a read position.
abbrev EveryCase : (ℕ → ℕ → ℕ → Bool) → Type 0
EveryCase t = every 256 (λ b. every 8 (λ k. every 8 (λ j. t b k j))) ≡ true

at_case :
    (t : ℕ → ℕ → ℕ → Bool) → EveryCase t → (b k j : ℕ) → b < 256 → k < 8 → j < 8 → t b k j ≡ true
at_case t h b k j hb hk hj = every_at 8 j _ (every_at 8 k _ (every_at 256 b _ h hb) hk) hj

-- The new byte is a byte, and its bits are the old ones but at `k`.
abbrev set_case : ℕ → ℕ → ℕ → Bool
set_case b k j =
    ltb (bit_or b (2 ^ k)) 256 && same (bit (bit_or b (2 ^ k)) j) (if j == k then true else bit b j)

abbrev unset_case : ℕ → ℕ → ℕ → Bool
unset_case b k j =
    ltb (bit_and b (255 - 2 ^ k)) 256
    && same (bit (bit_and b (255 - 2 ^ k)) j) (if j == k then false else bit b j)

abbrev flip_case : ℕ → ℕ → ℕ → Bool
flip_case b k j =
    ltb (bit_xor b (2 ^ k)) 256
    && same (bit (bit_xor b (2 ^ k)) j) (if j == k then not (bit b j) else bit b j)

set_table : EveryCase set_case
unfolding every same
set_table = refl

unset_table : EveryCase unset_case
unfolding every same
unset_table = refl

flip_table : EveryCase flip_case
unfolding every same
flip_table = refl

case_parts : (n : ℕ) (x y : Bool) → (ltb n 256 && same x y) ≡ true → (n < 256) × (x ≡ y)
case_parts n x y h = (ground arith, same_sound x y (ground arith))

module _ (b k j : ℕ) (hb : b < 256) (hk : k < 8) (hj : j < 8) where
  pub bit-set :
      (bit_or b (2 ^ k) < 256) × (bit (bit_or b (2 ^ k)) j ≡ (if j == k then true else bit b j))
  bit-set = case_parts _ _ _ (at_case set_case set_table b k j hb hk hj)

  pub bit-unset :
      (bit_and b (255 - 2 ^ k) < 256)
      × (bit (bit_and b (255 - 2 ^ k)) j ≡ (if j == k then false else bit b j))
  bit-unset = case_parts _ _ _ (at_case unset_case unset_table b k j hb hk hj)

  pub bit-flip :
      (bit_xor b (2 ^ k) < 256)
      × (bit (bit_xor b (2 ^ k)) j ≡ (if j == k then not (bit b j) else bit b j))
  bit-flip = case_parts _ _ _ (at_case flip_case flip_table b k j hb hk hj)

full_table : every 8 (bit 255) ≡ true
unfolding every
full_table = refl

-- Every bit of 0xff is set.
pub bit-full : (j : ℕ) → j < 8 → bit 255 j ≡ true
bit-full j h = every_at 8 j (bit 255) full_table h
