-- ===== src/Base/Result.antt =====
-- Code that can stop the machine: `kernel_panic` does not return.

pub data Result {ℓ} (A : Type ℓ) : Type ℓ where
  ok : A → Result A
  panic : Result A

module _ {ℓ₁ ℓ₂} {A : Type ℓ₁} {B : Type ℓ₂} where
  abbrev pub and_then : Result A → (A → Result B) → Result B
  and_then (ok a) f = f a
  and_then panic f = panic
