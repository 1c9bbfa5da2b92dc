-- ===== src/Base/Loops.antt =====
-- Counted loops, with the rule for their invariants.
use Prim.Native.Nat.{ℕ, zero, suc, ◌+◌, ◌<◌}
use mathlib.Core.Path.{◌≡◌, subst}
use native.Mathlib.Omega.{arith}

-- `for (k = first; k < first + rounds; k++)`, where a round takes `k` and the state
unfoldable pub for_range {ℓ} : {S : Type ℓ} → (rounds first : ℕ) → (ℕ → S → S) → S → S
for_range zero first round t = t
for_range (suc left) first round t = for_range left (first + 1) round (round first t)

module _ {ℓ κ} {S : Type ℓ} (Holds : ℕ → S → Type κ) (round : ℕ → S → S) (last : ℕ)
    (step : (k : ℕ) (t : S) → k < last → Holds k t → Holds (k + 1) (round k t)) where
  -- What holds at the start and is kept by the rounds below `last` holds at the end.
  pub for_range_inv :
      (rounds first : ℕ) (t : S)
      → first + rounds ≡ last
      → Holds first t
      → Holds last (for_range rounds first round t)
  unfolding for_range
  for_range_inv zero first t all now =
      subst (λ (k : ℕ). Holds k t) {x = first} {y = last} (omega arith) now
  for_range_inv (suc left) first t all now =
      for_range_inv left (first + 1) (round first t) (omega arith) (step first t (omega arith) now)
