-- ===== src/Interrupts/Apic/Records.antt =====
-- The records of the MADT as a list, and that apic.c finds them all.
use shed_os.Base.{ℕ, ◌+◌, ◌<◌, ◌≡◌, ◌==◌, if◌then◌else◌, List, [], ◌∷◌}
use shed_os.Libk.Memutil.{Ram}
use shed_os.Interrupts.Apic.{Found, parse_madt_entry}

-- The records of the lengths that the list gives, from `a` to `b`.
abbrev pub Laid : Ram → ℕ → List ℕ → ℕ → Type 0
Laid m a [] b = a ≡ b
Laid m a (len ∷ lens) b = (m (a + 1) ≡ len) × (0 < len) × Laid m (a + len) lens b

-- The records taken one after the other.
abbrev pub collect : Ram → ℕ → List ℕ → Found → Found
collect m a [] f = f
collect m a (len ∷ lens) f = collect m (a + len) lens (parse_madt_entry m a f).1

-- How many records are of a type.
abbrev pub count_type : (type : ℕ) → Ram → ℕ → List ℕ → ℕ
count_type type m a [] = 0
count_type type m a (len ∷ lens) =
    let rest = count_type type m (a + len) lens in if m a == type then 1 + rest else rest
