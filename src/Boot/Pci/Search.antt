-- ===== src/Boot/Pci/Search.antt =====
-- The search for a capability of kernel/src/pci/pci.c.
use shed_os.Base.{
  ℕ, zero, suc, ◌+◌, ◌^◌, ◌<◌, ◌≤◌, ◌≡◌, ◌≢◌, ◌⊎◌, inl, inr, refl, sym, subst, none, some, Option,
  arith, eq_cases,
}
use shed_os.Base.Word.{add64}
use shed_os.Libk.Memutil.{Ram}
use shed_os.Boot.Pci.{pci_get_cap}

-- The offset of the header that the walk comes to after `k` steps: each header names the next one.
abbrev pub chain : Ram → (conf_base offset k : ℕ) → ℕ
chain m conf_base offset zero = offset
chain m conf_base offset (suc k) = chain m conf_base (m (conf_base + offset + 1)) k

-- The walk is at a header of the kind after `k` steps, for the first time.
pub record FoundAt (m : Ram) (conf_base offset cap_id k : ℕ) : Type 0 where
  pub kind : m (conf_base + chain m conf_base offset k) ≡ cap_id
  pub first : (j : ℕ) → j < k → m (conf_base + chain m conf_base offset j) ≢ cap_id

-- What `fuel` steps of the search from `offset` on lead to.
abbrev pub Searched : (m : Ram) → (conf_base offset cap_id fuel : ℕ) → Option ℕ → Type 0
Searched m conf_base offset cap_id fuel out =
    ((k : ℕ) × (k < fuel)
      × FoundAt m conf_base offset cap_id k
      × (out ≡ some (conf_base + chain m conf_base offset k)))
    ⊎ (((k : ℕ) → k < fuel → m (conf_base + chain m conf_base offset k) ≢ cap_id) × (out ≡ none))

module _ (conf_base cap_id : ℕ) (m : Ram) (byte : (a : ℕ) → m a < 256) (ne : conf_base ≢ 0)
    (fits : conf_base + 256 ≤ 2 ^ 64) where
  here :
      (fuel offset : ℕ)
      → m (conf_base + offset) ≡ cap_id
      → pci_get_cap (suc fuel) (conf_base + offset) conf_base cap_id m ≡ some (conf_base + offset)
  unfolding pci_get_cap
  here fuel offset e = ground (arith, ne, e)

  further :
      (fuel offset : ℕ)
      → m (conf_base + offset) ≢ cap_id
      → pci_get_cap (suc fuel) (conf_base + offset) conf_base cap_id m
        ≡ pci_get_cap fuel (conf_base + m (conf_base + offset + 1)) conf_base cap_id m
  unfolding pci_get_cap
  further fuel offset n =
      let o = m (conf_base + offset + 1) in
      let next : add64 o conf_base ≡ conf_base + o =
        omega (arith, fits, byte (conf_base + offset + 1)) in
      ground (arith, ne, n, next)

  unstarted : (offset : ℕ) → pci_get_cap zero (conf_base + offset) conf_base cap_id m ≡ none
  unfolding pci_get_cap
  unstarted offset = refl

  Searched-further :
      (fuel offset : ℕ) (out : Option ℕ)
      → m (conf_base + offset) ≢ cap_id
      → Searched m conf_base (m (conf_base + offset + 1)) cap_id fuel out
      → Searched m conf_base offset cap_id (suc fuel) out
  Searched-further fuel offset out n (inl (k, lt, f, e)) = inl (
    suc k,
    omega arith,
    record {
      kind = f.kind;
      first = λ j less.
          elim j as (λ j'. j' < suc k → m (conf_base + chain m conf_base offset j') ≢ cap_id) [
            | zero ↦ λ l. n
            | suc i ↦ λ l. f.first i (omega arith)
          ]
            less;
    },
    e,
  )
  Searched-further fuel offset out n (inr (lacks, e)) = inr (
    λ k lt.
        elim k as (λ k'. k' < suc fuel → m (conf_base + chain m conf_base offset k') ≢ cap_id) [
          | zero ↦ λ l. n
          | suc i ↦ λ l. lacks i (omega arith)
        ]
          lt,
    e,
  )

  -- In a configuration space of 256 bytes that begins at an address other than 0 and ends within
  -- 64 bits, the search from any place answers the first header on the chain that is of the kind;
  -- as long as there was none it goes on, and has no answer. So it never ends where the chain has
  -- no header of the kind.
  pub pci_get_cap_lem :
      (fuel offset : ℕ)
      → Searched m conf_base offset cap_id fuel
          (pci_get_cap fuel (conf_base + offset) conf_base cap_id m)
  pci_get_cap_lem zero offset = inr (λ k lt. absurd (omega arith), unstarted offset)
  pci_get_cap_lem (suc fuel) offset = elim (eq_cases (m (conf_base + offset)) cap_id) [
    | inl e ↦ inl (
      0,
      omega arith,
      record { kind = e; first = λ j lt. absurd (omega arith) },
      here fuel offset e,
    )
    | inr n ↦ Searched-further fuel offset _ n (
        subst (Searched m conf_base (m (conf_base + offset + 1)) cap_id fuel)
          (sym (further fuel offset n)) (pci_get_cap_lem fuel (m (conf_base + offset + 1))))
  ]
