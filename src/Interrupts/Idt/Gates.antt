-- ===== src/Interrupts/Idt/Gates.antt =====
-- Where the gates of idt.c lead.
use shed_os.Base.{
  ℕ, zero, suc, ◌+◌, ◌*◌, ◌^◌, ◌<◌, ◌≤◌, ◌≡◌, ◌≢◌, ◌⊎◌, inl, inr, refl, sym, subst, ◌∙◌, eq_cases,
  arith,
}
use shed_os.Interrupts.Idt.{
  IdtDesc, IdtTable, load_interrupt, load_exceptions, idt_initialize, idt_ta_interrupt,
  idt_ta_system_call,
}

-- The address that the processor puts together from a gate.
abbrev pub target : IdtDesc → ℕ
target d = d.offset0 + 2 ^ 16 * d.offset1 + 2 ^ 32 * d.offset2

-- A gate that leads to `callback`, with the kernel's code segment and the attributes.
pub record IsGate (callback type_attr : ℕ) (d : IdtDesc) : Type 0 where
  pub leads : target d ≡ callback
  pub attributes : d.type_attr ≡ type_attr
  pub segment : d.selector ≡ 0x08
  pub stack : d.ist ≡ 0

load-IsGate :
    (vector callback type_attr : ℕ) (t : IdtTable)
    → callback < 2 ^ 64
    → callback ≢ 0
    → IsGate callback type_attr (load_interrupt vector callback type_attr t vector)
unfolding load_interrupt
load-IsGate vector callback type_attr t small ne = record {
  leads = ground arith;
  attributes = ground arith;
  segment = ground arith;
  stack = ground arith;
}

load_other :
    (vector callback type_attr v : ℕ) (t : IdtTable)
    → v ≢ vector
    → load_interrupt vector callback type_attr t v ≡ t v
unfolding load_interrupt
load_other vector callback type_attr v t ne = ground arith

exceptions_other :
    (left i v : ℕ) (stubs : ℕ → ℕ) (t : IdtTable)
    → (v < i) ⊎ (i + left ≤ v)
    → load_exceptions left i stubs t v ≡ t v
unfolding load_exceptions
exceptions_other zero i v stubs t out = refl
exceptions_other (suc left) i v stubs t out =
    exceptions_other left (i + 1) v stubs (load_interrupt i (stubs i) idt_ta_interrupt t)
      (ground (arith, out))
    ∙ load_other i (stubs i) idt_ta_interrupt v t (ground (arith, out))

exceptions-IsGate :
    (left i v : ℕ) (stubs : ℕ → ℕ) (t : IdtTable)
    → ((k : ℕ) → k < 31 → (stubs k < 2 ^ 64) × (stubs k ≢ 0))
    → i ≤ v
    → v < i + left
    → i + left ≤ 31
    → IsGate (stubs v) idt_ta_interrupt (load_exceptions left i stubs t v)
unfolding load_exceptions
exceptions-IsGate zero i v stubs t real le lt end = absurd (omega arith)
exceptions-IsGate (suc left) i v stubs t real le lt end = elim (eq_cases i v) [
  | inl same ↦
      let t1 = load_interrupt i (stubs i) idt_ta_interrupt t in
      subst (IsGate (stubs v) idt_ta_interrupt)
        (sym (exceptions_other left (i + 1) v stubs t1 (inl (omega (arith, same)))))
        (subst (λ (w : ℕ). IsGate (stubs w) idt_ta_interrupt (t1 w)) same
          (load-IsGate i (stubs i) idt_ta_interrupt t (real i (omega arith)).0
            (real i (omega arith)).1))
  | inr ne ↦
      exceptions-IsGate left (i + 1) v stubs (load_interrupt i (stubs i) idt_ta_interrupt t) real
        (omega arith) (omega arith) (omega arith)
]

-- The table `out` that `idt_initialize` makes of `t`.
pub record AreGates (stubs : ℕ → ℕ) (isr34 isr128 : ℕ) (t out : IdtTable) : Type 0 where
  pub exceptions : (v : ℕ) → v < 31 → IsGate (stubs v) idt_ta_interrupt (out v)
  pub timer : IsGate isr34 idt_ta_interrupt (out 34)
  pub calls : IsGate isr128 idt_ta_system_call (out 128)
  pub others : (v : ℕ) → 31 ≤ v → v ≢ 34 → v ≢ 128 → out v ≡ t v

-- After `idt_initialize`, with stubs at 64-bit addresses other than 0, the gates of the first 31 vectors
-- lead to the exception stubs, 34 to the timer's stub and 128 to the one for system calls, which user
-- code may reach; all have the kernel's code segment, and every other gate is as before.
pub idt_targets :
    (stubs : ℕ → ℕ) (isr34 isr128 : ℕ) (t : IdtTable)
    → ((k : ℕ) → k < 31 → (stubs k < 2 ^ 64) × (stubs k ≢ 0))
    → isr34 < 2 ^ 64
    → isr34 ≢ 0
    → isr128 < 2 ^ 64
    → isr128 ≢ 0
    → AreGates stubs isr34 isr128 t (idt_initialize stubs isr34 isr128 t)
unfolding idt_initialize
idt_targets stubs isr34 isr128 t real s34 n34 s128 n128 =
    let base = load_exceptions 31 0 stubs t in
    let timed = load_interrupt 34 isr34 idt_ta_interrupt base in
    let last = load_other 128 isr128 idt_ta_system_call in
    let middle = load_other 34 isr34 idt_ta_interrupt in
    record {
      exceptions = λ v lt.
          subst (IsGate (stubs v) idt_ta_interrupt)
            (sym (last v timed (omega arith) ∙ middle v base (omega arith)))
            (exceptions-IsGate 31 0 v stubs t real (omega arith) lt (omega arith));
      timer =
          subst (IsGate isr34 idt_ta_interrupt) (sym (last 34 timed (omega arith)))
            (load-IsGate 34 isr34 idt_ta_interrupt base s34 n34);
      calls = load-IsGate 128 isr128 idt_ta_system_call timed s128 n128;
      others = λ v le n m.
          last v timed m ∙ (middle v base n ∙ exceptions_other 31 0 v stubs t (inr (omega arith)));
    }
