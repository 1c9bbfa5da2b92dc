-- ===== src/Libk/Strutil/Digits.antt =====
-- The digits of a number as `utos` (strutil.c) writes them.
use native.Mathlib.Nat.{div-lt_iff_lt-mul, pow-suc, zero-div}
use shed_os.Base.{
  ℕ, zero, suc, ◌+◌, ◌-◌, ◌*◌, ◌/◌, ◌%◌, ◌^◌, ◌<◌, ◌≤◌, ◌≡◌, refl, sym, subst, ap, eq_cases,
  if◌then◌else◌, update, arith, lt_cases, inl, inr, lt→ltb, le→ltb, some,
}
use shed_os.Libk.Memutil.{Ram}
use shed_os.Libk.Memutil.Laws.{within}
use shed_os.Libk.Strutil.{strlen_loop, count_digits, digit_char, write_digits}

-- Digit number `k` from the right, and what is left of `x` without the last `k` digits.
abbrev pub digit_of : (base k x : ℕ) → ℕ
digit_of base zero x = x % base
digit_of base (suc k) x = digit_of base k (x / base)

abbrev pub without : (base k x : ℕ) → ℕ
without base zero x = x
without base (suc k) x = without base k (x / base)

mul_ge : (a b : ℕ) → 2 ≤ b → a * 2 ≤ a * b
mul_ge a b h = grind arith

div_less : (f i base : ℕ) → 2 ≤ base → i < 2 ^ (suc f) → i / base < 2 ^ f
div_less f i base two h =
    (div-lt_iff_lt-mul {x = i} {y = 2 ^ f} (omega arith)).1
      (omega (arith, pow-suc 2 f, mul_ge (2 ^ f) base two))

-- 64 rounds count all digits of a 64-bit number.
pub count_digits_lem :
    (fuel i base : ℕ) → 2 ≤ base → i < 2 ^ fuel → without base (count_digits fuel i base) i ≡ 0
unfolding count_digits
count_digits_lem zero i base two h = omega arith
count_digits_lem (suc fuel) i base two h = elim (lt_cases 0 (i / base)) [
  | inl more ↦
      rw (lt→ltb 0 (i / base) more)
        (count_digits_lem fuel (i / base) base two (div_less fuel i base two h))
  | inr last ↦ rw (le→ltb 0 (i / base) last) (omega arith)
]

without-zero : (base k : ℕ) → 0 < base → without base k 0 ≡ 0
without-zero base zero pos = refl
without-zero base (suc k) pos = rw (zero-div base) (without-zero base k pos)

-- Leading zeros change nothing.
pub without-more : (base k l x : ℕ) → 0 < base → without base k x ≡ 0 → k ≤ l → without base l x ≡ 0
without-more base zero l x pos h le =
    subst (λ (y : ℕ). without base l y ≡ 0) (sym h) (without-zero base l pos)
without-more base (suc k) zero x pos h le = absurd (omega arith)
without-more base (suc k) (suc l) x pos h le = without-more base k l (x / base) pos h (omega arith)

-- What the loop leaves at each address.
pub write_digits_lem :
    (left n i base buf str_len a : ℕ) (m : Ram)
    → n + left ≤ str_len
    → write_digits left n i base buf str_len m a ≡ (
        if within (buf + (str_len - n - left)) left a
        then digit_char (digit_of base (str_len - n - 1 - (a - buf)) i)
        else m a)
unfolding write_digits
write_digits_lem zero n i base buf str_len a m h = ground arith
write_digits_lem (suc left) n i base buf str_len a m h =
    let rest : write_digits left (n + 1) (i / base) base buf str_len
          (update m (buf + (str_len - n - 1)) (digit_char (i % base))) a
        ≡ (if within (buf + (str_len - (n + 1) - left)) left a
            then digit_char (digit_of base (str_len - (n + 1) - 1 - (a - buf)) (i / base))
            else update m (buf + (str_len - n - 1)) (digit_char (i % base)) a) =
      write_digits_lem left (n + 1) (i / base) base buf str_len a
        (update m (buf + (str_len - n - 1)) (digit_char (i % base))) (omega arith) in
    elim (eq_cases a (buf + (str_len - n - 1))) [
      | inl e ↦
          (let first : digit_of base (str_len - n - 1 - (a - buf)) i ≡ i % base =
              ap (λ (k : ℕ). digit_of base k i) {x = str_len - n - 1 - (a - buf)} {y = 0}
                (omega arith) in
            ground (arith, first, rest))
      | inr ne ↦ elim (lt_cases a (buf + (str_len - n - 1))) [
        | inl lt ↦ elim (lt_cases a (buf + (str_len - n - suc left))) [
          | inl below ↦ ground (arith, rest)
          | inr inside ↦
              (let next : digit_of base (str_len - n - 1 - (a - buf)) i
                    ≡ digit_of base (str_len - (n + 1) - 1 - (a - buf)) (i / base) =
                  ap (λ (k : ℕ). digit_of base k i) {x = str_len - n - 1 - (a - buf)}
                    {y = suc (str_len - (n + 1) - 1 - (a - buf))} (omega arith) in
                ground (arith, next, rest))
        ]
        | inr ge ↦ ground (arith, rest)
      ]
    ]

-- `strlen` finds the first NUL with more fuel than there are bytes before it.
pub strlen_loop_lem :
    (fuel len str end : ℕ) (m : Ram)
    → len ≤ end
    → end < len + fuel
    → m (str + end) ≡ 0
    → ((k : ℕ) → len ≤ k → k < end → 0 < m (str + k))
    → strlen_loop fuel len str m ≡ some end
unfolding strlen_loop
strlen_loop_lem zero len str end m le hi nul pos = absurd (omega arith)
strlen_loop_lem (suc fuel) len str end m le hi nul pos = elim (eq_cases len end) [
  | inl e ↦ ground arith
  | inr ne ↦ ground (
    arith,
    pos len,
    strlen_loop_lem fuel (len + 1) str end m (omega arith) (omega arith) nul
        (λ k lo. pos k (omega arith)),
  )
]
