-- ===== src/Libk/Strutil/Number.antt =====
-- `stou` reads back what `utos` wrote (strutil.c).
use native.Mathlib.Nat.{div-add-mod', mod-lt}
use shed_os.Base.{
  ℕ, zero, suc, ◌+◌, ◌-◌, ◌*◌, ◌/◌, ◌%◌, ◌^◌, ◌<◌, ◌≤◌, ◌≡◌, refl, sym, ap, subst, ◌∙◌, ltb, leb,
  if◌then◌else◌, update, arith, eq_cases, inl, inr, false, some, ne→==,
}
use shed_os.Base.Word.{add64, mul64}
use shed_os.Libk.Memutil.{Ram}
use shed_os.Libk.Strutil.{
  strlen, strlen_loop, count_digits, value_length, digit_char, digit_value, write_digits, utos,
  stou, stou_loop,
}
use shed_os.Libk.Strutil.Digits.{
  digit_of, without, count_digits_lem, without-more, write_digits_lem, strlen_loop_lem,
}

digit_char-pos : (d : ℕ) → 0 < digit_char d
unfolding digit_char
digit_char-pos d = ground arith

digit_value-char : (d : ℕ) → d < 10 → digit_value (digit_char d) ≡ d
unfolding digit_char digit_value
digit_value-char d h = ground arith

distribute : (d q b r : ℕ) → d * (q * b + r) ≡ d * b * q + r * d
distribute d q b r = grind arith

mul_zero : (a q : ℕ) → q ≡ 0 → a * q ≡ 0
mul_zero a q h = grind arith

mul_le : (a q : ℕ) → 0 < q → a ≤ a * q
mul_le a q h = grind arith

-- One round: the value so far and the weight of the next digit give the same number.
weigh :
    (value digit x base : ℕ)
    → 2 ≤ base
    → value + digit * x < 2 ^ 64
    → add64 value (mul64 (x % base) digit) + mul64 digit base * (x / base) ≡ value + digit * x
weigh value digit x base two h =
    let parts : digit * x ≡ digit * base * (x / base) + x % base * digit =
      ap (λ (y : ℕ). digit * y) (sym (div-add-mod' x base))
      ∙ distribute digit (x / base) base (x % base) in
    elim (eq_cases (x / base) 0) [
      | inl z ↦ omega (
        arith,
        parts,
        mul_zero (digit * base) (x / base) z,
        mul_zero (mul64 digit base) (x / base) z,
      )
      | inr nz ↦
          (let small : mul64 digit base ≡ digit * base =
              omega (arith, parts, mul_le (digit * base) (x / base) (omega arith)) in
            rw small (omega (arith, parts)))
    ]

-- `left` digits of `x` are read from the right of a string of `len` bytes.
stou_loop_lem :
    (left i value digit len str base x : ℕ) (m : Ram)
    → 2 ≤ base
    → base ≤ 10
    → i + left ≡ len
    → without base left x ≡ 0
    → ((k : ℕ) → k < left → m (str + (len - (i + k) - 1)) ≡ digit_char (digit_of base k x))
    → value + digit * x < 2 ^ 64
    → stou_loop left i value digit len str base m ≡ value + digit * x
unfolding stou_loop
stou_loop_lem zero i value digit len str base x m two ten e none_left digits fits =
    omega (arith, mul_zero digit x none_left)
stou_loop_lem (suc left) i value digit len str base x m two ten e none_left digits fits =
    let here : m (str + (len - i - 1)) ≡ digit_char (x % base) =
      ap (λ (j : ℕ). m (str + (len - j - 1))) {x = i} {y = i + 0} (omega arith)
      ∙ digits 0 (omega arith) in
    let v : digit_value (m (str + (len - i - 1))) ≡ x % base =
      ap digit_value here ∙ digit_value-char (x % base) (omega (arith, mod-lt x {m = base})) in
    let low : leb base (x % base) ≡ false = ground (arith, mod-lt x {m = base}) in
    let round = weigh value digit x base two fits in
    rw (v, low)
      (stou_loop_lem left (i + 1) (add64 value (mul64 (x % base) digit)) (mul64 digit base) len str
          base (x / base) m two ten (omega arith) none_left
          (λ k lt.
            ap (λ (j : ℕ). m (str + (len - j - 1))) {x = i + 1 + k} {y = i + suc k} (omega arith)
            ∙ digits (suc k) (omega arith))
          (omega (arith, round))
        ∙ round)

-- The length of what `utos` writes, and the memory then.
abbrev pub utos_len : (i base min_len : ℕ) → ℕ
utos_len i base min_len = if ltb (value_length i base) min_len then min_len else value_length i base

abbrev pub utos_mem : (i base buf min_len : ℕ) → Ram → Ram
utos_mem i base buf min_len m =
    let l = utos_len i base min_len in write_digits l 0 i base buf l (update m (buf + l) 0)

utos_lem :
    (i base buf min_len : ℕ) (m : Ram)
    → base ≤ 10
    → utos i base buf min_len m ≡ (utos_len i base min_len, utos_mem i base buf min_len m)
unfolding utos
utos_lem i base buf min_len m ten = rw (ne→== base 16 (omega arith)) refl

no_digits_left :
    (i base min_len : ℕ) → i < 2 ^ 64 → 2 ≤ base → without base (utos_len i base min_len) i ≡ 0
unfolding value_length
no_digits_left i base min_len small two =
    without-more base (count_digits 64 i base) (utos_len i base min_len) i (omega arith)
      (count_digits_lem 64 i base two small) (ground arith)

read_back :
    (i base buf fuel l : ℕ) (m : Ram)
    → i < 2 ^ 64
    → 2 ≤ base
    → base ≤ 10
    → without base l i ≡ 0
    → l < fuel
    → stou fuel buf base (write_digits l 0 i base buf l (update m (buf + l) 0)) ≡ some i
unfolding stou strlen
read_back i base buf fuel l m small two ten left enough =
    let mem : Ram = write_digits l 0 i base buf l (update m (buf + l) 0) in
    let at : (k : ℕ)
        → k < l
        → mem (buf + k) ≡ digit_char (digit_of base (l - 0 - 1 - (buf + k - buf)) i) =
      λ k lt. ground (arith, write_digits_lem l 0 i base buf l (buf + k) (update m (buf + l) 0)) in
    let found : strlen_loop fuel 0 buf mem ≡ some l =
      strlen_loop_lem fuel 0 buf l mem (omega arith) (omega arith)
        (ground (arith, write_digits_lem l 0 i base buf l (buf + l) (update m (buf + l) 0)))
        (λ k lo hi.
          omega (arith, at k hi, digit_char-pos (digit_of base (l - 0 - 1 - (buf + k - buf)) i))) in
    rw (found, stou)
      (ap (λ (x : ℕ). some x)
        (stou_loop_lem l 0 0 1 l buf base i mem two ten (omega arith) left
            (λ k lt.
              at (l - (0 + k) - 1) (omega arith)
              ∙ ap (λ (j : ℕ). digit_char (digit_of base j i))
                  {x = l - 0 - 1 - (buf + (l - (0 + k) - 1) - buf)} {y = k} (omega arith))
            (omega arith)
          ∙ omega arith))

-- A 64-bit number written in a base from 2 to 10 is read back, whatever the least length, with
-- more fuel than the string is long.
pub stou-utos :
    (i base buf min_len fuel : ℕ) (m : Ram)
    → i < 2 ^ 64
    → 2 ≤ base
    → base ≤ 10
    → (utos i base buf min_len m).0 < fuel
    → stou fuel buf base (utos i base buf min_len m).1 ≡ some i
stou-utos i base buf min_len fuel m small two ten enough =
    let e = utos_lem i base buf min_len m ten in
    ap (λ (x : ℕ × Ram). stou fuel buf base x.1) e
    ∙ read_back i base buf fuel (utos_len i base min_len) m small two ten
        (no_digits_left i base min_len small two) (subst (λ (x : ℕ × Ram). x.0 < fuel) e enough)
