-- ===== src/Libk/Strutil/Tests.antt =====
-- Runs of strutil.c, and the theorem at a concrete number.
use shed_os.Base.{◌≡◌, refl, arith, some, if◌then◌else◌, ◌==◌, [], ◌∷◌}
use shed_os.Libk.Memutil.{Ram}
use shed_os.Libk.Strutil.{
  stou, stou_loop, strlen, strlen_loop, utos, value_length, count_digits, digit_value,
}
use shed_os.Libk.Strutil.Number.{stou-utos}
use shed_os.Libk.Strutil.{strcmp}
use shed_os.Libk.Strutil.Compare.{Compares, strcmp_lem}

abbrev blank : Ram
blank a = 0xff

short_run : (utos 1234 10 0x10 0 blank).0 ≡ 4
unfolding utos value_length count_digits
short_run = refl

-- "A" and a NUL: the letter is not read as ten.
letter_run : stou 2 0 16 (λ a. if a == 0 then 65 else 0) ≡ some 0
unfolding stou stou_loop strlen strlen_loop digit_value
letter_run = refl

stou-utos_example : stou 5 0x10 10 (utos 1234 10 0x10 0 blank).1 ≡ some 1234
stou-utos_example =
    stou-utos 1234 10 0x10 0 5 blank (omega arith) (omega arith) (omega arith)
      (omega (arith, short_run))

-- "ab" at 0, and "ac" at 8.
abbrev letters : Ram
letters a =
    if a == 0 then 97 else if a == 1 then 98 else if a == 8 then 97 else if a == 9 then 99 else 0

strcmp_lem_example : Compares (97 ∷ 98 ∷ []) (97 ∷ 99 ∷ []) (strcmp 3 0 8 letters)
strcmp_lem_example =
    strcmp_lem (97 ∷ 98 ∷ []) (97 ∷ 99 ∷ []) 3 0 8 letters
      (refl, omega arith, (refl, omega arith, refl)) (refl, omega arith, (refl, omega arith, refl))
      (omega arith)
