-- ===== src/Libk/Strutil/Compare.antt =====
-- `strcmp` of kernel/src/libk/strutil.c, against the comparison of lists of characters.
use shed_os.Base.{
  ℕ, zero, suc, ◌+◌, ◌<◌, ◌≡◌, ◌≢◌, refl, sym, ap, ap₂, ◌∙◌, subst, inl, inr, eq_cases, lt_cases,
  ◌==◌, if◌then◌else◌, List, [], ◌∷◌, length, Option, some, arith,
}
use mathlib.Core.Option.{some-injective}
use shed_os.Base.Int.{ℤ, pos, diff}
use shed_os.Libk.Memutil.{Ram}
use shed_os.Libk.Strutil.{strcmp}

-- The string at `s` has the characters `xs`, and ends there.
abbrev pub IsString : Ram → ℕ → List ℕ → Type 0
IsString m s [] = m s ≡ 0
IsString m s (x ∷ xs) = (m s ≡ x) × (x ≢ 0) × IsString m (s + 1) xs

-- The difference of the characters at the first place where the lists differ; the end counts as 0.
abbrev pub compare : List ℕ → List ℕ → ℤ
compare [] [] = pos 0
compare [] (y ∷ ys) = diff 0 y
compare (x ∷ xs) [] = diff x 0
compare (x ∷ xs) (y ∷ ys) = let rest = compare xs ys in if x == y then rest else diff x y

diff-zero : (a b : ℕ) → diff a b ≡ pos 0 → a ≡ b
diff-zero a b e = elim (lt_cases a b) [
  | inl lt ↦ ground (arith, e, lt)
  | inr ge ↦ ground (arith, e, ge)
]

-- The characters of a string are not 0.
abbrev pub NoZero : List ℕ → Type 0
NoZero [] = Unit {0}
NoZero (x ∷ xs) = (x ≢ 0) × NoZero xs

compare-zero : (xs ys : List ℕ) → NoZero xs → NoZero ys → compare xs ys ≡ pos 0 → xs ≡ ys
compare-zero [] [] nx ny z = refl
compare-zero [] (y ∷ ys) nx (ny, n) z = absurd (ny (sym (diff-zero 0 y z)))
compare-zero (x ∷ xs) [] (nx, n) ny z = absurd (nx (diff-zero x 0 z))
compare-zero (x ∷ xs) (y ∷ ys) (nx, n) (ny, n') z = elim (eq_cases x y) [
  | inl e ↦
      ap₂ {A = ℕ} {B = List ℕ} (λ a bs. a ∷ bs) e (compare-zero xs ys n n' (ground (arith, e, z)))
  | inr ne ↦ absurd (ne (diff-zero x y (ground (arith, ne, z))))
]

compare_same : (xs : List ℕ) → compare xs xs ≡ pos 0
compare_same [] = refl
compare_same (x ∷ xs) = ground (arith, compare_same xs)

-- What `strcmp` answers for two strings: 0 exactly when they are equal.
pub record Compares (xs ys : List ℕ) (out : Option ℤ) : Type 0 where
  pub answer : out ≡ some (compare xs ys)
  pub equal : xs ≡ ys → out ≡ some (pos 0)
  pub differ : out ≡ some (pos 0) → xs ≡ ys

strcmp_is :
    (xs ys : List ℕ) (fuel s1 s2 : ℕ) (m : Ram)
    → IsString m s1 xs
    → IsString m s2 ys
    → length xs < fuel
    → strcmp fuel s1 s2 m ≡ some (compare xs ys)
unfolding strcmp
strcmp_is xs ys zero s1 s2 m p q lt = absurd (omega arith)
strcmp_is [] [] (suc fuel) s1 s2 m p q lt = ground (arith, p, q)
strcmp_is [] (y ∷ ys) (suc fuel) s1 s2 m p (q, n, rest) lt = ground (arith, p, q)
strcmp_is (x ∷ xs) [] (suc fuel) s1 s2 m (p, n, rest) q lt = ground (arith, p, q, n)
strcmp_is (x ∷ xs) (y ∷ ys) (suc fuel) s1 s2 m (p, n, rest) (q, n', rest') lt =
    ground (arith, p, q, n, strcmp_is xs ys fuel (s1 + 1) (s2 + 1) m rest rest' (omega arith))

IsString-NoZero : (xs : List ℕ) (s : ℕ) (m : Ram) → IsString m s xs → NoZero xs
IsString-NoZero [] s m p = tt
IsString-NoZero (x ∷ xs) s m (p, n, rest) = (n, IsString-NoZero xs (s + 1) m rest)

-- On two strings, with more fuel than the first has characters, `strcmp` ends, and answers the
-- difference at the first place where they differ: 0 exactly when they are equal.
pub strcmp_lem :
    (xs ys : List ℕ) (fuel s1 s2 : ℕ) (m : Ram)
    → IsString m s1 xs
    → IsString m s2 ys
    → length xs < fuel
    → Compares xs ys (strcmp fuel s1 s2 m)
strcmp_lem xs ys fuel s1 s2 m p q enough =
    let is = strcmp_is xs ys fuel s1 s2 m p q enough in
    record {
      answer = is;
      equal =
          λ e. is ∙ ap some (subst (λ (zs : List ℕ). compare xs zs ≡ pos 0) e (compare_same xs));
      differ = λ e.
          compare-zero xs ys (IsString-NoZero xs s1 m p) (IsString-NoZero ys s2 m q)
            (some-injective _ _ (sym is ∙ e));
    }
