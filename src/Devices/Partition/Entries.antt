-- ===== src/Devices/Partition/Entries.antt =====
-- What partition.c finds in a table, and the pages it keeps.
use shed_os.Base.{
  ℕ, zero, suc, ◌+◌, ◌*◌, ◌<◌, ◌≤◌, ◌≡◌, ◌≢◌, ◌⊎◌, inl, inr, refl, Bool, eq_cases, subst, sym, ap,
  ◌∙◌, ◌==◌, if◌then◌else◌, List, [], ◌∷◌, arith, Bool-cases, ==→ne, ne→==,
}
use shed_os.Libk.Memutil.{Ram}
use shed_os.Devices.Partition.{GptEntry, load_entry, entries_loop, pages_taken, pages_given_back}

-- `e` is in the list.
abbrev pub In : GptEntry → List GptEntry → Type 0
In e [] = ⊥
In e (x ∷ xs) = (e ≡ x) ⊎ In e xs

-- Every entry of the table with a first block other than 0 is in the list.
pub entries_complete :
    (left i k pentry_size : ℕ) (lba2 : Ram)
    → i ≤ k
    → k < i + left
    → (load_entry lba2 (k * pentry_size)).first_lba ≢ 0
    → In (load_entry lba2 (k * pentry_size)) (entries_loop left i pentry_size lba2)
unfolding entries_loop
entries_complete zero i k pentry_size lba2 lo hi used = absurd (omega arith)
entries_complete (suc left) i k pentry_size lba2 lo hi used = elim (eq_cases i k) [
  | inl e ↦
      subst
        (λ (x : ℕ).
          In (load_entry lba2 (x * pentry_size)) (entries_loop (suc left) i pentry_size lba2))
        e
        (rw
          (
            ne→== (load_entry lba2 (i * pentry_size)).first_lba 0
                (subst (λ (x : ℕ). (load_entry lba2 (x * pentry_size)).first_lba ≢ 0) (sym e) used),
            entries_loop,
          )
          (inl refl))
  | inr ne ↦
      (let rest =
          entries_complete left (i + 1) k pentry_size lba2 (omega arith) (omega arith) used in
        elim (Bool-cases ((load_entry lba2 (i * pentry_size)).first_lba == 0)) [
          | inl z ↦ rw z rest
          | inr nz ↦ rw nz (inr rest)
        ])
]

-- Every entry in the list comes from the table, and is in use.
pub entries_sound :
    (left i pentry_size : ℕ) (lba2 : Ram) (e : GptEntry)
    → In e (entries_loop left i pentry_size lba2)
    → (k : ℕ) × (i ≤ k)
      × (k < i + left)
      × (e ≡ load_entry lba2 (k * pentry_size))
      × (e.first_lba ≢ 0)
unfolding entries_loop
entries_sound zero i pentry_size lba2 e at = absurd at
entries_sound (suc left) i pentry_size lba2 e at =
    elim (Bool-cases ((load_entry lba2 (i * pentry_size)).first_lba == 0)) [
      | inl z ↦
          (let (k, lo, hi, from, used) = entries_sound left (i + 1) pentry_size lba2 e (
              subst
                (λ (b : Bool). In e (if b then rest else load_entry lba2 (i * pentry_size) ∷ rest))
                z at) in
            (k, omega arith, omega arith, from, used))
      | inr nz ↦
          elim (subst
            (λ (b : Bool). In e (if b then rest else load_entry lba2 (i * pentry_size) ∷ rest)) nz
            at) [
              | inl here ↦ (
                i,
                omega arith,
                omega arith,
                here,
                λ z.
                    ==→ne (load_entry lba2 (i * pentry_size)).first_lba 0 nz
                      (ap (λ (x : GptEntry). x.first_lba) (sym here) ∙ z),
              )
              | inr later ↦
                  (let (k, lo, hi, from, used) =
                      entries_sound left (i + 1) pentry_size lba2 e later in
                    (k, omega arith, omega arith, from, used))
            ]
    ]
  where
    rest : List GptEntry
    rest = entries_loop left (i + 1) pentry_size lba2

-- With blocks of 512 bytes or more, more pages are taken for the table than are given back.
pub pages_lost :
    (block_size : ℕ) → 512 ≤ block_size → pages_given_back block_size < pages_taken block_size
unfolding pages_taken pages_given_back
pages_lost block_size le = omega arith
