-- ===== src/Libk/Alloc/Free.antt =====
-- `mfree` (alloc.c) against giving a chunk back on the list of chunks.
use shed_os.Base.{
  ℕ, ◌^◌, ◌+◌, subst, ◌<◌, ◌≡◌, ◌==◌, ◌⊎◌, ==→eq, true, false, if◌then◌else◌, List, [], ◌∷◌, arith,
  Bool-cases, inl, inr, refl, update,
}
use shed_os.Base.Word.{sub64}
use shed_os.Libk.Alloc.{Hdrs, Heap, hdr_size, mfree, merge_prev, merge_next, prev_hdr}
use shed_os.Libk.Alloc.Chain.{Chunk, Chain, behind, Chain-from, SameChunk}

-- A free chunk of `n` bytes before the chunks: a free one behind it is merged into it.
abbrev pub join : ℕ → List Chunk → List Chunk
join n [] = record { n = n; used = false } ∷ []
join n (c ∷ cs) =
    if c.used
    then record { n = n; used = false } ∷ c ∷ cs
    else record { n = n + c.n + hdr_size; used = false } ∷ cs

-- The chunk whose header is at `b` is given back.
abbrev pub give_back : (a b : ℕ) → List Chunk → List Chunk
give_back a b [] = []
give_back a b (c ∷ cs) =
    let rest = give_back (behind a c.n) b cs in if a == b then join c.n cs else c ∷ rest

-- The headers with `b` free, before and after a look at the chunk behind.
abbrev pub marked : Hdrs → ℕ → Hdrs
marked h b = update h b (record { in_use = false; size = (h b).size; size_prev = (h b).size_prev })

abbrev pub released : Hdrs → ℕ → Hdrs
released h b = merge_next b (marked h b)

-- `b` is the header of one of the chunks.
abbrev pub IsHeader : (a b : ℕ) → List Chunk → Type 0
IsHeader a b [] = ⊥
IsHeader a b (c ∷ cs) = (a ≡ b) ⊎ IsHeader (behind a c.n) b cs

-- What a chain reads at `d` after a release without, and with, a merge.
released_kept :
    (h : Hdrs) (b d : ℕ)
    → b + (h b).size + hdr_size < 2 ^ 64
    → ((h (behind b (h b).size)).in_use ≡ true) ⊎ ((h (behind b (h b).size)).size ≡ 0)
    → ((released h b d).size ≡ (h d).size)
      × ((released h b d).in_use ≡ (if d == b then false else (h d).in_use))
unfolding merge_next
released_kept h b d fits last = (ground arith, ground arith)

released_merged :
    (h : Hdrs) (b d m : ℕ)
    → b + (h b).size + hdr_size + m + hdr_size < 2 ^ 64
    → (h (behind b (h b).size)).size ≡ m
    → (h (behind b (h b).size)).in_use ≡ false
    → 0 < m
    → ((released h b d).size ≡ (if d == b then (h b).size + m + hdr_size else (h d).size))
      × ((released h b d).in_use ≡ (if d == b then false else (h d).in_use))
unfolding merge_next
released_merged h b d m fits sz us pos = (ground arith, ground arith)

-- The chain after the header `b` was released, and nothing below its start is changed.
abbrev pub Released : (a b : ℕ) → List Chunk → (t : ℕ) → Hdrs → Type 0
Released a b cs t h =
    Chain (released h b) a cs t × ((d : ℕ) → d < a → SameChunk (released h b d) (h d))

join_lem :
    (c : Chunk) (cs : List Chunk) (a t : ℕ) (h : Hdrs)
    → Chain h a (c ∷ cs) t
    → Released a a (join c.n cs) t h
join_lem c [] a t h (sz, us, pos, fits, (e, z, last)) = (
  (
    ground (arith, released_kept h a a),
    ground (arith, released_kept h a a),
    pos,
    fits,
    (e, ground (arith, released_kept h a (behind a c.n)), last),
  ),
  λ d lt. (ground (arith, released_kept h a d), ground (arith, released_kept h a d)),
)
join_lem c (d ∷ cs) a t h (sz, us, pos, fits, (sz2, us2, pos2, fits2, rest)) =
    elim (Bool-cases d.used) [
      | inl k ↦ rw k (
        (
          ground (arith, released_kept h a a),
          ground (arith, released_kept h a a),
          pos,
          fits,
          (
            ground (arith, released_kept h a (behind a c.n)),
            ground (arith, released_kept h a (behind a c.n)),
            pos2,
            fits2,
            Chain-from cs (behind (behind a c.n) d.n) t h (released h a) rest (λ e le.
                (ground (arith, released_kept h a e), ground (arith, released_kept h a e))),
          ),
        ),
        λ d lt. (ground (arith, released_kept h a d), ground (arith, released_kept h a d)),
      )
      | inr k ↦ rw k (
        (
          ground (arith, released_merged h a a d.n),
          ground (arith, released_merged h a a d.n),
          omega arith,
          omega arith,
          subst (λ (x : ℕ). Chain (released h a) x cs t) {x = behind (behind a c.n) d.n}
              (omega arith)
              (Chain-from cs (behind (behind a c.n) d.n) t h (released h a) rest (λ e le. (
                ground (arith, released_merged h a e d.n),
                ground (arith, released_merged h a e d.n),
              ))),
        ),
        λ e lt.
            (ground (arith, released_merged h a e d.n), ground (arith, released_merged h a e d.n)),
      )
    ]

give_back_lem :
    (cs : List Chunk) (a b t : ℕ) (h : Hdrs)
    → Chain h a cs t
    → IsHeader a b cs
    → Released a b (give_back a b cs) t h
give_back_lem [] a b t h ch at = absurd at
give_back_lem (c ∷ cs) a b t h ch at = elim (Bool-cases (a == b)) [
  | inl k ↦
      rw (k, give_back)
        (subst (λ (x : ℕ). Released a x (join c.n cs) t h) (==→eq a b k) (join_lem c cs a t h ch))
  | inr k ↦
      (let (sz, us, pos, fits, rest) = ch in
        let (chain, below) = give_back_lem cs (behind a c.n) b t h rest (ground arith) in
        rw (k, give_back)
          (
            (ground (arith, below a), ground (arith, below a), pos, fits, chain),
            λ d lt. below d (omega arith),
          ))
]

header_fits :
    (cs : List Chunk) (a b t : ℕ) (h : Hdrs)
    → Chain h a cs t
    → IsHeader a b cs
    → b + (h b).size + hdr_size < 2 ^ 64
header_fits [] a b t h ch at = absurd at
header_fits (c ∷ cs) a b t h (sz, us, pos, fits, rest) (inl e) = ground arith
header_fits (c ∷ cs) a b t h (sz, us, pos, fits, rest) (inr at) =
    header_fits cs (behind a c.n) b t h rest at

no_prev :
    (h : Hdrs) (b : ℕ)
    → b + (h b).size + hdr_size < 2 ^ 64
    → ((h b).size_prev ≡ 0) ⊎ ((h (prev_hdr h b)).in_use ≡ true)
    → merge_prev b (marked h b) ≡ (b, marked h b)
unfolding merge_prev
no_prev h b fits (inl z) = ground arith
no_prev h b fits (inr k) = ground arith

-- `mfree` of a chunk, when the header before it is not taken for a free one: the headers are those of
-- the list with that chunk free, and merged with the one behind it if that is free too.
pub mfree_lem :
    (cs : List Chunk) (b t : ℕ) (s : Heap)
    → Chain s.hdrs s.start cs t
    → IsHeader s.start b cs
    → ((s.hdrs b).size_prev ≡ 0) ⊎ ((s.hdrs (prev_hdr s.hdrs b)).in_use ≡ true)
    → Chain (mfree (b + hdr_size) s).hdrs (mfree (b + hdr_size) s).start (give_back s.start b cs) t
      × ((mfree (b + hdr_size) s).machine ≡ s.machine)
unfolding mfree
mfree_lem cs b t s ch at front =
    let fits = header_fits cs s.start b t s.hdrs ch at in
    let here : sub64 (b + hdr_size) hdr_size ≡ b = omega arith in
    (rw (here, no_prev s.hdrs b fits front) (give_back_lem cs s.start b t s.hdrs ch at).0, refl)
