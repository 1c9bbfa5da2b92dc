-- ===== src/Libk/Alloc/Exact.antt =====
-- `malloc` (alloc.c) where the chunk that is found is filled exactly, second header included.
use mathlib.Core.Option.{some-injective}
use shed_os.Base.{
  ℕ, zero, suc, ◌^◌, ◌+◌, ◌-◌, ◌||◌, ltb, subst, sym, ap, ◌∙◌, ◌<◌, ◌≤◌, ◌≡◌, ◌==◌, true, false,
  ne→==, eq→==, if◌then◌else◌, List, [], ◌∷◌, length, arith, Bool-cases, inl, inr, refl, some,
}
use shed_os.Base.Word.{add64}
use shed_os.Libk.Alloc.{Heap, Hdrs, hdr_size, find, split, malloc, malloc_at}
use shed_os.Libk.Alloc.Chain.{Chunk, Chain, behind}
use shed_os.Libk.Alloc.Place.{
  Placed, place, place_skip, place_take, after_inv, split_lem, find_next, find_here,
}

-- The chunks before the header `b`, and a used one of `n` bytes there.
abbrev pub up_to : (a b n : ℕ) → List Chunk → List Chunk
up_to a b n [] = []
up_to a b n (c ∷ cs) =
    let rest = up_to (behind a c.n) b n cs in
    if a == b then record { n = n; used = true } ∷ [] else c ∷ rest

abbrev Ends : (fuel a need b : ℕ) (h : Hdrs) → List Chunk → Type 0
Ends fuel a need b h ds =
    (a ≤ b)
    × (find fuel need a h ≡ some b)
    × (b + need + hdr_size < 2 ^ 64)
    × Chain (split need b h) a ds (b + need)

Ends-here :
    (c : Chunk) (cs : List Chunk) (fuel a t need : ℕ) (h : Hdrs)
    → Chain h a (c ∷ cs) t
    → c.used || ltb c.n need ≡ false
    → hdr_size < need
    → c.n ≡ need
    → Ends (suc fuel) a need a h (record { n = need - hdr_size; used = true } ∷ [])
Ends-here c cs fuel a t need h (sz, us, pos, fits, rest) k lo eq = (
  omega arith,
  find_here a need fuel c h sz us k,
  omega arith,
  (
    ground (arith, split_lem need a a h),
    ground (arith, split_lem need a a h),
    omega arith,
    omega arith,
    (omega arith, ground (arith, split_lem need a (behind a (need - hdr_size)) h), omega arith),
  ),
)

ends :
    (cs : List Chunk) (fuel a t need b : ℕ) (ds : List Chunk) (h : Hdrs)
    → Chain h a cs t
    → place a need cs ≡ some (b, ds)
    → length cs < fuel
    → hdr_size < need
    → (h b).size ≡ need
    → Ends fuel a need b h (up_to a b (need - hdr_size) cs)
ends [] fuel a t need b ds h ch e le lo eq = ground arith
ends (c ∷ cs) zero a t need b ds h ch e le lo eq = absurd (omega arith)
ends (c ∷ cs) (suc fuel) a t need b ds h (sz, us, pos, fits, rest) e le lo eq =
    elim (Bool-cases (c.used || ltb c.n need)) [
      | inl k ↦
          (let (es, at, front) =
              after_inv c (place (behind a c.n) need cs) b ds
                (sym (place_skip a need c cs k) ∙ e) in
            let (up, found, fit, chain) =
              ends cs fuel (behind a c.n) t need b es h rest at (omega arith) lo eq in
            (
              omega arith,
              find_next a need fuel c h sz us pos fits k ∙ found,
              fit,
              rw (ne→== a b (omega arith), up_to)
                  (
                    ground (arith, split_lem need b a h),
                    ground (arith, split_lem need b a h),
                    pos,
                    fits,
                    chain,
                  ),
            ))
      | inr k ↦
          (let here =
              ap (λ (x : Placed). x.0)
                (some-injective _ (b, ds) (sym (place_take a need c cs k) ∙ e)) in
            subst (λ (x : ℕ). Ends (suc fuel) a need x h (up_to a x (need - hdr_size) (c ∷ cs)))
              here
              (rw (eq→== a a refl, up_to)
                (Ends-here c cs fuel a t need h (sz, us, pos, fits, rest) k lo
                  (sym sz ∙ subst (λ (x : ℕ). (h x).size ≡ need) (sym here) eq))))
    ]

-- `malloc` of `n` bytes from a chunk of `n` bytes and a header: the header behind the new chunk has
-- size 0, which marks the end of the heap, so that all chunks behind it are lost.
pub malloc_exact :
    (cs : List Chunk) (fuel n alignment t b : ℕ) (ds : List Chunk) (s : Heap)
    → Chain s.hdrs s.start cs t
    → place s.start (n + hdr_size) cs ≡ some (b, ds)
    → length cs < fuel
    → 0 < n
    → (s.hdrs b).size ≡ n + hdr_size
    → (s' : Heap) × (malloc fuel n alignment s ≡ some (b + hdr_size, s'))
      × Chain s'.hdrs s.start (up_to s.start b n cs) (b + n + hdr_size)
unfolding malloc malloc_at
malloc_exact cs fuel n alignment t b ds s ch e le pos eq =
    let (up, found, fit, chain) =
      ends cs fuel s.start t (n + hdr_size) b ds s.hdrs ch e le (omega arith) eq in
    let sum : add64 n hdr_size ≡ n + hdr_size = omega arith in
    let to : add64 b hdr_size ≡ b + hdr_size = omega arith in
    let live = ne→== (s.hdrs b).size 0 (omega arith) in
    let same : n + hdr_size - hdr_size ≡ n = omega arith in
    (
      record s { hdrs = split (n + hdr_size) b s.hdrs },
      rw (ne→== n 0 (omega arith), sum, found, live, to)
          (ap (λ (x : ℕ). some (b + hdr_size, record s { hdrs = split x b s.hdrs })) sum),
      subst (λ (x : ℕ). Chain (split (n + hdr_size) b s.hdrs) s.start (up_to s.start b n cs) x)
          {x = b + (n + hdr_size)} (omega arith)
          (subst
            (λ (x : ℕ).
              Chain (split (n + hdr_size) b s.hdrs) s.start (up_to s.start b x cs)
                (b + (n + hdr_size)))
            same chain),
    )
