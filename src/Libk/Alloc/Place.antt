-- ===== src/Libk/Alloc/Place.antt =====
-- `malloc` (alloc.c) where a free chunk is found, against first fit on the list of chunks.
use shed_os.Base.{
  ℕ, zero, suc, ◌^◌, ◌+◌, subst, sym, ap, ◌∙◌, ◌-◌, ◌<◌, ◌≤◌, ◌≡◌, ◌≢◌, ◌||◌, ne→==, true, false,
  ltb, if◌then◌else◌, Option, none, some, List, [], ◌∷◌, length, arith, Bool-cases, inl, inr, refl,
  ◌==◌,
}
use mathlib.Core.Option.{some-injective}
use shed_os.Base.Word.{sub64, add64}
use shed_os.Libk.Alloc.{Hdrs, Heap, hdr_size, find, split, malloc, malloc_at}
use shed_os.Libk.Alloc.Chain.{Chunk, Chain, behind, Chain-from}

-- The address of the chunk that was cut, and the chunks with it in front of what was left of it.
abbrev pub Placed : Type 0
Placed = ℕ × List Chunk

abbrev pub after : Chunk → Option Placed → Option Placed
after c none = none
after c (some (b, cs)) = some (b, c ∷ cs)

-- First fit: `need` counts the header that is to come behind the chunk.
abbrev pub place : (a need : ℕ) → List Chunk → Option Placed
place a need [] = none
place a need (c ∷ cs) =
    let rest = place (behind a c.n) need cs in
    if c.used || ltb c.n need
    then after c rest
    else some (
      a,
      record { n = need - hdr_size; used = true } ∷ record { n = c.n - need; used = false } ∷ cs,
    )

pub place_skip :
    (a need : ℕ) (c : Chunk) (cs : List Chunk)
    → c.used || ltb c.n need ≡ true
    → place a need (c ∷ cs) ≡ after c (place (behind a c.n) need cs)
place_skip a need c cs k = rw (k, place) refl

pub place_take :
    (a need : ℕ) (c : Chunk) (cs : List Chunk)
    → c.used || ltb c.n need ≡ false
    → place a need (c ∷ cs)
      ≡ some (
        a,
        record { n = need - hdr_size; used = true } ∷ record { n = c.n - need; used = false } ∷ cs,
      )
place_take a need c cs k = rw (k, place) refl

pub after_inv :
    (c : Chunk) (o : Option Placed) (b : ℕ) (ds : List Chunk)
    → after c o ≡ some (b, ds)
    → (es : List Chunk) × (o ≡ some (b, es)) × (ds ≡ c ∷ es)
after_inv c none b ds e = ground arith
after_inv c (some (x, es)) b ds e = (es, ground arith, ground arith)

-- What `split` leaves at each address.
pub split_lem :
    (need a d : ℕ) (h : Hdrs)
    → hdr_size ≤ need
    → a + need < 2 ^ 64
    → split need a h d ≡ (
        if d == a + need
        then record { in_use = false; size = sub64 (h a).size need; size_prev = need - hdr_size }
        else if d == a
        then record { in_use = true; size = need - hdr_size; size_prev = (h a).size_prev }
        else h d)
unfolding split
split_lem need a d h lo hi = ground arith

-- Cutting the chunk of the header `a`, when more than `need` bytes are in it.
cut :
    (c : Chunk) (cs : List Chunk) (a t need : ℕ) (h : Hdrs)
    → Chain h a (c ∷ cs) t
    → hdr_size < need
    → need < c.n
    → Chain
        (split need a h)
        a
        (record { n = need - hdr_size; used = true } ∷ record { n = c.n - need; used = false } ∷ cs)
        t
cut c cs a t need h (sz, us, pos, fits, rest) lo hi = (
  ground (arith, split_lem need a a h),
  ground (arith, split_lem need a a h),
  omega arith,
  omega arith,
  (
    ground (arith, split_lem need a (behind a (need - hdr_size)) h),
    ground (arith, split_lem need a (behind a (need - hdr_size)) h),
    omega arith,
    omega arith,
    subst (λ (x : ℕ). Chain (split need a h) x cs t) {x = behind a c.n} (omega arith)
        (Chain-from cs (behind a c.n) t h (split need a h) rest
          (λ b le. (ground (arith, split_lem need a b h), ground (arith, split_lem need a b h)))),
  ),
)

pub find_next :
    (a need fuel : ℕ) (c : Chunk) (h : Hdrs)
    → (h a).size ≡ c.n
    → (h a).in_use ≡ c.used
    → 0 < c.n
    → behind a c.n < 2 ^ 64
    → c.used || ltb c.n need ≡ true
    → find (suc fuel) need a h ≡ find fuel need (behind a c.n) h
unfolding find
find_next a need fuel c h sz us pos fits k =
    let e : add64 (add64 a c.n) hdr_size ≡ behind a c.n = omega arith in
    rw (sz, us, e, k, ne→== c.n 0 (omega arith)) refl

pub find_here :
    (a need fuel : ℕ) (c : Chunk) (h : Hdrs)
    → (h a).size ≡ c.n
    → (h a).in_use ≡ c.used
    → c.used || ltb c.n need ≡ false
    → find (suc fuel) need a h ≡ some a
unfolding find
find_here a need fuel c h sz us k = ground arith

-- The walk of `malloc` ends at the chunk that was placed, and `split` cuts it the same way.
abbrev pub Located : (fuel a need t : ℕ) (h : Hdrs) → Placed → Type 0
Located fuel a need t h (b, ds) =
    (a ≤ b)
    × (find fuel need a h ≡ some b)
    × ((h b).size ≢ 0)
    × (b + need < 2 ^ 64)
    × Chain (split need b h) a ds t

Located-here :
    (c : Chunk) (cs : List Chunk) (fuel a t need : ℕ) (h : Hdrs)
    → Chain h a (c ∷ cs) t
    → c.used || ltb c.n need ≡ false
    → hdr_size < need
    → (h a).size ≢ need
    → Located (suc fuel) a need t h (
      a,
      record { n = need - hdr_size; used = true } ∷ record { n = c.n - need; used = false } ∷ cs,
    )
Located-here c cs fuel a t need h (sz, us, pos, fits, rest) k lo ne =
    let big : need < c.n = ground arith in
    (
      omega arith,
      find_here a need fuel c h sz us k,
      omega arith,
      omega arith,
      cut c cs a t need h (sz, us, pos, fits, rest) lo big,
    )

pub place_find :
    (cs : List Chunk) (fuel a t need b : ℕ) (ds : List Chunk) (h : Hdrs)
    → Chain h a cs t
    → place a need cs ≡ some (b, ds)
    → length cs < fuel
    → hdr_size < need
    → (h b).size ≢ need
    → Located fuel a need t h (b, ds)
place_find [] fuel a t need b ds h ch e le lo ne = ground arith
place_find (c ∷ cs) zero a t need b ds h ch e le lo ne = absurd (omega arith)
place_find (c ∷ cs) (suc fuel) a t need b ds h (sz, us, pos, fits, rest) e le lo ne =
    elim (Bool-cases (c.used || ltb c.n need)) [
      | inl k ↦
          (let (es, at, front) =
              after_inv c (place (behind a c.n) need cs) b ds
                (sym (place_skip a need c cs k) ∙ e) in
            let (up, found, live, fit, chain) =
              place_find cs fuel (behind a c.n) t need b es h rest at (omega arith) lo ne in
            (
              omega arith,
              find_next a need fuel c h sz us pos fits k ∙ found,
              live,
              fit,
              subst (λ (x : List Chunk). Chain (split need b h) a x t) (sym front)
                  (
                    ground (arith, split_lem need b a h),
                    ground (arith, split_lem need b a h),
                    pos,
                    fits,
                    chain,
                  ),
            ))
      | inr k ↦
          (let p = some-injective _ (b, ds) (sym (place_take a need c cs k) ∙ e) in
            subst (Located (suc fuel) a need t h) p (
              Located-here c cs fuel a t need h (sz, us, pos, fits, rest) k lo
                (subst (λ (x : ℕ). (h x).size ≢ need) (sym (ap (λ (x : Placed). x.0) p)) ne)))
    ]

-- `malloc` of `n` bytes, when first fit on the chunks finds one that is not filled exactly: with more
-- fuel than there are chunks it answers the address behind the header of that chunk, the headers are
-- those of first fit, and no page is taken.
pub malloc_lem :
    (cs : List Chunk) (fuel n alignment t b : ℕ) (ds : List Chunk) (s : Heap)
    → Chain s.hdrs s.start cs t
    → place s.start (n + hdr_size) cs ≡ some (b, ds)
    → length cs < fuel
    → 0 < n
    → (s.hdrs b).size ≢ n + hdr_size
    → (s' : Heap) × (malloc fuel n alignment s ≡ some (b + hdr_size, s'))
      × Chain s'.hdrs s.start ds t
      × (s'.start ≡ s.start)
      × (s'.machine ≡ s.machine)
unfolding malloc malloc_at
malloc_lem cs fuel n alignment t b ds s ch e le pos ne =
    let (up, found, live, fit, chain) =
      place_find cs fuel s.start t (n + hdr_size) b ds s.hdrs ch e le (omega arith) ne in
    let sum : add64 n hdr_size ≡ n + hdr_size = omega arith in
    let to : add64 b hdr_size ≡ b + hdr_size = omega arith in
    (
      record s { hdrs = split (n + hdr_size) b s.hdrs },
      rw (ne→== n 0 (omega arith), sum, found, ne→== (s.hdrs b).size 0 live, to)
          (ap (λ (x : ℕ). some (b + hdr_size, record s { hdrs = split x b s.hdrs })) sum),
      chain,
      refl,
      refl,
    )
