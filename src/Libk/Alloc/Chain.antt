-- ===== src/Libk/Alloc/Chain.antt =====
-- The heap of alloc.c as a list of chunks: what the headers from an address on stand for.
use shed_os.Base.{
  ℕ, ◌+◌, ◌-◌, ◌*◌, ◌^◌, false, ◌<◌, ◌≤◌, ◌≡◌, Bool, List, [], ◌∷◌, ◌++◌, subst, arith,
}
use shed_os.Libk.Alloc.{ChunkHdr, Hdrs, Heap, hdr_size, malloc_init}

pub record Chunk : Type 0 where
  pub n : ℕ
  pub used : Bool

-- Where the header behind a chunk of `n` bytes at `a` is.
abbrev pub behind : ℕ → ℕ → ℕ
behind a n = a + n + hdr_size

-- The headers from `a` on are those of the chunks, and the header at `t`, of size 0, ends them.
abbrev pub Chain : Hdrs → ℕ → List Chunk → ℕ → Type 0
Chain h a [] t = (a ≡ t) × ((h a).size ≡ 0) × (a + hdr_size < 2 ^ 64)
Chain h a (c ∷ cs) t =
    ((h a).size ≡ c.n)
    × ((h a).in_use ≡ c.used)
    × (0 < c.n)
    × (behind a c.n < 2 ^ 64)
    × Chain h (behind a c.n) cs t

-- Two headers that agree in what a chain reads of them.
abbrev pub SameChunk : ChunkHdr → ChunkHdr → Type 0
SameChunk x y = (x.size ≡ y.size) × (x.in_use ≡ y.in_use)

-- A chain is kept where the headers from its start on are.
pub Chain-from :
    (cs : List Chunk) (a t : ℕ) (h g : Hdrs)
    → Chain h a cs t
    → ((b : ℕ) → a ≤ b → SameChunk (g b) (h b))
    → Chain g a cs t
Chain-from [] a t h g (e, z, fits) same = (e, ground (arith, same a), fits)
Chain-from (c ∷ cs) a t h g (sz, us, pos, fits, rest) same = (
  ground (arith, same a),
  ground (arith, same a),
  pos,
  fits,
  Chain-from cs (behind a c.n) t h g rest (λ b le. same b (omega arith)),
)

pub Chain-le : (cs : List Chunk) (a t : ℕ) (h : Hdrs) → Chain h a cs t → a ≤ t
Chain-le [] a t h (e, z, fits) = omega arith
Chain-le (c ∷ cs) a t h (sz, us, pos, fits, rest) =
    omega (arith, Chain-le cs (behind a c.n) t h rest)

-- Chunks behind a chain whose tail became a chunk, when the headers before the tail are kept.
pub Chain-append :
    (cs ds : List Chunk) (a t u : ℕ) (h g : Hdrs)
    → Chain h a cs t
    → ((b : ℕ) → b < t → SameChunk (g b) (h b))
    → Chain g t ds u
    → Chain g a (cs ++ ds) u
Chain-append [] ds a t u h g (e, z, fits) same new =
    subst (λ (x : ℕ). Chain g x ds u) {x = t} (omega arith) new
Chain-append (c ∷ cs) ds a t u h g (sz, us, pos, fits, rest) same new =
    let le : behind a c.n ≤ t = Chain-le cs (behind a c.n) t h rest in
    (
      ground (arith, same a),
      ground (arith, same a),
      pos,
      fits,
      Chain-append cs ds (behind a c.n) t u h g rest same new,
    )

-- After `_malloc_init` the heap is one free chunk, of all bytes but those of two headers.
pub malloc_init-Chain :
    (s : Heap)
    → 2 * hdr_size < s.size
    → s.start + s.size < 2 ^ 64
    → Chain
        (malloc_init s).hdrs
        s.start
        (record { n = s.size - 2 * hdr_size; used = false } ∷ [])
        (s.start + s.size - hdr_size)
unfolding malloc_init
malloc_init-Chain s lo fits =
    (ground arith, ground arith, omega arith, omega arith, (omega arith, ground arith, omega arith))
