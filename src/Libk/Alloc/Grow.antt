-- ===== src/Libk/Alloc/Grow.antt =====
-- `malloc` (alloc.c) where no chunk is free and large enough: pages are taken behind the tail.
use shed_os.Base.{
  ℕ, zero, suc, ◌^◌, ◌+◌, ◌-◌, ◌*◌, ◌/◌, ◌||◌, ltb, sym, ap, ◌∙◌, ◌<◌, ◌≤◌, ◌≡◌, ◌==◌, true, false,
  ne→==, eq→==, if◌then◌else◌, List, [], ◌∷◌, ◌++◌, length, arith, Bool-cases, inl, inr, refl, some,
  none, Option, le→ltb,
}
use shed_os.Base.Word.{add64, sub64}
use shed_os.Memory.Addr.{addr_page_align_up}
use shed_os.Memory.Paging.{paging_writable}
use shed_os.Memory.Vmm.{vmm_request_at}
use shed_os.Libk.Alloc.{
  Hdrs, Heap, hdr_size, find, append, split, malloc, malloc_at, kernel_heap_virtual_end,
}
use shed_os.Libk.Alloc.Chain.{Chunk, Chain, behind, Chain-append, SameChunk}
use shed_os.Libk.Alloc.Place.{Placed, place, place_skip, place_take, after, split_lem, find_next}

after-none : (c : Chunk) (o : Option Placed) → after c o ≡ none → o ≡ none
after-none c none e = refl
after-none c (some p) e = ground arith

-- Where first fit finds nothing, the walk ends at the tail.
grow_find :
    (cs : List Chunk) (fuel a t need : ℕ) (h : Hdrs)
    → Chain h a cs t
    → place a need cs ≡ none
    → length cs < fuel
    → (find fuel need a h ≡ some t) × ((h t).size ≡ 0) × (a ≤ t)
unfolding find
grow_find [] zero a t need h ch e le = absurd (omega arith)
grow_find [] (suc fuel) a t need h (at, z, fits) e le = ground arith
grow_find (c ∷ cs) zero a t need h ch e le = absurd (omega arith)
grow_find (c ∷ cs) (suc fuel) a t need h (sz, us, pos, fits, rest) e le =
    elim (Bool-cases (c.used || ltb c.n need)) [
      | inl k ↦
          (let (found, z, up) =
              grow_find cs fuel (behind a c.n) t need h rest
                (after-none c (place (behind a c.n) need cs) (sym (place_skip a need c cs k) ∙ e))
                (omega arith) in
            (find_next a need fuel c h sz us pos fits k ∙ found, z, omega arith))
      | inr k ↦ ground (arith, sym (place_take a need c cs k) ∙ e)
    ]

-- The pages that are taken for `n` bytes.
abbrev pub pages : ℕ → ℕ
pages n = addr_page_align_up (n + hdr_size) / 0x1000

-- The headers at the old tail, and what they say, once the pages are there.
appended :
    (n t d : ℕ) (s : Heap)
    → n + hdr_size < 2 ^ 64
    → t + pages n * 0x1000 + hdr_size < 2 ^ 64
    → 0 < pages n
    → (append (n + hdr_size) t s).hdrs d ≡ (
        if d == t + pages n * 0x1000
        then record { in_use = true; size = 0; size_prev = pages n * 0x1000 - hdr_size }
        else if d == t
        then record {
          in_use = (s.hdrs t).in_use;
          size = pages n * 0x1000 - hdr_size;
          size_prev = (s.hdrs t).size_prev;
        }
        else s.hdrs d)
unfolding append
appended n t d s small fits pos = ground arith

-- The state in which `malloc` of `n` bytes leaves a heap whose tail was at `t`.
abbrev pub grown : (n t : ℕ) → Heap → Heap
grown n t s =
    let s' = append (n + hdr_size) t s in record s' { hdrs = split (n + hdr_size) t s'.hdrs }

grown_machine :
    (n t : ℕ) (s : Heap)
    → t + hdr_size < 2 ^ 64
    → (grown n t s).machine
      ≡ vmm_request_at s.machine.kernel_table (t + hdr_size) (pages n) paging_writable s.machine
unfolding append
grown_machine n t s fits =
    ap (λ (x : ℕ). vmm_request_at s.machine.kernel_table x (pages n) paging_writable s.machine)
      (omega arith)

grow_run :
    (cs : List Chunk) (fuel n alignment t : ℕ) (s : Heap)
    → Chain s.hdrs s.start cs t
    → place s.start (n + hdr_size) cs ≡ none
    → length cs < fuel
    → 0 < n
    → n + hdr_size < 2 ^ 64
    → t + hdr_size ≤ kernel_heap_virtual_end
    → malloc fuel n alignment s ≡ some (t + hdr_size, grown n t s)
unfolding malloc malloc_at
grow_run cs fuel n alignment t s ch e le pos small room =
    let (found, z, up) = grow_find cs fuel s.start t (n + hdr_size) s.hdrs ch e le in
    let sum : add64 n hdr_size ≡ n + hdr_size = omega arith in
    let to : add64 t hdr_size ≡ t + hdr_size = omega arith in
    rw
      (
        ne→== n 0 (omega arith),
        sum,
        found,
        eq→== (s.hdrs t).size 0 z,
        to,
        le→ltb kernel_heap_virtual_end (t + hdr_size) room,
      )
      (ap
        (λ (x : ℕ).
          some (t + hdr_size, record (append x t s) { hdrs = split x t (append x t s).hdrs }))
        sum)

-- What the headers say at the end.
grown_lem :
    (n t d : ℕ) (s : Heap)
    → t + (n + hdr_size) < 2 ^ 64
    → t + pages n * 0x1000 + hdr_size < 2 ^ 64
    → 0 < pages n
    → SameChunk ((grown n t s).hdrs d) (
        if d == t + (n + hdr_size)
        then record {
          in_use = false;
          size = sub64 (pages n * 0x1000 - hdr_size) (n + hdr_size);
          size_prev = n;
        }
        else if d == t
        then record { in_use = true; size = n; size_prev = 0 }
        else if d == t + pages n * 0x1000
        then record { in_use = true; size = 0; size_prev = 0 }
        else s.hdrs d)
grown_lem n t d s small fits pos =
    let new = split_lem (n + hdr_size) t d (append (n + hdr_size) t s).hdrs in
    let old = appended n t d s (omega arith) fits pos in
    let at = appended n t t s (omega arith) fits pos in (ground arith, ground arith)

-- `malloc` when no chunk is free and large enough, there is room, and the new pages hold the bytes and
-- two headers: a used chunk and a free one come behind the others, the tail moves up, and the pages
-- behind the old tail were asked for.
pub malloc_grows :
    (cs : List Chunk) (fuel n alignment t : ℕ) (s : Heap)
    → Chain s.hdrs s.start cs t
    → place s.start (n + hdr_size) cs ≡ none
    → length cs < fuel
    → 0 < n
    → t + hdr_size ≤ kernel_heap_virtual_end
    → n + 2 * hdr_size < pages n * 0x1000
    → t + pages n * 0x1000 + hdr_size < 2 ^ 64
    → (s' : Heap) × (malloc fuel n alignment s ≡ some (t + hdr_size, s'))
      × Chain s'.hdrs s.start
          (cs
            ++ record { n = n; used = true }
              ∷ record { n = pages n * 0x1000 - (n + 2 * hdr_size); used = false }
              ∷ [])
          (t + pages n * 0x1000)
      × (s'.machine
          ≡ vmm_request_at s.machine.kernel_table
              (t + hdr_size)
              (pages n)
              paging_writable
              s.machine)
malloc_grows cs fuel n alignment t s ch e le pos room holds fits = (
  grown n t s,
  grow_run cs fuel n alignment t s ch e le pos (omega arith) room,
  Chain-append cs _ s.start t (t + pages n * 0x1000) s.hdrs (grown n t s).hdrs ch
      (λ b lt. (ground (arith, grown_lem n t b s), ground (arith, grown_lem n t b s)))
      (
        ground (arith, grown_lem n t t s),
        ground (arith, grown_lem n t t s),
        pos,
        omega arith,
        (
          ground (arith, grown_lem n t (behind t n) s),
          ground (arith, grown_lem n t (behind t n) s),
          omega arith,
          omega arith,
          (
            omega arith,
            ground (
              arith,
              grown_lem n t (behind (behind t n) (pages n * 0x1000 - (n + 2 * hdr_size))) s,
            ),
            omega arith,
          ),
        ),
      ),
  grown_machine n t s (omega arith),
)

-- `malloc` in the same place, when the new pages hold the bytes and one header, but not two: what is
-- left is computed below zero, and the free header behind the new chunk has a size of nearly `2 ^ 64`.
pub malloc_wraps :
    (cs : List Chunk) (fuel n alignment t : ℕ) (s : Heap)
    → Chain s.hdrs s.start cs t
    → place s.start (n + hdr_size) cs ≡ none
    → length cs < fuel
    → 0 < n
    → t + hdr_size ≤ kernel_heap_virtual_end
    → pages n * 0x1000 < n + 2 * hdr_size
    → 0 < pages n
    → t + (n + hdr_size) < 2 ^ 64
    → t + pages n * 0x1000 + hdr_size < 2 ^ 64
    → (s' : Heap) × (malloc fuel n alignment s ≡ some (t + hdr_size, s'))
      × ((s'.hdrs (t + n + hdr_size)).in_use ≡ false)
      × ((s'.hdrs (t + n + hdr_size)).size ≡ 2 ^ 64 + pages n * 0x1000 - (n + 2 * hdr_size))
malloc_wraps cs fuel n alignment t s ch e le pos room short some_page small fits = (
  grown n t s,
  grow_run cs fuel n alignment t s ch e le pos (omega arith) room,
  ground (arith, grown_lem n t (t + n + hdr_size) s),
  ground (arith, grown_lem n t (t + n + hdr_size) s),
)
