-- ===== src/Memory/Pmm/Request.antt =====
-- `pmm_request_pages` of pmm.c: what it hands out, what it leaves alone, and when it gives up.
use shed_os.Base.{
  ℕ, zero, suc, ◌+◌, ◌-◌, ◌*◌, ◌/◌, ◌^◌, ◌<◌, ◌≤◌, ◌≡◌, inl, inr, refl, true, false, if◌then◌else◌,
  arith, Bool-cases, lt_cases,
}
use shed_os.Base.Word.{add64, mul64}
use shed_os.Memory.Bitmap.{IsBytes}
use shed_os.Memory.Pmm.{Pmm, null, is_free, request_loop, lock_pages, pmm_request_pages}
use shed_os.Memory.Pmm.Lock.{
  locked, inside, locked-lock_pages, lock_pages-IsBytes, lock_pages-SameRest,
}

-- The inner loop answers whether all pages of the run are unmarked.
pub is_free-true :
    (left pi i : ℕ) (s : Pmm) (m : ℕ)
    → is_free left pi i s ≡ true
    → pi + i ≤ m
    → m < pi + i + left
    → locked s m ≡ false
unfolding is_free
is_free-true zero pi i s m h lo hi = absurd (omega arith)
is_free-true (suc left) pi i s m h lo hi = ground (arith, is_free-true left pi (i + 1) s m)

pub is_free-false :
    (left pi i : ℕ) (s : Pmm)
    → is_free left pi i s ≡ false
    → (m : ℕ) × (pi + i ≤ m) × (m < pi + i + left) × (locked s m ≡ true)
unfolding is_free
is_free-false zero pi i s h = absurd (ground arith)
is_free-false (suc left) pi i s h = elim (Bool-cases (locked s (pi + i))) [
  | inl e ↦ (pi + i, omega arith, omega arith, e)
  | inr e ↦
      (let (m, lo, hi, mark) = is_free-false left pi (i + 1) s (ground arith) in
        (m, omega arith, omega arith, mark))
]

-- No run of `count` unmarked pages begins from number `first` on and below `last`.
abbrev pub NoRun : (count first last : ℕ) → Pmm → Type 0
NoRun count first last s =
    (pi : ℕ) → first ≤ pi → pi < last → (m : ℕ) × (pi ≤ m) × (m < pi + count) × (locked s m ≡ true)

-- A run of `count` pages from number `first` on, handed out in state `s`.
pub record Granted (count first : ℕ) (s t : Pmm) : Type 0 where
  pub searched : s.last_free ≤ first
  pub earliest : NoRun count s.last_free first s
  pub in_memory : first < s.total_memory / 0x1000
  pub was_free : (m : ℕ) → first ≤ m → m < first + count → locked s m ≡ false
  pub bits : (m : ℕ) → locked t m ≡ (if inside first count m then true else locked s m)
  pub next : t.last_free ≡ first + count
  pub total : t.total_memory ≡ s.total_memory
  pub bytes : IsBytes t.page_bitmap
  pub made :
      t ≡ (lock_pages (mul64 first 0x1000) count (record s { last_free = add64 first count })).1

pub data Outcome (count : ℕ) (s : Pmm) (out : ℕ × Pmm) : Type 0 where
  granted : (first : ℕ) → out.0 ≡ 0x1000 * first → Granted count first s out.1 → Outcome count s out
  refused :
      out ≡ (null, s) → NoRun count s.last_free (s.total_memory / 0x1000) s → Outcome count s out

-- Sizes for which the page arithmetic of a request stays within 64 bits.
abbrev pub InRange : ℕ → Pmm → Type 0
InRange count s = 0x1000 * (s.total_memory / 0x1000 + count) < 2 ^ 64

grant :
    (pi count : ℕ) (s : Pmm)
    → IsBytes s.page_bitmap
    → InRange count s
    → s.last_free ≤ pi
    → pi < s.total_memory / 0x1000
    → NoRun count s.last_free pi s
    → is_free count pi 0 s ≡ true
    → Granted count pi s
        (lock_pages (mul64 pi 0x1000) count (record s { last_free = add64 pi count })).1
grant pi count s w r lo hi first e = record {
  searched = lo;
  earliest = first;
  in_memory = hi;
  was_free = λ m a b. is_free-true count pi 0 s m e (omega arith) (omega arith);
  bits = λ m. ground (
    arith,
    locked-lock_pages (mul64 pi 0x1000) count (record s { last_free = add64 pi count }) m w,
  );
  next = ground (
    arith,
    lock_pages-SameRest (mul64 pi 0x1000) count (record s { last_free = add64 pi count }),
  );
  total = ground (
    arith,
    lock_pages-SameRest (mul64 pi 0x1000) count (record s { last_free = add64 pi count }),
  );
  bytes = lock_pages-IsBytes (mul64 pi 0x1000) count (record s { last_free = add64 pi count }) w;
  made = refl;
}

request_loop-Outcome :
    (rounds pi count : ℕ) (s : Pmm)
    → IsBytes s.page_bitmap
    → InRange count s
    → s.last_free ≤ pi
    → rounds ≡ s.total_memory / 0x1000 - pi
    → NoRun count s.last_free pi s
    → Outcome count s (request_loop rounds pi count s)
unfolding request_loop
request_loop-Outcome zero pi count s w r lo e none_before =
    refused refl (λ k a b. none_before k a (omega arith))
request_loop-Outcome (suc rounds) pi count s w r lo e none_before =
    elim (Bool-cases (is_free count pi 0 s)) [
      | inl h ↦
          rw (h, request_loop)
            (granted pi (omega arith) (grant pi count s w r lo (omega arith) none_before h))
      | inr h ↦
          rw (h, request_loop)
            (request_loop-Outcome rounds (pi + 1) count s w r (omega arith) (omega arith) (λ k a b.
              elim (lt_cases k pi) [
                | inl before ↦ none_before k a before
                | inr here ↦
                    (let (m, at, end, mark) = is_free-false count pi 0 s h in
                      (m, omega arith, omega arith, mark))
              ]))
    ]

-- A request whose page arithmetic stays in 64 bits either hands out the first run from `last_free`
-- on that is unmarked, marks exactly its pages and moves `last_free` behind it, or answers NULL,
-- changes nothing, and no such run begins below the end of memory.
pub request-Outcome :
    (count : ℕ) (s : Pmm)
    → IsBytes s.page_bitmap
    → InRange count s
    → Outcome count s (pmm_request_pages count s)
unfolding pmm_request_pages
request-Outcome count s w r =
    request_loop-Outcome _ s.last_free count s w r (omega arith) refl
      (λ k a b. absurd (omega arith))
