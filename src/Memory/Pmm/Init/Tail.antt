-- ===== src/Memory/Pmm/Init/Tail.antt =====
-- The pages under the bitmap itself (`pmm_initialize` of pmm.c): `len / 0x1000` leaves the last out.
use shed_os.Base.{
  ℕ, ◌+◌, ◌-◌, ◌*◌, ◌/◌, ◌%◌, ◌^◌, ◌<◌, ◌≡◌, ◌≢◌, ◌⊎◌, inl, inr, true, false, Option, none, some,
  List, [], ◌∷◌, arith, Bool-cases,
}
use shed_os.Base.Word.{add64}
use shed_os.Memory.Pmm.{Pmm}
use shed_os.Memory.Pmm.Lock.{locked, inside}
use shed_os.Memory.Pmm.Init.{MmapEntry, larger, scan, pmm_initialize}
use shed_os.Memory.Pmm.Init.Marks.{usable, usable_page, bitmap_len, AllFit, init_marks}

abbrev Covers : MmapEntry → ℕ → Type 0
Covers l m = inside (l.base / 0x1000) (l.length / 0x1000) m ≡ true

-- The entry that the first loop finds is a usable one of the map.
scan_usable :
    (es : List MmapEntry) (acc : ℕ) (lg : Option MmapEntry) (total : ℕ) (l : MmapEntry) (m : ℕ)
    → scan es acc lg ≡ (total, some l)
    → Covers l m
    → (lg ≡ some l) ⊎ (usable_page es m ≡ true)
unfolding scan larger
scan_usable [] acc lg total l m found in_l = ground arith
scan_usable (e ∷ es) acc none total l m found in_l = elim (Bool-cases (usable e)) [
  | inl u ↦ ground (arith, scan_usable es (add64 acc e.length) (some e) total l m)
  | inr u ↦ ground (arith, scan_usable es (add64 acc e.length) none total l m)
]
scan_usable (e ∷ es) acc (some k) total l m found in_l = ground (
  arith,
  scan_usable es (add64 acc e.length) (some e) total l m,
  scan_usable es (add64 acc e.length) (some k) total l m,
)

-- Where the length of the bitmap is no multiple of the page size, as with less than 128 MiB of
-- memory, the page that holds its last bytes is left free, and may be handed out and overwritten.
pub bitmap_tail_free :
    (mem : ℕ → ℕ) (es : List MmapEntry) (total : ℕ) (l : MmapEntry)
    → ((i : ℕ) → mem i < 256)
    → AllFit es
    → scan es 0 none ≡ (total, some l)
    → l.base + bitmap_len total < 2 ^ 64
    → l.base % 0x1000 ≡ 0
    → bitmap_len total % 0x1000 ≢ 0
    → bitmap_len total / 0x1000 < l.length / 0x1000
    → l.base / 0x1000 + bitmap_len total / 0x1000 < 8 * bitmap_len total
    → let last_page = (l.base + bitmap_len total - 1) / 0x1000 in
      (s : Pmm) × (pmm_initialize mem es ≡ some s) × (locked s last_page ≡ false)
bitmap_tail_free mem es total l bytes fit found room aligned partial large known =
    let (s, made, marks) = init_marks mem es total l last_page bytes fit room found (omega arith) in
    (s, made, ground (arith, marks, scan_usable es 0 none total l last_page found in_l))
  where
    last_page : ℕ
    last_page = (l.base + bitmap_len total - 1) / 0x1000

    in_l : Covers l last_page
    in_l = ground arith
