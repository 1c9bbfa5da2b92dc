-- ===== src/Memory/Paging/Entry.antt =====
-- Page table entries as numbers: the frame and twelve flag bits.
use shed_os.Base.{
  ℕ, zero, suc, ◌+◌, ◌*◌, ◌/◌, ◌^◌, ◌<◌, ◌≡◌, ap, ◌∙◌, true, false, bit_and, bit_or, arith, ltb,
  if◌then◌else◌,
}
use shed_os.Base.Bits.{
  and_low_mask, and_high_mask, or_disjoint, or_blocks, and_blocks, and_zero, or_zero,
}
use shed_os.Base.Word.{not64}
use shed_os.Memory.Addr.{vaddr_higher, addr_offset_higher, addr_offset_lower, addr_ensure_higher}
use shed_os.Memory.Addr.Half.{ensure_higher_lem}
use shed_os.Memory.Paging.{present, huge, table_of, new_entry, vaddr_to_index, index}

-- Where the kernel reaches page frame `m`.
abbrev pub page : ℕ → ℕ
page m = vaddr_higher + 0x1000 * m

pub index-lt : (level v : ℕ) → index level v < 512
unfolding index
index-lt zero v = omega (arith, and_low_mask 9 v)
index-lt (suc level) v = index-lt level (v / 2 ^ 9)

pub vaddr_to_index-lt : (v level : ℕ) → vaddr_to_index v level < 512
unfolding vaddr_to_index
vaddr_to_index-lt v level = index-lt level (v / 2 ^ 12)

-- An entry with frame `m` and flags `f`: a flag is looked up in `f`, and the table is that of `m`.
pub flag_lem : (m f k : ℕ) → f < 4096 → k < 4096 → bit_and (m * 4096 + f) k ≡ bit_and f k
flag_lem m f k hf hk =
    ap (bit_and (m * 4096 + f)) (omega arith)
    ∙ (and_blocks 12 m f 0 k hf hk ∙ omega (arith, ap (λ (t : ℕ). t * 4096) (and_zero m)))

pub table_of_frame : (m f : ℕ) → m < 2 ^ 35 → f < 4096 → table_of (m * 4096 + f) ≡ page m
unfolding table_of
table_of_frame m f hm hf =
    ap addr_ensure_higher masked ∙ (ensure_higher_lem (m * 4096) (omega arith) ∙ omega arith)
  where
    masked : bit_and (m * 4096 + f) (not64 0xfff) ≡ m * 4096
    masked = and_high_mask 12 52 (m * 4096 + f) (omega arith) ∙ omega arith

-- The flags of a new entry, under the source's test for a user address.
abbrev new_flags : ℕ → ℕ
new_flags v = if ltb v vaddr_higher then 7 else 1

new_entry_lem : (m v : ℕ) → m < 2 ^ 35 → new_entry v (page m) ≡ m * 4096 + new_flags v
unfolding new_entry addr_offset_lower
new_entry_lem m v h = ground (
  arith,
  ap (λ (t : ℕ). bit_or t 1) lowered,
  or_disjoint 12 m 1 (omega arith),
  or_blocks 12 m 1 0 6 (omega arith) (omega arith),
  or_zero m,
)
  where
    lowered : addr_offset_lower (page m) ≡ m * 2 ^ 12
    lowered = omega arith

module _ (m : ℕ) (small : m < 2 ^ 35) where
  pub offset_higher-page : addr_offset_higher (0x1000 * m) ≡ page m
  unfolding addr_offset_higher
  offset_higher-page = omega arith

  pub table_of-page : table_of (page m) ≡ page m
  unfolding table_of
  table_of-page =
      ap addr_ensure_higher masked ∙ (ensure_higher_lem (page m) (omega arith) ∙ omega arith)
    where
      masked : bit_and (page m) (not64 0xfff) ≡ page m
      masked = and_high_mask 12 52 (page m) (omega arith) ∙ omega arith

  pub new_entry-present : (v : ℕ) → present (new_entry v (page m)) ≡ true
  new_entry-present v =
      rw (new_entry_lem m v small) (ground (arith, flag_lem m 1 1, flag_lem m 7 1))

  pub new_entry-huge : (v : ℕ) → huge (new_entry v (page m)) ≡ false
  new_entry-huge v =
      rw (new_entry_lem m v small) (ground (arith, flag_lem m 1 128, flag_lem m 7 128))

  pub table_of-new_entry : (v : ℕ) → table_of (new_entry v (page m)) ≡ page m
  table_of-new_entry v =
      rw (new_entry_lem m v small) (table_of_frame m (new_flags v) small (ground arith))
