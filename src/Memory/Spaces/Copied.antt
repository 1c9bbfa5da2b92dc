-- ===== src/Memory/Spaces/Copied.antt =====
-- A copy of the tables below a table, as `paging_copy_recursive` (paging.c) makes it: page by page, as
-- far as the source has tables.
use shed_os.Base.{
  not, ◌==◌, ℕ, zero, suc, ◌+◌, ◌*◌, ◌/◌, ◌%◌, ◌^◌, ◌<◌, ◌≤◌, ◌≡◌, refl, sym, ap, ◌∙◌, true, arith,
  bit_and, bit_or,
}
use shed_os.Base.Bits.{and_low_mask, or_disjoint}
use shed_os.Memory.Addr.{addr_offset_lower}
use shed_os.Memory.Paging.{present, huge, slot, table_of, paging_present, paging_huge}
use shed_os.Memory.Paging.Entry.{page, table_of_frame, flag_lem}
use shed_os.Memory.Paging.Walk.{walk, hit, Indices, hit_present}
use shed_os.Memory.Spaces.{entries}

-- The entry of a copy at frame `m`, with the flags of `entry`.
unfoldable pub copy_entry : (m entry : ℕ) → ℕ
copy_entry m entry = bit_or (addr_offset_lower (page m)) (bit_and entry 0xfff)

copy_entry_lem : (m e : ℕ) → m < 2 ^ 35 → copy_entry m e ≡ m * 4096 + e % 4096
unfolding copy_entry addr_offset_lower
copy_entry_lem m e h = ground (
  arith,
  ap (λ (x : ℕ). bit_or x (bit_and e 0xfff)) lowered,
  and_low_mask 12 e,
  or_disjoint 12 m (e % 4096),
)
  where
    lowered : addr_offset_lower (page m) ≡ m * 2 ^ 12
    lowered = omega arith

flag_of : (m e k : ℕ) → m < 2 ^ 35 → k < 4096 → bit_and (copy_entry m e) k ≡ bit_and e k
flag_of m e k hm hk =
    ap (λ (x : ℕ). bit_and x k) (copy_entry_lem m e hm)
    ∙ (flag_lem m (e % 4096) k (omega arith) hk
        ∙ (sym (flag_lem (e / 4096) (e % 4096) k (omega arith) hk)
            ∙ ap (λ (x : ℕ). bit_and x k) (omega arith)))

module _ (m e : ℕ) (small : m < 2 ^ 35) where
  pub copy_entry-present : present (copy_entry m e) ≡ present e
  copy_entry-present = ap (λ (x : ℕ). not (x == 0)) (flag_of m e paging_present small (omega arith))

  pub copy_entry-huge : huge (copy_entry m e) ≡ huge e
  copy_entry-huge = ap (λ (x : ℕ). not (x == 0)) (flag_of m e paging_huge small (omega arith))

  pub table_of-copy_entry : table_of (copy_entry m e) ≡ page m
  table_of-copy_entry =
      rw (copy_entry_lem m e small) (table_of_frame m (e % 4096) small (omega arith))

-- Entry `i` of the table at frame `d` points to frame `m`, in place of the table of `entry`; `Below`
-- holds of the two.
pub record Linked (Below : (m t : ℕ) → Type 0) (P : ℕ → Type 0) (ram : ℕ → ℕ) (d i entry : ℕ)
    : Type 0 where
  pub frame : ℕ
  pub small : frame < 2 ^ 35
  pub own : P frame
  pub points : ram (slot (page d) i) ≡ copy_entry frame entry
  pub below : Below frame (table_of entry)

-- The table at frame `d` in `ram` copies the table `t` of `source`; `P` holds of the frames below.
unfoldable pub Copied : (below : ℕ) → (P : ℕ → Type 0) → (source ram : ℕ → ℕ) → (d t : ℕ) → Type 0
Copied zero P source ram d t = (j : ℕ) → j < 512 → ram (slot (page d) j) ≡ source (slot t j)
Copied (suc below) P source ram d t =
    (i : ℕ)
    → i < entries (suc below + 1)
    → present (source (slot t i)) ≡ true
    → Linked (Copied below P source ram) P ram d i (source (slot t i))

-- The words of the tables that `P` holds of, and of the table at frame `d`, are as they were.
pub Copied-keep :
    (below : ℕ) (P Q : ℕ → Type 0) (source ram ram' : ℕ → ℕ) (d t : ℕ)
    → ((m : ℕ) → m < 2 ^ 35 → P m → Q m)
    → ((m j : ℕ) → m < 2 ^ 35 → P m → j < 512 → ram' (slot (page m) j) ≡ ram (slot (page m) j))
    → ((j : ℕ) → j < 512 → ram' (slot (page d) j) ≡ ram (slot (page d) j))
    → Copied below P source ram d t
    → Copied below Q source ram' d t
unfolding Copied
Copied-keep zero P Q source ram ram' d t to same own c = λ j lt. own j lt ∙ c j lt
Copied-keep (suc below) P Q source ram ram' d t to same own c = λ i lt there.
    let one = c i lt there in
    record {
      frame = one.frame;
      small = one.small;
      own = to one.frame one.small one.own;
      points = own i (ground arith) ∙ one.points;
      below =
          Copied-keep below P Q source ram ram' one.frame (table_of (source (slot t i))) to same
            (λ j lj. same one.frame j one.small one.own lj) one.below;
    }

-- Where a walk from the source ends, a walk from the copy ends, at the same entry.
pub Copied-walk :
    (below : ℕ) (P : ℕ → Type 0) (source ram ix : ℕ → ℕ) (d t a : ℕ)
    → below ≤ 3
    → Copied below P source ram d t
    → Indices ix
    → ix below < entries (below + 1)
    → walk below ix t source ≡ hit a
    → (b : ℕ) × (walk below ix (page d) ram ≡ hit b) × (ram b ≡ source a)
unfolding Copied walk
Copied-walk zero P source ram ix d t a le c li lt e =
    (slot (page d) (ix 0), refl, ground (arith, c (ix 0) (li 0)))
Copied-walk (suc below) P source ram ix d t a le c li lt e =
    let (p, h, down) = hit_present below ix t source e in
    let one = c (ix (suc below)) lt p in
    let entry = source (slot t (ix (suc below))) in
    let (b, ends, same) =
      Copied-walk below P source ram ix one.frame (table_of entry) a (omega arith) one.below li
        (ground (arith, li below)) down in
    (
      b,
      ground (
        arith,
        ends,
        one.points,
        copy_entry-present one.frame entry one.small,
        copy_entry-huge one.frame entry one.small,
        table_of-copy_entry one.frame entry one.small,
      ),
      same,
    )

pub Linked-keep :
    (below : ℕ) (P Q : ℕ → Type 0) (source ram ram' : ℕ → ℕ) (d i entry : ℕ)
    → ((m : ℕ) → m < 2 ^ 35 → P m → Q m)
    → ((m j : ℕ) → m < 2 ^ 35 → P m → j < 512 → ram' (slot (page m) j) ≡ ram (slot (page m) j))
    → ram' (slot (page d) i) ≡ ram (slot (page d) i)
    → Linked (Copied below P source ram) P ram d i entry
    → Linked (Copied below Q source ram') Q ram' d i entry
Linked-keep below P Q source ram ram' d i entry to same own one = record {
  frame = one.frame;
  small = one.small;
  own = to one.frame one.small one.own;
  points = own ∙ one.points;
  below =
      Copied-keep below P Q source ram ram' one.frame (table_of entry) to same
        (λ j lj. same one.frame j one.small one.own lj) one.below;
}
