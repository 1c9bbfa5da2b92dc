-- ===== src/Memory/Spaces/Rights.antt =====
-- `paging_make_readonly` of paging.c, as `paging_get` sees it.
use shed_os.Base.{
  ℕ, ◌+◌, ◌*◌, ◌/◌, ◌^◌, ◌<◌, ◌≤◌, ◌≡◌, ◌≢◌, refl, sym, ap, ◌∙◌, subst, arith, bit_and, bit_or,
}
use shed_os.Base.Bits.{and_apart, or_disjoint, and_low_mask}
use shed_os.Base.Word.{mul64}
use shed_os.Memory.Paging.{Machine, paging_get, vaddr_to_index, index, paging_writable}
use shed_os.Memory.Paging.Entry.{vaddr_to_index-lt}
use shed_os.Memory.Paging.Walk.{
  Walk, hit, absent, big, walk, read, HugeFree, walk_injective, walk_same,
}
use shed_os.Memory.Paging.Get.{get_lem}
use shed_os.Memory.Paging.Descend.{IsMachine}
use shed_os.Memory.Pmm.Valid.{IsValid}
use shed_os.Memory.Spaces.{child_vaddr, paging_make_readonly}
use shed_os.Memory.Spaces.Plain.{IsPlain, IsPlain-HugeFree}
use shed_os.Memory.Spaces.Readonly.{
  clear, address, Made, Made-recursive, Made-SameTables, SameTables,
}
use mathlib.Core.List.{Memᴰ}

child_vaddr_lem : (v i : ℕ) → v < 2 ^ 27 → i < 512 → child_vaddr v i ≡ v * 512 + i
unfolding child_vaddr
child_vaddr_lem v i hv hi = ap (λ (x : ℕ). bit_or x i) (omega arith) ∙ or_disjoint 9 v i hi

address_parts :
    (a b c d : ℕ)
    → a < 512
    → b < 512
    → c < 512
    → d < 512
    → mul64 (child_vaddr (child_vaddr (child_vaddr (child_vaddr 0 d) c) b) a) (2 ^ 12)
      ≡ 0x1000 * (((d * 512 + c) * 512 + b) * 512 + a)
address_parts a b c d ha hb hc hd = ground (
  arith,
  child_vaddr_lem 0 d (omega arith) hd,
  child_vaddr_lem d c (omega arith) hc,
  child_vaddr_lem (d * 512 + c) b (omega arith) hb,
  child_vaddr_lem ((d * 512 + c) * 512 + b) a (omega arith) ha,
)

-- The recursion finds the address whose page a walk ends at.
address_lem : (v : ℕ) → v < 2 ^ 48 → address 3 0 (vaddr_to_index v) ≡ 0x1000 * (v / 0x1000)
unfolding address vaddr_to_index index
address_lem v h =
    let p = v / 2 ^ 12 in
    address_parts (bit_and p 0x1ff) (bit_and (p / 2 ^ 9) 0x1ff) (bit_and (p / 2 ^ 9 / 2 ^ 9) 0x1ff)
      (bit_and (p / 2 ^ 9 / 2 ^ 9 / 2 ^ 9) 0x1ff) (omega (arith, and_low_mask 9 p))
      (omega (arith, and_low_mask 9 (p / 2 ^ 9)))
      (omega (arith, and_low_mask 9 (p / 2 ^ 9 / 2 ^ 9)))
      (omega (arith, and_low_mask 9 (p / 2 ^ 9 / 2 ^ 9 / 2 ^ 9)))
    ∙ omega (
      arith,
      and_low_mask 9 p,
      and_low_mask 9 (p / 2 ^ 9),
      and_low_mask 9 (p / 2 ^ 9 / 2 ^ 9),
      and_low_mask 9 (p / 2 ^ 9 / 2 ^ 9 / 2 ^ 9),
    )

-- An address of the lower half stands under the first 256 entries.
pub user_half : (v : ℕ) → v < 2 ^ 47 → vaddr_to_index v 3 < 256
unfolding vaddr_to_index index
user_half v lt = omega (arith, and_low_mask 9 (v / 2 ^ 12 / 2 ^ 9 / 2 ^ 9 / 2 ^ 9))

-- What `paging_make_readonly` leaves of `s`, for the tables below `root`.
pub record IsReadonly (root : ℕ) (level parent : ℕ → ℕ) (s s' : Machine) : Type 0 where
  -- A user page keeps its entry, without the right to write.
  pub user : (v : ℕ) → vaddr_to_index v 3 < 256 → paging_get root v s' ≡ clear (paging_get root v s)
  pub denied :
      (v : ℕ) → vaddr_to_index v 3 < 256 → bit_and (paging_get root v s') paging_writable ≡ 0
  pub kernel : (v : ℕ) → 256 ≤ vaddr_to_index v 3 → paging_get root v s' ≡ paging_get root v s
  -- A user page that is there is flushed.
  pub flushed :
      (v : ℕ) → v < 2 ^ 47 → paging_get root v s ≢ 0 → Memᴰ (0x1000 * (v / 0x1000)) s'.flushed
  pub machine : IsMachine root level parent s'

module _ (root : ℕ) {level parent : ℕ → ℕ} (s : Machine) (ok : IsMachine root level parent s)
    (plain : IsPlain 3 root s.ram) where
  abbrev after : Machine
  after = paging_make_readonly root s

  made : Made s.ram 3 root 0 (λ k. k < 256) s after
  unfolding paging_make_readonly
  made = Made-recursive ok.tree 3 root 0 s (omega arith) ok.tree.top plain (λ u j lu lj. refl)

  same : SameTables level s.ram after
  same =
      Made-SameTables ok.tree 3 root 0 (λ k. k < 256) s after ok.tree.top made (λ u j lu lj. refl)

  get-after :
      (v : ℕ) → paging_get root v after ≡ read (walk 3 (vaddr_to_index v) root s.ram) after.ram
  get-after v =
      get_lem root v after
      ∙ ap (λ (w : Walk). read w after.ram)
          (walk_same ok.tree after.ram 3 (vaddr_to_index v) root same (vaddr_to_index-lt v)
            ok.tree.top)

  read_user :
      (v : ℕ) (w : Walk)
      → vaddr_to_index v 3 < 256
      → walk 3 (vaddr_to_index v) root s.ram ≡ w
      → HugeFree w
      → read w after.ram ≡ clear (read w s.ram)
  read_user v (hit a) lt e free = (made.done (vaddr_to_index v) a (vaddr_to_index-lt v) lt e).0
  read_user v absent lt e free = refl
  read_user v (big x) lt e free = absurd free

  read_kernel :
      (v : ℕ) (w : Walk)
      → 256 ≤ vaddr_to_index v 3
      → walk 3 (vaddr_to_index v) root s.ram ≡ w
      → read w after.ram ≡ read w s.ram
  read_kernel v (hit a) le e = made.other a (λ ix li k f.
      let one =
        walk_injective ok.tree 3 ix (vaddr_to_index v) root root a li (vaddr_to_index-lt v)
          ok.tree.top ok.tree.top f e in
      absurd (omega (arith, one.1 3 (omega arith))))
  read_kernel v absent le e = refl
  read_kernel v (big x) le e = refl

  flush_user :
      (v : ℕ) (w : Walk)
      → v < 2 ^ 47
      → walk 3 (vaddr_to_index v) root s.ram ≡ w
      → HugeFree w
      → read w s.ram ≢ 0
      → Memᴰ (0x1000 * (v / 0x1000)) after.flushed
  flush_user v (hit a) lt e free there =
      subst (λ (x : ℕ). Memᴰ x after.flushed) (address_lem v (omega arith))
        (made.done (vaddr_to_index v) a (vaddr_to_index-lt v) (user_half v lt) e).1
  flush_user v absent lt e free there = absurd (there refl)
  flush_user v (big x) lt e free there = absurd free

  free : (v : ℕ) → vaddr_to_index v 3 < 256 → HugeFree (walk 3 (vaddr_to_index v) root s.ram)
  free v lt =
      IsPlain-HugeFree 3 root s.ram (vaddr_to_index v) (omega arith) plain (vaddr_to_index-lt v) lt

  get_user :
      (v : ℕ) → vaddr_to_index v 3 < 256 → paging_get root v after ≡ clear (paging_get root v s)
  get_user v lt =
      get-after v ∙ (read_user v _ lt refl (free v lt) ∙ ap clear (sym (get_lem root v s)))

  -- In a machine in order, with no huge page below the user half of the root, the entry of every user
  -- page loses WRITABLE and nothing else, every kernel page reads as before, each user page that is
  -- there is flushed from the TLB, and the machine stays in order.
  pub make_readonly_lem : IsReadonly root level parent s after
  make_readonly_lem = record {
    user = get_user;
    denied = λ v lt.
        ap (λ (x : ℕ). bit_and x paging_writable) (get_user v lt)
        ∙ and_apart (paging_get root v s) _ paging_writable refl;
    kernel = λ v le. get-after v ∙ (read_kernel v _ le refl ∙ sym (get_lem root v s));
    flushed = λ v lt there.
        flush_user v _ lt refl (free v (user_half v lt)) (λ e. there (get_lem root v s ∙ e));
    machine = record {
      tree = record {
        top = ok.tree.top;
        frame = ok.tree.frame;
        child_level =
            λ u j lj lu p h. ground (arith, same u j lu lj, ok.tree.child_level u j lj lu);
        child_parent =
            λ u j lj lu p h. ground (arith, same u j lu lj, ok.tree.child_parent u j lj lu);
      };
      pmm = subst IsValid (sym made.rest.0) ok.pmm;
      small = ground (arith, made.rest.0, ok.small);
      held = λ m lm lv. ground (arith, made.rest.0, ok.held m lm lv);
    };
  }
