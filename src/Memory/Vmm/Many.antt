-- ===== src/Memory/Vmm/Many.antt =====
-- `vmm_request_at` (vmm.c) for any number of pages.
use shed_os.Base.{
  ℕ, zero, suc, ◌+◌, ◌*◌, ◌%◌, ◌<◌, ◌≤◌, ◌≡◌, inl, inr, refl, sym, ap, ◌∙◌, subst, true, false,
  arith, Bool-cases, bit_or, eq_cases, not, ◌==◌,
}
use shed_os.Base.Bits.{and_low_mask, or_digit}
use shed_os.Base.Word.{add64, mul64}
use shed_os.Memory.Pmm.{pmm_request_pages}
use shed_os.Memory.Pmm.Lock.{locked}
use shed_os.Memory.Pmm.Supply.{available, Supplied, supply_lem}
use shed_os.Memory.Paging.{Machine, present, paging_get, paging_map, paging_present, vaddr_to_index}
use shed_os.Memory.Paging.Walk.{walk, HugeFree}
use shed_os.Memory.Paging.Descend.{IsMachine}
use shed_os.Memory.Paging.Map.{CanRequest, CanRequest-available}
use shed_os.Memory.Paging.Get.{Apart-cases, get-map, get-map_other, map-Leaves, map-HugeFree}
use shed_os.Memory.Vmm.{request_page, request_rounds, vmm_request_at}
use shed_os.Memory.Vmm.Fresh.{requested, granted-IsMachine, request_page-map, get-requested}

pub or_present : (x : ℕ) → present (bit_or x paging_present) ≡ true
or_present x =
    let odd : bit_or x 1 % 2 ≡ 1 = omega (arith, or_digit x 1) in
    ap (λ (y : ℕ). not (y == 0)) (and_low_mask 1 (bit_or x 1) ∙ odd)

-- `t` is `s` after pages were requested for addresses: at most `n` were taken, and what was mapped
-- stays as it was.
pub record Serves (root n : ℕ) (s t : Machine) : Type 0 where
  pub level : ℕ → ℕ
  pub parent : ℕ → ℕ
  pub machine : IsMachine root level parent t
  pub plain :
      (w : ℕ)
      → HugeFree (walk 3 (vaddr_to_index w) root s.ram)
      → HugeFree (walk 3 (vaddr_to_index w) root t.ram)
  pub stays :
      (w : ℕ) → present (paging_get root w s) ≡ true → paging_get root w t ≡ paging_get root w s
  pub locked_on : (m : ℕ) → locked s.pmm m ≡ true → locked t.pmm m ≡ true
  pub budget : available s.pmm ≤ available t.pmm + n

Serves-refl :
    (root n : ℕ) {level parent : ℕ → ℕ} (s : Machine)
    → IsMachine root level parent s
    → Serves root n s s
Serves-refl root n {level} {parent} s ok = record {
  level = level;
  parent = parent;
  machine = ok;
  plain = λ w h. h;
  stays = λ w p. refl;
  locked_on = λ m h. h;
  budget = omega arith;
}

Serves-trans :
    (root n n' : ℕ) (s t u : Machine)
    → Serves root n s t
    → Serves root n' t u
    → Serves root (n + n') s u
Serves-trans root n n' s t u p q = record {
  level = q.level;
  parent = q.parent;
  machine = q.machine;
  plain = λ w h. q.plain w (p.plain w h);
  stays = λ w h. q.stays w (ap present (p.stays w h) ∙ h) ∙ p.stays w h;
  locked_on = λ m h. q.locked_on m (p.locked_on m h);
  budget = omega (arith, p.budget, q.budget);
}

module _ (root v flags : ℕ) {level parent : ℕ → ℕ} (s : Machine)
    (ok : IsMachine root level parent s) (free : HugeFree (walk 3 (vaddr_to_index v) root s.ram))
    (zero_held : locked s.pmm 0 ≡ true) (enough : 4 ≤ available s.pmm) where
  module _ (gone : present (paging_get root v s) ≡ false) where
    p : Supplied s.pmm
    p = supply_lem s.pmm ok.pmm (omega (arith, enough))

    abbrev mapped : Machine
    mapped = paging_map root v (pmm_request_pages 1 s.pmm).0 flags (requested s)

    taken_ok : IsMachine root level parent (requested s)
    taken_ok = granted-IsMachine s p.first ok p.grant

    can : CanRequest 3 (requested s).pmm
    can =
        CanRequest-available 3 (requested s).pmm taken_ok.pmm (ground (arith, p.grant.bits 0))
          (omega (arith, p.one_less, enough))

    can_four : CanRequest 4 s.pmm
    can_four = CanRequest-available 4 s.pmm ok.pmm zero_held enough

    stays_mapped :
        (w : ℕ)
        → present (paging_get root w s) ≡ true
        → paging_get root w mapped ≡ paging_get root w s
    stays_mapped w there = elim (Apart-cases root v w s) [
      | inl apart ↦
          get-map_other root v (pmm_request_pages 1 s.pmm).0 flags (requested s) taken_ok free can w
            apart
          ∙ get-requested root v flags s ok free can_four gone w
      | inr same ↦ absurd (ground (arith, ap present same))
    ]

    Serves-mapped : Serves root 4 s mapped
    Serves-mapped =
        let (level', parent', machine, leaves) =
          map-Leaves root v (pmm_request_pages 1 s.pmm).0 flags (requested s) taken_ok free can in
        record {
          level = level';
          parent = parent';
          machine = machine;
          plain =
              map-HugeFree root v (pmm_request_pages 1 s.pmm).0 flags (requested s) taken_ok free
                can;
          stays = stays_mapped;
          locked_on = λ m h. leaves.locked_on m (ground (arith, p.grant.bits m));
          budget = omega (arith, leaves.budget, p.one_less);
        }

    there_mapped : present (paging_get root v mapped) ≡ true
    there_mapped =
        ap present
          (get-map root v (pmm_request_pages 1 s.pmm).0 flags (requested s) taken_ok free can)
        ∙ or_present _

    Serves-fresh :
        Serves root 4 s (request_page root v flags s)
        × (present (paging_get root v (request_page root v flags s)) ≡ true)
    Serves-fresh =
        subst (λ (t : Machine). Serves root 4 s t × (present (paging_get root v t) ≡ true))
          (sym (request_page-map root v flags s ok free can_four gone))
          (Serves-mapped, there_mapped)

  -- One page: there afterwards, whether it was before or not.
  pub request_page-Serves :
      Serves root 4 s (request_page root v flags s)
      × (present (paging_get root v (request_page root v flags s)) ≡ true)
  unfolding request_page
  request_page-Serves = elim (Bool-cases (present (paging_get root v s))) [
    | inl there ↦ rw there (Serves-refl root 4 s ok, there)
    | inr gone ↦ Serves-fresh gone
  ]

-- The address of round `i`.
abbrev pub target : (vaddr i : ℕ) → ℕ
target vaddr i = add64 vaddr (mul64 i 0x1000)

-- The pages from number `i` on, up to `n`, are there.
abbrev pub AllPresent : (root vaddr i n : ℕ) → Machine → Type 0
AllPresent root vaddr i n t =
    (k : ℕ) → i ≤ k → k < n → present (paging_get root (target vaddr k) t) ≡ true

rounds-Serves :
    (root vaddr flags left i n : ℕ) {level parent : ℕ → ℕ} (s : Machine)
    → IsMachine root level parent s
    → ((k : ℕ) → i ≤ k → k < n → HugeFree (walk 3 (vaddr_to_index (target vaddr k)) root s.ram))
    → locked s.pmm 0 ≡ true
    → 4 * left ≤ available s.pmm
    → n ≡ i + left
    → Serves root (4 * left) s (request_rounds left i root vaddr flags s)
      × AllPresent root vaddr i n (request_rounds left i root vaddr flags s)
unfolding request_rounds
rounds-Serves root vaddr flags zero i n s ok plain z enough e =
    (Serves-refl root 0 s ok, λ k a b. absurd (omega arith))
rounds-Serves root vaddr flags (suc left) i n s ok plain z enough e =
    let (one, there) =
      request_page-Serves root (target vaddr i) flags s ok (plain i (omega arith) (omega arith)) z
        (omega arith) in
    let s1 = request_page root (target vaddr i) flags s in
    let (rest, all) =
      rounds-Serves root vaddr flags left (i + 1) n s1 one.machine
        (λ k a b. one.plain (target vaddr k) (plain k (omega arith) b)) (one.locked_on 0 z)
        (omega (arith, one.budget)) (omega arith) in
    let out = request_rounds left (i + 1) root vaddr flags s1 in
    (
      subst (λ (x : ℕ). Serves root x s out) {x = 4 + 4 * left} {y = 4 * suc left} (omega arith)
          (Serves-trans root 4 (4 * left) s s1 out one rest),
      λ k a b. elim (eq_cases i k) [
        | inl same ↦
            subst (λ (x : ℕ). present (paging_get root (target vaddr x) out) ≡ true) same
              (ap present (rest.stays (target vaddr i) there) ∙ there)
        | inr ne ↦ all k (omega arith) b
      ],
    )

-- In a machine in order whose page 0 is held, with no huge page in the way and four pages to be had for
-- each page that is requested, `vmm_request_at` makes all `n` pages there, leaves every page that was
-- there as it was, and takes no more than those pages.
pub vmm_request_at_lem :
    (root vaddr n flags : ℕ) {level parent : ℕ → ℕ} (s : Machine)
    → IsMachine root level parent s
    → ((k : ℕ) → k < n → HugeFree (walk 3 (vaddr_to_index (target vaddr k)) root s.ram))
    → locked s.pmm 0 ≡ true
    → 4 * n ≤ available s.pmm
    → Serves root (4 * n) s (vmm_request_at root vaddr n flags s)
      × AllPresent root vaddr 0 n (vmm_request_at root vaddr n flags s)
unfolding vmm_request_at
vmm_request_at_lem root vaddr n flags s ok plain z enough =
    rounds-Serves root vaddr flags n 0 n s ok (λ k a b. plain k b) z enough (omega arith)
