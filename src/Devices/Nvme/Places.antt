-- ===== src/Devices/Nvme/Places.antt =====
-- The queues that nvme.c sets up: their pages, their doorbells and the commands that name them.
use shed_os.Base.{
  ℕ, zero, suc, ◌+◌, ◌*◌, ◌/◌, ◌%◌, ◌^◌, ◌<◌, ◌≤◌, ◌≡◌, ◌≢◌, ◌⊎◌, refl, sym, ap, ap₂, ◌∙◌, subst,
  true, false, arith, List, [], ◌∷◌,
}
use native.Mathlib.Nat.{pow-suc}
use shed_os.Memory.Addr.{addr_ensure_lower, addr_offset_higher}
use shed_os.Memory.Addr.Half.{ensure_lower_lem}
use shed_os.Memory.Pmm.{Pmm, pmm_request_pages}
use shed_os.Memory.Pmm.Lock.{locked}
use shed_os.Memory.Pmm.Valid.{IsValid, page_total}
use shed_os.Memory.Pmm.Request.{InRange, Granted, granted, refused, request-Outcome}
use shed_os.Memory.Paging.{Machine, palloc}
use shed_os.Memory.Paging.Entry.{page, offset_higher-page}
use shed_os.Devices.Nvme.{SqEntry, input_output, doorbell}
use shed_os.Devices.Nvme.Regs.{Regs}
use shed_os.Devices.Nvme.Setup.{
  QueuePlaces, NvmeController, queue_at, create_admin_queue, create_io_queue, create_completion,
  create_submission,
}

-- The pages of an I/O queue: `sq` is the first of four frames, `cq` one frame.
pub record IsQueue (ctrl : NvmeController) (s : Machine)
    (out : QueuePlaces × List SqEntry × Machine) : Type 0 where
  pub sq : ℕ
  pub cq : ℕ
  pub at_sq : out.0.sq ≡ page sq
  pub at_cq : out.0.cq ≡ page cq
  -- All five pages were free, and are taken; the last one is none of the first four.
  pub was_free : (m : ℕ) → ((sq ≤ m) × (m < sq + 4)) ⊎ (m ≡ cq) → locked s.pmm m ≡ false
  pub taken : (m : ℕ) → ((sq ≤ m) × (m < sq + 4)) ⊎ (m ≡ cq) → locked out.2.pmm m ≡ true
  pub apart : (cq < sq) ⊎ (sq + 4 ≤ cq)
  -- The commands give the physical addresses, the completion queue's first.
  pub sent :
      (first : SqEntry) × (second : SqEntry) × (out.1 ≡ first ∷ second ∷ [])
      × (first.prp1 ≡ 0x1000 * cq)
      × (second.prp1 ≡ 0x1000 * sq)

module _ (ctrl : NvmeController) (s : Machine) (valid : IsValid s.pmm)
    (small : page_total s.pmm ≤ 2 ^ 34) where
  abbrev first : ℕ × Pmm
  first = pmm_request_pages 4 s.pmm

  abbrev second : ℕ × Pmm
  second = pmm_request_pages 1 first.1

  range-first : InRange 4 s.pmm
  range-first = omega (arith, small)

  -- What `create_io_queue` answers, by the two requests.
  made : ℕ → ℕ → QueuePlaces × List SqEntry × Machine
  made sq cq = (
    queue_at ctrl.regs_at ctrl.regs input_output sq cq,
    create_completion cq ∷ create_submission sq ∷ [],
    record s { pmm = second.1 },
  )

  made_is : create_io_queue ctrl s ≡ made (addr_offset_higher first.0) (addr_offset_higher second.0)
  unfolding create_io_queue palloc made
  made_is = refl

  lower-page : (m : ℕ) → m < 2 ^ 35 → addr_ensure_lower (page m) ≡ 0x1000 * m
  lower-page m lt = ensure_lower_lem (page m) ∙ omega arith

  IsQueue-made :
      (a b : ℕ)
      → Granted 4 a s.pmm first.1
      → Granted 1 b first.1 second.1
      → IsQueue ctrl s (made (page a) (page b))
  unfolding made queue_at create_completion create_submission
  IsQueue-made a b g h =
      let sa : a < 2 ^ 35 = omega (arith, g.in_memory) in
      let sb : b < 2 ^ 35 = ground (arith, h.in_memory, g.total, small) in
      record {
        sq = a;
        cq = b;
        at_sq = refl;
        at_cq = refl;
        was_free = λ m c. ground (arith, g.was_free m, h.was_free m, g.bits m);
        taken = λ m c. ground (arith, g.bits m, h.bits m);
        apart = ground (arith, h.was_free b, g.bits b);
        sent = (
          create_completion (page b),
          create_submission (page a),
          refl,
          lower-page b sb,
          lower-page a sa,
        );
      }

places :
    {A : Type 0} (f : ℕ → ℕ → A) (a b : ℕ) {x y : ℕ}
    → x ≡ 0x1000 * a
    → y ≡ 0x1000 * b
    → a < 2 ^ 35
    → b < 2 ^ 35
    → f (addr_offset_higher x) (addr_offset_higher y) ≡ f (page a) (page b)
places f a b e e' la lb =
    ap₂ f (ap addr_offset_higher e ∙ offset_higher-page a la)
      (ap addr_offset_higher e' ∙ offset_higher-page b lb)

-- With a page manager in order, of at most 2 ^ 34 pages, and room for both requests,
-- `create_io_queue` gives the queue five pages that were free, no page twice, and the two commands
-- name exactly these pages, the completion queue first.
pub create_io_queue_lem :
    (ctrl : NvmeController) (s : Machine)
    → IsValid s.pmm
    → page_total s.pmm ≤ 2 ^ 34
    → (pmm_request_pages 4 s.pmm).0 ≢ 0
    → (pmm_request_pages 1 (pmm_request_pages 4 s.pmm).1).0 ≢ 0
    → IsQueue ctrl s (create_io_queue ctrl s)
create_io_queue_lem ctrl s valid small had had' =
    elim (request-Outcome 4 s.pmm valid.bytes (range-first ctrl s valid small)) [
      | refused same run ↦ absurd (had (ap (λ (q : ℕ × Pmm). q.0) same))
      | granted a at g ↦
          elim (request-Outcome 1 (first ctrl s valid small).1 g.bytes
            (ground (arith, g.total, small))) [
              | refused same run ↦ absurd (had' (ap (λ (q : ℕ × Pmm). q.0) same))
              | granted b at' h ↦
                  subst (IsQueue ctrl s)
                    (sym (
                      made_is ctrl s valid small
                      ∙ places (made ctrl s valid small) a b at at' (omega (arith, g.in_memory))
                          (ground (arith, h.in_memory, g.total, small))))
                    (IsQueue-made ctrl s valid small a b g h)
            ]
    ]

stride_lem : (k : ℕ) → 4 ≤ 2 ^ (2 + k)
stride_lem zero = omega arith
stride_lem (suc k) = omega (
  arith,
  ap (λ (n : ℕ). 2 ^ n) {x = 2 + suc k} {y = suc (2 + k)} (omega arith),
  pow-suc 2 (2 + k),
  stride_lem k,
)

-- The doorbells of a queue, and of an I/O queue behind those of the admin queue.
pub record BellsApart (admin_queue io_queue : QueuePlaces) : Type 0 where
  pub within_admin : admin_queue.sq_tail_dbl + 4 ≤ admin_queue.cq_head_dbl
  pub between : admin_queue.cq_head_dbl + 4 ≤ io_queue.sq_tail_dbl
  pub within_io : io_queue.sq_tail_dbl + 4 ≤ io_queue.cq_head_dbl

-- Whatever the stride, the four doorbells of the admin queue and of a drive's I/O queue share no byte;
-- but the I/O queues of two drives have the same doorbells.
pub doorbells_apart :
    (regs_at : ℕ) (regs : Regs) (pmm : Pmm) (s s' : Machine)
    → let ctrl = (create_admin_queue regs_at regs pmm).0 in
      let first = (create_io_queue ctrl s).0 in
      let second = (create_io_queue ctrl s').0 in
      BellsApart ctrl.admin_queue first
      × (first.sq_tail_dbl ≡ second.sq_tail_dbl)
      × (first.cq_head_dbl ≡ second.cq_head_dbl)
unfolding doorbell create_admin_queue create_io_queue queue_at
doorbells_apart regs_at regs pmm s s' =
    let long = stride_lem (regs.cap / 2 ^ 32 % 16) in
    (
      record {
        within_admin = omega (arith, long);
        between = omega (arith, long);
        within_io = omega (arith, long);
      },
      refl,
      refl,
    )
