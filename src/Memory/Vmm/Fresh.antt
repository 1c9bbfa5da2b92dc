-- ===== src/Memory/Vmm/Fresh.antt =====
-- `vmm_request_at` for one page (vmm.c): the page that is mapped is one that nobody held.
use shed_os.Base.{ℕ, ◌*◌, ◌<◌, ◌≡◌, refl, ap, ◌∙◌, false, arith, bit_or}
use shed_os.Memory.Pmm.{Pmm, pmm_request_pages}
use shed_os.Memory.Pmm.Lock.{locked}
use shed_os.Memory.Pmm.Valid.{page_total, request-IsValid}
use shed_os.Memory.Pmm.Request.{Granted, granted, refused, request-Outcome}
use shed_os.Memory.Paging.{Machine, present, paging_get, paging_map, paging_present, vaddr_to_index}
use shed_os.Memory.Paging.Walk.{walk, HugeFree}
use shed_os.Memory.Paging.Descend.{IsMachine}
use shed_os.Memory.Pmm.Supply.{InRange-one}
use shed_os.Memory.Paging.Map.{CanRequest}
use shed_os.Memory.Paging.Get.{Apart, get-map, get-map_other}
use shed_os.Memory.Vmm.{request_page}

-- The machine after a page was handed out.
abbrev pub requested : Machine → Machine
requested s = record s { pmm = (pmm_request_pages 1 s.pmm).1 }

pub granted-IsMachine :
    {root : ℕ} {level parent : ℕ → ℕ} (s : Machine) (first : ℕ)
    → IsMachine root level parent s
    → Granted 1 first s.pmm (pmm_request_pages 1 s.pmm).1
    → IsMachine root level parent (requested s)
granted-IsMachine s first ok g = record {
  tree = ok.tree;
  pmm = request-IsValid 1 s.pmm ok.pmm (InRange-one s.pmm ok.pmm);
  small = ground (arith, g.total, ok.small);
  held = λ m lt h. ground (arith, g.bits m, ok.held m lt h);
}

-- Page `m` was unmarked in `s` and is marked in `t`, and `v` is mapped to it; all else is as before.
abbrev pub Fresh : (root v flags m : ℕ) (s t : Machine) → Type 0
Fresh root v flags m s t =
    (m < page_total s.pmm)
    × (locked s.pmm m ≡ false)
    × (paging_get root v t ≡ bit_or (bit_or (0x1000 * m) flags) paging_present)
    × ((w : ℕ) → Apart v w → paging_get root w t ≡ paging_get root w s)

module _ (root v flags : ℕ) {level parent : ℕ → ℕ} (s : Machine)
    (ok : IsMachine root level parent s) (free : HugeFree (walk 3 (vaddr_to_index v) root s.ram))
    (can : CanRequest 4 s.pmm) (gone : present (paging_get root v s) ≡ false) where
  pub request_page-map :
      request_page root v flags s
      ≡ paging_map root v (pmm_request_pages 1 s.pmm).0 flags (requested s)
  unfolding request_page
  request_page-map = rw gone refl

  -- The tables are not touched by the request.
  pub get-requested : (w : ℕ) → paging_get root w (requested s) ≡ paging_get root w s
  unfolding paging_get
  get-requested w = refl

  -- An address without a page gets one that was not marked, with the flags, and no other page changes.
  pub request_page-Fresh : (m : ℕ) × Fresh root v flags m s (request_page root v flags s)
  request_page-Fresh = elim (request-Outcome 1 s.pmm ok.pmm.bytes (InRange-one s.pmm ok.pmm)) [
    | granted first at g ↦
        let ok' = granted-IsMachine s first ok g in
        (
          first,
          (
            g.in_memory,
            g.was_free first (omega arith) (omega arith),
            ap (paging_get root v) request_page-map
                ∙ (get-map root v (pmm_request_pages 1 s.pmm).0 flags (requested s) ok' free can.1
                    ∙ ap (λ (x : ℕ). bit_or (bit_or x flags) paging_present) at),
            λ w apart.
                ap (paging_get root w) request_page-map
                ∙ (get-map_other root v (pmm_request_pages 1 s.pmm).0 flags (requested s) ok' free
                      can.1 w apart
                    ∙ get-requested w),
          ),
        )
    | refused e none ↦ absurd (can.0 (ap (λ (x : ℕ × Pmm). x.0) e))
  ]
