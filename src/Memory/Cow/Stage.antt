-- ===== src/Memory/Cow/Stage.antt =====
-- The steps of `cow_copy_on_write` (cow.c) on an address space in order: a page mapped, unmapped, and
-- requested.
use shed_os.Base.{ℕ, ◌*◌, ◌^◌, ◌<◌, ◌≤◌, ◌≡◌, refl, sym, ap, ◌∙◌, subst, true, false, arith, bit_or}
use shed_os.Base.Word.{add64, mul64}
use shed_os.Memory.Pmm.{pmm_request_pages}
use shed_os.Memory.Pmm.Lock.{locked}
use shed_os.Memory.Pmm.Supply.{available, Supplied, supply_lem}
use shed_os.Memory.Paging.{
  Machine, present, paging_get, paging_map, paging_unmap, paging_present, vaddr_to_index,
}
use shed_os.Memory.Paging.Walk.{walk, HugeFree}
use shed_os.Memory.Paging.Descend.{IsMachine}
use shed_os.Memory.Paging.Leaves.{Leaves, Leaves-trans}
use shed_os.Memory.Paging.Map.{CanRequest, CanRequest-available}
use shed_os.Memory.Paging.Get.{Apart, get-map, get-map_other, map-Leaves, map-HugeFree}
use shed_os.Memory.Paging.Unmap.{unmap_lem, unmap-Leaves, unmap-walk}
use shed_os.Memory.Vmm.{vmm_request_at, request_page, request_rounds}
use shed_os.Memory.Vmm.Fresh.{requested, granted-IsMachine, request_page-map, get-requested}

-- A step of the work on `vmap`: an address space in order, with the walks that met no huge page still
-- meeting none.
pub record Stage (vmap : ℕ) (level : ℕ → ℕ) (n : ℕ) (s t : Machine) : Type 0 where
  pub level' : ℕ → ℕ
  pub parent' : ℕ → ℕ
  pub machine : IsMachine vmap level' parent' t
  pub leaves : Leaves level level' n s t
  pub plain :
      (w : ℕ)
      → HugeFree (walk 3 (vaddr_to_index w) vmap s.ram)
      → HugeFree (walk 3 (vaddr_to_index w) vmap t.ram)

pub Stage-map :
    (vmap v paddr flags : ℕ) {level parent : ℕ → ℕ} (s : Machine)
    → IsMachine vmap level parent s
    → HugeFree (walk 3 (vaddr_to_index v) vmap s.ram)
    → CanRequest 3 s.pmm
    → Stage vmap level 3 s (paging_map vmap v paddr flags s)
Stage-map vmap v paddr flags s ok free can =
    let (level', parent', machine, leaves) = map-Leaves vmap v paddr flags s ok free can in
    record {
      level' = level';
      parent' = parent';
      machine = machine;
      leaves = leaves;
      plain = map-HugeFree vmap v paddr flags s ok free can;
    }

pub Stage-unmap :
    (vmap v : ℕ) {level parent : ℕ → ℕ} (s : Machine)
    → IsMachine vmap level parent s
    → HugeFree (walk 3 (vaddr_to_index v) vmap s.ram)
    → Stage vmap level 0 s (paging_unmap vmap v s)
Stage-unmap vmap v {level} {parent} s ok free = record {
  level' = level;
  parent' = parent;
  machine = (unmap_lem vmap v s ok free).2;
  leaves = unmap-Leaves vmap v s ok free;
  plain = λ w h. subst HugeFree (sym (unmap-walk vmap v s ok free w)) h;
}

-- The machine after a page was handed out, with the tables as they were.
Leaves-requested :
    (level : ℕ → ℕ) (s : Machine) (p : Supplied s.pmm) → Leaves level level 1 s (requested s)
Leaves-requested level s p = record {
  outside = λ m lm h e. (e, λ j lj. refl);
  above = λ u j lj lu there. (refl, refl);
  locked_on = λ m h. ground (arith, p.grant.bits m);
  budget = omega (arith, p.one_less);
  table = refl;
}

-- What a request for `v` brings when `v` has no page.
pub record Brought (vmap v flags : ℕ) (level : ℕ → ℕ) (s t : Machine) : Type 0 where
  pub stage : Stage vmap level 4 s t
  pub frame : ℕ
  pub was_free : locked s.pmm frame ≡ false
  pub own : paging_get vmap v t ≡ bit_or (bit_or (0x1000 * frame) flags) paging_present
  pub others : (w : ℕ) → Apart v w → paging_get vmap w t ≡ paging_get vmap w s

pub Brought-request :
    (vmap v flags : ℕ) {level parent : ℕ → ℕ} (s : Machine)
    → IsMachine vmap level parent s
    → HugeFree (walk 3 (vaddr_to_index v) vmap s.ram)
    → locked s.pmm 0 ≡ true
    → 4 ≤ available s.pmm
    → present (paging_get vmap v s) ≡ false
    → Brought vmap v flags level s (request_page vmap v flags s)
Brought-request vmap v flags {level} {parent} s ok free z enough gone =
    let p = supply_lem s.pmm ok.pmm (omega arith) in
    let can_four = CanRequest-available 4 s.pmm ok.pmm z enough in
    let r = requested s in
    let a = (pmm_request_pages 1 s.pmm).0 in
    let ok' : IsMachine vmap level parent r = granted-IsMachine s p.first ok p.grant in
    let can = can_four.1 in
    let st = Stage-map vmap v a flags r ok' free can in
    let t = paging_map vmap v a flags r in
    let is : request_page vmap v flags s ≡ t =
      request_page-map vmap v flags s ok free can_four gone in
    subst (Brought vmap v flags level s) (sym is) (record {
      stage = record {
        level' = st.level';
        parent' = st.parent';
        machine = st.machine;
        leaves =
            Leaves-trans level level st.level' 1 3 s r t (Leaves-requested level s p) st.leaves;
        plain = st.plain;
      };
      frame = p.first;
      was_free = p.grant.was_free p.first (omega arith) (omega arith);
      own =
          get-map vmap v a flags r ok' free can
          ∙ ap (λ (x : ℕ). bit_or (bit_or x flags) paging_present) p.at;
      others = λ w apart.
          get-map_other vmap v a flags r ok' free can w apart
          ∙ get-requested vmap v flags s ok free can_four gone w;
    })

pub vmm_request_one :
    (vmap v flags : ℕ) (s : Machine)
    → v < 2 ^ 64
    → vmm_request_at vmap v 1 flags s ≡ request_page vmap v flags s
unfolding vmm_request_at request_rounds
vmm_request_one vmap v flags s lt =
    ap (λ (x : ℕ). request_page vmap x flags s) {x = add64 v (mul64 0 0x1000)} {y = v} (omega arith)
