-- ===== src/Memory/Cow/Own.antt =====
-- `cow_copy_on_write` (cow.c): a page of its own in place of a shared one.
use shed_os.Base.{
  ℕ, ◌*◌, ◌/◌, ◌%◌, ◌^◌, ◌<◌, ◌≤◌, ◌≡◌, ◌≢◌, refl, sym, ap, ◌∙◌, subst, Bool, true, false, arith,
  bit_and, bit_or, List, [], ◌∷◌,
}
use shed_os.Base.Bits.{and_low_mask, and_high_mask, and_digit, or_digit, or_zero}
use shed_os.Base.Word.{not64}
use shed_os.Memory.Pmm.Lock.{locked}
use shed_os.Memory.Pmm.Supply.{available}
use shed_os.Memory.Paging.{
  Machine, present, slot, paging_get, paging_map, paging_unmap, paging_present, paging_writable,
  vaddr_to_index,
}
use shed_os.Memory.Paging.Entry.{page, vaddr_to_index-lt}
use shed_os.Memory.Paging.Walk.{walk, HugeFree}
use shed_os.Memory.Paging.Descend.{IsMachine}
use shed_os.Memory.Paging.Leaves.{Leaves}
use shed_os.Memory.Paging.Map.{CanRequest, CanRequest-available}
use shed_os.Memory.Paging.Get.{Apart, get-map, get-map_other}
use shed_os.Memory.Paging.Unmap.{Unmapped, unmap_lem}
use shed_os.Memory.Vmm.{vmm_request_at, request_page}
use shed_os.Memory.Cow.{kernel_copy_vaddr, Copy, cow_flags, cow_prepared, cow_copy_on_write}
use shed_os.Memory.Cow.Stage.{
  Stage, Stage-map, Stage-unmap, Brought, Brought-request, vmm_request_one,
}
use shed_os.Memory.Cow.Alike.{map_alike, unmap_alike}

-- The window's entry in the kernel's table, in frame `k`, and in `vmap` are the same and lead to a table.
abbrev pub Shared : (vmap k : ℕ) → Machine → Type 0
Shared vmap k s =
    (s.ram (slot (page k) (vaddr_to_index kernel_copy_vaddr 3))
      ≡ s.ram (slot vmap (vaddr_to_index kernel_copy_vaddr 3)))
    × (present (s.ram (slot vmap (vaddr_to_index kernel_copy_vaddr 3))) ≡ true)
    × (s.kernel_table ≡ page k)

module _ (vmap k : ℕ) (level level' : ℕ → ℕ) (n : ℕ) (s t : Machine) (small : k < 2 ^ 35)
    (held : locked s.pmm k ≡ true) (apart : level (page k) ≡ 0) (top : level vmap ≡ 4) where
  Shared-on : Leaves level level' n s t → Shared vmap k s → Shared vmap k t
  Shared-on l (same, there, table) =
      let i = vaddr_to_index kernel_copy_vaddr 3 in
      let lt = vaddr_to_index-lt kernel_copy_vaddr 3 in
      let kernel = (l.outside k small held apart).1 i lt in
      let own = (l.above vmap i lt (omega arith) there).1 in
      (kernel ∙ (same ∙ sym own), ap present own ∙ there, l.table ∙ table)

-- What copy on write does for the page at `v`, whose entry is `entry`: `t` is the machine in which the
-- page is copied, `u` the one afterwards.
pub record Copied (vmap v entry : ℕ) (s t u : Machine) : Type 0 where
  pub frame : ℕ
  pub was_free : locked s.pmm frame ≡ false
  -- While the page is copied, the window shows the old frame, and the address a new one.
  pub window :
      paging_get vmap kernel_copy_vaddr t
      ≡ bit_or (bit_or (bit_and entry (not64 0xfff)) 0) paging_present
  pub target :
      paging_get vmap v t ≡ bit_or (bit_or (0x1000 * frame) (cow_flags entry)) paging_present
  -- Afterwards the window is shut, and no other page has changed.
  pub shut : paging_get vmap kernel_copy_vaddr u ≡ 0
  pub own : paging_get vmap v u ≡ bit_or (bit_or (0x1000 * frame) (cow_flags entry)) paging_present
  pub others :
      (w : ℕ) → Apart v w → Apart kernel_copy_vaddr w → paging_get vmap w u ≡ paging_get vmap w s
  pub level' : ℕ → ℕ
  pub parent' : ℕ → ℕ
  pub machine : IsMachine vmap level' parent' u

Apart-sym : (v w : ℕ) → Apart v w → Apart w v
Apart-sym v w (k, le, ne) = (k, le, λ e. ne (sym e))

module _ (vmap v entry k : ℕ) {level parent : ℕ → ℕ} (s : Machine)
    (ok : IsMachine vmap level parent s) (free : HugeFree (walk 3 (vaddr_to_index v) vmap s.ram))
    (window_free : HugeFree (walk 3 (vaddr_to_index kernel_copy_vaddr) vmap s.ram))
    (apart : Apart kernel_copy_vaddr v) (small : k < 2 ^ 35) (held : locked s.pmm k ≡ true)
    (no_table : level (page k) ≡ 0) (shared : Shared vmap k s) (zero_held : locked s.pmm 0 ≡ true)
    (enough : 7 ≤ available s.pmm) (lt : v < 2 ^ 64) where
  abbrev w : ℕ
  w = kernel_copy_vaddr

  abbrev f : ℕ
  f = bit_and entry (not64 0xfff)

  can : CanRequest 3 s.pmm
  can = CanRequest-available 3 s.pmm ok.pmm zero_held (omega (arith, enough))

  abbrev s1 : Machine
  s1 = paging_map vmap w f 0 s

  st1 : Stage vmap level 3 s s1
  st1 = Stage-map vmap w f 0 s ok window_free can

  abbrev s2 : Machine
  s2 = paging_unmap vmap v s1

  st2 : Stage vmap st1.level' 0 s1 s2
  st2 = Stage-unmap vmap v s1 st1.machine (st1.plain v free)

  unmapped : Unmapped vmap v st1.level' st1.parent' s1 s2
  unmapped = unmap_lem vmap v s1 st1.machine (st1.plain v free)

  abbrev s3 : Machine
  s3 = request_page vmap v (cow_flags entry) s2

  brought : Brought vmap v (cow_flags entry) st2.level' s2 s3
  brought =
      Brought-request vmap v (cow_flags entry) s2 st2.machine (st2.plain v (st1.plain v free))
        (st2.leaves.locked_on 0 (st1.leaves.locked_on 0 zero_held))
        (omega (arith, st1.leaves.budget, st2.leaves.budget, enough)) (ap present unmapped.0)

  st3 : Stage vmap st2.level' 4 s2 s3
  st3 = brought.stage

  -- The kernel's entry for the window stays that of `vmap`.
  Shared-after : Shared vmap k s3
  Shared-after =
      let one =
        Shared-on vmap k level st1.level' 3 s s1 small held no_table ok.tree.top st1.leaves
          shared in
      let none1 = (st1.leaves.outside k small held no_table).0 in
      let held1 = st1.leaves.locked_on k held in
      let two =
        Shared-on vmap k st1.level' st2.level' 0 s1 s2 small held1 none1 st1.machine.tree.top
          st2.leaves one in
      let none2 = (st2.leaves.outside k small held1 none1).0 in
      Shared-on vmap k st2.level' st3.level' 4 s2 s3 small (st2.leaves.locked_on k held1) none2
        st2.machine.tree.top st3.leaves two

  prepared_is : cow_prepared vmap v entry s ≡ s3
  unfolding cow_prepared
  prepared_is =
      ap (λ (t : Machine). vmm_request_at vmap v 1 (cow_flags entry) (paging_unmap vmap v t))
        (ap (λ (t : ℕ). paging_map t w f 0 s) shared.2
          ∙ map_alike (page k) vmap w s shared.0 shared.1 f 0)
      ∙ vmm_request_one vmap v (cow_flags entry) s2 lt

  abbrev s4 : Machine
  s4 = paging_unmap vmap w s3

  shut_is : paging_unmap s3.kernel_table w s3 ≡ s4
  shut_is =
      ap (λ (t : ℕ). paging_unmap t w s3) Shared-after.2
      ∙ unmap_alike (page k) vmap w s3 Shared-after.0 Shared-after.1

  closed : Unmapped vmap w st3.level' st3.parent' s3 s4
  closed = unmap_lem vmap w s3 st3.machine (st3.plain w (st2.plain w (st1.plain w window_free)))

  window_open : paging_get vmap w s3 ≡ bit_or (bit_or f 0) paging_present
  window_open =
      brought.others w (Apart-sym w v apart)
      ∙ (unmapped.1 w (Apart-sym w v apart) ∙ get-map vmap w f 0 s ok window_free can)

  Copied-prepared : Copied vmap v entry s s3 s4
  Copied-prepared = record {
    frame = brought.frame;
    was_free = ground (
      arith,
      brought.was_free,
      st1.leaves.locked_on brought.frame,
      st2.leaves.locked_on brought.frame,
    );
    window = window_open;
    target = brought.own;
    shut = closed.0;
    own = closed.1 v apart ∙ brought.own;
    others = λ x av aw.
        closed.1 x aw
        ∙ (brought.others x av
            ∙ (unmapped.1 x av ∙ get-map_other vmap w f 0 s ok window_free can x aw));
    level' = st3.level';
    parent' = st3.parent';
    machine = closed.2;
  }

abbrev pub page_of : ℕ → ℕ
page_of vaddr = bit_and vaddr (not64 0xfff)

-- The machine after the copy.
abbrev finished : (vmap vaddr : ℕ) → Machine → Machine
finished vmap vaddr s =
    let t = cow_prepared vmap (page_of vaddr) (paging_get vmap (page_of vaddr) s) s in
    paging_unmap t.kernel_table kernel_copy_vaddr t

-- A fault was served.
pub record Served (vmap vaddr : ℕ) (s : Machine) (out : Bool × List Copy × Machine) : Type 0 where
  pub answer : out.0 ≡ true
  pub copies : out.1 ≡ record { dst = page_of vaddr; src = kernel_copy_vaddr; n = 0x1000 } ∷ []
  pub copied :
      Copied vmap
        (page_of vaddr)
        (paging_get vmap (page_of vaddr) s)
        s
        (cow_prepared vmap (page_of vaddr) (paging_get vmap (page_of vaddr) s) s)
        out.2
  pub writable : bit_and (paging_get vmap (page_of vaddr) out.2) paging_writable ≢ 0

-- The second bit survives.
writable_lem :
    (x e : ℕ) → bit_and (bit_or (bit_or x (cow_flags e)) paging_present) paging_writable ≢ 0
unfolding cow_flags
writable_lem x e =
    let y = bit_and e 0xfff in
    let g = bit_and (bit_or y 2) 0xff in
    let z = bit_or (bit_or x g) 1 in
    let set : g / 2 % 2 ≡ 1 =
      omega (arith, and_low_mask 8 (bit_or y 2), or_digit y 2, or_digit (y / 2) 1) in
    let kept : z / 2 % 2 ≡ 1 = omega (
      arith,
      or_digit (bit_or x g) 1,
      or_zero (bit_or x g / 2),
      or_digit x g,
      or_digit (x / 2) (g / 2),
      set,
    ) in
    λ none_left. omega (arith, and_digit z 2, and_low_mask 1 (z / 2), kept)

page_of-lt : (vaddr : ℕ) → vaddr < 2 ^ 64 → page_of vaddr < 2 ^ 64
page_of-lt vaddr lt = omega (arith, and_high_mask 12 52 vaddr lt)

served_is :
    (vmap vaddr : ℕ) (s : Machine)
    → present (paging_get vmap (page_of vaddr) s) ≡ true
    → cow_copy_on_write vmap vaddr s ≡ (
      true,
      record { dst = page_of vaddr; src = kernel_copy_vaddr; n = 0x1000 } ∷ [],
      finished vmap vaddr s,
    )
unfolding cow_copy_on_write
served_is vmap vaddr s there = rw there refl

-- A page fault of a task on a page that is there, in an address space in order that shares the
-- kernel's entry for the window, with page 0 held, seven pages to be had, no huge page on the way
-- to the page or to the window, the page not behind the window, and the kernel's table a held page
-- that is no table of the space: whether or not the page was writable before, it gets a frame that
-- nobody held, with the flags of before and the right to write; while its 4096 bytes are copied
-- the window shows the old frame; afterwards the window is shut, every other page reads as before,
-- and the address space is in order.
pub cow_lem :
    (vmap vaddr k : ℕ) {level parent : ℕ → ℕ} (s : Machine)
    → vaddr < 2 ^ 64
    → IsMachine vmap level parent s
    → present (paging_get vmap (page_of vaddr) s) ≡ true
    → HugeFree (walk 3 (vaddr_to_index (page_of vaddr)) vmap s.ram)
    → HugeFree (walk 3 (vaddr_to_index kernel_copy_vaddr) vmap s.ram)
    → Apart kernel_copy_vaddr (page_of vaddr)
    → k < 2 ^ 35
    → locked s.pmm k ≡ true
    → level (page k) ≡ 0
    → Shared vmap k s
    → locked s.pmm 0 ≡ true
    → 7 ≤ available s.pmm
    → Served vmap vaddr s (cow_copy_on_write vmap vaddr s)
cow_lem vmap vaddr k s lv ok there free window_free apart small held no_table shared z enough =
    let v = page_of vaddr in
    let entry = paging_get vmap v s in
    let lt = page_of-lt vaddr lv in
    let c =
      Copied-prepared vmap v entry k s ok free window_free apart small held no_table shared z enough
        lt in
    let is =
      prepared_is vmap v entry k s ok free window_free apart small held no_table shared z enough
        lt in
    let shut =
      shut_is vmap v entry k s ok free window_free apart small held no_table shared z enough lt in
    let done : Copied vmap v entry s (cow_prepared vmap v entry s) (finished vmap vaddr s) =
      subst
        (λ (t : Machine). Copied vmap v entry s t (paging_unmap t.kernel_table kernel_copy_vaddr t))
        (sym is) (subst (Copied vmap v entry s _) (sym shut) c) in
    subst (Served vmap vaddr s) (sym (served_is vmap vaddr s there)) (record {
      answer = refl;
      copies = refl;
      copied = done;
      writable =
          subst (λ (x : ℕ). bit_and x paging_writable ≢ 0) (sym done.own)
            (writable_lem (0x1000 * done.frame) entry);
    })
