-- ===== src/Memory/Cow/Alike.antt =====
-- Address spaces that share a top-level entry share what stands below it: `paging_map` and
-- `paging_unmap` (kernel/src/memory/paging.c) do the same through either, which cow.c relies on.
use shed_os.Base.{ℕ, ◌≡◌, refl, ap, true, bit_or, update}
use shed_os.Memory.Paging.{
  Machine, present, slot, descend, map_walk, paging_map, unmap_walk, paging_unmap, vaddr_to_index,
  paging_flush_tlb, paging_present,
}

module _ (t u v : ℕ) (s : Machine)
    (same : s.ram (slot t (vaddr_to_index v 3)) ≡ s.ram (slot u (vaddr_to_index v 3)))
    (there : present (s.ram (slot u (vaddr_to_index v 3))) ≡ true) where
  descend_alike : descend v (vaddr_to_index v 3) t s ≡ descend v (vaddr_to_index v 3) u s
  unfolding descend
  descend_alike = rw (same, there) refl

  pub map_alike : (paddr flags : ℕ) → paging_map t v paddr flags s ≡ paging_map u v paddr flags s
  unfolding paging_map map_walk
  map_alike paddr flags = ap finish descend_alike
    where
      finish : ℕ × Machine → Machine
      finish q =
          let (leaf, s') = map_walk 2 v q.0 q.1 in
          paging_flush_tlb v (record s' {
            ram =
                update s'.ram (slot leaf (vaddr_to_index v 0))
                  (bit_or (bit_or paddr flags) paging_present);
          })

  pub unmap_alike : paging_unmap t v s ≡ paging_unmap u v s
  unfolding paging_unmap unmap_walk
  unmap_alike = rw same refl
