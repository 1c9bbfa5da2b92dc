-- ===== src/Memory/Cow.antt =====
-- kernel/src/memory/cow.c: a page of its own for a task that writes to a shared one. The `memcpy`
-- goes through the page tables that are loaded, so the copy is recorded as an effect: from where, to
-- where, and how many bytes.
pub mod Alike
pub mod Stage
pub mod Own
use shed_os.Base.{ℕ, Bool, true, false, not, bit_and, bit_or, if◌then◌else◌, List, [], ◌∷◌}
use shed_os.Base.Word.{not64}
use shed_os.Memory.Paging.{Machine, present, paging_get, paging_map, paging_unmap, paging_writable}
use shed_os.Memory.Vmm.{vmm_request_at}

abbrev pub kernel_copy_vaddr : ℕ
kernel_copy_vaddr = 0xffff_8102_0000_0000

pub record Copy : Type 0 where
  pub dst : ℕ
  pub src : ℕ
  pub n : ℕ

-- The flags, a `uint8_t` parameter of `vmm_request_at`: the entry's low byte with WRITABLE.
unfoldable pub cow_flags : ℕ → ℕ
cow_flags entry = bit_and (bit_or (bit_and entry 0xfff) paging_writable) 0xff

-- The machine in which the `memcpy` runs: the old frame at `kernel_copy_vaddr`, a new one at the page.
unfoldable pub cow_prepared : (vmap offending_page entry : ℕ) → Machine → Machine
cow_prepared vmap offending_page entry s =
    let s1 = paging_map s.kernel_table kernel_copy_vaddr (bit_and entry (not64 0xfff)) 0 s in
    let s2 = paging_unmap vmap offending_page s1 in
    vmm_request_at vmap offending_page 1 (cow_flags entry) s2

-- `vmap` is the table of the current task. The answer, the copies made, and the machine.
unfoldable pub cow_copy_on_write : (vmap vaddr : ℕ) → Machine → Bool × List Copy × Machine
cow_copy_on_write vmap vaddr s =
    let offending_page = bit_and vaddr (not64 0xfff) in
    let entry = paging_get vmap offending_page s in
    let s3 = cow_prepared vmap offending_page entry s in
    if not (present entry) then (false, [], s) else (
      true,
      record { dst = offending_page; src = kernel_copy_vaddr; n = 0x1000 } ∷ [],
      paging_unmap s3.kernel_table kernel_copy_vaddr s3,
    )
