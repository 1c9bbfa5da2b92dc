-- ===== src/Interrupts/Dispatch/Faults.antt =====
-- Which faults of interrupts.c let the task go on.
use shed_os.Base.{
  ℕ, true, false, sym, subst, eq_cases, ◌<◌, ◌≤◌, ◌^◌, ◌≢◌, List, ◌≡◌, inl, inr, refl, ◌∙◌, Bool,
  Bool-cases, ◌==◌, ◌&&◌, ◌||◌, if◌then◌else◌, bit_and, arith,
}
use shed_os.Base.Word.{not64}
use shed_os.Memory.Addr.{ptr_is_user}
use shed_os.Memory.Paging.{Machine, present, paging_get, vaddr_to_index}
use shed_os.Memory.Cow.{kernel_copy_vaddr, Copy, cow_copy_on_write}
use shed_os.Memory.Cow.Own.{Shared, page_of, Served, cow_lem}
use shed_os.Memory.Pmm.Lock.{locked}
use shed_os.Memory.Pmm.Supply.{available}
use shed_os.Memory.Paging.Entry.{page}
use shed_os.Memory.Paging.Walk.{walk, HugeFree}
use shed_os.Memory.Paging.Descend.{IsMachine}
use shed_os.Memory.Paging.Get.{Apart}
use shed_os.Interrupts.Dispatch.{Ending, resume, halt, exception_handle}

-- The faults that are answered: a debug exception, and a page fault at a user address that has a page.
abbrev answered : (int_no cr2 vmap : ℕ) → Machine → Bool
answered int_no cr2 vmap s =
    (int_no == 1)
    || ((int_no == 14)
        && (ptr_is_user cr2 && present (paging_get vmap (bit_and cr2 (not64 0xfff)) s)))

cow_answer :
    (vmap vaddr : ℕ) (s : Machine)
    → ((cow_copy_on_write vmap vaddr s).0
        ≡ present (paging_get vmap (bit_and vaddr (not64 0xfff)) s))
      × ((cow_copy_on_write vmap vaddr s).2 ≡ (
          if present (paging_get vmap (bit_and vaddr (not64 0xfff)) s)
          then (cow_copy_on_write vmap vaddr s).2
          else s))
unfolding cow_copy_on_write
cow_answer vmap vaddr s =
    elim (Bool-cases (present (paging_get vmap (bit_and vaddr (not64 0xfff)) s))) [
      | inl p ↦ rw p (refl, refl)
      | inr p ↦ rw p (refl, refl)
    ]

-- Which exceptions are answered, and that no other changes the page tables.
exception_lem :
    (int_no cr2 vmap : ℕ) (s : Machine)
    → ((exception_handle int_no cr2 vmap s).0
        ≡ (if answered int_no cr2 vmap s then resume else halt))
      × ((exception_handle int_no cr2 vmap s).2 ≡ (
          if answered int_no cr2 vmap s && (int_no == 14)
          then (cow_copy_on_write vmap cr2 s).2
          else s))
unfolding exception_handle
exception_lem int_no cr2 vmap s =
    let (asked, kept) = cow_answer vmap cr2 s in
    elim (Bool-cases (present (paging_get vmap (bit_and cr2 (not64 0xfff)) s))) [
      | inl p ↦ (ground (arith, asked ∙ p), ground (arith, asked ∙ p))
      | inr p ↦ (ground (arith, asked ∙ p), ground (arith, asked ∙ p))
    ]

-- What a page fault of a task leads to: it goes on, after the page was replaced by one of its own.
pub record Answered (vmap cr2 : ℕ) (s : Machine) (out : Ending × List Copy × Machine) : Type 0 where
  pub ends : out.0 ≡ resume
  pub served : Served vmap cr2 s (true, out.1, out.2)

fault_is :
    (cr2 vmap : ℕ) (s : Machine)
    → ptr_is_user cr2 ≡ true
    → (cow_copy_on_write vmap cr2 s).0 ≡ true
    → exception_handle 14 cr2 vmap s
      ≡ (resume, (cow_copy_on_write vmap cr2 s).1, (cow_copy_on_write vmap cr2 s).2)
unfolding exception_handle
fault_is cr2 vmap s user copied = rw (user, copied) refl

-- In an address space in order that shares the kernel's entry for the copy window, with page 0
-- held, seven pages to be had, no huge page on the way to the page or to the window, the page not
-- behind the window, and the kernel's table a held page that is no table of the space: a page
-- fault at a user address that has a page is answered. The task goes on, and its page has a frame
-- that nobody held, with the flags of before and the right to write, whether or not it could be
-- written to before it was shared; no other page but the window has changed, and the address space
-- is in order.
pub fault-Answered :
    (vmap cr2 k : ℕ) {level parent : ℕ → ℕ} (s : Machine)
    → ptr_is_user cr2 ≡ true
    → cr2 < 2 ^ 64
    → IsMachine vmap level parent s
    → present (paging_get vmap (page_of cr2) s) ≡ true
    → HugeFree (walk 3 (vaddr_to_index (page_of cr2)) vmap s.ram)
    → HugeFree (walk 3 (vaddr_to_index kernel_copy_vaddr) vmap s.ram)
    → Apart kernel_copy_vaddr (page_of cr2)
    → k < 2 ^ 35
    → locked s.pmm k ≡ true
    → level (page k) ≡ 0
    → Shared vmap k s
    → locked s.pmm 0 ≡ true
    → 7 ≤ available s.pmm
    → Answered vmap cr2 s (exception_handle 14 cr2 vmap s)
fault-Answered vmap cr2 k s user lt ok there free window apart small held no_table shared z enough =
    let c =
      cow_lem vmap cr2 k s lt ok there free window apart small held no_table shared z enough in
    subst (Answered vmap cr2 s) (sym (fault_is cr2 vmap s user c.answer)) (record {
      ends = refl;
      served = record {
        answer = refl;
        copies = c.copies;
        copied = c.copied;
        writable = c.writable;
      };
    })

-- Any exception but these is not answered: the machine halts, with the page tables as they were.
halt_lem :
    (int_no cr2 vmap : ℕ) (s : Machine)
    → int_no ≢ 1
    → (int_no ≡ 14 → present (paging_get vmap (page_of cr2) s) ≡ false)
    → ((exception_handle int_no cr2 vmap s).0 ≡ halt) × ((exception_handle int_no cr2 vmap s).2 ≡ s)
halt_lem int_no cr2 vmap s ne absent =
    let e = exception_lem int_no cr2 vmap s in
    elim (eq_cases int_no 14) [
      | inl fault ↦ (ground (arith, e, absent fault, ne), ground (arith, e, absent fault, ne))
      | inr other ↦ (ground (arith, e, other, ne), ground (arith, e, other, ne))
    ]
