-- ===== src/Memory/Addr/Tests.antt =====
-- Runs of addrutil.c, and the theorems at concrete inputs.
use shed_os.Base.{ℕ, ◌*◌, ◌%◌, ◌^◌, ◌≤◌, ◌≡◌, refl, arith}
use shed_os.Memory.Addr.{addr_page_align_up, addr_page_align_down, addr_align_down}
use shed_os.Memory.Addr.Align.{align_down_greatest}

page_align_up_run : addr_page_align_up 0x1001 ≡ 0x2000
unfolding addr_page_align_up
page_align_up_run = refl

page_align_down_run : addr_page_align_down 0x1fff ≡ 0x1000
unfolding addr_page_align_down
page_align_down_run = refl

align_down_greatest_example :
    (addr_align_down 0x1fff (2 ^ 12) % 2 ^ 12 ≡ 0)
    × (addr_align_down 0x1fff (2 ^ 12) ≤ 0x1fff)
    × ((m : ℕ) → m * 2 ^ 12 ≤ 0x1fff → m * 2 ^ 12 ≤ addr_align_down 0x1fff (2 ^ 12))
align_down_greatest_example = align_down_greatest 0x1fff 12 (omega arith) (omega arith)
