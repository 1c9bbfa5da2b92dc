-- ===== src/Boot/Start/Size.antt =====
-- The size of the terminal that start.c asks for, from the framebuffer's `uint16_t` fields.
use shed_os.Base.{ℕ, zero, suc, ◌-◌, ◌*◌, ◌/◌, ◌^◌, ◌<◌, ◌≤◌, arith}
use shed_os.Boot.Start.{term_size}

times_le : (m k d : ℕ) → k ≤ m → k * d ≤ m * d
times_le zero zero d le = omega arith
times_le zero (suc k) d le = absurd (omega arith)
times_le (suc m) zero d le = omega arith
times_le (suc m) (suc k) d le = omega (arith, times_le m k d (omega arith))

-- The number of characters on the screen is far below what an `int` holds.
term_size-lt :
    (framebuffer_width framebuffer_height : ℕ)
    → framebuffer_width < 2 ^ 16
    → framebuffer_height < 2 ^ 16
    → (term_size framebuffer_width framebuffer_height).0
        * (term_size framebuffer_width framebuffer_height).1
      < 2 ^ 25
unfolding term_size
term_size-lt framebuffer_width framebuffer_height w h = omega (
  arith,
  times_le 8190 ((framebuffer_width - 16) / 8) ((framebuffer_height - 16) / 16) (omega arith),
)
