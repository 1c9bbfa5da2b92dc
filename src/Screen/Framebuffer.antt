-- ===== src/Screen/Framebuffer.antt =====
-- kernel/src/terminal/framebuffer.c: pixels in a buffer and on the screen. Coordinates have eight added
-- to them, so that a caller may pass -8 and up: here the sum is passed, as `x8` and `y8`.
use shed_os.Base.{ℕ, zero, suc, ◌+◌, ◌-◌, ◌*◌, ◌/◌, update}

pub record Framebuffer : Type 0 where
  pub fb_width : ℕ
  pub fb_height : ℕ
  pub fb_pitch : ℕ
  pub fb_buffer : ℕ → ℕ
  pub fb_mmio : ℕ → ℕ

-- `y * fb_pitch / 4 + x`
abbrev pub pixel_index : Framebuffer → (x8 y8 : ℕ) → ℕ
pixel_index fb x8 y8 = y8 * fb.fb_pitch / 4 + x8

-- `framebuffer_putpixel(x8 - 8, y8 - 8, px)`
unfoldable pub putpixel8 : (x8 y8 px : ℕ) → Framebuffer → Framebuffer
putpixel8 x8 y8 px fb = record fb {
  fb_buffer = update fb.fb_buffer (pixel_index fb x8 y8) px;
  fb_mmio = update fb.fb_mmio (pixel_index fb x8 y8) px;
}

unfoldable pub framebuffer_putpixel : (x y px : ℕ) → Framebuffer → Framebuffer
unfolding putpixel8
framebuffer_putpixel x y px fb = putpixel8 (x + 8) (y + 8) px fb

unfoldable pub framebuffer_getpixel : (x y : ℕ) → Framebuffer → ℕ
framebuffer_getpixel x y fb = fb.fb_buffer (pixel_index fb (x + 8) (y + 8))

-- The inner loop over the eight rows, and the outer one over the columns.
unfoldable pub border_rows : ℕ → (y x color : ℕ) → Framebuffer → Framebuffer
border_rows zero y x color fb = fb
border_rows (suc left) y x color fb =
    border_rows left (y + 1) x color
      (putpixel8 x (y + fb.fb_height - 8) color (putpixel8 x y color fb))

unfoldable pub border_across : ℕ → (x color : ℕ) → Framebuffer → Framebuffer
border_across zero x color fb = fb
border_across (suc left) x color fb = border_across left (x + 1) color (border_rows 8 0 x color fb)

unfoldable pub border_cols : ℕ → (x y color : ℕ) → Framebuffer → Framebuffer
border_cols zero x y color fb = fb
border_cols (suc left) x y color fb =
    border_cols left (x + 1) y color
      (putpixel8 (x + fb.fb_width - 8) y color (putpixel8 x y color fb))

unfoldable pub border_down : ℕ → (y color : ℕ) → Framebuffer → Framebuffer
border_down zero y color fb = fb
border_down (suc left) y color fb = border_down left (y + 1) color (border_cols 8 0 y color fb)

unfoldable pub framebuffer_drawborder : ℕ → Framebuffer → Framebuffer
framebuffer_drawborder color fb =
    border_down fb.fb_height 0 color (border_across fb.fb_width 0 color fb)

-- `buffer` is what the memory that `malloc` answers held, `mmio` what the screen shows.
unfoldable pub framebuffer_initialize :
    (framebuffer_width framebuffer_height framebuffer_pitch : ℕ)
    → (buffer mmio : ℕ → ℕ) → Framebuffer
framebuffer_initialize framebuffer_width framebuffer_height framebuffer_pitch buffer mmio =
    framebuffer_drawborder 0x1c8aa6 (record {
      fb_width = framebuffer_width;
      fb_height = framebuffer_height;
      fb_pitch = framebuffer_pitch;
      fb_buffer = buffer;
      fb_mmio = mmio;
    })
