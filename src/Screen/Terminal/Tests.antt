-- ===== src/Screen/Terminal/Tests.antt =====
-- The theorems of terminal.c at a small screen.
use shed_os.Base.{refl, true, arith}
use shed_os.Screen.Terminal.{Terminal, terminal_putchar}
use shed_os.Screen.Terminal.Cursor.{OnScreen, putchar-OnScreen}

-- Three lines of four characters, full.
abbrev full : Terminal
full = record {
  width = 4;
  height = 3;
  chr_index = 12;
  fg = 0xffffff;
  bg = 0;
  isready = true;
  fb = record {
    fb_width = 48;
    fb_height = 64;
    fb_pitch = 192;
    fb_buffer = λ i. 0;
    fb_mmio = λ i. 0;
  };
}

full-OnScreen : OnScreen full
full-OnScreen = record {
  ready = refl;
  wide = omega arith;
  high = omega arith;
  cursor = omega arith;
}

putchar-OnScreen_example : OnScreen (terminal_putchar (λ c y. 0x18) 65 full)
putchar-OnScreen_example = putchar-OnScreen full full-OnScreen (λ c y. 0x18) 65
