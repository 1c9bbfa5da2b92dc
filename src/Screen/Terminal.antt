-- ===== src/Screen/Terminal.antt =====
-- kernel/src/terminal/terminal.c: a grid of characters that scrolls. `font` gives the rows of the 8 x 8
-- glyphs (the table of font.c). The fields are `int` in the source. None of them is ever negative, and
-- width * height does not overflow: Boot/Start/Size bounds it by 2 ^ 25 for the sizes that start.c gives.
pub mod Cursor
mod Tests
use shed_os.Base.{
  ℕ, zero, suc, ◌+◌, ◌-◌, ◌*◌, ◌/◌, ◌%◌, ◌^◌, Option, none, some, Bool, true, false, not, ◌==◌, ltb,
  leb, if◌then◌else◌,
}
use shed_os.Screen.Framebuffer.{Framebuffer, framebuffer_putpixel, framebuffer_getpixel}

pub record Terminal : Type 0 where
  pub width : ℕ
  pub height : ℕ
  pub chr_index : ℕ
  pub fg : ℕ
  pub bg : ℕ
  pub isready : Bool
  pub fb : Framebuffer

-- `font_is_set`: characters below a space, and those with a sign, have no glyph.
unfoldable pub font_is_set : (ℕ → ℕ → ℕ) → (c x y : ℕ) → Bool
font_is_set font c x y =
    if ltb c 32 then false else if leb 128 c then false else not (font c y / 2 ^ x % 2 == 0)

unfoldable pub terminal_setcolor : (fg bg : ℕ) → Terminal → Terminal
terminal_setcolor fg bg t = record t { fg = fg; bg = bg }

-- The loops of `terminal_scroll`: pixels of one line, and lines.
unfoldable pub copy_line : ℕ → (px py : ℕ) → Framebuffer → Framebuffer
copy_line zero px py fb = fb
copy_line (suc left) px py fb =
    copy_line left (px + 1) py
      (framebuffer_putpixel px py (framebuffer_getpixel px (py + 16) fb) fb)

unfoldable pub copy_lines : ℕ → (py columns : ℕ) → Framebuffer → Framebuffer
copy_lines zero py columns fb = fb
copy_lines (suc left) py columns fb = copy_lines left (py + 1) columns (copy_line columns 0 py fb)

unfoldable pub clear_line : ℕ → (px py : ℕ) → Framebuffer → Framebuffer
clear_line zero px py fb = fb
clear_line (suc left) px py fb = clear_line left (px + 1) py (framebuffer_putpixel px py 0 fb)

unfoldable pub clear_lines : ℕ → (py columns : ℕ) → Framebuffer → Framebuffer
clear_lines zero py columns fb = fb
clear_lines (suc left) py columns fb =
    clear_lines left (py + 1) columns (clear_line columns 0 py fb)

unfoldable pub terminal_scroll : Terminal → Terminal
terminal_scroll t = if not t.isready then t else record t {
  fb =
      clear_lines 16 ((t.height - 1) * 16) (t.width * 8)
        (copy_lines ((t.height - 1) * 16) 0 (t.width * 8) t.fb);
  chr_index = t.chr_index - t.width;
}

-- The pixels of a glyph, column by column.
unfoldable pub draw_column :
    ℕ → (iy ix ci_x ci_y c fg bg : ℕ) → (ℕ → ℕ → ℕ) → Framebuffer → Framebuffer
draw_column zero iy ix ci_x ci_y c fg bg font fb = fb
draw_column (suc left) iy ix ci_x ci_y c fg bg font fb =
    draw_column left (iy + 1) ix ci_x ci_y c fg bg font (
      framebuffer_putpixel (ci_x * 8 + ix) (ci_y * 16 + iy)
        (if font_is_set font c ix (iy / 2) then fg else bg) fb)

unfoldable pub draw_columns :
    ℕ → (ix ci_x ci_y c fg bg : ℕ) → (ℕ → ℕ → ℕ) → Framebuffer → Framebuffer
draw_columns zero ix ci_x ci_y c fg bg font fb = fb
draw_columns (suc left) ix ci_x ci_y c fg bg font fb =
    draw_columns left (ix + 1) ci_x ci_y c fg bg font
      (draw_column 16 0 ix ci_x ci_y c fg bg font fb)

-- The next place, with a scroll if the screen is full.
unfoldable pub advance : Terminal → Terminal
advance t =
    let t' = record t { chr_index = t.chr_index + 1 } in
    if leb (t.width * t.height) (t.chr_index + 1) then terminal_scroll t' else t'

unfoldable pub terminal_putchar : (ℕ → ℕ → ℕ) → ℕ → Terminal → Terminal
terminal_putchar font c t =
    let s = advance t in
    if not t.isready
    then t
    else if c == 10
    then record s { chr_index = s.chr_index + (s.width - s.chr_index % s.width) }
    else record s {
      fb = draw_columns 8 0 (s.chr_index % s.width) (s.chr_index / s.width) c s.fg s.bg font s.fb;
    }

-- The loops of `terminal_clear`.
unfoldable pub clear_column : ℕ → (y x : ℕ) → Framebuffer → Framebuffer
clear_column zero y x fb = fb
clear_column (suc left) y x fb = clear_column left (y + 1) x (framebuffer_putpixel x y 0 fb)

unfoldable pub clear_columns : ℕ → (x rows : ℕ) → Framebuffer → Framebuffer
clear_columns zero x rows fb = fb
clear_columns (suc left) x rows fb = clear_columns left (x + 1) rows (clear_column rows 0 x fb)

unfoldable pub terminal_clear : Terminal → Terminal
terminal_clear t =
    if not t.isready
    then t
    else record t { fb = clear_columns (8 * t.width) 0 (16 * t.height) t.fb; chr_index = 0 }

-- Up to the messages that the source prints at the end. `isready` is set after the call of
-- `terminal_clear`, so at the first start that call does nothing.
unfoldable pub terminal_initialize : (width height : ℕ) → Terminal → Terminal
terminal_initialize width height t =
    let t' =
      terminal_clear
        (record t { width = width; height = height; chr_index = 0; fg = 0xffffff; bg = 0 }) in
    record t' { isready = true }

-- The loop of `terminal_puts`.
unfoldable pub puts_loop : (fuel str : ℕ) → (ℕ → ℕ → ℕ) → (ℕ → ℕ) → Terminal → Option Terminal
puts_loop zero str font m t = none
puts_loop (suc fuel) str font m t =
    let rest = puts_loop fuel (str + 1) font m (terminal_putchar font (m str) t) in
    if m str == 0 then some t else rest

unfoldable pub terminal_puts : (fuel str : ℕ) → (ℕ → ℕ → ℕ) → (ℕ → ℕ) → Terminal → Option Terminal
terminal_puts fuel str font m t =
    if not t.isready then some t else if str == 0 then some t else puts_loop fuel str font m t
