-- ===== src/Screen/Terminal/Cursor.antt =====
-- Where terminal.c draws.
use native.Mathlib.Nat.{div-add-mod', mod-lt, div-lt_iff_lt-mul}
use shed_os.Base.{ℕ, ◌+◌, ◌-◌, ◌*◌, ◌/◌, ◌%◌, ◌<◌, ◌≤◌, ◌≡◌, ap₂, true, arith}
use shed_os.Screen.Terminal.{Terminal, terminal_putchar, terminal_scroll, advance}

-- The cursor stands on the screen, or right behind its last place, and there is room to scroll.
pub record OnScreen (t : Terminal) : Type 0 where
  pub ready : t.isready ≡ true
  pub wide : 2 ≤ t.width
  pub high : 0 < t.height
  pub cursor : t.chr_index ≤ t.width * t.height

mul_le : (a b : ℕ) → 0 < b → a ≤ a * b
mul_le a b h = grind arith

-- What the next place is, with the size unchanged.
pub record Advanced (t s : Terminal) : Type 0 where
  pub width : s.width ≡ t.width
  pub height : s.height ≡ t.height
  pub ready : s.isready ≡ true
  pub cursor : s.chr_index < t.width * t.height

pub advance_lem : (t : Terminal) → OnScreen t → Advanced t (advance t)
unfolding advance terminal_scroll
advance_lem t ok = record {
  width = ground (arith, ok.ready);
  height = ground (arith, ok.ready);
  ready = ground (arith, ok.ready);
  cursor = ground (arith, ok.ready, ok.wide, ok.cursor, mul_le t.width t.height ok.high);
}

mul_swap : (a b : ℕ) → a * b ≡ b * a
mul_swap a b = grind arith

next_row : (q w h : ℕ) → q < h → q * w + w ≤ w * h
next_row q w h lt = grind arith

-- The start of the next line is on the screen or right behind it.
next_line : (i w h : ℕ) → 0 < w → i < w * h → i + (w - i % w) ≤ w * h
next_line i w h pos lt = omega (
  arith,
  div-add-mod' i w,
  mod-lt i pos,
  next_row (i / w) w h ((div-lt_iff_lt-mul {x = i} {y = h} pos).1 (omega (arith, mul_swap w h))),
)

-- The next place of `t`, measured with the size of the result.
module _ (t : Terminal) (ok : OnScreen t) where
  abbrev s : Terminal
  s = advance t

  a : Advanced t s
  a = advance_lem t ok

  wide : 0 < s.width
  wide = omega (arith, a.width, ok.wide)

  below : s.chr_index < s.width * s.height
  below = omega (arith, a.cursor, ap₂ (λ (x y : ℕ). x * y) a.width a.height)

  line : s.chr_index + (s.width - s.chr_index % s.width) ≤ s.width * s.height
  line = next_line s.chr_index s.width s.height wide below

  -- A character is drawn in a place of the screen.
  pub cell_within : (s.chr_index % s.width < t.width) × (s.chr_index / s.width < t.height)
  cell_within = (
    omega (arith, a.width, mod-lt s.chr_index wide),
    omega (
      arith,
      a.height,
      (div-lt_iff_lt-mul {x = s.chr_index} {y = s.height} wide).1
          (omega (arith, below, mul_swap s.width s.height)),
    ),
  )

  -- On a terminal of at least two columns and one line that is ready, writing a character keeps
  -- the cursor on the screen, or right behind its last place.
  pub putchar-OnScreen : (font : ℕ → ℕ → ℕ) (c : ℕ) → OnScreen (terminal_putchar font c t)
  unfolding terminal_putchar
  putchar-OnScreen font c = record {
    ready = ground (arith, a.ready, ok.ready);
    wide = ground (arith, a.width, ok.ready, ok.wide);
    high = ground (arith, a.height, ok.ready, ok.high);
    cursor = ground (arith, line, below, ok.ready);
  }
