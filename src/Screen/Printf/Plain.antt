-- ===== src/Screen/Printf/Plain.antt =====
-- `printf` of a string without conversions (printf.c), and what the terminal keeps.
use shed_os.Base.{
  ℕ, zero, suc, ◌+◌, ◌<◌, ◌≡◌, ◌≢◌, refl, subst, some, List, [], ◌∷◌, ◌++◌, arith, ne→==, eq→==,
}
use shed_os.Libk.Memutil.{Ram}
use shed_os.Screen.Terminal.{Terminal, terminal_setcolor}
use shed_os.Screen.Terminal.Cursor.{OnScreen, putchar-OnScreen}
use shed_os.Screen.Printf.{Event, char, color, format, printf, line_head, show}

-- The `n` characters from `str` on.
abbrev pub chars : (n str : ℕ) → Ram → List Event
chars zero str m = []
chars (suc n) str m = char (m str) ∷ chars n (str + 1) m

first : (m : Ram) (a : ℕ) → (m (a + 0) ≢ 0) × (m (a + 0) ≢ 37) → (m a ≢ 0) × (m a ≢ 37)
first m a h = subst (λ (b : ℕ). (m b ≢ 0) × (m b ≢ 37)) {x = a + 0} (omega arith) h

format_plain :
    (n fuel fmt buf : ℕ) (args : List ℕ) (m : Ram)
    → n < fuel
    → m (fmt + n) ≡ 0
    → ((k : ℕ) → k < n → (m (fmt + k) ≢ 0) × (m (fmt + k) ≢ 37))
    → format fuel fmt buf args m ≡ some (chars n fmt m, m)
unfolding format
format_plain n zero fmt buf args m lt nul plain = absurd (omega arith)
format_plain zero (suc fuel) fmt buf args m lt nul plain =
    rw (eq→== (m fmt) 0 (subst (λ (a : ℕ). m a ≡ 0) {x = fmt + 0} (omega arith) nul)) refl
format_plain (suc n) (suc fuel) fmt buf args m lt nul plain =
    let (live, char_only) = first m fmt (plain 0 (omega arith)) in
    let rest =
      format_plain n fuel (fmt + 1) buf args m (omega arith)
        (subst (λ (a : ℕ). m a ≡ 0) {x = fmt + suc n} (omega arith) nul)
        (λ k lt.
          subst (λ (a : ℕ). (m a ≢ 0) × (m a ≢ 37)) {x = fmt + suc k} (omega arith)
            (plain (suc k) (omega arith))) in
    rw (ne→== (m fmt) 0 live, ne→== (m fmt) 37 char_only, rest) refl

-- A string of `n` characters without `%` is put out after the line's head, and the color is reset;
-- fuel above `n` is enough.
pub printf_plain :
    (n fuel loglevel fmt buf : ℕ) (stamp : List Event) (args : List ℕ) (m : Ram)
    → n < fuel
    → m (fmt + n) ≡ 0
    → ((k : ℕ) → k < n → (m (fmt + k) ≢ 0) × (m (fmt + k) ≢ 37))
    → printf fuel loglevel fmt buf stamp args m
      ≡ some (line_head loglevel stamp ++ chars n fmt m ++ (color 0xffffff 0 ∷ []), m)
unfolding printf
printf_plain n fuel loglevel fmt buf stamp args m lt nul plain =
    rw (format_plain n fuel fmt buf args m lt nul plain, printf) refl

-- Output of any length keeps the cursor on the screen.
pub show-OnScreen :
    (font : ℕ → ℕ → ℕ) (es : List Event) (t : Terminal) → OnScreen t → OnScreen (show font es t)
unfolding show terminal_setcolor
show-OnScreen font [] t ok = ok
show-OnScreen font (char c ∷ es) t ok = show-OnScreen font es _ (putchar-OnScreen t ok font c)
show-OnScreen font (color fg bg ∷ es) t ok =
    show-OnScreen font es _
      (record { ready = ok.ready; wide = ok.wide; high = ok.high; cursor = ok.cursor })
