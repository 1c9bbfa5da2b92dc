-- ===== src/Screen/Printf/Tests.antt =====
-- The theorems of printf.c at a short string and a small screen.
use shed_os.Base.{◌≡◌, refl, true, arith, ◌==◌, if◌then◌else◌, [], ◌∷◌, ◌++◌, some}
use shed_os.Libk.Memutil.{Ram}
use shed_os.Screen.Terminal.{Terminal}
use shed_os.Screen.Terminal.Cursor.{OnScreen}
use shed_os.Screen.Printf.{char, color, printf, line_head, show}
use shed_os.Screen.Printf.Plain.{chars, printf_plain, show-OnScreen}

-- "AA" at address 8.
abbrev text : Ram
text a = if a == 8 then 65 else if a == 9 then 65 else 0

printf_plain_example :
    printf 3 0 8 0x100 [] [] text
    ≡ some (line_head 0 [] ++ chars 2 8 text ++ (color 0xffffff 0 ∷ []), text)
printf_plain_example =
    printf_plain 2 3 0 8 0x100 [] [] text (omega arith) refl (λ k lt. ground arith)

abbrev small : Terminal
small = record {
  width = 2;
  height = 1;
  chr_index = 0;
  fg = 0;
  bg = 0;
  isready = true;
  fb = record {
    fb_width = 32;
    fb_height = 32;
    fb_pitch = 128;
    fb_buffer = λ i. 0;
    fb_mmio = λ i. 0;
  };
}

show-OnScreen_example : OnScreen (show (λ c y. 0) (char 65 ∷ char 10 ∷ color 1 2 ∷ []) small)
show-OnScreen_example =
    show-OnScreen (λ c y. 0) (char 65 ∷ char 10 ∷ color 1 2 ∷ []) small
      (record { ready = refl; wide = omega arith; high = omega arith; cursor = omega arith })
