-- ===== src/Screen/Printf.antt =====
-- kernel/src/libk/printf.c: formatted output, as the events that the terminal sees. An argument is the
-- 64-bit word that `va_arg` finds. Loops that end at a NUL byte take fuel.
pub mod Plain
mod Tests
use shed_os.Base.{
  ℕ, zero, suc, ◌+◌, ◌-◌, ◌*◌, ◌%◌, ◌^◌, not, ◌==◌, ltb, if◌then◌else◌, Option, none, some, List,
  [], ◌∷◌, ◌++◌, update,
}
use shed_os.Base.Word.{u32_mod, u64_mod}
use shed_os.Libk.Memutil.{Ram}
use shed_os.Libk.Strutil.{utos, strcpy}
use shed_os.Screen.Terminal.{Terminal, terminal_putchar, terminal_setcolor}

pub data Event : Type 0 where
  char : ℕ → Event
  color : (fg bg : ℕ) → Event

-- What the terminal does with the events.
unfoldable pub show : (ℕ → ℕ → ℕ) → List Event → Terminal → Terminal
show font [] t = t
show font (char c ∷ es) t = show font es (terminal_putchar font c t)
show font (color fg bg ∷ es) t = show font es (terminal_setcolor fg bg t)

-- `putsn`; `puts` is the same with `SIZE_MAX` for `n`, which no string reaches.
unfoldable pub putsn_loop : (left i str : ℕ) → Ram → List Event
putsn_loop zero i str m = []
putsn_loop (suc left) i str m =
    let rest = putsn_loop left (i + 1) str m in
    if m (str + i) == 0 then [] else char (m (str + i)) ∷ rest

unfoldable pub putsn : (str n : ℕ) → Ram → List Event
putsn str n m = putsn_loop n 0 str m

unfoldable pub puts : (fuel str : ℕ) → Ram → Option (List Event)
puts zero str m = none
puts (suc fuel) str m =
    let rest = puts fuel (str + 1) m in
    if m str == 0 then some [] else elim rest [ none ↦ none | some es ↦ some (char (m str) ∷ es) ]

-- A word read as `int` and passed on as `uint64_t`.
abbrev pub sign_extend : ℕ → ℕ
sign_extend w = if ltb (w % u32_mod) (2 ^ 31) then w % u32_mod else w % u32_mod + u64_mod - u32_mod

-- The loop for `%S`: the low bytes of 16-bit characters.
unfoldable pub narrow : (fuel i str buf : ℕ) → Ram → Option Ram
narrow zero i str buf m = none
narrow (suc fuel) i str buf m =
    let rest = narrow fuel (i + 1) str buf (update m (buf + i) (m (str + 2 * i))) in
    if m (str + 2 * i) + 256 * m (str + 2 * i + 1) == 0 then some (update m (buf + i) 0) else rest

-- The switch of `_printf`: what is in `buf` for the conversion. Any other letter leaves it as it is.
unfoldable pub convert : (fuel fmtc arg buf : ℕ) → Ram → Option Ram
convert fuel fmtc arg buf m =
    if fmtc == 97
    then some (utos arg 16 buf 16 m).1
    else if fmtc == 100
    then some (utos (sign_extend arg) 10 buf 0 m).1
    else if fmtc == 98
    then some (utos (sign_extend arg) 2 buf 0 m).1
    else if fmtc == 120
    then some (utos arg 16 buf 0 m).1
    else if fmtc == 99
    then some (update (update m buf (arg % 256)) (buf + 1) 0)
    else if fmtc == 115
    then strcpy fuel buf arg m
    else if fmtc == 83
    then narrow fuel 0 arg buf m
    else some m

-- Whether the conversion takes an argument.
abbrev pub next_args : (fmtc : ℕ) → List ℕ → List ℕ
next_args fmtc [] = []
next_args fmtc (a ∷ args) =
    if fmtc == 97
    then args
    else if fmtc == 100
    then args
    else if fmtc == 98
    then args
    else if fmtc == 120
    then args
    else if fmtc == 99
    then args
    else if fmtc == 115
    then args
    else if fmtc == 83
    then args
    else a ∷ args

abbrev pub first_arg : List ℕ → ℕ
first_arg [] = 0
first_arg (a ∷ args) = a

-- `_printf`
unfoldable pub printf_arg : (fuel fmtc buf : ℕ) → List ℕ → Ram → Option (List Event × Ram)
printf_arg fuel fmtc buf args m = elim (convert fuel fmtc (first_arg args) buf m) [
  | none ↦ none
  | some m' ↦ elim (puts fuel buf m') [ none ↦ none | some es ↦ some (es, m') ]
]

abbrev pub before : List Event → Option (List Event × Ram) → Option (List Event × Ram)
before es none = none
before es (some (fs, m)) = some (es ++ fs, m)

-- The loop over the format string.
unfoldable pub format : (fuel fmt buf : ℕ) → List ℕ → Ram → Option (List Event × Ram)
format zero fmt buf args m = none
format (suc fuel) fmt buf args m =
    let fmtc = m (fmt + 1) in
    let plain = format fuel (fmt + 1) buf args m in
    let converted : Option (List Event × Ram) = elim (printf_arg fuel fmtc buf args m) [
      | none ↦ none
      | some (es, m') ↦
          before es
            (format fuel (if fmtc == 0 then fmt + 1 else fmt + 2) buf (next_args fmtc args) m')
    ] in
    if m fmt == 0
    then some ([], m)
    else if m fmt == 37
    then converted
    else before (char (m fmt) ∷ []) plain

-- The name of a level, and its color.
unfoldable pub level_name : ℕ → List Event
level_name loglevel =
    if loglevel == 0
    then color 0x0000ff 0 ∷ char 73 ∷ char 78 ∷ char 70 ∷ char 79 ∷ []
    else if loglevel == 1
    then color 0x00ff00 0 ∷ char 79 ∷ char 75 ∷ char 65 ∷ char 89 ∷ []
    else if loglevel == 2
    then color 0xfff000 0 ∷ char 87 ∷ char 65 ∷ char 82 ∷ char 78 ∷ []
    else if loglevel == 3
    then color 0xff0000 0 ∷ char 67 ∷ char 82 ∷ char 73 ∷ char 84 ∷ []
    else []

-- The line's head; `stamp` is what `timer_format` wrote. Level 4 is `KMSG_LOGLEVEL_NONE`.
unfoldable pub line_head : ℕ → List Event → List Event
line_head loglevel stamp =
    if loglevel == 4
    then []
    else (char 40 ∷ [])
      ++ stamp
      ++ (char 41 ∷ char 32 ∷ color 0xffffff 0 ∷ char 91 ∷ [])
      ++ level_name loglevel
      ++ (color 0xffffff 0 ∷ char 93 ∷ char 32 ∷ [])

unfoldable pub printf :
    (fuel loglevel fmt buf : ℕ) → List Event → List ℕ → Ram → Option (List Event × Ram)
printf fuel loglevel fmt buf stamp args m = elim (format fuel fmt buf args m) [
  | none ↦ none
  | some (es, m') ↦ some (line_head loglevel stamp ++ es ++ (color 0xffffff 0 ∷ []), m')
]
