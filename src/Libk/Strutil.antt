-- ===== src/Libk/Strutil.antt =====
-- kernel/src/libk/strutil.c: strings that end in a NUL byte. `m` gives the byte at each address. A loop
-- that only the NUL ends takes fuel, and `none` is fuel that ran out; fuel above the length is enough.
pub mod Digits
pub mod Number
pub mod Compare
mod Tests
use shed_os.Base.{
  ℕ, zero, suc, ◌+◌, ◌-◌, ◌*◌, ◌/◌, ◌%◌, Bool, true, false, not, ◌&&◌, ◌||◌, ◌==◌, ltb, leb,
  if◌then◌else◌, Option, none, some, update,
}
use shed_os.Base.Int.{ℤ, diff, char_diff}
use shed_os.Base.Word.{u64_mod, add64, sub64, mul64}
use shed_os.Libk.Memutil.{Ram}

abbrev pub npos : ℕ
npos = u64_mod - 1

unfoldable pub strlen_loop : ℕ → (len str : ℕ) → Ram → Option ℕ
strlen_loop zero len str m = none
strlen_loop (suc fuel) len str m =
    let rest = strlen_loop fuel (len + 1) str m in
    if not (m (str + len) == 0) then rest else some len

unfoldable pub strlen : (fuel str : ℕ) → Ram → Option ℕ
unfolding strlen_loop
strlen fuel str m = strlen_loop fuel 0 str m

-- The rounds of `do val_len++; while ((_i /= base) > 0)`; the division makes `_i` 0 within 64 rounds.
unfoldable pub count_digits : ℕ → (i base : ℕ) → ℕ
count_digits zero i base = 0
count_digits (suc fuel) i base =
    let rest = count_digits fuel (i / base) base in if ltb 0 (i / base) then suc rest else 1

unfoldable pub value_length : (i base : ℕ) → ℕ
value_length i base = count_digits 64 i base

-- `"0123456789ABCDEF"[d]`
unfoldable pub digit_char : ℕ → ℕ
digit_char d = if ltb d 10 then 48 + d else 55 + d

-- The loop that writes the digits, the last one first.
unfoldable pub write_digits : ℕ → (n i base buf str_len : ℕ) → Ram → Ram
write_digits zero n i base buf str_len m = m
write_digits (suc left) n i base buf str_len m =
    write_digits left (n + 1) (i / base) base buf str_len
      (update m (buf + (str_len - n - 1)) (digit_char (i % base)))

-- The length of the string, and the memory.
unfoldable pub utos : (i base buf min_len : ℕ) → Ram → ℕ × Ram
utos i base buf min_len m =
    let digits = value_length i base in
    let val_len = if ltb digits min_len then min_len else digits in
    let str_len = if base == 16 then val_len + 2 else val_len in
    let prefixed = if base == 16 then update (update m buf 48) (buf + 1) 120 else m in
    (str_len, write_digits val_len 0 i base buf str_len (update prefixed (buf + str_len) 0))

-- The value of a character, in 8 bits.
unfoldable pub digit_value : ℕ → ℕ
digit_value c =
    if ltb c 128 && ltb 57 c
    then (if ltb 90 c then (c + 256 - 97) % 256 else (c + 256 - 122) % 256)
    else (c + 256 - 48) % 256

unfoldable pub stou_loop : ℕ → (i value digit len str base : ℕ) → Ram → ℕ
stou_loop zero i value digit len str base m = value
stou_loop (suc left) i value digit len str base m =
    let v = digit_value (m (str + (len - i - 1))) in
    let rest =
      stou_loop left (i + 1) (add64 value (mul64 v digit)) (mul64 digit base) len str base m in
    if leb base v then 0 else rest

unfoldable pub stou : (fuel str base : ℕ) → Ram → Option ℕ
unfolding stou_loop
stou fuel str base m = elim (strlen fuel str m) [
  | none ↦ none
  | some len ↦ some (stou_loop len 0 0 1 len str base m)
]

unfoldable pub strcmp : (fuel s1 s2 : ℕ) → Ram → Option ℤ
strcmp zero s1 s2 m = none
strcmp (suc fuel) s1 s2 m =
    let rest = strcmp fuel (s1 + 1) (s2 + 1) m in
    if not (m s1 == 0) && (m s1 == m s2) then rest else some (diff (m s1) (m s2))

-- `left` is how often `--n` is not 0 yet.
unfoldable pub strncmp_loop : (left s1 s2 : ℕ) → Ram → ℤ
strncmp_loop zero s1 s2 m = char_diff (m s1) (m s2)
strncmp_loop (suc left) s1 s2 m =
    let rest = strncmp_loop left (s1 + 1) (s2 + 1) m in
    if not (m s1 == 0) && (m s1 == m s2) then rest else char_diff (m s1) (m s2)

unfoldable pub strncmp : (s1 s2 n : ℕ) → Ram → ℤ
unfolding strncmp_loop
strncmp s1 s2 n m = strncmp_loop (sub64 n 1) s1 s2 m

unfoldable pub strfind_loop : ℕ → (i s c : ℕ) → Ram → Option ℕ
strfind_loop zero i s c m = none
strfind_loop (suc fuel) i s c m =
    let rest = strfind_loop fuel (i + 1) s c m in
    if m (s + i) == 0 then some npos else if m (s + i) == c then some i else rest

unfoldable pub strfind : (fuel s c : ℕ) → Ram → Option ℕ
unfolding strfind_loop
strfind fuel s c m = strfind_loop fuel 0 s c m

unfoldable pub strcpy : (fuel dst src : ℕ) → Ram → Option Ram
strcpy zero dst src m = none
strcpy (suc fuel) dst src m =
    let rest = strcpy fuel (dst + 1) (src + 1) (update m dst (m src)) in
    if not (m src == 0) then rest else some (update m dst 0)

unfoldable pub strncpy_loop : (left dst src : ℕ) → Ram → Ram
strncpy_loop zero dst src m = update m dst 0
strncpy_loop (suc left) dst src m =
    let rest = strncpy_loop left (dst + 1) (src + 1) (update m dst (m src)) in
    if not (m src == 0) then rest else update m dst 0

unfoldable pub strncpy : (dst src n : ℕ) → Ram → Ram
unfolding strncpy_loop
strncpy dst src n m = strncpy_loop (sub64 n 1) dst src m

-- The loop of `strtok` on the saved pointer: to the delimiter or the NUL.
unfoldable pub skip_token : (fuel s delim : ℕ) → Ram → Option ℕ
skip_token zero s delim m = none
skip_token (suc fuel) s delim m =
    let rest = skip_token fuel (s + 1) delim m in
    if not (m s == 0) && not (m s == delim) then rest else some s

-- `saved` is `strtok_s`. The token, the new `strtok_s` and the memory.
unfoldable pub strtok : (fuel s delim saved : ℕ) → Ram → Option (ℕ × ℕ × Ram)
unfolding skip_token
strtok fuel s delim saved m =
    let begin = if saved == 0 then s else saved in
    if begin == 0 then some (0, 0, m) else elim (skip_token fuel begin delim m) [
      | none ↦ none
      | some end ↦ some (if m end == 0 then (begin, 0, m) else (begin, end + 1, update m end 0))
    ]

unfoldable pub trim_loop : ℕ → (i src max_n : ℕ) → Ram → ℕ × Ram
trim_loop zero i src max_n m = (0, m)
trim_loop (suc left) i src max_n m =
    let rest = trim_loop left (i + 1) src max_n m in
    if (i == max_n - 1) || ((m (src + i) == 32) && (m (src + i + 1) == 32))
    then (i, update m (src + i) 0)
    else rest

unfoldable pub trim_and_terminate : (src max_n : ℕ) → Ram → ℕ × Ram
unfolding trim_loop
trim_and_terminate src max_n m = trim_loop max_n 0 src max_n m

unfoldable pub isdigit : ℕ → Bool
isdigit c = leb 48 c && leb c 57
