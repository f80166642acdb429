-- ===== src/Common/Text.antt =====
-- C strings as lists of bytes, and the library calls on them that the programs make: strtol, atoi.
use Prim.Native.Nat.{ℕ, ◌+◌, ◌-◌, ◌*◌, ◌^◌}
use mathlib.Core.Bool.{Bool, true, false, ◌&&◌, ◌||◌}
use mathlib.Core.List.{List, [], ◌∷◌}
use sp_homework.Common.Tests.{ltb, leb, ◌==◌, if◌then◌else◌}
use sp_homework.Common.Int.{ℤ, pos, negsuc, sub_ℕ, to_int}

-- The string that a buffer holds: the bytes before the first NUL.
unfoldable pub c_string : List ℕ → List ℕ
c_string [] = []
c_string (c ∷ cs) = if c == 0 then [] else c ∷ c_string cs

unfoldable pub is_digit : ℕ → Bool
is_digit c = leb b'0' c && leb c b'9'

-- isspace in the C locale
unfoldable pub is_space : ℕ → Bool
is_space c = (c == 32) || (leb 9 c && leb c 13)

unfoldable pub skip_spaces : List ℕ → List ℕ
unfolding is_space
skip_spaces [] = []
skip_spaces (c ∷ cs) = if is_space c then skip_spaces cs else c ∷ cs

-- The value of a character as a digit, 36 for none.
unfoldable pub digit_value : ℕ → ℕ
unfolding is_digit
digit_value c =
    if is_digit c
    then c - b'0'
    else if leb b'a' c && leb c b'z'
    then c - b'a' + 10
    else if leb b'A' c && leb c b'Z'
    then c - b'A' + 10
    else 36

-- The longest run of digits below the base, behind the value `acc` read so far.
unfoldable pub read_digits : (base acc : ℕ) → List ℕ → ℕ
unfolding digit_value
read_digits base acc [] = acc
read_digits base acc (c ∷ cs) =
    let more = read_digits base (acc * base + digit_value c) cs in
    if ltb (digit_value c) base then more else acc

-- `0x` counts as a prefix if a hexadecimal digit follows.
unfoldable pub is_hex : List ℕ → Bool
unfolding digit_value
is_hex (a ∷ x ∷ d ∷ cs) = (a == b'0') && ((x == b'x') || (x == b'X')) && ltb (digit_value d) 16
is_hex cs = false

unfoldable pub drop_two : List ℕ → List ℕ
drop_two (a ∷ b ∷ cs) = cs
drop_two cs = cs

unfoldable pub starts_with : ℕ → List ℕ → Bool
starts_with c [] = false
starts_with c (x ∷ xs) = x == c

-- The magnitude that strtol reads behind the sign: base 0 chooses by the prefix.
unfoldable pub magnitude : (base : ℕ) → List ℕ → ℕ
unfolding is_hex drop_two starts_with read_digits
magnitude base cs =
    if base == 0
    then if is_hex cs
      then read_digits 16 0 (drop_two cs)
      else if starts_with b'0' cs
      then read_digits 8 0 cs
      else read_digits 10 0 cs
    else read_digits base 0 cs

-- Out of range, strtol gives LONG_MAX or LONG_MIN; a long has 64 bits.
unfoldable pub signed_long : Bool → ℕ → ℤ
signed_long false m = if ltb m (2 ^ 63) then pos m else pos (2 ^ 63 - 1)
signed_long true m = if leb m (2 ^ 63) then sub_ℕ 0 m else negsuc (2 ^ 63 - 1)

unfoldable pub read_signed : (base : ℕ) → List ℕ → ℤ
unfolding signed_long magnitude
read_signed base [] = pos 0
read_signed base (c ∷ cs) =
    if c == b'-'
    then signed_long true (magnitude base cs)
    else if c == b'+'
    then signed_long false (magnitude base cs)
    else signed_long false (magnitude base (c ∷ cs))

unfoldable pub strtol : (base : ℕ) → List ℕ → ℤ
unfolding skip_spaces read_signed
strtol base s = read_signed base (skip_spaces s)

-- (int)strtol(s, NULL, 10)
unfoldable pub atoi : List ℕ → ℤ
unfolding strtol to_int
atoi s = to_int (strtol 10 s)
