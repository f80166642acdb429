-- ===== src/Common/TextBounds.antt =====
-- A short decimal number is a small `int`.
use sp_homework.Common.{
  ℕ, zero, suc, ◌+◌, ◌*◌, ◌^◌, ◌≤◌, ◌<◌, true, false, List, [], ◌∷◌, arith, length,
}
use sp_homework.Common.Int.{to_int_lem, IsWithin}
use sp_homework.Common.Text.{
  c_string, skip_spaces, digit_value, read_digits, magnitude, signed_long, read_signed, strtol,
  atoi,
}

-- The largest number with `n` more digits.
abbrev largest : ℕ → ℕ → ℕ
largest zero acc = acc
largest (suc n) acc = largest n (acc * 10 + 9)

largest_mono : (n a b : ℕ) → a ≤ b → largest n a ≤ largest n b
largest_mono zero a b h = h
largest_mono (suc n) a b h = largest_mono n (a * 10 + 9) (b * 10 + 9) (omega arith)

largest_le : (n a : ℕ) → a ≤ largest n a
largest_le zero a = omega arith
largest_le (suc n) a = omega (arith, largest_le n (a * 10 + 9))

largest_longer : (n m a : ℕ) → n ≤ m → largest n a ≤ largest m a
largest_longer zero m a h = largest_le m a
largest_longer (suc n) zero a h = absurd (omega arith)
largest_longer (suc n) (suc m) a h = largest_longer n m (a * 10 + 9) (omega arith)

read_digits-le : (acc : ℕ) (cs : List ℕ) → read_digits 10 acc cs ≤ largest (length cs) acc
unfolding read_digits
read_digits-le acc [] = omega arith
read_digits-le acc (c ∷ cs) = ground (
  arith,
  read_digits-le (acc * 10 + digit_value c) cs,
  largest_mono (length cs) (acc * 10 + digit_value c) (acc * 10 + 9),
  largest_le (length cs) (acc * 10 + 9),
)

pub length-c_string : (cs : List ℕ) → length (c_string cs) ≤ length cs
unfolding c_string
length-c_string [] = omega arith
length-c_string (c ∷ cs) = ground (arith, length-c_string cs)

length-skip_spaces : (cs : List ℕ) → length (skip_spaces cs) ≤ length cs
unfolding skip_spaces
length-skip_spaces [] = omega arith
length-skip_spaces (c ∷ cs) = ground (arith, length-skip_spaces cs)

magnitude-le : (cs : List ℕ) (m : ℕ) → length cs ≤ m → magnitude 10 cs ≤ largest m 0
unfolding magnitude
magnitude-le cs m h = omega (arith, read_digits-le 0 cs, largest_longer (length cs) m 0)

signed-IsWithin :
    (m n : ℕ)
    → m ≤ n
    → n < 2 ^ 31
    → IsWithin n (signed_long true m) × IsWithin n (signed_long false m)
unfolding signed_long
signed-IsWithin m n h k = ground arith

read_signed-IsWithin : (cs : List ℕ) → length cs ≤ 5 → IsWithin 99999 (read_signed 10 cs)
unfolding read_signed
read_signed-IsWithin [] h = omega arith
read_signed-IsWithin (c ∷ cs) h = ground (
  arith,
  signed-IsWithin (magnitude 10 cs) 99999 (magnitude-le cs 5 (omega arith)) (omega arith),
  signed-IsWithin (magnitude 10 (c ∷ cs)) 99999 (magnitude-le (c ∷ cs) 5 h) (omega arith),
)

-- Five bytes hold no number of more than five digits.
pub atoi-IsWithin : (chunk : List ℕ) → length chunk ≤ 5 → IsWithin 99999 (atoi (c_string chunk))
unfolding atoi strtol
atoi-IsWithin chunk h =
    let text = skip_spaces (c_string chunk) in
    let small =
      read_signed-IsWithin text
        (omega (arith, length-skip_spaces (c_string chunk), length-c_string chunk)) in
    rw (to_int_lem (read_signed 10 text) (omega arith)) small
