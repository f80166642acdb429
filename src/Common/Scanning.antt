-- ===== src/Common/Scanning.antt =====
-- Words and numbers with a space behind them are scanned as they stand.
use Prim.Native.Nat.{ℕ, zero, suc, ◌+◌, ◌*◌, ◌≤◌}
use mathlib.Core.Path.{◌≡◌, refl}
use mathlib.Core.Logic.{◌≢◌}
use mathlib.Core.Bool.{true, false}
use mathlib.Core.Option.{some}
use mathlib.Core.List.{List, [], ◌∷◌, ◌++◌}
use native.Mathlib.Omega.{arith}
use sp_homework.Common.Tests.{◌==◌}
use sp_homework.Common.Lists.{length}
use sp_homework.Common.Text.{
  is_digit, is_space, skip_spaces, digit_value, read_digits, magnitude, read_signed, strtol, atoi,
}
use sp_homework.Common.Scan.{
  take_word, scan_word, drop_digits, drop_sign, starts_digit, scan_number,
}

abbrev pub AreDigits : List ℕ → Type 0
AreDigits [] = Unit {0}
AreDigits (c ∷ cs) = (is_digit c ≡ true) × AreDigits cs

abbrev pub HasNoSpaces : List ℕ → Type 0
HasNoSpaces [] = Unit {0}
HasNoSpaces (c ∷ cs) = (is_space c ≡ false) × HasNoSpaces cs

drop_digits-digits :
    (xs rest : List ℕ) (d : ℕ)
    → AreDigits xs
    → is_digit d ≡ false
    → drop_digits (xs ++ d ∷ rest) ≡ d ∷ rest
unfolding drop_digits
drop_digits-digits [] rest d digits other = rw other refl
drop_digits-digits (x ∷ xs) rest d digits other =
    rw (digits.0) (drop_digits-digits xs rest d digits.1 other)

read_digits-digits :
    (acc : ℕ) (xs rest : List ℕ) (d : ℕ)
    → AreDigits xs
    → 10 ≤ digit_value d
    → read_digits 10 acc (xs ++ d ∷ rest) ≡ read_digits 10 acc xs
unfolding read_digits
read_digits-digits acc [] rest d digits large = ground (arith, large)
read_digits-digits acc (x ∷ xs) rest d digits large =
    rw (read_digits-digits (acc * 10 + digit_value x) xs rest d digits.1 large) refl

-- A digit is neither a sign nor a space.
not_sign :
    (c : ℕ)
    → is_digit c ≡ true
    → ((c == b'-') ≡ false) × ((c == b'+') ≡ false) × (is_space c ≡ false)
unfolding is_digit is_space
not_sign c digit = ground (arith, digit)

atoi-digits :
    (xs rest : List ℕ) (d : ℕ)
    → AreDigits xs
    → xs ≢ []
    → 10 ≤ digit_value d
    → atoi (xs ++ d ∷ rest) ≡ atoi xs
unfolding atoi strtol skip_spaces read_signed magnitude
atoi-digits [] rest d digits ne large = absurd (ne refl)
atoi-digits (x ∷ xs) rest d digits ne large =
    let (minus, plus, space) = not_sign x digits.0 in
    rw (space, minus, plus, read_digits-digits 0 (x ∷ xs) rest d digits large) refl

-- A number, behind spaces or none, with a byte behind it that is no digit.
pub scan_number-digits :
    (s xs rest : List ℕ) (d : ℕ)
    → skip_spaces s ≡ xs ++ d ∷ rest
    → AreDigits xs
    → xs ≢ []
    → is_digit d ≡ false
    → 10 ≤ digit_value d
    → scan_number s ≡ some (atoi xs, d ∷ rest)
unfolding scan_number drop_sign starts_digit
scan_number-digits s [] rest d e digits ne other large = absurd (ne refl)
scan_number-digits s (x ∷ xs) rest d e digits ne other large =
    let (minus, plus, space) = not_sign x digits.0 in
    let number = atoi-digits (x ∷ xs) rest d digits ne large in
    let dropped = drop_digits-digits xs rest d digits.1 other in
    rw (e, minus, plus, digits.0, number, dropped) refl

take_word-word :
    (n : ℕ) (xs rest : List ℕ) (d : ℕ)
    → HasNoSpaces xs
    → is_space d ≡ true
    → length xs ≤ n
    → take_word n (xs ++ d ∷ rest) ≡ (xs, d ∷ rest)
unfolding take_word
take_word-word zero [] rest d plain space room = refl
take_word-word (suc n) [] rest d plain space room = rw space refl
take_word-word zero (x ∷ xs) rest d plain space room = absurd (omega arith)
take_word-word (suc n) (x ∷ xs) rest d plain space room =
    rw (plain.0, take_word-word n xs rest d plain.1 space (omega arith)) refl

-- A word behind a space, with a space behind it.
pub scan_word-word :
    (n : ℕ) (xs rest : List ℕ) (d : ℕ)
    → xs ≢ []
    → HasNoSpaces xs
    → is_space d ≡ true
    → length xs ≤ n
    → scan_word n (32 ∷ (xs ++ d ∷ rest)) ≡ some (xs, d ∷ rest)
unfolding scan_word skip_spaces
scan_word-word n [] rest d ne plain space room = absurd (ne refl)
scan_word-word n (x ∷ xs) rest d ne plain space room =
    rw (plain.0, take_word-word n (x ∷ xs) rest d plain space room) refl

pub skip_spaces-digits :
    (xs rest : List ℕ) (d : ℕ)
    → AreDigits xs
    → xs ≢ []
    → skip_spaces (xs ++ d ∷ rest) ≡ xs ++ d ∷ rest
unfolding skip_spaces
skip_spaces-digits [] rest d digits ne = absurd (ne refl)
skip_spaces-digits (x ∷ xs) rest d digits ne =
    let (minus, plus, space) = not_sign x digits.0 in rw space refl

pub skip_line_end : (s : List ℕ) → skip_spaces (10 ∷ s) ≡ skip_spaces s
unfolding skip_spaces is_space
skip_line_end s = refl

pub skip_space : (s : List ℕ) → skip_spaces (32 ∷ s) ≡ skip_spaces s
unfolding skip_spaces is_space
skip_space s = refl
