-- ===== src/Common/Scan.antt =====
-- scanf on lists of bytes: words and numbers behind spaces, as "%s", "%u" and "%d" read them.
use Prim.Native.Nat.{ℕ, zero, suc}
use mathlib.Core.Bool.{Bool, false}
use mathlib.Core.Option.{Option, none, some}
use mathlib.Core.List.{List, [], ◌∷◌}
use sp_homework.Common.Tests.{◌==◌, if◌then◌else◌}
use sp_homework.Common.Int.{ℤ}
use sp_homework.Common.Text.{is_digit, is_space, skip_spaces, atoi}

-- A word of at most `n` bytes, for "%s" with that width.
unfoldable pub take_word : ℕ → List ℕ → List ℕ × List ℕ
unfolding is_space
take_word zero s = ([], s)
take_word (suc n) [] = ([], [])
take_word (suc n) (c ∷ cs) =
    let more = take_word n cs in if is_space c then ([], c ∷ cs) else (c ∷ more.0, more.1)

abbrev pub some_word : List ℕ × List ℕ → Option (List ℕ × List ℕ)
some_word ([], s) = none
some_word (c ∷ cs, s) = some (c ∷ cs, s)

unfoldable pub scan_word : ℕ → List ℕ → Option (List ℕ × List ℕ)
unfolding take_word skip_spaces
scan_word n s = some_word (take_word n (skip_spaces s))

-- "%u" and "%d": a sign or none, and digits. Without digits nothing is stored.
unfoldable pub drop_digits : List ℕ → List ℕ
unfolding is_digit
drop_digits [] = []
drop_digits (c ∷ cs) = if is_digit c then drop_digits cs else c ∷ cs

unfoldable pub drop_sign : List ℕ → List ℕ
drop_sign [] = []
drop_sign (c ∷ cs) = if c == b'-' then cs else if c == b'+' then cs else c ∷ cs

unfoldable pub starts_digit : List ℕ → Bool
unfolding is_digit
starts_digit [] = false
starts_digit (c ∷ cs) = is_digit c

unfoldable pub scan_number : List ℕ → Option (ℤ × List ℕ)
unfolding skip_spaces drop_digits drop_sign starts_digit
scan_number s =
    let digits = drop_sign (skip_spaces s) in
    if starts_digit digits then some (atoi (skip_spaces s), drop_digits digits) else none
