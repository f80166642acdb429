-- ===== src/Booking/Parsing.antt =====
-- What hw1/server.c reads from a client: a line ends at the first newline, the ids of the file are
-- accepted, and a command falls into its words.
use sp_homework.Common.{
  ℕ, ◌+◌, ◌/◌, ◌%◌, ◌≡◌, ◌≢◌, ◌<◌, refl, sym, ap, ◌∙◌, Bool, true, false, Option, none, some, List,
  [], ◌∷◌, ◌++◌, arith, ◌==◌, ==_iff, all_from, all_from_lem,
}
use sp_homework.Booking.{bytes, line, before_crlf, before_lf, parse_line, handle_read, valid_id}
use sp_homework.Common.Text.{c_string}

-- Neither NUL, nor LF, nor CR.
abbrev pub IsClean : List ℕ → Type 0
IsClean [] = Unit {0}
IsClean (c ∷ cs) = (c ≢ 0) × (c ≢ 10) × (c ≢ 13) × IsClean cs

before_crlf_lem :
    (text tail : List ℕ) → IsClean text → before_crlf (text ++ 13 ∷ 10 ∷ tail) ≡ some text
unfolding before_crlf
before_crlf_lem [] tail clean = refl
before_crlf_lem (c ∷ []) tail clean = ground (arith, clean)
before_crlf_lem (c ∷ d ∷ cs) tail clean =
    let rest = before_crlf_lem (d ∷ cs) tail clean.3 in
    let other : (c == 13) ≡ false = ground (arith, clean) in rw (other, rest) refl

before_crlf-none : (text : List ℕ) → IsClean text → before_crlf (text ++ 10 ∷ []) ≡ none
unfolding before_crlf
before_crlf-none [] clean = refl
before_crlf-none (c ∷ []) clean = ground (arith, clean)
before_crlf-none (c ∷ d ∷ cs) clean =
    let rest = before_crlf-none (d ∷ cs) clean.3 in
    let other : (c == 13) ≡ false = ground (arith, clean) in rw (other, rest) refl

before_lf_lem : (text : List ℕ) → IsClean text → before_lf (text ++ 10 ∷ []) ≡ some text
unfolding before_lf
before_lf_lem [] clean = refl
before_lf_lem (c ∷ cs) clean = let rest = before_lf_lem cs clean.3 in ground (arith, rest, clean)

c_string-append :
    (text tail : List ℕ) → IsClean text → c_string (text ++ tail) ≡ text ++ c_string tail
unfolding c_string
c_string-append [] tail clean = refl
c_string-append (c ∷ cs) tail clean =
    let rest = c_string-append cs tail clean.3 in
    let other : (c == 0) ≡ false = ground (arith, clean) in rw (other, rest) refl

-- The text and the first byte behind it are not empty.
parsed :
    (text : List ℕ) (c : ℕ) (tail : List ℕ)
    → handle_read (bytes (text ++ c ∷ tail)) ≡ parse_line (c_string (text ++ c ∷ tail))
unfolding handle_read
parsed [] c tail = refl
parsed (d ∷ ds) c tail = refl

parse_crlf : (text tail : List ℕ) → IsClean text → parse_line (text ++ 13 ∷ 10 ∷ tail) ≡ line text
unfolding parse_line
parse_crlf text tail clean = rw (before_crlf_lem text tail clean, parse_line) refl

parse_lf : (text : List ℕ) → IsClean text → parse_line (text ++ 10 ∷ []) ≡ line text
unfolding parse_line
parse_lf text clean = rw (before_crlf-none text clean, before_lf_lem text clean, parse_line) refl

-- A clean text that ends in CRLF is read as that line, whatever follows it in the buffer; one that ends
-- in LF, with nothing behind it, is read as that line too. Clean means without NUL, LF and CR.
pub handle_read-line :
    (text tail : List ℕ)
    → IsClean text
    → (handle_read (bytes (text ++ 13 ∷ 10 ∷ tail)) ≡ line text)
      × (handle_read (bytes (text ++ 10 ∷ [])) ≡ line text)
unfolding c_string
handle_read-line text tail clean = (
  parsed text 13 (10 ∷ tail)
      ∙ ap parse_line (c_string-append text (13 ∷ 10 ∷ tail) clean)
      ∙ parse_crlf text (c_string tail) clean,
  parsed text 10 [] ∙ ap parse_line (c_string-append text (10 ∷ []) clean) ∙ parse_lf text clean,
)

-- A number below 10^6 in six digits.
abbrev pub six_digits : ℕ → List ℕ
six_digits n =
    (b'0' + n / 100000)
    ∷ (b'0' + n / 10000 % 10)
    ∷ (b'0' + n / 1000 % 10)
    ∷ (b'0' + n / 100 % 10)
    ∷ (b'0' + n / 10 % 10)
    ∷ (b'0' + n % 10)
    ∷ []

abbrev is_some : ℕ → Option ℕ → Bool
is_some k none = false
is_some k (some j) = k == j

is_some_lem : (k : ℕ) (o : Option ℕ) → is_some k o ≡ true → o ≡ some k
is_some_lem k none h = cc
is_some_lem k (some j) h = ap some (sym ((==_iff k j).0 h))

all_accepted : all_from (λ k. is_some k (valid_id (six_digits (902001 + k)))) 0 20 ≡ true
unfolding all_from valid_id
all_accepted = refl

-- The id of each of the 20 records, written in decimal, is valid and leads to that record.
pub valid_id-six_digits : (k : ℕ) → k < 20 → valid_id (six_digits (902001 + k)) ≡ some k
valid_id-six_digits k h =
    is_some_lem k _ (all_from_lem _ 0 20 k (omega arith) (omega (arith, h)) all_accepted)
